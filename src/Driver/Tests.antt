-- ===== src/Driver/Tests.antt =====
-- A drive that is always ready, with two sectors to go for the node 500 and the node 300 waiting; the
-- tasks 5 and 7 are in the run queue, and 6 is the current one.
use system_studying.Base.{
  ℕ, ◌+◌, ◌/◌, ◌^◌, ◌≡◌, refl, inr, some, [], ◌∷◌, arith, if◌then◌else◌, ltb, ◌==◌, true, false,
}
use system_studying.Base.Int.{pos}
use system_studying.Links.{Addr, Links}
use system_studying.Sched.{Task, max_long}
use system_studying.Wait.{Waits}
use system_studying.Wait.Queue.{IsWaiting}
use system_studying.Driver.Handed.{Handed}
use system_studying.Driver.{Ports, Node, read_end, write_end, Drive, poll, program}
use system_studying.Driver.Calls.{disk_transfer}
use system_studying.Driver.Queue.{Answers, IsDrive}
use system_studying.Driver.Service.{interrupts, interrupts-IsDrive}
use system_studying.Driver.Submit.{disk_transfer-IsDrive}
use system_studying.Driver.HandIn.{CanSubmit}
use system_studying.Driver.Address.{Latches, address, program-address}

abbrev ports : Ports
ports = record {
  World = ℕ → ℕ;
  in8 = λ k w. (72, w);
  out8 = λ k v w l. if l == k then v else w l;
  insw = λ k a n w. w;
  outsw = λ k a n w. w;
  kfree = λ a w. w;
}

ports-Answers : Answers ports 1
unfolding poll
ports-Answers = record {
  gets_free = λ w. (w, refl);
  gets_ready = λ w. (w, refl);
  asks = λ w. (w, refl);
}

abbrev task_at : Addr → Task
task_at t = record {
  state = 1;
  flags = 0;
  priority = pos 2;
  vruntime = if ltb t 100 then pos t else max_long;
}

-- The run queue 5, 7 and the queue of requests with the node 300.
abbrev links : Links
links = record {
  next = λ x.
      if x == 100
      then 5
      else if x == 5
      then 7
      else if x == 7
      then 100
      else if x == 200
      then 300
      else 200;
  prev = λ x.
      if x == 100
      then 7
      else if x == 7
      then 5
      else if x == 5
      then 100
      else if x == 200
      then 300
      else 200;
}

abbrev waits : Waits
waits = record {
  cpu = record {
    links = links;
    tasks = task_at;
    head = 100;
    init = 1;
    current = 6;
    running_task_count = pos 3;
    exectask_jiffies = pos 0;
  };
  task = λ x. if x == 300 then 9 else 8;
}

waits-IsWaiting : IsWaiting waits 200 (300 ∷ []) (5 ∷ 7 ∷ [])
waits-IsWaiting = record {
  queue = record {
    ring = record { chain = (refl, refl, (refl, refl, (refl, refl))); distinct = omega arith };
    sorted = omega arith;
    counted = refl;
    sentinel = refl;
    idle = omega arith;
  };
  ring = record { chain = (refl, refl, (refl, refl)); distinct = omega arith };
  apart = omega arith;
  sleepers = omega arith;
  distinct = omega arith;
  long = λ t. ground arith;
}

abbrev node : Node
node = record {
  count = 2;
  cmd = 0x20;
  lba = 2 ^ 28 + 0x1020304;
  buffer = 4096;
  end_handler = read_end;
}

abbrev drive : Drive (ℕ → ℕ)
drive = record {
  waits = waits;
  world = λ k. 0;
  nodes = λ a. node;
  queue = 200;
  in_using = 500;
  block_request_count = 1;
}

drive-IsDrive : IsDrive ports drive 500 (300 ∷ []) (5 ∷ 7 ∷ [])
drive-IsDrive = record {
  waiting = waits-IsWaiting;
  count = refl;
  small = omega arith;
  real = omega arith;
  using = refl;
  served = λ ne. omega arith;
  idle = λ e. absurd (omega (arith, e));
}

interrupts-IsDrive_example :
    (st' : Drive (ℕ → ℕ)) × (interrupts ports 1 ports-Answers 3 2 drive ≡ some st')
    × IsDrive ports st' 300 [] (5 ∷ 7 ∷ 8 ∷ [])
interrupts-IsDrive_example =
    interrupts-IsDrive ports 1 ports-Answers 3 1 drive (300 ∷ []) (5 ∷ 7 ∷ []) drive-IsDrive
      (omega arith) tt refl (omega arith) (omega arith)

can_submit : CanSubmit ports drive 500 400 (300 ∷ []) (5 ∷ 7 ∷ [])
can_submit = record {
  sleep = record {
    new = omega arith;
    outside = omega arith;
    no_task = omega arith;
    not_idle = omega arith;
    not_queued = omega arith;
    no_member = omega arith;
    not_waiting = omega arith;
  };
  real = omega arith;
  other = omega arith;
  no_task = λ ne. omega arith;
  not_served = λ ne. omega arith;
  room = omega arith;
}

disk_transfer-IsDrive_example :
    (st' : Drive (ℕ → ℕ)) × (disk_transfer ports 1 3 400 0x30 7 1 8192 drive ≡ some (1, st'))
    × (st'.waits.cpu.current ≡ 5)
    × Handed drive st' 400
        (record { count = 1; cmd = 0x30; lba = 7; buffer = 8192; end_handler = write_end })
    × IsDrive ports st' 500 (300 ∷ 400 ∷ []) (7 ∷ [])
disk_transfer-IsDrive_example =
    disk_transfer-IsDrive ports 1 ports-Answers 400 (5 ∷ 7 ∷ []) 3 0x30 7 1 8192 500 drive
      (300 ∷ []) (inr refl) drive-IsDrive can_submit

ports-Latches : Latches ports (λ w. w)
ports-Latches = record {
  latched = λ k v w. let e : (k == k) ≡ true = ground arith in rw e refl;
  kept = λ k l v w ne. let e : (l == k) ≡ false = ground arith in rw e refl;
}

program-address_example :
    let reg = program ports node (λ k. 0) in
    (address reg ≡ 0x1020304) × (reg 0x1f2 ≡ 2) × (reg 0x1f6 / 2 ^ 4 ≡ 14)
program-address_example = program-address ports (λ w. w) ports-Latches node (λ k. 0)
