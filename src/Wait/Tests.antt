-- ===== src/Wait/Tests.antt =====
-- A processor with the tasks 5 and 7 in its run queue, the current task 6, and the semaphore at 200.
use system_studying.Base.{◌≡◌, refl, inl, some, [], ◌∷◌, arith, if◌then◌else◌, ltb, ◌==◌}
use system_studying.Base.Int.{pos, ◌≤ℤ◌}
use system_studying.Links.{Addr, Links}
use system_studying.Sched.{Task, max_long, vruntime}
use system_studying.Sched.Queue.{IsQueue}
use system_studying.Wait.{Waits, Semaphore, semaphore_down, semaphore_up}
use system_studying.Wait.Queue.{IsWaiting}
use system_studying.Wait.Join.{CanSleep}
use system_studying.Wait.Counter.{IsSemaphore, semaphore_down-IsSemaphore, semaphore_up-IsSemaphore}

abbrev task_at : Addr → Task
task_at t = record {
  state = if t == 8 then 4 else 1;
  flags = 0;
  priority = pos 2;
  vruntime = if ltb t 100 then pos t else max_long;
}

-- The run queue 5, 7, and a wait queue with the member `a`, or with none if `a` is its head.
abbrev links : Addr → Links
links a = record {
  next = λ x.
      if x == 100
      then 5
      else if x == 5
      then 7
      else if x == 7
      then 100
      else if x == 200
      then a
      else 200;
  prev = λ x.
      if x == 100
      then 7
      else if x == 7
      then 5
      else if x == 5
      then 100
      else if x == 200
      then a
      else 200;
}

abbrev waits : Addr → Waits
waits a = record {
  cpu = record {
    links = links a;
    tasks = task_at;
    head = 100;
    init = 1;
    current = 6;
    running_task_count = pos 3;
    exectask_jiffies = pos 0;
  };
  task = λ x. 8;
}

waits-IsQueue : (a : Addr) → IsQueue (waits a).cpu (5 ∷ 7 ∷ [])
waits-IsQueue a = record {
  ring = record { chain = (refl, refl, (refl, refl, (refl, refl))); distinct = omega arith };
  sorted = omega arith;
  counted = refl;
  sentinel = refl;
  idle = omega arith;
}

long : (a t : Addr) → vruntime (waits a).cpu t ≤ℤ max_long
long a t = ground arith

somebody : IsWaiting (waits 300) 200 (300 ∷ []) (5 ∷ 7 ∷ [])
somebody = record {
  queue = waits-IsQueue 300;
  ring = record { chain = (refl, refl, (refl, refl)); distinct = omega arith };
  apart = omega arith;
  sleepers = omega arith;
  distinct = omega arith;
  long = long 300;
}

can_wait : CanSleep (waits 300) 200 400 (300 ∷ []) (5 ∷ 7 ∷ [])
can_wait = record {
  new = omega arith;
  outside = omega arith;
  no_task = omega arith;
  not_idle = omega arith;
  not_queued = omega arith;
  no_member = omega arith;
  not_waiting = omega arith;
}

abbrev taken : Semaphore
taken = record { counter = pos 0; head = 200 }

semaphore_down-IsSemaphore_example :
    (sem' : Semaphore) × (w' : Waits) × (semaphore_down 9 400 taken (waits 300) ≡ some (sem', w'))
    × IsSemaphore sem' w' 0 (300 ∷ 400 ∷ []) (7 ∷ [])
    × (w'.cpu.current ≡ 5)
semaphore_down-IsSemaphore_example =
    semaphore_down-IsSemaphore 9 taken (waits 300) 400 0 (300 ∷ []) (5 ∷ 7 ∷ [])
      (record { waiting = somebody; count = refl; none_free = inl refl }) can_wait

semaphore_up-IsSemaphore_example :
    (sem' : Semaphore) × (w' : Waits) × (semaphore_up 9 taken (waits 300) ≡ some (sem', w'))
    × IsSemaphore sem' w' 0 [] (5 ∷ 7 ∷ 8 ∷ [])
semaphore_up-IsSemaphore_example =
    semaphore_up-IsSemaphore 9 taken (waits 300) 0 (300 ∷ []) (5 ∷ 7 ∷ [])
      (record { waiting = somebody; count = refl; none_free = inl refl }) (omega arith)
