-- ===== src/Driver/Queue.antt =====
-- The requests as a queue: the next one is sent when one has ended.
use system_studying.Base.{
  ℕ, suc, ◌+◌, ◌-◌, ◌%◌, ◌^◌, ◌<◌, ◌≡◌, ◌≢◌, refl, ◌∙◌, arith, Bool-cases, inl, inr, false, some,
  List, [], ◌∷◌, length, All, Fresh, ◌==◌,
}
use system_studying.Links.{Addr, list_next}
use system_studying.Links.Ops.{list_next-eq}
use system_studying.Links.Walk.{first_or}
use system_studying.Sched.Queue.{queued}
use system_studying.Wait.Queue.{
  IsWaiting, CanWake, tasks, resumed, shorter, shorter-IsWaiting, first-CanWake, roused-insert,
  resumed-IsWaiting,
}
use system_studying.Wait.Sleep.{rest}
use system_studying.Driver.{
  Ports, Node, Drive, is_busy, not_ready, no_request, read_cmd, write_cmd, poll, send, cmd_out,
  finished, end_request, program,
}

-- Each wait for the drive ends within `fuel` reads of its status.
pub record Answers (p : Ports) (fuel : ℕ) : Type 0 where
  pub gets_free : (w : p.World) → (w' : p.World) × (poll p fuel is_busy w ≡ some w')
  pub gets_ready : (w : p.World) → (w' : p.World) × (poll p fuel not_ready w ≡ some w')
  pub asks : (w : p.World) → (w' : p.World) × (poll p fuel no_request w ≡ some w')

-- The drive serves the node `b`, or none if `b` is 0, and the nodes `ws` wait, in the order of their
-- arrival, beside the run queue `xs`.
pub record IsDrive (p : Ports) (st : Drive p.World) (b : Addr) (ws xs : List Addr) : Type 0 where
  pub waiting : IsWaiting st.waits st.queue ws xs
  pub count : st.block_request_count ≡ length ws
  pub small : length ws < 2 ^ 64
  pub real : All (λ a. a ≢ 0) ws
  pub using : st.in_using ≡ b
  pub served :
      b ≢ 0
      → CanWake st.waits st.queue ws xs (st.waits.task b)
        × Fresh (st.waits.task b) (tasks st.waits.task ws)
  pub idle : b ≡ 0 → ws ≡ []

module _ (p : Ports) (fuel : ℕ) (answers : Answers p fuel) where
  send-some : (node : Node) (w : p.World) → (w' : p.World) × (send p fuel node w ≡ some w')
  send-some node w = elim (Bool-cases (node.cmd == write_cmd)) [
    | inl writes ↦
        let (w1, e1) = answers.gets_ready (program p node w) in
        let (w2, e2) = answers.asks (p.out8 0x1f7 write_cmd w1) in
        (p.outsw 0x1f0 node.buffer 256 w2, rw (writes, e1, e2) refl)
    | inr other ↦ elim (Bool-cases (node.cmd == read_cmd)) [
      | inl reads ↦
          let (w1, e1) = answers.gets_ready (program p node w) in
          (p.out8 0x1f7 read_cmd w1, rw (other, reads, e1) refl)
      | inr unknown ↦ (w, rw (other, unknown) refl)
    ]
  ]

  -- What `cmd_out` leaves.
  abbrev pub sent : Drive p.World → Addr → ℕ → p.World → Drive p.World
  sent st a n w = record st {
    in_using = a;
    waits = shorter st.waits a;
    block_request_count = n;
    world = w;
  }

  pub cmd_out-IsDrive :
      (st : Drive p.World) (a : Addr) (ws xs : List Addr)
      → IsWaiting st.waits st.queue (a ∷ ws) xs
      → st.block_request_count ≡ suc (length ws)
      → suc (length ws) < 2 ^ 64
      → All (λ a. a ≢ 0) (a ∷ ws)
      → (w : p.World) × (cmd_out p fuel st ≡ some (sent st a (length ws) w))
        × IsDrive p (sent st a (length ws) w) a ws xs
  unfolding cmd_out
  cmd_out-IsDrive st a ws xs h count small real =
      let found : list_next st.queue st.waits.cpu.links ≡ a =
        list_next-eq st.queue st.waits.cpu.links ∙ h.ring.chain.0 in
      let less : (suc (length ws) + 2 ^ 64 - 1) % 2 ^ 64 ≡ length ws = omega (arith, small) in
      let (w1, e1) = answers.gets_free st.world in
      let (w2, e2) = send-some (st.nodes a) w1 in
      (
        w2,
        rw (e1, found, e2, count, less) refl,
        record {
          waiting = shorter-IsWaiting st.waits st.queue a ws xs h;
          count = refl;
          small = omega (arith, small);
          real = real.1;
          using = refl;
          served = λ ne. (first-CanWake st.waits st.queue a ws xs h, h.distinct.0);
          idle = λ e. absurd (real.0 e);
        },
      )

  -- The end of the request `b`.
  abbrev ended : Drive p.World → Addr → List Addr → Drive p.World
  ended st b xs = record st {
    waits = resumed st.waits (st.waits.task b) xs;
    world = p.kfree st.in_using st.world;
    in_using = 0;
  }

  finished-ended :
      (sched_fuel : ℕ) (st : Drive p.World) (b : Addr) (ws xs : List Addr)
      → IsDrive p st b ws xs
      → b ≢ 0
      → length xs < sched_fuel
      → finished p sched_fuel b st ≡ some (ended st b xs)
  finished-ended sched_fuel st b ws xs h ne enough =
      let (can, alone) = h.served ne in
      rw
        (roused-insert sched_fuel st.waits st.queue (st.waits.task b) ws xs h.waiting can alone
          enough).0
        refl

  -- `end_request` takes the task of the request in use to the run queue, behind those that have run
  -- less, and sends the next request, if there is one.
  pub end_request-IsDrive :
      (sched_fuel : ℕ) (st : Drive p.World) (b : Addr) (ws xs : List Addr)
      → IsDrive p st b ws xs
      → b ≢ 0
      → length xs < sched_fuel
      → (st' : Drive p.World) × (end_request p fuel sched_fuel b st ≡ some st')
        × IsDrive p st' (first_or 0 ws) (rest ws) (queued st.waits.cpu (st.waits.task b) xs)
  unfolding end_request
  end_request-IsDrive sched_fuel st b [] xs h ne enough =
      let (can, alone) = h.served ne in
      let e = finished-ended sched_fuel st b [] xs h ne enough in
      (
        ended st b xs,
        rw (e, h.count) refl,
        record {
          waiting =
              resumed-IsWaiting sched_fuel st.waits st.queue (st.waits.task b) [] xs h.waiting can
                alone enough;
          count = h.count;
          small = h.small;
          real = tt;
          using = refl;
          served = λ zero_ne. absurd (zero_ne refl);
          idle = λ z. refl;
        },
      )
  end_request-IsDrive sched_fuel st b (a ∷ ws) xs h ne enough =
      let (can, alone) = h.served ne in
      let e = finished-ended sched_fuel st b (a ∷ ws) xs h ne enough in
      let more : (st.block_request_count == 0) ≡ false = ground (arith, h.count) in
      let (w, run, drive) =
        cmd_out-IsDrive (ended st b xs) a ws (queued st.waits.cpu (st.waits.task b) xs)
          (resumed-IsWaiting sched_fuel st.waits st.queue (st.waits.task b) (a ∷ ws) xs h.waiting
            can alone enough)
          h.count h.small h.real in
      (_, rw (e, more, run) refl, drive)
