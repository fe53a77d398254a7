-- ===== src/Driver/Service.antt =====
-- The interrupts of the drive serve a request to its end.
use system_studying.Base.{
  ℕ, zero, suc, ◌+◌, ◌-◌, ◌%◌, ◌^◌, ◌<◌, ◌≡◌, ◌≢◌, refl, ap, ◌∙◌, arith, true, false, Option, some,
  List, length, ◌==◌,
}
use system_studying.Links.{Addr, update}
use system_studying.Links.Walk.{first_or}
use system_studying.Sched.{◌>>=◌}
use system_studying.Sched.Queue.{queued}
use system_studying.Wait.Sleep.{rest}
use system_studying.Driver.{
  Ports, Handler, read_end, write_end, other_end, Node, Drive, end_request,
}
use system_studying.Driver.Handlers.{
  handle, counted_down, moved_on, with_node, looked, received, disk_handler, read_handler,
  write_handler,
}
use system_studying.Driver.Queue.{Answers, IsDrive, end_request-IsDrive}

IsDrive-with_node :
    (p : Ports) (st : Drive p.World) (a b : Addr) (node : Node) (w : p.World) (ws xs : List Addr)
    → IsDrive p st b ws xs
    → IsDrive p (with_node p a node w st) b ws xs
IsDrive-with_node p st a b node w ws xs h = record {
  waiting = h.waiting;
  count = h.count;
  small = h.small;
  real = h.real;
  using = h.using;
  served = h.served;
  idle = h.idle;
}

-- A handler that counts sectors.
abbrev pub Counts : Handler → Type 0
Counts read_end = Unit
Counts write_end = Unit
Counts other_end = ⊥

module _ (p : Ports) (fuel : ℕ) (answers : Answers p fuel) (sched_fuel : ℕ) where
  -- `n` interrupts of the drive.
  unfoldable pub interrupts : ℕ → Drive p.World → Option (Drive p.World)
  unfolding disk_handler
  interrupts zero st = some st
  interrupts (suc n) st = disk_handler p fuel sched_fuel st >>= interrupts n

  disk_handler-handle :
      (st : Drive p.World) (h : Handler)
      → (st.nodes st.in_using).end_handler ≡ h
      → st.in_using ≢ 0
      → disk_handler p fuel sched_fuel st ≡ handle p h fuel sched_fuel st
  unfolding disk_handler
  disk_handler-handle st h e ne =
      let real : (st.in_using == 0) ≡ false = ground arith in
      rw real (ap (λ k. handle p k fuel sched_fuel st) e)

  -- A sector before the last.
  handle_more :
      (st : Drive p.World) (h : Handler) (n : ℕ)
      → Counts h
      → (st.nodes st.in_using).count ≡ suc (suc n)
      → suc (suc n) < 2 ^ 32
      → (w : p.World) × (handle p h fuel sched_fuel st
          ≡ some (with_node p st.in_using (moved_on p (st.nodes st.in_using)) w st))
  unfolding read_handler write_handler
  handle_more st read_end n counts count small =
      let left : (((st.nodes st.in_using).count + 2 ^ 32 - 1) % 2 ^ 32 == 0) ≡ false =
        ground arith in
      (received p st, rw left refl)
  handle_more st write_end n counts count small =
      let left : (((st.nodes st.in_using).count + 2 ^ 32 - 1) % 2 ^ 32 == 0) ≡ false =
        ground arith in
      let (w, run) = answers.asks (looked p st) in
      (p.outsw 0x1f0 (moved_on p (st.nodes st.in_using)).buffer 256 w, rw (left, run) refl)
  handle_more st other_end n counts count small = absurd counts

  -- The last sector: the request ends.
  handle_last :
      (st : Drive p.World) (h : Handler)
      → Counts h
      → (st.nodes st.in_using).count ≡ 1
      → (w : p.World) × (handle p h fuel sched_fuel st
          ≡ end_request p fuel sched_fuel st.in_using
              (with_node p st.in_using (counted_down p (st.nodes st.in_using)) w st))
  unfolding read_handler write_handler
  handle_last st read_end counts count =
      let over : (((st.nodes st.in_using).count + 2 ^ 32 - 1) % 2 ^ 32 == 0) ≡ true =
        ground arith in
      (received p st, rw over refl)
  handle_last st write_end counts count =
      let over : (((st.nodes st.in_using).count + 2 ^ 32 - 1) % 2 ^ 32 == 0) ≡ true =
        ground arith in
      (looked p st, rw over refl)
  handle_last st other_end counts count = absurd counts

  bind-some : {A : Type 0} (o : Option A) (a : A) (f : A → Option A) → o ≡ some a → (o >>= f) ≡ f a
  bind-some o a f e = rw e refl

  counted_node :
      (st : Drive p.World) (n : ℕ) (w : p.World)
      → (st.nodes st.in_using).count ≡ suc (suc n)
      → suc (suc n) < 2 ^ 32
      → Counts (st.nodes st.in_using).end_handler
      → let st1 = with_node p st.in_using (moved_on p (st.nodes st.in_using)) w st in
        Counts (st1.nodes st1.in_using).end_handler × ((st1.nodes st1.in_using).count ≡ suc n)
  unfolding update
  counted_node st n w count small counts =
      let same : (st.in_using == st.in_using) ≡ true = ground arith in
      rw same (counts, omega (arith, count, small))

  -- A request of `n + 1` sectors, by a handler that counts sectors, ends with the interrupt `n + 1`: its
  -- task goes to the run queue, and the next request is in use, if there is one.
  pub interrupts-IsDrive :
      (n : ℕ) (st : Drive p.World) (ws xs : List Addr)
      → IsDrive p st st.in_using ws xs
      → st.in_using ≢ 0
      → Counts (st.nodes st.in_using).end_handler
      → (st.nodes st.in_using).count ≡ suc n
      → suc n < 2 ^ 32
      → length xs < sched_fuel
      → (st' : Drive p.World) × (interrupts (suc n) st ≡ some st')
        × IsDrive p st'
            (first_or 0 ws)
            (rest ws)
            (queued st.waits.cpu (st.waits.task st.in_using) xs)
  unfolding interrupts
  interrupts-IsDrive zero st ws xs drive ne counts count small enough =
      let h = (st.nodes st.in_using).end_handler in
      let node = counted_down p (st.nodes st.in_using) in
      let (w, ends) = handle_last st h counts count in
      let (st', run, next) =
        end_request-IsDrive p fuel answers sched_fuel (with_node p st.in_using node w st)
          st.in_using ws xs (IsDrive-with_node p st st.in_using st.in_using node w ws xs drive) ne
          enough in
      (
        st',
        bind-some (disk_handler p fuel sched_fuel st) st' (interrupts zero)
            (disk_handler-handle st h refl ne ∙ ends ∙ run),
        next,
      )
  interrupts-IsDrive (suc n) st ws xs drive ne counts count small enough =
      let h = (st.nodes st.in_using).end_handler in
      let node = moved_on p (st.nodes st.in_using) in
      let (w, one) = handle_more st h n counts count small in
      let st1 = with_node p st.in_using node w st in
      let (counts', count') = counted_node st n w count small counts in
      let (st', run, next) =
        interrupts-IsDrive n st1 ws xs
          (IsDrive-with_node p st st.in_using st.in_using node w ws xs drive) ne counts' count'
          (omega (arith, small)) enough in
      (
        st',
        bind-some (disk_handler p fuel sched_fuel st) st1 (interrupts (suc n))
              (disk_handler-handle st h refl ne ∙ one)
            ∙ run,
        next,
      )
