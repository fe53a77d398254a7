-- ===== src/Wait/Counter.antt =====
-- A semaphore as a count and the queue of those that wait for it.
use system_studying.Wait.{semaphore_init, Waits, Semaphore, semaphore_down, semaphore_up}
use system_studying.Wait.Join.{wait_queue_init-IsWaiting, CanSleep}
use system_studying.Sched.Queue.{IsQueue, queued}
use system_studying.Sched.{vruntime, max_long, Cpu, task_uninterruptible}
use system_studying.Base.{
  Fresh, ◌^◌, ℕ, zero, suc, ◌+◌, ◌-◌, ◌<◌, ◌≡◌, ◌⊎◌, inl, inr, refl, ◌∙◌, arith, true, false, some,
  List, [], ◌∷◌, ◌++◌, length,
}
use system_studying.Base.Int.{◌≤ℤ◌, pos, ◌+ℤ◌, ◌-ℤ◌, ltb_ℤ}
use system_studying.Wait.Queue.{woken-insert, IsWaiting, woken, woken-IsWaiting}
use system_studying.Links.{Addr, list_next}
use system_studying.Links.Ops.{list_next-eq, is_empty-nil, is_empty-cons}
use system_studying.Links.Walk.{first_or}
use system_studying.Wait.Sleep.{rest, leave-IsWaiting}

-- The semaphore has `n` units, and none if somebody waits.
pub record IsSemaphore (sem : Semaphore) (w : Waits) (n : ℕ) (ws xs : List Addr) : Type 0 where
  pub waiting : IsWaiting w sem.head ws xs
  pub count : sem.counter ≡ pos n
  pub none_free : (n ≡ 0) ⊎ (ws ≡ [])

-- The queues behind a `semaphore_down`, and behind a `semaphore_up`.
abbrev pub joined : ℕ → Addr → List Addr → List Addr
joined zero wait ws = ws ++ wait ∷ []
joined (suc n) wait ws = ws

abbrev pub still_queued : ℕ → List Addr → List Addr
still_queued zero xs = rest xs
still_queued (suc n) xs = xs

abbrev pub next_current : ℕ → Cpu → List Addr → Addr
next_current zero c xs = first_or c.init xs
next_current (suc n) c xs = c.current

abbrev pub units_after : ℕ → List Addr → ℕ
units_after n [] = n + 1
units_after n (a ∷ ws) = n

abbrev pub run_queue : Waits → List Addr → List Addr → List Addr
run_queue w [] xs = xs
run_queue w (a ∷ ws) xs = queued w.cpu (w.task a) xs

-- `semaphore_down` takes a unit if there is one. Else the current task waits behind the others, and the
-- first of the run queue has the processor, or the idle task.
pub semaphore_down-IsSemaphore :
    (fuel : ℕ) (sem : Semaphore) (w : Waits) (wait : Addr) (n : ℕ) (ws xs : List Addr)
    → IsSemaphore sem w n ws xs
    → CanSleep w sem.head wait ws xs
    → (sem' : Semaphore) × (w' : Waits) × (semaphore_down fuel wait sem w ≡ some (sem', w'))
      × IsSemaphore sem' w' (n - 1) (joined n wait ws) (still_queued n xs)
      × (w'.cpu.current ≡ next_current n w.cpu xs)
unfolding semaphore_down
semaphore_down-IsSemaphore fuel sem w wait zero ws xs h can =
    let none : ltb_ℤ (pos 0) sem.counter ≡ false = ground (arith, h.count) in
    let (w', run, now, waiting) =
      leave-IsWaiting fuel task_uninterruptible w sem.head wait ws xs h.waiting can (omega arith) in
    (
      sem,
      w',
      rw (none, run) refl,
      record { waiting = waiting; count = h.count; none_free = inl refl },
      now,
    )
semaphore_down-IsSemaphore fuel sem w wait (suc n) ws xs h can =
    let some_unit : ltb_ℤ (pos 0) sem.counter ≡ true = ground (arith, h.count) in
    let empty : ws ≡ [] = elim h.none_free [ inl e ↦ absurd (omega (arith, e)) | inr e ↦ e ] in
    (
      record sem { counter = sem.counter -ℤ pos 1 },
      w,
      rw some_unit refl,
      record { waiting = h.waiting; count = ground (arith, h.count); none_free = inr empty },
      refl,
    )

-- `semaphore_up` gives the unit to the first that waits, whose task goes to the run queue behind those
-- that have run less, or else counts it.
pub semaphore_up-IsSemaphore :
    (fuel : ℕ) (sem : Semaphore) (w : Waits) (n : ℕ) (ws xs : List Addr)
    → IsSemaphore sem w n ws xs
    → length xs < fuel
    → (sem' : Semaphore) × (w' : Waits) × (semaphore_up fuel sem w ≡ some (sem', w'))
      × IsSemaphore sem' w' (units_after n ws) (rest ws) (run_queue w ws xs)
unfolding semaphore_up
semaphore_up-IsSemaphore fuel sem w n [] xs h enough = (
  record sem { counter = sem.counter +ℤ pos 1 },
  w,
  rw (is_empty-nil w.cpu.links sem.head h.waiting.ring) refl,
  record { waiting = h.waiting; count = ground (arith, h.count); none_free = inr refl },
)
semaphore_up-IsSemaphore fuel sem w n (a ∷ ws) xs h enough =
    let found : list_next sem.head w.cpu.links ≡ a =
      list_next-eq sem.head w.cpu.links ∙ h.waiting.ring.chain.0 in
    (
      sem,
      woken w a xs,
      rw
          (
            is_empty-cons w.cpu.links sem.head a ws h.waiting.ring,
            found,
            woken-insert fuel w sem.head a ws xs h.waiting enough,
          )
          refl,
      record {
        waiting = woken-IsWaiting fuel w sem.head a ws xs h.waiting enough;
        count = h.count;
        none_free = elim h.none_free [ inl e ↦ inl e | inr e ↦ absurd (cc) ];
      },
    )

-- `semaphore_init` with a number that a `long` holds makes a semaphore for which nobody waits.
pub semaphore_init-IsSemaphore :
    (head count : ℕ) (w : Waits) (xs : List Addr)
    → IsQueue w.cpu xs
    → Fresh head (w.cpu.head ∷ xs)
    → ((u : Addr) → vruntime w.cpu u ≤ℤ max_long)
    → count < 2 ^ 63
    → let (sem, w') = semaphore_init head count w in IsSemaphore sem w' count [] xs
unfolding semaphore_init
semaphore_init-IsSemaphore head count w xs q f long small = record {
  waiting = wait_queue_init-IsWaiting w head 0 xs q f long;
  count = ground arith;
  none_free = inr refl;
}
