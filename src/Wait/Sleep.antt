-- ===== src/Wait/Sleep.antt =====
-- The current task enters a wait queue and gives up the processor.
use system_studying.Base.{
  ℕ, ◌≡◌, ◌≢◌, refl, sym, subst, arith, Bool-cases, inl, inr, true, false, some, List, [], ◌∷◌,
  ◌++◌, All, All-mono, Fresh, ◌==◌,
}
use system_studying.Base.Int.{ℤ, ◌≤ℤ◌, ltb_ℤ}
use system_studying.Links.{Addr, update}
use system_studying.Links.Walk.{first_or}
use system_studying.Links.Other.{delete-IsRing-other}
use system_studying.Sched.{
  Task, set_state, Cpu, max_long, vruntime, is_running, task_running, schedule, choose, give_up,
}
use system_studying.Sched.Queue.{IsQueue, dequeued, get_next_task-nil, get_next_task-cons}
use system_studying.Sched.Pick.{unflagged, unflagged-IsQueue, unflagged-vruntime, renew_slice-some}
use system_studying.Wait.{Waits, wait_queue_init, enter, leave}
use system_studying.Wait.Join.{CanSleep, added, added-IsWaiting}
use system_studying.Wait.Queue.{IsQueue-update, vruntime-update, IsWaiting, CanWake, tasks}

abbrev pub rest : List Addr → List Addr
rest [] = []
rest (x ∷ xs) = xs

-- The processor once its task has stopped and the first of the queue, or the idle task, has it.
abbrev pub given : Cpu → List Addr → ℤ → Cpu
given c [] i = record (unflagged c) { exectask_jiffies = i; current = c.init }
given c (x ∷ xs) i = record (dequeued (unflagged c) x) { exectask_jiffies = i; current = x }

given-current : (c : Cpu) (xs : List Addr) (i : ℤ) → (given c xs i).current ≡ first_or c.init xs
given-current c [] i = refl
given-current c (x ∷ xs) i = refl

choose-stopped :
    (fuel : ℕ) (c : Cpu) (task : Addr) (xs : List Addr)
    → IsQueue c xs
    → is_running c c.current ≡ false
    → (i : ℤ) × (choose fuel c.current task c
        ≡ some (record c { exectask_jiffies = i; current = task }))
unfolding choose give_up
choose-stopped fuel c task xs q stop =
    let (i, e) = renew_slice-some c task xs q in
    elim (Bool-cases (ltb_ℤ (vruntime c c.current) (vruntime c task))) [
      | inl less ↦ (i, rw (less, stop, e))
      | inr more ↦ (i, rw (more, stop, e))
    ]

unflagged-stopped :
    (c : Cpu) → is_running c c.current ≡ false → is_running (unflagged c) c.current ≡ false
unfolding update
unflagged-stopped c stop = let same : (c.current == c.current) ≡ true = ground arith in rw same stop

IsQueue-given :
    (c : Cpu) (task : Addr) (i : ℤ) (xs : List Addr)
    → IsQueue c xs
    → IsQueue (record c { exectask_jiffies = i; current = task }) xs
IsQueue-given c task i xs q = record {
  ring = q.ring;
  sorted = q.sorted;
  counted = q.counted;
  sentinel = q.sentinel;
  idle = q.idle;
}

-- `schedule` with a current task that does not run.
pub schedule-stopped :
    (fuel : ℕ) (c : Cpu) (xs : List Addr)
    → IsQueue c xs
    → is_running c c.current ≡ false
    → (i : ℤ) × (schedule fuel c ≡ some (given c xs i)) × IsQueue (given c xs i) (rest xs)
unfolding schedule
schedule-stopped fuel c [] q stop =
    let d = unflagged c in
    let q' = unflagged-IsQueue c [] q in
    let (i, e) = choose-stopped fuel d c.init [] q' (unflagged-stopped c stop) in
    (i, rw (get_next_task-nil d q') e, IsQueue-given d c.init i [] q')
schedule-stopped fuel c (x ∷ xs) q stop =
    let d = unflagged c in
    let (e, r, least) = get_next_task-cons d x xs (unflagged-IsQueue c (x ∷ xs) q) in
    let (i, e') = choose-stopped fuel (dequeued d x) x xs r (unflagged-stopped c stop) in
    (i, rw e e', IsQueue-given (dequeued d x) x i xs r)

-- A change of a task that spares its `vruntime` changes nothing for the queues.
pub IsWaiting-update :
    (w : Waits) (t : Addr) (v : Task) (head : Addr) (ws xs : List Addr)
    → v.vruntime ≡ vruntime w.cpu t
    → IsWaiting w head ws xs
    → IsWaiting (record w { cpu = record w.cpu { tasks = update w.cpu.tasks t v } }) head ws xs
IsWaiting-update w t v head ws xs same h = record {
  queue = IsQueue-update w.cpu t v xs same h.queue;
  ring = h.ring;
  apart = h.apart;
  sleepers = h.sleepers;
  distinct = h.distinct;
  long = λ u. subst (λ k. k u ≤ℤ max_long) (sym (vruntime-update w.cpu t v same)) (h.long u);
}

-- `schedule` with a stopped task in a state with a wait queue.
abbrev pub gone : Waits → List Addr → ℤ → Waits
gone w xs i = record w { cpu = given w.cpu xs i }

pub CanWake-rest :
    (w : Waits) (head x : Addr) (ws xs ts : List Addr)
    → All (CanWake w head ws (x ∷ xs)) ts
    → All (CanWake w head ws xs) ts
CanWake-rest w head x ws xs [] a = tt
CanWake-rest w head x ws xs (t ∷ ts) a =
    ((a.0.0, (a.0.1.0, a.0.1.1.1), a.0.2), CanWake-rest w head x ws xs ts a.1)

gone-IsWaiting :
    (w : Waits) (head : Addr) (ws xs : List Addr) (i : ℤ)
    → IsWaiting w head ws xs
    → IsQueue (given w.cpu xs i) (rest xs)
    → IsWaiting (gone w xs i) head ws (rest xs)
gone-IsWaiting w head ws [] i h q = record {
  queue = q;
  ring = h.ring;
  apart = h.apart;
  sleepers = h.sleepers;
  distinct = h.distinct;
  long = λ t. subst (λ k. k t ≤ℤ max_long) (sym (unflagged-vruntime w.cpu)) (h.long t);
}
gone-IsWaiting w head ws (x ∷ xs) i h q = record {
  queue = q;
  ring = delete-IsRing-other w.cpu.links w.cpu.head x head [] xs ws h.queue.ring h.apart h.ring;
  apart =
      All-mono (λ c. Fresh c (w.cpu.head ∷ x ∷ xs)) (λ c. Fresh c (w.cpu.head ∷ xs)) (head ∷ ws)
        (λ c f. (f.0, f.1.1)) h.apart;
  sleepers = CanWake-rest w head x ws xs (tasks w.task ws) h.sleepers;
  distinct = h.distinct;
  long = λ t. subst (λ k. k t ≤ℤ max_long) (sym (unflagged-vruntime w.cpu)) (h.long t);
}

-- The current task gets a state in which it does not run.
abbrev pub stopping : ℕ → Waits → Waits
stopping n w = record w { cpu = set_state w.cpu.current n w.cpu }

pub stopping-stopped :
    (n : ℕ) (w : Waits) → n ≢ task_running → is_running (stopping n w).cpu w.cpu.current ≡ false
unfolding update
stopping-stopped n w stops =
    let same : (w.cpu.current == w.cpu.current) ≡ true = ground arith in
    let other : (n == task_running) ≡ false = ground arith in rw same other

-- Then `schedule` gives the processor to the first of the run queue.
pub schedule-IsWaiting :
    (fuel n : ℕ) (w : Waits) (head : Addr) (ws xs : List Addr)
    → IsWaiting w head ws xs
    → n ≢ task_running
    → (i : ℤ) × (schedule fuel (stopping n w).cpu ≡ some (given (stopping n w).cpu xs i))
      × ((given (stopping n w).cpu xs i).current ≡ first_or w.cpu.init xs)
      × IsWaiting (gone (stopping n w) xs i) head ws (rest xs)
schedule-IsWaiting fuel n w head ws xs h stops =
    let s = stopping n w in
    let h' =
      IsWaiting-update w w.cpu.current (record (w.cpu.tasks w.cpu.current) { state = n }) head ws xs
        refl h in
    let (i, run, q) = schedule-stopped fuel s.cpu xs h'.queue (stopping-stopped n w stops) in
    (i, run, given-current s.cpu xs i, gone-IsWaiting s head ws xs i h' q)

leave-some :
    (fuel : ℕ) (w : Waits) (c : Cpu)
    → schedule fuel w.cpu ≡ some c
    → leave fuel w ≡ some (record w { cpu = c })
leave-some fuel w c e = rw e refl

-- A task that goes to sleep with a state that is not TASK_RUNNING.
pub leave-IsWaiting :
    (fuel n : ℕ) (w : Waits) (head wait : Addr) (ws xs : List Addr)
    → IsWaiting w head ws xs
    → CanSleep w head wait ws xs
    → n ≢ task_running
    → (w' : Waits) × (leave fuel (enter n wait head w) ≡ some w')
      × (w'.cpu.current ≡ first_or w.cpu.init xs)
      × IsWaiting w' head (ws ++ wait ∷ []) (rest xs)
unfolding enter wait_queue_init
leave-IsWaiting fuel n w head wait ws xs h can stops =
    let h' = added-IsWaiting w head wait ws xs h can in
    let (i, run, now, done) =
      schedule-IsWaiting fuel n (added w head wait) head (ws ++ wait ∷ []) xs h' stops in
    let e = stopping n (added w head wait) in
    (gone e xs i, leave-some fuel e (given e.cpu xs i) run, now, done)
