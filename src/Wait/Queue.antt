-- ===== src/Wait/Queue.antt =====
-- A wait queue beside the run queue: `wakeup` takes its first member to the run queue.
use mathlib.Core.Path.{fun_ext}
use Prim.Native.Nat.{bit_and}
use system_studying.Base.{
  ℕ, ◌<◌, ◌≡◌, ◌≢◌, refl, sym, subst, ap, ◌∙◌, arith, Bool-cases, inl, inr, false, some, List, [],
  ◌∷◌, ◌++◌, length, All, Fresh, Apart, Apart-symm, Distinct, ◌==◌,
}
use system_studying.Base.Int.{◌≤ℤ◌, ltb_ℤ}
use system_studying.Links.{Addr, Links, update, list_delete, list_next}
use system_studying.Links.Ring.{IsRing}
use system_studying.Links.Ops.{list_next-eq, is_empty-cons, delete-at}
use system_studying.Links.Walk.{passed, left, passed-append-left}
use system_studying.Links.Other.{delete-IsRing-other, before_first-IsRing-other}
use system_studying.Sched.{
  Task, Cpu, max_long, vruntime, set_state, task_running, insert_task_queue, runs_before,
}
use system_studying.Sched.Queue.{
  IsQueue, SortedBy, queued, inserted, insert_task_queue-IsQueue, All-queued,
}
use system_studying.Wait.{Waits, ask_schedule, without, wakeup, wakeup_process}

-- A change of a task that spares its `vruntime`.
pub vruntime-update :
    (c : Cpu) (t : Addr) (v : Task)
    → v.vruntime ≡ vruntime c t
    → vruntime (record c { tasks = update c.tasks t v }) ≡ vruntime c
unfolding update
vruntime-update c t v h = fun_ext (λ y. elim (Bool-cases (y == t)) [
  | inl e ↦ let same : y ≡ t = ground arith in rw (e, vruntime) (rw (same, h))
  | inr e ↦ rw (e, vruntime)
])

pub IsQueue-update :
    (c : Cpu) (t : Addr) (v : Task) (xs : List Addr)
    → v.vruntime ≡ vruntime c t
    → IsQueue c xs
    → IsQueue (record c { tasks = update c.tasks t v }) xs
IsQueue-update c t v xs h q = record {
  ring = q.ring;
  sorted = subst (λ k. SortedBy k xs) (sym (vruntime-update c t v h)) q.sorted;
  counted = q.counted;
  sentinel = ap (λ k. k c.head) (vruntime-update c t v h) ∙ q.sentinel;
  idle = q.idle;
}

pub IsQueue-links :
    (c : Cpu) (s : Links) (xs : List Addr)
    → IsRing s c.head xs
    → IsQueue c xs
    → IsQueue (record c { links = s }) xs
IsQueue-links c s xs r q = record {
  ring = r;
  sorted = q.sorted;
  counted = q.counted;
  sentinel = q.sentinel;
  idle = q.idle;
}

-- The tasks of the members.
abbrev pub tasks : (Addr → Addr) → List Addr → List Addr
tasks f [] = []
tasks f (a ∷ ws) = f a ∷ tasks f ws

-- The task of a member is not the idle one, not in the run queue, and apart from the wait queue.
abbrev pub CanWake : Waits → Addr → List Addr → List Addr → Addr → Type 0
CanWake w head ws xs t = (t ≢ w.cpu.init) × Fresh t (w.cpu.head ∷ xs) × Fresh t (head ∷ ws)

-- Beside the run queue `xs` the wait queue of `head` has the members `ws`, in the order of their arrival.
pub record IsWaiting (w : Waits) (head : Addr) (ws xs : List Addr) : Type 0 where
  pub queue : IsQueue w.cpu xs
  pub ring : IsRing w.cpu.links head ws
  pub apart : Apart (head ∷ ws) (w.cpu.head ∷ xs)
  pub sleepers : All (CanWake w head ws xs) (tasks w.task ws)
  pub distinct : Distinct (tasks w.task ws)
  pub long : (t : Addr) → vruntime w.cpu t ≤ℤ max_long

-- The state with the task `t` in the run queue.
abbrev pub resumed : Waits → Addr → List Addr → Waits
resumed w t xs = record w { cpu = ask_schedule (inserted (set_state t task_running w.cpu) t xs) }

-- The state without the first member `a`.
abbrev pub shorter : Waits → Addr → Waits
shorter w a = record w { cpu = without a w.cpu }

set_state-queued :
    (c : Cpu) (t : Addr) (n : ℕ) (xs : List Addr) → queued (set_state t n c) t xs ≡ queued c t xs
set_state-queued c t n xs =
    ap (λ k. passed (λ y. ltb_ℤ (k y) (k t)) xs ++ t ∷ left (λ y. ltb_ℤ (k y) (k t)) xs)
      (vruntime-update c t (record (c.tasks t) { state = n }) refl)

module _ (w : Waits) (head a : Addr) (ws xs : List Addr) (h : IsWaiting w head (a ∷ ws) xs) where
  CanWake-shorter :
      (ts : List Addr)
      → All (CanWake w head (a ∷ ws) xs) ts
      → All (CanWake (shorter w a) head ws xs) ts
  CanWake-shorter [] f = tt
  CanWake-shorter (t ∷ ts) f = ((f.0.0, f.0.1, (f.0.2.0, f.0.2.1.1)), CanWake-shorter ts f.1)

  pub shorter-IsWaiting : IsWaiting (shorter w a) head ws xs
  shorter-IsWaiting = record {
    queue =
        IsQueue-links w.cpu (list_delete a w.cpu.links) xs
          (delete-IsRing-other w.cpu.links head a w.cpu.head [] ws xs h.ring
            (Apart-symm (head ∷ a ∷ ws) (w.cpu.head ∷ xs) h.apart) h.queue.ring)
          h.queue;
    ring = delete-at w.cpu.links head a [] ws h.ring;
    apart = (h.apart.0, h.apart.1.1);
    sleepers = CanWake-shorter (tasks w.task ws) h.sleepers.1;
    distinct = h.distinct.1;
    long = h.long;
  }

  pub first-CanWake : CanWake (shorter w a) head ws xs (w.task a)
  first-CanWake = let c = h.sleepers.0 in (c.0, c.1, (c.2.0, c.2.1.1))

-- A task `t` that can wake, and of which no member is, goes to the run queue.
module _ (fuel : ℕ) (w : Waits) (head t : Addr) (ws xs : List Addr) (h : IsWaiting w head ws xs)
    (can : CanWake w head ws xs t) (alone : Fresh t (tasks w.task ws))
    (enough : length xs < fuel) where
  roused-IsQueue : IsQueue (set_state t task_running w.cpu) xs
  roused-IsQueue =
      IsQueue-update w.cpu t (record (w.cpu.tasks t) { state = task_running }) xs refl h.queue

  roused-vruntime : vruntime (set_state t task_running w.cpu) ≡ vruntime w.cpu
  roused-vruntime = vruntime-update w.cpu t _ refl

  pub roused-insert :
      (insert_task_queue fuel t (set_state t task_running w.cpu)
        ≡ some (inserted (set_state t task_running w.cpu) t xs))
      × IsQueue
          (inserted (set_state t task_running w.cpu) t xs)
          (queued (set_state t task_running w.cpu) t xs)
  roused-insert =
      insert_task_queue-IsQueue fuel (set_state t task_running w.cpu) t xs roused-IsQueue can.0
        can.1 (subst (λ k. k t ≤ℤ max_long) (sym roused-vruntime) (h.long t)) enough

  resumed-IsQueue : IsQueue (resumed w t xs).cpu (queued w.cpu t xs)
  resumed-IsQueue =
      let c = inserted (set_state t task_running w.cpu) t xs in
      IsQueue-update c c.current _ (queued w.cpu t xs) refl
        (subst (λ l. IsQueue c l) (set_state-queued w.cpu t task_running xs) roused-insert.1)

  resumed-IsRing : IsRing (resumed w t xs).cpu.links head ws
  resumed-IsRing =
      let c = set_state t task_running w.cpu in
      let test = runs_before c t in
      let whole = sym (passed-append-left test xs) in
      before_first-IsRing-other w.cpu.links w.cpu.head t head (passed test xs) (left test xs) ws
        (subst (λ l. IsRing w.cpu.links w.cpu.head l) whole h.queue.ring)
        (subst (λ l. Apart (head ∷ ws) (w.cpu.head ∷ l)) whole h.apart) can.2 h.ring

  Fresh-queued :
      (c : Addr) → Fresh c (w.cpu.head ∷ xs) → c ≢ t → Fresh c (w.cpu.head ∷ queued w.cpu t xs)
  Fresh-queued c f ne = (f.0, All-queued (λ y. c ≢ y) (runs_before w.cpu t) t xs f.1 ne)

  Apart-queued :
      (cs : List Addr)
      → Apart cs (w.cpu.head ∷ xs)
      → Fresh t cs
      → Apart cs (w.cpu.head ∷ queued w.cpu t xs)
  Apart-queued [] f ne = tt
  Apart-queued (c ∷ cs) f ne = (Fresh-queued c f.0 (λ e. ne.0 (sym e)), Apart-queued cs f.1 ne.1)

  pub CanWake-queued :
      (ts : List Addr)
      → All (CanWake w head ws xs) ts
      → Fresh t ts
      → All (CanWake (resumed w t xs) head ws (queued w.cpu t xs)) ts
  CanWake-queued [] f ne = tt
  CanWake-queued (u ∷ ts) f ne =
      ((f.0.0, Fresh-queued u f.0.1 (λ e. ne.0 (sym e)), f.0.2), CanWake-queued ts f.1 ne.1)

  resumed-vruntime : vruntime (resumed w t xs).cpu ≡ vruntime w.cpu
  resumed-vruntime =
      let c = inserted (set_state t task_running w.cpu) t xs in
      vruntime-update c c.current _ refl ∙ roused-vruntime

  pub resumed-IsWaiting : IsWaiting (resumed w t xs) head ws (queued w.cpu t xs)
  resumed-IsWaiting = record {
    queue = resumed-IsQueue;
    ring = resumed-IsRing;
    apart = Apart-queued (head ∷ ws) h.apart can.2;
    sleepers = CanWake-queued (tasks w.task ws) h.sleepers alone;
    distinct = h.distinct;
    long = λ u. subst (λ k. k u ≤ℤ max_long) (sym resumed-vruntime) (h.long u);
  }

-- The state with the first member `a` in the run queue instead.
abbrev pub woken : Waits → Addr → List Addr → Waits
woken w a xs = resumed (shorter w a) (w.task a) xs

module _ (fuel : ℕ) (w : Waits) (head a : Addr) (ws xs : List Addr)
    (h : IsWaiting w head (a ∷ ws) xs) (enough : length xs < fuel) where
  pub woken-IsWaiting : IsWaiting (woken w a xs) head ws (queued w.cpu (w.task a) xs)
  woken-IsWaiting =
      resumed-IsWaiting fuel (shorter w a) head (w.task a) ws xs
        (shorter-IsWaiting w head a ws xs h) (first-CanWake w head a ws xs h) h.distinct.0 enough

  pub woken-insert :
      insert_task_queue fuel (w.task a) (set_state (w.task a) task_running (without a w.cpu))
      ≡ some (inserted (set_state (w.task a) task_running (without a w.cpu)) (w.task a) xs)
  woken-insert =
      (roused-insert fuel (shorter w a) head (w.task a) ws xs (shorter-IsWaiting w head a ws xs h)
        (first-CanWake w head a ws xs h) h.distinct.0 enough).0

  -- A `wakeup` for a state that the first member's task has takes this member out, and puts its task in
  -- the run queue behind those that have run less; both queues stay in order, and the other members
  -- wait on.
  pub wakeup-IsWaiting :
      (state : ℕ)
      → bit_and (w.cpu.tasks (w.task a)).state state ≢ 0
      → (wakeup fuel head state w ≡ some (woken w a xs))
        × IsWaiting (woken w a xs) head ws (queued w.cpu (w.task a) xs)
  unfolding wakeup wakeup_process
  wakeup-IsWaiting state in_state =
      let found : list_next head w.cpu.links ≡ a = list_next-eq head w.cpu.links ∙ h.ring.chain.0 in
      let some_member = is_empty-cons w.cpu.links head a ws h.ring in
      let wanted : (bit_and (w.cpu.tasks (w.task a)).state state == 0) ≡ false = ground arith in
      (rw (some_member, found, wanted, woken-insert) refl, woken-IsWaiting)
