-- ===== src/Sched/Schedule.antt =====
-- `schedule` as a whole.
use mathlib.Core.Path.{ap}
use mathlib.Core.List.{Perm}
use system_studying.Sched.{choose, is_running, Cpu, max_long, vruntime, schedule}
use system_studying.Base.{
  ℕ, ◌<◌, ◌≡◌, ◌≢◌, refl, Bool, true, false, Bool-cases, some, List, [], ◌∷◌, arith, length,
  if◌then◌else◌, Fresh, All, inl, inr, ap, sym, subst, ◌==◌, ◌∙◌, not, ◌||◌,
}
use system_studying.Base.Int.{◌≤ℤ◌, ltb_ℤ}
use system_studying.Links.{Addr}
use system_studying.Sched.Queue.{IsQueue, dequeued, get_next_task-nil, get_next_task-cons}
use system_studying.Sched.Pick.{
  CanQueue, Scheduled, busy, busy_swap, put, unflagged, unflagged-long, unflagged-IsQueue,
  carry_on-Scheduled, give_up-Scheduled,
}
use mathlib.Core.List.Perm

-- The tasks that can run, the idle one left out.
abbrev pub can_run : Cpu → List Addr → List Addr
can_run c xs = if is_running c c.current then busy c c.current xs else xs

if-or_right {ℓ} :
    {A : Type ℓ} (a : Bool) {b : Bool} (x y : A) → b ≡ true → (if a || b then x else y) ≡ x
if-or_right true x y e = refl
if-or_right false x y e = rw e

busy-init : (c : Cpu) (xs : List Addr) → busy c c.init xs ≡ xs
busy-init c xs = let e : (c.init == c.init) ≡ true = ground arith in rw e

busy-can_run :
    (c : Cpu) (x : Addr) (xs : List Addr)
    → c.init ≢ x
    → Perm (busy c x (can_run c xs)) (can_run c (x ∷ xs))
busy-can_run c x xs ne =
    let e : (x == c.init) ≡ false = ground arith in
    elim (Bool-cases (is_running c c.current)) [
      | inl run ↦ rw run (
          subst (λ z. Perm (busy c x (busy c c.current xs)) (busy c c.current z)) (unidle c x xs e)
            (busy_swap c x c.current xs))
      | inr stop ↦ rw (stop, e) (Perm.refl (x ∷ xs))
    ]
  where
    unidle : (c : Cpu) (x : Addr) (xs : List Addr) → (x == c.init) ≡ false → busy c x xs ≡ x ∷ xs
    unidle c x xs e = rw e

-- Once `task` is chosen: it runs if the current task has run at least as long, or cannot go on.
choose-Scheduled :
    (fuel : ℕ) (c : Cpu) (task : Addr) (xs : List Addr)
    → IsQueue c xs
    → length xs < fuel
    → (c.current ≢ c.init → CanQueue c c.current xs)
    → (task ≢ c.init → CanQueue c task xs)
    → All (λ y. vruntime c task ≤ℤ vruntime c y) xs
    → (c' : Cpu) × (ys : List Addr) × (choose fuel c.current task c ≡ some c')
      × Scheduled c (busy c task (can_run c xs)) c' ys
unfolding choose
choose-Scheduled fuel c task xs q k h g least = elim (Bool-cases (is_running c c.current)) [
  | inl run ↦ elim (Bool-cases (ltb_ℤ (vruntime c c.current) (vruntime c task))) [
    | inl e ↦
        let (c', p, s) = carry_on-Scheduled fuel c task xs q k g least (ground arith) in
        (
          c',
          put c task xs,
          rw (e, run) p,
          record {
            queue = s.queue;
            least = s.least;
            kept = rw run (Perm.trans s.kept (busy_swap c c.current task xs));
            same_tasks = s.same_tasks;
          },
        )
    | inr e ↦
        let (c', ys, p, s) = give_up-Scheduled fuel c task xs q k h least (λ _. ground arith) in
        (c', ys, rw e p, s)
  ]
  | inr stop ↦
      let (c', ys, p, s) = give_up-Scheduled fuel c task xs q k h least (λ run. absurd (cc)) in
      (
        c',
        ys,
        if-or_right (not (ltb_ℤ (vruntime c c.current) (vruntime c task))) _ _ (ap not stop) ∙ p,
        s,
      )
]

-- From any queue, `schedule` ends without a fault, and the task that then has the processor has run
-- no longer than any in the queue. No task that can run is lost or doubled.
pub schedule-Scheduled :
    (fuel : ℕ) (c : Cpu) (xs : List Addr)
    → IsQueue c xs
    → length xs < fuel
    → (c.current ≢ c.init → Fresh c.current (c.head ∷ xs))
    → ((t : Addr) → vruntime c t ≤ℤ max_long)
    → (c' : Cpu) × (ys : List Addr) × (schedule fuel c ≡ some c')
      × Scheduled (unflagged c) (can_run (unflagged c) xs) c' ys
unfolding schedule
schedule-Scheduled fuel c [] q k f long =
    let d = unflagged c in
    let q' = unflagged-IsQueue c [] q in
    let (c', ys, p, s) =
      choose-Scheduled fuel d c.init [] q' k
        (λ ne. (f ne, unflagged-long c c.current (long c.current))) (λ ne. absurd (ne refl)) tt in
    (
      c',
      ys,
      rw (get_next_task-nil d q') p,
      subst (λ z. Scheduled d z c' ys) (busy-init d (can_run d [])) s,
    )
schedule-Scheduled fuel c (x ∷ xs) q k f long =
    let d = unflagged c in
    let q' = unflagged-IsQueue c (x ∷ xs) q in
    let (e, r, least) = get_next_task-cons d x xs q' in
    let (c', ys, p, s) =
      choose-Scheduled fuel (dequeued d x) x xs r (omega arith)
        (λ ne. (((f ne).0, (f ne).1.1), unflagged-long c c.current (long c.current)))
        (λ ne. (
          ((λ same. q.ring.distinct.0.0 (sym same)), q.ring.distinct.1.0),
          unflagged-long c x (long x),
        ))
        least in
    (
      c',
      ys,
      rw e p,
      record {
        queue = s.queue;
        least = s.least;
        kept = Perm.trans s.kept (busy-can_run d x xs q.idle.0);
        same_tasks = s.same_tasks;
      },
    )
