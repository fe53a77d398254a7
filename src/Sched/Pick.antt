-- ===== src/Sched/Pick.antt =====
-- Which task `schedule` gives the processor, and what becomes of the others.
use Prim.Native.Nat.{bit_and}
use mathlib.Core.Path.{ap, sym, fun_ext}
use mathlib.Core.List.{Perm}
use native.Mathlib.Numerals.{add-one}
use system_studying.Sched.{
  need_shedule, is_running, give_up, set_flags, Cpu, max_long, vruntime, insert_task_queue,
  runs_before, slice, is_zero_or_one, times_three, renew_slice, carry_on,
}
use system_studying.Base.{
  true, ◌^◌, ◌-◌, ◌∙◌, ◌≢◌, subst, ℕ, zero, suc, ◌+◌, ◌/◌, ◌<◌, ◌≡◌, refl, Bool-cases, some, List,
  ◌∷◌, arith, length, if◌then◌else◌, Fresh, All, All-mono, inl, inr, ◌==◌,
}
use system_studying.Base.Int.{ℤ, pos, negsuc, ◌≤ℤ◌}
use system_studying.Links.{update, Addr}
use system_studying.Links.Walk.{insert-perm}
use system_studying.Sched.Queue.{
  IsQueue, SortedBy, queued, inserted, insert_task_queue-IsQueue, insert_task_queue-init,
  All-queued,
}
use mathlib.Core.List.Perm

-- The queue and the state when a task, perhaps the idle one, has been put in.
abbrev pub put : Cpu → Addr → List Addr → List Addr
put c t xs = if t == c.init then xs else queued c t xs

abbrev placed : Cpu → Addr → List Addr → Cpu
placed c t xs = record c {
  links = (if t == c.init then c.links else (inserted c t xs).links);
  running_task_count =
      (if t == c.init then c.running_task_count else (inserted c t xs).running_task_count);
}

-- What the source's types and the allocation of tasks give: `t` is no member and not the head, and
-- its `vruntime` is a `long`.
abbrev pub CanQueue : Cpu → Addr → List Addr → Type 0
CanQueue c t xs = Fresh t (c.head ∷ xs) × (vruntime c t ≤ℤ max_long)

module _ (fuel : ℕ) (c : Cpu) (t : Addr) (xs : List Addr) where
  place-lem :
      IsQueue c xs
      → (t ≢ c.init → CanQueue c t xs)
      → length xs < fuel
      → (insert_task_queue fuel t c ≡ some (placed c t xs)) × IsQueue (placed c t xs) (put c t xs)
  place-lem q h k = elim (Bool-cases (t == c.init)) [
    | inl e ↦
        let same : t ≡ c.init = ground arith in rw e (rw same (insert_task_queue-init fuel c), q)
    | inr e ↦
        let ne : t ≢ c.init = ground arith in
        let (f, le) = h ne in rw e (insert_task_queue-IsQueue fuel c t xs q ne f le k)
  ]

  All-put : (P : Addr → Type 0) → All P xs → P t → All P (put c t xs)
  All-put P h p = elim (Bool-cases (t == c.init)) [
    | inl e ↦ rw e h
    | inr e ↦ rw e (All-queued P (runs_before c t) t xs h p)
  ]

-- A slice is always found: there is at least the idle task, so nothing is divided by zero.
slice-some : (j : ℤ) (n : ℕ) (p : ℤ) → (i : ℤ) × (slice j (pos (n + 1)) p ≡ some i)
slice-some (pos zero) n p =
    let q = pos (4 / suc n) in (if is_zero_or_one p then q else times_three q, rw add-one)
slice-some (pos (suc j)) n p = (pos (suc j), refl)
slice-some (negsuc j) n p = (negsuc j, refl)

pub renew_slice-some :
    (c : Cpu) (task : Addr) (xs : List Addr)
    → IsQueue c xs
    → (i : ℤ) × (renew_slice task c ≡ some (record c { exectask_jiffies = i }))
unfolding renew_slice
renew_slice-some c task xs q =
    let (i, e) = slice-some c.exectask_jiffies (length xs) (c.tasks task).priority in
    (i, rw (q.counted, e))

-- What `schedule` establishes: a queue again, and on the processor a task that no member of the
-- queue has run less than. `before` lists the tasks that can run, the idle one left out.
abbrev pub busy : Cpu → Addr → List Addr → List Addr
busy c t xs = if t == c.init then xs else t ∷ xs

pub record Scheduled (c : Cpu) (before : List Addr) (c' : Cpu) (ys : List Addr) : Type 0 where
  pub queue : IsQueue c' ys
  pub least : All (λ y. vruntime c c'.current ≤ℤ vruntime c y) ys
  pub kept : Perm (busy c c'.current ys) before
  pub same_tasks : c'.tasks ≡ c.tasks

put-perm : (c : Cpu) (t : Addr) (xs : List Addr) → Perm (put c t xs) (busy c t xs)
put-perm c t xs = elim (Bool-cases (t == c.init)) [
  | inl e ↦ rw e (Perm.refl xs)
  | inr e ↦ rw e (insert-perm (runs_before c t) t xs)
]

pub busy-perm :
    (c : Cpu) (t : Addr) (xs ys : List Addr) → Perm xs ys → Perm (busy c t xs) (busy c t ys)
busy-perm c t xs ys p = elim (Bool-cases (t == c.init)) [
  | inl e ↦ rw e p
  | inr e ↦ rw e (Perm.cons t p)
]

pub busy_swap :
    (c : Cpu) (t u : Addr) (xs : List Addr) → Perm (busy c t (busy c u xs)) (busy c u (busy c t xs))
busy_swap c t u xs = elim (Bool-cases (t == c.init)) [
  | inl e ↦ rw e (Perm.refl (busy c u xs))
  | inr e ↦ elim (Bool-cases (u == c.init)) [
    | inl f ↦ rw (e, f) (Perm.refl (t ∷ xs))
    | inr f ↦ rw (e, f) (Perm.swap u t xs)
  ]
]

-- The two branches of `schedule`, from the queue that is left once `task` is taken out.
module _ (fuel : ℕ) (c : Cpu) (task : Addr) (xs : List Addr) (q : IsQueue c xs)
    (k : length xs < fuel) where
  pub carry_on-Scheduled :
      (task ≢ c.init → CanQueue c task xs)
      → All (λ y. vruntime c task ≤ℤ vruntime c y) xs
      → vruntime c c.current ≤ℤ vruntime c task
      → (c' : Cpu) × (carry_on fuel task c ≡ some c')
        × Scheduled c (busy c c.current (busy c task xs)) c' (put c task xs)
  unfolding carry_on
  carry_on-Scheduled h least le =
      let (e, q') = place-lem fuel c task xs q h k in
      let (i, e') = renew_slice-some (placed c task xs) task (put c task xs) q' in
      (
        record (placed c task xs) { exectask_jiffies = i },
        rw e e',
        record {
          queue = record {
            ring = q'.ring;
            sorted = q'.sorted;
            counted = q'.counted;
            sentinel = q'.sentinel;
            idle = q'.idle;
          };
          least =
              All-put fuel c task xs (λ y. vruntime c c.current ≤ℤ vruntime c y)
                (All-mono (λ y. vruntime c task ≤ℤ vruntime c y)
                  (λ y. vruntime c c.current ≤ℤ vruntime c y) xs (λ y j. omega arith) least)
                le;
          kept = busy-perm c c.current (put c task xs) (busy c task xs) (put-perm c task xs);
          same_tasks = refl;
        },
      )

  pub give_up-Scheduled :
      (c.current ≢ c.init → CanQueue c c.current xs)
      → All (λ y. vruntime c task ≤ℤ vruntime c y) xs
      → (is_running c c.current ≡ true → vruntime c task ≤ℤ vruntime c c.current)
      → (c' : Cpu) × (ys : List Addr) × (give_up fuel c.current task c ≡ some c')
        × Scheduled c
            (busy c task (if is_running c c.current then busy c c.current xs else xs))
            c'
            ys
  unfolding give_up
  give_up-Scheduled h least le = elim (Bool-cases (is_running c c.current)) [
    | inl e ↦
        let (p, q') = place-lem fuel c c.current xs q h k in
        let (i, e') = renew_slice-some (placed c c.current xs) task (put c c.current xs) q' in
        (
          record (placed c c.current xs) { exectask_jiffies = i; current = task },
          put c c.current xs,
          rw e (rw p (rw e')),
          record {
            queue = record {
              ring = q'.ring;
              sorted = q'.sorted;
              counted = q'.counted;
              sentinel = q'.sentinel;
              idle = q'.idle;
            };
            least = All-put fuel c c.current xs (λ y. vruntime c task ≤ℤ vruntime c y) least (le e);
            kept = rw e (
                busy-perm c task (put c c.current xs) (busy c c.current xs)
                  (put-perm c c.current xs));
            same_tasks = refl;
          },
        )
    | inr e ↦
        let (i, e') = renew_slice-some c task xs q in
        (
          record c { exectask_jiffies = i; current = task },
          xs,
          rw e (rw e'),
          record {
            queue = record {
              ring = q.ring;
              sorted = q.sorted;
              counted = q.counted;
              sentinel = q.sentinel;
              idle = q.idle;
            };
            least = least;
            kept = rw e (Perm.refl (busy c task xs));
            same_tasks = refl;
          },
        )
  ]

-- The state behind `current->flags &= ~NEED_SHEDULE`.
abbrev pub unflagged : Cpu → Cpu
unflagged c = set_flags c.current (bit_and (c.tasks c.current).flags (2 ^ 64 - 1 - need_shedule)) c

pub unflagged-vruntime : (c : Cpu) → vruntime (unflagged c) ≡ vruntime c
unfolding update
unflagged-vruntime c = fun_ext (λ y. elim (Bool-cases (y == c.current)) [
  | inl e ↦ let same : y ≡ c.current = ground arith in rw (e, vruntime) (rw same)
  | inr e ↦ rw (e, vruntime)
])

pub unflagged-IsQueue : (c : Cpu) (xs : List Addr) → IsQueue c xs → IsQueue (unflagged c) xs
unflagged-IsQueue c xs q = record {
  ring = q.ring;
  sorted = subst (λ k. SortedBy k xs) (sym (unflagged-vruntime c)) q.sorted;
  counted = q.counted;
  sentinel = ap (λ k. k c.head) (unflagged-vruntime c) ∙ q.sentinel;
  idle = q.idle;
}

pub unflagged-long :
    (c : Cpu) (t : Addr) → vruntime c t ≤ℤ max_long → vruntime (unflagged c) t ≤ℤ max_long
unflagged-long c t h = subst (λ k. k t ≤ℤ max_long) (sym (unflagged-vruntime c)) h
