-- ===== src/Sched/Queue.antt =====
-- The run queue as a list sorted by `vruntime`: `insert_task_queue` and `get_next_task`.
use system_studying.Base.{
  ℕ, ◌+◌, ◌<◌, ◌≡◌, ◌≢◌, refl, Bool, true, false, Bool-cases, some, List, [], ◌∷◌, ◌++◌, arith,
  length, length-append, if◌then◌else◌, Fresh, All, All-mono, inl, inr, ap, sym, ◌==◌, ◌∙◌,
}
use system_studying.Base.Int.{ℤ, pos, ◌≤ℤ◌, ◌+ℤ◌, ◌-ℤ◌}
use system_studying.Links.{Addr, list_next, list_is_empty, list_add_before, list_delete}
use system_studying.Links.Ring.{IsRing}
use system_studying.Links.Ops.{
  list_next-eq, is_empty-nil, is_empty-cons, delete-at, list_init-IsRing,
}
use system_studying.Links.Walk.{
  walk, passed, left, first_or, walk-left, before-left, passed-append-left,
}
use system_studying.Sched.{
  Cpu, max_long, vruntime, schedule_init, get_next_task, insert_task_queue, runs_before,
}

abbrev pub SortedBy : (Addr → ℤ) → List Addr → Type 0
SortedBy key [] = Unit
SortedBy key (x ∷ xs) = All (λ y. key x ≤ℤ key y) xs × SortedBy key xs

-- The run queue of `c` holds the tasks `xs`, the one with the least `vruntime` first.
pub record IsQueue (c : Cpu) (xs : List Addr) : Type 0 where
  pub ring : IsRing c.links c.head xs
  pub sorted : SortedBy (vruntime c) xs
  pub counted : c.running_task_count ≡ pos (length xs + 1)
  pub sentinel : vruntime c c.head ≡ max_long
  pub idle : Fresh c.init xs

-- Where the source's loop stops: behind the tasks that have run less.
abbrev pub queued : Cpu → Addr → List Addr → List Addr
queued c t xs = passed (runs_before c t) xs ++ t ∷ left (runs_before c t) xs

pub All-queued :
    (P : Addr → Type 0) (test : Addr → Bool) (n : Addr) (xs : List Addr)
    → All P xs
    → P n
    → All P (passed test xs ++ n ∷ left test xs)
All-queued P test n [] h p = (p, tt)
All-queued P test n (x ∷ xs) h p = elim (Bool-cases (test x)) [
  | inl e ↦ rw e (h.0, All-queued P test n xs h.1 p)
  | inr e ↦ rw e (p, h)
]

SortedBy-queued :
    (c : Cpu) (n : Addr) (xs : List Addr)
    → SortedBy (vruntime c) xs
    → SortedBy (vruntime c) (queued c n xs)
SortedBy-queued c n [] h = (tt, tt)
SortedBy-queued c n (x ∷ xs) h = elim (Bool-cases (runs_before c n x)) [
  | inl e ↦ rw e (
    All-queued (λ y. vruntime c x ≤ℤ vruntime c y) (runs_before c n) n xs h.0 (ground arith),
    SortedBy-queued c n xs h.1,
  )
  | inr e ↦
      let le : vruntime c n ≤ℤ vruntime c x = ground arith in
      rw e (
        (
          le,
          All-mono (λ y. vruntime c x ≤ℤ vruntime c y) (λ y. vruntime c n ≤ℤ vruntime c y) xs
              (λ y k. omega arith) h.0,
        ),
        h,
      )
]

pub length-queued : (c : Cpu) (n : Addr) (xs : List Addr) → length (queued c n xs) ≡ length xs + 1
length-queued c n xs =
    let t = runs_before c n in
    omega (
      arith,
      length-append {0} (passed t xs) (n ∷ left t xs),
      length-append {0} (passed t xs) (left t xs),
      ap length (passed-append-left t xs),
    )

first-stop :
    (c : Cpu) (t : Addr)
    → vruntime c c.head ≡ max_long
    → vruntime c t ≤ℤ max_long
    → runs_before c t c.head ≡ false
first-stop c t s h = rw (s, runs_before) (ground arith)

-- The state in which `insert_task_queue` ends: one more member, linked in at its place.
abbrev pub inserted : Cpu → Addr → List Addr → Cpu
inserted c t xs = record c {
  links = list_add_before (first_or c.head (left (runs_before c t) xs)) t c.links;
  running_task_count = c.running_task_count +ℤ pos 1;
}

module _ (fuel : ℕ) (c : Cpu) (t : Addr) where
  -- The search of `insert_task_queue`, its test for an empty queue included.
  search-place :
      (xs : List Addr)
      → IsQueue c xs
      → vruntime c t ≤ℤ max_long
      → length xs < fuel
      → (if list_is_empty c.head c.links
          then some (list_next c.head c.links)
          else walk fuel (runs_before c t) c.links (list_next c.head c.links))
        ≡ some (first_or c.head (left (runs_before c t) xs))
  search-place [] q h k =
      rw (is_empty-nil c.links c.head q.ring)
        (ap some (list_next-eq c.head c.links ∙ q.ring.chain.0))
  search-place (x ∷ xs) q h k =
      rw (is_empty-cons c.links c.head x xs q.ring, list_next-eq)
        (walk-left fuel (runs_before c t) c.links c.head c.head (x ∷ xs) q.ring.chain
          (first-stop c t q.sentinel h) k)

  -- Given fuel for one round more than there are members, `insert_task_queue` ends, and the task
  -- stands behind those with a smaller `vruntime` and in front of the others.
  pub insert_task_queue-IsQueue :
      (xs : List Addr)
      → IsQueue c xs
      → t ≢ c.init
      → Fresh t (c.head ∷ xs)
      → vruntime c t ≤ℤ max_long
      → length xs < fuel
      → (insert_task_queue fuel t c ≡ some (inserted c t xs))
        × IsQueue (inserted c t xs) (queued c t xs)
  unfolding insert_task_queue
  insert_task_queue-IsQueue xs q ne f h k =
      let idle : (t == c.init) ≡ false = ground arith in
      (
        rw (idle, search-place xs q h k),
        record {
          ring = before-left (runs_before c t) c.links c.head t xs f q.ring;
          sorted = SortedBy-queued c t xs q.sorted;
          counted = rw (q.counted, length-queued c t xs) (ground arith);
          sentinel = q.sentinel;
          idle = All-queued (λ y. c.init ≢ y) (runs_before c t) t xs q.idle (λ e. ne (sym e));
        },
      )

-- The idle task is never linked in.
pub insert_task_queue-init : (fuel : ℕ) (c : Cpu) → insert_task_queue fuel c.init c ≡ some c
unfolding insert_task_queue
insert_task_queue-init fuel c = let e : (c.init == c.init) ≡ true = ground arith in rw e

-- The state after the first member of the queue is taken out.
abbrev pub dequeued : Cpu → Addr → Cpu
dequeued c x = record c {
  links = list_delete x c.links;
  running_task_count = c.running_task_count -ℤ pos 1;
}

pub get_next_task-nil : (c : Cpu) → IsQueue c [] → get_next_task c ≡ (c.init, c)
unfolding get_next_task
get_next_task-nil c q = rw (is_empty-nil c.links c.head q.ring)

-- `get_next_task` takes out the first member, which no other member has run less than.
pub get_next_task-cons :
    (c : Cpu) (x : Addr) (xs : List Addr)
    → IsQueue c (x ∷ xs)
    → (get_next_task c ≡ (x, dequeued c x))
      × IsQueue (dequeued c x) xs
      × All (λ y. vruntime c x ≤ℤ vruntime c y) xs
unfolding get_next_task
get_next_task-cons c x xs q = (
  rw (is_empty-cons c.links c.head x xs q.ring, list_next-eq, q.ring.chain.0),
  record {
    ring = delete-at c.links c.head x [] xs q.ring;
    sorted = q.sorted.1;
    counted = rw q.counted (ground arith);
    sentinel = q.sentinel;
    idle = q.idle.1;
  },
  q.sorted.0,
)

-- What `schedule_init` sets up is an empty queue.
pub schedule_init-IsQueue : (c : Cpu) → IsQueue (schedule_init c) []
unfolding schedule_init
schedule_init-IsQueue c = record {
  ring = list_init-IsRing c.head c.links;
  sorted = tt;
  counted = refl;
  sentinel = ground arith;
  idle = tt;
}
