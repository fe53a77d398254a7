-- ===== src/Memory/Alloc/Find.antt =====
-- The search of one zone by `alloc_pages`: it ends, and what it finds is a run of free pages.
use system_studying.Base.{
  ℕ, zero, suc, ◌+◌, ◌-◌, ◌*◌, ◌/◌, ◌%◌, ◌≤◌, ◌<◌, ◌≡◌, arith, Bool-cases, Option-cases, inl, inr,
  some, leb,
}
use system_studying.Memory.Alloc.{
  find_shift, Search, at, nowhere, out_of_fuel, find_run, next_start,
}
use system_studying.Memory.Alloc.Window.{page_bit, find_shift-bounds, window_clear}

-- The values of the innermost search, kept apart so that one round of the outer loop is a case.
data Round (bits : ℕ → ℕ) (f number end j : ℕ) : Search → Type 0 where
  stop : end < j → Round bits f number end j nowhere
  hit :
      (s : ℕ)
      → j ≤ end
      → find_shift (bits (j / 64)) (bits (j / 64 + 1)) number (64 - j % 64) (j % 64) ≡ some s
      → Round bits f number end j (at (j + s - j % 64))
  more : j ≤ end → Round bits f number end j (find_run f bits number end (next_start j number))

round :
    (bits : ℕ → ℕ) (f number end j : ℕ)
    → Round bits f number end j (find_run (suc f) bits number end j)
unfolding find_run
round bits f number end j = elim (Bool-cases (leb j end)) [
  | inr over ↦ rw (over, find_run) (stop (ground arith))
  | inl more_left ↦
      elim (Option-cases
        (find_shift (bits (j / 64)) (bits (j / 64 + 1)) number (64 - j % 64) (j % 64))) [
          | inl miss ↦ rw (more_left, miss, find_run) (more (ground arith))
          | inr found ↦ rw (more_left, found.1, find_run) (hit found.0 (ground arith) found.1)
        ]
]

-- What a search has found: a place at or behind `j`, with `number` clear bits from there on.
abbrev pub Found : (ℕ → ℕ) → ℕ → ℕ → Search → Type 0
Found bits number j (at p) = (j ≤ p) × ((i : ℕ) → i < number → page_bit bits (p + i) ≡ 0)
Found bits number j nowhere = Unit
Found bits number j out_of_fuel = ⊥

next_start-lt : (j number : ℕ) → number < 64 → j < next_start j number
next_start-lt j number h = ground arith

Found-mono :
    (bits : ℕ → ℕ) (number j k : ℕ) (r : Search)
    → j ≤ k
    → Found bits number k r
    → Found bits number j r
Found-mono bits number j k (at p) h (le, clear) = (omega arith, clear)
Found-mono bits number j k nowhere h f = tt
Found-mono bits number j k out_of_fuel h f = f

-- The search of a zone ends, given a round for each page and one more, and finds free pages only.
pub find_run-Found :
    (bits : ℕ → ℕ) (number end f j : ℕ)
    → number < 64
    → end + 1 - j < f
    → Found bits number j (find_run f bits number end j)
find_run-Found bits number end zero j n k = absurd (omega arith)
find_run-Found bits number end (suc f) j n k =
    go (round bits f number end j) (find_run-Found bits number end f (next_start j number) n)
  where
    go :
        {r : Search}
        → Round bits f number end j r
        → (end + 1 - next_start j number < f
            → Found bits number
                (next_start j number)
                (find_run f bits number end (next_start j number)))
        → Found bits number j r
    go (stop h) ih = tt
    go (hit s le e) ih =
        let (low, high, clear) =
          find_shift-bounds (bits (j / 64)) (bits (j / 64 + 1)) number (64 - j % 64) (j % 64) s e in
        (
          omega arith,
          λ i h.
              let place : j + s - j % 64 + i ≡ j / 64 * 64 + s + i = omega arith in
              rw place (window_clear bits (j / 64) s number i (omega arith) n clear h),
        )
    go (more le) ih =
        let ahead = next_start-lt j number n in
        Found-mono bits number j (next_start j number)
          (find_run f bits number end (next_start j number)) (omega arith) (ih (omega arith))
