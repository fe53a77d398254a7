-- ===== src/Vfs/Ends.antt =====
-- `path_walk` ends on every name.
use system_studying.Base.{
  ℕ, zero, suc, ◌≤◌, ◌<◌, ◌≢◌, refl, arith, Option, none, some, List, [], ◌∷◌, length, ◌==◌,
  Bool-cases, inl, inr,
}
use system_studying.Vfs.{skip_slashes, next_part, walk_on, walk_loop, chosen, walk_from, path_walk}

pub length-skip_slashes : (s : List ℕ) → length (skip_slashes s) ≤ length s
length-skip_slashes [] = omega arith
length-skip_slashes (c ∷ s) = elim (Bool-cases (c == 47)) [
  | inl slash ↦ rw slash (omega (arith, length-skip_slashes s))
  | inr other ↦ rw other (omega arith)
]

length-next_part : (s : List ℕ) → length (skip_slashes (next_part s).1) ≤ length s
length-next_part [] = omega arith
length-next_part (c ∷ s) = elim (Bool-cases (c == 47)) [
  | inl slash ↦ rw (slash, slash) (omega (arith, length-skip_slashes s))
  | inr other ↦ rw other (omega (arith, length-next_part s))
]

-- What is left of a name behind its first part and the slashes is shorter.
pub next_part-shorter :
    (c : ℕ) (s : List ℕ) → length (skip_slashes (next_part (c ∷ s)).1) ≤ length s
next_part-shorter c s = elim (Bool-cases (c == 47)) [
  | inl slash ↦ rw (slash, slash) (length-skip_slashes s)
  | inr other ↦ rw other (length-next_part s)
]

module _ {Entry : Type 0} (lookup : Entry → List ℕ → Option Entry) where
  walk_on-ne-none :
      (walk : Entry → List ℕ → Option (Option (Entry × Entry))) (parent : Entry)
      (found : Option Entry) (n : ℕ) (more : List ℕ)
      → ((path : Entry) (name : List ℕ) → length name ≤ n → walk path name ≢ none)
      → length more ≤ n
      → walk_on lookup walk parent found more ≢ none
  walk_on-ne-none walk parent none n more h k = λ e. cc e
  walk_on-ne-none walk parent (some path) n [] h k = λ e. cc e
  walk_on-ne-none walk parent (some path) n (c ∷ more) h k = h path (c ∷ more) k

  walk_on_nil :
      (walk : Entry → List ℕ → Option (Option (Entry × Entry))) (parent : Entry)
      (found : Option Entry)
      → walk_on lookup walk parent found [] ≢ none
  walk_on_nil walk parent none = λ e. cc e
  walk_on_nil walk parent (some path) = λ e. cc e

  walk_loop-ne-none :
      (f : ℕ) (parent : Entry) (name : List ℕ)
      → length name < f
      → walk_loop lookup f parent name ≢ none
  unfolding walk_loop
  walk_loop-ne-none zero parent name h = absurd (omega arith)
  walk_loop-ne-none (suc f) parent [] h = walk_on_nil (walk_loop lookup f) parent (lookup parent [])
  walk_loop-ne-none (suc f) parent (c ∷ s) h =
      let (part, rest) = next_part (c ∷ s) in
      walk_on-ne-none (walk_loop lookup f) parent (lookup parent part) (length s)
        (skip_slashes rest) (λ path name l. walk_loop-ne-none f path name (omega (arith, l, h)))
        (next_part-shorter c s)

  chosen-ne-none :
      (flags : ℕ) (r : Option (Option (Entry × Entry))) → r ≢ none → chosen lookup flags r ≢ none
  chosen-ne-none flags none h = absurd (h refl)
  chosen-ne-none flags (some none) h = λ e. cc e
  chosen-ne-none flags (some (some r)) h = λ e. cc e

  walk_from-ne-none :
      (fuel : ℕ) (root : Entry) (flags : ℕ) (name : List ℕ)
      → length name < fuel
      → walk_from lookup fuel root flags name ≢ none
  walk_from-ne-none fuel root flags [] h = λ e. cc e
  walk_from-ne-none fuel root flags (c ∷ s) h =
      chosen-ne-none flags (walk_loop lookup fuel root (c ∷ s))
        (walk_loop-ne-none fuel root (c ∷ s) h)

  -- One round more than the name has bytes is enough for `path_walk`.
  pub path_walk-ne-none :
      (fuel : ℕ) (root : Entry) (flags : ℕ) (name : List ℕ)
      → length name < fuel
      → path_walk lookup fuel root flags name ≢ none
  unfolding path_walk
  path_walk-ne-none fuel root flags name h =
      walk_from-ne-none fuel root flags (skip_slashes name)
        (omega (arith, h, length-skip_slashes name))
