-- ===== src/Sys/Memory.antt =====
-- The blocks that `path_walk` of os/kernel/vfs.c leaves held.
use system_studying.Base.{
  ℕ, zero, suc, ◌+◌, ◌≤◌, ◌<◌, ◌≡◌, ◌∙◌, refl, arith, false, Bool-cases, inl, inr, Option, none,
  some, List, [], ◌∷◌, length,
}
use system_studying.Vfs.{skip_slashes, next_part}
use system_studying.Vfs.Ends.{length-skip_slashes, next_part-shorter}
use system_studying.Sys.{
  Files, Kernel, kmalloc, name_memory, keep_memory, walk_memory, path_memory, sizeof_dir_entry,
}

module _ {W : Type 0} (kernel : Kernel W) where
  -- With some count of blocks held, from `low` to `high`, there is none of some size left.
  abbrev pub NoMemory : ℕ → ℕ → Type 0
  NoMemory low high =
      (size : ℕ) × (used : ℕ) × (low ≤ used) × (used ≤ high) × (kernel.has_memory size used ≡ false)

  pub NoMemory-widen : (a b c d : ℕ) → b ≤ a → c ≤ d → NoMemory a c → NoMemory b d
  NoMemory-widen a b c d h k (size, used, above, below, full) =
      (size, used, omega (arith, h, above), omega (arith, k, below), full)

  -- A fault for want of memory, or two blocks more for each of at most `n` entries.
  abbrev pub Keeps : ℕ → Files W → Option (Files W) → Type 0
  Keeps n st none = NoMemory st.allocated (st.allocated + (n + n))
  Keeps n st (some st') =
      (k : ℕ) × (k ≤ n)
      × (st'.filestruct ≡ st.filestruct)
      × (st'.allocated ≡ st.allocated + (k + k))

  -- Two blocks more, or a fault.
  abbrev Taken : ℕ → Files W → Option (Files W) → Type 0
  Taken n st none = NoMemory st.allocated (st.allocated + n)
  Taken n st (some st') = (st'.filestruct ≡ st.filestruct) × (st'.allocated ≡ st.allocated + n)

  kmalloc-Taken :
      (n size : ℕ) (st st1 : Files W)
      → st1.filestruct ≡ st.filestruct
      → st1.allocated ≡ st.allocated + n
      → Taken (suc n) st (kmalloc kernel size st1)
  kmalloc-Taken n size st st1 same held = elim (Bool-cases (kernel.has_memory size st1.allocated)) [
    | inl room ↦ rw room (same, omega (arith, held))
    | inr full ↦ rw full (size, st1.allocated, omega (arith, held), omega (arith, held), full)
  ]

  name_memory-Taken :
      (part : List ℕ) (st : Files W) (r : Option (Files W))
      → Taken 1 st r
      → Taken 2 st (name_memory kernel part r)
  name_memory-Taken part st none h =
      NoMemory-widen st.allocated st.allocated (st.allocated + 1) (st.allocated + 2) (omega arith)
        (omega arith) h
  name_memory-Taken part st (some st1) (same, held) =
      kmalloc-Taken 1 (suc (length part)) st st1 same held

  entry-Taken :
      (part : List ℕ) (st : Files W)
      → Taken 2 st (name_memory kernel part (kmalloc kernel sizeof_dir_entry st))
  entry-Taken part st =
      name_memory-Taken part st (kmalloc kernel sizeof_dir_entry st)
        (kmalloc-Taken 0 sizeof_dir_entry st st refl (omega arith))

  Keeps-more :
      (n : ℕ) (st st1 : Files W) (r : Option (Files W))
      → st1.filestruct ≡ st.filestruct
      → st1.allocated ≡ st.allocated + 2
      → Keeps n st1 r
      → Keeps (suc n) st r
  Keeps-more n st st1 none same held h =
      NoMemory-widen st1.allocated st.allocated (st1.allocated + (n + n))
        (st.allocated + (suc n + suc n)) (omega (arith, held)) (omega (arith, held)) h
  Keeps-more n st st1 (some st') same held (k, le, slots, count) =
      (suc k, omega (arith, le), slots ∙ same, omega (arith, held, count))

  keep_memory-Keeps :
      (walk : ℕ → List ℕ → Files W → Option (Files W)) (n : ℕ) (found : Option ℕ) (more : List ℕ)
      (st : Files W) (r : Option (Files W))
      → ((path c : ℕ) (name : List ℕ) (st1 : Files W)
          → suc (length name) ≤ n
          → Keeps n st1 (walk path (c ∷ name) st1))
      → length more ≤ n
      → Taken 2 st r
      → Keeps (suc n) st (keep_memory kernel walk found more r)
  keep_memory-Keeps walk n found more st none h le t =
      NoMemory-widen st.allocated st.allocated (st.allocated + 2) (st.allocated + (suc n + suc n))
        (omega arith) (omega arith) t
  keep_memory-Keeps walk n none more st (some st1) h le (same, held) =
      (0, omega arith, same, omega (arith, held))
  keep_memory-Keeps walk n (some path) [] st (some st1) h le (same, held) =
      (1, omega arith, same, held)
  keep_memory-Keeps walk n (some path) (c ∷ more) st (some st1) h le (same, held) =
      Keeps-more n st st1 (walk path (c ∷ more) st1) same held (h path c more st1 le)

  Keeps-widen :
      (n m : ℕ) (st : Files W) (r : Option (Files W)) → n ≤ m → Keeps n st r → Keeps m st r
  Keeps-widen n m st none le h =
      NoMemory-widen st.allocated st.allocated (st.allocated + (n + n)) (st.allocated + (m + m))
        (omega arith) (omega (arith, le)) h
  Keeps-widen n m st (some st') le (k, few, slots, count) =
      (k, omega (arith, few, le), slots, count)

  walk_memory-Keeps :
      (f parent c : ℕ) (s : List ℕ) (st : Files W)
      → suc (length s) < f
      → Keeps (suc (length s)) st (walk_memory kernel f parent (c ∷ s) st)
  unfolding walk_memory
  walk_memory-Keeps zero parent c s st enough = absurd (omega arith)
  walk_memory-Keeps (suc f) parent c s st enough =
      let (part, rest) = next_part (c ∷ s) in
      keep_memory-Keeps (walk_memory kernel f) (length s) (kernel.lookup parent part)
        (skip_slashes rest) st (name_memory kernel part (kmalloc kernel sizeof_dir_entry st))
        (λ path d name st1 le.
          Keeps-widen (suc (length name)) (length s) st1 (walk_memory kernel f path (d ∷ name) st1)
            le (walk_memory-Keeps f path d name st1 (omega (arith, le, enough))))
        (next_part-shorter c s) (entry-Taken part st)

  path_memory-within :
      (fuel n : ℕ) (name : List ℕ) (st : Files W)
      → n < fuel
      → length name ≤ n
      → Keeps n st (path_memory kernel fuel name st)
  path_memory-within fuel n [] st enough le = (0, omega arith, refl, omega arith)
  path_memory-within fuel n (c ∷ s) st enough le =
      Keeps-widen (suc (length s)) n st (walk_memory kernel fuel kernel.root (c ∷ s) st) le
        (walk_memory-Keeps fuel kernel.root c s st (omega (arith, le, enough)))

  -- With enough fuel `path_walk` keeps the blocks of at most as many entries as the name has bytes.
  pub path_memory-Keeps :
      (s : List ℕ) (st : Files W)
      → Keeps (length s) st (path_memory kernel (suc (length s)) (skip_slashes s) st)
  path_memory-Keeps s st =
      path_memory-within (suc (length s)) (length s) (skip_slashes s) st (omega arith)
        (length-skip_slashes s)
