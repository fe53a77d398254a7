-- ===== src/Slab/Object.antt =====
-- What `kmalloc` gives from a cache with a free object.
use system_studying.Base.{
  ℕ, zero, suc, ◌+◌, ◌*◌, ◌^◌, ◌≤◌, ◌<◌, ◌≡◌, inl, inr, refl, sym, ap, ◌∙◌, arith, false, Option,
  some, List, [], ◌∷◌, ltb, leb, leb→le, ◌==◌, Bool-cases, get_elem?, set, All, subst,
}
use system_studying.Slab.{
  Slab, SlabCache, Pages, Heap, with_object, allocated, next_free, cache_index, with_cache,
  allocate, kmalloc,
}
use system_studying.Slab.Bitmap.{first_unused-finds, clear_bits, clear_bit, clear_bits-use}

-- The counts of a slab are those of its map.
pub record IsSlab (slab : Slab) : Type 0 where
  pub free : slab.free_count ≡ clear_bits slab.color_count slab.color_map
  pub all : slab.using_count + slab.free_count ≡ slab.color_count
  pub bound : slab.color_count < 2 ^ 64

abbrev pub total : (Slab → ℕ) → List Slab → ℕ
total count [] = 0
total count (slab ∷ pool) = count slab + total count pool

-- The totals of a cache are the sums over its slabs.
pub record IsCache (cache : SlabCache) : Type 0 where
  pub slabs : All IsSlab cache.cache_pool
  pub free : cache.total_free ≡ total (λ s. s.free_count) cache.cache_pool
  pub using : cache.total_using ≡ total (λ s. s.using_count) cache.cache_pool
  pub bound : cache.total_using + cache.total_free < 2 ^ 64

total-set :
    (count : Slab → ℕ) (pool : List Slab) (k : ℕ) (old new : Slab)
    → get_elem? pool k ≡ some old
    → total count (set pool k new) + count old ≡ total count pool + count new
total-set count [] k old new h = absurd (cc h)
total-set count (slab ∷ pool) zero old new h =
    let e : count slab ≡ count old = cc h in omega (arith, e)
total-set count (slab ∷ pool) (suc k) old new h = omega (arith, total-set count pool k old new h)

pub count-le-total :
    (count : Slab → ℕ) (pool : List Slab) (k : ℕ) (slab : Slab)
    → get_elem? pool k ≡ some slab
    → count slab ≤ total count pool
count-le-total count [] k slab h = absurd (cc h)
count-le-total count (x ∷ pool) zero slab h =
    let e : count x ≡ count slab = cc h in omega (arith, e)
count-le-total count (x ∷ pool) (suc k) slab h = omega (arith, count-le-total count pool k slab h)

module _ {κ} (P : Slab → Type κ) where
  All-set : (pool : List Slab) (k : ℕ) (new : Slab) → All P pool → P new → All P (set pool k new)
  All-set [] k new h p = tt
  All-set (slab ∷ pool) zero new h p = (p, h.1)
  All-set (slab ∷ pool) (suc k) new h p = (h.0, All-set pool k new h.1 p)

  pub All-get :
      (pool : List Slab) (k : ℕ) (slab : Slab) → All P pool → get_elem? pool k ≡ some slab → P slab
  All-get [] k slab h e = absurd (cc e)
  All-get (x ∷ pool) zero slab h e = subst P (cc e) h.0
  All-get (x ∷ pool) (suc k) slab h e = All-get pool k slab h.1 e

-- The slab at which the search for a free object stops.
next_free-finds :
    (i : ℕ) (pool : List Slab)
    → 0 < total (λ s. s.free_count) pool
    → (k : ℕ) × (slab : Slab) × (next_free i pool ≡ i + k)
      × (get_elem? pool k ≡ some slab)
      × (0 < slab.free_count)
next_free-finds i [] h = absurd (omega arith)
next_free-finds i (slab ∷ pool) h = elim (Bool-cases (slab.free_count == 0)) [
  | inr some_left ↦ (0, slab, rw some_left (omega arith), refl, ground arith)
  | inl full ↦
      let (k, found, e, at, left) = next_free-finds (suc i) pool (ground arith) in
      (suc k, found, rw full (omega (arith, e)), at, left)
]

-- The sizes of the entry that `kmalloc` chooses suffice.
cache_index-fits :
    (i size : ℕ) (caches : List SlabCache) (r : ℕ)
    → cache_index i size caches ≡ some r
    → (k : ℕ) × (cache : SlabCache) × (r ≡ i + k)
      × (get_elem? caches k ≡ some cache)
      × (size ≤ cache.size)
cache_index-fits i size [] r h = absurd (cc h)
cache_index-fits i size (cache ∷ caches) r h = elim (Bool-cases (leb size cache.size)) [
  | inl fits ↦
      let here : some i ≡ some r = (rw fits at h) in
      let e : r ≡ i = cc here in (0, cache, omega (arith, e), refl, leb→le size cache.size fits)
  | inr small ↦
      let there : cache_index (suc i) size caches ≡ some r = (rw small at h) in
      let (k, found, e, at, fits) = cache_index-fits (suc i) size caches r there in
      (suc k, found, omega (arith, e), at, fits)
]

with_object-IsSlab :
    (slab : Slab) (j : ℕ)
    → IsSlab slab
    → j < slab.color_count
    → slab.color_map j ≡ false
    → IsSlab (with_object slab j)
with_object-IsSlab slab j s lt clear =
    let used = clear_bits-use slab.color_count j slab.color_map lt clear in
    let f = s.free in
    let a = s.all in let b = s.bound in record { free = omega arith; all = omega arith; bound = b }

-- The cache with the object `j` of its slab `k` in use.
abbrev pub with_used : SlabCache → ℕ → Slab → ℕ → SlabCache
with_used cache k slab j = (allocated cache k slab (some j)).1

with_used-IsCache :
    (cache : SlabCache) (k : ℕ) (slab : Slab) (j : ℕ)
    → IsCache cache
    → get_elem? cache.cache_pool k ≡ some slab
    → j < slab.color_count
    → slab.color_map j ≡ false
    → IsCache (with_used cache k slab j)
with_used-IsCache cache k slab j c at lt clear =
    let s = All-get IsSlab cache.cache_pool k slab c.slabs at in
    let new = with_object slab j in
    let used = clear_bits-use slab.color_count j slab.color_map lt clear in
    let left : 0 < slab.free_count = omega (arith, used, s.free) in
    let sf = total-set (λ x. x.free_count) cache.cache_pool k slab new at in
    let su = total-set (λ x. x.using_count) cache.cache_pool k slab new at in
    let lf = count-le-total (λ x. x.free_count) cache.cache_pool k slab at in
    record {
      slabs = All-set IsSlab cache.cache_pool k new c.slabs (with_object-IsSlab slab j s lt clear);
      free = omega (arith, s.all, s.bound);
      using = omega (arith, s.all, s.bound);
      bound = omega (arith, s.all, s.bound);
    }

module _ {M : Type 0} (pages : Pages M) where
  -- The object `j` of the slab `k` was free, is in use now, and nothing else has changed. Its cache is
  -- the entry `i` of the table.
  abbrev pub Obtained : ℕ → SlabCache → Heap M → Option (Option ℕ × Heap M) → Type 0
  Obtained i cache h r =
      (k : ℕ) × (j : ℕ) × (slab : Slab) × (get_elem? cache.cache_pool k ≡ some slab)
      × (j < slab.color_count)
      × (slab.color_map j ≡ false)
      × (r
          ≡ some (
            some (slab.vaddress + cache.size * j),
            with_cache pages i (with_used cache k slab j) h,
          ))
      × IsCache (with_used cache k slab j)

  pub allocate-Obtained :
      (i : ℕ) (cache : SlabCache) (k : ℕ) (slab : Slab) (h : Heap M)
      → IsCache cache
      → get_elem? cache.cache_pool k ≡ some slab
      → 0 < slab.free_count
      → Obtained i cache h (allocate pages i cache k h)
  allocate-Obtained i cache k slab h c at left =
      let s = All-get IsSlab cache.cache_pool k slab c.slabs at in
      let (t, below, clear) =
        clear_bit slab.color_count slab.color_map (omega (arith, s.free, left)) in
      let (j, found, lt, free) =
        first_unused-finds slab.color_count slab 0 t (omega arith) below (omega (arith, below))
          clear (inl refl) in
      (k, j, slab, at, lt, free, rw (at, found) refl, with_used-IsCache cache k slab j c at lt free)

  -- The objects of the cache that `kmalloc` chooses are large enough. If it is well formed and has a
  -- free object, `kmalloc` gives an object that was not in use, marks this and no other, and leaves
  -- the cache well formed and all other caches as they were.
  pub kmalloc-Obtained :
      (depth size : ℕ) (h : Heap M) (i : ℕ) (cache : SlabCache)
      → size ≤ 1048576
      → cache_index 0 size h.kmalloc_cache_size ≡ some i
      → get_elem? h.kmalloc_cache_size i ≡ some cache
      → IsCache cache
      → 0 < cache.total_free
      → (size ≤ cache.size) × Obtained i cache h (kmalloc pages (suc depth) size h)
  unfolding kmalloc
  kmalloc-Obtained depth size h i cache small index at c left =
      let (k, slab, e, here, some_left) =
        next_free-finds 0 cache.cache_pool (omega (arith, c.free, left)) in
      let fits : ltb 1048576 size ≡ false = ground arith in
      let nonzero : (cache.total_free == 0) ≡ false = ground arith in
      let place : next_free 0 cache.cache_pool ≡ k = omega (arith, e) in
      let (n, found, m, there, size_fits) = cache_index-fits 0 size h.kmalloc_cache_size i index in
      let i_n : i ≡ n = omega (arith, m) in
      let same : some found ≡ some cache =
        sym there ∙ ap (get_elem? h.kmalloc_cache_size) (sym i_n) ∙ at in
      let same_size : found.size ≡ cache.size = cc same in
      (
        omega (arith, size_fits, same_size),
        rw (fits, index, at, nonzero, place) (allocate-Obtained i cache k slab h c here some_left),
      )
