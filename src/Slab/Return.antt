-- ===== src/Slab/Return.antt =====
-- `kfree` of what `kmalloc` has given.
use system_studying.Base.{
  ℕ, suc, ◌+◌, ◌-◌, ◌*◌, ◌/◌, ◌%◌, ◌^◌, ◌≤◌, ◌<◌, ◌≡◌, ◌⊎◌, inl, inr, refl, sym, ap, ◌∙◌, arith,
  Bool, true, false, Option, some, List, if◌then◌else◌, ◌==◌, Bool-cases, ==_iff, get_elem?, set,
  set-set, set-get_elem?,
}
use mathlib.Core.Path.{fun_ext}
use native.Mathlib.Nat.{mul-div_right}
use system_studying.Links.{update}
use system_studying.Memory.{inc64, dec64}
use system_studying.Slab.{
  Slab, SlabCache, Pages, Heap, flip, with_object, with_cache, page_2m_size, cache_index, kmalloc,
}
use system_studying.Slab.Free.{page_base, owner, freed_slab, freed_cache, is_spare, release, kfree}
use system_studying.Slab.Owner.{Owns, owner-Owns, FirstAt-set, Owns-set, get-set}
use system_studying.Slab.Bitmap.{clear_bits-use}
use system_studying.Slab.Object.{
  IsSlab, IsCache, with_used, All-get, count-le-total, kmalloc-Obtained,
}

flip-use : (j : ℕ) (map : ℕ → Bool) → map j ≡ false → flip j (update map j true) ≡ map
unfolding flip update
flip-use j map h =
    let self : (j == j) ≡ true = ground arith in
    fun_ext (λ i. elim (Bool-cases (i == j)) [
      | inl e ↦ rw (e, self) (sym h ∙ ap map (sym ((==_iff i j).0 e)))
      | inr e ↦ rw e refl
    ])

-- The slab that has got the object `j` back.
freed-with_object :
    (slab : Slab) (j : ℕ)
    → slab.color_map j ≡ false
    → 0 < slab.free_count
    → slab.using_count + slab.free_count < 2 ^ 64
    → freed_slab (with_object slab j) j ≡ slab
freed-with_object slab j clear left bound =
    let u : dec64 (inc64 slab.using_count) ≡ slab.using_count = omega arith in
    let f : inc64 (dec64 slab.free_count) ≡ slab.free_count = omega arith in
    rw (u, f, flip-use j slab.color_map clear) refl

object_within : (j count size : ℕ) → j < count → 0 < size → size * j < count * size
object_within j count size lt p = grind arith

object_base : (v x : ℕ) → v % page_2m_size ≡ 0 → x < page_2m_size → page_base (v + x) ≡ v
object_base v x e lt = omega arith

-- A slab that stays in the ring when it gets its last object back.
stays :
    (cache : SlabCache) (k : ℕ) (slab : Slab)
    → (k ≡ 0) ⊎ (0 < slab.using_count)
    → is_spare cache k slab ≡ false
stays cache k slab h = ground arith

freed-with_used :
    (cache : SlabCache) (k : ℕ) (slab : Slab) (j : ℕ)
    → get_elem? cache.cache_pool k ≡ some slab
    → slab.color_map j ≡ false
    → 0 < slab.free_count
    → slab.using_count + slab.free_count < 2 ^ 64
    → 0 < cache.total_free
    → cache.total_using + cache.total_free < 2 ^ 64
    → freed_cache (with_used cache k slab j) k (with_object slab j) j ≡ cache
freed-with_used cache k slab j at clear left bound left_all bound_all =
    let u : dec64 (inc64 cache.total_using) ≡ cache.total_using = omega arith in
    let f : inc64 (dec64 cache.total_free) ≡ cache.total_free = omega arith in
    let old = freed-with_object slab j clear left bound in
    let pool : set (set cache.cache_pool k (with_object slab j)) k
          (freed_slab (with_object slab j) j)
        ≡ cache.cache_pool =
      ap (λ s. set (set cache.cache_pool k (with_object slab j)) k s) old
      ∙ set-set cache.cache_pool k (with_object slab j) slab
      ∙ set-get_elem? cache.cache_pool k slab at in
    λ d. record cache { cache_pool = pool d; total_using = u d; total_free = f d }

-- The slabs of the cache `i`: each is the first with its page, which starts at a multiple of 2M and
-- has room for its objects, and stays in the ring when one object more is given back.
abbrev pub Placed : ℕ → SlabCache → List SlabCache → Type 0
Placed i cache caches =
    (k : ℕ) (slab : Slab)
    → get_elem? cache.cache_pool k ≡ some slab
    → Owns slab.vaddress i k caches
      × (slab.vaddress % page_2m_size ≡ 0)
      × (slab.color_count * cache.size ≤ page_2m_size)
      × ((k ≡ 0) ⊎ (0 < slab.using_count))

module _ {M : Type 0} (pages : Pages M) where
  with_cache-with_cache :
      (i : ℕ) (cache cache' : SlabCache) (h : Heap M)
      → get_elem? h.kmalloc_cache_size i ≡ some cache
      → with_cache pages i cache (with_cache pages i cache' h) ≡ h
  with_cache-with_cache i cache cache' h at =
      let back =
        set-set h.kmalloc_cache_size i cache' cache
        ∙ set-get_elem? h.kmalloc_cache_size i cache at in
      λ d. record h { kmalloc_cache_size = back d }

  -- What a free does, where it gives the cache `cache` with the slab `slab`, and keeps the slab.
  kept :
      (free : ℕ → Heap M → Option (ℕ × Heap M)) (i k : ℕ) (cache' : SlabCache) (slab' : Slab)
      (j : ℕ) (h : Heap M) {cache : SlabCache} {slab : Slab}
      → freed_cache cache' k slab' j ≡ cache
      → freed_slab slab' j ≡ slab
      → is_spare cache k slab ≡ false
      → (if is_spare (freed_cache cache' k slab' j) k (freed_slab slab' j)
          then release pages free i (freed_cache cache' k slab' j) k (freed_slab slab' j) h
          else some (1, with_cache pages i (freed_cache cache' k slab' j) h))
        ≡ some (1, with_cache pages i cache h)
  kept free i k cache' slab' j h {cache} {slab} all one keep =
      let step = λ (c : SlabCache) (s : Slab).
        if is_spare c k s then release pages free i c k s h else some (1, with_cache pages i c h) in
      (λ d. step (all d) (one d)) ∙ rw keep

  kfree-with_used :
      (depth : ℕ) (h : Heap M) (i : ℕ) (cache : SlabCache) (k j : ℕ) (slab : Slab)
      → get_elem? h.kmalloc_cache_size i ≡ some cache
      → IsCache cache
      → 0 < cache.size
      → Placed i cache h.kmalloc_cache_size
      → get_elem? cache.cache_pool k ≡ some slab
      → j < slab.color_count
      → slab.color_map j ≡ false
      → 0 < slab.free_count
      → kfree pages
          (suc depth)
          (slab.vaddress + cache.size * j)
          (with_cache pages i (with_used cache k slab j) h)
        ≡ some (1, h)
  unfolding kfree
  kfree-with_used depth h i cache k j slab at c size placed here lt clear left =
      let s = All-get IsSlab cache.cache_pool k slab c.slabs here in
      let all_left = count-le-total (λ x. x.free_count) cache.cache_pool k slab here in
      let (owns, aligned, room, keep) = placed k slab here in
      let within = object_within j slab.color_count cache.size lt size in
      let base = object_base slab.vaddress (cache.size * j) aligned (omega (arith, within, room)) in
      let cache' = with_used cache k slab j in
      let slab' = with_object slab j in
      let found : owner 0 slab.vaddress (set h.kmalloc_cache_size i cache')
          ≡ some (i, cache', k, slab') =
        owner-Owns 0 slab.vaddress i k (set h.kmalloc_cache_size i cache') cache' slab'
          (Owns-set slab.vaddress i k h.kmalloc_cache_size cache cache' at
            (FirstAt-set slab.vaddress k cache.cache_pool slab' refl) owns)
          (get-set h.kmalloc_cache_size i cache cache' at)
          (get-set cache.cache_pool k slab slab' here)
        ∙ ap (λ (t : ℕ). some (t, cache', k, slab')) (omega arith) in
      let index : (slab.vaddress + cache.size * j - slab.vaddress) / cache.size ≡ j =
        ap (λ (t : ℕ). t / cache.size) (omega arith) ∙ mul-div_right j size in
      let one = freed-with_object slab j clear left (omega (arith, s.all, s.bound)) in
      let all =
        freed-with_used cache k slab j here clear left (omega (arith, s.all, s.bound))
          (omega (arith, c.free, all_left, left)) c.bound in
      rw (base, found, index)
        (kept (kfree pages depth) i k cache' slab' j (with_cache pages i cache' h) all one
            (stays cache k slab keep)
          ∙ ap (λ g. some (1, g)) (with_cache-with_cache i cache cache' h at))

  -- `kmalloc` from a well-formed cache with a free object gives an address, and `kfree` of that address
  -- restores the heap, where each slab of the cache is the first with its page, which has room for its
  -- objects, and is the first of the ring or has an object in use.
  pub kfree-kmalloc :
      (depth deep size : ℕ) (h : Heap M) (i : ℕ) (cache : SlabCache)
      → size ≤ 1048576
      → cache_index 0 size h.kmalloc_cache_size ≡ some i
      → get_elem? h.kmalloc_cache_size i ≡ some cache
      → IsCache cache
      → 0 < cache.size
      → 0 < cache.total_free
      → Placed i cache h.kmalloc_cache_size
      → (address : ℕ) × (h' : Heap M) × (kmalloc pages (suc depth) size h ≡ some (some address, h'))
        × (kfree pages (suc deep) address h' ≡ some (1, h))
  kfree-kmalloc depth deep size h i cache small index at c positive left placed =
      let (k, j, slab, here, lt, clear, run, after) =
        (kmalloc-Obtained pages depth size h i cache small index at c left).1 in
      let s = All-get IsSlab cache.cache_pool k slab c.slabs here in
      let some_left = clear_bits-use slab.color_count j slab.color_map lt clear in
      (
        slab.vaddress + cache.size * j,
        with_cache pages i (with_used cache k slab j) h,
        run,
        kfree-with_used deep h i cache k j slab at c positive placed here lt clear
            (omega (arith, some_left, s.free)),
      )
