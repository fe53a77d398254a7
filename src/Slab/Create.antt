-- ===== src/Slab/Create.antt =====
-- The slab that `kmalloc_create` makes, and `kmalloc` from a cache without a free object.
use system_studying.Base.{
  ℕ, zero, suc, ◌+◌, ◌*◌, ◌/◌, ◌%◌, ◌^◌, ◌≤◌, ◌<◌, ◌≡◌, inl, inr, refl, sym, ap, ◌∙◌, arith, Bool,
  true, false, not, Option, none, some, List, [], ◌∷◌, ◌++◌, ltb, ◌==◌, Bool-cases, Option-cases,
  ==_iff, get_elem?, length, All-append, subst,
}
use system_studying.Links.{update}
use system_studying.Slab.{
  Slab, SlabCache, Pages, Heap, flip, flip_all, is_small, map_length, small_count, small_slab,
  sizeof_slab, page_2m_size, cache_index, grown, allocate, kmalloc_create, kmalloc,
}
use system_studying.Slab.Bitmap.{clear_bits, clear_bits-update_above}
use system_studying.Slab.Object.{IsSlab, IsCache, total, Obtained, allocate-Obtained}

flip-at : (i : ℕ) (map : ℕ → Bool) → flip i map i ≡ not (map i)
unfolding flip update
flip-at i map = let self : (i == i) ≡ true = ground arith in rw self

flip-other : (i j : ℕ) (map : ℕ → Bool) → i < j → flip i map j ≡ map j
unfolding flip update
flip-other i j map h = let apart : (j == i) ≡ false = ground arith in rw apart

clear_bits-flip : (n : ℕ) (map : ℕ → Bool) → clear_bits n (flip n map) ≡ clear_bits n map
unfolding flip
clear_bits-flip n map = clear_bits-update_above n n (not (map n)) map (omega arith)

flip_all-above : (n i : ℕ) (map : ℕ → Bool) → n ≤ i → flip_all n map i ≡ map i
unfolding flip_all
flip_all-above zero i map h = refl
flip_all-above (suc n) i map h =
    flip-other n i (flip_all n map) h ∙ flip_all-above n i map (omega (arith, h))

-- The first `n` bits of a map of ones are clear behind the loop.
clear_bits-flip_all : (n : ℕ) → clear_bits n (flip_all n (λ j. true)) ≡ n
unfolding flip_all
clear_bits-flip_all zero = refl
clear_bits-flip_all (suc n) =
    let map = flip_all n (λ j. true) in
    let old : map n ≡ true = flip_all-above n n (λ j. true) (omega arith) in
    let clear : flip n map n ≡ false = flip-at n map ∙ ap not old in
    rw clear (omega (arith, clear_bits-flip n map, clear_bits-flip_all n))

-- What holds of the five small sizes.
small_sizes :
    (P : ℕ → Type 0) (size : ℕ)
    → is_small size ≡ true
    → P 32 × P 64 × P 128 × P 256 × P 512
    → P size
small_sizes P size h (a, b, c, d, e) = elim (Bool-cases (size == 32)) [
  | inl q ↦ subst P (sym ((==_iff size 32).0 q)) a
  | inr n1 ↦ elim (Bool-cases (size == 64)) [
    | inl q ↦ subst P (sym ((==_iff size 64).0 q)) b
    | inr n2 ↦ elim (Bool-cases (size == 128)) [
      | inl q ↦ subst P (sym ((==_iff size 128).0 q)) c
      | inr n3 ↦ elim (Bool-cases (size == 256)) [
        | inl q ↦ subst P (sym ((==_iff size 256).0 q)) d
        | inr n4 ↦
            let last : (size == 512) ≡ true = ground arith in
            subst P (sym ((==_iff size 512).0 last)) e
      ]
    ]
  ]
]

-- The objects of a small slab end below its map and its header, which end with the page; the map has
-- room for a bit of each.
abbrev Fits : ℕ → Type 0
Fits size =
    (0 < small_count size)
    × (small_count size < 2 ^ 64)
    × (small_count size * size + (sizeof_slab + map_length (small_count size)) ≤ page_2m_size)
    × (map_length (small_count size) ≤ page_2m_size / size / 8)
    × (small_count size ≤ map_length (small_count size) * 8)

small_size-Fits : (size : ℕ) → is_small size ≡ true → Fits size
small_size-Fits size h =
    small_sizes Fits size h (omega arith, omega arith, omega arith, omega arith, omega arith)

small_slab-IsSlab :
    (size page vaddress : ℕ) → is_small size ≡ true → IsSlab (small_slab size page vaddress)
small_slab-IsSlab size page vaddress h = record {
  free = sym (clear_bits-flip_all (small_count size));
  all = omega arith;
  bound = (small_size-Fits size h).1;
}

get-append : {A : Type 0} (xs : List A) (y : A) → get_elem? (xs ++ y ∷ []) (length xs) ≡ some y
get-append [] y = refl
get-append (x ∷ xs) y = get-append xs y

total-append :
    (count : Slab → ℕ) (pool : List Slab) (slab : Slab)
    → total count (pool ++ slab ∷ []) ≡ total count pool + count slab
total-append count [] slab = omega arith
total-append count (x ∷ pool) slab = omega (arith, total-append count pool slab)

-- A cache whose ring has got a slab.
abbrev pub with_slab_added : SlabCache → Slab → SlabCache
with_slab_added cache slab = record cache {
  total_free = (cache.total_free + slab.color_count) % 2 ^ 64;
  cache_pool = cache.cache_pool ++ slab ∷ [];
}

with_slab_added-IsCache :
    (cache : SlabCache) (slab : Slab)
    → IsCache cache
    → IsSlab slab
    → slab.using_count ≡ 0
    → cache.total_using + cache.total_free + slab.color_count < 2 ^ 64
    → IsCache (with_slab_added cache slab)
with_slab_added-IsCache cache slab c s unused room = record {
  slabs = All-append IsSlab cache.cache_pool (slab ∷ []) c.slabs (s, tt);
  free = omega (arith, total-append (λ x. x.free_count) cache.cache_pool slab, s.all);
  using = omega (arith, total-append (λ x. x.using_count) cache.cache_pool slab);
  bound = omega (arith, room);
}

module _ {M : Type 0} (pages : Pages M) where
  -- What `kmalloc` gives from the cache `i` without a free object, by the page that it takes.
  abbrev pub Grows : ℕ → SlabCache → Heap M → Option (ℕ × M) → Option (Option ℕ × Heap M) → Type 0
  Grows i cache h none r = r ≡ some (none, h)
  Grows i cache h (some (page, memory)) r =
      Obtained pages i
        (with_slab_added cache (small_slab cache.size page (pages.address_of memory page)))
        (record h { memory = memory }) r

  grown_lem :
      (i : ℕ) (slab : Slab) (cache : SlabCache) (h : Heap M) (first : Slab) (others : List Slab)
      → cache.cache_pool ≡ first ∷ others
      → grown pages i slab (some cache) h
        ≡ allocate pages i (with_slab_added cache slab) (length cache.cache_pool) h
  grown_lem i slab cache h first others pool =
      let done = allocate pages i (with_slab_added cache slab) (length cache.cache_pool) h in
      ap (λ (l : List Slab). elim l [ [] ↦ none | x ∷ xs ↦ done ]) pool

  -- From a well-formed cache of small objects with a slab in its ring but none free, `kmalloc` takes a page, if there is one,
  -- for a new slab at the end of the ring, and gives an object of the cache with that slab, in which
  -- only this object is marked, and the cache stays well formed; else it gives NULL and changes nothing.
  pub kmalloc-Grows :
      (depth size : ℕ) (h : Heap M) (i : ℕ) (cache : SlabCache) (first : Slab) (others : List Slab)
      → cache.cache_pool ≡ first ∷ others
      → size ≤ 1048576
      → cache_index 0 size h.kmalloc_cache_size ≡ some i
      → get_elem? h.kmalloc_cache_size i ≡ some cache
      → IsCache cache
      → cache.total_free ≡ 0
      → is_small cache.size ≡ true
      → cache.total_using + small_count cache.size < 2 ^ 64
      → Grows i cache h (pages.take_page h.memory) (kmalloc pages (suc depth) size h)
  unfolding kmalloc kmalloc_create
  kmalloc-Grows depth size h i cache first others pool small index at c empty little room =
      let fits : ltb 1048576 size ≡ false = ground arith in
      let zero_left : (cache.total_free == 0) ≡ true = ground arith in
      elim (Option-cases (pages.take_page h.memory)) [
        | inl out ↦ rw (fits, index, at, zero_left, out) refl
        | inr ((page, memory), taken) ↦
            let slab = small_slab cache.size page (pages.address_of memory page) in
            let many = small_size-Fits cache.size little in
            let grown =
              with_slab_added-IsCache cache slab c
                (small_slab-IsSlab cache.size page (pages.address_of memory page) little) refl
                (omega (arith, empty, room)) in
            rw
              (
                fits,
                index,
                at,
                zero_left,
                taken,
                little,
                at,
                grown_lem i slab cache (record h { memory = memory }) first others pool,
              )
              (allocate-Obtained pages i (with_slab_added cache slab) (length cache.cache_pool) slab
                (record h { memory = memory }) grown (get-append cache.cache_pool slab) (many.0))
      ]
