-- ===== src/Slab.antt =====
-- `kmalloc` and `kfree` of os/kernel/memory.c. The ring of slabs of a cache goes by its members, from
-- `cache_pool` on, and an array of words by its bits. A result `none` is a fault, such as a write
-- through NULL; the first argument of the two bounds how deep their calls nest.
pub mod Bitmap
pub mod Object
pub mod Create
pub mod Free
pub mod Owner
pub mod Return
pub mod Physical
mod Tests
use system_studying.Base.{
  ℕ, zero, suc, ◌+◌, ◌-◌, ◌*◌, ◌/◌, ◌%◌, ◌^◌, Bool, true, false, not, ◌&&◌, ◌||◌, Option, none,
  some, List, [], ◌∷◌, ◌++◌, if◌then◌else◌, ltb, leb, ◌==◌, length, get_elem?, set,
}
use system_studying.Links.{update}
use system_studying.Memory.{inc64, dec64}

abbrev pub page_2m_size : ℕ
page_2m_size = 2 ^ 21

-- `sizeof(struct SLAB)`
abbrev pub sizeof_slab : ℕ
sizeof_slab = 72

-- `struct SLAB`; `address` is its own, `map_address` that of its `color_map`.
pub record Slab : Type 0 where
  pub address : ℕ
  pub page : ℕ
  pub using_count : ℕ
  pub free_count : ℕ
  pub vaddress : ℕ
  pub color_length : ℕ
  pub color_count : ℕ
  pub map_address : ℕ
  pub color_map : ℕ → Bool

-- `struct SLAB_cache`, as `kmalloc` uses it.
pub record SlabCache : Type 0 where
  pub size : ℕ
  pub total_using : ℕ
  pub total_free : ℕ
  pub cache_pool : List Slab

-- What the allocator uses of the pages: `alloc_pages` of one page with `page_init`, `page_clean` with
-- `free_pages`, and the address at which a page stands.
pub record Pages (M : Type 0) : Type 0 where
  pub take_page : M → Option (ℕ × M)
  pub give_page : ℕ → M → M
  pub address_of : M → ℕ → ℕ

pub record Heap (M : Type 0) : Type 0 where
  pub kmalloc_cache_size : List SlabCache
  pub memory : M

-- Whether the `n` bits from `j` on are set.
unfoldable pub all_set : ℕ → ℕ → (ℕ → Bool) → Bool
all_set zero j map = true
all_set (suc n) j map = map j && all_set n (suc j) map

-- `for(j = 0; j < slab->color_count; j++)` at `j`; the rounds left are at least as many as the bits.
unfoldable pub first_unused : ℕ → Slab → ℕ → Option ℕ
first_unused zero slab j = none
first_unused (suc f) slab j =
    let skip = first_unused f slab (j + 63 + 1) in
    let step = first_unused f slab (j + 1) in
    if leb slab.color_count j
    then none
    else if all_set 64 (j / 64 * 64) slab.color_map
    then skip
    else if slab.color_map j
    then step
    else some j

abbrev pub with_object : Slab → ℕ → Slab
with_object slab j = record slab {
  color_map = update slab.color_map j true;
  using_count = inc64 slab.using_count;
  free_count = dec64 slab.free_count;
}

abbrev pub allocated : SlabCache → ℕ → Slab → Option ℕ → Option ℕ × SlabCache
allocated cache k slab none = (none, cache)
allocated cache k slab (some j) = (
  some (slab.vaddress + cache.size * j),
  record cache {
    cache_pool = set cache.cache_pool k (with_object slab j);
    total_using = inc64 cache.total_using;
    total_free = dec64 cache.total_free;
  },
)

-- `do ... while(slab != cache_pool)` from the slab `k` on; behind the last comes the first again.
abbrev pub next_free : ℕ → List Slab → ℕ
next_free k [] = 0
next_free k (slab ∷ pool) = if slab.free_count == 0 then next_free (suc k) pool else k

-- `for(i = 0; i < 16; i++)` over the sizes from `i` on.
abbrev pub cache_index : ℕ → ℕ → List SlabCache → Option ℕ
cache_index i size [] = none
cache_index i size (cache ∷ caches) =
    if leb size cache.size then some i else cache_index (suc i) size caches

-- `^= 1UL << i % 64` on the word of the bit `i`.
unfoldable pub flip : ℕ → (ℕ → Bool) → ℕ → Bool
unfolding update
flip i map = update map i (not (map i))

-- The loop over `i < color_count`.
unfoldable pub flip_all : ℕ → (ℕ → Bool) → ℕ → Bool
unfolding flip
flip_all zero map = map
flip_all (suc n) map = flip n (flip_all n map)

abbrev pub map_length : ℕ → ℕ
map_length count = (count + 8 * 8 - 1) / 2 ^ 6 * 2 ^ 3

abbrev pub is_small : ℕ → Bool
is_small size = size == 32 || size == 64 || size == 128 || size == 256 || size == 512

abbrev pub is_large : ℕ → Bool
is_large size =
    size == 1024
    || size == 2048
    || size == 4096
    || size == 8192
    || size == 16384
    || size == 32768
    || size == 65536
    || size == 131072
    || size == 262144
    || size == 524288
    || size == 1048576

abbrev pub small_count : ℕ → ℕ
small_count size = (page_2m_size - page_2m_size / size / 8 - sizeof_slab) / size

-- The slab stands at the end of its own page.
abbrev pub small_slab : ℕ → ℕ → ℕ → Slab
small_slab size page vaddress =
    let address : ℕ = vaddress + page_2m_size - (sizeof_slab + page_2m_size / size / 8) in
    record {
      address = address;
      page = page;
      using_count = 0;
      free_count = small_count size;
      vaddress = vaddress;
      color_length = map_length (small_count size);
      color_count = small_count size;
      map_address = address + sizeof_slab;
      color_map = flip_all (small_count size) (λ j. true);
    }

abbrev pub large_slab : ℕ → ℕ → ℕ → ℕ → ℕ → Slab
large_slab size page vaddress address map_address =
    let count : ℕ = page_2m_size / size in
    record {
      address = address;
      page = page;
      using_count = 0;
      free_count = count;
      vaddress = vaddress;
      color_length = map_length count;
      color_count = count;
      map_address = map_address;
      color_map = flip_all count (λ j. true);
    }

module _ {M : Type 0} (pages : Pages M) where
  abbrev pub with_cache : ℕ → SlabCache → Heap M → Heap M
  with_cache i cache h = record h { kmalloc_cache_size = set h.kmalloc_cache_size i cache }

  abbrev pub object_of : ℕ → SlabCache → ℕ → Option Slab → Heap M → Option (Option ℕ × Heap M)
  object_of i cache k none h = none
  object_of i cache k (some slab) h =
      let (object, cache') = allocated cache k slab (first_unused slab.color_count slab 0) in
      some (object, with_cache i cache' h)

  -- The loop over the bits of the slab `k`.
  abbrev pub allocate : ℕ → SlabCache → ℕ → Heap M → Option (Option ℕ × Heap M)
  allocate i cache k h = object_of i cache k (get_elem? cache.cache_pool k) h

  -- The two calls of `kmalloc` for a large slab; the results are not tested.
  abbrev pub with_map : ℕ → ℕ → ℕ → Option (Option ℕ × Heap M) → Option (Option Slab × Heap M)
  with_map size page address none = none
  with_map size page address (some (none, h)) = none
  with_map size page address (some (some map_address, h)) =
      some (some (large_slab size page (pages.address_of h.memory page) address map_address), h)

  abbrev pub with_slab :
      (ℕ → Heap M → Option (Option ℕ × Heap M))
      → ℕ
      → ℕ
      → Option (Option ℕ × Heap M)
      → Option (Option Slab × Heap M)
  with_slab malloc size page none = none
  with_slab malloc size page (some (none, h)) = none
  with_slab malloc size page (some (some address, h)) =
      with_map size page address (malloc (map_length (page_2m_size / size)) h)

  abbrev pub on_page :
      (ℕ → Heap M → Option (Option ℕ × Heap M))
      → ℕ
      → Option (ℕ × M)
      → Heap M
      → Option (Option Slab × Heap M)
  on_page malloc size none h = some (none, h)
  on_page malloc size (some (page, memory)) h =
      let h' : Heap M = record h { memory = memory } in
      if is_small size
      then some (some (small_slab size page (pages.address_of memory page)), h')
      else if is_large size
      then with_slab malloc size page (malloc sizeof_slab h')
      else some (none, record h { memory = pages.give_page page memory })

  unfoldable pub kmalloc_create :
      (ℕ → Heap M → Option (Option ℕ × Heap M)) → ℕ → Heap M → Option (Option Slab × Heap M)
  unfolding flip_all
  kmalloc_create malloc size h = on_page malloc size (pages.take_page h.memory) h

  -- `list_add_before` at a `cache_pool` that is NULL is a fault.
  abbrev pub grown : ℕ → Slab → Option SlabCache → Heap M → Option (Option ℕ × Heap M)
  grown i slab none h = none
  grown i slab (some cache) h = elim cache.cache_pool [
    | [] ↦ none
    | first ∷ others ↦
        allocate i
          (record cache {
            total_free = (cache.total_free + slab.color_count) % 2 ^ 64;
            cache_pool = cache.cache_pool ++ slab ∷ [];
          })
          (length cache.cache_pool) h
  ]

  abbrev pub created : ℕ → Option (Option Slab × Heap M) → Option (Option ℕ × Heap M)
  created i none = none
  created i (some (none, h)) = some (none, h)
  created i (some (some slab, h)) = grown i slab (get_elem? h.kmalloc_cache_size i) h

  abbrev pub from_cache :
      (ℕ → Heap M → Option (Option ℕ × Heap M))
      → ℕ
      → Option SlabCache
      → Heap M
      → Option (Option ℕ × Heap M)
  from_cache malloc i none h = none
  from_cache malloc i (some cache) h =
      if cache.total_free == 0
      then created i (kmalloc_create malloc cache.size h)
      else allocate i cache (next_free 0 cache.cache_pool) h

  abbrev pub kmalloc_in :
      (ℕ → Heap M → Option (Option ℕ × Heap M)) → Option ℕ → Heap M → Option (Option ℕ × Heap M)
  kmalloc_in malloc none h = none
  kmalloc_in malloc (some i) h = from_cache malloc i (get_elem? h.kmalloc_cache_size i) h

  unfoldable pub kmalloc : ℕ → ℕ → Heap M → Option (Option ℕ × Heap M)
  unfolding kmalloc_create first_unused all_set
  kmalloc zero size h = none
  kmalloc (suc depth) size h =
      if ltb 1048576 size
      then some (none, h)
      else kmalloc_in (kmalloc depth) (cache_index 0 size h.kmalloc_cache_size) h
