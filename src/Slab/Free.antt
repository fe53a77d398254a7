-- ===== src/Slab/Free.antt =====
-- `kfree` of os/kernel/memory.c.
use system_studying.Base.{
  ℕ, zero, suc, ◌+◌, ◌-◌, ◌*◌, ◌/◌, ◌%◌, ◌^◌, Bool, not, ◌&&◌, Option, none, some, List, [], ◌∷◌,
  if◌then◌else◌, leb, ◌==◌, set,
}
use system_studying.Memory.{inc64, dec64}
use system_studying.Slab.{Slab, SlabCache, Pages, Heap, flip, is_small, page_2m_size, with_cache}

-- `(unsigned long)address & PAGE_2M_MASK`
abbrev pub page_base : ℕ → ℕ
page_base address = address / page_2m_size * page_2m_size

-- The loop over the ring of one cache, from the slab `k` on.
abbrev pub slab_at : ℕ → ℕ → List Slab → Option (ℕ × Slab)
slab_at k base [] = none
slab_at k base (slab ∷ pool) =
    if slab.vaddress == base then some (k, slab) else slab_at (suc k) base pool

abbrev pub Owner : Type 0
Owner = ℕ × SlabCache × ℕ × Slab

abbrev pub found_in : ℕ → SlabCache → Option (ℕ × Slab) → Option Owner → Option Owner
found_in i cache none rest = rest
found_in i cache (some (k, slab)) rest = some (i, cache, k, slab)

-- The loop over the caches, from the entry `i` on.
abbrev pub owner : ℕ → ℕ → List SlabCache → Option Owner
owner i base [] = none
owner i base (cache ∷ caches) =
    found_in i cache (slab_at 0 base cache.cache_pool) (owner (suc i) base caches)

abbrev pub freed_slab : Slab → ℕ → Slab
freed_slab slab j = record slab {
  color_map = flip j slab.color_map;
  free_count = inc64 slab.free_count;
  using_count = dec64 slab.using_count;
}

abbrev pub freed_cache : SlabCache → ℕ → Slab → ℕ → SlabCache
freed_cache cache k slab j = record cache {
  cache_pool = set cache.cache_pool k (freed_slab slab j);
  total_free = inc64 cache.total_free;
  total_using = dec64 cache.total_using;
}

abbrev pub remove : ℕ → List Slab → List Slab
remove k [] = []
remove zero (slab ∷ pool) = pool
remove (suc k) (slab ∷ pool) = slab ∷ remove k pool

abbrev pub without_slab : SlabCache → ℕ → Slab → SlabCache
without_slab cache k slab = record cache {
  cache_pool = remove k cache.cache_pool;
  total_free = (cache.total_free + 2 ^ 64 - slab.color_count) % 2 ^ 64;
}

-- `using_count == 0`, enough free objects in the cache, and not the first slab of the ring.
abbrev pub is_spare : SlabCache → ℕ → Slab → Bool
is_spare cache k slab =
    slab.using_count == 0 && leb (slab.color_count * 3 / 2) cache.total_free && not (k == 0)

module _ {M : Type 0} (pages : Pages M) where
  abbrev pub give_back : Slab → Heap M → Heap M
  give_back slab h = record h { memory = pages.give_page slab.page h.memory }

  abbrev pub free_header : Option (ℕ × Heap M) → Option (ℕ × Heap M)
  free_header none = none
  free_header (some (r, h)) = some (1, h)

  abbrev pub free_map :
      (ℕ → Heap M → Option (ℕ × Heap M)) → Slab → Option (ℕ × Heap M) → Option (ℕ × Heap M)
  free_map free slab none = none
  free_map free slab (some (r, h)) = free_header (free slab.address (give_back slab h))

  abbrev pub release :
      (ℕ → Heap M → Option (ℕ × Heap M)) → ℕ → SlabCache → ℕ → Slab → Heap M → Option (ℕ × Heap M)
  release free i cache k slab h =
      let h' : Heap M = with_cache pages i (without_slab cache k slab) h in
      if is_small cache.size
      then some (1, give_back slab h')
      else free_map free slab (free slab.map_address h')

  abbrev pub free_object :
      (ℕ → Heap M → Option (ℕ × Heap M)) → ℕ → Option Owner → Heap M → Option (ℕ × Heap M)
  free_object free address none h = some (0, h)
  free_object free address (some (i, cache, k, slab)) h =
      let j = (address - slab.vaddress) / cache.size in
      let slab' = freed_slab slab j in
      let cache' = freed_cache cache k slab j in
      if is_spare cache' k slab'
      then release free i cache' k slab' h
      else some (1, with_cache pages i cache' h)

  unfoldable pub kfree : ℕ → ℕ → Heap M → Option (ℕ × Heap M)
  unfolding flip
  kfree zero address h = none
  kfree (suc depth) address h =
      free_object (kfree depth) address (owner 0 (page_base address) h.kmalloc_cache_size) h
