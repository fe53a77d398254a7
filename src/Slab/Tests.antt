-- ===== src/Slab/Tests.antt =====
-- A heap of two caches on a memory that is the number of the next page. A slab of the cache for 32
-- bytes has the second and third of three objects free; the cache for 64 bytes has none.
use system_studying.Base.{
  ℕ, zero, suc, subst, ◌+◌, ◌*◌, ◌^◌, ◌%◌, ◌≤◌, ◌<◌, ◌≡◌, ◌⊎◌, inl, refl, arith, true, ◌||◌, Option,
  none, some, [], ◌∷◌, leb, ◌==◌,
}
use system_studying.Slab.{Slab, SlabCache, Pages, Heap, kmalloc}
use system_studying.Slab.Object.{IsCache, Obtained, kmalloc-Obtained}
use system_studying.Slab.Create.{Grows, kmalloc-Grows}
use system_studying.Slab.Free.{kfree}
use system_studying.Slab.Owner.{Owns}
use system_studying.Slab.Return.{Placed, kfree-kmalloc}

abbrev pages : Pages ℕ
pages = record {
  take_page = λ next. some (next, next + 1);
  give_page = λ page next. next;
  address_of = λ next page. page * 2 ^ 21;
}

abbrev slab : Slab
slab = record {
  address = 900;
  page = 5;
  using_count = 1;
  free_count = 2;
  vaddress = 5 * 2 ^ 21;
  color_length = 8;
  color_count = 3;
  map_address = 972;
  color_map = λ j. j == 0 || leb 3 j;
}

abbrev cache_32 : SlabCache
cache_32 = record { size = 32; total_using = 1; total_free = 2; cache_pool = slab ∷ [] }

-- A slab of a cache whose two objects are taken.
abbrev full : Slab
full = record {
  address = 1000;
  page = 6;
  using_count = 2;
  free_count = 0;
  vaddress = 6 * 2 ^ 21;
  color_length = 8;
  color_count = 2;
  map_address = 1072;
  color_map = λ j. true;
}

abbrev cache_64 : SlabCache
cache_64 = record { size = 64; total_using = 2; total_free = 0; cache_pool = full ∷ [] }

abbrev heap : Heap ℕ
heap = record { kmalloc_cache_size = cache_32 ∷ cache_64 ∷ []; memory = 9 }

cache_32-IsCache : IsCache cache_32
cache_32-IsCache = record {
  slabs = (record { free = refl; all = refl; bound = omega arith }, tt);
  free = refl;
  using = refl;
  bound = omega arith;
}

cache_64-IsCache : IsCache cache_64
cache_64-IsCache = record {
  slabs = (record { free = refl; all = refl; bound = omega arith }, tt);
  free = refl;
  using = refl;
  bound = omega arith;
}

only_slab : Placed 0 cache_32 (cache_32 ∷ cache_64 ∷ [])
only_slab zero s e =
    let same : slab ≡ s = cc e in
    subst
      (λ (t : Slab).
        Owns t.vaddress 0 0 (cache_32 ∷ cache_64 ∷ [])
        × (t.vaddress % 2 ^ 21 ≡ 0)
        × (t.color_count * 32 ≤ 2 ^ 21)
        × ((◌≡◌ {A = ℕ} zero 0) ⊎ (0 < t.using_count)))
      same (refl, refl, omega arith, inl refl)
only_slab (suc k) s e = absurd (cc e)

kmalloc-Obtained_example : (20 ≤ 32) × Obtained pages 0 cache_32 heap (kmalloc pages 1 20 heap)
kmalloc-Obtained_example =
    kmalloc-Obtained pages 0 20 heap 0 cache_32 (omega arith) refl refl cache_32-IsCache
      (omega arith)

-- A cache whose pool is NULL cannot get its first slab.
no_pool :
    kmalloc pages 1 50
      (record heap { kmalloc_cache_size = cache_32 ∷ record cache_64 { cache_pool = [] } ∷ [] })
    ≡ none
unfolding kmalloc
no_pool = refl

kmalloc-Grows_example : Grows pages 1 cache_64 heap (some (9, 10)) (kmalloc pages 1 50 heap)
kmalloc-Grows_example =
    kmalloc-Grows pages 0 50 heap 1 cache_64 full [] refl (omega arith) refl refl cache_64-IsCache
      refl refl (omega arith)

kfree-kmalloc_example :
    (address : ℕ) × (h' : Heap ℕ) × (kmalloc pages 1 20 heap ≡ some (some address, h'))
    × (kfree pages 1 address h' ≡ some (1, heap))
kfree-kmalloc_example =
    kfree-kmalloc pages 0 0 20 heap 0 cache_32 (omega arith) refl refl cache_32-IsCache
      (omega arith) (omega arith) only_slab

-- The object is the second of the slab.
abbrev address : Option (Option ℕ × Heap ℕ) → ℕ
address none = 0
address (some (none, h)) = 0
address (some (some a, h)) = a

second_object : address (kmalloc pages 1 20 heap) ≡ 5 * 2 ^ 21 + 32
unfolding kmalloc
second_object = refl
