-- ===== src/Memory/Tests.antt =====
-- A map of 64 pages in one zone, of which the first three are taken.
use mathlib.Core.Option
use system_studying.Base.{ℕ, ◌-◌, ◌*◌, ◌^◌, ◌<◌, ◌≡◌, refl, some, none, arith, if◌then◌else◌, ◌==◌}
use system_studying.Base.Int.{pos}
use system_studying.Memory.{Page, Zone, Memory, valid_number, free_pages}
use system_studying.Memory.Alloc.{take_pages, alloc_pages}
use system_studying.Memory.Alloc.Window.{page_bit}
use system_studying.Memory.Alloc.Marked.{
  IsMapped, Allocated, alloc_pages-Allocated, free_pages-alloc_pages,
}

abbrev page_at : ℕ → Page
page_at q = record {
  zone_struct = 0;
  p_address = q * 2 ^ 21;
  attribute = 0;
  reference_count = 0;
  age = 0;
}

abbrev zone : Zone
zone = record {
  pages_group = 0;
  pages_length = 64;
  zone_start_address = 0;
  zone_end_address = 64 * 2 ^ 21;
  zone_length = 64 * 2 ^ 21;
  attritube = 0;
  page_using_count = 3;
  page_free_count = 61;
  total_pages_link = 3;
}

abbrev memory : Memory
memory = record {
  bits_map = λ i. if i == 0 then 7 else 2 ^ 64 - 1;
  pages = page_at;
  zones = λ z. zone;
  zones_size = 1;
  zone_dma_index = 0;
  zone_normal_index = 0;
  zone_unmaped_index = 0;
}

memory-IsMapped : IsMapped memory
memory-IsMapped q h = omega arith

two_pages : Option.map (λ r. r.0) (alloc_pages 2 (pos 2) memory) ≡ some 3
unfolding alloc_pages
two_pages = refl

word_after : Option.map (λ r. r.1.bits_map 0) (alloc_pages 2 (pos 2) memory) ≡ some 31
unfolding alloc_pages
word_after = refl

too_many : alloc_pages 2 (pos 64) memory ≡ none
unfolding alloc_pages
too_many = refl

-- The state behind the two pages.
abbrev after : Memory
after = take_pages 0 1 2 3 memory

after_two : alloc_pages 2 (pos 2) memory ≡ some (3, after)
unfolding alloc_pages
after_two = refl

alloc_pages-Allocated_example :
    (n : ℕ) × (valid_number (pos 2) ≡ some n) × (0 < n) × (n < 64) × Allocated n memory 3 after
alloc_pages-Allocated_example =
    alloc_pages-Allocated 2 (pos 2) memory memory-IsMapped (λ z. omega arith) after_two

free_pages-alloc_pages_example :
    page_bit (free_pages (some 3) (pos 2) after).bits_map 4 ≡ page_bit memory.bits_map 4
free_pages-alloc_pages_example =
    free_pages-alloc_pages 2 (pos 2) memory memory-IsMapped (λ z. omega arith) after_two 4
