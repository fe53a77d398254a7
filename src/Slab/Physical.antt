-- ===== src/Slab/Physical.antt =====
-- The pages of `Memory` as those that the allocator uses.
use system_studying.Base.{ℕ, ◌+◌, ◌-◌, ◌%◌, ◌^◌, Option, none, some}
use system_studying.Base.Int.{pos}
use system_studying.Memory.{Memory, page_init, page_clean, free_pages}
use system_studying.Memory.Alloc.{alloc_pages}
use system_studying.Slab.{Pages}

abbrev zone_normal : ℕ
zone_normal = 2

abbrev page_kernel : ℕ
page_kernel = 8

abbrev pub page_offset : ℕ
page_offset = 2 ^ 64 - 2 ^ 47

-- `P_TO_V`
abbrev pub p_to_v : ℕ → ℕ
p_to_v addr = (addr + page_offset) % 2 ^ 64

abbrev initialised : Option (ℕ × Memory) → Option (ℕ × Memory)
initialised none = none
initialised (some (page, m)) = some (page, page_init page page_kernel m)

abbrev pub physical : Pages Memory
physical = record {
  take_page = λ m. initialised (alloc_pages zone_normal (pos 1) m);
  give_page = λ page m. free_pages (some page) (pos 1) (page_clean page m);
  address_of = λ m page. p_to_v (m.pages page).p_address;
}
