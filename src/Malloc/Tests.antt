-- ===== src/Malloc/Tests.antt =====
-- A machine whose `brk` rounds up to a multiple of 2M.
use system_studying.Base.{
  ℕ, ◌+◌, ◌-◌, ◌*◌, ◌/◌, ◌^◌, ◌≤◌, ◌≡◌, inl, refl, arith, if◌then◌else◌, ◌==◌,
}
use system_studying.Malloc.{Area, started, malloc, page_size, size_align}
use system_studying.Malloc.Blocks.{Grants, IsArea, malloc_block}

abbrev brk : ℕ → ℕ → ℕ × ℕ
brk x w = (if x == 0 then 2 ^ 22 else (x + page_size - 1) / page_size * page_size, w)

brk-Grants : Grants brk
brk-Grants = record { start = λ w. (omega arith, omega arith); keeps = λ x w. refl }

abbrev fresh : Area ℕ
fresh = record { brk_start_address = 0; brk_used_address = 0; brk_end_address = 0; world = 0 }

malloc_block_example :
    ((malloc brk 100 fresh).0 ≡ (started brk fresh).brk_used_address)
    × ((malloc brk 100 fresh).0 + 100 + size_align ≡ (malloc brk 100 fresh).1.brk_used_address)
    × ((malloc brk 100 fresh).1.brk_used_address ≤ (malloc brk 100 fresh).1.brk_end_address)
    × ((started brk fresh).brk_end_address ≤ (malloc brk 100 fresh).1.brk_end_address)
    × IsArea brk (malloc brk 100 fresh).1
malloc_block_example =
    malloc_block brk brk-Grants 100 fresh (inl refl) (λ full. omega arith) (omega arith)
      (omega arith)
