-- ===== src/Memory/Alloc.antt =====
-- `alloc_pages` of os/kernel/memory.c.
pub mod Window
pub mod Find
pub mod Marked
use Prim.Native.Nat.{bit_and, bit_or}
use system_studying.Base.{
  ℕ, zero, suc, ◌+◌, ◌-◌, ◌*◌, ◌/◌, ◌%◌, ◌^◌, Bool, true, false, not, Option, none, some, ltb, leb,
  ◌==◌, if◌then◌else◌,
}
use system_studying.Base.Int.{ℤ, pos}
use system_studying.Links.{update}
use system_studying.Memory.{
  Memory, page_2m_shift, page_pt_maped, page_number, mark_used, inc64, dec64, set_zone, set_page,
  valid_number,
}

-- The 64 bits from bit `k` of the words `w` and `w'` on, for `k` below 64: the operand of `&`.
abbrev pub window : ℕ → ℕ → ℕ → ℕ
window w w' zero = w
window w w' (suc k) = bit_or (w / 2 ^ suc k) (w' * 2 ^ (64 - suc k) % 2 ^ 64)

-- The innermost loop: `k` from `shift` on, for as many rounds as are left to 64.
unfoldable pub find_shift : ℕ → ℕ → ℕ → ℕ → ℕ → Option ℕ
find_shift w w' number zero k = none
find_shift w w' number (suc rounds) k = elim (bit_and (window w w' k) (2 ^ number - 1) == 0) [
  | true ↦ some k
  | false ↦ find_shift w w' number rounds (k + 1)
]

-- What a search of one zone ends with.
pub data Search : Type 0 where
  at : ℕ → Search
  nowhere : Search
  out_of_fuel : Search

abbrev next_start : ℕ → ℕ → ℕ
next_start j number = if j % 64 == 0 then j + 64 else j + (64 - number % 64)

-- The loop over `j`, up to and with `end`.
unfoldable pub find_run : ℕ → (ℕ → ℕ) → ℕ → ℕ → ℕ → Search
unfolding find_shift
find_run zero bits number end j = out_of_fuel
find_run (suc f) bits number end j = elim (leb j end) [
  | true ↦
      elim (find_shift (bits (j / 2 ^ 6)) (bits (j / 2 ^ 6 + 1)) number (64 - j % 64) (j % 64)) [
        | some k ↦ at (j + k - j % 64)
        | none ↦ find_run f bits number end (next_start j number)
      ]
  | false ↦ nowhere
]

-- One round of the loop that takes the pages, for the zone `z`.
unfoldable pub take_page : ℕ → ℕ → ℕ → Memory → Memory
unfolding update mark_used
take_page z attribute page m =
    let m1 = mark_used (page_number m page) m in
    let zone = m1.zones z in
    let m2 =
      set_zone z
        (record zone {
          page_using_count = inc64 zone.page_using_count;
          page_free_count = dec64 zone.page_free_count;
        })
        m1 in
    set_page page (record (m2.pages page) { attribute = attribute }) m2

unfoldable pub take_pages : ℕ → ℕ → ℕ → ℕ → Memory → Memory
unfolding take_page
take_pages z attribute zero page m = m
take_pages z attribute (suc n) page m =
    take_pages z attribute n (page + 1) (take_page z attribute page m)

-- The loop over the zones. A zone with fewer free pages than asked for is passed over.
unfoldable pub find_zone : ℕ → ℕ → ℕ → ℕ → Memory → Option (ℕ × Memory)
unfolding find_run take_pages
find_zone number attribute zero i m = none
find_zone number attribute (suc rounds) i m =
    let z = m.zones i in
    let last = z.zone_end_address / 2 ^ page_2m_shift in
    let rest = find_zone number attribute rounds (i + 1) m in
    if ltb z.page_free_count number
    then rest
    else (elim (find_run (last + 2) m.bits_map number last
        (z.zone_start_address / 2 ^ page_2m_shift)) [
          | at page ↦ some (page, take_pages i attribute number page m)
          | _ ↦ rest
        ])

-- The zones that a selector stands for, as their first and how many; the attribute of the pages.
abbrev pub select : ℕ → Memory → Option (ℕ × ℕ × ℕ)
select zones_select m =
    if zones_select == 1
    then some (0, m.zone_dma_index + 1, page_pt_maped)
    else if zones_select == 2
    then some (m.zone_dma_index, m.zone_normal_index + 1 - m.zone_dma_index, page_pt_maped)
    else if zones_select == 4
    then some (m.zone_unmaped_index, m.zones_size - m.zone_unmaped_index, 0)
    else none

abbrev pub alloc_from : ℕ → Option (ℕ × ℕ × ℕ) → Memory → Option (ℕ × Memory)
alloc_from number none m = none
alloc_from number (some (first, rounds, attribute)) m = find_zone number attribute rounds first m

abbrev pub alloc_number : Option ℕ → ℕ → Memory → Option (ℕ × Memory)
alloc_number none zones_select m = none
alloc_number (some number) zones_select m = alloc_from number (select zones_select m) m

-- The first of the pages and the new state; `none` is the null pointer, with the state unchanged.
unfoldable pub alloc_pages : ℕ → ℤ → Memory → Option (ℕ × Memory)
unfolding find_zone
alloc_pages zones_select number m = alloc_number (valid_number number) zones_select m
