-- ===== src/Memory.antt =====
-- Physical pages: os/kernel/memory.c and os/kernel/memory.h, less the boot code. A `struct Page *`
-- is the page's index in `pages_struct`, a `struct Zone *` the zone's in `zones_struct`.
pub mod Alloc
pub mod Pages
mod Tests
use Prim.Native.Nat.{bit_and, bit_or}
use system_studying.Base.{
  ℕ, zero, suc, ◌+◌, ◌-◌, ◌/◌, ◌%◌, ◌^◌, Bool, true, false, ◌||◌, Option, none, some, ltb, leb,
  ◌==◌, if◌then◌else◌,
}
use system_studying.Base.Int.{ℤ, pos, negsuc}
use system_studying.Links.{update}

abbrev pub page_2m_shift : ℕ
page_2m_shift = 21

abbrev pub page_pt_maped : ℕ
page_pt_maped = 1

abbrev pub page_shared : ℕ
page_shared = 16

-- `x++` and `x--` on an `unsigned long`.
abbrev pub inc64 : ℕ → ℕ
inc64 x = (x + 1) % 2 ^ 64

abbrev pub dec64 : ℕ → ℕ
dec64 x = (x + 2 ^ 64 - 1) % 2 ^ 64

-- `~x` on an `unsigned long`.
abbrev pub not64 : ℕ → ℕ
not64 x = 2 ^ 64 - 1 - x

pub record Page : Type 0 where
  pub zone_struct : ℕ
  pub p_address : ℕ
  pub attribute : ℕ
  pub reference_count : ℕ
  pub age : ℕ

pub record Zone : Type 0 where
  pub pages_group : ℕ
  pub pages_length : ℕ
  pub zone_start_address : ℕ
  pub zone_end_address : ℕ
  pub zone_length : ℕ
  pub attritube : ℕ
  pub page_using_count : ℕ
  pub page_free_count : ℕ
  pub total_pages_link : ℕ

-- `mem_structure` with the arrays that it points to and the three zone indices.
pub record Memory : Type 0 where
  pub bits_map : ℕ → ℕ
  pub pages : ℕ → Page
  pub zones : ℕ → Zone
  pub zones_size : ℕ
  pub zone_dma_index : ℕ
  pub zone_normal_index : ℕ
  pub zone_unmaped_index : ℕ

-- Assignments through a pointer to a page, a zone or a word of the bit map.
abbrev pub set_page : ℕ → Page → Memory → Memory
set_page p v m = record m { pages = update m.pages p v }

abbrev pub set_zone : ℕ → Zone → Memory → Memory
set_zone z v m = record m { zones = update m.zones z v }

abbrev pub set_word : ℕ → ℕ → Memory → Memory
set_word i v m = record m { bits_map = update m.bits_map i v }

-- The number of a page by its address, which names its bit: bit `n % 64` of word `n >> 6`.
abbrev pub page_number : Memory → ℕ → ℕ
page_number m p = (m.pages p).p_address / 2 ^ page_2m_shift

-- `bits_map[n >> 6] |= 1UL << n % 64` and `&= ~(1UL << n % 64)`.
unfoldable pub mark_used : ℕ → Memory → Memory
unfolding update
mark_used n m = set_word (n / 2 ^ 6) (bit_or (m.bits_map (n / 2 ^ 6)) (2 ^ (n % 64))) m

unfoldable pub mark_free : ℕ → Memory → Memory
unfolding update
mark_free n m = set_word (n / 2 ^ 6) (bit_and (m.bits_map (n / 2 ^ 6)) (not64 (2 ^ (n % 64)))) m

unfoldable pub page_init : ℕ → ℕ → Memory → Memory
unfolding update
page_init page flags m =
    let p = m.pages page in
    let p1 = record p { attribute = bit_or p.attribute flags } in
    let z = m.zones p1.zone_struct in
    if p1.reference_count == 0 || ltb 0 (bit_and p1.attribute page_shared)
    then set_zone p1.zone_struct (record z { total_pages_link = inc64 z.total_pages_link })
        (set_page page (record p1 { reference_count = inc64 p1.reference_count }) m)
    else set_page page p1 m

unfoldable pub page_clean : ℕ → Memory → Memory
unfolding update
page_clean page m =
    let p = m.pages page in
    let p1 = record p { reference_count = dec64 p.reference_count } in
    let z = m.zones p1.zone_struct in
    let m1 = set_zone p1.zone_struct (record z { total_pages_link = dec64 z.total_pages_link }) m in
    if p1.reference_count == 0
    then set_page page (record p1 { attribute = bit_and p1.attribute page_pt_maped }) m1
    else set_page page p1 m1

-- `none` is the null pointer.
unfoldable pub get_page_attribute : Option ℕ → Memory → ℕ
get_page_attribute none m = 0
get_page_attribute (some page) m = (m.pages page).attribute

unfoldable pub set_page_attribute : Option ℕ → ℕ → Memory → ℕ × Memory
unfolding update
set_page_attribute none flags m = (0, m)
set_page_attribute (some page) flags m =
    (1, set_page page (record (m.pages page) { attribute = flags }) m)

-- One round of the loop of `free_pages`.
unfoldable pub free_page : ℕ → Memory → Memory
unfolding update mark_free
free_page page m =
    let m1 = mark_free (page_number m page) m in
    let z = (m1.pages page).zone_struct in
    let zone = m1.zones z in
    let m2 =
      set_zone z
        (record zone {
          page_using_count = dec64 zone.page_using_count;
          page_free_count = inc64 zone.page_free_count;
        })
        m1 in
    set_page page (record (m2.pages page) { attribute = 0 }) m2

unfoldable pub free_pages_loop : ℕ → ℕ → Memory → Memory
unfolding free_page
free_pages_loop zero page m = m
free_pages_loop (suc n) page m = free_pages_loop n (page + 1) (free_page page m)

-- `number >= 64 || number <= 0`, for an `int`; the number, where it is valid.
abbrev pub valid_number : ℤ → Option ℕ
valid_number (pos zero) = none
valid_number (pos (suc n)) = if leb 64 (suc n) then none else some (suc n)
valid_number (negsuc n) = none

abbrev free_number : Option ℕ → ℕ → Memory → Memory
free_number none page m = m
free_number (some n) page m = free_pages_loop n page m

unfoldable pub free_pages : Option ℕ → ℤ → Memory → Memory
unfolding free_pages_loop
free_pages none number m = m
free_pages (some page) number m = free_number (valid_number number) page m
