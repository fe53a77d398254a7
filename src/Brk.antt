-- ===== src/Brk.antt =====
-- `sys_brk` of os/kernel/sys.c and `do_brk` of os/kernel/memory.c: the end of the memory of a task and
-- the page tables below it. A result `none` is a write through NULL, or that the fuel ran out.
pub mod Steps
pub mod Extend
mod Tests
use Prim.Native.Nat.{bit_or}
use system_studying.Base.{
  ℕ, zero, suc, ◌+◌, ◌-◌, ◌*◌, ◌/◌, ◌%◌, ◌^◌, Option, none, some, if◌then◌else◌, ltb, leb, ◌==◌,
  ◌&&◌,
}
use system_studying.Links.{update}
use system_studying.Slab.{page_2m_size}
use system_studying.Slab.Physical.{page_offset, p_to_v}

abbrev pub v_to_p : ℕ → ℕ
v_to_p addr = (addr + 2 ^ 64 - page_offset) % 2 ^ 64

-- PAGE_USER_GDT and PAGE_USER_DIR.
abbrev pub page_user_dir : ℕ
page_user_dir = 7

abbrev pub page_user_page : ℕ
page_user_page = 135

-- The entries of page tables by their addresses, the `p_address` of each `struct Page`, and the two
-- ends of `current->mm`. `W` is what the allocators work on.
pub record Space (W : Type 0) : Type 0 where
  pub word : ℕ → ℕ
  pub p_address : ℕ → ℕ
  pub pgd : ℕ
  pub start_brk : ℕ
  pub end_brk : ℕ
  pub world : W

-- `kmalloc(PAGE_4K_SIZE, 0)` and `alloc_pages(ZONE_NORMAL, 1, ...)`, with `none` for NULL, and what is left of
-- the structures on which they work when 2M from a `struct Page` on have been cleared. The page tables are
-- taken to lie outside these 2M.
pub record Supply (W : Type 0) : Type 0 where
  pub kmalloc_4k : W → Option (ℕ × W)
  pub alloc_page : W → Option (ℕ × W)
  pub wiped : ℕ → W → W

-- `memset(virtual, 0, PAGE_4K_SIZE)`
unfoldable pub zeroed : ℕ → (ℕ → ℕ) → ℕ → ℕ
zeroed virtual word a = if leb virtual a && ltb a (virtual + 4096) then 0 else word a

-- `memset(p, 0, PAGE_2M_SIZE)` on the array of `struct Page`, which are of 40 bytes.
unfoldable pub zeroed_pages : ℕ → (ℕ → ℕ) → ℕ → ℕ
zeroed_pages p p_address q = if leb p q && leb q (p + page_2m_size / 40) then 0 else p_address q

-- The address of the entry for `i` in the table that the word `table` refers to.
abbrev pub entry_address : ℕ → ℕ → ℕ → ℕ
entry_address table i shift = (p_to_v (table / 2 ^ 12 * 2 ^ 12) + i / 2 ^ shift % 512 * 8) % 2 ^ 64

-- `PAGE_2M_ALIGN`
abbrev pub page_2m_align : ℕ → ℕ
page_2m_align addr = (addr + page_2m_size - 1) % 2 ^ 64 / page_2m_size * page_2m_size

module _ {W : Type 0} (supply : Supply W) where
  abbrev pub with_table : ℕ → Space W → Option (ℕ × W) → Option (Space W)
  with_table slot sp none = none
  with_table slot sp (some (virtual, world)) = some (record sp {
    word = update (zeroed virtual sp.word) slot (bit_or (v_to_p virtual) page_user_dir);
    world = world;
  })

  abbrev pub open_slot : ℕ → Space W → Option (Space W)
  open_slot slot sp =
      if sp.word slot == 0 then with_table slot sp (supply.kmalloc_4k sp.world) else some sp

  -- `p` is tested behind the `memset` only.
  abbrev pub with_page : ℕ → Space W → Option (ℕ × W) → Option (Space W)
  with_page slot sp none = none
  with_page slot sp (some (p, world)) =
      let p_address = zeroed_pages p sp.p_address in
      some (record sp {
        p_address = p_address;
        word = update sp.word slot (bit_or (p_address p) page_user_page);
        world = supply.wiped p world;
      })

  abbrev pub map_page : ℕ → Space W → Option (Space W)
  map_page slot sp =
      if sp.word slot == 0 then with_page slot sp (supply.alloc_page sp.world) else some sp

  abbrev pub in_directory : ℕ → ℕ → Option (Space W) → Option (Space W)
  in_directory i slot none = none
  in_directory i slot (some sp) = map_page (entry_address (sp.word slot) i 21) sp

  abbrev pub in_top : ℕ → ℕ → Option (Space W) → Option (Space W)
  in_top i slot none = none
  in_top i slot (some sp) =
      let below : ℕ = entry_address (sp.word slot) i 30 in in_directory i below (open_slot below sp)

  -- One round of the loop, at the address `i`.
  unfoldable pub map_at : ℕ → Space W → Option (Space W)
  unfolding update zeroed zeroed_pages
  map_at i sp = let top : ℕ = entry_address sp.pgd i 39 in in_top i top (open_slot top sp)

  abbrev pub brk_on : (Space W → Option (ℕ × Space W)) → Option (Space W) → Option (ℕ × Space W)
  brk_on loop none = none
  brk_on loop (some sp) = loop sp

  -- `for(i = addr; i < addr + len; i += PAGE_2M_SIZE)` at `i`.
  unfoldable pub brk_loop : ℕ → ℕ → ℕ → Space W → Option (ℕ × Space W)
  unfolding map_at
  brk_loop zero i end sp = none
  brk_loop (suc f) i end sp =
      let rest = brk_on (brk_loop f ((i + page_2m_size) % 2 ^ 64) end) (map_at i sp) in
      if ltb i end then rest else some (i, sp)

  abbrev pub ended : Option (ℕ × Space W) → Option (ℕ × Space W)
  ended none = none
  ended (some (i, sp)) = some (i, record sp { end_brk = i })

  unfoldable pub do_brk : ℕ → ℕ → ℕ → Space W → Option (ℕ × Space W)
  unfolding brk_loop
  do_brk fuel addr len sp = ended (brk_loop fuel addr ((addr + len) % 2 ^ 64) sp)

  abbrev pub set_end : Option (ℕ × Space W) → Option (ℕ × Space W)
  set_end none = none
  set_end (some (new_brk, sp)) = some (new_brk, record sp { end_brk = new_brk })

  unfoldable pub sys_brk : ℕ → ℕ → Space W → Option (ℕ × Space W)
  unfolding do_brk
  sys_brk fuel brk sp =
      let new_brk : ℕ = page_2m_align brk in
      if new_brk == 0
      then some (sp.start_brk, sp)
      else if ltb new_brk sp.start_brk
      then some (0, sp)
      else set_end (do_brk fuel sp.end_brk ((new_brk + 2 ^ 64 - sp.end_brk) % 2 ^ 64) sp)
