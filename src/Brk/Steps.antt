-- ===== src/Brk/Steps.antt =====
-- One round of `do_brk` of os/kernel/memory.c: it succeeds, or an allocator gives NULL.
use system_studying.Base.{◌⊎◌, ℕ, ◌≡◌, inl, inr, refl, ◌∙◌, Option, none, some, ◌==◌, Bool-cases}
use system_studying.Brk.{
  Space, Supply, open_slot, with_table, map_page, with_page, in_directory, in_top, map_at,
  entry_address,
}

-- What the allocators work on once `do_brk` has taken some tables and pages.
pub data Reached {W : Type 0} (supply : Supply W) (first : W) : W → Type 0 where
  nothing_taken : Reached supply first first
  table_taken :
      (w w' : W) (virtual : ℕ)
      → Reached supply first w
      → supply.kmalloc_4k w ≡ some (virtual, w')
      → Reached supply first w'
  page_taken :
      (w w' : W) (p : ℕ)
      → Reached supply first w
      → supply.alloc_page w ≡ some (p, w')
      → Reached supply first (supply.wiped p w')

pub Reached-trans :
    {W : Type 0} {supply : Supply W} {a b c : W}
    → Reached supply a b
    → Reached supply b c
    → Reached supply a c
Reached-trans h nothing_taken = h
Reached-trans h (table_taken w w' v k e) = table_taken w w' v (Reached-trans h k) e
Reached-trans h (page_taken w w' p k e) = page_taken w w' p (Reached-trans h k) e

-- An allocator gives NULL, in a state that `do_brk` has reached.
abbrev pub GivesNull : {W : Type 0} → Supply W → W → Type 0
GivesNull {W} supply first =
    (w : W) × Reached supply first w × ((supply.kmalloc_4k w ≡ none) ⊎ (supply.alloc_page w ≡ none))

module _ {W : Type 0} (supply : Supply W) where
  -- The step fails because an allocator gives NULL, or it leaves the start of the memory.
  abbrev pub Steps : Space W → Option (Space W) → Type 0
  Steps sp none = GivesNull supply sp.world
  Steps sp (some sp') = (sp'.start_brk ≡ sp.start_brk) × Reached supply sp.world sp'.world

  with_table-Steps :
      (slot : ℕ) (sp : Space W) (r : Option (ℕ × W))
      → supply.kmalloc_4k sp.world ≡ r
      → Steps sp (with_table supply slot sp r)
  with_table-Steps slot sp none e = (sp.world, nothing_taken, inl e)
  with_table-Steps slot sp (some (virtual, world)) e =
      (refl, table_taken sp.world world virtual nothing_taken e)

  with_page-Steps :
      (slot : ℕ) (sp : Space W) (r : Option (ℕ × W))
      → supply.alloc_page sp.world ≡ r
      → Steps sp (with_page supply slot sp r)
  with_page-Steps slot sp none e = (sp.world, nothing_taken, inr e)
  with_page-Steps slot sp (some (p, world)) e = (refl, page_taken sp.world world p nothing_taken e)

  open_slot-Steps : (slot : ℕ) (sp : Space W) → Steps sp (open_slot supply slot sp)
  open_slot-Steps slot sp = elim (Bool-cases (sp.word slot == 0)) [
    | inl new ↦ rw new (with_table-Steps slot sp (supply.kmalloc_4k sp.world) refl)
    | inr old ↦ rw old (refl, nothing_taken)
  ]

  map_page-Steps : (slot : ℕ) (sp : Space W) → Steps sp (map_page supply slot sp)
  map_page-Steps slot sp = elim (Bool-cases (sp.word slot == 0)) [
    | inl new ↦ rw new (with_page-Steps slot sp (supply.alloc_page sp.world) refl)
    | inr old ↦ rw old (refl, nothing_taken)
  ]

  Steps-on :
      (sp sp1 : Space W) (r : Option (Space W)) → Steps sp (some sp1) → Steps sp1 r → Steps sp r
  Steps-on sp sp1 none (same, way) (w, rest, null) = (w, Reached-trans way rest, null)
  Steps-on sp sp1 (some sp2) (same, way) (keep, rest) = (keep ∙ same, Reached-trans way rest)

  in_directory-Steps :
      (i slot : ℕ) (sp : Space W) (r : Option (Space W))
      → Steps sp r
      → Steps sp (in_directory supply i slot r)
  in_directory-Steps i slot sp none h = h
  in_directory-Steps i slot sp (some sp1) h =
      let entry = entry_address (sp1.word slot) i 21 in
      Steps-on sp sp1 (map_page supply entry sp1) h (map_page-Steps entry sp1)

  in_top-Steps :
      (i slot : ℕ) (sp : Space W) (r : Option (Space W))
      → Steps sp r
      → Steps sp (in_top supply i slot r)
  in_top-Steps i slot sp none h = h
  in_top-Steps i slot sp (some sp1) h =
      let below = entry_address (sp1.word slot) i 30 in
      Steps-on sp sp1 (in_directory supply i below (open_slot supply below sp1)) h
        (in_directory-Steps i below sp1 (open_slot supply below sp1) (open_slot-Steps below sp1))

  pub map_at-Steps : (i : ℕ) (sp : Space W) → Steps sp (map_at supply i sp)
  unfolding map_at
  map_at-Steps i sp =
      let top = entry_address sp.pgd i 39 in
      in_top-Steps i top sp (open_slot supply top sp) (open_slot-Steps top sp)
