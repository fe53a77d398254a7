-- ===== src/Malloc/Blocks.antt =====
-- The blocks that `malloc` gives lie behind one another, and in the memory of the task.
use system_studying.Base.{
  ℕ, ◌+◌, ◌%◌, ◌^◌, ◌≤◌, ◌<◌, ◌≡◌, ◌⊎◌, inl, inr, refl, arith, leb, true, ◌==◌, Bool-cases,
}
use system_studying.Malloc.{Area, started, extended, more, malloc, size_align}

-- `brk(0)` gives the start of the memory, which never changes.
pub record Grants {W : Type 0} (brk : ℕ → W → ℕ × W) : Type 0 where
  pub start : (w : W) → (0 < (brk 0 w).0) × ((brk 0 w).0 < 2 ^ 60)
  pub keeps : (x : ℕ) (w : W) → (brk 0 (brk x w).1).0 ≡ (brk 0 w).0

-- If `malloc` of `size` asks `brk` for a higher end, it gets one that is not below what it asks for; `st` is
-- the state behind the first `brk(0)`.
abbrev pub Granted : {W : Type 0} → (ℕ → W → ℕ × W) → ℕ → Area W → Type 0
Granted brk size st =
    leb st.brk_end_address ((st.brk_used_address + size_align + size) % 2 ^ 64) ≡ true
    → more st.brk_end_address size ≤ (brk (more st.brk_end_address size) st.world).0

-- Before the first call, or between calls.
abbrev pub IsArea : {W : Type 0} → (ℕ → W → ℕ × W) → Area W → Type 0
IsArea brk st =
    (st.brk_start_address ≡ 0)
    ⊎ ((0 < st.brk_start_address)
        × ((brk 0 st.world).0 ≡ st.brk_start_address)
        × (st.brk_start_address ≤ st.brk_used_address)
        × (st.brk_used_address ≤ st.brk_end_address))

module _ {W : Type 0} (brk : ℕ → W → ℕ × W) (grants : Grants brk) where
  abbrev IsOpen : Area W → Type 0
  IsOpen st =
      (0 < st.brk_start_address)
      × ((brk 0 st.world).0 ≡ st.brk_start_address)
      × (st.brk_start_address ≤ st.brk_used_address)
      × (st.brk_used_address ≤ st.brk_end_address)
      × (st.brk_end_address < 2 ^ 61)

  started-IsOpen :
      (st : Area W) → IsArea brk st → st.brk_end_address < 2 ^ 61 → IsOpen (started brk st)
  started-IsOpen st h low = elim (Bool-cases (st.brk_start_address == 0)) [
    | inl first ↦
        let (positive, below) = grants.start st.world in
        rw first (positive, grants.keeps 0 st.world, omega arith, omega arith, omega (arith, below))
    | inr later ↦ rw later (ground arith)
  ]

  extended-fits :
      (size : ℕ) (st : Area W)
      → IsOpen st
      → Granted brk size st
      → size < 2 ^ 60
      → ((extended brk size st).brk_start_address ≡ st.brk_start_address)
        × ((extended brk size st).brk_used_address ≡ st.brk_used_address)
        × ((brk 0 (extended brk size st).world).0 ≡ (brk 0 st.world).0)
        × (st.brk_used_address + size + size_align ≤ (extended brk size st).brk_end_address)
        × (st.brk_end_address ≤ (extended brk size st).brk_end_address)
  extended-fits size st (positive, base, ordered, inside, low) granted small =
      elim (Bool-cases
        (leb st.brk_end_address ((st.brk_used_address + size_align + size) % 2 ^ 64))) [
          | inl full ↦
              let x = more st.brk_end_address size in
              let at_least = granted full in
              rw full (
                refl,
                refl,
                grants.keeps x st.world,
                omega (arith, at_least),
                omega (arith, at_least),
              )
          | inr room ↦ rw room (refl, refl, refl, ground arith, omega arith)
        ]

  -- If `brk` grants the end that this call asks for, if it asks for one, `malloc` of less than 2 ^ 60 bytes
  -- gives a block at the end of those given before, moves that end behind it, not beyond the memory of the
  -- task, which does not shrink, and the state stays in order.
  pub malloc_block :
      (size : ℕ) (st : Area W)
      → IsArea brk st
      → Granted brk size (started brk st)
      → st.brk_end_address < 2 ^ 61
      → size < 2 ^ 60
      → ((malloc brk size st).0 ≡ (started brk st).brk_used_address)
        × ((malloc brk size st).0 + size + size_align ≡ (malloc brk size st).1.brk_used_address)
        × ((malloc brk size st).1.brk_used_address ≤ (malloc brk size st).1.brk_end_address)
        × ((started brk st).brk_end_address ≤ (malloc brk size st).1.brk_end_address)
        × IsArea brk (malloc brk size st).1
  unfolding malloc
  malloc_block size st h granted low small =
      let open_start = started-IsOpen st h low in
      let (positive, base, ordered, inside, below) = open_start in
      let (same_start, same, kept, fits, grows) =
        extended-fits size (started brk st) open_start granted small in
      (
        same,
        omega (arith, same, inside, below, small),
        omega (arith, same, fits, inside, below, small),
        grows,
        inr (
          omega (arith, same_start, positive),
          omega (arith, kept, base, same_start),
          omega (arith, same_start, same, ordered, inside, below, small),
          omega (arith, same, fits, inside, below, small),
        ),
      )
