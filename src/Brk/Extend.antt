-- ===== src/Brk/Extend.antt =====
-- Where `sys_brk` leaves the end of the memory of a task.
use system_studying.Brk.Steps.{Reached-trans, GivesNull, Steps, map_at-Steps}
use system_studying.Brk.{bit_or}
use system_studying.Base.{
  subst, ℕ, zero, suc, ◌+◌, ◌-◌, ◌*◌, ◌/◌, ◌%◌, ◌^◌, ◌≤◌, ◌<◌, ◌≡◌, inl, inr, refl, ◌∙◌, arith,
  true, false, Option, none, some, if◌then◌else◌, ltb, leb, leb→le, ◌==◌, Bool-cases,
}
use system_studying.Links.{update}
use system_studying.Slab.{page_2m_size}
use system_studying.Brk.{
  Space, Supply, map_page, map_at, brk_on, set_end, ended, brk_loop, do_brk, sys_brk, page_2m_align,
  zeroed_pages, page_user_page,
}

-- The rounds of the loop lead to the higher of two multiples of 2M.
higher_end :
    (e a : ℕ)
    → e % page_2m_size ≡ 0
    → a % page_2m_size ≡ 0
    → e + (a - e) / page_2m_size * page_2m_size ≡ (if leb e a then a else e)
higher_end e a he ha = elim (Bool-cases (leb e a)) [
  | inl le ↦ rw le (omega (arith, leb→le e a le, he, ha))
  | inr gt ↦ let lt : a < e = ground arith in rw gt (omega (arith, lt))
]

-- A result of `sys_brk` of the address `brk` from `sp`: a fault only if an allocator has given NULL, and else the
-- new end, which is the next multiple of 2M, or the old end where that is not lower. The start is kept.
abbrev pub Extended : {W : Type 0} → Supply W → ℕ → Space W → Option (ℕ × Space W) → Type 0
Extended supply brk sp none = GivesNull supply sp.world
Extended supply brk sp (some (result, sp')) =
    (result ≡ sp'.end_brk)
    × (sp'.end_brk ≡ (if leb sp.end_brk (page_2m_align brk) then page_2m_align brk else sp.end_brk))
    × (brk ≤ sp'.end_brk)
    × (sp'.end_brk % page_2m_size ≡ 0)
    × (sp'.start_brk ≡ sp.start_brk)

module _ {W : Type 0} (supply : Supply W) where
  -- The loop stops at `last`, or an allocator gives NULL.
  abbrev Stops : Space W → ℕ → Option (ℕ × Space W) → Type 0
  Stops sp last none = GivesNull supply sp.world
  Stops sp last (some (i, sp')) = (i ≡ last) × (sp'.start_brk ≡ sp.start_brk)

  Stops-on :
      (sp sp1 : Space W) (last : ℕ) (r : Option (ℕ × Space W))
      → Steps supply sp (some sp1)
      → Stops sp1 last r
      → Stops sp last r
  Stops-on sp sp1 last none (same, way) (w, rest, null) = (w, Reached-trans way rest, null)
  Stops-on sp sp1 last (some (i, sp2)) (same, way) (at, keep) = (at, keep ∙ same)

  brk_on-Stops :
      (loop : Space W → Option (ℕ × Space W)) (last : ℕ) (sp : Space W) (r : Option (Space W))
      → ((sp1 : Space W) → Stops sp1 last (loop sp1))
      → Steps supply sp r
      → Stops sp last (brk_on supply loop r)
  brk_on-Stops loop last sp none h k = k
  brk_on-Stops loop last sp (some sp1) h k = Stops-on sp sp1 last (loop sp1) k (h sp1)

  -- From `n` pages below the end, or from beyond it, the loop stops at the end, or at once.
  brk_loop-Stops :
      (f n i end : ℕ) (sp : Space W)
      → n < f
      → i + n * page_2m_size < 2 ^ 64
      → end ≤ i + n * page_2m_size
      → (0 < n → end ≡ i + n * page_2m_size)
      → Stops sp (i + n * page_2m_size) (brk_loop supply f i end sp)
  unfolding brk_loop
  brk_loop-Stops zero n i end sp fuel room le at = absurd (omega arith)
  brk_loop-Stops (suc f) zero i end sp fuel room le at =
      let stop : ltb i end ≡ false = ground arith in rw (brk_loop, stop) (omega arith, refl)
  brk_loop-Stops (suc f) (suc n) i end sp fuel room le at =
      let e = at (omega arith) in
      let more : ltb i end ≡ true = ground (arith, e) in
      let next : (i + page_2m_size) % 2 ^ 64 ≡ i + page_2m_size = omega (arith, room) in
      let last : i + page_2m_size + n * page_2m_size ≡ i + suc n * page_2m_size = omega arith in
      rw (brk_loop, more, next)
        (subst
          (λ t.
            Stops sp t
              (brk_on supply (brk_loop supply f (i + page_2m_size) end) (map_at supply i sp)))
          last
          (brk_on-Stops (brk_loop supply f (i + page_2m_size) end)
            (i + page_2m_size + n * page_2m_size) sp (map_at supply i sp)
            (λ sp1.
              brk_loop-Stops f n (i + page_2m_size) end sp1 (omega (arith, fuel))
                (omega (arith, room)) (omega (arith, le)) (λ k. omega (arith, e)))
            (map_at-Steps supply i sp)))

  -- What is left of `sys_brk` behind the loop.
  set_end-Extended :
      (brk last : ℕ) (sp : Space W) (r : Option (ℕ × Space W))
      → last ≡ (if leb sp.end_brk (page_2m_align brk) then page_2m_align brk else sp.end_brk)
      → brk ≤ last
      → last % page_2m_size ≡ 0
      → Stops sp last r
      → Extended supply brk sp (set_end supply (ended supply r))
  set_end-Extended brk last sp none e reached whole h = h
  set_end-Extended brk last sp (some (i, sp')) e reached whole (at, keep) =
      (refl, at ∙ e, omega (arith, at, reached), omega (arith, at, whole), keep)

  -- `sys_brk` of an address above the start and below 2 ^ 62 faults only if an allocator gives NULL in a
  -- state that the call has reached. Else it returns the new end, which is the next multiple of 2M, or the old end where that is not lower, and
  -- it keeps the start. A round for each new page, and one more, are enough.
  pub sys_brk-extends :
      (fuel brk : ℕ) (sp : Space W)
      → 0 < brk
      → brk < 2 ^ 62
      → sp.start_brk ≤ brk
      → sp.end_brk < 2 ^ 62
      → sp.end_brk % page_2m_size ≡ 0
      → page_2m_align brk < sp.end_brk + fuel * page_2m_size
      → 0 < fuel
      → Extended supply brk sp (sys_brk supply fuel brk sp)
  unfolding sys_brk do_brk
  sys_brk-extends fuel brk sp positive small start low aligned fuel_left some_fuel =
      let new_brk = page_2m_align brk in
      let n = (new_brk - sp.end_brk) / page_2m_size in
      let last = sp.end_brk + n * page_2m_size in
      let above : brk ≤ new_brk = omega arith in
      let below : new_brk < brk + page_2m_size = omega arith in
      let reached : new_brk ≤ last = omega (arith, aligned) in
      let exact : 0 < n → new_brk ≡ last = λ k. omega (arith, aligned, k) in
      let short : last < 2 ^ 63 = omega (arith, below, small, low) in
      let rounds : n < fuel = omega (arith, aligned, fuel_left, some_fuel) in
      let nonzero : (new_brk == 0) ≡ false = ground (arith, above, positive) in
      let inside : ltb new_brk sp.start_brk ≡ false = ground (arith, above, start) in
      let end : (sp.end_brk + (new_brk + 2 ^ 64 - sp.end_brk) % 2 ^ 64) % 2 ^ 64 ≡ new_brk =
        omega (arith, short, reached, low) in
      rw (nonzero, inside, end)
        (set_end-Extended brk last sp (brk_loop supply fuel sp.end_brk new_brk sp)
          (higher_end sp.end_brk new_brk aligned (omega arith)) (omega (arith, above, reached))
          (omega (arith, aligned))
          (brk_loop-Stops fuel n sp.end_brk new_brk sp rounds (omega (arith, short)) reached exact))

  -- Every page that `map_page` takes anew is entered with the physical address 0, since the memory of
  -- the `struct Page` is cleared in place of the page.
  map_page-address_zero :
      (slot p : ℕ) (sp : Space W) (world : W)
      → sp.word slot ≡ 0
      → supply.alloc_page sp.world ≡ some (p, world)
      → (sp' : Space W) × (map_page supply slot sp ≡ some sp')
        × (sp'.word slot ≡ page_user_page)
        × (sp'.p_address p ≡ 0)
  unfolding zeroed_pages update
  map_page-address_zero slot p sp world new e =
      let empty : (sp.word slot == 0) ≡ true = ground arith in
      let first : leb p p ≡ true = ground arith in
      let last : leb p (p + page_2m_size / 40) ≡ true = ground arith in
      let self : (slot == slot) ≡ true = ground arith in
      (
        record sp {
          p_address = zeroed_pages p sp.p_address;
          word = update sp.word slot (bit_or (zeroed_pages p sp.p_address p) page_user_page);
          world = supply.wiped p world;
        },
        rw (empty, e) refl,
        rw (self, first, last) refl,
        rw (first, last) refl,
      )
