-- ===== src/Slab/Bitmap.antt =====
-- The map of the objects of a slab: the search of `kmalloc` finds one that is not in use.
use system_studying.Base.{
  ℕ, zero, suc, ◌+◌, ◌*◌, ◌/◌, ◌%◌, ◌≤◌, ◌<◌, ◌≡◌, ◌⊎◌, inl, inr, refl, sym, ap, ◌∙◌, arith, Bool,
  true, false, some, if◌then◌else◌, leb, ◌==◌, Bool-cases, ==_iff, leb→le,
}
use system_studying.Links.{update}
use system_studying.Slab.{Slab, all_set, first_unused}

all_set-bit :
    (n j : ℕ) (map : ℕ → Bool) (i : ℕ) → all_set n j map ≡ true → j ≤ i → i < j + n → map i ≡ true
unfolding all_set
all_set-bit zero j map i h le lt = absurd (omega arith)
all_set-bit (suc n) j map i h le lt = elim (Bool-cases (map j)) [
  | inr clear ↦ ground arith
  | inl used ↦ elim (Bool-cases (i == j)) [
    | inl e ↦ rw ((==_iff i j).0 e) used
    | inr e ↦ all_set-bit n (suc j) map i (ground arith) (ground arith) (omega (arith, lt))
  ]
]

-- The search enters a word at its first bit, or the word is not full.
abbrev Entered : ℕ → (ℕ → Bool) → Type 0
Entered j map = (j % 64 ≡ 0) ⊎ (all_set 64 (j / 64 * 64) map ≡ false)

Entered-step : (j : ℕ) (map : ℕ → Bool) → all_set 64 (j / 64 * 64) map ≡ false → Entered (j + 1) map
Entered-step j map h = elim (Bool-cases ((j + 1) % 64 == 0)) [
  | inl e ↦ inl ((==_iff _ _).0 e)
  | inr e ↦ let same : (j + 1) / 64 * 64 ≡ j / 64 * 64 = ground arith in inr (rw same h)
]

full_first :
    (map : ℕ → Bool) (j : ℕ) → all_set 64 (j / 64 * 64) map ≡ true → Entered j map → j % 64 ≡ 0
full_first map j full (inl e) = e
full_first map j full (inr e) = absurd (cc (sym full ∙ e))

-- A clear bit from `j` on lies behind a full word that starts there.
behind_full :
    (map : ℕ → Bool) (j t : ℕ)
    → j ≤ t
    → map t ≡ false
    → all_set 64 (j / 64 * 64) map ≡ true
    → j % 64 ≡ 0
    → j + 63 + 1 ≤ t
behind_full map j t le clear full e = elim (Bool-cases (leb (j + 63 + 1) t)) [
  | inl far ↦ leb→le (j + 63 + 1) t far
  | inr near ↦
      let used : map t ≡ true =
        all_set-bit 64 (j / 64 * 64) map t full (omega (arith, le)) (ground (arith, near)) in
      absurd (cc (sym used ∙ clear))
]

after_used : (map : ℕ → Bool) (j t : ℕ) → j ≤ t → map j ≡ true → map t ≡ false → j + 1 ≤ t
after_used map j t le used clear = elim (Bool-cases (t == j)) [
  | inl e ↦
      let same : t ≡ j = (==_iff t j).0 e in absurd (cc (sym used ∙ ap map (sym same) ∙ clear))
  | inr e ↦ ground arith
]

pub first_unused-finds :
    (f : ℕ) (slab : Slab) (j t : ℕ)
    → j ≤ t
    → t < slab.color_count
    → t < j + f
    → slab.color_map t ≡ false
    → Entered j slab.color_map
    → (i : ℕ) × (first_unused f slab j ≡ some i)
      × (i < slab.color_count)
      × (slab.color_map i ≡ false)
unfolding first_unused
first_unused-finds zero slab j t le bound fuel clear e = absurd (omega arith)
first_unused-finds (suc f) slab j t le bound fuel clear e =
    let inside : leb slab.color_count j ≡ false = ground arith in
    rw inside (elim (Bool-cases (all_set 64 (j / 64 * 64) slab.color_map)) [
      | inl full ↦
          let first = full_first slab.color_map j full e in
          rw full (
            first_unused-finds f slab (j + 63 + 1) t
              (behind_full slab.color_map j t le clear full first) bound (omega (arith, fuel)) clear
              (inl (omega (arith, first))))
      | inr open_word ↦ elim (Bool-cases (slab.color_map j)) [
        | inl used ↦
            rw (open_word, used)
              (first_unused-finds f slab (j + 1) t (after_used slab.color_map j t le used clear)
                bound (omega (arith, fuel)) clear (Entered-step j slab.color_map open_word))
        | inr here ↦ (j, rw (open_word, here), omega (arith, le, bound), here)
      ]
    ])

-- How many of the first `n` bits are clear.
abbrev pub clear_bits : ℕ → (ℕ → Bool) → ℕ
clear_bits zero map = 0
clear_bits (suc n) map = (if map n then 0 else 1) + clear_bits n map

pub clear_bit :
    (n : ℕ) (map : ℕ → Bool) → 0 < clear_bits n map → (t : ℕ) × (t < n) × (map t ≡ false)
clear_bit zero map h = absurd (omega arith)
clear_bit (suc n) map h = elim (Bool-cases (map n)) [
  | inr clear ↦ (n, omega arith, clear)
  | inl used ↦
      let rest : 0 < clear_bits n map = ground arith in
      let (t, lt, clear) = clear_bit n map rest in (t, omega (arith, lt), clear)
]

pub clear_bits-update_above :
    (n i : ℕ) (v : Bool) (map : ℕ → Bool) → n ≤ i → clear_bits n (update map i v) ≡ clear_bits n map
unfolding update
clear_bits-update_above zero i v map h = refl
clear_bits-update_above (suc n) i v map h =
    let apart : (n == i) ≡ false = ground arith in
    rw apart (
      ap (λ c. (if map n then 0 else 1) + c) (clear_bits-update_above n i v map (omega (arith, h))))

pub clear_bits-use :
    (n i : ℕ) (map : ℕ → Bool)
    → i < n
    → map i ≡ false
    → clear_bits n map ≡ suc (clear_bits n (update map i true))
unfolding update
clear_bits-use zero i map h e = absurd (omega arith)
clear_bits-use (suc n) i map h e = elim (Bool-cases (n == i)) [
  | inl last ↦
      let same : n ≡ i = (==_iff n i).0 last in
      let here : map n ≡ false = rw same e in
      rw (here, last) (omega (arith, clear_bits-update_above n i true map (omega (arith, same))))
  | inr other ↦
      let lower : i < n = ground arith in rw other (omega (arith, clear_bits-use n i map lower e))
]
