-- ===== src/Fat/Free.antt =====
-- The search for a free cluster.
use Prim.Native.Nat.{bit_and}
use system_studying.Base.{
  subst, ltb, leb, true, ℕ, zero, suc, ◌+◌, ◌-◌, ◌*◌, ◌/◌, ◌%◌, ◌^◌, ◌≤◌, ◌<◌, ◌≢◌, ◌≡◌, ◌⊎◌, refl,
  sym, ap, ◌∙◌, arith, ◌==◌, Option, none, some, Option-cases, Bool-cases, inl, inr,
}
use system_studying.Fat.{
  int_long, Disk, SbInfo, low_mask, cleared, scan_words, scan_sectors, readfatentry,
  find_available_cluster,
}
use system_studying.Fat.Entry.{InTable}

-- `some j` is the first zero of `f` from `a` on and below `b`; `none`, there is none.
abbrev FirstZero : (ℕ → ℕ) → ℕ → ℕ → Option ℕ → Type 0
FirstZero f a b none = (e : ℕ) → a ≤ e → e < b → f e ≢ 0
FirstZero f a b (some j) = (a ≤ j) × (j < b) × (f j ≡ 0) × ((e : ℕ) → a ≤ e → e < j → f e ≢ 0)

FirstZero-skip :
    (f : ℕ → ℕ) (a b c : ℕ) (r : Option ℕ)
    → a ≤ b
    → FirstZero f a b none
    → FirstZero f b c r
    → FirstZero f a c r
FirstZero-skip f a b c none le h k = λ e p q. elim (Bool-cases (ltb e b)) [
  | inl before ↦ h e p (ground arith)
  | inr after ↦ k e (ground arith) q
]
FirstZero-skip f a b c (some j) le h (p, q, z, k) = (
  omega arith,
  q,
  z,
  λ e u v. elim (Bool-cases (ltb e b)) [
    | inl before ↦ h e u (ground arith)
    | inr after ↦ k e (ground arith) v
  ],
)

FirstZero-widen :
    (f : ℕ → ℕ) (a b c j : ℕ) → b ≤ c → FirstZero f a b (some j) → FirstZero f a c (some j)
FirstZero-widen f a b c j le (p, q, z, k) = (p, omega arith, z, k)

-- The zeros of `f` from `k` on are those of `g` from 0 on.
FirstZero-shift :
    (f g : ℕ → ℕ) (k n j : ℕ)
    → ((w : ℕ) → w < n → f (k + w) ≡ g w)
    → FirstZero g 0 n (some j)
    → FirstZero f k (k + n) (some (k + j))
FirstZero-shift f g k n j same (p, q, z, h) = (
  omega arith,
  omega arith,
  same j q ∙ z,
  λ e u v eq.
      let at : k + (e - k) ≡ e = omega arith in
      h (e - k) (omega arith) (omega arith) (sym (same (e - k) (omega arith)) ∙ ap f at ∙ eq),
)

FirstZero-shift_none :
    (f g : ℕ → ℕ) (k n : ℕ)
    → ((w : ℕ) → w < n → f (k + w) ≡ g w)
    → FirstZero g 0 n none
    → FirstZero f k (k + n) none
FirstZero-shift_none f g k n same h = λ e u v eq.
    let at : k + (e - k) ≡ e = omega arith in
    h (e - k) (omega arith) (omega arith) (sym (same (e - k) (omega arith)) ∙ ap f at ∙ eq)

abbrev entry_in : (ℕ → ℕ) → ℕ → ℕ
entry_in buf w = bit_and (buf w) low_mask

scan_words-FirstZero :
    (n i : ℕ) (buf : ℕ → ℕ) → FirstZero (entry_in buf) i (i + n) (scan_words n i buf)
unfolding scan_words
scan_words-FirstZero zero i buf = λ w p q. absurd (omega arith)
scan_words-FirstZero (suc n) i buf =
    let goal = λ (r : Option ℕ). FirstZero (entry_in buf) i (i + suc n) r in
    let end : i + 1 + n ≡ i + suc n = omega arith in
    elim (Bool-cases (entry_in buf i == 0)) [
      | inl clear ↦
          let first : scan_words (suc n) i buf ≡ some i = rw (scan_words, clear) refl in
          subst goal (sym first)
            (omega arith, omega arith, ground arith, λ w p q. absurd (omega arith))
      | inr used ↦
          let first : scan_words (suc n) i buf ≡ scan_words n (i + 1) buf =
            rw (scan_words, used) refl in
          subst goal (sym first) (
            FirstZero-skip (entry_in buf) i (i + 1) (i + suc n) (scan_words n (i + 1) buf)
              (omega arith)
              (λ w p q eq. let at : w ≡ i = omega arith in ground (arith, eq, ap (entry_in buf) at))
              (subst (λ t. FirstZero (entry_in buf) (i + 1) t (scan_words n (i + 1) buf)) end
                (scan_words-FirstZero n (i + 1) buf)))
    ]

-- Zero stands for a search without success.
abbrev FirstOrZero : (ℕ → ℕ) → ℕ → ℕ → ℕ → Type 0
FirstOrZero f a b r = ((r ≡ 0) × FirstZero f a b none) ⊎ FirstZero f a b (some r)

FirstOrZero-skip :
    (f : ℕ → ℕ) (a b c r : ℕ)
    → a ≤ b
    → FirstZero f a b none
    → FirstOrZero f b c r
    → FirstOrZero f a c r
FirstOrZero-skip f a b c r le h (inl (z, k)) = inl (z, FirstZero-skip f a b c none le h k)
FirstOrZero-skip f a b c r le h (inr k) = inr (FirstZero-skip f a b c (some r) le h k)

module _ (d : Disk) (fsbi : SbInfo) (s : d.State) where
  abbrev entry : ℕ → ℕ
  entry e = readfatentry d fsbi e s

  abbrev sector_words : ℕ → ℕ → ℕ
  sector_words i = d.read_sector s ((fsbi.fat1_firstsector + i) % 2 ^ 64) cleared

  entry-sector : (i w : ℕ) → w < 128 → entry (i * 128 + w) ≡ entry_in (sector_words i) w
  unfolding readfatentry
  entry-sector i w h =
      let row : (i * 128 + w) / 128 ≡ i = omega arith in
      let column : (i * 128 + w) % 128 ≡ w = omega arith in rw (row, column) refl

  int_long-exact : (n : ℕ) → n < 2 ^ 31 → int_long d n ≡ n
  int_long-exact n h = ground arith

  scan_sectors-FirstOrZero :
      (n i : ℕ)
      → i + n ≤ 2 ^ 24
      → FirstOrZero entry (i * 128) ((i + n) * 128) (scan_sectors d fsbi n i s)
  unfolding scan_sectors
  scan_sectors-FirstOrZero zero i small = inl (refl, λ e p q. absurd (omega arith))
  scan_sectors-FirstOrZero (suc n) i small =
      let words = scan_words-FirstZero 128 0 (sector_words i) in
      let goal = FirstOrZero entry (i * 128) ((i + suc n) * 128) in
      elim (Option-cases (scan_words 128 0 (sector_words i))) [
        | inl nothing ↦
            let next : scan_sectors d fsbi (suc n) i s ≡ scan_sectors d fsbi n (i + 1) s =
              rw (scan_sectors, nothing) refl in
            let start : i * 128 + 128 ≡ (i + 1) * 128 = omega arith in
            let end : (i + 1 + n) * 128 ≡ (i + suc n) * 128 = omega arith in
            let here =
              FirstZero-shift_none entry (entry_in (sector_words i)) (i * 128) 128 (entry-sector i)
                (subst (FirstZero (entry_in (sector_words i)) 0 128) nothing words) in
            let there =
              subst (λ b. FirstOrZero entry ((i + 1) * 128) b (scan_sectors d fsbi n (i + 1) s)) end
                (scan_sectors-FirstOrZero n (i + 1) (omega arith)) in
            subst goal (sym next) (
              FirstOrZero-skip entry (i * 128) ((i + 1) * 128) ((i + suc n) * 128)
                (scan_sectors d fsbi n (i + 1) s) (omega arith)
                (subst (λ b. FirstZero entry (i * 128) b none) start here) there)
        | inr (j, found) ↦
            let (low, inside, clear, before) =
              subst (FirstZero (entry_in (sector_words i)) 0 128) found words in
            let next : scan_sectors d fsbi (suc n) i s ≡ i * 128 + j =
              rw (scan_sectors, found) (int_long-exact (i * 128 + j) (omega (arith, inside))) in
            let here =
              FirstZero-shift entry (entry_in (sector_words i)) (i * 128) 128 j (entry-sector i)
                (subst (FirstZero (entry_in (sector_words i)) 0 128) found words) in
            subst goal (sym next) (
              inr (
                FirstZero-widen entry (i * 128) (i * 128 + 128) ((i + suc n) * 128) (i * 128 + j)
                  (omega arith) here))
      ]

  -- For a table of at most 2 ^ 24 sectors, whose entries an `int` can count, the result of
  -- `FAT32_find_available_cluster` is 0 and no entry of the table is free, or it is the first entry
  -- of the table that is free.
  pub find_available_cluster-InTable :
      fsbi.sector_per_fat ≤ 2 ^ 24
      → ((find_available_cluster d fsbi s ≡ 0)
          × ((e : ℕ) → InTable fsbi e → readfatentry d fsbi e s ≢ 0))
        ⊎ (InTable fsbi (find_available_cluster d fsbi s)
            × (readfatentry d fsbi (find_available_cluster d fsbi s) s ≡ 0)
            × ((e : ℕ) → e < find_available_cluster d fsbi s → readfatentry d fsbi e s ≢ 0))
  unfolding find_available_cluster
  find_available_cluster-InTable small =
      let all : leb fsbi.sector_per_fat (2 ^ 31) ≡ true = ground arith in
      rw all (elim (scan_sectors-FirstOrZero fsbi.sector_per_fat 0 (omega arith)) [
        | inl (z, h) ↦ inl (z, λ e t. h e (omega arith) (omega arith))
        | inr (p, q, z, h) ↦ inr (omega arith, z, λ e t. h e (omega arith) t)
      ])
