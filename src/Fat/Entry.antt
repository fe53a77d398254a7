-- ===== src/Fat/Entry.antt =====
-- `readfatentry` after `writefatentry`.
use Prim.Native.Nat.{bit_and}
use native.Mathlib.Nat.{mod-eq_of_lt, mul-le-mul_left}
use system_studying.Base.{
  ℕ, zero, suc, ◌+◌, ◌*◌, ◌/◌, ◌%◌, ◌^◌, ◌≤◌, ◌<◌, ◌≢◌, ◌≡◌, refl, sym, ap, ◌∙◌, arith,
  if◌then◌else◌, ◌==◌, Bool-cases, inl, inr,
}
use system_studying.Base.Masks.{low-merge}
use system_studying.Fat.{
  Disk, Works, SbInfo, low_mask, cleared, sector_of, replaced, readfatentry, write_copies,
  writefatentry,
}

-- The copies of the table lie on the part of the disk that works, which 64-bit numbers reach.
pub record Fits (fsbi : SbInfo) (capacity : ℕ) : Type 0 where
  pub reachable : capacity ≤ 2 ^ 64
  pub inside : fsbi.fat1_firstsector + fsbi.sector_per_fat * fsbi.num_fats ≤ capacity
  pub a_copy : 0 < fsbi.num_fats

-- The entry stands in the table.
abbrev pub InTable : SbInfo → ℕ → Type 0
InTable fsbi e = e / 128 < fsbi.sector_per_fat

module _ (fsbi : SbInfo) (capacity : ℕ) (fits : Fits fsbi capacity) where
  copy_end :
      (i : ℕ)
      → i < fsbi.num_fats
      → fsbi.fat1_firstsector + fsbi.sector_per_fat * i + fsbi.sector_per_fat ≤ capacity
  copy_end i h =
      omega
        (arith, fits.inside, mul-le-mul_left {m = suc i} {n = fsbi.num_fats} fsbi.sector_per_fat h)

  -- No wrap-around in the number of a sector of the table.
  pub sector_of-exact :
      (i e : ℕ)
      → i < fsbi.num_fats
      → InTable fsbi e
      → sector_of fsbi i e ≡ fsbi.fat1_firstsector + fsbi.sector_per_fat * i + e / 128
  sector_of-exact i e h k = mod-eq_of_lt (omega (arith, copy_end i h, fits.reachable))

  pub sector_of-lt : (i e : ℕ) → i < fsbi.num_fats → InTable fsbi e → sector_of fsbi i e < capacity
  sector_of-lt i e h k = omega (arith, sector_of-exact i e h k, copy_end i h)

  pub sector-first : (e : ℕ) → (fsbi.fat1_firstsector + e / 128) % 2 ^ 64 ≡ sector_of fsbi 0 e
  sector-first e = ap (λ t. t % 2 ^ 64) (omega arith)

  -- Copies do not overlap.
  pub sector_of-lt-next :
      (i j e e' : ℕ)
      → i < j
      → j < fsbi.num_fats
      → InTable fsbi e
      → InTable fsbi e'
      → sector_of fsbi i e < sector_of fsbi j e'
  sector_of-lt-next i j e e' h k t t' = omega (
    arith,
    sector_of-exact i e (omega arith) t,
    sector_of-exact j e' k t',
    mul-le-mul_left {m = suc i} {n = j} fsbi.sector_per_fat h,
  )

module _ (d : Disk) (capacity : ℕ) (works : Works d capacity) (fsbi : SbInfo)
    (fits : Fits fsbi capacity) where
  -- The loop over the copies does not change a sector that it does not write.
  pub write_copies-other :
      (e : ℕ) (b c : ℕ → ℕ) (n i : ℕ) (s : d.State) (l w : ℕ)
      → i + n ≡ fsbi.num_fats
      → InTable fsbi e
      → l < capacity
      → w < 128
      → ((j : ℕ) → i ≤ j → j < fsbi.num_fats → sector_of fsbi j e ≢ l)
      → d.read_sector (write_copies d fsbi e b n i s) l c w ≡ d.read_sector s l c w
  unfolding write_copies
  write_copies-other e b c zero i s l w h t k v apart = refl
  write_copies-other e b c (suc n) i s l w h t k v apart =
      write_copies-other e b c n (i + 1) (d.write_sector s (sector_of fsbi i e) b) l w (omega arith)
        t k v (λ j p q. apart j (omega arith) q)
      ∙ works.read_other s (sector_of fsbi i e) l b c w
          (sector_of-lt fsbi capacity fits i e (omega arith) t) k
          (apart i (omega arith) (omega arith)) v

  -- Every sector that it writes holds the buffer.
  pub write_copies-written :
      (e : ℕ) (b c : ℕ → ℕ) (n i : ℕ) (s : d.State) (j w : ℕ)
      → i + n ≡ fsbi.num_fats
      → InTable fsbi e
      → w < 128
      → i ≤ j
      → j < fsbi.num_fats
      → d.read_sector (write_copies d fsbi e b n i s) (sector_of fsbi j e) c w ≡ b w
  unfolding write_copies
  write_copies-written e b c zero i s j w h t v p q = absurd (omega arith)
  write_copies-written e b c (suc n) i s j w h t v p q = elim (Bool-cases (i == j)) [
    | inl same ↦
        let at : i ≡ j = ground arith in
        write_copies-other e b c n (i + 1) (d.write_sector s (sector_of fsbi i e) b)
          (sector_of fsbi j e) w (omega arith) t (sector_of-lt fsbi capacity fits j e q t) v
          (λ k a z eq.
            omega (arith, eq, sector_of-lt-next fsbi capacity fits j k e e (omega arith) z t t))
        ∙ ap (λ k. d.read_sector (d.write_sector s (sector_of fsbi i e) b) k c w)
            (ap (λ k. sector_of fsbi k e) (sym at))
        ∙ works.read_written s (sector_of fsbi i e) b c w
            (sector_of-lt fsbi capacity fits i e (omega arith) t) v
    | inr differ ↦
        write_copies-written e b c n (i + 1) (d.write_sector s (sector_of fsbi i e) b) j w
          (omega arith) t v (ground arith) q
  ]

  -- An entry in another sector is read as before.
  read_elsewhere :
      (e e' value : ℕ) (s : d.State)
      → InTable fsbi e
      → InTable fsbi e'
      → e' / 128 ≢ e / 128
      → readfatentry d fsbi e' (writefatentry d fsbi e value s) ≡ readfatentry d fsbi e' s
  unfolding readfatentry writefatentry
  read_elsewhere e e' value s t t' h =
      let k = sector_of fsbi 0 e' in
      let buffer = replaced e value (d.read_sector s (sector_of fsbi 0 e) cleared) in
      rw (sector-first fsbi capacity fits e', sector-first fsbi capacity fits e)
        (ap (λ t. bit_and t low_mask)
          (write_copies-other e buffer cleared fsbi.num_fats 0 s k (e' % 128) (omega arith) t
            (sector_of-lt fsbi capacity fits 0 e' fits.a_copy t') (omega arith)
            λ j p q eq. elim (Bool-cases (j == 0)) [
              | inl first ↦
                  let at : j ≡ 0 = ground arith in
                  h (
                    omega (
                      arith,
                      eq,
                      ap (λ i. sector_of fsbi i e) at,
                      sector_of-exact fsbi capacity fits 0 e fits.a_copy t,
                      sector_of-exact fsbi capacity fits 0 e' fits.a_copy t',
                    ))
              | inr later ↦
                  omega
                    (arith, eq, sector_of-lt-next fsbi capacity fits 0 j e' e (ground arith) q t' t)
            ]))

  -- In the sector of the written entry, only that entry differs.
  read_beside :
      (e e' value : ℕ) (s : d.State)
      → InTable fsbi e
      → e' / 128 ≡ e / 128
      → readfatentry d fsbi e' (writefatentry d fsbi e value s)
        ≡ (if e' % 128 == e % 128 then value % 2 ^ 28 else readfatentry d fsbi e' s)
  unfolding readfatentry writefatentry
  read_beside e e' value s t h =
      let buffer = replaced e value (d.read_sector s (sector_of fsbi 0 e) cleared) in
      let written =
        write_copies-written e buffer cleared fsbi.num_fats 0 s 0 (e' % 128) (omega arith) t
          (omega arith) (omega arith) fits.a_copy in
      rw (h, sector-first fsbi capacity fits e, written)
        (elim (Bool-cases (e' % 128 == e % 128)) [
          | inl same ↦
              rw same
                (low-merge 28 15 (d.read_sector s (sector_of fsbi 0 e) cleared (e' % 128)) value)
          | inr differ ↦ rw differ refl
        ])

  -- `readfatentry` of a written entry is the low 28 bits of what was written, and every other entry
  -- of the table is read as before.
  pub readfatentry-writefatentry :
      (e e' value : ℕ) (s : d.State)
      → InTable fsbi e
      → InTable fsbi e'
      → readfatentry d fsbi e' (writefatentry d fsbi e value s)
        ≡ (if e' == e then value % 2 ^ 28 else readfatentry d fsbi e' s)
  readfatentry-writefatentry e e' value s t t' = elim (Bool-cases (e' / 128 == e / 128)) [
    | inl same ↦ ground (arith, read_beside e e' value s t (ground arith))
    | inr differ ↦ ground (arith, read_elsewhere e e' value s t t' (ground arith))
  ]
