-- ===== src/Fat/Mirror.antt =====
-- The copies of the allocation table.
use system_studying.Base.{
  ℕ, ◌+◌, ◌*◌, ◌/◌, ◌%◌, ◌^◌, ◌<◌, ◌≢◌, ◌≡◌, ap, ◌∙◌, arith, if◌then◌else◌, ◌==◌, ltb, Bool-cases,
  inl, inr,
}
use system_studying.Fat.{
  Disk, Works, SbInfo, cleared, sector_of, replaced, write_copies, writefatentry,
}
use system_studying.Fat.Entry.{
  Fits, InTable, sector-first, sector_of-exact, sector_of-lt, sector_of-lt-next, write_copies-other,
  write_copies-written,
}

-- The word of an entry in the copy `i`, its upper four bits included.
abbrev pub copy_word : (d : Disk) → SbInfo → ℕ → ℕ → d.State → ℕ
copy_word d fsbi i e s = d.read_sector s (sector_of fsbi i e) cleared (e % 128)

-- All copies of the table hold the same words.
abbrev pub InSync : (d : Disk) → SbInfo → d.State → Type 0
InSync d fsbi s =
    (i e : ℕ) → i < fsbi.num_fats → InTable fsbi e → copy_word d fsbi i e s ≡ copy_word d fsbi 0 e s

sector_of-apart :
    (fsbi : SbInfo) (capacity : ℕ) (fits : Fits fsbi capacity) (i j e e' : ℕ)
    → i < fsbi.num_fats
    → j < fsbi.num_fats
    → InTable fsbi e
    → InTable fsbi e'
    → e' / 128 ≢ e / 128
    → sector_of fsbi j e ≢ sector_of fsbi i e'
sector_of-apart fsbi capacity fits i j e e' p q t t' h eq = elim (Bool-cases (ltb i j)) [
  | inl after ↦
      omega (arith, eq, sector_of-lt-next fsbi capacity fits i j e' e (ground arith) q t' t)
  | inr upto ↦ elim (Bool-cases (ltb j i)) [
    | inl before ↦
        omega (arith, eq, sector_of-lt-next fsbi capacity fits j i e e' (ground arith) p t t')
    | inr from ↦
        let at : i ≡ j = ground arith in
        h (
          omega (
            arith,
            eq,
            ap (λ k. sector_of fsbi k e') at,
            sector_of-exact fsbi capacity fits j e q t,
            sector_of-exact fsbi capacity fits j e' q t',
          ))
  ]
]

module _ (d : Disk) (capacity : ℕ) (works : Works d capacity) (fsbi : SbInfo)
    (fits : Fits fsbi capacity) where
  -- `writefatentry` makes the sector of the entry the same in every copy.
  copy_word-writefatentry :
      (e value : ℕ) (s : d.State) (i e' : ℕ)
      → InTable fsbi e
      → InTable fsbi e'
      → i < fsbi.num_fats
      → copy_word d fsbi i e' (writefatentry d fsbi e value s) ≡ (
          if e' / 128 == e / 128
          then replaced e value (d.read_sector s (sector_of fsbi 0 e) cleared) (e' % 128)
          else copy_word d fsbi i e' s)
  unfolding writefatentry
  copy_word-writefatentry e value s i e' t t' p =
      let buffer = replaced e value (d.read_sector s (sector_of fsbi 0 e) cleared) in
      rw (sector-first fsbi capacity fits e) (elim (Bool-cases (e' / 128 == e / 128)) [
        | inl same ↦
            let at : e' / 128 ≡ e / 128 = ground arith in
            rw same (
              ap
                (λ q.
                  d.read_sector (write_copies d fsbi e buffer fsbi.num_fats 0 s)
                    ((fsbi.fat1_firstsector + fsbi.sector_per_fat * i + q) % 2 ^ 64) cleared
                    (e' % 128))
                at
              ∙ write_copies-written d capacity works fsbi fits e buffer cleared fsbi.num_fats 0 s i
                  (e' % 128) (omega arith) t (omega arith) (omega arith) p)
        | inr differ ↦ rw differ (
            write_copies-other d capacity works fsbi fits e buffer cleared fsbi.num_fats 0 s
              (sector_of fsbi i e') (e' % 128) (omega arith) t
              (sector_of-lt fsbi capacity fits i e' p t') (omega arith)
              λ j a q. sector_of-apart fsbi capacity fits i j e e' p q t t' (ground arith))
      ])

  -- `writefatentry` keeps the copies of the table the same.
  pub writefatentry-InSync :
      (e value : ℕ) (s : d.State)
      → InTable fsbi e
      → InSync d fsbi s
      → InSync d fsbi (writefatentry d fsbi e value s)
  writefatentry-InSync e value s t sync i e' p t' = grind (
    arith,
    copy_word-writefatentry e value s i e' t t' p,
    copy_word-writefatentry e value s 0 e' t t' fits.a_copy,
    sync i e' p t',
  )
