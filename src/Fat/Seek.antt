-- ===== src/Fat/Seek.antt =====
-- `FAT32_lseek`: where a position may go.
use system_studying.Base.{
  ℕ, zero, suc, ◌+◌, ◌-◌, ◌%◌, ◌^◌, ◌<◌, ◌≡◌, ◌⊎◌, refl, sym, ap, ◌∙◌, arith, Option, none, some,
  Bool, true, false, leb, if◌then◌else◌, Bool-cases, inl, inr, ltb,
}
use system_studying.Base.Int.{to_signed, to_unsigned, ℤ, pos, negsuc, ◌+ℤ◌}
use system_studying.Fat.{File, e_inval, e_overflow, seek_to, lseek}

-- From the start to directly behind the last byte.
abbrev pub in_file : File → ℤ → Bool
in_file filp (pos n) = leb n filp.file_size
in_file filp (negsuc n) = false

-- Where SEEK_SET, SEEK_CUR and SEEK_END count from.
abbrev base : File → ℤ → Option ℤ
base filp (pos zero) = some (pos 0)
base filp (pos (suc zero)) = some filp.position
base filp (pos (suc (suc zero))) = some (pos filp.file_size)
base filp origin = none

abbrev sought : File → ℤ → Option ℤ → ℤ × File
sought filp offset none = (e_inval, filp)
sought filp offset (some b) =
    if in_file filp (b +ℤ offset)
    then (b +ℤ offset, record filp { position = b +ℤ offset })
    else (e_overflow, filp)

-- A `long`.
abbrev Long : ℤ → Type 0
Long (pos n) = n < 2 ^ 63
Long (negsuc n) = n < 2 ^ 63

-- The test of the code is the one on integers.
seek_to-exact :
    (filp : File) (t : ℤ) (n : ℕ)
    → (t ≡ pos n) ⊎ (t ≡ negsuc n)
    → n < 2 ^ 64
    → seek_to filp (some t)
      ≡ (if in_file filp t then (t, record filp { position = t }) else (e_overflow, filp))
seek_to-exact filp t n (inl e) h = rw e (ground arith)
seek_to-exact filp t n (inr e) h = rw e (ground arith)

-- The unsigned sum of SEEK_END: the true one, or both lie behind the file.
seek_end_lem :
    (filp : File) (offset : ℤ)
    → filp.file_size < 2 ^ 63
    → Long offset
    → seek_to filp (some (to_signed ((filp.file_size + to_unsigned offset) % 2 ^ 64)))
      ≡ sought filp offset (some (pos filp.file_size))
seek_end_lem filp (pos n) h k = elim (Bool-cases (ltb (filp.file_size + n) (2 ^ 63))) [
  | inl small ↦ ground arith
  | inr large ↦ ground arith
]
seek_end_lem filp (negsuc n) h k = elim (Bool-cases (leb (suc n) filp.file_size)) [
  | inl inside ↦ ground arith
  | inr before ↦ ground arith
]

seek_from_lem :
    (filp : File) (from offset : ℤ)
    → filp.file_size < 2 ^ 63
    → Long offset
    → in_file filp from ≡ true
    → seek_to filp (some (from +ℤ offset)) ≡ sought filp offset (some from)
seek_from_lem filp (pos p) (pos n) h k v =
    seek_to-exact filp (pos p +ℤ pos n) (p + n) (inl (ground arith)) (ground arith)
seek_from_lem filp (pos p) (negsuc n) h k v = elim (Bool-cases (leb (suc n) p)) [
  | inl inside ↦
      seek_to-exact filp (pos p +ℤ negsuc n) (p - suc n) (inl (ground arith)) (ground arith)
  | inr before ↦ seek_to-exact filp (pos p +ℤ negsuc n) (n - p) (inr (ground arith)) (ground arith)
]
seek_from_lem filp (negsuc p) offset h k v = ground arith

zero_add : (offset : ℤ) → pos 0 +ℤ offset ≡ offset
zero_add (pos n) = ground arith
zero_add (negsuc n) = ground arith

-- From a position in a file, `FAT32_lseek` goes to the sum of the offset and what SEEK_SET,
-- SEEK_CUR or SEEK_END stands for, as integers, if that is in the file; else it gives -EOVERFLOW,
-- and for another origin -EINVAL, and the file stays as it was.
pub lseek-sought :
    (filp : File) (offset origin : ℤ)
    → filp.file_size < 2 ^ 63
    → Long offset
    → in_file filp filp.position ≡ true
    → lseek filp offset origin ≡ sought filp offset (base filp origin)
unfolding lseek
lseek-sought filp offset (pos zero) h k v =
    ap (λ t. seek_to filp (some t)) (sym (zero_add offset))
    ∙ seek_from_lem filp (pos 0) offset h k (ground arith)
lseek-sought filp offset (pos (suc zero)) h k v = seek_from_lem filp filp.position offset h k v
lseek-sought filp offset (pos (suc (suc zero))) h k v = seek_end_lem filp offset h k
lseek-sought filp offset (pos (suc (suc (suc n)))) h k v = refl
lseek-sought filp offset (negsuc n) h k v = refl
