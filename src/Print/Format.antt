-- ===== src/Print/Format.antt =====
-- `vsprintf` of os/kernel/printk.c. The arguments behind the format are a list of words and of texts
-- (the `char *` of `%s`); `none` stands for an argument that is missing or of the wrong kind, which
-- C leaves undefined.
pub mod Convert
pub mod Steps
pub mod Pieces
use Prim.Native.Nat.{bit_or}
use system_studying.Base.{
  ℕ, zero, suc, ◌+◌, ◌%◌, ◌^◌, Bool, true, false, Option, none, some, List, [], ◌∷◌, ◌++◌,
  if◌then◌else◌, ltb, ◌==◌, ◌||◌, ◌&&◌, not, length, replicate, take,
}
use system_studying.Base.Int.{ℤ, pos, negsuc, pos_part, neg_part, ◌-ℤ◌, ltb_ℤ, to_signed, sub_ℕ}
use system_studying.Print.{number, skip_atoi, is_digit, is_left}

-- A word is 64 bits wide; `%n` takes a word as an address.
pub data Arg : Type 0 where
  word : ℕ → Arg
  text : List ℕ → Arg

-- What is written so far, the stores of `%n` with their widths in bytes, and the arguments left.
pub record Out : Type 0 where
  pub str : List ℕ
  pub stores : List (ℕ × ℕ × ℕ)
  pub args : List Arg

pub record Spec : Type 0 where
  pub flags : ℕ
  pub field_width : ℤ
  pub precision : ℤ
  pub qualifier : ℕ

abbrev pub put : List ℕ → Out → Out
put t out = record out { str = out.str ++ t }

-- `va_arg`
abbrev pub next_word : List Arg → Option (ℕ × List Arg)
next_word [] = none
next_word (word w ∷ args) = some (w, args)
next_word (text t ∷ args) = none

abbrev pub next_text : List Arg → Option (List ℕ × List Arg)
next_text [] = none
next_text (word w ∷ args) = none
next_text (text t ∷ args) = some (t, args)

-- The low half of a word as an `int`.
abbrev pub as_int : ℕ → ℤ
as_int w = if ltb (w % 2 ^ 32) (2 ^ 31) then pos (w % 2 ^ 32) else sub_ℕ (w % 2 ^ 32) (2 ^ 32)

-- The bit of a flag character, or 0.
abbrev pub flag_of : ℕ → ℕ
flag_of c =
    if c == 45
    then 16
    else if c == 43
    then 4
    else if c == 32
    then 8
    else if c == 35
    then 32
    else if c == 48
    then 1
    else 0

unfoldable pub read_flags : ℕ → List ℕ → ℕ × List ℕ
read_flags flags [] = (flags, [])
read_flags flags (c ∷ fmt) = elim (flag_of c == 0) [
  | true ↦ (flags, c ∷ fmt)
  | false ↦ read_flags (bit_or flags (flag_of c)) fmt
]

-- `'*'` for the width: a negative one means LEFT.
abbrev pub star_width : ℕ → List ℕ → Option (ℕ × List Arg) → Option (ℕ × ℤ × List ℕ × List Arg)
star_width flags fmt none = none
star_width flags fmt (some (w, args)) =
    if ltb_ℤ (as_int w) (pos 0)
    then some (bit_or flags 16, pos (neg_part (as_int w)), fmt, args)
    else some (flags, as_int w, fmt, args)

unfoldable pub read_width : ℕ → List ℕ → List Arg → Option (ℕ × ℤ × List ℕ × List Arg)
read_width flags [] args = some (flags, negsuc 0, [], args)
read_width flags (c ∷ fmt) args =
    if is_digit c
    then some (flags, (skip_atoi (c ∷ fmt)).0, (skip_atoi (c ∷ fmt)).1, args)
    else if c == 42
    then star_width flags fmt (next_word args)
    else some (flags, negsuc 0, c ∷ fmt, args)

abbrev pub star_precision : List ℕ → Option (ℕ × List Arg) → Option (ℤ × List ℕ × List Arg)
star_precision fmt none = none
star_precision fmt (some (w, args)) = some (pos (pos_part (as_int w)), fmt, args)

-- Behind the dot. A precision that is missing or negative is 0.
abbrev pub dot_precision : List ℕ → List Arg → Option (ℤ × List ℕ × List Arg)
dot_precision [] args = some (pos 0, [], args)
dot_precision (c ∷ fmt) args =
    if is_digit c
    then some (pos (pos_part (skip_atoi (c ∷ fmt)).0), (skip_atoi (c ∷ fmt)).1, args)
    else if c == 42
    then star_precision fmt (next_word args)
    else some (pos 0, c ∷ fmt, args)

unfoldable pub read_precision : List ℕ → List Arg → Option (ℤ × List ℕ × List Arg)
read_precision [] args = some (negsuc 0, [], args)
read_precision (c ∷ fmt) args =
    if c == 46 then dot_precision fmt args else some (negsuc 0, c ∷ fmt, args)

-- 'h', 'l', 'L' or 'Z', else 0 for the -1 of the code.
unfoldable pub read_qualifier : List ℕ → ℕ × List ℕ
read_qualifier [] = (0, [])
read_qualifier (c ∷ fmt) =
    if c == 104 || (c == 108 || (c == 76 || c == 90)) then (c, fmt) else (0, c ∷ fmt)
