-- ===== src/Print.antt =====
-- Numbers as text: `number` and `skip_atoi` of os/kernel/printk.c, which os/user/printf.c repeats.
-- A text is the list of its character codes, without the NUL that ends it in the code.
pub mod Digits
pub mod Width
pub mod Scan
pub mod Format
mod Tests
use system_studying.Base.{
  ℕ, zero, suc, ◌+◌, ◌-◌, ◌*◌, ◌/◌, ◌%◌, ◌^◌, Bool, true, false, not, ◌&&◌, ◌||◌, Option, none,
  some, List, [], ◌∷◌, ◌++◌, if◌then◌else◌, ltb, leb, ◌==◌, length, replicate,
}
use system_studying.Base.Int.{to_int, ℤ, pos, negsuc, pos_part, neg_part, ◌-ℤ◌, ltb_ℤ, to_unsigned}
use system_studying.Base.Bits.{bit}

-- The flags are bits of an `int`.
abbrev pub flag : ℕ → ℕ → Bool
flag k type = bit type k == 1

abbrev pub is_sign : ℕ → Bool
is_sign = flag 1

abbrev pub is_plus : ℕ → Bool
is_plus = flag 2

abbrev pub is_space : ℕ → Bool
is_space = flag 3

abbrev pub is_left : ℕ → Bool
is_left = flag 4

abbrev pub is_special : ℕ → Bool
is_special = flag 5

abbrev pub is_small : ℕ → Bool
is_small = flag 6

-- LEFT takes ZEROPAD away.
abbrev pub is_zeropad : ℕ → Bool
is_zeropad type = flag 0 type && not (is_left type)

-- The character at an index of `digits`.
abbrev pub digit_char : Bool → ℕ → ℕ
digit_char small d = if ltb d 10 then 48 + d else if small then 87 + d else 55 + d

abbrev pub keep_char : ℕ → Option (List ℕ) → Option (List ℕ)
keep_char c none = none
keep_char c (some tmp) = some (c ∷ tmp)

-- The digits go into `tmp` from the lowest on. `do_div` divides unsigned numbers.
unfoldable pub digit_loop : ℕ → Bool → ℕ → ℕ → Option (List ℕ)
digit_loop zero small base num = none
digit_loop (suc f) small base num =
    let rest = digit_loop f small base (num / base) in
    if num == 0 then some [] else keep_char (digit_char small (num % base)) rest

-- 65 rounds are enough for 64 bits.
abbrev pub digits_in_tmp : Bool → ℕ → ℕ → Option (List ℕ)
digits_in_tmp small base num = if num == 0 then some (48 ∷ []) else digit_loop 65 small base num

-- `while(size-- > 0)`: the rounds are `pos_part size`, and this is the size behind the loop.
abbrev pub used_up : ℤ → ℤ
used_up size = if ltb_ℤ (pos 0) size then negsuc 0 else size -ℤ pos 1

abbrev pub is_negative : ℤ → Bool
is_negative num = ltb_ℤ num (pos 0)

abbrev pub sign_of : ℤ → ℕ → ℕ
sign_of num type =
    if is_sign type && is_negative num
    then 45
    else if is_plus type
    then 43
    else if is_space type
    then 32
    else 0

abbrev pub magnitude : ℤ → ℕ → ℕ
magnitude num type = if is_sign type && is_negative num then neg_part num else to_unsigned num

abbrev pub sign_text : ℕ → List ℕ
sign_text sign = if sign == 0 then [] else sign ∷ []

abbrev pub special_text : ℕ → ℕ → List ℕ
special_text base type =
    if is_special type
    then if base == 8
      then 48 ∷ []
      else if base == 16
      then 48 ∷ digit_char (is_small type) 33 ∷ []
      else []
    else []

-- `size` behind the places of the sign and the prefix.
abbrev pub size_left : ℕ → ℕ → ℕ → ℤ → ℤ
size_left sign base type size =
    let size' = if sign == 0 then size else size -ℤ pos 1 in
    if is_special type
    then if base == 16 then size' -ℤ pos 2 else if base == 8 then size' -ℤ pos 1 else size'
    else size'

-- `while(i-- > 0) *str++ = tmp[i]`
abbrev pub backwards : List ℕ → List ℕ
backwards [] = []
backwards (c ∷ tmp) = backwards tmp ++ (c ∷ [])

-- What is written once the digits stand in `tmp`; `size` is the rest of the width.
unfoldable pub write_number : ℕ → ℕ → ℤ → ℤ → ℕ → List ℕ → List ℕ
write_number sign base size precision type tmp =
    let i = length tmp in
    let precision' = if ltb_ℤ precision (pos i) then pos i else precision in
    let size0 = size -ℤ precision' in
    let in_front = not (is_zeropad type || is_left type) in
    let size1 = if in_front then used_up size0 else size0 in
    let size2 = if is_left type then size1 else used_up size1 in
    let spaces = if in_front then replicate (pos_part size0) 32 else [] in
    let fill =
      if is_left type
      then []
      else replicate (pos_part size1) (if is_zeropad type then 48 else 32) in
    let zeros = replicate (pos_part (precision' -ℤ pos i)) 48 in
    let trail = replicate (pos_part size2) 32 in
    spaces
    ++ (sign_text sign ++ (special_text base type ++ (fill ++ (zeros ++ (backwards tmp ++ trail)))))

abbrev pub write_digits : ℕ → ℕ → ℤ → ℤ → ℕ → Option (List ℕ) → Option (List ℕ)
write_digits sign base size precision type none = none
write_digits sign base size precision type (some tmp) =
    some (write_number sign base size precision type tmp)

-- `none` for a base that is out of range, where the code returns 0.
unfoldable pub number : ℤ → ℕ → ℤ → ℤ → ℕ → Option (List ℕ)
number num base size precision type =
    if ltb base 2 || ltb 36 base
    then none
    else let sign = sign_of num type in
      write_digits sign base (size_left sign base type size) precision type
        (digits_in_tmp (is_small type) base (magnitude num type))

abbrev pub is_digit : ℕ → Bool
is_digit c = leb 48 c && leb c 57

-- The loop of `skip_atoi` at the bits `i` of its `int`, with the text where the pointer is left.
unfoldable pub skip_from : ℕ → List ℕ → ℕ × List ℕ
skip_from i [] = (i, [])
skip_from i (c ∷ s) = elim (is_digit c) [
  | true ↦ skip_from ((i * 10 + (c - 48)) % 2 ^ 32) s
  | false ↦ (i, c ∷ s)
]

unfoldable pub skip_atoi : List ℕ → ℤ × List ℕ
unfolding skip_from
skip_atoi s = let (i, rest) = skip_from 0 s in (to_int i, rest)
