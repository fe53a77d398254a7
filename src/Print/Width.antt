-- ===== src/Print/Width.antt =====
-- How long the text of `number` is.
use Prim.Native.Nat.{max}
use system_studying.Base.{
  ℕ, ◌+◌, ◌-◌, ◌^◌, ◌≤◌, ◌<◌, ◌≡◌, refl, ap, ◌∙◌, arith, Bool, true, false, some, List, [], ◌∷◌,
  ◌++◌, ◌==◌, ltb, Bool-cases, not, ◌||◌, inl, inr, length, length-append, length-replicate,
  replicate, if◌then◌else◌,
}
use system_studying.Base.Int.{ℤ, pos, negsuc, pos_part, ◌-ℤ◌, ltb_ℤ}
use system_studying.Print.{
  sign_of, magnitude, digits_in_tmp, number, write_digits, used_up, backwards, write_number,
  sign_text, special_text, size_left, is_special, is_small, is_left, is_zeropad,
}
use system_studying.Print.Digits.{chars, digits_in_tmp-DigitsOf, digits_in_tmp-length}

length-backwards : (tmp : List ℕ) → length (backwards tmp) ≡ length tmp
length-backwards [] = refl
length-backwards (c ∷ tmp) =
    omega (arith, length-append (backwards tmp) (c ∷ []), length-backwards tmp)

-- The number of places of the sign, of the prefix and of the digits.
abbrev pub needed : ℕ → ℕ → ℤ → ℕ → List ℕ → ℕ
needed sign base precision type tmp =
    length (sign_text sign)
    + length (special_text base type)
    + max (pos_part precision) (length tmp)

-- A finished loop leaves nothing for the next.
pub pos_part-used_up : (size : ℤ) → pos_part (used_up size) ≡ 0
pos_part-used_up (pos n) = ground arith
pos_part-used_up (negsuc n) = ground arith

-- The places of the sign and the prefix are taken from the width.
size_left-exact :
    (sign base type : ℕ) (size : ℤ)
    → pos_part (size_left sign base type size)
        + (length (sign_text sign) + length (special_text base type))
      ≡ max (pos_part size) (length (sign_text sign) + length (special_text base type))
size_left-exact sign base type (pos n) = elim (Bool-cases (is_special type)) [
  | inl special ↦ elim (Bool-cases (base == 16)) [
    | inl sixteen ↦ ground arith
    | inr other ↦ ground arith
  ]
  | inr plain ↦ ground arith
]
size_left-exact sign base type (negsuc n) = elim (Bool-cases (is_special type)) [
  | inl special ↦ elim (Bool-cases (base == 16)) [
    | inl sixteen ↦ ground arith
    | inr other ↦ ground arith
  ]
  | inr plain ↦ ground arith
]

-- What the precision and the number of digits leave of a width.
rest_of_width :
    (size precision : ℤ) (i : ℕ)
    → pos_part (size -ℤ (if ltb_ℤ precision (pos i) then pos i else precision))
      ≡ pos_part size - max (pos_part precision) i
rest_of_width (pos n) (pos p) i = ground arith
rest_of_width (pos n) (negsuc p) i = ground arith
rest_of_width (negsuc n) (pos p) i = ground arith
rest_of_width (negsuc n) (negsuc p) i = ground arith

zeros_lem :
    (precision : ℤ) (i : ℕ)
    → pos_part ((if ltb_ℤ precision (pos i) then pos i else precision) -ℤ pos i) + i
      ≡ max (pos_part precision) i
zeros_lem (pos p) i = ground arith
zeros_lem (negsuc p) i = ground arith

length-seven :
    (a b c d e f g : List ℕ)
    → length (a ++ (b ++ (c ++ (d ++ (e ++ (f ++ g))))))
      ≡ length b + length c + (length a + length d + length g) + (length e + length f)
length-seven a b c d e f g = omega (
  arith,
  length-append a (b ++ (c ++ (d ++ (e ++ (f ++ g))))),
  length-append b (c ++ (d ++ (e ++ (f ++ g)))),
  length-append c (d ++ (e ++ (f ++ g))),
  length-append d (e ++ (f ++ g)),
  length-append e (f ++ g),
  length-append f g,
)

-- The three places for padding, for ZEROPAD and LEFT: exactly one of them is used.
abbrev padding : ℤ → Bool → Bool → ℕ
padding size0 zeropad left =
    let in_front = not (zeropad || left) in
    let size1 = if in_front then used_up size0 else size0 in
    let size2 = if left then size1 else used_up size1 in
    let spaces : List ℕ = if in_front then replicate (pos_part size0) 32 else [] in
    let fill : List ℕ =
      if left then [] else replicate (pos_part size1) (if zeropad then 48 else 32) in
    let trail : List ℕ = replicate (pos_part size2) 32 in length spaces + length fill + length trail

padding_lem : (size0 : ℤ) (zeropad left : Bool) → padding size0 zeropad left ≡ pos_part size0
padding_lem size0 true true = omega (arith, length-replicate (pos_part size0) 32)
padding_lem size0 true false = omega (
  arith,
  length-replicate (pos_part size0) 48,
  length-replicate (pos_part (used_up size0)) 32,
  pos_part-used_up size0,
)
padding_lem size0 false true = omega (arith, length-replicate (pos_part size0) 32)
padding_lem size0 false false = omega (
  arith,
  length-replicate (pos_part size0) 32,
  length-replicate (pos_part (used_up size0)) 32,
  pos_part-used_up size0,
  length-replicate (pos_part (used_up (used_up size0))) 32,
  pos_part-used_up (used_up size0),
)

add_up :
    (texts pad digits_part wanted size : ℕ)
    → pad ≡ size - wanted
    → digits_part ≡ wanted
    → texts + pad + digits_part ≡ texts + max size wanted
add_up texts pad digits_part wanted size e e' = omega arith

digits_width :
    (precision : ℤ) (tmp : List ℕ)
    → length {A = ℕ} (
          replicate
            (pos_part (
              (if ltb_ℤ precision (pos (length tmp)) then pos (length tmp) else precision)
              -ℤ pos (length tmp)))
            48)
        + length (backwards tmp)
      ≡ max (pos_part precision) (length tmp)
digits_width precision tmp =
    ap (λ t. t + length (backwards tmp))
      (length-replicate
        (pos_part (
          (if ltb_ℤ precision (pos (length tmp)) then pos (length tmp) else precision)
          -ℤ pos (length tmp)))
        48)
    ∙ ap
        (λ t.
          pos_part (
            (if ltb_ℤ precision (pos (length tmp)) then pos (length tmp) else precision)
            -ℤ pos (length tmp))
          + t)
        (length-backwards tmp)
    ∙ zeros_lem precision (length tmp)

write_number-length :
    (sign base : ℕ) (size precision : ℤ) (type : ℕ) (tmp : List ℕ)
    → length (write_number sign base size precision type tmp)
      ≡ length (sign_text sign)
        + length (special_text base type)
        + max (pos_part size) (max (pos_part precision) (length tmp))
unfolding write_number
write_number-length sign base size precision type tmp =
    let i = length tmp in
    let p = if ltb_ℤ precision (pos i) then pos i else precision in
    let size0 = size -ℤ p in
    let zeropad = is_zeropad type in
    let left = is_left type in
    let in_front = not (zeropad || left) in
    let size1 = if in_front then used_up size0 else size0 in
    let size2 = if left then size1 else used_up size1 in
    let spaces : List ℕ = if in_front then replicate (pos_part size0) 32 else [] in
    let fill : List ℕ =
      if left then [] else replicate (pos_part size1) (if zeropad then 48 else 32) in
    let trail : List ℕ = replicate (pos_part size2) 32 in
    let zeros : List ℕ = replicate (pos_part (p -ℤ pos i)) 48 in
    length-seven spaces (sign_text sign) (special_text base type) fill zeros (backwards tmp) trail
    ∙ add_up (length (sign_text sign) + length (special_text base type))
        (padding size0 zeropad left) (length zeros + length (backwards tmp))
        (max (pos_part precision) i) (pos_part size)
        (padding_lem size0 zeropad left ∙ rest_of_width size precision i)
        (digits_width precision tmp)

-- For a base from 3 to 36, `number` writes as many characters as `size` asks for, or as the sign,
-- the prefix and the digits need, if these are more. There are at least `precision` digits, zeros
-- in front counted, and at most 41 of them come from `tmp`.
pub length-number :
    (num : ℤ) (base : ℕ) (size precision : ℤ) (type : ℕ)
    → 3 ≤ base
    → base ≤ 36
    → magnitude num type < 2 ^ 64
    → (t tmp : List ℕ) × (number num base size precision type ≡ some t)
      × (digits_in_tmp (is_small type) base (magnitude num type) ≡ some tmp)
      × (length t ≡ max (pos_part size) (needed (sign_of num type) base precision type tmp))
      × (length tmp ≤ 41)
unfolding number
length-number num base size precision type low high small =
    let d = digits_in_tmp-DigitsOf (is_small type) base (magnitude num type) (omega arith) small in
    let tmp = chars (is_small type) d.ds in
    let sign = sign_of num type in
    let size' = size_left sign base type size in
    let good : (ltb base 2 || ltb 36 base) ≡ false = ground arith in
    (
      write_number sign base size' precision type tmp,
      tmp,
      rw (number, good) (ap (write_digits sign base size' precision type) d.stored),
      d.stored,
      omega (
        arith,
        write_number-length sign base size' precision type tmp,
        size_left-exact sign base type size,
      ),
      digits_in_tmp-length (is_small type) base (magnitude num type) tmp low small d.stored,
    )
