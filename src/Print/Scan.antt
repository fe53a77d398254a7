-- ===== src/Print/Scan.antt =====
-- `skip_atoi` reads back what `number` has written.
use system_studying.Base.{subst}
use system_studying.Base.{
  ℕ, zero, suc, ◌+◌, ◌-◌, ◌*◌, ◌^◌, ◌<◌, ◌≡◌, refl, sym, ap, ◌∙◌, arith, true, false, some, List,
  [], ◌∷◌, ◌++◌, ltb, ◌%◌, append_assoc, append-nil, All, length, replicate, if◌then◌else◌,
}
use system_studying.Base.Int.{to_int, neg_part, ℤ, pos, negsuc, pos_part, ◌-ℤ◌, ltb_ℤ}
use system_studying.Print.{
  sign_text, magnitude, sign_of, size_left, write_digits, digit_char, skip_from, skip_atoi,
  is_digit, backwards, number, write_number,
}
use system_studying.Print.Width.{pos_part-used_up}
use system_studying.Print.Digits.{value, chars, digits_in_tmp-DigitsOf}

-- Zeros in front do not count.
skip_from-replicate : (n : ℕ) (s : List ℕ) → skip_from 0 (replicate n 48 ++ s) ≡ skip_from 0 s
unfolding skip_from
skip_from-replicate zero s = refl
skip_from-replicate (suc n) s = skip_from-replicate n s

skip_from-digit :
    (i d : ℕ) (s : List ℕ)
    → d < 10
    → i * 10 + d < 2 ^ 32
    → skip_from i (digit_char false d ∷ s) ≡ skip_from (i * 10 + d) s
unfolding skip_from
skip_from-digit i d s h k =
    let code : digit_char false d ≡ 48 + d = ground arith in
    let is : is_digit (48 + d) ≡ true = ground arith in
    let back : (i * 10 + (48 + d - 48)) % 2 ^ 32 ≡ i * 10 + d = omega arith in
    rw code (rw (skip_from, is) (ap (λ t. skip_from t s) back))

skip_from-chars :
    (ds s : List ℕ)
    → All (λ d. d < 10) ds
    → value 10 ds < 2 ^ 32
    → skip_from 0 (backwards (chars false ds) ++ s) ≡ skip_from (value 10 ds) s
skip_from-chars [] s h k = refl
skip_from-chars (d ∷ ds) s h k =
    ap (skip_from 0) (append_assoc (backwards (chars false ds)) (digit_char false d ∷ []) s)
    ∙ skip_from-chars ds (digit_char false d ∷ s) h.1 (omega (arith, k))
    ∙ skip_from-digit (value 10 ds) d s h.0 (omega (arith, k))
    ∙ ap (λ t. skip_from t s) (omega arith)

replicate-append :
    (a b c : ℕ) (s : List ℕ) → replicate a c ++ (replicate b c ++ s) ≡ replicate (a + b) c ++ s
replicate-append zero b c s = ap (λ t. replicate t c ++ s) (omega arith)
replicate-append (suc a) b c s =
    ap (λ t. c ∷ t) (replicate-append a b c s)
    ∙ ap (λ t. replicate t c ++ s) (let e : suc (a + b) ≡ suc a + b = omega arith in e)

-- With ZEROPAD and SIGN, zeros stand between the sign and the digits.
write_number-zeros :
    (sign : ℕ) (size precision : ℤ) (tmp : List ℕ)
    → (z : ℕ) × (write_number sign 10 size precision 3 tmp
        ≡ sign_text sign ++ (replicate z 48 ++ backwards tmp))
unfolding write_number
write_number-zeros sign size precision tmp =
    let i = length tmp in
    let p = if ltb_ℤ precision (pos i) then pos i else precision in
    let a = pos_part (size -ℤ p) in
    let b = pos_part (p -ℤ pos i) in
    (
      a + b,
      ap
            (λ t.
              sign_text sign
              ++ (replicate a 48 ++ (replicate b 48 ++ (backwards tmp ++ replicate t 32))))
            (pos_part-used_up (size -ℤ p))
          ∙ ap (λ t. sign_text sign ++ (replicate a 48 ++ (replicate b 48 ++ t)))
              (append-nil (backwards tmp))
          ∙ ap (λ t. sign_text sign ++ t) (replicate-append a b 48 (backwards tmp)),
    )

abbrev NoDigit : List ℕ → Type 0
NoDigit [] = Unit
NoDigit (c ∷ s) = is_digit c ≡ false

skip_from-stop : (n : ℕ) (s : List ℕ) → NoDigit s → skip_from n s ≡ (n, s)
unfolding skip_from
skip_from-stop n [] h = refl
skip_from-stop n (c ∷ s) h = rw (skip_from, h) refl

skip_from-digits :
    (z : ℕ) (ds rest : List ℕ)
    → All (λ d. d < 10) ds
    → value 10 ds < 2 ^ 31
    → NoDigit rest
    → skip_from 0 ((replicate z 48 ++ backwards (chars false ds)) ++ rest) ≡ (value 10 ds, rest)
skip_from-digits z ds rest h small k =
    ap (skip_from 0) (append_assoc (replicate z 48) (backwards (chars false ds)) rest)
    ∙ skip_from-replicate z (backwards (chars false ds) ++ rest)
    ∙ skip_from-chars ds rest h (omega (arith, small))
    ∙ skip_from-stop (value 10 ds) rest k

skip_atoi-digits :
    (z : ℕ) (ds rest : List ℕ)
    → All (λ d. d < 10) ds
    → value 10 ds < 2 ^ 31
    → NoDigit rest
    → skip_atoi ((replicate z 48 ++ backwards (chars false ds)) ++ rest) ≡ (pos (value 10 ds), rest)
unfolding skip_atoi
skip_atoi-digits z ds rest h small k =
    let plus : ltb (value 10 ds) (2 ^ 31) ≡ true = ground (arith, small) in
    ap (λ (r : ℕ × List ℕ). (to_int r.0, r.1)) (skip_from-digits z ds rest h small k) ∙ rw plus refl

-- The text of a number, up to its sign, in base 10 with ZEROPAD and SIGN.
number-digits :
    (num size precision : ℤ)
    → magnitude num 3 < 2 ^ 64
    → (z : ℕ) × (ds : List ℕ) × (value 10 ds ≡ magnitude num 3)
      × All (λ d. d < 10) ds
      × (number num 10 size precision 3
          ≡ some (sign_text (sign_of num 3) ++ (replicate z 48 ++ backwards (chars false ds))))
unfolding number
number-digits num size precision h =
    let d = digits_in_tmp-DigitsOf false 10 (magnitude num 3) (omega arith) h in
    let (z, e) =
      write_number-zeros (sign_of num 3) (size_left (sign_of num 3) 10 3 size) precision
        (chars false d.ds) in
    (
      z,
      d.ds,
      d.worth,
      d.below,
      ap (write_digits (sign_of num 3) 10 (size_left (sign_of num 3) 10 3 size) precision 3)
            d.stored
          ∙ ap some e,
    )

skip_atoi-digits_of :
    (num size precision : ℤ) (rest : List ℕ) (sign m : ℕ)
    → m < 2 ^ 31
    → magnitude num 3 ≡ m
    → sign_of num 3 ≡ sign
    → NoDigit rest
    → (t : List ℕ) × (number num 10 size precision 3 ≡ some (sign_text sign ++ t))
      × (skip_atoi (t ++ rest) ≡ (pos m, rest))
skip_atoi-digits_of num size precision rest sign m h same e k =
    let (z, ds, worth, below, written) =
      number-digits num size precision (omega (arith, same, h)) in
    let t = replicate z 48 ++ backwards (chars false ds) in
    (
      t,
      subst (λ s. number num 10 size precision 3 ≡ some (sign_text s ++ t)) e written,
      skip_atoi-digits z ds rest below (omega (arith, worth, same, h)) k
          ∙ ap (λ r. (pos r, rest)) (worth ∙ same),
    )

-- What `number` writes of an `int`, in base 10 with ZEROPAD and SIGN and any width and precision, is
-- a minus sign if it is negative, and then a text that `skip_atoi` reads as its absolute value, if
-- that is below 2 ^ 31, which excludes only the least `int`; it stops behind the text if no digit follows.
pub skip_atoi-number :
    (num size precision : ℤ) (rest : List ℕ)
    → pos_part num < 2 ^ 31
    → neg_part num < 2 ^ 31
    → NoDigit rest
    → (t : List ℕ) × (number num 10 size precision 3
        ≡ some (if ltb_ℤ num (pos 0) then 45 ∷ t else t))
      × (skip_atoi (t ++ rest) ≡ (pos (pos_part num + neg_part num), rest))
skip_atoi-number (pos n) size precision rest h h' k =
    let plus : ltb_ℤ (pos n) (pos 0) ≡ false = ground arith in
    let (t, written, read) =
      skip_atoi-digits_of (pos n) size precision rest 0 (n + 0) (omega arith) (ground arith)
        (ground arith) k in
    (t, written ∙ ap (λ b. some (if b then 45 ∷ t else t)) (sym plus), read)
skip_atoi-number (negsuc n) size precision rest h h' k =
    let minus : ltb_ℤ (negsuc n) (pos 0) ≡ true = ground arith in
    let (t, written, read) =
      skip_atoi-digits_of (negsuc n) size precision rest 45 (0 + suc n) (omega arith) (ground arith)
        (ground arith) k in
    (t, written ∙ ap (λ b. some (if b then 45 ∷ t else t)) (sym minus), read)
