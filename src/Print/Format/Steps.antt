-- ===== src/Print/Format/Steps.antt =====
-- The loop of `vsprintf` ends: every step leaves a shorter format.
use system_studying.Print.Format.{put}
use system_studying.Print.Format.{bit_or}
use system_studying.Base.{
  ℕ, zero, suc, ◌%◌, ◌^◌, ◌+◌, ◌*◌, ◌-◌, ◌||◌, ◌≤◌, ◌<◌, ◌≢◌, arith, Bool-cases, inl, inr, Option,
  none, some, List, [], ◌∷◌, length, ◌==◌,
}
use system_studying.Base.Int.{ℤ, pos, ltb_ℤ}
use system_studying.Print.{skip_from, skip_atoi, is_digit}
use system_studying.Print.Format.{
  Arg, Out, Spec, flag_of, read_flags, star_width, read_width, star_precision, dot_precision,
  read_precision, read_qualifier, next_word, as_int,
}
use system_studying.Print.Format.Convert.{
  convert, conversion_of, behind, conclude, with_precision, with_width, directive, go_on,
  vsprintf_loop, vsprintf,
}

read_flags-length : (flags : ℕ) (fmt : List ℕ) → length (read_flags flags fmt).1 ≤ length fmt
unfolding read_flags
read_flags-length flags [] = omega arith
read_flags-length flags (c ∷ fmt) = ground (arith, read_flags-length (bit_or flags (flag_of c)) fmt)

skip_from-length : (i : ℕ) (s : List ℕ) → length (skip_from i s).1 ≤ length s
unfolding skip_from
skip_from-length i [] = omega arith
skip_from-length i (c ∷ s) = ground (arith, skip_from-length ((i * 10 + (c - 48)) % 2 ^ 32) s)

skip_atoi-length : (s : List ℕ) → length (skip_atoi s).1 ≤ length s
unfolding skip_atoi
skip_atoi-length s = skip_from-length 0 s

-- Where a step succeeds, at most `n` characters are left.
abbrev WidthWithin : ℕ → Option (ℕ × ℤ × List ℕ × List Arg) → Type 0
WidthWithin n none = Unit
WidthWithin n (some (flags, width, fmt, args)) = length fmt ≤ n

abbrev PrecisionWithin : ℕ → Option (ℤ × List ℕ × List Arg) → Type 0
PrecisionWithin n none = Unit
PrecisionWithin n (some (precision, fmt, args)) = length fmt ≤ n

abbrev OutWithin : ℕ → Option (List ℕ × Out) → Type 0
OutWithin n none = Unit
OutWithin n (some (fmt, out)) = length fmt ≤ n

star_width-Within :
    (n flags : ℕ) (fmt : List ℕ) (r : Option (ℕ × List Arg))
    → length fmt ≤ n
    → WidthWithin n (star_width flags fmt r)
star_width-Within n flags fmt none h = tt
star_width-Within n flags fmt (some (w, args)) h = elim (Bool-cases (ltb_ℤ (as_int w) (pos 0))) [
  | inl negative ↦ rw negative h
  | inr positive ↦ rw positive h
]

read_width-Within :
    (flags : ℕ) (fmt : List ℕ) (args : List Arg)
    → WidthWithin (length fmt) (read_width flags fmt args)
unfolding read_width
read_width-Within flags [] args = omega arith
read_width-Within flags (c ∷ fmt) args = elim (Bool-cases (is_digit c)) [
  | inl digit ↦ rw digit (skip_atoi-length (c ∷ fmt))
  | inr plain ↦ elim (Bool-cases (c == 42)) [
    | inl star ↦
        rw (plain, star)
          (star_width-Within (suc (length fmt)) flags fmt (next_word args) (omega arith))
    | inr none_given ↦ rw (plain, none_given) (omega arith)
  ]
]

PrecisionWithin-mono :
    (n m : ℕ) (r : Option (ℤ × List ℕ × List Arg))
    → n ≤ m
    → PrecisionWithin n r
    → PrecisionWithin m r
PrecisionWithin-mono n m none h k = tt
PrecisionWithin-mono n m (some (p, fmt, args)) h k = omega (arith, h, k)

OutWithin-mono : (n m : ℕ) (r : Option (List ℕ × Out)) → n ≤ m → OutWithin n r → OutWithin m r
OutWithin-mono n m none h k = tt
OutWithin-mono n m (some (fmt, out)) h k = omega (arith, h, k)

star_precision-Within :
    (fmt : List ℕ) (r : Option (ℕ × List Arg)) → PrecisionWithin (length fmt) (star_precision fmt r)
star_precision-Within fmt none = tt
star_precision-Within fmt (some (w, args)) = omega arith

dot_precision-Within :
    (fmt : List ℕ) (args : List Arg) → PrecisionWithin (length fmt) (dot_precision fmt args)
dot_precision-Within [] args = omega arith
dot_precision-Within (c ∷ fmt) args = elim (Bool-cases (is_digit c)) [
  | inl digit ↦ rw digit (skip_atoi-length (c ∷ fmt))
  | inr plain ↦ elim (Bool-cases (c == 42)) [
    | inl star ↦
        rw (plain, star)
          (PrecisionWithin-mono (length fmt) (suc (length fmt))
            (star_precision fmt (next_word args)) (omega arith)
            (star_precision-Within fmt (next_word args)))
    | inr none_given ↦ rw (plain, none_given) (omega arith)
  ]
]

read_precision-Within :
    (fmt : List ℕ) (args : List Arg) → PrecisionWithin (length fmt) (read_precision fmt args)
unfolding read_precision
read_precision-Within [] args = omega arith
read_precision-Within (c ∷ fmt) args = elim (Bool-cases (c == 46)) [
  | inl dot ↦ rw dot (
      PrecisionWithin-mono (length fmt) (suc (length fmt)) (dot_precision fmt args) (omega arith)
        (dot_precision-Within fmt args))
  | inr none_given ↦ rw none_given (omega arith)
]

read_qualifier-length : (fmt : List ℕ) → length (read_qualifier fmt).1 ≤ length fmt
unfolding read_qualifier
read_qualifier-length [] = omega arith
read_qualifier-length (c ∷ fmt) =
    elim (Bool-cases (c == 104 || (c == 108 || (c == 76 || c == 90)))) [
      | inl given ↦ rw given (omega arith)
      | inr none_given ↦ rw none_given (omega arith)
    ]

behind-Within : (fmt : List ℕ) (r : Option Out) → OutWithin (length fmt) (behind fmt r)
behind-Within fmt none = tt
behind-Within fmt (some out) = omega arith

conclude-Within :
    (spec : Spec) (fmt : List ℕ) (out : Out) → OutWithin (length fmt) (conclude spec fmt out)
conclude-Within spec [] out = omega arith
conclude-Within spec (c ∷ fmt) out =
    OutWithin-mono (length fmt) (suc (length fmt))
      (behind fmt (convert spec c (conversion_of c) out)) (omega arith)
      (behind-Within fmt (convert spec c (conversion_of c) out))

with_precision-Within :
    (n flags : ℕ) (width : ℤ) (out : Out) (r : Option (ℤ × List ℕ × List Arg))
    → PrecisionWithin n r
    → OutWithin n (with_precision flags width out r)
with_precision-Within n flags width out none h = tt
with_precision-Within n flags width out (some (p, fmt, args)) h =
    let spec : Spec = record {
      flags = flags;
      field_width = width;
      precision = p;
      qualifier = (read_qualifier fmt).0;
    } in
    OutWithin-mono (length (read_qualifier fmt).1) n
      (conclude spec (read_qualifier fmt).1 (record out { args = args }))
      (omega (arith, h, read_qualifier-length fmt))
      (conclude-Within spec (read_qualifier fmt).1 (record out { args = args }))

with_width-Within :
    (n : ℕ) (out : Out) (r : Option (ℕ × ℤ × List ℕ × List Arg))
    → WidthWithin n r
    → OutWithin n (with_width out r)
with_width-Within n out none h = tt
with_width-Within n out (some (flags, width, fmt, args)) h =
    with_precision-Within n flags width out (read_precision fmt args) (
      PrecisionWithin-mono (length fmt) n (read_precision fmt args) h
        (read_precision-Within fmt args))

directive-Within : (fmt : List ℕ) (out : Out) → OutWithin (length fmt) (directive fmt out)
unfolding directive
directive-Within fmt out =
    let rest = (read_flags 0 fmt).1 in
    let flags = (read_flags 0 fmt).0 in
    let wide = read_width flags rest out.args in
    OutWithin-mono (length rest) (length fmt) (with_width out wide) (read_flags-length 0 fmt)
      (with_width-Within (length rest) out wide (read_width-Within flags rest out.args))

go_on-ne-none :
    (loop : List ℕ → Out → Option (Option Out)) (n : ℕ) (r : Option (List ℕ × Out))
    → ((fmt : List ℕ) (out : Out) → length fmt ≤ n → loop fmt out ≢ none)
    → OutWithin n r
    → go_on loop r ≢ none
go_on-ne-none loop n none h k = λ e. cc e
go_on-ne-none loop n (some (fmt, out)) h k = h fmt out k

vsprintf_loop-ne-none :
    (f : ℕ) (fmt : List ℕ) (out : Out) → length fmt < f → vsprintf_loop f fmt out ≢ none
unfolding vsprintf_loop
vsprintf_loop-ne-none zero fmt out h = absurd (omega arith)
vsprintf_loop-ne-none (suc f) [] out h = λ e. cc e
vsprintf_loop-ne-none (suc f) (c ∷ fmt) out h = elim (Bool-cases (c == 37)) [
  | inl percent_sign ↦
      rw (vsprintf_loop, percent_sign)
        (go_on-ne-none (vsprintf_loop f) (length fmt) (directive fmt out)
          (λ rest out' k. vsprintf_loop-ne-none f rest out' (omega (arith, h, k)))
          (directive-Within fmt out))
  | inr plain ↦
      rw (vsprintf_loop, plain) (vsprintf_loop-ne-none f fmt (put (c ∷ []) out) (omega (arith, h)))
]

-- `vsprintf` ends on every format, whatever the arguments.
pub vsprintf-ne-none : (fmt : List ℕ) (args : List Arg) → vsprintf fmt args ≢ none
unfolding vsprintf
vsprintf-ne-none fmt args =
    vsprintf_loop-ne-none (suc (length fmt)) fmt (record { str = []; stores = []; args = args })
      (omega arith)
