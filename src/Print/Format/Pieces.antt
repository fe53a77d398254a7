-- ===== src/Print/Format/Pieces.antt =====
-- Formats that are put together from pieces: what `vsprintf` writes for each.
use system_studying.Print.{digits_in_tmp}
use system_studying.Print.{size_left}
use system_studying.Print.{magnitude}
use system_studying.Print.{write_digits}
use system_studying.Print.{write_number}
use system_studying.Print.{sign_of}
use system_studying.Base.{replicate}
use system_studying.Print.Format.Convert.{put_number}
use system_studying.Base.Int.{pos_part}
use system_studying.Print.Format.Convert.{behind}
use system_studying.Base.Int.{ltb_ℤ}
use system_studying.Print.Format.Convert.{string_text}
use system_studying.Print.Format.Convert.{go_on}
use system_studying.Base.{take}
use system_studying.Base.{
  ℕ, zero, suc, ◌≤◌, ◌<◌, ◌%◌, ◌^◌, ◌≡◌, ◌≢◌, refl, sym, ap, ◌∙◌, arith, Option, none, some, List,
  [], ◌∷◌, ◌++◌, append_assoc, append-nil, length, length-append, ◌==◌, if◌then◌else◌, false,
}
use system_studying.Base.Int.{ℤ, pos, negsuc, to_int, to_signed, ◌-ℤ◌, ltb_ℤ, pos_part}
use system_studying.Print.{number}
use system_studying.Print.Format.{Arg, word, text, Out, put}
use system_studying.Print.Format.Convert.{directive, vsprintf_loop, vsprintf}

pub data Piece : Type 0 where
  plain : ℕ → Piece
  percent_sign : Piece
  string_of : List ℕ → Piece
  char_of : ℕ → Piece
  int_of long_of hex_of unsigned_of : ℕ → Piece

-- How a piece is spelt in the format, and its argument.
abbrev pub spell : Piece → List ℕ
spell (plain c) = c ∷ []
spell percent_sign = 37 ∷ 37 ∷ []
spell (string_of s) = 37 ∷ b's' ∷ []
spell (char_of w) = 37 ∷ b'c' ∷ []
spell (int_of w) = 37 ∷ b'd' ∷ []
spell (long_of w) = 37 ∷ b'l' ∷ b'd' ∷ []
spell (hex_of w) = 37 ∷ b'x' ∷ []
spell (unsigned_of w) = 37 ∷ b'u' ∷ []

abbrev pub arguments : Piece → List Arg
arguments (plain c) = []
arguments percent_sign = []
arguments (string_of s) = text s ∷ []
arguments (char_of w) = word w ∷ []
arguments (int_of w) = word w ∷ []
arguments (long_of w) = word w ∷ []
arguments (hex_of w) = word w ∷ []
arguments (unsigned_of w) = word w ∷ []

-- What is written for a piece: SIGN is 2 and SMALL is 64. An `int` is one that is not negative, since
-- `vsprintf` writes a negative one as the unsigned number of its bits.
abbrev pub Written : Piece → List ℕ → Type 0
Written (plain c) t = (c ≢ 37) × (t ≡ c ∷ [])
Written percent_sign t = t ≡ 37 ∷ []
Written (string_of s) t = t ≡ s
Written (char_of w) t = t ≡ w % 256 ∷ []
Written (int_of w) t =
    (w % 2 ^ 32 < 2 ^ 31) × (number (to_int (w % 2 ^ 32)) 10 (negsuc 0) (negsuc 0) 2 ≡ some t)
Written (long_of w) t = number (to_signed (w % 2 ^ 64)) 10 (negsuc 0) (negsuc 0) 2 ≡ some t
Written (hex_of w) t = number (pos (w % 2 ^ 32)) 16 (negsuc 0) (negsuc 0) 64 ≡ some t
Written (unsigned_of w) t = number (pos (w % 2 ^ 32)) 10 (negsuc 0) (negsuc 0) 0 ≡ some t

abbrev pub spells : List Piece → List ℕ
spells [] = []
spells (p ∷ ps) = spell p ++ spells ps

abbrev pub all_arguments : List Piece → List Arg
all_arguments [] = []
all_arguments (p ∷ ps) = arguments p ++ all_arguments ps

abbrev pub WrittenAll : List Piece → List ℕ → Type 0
WrittenAll [] t = t ≡ []
WrittenAll (p ∷ ps) t = (u v : List ℕ) × Written p u × WrittenAll ps v × (t ≡ u ++ v)

take-length : (s : List ℕ) → take (length s) s ≡ s
take-length [] = refl
take-length (c ∷ s) = ap (λ t. c ∷ t) (take-length s)

-- Without a width and a precision `%s` writes the text as it is.
string_text-plain :
    (s : List ℕ)
    → string_text
        (record { flags = 0; field_width = negsuc 0; precision = negsuc 0; qualifier = 0 })
        s
      ≡ s
string_text-plain s =
    let short : ltb_ℤ (pos (length s)) (negsuc 0) ≡ false = ground arith in
    let front : pos_part (negsuc 0 -ℤ pos (length s)) ≡ 0 = ground arith in
    let behind_it : pos_part (negsuc 0 -ℤ pos 1 -ℤ pos (length s)) ≡ 0 = ground arith in
    ap
      (λ n.
        replicate n 32
        ++ (take (length s) s
            ++ replicate
                (pos_part (
                  (if ltb_ℤ (pos (length s)) (negsuc 0)
                    then pos (length s) -ℤ pos 1
                    else negsuc 0 -ℤ pos 1)
                  -ℤ pos (length s)))
                32))
      front
    ∙ ap
        (λ b.
          take (length s) s
          ++ replicate
              (pos_part
                ((if b then pos (length s) -ℤ pos 1 else negsuc 0 -ℤ pos 1) -ℤ pos (length s)))
              32)
        short
    ∙ ap (λ n. take (length s) s ++ replicate n 32) behind_it
    ∙ append-nil (take (length s) s)
    ∙ take-length s

-- One piece, with the rest of the format and of the arguments.
step_lem :
    (p : Piece) (u fmt done : List ℕ) (stores : List (ℕ × ℕ × ℕ)) (args : List Arg) (f : ℕ)
    → Written p u
    → vsprintf_loop
        (suc f)
        (spell p ++ fmt)
        (record { str = done; stores = stores; args = arguments p ++ args })
      ≡ vsprintf_loop f fmt (record { str = done ++ u; stores = stores; args = args })
unfolding vsprintf_loop directive system_studying.Print.Format.Convert.convert
    system_studying.Print.Format.read_flags system_studying.Print.Format.read_width
    system_studying.Print.Format.read_precision system_studying.Print.Format.read_qualifier
step_lem (plain c) u fmt done stores args f (h, e) =
    let other : (c == 37) ≡ false = ground (arith, h) in
    rw (vsprintf_loop, other)
      (ap (λ t. vsprintf_loop f fmt (record { str = done ++ t; stores = stores; args = args }))
        (sym e))
step_lem percent_sign u fmt done stores args f e =
    ap (λ t. vsprintf_loop f fmt (record { str = done ++ t; stores = stores; args = args })) (sym e)
step_lem (string_of s) u fmt done stores args f e =
    ap (λ t. vsprintf_loop f fmt (record { str = done ++ t; stores = stores; args = args }))
      (string_text-plain s ∙ sym e)
step_lem (char_of w) u fmt done stores args f e =
    ap (λ t. vsprintf_loop f fmt (record { str = done ++ t; stores = stores; args = args })) (sym e)
step_lem (int_of w) u fmt done stores args f (h, e) =
    let same : to_int (w % 2 ^ 32) ≡ pos (w % 2 ^ 32) = ground (arith, h) in
    ap
      (λ r.
        go_on (vsprintf_loop f)
          (behind fmt (put_number (record { str = done; stores = stores; args = args }) r)))
      (ap (λ n. number n 10 (negsuc 0) (negsuc 0) 2) (sym same) ∙ e)
step_lem (long_of w) u fmt done stores args f e =
    ap
      (λ r.
        go_on (vsprintf_loop f)
          (behind fmt (put_number (record { str = done; stores = stores; args = args }) r)))
      e
step_lem (hex_of w) u fmt done stores args f e =
    ap
      (λ r.
        go_on (vsprintf_loop f)
          (behind fmt (put_number (record { str = done; stores = stores; args = args }) r)))
      e
step_lem (unsigned_of w) u fmt done stores args f e =
    ap
      (λ r.
        go_on (vsprintf_loop f)
          (behind fmt (put_number (record { str = done; stores = stores; args = args }) r)))
      e

steps_lem :
    (ps : List Piece) (t done : List ℕ) (stores : List (ℕ × ℕ × ℕ)) (f : ℕ)
    → length ps < f
    → WrittenAll ps t
    → vsprintf_loop f (spells ps) (record { str = done; stores = stores; args = all_arguments ps })
      ≡ some (some (record { str = done ++ t; stores = stores; args = [] }))
unfolding vsprintf_loop
steps_lem ps t done stores zero h w = absurd (omega arith)
steps_lem [] t done stores (suc f) h e =
    ap (λ s. some (some (record { str = s; stores = stores; args = [] })))
      (sym (append-nil done) ∙ ap (λ s. done ++ s) (sym e))
steps_lem (p ∷ ps) t done stores (suc f) h (u, v, now, later, e) =
    step_lem p u (spells ps) done stores (all_arguments ps) f now
    ∙ steps_lem ps v (done ++ u) stores f (omega arith) later
    ∙ ap (λ s. some (some (record { str = s; stores = stores; args = [] })))
        (append_assoc done u v ∙ ap (λ s. done ++ s) (sym e))

length-spell : (p : Piece) → 1 ≤ length (spell p)
length-spell (plain c) = omega arith
length-spell percent_sign = omega arith
length-spell (string_of s) = omega arith
length-spell (char_of w) = omega arith
length-spell (int_of w) = omega arith
length-spell (long_of w) = omega arith
length-spell (hex_of w) = omega arith
length-spell (unsigned_of w) = omega arith

length-spells : (ps : List Piece) → length ps ≤ length (spells ps)
length-spells [] = omega arith
length-spells (p ∷ ps) =
    omega (arith, length-append (spell p) (spells ps), length-spell p, length-spells ps)

-- `vsprintf` of a format that is put together from plain characters and the conversions %%, %s, %c, %d of
-- an `int` that is not negative, %ld, %x and %u, with an argument for each conversion that takes one,
-- writes the pieces one after the other.
pub vsprintf-spells :
    (ps : List Piece) (t : List ℕ)
    → WrittenAll ps t
    → vsprintf (spells ps) (all_arguments ps)
      ≡ some (some (record { str = t; stores = []; args = [] }))
unfolding vsprintf
vsprintf-spells ps t w =
    steps_lem ps t [] [] (suc (length (spells ps))) (omega (arith, length-spells ps)) w

write_digits-unsigned :
    (size precision : ℤ) (tmp : Option (List ℕ))
    → write_digits 0 10 size precision 2 tmp ≡ write_digits 0 10 size precision 0 tmp
unfolding write_number
write_digits-unsigned size precision none = refl
write_digits-unsigned size precision (some tmp) = refl

-- SIGN makes no difference to a number that is not negative.
number-unsigned :
    (n : ℕ) (size precision : ℤ)
    → number (pos n) 10 size precision 2 ≡ number (pos n) 10 size precision 0
unfolding number
number-unsigned n size precision =
    let sign : sign_of (pos n) 2 ≡ 0 = ground arith in
    let same : magnitude (pos n) 2 ≡ n % 2 ^ 64 = ground arith in
    ap
      (λ s.
        write_digits s 10 (size_left s 10 2 size) precision 2
          (digits_in_tmp false 10 (magnitude (pos n) 2)))
      sign
    ∙ ap (λ m. write_digits 0 10 size precision 2 (digits_in_tmp false 10 m)) same
    ∙ write_digits-unsigned size precision (digits_in_tmp false 10 (n % 2 ^ 64))

-- `%d` writes what `%u` writes, for a negative `int` too: `va_arg` reads an `unsigned int`.
pub vsprintf-int :
    (w : ℕ) → vsprintf (37 ∷ b'd' ∷ []) (word w ∷ []) ≡ vsprintf (37 ∷ b'u' ∷ []) (word w ∷ [])
unfolding vsprintf vsprintf_loop directive system_studying.Print.Format.Convert.convert
    system_studying.Print.Format.read_flags system_studying.Print.Format.read_width
    system_studying.Print.Format.read_precision system_studying.Print.Format.read_qualifier
vsprintf-int w =
    ap
      (λ r.
        go_on (vsprintf_loop 2)
          (behind [] (put_number (record { str = []; stores = []; args = [] }) r)))
      (number-unsigned (w % 2 ^ 32) (negsuc 0) (negsuc 0))
