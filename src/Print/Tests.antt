-- ===== src/Print/Tests.antt =====
-- Numbers written and read.
use system_studying.Base.{none}
use system_studying.Base.{◌≢◌}
use system_studying.Base.{Option}
use system_studying.Base.{false}
use Prim.Native.Nat.{max}
use system_studying.Base.{
  ◌≡◌, ◌≤◌, ℕ, refl, some, List, [], ◌∷◌, ◌++◌, arith, if◌then◌else◌, length,
}
use system_studying.Base.Int.{pos, negsuc, ltb_ℤ}
use system_studying.Print.{number, skip_atoi, digits_in_tmp}
use system_studying.Print.Width.{needed, length-number}
use system_studying.Print.Scan.{skip_atoi-number}
use system_studying.Print.Format.{word, text}
use system_studying.Print.Format.Convert.{vsprintf}
use system_studying.Print.Format.Steps.{vsprintf-ne-none}
use system_studying.Print.Format.Pieces.{
  Piece, plain, int_of, string_of, percent_sign, spells, vsprintf-spells,
}

-- "%6d" of -42, and "%-#6x" of 255 with small digits.
right : number (negsuc 41) 10 (pos 6) (negsuc 0) 2 ≡ some (32 ∷ 32 ∷ 32 ∷ 45 ∷ 52 ∷ 50 ∷ [])
unfolding number system_studying.Print.digit_loop system_studying.Print.write_number
right = refl

left : number (pos 255) 16 (pos 6) (negsuc 0) 112 ≡ some (48 ∷ 120 ∷ 102 ∷ 102 ∷ 32 ∷ 32 ∷ [])
unfolding number system_studying.Print.digit_loop system_studying.Print.write_number
left = refl

out_of_range : number (pos 255) 37 (pos 6) (negsuc 0) 0 ≡ Option.none
unfolding number
out_of_range = refl

skip_atoi-number_example :
    (t : List ℕ) × (number (negsuc 41) 10 (pos 6) (pos 4) 3
      ≡ some (if ltb_ℤ (negsuc 41) (pos 0) then 45 ∷ t else t))
    × (skip_atoi (t ++ (44 ∷ [])) ≡ (pos 42, 44 ∷ []))
skip_atoi-number_example =
    skip_atoi-number (negsuc 41) (pos 6) (pos 4) (44 ∷ []) (omega arith) (omega arith) refl

length-number_example :
    (t tmp : List ℕ) × (number (negsuc 41) 10 (pos 6) (pos 4) 3 ≡ some t)
    × (digits_in_tmp false 10 42 ≡ some tmp)
    × (length t ≡ max 6 (needed 45 10 (pos 4) 3 tmp))
    × (length tmp ≤ 41)
length-number_example =
    length-number (negsuc 41) 10 (pos 6) (pos 4) 3 (omega arith) (omega arith) (omega arith)

-- "a%d%s%%" with 42 and "bc".
abbrev pieces : List Piece
pieces = plain 97 ∷ int_of 42 ∷ string_of (98 ∷ 99 ∷ []) ∷ percent_sign ∷ []

number_forty_two : number (pos 42) 10 (negsuc 0) (negsuc 0) 2 ≡ some (52 ∷ 50 ∷ [])
unfolding number system_studying.Print.digit_loop system_studying.Print.write_number
number_forty_two = refl

vsprintf-spells_example :
    vsprintf (spells pieces) (word 42 ∷ text (98 ∷ 99 ∷ []) ∷ [])
    ≡ some (some (record { str = 97 ∷ 52 ∷ 50 ∷ 98 ∷ 99 ∷ 37 ∷ []; stores = []; args = [] }))
vsprintf-spells_example = vsprintf-spells pieces (97 ∷ 52 ∷ 50 ∷ 98 ∷ 99 ∷ 37 ∷ []) (
  97 ∷ [],
  52 ∷ 50 ∷ 98 ∷ 99 ∷ 37 ∷ [],
  (omega arith, refl),
  (
    52 ∷ 50 ∷ [],
    98 ∷ 99 ∷ 37 ∷ [],
    (omega arith, number_forty_two),
    (98 ∷ 99 ∷ [], 37 ∷ [], refl, (37 ∷ [], [], refl, refl, refl), refl),
    refl,
  ),
  refl,
)

vsprintf-ne-none_example : vsprintf (37 ∷ 46 ∷ 42 ∷ []) (text [] ∷ []) ≢ none
vsprintf-ne-none_example = vsprintf-ne-none (37 ∷ 46 ∷ 42 ∷ []) (text [] ∷ [])
