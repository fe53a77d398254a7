-- ===== src/Print/Format/Convert.antt =====
-- The conversions of `vsprintf` and its loop.
use Prim.Native.Nat.{bit_or}
use system_studying.Base.{
  ℕ, zero, suc, ◌%◌, ◌^◌, true, false, Option, none, some, List, [], ◌∷◌, ◌++◌, if◌then◌else◌, ltb,
  ◌==◌, ◌||◌, ◌&&◌, not, length, replicate, take,
}
use system_studying.Base.Int.{ℤ, pos, negsuc, pos_part, ◌-ℤ◌, ltb_ℤ, to_signed}
use system_studying.Print.{number, is_left}
use system_studying.Print.Format.{
  Arg, Out, Spec, put, next_word, next_text, read_flags, read_width, read_precision, read_qualifier,
}

-- `%c`: `while(--field_width > 0)` stands before and behind the character.
abbrev pub char_text : Spec → ℕ → List ℕ
char_text spec w =
    let pads = pos_part (spec.field_width -ℤ pos 1) in
    let width' =
      if is_left spec.flags
      then spec.field_width
      else if ltb_ℤ (pos 0) (spec.field_width -ℤ pos 1)
      then pos 0
      else spec.field_width -ℤ pos 1 in
    (if is_left spec.flags then [] else replicate pads 32)
    ++ (w % 256 ∷ replicate (pos_part (width' -ℤ pos 1)) 32)

-- `%s`: `while(len < field_width--)` stands before and behind the text.
abbrev pub string_text : Spec → List ℕ → List ℕ
string_text spec s =
    let len =
      if ltb_ℤ spec.precision (pos 0)
      then length s
      else if ltb (pos_part spec.precision) (length s)
      then pos_part spec.precision
      else length s in
    let pads = pos_part (spec.field_width -ℤ pos len) in
    let width' =
      if is_left spec.flags
      then spec.field_width
      else if ltb_ℤ (pos len) spec.field_width
      then pos len -ℤ pos 1
      else spec.field_width -ℤ pos 1 in
    (if is_left spec.flags then [] else replicate pads 32)
    ++ (take len s ++ replicate (pos_part (width' -ℤ pos len)) 32)

-- `unsigned long` or `unsigned int`, passed on as a `long`.
abbrev pub number_arg : ℕ → ℕ → ℤ
number_arg qualifier w = if qualifier == 108 then to_signed (w % 2 ^ 64) else pos (w % 2 ^ 32)

abbrev pub put_number : Out → Option (List ℕ) → Option Out
put_number out none = none
put_number out (some t) = some (put t out)

abbrev pub write_integer : Spec → ℕ → Out → Option (ℕ × List Arg) → Option Out
write_integer spec base out none = none
write_integer spec base out (some (w, args)) =
    put_number (record out { args = args })
      (number (number_arg spec.qualifier w) base spec.field_width spec.precision spec.flags)

abbrev pub write_char : Spec → Out → Option (ℕ × List Arg) → Option Out
write_char spec out none = none
write_char spec out (some (w, args)) = some (put (char_text spec w) (record out { args = args }))

abbrev pub write_string : Spec → Out → Option (List ℕ × List Arg) → Option Out
write_string spec out none = none
write_string spec out (some (s, args)) =
    some (put (string_text spec s) (record out { args = args }))

-- `%p`: 16 digits with ZEROPAD if no width is given.
abbrev pub write_pointer : Spec → Out → Option (ℕ × List Arg) → Option Out
write_pointer spec out none = none
write_pointer spec out (some (w, args)) =
    let bare = ltb_ℤ spec.field_width (pos 0) && not (ltb_ℤ spec.field_width (negsuc 0)) in
    put_number (record out { args = args })
      (number (to_signed (w % 2 ^ 64)) 16 (if bare then pos 16 else spec.field_width) spec.precision
        (if bare then bit_or spec.flags 1 else spec.flags))

-- `%n` stores how much has been written.
abbrev pub write_count : Spec → Out → Option (ℕ × List Arg) → Option Out
write_count spec out none = none
write_count spec out (some (w, args)) = some (record out {
  stores = (w, if spec.qualifier == 108 then 8 else 4, length out.str) ∷ out.stores;
  args = args;
})

-- The conversions of the last switch.
pub data Conversion : Type 0 where
  char string octal pointer hex_small hex_big signed unsigned count percent other : Conversion

abbrev pub conversion_of : ℕ → Conversion
conversion_of c =
    if c == b'c'
    then char
    else if c == b's'
    then string
    else if c == b'o'
    then octal
    else if c == b'p'
    then pointer
    else if c == b'x'
    then hex_small
    else if c == b'X'
    then hex_big
    else if c == b'd' || c == b'i'
    then signed
    else if c == b'u'
    then unsigned
    else if c == b'n'
    then count
    else if c == b'%'
    then percent
    else other

unfoldable pub convert : Spec → ℕ → Conversion → Out → Option Out
convert spec c char out = write_char spec out (next_word out.args)
convert spec c string out = write_string spec out (next_text out.args)
convert spec c octal out = write_integer spec 8 out (next_word out.args)
convert spec c pointer out = write_pointer spec out (next_word out.args)
convert spec c hex_small out =
    write_integer (record spec { flags = bit_or spec.flags 64 }) 16 out (next_word out.args)
convert spec c hex_big out = write_integer spec 16 out (next_word out.args)
convert spec c signed out =
    write_integer (record spec { flags = bit_or spec.flags 2 }) 10 out (next_word out.args)
convert spec c unsigned out = write_integer spec 10 out (next_word out.args)
convert spec c count out = write_count spec out (next_word out.args)
convert spec c percent out = some (put (37 ∷ []) out)
convert spec c other out = some (put (37 ∷ c ∷ []) out)

abbrev pub behind : List ℕ → Option Out → Option (List ℕ × Out)
behind fmt none = none
behind fmt (some out) = some (fmt, out)

-- The conversion at the rest of the format; at its end the code writes the '%' and steps back.
abbrev pub conclude : Spec → List ℕ → Out → Option (List ℕ × Out)
conclude spec [] out = some ([], put (37 ∷ []) out)
conclude spec (c ∷ fmt) out = behind fmt (convert spec c (conversion_of c) out)

abbrev pub with_precision : ℕ → ℤ → Out → Option (ℤ × List ℕ × List Arg) → Option (List ℕ × Out)
with_precision flags width out none = none
with_precision flags width out (some (precision, fmt, args)) =
    let (qualifier, rest) = read_qualifier fmt in
    conclude
      (record { flags = flags; field_width = width; precision = precision; qualifier = qualifier })
      rest (record out { args = args })

abbrev pub with_width : Out → Option (ℕ × ℤ × List ℕ × List Arg) → Option (List ℕ × Out)
with_width out none = none
with_width out (some (flags, width, fmt, args)) =
    with_precision flags width out (read_precision fmt args)

-- What stands behind a '%', and the format that is left.
unfoldable pub directive : List ℕ → Out → Option (List ℕ × Out)
directive fmt out =
    let (flags, rest) = read_flags 0 fmt in with_width out (read_width flags rest out.args)

-- The loop over the format. The outer `none` stands for fuel that ran out.
abbrev pub go_on :
    (List ℕ → Out → Option (Option Out)) → Option (List ℕ × Out) → Option (Option Out)
go_on loop none = some none
go_on loop (some (fmt, out)) = loop fmt out

unfoldable pub vsprintf_loop : ℕ → List ℕ → Out → Option (Option Out)
vsprintf_loop zero fmt out = none
vsprintf_loop (suc f) [] out = some (some out)
vsprintf_loop (suc f) (c ∷ fmt) out = elim (c == 37) [
  | true ↦ go_on (vsprintf_loop f) (directive fmt out)
  | false ↦ vsprintf_loop f fmt (put (c ∷ []) out)
]

-- One round more than the format has characters is enough.
unfoldable pub vsprintf : List ℕ → List Arg → Option (Option Out)
vsprintf fmt args =
    vsprintf_loop (suc (length fmt)) fmt (record { str = []; stores = []; args = args })
