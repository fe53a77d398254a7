-- ===== src/Keys.antt =====
-- Scan codes into keys: `get_scancode`, `analysis_keycode` and `read_line` of os/user/init.c. The codes
-- that are read from the keyboard are a list; `none` stands for a read that waits for ever.
pub mod Map
pub mod Typing
mod Tests
use system_studying.Base.{
  ℕ, zero, suc, ◌+◌, ◌*◌, ◌/◌, ◌%◌, Bool, true, false, Option, none, some, List, [], ◌∷◌, ◌++◌,
  if◌then◌else◌, ltb, ◌==◌, ◌||◌, not, get_or, drop,
}
use system_studying.Keys.Map.{keycode_map_normal}

-- The global variables for the keys that are held: 1 for a key that is down.
pub record Held : Type 0 where
  pub shift_left : ℕ
  pub shift_right : ℕ
  pub ctrl_left : ℕ
  pub ctrl_right : ℕ
  pub alt_left : ℕ
  pub alt_right : ℕ

abbrev pub pausebreak_scancode : List ℕ
pausebreak_scancode = 225 ∷ 29 ∷ 69 ∷ 225 ∷ 157 ∷ 197 ∷ []

abbrev pub pausebreak : ℕ
pausebreak = 1

abbrev pub printscreen : ℕ
printscreen = 2

abbrev pub otherkey : ℕ
otherkey = 4

-- The loop that compares the codes behind the first: the key, and the codes left.
unfoldable pub pause_rest : List ℕ → List ℕ → Option (ℕ × List ℕ)
pause_rest [] codes = some (pausebreak, codes)
pause_rest (e ∷ expected) [] = none
pause_rest (e ∷ expected) (x ∷ codes) =
    if x == e then pause_rest expected codes else some (0, codes)

-- What the first part leaves: `x`, `key`, the held keys and the codes left.
abbrev pub First : Type 0
First = Option (ℕ × ℕ × Held × List ℕ)

abbrev pub after_pause : Held → Option (ℕ × List ℕ) → First
after_pause held none = none
after_pause held (some (key, codes)) = some (225, key, held, codes)

-- The two further codes of print screen: 0xE0 and `last`; `x` is the code before them.
abbrev pub print_rest : ℕ → ℕ → Held → List ℕ → First
print_rest x last held [] = none
print_rest x last held (y ∷ []) = if y == 224 then none else some (x, 0, held, [])
print_rest x last held (y ∷ (z ∷ codes)) =
    if y == 224
    then some (x, if z == last then printscreen else 0, held, codes)
    else some (x, 0, held, z ∷ codes)

-- The switch behind 0xE0.
abbrev pub extended : ℕ → Held → List ℕ → First
extended x held codes =
    if x == 42
    then print_rest x 55 held codes
    else if x == 183
    then print_rest x 170 held codes
    else if x == 29
    then some (x, otherkey, record held { ctrl_right = 1 }, codes)
    else if x == 157
    then some (x, otherkey, record held { ctrl_right = 0 }, codes)
    else if x == 56
    then some (x, otherkey, record held { alt_right = 1 }, codes)
    else if x == 184
    then some (x, otherkey, record held { alt_right = 0 }, codes)
    else some (x, otherkey, held, codes)

unfoldable pub first_part : Held → List ℕ → First
unfolding pause_rest
first_part held [] = none
first_part held (x ∷ []) = if x == 225 || x == 224 then none else some (x, 0, held, [])
first_part held (x ∷ (y ∷ codes)) =
    if x == 225
    then after_pause held (pause_rest (drop 1 pausebreak_scancode) (y ∷ codes))
    else if x == 224
    then extended y held codes
    else some (x, 0, held, y ∷ codes)

abbrev pub make_of : ℕ → ℕ
make_of x = if x / 128 % 2 == 1 then 0 else 1

abbrev pub column_of : Held → ℕ
column_of held = if not (held.shift_left == 0) || not (held.shift_right == 0) then 1 else 0

-- `key` of the row and the column.
abbrev pub keyrow : ℕ → ℕ → ℕ
keyrow x column = get_or keycode_map_normal (x % 128 * 2 + column) 0

abbrev pub newline_for : ℕ → ℕ
newline_for key = if key == 28 then 10 else key

-- The part for a code that is no special key: the result and the held keys.
unfoldable pub ordinary : ℕ → Held → ℕ × Held
ordinary x held =
    let make = make_of x in
    if x % 128 == 42
    then (0, record held { shift_left = make })
    else if x % 128 == 54
    then (0, record held { shift_right = make })
    else if x % 128 == 29
    then (0, record held { ctrl_left = make })
    else if x % 128 == 56
    then (0, record held { alt_left = make })
    else if make == 0
    then (0, held)
    else (newline_for (keyrow x (column_of held)), held)

abbrev pub second_part : First → Option (ℕ × Held × List ℕ)
second_part none = none
second_part (some (x, key, held, codes)) =
    if key == 0
    then some ((ordinary x held).0, (ordinary x held).1, codes)
    else some (0, held, codes)

unfoldable pub analysis_keycode : Held → List ℕ → Option (ℕ × Held × List ℕ)
unfolding first_part ordinary
analysis_keycode held codes = second_part (first_part held codes)

-- `read_line` appends each key to the line, and ends at a line feed: the line, with the held keys
-- and the codes left.
abbrev pub add_key :
    (List ℕ → Held → List ℕ → Option (List ℕ × Held × List ℕ))
    → List ℕ
    → Option (ℕ × Held × List ℕ)
    → Option (List ℕ × Held × List ℕ)
add_key loop buf none = none
add_key loop buf (some (key, held, codes)) =
    if key == 10
    then some (buf, held, codes)
    else if key == 0
    then loop buf held codes
    else loop (buf ++ (key % 256 ∷ [])) held codes

unfoldable pub read_line : ℕ → List ℕ → Held → List ℕ → Option (List ℕ × Held × List ℕ)
read_line zero buf held codes = none
read_line (suc f) buf held codes = add_key (read_line f) buf (analysis_keycode held codes)
