-- ===== src/Keys/Typing.antt =====
-- What typing gives: keys that are pressed and released one after the other.
use system_studying.Base.{
  ℕ, zero, suc, ◌+◌, ◌*◌, ◌%◌, ◌<◌, ◌≡◌, ◌≢◌, refl, sym, ap, ◌∙◌, arith, false, Option, some, List,
  [], ◌∷◌, ◌++◌, append_assoc, append-nil, if◌then◌else◌, ◌==◌, ◌||◌, All, length,
}
use system_studying.Keys.{
  Held, make_of, column_of, keyrow, newline_for, ordinary, first_part, second_part,
  analysis_keycode, add_key, read_line,
}

-- The code of a key with a character of its own that does not end the line.
pub record IsTyping (x : ℕ) : Type 0 where
  pub bound : x < 96
  pub no_modifier : (x ≢ 42) × (x ≢ 54) × (x ≢ 29) × (x ≢ 56)

abbrev pub key_of : Held → ℕ → ℕ
key_of held x = newline_for (keyrow x (column_of held))

first_part-plain :
    (x : ℕ) (held : Held) (codes : List ℕ)
    → x ≢ 225
    → x ≢ 224
    → first_part held (x ∷ codes) ≡ some (x, 0, held, codes)
unfolding first_part
first_part-plain x held [] h k =
    let plain : (x == 225 || x == 224) ≡ false = ground (arith, h, k) in rw plain refl
first_part-plain x held (y ∷ codes) h k =
    let no_pause : (x == 225) ≡ false = ground (arith, h) in
    let no_prefix : (x == 224) ≡ false = ground (arith, k) in rw (no_pause, no_prefix) refl

-- A key that is pressed gives its character, with the shift keys that are held.
pub press_lem :
    (x : ℕ) (held : Held) (codes : List ℕ)
    → IsTyping x
    → analysis_keycode held (x ∷ codes) ≡ some (key_of held x, held, codes)
unfolding analysis_keycode ordinary
press_lem x held codes h =
    let n = h.no_modifier in
    let same : x % 128 ≡ x = omega (arith, h.bound) in
    let down : make_of x ≡ 1 = ground (arith, h.bound) in
    let not_shift_left : (x % 128 == 42) ≡ false = ground (arith, h.bound, n) in
    let not_shift_right : (x % 128 == 54) ≡ false = ground (arith, h.bound, n) in
    let not_ctrl : (x % 128 == 29) ≡ false = ground (arith, h.bound, n) in
    let not_alt : (x % 128 == 56) ≡ false = ground (arith, h.bound, n) in
    ap second_part (first_part-plain x held codes (omega (arith, h.bound)) (omega (arith, h.bound)))
    ∙ ap (λ (r : ℕ × Held). some (r.0, r.1, codes))
        (rw (ordinary, not_shift_left, not_shift_right, not_ctrl, not_alt, down) refl)

-- A key that is released gives nothing.
pub release_lem :
    (x : ℕ) (held : Held) (codes : List ℕ)
    → IsTyping x
    → analysis_keycode held ((x + 128) ∷ codes) ≡ some (0, held, codes)
unfolding analysis_keycode ordinary
release_lem x held codes h =
    let n = h.no_modifier in
    let up : make_of (x + 128) ≡ 0 = ground (arith, h.bound) in
    let not_shift_left : ((x + 128) % 128 == 42) ≡ false = ground (arith, h.bound, n) in
    let not_shift_right : ((x + 128) % 128 == 54) ≡ false = ground (arith, h.bound, n) in
    let not_ctrl : ((x + 128) % 128 == 29) ≡ false = ground (arith, h.bound, n) in
    let not_alt : ((x + 128) % 128 == 56) ≡ false = ground (arith, h.bound, n) in
    ap second_part
      (first_part-plain (x + 128) held codes (omega (arith, h.bound)) (omega (arith, h.bound)))
    ∙ ap (λ (r : ℕ × Held). some (r.0, r.1, codes))
        (rw (ordinary, not_shift_left, not_shift_right, not_ctrl, not_alt, up) refl)

-- The codes of keys that are pressed and released one after the other.
abbrev pub strokes : List ℕ → List ℕ → List ℕ
strokes [] codes = codes
strokes (x ∷ xs) codes = x ∷ ((x + 128) ∷ strokes xs codes)

abbrev pub keys_of : Held → List ℕ → List ℕ
keys_of held [] = []
keys_of held (x ∷ xs) = key_of held x % 256 ∷ keys_of held xs

-- Keys that have a character of their own.
abbrev pub Characters : Held → List ℕ → Type 0
Characters held = All (λ x. IsTyping x × (key_of held x ≢ 0) × (key_of held x ≢ 10))

add_key-character :
    (loop : List ℕ → Held → List ℕ → Option (List ℕ × Held × List ℕ)) (buf codes : List ℕ) (key : ℕ)
    (held : Held)
    → key ≢ 0
    → key ≢ 10
    → add_key loop buf (some (key, held, codes)) ≡ loop (buf ++ (key % 256 ∷ [])) held codes
add_key-character loop buf codes key held h k =
    let not_end : (key == 10) ≡ false = ground (arith, k) in
    let a_key : (key == 0) ≡ false = ground (arith, h) in rw (not_end, a_key) refl

enter_lem :
    (held : Held) (codes : List ℕ)
    → column_of held ≡ 0
    → analysis_keycode held (28 ∷ codes) ≡ some (10, held, codes)
unfolding system_studying.Keys.Map.keycode_map_normal
enter_lem held codes k =
    press_lem 28 held codes (record { bound = omega arith; no_modifier = omega arith })
    ∙ ap (λ c. some (newline_for (keyrow 28 c), held, codes)) k

-- Typing a line: the keys pressed and released, and then the enter key, with no shift key held, give
-- the line of the characters of the keys; the codes behind it are left.
pub read_line-strokes :
    (held : Held) (xs buf codes : List ℕ) (f : ℕ)
    → Characters held xs
    → column_of held ≡ 0
    → 2 * length xs < f
    → read_line f buf held (strokes xs (28 ∷ codes)) ≡ some (buf ++ keys_of held xs, held, codes)
unfolding read_line
read_line-strokes held xs buf codes zero h k l = absurd (omega arith)
read_line-strokes held [] buf codes (suc f) h k l =
    ap (add_key (read_line f) buf) (enter_lem held codes k)
    ∙ ap (λ b. some (b, held, codes)) (sym (append-nil buf))
read_line-strokes held (x ∷ xs) buf codes (suc zero) h k l = absurd (omega arith)
read_line-strokes held (x ∷ xs) buf codes (suc (suc f)) h k l =
    let rest = strokes xs (28 ∷ codes) in
    let buf' = buf ++ (key_of held x % 256 ∷ []) in
    ap (add_key (read_line (suc f)) buf) (press_lem x held ((x + 128) ∷ rest) h.0.0)
    ∙ add_key-character (read_line (suc f)) buf ((x + 128) ∷ rest) (key_of held x) held h.0.1 h.0.2
    ∙ ap (add_key (read_line f) buf') (release_lem x held rest h.0.0)
    ∙ read_line-strokes held xs buf' codes f h.1 k (omega (arith, l))
    ∙ ap (λ b. some (b, held, codes))
        (append_assoc buf (key_of held x % 256 ∷ []) (keys_of held xs))

-- Codes that begin like print screen and go on otherwise leave the left shift key held.
pub fake_shift :
    (held : Held) (z : ℕ) (codes : List ℕ)
    → z ≢ 55
    → analysis_keycode held (224 ∷ 42 ∷ 224 ∷ z ∷ codes)
      ≡ some (0, record held { shift_left = 1 }, codes)
unfolding analysis_keycode first_part ordinary
fake_shift held z codes h =
    let other : (z == 55) ≡ false = ground (arith, h) in
    ap (λ b. second_part (some (42, if b then 2 else 0, held, codes))) other
