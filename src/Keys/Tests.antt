-- ===== src/Keys/Tests.antt =====
-- Typing "ls" and enter.
use system_studying.Base.{◌≡◌, refl, some, [], ◌∷◌, arith}
use system_studying.Keys.{Held, analysis_keycode, read_line}
use system_studying.Keys.Typing.{read_line-strokes}

abbrev released : Held
released = record {
  shift_left = 0;
  shift_right = 0;
  ctrl_left = 0;
  ctrl_right = 0;
  alt_left = 0;
  alt_right = 0;
}

read_line-strokes_example :
    read_line 5 [] released (38 ∷ 166 ∷ 31 ∷ 159 ∷ 28 ∷ 156 ∷ [])
    ≡ some (108 ∷ 115 ∷ [], released, 156 ∷ [])
unfolding system_studying.Keys.Map.keycode_map_normal
read_line-strokes_example =
    read_line-strokes released (38 ∷ 31 ∷ []) [] (156 ∷ []) 5
      (
        (record { bound = omega arith; no_modifier = omega arith }, omega arith, omega arith),
        ((record { bound = omega arith; no_modifier = omega arith }, omega arith, omega arith), tt),
      )
      refl (omega arith)

-- Shift and 'a' give "A".
upper_case : read_line 4 [] released (42 ∷ 30 ∷ 170 ∷ 28 ∷ []) ≡ some (65 ∷ [], released, [])
unfolding read_line analysis_keycode system_studying.Keys.first_part system_studying.Keys.ordinary
    system_studying.Keys.Map.keycode_map_normal
upper_case = refl
