-- ===== src/Screen/Tests.antt =====
-- A screen of ten columns and two lines, and a font in which every row has its leftmost pixel set.
use system_studying.Base.{ℕ, ◌≡◌, ◌+◌, ◌*◌, refl, [], ◌∷◌, arith}
use system_studying.Screen.{Position, putchar, print_text}
use system_studying.Screen.Pixels.{putchar_lem}
use system_studying.Screen.Frame.{Confined, print_text-Confined}

abbrev font : ℕ → ℕ → ℕ
font c row = 128

abbrev dark : ℕ → ℕ
dark a = 0

abbrev screen : Position
screen = record {
  x_resolution = 80;
  y_resolution = 32;
  x_position = 0;
  y_position = 1;
  x_char_size = 8;
  y_char_size = 16;
  fb_addr = dark;
  fb_length = 10240;
}

putchar_lem_example : putchar font 7 1 80 8 16 65 dark (80 * 20 + 8) ≡ 7
putchar_lem_example =
    putchar_lem font 7 1 80 8 16 65 dark 8 20 (omega arith) (omega arith) (omega arith)

screen-Confined : Confined 80 32 2560 dark screen
screen-Confined = record {
  x_res = refl;
  y_res = refl;
  x_char = refl;
  y_char = refl;
  cleared = refl;
  holds = omega arith;
  small = omega arith;
  outside = λ a k. refl;
}

print_text-Confined_example :
    Confined 80 32 2560 dark (print_text font 7 1 (65 ∷ 9 ∷ 10 ∷ []) screen)
print_text-Confined_example =
    print_text-Confined 80 32 2560 dark font 7 1 (omega arith) (omega arith) (65 ∷ 9 ∷ 10 ∷ [])
      screen (omega arith, (omega arith, (omega arith, tt)))
      ((refl, refl), omega arith, omega arith) screen-Confined
