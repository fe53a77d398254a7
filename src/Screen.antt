-- ===== src/Screen.antt =====
-- The text screen: `putchar` and the cursor of `color_printk` of os/kernel/printk.c. The frame buffer
-- is the function from the index of a 32-bit pixel to its colour, and `font` the table `font_ascii`,
-- which gives the 16 bytes of a character.
pub mod Pixels
pub mod Cursor
pub mod Frame
mod Tests
use system_studying.Base.{
  ℕ, zero, suc, ◌+◌, ◌-◌, ◌*◌, ◌/◌, List, [], ◌∷◌, if◌then◌else◌, ltb, leb, ◌==◌,
}
use system_studying.Base.Bits.{bit}
use system_studying.Links.{update}

-- `struct position`. The positions count characters, and are never negative between characters.
pub record Position : Type 0 where
  pub x_resolution : ℕ
  pub y_resolution : ℕ
  pub x_position : ℕ
  pub y_position : ℕ
  pub x_char_size : ℕ
  pub y_char_size : ℕ
  pub fb_addr : ℕ → ℕ
  pub fb_length : ℕ  -- in bytes

abbrev pub columns : Position → ℕ
columns pos = pos.x_resolution / pos.x_char_size

abbrev pub rows : Position → ℕ
rows pos = pos.y_resolution / pos.y_char_size

-- `memset(Pos.FB_addr, 0, Pos.FB_length)`
abbrev pub clear : Position → Position
clear pos = record pos {
  y_position = 0;
  fb_addr = λ a. if ltb a (pos.fb_length / 4) then 0 else pos.fb_addr a;
}

-- The two tests at the end of a round.
abbrev pub wrap_line : Position → Position
wrap_line pos =
    if leb (columns pos) pos.x_position
    then record pos { y_position = pos.y_position + 1; x_position = 0 }
    else pos

abbrev pub wrap_screen : Position → Position
wrap_screen pos = if leb (rows pos) pos.y_position then clear pos else pos

abbrev pub wrap : Position → Position
wrap pos = wrap_screen (wrap_line pos)

abbrev pub advance : Position → Position
advance pos = record pos { x_position = pos.x_position + 1 }

abbrev pub row_above : Position → Position
row_above pos =
    if pos.y_position == 0
    then record pos { y_position = (rows pos - 1) * pos.y_char_size }
    else record pos { y_position = pos.y_position - 1 }

abbrev pub back : Position → Position
back pos =
    if pos.x_position == 0
    then row_above (record pos { x_position = (columns pos - 1) * pos.x_char_size })
    else record pos { x_position = pos.x_position - 1 }

module _ (font : ℕ → ℕ → ℕ) (fr_color bk_color : ℕ) where
  -- The pixel for column `j` of a row of the character.
  abbrev pub color_of : ℕ → ℕ → ℕ
  color_of fontp j = if bit fontp (7 - j) == 1 then fr_color else bk_color

  -- The loop over the columns at `j`, with `n` to go.
  unfoldable pub put_row : ℕ → ℕ → ℕ → ℕ → (ℕ → ℕ) → ℕ → ℕ
  put_row zero fontp j addr fb = fb
  put_row (suc n) fontp j addr fb =
      put_row n fontp (j + 1) (addr + 1) (update fb addr (color_of fontp j))

  -- The loop over the rows at `i`, with `n` to go.
  unfoldable pub put_rows : ℕ → ℕ → ℕ → ℕ → ℕ → ℕ → (ℕ → ℕ) → ℕ → ℕ
  unfolding put_row
  put_rows zero xsize x y c i fb = fb
  put_rows (suc n) xsize x y c i fb =
      put_rows n xsize x y c (i + 1) (put_row 8 (font c i) 0 (xsize * (y + i) + x) fb)

  unfoldable pub putchar : ℕ → ℕ → ℕ → ℕ → (ℕ → ℕ) → ℕ → ℕ
  unfolding put_rows
  putchar xsize x y c fb = put_rows 16 xsize x y c 0 fb

  abbrev pub draw : ℕ → Position → Position
  draw c pos = record pos {
    fb_addr =
        putchar pos.x_resolution (pos.x_position * pos.x_char_size)
          (pos.y_position * pos.y_char_size) c pos.fb_addr;
  }

  -- `line` rounds of a tab.
  unfoldable pub tab_rounds : ℕ → Position → Position
  tab_rounds zero pos = pos
  tab_rounds (suc line) pos = tab_rounds line (wrap (advance (draw 32 pos)))

  -- The rounds of one character: a line feed, a backspace, a tab or any other.
  unfoldable pub print_char : ℕ → Position → Position
  unfolding tab_rounds
  print_char c pos =
      if c == 10
      then wrap (record pos { y_position = pos.y_position + 1; x_position = 0 })
      else if c == 8
      then wrap (draw 32 (back pos))
      else if c == 9
      then tab_rounds ((pos.x_position + 8) / 8 * 8 - pos.x_position) pos
      else wrap (advance (draw c pos))

  -- The loop of `color_printk` over what `vsprintf` has written.
  unfoldable pub print_text : List ℕ → Position → Position
  print_text [] pos = pos
  print_text (c ∷ buf) pos = print_text buf (print_char c pos)
