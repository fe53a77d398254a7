-- ===== src/Screen/Cursor.antt =====
-- Where the cursor of `color_printk` goes.
use system_studying.Base.{
  ℕ, zero, suc, ◌+◌, ◌-◌, ◌*◌, ◌/◌, ◌<◌, ◌≡◌, arith, leb, ◌==◌, Bool-cases, inl, inr, List, [], ◌∷◌,
}
use system_studying.Screen.{
  Position, columns, rows, draw, wrap_line, wrap_screen, wrap, advance, tab_rounds, back,
  print_char, print_text,
}

-- The screen has `cols` columns and `lines` lines of characters.
abbrev pub Sized : ℕ → ℕ → Position → Type 0
Sized cols lines p = (columns p ≡ cols) × (rows p ≡ lines)

-- The cursor stands at a place for a character.
abbrev pub OnScreen : ℕ → ℕ → Position → Type 0
OnScreen cols lines p = Sized cols lines p × (p.x_position < cols) × (p.y_position < lines)

module _ (cols lines : ℕ) (wide : 0 < cols) (high : 0 < lines) where
  wrap_line-Sized :
      (p : Position)
      → Sized cols lines p
      → Sized cols lines (wrap_line p) × ((wrap_line p).x_position < cols)
  wrap_line-Sized p h = elim (Bool-cases (leb (columns p) p.x_position)) [
    | inl over ↦ rw over (h, wide)
    | inr within ↦ rw within (h, ground (arith, within, h.0))
  ]

  wrap_screen-OnScreen :
      (p : Position)
      → Sized cols lines p
      → p.x_position < cols
      → OnScreen cols lines (wrap_screen p)
  wrap_screen-OnScreen p h k = elim (Bool-cases (leb (rows p) p.y_position)) [
    | inl over ↦ rw over (h, k, high)
    | inr within ↦ rw within (h, k, ground (arith, within, h.1))
  ]

  pub wrap-OnScreen : (p : Position) → Sized cols lines p → OnScreen cols lines (wrap p)
  wrap-OnScreen p h =
      let (sized, inside) = wrap_line-Sized p h in wrap_screen-OnScreen (wrap_line p) sized inside

  back-Sized : (p : Position) → Sized cols lines p → Sized cols lines (back p)
  back-Sized p h = elim (Bool-cases (p.x_position == 0)) [
    | inl start ↦ elim (Bool-cases (p.y_position == 0)) [
      | inl top ↦ rw (start, top) h
      | inr lower ↦ rw (start, lower) h
    ]
    | inr later ↦ rw later h
  ]

  module _ (font : ℕ → ℕ → ℕ) (fr_color bk_color : ℕ) where
    tab_rounds-OnScreen :
        (n : ℕ) (p : Position)
        → OnScreen cols lines p
        → OnScreen cols lines (tab_rounds font fr_color bk_color n p)
    unfolding tab_rounds
    tab_rounds-OnScreen zero p h = h
    tab_rounds-OnScreen (suc n) p h =
        let p' = advance (draw font fr_color bk_color 32 p) in
        tab_rounds-OnScreen n (wrap p') (wrap-OnScreen p' h.0)

    pub print_char-OnScreen :
        (c : ℕ) (p : Position)
        → OnScreen cols lines p
        → OnScreen cols lines (print_char font fr_color bk_color c p)
    unfolding print_char
    print_char-OnScreen c p h = elim (Bool-cases (c == 10)) [
      | inl feed ↦
          rw (print_char, feed)
            (wrap-OnScreen (record p { y_position = p.y_position + 1; x_position = 0 }) h.0)
      | inr more ↦ elim (Bool-cases (c == 8)) [
        | inl backspace ↦
            rw (print_char, more, backspace)
              (wrap-OnScreen (draw font fr_color bk_color 32 (back p)) (back-Sized p h.0))
        | inr others ↦ elim (Bool-cases (c == 9)) [
          | inl tab ↦
              rw (print_char, more, others, tab)
                (tab_rounds-OnScreen ((p.x_position + 8) / 8 * 8 - p.x_position) p h)
          | inr plain ↦
              rw (print_char, more, others, plain)
                (wrap-OnScreen (advance (draw font fr_color bk_color c p)) h.0)
        ]
      ]
    ]

    -- Whatever is printed, the cursor stays on the screen.
    pub print_text-OnScreen :
        (buf : List ℕ) (p : Position)
        → OnScreen cols lines p
        → OnScreen cols lines (print_text font fr_color bk_color buf p)
    unfolding print_text
    print_text-OnScreen [] p h = h
    print_text-OnScreen (c ∷ buf) p h =
        print_text-OnScreen buf (print_char font fr_color bk_color c p) (print_char-OnScreen c p h)
