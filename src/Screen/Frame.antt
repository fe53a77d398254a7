-- ===== src/Screen/Frame.antt =====
-- What `color_printk` writes outside the frame buffer, and where a backspace leads.
use native.Mathlib.Nat.{mul-le-mul_left}
use system_studying.Base.{
  ℕ, zero, suc, ◌+◌, ◌-◌, ◌*◌, ◌/◌, ◌≤◌, ◌<◌, ◌^◌, ◌≡◌, ◌≢◌, sym, ap, ◌∙◌, arith, if◌then◌else◌,
  ltb, leb, ◌==◌, true, false, Bool-cases, inl, inr, List, [], ◌∷◌, All,
}
use system_studying.Screen.{
  Position, columns, rows, draw, clear, wrap_line, wrap, advance, tab_rounds, print_char,
  print_text,
}
use system_studying.Screen.Pixels.{putchar-behind}
use system_studying.Screen.Cursor.{OnScreen, wrap-OnScreen, print_char-OnScreen}

-- A screen of characters of 8 by 16 pixels in a frame buffer of `frame` words, which holds the pixels;
-- the memory behind the frame buffer is `base`.
pub record Confined (xres yres frame : ℕ) (base : ℕ → ℕ) (p : Position) : Type 0 where
  pub x_res : p.x_resolution ≡ xres
  pub y_res : p.y_resolution ≡ yres
  pub x_char : p.x_char_size ≡ 8
  pub y_char : p.y_char_size ≡ 16
  pub cleared : p.fb_length / 4 ≡ frame
  pub holds : xres * yres ≤ frame
  pub small : xres * yres < 2 ^ 31
  pub outside : (a : ℕ) → frame ≤ a → p.fb_addr a ≡ base a

module _ (xres yres frame : ℕ) (base : ℕ → ℕ) where
  wrap_line-Confined :
      (p : Position) → Confined xres yres frame base p → Confined xres yres frame base (wrap_line p)
  wrap_line-Confined p h = elim (Bool-cases (leb (columns p) p.x_position)) [
    | inl over ↦ rw over (record {
      x_res = h.x_res;
      y_res = h.y_res;
      x_char = h.x_char;
      y_char = h.y_char;
      cleared = h.cleared;
      holds = h.holds;
      small = h.small;
      outside = h.outside;
    })
    | inr within ↦ rw within h
  ]

  clear-Confined :
      (p : Position) → Confined xres yres frame base p → Confined xres yres frame base (clear p)
  clear-Confined p h = record {
    x_res = h.x_res;
    y_res = h.y_res;
    x_char = h.x_char;
    y_char = h.y_char;
    cleared = h.cleared;
    holds = h.holds;
    small = h.small;
    outside = λ a k.
        let out : ltb a (p.fb_length / 4) ≡ false = ground (arith, h.cleared) in
        ap (λ b. if b then 0 else p.fb_addr a) out ∙ h.outside a k;
  }

  wrap-Confined :
      (p : Position) → Confined xres yres frame base p → Confined xres yres frame base (wrap p)
  wrap-Confined p h = elim (Bool-cases (leb (rows (wrap_line p)) (wrap_line p).y_position)) [
    | inl over ↦ rw over (clear-Confined (wrap_line p) (wrap_line-Confined p h))
    | inr within ↦ rw within (wrap_line-Confined p h)
  ]

  module _ (font : ℕ → ℕ → ℕ) (fr_color bk_color : ℕ) where
    draw-Confined :
        (c : ℕ) (p : Position)
        → OnScreen (xres / 8) (yres / 16) p
        → Confined xres yres frame base p
        → Confined xres yres frame base (draw font fr_color bk_color c p)
    draw-Confined c p k h = record {
      x_res = h.x_res;
      y_res = h.y_res;
      x_char = h.x_char;
      y_char = h.y_char;
      cleared = h.cleared;
      holds = h.holds;
      small = h.small;
      outside = λ a l.
          let at_x : p.x_position * p.x_char_size ≡ p.x_position * 8 =
            ap (λ t. p.x_position * t) h.x_char in
          let at_y : p.y_position * p.y_char_size ≡ p.y_position * 16 =
            ap (λ t. p.y_position * t) h.y_char in
          rw (h.x_res, at_x, at_y)
            (putchar-behind font fr_color bk_color xres (p.x_position * 8) (p.y_position * 16) c
                p.fb_addr yres a (omega (arith, k)) (omega (arith, k)) (omega (arith, h.holds, l))
              ∙ h.outside a l);
    }

    advance-Confined :
        (p : Position) → Confined xres yres frame base p → Confined xres yres frame base (advance p)
    advance-Confined p h = record {
      x_res = h.x_res;
      y_res = h.y_res;
      x_char = h.x_char;
      y_char = h.y_char;
      cleared = h.cleared;
      holds = h.holds;
      small = h.small;
      outside = h.outside;
    }

    module _ (wide : 0 < xres / 8) (high : 0 < yres / 16) where
      tab_rounds-Confined :
          (n : ℕ) (p : Position)
          → OnScreen (xres / 8) (yres / 16) p
          → Confined xres yres frame base p
          → Confined xres yres frame base (tab_rounds font fr_color bk_color n p)
      unfolding tab_rounds
      tab_rounds-Confined zero p k h = h
      tab_rounds-Confined (suc n) p k h =
          let p' = draw font fr_color bk_color 32 p in
          tab_rounds-Confined n (wrap (advance p'))
            (wrap-OnScreen (xres / 8) (yres / 16) wide high (advance p') k.0)
            (wrap-Confined (advance p') (advance-Confined p' (draw-Confined 32 p k h)))

      print_char-Confined :
          (c : ℕ) (p : Position)
          → c ≢ 8
          → OnScreen (xres / 8) (yres / 16) p
          → Confined xres yres frame base p
          → Confined xres yres frame base (print_char font fr_color bk_color c p)
      unfolding print_char
      print_char-Confined c p ne k h =
          let others : (c == 8) ≡ false = ground (arith, ne) in
          elim (Bool-cases (c == 10)) [
            | inl feed ↦
                rw (print_char, feed)
                  (wrap-Confined (record p { y_position = p.y_position + 1; x_position = 0 })
                    (record {
                      x_res = h.x_res;
                      y_res = h.y_res;
                      x_char = h.x_char;
                      y_char = h.y_char;
                      cleared = h.cleared;
                      holds = h.holds;
                      small = h.small;
                      outside = h.outside;
                    }))
            | inr more ↦ elim (Bool-cases (c == 9)) [
              | inl tab ↦
                  rw (print_char, more, others, tab)
                    (tab_rounds-Confined ((p.x_position + 8) / 8 * 8 - p.x_position) p k h)
              | inr plain ↦
                  rw (print_char, more, others, plain)
                    (wrap-Confined (advance (draw font fr_color bk_color c p))
                      (advance-Confined (draw font fr_color bk_color c p) (draw-Confined c p k h)))
            ]
          ]

      -- A text without a backspace, printed with the cursor on a screen whose pixels fit in the frame buffer,
      -- changes no memory behind the frame buffer.
      pub print_text-Confined :
          (buf : List ℕ) (p : Position)
          → All (λ c. c ≢ 8) buf
          → OnScreen (xres / 8) (yres / 16) p
          → Confined xres yres frame base p
          → Confined xres yres frame base (print_text font fr_color bk_color buf p)
      unfolding print_text
      print_text-Confined [] p ne k h = h
      print_text-Confined (c ∷ buf) p ne k h =
          print_text-Confined buf (print_char font fr_color bk_color c p) ne.1
            (print_char-OnScreen (xres / 8) (yres / 16) wide high font fr_color bk_color c p k)
            (print_char-Confined c p ne.0 k h)

-- A backspace at the start of a line does not lead to the end of the line above: the cursor stays.
pub backspace_stays :
    (font : ℕ → ℕ → ℕ) (fr_color bk_color cols lines : ℕ) (p : Position)
    → OnScreen cols lines p
    → 2 ≤ cols
    → 2 ≤ p.x_char_size
    → p.x_position ≡ 0
    → 0 < p.y_position
    → ((print_char font fr_color bk_color 8 p).x_position ≡ p.x_position)
      × ((print_char font fr_color bk_color 8 p).y_position ≡ p.y_position)
unfolding print_char
backspace_stays font fr_color bk_color cols lines p k many big start lower =
    let at_start : (p.x_position == 0) ≡ true = ground arith in
    let not_top : (p.y_position == 0) ≡ false = ground arith in
    let far = mul-le-mul_left {m = 2} {n = p.x_char_size} (columns p - 1) big in
    let over : leb (columns p) ((columns p - 1) * p.x_char_size) ≡ true = ground (arith, far, k) in
    let fits : leb (rows p) (p.y_position - 1 + 1) ≡ false = ground (arith, k) in
    rw (print_char, at_start, not_top, over, fits) (sym start, omega arith)
