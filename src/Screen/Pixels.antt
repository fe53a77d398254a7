-- ===== src/Screen/Pixels.antt =====
-- Which pixels `putchar` changes.
use native.Mathlib.Nat.{mul-le-mul_left}
use system_studying.Base.{
  ℕ, zero, suc, ◌+◌, ◌-◌, ◌*◌, ◌^◌, ◌≤◌, ◌<◌, ◌≡◌, ◌&&◌, refl, ap, ◌∙◌, arith, if◌then◌else◌, ltb,
  leb, ◌==◌, Bool, true, false, Bool-cases, inl, inr,
}
use system_studying.Base.Bits.{bit}
use system_studying.Links.{update}
use system_studying.Screen.{color_of, put_row, put_rows, putchar}

-- `a` is one of the `n` numbers from `b` on.
abbrev pub within : ℕ → ℕ → ℕ → Bool
within b n a = leb b a && ltb a (b + n)

-- A first write and the writes behind it, together.
row_step :
    (color : ℕ → ℕ) (old n j addr a : ℕ)
    → (if within (addr + 1) n a
        then color (j + 1 + (a - (addr + 1)))
        else if a == addr
        then color j
        else old)
      ≡ (if within addr (suc n) a then color (j + (a - addr)) else old)
row_step color old n j addr a = elim (Bool-cases (a == addr)) [
  | inl first ↦
      let out : within (addr + 1) n a ≡ false = ground (arith, first) in
      let inside : within addr (suc n) a ≡ true = ground (arith, first) in
      let index : j ≡ j + (a - addr) = ground (arith, first) in
      rw (out, first, inside) (ap color index)
  | inr later ↦ elim (Bool-cases (within (addr + 1) n a)) [
    | inl inside ↦
        let inside' : within addr (suc n) a ≡ true = ground (arith, inside) in
        let index : j + 1 + (a - (addr + 1)) ≡ j + (a - addr) = ground (arith, inside) in
        rw (inside, inside') (ap color index)
    | inr out ↦
        let out' : within addr (suc n) a ≡ false = ground (arith, out, later) in
        rw (out, later, out') refl
  ]
]

never : (b : Bool) → (b && false) ≡ false
never false = refl
never true = refl

-- The same for rows: `colour` gives the pixel at a row and a column of the character.
rows_step :
    (colour : ℕ → ℕ → ℕ) (old n y i py px x at : ℕ) (column : Bool)
    → (py ≡ y + i → column ≡ true → at ≡ px - x)
    → (if within (y + (i + 1)) n py && column
        then colour (py - y) (px - x)
        else if py == y + i && column
        then colour i at
        else old)
      ≡ (if within (y + i) (suc n) py && column then colour (py - y) (px - x) else old)
rows_step colour old n y i py px x at false h =
    rw (never (within (y + (i + 1)) n py), never (py == y + i), never (within (y + i) (suc n) py))
      refl
rows_step colour old n y i py px x at true h = elim (Bool-cases (py == y + i)) [
  | inl first ↦
      let out : within (y + (i + 1)) n py ≡ false = ground (arith, first) in
      let inside : within (y + i) (suc n) py ≡ true = ground (arith, first) in
      let row : i ≡ py - y = ground (arith, first) in
      rw (out, first, inside)
        (ap (λ r. colour r at) row ∙ ap (colour (py - y)) (h (ground (arith, first)) refl))
  | inr later ↦ elim (Bool-cases (within (y + (i + 1)) n py)) [
    | inl inside ↦
        let inside' : within (y + i) (suc n) py ≡ true = ground (arith, inside) in
        rw (inside, inside') refl
    | inr out ↦
        let out' : within (y + i) (suc n) py ≡ false = ground (arith, out, later) in
        rw (out, later, out') refl
  ]
]

module _ (font : ℕ → ℕ → ℕ) (fr_color bk_color : ℕ) where
  put_row_lem :
      (n fontp j addr : ℕ) (fb : ℕ → ℕ) (a : ℕ)
      → put_row font fr_color bk_color n fontp j addr fb a
        ≡ (if within addr n a then color_of font fr_color bk_color fontp (j + (a - addr)) else fb a)
  unfolding put_row update
  put_row_lem zero fontp j addr fb a =
      let off : within addr 0 a ≡ false = ground arith in rw off refl
  put_row_lem (suc n) fontp j addr fb a =
      put_row_lem n fontp (j + 1) (addr + 1)
        (update fb addr (color_of font fr_color bk_color fontp j)) a
      ∙ row_step (color_of font fr_color bk_color fontp) (fb a) n j addr a

  -- The pixel of the screen at column `px` and row `py` lies in row `i` of the character if `py` is
  -- that row, and `px` one of the eight columns from `x` on.
  in_row :
      (xsize x y px py : ℕ)
      → x + 8 ≤ xsize
      → px < xsize
      → within (xsize * y + x) 8 (xsize * py + px) ≡ (py == y && within x 8 px)
  in_row xsize x y px py h k = elim (Bool-cases (ltb py y)) [
    | inl above ↦ ground (arith, mul-le-mul_left {m = suc py} {n = y} xsize (ground arith))
    | inr upto ↦ elim (Bool-cases (ltb y py)) [
      | inl below ↦ ground (arith, mul-le-mul_left {m = suc y} {n = py} xsize (ground arith))
      | inr from ↦ let same : py ≡ y = ground arith in ground (arith, ap (λ t. xsize * t) same)
    ]
  ]

  put_rows_lem :
      (n xsize x y c i : ℕ) (fb : ℕ → ℕ) (px py : ℕ)
      → x + 8 ≤ xsize
      → px < xsize
      → put_rows font fr_color bk_color n xsize x y c i fb (xsize * py + px) ≡ (
          if within (y + i) n py && within x 8 px
          then color_of font fr_color bk_color (font c (py - y)) (px - x)
          else fb (xsize * py + px))
  unfolding put_rows
  put_rows_lem zero xsize x y c i fb px py h k =
      let off : within (y + i) 0 py ≡ false = ground arith in rw off refl
  put_rows_lem (suc n) xsize x y c i fb px py h k =
      let addr = xsize * (y + i) + x in
      let fb' = put_row font fr_color bk_color 8 (font c i) 0 addr fb in
      let colour = λ (row : ℕ) (column : ℕ). color_of font fr_color bk_color (font c row) column in
      let old = fb (xsize * py + px) in
      let at = 0 + (xsize * py + px - addr) in
      let written : fb' (xsize * py + px)
          ≡ (if py == y + i && within x 8 px then colour i at else old) =
        put_row_lem 8 (font c i) 0 addr fb (xsize * py + px)
        ∙ ap (λ b. if b then colour i at else old) (in_row xsize x (y + i) px py h k) in
      put_rows_lem n xsize x y c (i + 1) fb' px py h k
      ∙ ap (λ v. if within (y + (i + 1)) n py && within x 8 px then colour (py - y) (px - x) else v)
          written
      ∙ rows_step colour old n y i py px x at (within x 8 px)
          (λ e w. ground (arith, ap (λ (t : ℕ). xsize * t) e, w))

  -- A character of which the eight columns fit on a line: in its box the pixels whose bit of the font
  -- is set, the highest bit on the left, take the first colour and the others the second, and every other
  -- pixel stays as it was. All pixels have an index below 2 ^ 31.
  pub putchar_lem :
      (xsize x y c : ℕ) (fb : ℕ → ℕ) (px py : ℕ)
      → x + 8 ≤ xsize
      → px < xsize
      → xsize * (y + 16) < 2 ^ 31
      → putchar font fr_color bk_color xsize x y c fb (xsize * py + px) ≡ (
          if within y 16 py && within x 8 px
          then (if bit (font c (py - y)) (7 - (px - x)) == 1 then fr_color else bk_color)
          else fb (xsize * py + px))
  unfolding putchar
  putchar_lem xsize x y c fb px py h k small =
      let start : y + 0 ≡ y = omega arith in
      put_rows_lem 16 xsize x y c 0 fb px py h k
      ∙ ap
          (λ t.
            if within t 16 py && within x 8 px
            then (if bit (font c (py - y)) (7 - (px - x)) == 1 then fr_color else bk_color)
            else fb (xsize * py + px))
          start

  -- Nothing behind the lines of the character changes.
  put_rows-behind :
      (n xsize x y c i : ℕ) (fb : ℕ → ℕ) (ysize a : ℕ)
      → x + 8 ≤ xsize
      → y + i + n ≤ ysize
      → xsize * ysize ≤ a
      → put_rows font fr_color bk_color n xsize x y c i fb a ≡ fb a
  unfolding put_rows
  put_rows-behind zero xsize x y c i fb ysize a h k l = refl
  put_rows-behind (suc n) xsize x y c i fb ysize a h k l =
      let addr = xsize * (y + i) + x in
      let low = mul-le-mul_left {m = suc (y + i)} {n = ysize} xsize (omega arith) in
      let out : within addr 8 a ≡ false = ground (arith, low) in
      put_rows-behind n xsize x y c (i + 1) (put_row font fr_color bk_color 8 (font c i) 0 addr fb)
        ysize a h (omega arith) l
      ∙ put_row_lem 8 (font c i) 0 addr fb a
      ∙ ap (λ b. if b then color_of font fr_color bk_color (font c i) (0 + (a - addr)) else fb a)
          out

  pub putchar-behind :
      (xsize x y c : ℕ) (fb : ℕ → ℕ) (ysize a : ℕ)
      → x + 8 ≤ xsize
      → y + 16 ≤ ysize
      → xsize * ysize ≤ a
      → putchar font fr_color bk_color xsize x y c fb a ≡ fb a
  unfolding putchar
  putchar-behind xsize x y c fb ysize a h k l =
      put_rows-behind 16 xsize x y c 0 fb ysize a h (omega arith) l
