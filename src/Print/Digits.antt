-- ===== src/Print/Digits.antt =====
-- The digits that `number` puts into `tmp`.
use native.Mathlib.Nat.{
  pow-le-pow_left, div-lt_iff_lt-mul, div-add-mod', mod-lt, pow-suc, pow-zero, mul-le-mul_left,
}
use system_studying.Base.{
  ℕ, zero, suc, ◌+◌, ◌*◌, ◌/◌, ◌%◌, ◌^◌, ◌≤◌, ◌<◌, ◌≡◌, refl, sym, ap, ◌∙◌, arith, Bool, Option,
  none, some, List, [], ◌∷◌, ◌==◌, All, Bool-cases, Option-cases, true, inl, inr, length,
}
use system_studying.Print.{digit_char, digit_loop, keep_char, digits_in_tmp}

-- The lowest digit comes first.
abbrev pub value : ℕ → List ℕ → ℕ
value base [] = 0
value base (d ∷ ds) = d + value base ds * base

abbrev pub chars : Bool → List ℕ → List ℕ
chars small [] = []
chars small (d ∷ ds) = digit_char small d ∷ chars small ds

-- `ds` are digits of `num`, and `tmp` holds their characters.
pub record DigitsOf (small : Bool) (base num : ℕ) (tmp : Option (List ℕ)) : Type 0 where
  pub ds : List ℕ
  pub stored : tmp ≡ some (chars small ds)
  pub worth : value base ds ≡ num
  pub below : All (λ d. d < base) ds

digit_loop-DigitsOf :
    (small : Bool) (base f num : ℕ)
    → 2 ≤ base
    → num < 2 ^ f
    → DigitsOf small base num (digit_loop (suc f) small base num)
unfolding digit_loop
digit_loop-DigitsOf small base zero num h k =
    let none_left : num ≡ 0 = omega arith in
    record { ds = []; stored = rw none_left refl; worth = sym none_left; below = tt }
digit_loop-DigitsOf small base (suc f) num h k = elim (Bool-cases (num == 0)) [
  | inl end ↦ record {
    ds = [];
    stored = rw (digit_loop, end) refl;
    worth = ground arith;
    below = tt;
  }
  | inr more ↦
      let twice = mul-le-mul_left {m = 2} {n = base} (num / base) h in
      let rest =
        digit_loop-DigitsOf small base f (num / base) h
          (omega (arith, twice, div-add-mod' num base, pow-suc 2 f)) in
      record {
        ds = num % base ∷ rest.ds;
        stored = rw (digit_loop, more, rest.stored) refl;
        worth = omega (arith, ap (λ (t : ℕ). t * base) rest.worth, div-add-mod' num base);
        below = (mod-lt num (omega arith), rest.below);
      }
]

-- For every 64-bit number, in every base, `tmp` receives digits of that base that are worth the
-- number: 65 rounds end the loop.
pub digits_in_tmp-DigitsOf :
    (small : Bool) (base num : ℕ)
    → 2 ≤ base
    → num < 2 ^ 64
    → DigitsOf small base num (digits_in_tmp small base num)
digits_in_tmp-DigitsOf small base num h k = elim (Bool-cases (num == 0)) [
  | inl none_left ↦ record {
    ds = 0 ∷ [];
    stored = rw none_left refl;
    worth = ground arith;
    below = (omega arith, tt);
  }
  | inr more ↦
      let all = digit_loop-DigitsOf small base 64 num h k in
      record { ds = all.ds; stored = rw more all.stored; worth = all.worth; below = all.below }
]

some-injective {ℓ} : {A : Type ℓ} (x y : A) → some x ≡ some y → x ≡ y
some-injective x y e = cc e

none-some {ℓ} : {A : Type ℓ} (x : A) → none ≡ some x → ⊥
none-some x e = cc e

-- The loop takes no more rounds than the base needs digits.
digit_loop-length :
    (small : Bool) (base : ℕ) (f k num : ℕ) (tmp : List ℕ)
    → 0 < base
    → num < base ^ k
    → digit_loop f small base num ≡ some tmp
    → length tmp ≤ k
unfolding digit_loop
digit_loop-length small base zero k num tmp b h e = absurd (none-some tmp e)
digit_loop-length small base (suc f) zero num tmp b h e =
    let empty : num ≡ 0 = omega (arith, pow-zero base) in
    let end : (num == 0) ≡ true = ground (arith, empty) in
    let stop : digit_loop (suc f) small base num ≡ some [] = rw (digit_loop, end) refl in
    omega (arith, ap length (some-injective [] tmp (sym stop ∙ e)))
digit_loop-length small base (suc f) (suc k) num tmp b h e = elim (Bool-cases (num == 0)) [
  | inl end ↦
      let stop : digit_loop (suc f) small base num ≡ some [] = rw (digit_loop, end) refl in
      omega (arith, ap length (some-injective [] tmp (sym stop ∙ e)))
  | inr more ↦
      let step : digit_loop (suc f) small base num
          ≡ keep_char (digit_char small (num % base)) (digit_loop f small base (num / base)) =
        rw (digit_loop, more) refl in
      elim (Option-cases (digit_loop f small base (num / base))) [
        | inl nothing ↦ absurd (cc (sym step ∙ e, nothing))
        | inr (rest, found) ↦
            let whole = sym (step ∙ ap (keep_char (digit_char small (num % base))) found) ∙ e in
            let less : num / base < base ^ k =
              (div-lt_iff_lt-mul b).1 (omega (arith, pow-suc base k)) in
            omega (
              arith,
              digit_loop-length small base f k (num / base) rest b less found,
              ap length (some-injective (digit_char small (num % base) ∷ rest) tmp whole),
            )
      ]
]

-- In every base but 2, at most 41 digits go into the 50 places of `tmp`.
pub digits_in_tmp-length :
    (small : Bool) (base num : ℕ) (tmp : List ℕ)
    → 3 ≤ base
    → num < 2 ^ 64
    → digits_in_tmp small base num ≡ some tmp
    → length tmp ≤ 41
digits_in_tmp-length small base num tmp h k e = elim (Bool-cases (num == 0)) [
  | inl end ↦
      let stop : digits_in_tmp small base num ≡ some (48 ∷ []) = rw end refl in
      omega (arith, ap length (some-injective (48 ∷ []) tmp (sym stop ∙ e)))
  | inr more ↦
      let loop : digits_in_tmp small base num ≡ digit_loop 65 small base num = rw more refl in
      digit_loop-length small base 65 41 num tmp (omega arith)
        (omega (arith, pow-le-pow_left {n = 3} {m = base} h 41)) (sym loop ∙ e)
]
