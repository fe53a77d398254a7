-- ===== src/Base/Bits.antt =====
-- The binary digits of a word, and what the native operations do to each.
use Prim.Native.Nat.{min, max, digits, bit_and, bit_or}
use Prim.Native.Nat.{bit_and-bitwise, bit_or-bitwise}
use native.Mathlib.Nat.{
  pow-suc, one-le-pow, div-one, div-div-eq-div-mul, div-add-mod', mod-lt, mod-eq_of_lt,
  add-mul-mod_self_right,
}
use system_studying.Base.{
  ℕ, zero, suc, ◌+◌, ◌-◌, ◌*◌, ◌/◌, ◌%◌, ◌^◌, ◌≤◌, ◌<◌, ◌≡◌, refl, ap, sym, ◌∙◌, arith, ◌==◌,
  if◌then◌else◌,
}

-- Digit `i` of `a`, the lowest first.
abbrev pub bit : ℕ → ℕ → ℕ
bit a zero = a % 2
bit a (suc i) = bit (a / 2) i

pub bit-lt-two : (a i : ℕ) → bit a i < 2
bit-lt-two a zero = omega arith
bit-lt-two a (suc i) = bit-lt-two (a / 2) i

pub bit-zero : (i : ℕ) → bit 0 i ≡ 0
bit-zero zero = refl
bit-zero (suc i) = bit-zero i

-- An operation by digits acts on each digit, if it yields digits, and `z` does what `f 0` does.
module _ (z : ℕ → ℕ) (f : ℕ → ℕ → ℕ) where
  bit-digits :
      ((b i : ℕ) → bit (z b) i ≡ f 0 (bit b i))
      → ((x y : ℕ) → x < 2 → y < 2 → f x y < 2)
      → (n a b i : ℕ) → a ≤ n
      → bit (digits z f n a b) i ≡ f (bit a i) (bit b i)
  bit-digits hz hf zero zero b i h = hz b i ∙ ap (λ t. f t (bit b i)) (omega (arith, bit-zero i))
  bit-digits hz hf zero (suc a) b i h = absurd (omega arith)
  bit-digits hz hf (suc n) zero b i h = hz b i ∙ ap (λ t. f t (bit b i)) (omega (arith, bit-zero i))
  bit-digits hz hf (suc n) (suc a) b zero h =
      let small = hf (suc a % 2) (b % 2) (omega arith) (omega arith) in omega arith
  bit-digits hz hf (suc n) (suc a) b (suc i) h =
      let small = hf (suc a % 2) (b % 2) (omega arith) (omega arith) in
      let d = digits z f n (suc a / 2) (b / 2) in
      let half : (d * 2 + f (suc a % 2) (b % 2)) / 2 ≡ d = omega arith in
      rw half (bit-digits hz hf n (suc a / 2) (b / 2) i (omega arith))

pub bit-or : (a b i : ℕ) → bit (bit_or a b) i ≡ max (bit a i) (bit b i)
bit-or a b i =
    ap (λ t. bit t i) (bit_or-bitwise a b)
    ∙ bit-digits (λ y. y) max (λ y j. omega arith) (λ x y p q. omega arith) a a b i (omega arith)

pub bit-and : (a b i : ℕ) → bit (bit_and a b) i ≡ min (bit a i) (bit b i)
bit-and a b i =
    ap (λ t. bit t i) (bit_and-bitwise a b)
    ∙ bit-digits (λ y. 0) min (λ y j. omega (arith, bit-zero j)) (λ x y p q. omega arith) a a b i
        (omega arith)

pub bit-pow : (k i : ℕ) → bit (2 ^ k) i ≡ (if i == k then 1 else 0)
bit-pow zero zero = refl
bit-pow zero (suc i) = ground (arith, bit-zero i)
bit-pow (suc k) zero = ground (arith, pow-suc 2 k)
bit-pow (suc k) (suc i) =
    let half : 2 ^ suc k / 2 ≡ 2 ^ k = omega (arith, pow-suc 2 k) in
    rw half (ground (arith, bit-pow k i))

-- The digits of the complement within `n` digits.
pub bit-complement : (n m i : ℕ) → m < 2 ^ n → i < n → bit (2 ^ n - 1 - m) i ≡ 1 - bit m i
bit-complement zero m i h k = absurd (omega arith)
bit-complement (suc n) m zero h k = omega (arith, pow-suc 2 n)
bit-complement (suc n) m (suc i) h k =
    let half : (2 ^ suc n - 1 - m) / 2 ≡ 2 ^ n - 1 - m / 2 = omega (arith, pow-suc 2 n) in
    rw half (bit-complement n (m / 2) i (omega (arith, pow-suc 2 n)) (omega arith))

-- `2 ^ n - 1` has the digits below `n`.
pub bit-mask : (n i : ℕ) → i < n → bit (2 ^ n - 1) i ≡ 1
bit-mask zero i h = absurd (omega arith)
bit-mask (suc n) zero h = omega (arith, pow-suc 2 n, one-le-pow n 2 (omega arith))
bit-mask (suc n) (suc i) h =
    let half : (2 ^ suc n - 1) / 2 ≡ 2 ^ n - 1 = omega (arith, pow-suc 2 n) in
    rw half (bit-mask n i (omega arith))

pub bit-shr : (k a i : ℕ) → bit (a / 2 ^ k) i ≡ bit a (k + i)
bit-shr zero a i = ap (λ t. bit t i) (div-one a) ∙ ap (bit a) (let e : i ≡ 0 + i = omega arith in e)
bit-shr (suc k) a i =
    let halves : a / 2 ^ suc k ≡ a / 2 / 2 ^ k =
      ap (λ t. a / t) (omega (arith, pow-suc 2 k)) ∙ sym (div-div-eq-div-mul a 2 (2 ^ k)) in
    ap (λ t. bit t i) halves
    ∙ bit-shr k (a / 2) i
    ∙ ap (bit a) (let e : suc (k + i) ≡ suc k + i = omega arith in e)

pub bit-shl : (k a i : ℕ) → bit (a * 2 ^ k) (k + i) ≡ bit a i
bit-shl zero a i =
    ap (λ t. bit t (0 + i)) (let e : a * 2 ^ 0 ≡ a = omega arith in e)
    ∙ ap (bit a) (let e : 0 + i ≡ i = omega arith in e)
bit-shl (suc k) a i =
    let half : a * 2 ^ suc k / 2 ≡ a * 2 ^ k = omega (arith, ap (λ (t : ℕ). a * t) (pow-suc 2 k)) in
    ap (bit (a * 2 ^ suc k)) (let e : suc k + i ≡ suc (k + i) = omega arith in e)
    ∙ ap (λ t. bit t (k + i)) half
    ∙ bit-shl k a i

-- A remainder by `2 ^ n` keeps the digits below `n`.
pub bit-mod : (n a i : ℕ) → i < n → bit (a % 2 ^ n) i ≡ bit a i
bit-mod zero a i h = absurd (omega arith)
bit-mod (suc n) a zero h =
    let q = a / 2 ^ suc n in
    omega (arith, div-add-mod' a (2 ^ suc n), ap (λ (t : ℕ). q * t) (pow-suc 2 n))
bit-mod (suc n) a (suc i) h =
    let q = a / 2 ^ suc n in
    let r = a % 2 ^ suc n in
    let small : r < 2 ^ suc n = mod-lt a (one-le-pow (suc n) 2 (omega arith)) in
    let parts : a / 2 ≡ r / 2 + q * 2 ^ n =
      omega (arith, div-add-mod' a (2 ^ suc n), ap (λ (t : ℕ). q * t) (pow-suc 2 n)) in
    let low : a / 2 % 2 ^ n ≡ r / 2 =
      ap (λ t. t % 2 ^ n) parts
      ∙ add-mul-mod_self_right (r / 2) q (2 ^ n)
      ∙ mod-eq_of_lt (omega (arith, pow-suc 2 n)) in
    ap (λ t. bit t i) (sym low) ∙ bit-mod n (a / 2) i (omega arith)
