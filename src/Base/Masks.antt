-- ===== src/Base/Masks.antt =====
-- Masks of low bits, from the single digits: a word is known by its digits.
use Prim.Native.Nat.{bit_and, bit_or}
use native.Mathlib.Nat.{pow-suc, one-le-pow, mod-lt}
use system_studying.Base.{
  ℕ, zero, suc, ◌+◌, ◌-◌, ◌*◌, ◌/◌, ◌%◌, ◌^◌, ◌≤◌, ◌<◌, ◌≡◌, sym, ap, ◌∙◌, arith,
}
use system_studying.Base.Bits.{bit, bit-zero, bit-lt-two, bit-or, bit-and, bit-mask, bit-mod}
use native.Mathlib.Decide.{dec_lt}

eq_of_bits_below : (n a b : ℕ) → a ≤ n → b ≤ n → ((i : ℕ) → bit a i ≡ bit b i) → a ≡ b
eq_of_bits_below zero a b p q h = omega arith
eq_of_bits_below (suc n) zero b p q h = elim (dec_lt 0 b) [
  | yes pos ↦
      omega (arith, eq_of_bits_below n 0 (b / 2) (omega arith) (omega arith) (λ i. h (suc i)), h 0)
  | no none ↦ omega arith
]
eq_of_bits_below (suc n) (suc a) b p q h = omega (
  arith,
  eq_of_bits_below n (suc a / 2) (b / 2) (omega arith) (omega arith) (λ i. h (suc i)),
  h 0,
)

pub eq_of_bits : (a b : ℕ) → ((i : ℕ) → bit a i ≡ bit b i) → a ≡ b
eq_of_bits a b h = eq_of_bits_below (a + b) a b (omega arith) (omega arith) h

-- A number below `2 ^ n` has no digit from `n` on.
pub bit-high : (n a i : ℕ) → a < 2 ^ n → n ≤ i → bit a i ≡ 0
bit-high zero a i h k = let none : a ≡ 0 = omega arith in ap (λ t. bit t i) none ∙ bit-zero i
bit-high (suc n) a zero h k = absurd (omega arith)
bit-high (suc n) a (suc i) h k = bit-high n (a / 2) i (omega (arith, pow-suc 2 n)) (omega arith)

-- A multiple of `2 ^ n` has no digit below `n`.
pub bit-low : (n a i : ℕ) → i < n → bit (a * 2 ^ n) i ≡ 0
bit-low zero a i h = absurd (omega arith)
bit-low (suc n) a zero h = omega (arith, ap (λ (t : ℕ). a * t) (pow-suc 2 n))
bit-low (suc n) a (suc i) h =
    let half : a * 2 ^ suc n / 2 ≡ a * 2 ^ n = omega (arith, ap (λ (t : ℕ). a * t) (pow-suc 2 n)) in
    ap (λ t. bit t i) half ∙ bit-low n a i (omega arith)

-- `a & (2^n - 1)` is the remainder.
pub bit_and-mask : (n a : ℕ) → bit_and a (2 ^ n - 1) ≡ a % 2 ^ n
bit_and-mask n a = eq_of_bits (bit_and a (2 ^ n - 1)) (a % 2 ^ n) λ i. elim (dec_lt i n) [
  | yes low ↦
      omega (arith, bit-and a (2 ^ n - 1) i, bit-mask n i low, bit-mod n a i low, bit-lt-two a i)
  | no high ↦ omega (
    arith,
    bit-and a (2 ^ n - 1) i,
    bit-high n (2 ^ n - 1) i (omega (arith, one-le-pow n 2 (omega arith))) (omega arith),
    bit-high n (a % 2 ^ n) i (mod-lt a (one-le-pow n 2 (omega arith))) (omega arith),
  )
]

-- The low `n` bits of `x & (h << n) | v & (2^n - 1)` are those of `v`.
pub low-merge :
    (n h x v : ℕ)
    → bit_and (bit_or (bit_and x (h * 2 ^ n)) (bit_and v (2 ^ n - 1))) (2 ^ n - 1) ≡ v % 2 ^ n
low-merge n h x v =
    bit_and-mask n (bit_or (bit_and x (h * 2 ^ n)) (bit_and v (2 ^ n - 1)))
    ∙ eq_of_bits (bit_or (bit_and x (h * 2 ^ n)) (bit_and v (2 ^ n - 1)) % 2 ^ n) (v % 2 ^ n) λ i.
      elim (dec_lt i n) [
        | yes low ↦ omega (
          arith,
          bit-mod n (bit_or (bit_and x (h * 2 ^ n)) (bit_and v (2 ^ n - 1))) i low,
          bit-or (bit_and x (h * 2 ^ n)) (bit_and v (2 ^ n - 1)) i,
          bit-and x (h * 2 ^ n) i,
          bit-low n h i low,
          bit-and v (2 ^ n - 1) i,
          bit-mask n i low,
          bit-mod n v i low,
          bit-lt-two v i,
        )
        | no high ↦
            let small = one-le-pow n 2 (omega arith) in
            bit-high n (bit_or (bit_and x (h * 2 ^ n)) (bit_and v (2 ^ n - 1)) % 2 ^ n) i
              (mod-lt (bit_or (bit_and x (h * 2 ^ n)) (bit_and v (2 ^ n - 1))) small) (omega arith)
            ∙ sym (bit-high n (v % 2 ^ n) i (mod-lt v small) (omega arith))
      ]
