-- ===== src/Memory/Alloc/Window.antt =====
-- What the test of the innermost loop of `alloc_pages` says of the single bits.
use Prim.Native.Nat.{bit_and, max}
use native.Mathlib.Decide.{dec_lt}
use system_studying.Base.{
  ℕ, zero, suc, ◌+◌, ◌-◌, ◌*◌, ◌/◌, ◌%◌, ◌^◌, ◌≤◌, ◌<◌, ◌≡◌, sym, ap, ◌∙◌, arith, some,
}
use system_studying.Base.Bits.{
  bit, bit-zero, bit-or, bit-and, bit-mask, bit-shr, bit-shl, bit-mod, bit-lt-two,
}
use system_studying.Memory.Alloc.{window, find_shift}

-- The bit of page `p` in the bit map.
abbrev pub page_bit : (ℕ → ℕ) → ℕ → ℕ
page_bit bits p = bit (bits (p / 64)) (p % 64)

-- A low part that is all clear.
bit_of_masked : (w n i : ℕ) → bit_and w (2 ^ n - 1) ≡ 0 → i < n → bit w i ≡ 0
bit_of_masked w n i e h = omega (
  arith,
  bit-and w (2 ^ n - 1) i,
  bit-mask n i h,
  bit-lt-two w i,
  ap (λ t. bit t i) e,
  bit-zero i,
)

-- Digit `i` of the window at `k` is digit `k + i` of the first word, or of the second one.
window_of_low : (w w' k i : ℕ) → k + i < 64 → bit (window w w' k) i ≡ 0 → bit w (k + i) ≡ 0
window_of_low w w' zero i h e = ap (bit w) (let q : 0 + i ≡ i = omega arith in q) ∙ e
window_of_low w w' (suc k) i h e =
    let hi = w' * 2 ^ (64 - suc k) % 2 ^ 64 in
    let both : max (bit (w / 2 ^ suc k) i) (bit hi i) ≡ 0 = sym (bit-or (w / 2 ^ suc k) hi i) ∙ e in
    omega (arith, bit-shr (suc k) w i, both)

window_of_high :
    (w w' k i : ℕ)
    → k < 64
    → i < 64
    → 64 ≤ k + i
    → bit (window w w' k) i ≡ 0
    → bit w' (k + i - 64) ≡ 0
window_of_high w w' zero i k h c e = absurd (omega arith)
window_of_high w w' (suc k) i l h c e =
    let b = 64 - suc k in
    let place : i ≡ b + (suc k + i - 64) = omega arith in
    let digit : bit (w' * 2 ^ b % 2 ^ 64) i ≡ bit w' (suc k + i - 64) =
      bit-mod 64 (w' * 2 ^ b) i h ∙ ap (bit (w' * 2 ^ b)) place ∙ bit-shl b w' (suc k + i - 64) in
    let hi = w' * 2 ^ b % 2 ^ 64 in
    let both : max (bit (w / 2 ^ suc k) i) (bit hi i) ≡ 0 = sym (bit-or (w / 2 ^ suc k) hi i) ∙ e in
    omega (arith, digit, both)

module _ (w w' n : ℕ) where
  pub find_shift-bounds :
      (rounds k s : ℕ)
      → find_shift w w' n rounds k ≡ some s
      → (k ≤ s) × (s < k + rounds) × (bit_and (window w w' s) (2 ^ n - 1) ≡ 0)
  unfolding find_shift
  find_shift-bounds zero k s e = absurd (cc)
  find_shift-bounds (suc rounds) k s e = ground (arith, find_shift-bounds rounds (k + 1) s)

-- What `find_shift` finds is a run of clear bits that starts in the first word.
pub window_clear :
    (bits : ℕ → ℕ) (j s n i : ℕ)
    → s < 64
    → n < 64
    → bit_and (window (bits j) (bits (j + 1)) s) (2 ^ n - 1) ≡ 0
    → i < n
    → page_bit bits (j * 64 + s + i) ≡ 0
window_clear bits j s n i hs hn e h =
    let w = bits j in
    let w' = bits (j + 1) in
    let clear : bit (window w w' s) i ≡ 0 = bit_of_masked (window w w' s) n i e h in
    elim (dec_lt (s + i) 64) [
      | yes low ↦
          let word : (j * 64 + s + i) / 64 ≡ j = omega arith in
          let place : (j * 64 + s + i) % 64 ≡ s + i = omega arith in
          rw (word, place) (window_of_low w w' s i low clear)
      | no high ↦
          let word : (j * 64 + s + i) / 64 ≡ j + 1 = omega arith in
          let place : (j * 64 + s + i) % 64 ≡ s + i - 64 = omega arith in
          rw (word, place) (window_of_high w w' s i hs (omega arith) (omega arith) clear)
    ]
