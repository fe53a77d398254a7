-- ===== src/Fat/Read/Copies.antt =====
-- Copies of bytes into memory, and where the copies of os/kernel/fat32.c take place.
use system_studying.Base.{
  ℕ, ◌+◌, ◌-◌, ◌%◌, ◌^◌, ◌≤◌, ◌<◌, ◌≡◌, ◌⊎◌, inl, inr, ap, ◌∙◌, arith, true, false, ltb, leb,
  ltb→lt, Bool-cases,
}
use system_studying.Fat.Data.{task_size, copied, copies}

-- `mem'` has the bytes `from` at `to`, and is `mem` elsewhere.
pub record Holds (mem mem' : ℕ → ℕ) (to n : ℕ) (from : ℕ → ℕ) : Type 0 where
  pub inside : (i : ℕ) → i < n → mem' (to + i) ≡ from i
  pub outside : (a : ℕ) → (a < to) ⊎ (to + n ≤ a) → mem' a ≡ mem a

copied_outside :
    (mem : ℕ → ℕ) (to n : ℕ) (from : ℕ → ℕ) (a : ℕ)
    → (a < to) ⊎ (to + n ≤ a)
    → copied mem to n from a ≡ mem a
unfolding copied
copied_outside mem to n from a (inl h) = let low : leb to a ≡ false = ground arith in rw low
copied_outside mem to n from a (inr h) = elim (Bool-cases (leb to a)) [
  | inr low ↦ rw low
  | inl above ↦ let high : ltb a (to + n) ≡ false = ground arith in rw (above, high)
]

pub copied-Holds :
    (mem : ℕ → ℕ) (to n : ℕ) (from : ℕ → ℕ) → Holds mem (copied mem to n from) to n from
unfolding copied
copied-Holds mem to n from = record {
  inside = λ i h.
      let low : leb to (to + i) ≡ true = ground arith in
      let high : ltb (to + i) (to + n) ≡ true = ground arith in
      rw (low, high) (ap from (omega arith));
  outside = λ a h. copied_outside mem to n from a h;
}

apart_after : (to n k a : ℕ) → (a < to) ⊎ (to + (n + k) ≤ a) → (a < to + n) ⊎ (to + n + k ≤ a)
apart_after to n k a (inl h) = inl (omega (arith, h))
apart_after to n k a (inr h) = inr (omega (arith, h))

apart_before : (to n k a : ℕ) → (a < to) ⊎ (to + (n + k) ≤ a) → (a < to) ⊎ (to + n ≤ a)
apart_before to n k a (inl h) = inl h
apart_before to n k a (inr h) = inr (omega (arith, h))

pub Holds-from :
    (mem mem' : ℕ → ℕ) (to n : ℕ) (from from' : ℕ → ℕ)
    → ((i : ℕ) → i < n → from i ≡ from' i)
    → Holds mem mem' to n from
    → Holds mem mem' to n from'
Holds-from mem mem' to n from from' same h = record {
  inside = λ i lt. h.inside i lt ∙ same i lt;
  outside = h.outside;
}

-- Two pieces one behind the other.
pub Holds-append :
    (m0 m1 m2 : ℕ → ℕ) (to n k : ℕ) (from : ℕ → ℕ)
    → Holds m0 m1 to n from
    → Holds m1 m2 (to + n) k (λ i. from (n + i))
    → Holds m0 m2 to (n + k) from
Holds-append m0 m1 m2 to n k from h1 h2 = record {
  inside = λ i h. elim (Bool-cases (ltb i n)) [
    | inl first ↦
        let below : i < n = ltb→lt i n first in
        h2.outside (to + i) (inl (omega (arith, below))) ∙ h1.inside i below
    | inr second ↦
        let above : n ≤ i = ground arith in
        let place : to + i ≡ to + n + (i - n) = omega (arith, above) in
        let byte : n + (i - n) ≡ i = omega (arith, above) in
        ap m2 place ∙ h2.inside (i - n) (omega (arith, above, h)) ∙ ap from byte
  ];
  outside = λ a h. h2.outside a (apart_after to n k a h) ∙ h1.outside a (apart_before to n k a h);
}

-- The kernel, or memory of the user: every piece is copied.
abbrev pub Reachable : ℕ → ℕ → Type 0
Reachable buf n = (task_size ≤ buf) ⊎ (buf + n < 2 ^ 47)

pub copies-Reachable : (buf n k : ℕ) → Reachable buf n → k ≤ n → copies buf k ≡ true
copies-Reachable buf n k (inl h) le =
    let kernel : ltb buf task_size ≡ false = ground arith in rw kernel
copies-Reachable buf n k (inr h) le = elim (Bool-cases (ltb buf task_size)) [
  | inr kernel ↦ rw kernel
  | inl user ↦
      let fits : leb ((buf + k) % 2 ^ 64) task_size ≡ true = ground arith in rw (user, fits)
]

pub Reachable-rest : (buf n l : ℕ) → Reachable buf n → l ≤ n → Reachable (buf + l) (n - l)
Reachable-rest buf n l (inl h) le = inl (omega (arith, h))
Reachable-rest buf n l (inr h) le = inr (omega (arith, h, le))

pub Holds-same :
    (mem mem' mem2 : ℕ → ℕ) (to n : ℕ) (from : ℕ → ℕ)
    → ((a : ℕ) → mem2 a ≡ mem' a)
    → Holds mem mem' to n from
    → Holds mem mem2 to n from
Holds-same mem mem' mem2 to n from same h = record {
  inside = λ i lt. same (to + i) ∙ h.inside i lt;
  outside = λ a out. same a ∙ h.outside a out;
}
