-- ===== src/Memory/Pages.antt =====
-- The bit map under `alloc_pages` and `free_pages`: which bits change.
use Prim.Native.Nat.{bit_and, bit_or}
use native.Mathlib.Nat.{one-le-pow, pow-suc, pow-le-pow_right}
use system_studying.Base.{
  ℕ, zero, suc, ◌+◌, ◌/◌, ◌%◌, ◌^◌, ◌<◌, ◌≡◌, refl, sym, ap, ◌∙◌, arith, Bool, Bool-cases, inl, inr,
  ◌==◌, ◌&&◌, if◌then◌else◌, ltb, leb,
}
use system_studying.Base.Bits.{bit-or, bit-and, bit-pow, bit-complement, bit-lt-two}
use system_studying.Links.{update}
use system_studying.Memory.{
  Memory, page_number, mark_used, mark_free, free_page, free_pages_loop, not64, page_init,
  page_clean,
}
use system_studying.Memory.Alloc.{take_page, take_pages}
use system_studying.Memory.Alloc.Window.{page_bit}

-- `|=` with the bit of page `n`.
pub bit-mark_used :
    (m : Memory) (n q : ℕ)
    → page_bit (mark_used n m).bits_map q ≡ (if q == n then 1 else page_bit m.bits_map q)
unfolding mark_used
bit-mark_used m n q = ground (
  arith,
  bit-or (m.bits_map (n / 64)) (2 ^ (n % 64)) (q % 64),
  bit-pow (n % 64) (q % 64),
  bit-lt-two (m.bits_map (n / 64)) (q % 64),
)

pow-lt-word : (k : ℕ) → k < 64 → 2 ^ k < 2 ^ 64
pow-lt-word k h = omega (
  arith,
  pow-le-pow_right {n = 2} (omega arith) {i = suc k} {j = 64} (omega arith),
  pow-suc 2 k,
  one-le-pow k 2 (omega arith),
)

-- `&= ~` with the bit of page `n`.
pub bit-mark_free :
    (m : Memory) (n q : ℕ)
    → page_bit (mark_free n m).bits_map q ≡ (if q == n then 0 else page_bit m.bits_map q)
unfolding mark_free
bit-mark_free m n q = ground (
  arith,
  bit-and (m.bits_map (n / 64)) (not64 (2 ^ (n % 64))) (q % 64),
  bit-complement 64 (2 ^ (n % 64)) (q % 64) (pow-lt-word (n % 64) (omega arith)) (omega arith),
  bit-pow (n % 64) (q % 64),
  bit-lt-two (m.bits_map (n / 64)) (q % 64),
)

-- Neither loop changes the address of a page.
page_number-take_page :
    (z a p q : ℕ) (m : Memory) → page_number (take_page z a p m) q ≡ page_number m q
unfolding take_page
page_number-take_page z a p q m = elim (Bool-cases (q == p)) [
  | inl e ↦ let same : q ≡ p = ground arith in rw same (ground arith)
  | inr e ↦ rw (e, update)
]

page_number-free_page : (p q : ℕ) (m : Memory) → page_number (free_page p m) q ≡ page_number m q
unfolding free_page
page_number-free_page p q m = elim (Bool-cases (q == p)) [
  | inl e ↦ let same : q ≡ p = ground arith in rw same (ground arith)
  | inr e ↦ rw (e, update)
]

pub page_number-take_pages :
    (z a n p q : ℕ) (m : Memory) → page_number (take_pages z a n p m) q ≡ page_number m q
unfolding take_pages
page_number-take_pages z a zero p q m = refl
page_number-take_pages z a (suc n) p q m =
    page_number-take_pages z a n (p + 1) q (take_page z a p m) ∙ page_number-take_page z a p q m

bit-take_page :
    (z a p q : ℕ) (m : Memory)
    → page_bit (take_page z a p m).bits_map q
      ≡ (if q == page_number m p then 1 else page_bit m.bits_map q)
unfolding take_page
bit-take_page z a p q m = bit-mark_used m (page_number m p) q

bit-free_page :
    (p q : ℕ) (m : Memory)
    → page_bit (free_page p m).bits_map q
      ≡ (if q == page_number m p then 0 else page_bit m.bits_map q)
unfolding free_page
bit-free_page p q m = bit-mark_free m (page_number m p) q

-- `q` is one of the `n` pages from `p` on.
abbrev pub in_run : ℕ → ℕ → ℕ → Bool
in_run p n q = leb p q && ltb q (p + n)

-- The `n` pages from `p` on lie where their place in the array says.
abbrev pub Placed : Memory → ℕ → ℕ → Type 0
Placed m p n = (i : ℕ) → i < n → page_number m (p + i) ≡ p + i

Placed-first : (m : Memory) (p n : ℕ) → Placed m p (suc n) → page_number m p ≡ p
Placed-first m p n h =
    let e : p + 0 ≡ p = omega arith in ap (page_number m) (sym e) ∙ h 0 (omega arith) ∙ e

Placed-rest :
    (m m1 : Memory) (p n : ℕ)
    → ((r : ℕ) → page_number m1 r ≡ page_number m r)
    → Placed m p (suc n)
    → Placed m1 (p + 1) n
Placed-rest m m1 p n same h i k =
    let e : p + 1 + i ≡ p + suc i = omega arith in
    same (p + 1 + i) ∙ ap (page_number m) e ∙ h (suc i) (omega arith) ∙ sym e

-- `alloc_pages` sets exactly the bits of the pages that it takes.
pub bit-take_pages :
    (z a n p q : ℕ) (m : Memory)
    → Placed m p n
    → page_bit (take_pages z a n p m).bits_map q
      ≡ (if in_run p n q then 1 else page_bit m.bits_map q)
unfolding take_pages
bit-take_pages z a zero p q m h = ground arith
bit-take_pages z a (suc n) p q m h =
    let m1 = take_page z a p m in
    let first = Placed-first m p n h in
    let rest = Placed-rest m m1 p n (λ r. page_number-take_page z a p r m) h in
    ground (arith, bit-take_pages z a n (p + 1) q m1 rest, bit-take_page z a p q m, first)

-- `free_pages` clears exactly the bits of the pages that it is given.
pub bit-free_pages :
    (n p q : ℕ) (m : Memory)
    → Placed m p n
    → page_bit (free_pages_loop n p m).bits_map q
      ≡ (if in_run p n q then 0 else page_bit m.bits_map q)
unfolding free_pages_loop
bit-free_pages zero p q m h = ground arith
bit-free_pages (suc n) p q m h =
    let m1 = free_page p m in
    let first = Placed-first m p n h in
    let rest = Placed-rest m m1 p n (λ r. page_number-free_page p r m) h in
    ground (arith, bit-free_pages n (p + 1) q m1 rest, bit-free_page p q m, first)

-- A page without references that `page_init` and then `page_clean` are called on has none again,
-- keeps of its attributes and the given flags only PAGE_PT_MAPED, and its zone counts as many links
-- as before.
pub page_clean-page_init :
    (p flags : ℕ) (m : Memory)
    → (m.pages p).reference_count ≡ 0
    → (m.zones (m.pages p).zone_struct).total_pages_link < 2 ^ 64
    → let m' = page_clean p (page_init p flags m) in
      ((m'.pages p).reference_count ≡ 0)
      × ((m'.pages p).attribute ≡ bit_and (bit_or (m.pages p).attribute flags) 1)
      × ((m'.zones (m.pages p).zone_struct).total_pages_link
          ≡ (m.zones (m.pages p).zone_struct).total_pages_link)
unfolding page_init page_clean
page_clean-page_init p flags m e k = ground arith
