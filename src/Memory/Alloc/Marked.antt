-- ===== src/Memory/Alloc/Marked.antt =====
-- What `alloc_pages` returns, and how it accounts for it.
use system_studying.Base.{
  ℕ, zero, suc, ◌+◌, ◌-◌, ◌/◌, ◌^◌, ◌≤◌, ◌<◌, ◌≡◌, sym, ap, subst, ◌∙◌, arith, Bool-cases,
  Option-cases, inl, inr, Option, none, some, ltb, if◌then◌else◌,
}
use system_studying.Base.Int.{ℤ, pos, negsuc}
use system_studying.Memory.{Memory, free_pages, page_number, mark_used, valid_number, page_2m_shift}
use system_studying.Memory.Alloc.{
  Search, at, nowhere, out_of_fuel, take_page, take_pages, find_zone, select, alloc_from,
  alloc_pages,
}
use system_studying.Memory.Alloc.Window.{page_bit}
use system_studying.Memory.Alloc.Find.{Found, find_run-Found}
use system_studying.Memory.Pages.{
  in_run, Placed, bit-take_pages, bit-free_pages, page_number-take_pages,
}

abbrev pub free_count : Memory → ℕ → ℕ
free_count m z = (m.zones z).page_free_count

-- Every free page lies where its place in `pages_struct` says: `init_memory` sets the bits of all
-- pages outside the zones, and writes the addresses of those inside.
abbrev pub IsMapped : Memory → Type 0
IsMapped m = (q : ℕ) → page_bit m.bits_map q ≡ 0 → page_number m q ≡ q

free_count-take_page :
    (z a p : ℕ) (m : Memory)
    → 0 < free_count m z
    → free_count m z < 2 ^ 64
    → free_count (take_page z a p m) z ≡ free_count m z - 1
unfolding take_page mark_used
free_count-take_page z a p m h k = ground arith

free_count-take_pages :
    (z a n p : ℕ) (m : Memory)
    → n ≤ free_count m z
    → free_count m z < 2 ^ 64
    → free_count (take_pages z a n p m) z ≡ free_count m z - n
unfolding take_pages
free_count-take_pages z a zero p m h k = omega arith
free_count-take_pages z a (suc n) p m h k =
    let one = free_count-take_page z a p m (omega arith) k in
    omega (
      arith,
      one,
      free_count-take_pages z a n (p + 1) (take_page z a p m) (omega arith) (omega arith),
    )

-- The `n` pages from `p` on were free, are taken, and are charged to a zone that had as many; no
-- other bit changes.
pub record Allocated (n : ℕ) (m : Memory) (p : ℕ) (m' : Memory) : Type 0 where
  pub was_free : (i : ℕ) → i < n → page_bit m.bits_map (p + i) ≡ 0
  pub now : (q : ℕ) → page_bit m'.bits_map q ≡ (if in_run p n q then 1 else page_bit m.bits_map q)
  pub same_place : (q : ℕ) → page_number m' q ≡ page_number m q
  pub charged : (z : ℕ) × (n ≤ free_count m z) × (free_count m' z ≡ free_count m z - n)

Allocated-take_pages :
    (z a n p : ℕ) (m : Memory)
    → ((i : ℕ) → i < n → page_bit m.bits_map (p + i) ≡ 0)
    → IsMapped m
    → n ≤ free_count m z
    → free_count m z < 2 ^ 64
    → Allocated n m p (take_pages z a n p m)
Allocated-take_pages z a n p m clear mapped enough small = record {
  was_free = clear;
  now = λ q. bit-take_pages z a n p q m (λ i k. mapped (p + i) (clear i k));
  same_place = λ q. page_number-take_pages z a n p q m;
  charged = (z, enough, free_count-take_pages z a n p m enough small);
}

-- The result of a search over zones, or of the whole function.
abbrev pub Outcome : ℕ → Memory → Option (ℕ × Memory) → Type 0
Outcome n m none = Unit
Outcome n m (some (p, m')) = Allocated n m p m'

module _ (n : ℕ) (m : Memory) (small : n < 64) (mapped : IsMapped m)
    (counts : (z : ℕ) → free_count m z < 2 ^ 64) where
  zone-Outcome :
      (i a : ℕ) (rest : Option (ℕ × Memory)) (r : Search) (j : ℕ)
      → n ≤ free_count m i
      → Found m.bits_map n j r
      → Outcome n m rest
      → Outcome n m (elim r [ at page ↦ some (page, take_pages i a n page m) | _ ↦ rest ])
  zone-Outcome i a rest (at p) j h f o = Allocated-take_pages i a n p m f.1 mapped h (counts i)
  zone-Outcome i a rest nowhere j h f o = o
  zone-Outcome i a rest out_of_fuel j h f o = absurd f

  find_zone-Outcome : (a rounds i : ℕ) → Outcome n m (find_zone n a rounds i m)
  unfolding find_zone
  find_zone-Outcome a zero i = tt
  find_zone-Outcome a (suc rounds) i =
      let z = m.zones i in
      let first = z.zone_start_address / 2 ^ page_2m_shift in
      let last = z.zone_end_address / 2 ^ page_2m_shift in
      let rest = find_zone-Outcome a rounds (i + 1) in
      elim (Bool-cases (ltb z.page_free_count n)) [
        | inl few ↦ rw few rest
        | inr enough ↦
            let found = find_run-Found m.bits_map n last (last + 2) first small (omega arith) in
            rw enough (zone-Outcome i a _ _ first (ground arith) found rest)
      ]

  pub alloc_from-Outcome : (s : Option (ℕ × ℕ × ℕ)) → Outcome n m (alloc_from n s m)
  alloc_from-Outcome none = tt
  alloc_from-Outcome (some (first, rounds, a)) = find_zone-Outcome a rounds first

valid_number-bounds : (number : ℤ) (n : ℕ) → valid_number number ≡ some n → (0 < n) × (n < 64)
valid_number-bounds (pos zero) n e = absurd (cc)
valid_number-bounds (pos (suc k)) n e = ground arith
valid_number-bounds (negsuc k) n e = absurd (cc)

-- If `alloc_pages` returns the page `p`, the number asked for was from 1 to 63, that many pages from
-- `p` on were free and are now taken, no other bit of the map has changed, and some zone that
-- counted as many free pages counts so many fewer.
pub alloc_pages-Allocated :
    (zones_select : ℕ) (number : ℤ) (m : Memory) {p : ℕ} {m' : Memory}
    → IsMapped m
    → ((z : ℕ) → free_count m z < 2 ^ 64)
    → alloc_pages zones_select number m ≡ some (p, m')
    → (n : ℕ) × (valid_number number ≡ some n) × (0 < n) × (n < 64) × Allocated n m p m'
unfolding alloc_pages
alloc_pages-Allocated zones_select number m {p} {m'} mapped counts e =
    elim (Option-cases (valid_number number)) [
      | inl bad ↦ absurd (let none_is : none ≡ some (p, m') = rw bad at e in cc)
      | inr good ↦
          let n = good.0 in
          let (low, high) = valid_number-bounds number n good.1 in
          let run : alloc_from n (select zones_select m) m ≡ some (p, m') = rw good.1 at e in
          (
            n,
            good.1,
            low,
            high,
            subst (Outcome n m) run
                (alloc_from-Outcome n m high mapped counts (select zones_select m)),
          )
    ]

restored :
    (n p q : ℕ) {m m' : Memory}
    → Allocated n m p m'
    → (if in_run p n q then 0 else page_bit m'.bits_map q) ≡ page_bit m.bits_map q
restored n p q {m} a = elim (Bool-cases (in_run p n q)) [
  | inl inside ↦
      let le : p ≤ q = ground arith in
      let lt : q < p + n = ground arith in
      let place : p + (q - p) ≡ q = omega arith in
      rw inside (sym (a.was_free (q - p) (omega arith)) ∙ ap (page_bit m.bits_map) place)
  | inr outside ↦ rw outside (a.now q ∙ rw outside)
]

-- `free_pages` of what `alloc_pages` has returned, with the same number, restores the bit map.
pub free_pages-alloc_pages :
    (zones_select : ℕ) (number : ℤ) (m : Memory) {p : ℕ} {m' : Memory}
    → IsMapped m
    → ((z : ℕ) → free_count m z < 2 ^ 64)
    → alloc_pages zones_select number m ≡ some (p, m')
    → (q : ℕ) → page_bit (free_pages (some p) number m').bits_map q ≡ page_bit m.bits_map q
unfolding free_pages
free_pages-alloc_pages zones_select number m {p} {m'} mapped counts e q =
    let (n, valid, low, high, a) = alloc_pages-Allocated zones_select number m mapped counts e in
    let placed : Placed m' p n = λ i k. a.same_place (p + i) ∙ mapped (p + i) (a.was_free i k) in
    rw valid (bit-free_pages n p q m' placed ∙ restored n p q a)
