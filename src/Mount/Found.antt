-- ===== src/Mount/Found.antt =====
-- The list of types and the search of `mount_fs`.
use system_studying.Base.{
  ℕ, zero, suc, ◌<◌, ◌≡◌, ◌≢◌, refl, arith, Bool, Bool-cases, inl, inr, false, some, List, [], ◌∷◌,
  length, Distinct, ◌==◌, if◌then◌else◌,
}
use system_studying.Links.{Addr}
use system_studying.Shell.{same_text}
use system_studying.Mount.{Types, find_type, mount_fs}

-- From `a` the words `next` lead through `xs` to `NULL`.
abbrev pub Leads : (Addr → Addr) → Addr → List Addr → Type 0
Leads next a [] = next a ≡ 0
Leads next a (x ∷ xs) = (next a ≡ x) × (x ≢ 0) × Leads next x xs

-- The types behind the first, in order.
pub record IsTypes (t : Types) (xs : List Addr) : Type 0 where
  pub leads : Leads t.next t.filesystem xs
  pub distinct : Distinct (t.filesystem ∷ xs)
  pub real : t.filesystem ≢ 0

-- The first that passes the test, or 0.
abbrev pub first_match : (Addr → Bool) → List Addr → Addr
first_match test [] = 0
first_match test (x ∷ xs) = if test x then x else first_match test xs

pub find_type-first_match :
    (fuel : ℕ) (test : Addr → Bool) (next : Addr → Addr) (a : Addr) (xs : List Addr)
    → a ≢ 0
    → Leads next a xs
    → suc (length xs) < fuel
    → find_type fuel test next a ≡ some (first_match test (a ∷ xs))
unfolding find_type
find_type-first_match zero test next a xs ne h k = absurd (omega arith)
find_type-first_match (suc zero) test next a xs ne h k = absurd (omega arith)
find_type-first_match (suc (suc f)) test next a [] ne h k =
    let real : (a == 0) ≡ false = ground arith in
    elim (Bool-cases (test a)) [ inl e ↦ rw (real, e) refl | inr e ↦ rw (real, e, h) refl ]
find_type-first_match (suc (suc f)) test next a (x ∷ xs) ne h k =
    let real : (a == 0) ≡ false = ground arith in
    elim (Bool-cases (test a)) [
      | inl e ↦ rw (real, e) refl
      | inr e ↦
          rw (real, e, h.0) (find_type-first_match (suc f) test next x xs h.1 h.2 (omega arith))
    ]

-- `mount_fs` reads the superblock by the first type of the name.
pub mount_fs-first_match :
    {B : Type 0} (fuel : ℕ) (read_superblock : Addr → B) (null : B) (name : List ℕ) (t : Types)
    (xs : List Addr)
    → IsTypes t xs
    → suc (length xs) < fuel
    → mount_fs fuel read_superblock null name t ≡ (
        let p = first_match (λ p. same_text (t.name p) name) (t.filesystem ∷ xs) in
        some (if p == 0 then null else read_superblock p))
unfolding mount_fs
mount_fs-first_match fuel read_superblock null name t xs h k =
    rw
      (find_type-first_match fuel (λ p. same_text (t.name p) name) t.next t.filesystem xs h.real
        h.leads k)
      refl
