-- ===== src/Mount/Linked.antt =====
-- The list of types with one more behind the first, and with one less.
use system_studying.Base.{
  ℕ, zero, suc, ◌<◌, ◌≡◌, ◌≢◌, refl, sym, ap, ◌∙◌, arith, Bool, true, false, some, List, [], ◌∷◌,
  ◌++◌, length, All, All-mono, All-right, Fresh, Distinct, Distinct-split, Distinct-append, ◌==◌,
}
use system_studying.Links.{Addr, update}
use system_studying.Mount.{Types, linked_type, unregister_from}
use system_studying.Mount.Found.{Leads, IsTypes, first_match}

pub Leads-update :
    (next : Addr → Addr) (b v a : Addr) (xs : List Addr)
    → Fresh b (a ∷ xs)
    → Leads next a xs
    → Leads (update next b v) a xs
unfolding update
Leads-update next b v a [] f h = let other : (a == b) ≡ false = ground (arith, f.0) in rw other h
Leads-update next b v a (x ∷ xs) f h =
    let other : (a == b) ≡ false = ground (arith, f.0) in
    (rw other h.0, h.1, Leads-update next b v x xs f.1 h.2)

pub update_at : (next : Addr → Addr) (b v : Addr) → update next b v b ≡ v
unfolding update
update_at next b v = let same : (b == b) ≡ true = ground arith in rw same refl

pub update_other : (next : Addr → Addr) (b v a : Addr) → a ≢ b → update next b v a ≡ next a
unfolding update
update_other next b v a ne = let other : (a == b) ≡ false = ground arith in rw other refl

Leads-linked :
    (next : Addr → Addr) (a fs : Addr) (xs : List Addr)
    → fs ≢ 0
    → Fresh fs (a ∷ xs)
    → Distinct (a ∷ xs)
    → Leads next a xs
    → Leads (update (update next fs (next a)) a fs) a (fs ∷ xs)
Leads-linked next a fs [] real f d h = (
  update_at (update next fs (next a)) a fs,
  real,
  update_other (update next fs (next a)) a fs fs f.0 ∙ update_at next fs (next a) ∙ h,
)
Leads-linked next a fs (x ∷ xs) real f d h = (
  update_at (update next fs (next a)) a fs,
  real,
  (
    update_other (update next fs (next a)) a fs fs f.0 ∙ update_at next fs (next a) ∙ h.0,
    h.1,
    Leads-update (update next fs (next a)) a fs x xs d.0
        (Leads-update next fs (next a) x xs f.1 h.2),
  ),
)

pub linked_type-IsTypes :
    (t : Types) (fs : Addr) (xs : List Addr)
    → IsTypes t xs
    → fs ≢ 0
    → Fresh fs (t.filesystem ∷ xs)
    → IsTypes (linked_type fs t) (fs ∷ xs)
linked_type-IsTypes t fs xs h real f = record {
  leads = Leads-linked t.next t.filesystem fs xs real f h.distinct h.leads;
  distinct = (((λ e. f.0 (sym e)), h.distinct.0), (f.1, h.distinct.1));
  real = h.real;
}

pub no_match :
    (test : Addr → Bool) (xs : List Addr) → All (λ x. test x ≡ false) xs → first_match test xs ≡ 0
no_match test [] h = refl
no_match test (x ∷ xs) h = rw h.0 (no_match test xs h.1)

pub Distinct-without :
    (xs : List Addr) (x : Addr) (ys : List Addr) → Distinct (xs ++ x ∷ ys) → Distinct (xs ++ ys)
Distinct-without xs x ys h =
    let (dx, dy, apart) = Distinct-split xs (x ∷ ys) h in
    Distinct-append xs ys dx dy.1
      (All-mono (λ a. Fresh a (x ∷ ys)) (λ a. Fresh a ys) xs (λ a f. f.1) apart)

Leads-unlinked :
    (next : Addr → Addr) (a fs : Addr) (ys : List Addr)
    → Distinct (a ∷ fs ∷ ys)
    → Leads next a (fs ∷ ys)
    → Leads (update (update next a (next (next a))) fs 0) a ys
Leads-unlinked next a fs [] d h =
    update_other (update next a (next (next a))) fs 0 a d.0.0
    ∙ update_at next a (next (next a))
    ∙ ap next h.0
    ∙ h.2
Leads-unlinked next a fs (y ∷ ys) d h = (
  update_other (update next a (next (next a))) fs 0 a d.0.0
      ∙ update_at next a (next (next a))
      ∙ ap next h.0
      ∙ h.2.0,
  h.2.1,
  Leads-update (update next a (next (next a))) fs 0 y ys d.1.0
      (Leads-update next a (next (next a)) y ys d.0.1 h.2.2),
)

-- The result of the loop, which changes the word `next` of no other type.
abbrev pub Unlinks : ℕ → Addr → Addr → Types → List Addr → List Addr → Type 0
Unlinks fuel a fs t xs ys =
    (next' : Addr → Addr) × (unregister_from fuel a fs t ≡ some (1, record t { next = next' }))
    × Leads next' a (xs ++ ys)
    × ((c : Addr) → Fresh c (a ∷ xs ++ fs ∷ ys) → next' c ≡ t.next c)

pub unregister_from-Unlinks :
    (fuel : ℕ) (a fs : Addr) (t : Types) (xs ys : List Addr)
    → Leads t.next a (xs ++ fs ∷ ys)
    → Distinct (a ∷ xs ++ fs ∷ ys)
    → length xs < fuel
    → Unlinks fuel a fs t xs ys
unfolding unregister_from
unregister_from-Unlinks zero a fs t xs ys h d k = absurd (omega arith)
unregister_from-Unlinks (suc f) a fs t [] ys h d k =
    let more : (t.next a == 0) ≡ false = ground (arith, h.0, h.1) in
    let here : (t.next a == fs) ≡ true = ground (arith, h.0) in
    (
      update (update t.next a (t.next (t.next a))) fs 0,
      rw (more, here) refl,
      Leads-unlinked t.next a fs ys d h,
      λ c fresh.
          update_other (update t.next a (t.next (t.next a))) fs 0 c fresh.1.0
          ∙ update_other t.next a (t.next (t.next a)) c fresh.0,
    )
unregister_from-Unlinks (suc f) a fs t (x ∷ xs) ys h d k =
    let more : (t.next a == 0) ≡ false = ground (arith, h.0, h.1) in
    let apart : x ≢ fs = (All-right (λ y. x ≢ y) xs (fs ∷ ys) d.1.0).0 in
    let later : (t.next a == fs) ≡ false = ground (arith, h.0, apart) in
    let (next', run, leads, others) =
      unregister_from-Unlinks f x fs t xs ys h.2 d.1 (omega arith) in
    (
      next',
      rw (more, later) (ap (λ b. unregister_from f b fs t) h.0 ∙ run),
      (others a d.0 ∙ h.0, h.1, leads),
      λ c fresh. others c fresh.1,
    )
