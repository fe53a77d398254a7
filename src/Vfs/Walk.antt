-- ===== src/Vfs/Walk.antt =====
-- Which entry a path names.
use system_studying.Base.{
  ℕ, zero, suc, ◌<◌, ◌≢◌, ◌≡◌, refl, ap, ◌∙◌, arith, false, Option, none, some, List, [], ◌∷◌, ◌++◌,
  append-nil, All, length, replicate, if◌then◌else◌, ◌==◌,
}
use system_studying.Vfs.{walk_on, skip_slashes, next_part, walk_loop, chosen, walk_from, path_walk}

-- A part of a path: a first byte and others, none of them a slash.
pub record Part : Type 0 where
  pub first : ℕ
  pub others : List ℕ
  pub slashes : ℕ

abbrev pub name_of : Part → List ℕ
name_of p = p.first ∷ p.others

abbrev pub IsName : Part → Type 0
IsName p = All (λ c. c ≢ 47) (name_of p)

-- Parts with slashes behind them: one more than the number between two parts.
abbrev pub spell : Part → List Part → List ℕ
spell p [] = name_of p ++ replicate p.slashes 47
spell p (q ∷ ps) = name_of p ++ (replicate (suc p.slashes) 47 ++ spell q ps)

skip_slashes-replicate : (n : ℕ) (s : List ℕ) → skip_slashes (replicate n 47 ++ s) ≡ skip_slashes s
skip_slashes-replicate zero s = refl
skip_slashes-replicate (suc n) s = skip_slashes-replicate n s

skip_slashes-name : (c : ℕ) (s : List ℕ) → c ≢ 47 → skip_slashes (c ∷ s) ≡ c ∷ s
skip_slashes-name c s h =
    let other : (c == 47) ≡ false = ground (arith, h) in
    ap (λ b. if b then skip_slashes s else c ∷ s) other

next_part-name : (n s : List ℕ) → All (λ c. c ≢ 47) n → next_part (n ++ (47 ∷ s)) ≡ (n, 47 ∷ s)
next_part-name [] s h = refl
next_part-name (c ∷ n) s h =
    let other : (c == 47) ≡ false = ground (arith, h.0) in
    ap
      (λ b.
        if b
        then ([], c ∷ (n ++ (47 ∷ s)))
        else (c ∷ (next_part (n ++ (47 ∷ s))).0, (next_part (n ++ (47 ∷ s))).1))
      other
    ∙ ap (λ r. (c ∷ r.0, r.1)) (next_part-name n s h.1)

next_part-end : (n : List ℕ) → All (λ c. c ≢ 47) n → next_part n ≡ (n, [])
next_part-end [] h = refl
next_part-end (c ∷ n) h =
    let other : (c == 47) ≡ false = ground (arith, h.0) in
    ap (λ b. if b then ([], c ∷ n) else (c ∷ (next_part n).0, (next_part n).1)) other
    ∙ ap (λ r. (c ∷ r.0, r.1)) (next_part-end n h.1)

next_part-replicate :
    (n : List ℕ) (k : ℕ)
    → All (λ c. c ≢ 47) n
    → next_part (n ++ replicate k 47) ≡ (n, replicate k 47)
next_part-replicate n zero h = ap next_part (append-nil n) ∙ next_part-end n h
next_part-replicate n (suc k) h = next_part-name n (replicate k 47) h

skip_slashes-nil : (k : ℕ) → skip_slashes (replicate k 47) ≡ []
skip_slashes-nil zero = refl
skip_slashes-nil (suc k) = skip_slashes-nil k

skip_slashes-spell : (q : Part) (ps : List Part) → IsName q → skip_slashes (spell q ps) ≡ spell q ps
skip_slashes-spell q [] h = skip_slashes-name q.first (q.others ++ replicate q.slashes 47) h.0
skip_slashes-spell q (r ∷ ps) h =
    skip_slashes-name q.first (q.others ++ (replicate (suc q.slashes) 47 ++ spell r ps)) h.0

module _ {Entry : Type 0} (lookup : Entry → List ℕ → Option Entry) where
  abbrev in_directory : Entry → Option Entry → Option (Entry × Entry)
  in_directory parent none = none
  in_directory parent (some path) = some (parent, path)

  abbrev below : (Entry → Option (Entry × Entry)) → Option Entry → Option (Entry × Entry)
  below go none = none
  below go (some path) = go path

  -- The entry that the parts name, one after the other, with the directory that it stands in.
  abbrev pub descend : Entry → Part → List Part → Option (Entry × Entry)
  descend parent p [] = in_directory parent (lookup parent (name_of p))
  descend parent p (q ∷ ps) = below (λ path. descend path q ps) (lookup parent (name_of p))

  walk_on-last :
      (f : ℕ) (parent : Entry) (found : Option Entry)
      → walk_on lookup (walk_loop lookup f) parent found [] ≡ some (in_directory parent found)
  walk_on-last f parent none = refl
  walk_on-last f parent (some path) = refl

  walk_on-spell :
      (f : ℕ) (parent : Entry) (q : Part) (ps : List Part) (found : Option Entry)
      → ((path : Entry) → walk_loop lookup f path (spell q ps) ≡ some (descend path q ps))
      → walk_on lookup (walk_loop lookup f) parent found (spell q ps)
        ≡ some (below (λ path. descend path q ps) found)
  walk_on-spell f parent q ps none h = refl
  walk_on-spell f parent q [] (some path) h = h path
  walk_on-spell f parent q (r ∷ ps) (some path) h = h path

  walk_from-spell :
      (fuel : ℕ) (root : Entry) (flags : ℕ) (p : Part) (ps : List Part)
      → walk_from lookup fuel root flags (spell p ps)
        ≡ chosen lookup flags (walk_loop lookup fuel root (spell p ps))
  walk_from-spell fuel root flags p [] = refl
  walk_from-spell fuel root flags p (q ∷ ps) = refl

  walk_loop-descend :
      (fuel : ℕ) (parent : Entry) (p : Part) (ps : List Part)
      → length ps < fuel
      → IsName p
      → All IsName ps
      → walk_loop lookup fuel parent (spell p ps) ≡ some (descend parent p ps)
  unfolding walk_loop
  walk_loop-descend zero parent p ps h n ns = absurd (omega arith)
  walk_loop-descend (suc f) parent p [] h n ns =
      ap (λ r. walk_on lookup (walk_loop lookup f) parent (lookup parent r.0) (skip_slashes r.1))
        (next_part-replicate (name_of p) p.slashes n)
      ∙ ap (walk_on lookup (walk_loop lookup f) parent (lookup parent (name_of p)))
          (skip_slashes-nil p.slashes)
      ∙ walk_on-last f parent (lookup parent (name_of p))
  walk_loop-descend (suc f) parent p (q ∷ ps) h n ns =
      let on = walk_on lookup (walk_loop lookup f) parent in
      ap (λ r. on (lookup parent r.0) (skip_slashes r.1))
        (next_part-name (name_of p) (replicate p.slashes 47 ++ spell q ps) n)
      ∙ ap (on (lookup parent (name_of p)))
          (skip_slashes-replicate p.slashes (spell q ps) ∙ skip_slashes-spell q ps ns.0)
      ∙ walk_on-spell f parent q ps (lookup parent (name_of p))
          (λ path. walk_loop-descend f path q ps (omega arith) ns.0 ns.1)

  -- `path_walk` of a path that names parts, with any number of slashes in front, between them and
  -- at the end, finds what looking up the parts one after the other finds, or the directory that
  -- the last of them stands in if bit 0 of the flags is set; a round for each part is enough.
  pub path_walk-spell :
      (fuel : ℕ) (root : Entry) (flags k : ℕ) (p : Part) (ps : List Part)
      → length ps < fuel
      → IsName p
      → All IsName ps
      → path_walk lookup fuel root flags (replicate k 47 ++ spell p ps)
        ≡ chosen lookup flags (some (descend root p ps))
  unfolding path_walk
  path_walk-spell fuel root flags k p ps h n ns =
      ap (walk_from lookup fuel root flags)
        (skip_slashes-replicate k (spell p ps) ∙ skip_slashes-spell p ps n)
      ∙ walk_from-spell fuel root flags p ps
      ∙ ap (chosen lookup flags) (walk_loop-descend fuel root p ps h n ns)
