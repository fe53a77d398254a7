-- ===== src/Mount/Registered.antt =====
-- What is registered can be mounted, until it is taken out again.
use system_studying.Base.{
  ℕ, suc, ◌<◌, ◌≡◌, ◌≢◌, refl, ap, ◌∙◌, arith, true, false, some, List, [], ◌∷◌, ◌++◌, length, All,
  Fresh, ◌==◌, ◌&&◌,
}
use system_studying.Links.{Addr}
use system_studying.Shell.{same_text}
use system_studying.Mount.{Types, mount_fs, linked_type, register_filesystem, unregister_filesystem}
use system_studying.Mount.Found.{IsTypes, find_type-first_match, mount_fs-first_match}
use system_studying.Mount.Linked.{
  linked_type-IsTypes, no_match, Distinct-without, unregister_from-Unlinks,
}

-- `register_filesystem` of a new type whose name no other has puts it behind the first.
pub register_filesystem-IsTypes :
    (fuel : ℕ) (fs : Addr) (t : Types) (xs : List Addr)
    → IsTypes t xs
    → fs ≢ 0
    → Fresh fs (t.filesystem ∷ xs)
    → All (λ p. same_text (t.name fs) (t.name p) ≡ false) (t.filesystem ∷ xs)
    → suc (length xs) < fuel
    → (register_filesystem fuel fs t ≡ some (1, linked_type fs t))
      × IsTypes (linked_type fs t) (fs ∷ xs)
unfolding register_filesystem
register_filesystem-IsTypes fuel fs t xs h real f new k =
    let test = λ (p : Addr). same_text (t.name fs) (t.name p) in
    (
      rw
          (
            find_type-first_match fuel test t.next t.filesystem xs h.real h.leads k,
            no_match test (t.filesystem ∷ xs) new,
          )
          refl,
      linked_type-IsTypes t fs xs h real f,
    )

-- `unregister_filesystem` of a type in the list, behind the first, takes out just this type, within a
-- round for each type up to it.
pub unregister_filesystem-IsTypes :
    (fuel : ℕ) (fs : Addr) (t : Types) (xs ys : List Addr)
    → IsTypes t (xs ++ fs ∷ ys)
    → length xs < fuel
    → (t' : Types) × (unregister_filesystem fuel fs t ≡ some (1, t'))
      × (t'.name ≡ t.name)
      × IsTypes t' (xs ++ ys)
unfolding unregister_filesystem
unregister_filesystem-IsTypes fuel fs t xs ys h k =
    let (next', run, leads, others) =
      unregister_from-Unlinks fuel t.filesystem fs t xs ys h.leads h.distinct k in
    (
      record t { next = next' },
      run,
      refl,
      record {
        leads = leads;
        distinct = Distinct-without (t.filesystem ∷ xs) fs ys h.distinct;
        real = h.real;
      },
    )

same_text_refl : (s : List ℕ) → same_text s s ≡ true
same_text_refl [] = refl
same_text_refl (c ∷ s) = let same : (c == c) ≡ true = ground arith in rw same (same_text_refl s)

same_text_comm : (s t : List ℕ) → same_text s t ≡ same_text t s
same_text_comm [] [] = refl
same_text_comm [] (d ∷ t) = refl
same_text_comm (c ∷ s) [] = refl
same_text_comm (c ∷ s) (d ∷ t) =
    let turned : (c == d) ≡ (d == c) = ground arith in
    rw turned (ap (λ b. (d == c) && b) (same_text_comm s t))

-- A type that is registered is mounted by its name, and taking it out again restores the list: it is new,
-- not `NULL`, and no other has its name.
pub registered-mounts :
    {B : Type 0} (fuel : ℕ) (read_superblock : Addr → B) (null : B) (fs : Addr) (t : Types)
    (xs : List Addr)
    → IsTypes t xs
    → fs ≢ 0
    → Fresh fs (t.filesystem ∷ xs)
    → All (λ p. same_text (t.name fs) (t.name p) ≡ false) (t.filesystem ∷ xs)
    → suc (suc (length xs)) < fuel
    → (t1 : Types) × (t2 : Types) × (register_filesystem fuel fs t ≡ some (1, t1))
      × (mount_fs fuel read_superblock null (t.name fs) t1 ≡ some (read_superblock fs))
      × (unregister_filesystem fuel fs t1 ≡ some (1, t2))
      × IsTypes t2 xs
registered-mounts fuel read_superblock null fs t xs h real f new k =
    let (run, h1) = register_filesystem-IsTypes fuel fs t xs h real f new (omega (arith, k)) in
    let t1 = linked_type fs t in
    let head_apart : same_text (t.name t.filesystem) (t.name fs) ≡ false =
      same_text_comm (t.name t.filesystem) (t.name fs) ∙ new.0 in
    let self = same_text_refl (t.name fs) in
    let is_real : (fs == 0) ≡ false = ground arith in
    let (t2, out, same, h2) =
      unregister_filesystem-IsTypes fuel fs t1 [] xs h1 (omega (arith, k)) in
    (
      t1,
      t2,
      run,
      mount_fs-first_match fuel read_superblock null (t.name fs) t1 (fs ∷ xs) h1 k
          ∙ rw (head_apart, self, is_real) refl,
      out,
      h2,
    )
