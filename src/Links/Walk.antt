-- ===== src/Links/Walk.antt =====
-- The loop `while (test(tmp)) tmp = list_next(tmp)` of the run queue and of the timers.
use mathlib.Core.List.{Perm, perm_middle}
use system_studying.Base.{
  ℕ, zero, suc, ◌<◌, ◌≡◌, refl, Bool, true, false, Bool-cases, Option, none, some, List, [], ◌∷◌,
  ◌++◌, arith, length, if◌then◌else◌, Fresh, append-nil, inl, inr, ap, sym, subst, ◌∙◌,
}
use system_studying.Links.{Addr, Links, list_next, list_add_before, list_add_behind}
use system_studying.Links.Ring.{Chain, IsRing}
use system_studying.Links.Ops.{list_next-eq, before-head, behind-head, before-at, behind-at}

-- `none` means that the fuel ran out.
unfoldable pub walk : ℕ → (Addr → Bool) → Links → Addr → Option Addr
walk zero test s tmp = none
walk (suc f) test s tmp = elim (test tmp) [
  | true ↦ walk f test s (list_next tmp s)
  | false ↦ some tmp
]

module _ (test : Addr → Bool) where
  -- The elements before the first that fails the test, and the others.
  abbrev pub passed : List Addr → List Addr
  passed [] = []
  passed (x ∷ xs) = if test x then x ∷ passed xs else []

  abbrev pub left : List Addr → List Addr
  left [] = []
  left (x ∷ xs) = if test x then left xs else x ∷ xs

  pub passed-append-left : (xs : List Addr) → passed xs ++ left xs ≡ xs
  passed-append-left [] = refl
  passed-append-left (x ∷ xs) = elim (Bool-cases (test x)) [
    | inl e ↦ rw e (ap (λ l. x ∷ l) (passed-append-left xs))
    | inr e ↦ rw e
  ]

abbrev pub first_or : Addr → List Addr → Addr
first_or l [] = l
first_or l (x ∷ xs) = x

walk-step :
    (f : ℕ) (test : Addr → Bool) (s : Links) (t : Addr)
    → test t ≡ true
    → walk (suc f) test s t ≡ walk f test s (s.next t)
unfolding walk
walk-step f test s t e = rw (e, walk) (ap (walk f test s) (list_next-eq t s))

walk-stop :
    (f : ℕ) (test : Addr → Bool) (s : Links) (t : Addr)
    → test t ≡ false
    → walk (suc f) test s t ≡ some t
unfolding walk
walk-stop f test s t e = rw (e, walk)

-- The loop stops at the first element that fails the test, or at the head.
pub walk-left :
    (f : ℕ) (test : Addr → Bool) (s : Links) (a l : Addr) (xs : List Addr)
    → Chain s a xs l
    → test l ≡ false
    → length xs < f
    → walk f test s (s.next a) ≡ some (first_or l (left test xs))
walk-left zero test s a l xs h e k = absurd (omega arith)
walk-left (suc f) test s a l [] h e k = rw h.0 (walk-stop f test s l e)
walk-left (suc f) test s a l (x ∷ xs) h e k = elim (Bool-cases (test x)) [
  | inl t ↦ rw (h.0, t) (walk-step f test s x t ∙ walk-left f test s x l xs h.2 e (omega arith))
  | inr t ↦ rw (h.0, t) (walk-stop f test s x t)
]

-- `list_add_before` in front of the second part of a list, or of the head, if that part is empty.
before-cut :
    (s : Links) (l n : Addr) (xs ys : List Addr)
    → Fresh n (l ∷ xs ++ ys)
    → IsRing s l (xs ++ ys)
    → IsRing (list_add_before (first_or l ys) n s) l (xs ++ n ∷ ys)
before-cut s l n xs [] f r = before-head s l n xs (rw append-nil at f) (rw append-nil at r)
before-cut s l n xs (t ∷ ys) f r = before-at s l n t xs ys f r

abbrev pub behind_first : Addr → List Addr → List Addr → List Addr
behind_first n xs [] = n ∷ xs
behind_first n xs (t ∷ ys) = xs ++ t ∷ n ∷ ys

behind-cut :
    (s : Links) (l n : Addr) (xs ys : List Addr)
    → Fresh n (l ∷ xs ++ ys)
    → IsRing s l (xs ++ ys)
    → IsRing (list_add_behind (first_or l ys) n s) l (behind_first n xs ys)
behind-cut s l n xs [] f r = behind-head s l n xs (rw append-nil at f) (rw append-nil at r)
behind-cut s l n xs (t ∷ ys) f r = behind-at s l n t xs ys f r

module _ (test : Addr → Bool) (s : Links) (l n : Addr) (xs : List Addr) where
  -- `list_add_before` at the place where the loop stops puts `n` between the two parts.
  pub before-left :
      Fresh n (l ∷ xs)
      → IsRing s l xs
      → IsRing
          (list_add_before (first_or l (left test xs)) n s)
          l
          (passed test xs ++ n ∷ left test xs)
  before-left f r =
      let e = sym (passed-append-left test xs) in
      before-cut s l n (passed test xs) (left test xs) (subst (λ z. Fresh n (l ∷ z)) e f)
        (subst (λ z. IsRing s l z) e r)

  -- `list_add_behind` there puts `n` behind the element that stopped the loop, or, if none did,
  -- in front of all.
  pub behind-left :
      Fresh n (l ∷ xs)
      → IsRing s l xs
      → IsRing
          (list_add_behind (first_or l (left test xs)) n s)
          l
          (behind_first n (passed test xs) (left test xs))
  behind-left f r =
      let e = sym (passed-append-left test xs) in
      behind-cut s l n (passed test xs) (left test xs) (subst (λ z. Fresh n (l ∷ z)) e f)
        (subst (λ z. IsRing s l z) e r)

pub insert-perm :
    (test : Addr → Bool) (n : Addr) (xs : List Addr)
    → Perm (passed test xs ++ n ∷ left test xs) (n ∷ xs)
insert-perm test n xs =
    subst (λ z. Perm (passed test xs ++ n ∷ left test xs) (n ∷ z)) (passed-append-left test xs)
      (perm_middle (passed test xs) (left test xs))
