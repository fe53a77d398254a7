-- ===== src/Links/Ops.antt =====
-- What the operations of lib.h do to a circular list, at any of its nodes.
use system_studying.Base.{
  ◌≡◌, ◌≢◌, sym, List, [], ◌∷◌, ◌++◌, arith, All, All-append, All-left, All-right, Fresh, Distinct,
  Distinct-append, Apart-symm, append_assoc, append-nil, true, false,
}
use system_studying.Links.{
  Addr, Links, list_init, list_add_behind, list_add_before, list_delete, list_is_empty, list_next,
}
use system_studying.Links.Ring.{Chain, IsRing, IsRing-rotate, prev-ne, Chain-frame}

pub list_next-eq : (l : Addr) (s : Links) → list_next l s ≡ s.next l
unfolding list_next
list_next-eq l s = ground arith

-- `list_init` makes an empty list.
pub list_init-IsRing : (l : Addr) (s : Links) → IsRing (list_init l s) l []
unfolding list_init
list_init-IsRing l s = record { chain = ground arith; distinct = (tt, tt) }

module _ (s : Links) where
  pub is_empty-nil : (l : Addr) → IsRing s l [] → list_is_empty l s ≡ true
  unfolding list_is_empty
  is_empty-nil l r = ground (arith, r.chain)

  pub is_empty-cons :
      (l x : Addr) (xs : List Addr) → IsRing s l (x ∷ xs) → list_is_empty l s ≡ false
  unfolding list_is_empty
  is_empty-cons l x xs r = ground (arith, r.chain.0, r.distinct.0.0)

  -- A chain that ends at `l`, with the new node put in before `l`.
  Chain-before :
      (l n a : Addr) (xs : List Addr)
      → n ≢ l
      → n ≢ a
      → Fresh n xs
      → Fresh l xs
      → Fresh a xs
      → Distinct xs
      → Chain s a xs l
      → Chain (list_add_before l n s) a (xs ++ n ∷ []) l
  unfolding list_add_before
  Chain-before l n a [] nl na fn fl fa d h = ground (arith, h.0, h.1)
  Chain-before l n a (x ∷ xs) nl na fn fl fa d h = (
    ground (arith, h.0, prev-ne s x l a xs h.2 fa.0 fa.1),
    ground (arith, h.1, fn.0, fl.0),
    Chain-before l n x xs nl fn.0 fn.1 fl.1 d.0 d.1 h.2,
  )

  -- Nodes that are none of `l`, `n` and `x` keep their words when `n` goes between `l` and `x`.
  behind-spares :
      (l n x : Addr) (ys : List Addr)
      → s.next l ≡ x
      → n ≢ l
      → Fresh n ys
      → Fresh l ys
      → Fresh x ys
      → All
          (λ y.
            ((list_add_behind l n s).next y ≡ s.next y)
            × ((list_add_behind l n s).prev y ≡ s.prev y))
          ys
  unfolding list_add_behind
  behind-spares l n x [] e nl fn fl fx = tt
  behind-spares l n x (y ∷ ys) e nl fn fl fx =
      (ground (arith, fn.0, fl.0, fx.0), behind-spares l n x ys e nl fn.1 fl.1 fx.1)

  Chain-behind :
      (l n : Addr) (xs : List Addr)
      → n ≢ l
      → Fresh n xs
      → Distinct (l ∷ xs)
      → Chain s l xs l
      → Chain (list_add_behind l n s) l (n ∷ xs) l
  unfolding list_add_behind
  Chain-behind l n [] nl fn d h = ground (arith, h.0, h.1)
  Chain-behind l n (x ∷ xs) nl fn d h = (
    ground arith,
    ground (arith, h.0),
    (
      ground (arith, h.0),
      ground (arith, h.0),
      Chain-frame s (list_add_behind l n s) x l xs (ground (arith, fn.0, d.0.0))
          (ground (arith, h.0, d.0.0)) (behind-spares l n x xs h.0 nl fn.1 d.0.1 d.1.0) h.2,
    ),
  )

  -- A chain that ends at `n`, followed by `y`: with `n` taken out it ends at `y`.
  Chain-delete :
      (n y a : Addr) (xs : List Addr)
      → s.next n ≡ y
      → y ≢ n
      → a ≢ n
      → Fresh n xs
      → Fresh y xs
      → Fresh a xs
      → Distinct xs
      → Chain s a xs n
      → Chain (list_delete n s) a xs y
  unfolding list_delete
  Chain-delete n y a [] e yn an fn fy fa d h = ground (arith, h.0, h.1)
  Chain-delete n y a (x ∷ xs) e yn an fn fy fa d h = (
    ground (arith, h.0, prev-ne s x n a xs h.2 fa.0 fa.1),
    ground (arith, h.1, fy.0, fn.0),
    Chain-delete n y x xs e yn (λ q. fn.0 (sym q)) fn.1 fy.1 d.0 d.1 h.2,
  )

  -- At the head: `list_add_before` appends.
  pub before-head :
      (l n : Addr) (xs : List Addr)
      → Fresh n (l ∷ xs)
      → IsRing s l xs
      → IsRing (list_add_before l n s) l (xs ++ n ∷ [])
  before-head l n xs f r = record {
    chain = Chain-before l n l xs f.0 f.0 f.1 r.distinct.0 r.distinct.0 r.distinct.1 r.chain;
    distinct =
        Distinct-append (l ∷ xs) (n ∷ []) r.distinct (tt, tt)
          (Apart-symm (n ∷ []) (l ∷ xs) (f, tt));
  }

  -- At the head: `list_add_behind` puts in front.
  pub behind-head :
      (l n : Addr) (xs : List Addr)
      → Fresh n (l ∷ xs)
      → IsRing s l xs
      → IsRing (list_add_behind l n s) l (n ∷ xs)
  behind-head l n xs f r = record {
    chain = Chain-behind l n xs f.0 f.1 r.distinct r.chain;
    distinct = ((λ e. f.0 (sym e), r.distinct.0), (f.1, r.distinct.1));
  }

  pub delete-head :
      (n y : Addr) (ys : List Addr) → IsRing s n (y ∷ ys) → IsRing (list_delete n s) y ys
  delete-head n y ys r =
      let (fn, d) = r.distinct in
      let ne : y ≢ n = λ e. fn.0 (sym e) in
      record {
        chain = Chain-delete n y y ys r.chain.0 ne ne fn.1 d.0 d.0 d.1 r.chain.2;
        distinct = d;
      }

Fresh-rotate :
    (n l t : Addr) (xs ys : List Addr) → Fresh n (l ∷ xs ++ t ∷ ys) → Fresh n (t ∷ ys ++ l ∷ xs)
Fresh-rotate n l t xs ys f =
    All-append (λ x. n ≢ x) (t ∷ ys) (l ∷ xs) (All-right (λ x. n ≢ x) (l ∷ xs) (t ∷ ys) f)
      (All-left (λ x. n ≢ x) (l ∷ xs) (t ∷ ys) f)

module _ (s : Links) (l n t : Addr) (xs ys : List Addr) where
  -- Before the node `t` that stands in the list of head `l`.
  pub before-at :
      Fresh n (l ∷ xs ++ t ∷ ys)
      → IsRing s l (xs ++ t ∷ ys)
      → IsRing (list_add_before t n s) l (xs ++ n ∷ t ∷ ys)
  before-at f r =
      let u = list_add_before t n s in
      let turned =
        before-head s t n (ys ++ l ∷ xs) (Fresh-rotate n l t xs ys f)
          (IsRing-rotate s l t xs ys r) in
      let placed = rw (append_assoc ys (l ∷ xs) (n ∷ [])) at turned in
      rw (append_assoc xs (n ∷ []) (t ∷ ys)) at (IsRing-rotate u t l ys (xs ++ n ∷ []) placed)

  pub behind-at :
      Fresh n (l ∷ xs ++ t ∷ ys)
      → IsRing s l (xs ++ t ∷ ys)
      → IsRing (list_add_behind t n s) l (xs ++ t ∷ n ∷ ys)
  behind-at f r =
      let turned =
        behind-head s t n (ys ++ l ∷ xs) (Fresh-rotate n l t xs ys f)
          (IsRing-rotate s l t xs ys r) in
      IsRing-rotate (list_add_behind t n s) t l (n ∷ ys) xs turned

pub delete-at :
    (s : Links) (l n : Addr) (xs ys : List Addr)
    → IsRing s l (xs ++ n ∷ ys)
    → IsRing (list_delete n s) l (xs ++ ys)
delete-at s l n xs [] r = rw append-nil (delete-head s n l xs (IsRing-rotate s l n xs [] r))
delete-at s l n xs (y ∷ ys) r =
    IsRing-rotate (list_delete n s) y l ys xs
      (delete-head s n y (ys ++ l ∷ xs) (IsRing-rotate s l n xs (y ∷ ys) r))

-- An operation at the head `l` writes no node but its own.
module _ (s : Links) (l c : Addr) (xs : List Addr) (away : c ≢ l) (out : Fresh c xs) where
  pub before-elsewhere :
      (n : Addr)
      → c ≢ n
      → IsRing s l xs
      → ((list_add_before l n s).next c ≡ s.next c) × ((list_add_before l n s).prev c ≡ s.prev c)
  unfolding list_add_before
  before-elsewhere n ne r = ground (arith, prev-ne s l l c xs r.chain away out)
