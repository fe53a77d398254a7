-- ===== src/Links/Other.antt =====
-- An operation on one circular list of lib.h leaves the other lists as they are.
use system_studying.Base.{
  ◌≡◌, ◌≢◌, sym, List, [], ◌∷◌, ◌++◌, arith, All, All-append, All-left, All-right, All-mono, Fresh,
  Apart,
}
use system_studying.Links.{Addr, Links, list_add_before, list_delete}
use system_studying.Links.Ring.{IsRing, IsRing-rotate, prev-ne, Chain-frame}
use system_studying.Links.Ops.{before-elsewhere}
use system_studying.Links.Walk.{first_or}

-- The two words of a node are the same in both stores.
abbrev pub Kept : Links → Links → Addr → Type 0
Kept s t c = (t.next c ≡ s.next c) × (t.prev c ≡ s.prev c)

pub IsRing-Kept :
    (s t : Links) (m : Addr) (zs : List Addr)
    → All (Kept s t) (m ∷ zs)
    → IsRing s m zs
    → IsRing t m zs
IsRing-Kept s t m zs h r = record {
  chain = Chain-frame s t m m zs h.0.0 h.0.1 h.1 r.chain;
  distinct = r.distinct;
}

All-turned :
    (P : Addr → Type 0) (l t : Addr) (xs ys : List Addr)
    → All P (l ∷ xs ++ t ∷ ys)
    → All P (t ∷ ys ++ l ∷ xs)
All-turned P l t xs ys h =
    All-append P (t ∷ ys) (l ∷ xs) (All-right P (l ∷ xs) (t ∷ ys) h)
      (All-left P (l ∷ xs) (t ∷ ys) h)

module _ (s : Links) (l c : Addr) where
  before-other :
      (n t : Addr) (xs ys : List Addr)
      → IsRing s l (xs ++ t ∷ ys)
      → Fresh c (l ∷ xs ++ t ∷ ys)
      → c ≢ n
      → Kept s (list_add_before t n s) c
  before-other n t xs ys r f ne =
      let g = All-turned (λ x. c ≢ x) l t xs ys f in
      before-elsewhere s t c (ys ++ l ∷ xs) g.0 g.1 n ne (IsRing-rotate s l t xs ys r)

  -- At the place where a loop along the list stops.
  before_first-other :
      (n : Addr) (xs ys : List Addr)
      → IsRing s l (xs ++ ys)
      → Fresh c (l ∷ xs ++ ys)
      → c ≢ n
      → Kept s (list_add_before (first_or l ys) n s) c
  before_first-other n xs [] r f ne = before-elsewhere s l c (xs ++ []) f.0 f.1 n ne r
  before_first-other n xs (y ∷ ys) r f ne = before-other n y xs ys r f ne

  delete-elsewhere :
      (ys : List Addr) → IsRing s l ys → Fresh c (l ∷ ys) → Kept s (list_delete l s) c
  unfolding list_delete
  delete-elsewhere [] r f = ground (arith, r.chain.0, r.chain.1, f.0)
  delete-elsewhere (y ∷ ys) r f =
      ground (arith, r.chain.0, prev-ne s l l c (y ∷ ys) r.chain f.0 f.1, f.0, f.1.0)

pub delete-other :
    (s : Links) (l c n : Addr) (xs ys : List Addr)
    → IsRing s l (xs ++ n ∷ ys)
    → Fresh c (l ∷ xs ++ n ∷ ys)
    → Kept s (list_delete n s) c
delete-other s l c n xs ys r f =
    delete-elsewhere s n c (ys ++ l ∷ xs) (IsRing-rotate s l n xs ys r)
      (All-turned (λ x. c ≢ x) l n xs ys f)

-- What holds of the nodes that are none of `l` and `xs`, and not `n`, holds of `cs`.
All-apart :
    (P : Addr → Type 0) (l n : Addr) (xs cs : List Addr)
    → ((c : Addr) → Fresh c (l ∷ xs) → c ≢ n → P c)
    → Apart cs (l ∷ xs)
    → Fresh n cs
    → All P cs
All-apart P l n xs [] h a f = tt
All-apart P l n xs (c ∷ cs) h a f = (h c a.0 (λ e. f.0 (sym e)), All-apart P l n xs cs h a.1 f.1)

-- A list without common nodes with that of `l` survives a deletion from the latter.
pub delete-IsRing-other :
    (s : Links) (l n m : Addr) (xs ys zs : List Addr)
    → IsRing s l (xs ++ n ∷ ys)
    → Apart (m ∷ zs) (l ∷ xs ++ n ∷ ys)
    → IsRing s m zs
    → IsRing (list_delete n s) m zs
delete-IsRing-other s l n m xs ys zs r a = IsRing-Kept s (list_delete n s) m zs (
    All-mono (λ c. Fresh c (l ∷ xs ++ n ∷ ys)) (Kept s (list_delete n s)) (m ∷ zs)
      (λ c f. delete-other s l c n xs ys r f) a)

-- And an insertion into it, at its head or at the place where a loop stops.
pub before_first-IsRing-other :
    (s : Links) (l n m : Addr) (xs ys zs : List Addr)
    → IsRing s l (xs ++ ys)
    → Apart (m ∷ zs) (l ∷ xs ++ ys)
    → Fresh n (m ∷ zs)
    → IsRing s m zs
    → IsRing (list_add_before (first_or l ys) n s) m zs
before_first-IsRing-other s l n m xs ys zs r a f =
    IsRing-Kept s (list_add_before (first_or l ys) n s) m zs (
      All-apart (Kept s (list_add_before (first_or l ys) n s)) l n (xs ++ ys) (m ∷ zs)
        (λ c g ne. before_first-other s l c n xs ys r g ne) a f)

pub before_head-IsRing-other :
    (s : Links) (l n m : Addr) (xs zs : List Addr)
    → IsRing s l xs
    → Apart (m ∷ zs) (l ∷ xs)
    → Fresh n (m ∷ zs)
    → IsRing s m zs
    → IsRing (list_add_before l n s) m zs
before_head-IsRing-other s l n m xs zs r a f = IsRing-Kept s (list_add_before l n s) m zs (
    All-apart (Kept s (list_add_before l n s)) l n xs (m ∷ zs)
      (λ c g ne. before-elsewhere s l c xs g.0 g.1 n ne r) a f)
