-- ===== src/Links/Ring.antt =====
-- Which store holds which circular list: the abstraction that the operations are proved against.
use system_studying.Base.{◌≡◌, ◌≢◌, List, [], ◌∷◌, ◌++◌, All, Fresh, Distinct, Distinct-rotate}
use system_studying.Links.{Addr, Links}

-- From `a` the `next` words lead through `xs` to `b`, and the `prev` words lead back.
abbrev pub Chain : Links → Addr → List Addr → Addr → Type 0
Chain s a [] b = (s.next a ≡ b) × (s.prev b ≡ a)
Chain s a (x ∷ xs) b = (s.next a ≡ x) × (s.prev x ≡ a) × Chain s x xs b

-- The circular list with head `l` and the elements `xs`, in order, all different.
pub record IsRing (s : Links) (l : Addr) (xs : List Addr) : Type 0 where
  pub chain : Chain s l xs l
  pub distinct : Distinct (l ∷ xs)

module _ (s : Links) where
  pub Chain-join :
      (a b c : Addr) (xs ys : List Addr)
      → Chain s a xs b
      → Chain s b ys c
      → Chain s a (xs ++ b ∷ ys) c
  Chain-join a b c [] ys h k = (h.0, h.1, k)
  Chain-join a b c (x ∷ xs) ys h k = (h.0, h.1, Chain-join x b c xs ys h.2 k)

  pub Chain-cut :
      (a b c : Addr) (xs ys : List Addr)
      → Chain s a (xs ++ b ∷ ys) c
      → Chain s a xs b × Chain s b ys c
  Chain-cut a b c [] ys h = ((h.0, h.1), h.2)
  Chain-cut a b c (x ∷ xs) ys h =
      let (front, back) = Chain-cut x b c xs ys h.2 in ((h.0, h.1, front), back)

  -- A circular list has no first element: any of its nodes serves as the head.
  pub IsRing-rotate :
      (l t : Addr) (xs ys : List Addr) → IsRing s l (xs ++ t ∷ ys) → IsRing s t (ys ++ l ∷ xs)
  IsRing-rotate l t xs ys r =
      let (front, back) = Chain-cut l t l xs ys r.chain in
      record {
        chain = Chain-join t l t ys xs back front;
        distinct = Distinct-rotate (l ∷ xs) (t ∷ ys) r.distinct;
      }

  -- The `prev` word of the end names the last node, which is none of those that stand apart.
  pub prev-ne : (a b c : Addr) (xs : List Addr) → Chain s a xs b → c ≢ a → Fresh c xs → s.prev b ≢ c
  prev-ne a b c [] h ne f = λ e. ne (cc)
  prev-ne a b c (x ∷ xs) h ne f = prev-ne x b c xs h.2 f.0 f.1

-- A chain survives any change that spares the words that it uses.
pub Chain-frame :
    (s t : Links) (a b : Addr) (xs : List Addr)
    → t.next a ≡ s.next a
    → t.prev b ≡ s.prev b
    → All (λ x. (t.next x ≡ s.next x) × (t.prev x ≡ s.prev x)) xs
    → Chain s a xs b
    → Chain t a xs b
Chain-frame s t a b [] na pb same h = (cc, cc)
Chain-frame s t a b (x ∷ xs) na pb same h =
    (cc, cc same.0.1, Chain-frame s t x b xs same.0.0 pb same.1 h.2)
