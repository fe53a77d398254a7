-- ===== src/Slab/Owner.antt =====
-- Which slab `kfree` finds for an address.
use system_studying.Base.{
  ℕ, zero, suc, ◌+◌, ◌≡◌, refl, ap, ◌∙◌, arith, true, false, none, some, List, [], ◌∷◌, ◌==◌,
  ==_iff, get_elem?, set, All, subst, ◌≢◌,
}
use system_studying.Slab.{Slab, SlabCache}
use system_studying.Slab.Free.{slab_at, owner}

-- The slab `k` is the first of the ring whose page is at `base`.
abbrev pub FirstAt : ℕ → ℕ → List Slab → Type 0
FirstAt base k [] = ⊥
FirstAt base zero (slab ∷ pool) = slab.vaddress ≡ base
FirstAt base (suc k) (slab ∷ pool) = (slab.vaddress ≢ base) × FirstAt base k pool

-- It is so in the cache `i`, and no cache in front of that has the page.
abbrev pub Owns : ℕ → ℕ → ℕ → List SlabCache → Type 0
Owns base i k [] = ⊥
Owns base zero k (cache ∷ caches) = FirstAt base k cache.cache_pool
Owns base (suc i) k (cache ∷ caches) =
    All (λ slab. slab.vaddress ≢ base) cache.cache_pool × Owns base i k caches

slab_at-FirstAt :
    (n base k : ℕ) (pool : List Slab) (slab : Slab)
    → FirstAt base k pool
    → get_elem? pool k ≡ some slab
    → slab_at n base pool ≡ some (n + k, slab)
slab_at-FirstAt n base k [] slab h e = absurd h
slab_at-FirstAt n base zero (x ∷ pool) slab h e =
    let here : (x.vaddress == base) ≡ true = (==_iff _ _).1 h in
    let same : x ≡ slab = cc e in rw (here, same) (ap (λ t. some (t, slab)) (omega arith))
slab_at-FirstAt n base (suc k) (x ∷ pool) slab h e =
    let away : (x.vaddress == base) ≡ false = ground (arith, h.0) in
    rw away
      (slab_at-FirstAt (suc n) base k pool slab h.1 e ∙ ap (λ t. some (t, slab)) (omega arith))

slab_at-none :
    (n base : ℕ) (pool : List Slab)
    → All (λ slab. slab.vaddress ≢ base) pool
    → slab_at n base pool ≡ none
slab_at-none n base [] h = refl
slab_at-none n base (x ∷ pool) h =
    let away : (x.vaddress == base) ≡ false = ground (arith, h.0) in
    rw away (slab_at-none (suc n) base pool h.1)

pub owner-Owns :
    (n base i k : ℕ) (caches : List SlabCache) (cache : SlabCache) (slab : Slab)
    → Owns base i k caches
    → get_elem? caches i ≡ some cache
    → get_elem? cache.cache_pool k ≡ some slab
    → owner n base caches ≡ some (n + i, cache, k, slab)
owner-Owns n base i k [] cache slab h e g = absurd h
owner-Owns n base zero k (x ∷ caches) cache slab h e g =
    let same : x ≡ cache = cc e in
    let here : get_elem? x.cache_pool k ≡ some slab = rw same g in
    let first : n ≡ n + 0 = omega arith in
    let place : 0 + k ≡ k = omega arith in
    rw (slab_at-FirstAt 0 base k x.cache_pool slab h here)
      (λ d. some (first d, same d, place d, slab))
owner-Owns n base (suc i) k (x ∷ caches) cache slab h e g =
    rw (slab_at-none 0 base x.cache_pool h.0) (
      owner-Owns (suc n) base i k caches cache slab h.1 e g
      ∙ ap (λ (t : ℕ). some (t, cache, k, slab)) (omega arith))

pub FirstAt-set :
    (base k : ℕ) (pool : List Slab) (new : Slab)
    → new.vaddress ≡ base
    → FirstAt base k pool
    → FirstAt base k (set pool k new)
FirstAt-set base k [] new e h = h
FirstAt-set base zero (x ∷ pool) new e h = e
FirstAt-set base (suc k) (x ∷ pool) new e h = (h.0, FirstAt-set base k pool new e h.1)

pub Owns-set :
    (base i k : ℕ) (caches : List SlabCache) (old new : SlabCache)
    → get_elem? caches i ≡ some old
    → (FirstAt base k old.cache_pool → FirstAt base k new.cache_pool)
    → Owns base i k caches
    → Owns base i k (set caches i new)
Owns-set base i k [] old new g f h = h
Owns-set base zero k (x ∷ caches) old new g f h =
    let same : x ≡ old = cc g in f (subst (λ c. FirstAt base k c.cache_pool) same h)
Owns-set base (suc i) k (x ∷ caches) old new g f h = (h.0, Owns-set base i k caches old new g f h.1)

pub get-set {ℓ} :
    {A : Type ℓ} (xs : List A) (i : ℕ) (old new : A)
    → get_elem? xs i ≡ some old
    → get_elem? (set xs i new) i ≡ some new
get-set [] i old new h = absurd (cc h)
get-set (x ∷ xs) zero old new h = refl
get-set (x ∷ xs) (suc i) old new h = get-set xs i old new h
