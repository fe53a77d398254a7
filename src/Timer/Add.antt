-- ===== src/Timer/Add.antt =====
-- Where `add_timer` links a timer in.
use system_studying.Base.{
  ℕ, ◌<◌, ◌≤◌, ◌≡◌, refl, true, some, List, [], ◌∷◌, arith, length, if◌then◌else◌, Fresh, All, ap,
  subst, ◌∙◌,
}
use system_studying.Links.{Addr, list_next, list_is_empty, list_add_behind}
use system_studying.Links.Ring.{IsRing}
use system_studying.Links.Ops.{list_next-eq, is_empty-nil, is_empty-cons}
use system_studying.Links.Walk.{walk, passed, left, first_or, behind_first, walk-left, behind-left}
use system_studying.Timer.{Timers, expires_before, add_timer}

abbrev pub added : Timers → Addr → List Addr → Timers
added w t xs = record w {
  links = list_add_behind (first_or w.head (left (expires_before w t) xs)) t w.links;
}

module _ (fuel : ℕ) (w : Timers) (t : Addr) where
  search-place :
      (xs : List Addr)
      → IsRing w.links w.head xs
      → w.expire_jiffies t ≤ w.expire_jiffies w.head
      → length xs < fuel
      → (if list_is_empty w.head w.links
          then some (list_next w.head w.links)
          else walk fuel (expires_before w t) w.links (list_next w.head w.links))
        ≡ some (first_or w.head (left (expires_before w t) xs))
  search-place [] r h k =
      rw (is_empty-nil w.links w.head r) (ap some (list_next-eq w.head w.links ∙ r.chain.0))
  search-place (x ∷ xs) r h k =
      rw (is_empty-cons w.links w.head x xs r, list_next-eq)
        (walk-left fuel (expires_before w t) w.links w.head w.head (x ∷ xs) r.chain (ground arith)
          k)

  -- `add_timer` ends, given fuel for one round more than there are timers. It links the timer in
  -- behind the first that does not expire before it, or in front of all, if there is none.
  pub add_timer-IsRing :
      (xs : List Addr)
      → IsRing w.links w.head xs
      → Fresh t (w.head ∷ xs)
      → w.expire_jiffies t ≤ w.expire_jiffies w.head
      → length xs < fuel
      → (add_timer fuel t w ≡ some (added w t xs))
        × IsRing
            (added w t xs).links
            w.head
            (behind_first t (passed (expires_before w t) xs) (left (expires_before w t) xs))
  unfolding add_timer
  add_timer-IsRing xs r f h k =
      (rw (search-place xs r h k), behind-left (expires_before w t) w.links w.head t xs f r)

left-nil :
    (w : Timers) (t : Addr) (xs : List Addr)
    → All (λ x. w.expire_jiffies x < w.expire_jiffies t) xs
    → left (expires_before w t) xs ≡ []
left-nil w t [] h = refl
left-nil w t (x ∷ xs) h =
    let e : expires_before w t x ≡ true = ground (arith, h.0) in rw e (left-nil w t xs h.1)

passed_eq_of_late :
    (w : Timers) (t : Addr) (xs : List Addr)
    → All (λ x. w.expire_jiffies x < w.expire_jiffies t) xs
    → passed (expires_before w t) xs ≡ xs
passed_eq_of_late w t [] h = refl
passed_eq_of_late w t (x ∷ xs) h =
    let e : expires_before w t x ≡ true = ground (arith, h.0) in
    rw e (ap (λ l. x ∷ l) (passed_eq_of_late w t xs h.1))

-- A timer that expires after all others is linked in in front of them, not behind.
pub add_timer-latest :
    (fuel : ℕ) (w : Timers) (t : Addr) (xs : List Addr)
    → IsRing w.links w.head xs
    → Fresh t (w.head ∷ xs)
    → w.expire_jiffies t ≤ w.expire_jiffies w.head
    → length xs < fuel
    → All (λ x. w.expire_jiffies x < w.expire_jiffies t) xs
    → (add_timer fuel t w ≡ some (added w t xs)) × IsRing (added w t xs).links w.head (t ∷ xs)
add_timer-latest fuel w t xs r f h k late =
    let (e, r') = add_timer-IsRing fuel w t xs r f h k in
    (
      e,
      subst (λ z. IsRing (added w t xs).links w.head z)
          (ap (behind_first t (passed (expires_before w t) xs)) (left-nil w t xs late)
            ∙ ap (λ l. t ∷ l) (passed_eq_of_late w t xs late))
          r',
    )
