-- ===== src/Timer/Fire.antt =====
-- Which timers `do_timer` runs.
use system_studying.Base.{
  ℕ, zero, suc, ◌<◌, ◌≡◌, Bool, true, false, Bool-cases, some, List, [], ◌∷◌, arith, length,
  if◌then◌else◌, inl, inr, ap, ◌∙◌, leb,
}
use system_studying.Links.{Addr, list_next, list_is_empty, list_delete}
use system_studying.Links.Ring.{IsRing}
use system_studying.Links.Ops.{list_next-eq, is_empty-nil, is_empty-cons, delete-at}
use system_studying.Links.Walk.{left}
use system_studying.Timer.{Timers, del_timer, do_timer_loop, do_timer}

abbrev pub is_due : Timers → Addr → Bool
is_due w t = leb (w.expire_jiffies t) w.jiffies

-- The timers of the front that are due, taken out one by one.
abbrev pub without : Timers → List Addr → Timers
without w [] = w
without w (x ∷ xs) =
    if is_due w x then without (record w { links = list_delete x w.links }) xs else w

module _ {S : Type 0} (func : Addr → Timers × S → Timers × S) where
  -- What the functions of a list of timers do, one after the other.
  abbrev pub run_all : Timers → List Addr → S → S
  run_all w [] s = s
  run_all w (x ∷ xs) s =
      let w' = record w { links = list_delete x w.links } in
      if is_due w x then run_all w' xs (func x (w', s)).1 else s

  loop-empty :
      (f : ℕ) (w : Timers) (x : Addr) (s : S)
      → list_is_empty w.head w.links ≡ true
      → do_timer_loop func (suc f) x (w, s) ≡ some (w, s)
  unfolding do_timer_loop
  loop-empty f w x s e = rw (e, do_timer_loop)

  loop-late :
      (f : ℕ) (w : Timers) (x : Addr) (s : S)
      → list_is_empty w.head w.links ≡ false
      → is_due w x ≡ false
      → do_timer_loop func (suc f) x (w, s) ≡ some (w, s)
  unfolding do_timer_loop
  loop-late f w x s e d = rw (e, d, do_timer_loop)

  -- `func` is a function that leaves the timers alone.
  loop-due :
      (f : ℕ) (w : Timers) (x : Addr) (s : S)
      → ((t : Addr) (v : Timers) (r : S) → (func t (v, r)).0 ≡ v)
      → list_is_empty w.head w.links ≡ false
      → is_due w x ≡ true
      → do_timer_loop func (suc f) x (w, s)
        ≡ do_timer_loop func f
            (list_next w.head (del_timer x w).links)
            (del_timer x w, (func x (del_timer x w, s)).1)
  unfolding do_timer_loop
  loop-due f w x s pure e d =
      rw (e, d, do_timer_loop)
        (ap
          (λ v. do_timer_loop func f (list_next v.head v.links) (v, (func x (del_timer x w, s)).1))
          (pure x (del_timer x w) s))

  loop_lem :
      (fuel : ℕ) (w : Timers) (s : S) (xs : List Addr)
      → ((t : Addr) (v : Timers) (r : S) → (func t (v, r)).0 ≡ v)
      → IsRing w.links w.head xs
      → length xs < fuel
      → (do_timer_loop func fuel (list_next w.head w.links) (w, s)
          ≡ some (without w xs, run_all w xs s))
        × IsRing (without w xs).links w.head (left (is_due w) xs)
  unfolding del_timer
  loop_lem zero w s xs pure r k = absurd (omega arith)
  loop_lem (suc f) w s [] pure r k =
      (loop-empty f w (list_next w.head w.links) s (is_empty-nil w.links w.head r), r)
  loop_lem (suc f) w s (x ∷ xs) pure r k =
      let e = is_empty-cons w.links w.head x xs r in
      let first : list_next w.head w.links ≡ x = list_next-eq w.head w.links ∙ r.chain.0 in
      elim (Bool-cases (is_due w x)) [
        | inl d ↦
            let v = record w { links = list_delete x w.links } in
            let ih =
              loop_lem f v (func x (v, s)).1 xs pure (delete-at w.links w.head x [] xs r)
                (omega arith) in
            rw d (rw first (loop-due f w x s pure e d ∙ ih.0), ih.1)
        | inr d ↦ rw d (rw first (loop-late f w x s e d), r)
      ]

  -- For functions that leave the timers alone: `do_timer` ends, given fuel for one round more than
  -- there are timers; it runs the timers in order as long as they are due, and keeps the others.
  pub do_timer_lem :
      (fuel : ℕ) (w : Timers) (s : S) (xs : List Addr)
      → ((t : Addr) (v : Timers) (r : S) → (func t (v, r)).0 ≡ v)
      → IsRing w.links w.head xs
      → length xs < fuel
      → (do_timer func fuel (w, s) ≡ some (without w xs, run_all w xs s))
        × IsRing (without w xs).links w.head (left (is_due w) xs)
  unfolding do_timer
  do_timer_lem = loop_lem
