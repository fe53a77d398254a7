-- ===== src/Timer/Late.antt =====
-- What the place where `add_timer` puts a timer means for those that are due.
use system_studying.Base.{ℕ, ◌<◌, ◌≤◌, ◌≡◌, true, false, some, List, ◌∷◌, arith, length, Fresh, All}
use system_studying.Links.{Addr}
use system_studying.Links.Ring.{IsRing}
use system_studying.Timer.{Timers, add_timer, do_timer}
use system_studying.Timer.Add.{added, add_timer-latest}
use system_studying.Timer.Fire.{is_due, do_timer_lem}

-- A timer `t` that is added behind a due timer in time, and is not due itself, keeps `do_timer` from
-- running any: the list is left as it is, though the timer `x` of it is due.
pub do_timer-starved :
    {S : Type 0} (func : Addr → Timers × S → Timers × S) (fuel : ℕ) (w : Timers) (s : S)
    (t x : Addr) (xs : List Addr)
    → ((u : Addr) (v : Timers) (r : S) → (func u (v, r)).0 ≡ v)
    → IsRing w.links w.head (x ∷ xs)
    → Fresh t (w.head ∷ x ∷ xs)
    → w.expire_jiffies t ≤ w.expire_jiffies w.head
    → All (λ y. w.expire_jiffies y < w.expire_jiffies t) (x ∷ xs)
    → is_due w x ≡ true
    → w.jiffies < w.expire_jiffies t
    → length (t ∷ x ∷ xs) < fuel
    → (w' : Timers) × (add_timer fuel t w ≡ some w') × (do_timer func fuel (w', s) ≡ some (w', s))
do_timer-starved func fuel w s t x xs pure r f h late due wait k =
    let (e, r') = add_timer-latest fuel w t (x ∷ xs) r f h (omega arith) late in
    let w' = added w t (x ∷ xs) in
    let quiet : is_due w' t ≡ false = ground arith in
    (w', e, rw quiet at (do_timer_lem func fuel w' s (t ∷ x ∷ xs) pure r' k).0)
