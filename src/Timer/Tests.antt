-- ===== src/Timer/Tests.antt =====
-- The timers 5 (due at 10) and 7 (due at 20) at the time 15, with a third at 30.
use system_studying.Base.{◌^◌, ◌-◌, ◌≡◌, refl, some, List, [], ◌∷◌, arith, if◌then◌else◌, ◌==◌}
use system_studying.Links.{Addr, list_init, list_add_before}
use system_studying.Links.Ring.{IsRing}
use system_studying.Links.Ops.{list_init-IsRing, before-head}
use system_studying.Timer.{Timers, add_timer, do_timer}
use system_studying.Timer.Add.{added, add_timer-IsRing}
use system_studying.Timer.Fire.{without, do_timer_lem}
use system_studying.Timer.Late.{do_timer-starved}

abbrev timers : Timers
timers = record {
  links =
      list_add_before 100 7
        (list_add_before 100 5 (list_init 100 (record { prev = λ a. 0; next = λ a. 0 })));
  expire_jiffies =
      λ t. if t == 100 then 2 ^ 64 - 1 else if t == 5 then 10 else if t == 7 then 20 else 30;
  head = 100;
  jiffies = 15;
}

timers-IsRing : IsRing timers.links 100 (5 ∷ 7 ∷ [])
timers-IsRing =
    before-head (list_add_before 100 5 (list_init 100 _)) 100 7 (5 ∷ []) (omega arith)
      (before-head (list_init 100 _) 100 5 [] (omega arith) (list_init-IsRing 100 _))

-- A function that notes the address of its timer.
abbrev note : Addr → Timers × List Addr → Timers × List Addr
note t (w, s) = (w, t ∷ s)

add_timer-IsRing_example :
    (add_timer 3 9 timers ≡ some (added timers 9 (5 ∷ 7 ∷ [])))
    × IsRing (added timers 9 (5 ∷ 7 ∷ [])).links 100 (9 ∷ 5 ∷ 7 ∷ [])
add_timer-IsRing_example =
    add_timer-IsRing 3 timers 9 (5 ∷ 7 ∷ []) timers-IsRing (omega arith) (omega arith) (omega arith)

do_timer_lem_example :
    (do_timer note 3 (timers, []) ≡ some (without timers (5 ∷ 7 ∷ []), 5 ∷ []))
    × IsRing (without timers (5 ∷ 7 ∷ [])).links 100 (7 ∷ [])
do_timer_lem_example =
    do_timer_lem note 3 timers [] (5 ∷ 7 ∷ []) (λ t v r. refl) timers-IsRing (omega arith)

do_timer-starved_example :
    (w' : Timers) × (add_timer 4 9 timers ≡ some w') × (do_timer note 4 (w', []) ≡ some (w', []))
do_timer-starved_example =
    do_timer-starved note 4 timers [] 9 5 (7 ∷ []) (λ u v r. refl) timers-IsRing (omega arith)
      (omega arith) (omega arith) refl (omega arith) (omega arith)
