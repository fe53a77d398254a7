-- ===== src/Links/Tests.antt =====
-- Runs of the list operations, and the theorems on them at the list 5, 7 of head 100.
use system_studying.Base.{◌≡◌, refl, [], ◌∷◌, arith}
use system_studying.Links.{Links, list_init, list_add_before, list_delete}
use system_studying.Links.Ring.{IsRing}
use system_studying.Links.Ops.{list_init-IsRing, before-head}

abbrev unlinked : Links
unlinked = record { prev = λ a. 0; next = λ a. 0 }

abbrev two : Links
two = list_add_before 100 7 (list_add_before 100 5 (list_init 100 unlinked))

two-IsRing : IsRing two 100 (5 ∷ 7 ∷ [])
two-IsRing =
    before-head (list_add_before 100 5 (list_init 100 unlinked)) 100 7 (5 ∷ []) (omega arith)
      (before-head (list_init 100 unlinked) 100 5 [] (omega arith) (list_init-IsRing 100 unlinked))

words_after_deletion :
    let s = list_delete 5 two in (s.next 100 ≡ 7) × (s.prev 7 ≡ 100) × (s.prev 100 ≡ 7)
unfolding list_delete list_add_before list_init
words_after_deletion = (refl, refl, refl)
