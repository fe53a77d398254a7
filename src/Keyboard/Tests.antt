-- ===== src/Keyboard/Tests.antt =====
-- A buffer with the scan codes 30 and 48, and one that has wrapped around.
use system_studying.Base.{ℕ, ◌≡◌, refl, [], ◌∷◌, ◌++◌, List, some, if◌then◌else◌, ltb, arith}
use system_studying.Keyboard.{Keyboard, keyboard_handler, keyboard_read}
use system_studying.Keyboard.Buffer.{Holds, bytes, keyboard_handler-Holds, keyboard_read-Holds}

abbrev typed : Keyboard
typed = record { p_head = 12; p_tail = 10; count = 2; buf = λ i. if ltb i 11 then 30 else 48 }

typed-Holds : Holds typed (30 ∷ 48 ∷ [])
typed-Holds = record {
  head_bound = omega arith;
  tail_bound = omega arith;
  count_bound = omega arith;
  together = refl;
  content = refl;
}

keyboard_handler-Holds_example : Holds (keyboard_handler 46 typed) (30 ∷ 48 ∷ 46 ∷ [])
keyboard_handler-Holds_example =
    keyboard_handler-Holds 46 typed (30 ∷ 48 ∷ []) (omega arith) (omega arith) typed-Holds

keyboard_read-Holds_example :
    (user' : ℕ → ℕ) × (kb' : Keyboard) × (rest : List ℕ) × (keyboard_read 4096 1 (λ j. 0) typed
      ≡ some (1, user', kb'))
    × (30 ∷ 48 ∷ [] ≡ bytes 1 0 user' ++ rest)
    × Holds kb' rest
keyboard_read-Holds_example =
    keyboard_read-Holds 4096 1 (λ j. 0) typed (30 ∷ 48 ∷ []) (omega arith) refl typed-Holds
      (omega arith)

abbrev wrapped : Keyboard
wrapped = record { p_head = 1; p_tail = 99; count = 2; buf = λ i. i }

wrapped-Holds : Holds wrapped (99 ∷ 0 ∷ [])
wrapped-Holds = record {
  head_bound = omega arith;
  tail_bound = omega arith;
  count_bound = omega arith;
  together = refl;
  content = refl;
}
