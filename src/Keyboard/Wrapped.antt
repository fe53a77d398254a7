-- ===== src/Keyboard/Wrapped.antt =====
-- A read beyond the end of the buffer: `keyboard_read` goes on at `p_head`, where new codes go, and
-- not at the start of the buffer, and writes both parts to the same place.
use system_studying.Base.{
  ℕ, ◌+◌, ◌-◌, ◌≤◌, ◌<◌, ◌≡◌, refl, ap, ◌∙◌, arith, List, some, ◌==◌, ltb, leb, false, true,
  if◌then◌else◌,
}
use system_studying.Sys.{verify_area}
use system_studying.Keyboard.{Keyboard, keyboard_read, copied_codes, counter_of}
use system_studying.Keyboard.Buffer.{Holds}

-- A reader, into memory that `verify_area` accepts, that takes all scan codes from a buffer that has wrapped around, with `p_head` inside,
-- gets the byte at `p_head` first, and leaves `p_tail` at twice `p_head` with a count of 0: what is
-- left is not a buffer that `Holds` any list of scan codes.
pub keyboard_read-Wrapped :
    (addr wanted : ℕ) (user : ℕ → ℕ) (kb : Keyboard) (xs : List ℕ)
    → verify_area addr (100 - kb.p_tail) ≡ true
    → verify_area addr (kb.count - (100 - kb.p_tail)) ≡ true
    → Holds kb xs
    → 100 < kb.p_tail + kb.count
    → 0 < kb.p_head
    → kb.p_head < 100
    → kb.count ≤ wanted
    → (user' : ℕ → ℕ) × (kb' : Keyboard) × (keyboard_read addr wanted user kb
        ≡ some (kb.count, user', kb'))
      × (user' 0 ≡ kb.buf kb.p_head)
      × (kb'.p_tail ≡ kb.p_head + kb.p_head)
      × (kb'.count ≡ 0)
      × ((rest : List ℕ) → ¬ Holds kb' rest)
unfolding keyboard_read
keyboard_read-Wrapped addr wanted user kb xs first second held h p q w =
    let room = 100 - kb.p_tail in
    let all : counter_of kb wanted ≡ kb.count = ground arith in
    let filled : (kb.count == 0) ≡ false = ground arith in
    let beyond : leb kb.count room ≡ false = ground arith in
    let left : kb.count - room ≡ kb.p_head =
      omega (arith, held.together, held.tail_bound, held.count_bound) in
    let kb' = record kb { p_tail = kb.p_head + (kb.count - room); count = kb.count - kb.count } in
    let user' =
      copied_codes kb.buf kb.p_head (kb.count - room) (copied_codes kb.buf kb.p_tail room user) in
    let some_left : ltb 0 (kb.count - room) ≡ true = ground (arith, left) in
    let at : kb.p_head + 0 ≡ kb.p_head = omega arith in
    (
      user',
      kb',
      rw (keyboard_read, filled, all, beyond, first, second) refl,
      ap (λ c. if c then kb.buf (kb.p_head + 0) else copied_codes kb.buf kb.p_tail room user 0)
            some_left
          ∙ ap kb.buf at,
      omega (arith, left),
      omega arith,
      λ rest held'. omega (arith, held'.together, left),
    )
