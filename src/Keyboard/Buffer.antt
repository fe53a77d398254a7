-- ===== src/Keyboard/Buffer.antt =====
-- The buffer as a queue of scan codes, as long as no read goes beyond its end.
use system_studying.Base.{
  ℕ, zero, suc, ◌+◌, ◌-◌, ◌%◌, ◌≤◌, ◌<◌, ◌≢◌, ◌≡◌, refl, sym, ap, ◌∙◌, arith, List, [], ◌∷◌, ◌++◌,
  if◌then◌else◌, some, ltb, leb, ◌==◌, true, false,
}
use system_studying.Links.{update}
use system_studying.Sys.{verify_area}
use system_studying.Keyboard.{
  Keyboard, keyboard_open, keyboard_handler, keyboard_read, copied_codes, counter_of,
}

-- The `n` bytes from the offset `t` on, around the end of the buffer.
abbrev pub codes : ℕ → ℕ → (ℕ → ℕ) → List ℕ
codes zero t b = []
codes (suc n) t b = b (t % 100) ∷ codes n (t + 1) b

-- The first `n` bytes of a memory from `j` on.
abbrev pub bytes : ℕ → ℕ → (ℕ → ℕ) → List ℕ
bytes zero j m = []
bytes (suc n) j m = m j ∷ bytes n (j + 1) m

-- The buffer holds the scan codes `xs`, the oldest first.
pub record Holds (kb : Keyboard) (xs : List ℕ) : Type 0 where
  pub head_bound : kb.p_head ≤ 100
  pub tail_bound : kb.p_tail ≤ 100
  pub count_bound : kb.count ≤ 100
  pub together : (kb.p_tail + kb.count) % 100 ≡ kb.p_head % 100
  pub content : codes kb.count kb.p_tail kb.buf ≡ xs

codes-append : (n k t : ℕ) (b : ℕ → ℕ) → codes (n + k) t b ≡ codes n t b ++ codes k (t + n) b
codes-append zero k t b =
    let none_yet : 0 + k ≡ k = omega arith in
    let e : t ≡ t + 0 = omega arith in ap (λ u. codes u t b) none_yet ∙ ap (λ u. codes k u b) e
codes-append (suc n) k t b =
    let e : t + 1 + n ≡ t + suc n = omega arith in
    let one_more : suc n + k ≡ suc (n + k) = omega arith in
    ap (λ u. codes u t b) one_more
    ∙ ap (λ s. b (t % 100) ∷ s)
        (codes-append n k (t + 1) b ∙ ap (λ u. codes n (t + 1) b ++ codes k u b) e)

codes-update :
    (n t h x : ℕ) (b : ℕ → ℕ)
    → ((j : ℕ) → j < n → (t + j) % 100 ≢ h)
    → codes n t (update b h x) ≡ codes n t b
unfolding update
codes-update zero t h x b apart = refl
codes-update (suc n) t h x b apart =
    let other : (t % 100 == h) ≡ false = ground (arith, apart 0 (omega arith)) in
    let rest = codes-update n (t + 1) h x b (λ j p e.
      let next : t + suc j ≡ t + 1 + j = omega arith in
      apart (suc j) (omega arith) (ap (λ u. u % 100) next ∙ e)) in
    ap (λ c. (if c then x else b (t % 100)) ∷ codes n (t + 1) (update b h x)) other
    ∙ ap (λ s. b (t % 100) ∷ s) rest

update-same : (b : ℕ → ℕ) (h x i : ℕ) → i ≡ h → update b h x i ≡ x
unfolding update
update-same b h x i e =
    let same : (i == h) ≡ true = ground (arith, e) in ap (λ c. if c then x else b i) same

-- The buffer is empty when it has been opened.
pub keyboard_open-Holds : (kb : Keyboard) → Holds (keyboard_open kb) []
unfolding keyboard_open
keyboard_open-Holds kb = record {
  head_bound = omega arith;
  tail_bound = omega arith;
  count_bound = omega arith;
  together = refl;
  content = refl;
}

-- A scan code other than 0xfa goes behind all others, if the buffer is not full.
pub keyboard_handler-Holds :
    (x : ℕ) (kb : Keyboard) (xs : List ℕ)
    → x ≢ 250
    → kb.count < 100
    → Holds kb xs
    → Holds (keyboard_handler x kb) (xs ++ (x ∷ []))
unfolding keyboard_handler
keyboard_handler-Holds x kb xs h k held =
    let head = if kb.p_head == 100 then 0 else kb.p_head in
    let place : (kb.p_tail + kb.count) % 100 ≡ head =
      ground (arith, held.together, held.head_bound) in
    let code : (x == 250) ≡ false = ground (arith, h) in
    let b = update kb.buf head x in
    rw code (record {
      head_bound = ground (arith, held.head_bound);
      tail_bound = held.tail_bound;
      count_bound = omega arith;
      together = omega (arith, place);
      content =
          codes-append kb.count 1 kb.p_tail b
          ∙ ap (λ s. s ++ codes 1 (kb.p_tail + kb.count) b)
              (codes-update kb.count kb.p_tail head x kb.buf (λ j p e. omega (arith, e, place))
                ∙ held.content)
          ∙ ap (λ c. xs ++ (c ∷ []))
              (update-same kb.buf head x ((kb.p_tail + kb.count) % 100) place);
    })

bytes-copied_codes :
    (n j from : ℕ) (m : ℕ) (b user : ℕ → ℕ)
    → j + n ≤ m
    → from + m ≤ 100
    → bytes n j (copied_codes b from m user) ≡ codes n (from + j) b
bytes-copied_codes zero j from m b user h k = refl
bytes-copied_codes (suc n) j from m b user h k =
    let inside : ltb j m ≡ true = ground arith in
    let low : from + j ≡ (from + j) % 100 = omega arith in
    let next : from + (j + 1) ≡ from + j + 1 = omega arith in
    ap (λ c. (if c then b (from + j) else user j) ∷ bytes n (j + 1) (copied_codes b from m user))
      inside
    ∙ ap (λ u. b u ∷ bytes n (j + 1) (copied_codes b from m user)) low
    ∙ ap (λ s. b ((from + j) % 100) ∷ s)
        (bytes-copied_codes n (j + 1) from m b user (omega arith) k ∙ ap (λ u. codes n u b) next)

-- A read from a buffer that is not empty, which does not reach beyond the end of the buffer, into memory
-- that `verify_area` accepts gives the reader the oldest scan codes, as many as wanted or all, and leaves
-- the others in the buffer.
pub keyboard_read-Holds :
    (addr wanted : ℕ) (user : ℕ → ℕ) (kb : Keyboard) (xs : List ℕ)
    → 0 < kb.count
    → verify_area addr (counter_of kb wanted) ≡ true
    → Holds kb xs
    → kb.p_tail + counter_of kb wanted ≤ 100
    → (user' : ℕ → ℕ) × (kb' : Keyboard) × (rest : List ℕ) × (keyboard_read addr wanted user kb
        ≡ some (counter_of kb wanted, user', kb'))
      × (xs ≡ bytes (counter_of kb wanted) 0 user' ++ rest)
      × Holds kb' rest
unfolding keyboard_read
keyboard_read-Holds addr wanted user kb xs any area held h =
    let n = counter_of kb wanted in
    let filled : (kb.count == 0) ≡ false = ground arith in
    let room : leb n (100 - kb.p_tail) ≡ true = ground arith in
    let most : n ≤ kb.count = ground arith in
    let parts : n + (kb.count - n) ≡ kb.count = omega (arith, most) in
    let start : kb.p_tail + 0 ≡ kb.p_tail = omega arith in
    (
      copied_codes kb.buf kb.p_tail n user,
      record kb { p_tail = kb.p_tail + n; count = kb.count - n },
      codes (kb.count - n) (kb.p_tail + n) kb.buf,
      rw (keyboard_read, filled, room, area) refl,
      sym held.content
          ∙ ap (λ u. codes u kb.p_tail kb.buf) (sym parts)
          ∙ codes-append n (kb.count - n) kb.p_tail kb.buf
          ∙ ap (λ s. s ++ codes (kb.count - n) (kb.p_tail + n) kb.buf)
              (sym (
                bytes-copied_codes n 0 kb.p_tail n kb.buf user (omega arith) h
                ∙ ap (λ u. codes n u kb.buf) start)),
      record {
        head_bound = held.head_bound;
        tail_bound = h;
        count_bound = omega (arith, held.count_bound);
        together = omega (arith, most, held.together);
        content = refl;
      },
    )
