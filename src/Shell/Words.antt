-- ===== src/Shell/Words.antt =====
-- The words of a command line.
use system_studying.Base.{
  ℕ, zero, suc, ◌+◌, ◌-◌, ◌≤◌, ◌<◌, ◌≡◌, ◌≢◌, refl, sym, ap, ◌∙◌, arith, Bool, true, false, List,
  [], ◌∷◌, ◌++◌, append-nil, if◌then◌else◌, ltb, ◌==◌, ◌&&◌, not, length, length-append,
  length-replicate, drop, replicate, All,
}
use system_studying.Shell.{
  skip_spaces, at_end, count_words, next_word, cut_words, parsed, find_cmd, parse_command,
}

-- A word, with the number of spaces behind it less one, or less none at the end of the line.
pub record Word : Type 0 where
  pub first : ℕ
  pub others : List ℕ
  pub spaces : ℕ

abbrev pub text_of : Word → List ℕ
text_of w = w.first ∷ w.others

abbrev pub IsText : List ℕ → Type 0
IsText = All (λ c. c ≢ 32)

abbrev pub line : Word → List Word → List ℕ
line w [] = text_of w ++ replicate w.spaces 32
line w (v ∷ ws) = text_of w ++ (32 ∷ (replicate w.spaces 32 ++ line v ws))

abbrev pub texts : Word → List Word → List (List ℕ)
texts w [] = text_of w ∷ []
texts w (v ∷ ws) = text_of w ∷ texts v ws

skip_spaces-replicate : (n : ℕ) (s : List ℕ) → skip_spaces (replicate n 32 ++ s) ≡ skip_spaces s
skip_spaces-replicate zero s = refl
skip_spaces-replicate (suc n) s = skip_spaces-replicate n s

skip_spaces-text : (c : ℕ) (s : List ℕ) → c ≢ 32 → skip_spaces (c ∷ s) ≡ c ∷ s
skip_spaces-text c s h =
    let other : (c == 32) ≡ false = ground (arith, h) in
    ap (λ b. if b then skip_spaces s else c ∷ s) other

skip_spaces-line :
    (w : Word) (ws : List Word) → IsText (text_of w) → skip_spaces (line w ws) ≡ line w ws
skip_spaces-line w [] h = skip_spaces-text w.first (w.others ++ replicate w.spaces 32) h.0
skip_spaces-line w (v ∷ ws) h =
    skip_spaces-text w.first (w.others ++ (32 ∷ (replicate w.spaces 32 ++ line v ws))) h.0

next_word-append : (t s : List ℕ) → IsText t → at_end s ≡ true → next_word (t ++ s) ≡ (t, s)
next_word-append [] [] h e = refl
next_word-append [] (c ∷ s) h e =
    ap (λ b. if b then ([], c ∷ s) else (c ∷ (next_word s).0, (next_word s).1)) e
next_word-append (c ∷ t) s h e =
    let other : (c == 32) ≡ false = ground (arith, h.0) in
    ap (λ b. if b then ([], c ∷ (t ++ s)) else (c ∷ (next_word (t ++ s)).0, (next_word (t ++ s)).1))
      other
    ∙ ap (λ (r : List ℕ × List ℕ). (c ∷ r.0, r.1)) (next_word-append t s h.1 e)

count_words-cons :
    (i c : ℕ) (s : List ℕ) (b : Bool)
    → i < 256
    → (not (c == 32) && at_end s) ≡ b
    → count_words i (c ∷ s) ≡ (if b then count_words (i + 1) s + 1 else count_words (i + 1) s)
unfolding count_words
count_words-cons i c s b h e =
    let early : ltb i 256 ≡ true = ground (arith, h) in
    let rest = count_words (i + 1) s in
    ap (λ a. if a then (if not (c == 32) && at_end s then rest + 1 else rest) else 0) early
    ∙ ap (λ a. if a then rest + 1 else rest) e

-- A word counts once, where it ends.
count_words-text :
    (c : ℕ) (t s : List ℕ) (i : ℕ)
    → c ≢ 32
    → IsText t
    → at_end s ≡ true
    → i + length (c ∷ t) ≤ 256
    → count_words i ((c ∷ t) ++ s) ≡ count_words (i + length (c ∷ t)) s + 1
count_words-text c [] s i h k e l =
    let text : not (c == 32) ≡ true = ground (arith, h) in
    count_words-cons i c s true (omega (arith, l)) (ap (λ b. b && at_end s) text ∙ e)
count_words-text c (d ∷ t) s i h k e l =
    let text : not (c == 32) ≡ true = ground (arith, h) in
    let no_end : (d == 32) ≡ false = ground (arith, k.0) in
    let there : i + 1 + length (d ∷ t) ≡ i + length (c ∷ d ∷ t) = omega arith in
    count_words-cons i c (d ∷ (t ++ s)) false (omega (arith, l))
      (ap (λ b. b && (d == 32)) text ∙ no_end)
    ∙ count_words-text d t s (i + 1) k.0 k.1 e (omega (arith, l))
    ∙ ap (λ n. count_words n s + 1) there

count_words-spaces :
    (n : ℕ) (s : List ℕ) (i : ℕ)
    → i + n ≤ 256
    → count_words i (replicate n 32 ++ s) ≡ count_words (i + n) s
count_words-spaces zero s i l = let here : i ≡ i + 0 = omega arith in ap (λ n. count_words n s) here
count_words-spaces (suc n) s i l =
    let there : i + 1 + n ≡ i + suc n = omega arith in
    count_words-cons i 32 (replicate n 32 ++ s) false (omega (arith, l)) refl
    ∙ count_words-spaces n s (i + 1) (omega (arith, l))
    ∙ ap (λ k. count_words k s) there

count_words-nil : (i : ℕ) → count_words i [] ≡ 0
unfolding count_words
count_words-nil i = refl

at_end-replicate : (n : ℕ) → at_end (replicate n 32) ≡ true
at_end-replicate zero = refl
at_end-replicate (suc n) = refl

count_words-replicate : (n i : ℕ) → i + n ≤ 256 → count_words i (replicate n 32) ≡ 0
count_words-replicate n i l =
    ap (count_words i) (sym (append-nil (replicate n 32)))
    ∙ count_words-spaces n [] i l
    ∙ count_words-nil (i + n)

abbrev pub AllTexts : List Word → Type 0
AllTexts = All (λ w. IsText (text_of w))

count_words-line :
    (w : Word) (ws : List Word) (i : ℕ)
    → IsText (text_of w)
    → AllTexts ws
    → i + length (line w ws) ≤ 256
    → count_words i (line w ws) ≡ suc (length ws)
count_words-line w [] i h k l =
    let size = length-append (text_of w) (replicate w.spaces 32) in
    let width = length-replicate w.spaces 32 in
    count_words-text w.first w.others (replicate w.spaces 32) i h.0 h.1 (at_end-replicate w.spaces)
      (omega (arith, l, size))
    ∙ ap (λ n. n + 1)
        (count_words-replicate w.spaces (i + length (text_of w)) (omega (arith, l, size, width)))
count_words-line w (v ∷ ws) i h k l =
    let rest = line v ws in
    let gap : List ℕ = replicate w.spaces 32 in
    let size = length-append (text_of w) (32 ∷ (gap ++ rest)) in
    let size' = length-append gap rest in
    let width = length-replicate w.spaces 32 in
    let at = i + length (text_of w) in
    count_words-text w.first w.others (32 ∷ (gap ++ rest)) i h.0 h.1 refl (omega (arith, l, size))
    ∙ ap (λ n. n + 1)
        (count_words-spaces (suc w.spaces) rest at (omega (arith, l, size, size', width))
          ∙ count_words-line v ws (at + suc w.spaces) k.0 k.1
              (omega (arith, l, size, size', width)))
    ∙ (let e : suc (length ws) + 1 ≡ suc (suc (length ws)) = omega arith in e)

parsed-texts :
    (w : Word) (ws : List Word) → parsed (texts w ws) ≡ (find_cmd (text_of w), texts w ws)
parsed-texts w [] = refl
parsed-texts w (v ∷ ws) = refl

cut_words-suc :
    (n j : ℕ) (s w rest left : List ℕ)
    → j < 256
    → next_word s ≡ (w, rest)
    → skip_spaces (drop 1 rest) ≡ left
    → cut_words (suc n) j s ≡ w ∷ cut_words n (j + (length s - length left)) left
unfolding cut_words
cut_words-suc n j s w rest left h e k =
    let early : ltb j 256 ≡ true = ground (arith, h) in
    let go = λ (r : List ℕ × List ℕ).
      r.0
      ∷ cut_words n (j + (length s - length (skip_spaces (drop 1 r.1))))
          (skip_spaces (drop 1 r.1)) in
    ap (λ b. if b then go (next_word s) else []) early
    ∙ ap go e
    ∙ ap (λ l. w ∷ cut_words n (j + (length s - length l)) l) k

-- The words that are cut out are those of the line.
cut_words-line :
    (w : Word) (ws : List Word) (j : ℕ)
    → IsText (text_of w)
    → AllTexts ws
    → j + length (line w ws) ≤ 256
    → cut_words (suc (length ws)) j (line w ws) ≡ texts w ws
unfolding cut_words
cut_words-line w [] j h k l =
    let gap : List ℕ = replicate w.spaces 32 in
    cut_words-suc 0 j (text_of w ++ gap) (text_of w) gap (skip_spaces (drop 1 gap))
      (omega (arith, l)) (next_word-append (text_of w) gap h (at_end-replicate w.spaces)) refl
cut_words-line w (v ∷ ws) j h k l =
    let gap : List ℕ = replicate w.spaces 32 in
    let rest : List ℕ = line v ws in
    let size = length-append (text_of w) (32 ∷ (gap ++ rest)) in
    let size' = length-append gap rest in
    cut_words-suc (suc (length ws)) j (line w (v ∷ ws)) (text_of w) (32 ∷ (gap ++ rest)) rest
      (omega (arith, l)) (next_word-append (text_of w) (32 ∷ (gap ++ rest)) h refl)
      (skip_spaces-replicate w.spaces rest ∙ skip_spaces-line v ws k.0)
    ∙ ap (λ ts. text_of w ∷ ts)
        (cut_words-line v ws (j + (length (line w (v ∷ ws)) - length rest)) k.0 k.1
          (omega (arith, l, size, size')))

-- A line of words with any spaces around them, of at most 256 bytes, is parsed into these words, and
-- the first of them is looked up as the command.
pub parse_command-line :
    (k : ℕ) (w : Word) (ws : List Word)
    → IsText (text_of w)
    → AllTexts ws
    → k + length (line w ws) ≤ 256
    → parse_command (replicate k 32 ++ line w ws) ≡ (find_cmd (text_of w), texts w ws)
unfolding parse_command
parse_command-line k w ws h hs l =
    let s : List ℕ = line w ws in
    let lead = skip_spaces-replicate k s ∙ skip_spaces-line w ws h in
    let start : length (replicate k 32 ++ s) - length s ≡ k =
      omega (arith, length-append (replicate k 32) s, length-replicate k 32) in
    ap
      (λ u. parsed (
        cut_words (count_words (length (replicate k 32 ++ s) - length u) u)
          (length (replicate k 32 ++ s) - length u) u))
      lead
    ∙ ap (λ j. parsed (cut_words (count_words j s) j s)) start
    ∙ ap (λ n. parsed (cut_words n k s)) (count_words-line w ws k h hs l)
    ∙ ap parsed (cut_words-line w ws k h hs l)
    ∙ parsed-texts w ws
