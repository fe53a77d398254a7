-- ===== src/Shell.antt =====
-- The command line of os/user/init.c: `parse_command` and `find_cmd`. The buffer is the list of its
-- bytes before the first NUL; behind them it holds zeros, as `main` clears it.
pub mod Words
mod Tests
use system_studying.Base.{
  ℕ, zero, suc, ◌+◌, ◌-◌, ◌≡◌, Bool, true, false, Option, none, some, List, [], ◌∷◌, if◌then◌else◌,
  ltb, ◌==◌, ◌&&◌, not, length, drop,
}
use system_studying.Base.Int.{ℤ, pos, negsuc}

-- `!strcmp`
abbrev pub same_text : List ℕ → List ℕ → Bool
same_text [] [] = true
same_text [] (d ∷ t) = false
same_text (c ∷ s) [] = false
same_text (c ∷ s) (d ∷ t) = c == d && same_text s t

-- The names of `shell_internal_cmd`.
abbrev pub shell_internal_cmd : List (List ℕ)
shell_internal_cmd =
    (b'c' ∷ b'd' ∷ [])
    ∷ (b'l' ∷ b's' ∷ [])
    ∷ (b'p' ∷ b'w' ∷ b'd' ∷ [])
    ∷ (b'c' ∷ b'a' ∷ b't' ∷ [])
    ∷ (b't' ∷ b'o' ∷ b'u' ∷ b'c' ∷ b'h' ∷ [])
    ∷ (b'r' ∷ b'm' ∷ [])
    ∷ (b'm' ∷ b'k' ∷ b'd' ∷ b'i' ∷ b'r' ∷ [])
    ∷ (b'r' ∷ b'm' ∷ b'd' ∷ b'i' ∷ b'r' ∷ [])
    ∷ (b'e' ∷ b'x' ∷ b'e' ∷ b'c' ∷ [])
    ∷ (b'r' ∷ b'e' ∷ b'b' ∷ b'o' ∷ b'o' ∷ b't' ∷ [])
    ∷ []

-- The loop of `find_cmd` at the index `i`.
abbrev pub find_from : ℕ → List (List ℕ) → List ℕ → ℤ
find_from i [] cmd = negsuc 0
find_from i (name ∷ names) cmd = if same_text cmd name then pos i else find_from (suc i) names cmd

unfoldable pub find_cmd : List ℕ → ℤ
find_cmd cmd = find_from 0 shell_internal_cmd cmd

-- `while (buf[j] == ' ') j++`
abbrev pub skip_spaces : List ℕ → List ℕ
skip_spaces [] = []
skip_spaces (c ∷ s) = if c == 32 then skip_spaces s else c ∷ s

-- The next byte is a space or the NUL.
abbrev pub at_end : List ℕ → Bool
at_end [] = true
at_end (c ∷ s) = c == 32

-- The loop that counts the words, at the index `i`.
unfoldable pub count_words : ℕ → List ℕ → ℕ
count_words i [] = 0
count_words i (c ∷ s) =
    let rest = count_words (i + 1) s in
    if ltb i 256 then (if not (c == 32) && at_end s then rest + 1 else rest) else 0

-- `while (buf[j] && buf[j] != ' ') j++`: the word and what is left.
abbrev pub next_word : List ℕ → List ℕ × List ℕ
next_word [] = ([], [])
next_word (c ∷ s) = let (w, rest) = next_word s in if c == 32 then ([], c ∷ s) else (c ∷ w, rest)

-- The loop that cuts the words out, at the index `j`, with `n` words to go. Where a word ends, its
-- space is overwritten by a NUL.
unfoldable pub cut_words : ℕ → ℕ → List ℕ → List (List ℕ)
cut_words zero j s = []
cut_words (suc n) j s =
    let (w, rest) = next_word s in
    let left = skip_spaces (drop 1 rest) in
    let more = cut_words n (j + (length s - length left)) left in if ltb j 256 then w ∷ more else []

-- The index of the command, and the words.
abbrev pub parsed : List (List ℕ) → ℤ × List (List ℕ)
parsed [] = (negsuc 0, [])
parsed (w ∷ argv) = (find_cmd w, w ∷ argv)

unfoldable pub parse_command : List ℕ → ℤ × List (List ℕ)
unfolding count_words cut_words find_cmd
parse_command buf =
    let s = skip_spaces buf in
    let j = length buf - length s in parsed (cut_words (count_words j s) j s)
