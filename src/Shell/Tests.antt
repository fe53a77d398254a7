-- ===== src/Shell/Tests.antt =====
-- The line "  ls  a ".
use system_studying.Base.{◌≡◌, refl, [], ◌∷◌, ◌++◌, replicate, arith}
use system_studying.Base.Int.{pos, negsuc}
use system_studying.Shell.{find_cmd, parse_command}
use system_studying.Shell.Words.{Word, line, parse_command-line}

abbrev ls : Word
ls = record { first = 108; others = 115 ∷ []; spaces = 1 }

abbrev a : Word
a = record { first = 97; others = []; spaces = 1 }

parse_command-line_example :
    parse_command (replicate 2 32 ++ line ls (a ∷ []))
    ≡ (find_cmd (108 ∷ 115 ∷ []), (108 ∷ 115 ∷ []) ∷ (97 ∷ []) ∷ [])
parse_command-line_example =
    parse_command-line 2 ls (a ∷ []) (omega arith, (omega arith, tt)) ((omega arith, tt), tt)
      (omega arith)

find_ls : find_cmd (108 ∷ 115 ∷ []) ≡ pos 1
unfolding find_cmd
find_ls = refl

find_none : find_cmd (108 ∷ []) ≡ negsuc 0
unfolding find_cmd
find_none = refl
