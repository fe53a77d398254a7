-- ===== src/Vfs/Tests.antt =====
-- A directory tree in which an entry is a number: 1 is the root, "a" leads from it to 2, and "b" from 2
-- to 3.
use system_studying.Base.{ℕ, ◌≡◌, Option, none, some, List, [], ◌∷◌, arith, if◌then◌else◌, ◌==◌}
use system_studying.Vfs.{path_walk}
use system_studying.Vfs.Walk.{Part, path_walk-spell}

abbrev lookup : ℕ → List ℕ → Option ℕ
lookup parent [] = none
lookup parent (c ∷ name) =
    if c == 97 then (if parent == 1 then some 2 else none) else if parent == 2 then some 3 else none

abbrev a : Part
a = record { first = 97; others = []; slashes = 1 }

abbrev b : Part
b = record { first = 98; others = []; slashes = 1 }

-- "//a//b/" with the flags 1 is the directory "a".
path_walk-spell_example :
    path_walk lookup 2 1 1 (47 ∷ 47 ∷ 97 ∷ 47 ∷ 47 ∷ 98 ∷ 47 ∷ []) ≡ some (some 2)
path_walk-spell_example =
    path_walk-spell lookup 2 1 1 2 a (b ∷ []) (omega arith) ((λ e. omega (arith, e)), tt)
      (((λ e. omega (arith, e)), tt), tt)
