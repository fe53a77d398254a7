-- ===== src/Vfs.antt =====
-- `path_walk` of os/kernel/vfs.c over the `lookup` of a file system. A directory entry is an item of
-- `Entry`, and a name the list of its bytes without the NUL. The memory of a new entry, and its place
-- in the list of its parent, are left out.
pub mod Walk
pub mod Ends
mod Tests
use system_studying.Base.{
  ℕ, zero, suc, ◌%◌, Bool, true, false, Option, none, some, List, [], ◌∷◌, if◌then◌else◌, ◌==◌,
}

-- `while (*name == '/') name++`
abbrev pub skip_slashes : List ℕ → List ℕ
skip_slashes [] = []
skip_slashes (c ∷ name) = if c == 47 then skip_slashes name else c ∷ name

-- The name up to the next slash, and what follows.
abbrev pub next_part : List ℕ → List ℕ × List ℕ
next_part [] = ([], [])
next_part (c ∷ name) =
    let (part, rest) = next_part name in if c == 47 then ([], c ∷ name) else (c ∷ part, rest)

module _ {Entry : Type 0} (lookup : Entry → List ℕ → Option Entry) where
  -- What comes behind a lookup in `parent`, with the rest of the name behind its slashes.
  abbrev pub walk_on :
      (Entry → List ℕ → Option (Option (Entry × Entry)))
      → Entry
      → Option Entry
      → List ℕ
      → Option (Option (Entry × Entry))
  walk_on walk parent none more = some none
  walk_on walk parent (some path) [] = some (some (parent, path))
  walk_on walk parent (some path) (c ∷ more) = walk path (c ∷ more)

  -- The loop at `name` in the directory `parent`: the last directory and the entry found in it, or
  -- `some none` if a part is not found there.
  unfoldable pub walk_loop : ℕ → Entry → List ℕ → Option (Option (Entry × Entry))
  walk_loop zero parent name = none
  walk_loop (suc f) parent name =
      let (part, rest) = next_part name in
      walk_on (walk_loop f) parent (lookup parent part) (skip_slashes rest)

  abbrev pub chosen : ℕ → Option (Option (Entry × Entry)) → Option (Option Entry)
  chosen flags none = none
  chosen flags (some none) = some none
  chosen flags (some (some (parent, path))) = some (some (if flags % 2 == 1 then parent else path))

  abbrev pub walk_from : ℕ → Entry → ℕ → List ℕ → Option (Option Entry)
  walk_from fuel root flags [] = some (some root)
  walk_from fuel root flags (c ∷ name) = chosen flags (walk_loop fuel root (c ∷ name))

  unfoldable pub path_walk : ℕ → Entry → ℕ → List ℕ → Option (Option Entry)
  path_walk fuel root flags name = walk_from fuel root flags (skip_slashes name)
