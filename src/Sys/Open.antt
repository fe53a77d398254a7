-- ===== src/Sys/Open.antt =====
-- What `sys_open` and `sys_device_openkeyboard` do to the table of open files.
use system_studying.Sys.Slots.{Lowest}
use system_studying.Base.{Option, none, set, some, suc, ℕ, ◌+◌, ◌≤◌, ◌≡◌}
use system_studying.Base.Int.{negsuc, pos, ℤ}
use system_studying.Sys.Memory.{NoMemory}
use system_studying.Sys.{Files, Filp, Kernel}

module _ {W : Type 0} (kernel : Kernel W) where
  -- An error leaves the table of open files. A descriptor is the lowest one without a file; a new file
  -- with the flags of the call stands there, in one more block. `kept` blocks more are held.
  abbrev pub Outcome : ℕ → ℕ → Files W → ℤ × Files W → Type 0
  Outcome kept flags st (negsuc e, st') =
      (st'.filestruct ≡ st.filestruct) × (st'.allocated ≡ st.allocated + kept)
  Outcome kept flags st (pos fd, st') =
      Lowest fd st.filestruct
      × (filp : Filp) × (filp.mode ≡ flags)
      × (st'.filestruct ≡ set st.filestruct fd (some filp))
      × (st'.allocated ≡ suc (st.allocated + kept))

  -- The call faults only if `kmalloc` gives NULL, with at most the blocks of these entries and one more
  -- held, and its result is as above, with the two blocks of at
  -- most `n` directory entries kept.
  abbrev pub Returns : ℕ → ℕ → Files W → Option (ℤ × Files W) → Type 0
  Returns n flags st none = NoMemory kernel st.allocated (suc (st.allocated + (n + n)))
  Returns n flags st (some r) = (k : ℕ) × (k ≤ n) × Outcome (k + k) flags st r

  -- Behind `path_walk`, which has left `st`.
  abbrev Opens : ℕ → Files W → Option (ℤ × Files W) → Type 0
  Opens flags st none = NoMemory kernel st.allocated st.allocated
  Opens flags st (some r) = Outcome 0 flags st r
