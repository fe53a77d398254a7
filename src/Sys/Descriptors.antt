-- ===== src/Sys/Descriptors.antt =====
-- The life of a descriptor over the calls of os/kernel/sys.c.
use system_studying.Base.Int.{pos_part}
use system_studying.Sys.Calls.{
  file_at, bad_fd, bad_whence, sys_close, sys_read, sys_write, sys_lseek, closed, call_close,
  close_file, read_file, write_file, seek_file, op_of, ops_of,
}
use system_studying.Base.{if◌then◌else◌, ◌↔◌}
use system_studying.Sys.Calls.{
  file_at, bad_fd, bad_whence, sys_close, sys_read, sys_write, sys_lseek, closed, call_close,
  close_file, read_file, write_file, seek_file, op_of, ops_of,
}
use system_studying.Base.{
  ℕ, suc, ◌+◌, ◌≤◌, ◌<◌, ◌≡◌, refl, arith, Bool, true, false, Option, none, some,
}
use system_studying.Base.Int.{ℤ, pos, negsuc, ltb_ℤ}
use system_studying.Sys.{Filp, Files, Kernel, e_badf, e_inval, task_file_max}
use system_studying.Sys.Calls.{
  file_at, bad_fd, bad_whence, sys_close, sys_read, sys_write, sys_lseek, closed, call_close,
  close_file, read_file, write_file, seek_file, op_of, ops_of,
}

guard_faults :
    {A : Type 0} (bad : Bool) (a : A) (x : Option A)
    → ((if bad then some a else x) ≡ none) ↔ ((bad ≡ false) × (x ≡ none))
guard_faults true a x = (λ e. cc e, λ h. cc (h.0))
guard_faults false a x = (λ e. (refl, e), λ h. h.1)

abbrev pub NonNegative : ℤ → Type 0
NonNegative (pos n) = Unit
NonNegative (negsuc n) = ⊥

non_negative : (count : ℤ) → (ltb_ℤ count (pos 0) ≡ false) ↔ NonNegative count
non_negative (pos n) = (λ e. tt, λ h. ground arith)
non_negative (negsuc n) = (λ e. ground arith, λ h. absurd h)

abbrev pub IsWhence : ℤ → Type 0
IsWhence (pos n) = n < 3
IsWhence (negsuc n) = ⊥

is_whence : (whence : ℤ) → (bad_whence whence ≡ false) ↔ IsWhence whence
is_whence (pos n) = (λ e. ground arith, λ h. ground arith)
is_whence (negsuc n) = (λ e. cc e, λ h. absurd h)

module _ {W : Type 0} (kernel : Kernel W) where
  -- A descriptor in range, without a file.
  abbrev pub Unused : ℤ → Files W → Type 0
  Unused (pos n) st = (n < task_file_max) × (file_at n st.filestruct ≡ none)
  Unused (negsuc n) st = ⊥

  unused :
      (fd : ℤ) (st : Files W)
      → ((bad_fd fd ≡ false) × (file_at (pos_part fd) st.filestruct ≡ none)) ↔ Unused fd st
  unused (pos n) st = (λ h. (ground arith, h.1), λ h. (ground arith, h.1))
  unused (negsuc n) st = (λ h. cc (h.0), λ h. absurd h)

  close_file-none :
      (fd : ℕ) (slot : Option Filp) (st : Files W)
      → (close_file kernel fd slot st ≡ none) ↔ (slot ≡ none)
  close_file-none fd none st = (λ e. refl, λ e. refl)
  close_file-none fd (some filp) st = (λ e. cc e, λ e. cc e)

  read_file-none :
      (fd buf : ℕ) (count : ℤ) (slot : Option Filp) (st : Files W)
      → (read_file kernel fd buf count slot st ≡ none) ↔ (slot ≡ none)
  read_file-none fd buf count none st = (λ e. refl, λ e. refl)
  read_file-none fd buf count (some filp) st = (λ e. cc e, λ e. cc e)

  write_file-none :
      (fd buf : ℕ) (count : ℤ) (slot : Option Filp) (st : Files W)
      → (write_file kernel fd buf count slot st ≡ none) ↔ (slot ≡ none)
  write_file-none fd buf count none st = (λ e. refl, λ e. refl)
  write_file-none fd buf count (some filp) st = (λ e. cc e, λ e. cc e)

  seek_file-none :
      (fd : ℕ) (offset whence : ℤ) (slot : Option Filp) (st : Files W)
      → (seek_file kernel fd offset whence slot st ≡ none) ↔ (slot ≡ none)
  seek_file-none fd offset whence none st = (λ e. refl, λ e. refl)
  seek_file-none fd offset whence (some filp) st = (λ e. cc e, λ e. cc e)

  -- Two guards in front of an operation that faults just where the slot is empty.
  guards_fault :
      {X : Type 0} (fd : ℤ) (bad : Bool) (a b : ℤ × Files W) (x : Option (ℤ × Files W))
      (st : Files W)
      → (x ≡ none) ↔ (file_at (pos_part fd) st.filestruct ≡ none)
      → (bad ≡ false) ↔ X
      → ((if bad_fd fd then some a else if bad then some b else x) ≡ none) ↔ (Unused fd st × X)
  guards_fault fd bad a b x st slot arg =
      let outer = guard_faults (bad_fd fd) a (if bad then some b else x) in
      let inner = guard_faults bad b x in
      (
        λ e.
            let (ok, rest) = outer.0 e in
            let (good, fault) = inner.0 rest in ((unused fd st).0 (ok, slot.0 fault), arg.0 good),
        λ h.
            let (ok, empty) = (unused fd st).1 h.0 in
            outer.1 (ok, inner.1 (arg.1 h.1, slot.1 empty)),
      )

  close_faults : (fd : ℤ) (st : Files W) → (sys_close kernel fd st ≡ none) ↔ Unused fd st
  unfolding sys_close
  close_faults fd st =
      let slot = file_at (pos_part fd) st.filestruct in
      let guard = guard_faults (bad_fd fd) (e_badf, st) (close_file kernel (pos_part fd) slot st) in
      let body = close_file-none (pos_part fd) slot st in
      (
        λ e. let (ok, fault) = guard.0 e in (unused fd st).0 (ok, body.0 fault),
        λ h. let (ok, empty) = (unused fd st).1 h in guard.1 (ok, body.1 empty),
      )

  -- The four calls use a NULL pointer just on a descriptor in range that has no file, where the
  -- other arguments are in range too.
  pub empty_slot_faults :
      (fd : ℤ) (buf : ℕ) (count offset whence : ℤ) (st : Files W)
      → ((sys_close kernel fd st ≡ none) ↔ Unused fd st)
        × ((sys_read kernel fd buf count st ≡ none) ↔ (Unused fd st × NonNegative count))
        × ((sys_write kernel fd buf count st ≡ none) ↔ (Unused fd st × NonNegative count))
        × ((sys_lseek kernel fd offset whence st ≡ none) ↔ (Unused fd st × IsWhence whence))
  unfolding sys_read sys_write sys_lseek
  empty_slot_faults fd buf count offset whence st =
      let n = pos_part fd in
      let slot = file_at n st.filestruct in
      let bad = ltb_ℤ count (pos 0) in
      (
        close_faults fd st,
        guards_fault fd bad (e_badf, st) (e_inval, st) (read_file kernel n buf count slot st) st
            (read_file-none n buf count slot st) (non_negative count),
        guards_fault fd bad (e_badf, st) (e_inval, st) (write_file kernel n buf count slot st) st
            (write_file-none n buf count slot st) (non_negative count),
        guards_fault fd (bad_whence whence) (e_badf, st) (e_inval, st)
            (seek_file kernel n offset whence slot st) st (seek_file-none n offset whence slot st)
            (is_whence whence),
      )

  -- What `sys_close` does to the descriptor that an open call has returned, which has kept the two blocks
  -- of at most `n` directory entries.
  abbrev pub Reverts : ℕ → Files W → Option (ℤ × Files W) → Type 0
  Reverts n st none = Unit
  Reverts n st (some (negsuc e, st')) = Unit
  Reverts n st (some (pos fd, st')) =
      (st2 : Files W) × (sys_close kernel (pos fd) st' ≡ some (pos 0, st2))
      × (st2.filestruct ≡ st.filestruct)
      × (k : ℕ) × (k ≤ n)
      × (st'.allocated ≡ suc (st.allocated + (k + k)))
      × (st2.allocated ≡ st.allocated + (k + k))
