-- ===== src/Sys/Calls.antt =====
-- `sys_close`, `sys_read`, `sys_write` and `sys_lseek`: the descriptor first.
use system_studying.Base.{
  ℕ, zero, suc, Bool, true, Option, none, some, List, [], ◌∷◌, if◌then◌else◌, leb, ◌==◌, set,
}
use system_studying.Base.Int.{ℤ, pos, negsuc, pos_part, ltb_ℤ}
use system_studying.Sys.{Filp, FileOperations, Files, Kernel, e_badf, e_inval, task_file_max, kfree}

-- `fd < 0 || fd >= TASK_FILE_MAX`
abbrev pub bad_fd : ℤ → Bool
bad_fd (pos n) = leb task_file_max n
bad_fd (negsuc n) = true

-- `whence < 0 || whence >= SEEK_MAX`
abbrev pub bad_whence : ℤ → Bool
bad_whence (pos n) = leb 3 n
bad_whence (negsuc n) = true

-- `current->filestruct[fd]`, with `none` for NULL.
abbrev pub file_at : ℕ → List (Option Filp) → Option Filp
file_at fd [] = none
file_at zero (slot ∷ slots) = slot
file_at (suc fd) (slot ∷ slots) = file_at fd slots

module _ {W : Type 0} (kernel : Kernel W) where
  abbrev pub ops_of : Filp → FileOperations W
  ops_of filp = kernel.operations filp.f_ops

  -- `filp->f_ops && filp->f_ops->op`
  abbrev pub op_of {ℓ} : {A : Type ℓ} → Filp → Option A → Option A
  op_of filp op = if filp.f_ops == 0 then none else op

  abbrev pub closed : ℕ → Files W → ℤ × Files W
  closed fd st = (pos 0, record (kfree kernel st) { filestruct = set st.filestruct fd none })

  abbrev pub call_close : ℕ → Filp → Option (ℕ → Filp → W → ℤ × W) → Files W → ℤ × Files W
  call_close fd filp none st = closed fd st
  call_close fd filp (some op) st =
      closed fd (record st { world = (op filp.dir_inode filp st.world).1 })

  abbrev pub close_file : ℕ → Option Filp → Files W → Option (ℤ × Files W)
  close_file fd none st = none
  close_file fd (some filp) st = some (call_close fd filp (op_of filp (ops_of filp).close_op) st)

  unfoldable pub sys_close : ℤ → Files W → Option (ℤ × Files W)
  sys_close fd st =
      if bad_fd fd
      then some (e_badf, st)
      else close_file (pos_part fd) (file_at (pos_part fd) st.filestruct) st

  -- What an operation returns, with the position that it leaves in the file.
  abbrev pub moved : ℕ → Filp → Files W → ℤ × ℤ × W → ℤ × Files W
  moved fd filp st (ret, position, world) = (
    ret,
    record st {
      filestruct = set st.filestruct fd (some (record filp { position = position }));
      world = world;
    },
  )

  abbrev pub call_transfer :
      ℕ → Filp → ℕ → ℤ → Option (Filp → ℕ → ℤ → W → ℤ × ℤ × W) → Files W → ℤ × Files W
  call_transfer fd filp buf count none st = (pos 0, st)
  call_transfer fd filp buf count (some op) st = moved fd filp st (op filp buf count st.world)

  abbrev pub read_file : ℕ → ℕ → ℤ → Option Filp → Files W → Option (ℤ × Files W)
  read_file fd buf count none st = none
  read_file fd buf count (some filp) st =
      some (call_transfer fd filp buf count (op_of filp (ops_of filp).read_op) st)

  abbrev pub write_file : ℕ → ℕ → ℤ → Option Filp → Files W → Option (ℤ × Files W)
  write_file fd buf count none st = none
  write_file fd buf count (some filp) st =
      some (call_transfer fd filp buf count (op_of filp (ops_of filp).write_op) st)

  unfoldable pub sys_read : ℤ → ℕ → ℤ → Files W → Option (ℤ × Files W)
  sys_read fd buf count st =
      if bad_fd fd
      then some (e_badf, st)
      else if ltb_ℤ count (pos 0)
      then some (e_inval, st)
      else read_file (pos_part fd) buf count (file_at (pos_part fd) st.filestruct) st

  unfoldable pub sys_write : ℤ → ℕ → ℤ → Files W → Option (ℤ × Files W)
  sys_write fd buf count st =
      if bad_fd fd
      then some (e_badf, st)
      else if ltb_ℤ count (pos 0)
      then some (e_inval, st)
      else write_file (pos_part fd) buf count (file_at (pos_part fd) st.filestruct) st

  abbrev pub call_lseek :
      ℕ → Filp → ℤ → ℤ → Option (Filp → ℤ → ℤ → W → ℤ × ℤ × W) → Files W → ℤ × Files W
  call_lseek fd filp offset whence none st = (pos 0, st)
  call_lseek fd filp offset whence (some op) st = moved fd filp st (op filp offset whence st.world)

  abbrev pub seek_file : ℕ → ℤ → ℤ → Option Filp → Files W → Option (ℤ × Files W)
  seek_file fd offset whence none st = none
  seek_file fd offset whence (some filp) st =
      some (call_lseek fd filp offset whence (op_of filp (ops_of filp).lseek_op) st)

  unfoldable pub sys_lseek : ℤ → ℤ → ℤ → Files W → Option (ℤ × Files W)
  sys_lseek fd offset whence st =
      if bad_fd fd
      then some (e_badf, st)
      else if bad_whence whence
      then some (e_inval, st)
      else seek_file (pos_part fd) offset whence (file_at (pos_part fd) st.filestruct) st
