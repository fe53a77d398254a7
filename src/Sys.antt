-- ===== src/Sys.antt =====
-- The system calls on files: os/kernel/sys.c over `path_walk`, with the checks of user memory of
-- os/kernel/lib.h. A result `none` is a fault in the kernel, such as the use of a NULL pointer.
pub mod Area
pub mod Calls
pub mod Memory
pub mod Slots
pub mod Open
pub mod Descriptors
mod Tests
use system_studying.Base.{
  ℕ, zero, suc, ◌+◌, ◌-◌, ◌%◌, ◌^◌, Bool, true, false, Option, none, some, List, [], ◌∷◌,
  if◌then◌else◌, ltb, leb, ◌==◌, ◌||◌, length, get_elem?, set,
}
use system_studying.Base.Bits.{bit}
use system_studying.Base.Int.{ℤ, pos, negsuc, pos_part, ltb_ℤ}
use system_studying.Links.{update}
use system_studying.Vfs.{path_walk, skip_slashes, next_part}

-- The negated error numbers of os/kernel/errno.h.
abbrev pub e_badf : ℤ
e_badf = negsuc 7

abbrev pub e_fault : ℤ
e_fault = negsuc 20

abbrev pub e_inval : ℤ
e_inval = negsuc 27

abbrev pub e_isdir : ℤ
e_isdir = negsuc 30

abbrev pub e_mfile : ℤ
e_mfile = negsuc 32

abbrev pub e_nametoolong : ℤ
e_nametoolong = negsuc 36

abbrev pub e_noent : ℤ
e_noent = negsuc 44

abbrev pub e_nomem : ℤ
e_nomem = negsuc 48

abbrev pub task_file_max : ℕ
task_file_max = 10

abbrev pub page_4k_size : ℕ
page_4k_size = 4096

-- `sizeof(struct file)`
abbrev pub sizeof_file : ℕ
sizeof_file = 40

-- `((addr) + size) <= 0x00007fffffffffff`, where the sum wraps around.
abbrev pub verify_area : ℕ → ℕ → Bool
verify_area addr size = leb ((addr + size) % 2 ^ 64) (2 ^ 47 - 1)

-- The length of the text `s` at the address `src`.
abbrev pub strnlen_user : ℕ → List ℕ → ℕ → ℕ
strnlen_user src s maxlen =
    if verify_area src (length s) then if leb (length s) maxlen then length s else maxlen else 0

-- `struct file`; an index node and a table of operations go by their addresses.
pub record Filp : Type 0 where
  pub position : ℤ
  pub mode : ℕ
  pub dir_inode : ℕ
  pub f_ops : ℕ

-- `struct file_operations`, with `none` for NULL. `W` is what the operations work on.
pub record FileOperations (W : Type 0) : Type 0 where
  pub open_op : Option (ℕ → Filp → W → ℤ × W)
  pub close_op : Option (ℕ → Filp → W → ℤ × W)
  pub read_op : Option (Filp → ℕ → ℤ → W → ℤ × ℤ × W)
  pub write_op : Option (Filp → ℕ → ℤ → W → ℤ × ℤ × W)
  pub lseek_op : Option (Filp → ℤ → ℤ → W → ℤ × ℤ × W)

-- The open files of the current task, the sizes of files, and how many blocks of memory the calls
-- have taken from `kmalloc` and not given back, the directory entries of `path_walk` and their names
-- among them.
pub record Files (W : Type 0) : Type 0 where
  pub filestruct : List (Option Filp)
  pub file_size : ℕ → ℕ
  pub allocated : ℕ
  pub world : W

-- The rest of the kernel: whether `kmalloc` of a size succeeds, the tables of operations, the directory entries
-- with their index nodes.
pub record Kernel (W : Type 0) : Type 0 where
  pub has_memory : ℕ → ℕ → Bool
  pub operations : ℕ → FileOperations W
  pub lookup : ℕ → List ℕ → Option ℕ
  pub root : ℕ
  pub inode_of : ℕ → ℕ
  pub attribute : ℕ → ℕ
  pub inode_f_ops : ℕ → ℕ

-- `sizeof(struct dir_entry)`
abbrev pub sizeof_dir_entry : ℕ
sizeof_dir_entry = 72

-- `for (i = 0; i < TASK_FILE_MAX; i++)` over the slots from `i` on.
abbrev pub free_slot : ℕ → List (Option Filp) → Option ℕ
free_slot i [] = none
free_slot i (none ∷ slots) = some i
free_slot i (some filp ∷ slots) = free_slot (suc i) slots

module _ {W : Type 0} (kernel : Kernel W) where
  abbrev pub kfree : Files W → Files W
  kfree st = record st { allocated = st.allocated - 1 }

  abbrev pub kmalloc : ℕ → Files W → Option (Files W)
  kmalloc size st =
      if kernel.has_memory size st.allocated
      then some (record st { allocated = st.allocated + 1 })
      else none

  abbrev pub store_file : Files W → Filp → Option ℕ → Option (ℤ × Files W)
  store_file st filp none = some (e_mfile, kfree st)
  store_file st filp (some fd) =
      some (pos fd, record st { filestruct = set st.filestruct fd (some filp) })

  -- O_TRUNC and O_APPEND.
  abbrev pub truncate : Filp → Files W → Files W
  truncate filp st =
      if bit filp.mode 9 == 1
      then record st { file_size = update st.file_size filp.dir_inode 0 }
      else st

  abbrev pub append_at : Filp → Files W → Filp
  append_at filp st =
      if bit filp.mode 10 == 1
      then record filp { position = pos (st.file_size filp.dir_inode) }
      else filp

  -- Behind the operation `open`, which has given `error`.
  abbrev pub opened : Filp → ℤ → Files W → Option (ℤ × Files W)
  opened filp (pos (suc zero)) st =
      let st' = truncate filp st in store_file st' (append_at filp st') (free_slot 0 st'.filestruct)
  opened filp error st = some (e_fault, kfree st)

  abbrev pub call_open : Filp → Option (ℕ → Filp → W → ℤ × W) → Files W → Option (ℤ × Files W)
  call_open filp none st = opened filp (pos 0) st
  call_open filp (some op) st =
      let (error, world) = op filp.dir_inode filp st.world in
      opened filp error (record st { world = world })

  -- `filp->f_ops && filp->f_ops->open`
  abbrev pub open_of : ℕ → Option (ℕ → Filp → W → ℤ × W)
  open_of f_ops = if f_ops == 0 then none else (kernel.operations f_ops).open_op

  -- A failed `kmalloc` is not looked at.
  abbrev pub new_file : ℕ → ℕ → ℕ → Option (Files W) → Option (ℤ × Files W)
  new_file inode flags f_ops none = none
  new_file inode flags f_ops (some st) =
      call_open (record { position = pos 0; mode = flags; dir_inode = inode; f_ops = f_ops })
        (open_of f_ops) st

  -- The entry that `path_walk` has found; `choose` gives its table of operations.
  abbrev pub open_entry : (ℕ → ℕ) → ℕ → Files W → Option (Option ℕ) → Option (ℤ × Files W)
  open_entry choose flags st none = none
  open_entry choose flags st (some none) = some (e_noent, st)
  open_entry choose flags st (some (some dentry)) =
      let inode = kernel.inode_of dentry in
      if kernel.attribute inode == 2
      then some (e_isdir, st)
      else new_file inode flags (choose inode) (kmalloc sizeof_file st)

  -- The two blocks of a new directory entry; a failed `kmalloc` is not looked at.
  abbrev pub name_memory : List ℕ → Option (Files W) → Option (Files W)
  name_memory part none = none
  name_memory part (some st) = kmalloc (suc (length part)) st

  -- They are given back where the lookup has failed, and else kept.
  abbrev pub keep_memory :
      (ℕ → List ℕ → Files W → Option (Files W))
      → Option ℕ
      → List ℕ
      → Option (Files W)
      → Option (Files W)
  keep_memory walk found more none = none
  keep_memory walk none more (some st) = some (kfree (kfree st))
  keep_memory walk (some path) [] (some st) = some st
  keep_memory walk (some path) (c ∷ more) (some st) = walk path (c ∷ more) st

  -- What the loop of `path_walk` does to the memory, beside its result.
  unfoldable pub walk_memory : ℕ → ℕ → List ℕ → Files W → Option (Files W)
  walk_memory zero parent name st = none
  walk_memory (suc f) parent name st =
      let (part, rest) = next_part name in
      keep_memory (walk_memory f) (kernel.lookup parent part) (skip_slashes rest)
        (name_memory part (kmalloc sizeof_dir_entry st))

  abbrev pub path_memory : ℕ → List ℕ → Files W → Option (Files W)
  path_memory fuel [] st = some st
  path_memory fuel (c ∷ name) st = walk_memory fuel kernel.root (c ∷ name) st

  -- `kfree(path)` behind `path_walk`.
  abbrev pub open_walked : (ℕ → ℕ) → ℕ → Option (Files W) → Option (Option ℕ) → Option (ℤ × Files W)
  open_walked choose flags none found = none
  open_walked choose flags (some st) found = open_entry choose flags (kfree st) found

  abbrev pub open_path :
      (ℕ → ℕ) → ℕ → List ℕ → ℕ → Option (Files W) → Files W → Option (ℤ × Files W)
  open_path choose filename s flags none st = some (e_nomem, st)
  open_path choose filename s flags (some st1) st =
      let pathlen = strnlen_user filename s page_4k_size in
      if pathlen == 0
      then some (e_fault, kfree st1)
      else if leb page_4k_size pathlen
      then some (e_nametoolong, kfree st1)
      else open_walked choose flags (path_memory (suc (length s)) (skip_slashes s) st1)
          (path_walk kernel.lookup (suc (length s)) kernel.root 0 s)

  -- The text `s` stands at the address `filename`.
  unfoldable pub sys_open : ℕ → List ℕ → ℕ → Files W → Option (ℤ × Files W)
  sys_open filename s flags st =
      open_path kernel.inode_f_ops filename s flags (kmalloc page_4k_size st) st

  -- The same code with the table of the keyboard at the address `keyboard_fops`.
  unfoldable pub sys_device_openkeyboard : ℕ → ℕ → List ℕ → ℕ → Files W → Option (ℤ × Files W)
  sys_device_openkeyboard keyboard_fops filename s flags st =
      open_path (λ inode. keyboard_fops) filename s flags (kmalloc page_4k_size st) st
