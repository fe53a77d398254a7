-- ===== src/Sys/Tests.antt =====
-- A file system of one file, the entry 2 with the index node 7, whose table of operations stands at 1.
-- The world is how often a file has been opened.
use system_studying.Base.{
  ℕ, ◌+◌, ◌-◌, ◌≡◌, ◌↔◌, refl, Option, none, some, List, [], ◌∷◌, ltb, replicate,
}
use system_studying.Base.Int.{ℤ, pos, negsuc}
use system_studying.Vfs.{path_walk, walk_loop}
use system_studying.Sys.{FileOperations, Files, Kernel, walk_memory, sys_open}
use system_studying.Sys.Calls.{sys_close, sys_read, sys_write, sys_lseek}
use system_studying.Sys.Descriptors.{Unused, NonNegative, IsWhence, empty_slot_faults}

abbrev counting : FileOperations ℕ
counting = record {
  open_op = some (λ inode filp world. (pos 1, world + 1));
  close_op = some (λ inode filp world. (pos 1, world - 1));
  read_op = none;
  write_op = none;
  lseek_op = none;
}

abbrev kernel : Kernel ℕ
kernel = record {
  has_memory = λ size used. ltb used 9;
  operations = λ address. counting;
  lookup = λ parent name. some 2;
  root = 1;
  inode_of = λ dentry. 7;
  attribute = λ inode. 1;
  inode_f_ops = λ inode. 1;
}

abbrev start : Files ℕ
start = record {
  filestruct = replicate 10 none;
  file_size = λ inode. 512;
  allocated = 3;
  world = 0;
}

abbrev name : List ℕ
name = 47 ∷ 97 ∷ []

empty_slot_faults_example :
    ((sys_close kernel (pos 4) start ≡ none) ↔ Unused kernel (pos 4) start)
    × ((sys_read kernel (pos 4) 0 (pos 8) start ≡ none)
        ↔ (Unused kernel (pos 4) start × NonNegative (pos 8)))
    × ((sys_write kernel (pos 4) 0 (pos 8) start ≡ none)
        ↔ (Unused kernel (pos 4) start × NonNegative (pos 8)))
    × ((sys_lseek kernel (pos 4) (negsuc 0) (pos 3) start ≡ none)
        ↔ (Unused kernel (pos 4) start × IsWhence (pos 3)))
empty_slot_faults_example = empty_slot_faults kernel (pos 4) 0 (pos 8) (negsuc 0) (pos 3) start

abbrev result : Option (ℤ × Files ℕ) → ℤ
result none = negsuc 0
result (some (r, st)) = r

opened_first : result (sys_open kernel 4096 name 512 start) ≡ pos 0
unfolding sys_open path_walk walk_loop walk_memory
opened_first = refl

abbrev blocks : Option (ℤ × Files ℕ) → ℕ
blocks none = 0
blocks (some (r, st)) = st.allocated

-- The entry and its name stay held beside the file.
three_blocks : blocks (sys_open kernel 4096 name 512 start) ≡ 6
unfolding sys_open path_walk walk_loop walk_memory
three_blocks = refl
