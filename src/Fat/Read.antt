-- ===== src/Fat/Read.antt =====
-- `FAT32_read` of os/kernel/fat32.c. A value that an `int` does not hold, a division by zero and a
-- loop that its fuel does not cover are `none`.
pub mod Copies
pub mod Loop
pub mod Content
use system_studying.Base.{
  ℕ, zero, suc, ◌+◌, ◌-◌, ◌*◌, ◌/◌, ◌%◌, ◌^◌, Bool, true, false, not, ◌&&◌, ◌||◌, Option, none,
  some, if◌then◌else◌, ltb, leb, ◌==◌,
}
use system_studying.Base.Int.{ℤ, pos, negsuc}
use system_studying.Sys.{e_fault}
use system_studying.Fat.{Disk, readfatentry}
use system_studying.Fat.Data.{Volume, cluster_sector, cluster_byte, copied, copies, follow}

abbrev pub e_io : ℤ
e_io = negsuc 28

-- What the loop leaves: the bytes still to read, `*position`, the memory and `retval`.
pub record ReadEnd : Type 0 where
  pub index : ℕ
  pub position : ℕ
  pub mem : ℕ → ℕ
  pub retval : ℤ

module _ (d : Disk) (answers : ℕ → Bool) (fsbi : Volume) (s : d.State) where
  -- `index <= (bytes_per_cluster - offset) ? index : (bytes_per_cluster - offset)`
  abbrev pub piece : ℕ → ℕ → ℕ
  piece index offset =
      if leb index (fsbi.bytes_per_cluster - offset) then index else fsbi.bytes_per_cluster - offset

  abbrev pub with_piece : ℕ → ℕ → ℕ → ℕ → (ℕ → ℕ) → ℕ → ℕ
  with_piece sector buf offset length mem =
      if copies buf length
      then copied mem buf length (λ i. cluster_byte d fsbi s sector (offset + i))
      else mem

  -- The `do` loop; `answers` is what `transfer` returns for the sector.
  unfoldable pub read_loop : ℕ → ℕ → ℕ → ℕ → ℕ → ℕ → (ℕ → ℕ) → Option ReadEnd
  unfolding copied cluster_byte
  read_loop zero cluster index buf offset position mem = none
  read_loop (suc f) cluster index buf offset position mem =
      let sector = cluster_sector fsbi cluster in
      let length = piece index offset in
      let mem' = with_piece sector buf offset length mem in
      let next = readfatentry d fsbi.table cluster s in
      let rest =
        read_loop f next (index - length) ((buf + length) % 2 ^ 64) 0 (position + length) mem' in
      let failed : Option ReadEnd =
        some (record { index = index; position = position; mem = mem; retval = e_io }) in
      let ended : Option ReadEnd = some (record {
        index = index - length;
        position = position + length;
        mem = mem';
        retval = pos 0;
      }) in
      if not (answers sector)
      then failed
      else if index - length == 0 || next == 0
      then ended
      else rest

  -- `if (!index) retval = count;`
  abbrev pub finish : ℕ → Option ReadEnd → Option ReadEnd
  finish count none = none
  finish count (some e) = some (if e.index == 0 then record e { retval = pos count } else e)

  -- How many bytes the call is to read, at most up to the end of the file.
  abbrev pub wanted : ℕ → ℕ → ℕ → ℕ
  wanted file_size position count =
      if ltb file_size ((position + count) % 2 ^ 64)
      then (file_size + 2 ^ 64 - position) % 2 ^ 64
      else count

  abbrev pub read_from : ℕ → ℕ → ℕ → ℕ → ℕ → (ℕ → ℕ) → Option ReadEnd
  read_from fuel cluster count buf position mem =
      if ltb count (2 ^ 31)
      then finish count
          (read_loop fuel cluster count buf (position % fsbi.bytes_per_cluster) position mem)
      else none

  unfoldable pub read : ℕ → ℕ → ℕ → ℕ → ℕ → ℕ → (ℕ → ℕ) → Option ReadEnd
  unfolding read_loop follow
  read fuel first_cluster file_size buf count position mem =
      let index = position / fsbi.bytes_per_cluster in
      let cluster = follow d fsbi s index first_cluster in
      let empty : Option ReadEnd =
        some (record { index = 0; position = position; mem = mem; retval = e_fault }) in
      if fsbi.bytes_per_cluster == 0
      then none
      else if first_cluster == 0
      then empty
      else if leb (2 ^ 31) index
      then none
      else read_from fuel cluster (wanted file_size position count) buf position mem
