-- ===== src/Fat/Data.antt =====
-- The clusters of a FAT32 volume as bytes: what os/kernel/fat32.c reads and writes by `transfer`.
use system_studying.Base.{
  ℕ, zero, suc, ◌+◌, ◌-◌, ◌*◌, ◌/◌, ◌%◌, ◌^◌, Bool, true, ◌&&◌, if◌then◌else◌, ltb, leb,
}
use system_studying.Sys.{verify_area}
use system_studying.Fat.{Disk, SbInfo, cleared, readfatentry}

-- `struct FAT32_sb_info`, with the part that the table needs.
pub record Volume : Type 0 where
  pub table : SbInfo
  pub data_firstsector : ℕ
  pub sector_per_cluster : ℕ
  pub bytes_per_cluster : ℕ

abbrev pub task_size : ℕ
task_size = 2 ^ 47 - 1

-- Byte `k` of a word.
abbrev pub byte_of : ℕ → ℕ → ℕ
byte_of word k = word / 2 ^ (8 * k) % 256

-- `fsbi->Data_firstsector + (cluster - 2) * fsbi->sector_per_cluster`
abbrev pub cluster_sector : Volume → ℕ → ℕ
cluster_sector fsbi cluster =
    (fsbi.data_firstsector + (cluster + 2 ^ 64 - 2) % 2 ^ 64 * fsbi.sector_per_cluster) % 2 ^ 64

-- `memcpy`, and the copies to and from user memory behind their checks.
unfoldable pub copied : (ℕ → ℕ) → ℕ → ℕ → (ℕ → ℕ) → ℕ → ℕ
copied mem to n from a = if leb to a && ltb a (to + n) then from (a - to) else mem a

-- Whether a copy between the kernel and the address `buf` takes place.
abbrev pub copies : ℕ → ℕ → Bool
copies buf n = if ltb buf task_size then verify_area buf n else true

module _ (d : Disk) where
  -- Byte `i` of the cleared buffer behind a read of a cluster from `sector` on.
  unfoldable pub cluster_byte : Volume → d.State → ℕ → ℕ → ℕ
  cluster_byte fsbi s sector i =
      if ltb (i / 512) fsbi.sector_per_cluster
      then byte_of (d.read_sector s ((sector + i / 512) % 2 ^ 64) cleared (i / 4 % 128)) (i % 4)
      else 0

  -- `for (i = 0; i < index; i++) cluster = readfatentry(fsbi, cluster)`
  unfoldable pub follow : Volume → d.State → ℕ → ℕ → ℕ
  follow fsbi s zero cluster = cluster
  follow fsbi s (suc n) cluster = follow fsbi s n (readfatentry d fsbi.table cluster s)
