-- ===== src/Fat/Inode.antt =====
-- Writes of whole clusters and of directory entries: `fat32_write_inode` of os/kernel/fat32.c.
pub mod ReadBack
use Prim.Native.Nat.{bit_and, bit_or}
use system_studying.Base.{
  ℕ, zero, suc, ◌+◌, ◌-◌, ◌*◌, ◌/◌, ◌%◌, ◌^◌, ◌&&◌, if◌then◌else◌, ltb, leb, ◌==◌,
}
use system_studying.Fat.{Disk}
use system_studying.Fat.Data.{Volume, cluster_sector, cluster_byte}

-- `struct index_node` with its `struct FAT32_inode_info`, as far as they are written back.
pub record Inode : Type 0 where
  pub first_cluster : ℕ
  pub dentry_location : ℕ
  pub dentry_position : ℕ
  pub file_size : ℕ

-- Word `w` of the sector `i` of a buffer.
abbrev pub word_at : (ℕ → ℕ) → ℕ → ℕ → ℕ
word_at buffer i w =
    let a : ℕ = 512 * i + 4 * w in
    buffer a + 2 ^ 8 * buffer (a + 1) + 2 ^ 16 * buffer (a + 2) + 2 ^ 24 * buffer (a + 3)

-- A member of `n` bytes at `at`, the lowest byte first.
abbrev pub patched : (ℕ → ℕ) → ℕ → ℕ → ℕ → ℕ → ℕ
patched buffer at n value i =
    if leb at i && ltb i (at + n) then value / 2 ^ (8 * (i - at)) % 256 else buffer i

-- The new value of DIR_FstClusHI.
abbrev pub cluster_high : ℕ → ℕ → ℕ
cluster_high old first_cluster = bit_or (bit_and old 0xf000) (first_cluster / 2 ^ 16) % 2 ^ 16

-- The three members of the entry that begins at `base`.
unfoldable pub with_entry : (ℕ → ℕ) → ℕ → Inode → ℕ → ℕ
with_entry buffer base inode =
    let sized = patched buffer (base + 28) 4 inode.file_size in
    let low = patched sized (base + 26) 2 (bit_and inode.first_cluster 0xffff) in
    let old = low (base + 20) + 256 * low (base + 21) in
    patched low (base + 20) 2 (cluster_high old inode.first_cluster)

module _ (d : Disk) (fsbi : Volume) where
  -- A write of the sectors from `sector + i` on, `n` of them.
  unfoldable pub write_sectors : ℕ → ℕ → (ℕ → ℕ) → ℕ → d.State → d.State
  write_sectors sector i buffer zero s = s
  write_sectors sector i buffer (suc n) s =
      write_sectors sector (i + 1) buffer n
        (d.write_sector s ((sector + i) % 2 ^ 64) (word_at buffer i))

  unfoldable pub write_cluster : ℕ → (ℕ → ℕ) → d.State → d.State
  unfolding write_sectors
  write_cluster sector buffer s = write_sectors sector 0 buffer fsbi.sector_per_cluster s

  unfoldable pub write_inode : Inode → d.State → d.State
  unfolding write_cluster cluster_byte with_entry
  write_inode inode s =
      let sector = cluster_sector fsbi inode.dentry_location in
      if inode.dentry_location == 0
      then s
      else write_cluster sector
          (with_entry (cluster_byte d fsbi s sector) (32 * inode.dentry_position) inode) s
