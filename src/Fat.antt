-- ===== src/Fat.antt =====
-- The allocation table of the FAT32 file system and its lseek: os/kernel/fat32.c over the `transfer`
-- of a disk. A buffer of a sector is the function from the index of a 32-bit word to its value.
pub mod Entry
pub mod Mirror
pub mod Free
pub mod Seek
pub mod Data
pub mod Read
pub mod Inode
pub mod Write
mod Tests
use Prim.Native.Nat.{bit_and, bit_or}
use system_studying.Base.{
  ℕ, zero, suc, ◌+◌, ◌-◌, ◌*◌, ◌/◌, ◌%◌, ◌^◌, ◌<◌, ◌≢◌, ◌≡◌, ◌||◌, Bool, true, false, Option, none,
  some, if◌then◌else◌, leb, ltb, ◌==◌,
}
use system_studying.Base.Int.{to_signed, to_unsigned, ℤ, pos, negsuc, ◌+ℤ◌, ltb_ℤ, sub_ℕ}

-- What `disk_device_operation.transfer` does for one sector: a read fills the buffer, or leaves it
-- as it was if the controller reports an error, which the callers never hear of.
pub record Disk : Type 1 where
  pub State : Type 0
  pub read_sector : State → ℕ → (ℕ → ℕ) → ℕ → ℕ
  pub write_sector : State → ℕ → (ℕ → ℕ) → State

-- A disk whose first `capacity` sectors work: a written sector reads back, and no other changes.
pub record Works (d : Disk) (capacity : ℕ) : Type 0 where
  pub read_written :
      (s : d.State) (k : ℕ) (b c : ℕ → ℕ) (w : ℕ)
      → k < capacity
      → w < 128
      → d.read_sector (d.write_sector s k b) k c w ≡ b w
  pub read_other :
      (s : d.State) (k l : ℕ) (b c : ℕ → ℕ) (w : ℕ)
      → k < capacity
      → l < capacity
      → k ≢ l
      → w < 128
      → d.read_sector (d.write_sector s k b) l c w ≡ d.read_sector s l c w

-- `struct FAT32_sb_info`, the part that the table needs.
pub record SbInfo : Type 0 where
  pub fat1_firstsector : ℕ
  pub sector_per_fat : ℕ
  pub num_fats : ℕ

abbrev pub low_mask : ℕ
low_mask = 2 ^ 28 - 1

abbrev pub high_mask : ℕ
high_mask = 15 * 2 ^ 28

-- `memset(buffer, 0, 512)`
abbrev pub cleared : ℕ → ℕ
cleared w = 0

-- The sector of the table's copy `i` that holds an entry.
abbrev pub sector_of : SbInfo → ℕ → ℕ → ℕ
sector_of fsbi i fat_entry =
    (fsbi.fat1_firstsector + fsbi.sector_per_fat * i + fat_entry / 128) % 2 ^ 64

abbrev pub replaced : ℕ → ℕ → (ℕ → ℕ) → ℕ → ℕ
replaced fat_entry value buffer w =
    if w == fat_entry % 128
    then bit_or (bit_and (buffer w) high_mask) (bit_and value low_mask)
    else buffer w

unfoldable pub scan_words : ℕ → ℕ → (ℕ → ℕ) → Option ℕ
scan_words zero j buf = none
scan_words (suc n) j buf = elim (bit_and (buf j) low_mask == 0) [
  | true ↦ some j
  | false ↦ scan_words n (j + 1) buf
]

module _ (d : Disk) where
  unfoldable pub readfatentry : SbInfo → ℕ → d.State → ℕ
  readfatentry fsbi fat_entry s =
      let sector = (fsbi.fat1_firstsector + fat_entry / 128) % 2 ^ 64 in
      bit_and (d.read_sector s sector cleared (fat_entry % 128)) low_mask

  -- The loop of `writefatentry` at the copy `i`, with `n` copies to go.
  unfoldable pub write_copies : SbInfo → ℕ → (ℕ → ℕ) → ℕ → ℕ → d.State → d.State
  write_copies fsbi fat_entry buffer zero i s = s
  write_copies fsbi fat_entry buffer (suc n) i s =
      write_copies fsbi fat_entry buffer n (i + 1)
        (d.write_sector s (sector_of fsbi i fat_entry) buffer)

  unfoldable pub writefatentry : SbInfo → ℕ → ℕ → d.State → d.State
  unfolding write_copies
  writefatentry fsbi fat_entry value s =
      let sector = (fsbi.fat1_firstsector + fat_entry / 128) % 2 ^ 64 in
      let buffer = replaced fat_entry value (d.read_sector s sector cleared) in
      write_copies fsbi fat_entry buffer fsbi.num_fats 0 s

  -- An `int` as an `unsigned long`.
  abbrev pub int_long : ℕ → ℕ
  int_long n = let r = n % 2 ^ 32 in if ltb r (2 ^ 31) then r else r + (2 ^ 64 - 2 ^ 32)

  -- The loop over the sectors at `i`, with `n` sectors to go.
  unfoldable pub scan_sectors : SbInfo → ℕ → ℕ → d.State → ℕ
  unfolding scan_words
  scan_sectors fsbi zero i s = 0
  scan_sectors fsbi (suc n) i s =
      let buf = d.read_sector s ((fsbi.fat1_firstsector + i) % 2 ^ 64) cleared in
      elim (scan_words 128 0 buf) [
        | some j ↦ int_long (i * 128 + j)
        | none ↦ scan_sectors fsbi n (i + 1) s
      ]

  -- The counter is an `int`: behind 2 ^ 31 rounds it would be negative, and that, as an unsigned number,
  -- is above the bound.
  unfoldable pub find_available_cluster : SbInfo → d.State → ℕ
  unfolding scan_sectors
  find_available_cluster fsbi s =
      scan_sectors fsbi (if leb fsbi.sector_per_fat (2 ^ 31) then fsbi.sector_per_fat else 2 ^ 31) 0
        s

-- `struct file`, with the `file_size` of the index node that it refers to.
pub record File : Type 0 where
  pub position : ℤ
  pub file_size : ℕ

-- The negated error numbers of os/kernel/errno.h.
abbrev pub e_inval : ℤ
e_inval = negsuc 27

abbrev pub e_overflow : ℤ
e_overflow = negsuc 64

-- The switch on `origin`: SEEK_SET, SEEK_CUR and SEEK_END. The last adds as unsigned numbers.
abbrev pub seek_target : File → ℤ → ℤ → Option ℤ
seek_target filp offset (pos zero) = some offset
seek_target filp offset (pos (suc zero)) = some (filp.position +ℤ offset)
seek_target filp offset (pos (suc (suc zero))) =
    some (to_signed ((filp.file_size + to_unsigned offset) % 2 ^ 64))
seek_target filp offset origin = none

abbrev pub seek_to : File → Option ℤ → ℤ × File
seek_to filp none = (e_inval, filp)
seek_to filp (some t) =
    if ltb_ℤ t (pos 0) || ltb filp.file_size (to_unsigned t)
    then (e_overflow, filp)
    else (t, record filp { position = t })

unfoldable pub lseek : File → ℤ → ℤ → ℤ × File
lseek filp offset origin = seek_to filp (seek_target filp offset origin)
