-- ===== src/Fat/Write.antt =====
-- `FAT32_write` of os/kernel/fat32.c. A value that an `int` does not hold, a division by zero and a
-- loop that its fuel does not cover are `none`.
pub mod Pieces
pub mod Content
pub mod Crossing
pub mod Fresh
use system_studying.Base.{
  ℕ, zero, suc, ◌+◌, ◌-◌, ◌*◌, ◌/◌, ◌%◌, ◌^◌, Bool, true, false, not, ◌&&◌, ◌||◌, Option, none,
  some, if◌then◌else◌, ltb, leb, ◌==◌,
}
use system_studying.Base.Int.{ℤ, pos, negsuc}
use system_studying.Fat.{Disk, readfatentry, writefatentry, find_available_cluster}
use system_studying.Fat.Data.{Volume, cluster_sector, cluster_byte, copied, copies, follow}
use system_studying.Fat.Read.{e_io}
use system_studying.Fat.Inode.{Inode, write_cluster, write_inode}

abbrev pub e_nospc : ℤ
e_nospc = negsuc 51

-- An entry that ends a chain.
abbrev pub last_entry : ℕ
last_entry = 0x0ffffff8

-- The variables of `FAT32_write`, with the disk `s`; `flags` is whether a cluster has been added.
pub record Writing (S : Type 0) : Type 0 where
  pub s : S
  pub cluster : ℕ
  pub sector : ℕ
  pub flags : Bool
  pub buffer : ℕ → ℕ
  pub index : ℕ
  pub buf : ℕ
  pub offset : ℕ
  pub position : ℕ

-- How the loop ends: by its condition or a `break`, or by a `return` in it.
pub data End (S : Type 0) : Type 0 where
  breaks : Writing S → ℤ → End S
  returns : Writing S → ℤ → End S

-- What the call leaves.
pub record Wrote (S : Type 0) : Type 0 where
  pub s : S
  pub inode : Inode
  pub position : ℕ
  pub retval : ℤ

module _ (d : Disk) (answers : ℕ → Bool) (fsbi : Volume) (mem : ℕ → ℕ) where
  -- The buffer and its sector; they stay as they are where a cluster has been added.
  abbrev pub loaded : Writing d.State → Writing d.State
  loaded w =
      let sector = cluster_sector fsbi w.cluster in
      if w.flags then w else record w { sector = sector; buffer = cluster_byte d fsbi w.s sector }

  abbrev pub piece : Writing d.State → ℕ
  piece w =
      if leb w.index (fsbi.bytes_per_cluster - w.offset)
      then w.index
      else fsbi.bytes_per_cluster - w.offset

  abbrev pub filled : Writing d.State → ℕ → ℕ
  filled w =
      if copies w.buf (piece w)
      then copied w.buffer w.offset (piece w) (λ i. mem (w.buf + i))
      else w.buffer

  -- The write of one piece, and the steps of the variables.
  abbrev pub stored : Writing d.State → Writing d.State
  stored w = record w {
    buffer = filled w;
    s = write_cluster d fsbi w.sector (filled w) w.s;
    index = w.index - piece w;
    buf = (w.buf + piece w) % 2 ^ 64;
    offset = 0;
    position = w.position + piece w;
  }

  -- The chain grows by the cluster `next`.
  abbrev pub extended : Writing d.State → ℕ → Writing d.State
  extended w next = record w {
    s = writefatentry d fsbi.table next last_entry (writefatentry d fsbi.table w.cluster next w.s);
    cluster = next;
    flags = true;
  }

  -- Behind a piece that is not the last; only at the end of the chain does `cluster` change.
  abbrev pub onwards :
      (Writing d.State → Option (End d.State)) → Writing d.State → Option (End d.State)
  onwards loop w =
      let next = find_available_cluster d fsbi.table w.s in
      if leb last_entry (readfatentry d fsbi.table w.cluster w.s)
      then if next == 0 then some (returns w e_nospc) else loop (extended w next)
      else loop w

  unfoldable pub write_loop : ℕ → Writing d.State → Option (End d.State)
  unfolding copied
  write_loop zero w = none
  write_loop (suc f) w =
      let w1 = loaded w in
      let w2 = stored w1 in
      let rest = onwards (write_loop f) w2 in
      if not w.flags && not (answers (cluster_sector fsbi w.cluster))
      then some (breaks w1 e_io)
      else if not (answers w1.sector)
      then some (breaks (record w1 { buffer = filled w1 }) e_io)
      else if w2.index == 0
      then some (breaks w2 (pos 0))
      else rest

  abbrev pub with_size : Inode → Writing d.State → Inode × d.State
  with_size inode w =
      let inode' = record inode { file_size = w.position } in
      if ltb inode.file_size w.position
      then (inode', write_inode d fsbi inode' w.s)
      else (inode, w.s)

  abbrev pub close_write : ℕ → Inode → Option (End d.State) → Option (Wrote d.State)
  close_write count inode none = none
  close_write count inode (some (returns w retval)) =
      some (record { s = w.s; inode = inode; position = w.position; retval = retval })
  close_write count inode (some (breaks w retval)) =
      let (inode', s) = with_size inode w in
      some (record {
        s = s;
        inode = inode';
        position = w.position;
        retval = if w.index == 0 then pos count else retval;
      })

  -- The first cluster of a file without one.
  abbrev pub begun : Inode → ℕ → d.State → Inode × d.State
  begun inode cluster s =
      let inode' = record inode { first_cluster = cluster } in
      (inode', writefatentry d fsbi.table cluster last_entry (write_inode d fsbi inode' s))

  abbrev pub write_from :
      ℕ → Bool → ℕ → Inode → (ℕ → ℕ) → ℕ → ℕ → ℕ → d.State → Option (Wrote d.State)
  write_from fuel flags cluster inode buffer buf count position s =
      let (inode', s') = if flags then begun inode cluster s else (inode, s) in
      let full : Wrote d.State = record {
        s = s;
        inode = inode;
        position = position;
        retval = e_nospc;
      } in
      if cluster == 0
      then some full
      else if ltb count (2 ^ 31)
      then close_write count inode' (
          write_loop fuel (record {
            s = s';
            cluster = cluster;
            sector = 0;
            flags = flags;
            buffer = buffer;
            index = count;
            buf = buf;
            offset = position % fsbi.bytes_per_cluster;
            position = position;
          }))
      else none

  -- `buffer` is what `kmalloc` has given, not cleared yet.
  unfoldable pub write : ℕ → Inode → (ℕ → ℕ) → ℕ → ℕ → ℕ → d.State → Option (Wrote d.State)
  unfolding write_loop follow write_inode
  write fuel inode buffer buf count position s =
      let index = position / fsbi.bytes_per_cluster in
      let found = find_available_cluster d fsbi.table s in
      let cluster = follow d fsbi s index inode.first_cluster in
      if fsbi.bytes_per_cluster == 0 || leb (2 ^ 31) index
      then none
      else if inode.first_cluster == 0
      then write_from fuel true found inode buffer buf count position s
      else write_from fuel false cluster inode buffer buf count position s
