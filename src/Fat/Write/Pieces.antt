-- ===== src/Fat/Write/Pieces.antt =====
-- The rounds of `FAT32_write` in a file that has a cluster.
use system_studying.Base.{
  ℕ, suc, ◌+◌, ◌-◌, ◌/◌, ◌%◌, ◌^◌, ◌≤◌, ◌<◌, ◌≡◌, ◌≢◌, refl, arith, Bool, true, false, Option, some,
  ltb, leb, ◌==◌,
}
use system_studying.Base.Int.{pos}
use system_studying.Fat.{Disk, readfatentry}
use system_studying.Fat.Data.{Volume, cluster_sector, cluster_byte, copied, copies, follow}
use system_studying.Fat.Inode.{Inode, write_cluster}
use system_studying.Fat.Write.{Writing, End, breaks, write_loop, with_size, last_entry, write}

module _ (d : Disk) (fsbi : Volume) (mem : ℕ → ℕ) (answers : ℕ → Bool)
    (works : (sector : ℕ) → answers sector ≡ true) where
  -- The buffer of the cluster at `sector` with `n` bytes of the memory in it.
  abbrev pub merged : d.State → ℕ → ℕ → ℕ → ℕ → ℕ → ℕ
  merged s sector offset n buf = copied (cluster_byte d fsbi s sector) offset n (λ i. mem (buf + i))

  abbrev pub round : d.State → ℕ → (ℕ → ℕ) → ℕ → ℕ → ℕ → ℕ → ℕ → Writing d.State
  round s cluster buffer n index buf offset position =
      let sector = cluster_sector fsbi cluster in
      record {
        s = write_cluster d fsbi sector (merged s sector offset n buf) s;
        cluster = cluster;
        sector = sector;
        flags = false;
        buffer = merged s sector offset n buf;
        index = index - n;
        buf = (buf + n) % 2 ^ 64;
        offset = 0;
        position = position + n;
      }

  pub write_loop-last :
      (f cluster sector : ℕ) (s : d.State) (buffer : ℕ → ℕ) (n buf offset position : ℕ)
      → n ≤ fsbi.bytes_per_cluster - offset
      → copies buf n ≡ true
      → write_loop d answers fsbi mem (suc f) (record {
        s = s;
        cluster = cluster;
        sector = sector;
        flags = false;
        buffer = buffer;
        index = n;
        buf = buf;
        offset = offset;
        position = position;
      })
        ≡ some (breaks (round s cluster buffer n n buf offset position) (pos 0))
  unfolding write_loop
  write_loop-last f cluster sector s buffer n buf offset position room ok =
      let last : leb n (fsbi.bytes_per_cluster - offset) ≡ true = ground arith in
      let all : n - n ≡ 0 = omega arith in
      rw (works (cluster_sector fsbi cluster), last, ok, all) refl

  pub write_loop-next :
      (f cluster sector : ℕ) (s : d.State) (buffer : ℕ → ℕ) (n buf offset position : ℕ)
      (r : Option (End d.State))
      → fsbi.bytes_per_cluster - offset < n
      → copies buf (fsbi.bytes_per_cluster - offset) ≡ true
      → readfatentry d fsbi.table cluster
          (round s cluster buffer (fsbi.bytes_per_cluster - offset) n buf offset position).s
        < last_entry
      → write_loop d answers fsbi mem f
          (round s cluster buffer (fsbi.bytes_per_cluster - offset) n buf offset position)
        ≡ r
      → write_loop d answers fsbi mem (suc f) (record {
        s = s;
        cluster = cluster;
        sector = sector;
        flags = false;
        buffer = buffer;
        index = n;
        buf = buf;
        offset = offset;
        position = position;
      })
        ≡ r
  unfolding write_loop
  write_loop-next f cluster sector s buffer n buf offset position r more ok chain rest =
      let l = fsbi.bytes_per_cluster - offset in
      let long : leb n (fsbi.bytes_per_cluster - offset) ≡ false = ground arith in
      let left : (n - l == 0) ≡ false = ground arith in
      let goes_on : leb last_entry
            (readfatentry d fsbi.table cluster (round s cluster buffer l n buf offset position).s)
          ≡ false =
        ground arith in
      rw (works (cluster_sector fsbi cluster), long, ok, left, goes_on) rest

  pub write-runs :
      (fuel : ℕ) (inode : Inode) (garbage : ℕ → ℕ) (buf count position : ℕ) (s : d.State)
      (e : Writing d.State)
      → inode.first_cluster ≢ 0
      → 0 < fsbi.bytes_per_cluster
      → position / fsbi.bytes_per_cluster < 2 ^ 31
      → follow d fsbi s (position / fsbi.bytes_per_cluster) inode.first_cluster ≢ 0
      → count < 2 ^ 31
      → e.index ≡ 0
      → write_loop d answers fsbi mem fuel (record {
        s = s;
        cluster = follow d fsbi s (position / fsbi.bytes_per_cluster) inode.first_cluster;
        sector = 0;
        flags = false;
        buffer = garbage;
        index = count;
        buf = buf;
        offset = position % fsbi.bytes_per_cluster;
        position = position;
      })
        ≡ some (breaks e (pos 0))
      → write d answers fsbi mem fuel inode garbage buf count position s ≡ (
          let (inode', s') = with_size d answers fsbi mem inode e in
          some (record { s = s'; inode = inode'; position = e.position; retval = pos count }))
  unfolding write
  write-runs fuel inode garbage buf count position s e file wide early chain small done run =
      let divides : (fsbi.bytes_per_cluster == 0) ≡ false = ground arith in
      let index : leb (2 ^ 31) (position / fsbi.bytes_per_cluster) ≡ false = ground arith in
      let some_file : (inode.first_cluster == 0) ≡ false = ground arith in
      let on_disk : (follow d fsbi s (position / fsbi.bytes_per_cluster) inode.first_cluster == 0)
          ≡ false =
        ground arith in
      let int : ltb count (2 ^ 31) ≡ true = ground arith in
      let end : (e.index == 0) ≡ true = ground arith in
      rw (divides, index, some_file, on_disk, int, run, end) refl
