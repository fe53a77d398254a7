-- ===== src/Fat/Write/Fresh.antt =====
-- `FAT32_write` to a file without a cluster.
use system_studying.Base.{
  ℕ, suc, ◌+◌, ◌-◌, ◌/◌, ◌%◌, ◌^◌, ◌≤◌, ◌<◌, ◌≡◌, ◌≢◌, inl, inr, refl, ◌∙◌, arith, Bool, true,
  false, some, ltb, leb, ◌==◌, Bool-cases,
}
use system_studying.Base.Int.{pos}
use system_studying.Fat.{Disk, Works, cleared, find_available_cluster}
use system_studying.Fat.Data.{Volume, cluster_byte, copied, copies}
use system_studying.Fat.Read.Copies.{copied-Holds, Reachable, copies-Reachable}
use system_studying.Fat.Inode.{Inode, write_cluster}
use system_studying.Fat.Inode.ReadBack.{Bytes, cluster_byte-write_cluster}
use system_studying.Fat.Write.{begun, Writing, breaks, write_loop, with_size, write}
use system_studying.Fat.Write.Content.{Mounted, cluster_byte-same, copied-Bytes, with_size-other}

module _ (d : Disk) (capacity : ℕ) (disk : Works d capacity) (top : capacity ≤ 2 ^ 64)
    (fsbi : Volume) (mem : ℕ → ℕ) (answers : ℕ → Bool)
    (works : (sector : ℕ) → answers sector ≡ true) where
  -- The round, with the cluster `cluster` that has been added.
  abbrev fresh : d.State → ℕ → (ℕ → ℕ) → ℕ → ℕ → ℕ → ℕ → Writing d.State
  fresh s cluster garbage n buf offset position =
      let buffer = copied garbage offset n (λ i. mem (buf + i)) in
      record {
        s = write_cluster d fsbi 0 buffer s;
        cluster = cluster;
        sector = 0;
        flags = true;
        buffer = buffer;
        index = n - n;
        buf = (buf + n) % 2 ^ 64;
        offset = 0;
        position = position + n;
      }

  write_loop-fresh :
      (f cluster : ℕ) (s : d.State) (garbage : ℕ → ℕ) (n buf offset position : ℕ)
      → n ≤ fsbi.bytes_per_cluster - offset
      → copies buf n ≡ true
      → write_loop d answers fsbi mem (suc f) (record {
        s = s;
        cluster = cluster;
        sector = 0;
        flags = true;
        buffer = garbage;
        index = n;
        buf = buf;
        offset = offset;
        position = position;
      })
        ≡ some (breaks (fresh s cluster garbage n buf offset position) (pos 0))
  unfolding write_loop
  write_loop-fresh f cluster s garbage n buf offset position room ok =
      let last : leb n (fsbi.bytes_per_cluster - offset) ≡ true = ground arith in
      let all : n - n ≡ 0 = omega arith in rw (works 0, last, ok, all) refl

  with_size-first_cluster :
      (inode : Inode) (e : Writing d.State)
      → (with_size d answers fsbi mem inode e).0.first_cluster ≡ inode.first_cluster
  with_size-first_cluster inode e = elim (Bool-cases (ltb inode.file_size e.position)) [
    | inl grows ↦ rw grows refl
    | inr stays ↦ rw stays refl
  ]

  write-fresh :
      (fuel : ℕ) (inode : Inode) (garbage : ℕ → ℕ) (buf count position cluster : ℕ) (s : d.State)
      (e : Writing d.State)
      → inode.first_cluster ≡ 0
      → find_available_cluster d fsbi.table s ≡ cluster
      → cluster ≢ 0
      → 0 < fsbi.bytes_per_cluster
      → position / fsbi.bytes_per_cluster < 2 ^ 31
      → count < 2 ^ 31
      → e.index ≡ 0
      → write_loop d answers fsbi mem fuel (record {
        s = (begun d answers fsbi mem inode cluster s).1;
        cluster = cluster;
        sector = 0;
        flags = true;
        buffer = garbage;
        index = count;
        buf = buf;
        offset = position % fsbi.bytes_per_cluster;
        position = position;
      })
        ≡ some (breaks e (pos 0))
      → write d answers fsbi mem fuel inode garbage buf count position s ≡ (
          let (inode', s') =
            with_size d answers fsbi mem (record inode { first_cluster = cluster }) e in
          some (record { s = s'; inode = inode'; position = e.position; retval = pos count }))
  unfolding write
  write-fresh fuel inode garbage buf count position cluster s e empty found some_cluster wide early
        small done run =
      let divides : (fsbi.bytes_per_cluster == 0) ≡ false = ground arith in
      let index : leb (2 ^ 31) (position / fsbi.bytes_per_cluster) ≡ false = ground arith in
      let on_disk : (cluster == 0) ≡ false = ground arith in
      let int : ltb count (2 ^ 31) ≡ true = ground arith in
      let end : (e.index == 0) ≡ true = ground arith in
      rw (divides, index, empty, found, on_disk, int, run, end) refl

  -- A call of `FAT32_write` on a file that has no cluster, with bytes for one cluster, on a disk that
  -- answers and whose table has a free cluster, gives the file that cluster and returns `count`, and
  -- writes the bytes to the first sectors of the disk.
  pub write_fresh-first_sectors :
      (fuel : ℕ) (inode : Inode) (garbage : ℕ → ℕ) (buf count position : ℕ) (s : d.State)
      → inode.first_cluster ≡ 0
      → find_available_cluster d fsbi.table s ≢ 0
      → Mounted fsbi capacity inode 0
      → position / fsbi.bytes_per_cluster < 2 ^ 31
      → position % fsbi.bytes_per_cluster + count ≤ fsbi.bytes_per_cluster
      → count < 2 ^ 31
      → Reachable buf count
      → Bytes mem
      → Bytes garbage
      → (inode' : Inode) × (s' : d.State) × (write d answers fsbi mem
            (suc fuel)
            inode
            garbage
            buf
            count
            position
            s
          ≡ some
              (record { s = s'; inode = inode'; position = position + count; retval = pos count }))
        × (inode'.first_cluster ≡ find_available_cluster d fsbi.table s)
        × ((i : ℕ)
            → i < count
            → cluster_byte d fsbi s' 0 (position % fsbi.bytes_per_cluster + i) ≡ mem (buf + i))
  write_fresh-first_sectors fuel inode garbage buf count position s empty free fits early room small
        ok bytes old =
      let b = fsbi.bytes_per_cluster in
      let o = position % b in
      let cluster = find_available_cluster d fsbi.table s in
      let s0 = (begun d answers fsbi mem inode cluster s).1 in
      let e = fresh s0 cluster garbage count buf o position in
      let inode1 : Inode = record inode { first_cluster = cluster } in
      let done = with_size d answers fsbi mem inode1 e in
      let wide : 0 < b = omega (arith, fits.bytes, fits.some_bytes) in
      let from = λ (i : ℕ). mem (buf + i) in
      (
        done.0,
        done.1,
        write-fresh (suc fuel) inode garbage buf count position cluster s e empty refl free wide
            early small (omega arith)
            (write_loop-fresh fuel cluster s0 garbage count buf o position (omega (arith, room))
              (copies-Reachable buf count count ok (omega arith))),
        with_size-first_cluster inode1 e,
        λ i lt.
            cluster_byte-same d capacity disk top fsbi 0 (o + i) e.s done.1 fits.place
              (λ m w below word.
                with_size-other d capacity disk top fsbi mem answers works inode1 e (0 + m) w
                  cleared fits.entry (omega (arith, below, fits.place)) word
                  (fits.apart (0 + m) (omega arith) (omega (arith, below))))
            ∙ cluster_byte-write_cluster d capacity disk fsbi 0 (o + i) e.buffer s0
                (copied-Bytes d capacity disk top fsbi garbage o count from old
                  (λ i. bytes (buf + i)))
                fits.place top (omega (arith, lt, room, fits.bytes))
            ∙ (copied-Holds garbage o count from).inside i lt,
      )
