-- ===== src/Fat/Write/Crossing.antt =====
-- `FAT32_write` over the end of a cluster that has a successor.
use native.Mathlib.Nat.{mod-lt}
use Prim.Native.Nat.{bit_and}
use system_studying.Base.{
  ℕ, suc, ◌+◌, ◌-◌, ◌*◌, ◌/◌, ◌%◌, ◌^◌, ◌≤◌, ◌<◌, ◌≡◌, ◌≢◌, refl, sym, subst, ap, ◌∙◌, arith, Bool,
  true, false, some, ltb,
}
use system_studying.Base.Int.{pos}
use system_studying.Fat.{Disk, Works, low_mask, cleared, readfatentry}
use system_studying.Fat.Data.{Volume, cluster_sector, copies, follow}
use system_studying.Fat.Read.Copies.{Reachable, copies-Reachable, Reachable-rest}
use system_studying.Fat.Inode.{Inode, write_cluster}
use system_studying.Fat.Write.Pieces.{round, write_loop-last, write_loop-next, write-runs}
use system_studying.Fat.Write.{Writing, breaks, with_size, last_entry, write}
use system_studying.Fat.Write.Content.{Beyond, write_cluster-other}

module _ (d : Disk) (capacity : ℕ) (disk : Works d capacity) (top : capacity ≤ 2 ^ 64)
    (fsbi : Volume) (mem : ℕ → ℕ) (answers : ℕ → Bool)
    (works : (sector : ℕ) → answers sector ≡ true) where
  readfatentry-other :
      (cluster sector : ℕ) (buffer : ℕ → ℕ) (s : d.State)
      → sector + fsbi.sector_per_cluster ≤ capacity
      → fsbi.table.fat1_firstsector + cluster / 128 < capacity
      → Beyond fsbi sector (fsbi.table.fat1_firstsector + cluster / 128)
      → readfatentry d fsbi.table cluster (write_cluster d fsbi sector buffer s)
        ≡ readfatentry d fsbi.table cluster s
  unfolding readfatentry
  readfatentry-other cluster sector buffer s fits inside out =
      let k = fsbi.table.fat1_firstsector + cluster / 128 in
      let exact : k % 2 ^ 64 ≡ k = omega (arith, inside, top) in
      rw exact (
        ap (λ t. bit_and t low_mask)
          (write_cluster-other d capacity disk top fsbi sector k (cluster % 128) buffer cleared s
            fits inside (omega arith) out))

  with_size-same :
      (inode : Inode) (e : Writing d.State)
      → e.position ≤ inode.file_size
      → with_size d answers fsbi mem inode e ≡ (inode, e.s)
  with_size-same inode e h =
      let stays : ltb inode.file_size e.position ≡ false = ground arith in rw stays refl

  -- The cluster where the write begins.
  abbrev pub cluster_of : ℕ → ℕ → d.State → ℕ
  cluster_of first position s = follow d fsbi s (position / fsbi.bytes_per_cluster) first

  -- A call of `FAT32_write` for bytes of a file that lie in a cluster and in its successor, on a disk
  -- that answers, returns `count` and moves the position by it, and yet changes no sector outside the
  -- first of the two clusters: the second piece goes there too.
  pub write_crossing :
      (fuel : ℕ) (inode : Inode) (garbage : ℕ → ℕ) (buf count position : ℕ) (s : d.State)
      → inode.first_cluster ≢ 0
      → cluster_of inode.first_cluster position s ≢ 0
      → readfatentry d fsbi.table (cluster_of inode.first_cluster position s) s < last_entry
      → fsbi.table.fat1_firstsector + cluster_of inode.first_cluster position s / 128 < capacity
      → Beyond fsbi
          (cluster_sector fsbi (cluster_of inode.first_cluster position s))
          (fsbi.table.fat1_firstsector + cluster_of inode.first_cluster position s / 128)
      → cluster_sector fsbi (cluster_of inode.first_cluster position s) + fsbi.sector_per_cluster
        ≤ capacity
      → 0 < fsbi.bytes_per_cluster
      → position + count ≤ inode.file_size
      → position / fsbi.bytes_per_cluster < 2 ^ 31
      → fsbi.bytes_per_cluster < position % fsbi.bytes_per_cluster + count
      → position % fsbi.bytes_per_cluster + count ≤ 2 * fsbi.bytes_per_cluster
      → count < 2 ^ 31
      → buf + count < 2 ^ 64
      → Reachable buf count
      → (s' : d.State) × (write d answers fsbi mem
            (suc (suc fuel))
            inode
            garbage
            buf
            count
            position
            s
          ≡ some
              (record { s = s'; inode = inode; position = position + count; retval = pos count }))
        × ((l w : ℕ)
            → l < capacity
            → w < 128
            → Beyond fsbi (cluster_sector fsbi (cluster_of inode.first_cluster position s)) l
            → d.read_sector s' l cleared w ≡ d.read_sector s l cleared w)
  write_crossing fuel inode garbage buf count position s file chain more table apart fits wide size
        early over room small user ok =
      let b = fsbi.bytes_per_cluster in
      let o = position % b in
      let cluster = cluster_of inode.first_cluster position s in
      let sector = cluster_sector fsbi cluster in
      let n = b - o in
      let lt : o < b = mod-lt position wide in
      let e1 = round d fsbi mem answers works s cluster garbage n count buf o position in
      let e2 =
        round d fsbi mem answers works e1.s cluster e1.buffer (count - n) (count - n)
          ((buf + n) % 2 ^ 64) 0 (position + n) in
      let exact : (buf + n) % 2 ^ 64 ≡ buf + n = omega (arith, user, over, lt) in
      let ok2 : copies ((buf + n) % 2 ^ 64) (count - n) ≡ true = rw exact (
        copies-Reachable (buf + n) (count - n) (count - n)
          (Reachable-rest buf count n ok (omega (arith, over, lt))) (omega arith)) in
      let run =
        write_loop-next d fsbi mem answers works (suc fuel) cluster 0 s garbage count buf o position
          (some (breaks e2 (pos 0))) (omega (arith, over, lt))
          (copies-Reachable buf count n ok (omega (arith, over, lt)))
          (subst (λ t. t < last_entry)
            (sym (readfatentry-other cluster sector e1.buffer s fits table apart)) more)
          (write_loop-last d fsbi mem answers works fuel cluster sector e1.s e1.buffer (count - n)
            ((buf + n) % 2 ^ 64) 0 (position + n) (omega (arith, room, lt)) ok2) in
      let whole : position + n + (count - n) ≡ position + count = omega (arith, over, lt) in
      (
        e2.s,
        write-runs d fsbi mem answers works (suc (suc fuel)) inode garbage buf count position s e2
              file wide early chain small (omega arith) run
            ∙ ap
                (λ t. some (record {
                  s = t.1;
                  inode = t.0;
                  position = position + n + (count - n);
                  retval = pos count;
                }))
                (with_size-same inode e2 (omega (arith, whole, size)))
            ∙ ap (λ t. some (record { s = e2.s; inode = inode; position = t; retval = pos count }))
                whole,
        λ l w inside word out.
            write_cluster-other d capacity disk top fsbi sector l w e2.buffer cleared e1.s fits
              inside word out
            ∙ write_cluster-other d capacity disk top fsbi sector l w e1.buffer cleared s fits
                inside word out,
      )
