-- ===== src/Fat/Write/Content.antt =====
-- What `FAT32_write` leaves on the disk, inside one cluster and over its end.
use Prim.Native.Nat.{max}
use system_studying.Base.{
  ℕ, suc, ◌+◌, ◌-◌, ◌*◌, ◌/◌, ◌%◌, ◌^◌, ◌≤◌, ◌<◌, ◌≡◌, ◌≢◌, ◌⊎◌, inl, inr, refl, sym, ap, ◌∙◌,
  arith, Bool, true, false, ◌&&◌, some, ltb, leb, ltb→lt, ◌==◌, Bool-cases,
}
use system_studying.Base.Int.{pos}
use system_studying.Fat.{Disk, Works, cleared}
use system_studying.Fat.Data.{Volume, byte_of, cluster_sector, cluster_byte, copied, follow}
use system_studying.Fat.Read.Copies.{Holds, copied-Holds, Holds-same, Reachable, copies-Reachable}
use system_studying.Fat.Inode.{Inode, write_cluster, write_inode}
use system_studying.Fat.Inode.ReadBack.{Bytes, cluster_byte-write_cluster, write_sectors-other}
use system_studying.Fat.Write.Pieces.{merged, round, write_loop-last, write-runs}
use system_studying.Fat.Write.{Writing, with_size, write}

-- A sector outside the cluster that begins at `sector`.
abbrev pub Beyond : Volume → ℕ → ℕ → Type 0
Beyond fsbi sector l = (l < sector) ⊎ (sector + fsbi.sector_per_cluster ≤ l)

-- The place of what is written, the disk and the memory are as a mounted volume has them.
pub record Mounted (fsbi : Volume) (capacity : ℕ) (inode : Inode) (sector : ℕ) : Type 0 where
  pub bytes : fsbi.bytes_per_cluster ≡ 512 * fsbi.sector_per_cluster
  pub some_bytes : 0 < fsbi.sector_per_cluster
  pub place : sector + fsbi.sector_per_cluster ≤ capacity
  pub entry : cluster_sector fsbi inode.dentry_location + fsbi.sector_per_cluster ≤ capacity
  pub apart :
      (l : ℕ)
      → sector ≤ l
      → l < sector + fsbi.sector_per_cluster
      → Beyond fsbi (cluster_sector fsbi inode.dentry_location) l

module _ (d : Disk) (capacity : ℕ) (disk : Works d capacity) (top : capacity ≤ 2 ^ 64)
    (fsbi : Volume) where
  pub write_cluster-other :
      (sector l w : ℕ) (buffer c : ℕ → ℕ) (s : d.State)
      → sector + fsbi.sector_per_cluster ≤ capacity
      → l < capacity
      → w < 128
      → Beyond fsbi sector l
      → d.read_sector (write_cluster d fsbi sector buffer s) l c w ≡ d.read_sector s l c w
  unfolding write_cluster
  write_cluster-other sector l w buffer c s fits inside word apart =
      write_sectors-other d capacity disk fsbi sector 0 fsbi.sector_per_cluster l w buffer c s
        (omega (arith, fits)) top inside word (ground arith)

  write_inode-other :
      (inode : Inode) (l w : ℕ) (c : ℕ → ℕ) (s : d.State)
      → cluster_sector fsbi inode.dentry_location + fsbi.sector_per_cluster ≤ capacity
      → l < capacity
      → w < 128
      → Beyond fsbi (cluster_sector fsbi inode.dentry_location) l
      → d.read_sector (write_inode d fsbi inode s) l c w ≡ d.read_sector s l c w
  unfolding write_inode
  write_inode-other inode l w c s fits inside word apart =
      elim (Bool-cases (inode.dentry_location == 0)) [
        | inl absent ↦ rw absent refl
        | inr entry ↦ rw entry (write_cluster-other _ l w _ c s fits inside word apart)
      ]

  pub cluster_byte-same :
      (sector i : ℕ) (s s' : d.State)
      → sector + fsbi.sector_per_cluster ≤ capacity
      → ((m w : ℕ)
          → m < fsbi.sector_per_cluster
          → w < 128
          → d.read_sector s' (sector + m) cleared w ≡ d.read_sector s (sector + m) cleared w)
      → cluster_byte d fsbi s' sector i ≡ cluster_byte d fsbi s sector i
  unfolding cluster_byte
  cluster_byte-same sector i s s' fits same =
      elim (Bool-cases (ltb (i / 512) fsbi.sector_per_cluster)) [
        | inr out ↦ rw out refl
        | inl in_cluster ↦
            let below = ltb→lt (i / 512) fsbi.sector_per_cluster in_cluster in
            let exact : (sector + i / 512) % 2 ^ 64 ≡ sector + i / 512 =
              omega (arith, below, fits, top) in
            rw (in_cluster, exact)
              (ap (λ t. byte_of t (i % 4)) (same (i / 512) (i / 4 % 128) below (omega arith)))
      ]

  cluster_byte-Bytes : (sector : ℕ) (s : d.State) → Bytes (cluster_byte d fsbi s sector)
  unfolding cluster_byte
  cluster_byte-Bytes sector s i = ground arith

  cluster_byte_out :
      (sector i : ℕ) (s : d.State)
      → 512 * fsbi.sector_per_cluster ≤ i
      → cluster_byte d fsbi s sector i ≡ 0
  unfolding cluster_byte
  cluster_byte_out sector i s h =
      let out : ltb (i / 512) fsbi.sector_per_cluster ≡ false = ground arith in rw out refl

  pub copied-Bytes :
      (b : ℕ → ℕ) (to n : ℕ) (from : ℕ → ℕ) → Bytes b → Bytes from → Bytes (copied b to n from)
  unfolding copied
  copied-Bytes b to n from hb hf i = elim (Bool-cases (leb to i && ltb i (to + n))) [
    | inl h ↦ rw h (hf (i - to))
    | inr h ↦ rw h (hb i)
  ]

  module _ (mem : ℕ → ℕ) (answers : ℕ → Bool) (works : (sector : ℕ) → answers sector ≡ true) where
    pub with_size-file_size :
        (inode : Inode) (w : Writing d.State)
        → (with_size d answers fsbi mem inode w).0.file_size ≡ max inode.file_size w.position
    with_size-file_size inode w = elim (Bool-cases (ltb inode.file_size w.position)) [
      | inl grows ↦ rw grows (ground arith)
      | inr stays ↦ rw stays (ground arith)
    ]

    pub with_size-other :
        (inode : Inode) (e : Writing d.State) (l w : ℕ) (c : ℕ → ℕ)
        → cluster_sector fsbi inode.dentry_location + fsbi.sector_per_cluster ≤ capacity
        → l < capacity
        → w < 128
        → Beyond fsbi (cluster_sector fsbi inode.dentry_location) l
        → d.read_sector (with_size d answers fsbi mem inode e).1 l c w ≡ d.read_sector e.s l c w
    with_size-other inode e l w c fits inside word apart =
        elim (Bool-cases (ltb inode.file_size e.position)) [
          | inl grows ↦ rw grows (
              write_inode-other (record inode { file_size = e.position }) l w c e.s fits inside word
                apart)
          | inr stays ↦ rw stays refl
        ]

    -- The cluster behind a merge.
    merged-Holds :
        (sector offset n buf : ℕ) (s : d.State)
        → sector + fsbi.sector_per_cluster ≤ capacity
        → offset + n ≤ 512 * fsbi.sector_per_cluster
        → Bytes mem
        → Holds
            (cluster_byte d fsbi s sector)
            (cluster_byte d fsbi
              (write_cluster d fsbi sector
                (merged d fsbi mem answers works s sector offset n buf)
                s)
              sector)
            offset
            n
            (λ i. mem (buf + i))
    merged-Holds sector offset n buf s fits room bytes =
        let old = cluster_byte d fsbi s sector in
        let from = λ (i : ℕ). mem (buf + i) in
        let held = copied-Holds old offset n from in
        let new = cluster_byte-write_cluster d capacity disk fsbi sector in
        let small =
          copied-Bytes old offset n from (cluster_byte-Bytes sector s) (λ i. bytes (buf + i)) in
        record {
          inside = λ i lt.
              new (offset + i) (copied old offset n from) s small fits top (omega (arith, lt, room))
              ∙ held.inside i lt;
          outside = λ a out. elim (Bool-cases (ltb a (512 * fsbi.sector_per_cluster))) [
            | inl in_cluster ↦
                new a (copied old offset n from) s small fits top
                  (ltb→lt a (512 * fsbi.sector_per_cluster) in_cluster)
                ∙ held.outside a out
            | inr beyond ↦
                let far : 512 * fsbi.sector_per_cluster ≤ a = ground arith in
                cluster_byte_out sector a _ far ∙ sym (cluster_byte_out sector a s far)
          ];
        }

    -- What `FAT32_write` leaves if all the bytes lie in one cluster of the file, on a disk and a volume
    -- that hold it.
    abbrev pub Outcome : Inode → ℕ → ℕ → ℕ → ℕ → d.State → d.State → Type 0
    Outcome inode buf count position sector s s' =
        Holds (cluster_byte d fsbi s sector) (cluster_byte d fsbi s' sector)
          (position % fsbi.bytes_per_cluster) count (λ i. mem (buf + i))
        × ((l w : ℕ)
            → l < capacity
            → w < 128
            → Beyond fsbi sector l
            → Beyond fsbi (cluster_sector fsbi inode.dentry_location) l
            → d.read_sector s' l cleared w ≡ d.read_sector s l cleared w)

    -- The sector of the cluster that holds the byte at `position`.
    abbrev pub sector_at : Inode → ℕ → d.State → ℕ
    sector_at inode position s =
        cluster_sector fsbi
          (follow d fsbi s (position / fsbi.bytes_per_cluster) inode.first_cluster)

    -- A call of `FAT32_write` that stays inside one cluster of a file with clusters, on a disk that
    -- answers, succeeds in one round: it returns `count`, moves the position by it, makes the file size
    -- at least the new position, puts the bytes of the memory at their place in the cluster, where all
    -- other bytes stay, and changes no sector but those of the cluster and of the directory's cluster
    -- that holds the file's entry, which is another one.
    pub write-Outcome :
        (fuel : ℕ) (inode : Inode) (garbage : ℕ → ℕ) (buf count position : ℕ) (s : d.State)
        → inode.first_cluster ≢ 0
        → follow d fsbi s (position / fsbi.bytes_per_cluster) inode.first_cluster ≢ 0
        → Mounted fsbi capacity inode (sector_at inode position s)
        → position / fsbi.bytes_per_cluster < 2 ^ 31
        → position % fsbi.bytes_per_cluster + count ≤ fsbi.bytes_per_cluster
        → count < 2 ^ 31
        → Reachable buf count
        → Bytes mem
        → (inode' : Inode) × (s' : d.State) × (write d answers fsbi mem
              (suc fuel)
              inode
              garbage
              buf
              count
              position
              s
            ≡ some (record {
              s = s';
              inode = inode';
              position = position + count;
              retval = pos count;
            }))
          × (inode'.file_size ≡ max inode.file_size (position + count))
          × Outcome inode buf count position (sector_at inode position s) s s'
    write-Outcome fuel inode garbage buf count position s file chain fits early room small ok
          bytes =
        let b = fsbi.bytes_per_cluster in
        let cluster = follow d fsbi s (position / b) inode.first_cluster in
        let e =
          round d fsbi mem answers works s cluster garbage count count buf (position % b)
            position in
        let done = with_size d answers fsbi mem inode e in
        let sector = sector_at inode position s in
        let wide : 0 < b = omega (arith, fits.bytes, fits.some_bytes) in
        let run =
          write_loop-last d fsbi mem answers works fuel cluster 0 s garbage count buf (position % b)
            position (omega (arith, room)) (copies-Reachable buf count count ok (omega arith)) in
        (
          done.0,
          done.1,
          write-runs d fsbi mem answers works (suc fuel) inode garbage buf count position s e file
              wide early chain small (omega arith) run,
          with_size-file_size inode e,
          (
            Holds-same (cluster_byte d fsbi s sector) (cluster_byte d fsbi e.s sector)
                (cluster_byte d fsbi done.1 sector) (position % b) count (λ i. mem (buf + i))
                (λ a. cluster_byte-same sector a e.s done.1 fits.place (λ m w lt word.
                  with_size-other inode e (sector + m) w cleared fits.entry
                    (omega (arith, lt, fits.place)) word
                    (fits.apart (sector + m) (omega arith) (omega (arith, lt)))))
                (merged-Holds sector (position % b) count buf s fits.place
                  (omega (arith, room, fits.bytes)) bytes),
            λ l w inside word out apart.
                with_size-other inode e l w cleared fits.entry inside word apart
                ∙ write_cluster-other sector l w e.buffer cleared s fits.place inside word out,
          ),
        )
