-- ===== src/Fat/Tests.antt =====
-- Two copies of a table of one sector, at the sectors 32 and 33 of a disk that holds its words in an
-- array: the entries 0 to 2 are taken, and all others free.
use system_studying.Base.{
  ℕ, zero, suc, ◌+◌, ◌*◌, ◌||◌, inl, inr, some, ◌-◌, ap, true, false, ◌%◌, ◌^◌, ◌<◌, ◌≢◌, ◌≡◌, ◌⊎◌,
  refl, arith, if◌then◌else◌, ◌==◌, ltb,
}
use system_studying.Base.Int.{pos, negsuc}
use system_studying.Fat.{
  Disk, Works, SbInfo, File, readfatentry, writefatentry, find_available_cluster, lseek, e_overflow,
}
use system_studying.Fat.Entry.{Fits, InTable, readfatentry-writefatentry}
use system_studying.Fat.Mirror.{InSync, writefatentry-InSync}
use system_studying.Fat.Free.{find_available_cluster-InTable}
use system_studying.Fat.Seek.{lseek-sought}
use system_studying.Fat.Data.{Volume, cluster_byte, follow}
use system_studying.Fat.Read.{read}
use system_studying.Fat.Read.Copies.{Holds}
use system_studying.Fat.Read.Content.{available, read-Holds}
use system_studying.Fat.Read.Loop.{cluster_at, file_byte}
use system_studying.Fat.Inode.{Inode}
use system_studying.Fat.Write.{write}
use system_studying.Fat.Write.Content.{Beyond, Outcome, Mounted, write-Outcome}
use system_studying.Fat.Write.Crossing.{write_crossing}
use system_studying.Fat.Write.Fresh.{write_fresh-first_sectors}

abbrev array : Disk
array = record {
  State = ℕ → ℕ → ℕ;
  read_sector = λ s k c. s k;
  write_sector = λ s k b l. if l == k then b else s l;
}

array-Works : (n : ℕ) → Works array n
array-Works n = record {
  read_written = λ s k b c w p q.
      ap (λ t. (if t then b else s k) w) (let e : (k == k) ≡ true = ground arith in e);
  read_other = λ s k l b c w p q r t.
      ap (λ z. (if z then b else s l) w) (let e : (l == k) ≡ false = ground arith in e);
}

abbrev sb_info : SbInfo
sb_info = record { fat1_firstsector = 32; sector_per_fat = 1; num_fats = 2 }

sb_info-Fits : Fits sb_info 34
sb_info-Fits = record { reachable = omega arith; inside = omega arith; a_copy = omega arith }

abbrev blank : ℕ → ℕ → ℕ
blank k w = if ltb w 3 then 2 ^ 28 - 1 else 0

readfatentry-writefatentry_example :
    readfatentry array sb_info 3 (writefatentry array sb_info 3 (2 ^ 32 - 1) blank)
    ≡ (2 ^ 32 - 1) % 2 ^ 28
readfatentry-writefatentry_example =
    readfatentry-writefatentry array 34 (array-Works 34) sb_info sb_info-Fits 3 3 (2 ^ 32 - 1) blank
      (omega arith) (omega arith)

writefatentry-InSync_example : InSync array sb_info (writefatentry array sb_info 3 7 blank)
writefatentry-InSync_example =
    writefatentry-InSync array 34 (array-Works 34) sb_info sb_info-Fits 3 7 blank (omega arith)
      (λ i e p q. refl)

find_available_cluster-InTable_example :
    ((find_available_cluster array sb_info blank ≡ 0)
      × ((e : ℕ) → InTable sb_info e → readfatentry array sb_info e blank ≢ 0))
    ⊎ (InTable sb_info (find_available_cluster array sb_info blank)
        × (readfatentry array sb_info (find_available_cluster array sb_info blank) blank ≡ 0)
        × ((e : ℕ)
            → e < find_available_cluster array sb_info blank
            → readfatentry array sb_info e blank ≢ 0))
find_available_cluster-InTable_example =
    find_available_cluster-InTable array sb_info blank (omega arith)

first_free : find_available_cluster array sb_info blank ≡ 3
unfolding find_available_cluster
first_free = refl

abbrev opened : File
opened = record { position = pos 10; file_size = 100 }

lseek-sought_example : lseek opened (negsuc 19) (pos 1) ≡ (e_overflow, opened)
lseek-sought_example = lseek-sought opened (negsuc 19) (pos 1) (omega arith) (omega arith) refl

-- A volume of clusters of one sector from sector 34 on: the root directory is cluster 2, and a file of
-- 1,000 bytes has the clusters 4 and 5.
abbrev volume : Volume
volume = record {
  table = sb_info;
  data_firstsector = 34;
  sector_per_cluster = 1;
  bytes_per_cluster = 512;
}

abbrev two_clusters : ℕ → ℕ → ℕ
two_clusters k w =
    if ltb 33 k then k else if w == 4 then 5 else if ltb w 4 || w == 5 then 2 ^ 28 - 1 else 0

abbrev two_cluster_file : Inode
two_cluster_file = record {
  first_cluster = 4;
  dentry_location = 2;
  dentry_position = 0;
  file_size = 1000;
}

abbrev letters : ℕ → ℕ
letters a = 65

abbrev kernel_buf : ℕ
kernel_buf = 2 ^ 48

chain_of_file :
    (j : ℕ)
    → j * 512 < 500 + available array volume two_clusters (λ k. true) (λ k. refl) 1000 500 400
    → cluster_at array volume two_clusters 4 j ≢ 0
unfolding follow readfatentry
chain_of_file zero h e = absurd (omega arith)
chain_of_file (suc zero) h e = absurd (omega arith)
chain_of_file (suc (suc j)) h e = absurd (omega arith)

read-Holds_example :
    (mem' : ℕ → ℕ) × (read array (λ k. true) volume two_clusters 2 4 1000 kernel_buf 400 500 letters
      ≡ some (record { index = 0; position = 900; mem = mem'; retval = pos 400 }))
    × Holds letters mem' kernel_buf 400 (λ i. file_byte array volume two_clusters 4 (500 + i))
read-Holds_example =
    read-Holds array volume two_clusters (λ k. true) (λ k. refl) 2 4 1000 kernel_buf 400 500 letters
      (omega arith) (omega arith) (omega arith) (omega arith) (omega arith) (omega arith)
      (omega arith) chain_of_file (omega arith) (inl (omega arith))

volume-Mounted : Mounted volume 64 two_cluster_file 36
volume-Mounted = record {
  bytes = refl;
  some_bytes = omega arith;
  place = omega arith;
  entry = omega arith;
  apart = λ l h k. inr (omega (arith, h));
}

followed : follow array volume two_clusters 0 4 ≢ 0
unfolding follow
followed e = absurd (omega arith)

write-Outcome_example :
    (inode' : Inode) × (s' : ℕ → ℕ → ℕ) × (write array
        (λ k. true)
        volume
        letters
        1
        two_cluster_file
        letters
        kernel_buf
        100
        50
        two_clusters
      ≡ some (record { s = s'; inode = inode'; position = 150; retval = pos 100 }))
    × (inode'.file_size ≡ 1000)
    × Outcome array 64
        (array-Works 64)
        (omega arith)
        volume
        letters
        (λ k. true)
        (λ k. refl)
        two_cluster_file
        kernel_buf
        100
        50
        36
        two_clusters
        s'
unfolding follow
write-Outcome_example =
    write-Outcome array 64 (array-Works 64) (omega arith) volume letters (λ k. true) (λ k. refl) 0
      two_cluster_file letters kernel_buf 100 50 two_clusters (omega arith) followed volume-Mounted
      (omega arith) (omega arith) (omega arith) (inl (omega arith)) (λ i. omega arith)

write_crossing_example :
    (s' : ℕ → ℕ → ℕ) × (write array
        (λ k. true)
        volume
        letters
        2
        two_cluster_file
        letters
        kernel_buf
        100
        500
        two_clusters
      ≡ some (record { s = s'; inode = two_cluster_file; position = 600; retval = pos 100 }))
    × ((l w : ℕ) → l < 64 → w < 128 → Beyond volume 36 l → s' l w ≡ two_clusters l w)
unfolding follow readfatentry
write_crossing_example =
    write_crossing array 64 (array-Works 64) (omega arith) volume letters (λ k. true) (λ k. refl) 0
      two_cluster_file letters kernel_buf 100 500 two_clusters (omega arith) followed (omega arith)
      (omega arith) (inl (omega arith)) (omega arith) (omega arith) (omega arith) (omega arith)
      (omega arith) (omega arith) (omega arith) (omega arith) (inl (omega arith))

abbrev new_file : Inode
new_file = record { first_cluster = 0; dentry_location = 2; dentry_position = 1; file_size = 0 }

found : find_available_cluster array sb_info two_clusters ≡ 6
unfolding find_available_cluster
found = refl

volume-Mounted-new : Mounted volume 64 new_file 0
volume-Mounted-new = record {
  bytes = refl;
  some_bytes = omega arith;
  place = omega arith;
  entry = omega arith;
  apart = λ l h k. inl (omega (arith, k));
}

write_fresh-first_sectors_example :
    (inode' : Inode) × (s' : ℕ → ℕ → ℕ) × (write array
        (λ k. true)
        volume
        letters
        1
        new_file
        letters
        kernel_buf
        100
        7
        two_clusters
      ≡ some (record { s = s'; inode = inode'; position = 107; retval = pos 100 }))
    × (inode'.first_cluster ≡ find_available_cluster array sb_info two_clusters)
    × ((i : ℕ) → i < 100 → cluster_byte array volume s' 0 (7 + i) ≡ 65)
write_fresh-first_sectors_example =
    write_fresh-first_sectors array 64 (array-Works 64) (omega arith) volume letters (λ k. true)
      (λ k. refl) 0 new_file letters kernel_buf 100 7 two_clusters refl (omega (arith, found))
      volume-Mounted-new (omega arith) (omega arith) (omega arith) (inl (omega arith))
      (λ i. omega arith) (λ i. omega arith)
