-- ===== src/Fat/Inode/ReadBack.antt =====
-- A cluster that is written reads back byte by byte.
use system_studying.Base.{
  ℕ, zero, suc, ◌+◌, ◌*◌, ◌/◌, ◌%◌, ◌^◌, ◌≤◌, ◌<◌, ◌≡◌, ◌≢◌, ◌⊎◌, inl, inr, refl, ap, ◌∙◌, arith,
  true, if◌then◌else◌, ltb, ◌==◌, Bool-cases,
}
use system_studying.Fat.{Disk, Works, cleared}
use system_studying.Fat.Data.{Volume, byte_of, cluster_byte}
use system_studying.Fat.Inode.{word_at, write_sectors, write_cluster}

-- The values of a byte.
abbrev pub Bytes : (ℕ → ℕ) → Type 0
Bytes buffer = (i : ℕ) → buffer i < 256

byte_of-bytes :
    (a b c e k : ℕ)
    → a < 256
    → b < 256
    → c < 256
    → e < 256
    → k < 4
    → byte_of (a + 2 ^ 8 * b + 2 ^ 16 * c + 2 ^ 24 * e) k
      ≡ (if k == 0 then a else if k == 1 then b else if k == 2 then c else e)
byte_of-bytes a b c e zero p q r t h = omega arith
byte_of-bytes a b c e (suc zero) p q r t h = omega arith
byte_of-bytes a b c e (suc (suc zero)) p q r t h = omega arith
byte_of-bytes a b c e (suc (suc (suc zero))) p q r t h = omega arith
byte_of-bytes a b c e (suc (suc (suc (suc k)))) p q r t h = absurd (omega arith)

one_of_four :
    (buffer : ℕ → ℕ) (a k : ℕ)
    → k < 4
    → (if k == 0
        then buffer a
        else if k == 1
        then buffer (a + 1)
        else if k == 2
        then buffer (a + 2)
        else buffer (a + 3))
      ≡ buffer (a + k)
one_of_four buffer a zero h = ap buffer (omega arith)
one_of_four buffer a (suc zero) h = refl
one_of_four buffer a (suc (suc zero)) h = refl
one_of_four buffer a (suc (suc (suc zero))) h = refl
one_of_four buffer a (suc (suc (suc (suc k)))) h = absurd (omega arith)

byte_of-word_at :
    (buffer : ℕ → ℕ) (i w k : ℕ)
    → Bytes buffer
    → k < 4
    → byte_of (word_at buffer i w) k ≡ buffer (512 * i + 4 * w + k)
byte_of-word_at buffer i w k small h =
    let a = 512 * i + 4 * w in
    byte_of-bytes (buffer a) (buffer (a + 1)) (buffer (a + 2)) (buffer (a + 3)) k (small a)
      (small (a + 1)) (small (a + 2)) (small (a + 3)) h
    ∙ one_of_four buffer a k h

module _ (d : Disk) (capacity : ℕ) (works : Works d capacity) (fsbi : Volume) where
  pub write_sectors-other :
      (sector i n l w : ℕ) (buffer c : ℕ → ℕ) (s : d.State)
      → sector + i + n ≤ capacity
      → capacity ≤ 2 ^ 64
      → l < capacity
      → w < 128
      → (l < sector + i) ⊎ (sector + i + n ≤ l)
      → d.read_sector (write_sectors d fsbi sector i buffer n s) l c w ≡ d.read_sector s l c w
  unfolding write_sectors
  write_sectors-other sector i zero l w buffer c s fits top inside word apart = refl
  write_sectors-other sector i (suc n) l w buffer c s fits top inside word apart =
      let exact : (sector + i) % 2 ^ 64 ≡ sector + i = omega arith in
      let apart' : (l < sector + (i + 1)) ⊎ (sector + (i + 1) + n ≤ l) = ground arith in
      let different : (sector + i) % 2 ^ 64 ≢ l = ground arith in
      write_sectors-other sector (i + 1) n l w buffer c
        (d.write_sector s ((sector + i) % 2 ^ 64) (word_at buffer i)) (omega arith) top inside word
        apart'
      ∙ works.read_other s ((sector + i) % 2 ^ 64) l (word_at buffer i) c w (omega arith) inside
          different word

  write_sectors-written :
      (sector i n m w : ℕ) (buffer c : ℕ → ℕ) (s : d.State)
      → sector + i + n ≤ capacity
      → capacity ≤ 2 ^ 64
      → w < 128
      → i ≤ m
      → m < i + n
      → d.read_sector (write_sectors d fsbi sector i buffer n s) (sector + m) c w
        ≡ word_at buffer m w
  unfolding write_sectors
  write_sectors-written sector i zero m w buffer c s fits top word low high = absurd (omega arith)
  write_sectors-written sector i (suc n) m w buffer c s fits top word low high =
      let exact : (sector + i) % 2 ^ 64 ≡ sector + i = omega arith in
      let s1 = d.write_sector s ((sector + i) % 2 ^ 64) (word_at buffer i) in
      elim (Bool-cases (m == i)) [
        | inl here ↦
            let same : i ≡ m = ground arith in
            let first : s1 ≡ d.write_sector s (sector + m) (word_at buffer m) =
              ap (λ t. d.write_sector s t (word_at buffer i)) exact
              ∙ ap (λ t. d.write_sector s (sector + t) (word_at buffer t)) same in
            write_sectors-other sector (i + 1) n (sector + m) w buffer c s1 (omega arith) top
              (omega arith) word (inl (omega (arith, same)))
            ∙ ap (λ t. d.read_sector t (sector + m) c w) first
            ∙ works.read_written s (sector + m) (word_at buffer m) c w (omega arith) word
        | inr later ↦
            write_sectors-written sector (i + 1) n m w buffer c s1 (omega arith) top word
              (ground arith) (omega arith)
      ]

  -- On a disk that works, a cluster that has been written reads back as the bytes of its buffer.
  pub cluster_byte-write_cluster :
      (sector i : ℕ) (buffer : ℕ → ℕ) (s : d.State)
      → Bytes buffer
      → sector + fsbi.sector_per_cluster ≤ capacity
      → capacity ≤ 2 ^ 64
      → i < 512 * fsbi.sector_per_cluster
      → cluster_byte d fsbi (write_cluster d fsbi sector buffer s) sector i ≡ buffer i
  unfolding cluster_byte write_cluster
  cluster_byte-write_cluster sector i buffer s small fits top inside =
      let m = i / 512 in
      let w = i / 4 % 128 in
      let row : ltb m fsbi.sector_per_cluster ≡ true = ground arith in
      let exact : (sector + m) % 2 ^ 64 ≡ sector + m = ground arith in
      let written =
        write_sectors-written sector 0 fsbi.sector_per_cluster m w buffer cleared s (omega arith)
          top (omega arith) (omega arith) (ground arith) in
      rw (row, exact, written)
        (byte_of-word_at buffer m w (i % 4) small (omega arith) ∙ ap buffer (omega arith))
