-- ===== src/Fat/Read/Content.antt =====
-- What `FAT32_read` puts into memory: the bytes of the file.
use native.Mathlib.Nat.{div-add-mod', mod-lt, div-le_self}
use system_studying.Base.{
  ℕ, ◌+◌, ◌-◌, ◌*◌, ◌/◌, ◌%◌, ◌^◌, ◌≤◌, ◌<◌, ◌≡◌, ◌≢◌, ap, arith, Bool, true, false, some,
  if◌then◌else◌, ltb, leb, ◌==◌,
}
use system_studying.Base.Int.{pos}
use system_studying.Fat.{Disk}
use system_studying.Fat.Data.{Volume}
use system_studying.Fat.Read.Copies.{Holds, Holds-from, Reachable}
use system_studying.Fat.Read.{read_loop, wanted, read}
use system_studying.Fat.Read.Loop.{cluster_at, file_byte, read_loop-Reads}

module _ (d : Disk) (fsbi : Volume) (s : d.State) (answers : ℕ → Bool)
    (works : (sector : ℕ) → answers sector ≡ true) where
  -- The bytes that the call is to read: up to the end of the file.
  abbrev pub available : ℕ → ℕ → ℕ → ℕ
  available file_size position count =
      if leb (position + count) file_size then count else file_size - position

  available_bounds :
      (file_size position count : ℕ)
      → position ≤ file_size
      → (position + available file_size position count ≤ file_size)
        × (available file_size position count ≤ count)
  available_bounds file_size position count h = ground arith

  wanted-available :
      (file_size position count : ℕ)
      → position ≤ file_size
      → file_size < 2 ^ 64
      → position + count < 2 ^ 64
      → wanted d answers fsbi s file_size position count ≡ available file_size position count
  wanted-available file_size position count h k l = ground arith

  read-runs :
      (fuel first file_size buf count position n : ℕ) (mem mem' : ℕ → ℕ)
      → first ≢ 0
      → 0 < fsbi.bytes_per_cluster
      → position / fsbi.bytes_per_cluster < 2 ^ 31
      → wanted d answers fsbi s file_size position count ≡ n
      → n < 2 ^ 31
      → read_loop d answers fsbi s fuel
          (cluster_at d fsbi s first (position / fsbi.bytes_per_cluster))
          n
          buf
          (position % fsbi.bytes_per_cluster)
          position
          mem
        ≡ some (record { index = 0; position = position + n; mem = mem'; retval = pos 0 })
      → read d answers fsbi s fuel first file_size buf count position mem
        ≡ some (record { index = 0; position = position + n; mem = mem'; retval = pos n })
  unfolding read
  read-runs fuel first file_size buf count position n mem mem' nonzero wide early e small run =
      let b = fsbi.bytes_per_cluster in
      let divides : (b == 0) ≡ false = ground arith in
      let some_file : (first == 0) ≡ false = ground arith in
      let index : leb (2 ^ 31) (position / b) ≡ false = ground arith in
      let int : ltb n (2 ^ 31) ≡ true = ground arith in rw (divides, some_file, index, e, int, run)

  -- `FAT32_read` from a position in a file that an `int` measures, on a disk that answers, whose chain
  -- of clusters reaches to the end of what is read, gives the number of bytes up to the end of the
  -- file and at most `count`, puts these bytes of the file at `buf`, changes no other memory and moves
  -- the position by them. A round for each cluster that is read is enough.
  pub read-Holds :
      (fuel first file_size buf count position : ℕ) (mem : ℕ → ℕ)
      → first ≢ 0
      → 0 < fsbi.bytes_per_cluster
      → position ≤ file_size
      → file_size < 2 ^ 31
      → count < 2 ^ 63
      → position % fsbi.bytes_per_cluster + available file_size position count
        ≤ fuel * fsbi.bytes_per_cluster
      → 0 < fuel
      → ((j : ℕ)
          → j * fsbi.bytes_per_cluster < position + available file_size position count
          → cluster_at d fsbi s first j ≢ 0)
      → buf + available file_size position count < 2 ^ 64
      → Reachable buf (available file_size position count)
      → (mem' : ℕ → ℕ) × (read d answers fsbi s fuel first file_size buf count position mem
          ≡ some (record {
            index = 0;
            position = position + available file_size position count;
            mem = mem';
            retval = pos (available file_size position count);
          }))
        × Holds mem mem' buf
            (available file_size position count)
            (λ i. file_byte d fsbi s first (position + i))
  unfolding read
  read-Holds fuel first file_size buf count position mem nonzero wide inside small short rounds
        some_fuel chain fits ok =
      let b = fsbi.bytes_per_cluster in
      let n = available file_size position count in
      let k = position / b in
      let o = position % b in
      let split : k * b + o ≡ position = div-add-mod' position b in
      let (below, least) = available_bounds file_size position count inside in
      let early : k < 2 ^ 31 = omega (arith, div-le_self position b, inside, small) in
      let (mem', run, held) =
        read_loop-Reads d fsbi s answers works fuel first k o n buf position mem
          (mod-lt position wide) rounds some_fuel
          (λ j above below. chain j (omega (arith, below, split))) fits ok in
      (
        mem',
        read-runs fuel first file_size buf count position n mem mem' nonzero wide early
            (wanted-available file_size position count inside (omega (arith, small))
              (omega (arith, inside, small, short)))
            (omega (arith, below, small)) run,
        Holds-from mem mem' buf n (λ i. file_byte d fsbi s first (k * b + o + i))
            (λ i. file_byte d fsbi s first (position + i))
            (λ i h. ap (file_byte d fsbi s first) (omega (arith, split))) held,
      )
