-- ===== src/Fat/Read/Loop.antt =====
-- The rounds of `FAT32_read`: they copy the bytes of the file in order.
use native.Mathlib.Nat.{add-mul-div_right, add-mul-mod_self_right, div-eq_of_lt, mod-eq_of_lt}
use system_studying.Base.{
  ℕ, zero, suc, ◌+◌, ◌-◌, ◌*◌, ◌/◌, ◌%◌, ◌^◌, ◌≤◌, ◌<◌, ◌≡◌, ◌≢◌, inl, inr, refl, sym, subst, ap,
  ◌∙◌, arith, Bool, true, false, Option, some, leb, leb→le, ◌==◌, Bool-cases,
}
use system_studying.Base.Int.{pos}
use system_studying.Fat.{Disk, readfatentry}
use system_studying.Fat.Data.{Volume, cluster_sector, cluster_byte, copied, copies, follow}
use system_studying.Fat.Read.Copies.{
  Holds, copied-Holds, Holds-from, Holds-append, Reachable, copies-Reachable, Reachable-rest,
}
use system_studying.Fat.Read.{ReadEnd, with_piece, read_loop}

suc-mul : (k b : ℕ) → suc k * b ≡ k * b + b
suc-mul k b = grind arith

some_rounds : (f b x : ℕ) → x ≤ f * b → 0 < x → 0 < f
some_rounds zero b x h p = absurd (omega (arith, h, p))
some_rounds (suc f) b x h p = omega arith

module _ (d : Disk) (fsbi : Volume) (s : d.State) where
  -- The clusters of the file, in order, and its bytes.
  abbrev pub cluster_at : ℕ → ℕ → ℕ
  cluster_at first k = follow d fsbi s k first

  abbrev pub file_byte : ℕ → ℕ → ℕ
  file_byte first p =
      cluster_byte d fsbi s (cluster_sector fsbi (cluster_at first (p / fsbi.bytes_per_cluster)))
        (p % fsbi.bytes_per_cluster)

  follow-suc :
      (n c : ℕ) → follow d fsbi s (suc n) c ≡ readfatentry d fsbi.table (follow d fsbi s n c) s
  unfolding follow
  follow-suc zero c = refl
  follow-suc (suc n) c = follow-suc n (readfatentry d fsbi.table c s)

  file_byte-at :
      (first k o : ℕ)
      → o < fsbi.bytes_per_cluster
      → file_byte first (k * fsbi.bytes_per_cluster + o)
        ≡ cluster_byte d fsbi s (cluster_sector fsbi (cluster_at first k)) o
  file_byte-at first k o h =
      let b = fsbi.bytes_per_cluster in
      let swap : k * b + o ≡ o + k * b = omega arith in
      let row : (k * b + o) / b ≡ k =
        ap (λ t. t / b) swap
        ∙ add-mul-div_right o k {z = b} (omega arith)
        ∙ omega (arith, div-eq_of_lt {n = o} {m = b} h) in
      let column : (k * b + o) % b ≡ o =
        ap (λ t. t % b) swap ∙ add-mul-mod_self_right o k b ∙ mod-eq_of_lt h in
      rw (row, column)

  module _ (answers : ℕ → Bool) (works : (sector : ℕ) → answers sector ≡ true) where
    with_piece-Holds :
        (first k o n buf : ℕ) (mem : ℕ → ℕ)
        → o + n ≤ fsbi.bytes_per_cluster
        → copies buf n ≡ true
        → Holds mem
            (with_piece d answers fsbi s (cluster_sector fsbi (cluster_at first k)) buf o n mem)
            buf
            n
            (λ i. file_byte first (k * fsbi.bytes_per_cluster + o + i))
    with_piece-Holds first k o n buf mem room ok =
        let sector = cluster_sector fsbi (cluster_at first k) in
        let from = λ (i : ℕ). cluster_byte d fsbi s sector (o + i) in
        rw ok (
          Holds-from mem (copied mem buf n from) buf n from
            (λ i. file_byte first (k * fsbi.bytes_per_cluster + o + i))
            (λ i lt.
              sym (file_byte-at first k (o + i) (omega (arith, lt, room)))
              ∙ ap (file_byte first) (omega arith))
            (copied-Holds mem buf n from))

    -- A round that reads up to the end of its cluster, with the rounds behind it.
    read_loop-next :
        (f cluster next n buf o position : ℕ) (mem : ℕ → ℕ) (r : Option ReadEnd)
        → leb n (fsbi.bytes_per_cluster - o) ≡ false
        → readfatentry d fsbi.table cluster s ≡ next
        → next ≢ 0
        → buf + (fsbi.bytes_per_cluster - o) < 2 ^ 64
        → read_loop d answers fsbi s f next
            (n - (fsbi.bytes_per_cluster - o))
            (buf + (fsbi.bytes_per_cluster - o))
            0
            (position + (fsbi.bytes_per_cluster - o))
            (with_piece d answers fsbi s
              (cluster_sector fsbi cluster)
              buf
              o
              (fsbi.bytes_per_cluster - o)
              mem)
          ≡ r
        → read_loop d answers fsbi s (suc f) cluster n buf o position mem ≡ r
    unfolding read_loop
    read_loop-next f cluster next n buf o position mem r more e nonzero fits rest =
        let l = fsbi.bytes_per_cluster - o in
        let left : (n - l == 0) ≡ false = ground arith in
        let goes_on : (next == 0) ≡ false = ground arith in
        let exact : (buf + l) % 2 ^ 64 ≡ buf + l = omega (arith, fits) in
        let rest' =
          subst
            (λ t.
              read_loop d answers fsbi s f next (n - l) t 0 (position + l)
                (with_piece d answers fsbi s (cluster_sector fsbi cluster) buf o l mem)
              ≡ r)
            (sym exact) rest in
        rw (works (cluster_sector fsbi cluster), more, e, left, goes_on) rest'

    -- The result of the loop, with the bytes from `p` on.
    abbrev pub Reads : ℕ → ℕ → ℕ → ℕ → ℕ → (ℕ → ℕ) → Option ReadEnd → Type 0
    Reads first p buf n position mem r =
        (mem' : ℕ → ℕ) × (r
          ≡ some (record { index = 0; position = position + n; mem = mem'; retval = pos 0 }))
        × Holds mem mem' buf n (λ i. file_byte first (p + i))

    pub read_loop-Reads :
        (f first k o n buf position : ℕ) (mem : ℕ → ℕ)
        → o < fsbi.bytes_per_cluster
        → o + n ≤ f * fsbi.bytes_per_cluster
        → 0 < f
        → ((j : ℕ)
            → k < j
            → j * fsbi.bytes_per_cluster < k * fsbi.bytes_per_cluster + o + n
            → cluster_at first j ≢ 0)
        → buf + n < 2 ^ 64
        → Reachable buf n
        → Reads first
            (k * fsbi.bytes_per_cluster + o)
            buf
            n
            position
            mem
            (read_loop d answers fsbi s f (cluster_at first k) n buf o position mem)
    unfolding read_loop
    read_loop-Reads zero first k o n buf position mem lt fuel some_fuel chain fits ok =
        absurd (omega arith)
    read_loop-Reads (suc f) first k o n buf position mem lt fuel some_fuel chain fits ok =
        let b = fsbi.bytes_per_cluster in
        let sector = cluster_sector fsbi (cluster_at first k) in
        elim (Bool-cases (leb n (b - o))) [
          | inl last ↦
              let le = leb→le n (b - o) last in
              let all : n - n ≡ 0 = omega arith in
              (
                with_piece d answers fsbi s sector buf o n mem,
                rw (works sector, last, all) refl,
                with_piece-Holds first k o n buf mem (omega (arith, le, lt))
                    (copies-Reachable buf n n ok (omega arith)),
              )
          | inr more ↦
              let l = b - o in
              let long : l < n = ground arith in
              let row : suc k * b ≡ k * b + b = suc-mul k b in
              let fuel_row : suc f * b ≡ f * b + b = suc-mul f b in
              let left : n - l ≤ f * b = omega (arith, fuel, fuel_row, lt, long) in
              let some_left : 0 < f = some_rounds f b (n - l) left (omega (arith, long)) in
              let mem1 = with_piece d answers fsbi s sector buf o l mem in
              let (mem2, run, held) =
                read_loop-Reads f first (suc k) 0 (n - l) (buf + l) (position + l) mem1
                  (omega (arith, lt)) (omega (arith, left)) some_left
                  (λ j above below.
                    chain j (omega (arith, above)) (omega (arith, below, row, lt, long)))
                  (omega (arith, fits, long)) (Reachable-rest buf n l ok (omega (arith, long))) in
              let end : position + l + (n - l) ≡ position + n = omega (arith, long) in
              let whole : l + (n - l) ≡ n = omega (arith, long) in
              let here =
                with_piece-Holds first k o l buf mem (omega (arith, lt))
                  (copies-Reachable buf n l ok (omega (arith, long))) in
              let there =
                Holds-from mem1 mem2 (buf + l) (n - l) (λ i. file_byte first (suc k * b + 0 + i))
                  (λ i. file_byte first (k * b + o + (l + i)))
                  (λ i h. ap (file_byte first) (omega (arith, row, lt))) held in
              (
                mem2,
                read_loop-next f (cluster_at first k) (cluster_at first (suc k)) n buf o position
                    mem
                    (some
                      (record { index = 0; position = position + n; mem = mem2; retval = pos 0 }))
                    more (sym (follow-suc k first))
                    (chain (suc k) (omega arith) (omega (arith, row, lt, long)))
                    (omega (arith, fits, long))
                    (run
                      ∙ ap
                          (λ t.
                            some (record { index = 0; position = t; mem = mem2; retval = pos 0 }))
                          end),
                subst (λ t. Holds mem mem2 buf t (λ i. file_byte first (k * b + o + i))) whole
                    (Holds-append mem mem1 mem2 buf l (n - l) (λ i. file_byte first (k * b + o + i))
                      here there),
              )
        ]
