-- ===== src/Sys/Area.antt =====
-- The range that `verify_area` of os/kernel/lib.h accepts.
use system_studying.Base.{ℕ, ◌+◌, ◌^◌, ◌≤◌, ◌<◌, ◌≡◌, ◌↔◌, ◌⊎◌, arith, true}
use system_studying.Sys.{verify_area}

-- Of the ranges of 64 bit numbers, `verify_area` accepts just those that end below 2 ^ 47, and those
-- whose end is below 2 ^ 47 because the sum wraps around.
pub verify_area_lem :
    (addr size : ℕ)
    → addr < 2 ^ 64
    → size < 2 ^ 64
    → (verify_area addr size ≡ true)
      ↔ ((addr + size < 2 ^ 47) ⊎ ((2 ^ 64 ≤ addr + size) × (addr + size < 2 ^ 64 + 2 ^ 47)))
verify_area_lem addr size h k = (λ e. ground arith, λ e. ground arith)
