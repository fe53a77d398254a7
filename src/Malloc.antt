-- ===== src/Malloc.antt =====
-- `malloc` of os/user/malloc.c over the system call `brk`, which is a parameter.
pub mod Blocks
mod Tests
use system_studying.Base.{ℕ, ◌+◌, ◌-◌, ◌*◌, ◌/◌, ◌%◌, ◌^◌, if◌then◌else◌, leb, ◌==◌}

abbrev pub page_size : ℕ
page_size = 2 ^ 21

abbrev pub size_align : ℕ
size_align = 64

-- The three addresses, and the rest of the machine, on which `brk` works.
pub record Area (W : Type 0) : Type 0 where
  pub brk_start_address : ℕ
  pub brk_used_address : ℕ
  pub brk_end_address : ℕ
  pub world : W

-- The argument of `brk`.
abbrev pub more : ℕ → ℕ → ℕ
more end size =
    (end + (size + size_align + page_size - 1) % 2 ^ 64 / page_size * page_size) % 2 ^ 64

module _ {W : Type 0} (brk : ℕ → W → ℕ × W) where
  abbrev pub started : Area W → Area W
  started st =
      let (address, world) = brk 0 st.world in
      if st.brk_start_address == 0
      then record {
        brk_start_address = address;
        brk_used_address = address;
        brk_end_address = address;
        world = world;
      }
      else st

  abbrev pub extended : ℕ → Area W → Area W
  extended size st =
      let (address, world) = brk (more st.brk_end_address size) st.world in
      if leb st.brk_end_address ((st.brk_used_address + size_align + size) % 2 ^ 64)
      then record st { brk_end_address = address; world = world }
      else st

  unfoldable pub malloc : ℕ → Area W → ℕ × Area W
  malloc size st =
      let st' = extended size (started st) in
      (
        st'.brk_used_address,
        record st' { brk_used_address = (st'.brk_used_address + (size + size_align)) % 2 ^ 64 },
      )
