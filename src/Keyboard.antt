-- ===== src/Keyboard.antt =====
-- The scan code buffer of the keyboard: os/kernel/keyboard.c. The pointers `p_head` and `p_tail` are
-- offsets in `buf`; waking up of a reader is left out.
pub mod Buffer
pub mod Wrapped
mod Tests
use system_studying.Base.{Option, none, some, ℕ, ◌+◌, ◌-◌, Bool, if◌then◌else◌, ltb, leb, ◌==◌}
use system_studying.Links.{update}
use system_studying.Sys.{verify_area}

abbrev pub buf_size : ℕ
buf_size = 100

pub record Keyboard : Type 0 where
  pub p_head : ℕ
  pub p_tail : ℕ
  pub count : ℕ
  pub buf : ℕ → ℕ

-- What `keyboard_open`, `keyboard_close` and the reset of `keyboard_ioctl` leave.
unfoldable pub keyboard_open : Keyboard → Keyboard
keyboard_open kb = record { p_head = 0; p_tail = 0; count = 0; buf = λ i. 0 }

-- `x` is what the port gave.
unfoldable pub keyboard_handler : ℕ → Keyboard → Keyboard
keyboard_handler x kb =
    let head = if kb.p_head == buf_size then 0 else kb.p_head in
    if x == 250
    then kb
    else record kb { p_head = head + 1; count = kb.count + 1; buf = update kb.buf head x }

-- The memory at the reader's buffer, with `n` bytes at `from` copied to its start.
abbrev pub copied_codes : (ℕ → ℕ) → ℕ → ℕ → (ℕ → ℕ) → ℕ → ℕ
copied_codes buf from n user j = if ltb j n then buf (from + j) else user j

-- `copy_to_user` to the reader's buffer at `addr`: nothing, if `verify_area` refuses the range.
abbrev pub copy_to_user : ℕ → (ℕ → ℕ) → ℕ → ℕ → (ℕ → ℕ) → ℕ → ℕ
copy_to_user addr buf from n user =
    if verify_area addr n then copied_codes buf from n user else user

abbrev pub counter_of : Keyboard → ℕ → ℕ
counter_of kb wanted = if leb wanted kb.count then wanted else kb.count

-- `keyboard_read` from the point where there is something to read.
abbrev pub read_codes : ℕ → ℕ → (ℕ → ℕ) → Keyboard → ℕ × (ℕ → ℕ) × Keyboard
read_codes addr wanted user kb =
    let counter = counter_of kb wanted in
    let room = buf_size - kb.p_tail in
    if leb counter room
    then (
      counter,
      copy_to_user addr kb.buf kb.p_tail counter user,
      record kb { p_tail = kb.p_tail + counter; count = kb.count - counter },
    )
    else (
      counter,
      copy_to_user addr kb.buf kb.p_head (counter - room)
          (copy_to_user addr kb.buf kb.p_tail room user),
      record kb { p_tail = kb.p_head + (counter - room); count = kb.count - counter },
    )

-- `keyboard_read` up to the call of `sleep_on`, which is `none`, or to its end: the number of bytes,
-- the memory at the reader's buffer, and the scan code buffer.
unfoldable pub keyboard_read : ℕ → ℕ → (ℕ → ℕ) → Keyboard → Option (ℕ × (ℕ → ℕ) × Keyboard)
keyboard_read addr wanted user kb =
    if kb.count == 0 then none else some (read_codes addr wanted user kb)
