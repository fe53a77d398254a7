-- ===== src/Driver/Address.antt =====
-- The address and the count of a request, as the drive reads them from its registers.
use Prim.Native.Nat.{bit_and}
use system_studying.Base.{ℕ, ◌+◌, ◌*◌, ◌/◌, ◌%◌, ◌^◌, ◌≡◌, ◌≢◌, ◌∙◌, arith}
use system_studying.Base.Masks.{bit_and-mask}
use system_studying.Driver.{Ports, Node, program, device_value, low_value, mid_value, high_value}

-- A register of the drive holds the last value that was written to its port.
pub record Latches (p : Ports) (reg : p.World → ℕ → ℕ) : Type 0 where
  pub latched : (k v : ℕ) (w : p.World) → reg (p.out8 k v w) k ≡ v
  pub kept : (k l v : ℕ) (w : p.World) → k ≢ l → reg (p.out8 k v w) l ≡ reg w l

-- The address of 28 bits that the registers hold.
abbrev pub address : (ℕ → ℕ) → ℕ
address reg = reg 0x1f3 + 2 ^ 8 * reg 0x1f4 + 2 ^ 16 * reg 0x1f5 + 2 ^ 24 * (reg 0x1f6 % 2 ^ 4)

-- A register keeps its value behind writes to other ports.
kept_behind :
    (p : Ports) (reg : p.World → ℕ → ℕ) (latches : Latches p reg) (l a : ℕ) (w : p.World)
    → reg w l ≡ a
    → (k v : ℕ) → k ≢ l
    → reg (p.out8 k v w) l ≡ a
kept_behind p reg latches l a w e k v ne = latches.kept k l v w ne ∙ e

-- The six writes of `cmd_out` to registers that keep what is written leave them with the lowest 28 bits
-- of the number of the sector, the lowest 8 of the count, and the first drive selected in the mode for
-- such numbers.
pub program-address :
    (p : Ports) (reg : p.World → ℕ → ℕ) (latches : Latches p reg) (node : Node) (w : p.World)
    → let held = reg (program p node w) in
      (address held ≡ node.lba % 2 ^ 28)
      × (held 0x1f2 ≡ node.count % 2 ^ 8)
      × (held 0x1f6 / 2 ^ 4 ≡ 14)
program-address p reg latches node w =
    let w1 = p.out8 0x1f6 (device_value node.lba) w in
    let w2 = p.out8 0x1f1 0 w1 in
    let w3 = p.out8 0x1f2 (bit_and node.count 0xff) w2 in
    let w4 = p.out8 0x1f3 (low_value node.lba) w3 in
    let w5 = p.out8 0x1f4 (mid_value node.lba) w4 in
    let keeps = kept_behind p reg latches in
    let high = latches.latched 0x1f5 (high_value node.lba) w5 in
    let mid4 = latches.latched 0x1f4 (mid_value node.lba) w4 in
    let mid = keeps 0x1f4 (mid_value node.lba) w5 mid4 0x1f5 (high_value node.lba) (omega arith) in
    let low4 = latches.latched 0x1f3 (low_value node.lba) w3 in
    let low5 = keeps 0x1f3 (low_value node.lba) w4 low4 0x1f4 (mid_value node.lba) (omega arith) in
    let low = keeps 0x1f3 (low_value node.lba) w5 low5 0x1f5 (high_value node.lba) (omega arith) in
    let count3 = latches.latched 0x1f2 (bit_and node.count 0xff) w2 in
    let count4 =
      keeps 0x1f2 (bit_and node.count 0xff) w3 count3 0x1f3 (low_value node.lba) (omega arith) in
    let count5 =
      keeps 0x1f2 (bit_and node.count 0xff) w4 count4 0x1f4 (mid_value node.lba) (omega arith) in
    let count =
      keeps 0x1f2 (bit_and node.count 0xff) w5 count5 0x1f5 (high_value node.lba) (omega arith) in
    let device1 = latches.latched 0x1f6 (device_value node.lba) w in
    let device2 = keeps 0x1f6 (device_value node.lba) w1 device1 0x1f1 0 (omega arith) in
    let device3 =
      keeps 0x1f6 (device_value node.lba) w2 device2 0x1f2 (bit_and node.count 0xff)
        (omega arith) in
    let device4 =
      keeps 0x1f6 (device_value node.lba) w3 device3 0x1f3 (low_value node.lba) (omega arith) in
    let device5 =
      keeps 0x1f6 (device_value node.lba) w4 device4 0x1f4 (mid_value node.lba) (omega arith) in
    let device =
      keeps 0x1f6 (device_value node.lba) w5 device5 0x1f5 (high_value node.lba) (omega arith) in
    let low_byte = bit_and-mask 8 node.lba in
    let mid_byte = bit_and-mask 8 (node.lba / 2 ^ 8) in
    let high_byte = bit_and-mask 8 (node.lba / 2 ^ 16) in
    let top = bit_and-mask 4 (node.lba / 2 ^ 24) in
    (
      omega (arith, high, mid, low, device, low_byte, mid_byte, high_byte, top),
      count ∙ bit_and-mask 8 node.count,
      omega (arith, device, top),
    )
