-- ===== src/Driver.antt =====
-- The requests of os/kernel/disk.c. A `struct block_buffer_node` goes by the address of its
-- `wait_queue`, whose task and links are those of Wait; `NULL` is 0. The ports, the memory that the
-- sectors go to and the allocator are the parameter `Ports`; a wait for the drive takes fuel.
pub mod Handlers
pub mod Calls
pub mod Queue
pub mod Service
pub mod Address
pub mod Handed
pub mod HandIn
pub mod Submit
mod Tests
use Prim.Native.Nat.{bit_and}
use system_studying.Base.{
  ℕ, zero, suc, ◌+◌, ◌-◌, ◌*◌, ◌/◌, ◌%◌, ◌^◌, Bool, not, ◌||◌, Option, none, some, if◌then◌else◌,
  ◌==◌,
}
use system_studying.Links.{Addr, update, list_add_before, list_next}
use system_studying.Sched.{
  ◌>>=◌, set_state, task_running, task_uninterruptible, insert_task_queue, schedule,
}
use system_studying.Wait.{Waits, wait_queue_init, ask_schedule, without}

-- `io_in8`, `io_out8`, `port_insw` and `port_outsw` on what is outside of the kernel, and `kfree`.
pub record Ports : Type 1 where
  pub World : Type 0
  pub in8 : ℕ → World → ℕ × World
  pub out8 : ℕ → ℕ → World → World
  pub insw : ℕ → Addr → ℕ → World → World
  pub outsw : ℕ → Addr → ℕ → World → World
  pub kfree : Addr → World → World

pub data Handler : Type 0 where
  read_end : Handler
  write_end : Handler
  other_end : Handler

pub record Node : Type 0 where
  pub count : ℕ
  pub cmd : ℕ
  pub lba : ℕ
  pub buffer : Addr
  pub end_handler : Handler

-- `disk_request` with the nodes at all addresses; `queue` is the address of its `wait_queue_list`.
pub record Drive (W : Type 0) : Type 0 where
  pub waits : Waits
  pub world : W
  pub nodes : Addr → Node
  pub queue : Addr
  pub in_using : Addr
  pub block_request_count : ℕ

abbrev pub port_data : ℕ
port_data = 0x1f0

abbrev pub port_err_feature : ℕ
port_err_feature = 0x1f1

abbrev pub port_status_cmd : ℕ
port_status_cmd = 0x1f7

abbrev pub read_cmd : ℕ
read_cmd = 0x20

abbrev pub write_cmd : ℕ
write_cmd = 0x30

-- The values of PORT_DISK0_DEVICE and of the three registers of the address.
abbrev pub device_value : ℕ → ℕ
device_value lba = 0xe0 + bit_and (lba / 2 ^ 24) 0xf

abbrev pub low_value : ℕ → ℕ
low_value lba = bit_and lba 0xff

abbrev pub mid_value : ℕ → ℕ
mid_value lba = bit_and (lba / 2 ^ 8) 0xff

abbrev pub high_value : ℕ → ℕ
high_value lba = bit_and (lba / 2 ^ 16) 0xff

abbrev pub is_busy : ℕ → Bool
is_busy v = not (bit_and v (2 ^ 7) == 0)

abbrev pub not_ready : ℕ → Bool
not_ready v = bit_and v (2 ^ 6) == 0

abbrev pub no_request : ℕ → Bool
no_request v = bit_and v (2 ^ 3) == 0

module _ (p : Ports) where
  -- `while (test(io_in8(PORT_DISK0_STATUS_CMD))) nop();`
  unfoldable pub poll : ℕ → (ℕ → Bool) → p.World → Option p.World
  poll zero test w = none
  poll (suc f) test w =
      let (v, w') = p.in8 port_status_cmd w in
      let rest = poll f test w' in if test v then rest else some w'

  -- The six writes to the registers.
  abbrev pub program : Node → p.World → p.World
  program node w =
      let w1 = p.out8 0x1f6 (device_value node.lba) w in
      let w2 = p.out8 port_err_feature 0 w1 in
      let w3 = p.out8 0x1f2 (bit_and node.count 0xff) w2 in
      let w4 = p.out8 0x1f3 (low_value node.lba) w3 in
      let w5 = p.out8 0x1f4 (mid_value node.lba) w4 in p.out8 0x1f5 (high_value node.lba) w5

  abbrev pub send_write : ℕ → Node → p.World → Option p.World
  send_write fuel node w = do
    w1 ← poll fuel not_ready (program node w)
    w2 ← poll fuel no_request (p.out8 port_status_cmd write_cmd w1)
    some (p.outsw port_data node.buffer 256 w2)

  abbrev pub send_read : ℕ → Node → p.World → Option p.World
  send_read fuel node w = do
    w1 ← poll fuel not_ready (program node w)
    some (p.out8 port_status_cmd read_cmd w1)

  abbrev pub send : ℕ → Node → p.World → Option p.World
  send fuel node w =
      if node.cmd == write_cmd
      then send_write fuel node w
      else if node.cmd == read_cmd
      then send_read fuel node w
      else some w

  abbrev pub next_node : Drive p.World → Addr
  next_node st = list_next st.queue st.waits.cpu.links

  -- The next node leaves the queue.
  abbrev pub chosen : Drive p.World → Drive p.World
  chosen st = record st {
    in_using = next_node st;
    waits = record st.waits { cpu = without (next_node st) st.waits.cpu };
    block_request_count = (st.block_request_count + 2 ^ 64 - 1) % 2 ^ 64;
  }

  unfoldable pub cmd_out : ℕ → Drive p.World → Option (Drive p.World)
  unfolding poll list_next
  cmd_out fuel st = do
    w1 ← poll fuel is_busy st.world
    w2 ← send fuel (st.nodes (next_node st)) w1
    some (record (chosen st) { world = w2 })

  -- The task of the node runs again; the node is freed.
  abbrev pub finished : ℕ → Addr → Drive p.World → Option (Drive p.World)
  finished fuel node st = do
    c ←
        insert_task_queue fuel (st.waits.task node)
          (set_state (st.waits.task node) task_running st.waits.cpu)
    some (record st {
      waits = record st.waits { cpu = ask_schedule c };
      world = p.kfree st.in_using st.world;
      in_using = 0;
    })

  unfoldable pub end_request : ℕ → ℕ → Addr → Drive p.World → Option (Drive p.World)
  unfolding cmd_out insert_task_queue update
  end_request fuel sched_fuel node st = do
    st1 ← finished sched_fuel node st
    (if st1.block_request_count == 0 then some st1 else cmd_out fuel st1)
