-- ===== src/Driver/Calls.antt =====
-- The calls of os/kernel/disk.c up to `disk_transfer`.
use system_studying.Base.{ℕ, ◌+◌, ◌%◌, ◌^◌, ◌||◌, Option, some, if◌then◌else◌, ◌==◌}
use system_studying.Links.{Addr, update, list_add_before}
use system_studying.Sched.{◌>>=◌, set_state, task_uninterruptible, schedule}
use system_studying.Wait.{wait_queue_init}
use system_studying.Driver.{
  Ports, Handler, read_end, write_end, other_end, Node, Drive, read_cmd, write_cmd, cmd_out,
}

module _ (p : Ports) where
  -- The handler depends on the command.
  abbrev pub handler_of : ℕ → Handler
  handler_of cmd =
      if cmd == read_cmd then read_end else if cmd == write_cmd then write_end else other_end

  abbrev pub command_node : ℕ → ℕ → ℕ → Addr → Node
  command_node cmd blocks count buffer = record {
    count = count % 2 ^ 32;
    cmd = cmd % 2 ^ 8;
    lba = blocks;
    buffer = buffer;
    end_handler = handler_of cmd;
  }

  -- `node` is the address that `kmalloc` has returned.
  unfoldable pub make_request : Addr → ℕ → ℕ → ℕ → Addr → Drive p.World → Drive p.World
  unfolding wait_queue_init update
  make_request node cmd blocks count buffer st = record st {
    waits = wait_queue_init node st.waits.cpu.current st.waits;
    nodes = update st.nodes node (command_node cmd blocks count buffer);
  }

  unfoldable pub add_request : Addr → Drive p.World → Drive p.World
  unfolding list_add_before
  add_request node st =
      let c = st.waits.cpu in
      record st {
        waits = record st.waits {
          cpu = record c { links = list_add_before st.queue node c.links };
        };
        block_request_count = (st.block_request_count + 1) % 2 ^ 64;
      }

  unfoldable pub submit : ℕ → Addr → Drive p.World → Option (Drive p.World)
  unfolding add_request cmd_out
  submit fuel node st =
      let st1 = add_request node st in if st1.in_using == 0 then cmd_out p fuel st1 else some st1

  unfoldable pub wait_for_finish : ℕ → Drive p.World → Option (Drive p.World)
  unfolding update schedule
  wait_for_finish sched_fuel st =
      let c = st.waits.cpu in
      (do
        c1 ← schedule sched_fuel (set_state c.current task_uninterruptible c)
        some (record st { waits = record st.waits { cpu = c1 } }))

  abbrev pub transferred : ℕ → ℕ → Addr → Drive p.World → Option (ℕ × Drive p.World)
  transferred fuel sched_fuel node st = do
    st1 ← submit fuel node st
    st2 ← wait_for_finish sched_fuel st1
    some (1, st2)

  unfoldable pub disk_transfer :
      ℕ → ℕ → Addr → ℕ → ℕ → ℕ → Addr → Drive p.World → Option (ℕ × Drive p.World)
  unfolding make_request submit wait_for_finish
  disk_transfer fuel sched_fuel node cmd blocks count buffer st =
      if cmd == read_cmd || cmd == write_cmd
      then transferred fuel sched_fuel node (make_request node cmd blocks count buffer st)
      else some (0, st)

  -- `disk_init` behind `register_irq`.
  unfoldable pub disk_init : Drive p.World → Drive p.World
  unfolding wait_queue_init
  disk_init st = record st {
    waits = wait_queue_init st.queue 0 st.waits;
    world = p.out8 0x3f6 0 st.world;
    in_using = 0;
    block_request_count = 0;
  }
