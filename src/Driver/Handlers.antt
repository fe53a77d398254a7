-- ===== src/Driver/Handlers.antt =====
-- The interrupt handlers of os/kernel/disk.c.
use Prim.Native.Nat.{bit_and}
use system_studying.Base.{ℕ, ◌+◌, ◌-◌, ◌%◌, ◌^◌, Bool, not, Option, some, if◌then◌else◌, ◌==◌}
use system_studying.Links.{Addr, update}
use system_studying.Sched.{◌>>=◌}
use system_studying.Driver.{
  Ports, Handler, read_end, write_end, other_end, Node, Drive, port_data, port_err_feature,
  port_status_cmd, no_request, poll, end_request,
}

module _ (p : Ports) where
  -- The handlers read the status; after an error they read the register of the error.
  abbrev pub failed : Drive p.World → Bool
  failed st = not (bit_and (p.in8 port_status_cmd st.world).0 1 == 0)

  abbrev pub looked : Drive p.World → p.World
  looked st =
      let w = (p.in8 port_status_cmd st.world).1 in
      if failed st then (p.in8 port_err_feature w).1 else w

  -- `node->count--` and `node->buffer += 512`
  abbrev pub counted_down : Node → Node
  counted_down node = record node { count = (node.count + 2 ^ 32 - 1) % 2 ^ 32 }

  abbrev pub moved_on : Node → Node
  moved_on node = record (counted_down node) { buffer = (node.buffer + 512) % 2 ^ 64 }

  abbrev pub with_node : Addr → Node → p.World → Drive p.World → Drive p.World
  with_node a node w st = record st { nodes = update st.nodes a node; world = w }

  unfoldable pub write_handler : ℕ → ℕ → Drive p.World → Option (Drive p.World)
  unfolding poll end_request update
  write_handler fuel sched_fuel st =
      let a = st.in_using in
      let node = st.nodes a in
      let done = end_request p fuel sched_fuel a (with_node a (counted_down node) (looked st) st) in
      let sent : Option (Drive p.World) = (do
        w ← poll p fuel no_request (looked st)
        some (with_node a (moved_on node) (p.outsw port_data (moved_on node).buffer 256 w) st)) in
      if (counted_down node).count == 0 then done else sent

  unfoldable pub other_handler : ℕ → ℕ → Drive p.World → Option (Drive p.World)
  unfolding end_request
  other_handler fuel sched_fuel st =
      end_request p fuel sched_fuel st.in_using (record st { world = looked st })

  -- A sector goes to the buffer unless there is an error.
  abbrev pub received : Drive p.World → p.World
  received st =
      let node = st.nodes st.in_using in
      if failed st then looked st else p.insw port_data node.buffer 256 (looked st)

  unfoldable pub read_handler : ℕ → ℕ → Drive p.World → Option (Drive p.World)
  unfolding end_request update
  read_handler fuel sched_fuel st =
      let a = st.in_using in
      let node = st.nodes a in
      let done =
        end_request p fuel sched_fuel a (with_node a (counted_down node) (received st) st) in
      if (counted_down node).count == 0
      then done
      else some (with_node a (moved_on node) (received st) st)

  abbrev pub handle : Handler → ℕ → ℕ → Drive p.World → Option (Drive p.World)
  handle read_end = read_handler
  handle write_end = write_handler
  handle other_end = other_handler

  unfoldable pub disk_handler : ℕ → ℕ → Drive p.World → Option (Drive p.World)
  unfolding read_handler write_handler other_handler
  disk_handler fuel sched_fuel st =
      let handled = handle (st.nodes st.in_using).end_handler fuel sched_fuel st in
      if st.in_using == 0 then some st else handled
