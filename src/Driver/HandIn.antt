-- ===== src/Driver/HandIn.antt =====
-- The request of `disk_transfer` of os/kernel/disk.c in the queue of the drive.
use system_studying.Wait.Join.{CanSleep, added, added-IsWaiting, added-tasks, CanWake-more}
use system_studying.Driver.Handed.{Handed, requested, command_node-requested}
use system_studying.Driver.{Node}
use system_studying.Driver.Calls.{command_node, make_request, add_request, submit}
use system_studying.Base.{
  ℕ, suc, ◌+◌, ◌%◌, ◌^◌, ◌<◌, ◌≡◌, ◌≢◌, ◌⊎◌, refl, sym, subst, ap, ◌∙◌, arith, true, false, some,
  List, [], ◌∷◌, ◌++◌, length, length-append, All-append, Fresh, ◌==◌,
}
use system_studying.Links.{Addr, update}
use system_studying.Wait.{Waits, wait_queue_init}
use system_studying.Wait.Queue.{IsWaiting, CanWake, tasks}
use system_studying.Driver.{Ports, Drive}
use system_studying.Driver.Queue.{Answers, IsDrive, cmd_out-IsDrive}

-- The current task, which is none of those in the queues, can hand in the new node `node`.
pub record CanSubmit (p : Ports) (st : Drive p.World) (b node : Addr) (ws xs : List Addr)
    : Type 0 where
  pub sleep : CanSleep st.waits st.queue node ws xs
  pub real : node ≢ 0
  pub other : node ≢ b
  pub no_task : b ≢ 0 → st.waits.task b ≢ node
  pub not_served : b ≢ 0 → st.waits.task b ≢ st.waits.cpu.current
  pub room : suc (length ws) < 2 ^ 64

-- A task apart from a new member and from its task can wake as before.
added-CanWake :
    (w : Waits) (head node b : Addr) (ws xs : List Addr)
    → IsWaiting w head ws xs
    → CanSleep w head node ws xs
    → (b == node) ≡ false
    → CanWake w head ws xs (w.task b)
    → Fresh (w.task b) (tasks w.task ws)
    → w.task b ≢ node
    → w.task b ≢ w.cpu.current
    → CanWake (added w head node) head (ws ++ node ∷ []) xs ((added w head node).task b)
      × Fresh ((added w head node).task b) (tasks (added w head node).task (ws ++ node ∷ []))
unfolding update
added-CanWake w head node b ws xs h can other wakes alone no_node no_current =
    let t = w.task b in
    let same : (added w head node).task b ≡ t = rw other refl in
    let first =
      (CanWake-more w head node ws xs h can (t ∷ []) (wakes, tt) ((λ e. no_node (sym e)), tt)).0 in
    subst
      (λ u.
        CanWake (added w head node) head (ws ++ node ∷ []) xs u
        × Fresh u (tasks (added w head node).task (ws ++ node ∷ [])))
      (sym same)
      (
        first,
        subst (λ l. Fresh t l) (sym (added-tasks w head node ws xs h can))
            (All-append (λ y. t ≢ y) (tasks w.task ws) (w.cpu.current ∷ []) alone (no_current, tt)),
      )

module _ (p : Ports) (fuel : ℕ) (answers : Answers p fuel) (node : Addr) (xs : List Addr) where
  -- The state with the request in the queue.
  pub handed_in : ℕ → ℕ → ℕ → Addr → Drive p.World → Drive p.World
  unfolding add_request make_request
  handed_in cmd blocks count buffer st =
      add_request p node (make_request p node cmd blocks count buffer st)

  pub handed_in-waits :
      (cmd blocks count buffer : ℕ) (st : Drive p.World)
      → (handed_in cmd blocks count buffer st).waits ≡ added st.waits st.queue node
  unfolding handed_in add_request make_request wait_queue_init
  handed_in-waits cmd blocks count buffer st = refl

  handed_in-IsWaiting :
      (cmd blocks count buffer b : ℕ) (st : Drive p.World) (ws : List Addr)
      → IsDrive p st b ws xs
      → CanSubmit p st b node ws xs
      → IsWaiting (handed_in cmd blocks count buffer st).waits st.queue (ws ++ node ∷ []) xs
  handed_in-IsWaiting cmd blocks count buffer b st ws h can =
      subst (λ w. IsWaiting w st.queue (ws ++ node ∷ []) xs)
        (sym (handed_in-waits cmd blocks count buffer st))
        (added-IsWaiting st.waits st.queue node ws xs h.waiting can.sleep)

  handed_in-using :
      (cmd blocks count buffer : ℕ) (st : Drive p.World)
      → (handed_in cmd blocks count buffer st).in_using ≡ st.in_using
  unfolding handed_in add_request make_request
  handed_in-using cmd blocks count buffer st = refl

  -- What the queue has of the request: its node and its task.
  handed_in-node :
      (cmd blocks count buffer : ℕ) (st : Drive p.World)
      → (handed_in cmd blocks count buffer st).nodes node ≡ command_node p cmd blocks count buffer
  unfolding handed_in add_request make_request update
  handed_in-node cmd blocks count buffer st =
      let same : (node == node) ≡ true = ground arith in rw same refl

  handed_in-others :
      (cmd blocks count buffer : ℕ) (st : Drive p.World) (a : Addr)
      → a ≢ node
      → (handed_in cmd blocks count buffer st).nodes a ≡ st.nodes a
  unfolding handed_in add_request make_request update
  handed_in-others cmd blocks count buffer st a ne =
      let other : (a == node) ≡ false = ground (arith, ne) in rw other refl

  handed_in-task :
      (cmd blocks count buffer : ℕ) (st : Drive p.World)
      → (handed_in cmd blocks count buffer st).waits.task node ≡ st.waits.cpu.current
  unfolding handed_in add_request make_request wait_queue_init update
  handed_in-task cmd blocks count buffer st =
      let same : (node == node) ≡ true = ground arith in rw same refl

  -- A state that has the nodes, the task of the new one and the current task of the queue with the
  -- request, and then that task asleep.
  pub handed_in-Handed :
      (cmd blocks count buffer : ℕ) (st st1 st' : Drive p.World)
      → (known : (cmd ≡ 0x20) ⊎ (cmd ≡ 0x30))
      → st1.nodes ≡ (handed_in cmd blocks count buffer st).nodes
      → st1.waits.task ≡ (handed_in cmd blocks count buffer st).waits.task
      → st1.waits.cpu.current ≡ st.waits.cpu.current
      → st'.nodes ≡ st1.nodes
      → st'.waits.task ≡ st1.waits.task
      → (st'.waits.cpu.tasks st1.waits.cpu.current).state ≡ 4
      → Handed st st' node (requested known blocks count buffer)
  handed_in-Handed cmd blocks count buffer st st1 st' known nodes task current nodes' task' asleep =
      record {
        contents =
            ap (λ (n : Addr → Node). n node) (nodes' ∙ nodes)
            ∙ handed_in-node cmd blocks count buffer st
            ∙ command_node-requested p cmd blocks count buffer known;
        others = λ a ne.
            ap (λ (n : Addr → Node). n a) (nodes' ∙ nodes)
            ∙ handed_in-others cmd blocks count buffer st a ne;
        task =
            ap (λ (t : Addr → Addr). t node) (task' ∙ task)
            ∙ handed_in-task cmd blocks count buffer st;
        asleep = subst (λ (c : Addr). (st'.waits.cpu.tasks c).state ≡ 4) current asleep;
      }

  pub submit-idle :
      (cmd blocks count buffer : ℕ) (st : Drive p.World)
      → IsDrive p st 0 [] xs
      → CanSubmit p st 0 node [] xs
      → (st' : Drive p.World) × (submit p fuel node (make_request p node cmd blocks count buffer st)
          ≡ some st')
        × (st'.waits.cpu.current ≡ st.waits.cpu.current)
        × (st'.waits.cpu.init ≡ st.waits.cpu.init)
        × (st'.nodes ≡ (handed_in cmd blocks count buffer st).nodes)
        × (st'.waits.task ≡ (handed_in cmd blocks count buffer st).waits.task)
        × IsDrive p st' node [] xs
  unfolding submit handed_in add_request make_request wait_queue_init
  submit-idle cmd blocks count buffer st h can =
      let st1 = handed_in cmd blocks count buffer st in
      let idle : (st.in_using == 0) ≡ true = ground (arith, h.using) in
      let one : (st.block_request_count + 1) % 2 ^ 64 ≡ 1 = ground (arith, h.count) in
      let (w, run, drive) =
        cmd_out-IsDrive p fuel answers st1 node [] xs
          (handed_in-IsWaiting cmd blocks count buffer 0 st [] h can) one can.room (can.real, tt) in
      (_, rw idle run, refl, refl, refl, refl, drive)

  pub submit-busy :
      (cmd blocks count buffer b : ℕ) (st : Drive p.World) (ws : List Addr)
      → b ≢ 0
      → IsDrive p st b ws xs
      → CanSubmit p st b node ws xs
      → (submit p fuel node (make_request p node cmd blocks count buffer st)
          ≡ some (handed_in cmd blocks count buffer st))
        × IsDrive p (handed_in cmd blocks count buffer st) b (ws ++ node ∷ []) xs
  unfolding submit handed_in add_request make_request wait_queue_init update
  submit-busy cmd blocks count buffer b st ws ne h can =
      let busy : (st.in_using == 0) ≡ false = ground (arith, h.using) in
      let longer : length (ws ++ node ∷ []) ≡ length ws + 1 = length-append {0} ws (node ∷ []) in
      let kept : (b == node) ≡ false = ground (arith, can.other) in
      let (wakes, alone) = h.served ne in
      (
        rw busy refl,
        record {
          waiting = handed_in-IsWaiting cmd blocks count buffer b st ws h can;
          count = omega (arith, h.count, longer, can.room);
          small = omega (arith, longer, can.room);
          real = All-append (λ a. a ≢ 0) ws (node ∷ []) h.real (can.real, tt);
          using = h.using;
          served = λ _.
              added-CanWake st.waits st.queue node b ws xs h.waiting can.sleep kept wakes alone
                (can.no_task ne) (can.not_served ne);
          idle = λ e. absurd (ne e);
        },
      )
