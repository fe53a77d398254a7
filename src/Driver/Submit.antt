-- ===== src/Driver/Submit.antt =====
-- A task hands in a request and sleeps until it has ended.
use system_studying.Driver.HandIn.{
  CanSubmit, handed_in, handed_in-waits, handed_in-Handed, submit-idle, submit-busy,
}
use system_studying.Wait.Join.{wait_queue_init-IsWaiting}
use system_studying.Driver.Handed.{Handed, requested, gone-asleep}
use system_studying.Driver.Calls.{
  disk_init, make_request, submit, wait_for_finish, transferred, disk_transfer,
}
use system_studying.Sched.Queue.{IsQueue}
use system_studying.Sched.{vruntime, max_long, task_uninterruptible}
use system_studying.Base.Int.{◌≤ℤ◌, ℤ}
use system_studying.Base.{
  ℕ, zero, suc, ◌≡◌, ◌⊎◌, refl, sym, subst, ap, ◌∙◌, arith, inl, inr, some, List, [], ◌∷◌, ◌++◌,
  Fresh,
}
use system_studying.Links.{Addr}
use system_studying.Links.Walk.{first_or}
use system_studying.Wait.{Waits}
use system_studying.Wait.Queue.{CanWake}
use system_studying.Wait.Sleep.{rest, stopping, gone, schedule-IsWaiting}
use system_studying.Driver.{Ports, Drive, read_cmd, write_cmd}
use system_studying.Driver.Queue.{Answers, IsDrive}

-- The request in use, and those that wait, once `node` is handed in.
abbrev pub next_using : Addr → Addr → Addr
next_using zero node = node
next_using (suc b) node = suc b

abbrev pub next_waiting : Addr → Addr → List Addr → List Addr
next_waiting zero node ws = ws
next_waiting (suc b) node ws = ws ++ node ∷ []

gone-CanWake :
    (w : Waits) (head t : Addr) (ws xs : List Addr) (i : ℤ)
    → CanWake w head ws xs t
    → CanWake (gone w xs i) head ws (rest xs) t
gone-CanWake w head t ws [] i c = c
gone-CanWake w head t ws (x ∷ xs) i c = (c.0, (c.1.0, c.1.1.1), c.2)

module _ (p : Ports) (fuel : ℕ) (answers : Answers p fuel) (node : Addr) (xs : List Addr) where
  -- The task of the call sleeps, and the first of the run queue has the processor.
  wait_for_finish-IsDrive :
      (sched_fuel b : ℕ) (st : Drive p.World) (ws : List Addr)
      → IsDrive p st b ws xs
      → (st' : Drive p.World) × (wait_for_finish p sched_fuel st ≡ some st')
        × (st'.waits.cpu.current ≡ first_or st.waits.cpu.init xs)
        × (st'.nodes ≡ st.nodes)
        × (st'.waits.task ≡ st.waits.task)
        × ((st'.waits.cpu.tasks st.waits.cpu.current).state ≡ 4)
        × IsDrive p st' b ws (rest xs)
  unfolding wait_for_finish
  wait_for_finish-IsDrive sched_fuel b st ws h =
      let (i, run, now, waiting) =
        schedule-IsWaiting sched_fuel task_uninterruptible st.waits st.queue ws xs h.waiting
          (omega arith) in
      let s = stopping task_uninterruptible st.waits in
      (
        record st { waits = gone s xs i },
        rw run refl,
        now,
        refl,
        refl,
        gone-asleep st.waits xs i,
        record {
          waiting = waiting;
          count = h.count;
          small = h.small;
          real = h.real;
          using = h.using;
          served = λ ne.
              (gone-CanWake s st.queue (st.waits.task b) ws xs i (h.served ne).0, (h.served ne).1);
          idle = h.idle;
        },
      )

  -- Its transfer once the request has been handed in.
  transferred-IsDrive :
      (sched_fuel b : ℕ) (st st1 : Drive p.World) (ws : List Addr)
      → submit p fuel node st ≡ some st1
      → IsDrive p st1 b ws xs
      → (st' : Drive p.World) × (transferred p fuel sched_fuel node st ≡ some (1, st'))
        × (st'.waits.cpu.current ≡ first_or st1.waits.cpu.init xs)
        × (st'.nodes ≡ st1.nodes)
        × (st'.waits.task ≡ st1.waits.task)
        × ((st'.waits.cpu.tasks st1.waits.cpu.current).state ≡ 4)
        × IsDrive p st' b ws (rest xs)
  transferred-IsDrive sched_fuel b st st1 ws run h =
      let (st', waits, now, nodes, task, asleep, drive) =
        wait_for_finish-IsDrive sched_fuel b st1 ws h in
      (st', rw (run, waits) refl, now, nodes, task, asleep, drive)

  made-transferred :
      (sched_fuel cmd blocks count buffer : ℕ) (st : Drive p.World)
      → (cmd ≡ read_cmd) ⊎ (cmd ≡ write_cmd)
      → disk_transfer p fuel sched_fuel node cmd blocks count buffer st
        ≡ transferred p fuel sched_fuel node (make_request p node cmd blocks count buffer st)
  unfolding disk_transfer
  made-transferred sched_fuel cmd blocks count buffer st (inl e) = rw e refl
  made-transferred sched_fuel cmd blocks count buffer st (inr e) = rw e refl

  -- `disk_transfer` of a read or a write by the current task, which is in none of the queues, on a
  -- drive that answers returns 1, with the request in use if there was none, and else behind those that
  -- wait. The node of the request holds the command, its handler, the block, the number of sectors and
  -- the buffer of the call, and belongs to the task of the call, which sleeps in TASK_UNINTERRUPTIBLE;
  -- the other nodes are as they were. The first of the run queue, or the idle task, has the processor,
  -- and the queues and the store that they share stay in order.
  pub disk_transfer-IsDrive :
      (sched_fuel cmd blocks count buffer b : ℕ) (st : Drive p.World) (ws : List Addr)
      → (known : (cmd ≡ 0x20) ⊎ (cmd ≡ 0x30)) → IsDrive p st b ws xs
      → CanSubmit p st b node ws xs
      → (st' : Drive p.World) × (disk_transfer p fuel sched_fuel node cmd blocks count buffer st
          ≡ some (1, st'))
        × (st'.waits.cpu.current ≡ first_or st.waits.cpu.init xs)
        × Handed st st' node (requested known blocks count buffer)
        × IsDrive p st' (next_using b node) (next_waiting b node ws) (rest xs)
  disk_transfer-IsDrive sched_fuel cmd blocks count buffer zero st ws known h can =
      let empty = h.idle refl in
      let h' = subst (λ l. IsDrive p st 0 l xs) empty h in
      let can' = subst (λ l. CanSubmit p st 0 node l xs) empty can in
      let (st1, run, same, init, nodes, task, drive) =
        submit-idle p fuel answers node xs cmd blocks count buffer st h' can' in
      let (st', waits, now, nodes', task', asleep, done) =
        transferred-IsDrive sched_fuel node (make_request p node cmd blocks count buffer st) st1 []
          run drive in
      (
        st',
        made-transferred sched_fuel cmd blocks count buffer st known ∙ waits,
        now ∙ ap (λ t. first_or t xs) init,
        handed_in-Handed p fuel answers node xs cmd blocks count buffer st st1 st' known nodes task
            same nodes' task' asleep,
        subst (λ l. IsDrive p st' node l (rest xs)) (sym empty) done,
      )
  disk_transfer-IsDrive sched_fuel cmd blocks count buffer (suc b) st ws known h can =
      let (run, drive) =
        submit-busy p fuel answers node xs cmd blocks count buffer (suc b) st ws (omega arith) h
          can in
      let st1 = handed_in p fuel answers node xs cmd blocks count buffer st in
      let (st', waits, now, nodes', task', asleep, done) =
        transferred-IsDrive sched_fuel (suc b) (make_request p node cmd blocks count buffer st) st1
          (ws ++ node ∷ []) run drive in
      (
        st',
        made-transferred sched_fuel cmd blocks count buffer st known ∙ waits,
        now
            ∙ ap (λ w. first_or w.cpu.init xs)
                (handed_in-waits p fuel answers node xs cmd blocks count buffer st),
        handed_in-Handed p fuel answers node xs cmd blocks count buffer st st1 st' known refl refl
            (ap (λ w. w.cpu.current)
              (handed_in-waits p fuel answers node xs cmd blocks count buffer st))
            nodes' task' asleep,
        done,
      )

-- Once it has been set up the drive is idle.
pub disk_init-IsDrive :
    (p : Ports) (st : Drive p.World) (xs : List Addr)
    → IsQueue st.waits.cpu xs
    → Fresh st.queue (st.waits.cpu.head ∷ xs)
    → ((u : Addr) → vruntime st.waits.cpu u ≤ℤ max_long)
    → IsDrive p (disk_init p st) 0 [] xs
unfolding disk_init
disk_init-IsDrive p st xs q f long = record {
  waiting = wait_queue_init-IsWaiting st.waits st.queue 0 xs q f long;
  count = refl;
  small = omega arith;
  real = tt;
  using = refl;
  served = λ ne. absurd (ne refl);
  idle = λ e. refl;
}
