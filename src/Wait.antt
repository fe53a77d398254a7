-- ===== src/Wait.antt =====
-- Wait queues and semaphores: os/kernel/waitqueue.c and os/kernel/semaphore.c over the run queue, whose
-- store of links they share. A `wait_queue_t` goes by the address of its `wait_list`; that of the
-- local variable `wait` is an argument. A call that sleeps is followed up to its `schedule`.
pub mod Queue
pub mod Join
pub mod Sleep
pub mod Counter
mod Tests
use Prim.Native.Nat.{bit_and, bit_or}
use system_studying.Base.{ℕ, Option, none, some, if◌then◌else◌, ◌==◌}
use system_studying.Base.Int.{ℤ, pos, ◌+ℤ◌, ◌-ℤ◌, ltb_ℤ, to_signed}
use system_studying.Links.{
  Addr, update, list_init, list_add_before, list_delete, list_is_empty, list_next,
}
use system_studying.Sched.{
  ◌>>=◌, Cpu, set_state, set_flags, task_running, task_interruptible, task_uninterruptible,
  need_shedule, insert_task_queue, schedule,
}

-- The processor, and the member `task` of every `wait_queue_t`.
pub record Waits : Type 0 where
  pub cpu : Cpu
  pub task : Addr → Addr

unfoldable pub wait_queue_init : Addr → Addr → Waits → Waits
unfolding update list_init
wait_queue_init wait_queue task w = record {
  cpu = record w.cpu { links = list_init wait_queue w.cpu.links };
  task = update w.task wait_queue task;
}

-- The current task in the queue of `head`, with its new state.
unfoldable pub enter : ℕ → Addr → Addr → Waits → Waits
unfolding update wait_queue_init list_add_before
enter state wait head w =
    let w1 = wait_queue_init wait w.cpu.current w in
    let c1 = set_state w1.cpu.current state w1.cpu in
    record w1 { cpu = record c1 { links = list_add_before head wait c1.links } }

abbrev pub leave : ℕ → Waits → Option Waits
leave fuel w = do c ← schedule fuel w.cpu; some (record w { cpu = c })

unfoldable pub sleep_on : ℕ → Addr → Addr → Waits → Option Waits
unfolding enter schedule
sleep_on fuel wait head w = leave fuel (enter task_uninterruptible wait head w)

unfoldable pub interruptible_sleep_on : ℕ → Addr → Addr → Waits → Option Waits
unfolding enter schedule
interruptible_sleep_on fuel wait head w = leave fuel (enter task_interruptible wait head w)

abbrev pub ask_schedule : Cpu → Cpu
ask_schedule c = set_flags c.current (bit_or (c.tasks c.current).flags need_shedule) c

unfoldable pub wakeup_process : ℕ → Addr → Cpu → Option Cpu
unfolding update insert_task_queue
wakeup_process fuel task c = do
  c1 ← insert_task_queue fuel task (set_state task task_running c)
  some (ask_schedule c1)

abbrev pub first : Addr → Waits → Addr
first head w = list_next head w.cpu.links

abbrev pub without : Addr → Cpu → Cpu
without wait c = record c { links = list_delete wait c.links }

abbrev pub wake_first : ℕ → Addr → Waits → Option Waits
wake_first fuel head w = do
  c ← wakeup_process fuel (w.task (first head w)) (without (first head w) w.cpu)
  some (record w { cpu = c })

unfoldable pub wakeup : ℕ → Addr → ℕ → Waits → Option Waits
unfolding wakeup_process list_delete list_next list_is_empty
wakeup fuel head state w =
    let woken = wake_first fuel head w in
    if list_is_empty head w.cpu.links
    then some w
    else if bit_and (w.cpu.tasks (w.task (first head w))).state state == 0
    then some w
    else woken

-- `semaphore_t` with the address of the head of its wait queue.
pub record Semaphore : Type 0 where
  pub counter : ℤ
  pub head : Addr

unfoldable pub semaphore_init : Addr → ℕ → Waits → Semaphore × Waits
unfolding wait_queue_init
semaphore_init head count w =
    (record { counter = to_signed count; head = head }, wait_queue_init head 0 w)

abbrev pub down_wait : ℕ → Addr → Semaphore → Waits → Option (Semaphore × Waits)
down_wait fuel wait sem w = do
  w' ← leave fuel (enter task_uninterruptible wait sem.head w)
  some (sem, w')

unfoldable pub semaphore_down : ℕ → Addr → Semaphore → Waits → Option (Semaphore × Waits)
unfolding enter schedule
semaphore_down fuel wait sem w =
    if ltb_ℤ (pos 0) sem.counter
    then some (record sem { counter = sem.counter -ℤ pos 1 }, w)
    else down_wait fuel wait sem w

abbrev pub up_first : ℕ → Semaphore → Waits → Option (Semaphore × Waits)
up_first fuel sem w = do
  c ←
      insert_task_queue fuel (w.task (first sem.head w))
        (set_state (w.task (first sem.head w)) task_running (without (first sem.head w) w.cpu))
  some (sem, record w { cpu = ask_schedule c })

unfoldable pub semaphore_up : ℕ → Semaphore → Waits → Option (Semaphore × Waits)
unfolding update insert_task_queue list_delete list_next list_is_empty
semaphore_up fuel sem w =
    if list_is_empty sem.head w.cpu.links
    then some (record sem { counter = sem.counter +ℤ pos 1 }, w)
    else up_first fuel sem w
