-- ===== src/Sched.antt =====
-- The run queue of one processor and its scheduler: os/kernel/schedule.c, over the fields of
-- os/kernel/task.h that it reads. `task_schedule[smp_cpu_id()]` is one entry of the array; the
-- functions touch no other entry.
pub mod Queue
pub mod Pick
pub mod Schedule
mod Tests
use Prim.Native.Nat.{bit_and}
use system_studying.Base.{
  ℕ, zero, suc, ◌-◌, ◌*◌, ◌/◌, ◌^◌, Bool, true, false, not, ◌||◌, Option, none, some, ◌==◌,
  if◌then◌else◌,
}
use system_studying.Base.Int.{ℤ, pos, negsuc, pos_part, neg_part, sub_ℕ, ◌+ℤ◌, ◌-ℤ◌, ltb_ℤ}
use system_studying.Links.{
  Addr, Links, update, list_init, list_add_before, list_delete, list_is_empty, list_next,
}
use system_studying.Links.Walk.{walk}

-- A fault or a loop that its fuel does not cover is `none`.
infixl 5 ◌>>=◌
abbrev pub ◌>>=◌ {ℓ κ} : {A : Type ℓ} {B : Type κ} → Option A → (A → Option B) → Option B
none >>= f = none
some a >>= f = f a

abbrev pub task_running : ℕ
task_running = 1

abbrev pub task_interruptible : ℕ
task_interruptible = 2

abbrev pub task_uninterruptible : ℕ
task_uninterruptible = 4

abbrev pub need_shedule : ℕ
need_shedule = 2

-- `struct task_struct`, less what the scheduler does not read.
pub record Task : Type 0 where
  pub state : ℕ
  pub flags : ℕ
  pub priority : ℤ
  pub vruntime : ℤ

-- `struct schedule` of one processor with the tasks that it refers to. `head` is the address of
-- `task_queue`, itself a task whose `vruntime` ends every search, and `init` that of
-- `init_task_stack.task`, the idle task.
pub record Cpu : Type 0 where
  pub links : Links
  pub tasks : Addr → Task
  pub head : Addr
  pub init : Addr
  pub current : Addr
  pub running_task_count : ℤ
  pub exectask_jiffies : ℤ

abbrev pub max_long : ℤ
max_long = pos (2 ^ 63 - 1)

abbrev pub vruntime : Cpu → Addr → ℤ
vruntime c t = (c.tasks t).vruntime

-- Assignments to one member of a task.
abbrev pub set_state : Addr → ℕ → Cpu → Cpu
set_state t v c = record c { tasks = update c.tasks t (record (c.tasks t) { state = v }) }

abbrev pub set_flags : Addr → ℕ → Cpu → Cpu
set_flags t v c = record c { tasks = update c.tasks t (record (c.tasks t) { flags = v }) }

unfoldable pub schedule_init : Cpu → Cpu
unfolding update list_init
schedule_init c =
    let cleared : Task = record { state = 0; flags = 0; priority = pos 0; vruntime = pos 0 } in
    let c1 = record c {
      links = list_init c.head c.links;
      tasks = update c.tasks c.head (record cleared { vruntime = max_long });
    } in
    record c1 { running_task_count = pos 1; exectask_jiffies = pos 4 }

unfoldable pub get_next_task : Cpu → Addr × Cpu
get_next_task c =
    if list_is_empty c.head c.links
    then (c.init, c)
    else let task = list_next c.head c.links in
      (
        task,
        record c {
          links = list_delete task c.links;
          running_task_count = c.running_task_count -ℤ pos 1;
        },
      )

-- The end of `insert_task_queue`, with the place that the loop has found.
abbrev pub enqueue : Addr → Cpu → Addr → Option Cpu
enqueue task c tmp = some (record c {
  links = list_add_before tmp task c.links;
  running_task_count = c.running_task_count +ℤ pos 1;
})

abbrev pub runs_before : Cpu → Addr → Addr → Bool
runs_before c task tmp = ltb_ℤ (vruntime c tmp) (vruntime c task)

unfoldable pub insert_task_queue : ℕ → Addr → Cpu → Option Cpu
insert_task_queue fuel task c =
    let tmp = list_next c.head c.links in
    if task == c.init
    then some c
    else (if list_is_empty c.head c.links
        then some tmp
        else walk fuel (runs_before c task) c.links tmp)
      >>= enqueue task c

-- `4 / n` for a `long`; a division by zero is a fault.
abbrev pub div_four : ℤ → Option ℤ
div_four (pos zero) = none
div_four (pos (suc n)) = some (pos (4 / suc n))
div_four (negsuc n) = some (sub_ℕ 0 (4 / suc n))

abbrev pub times_three : ℤ → ℤ
times_three a = sub_ℕ (3 * pos_part a) (3 * neg_part a)

abbrev pub is_zero_or_one : ℤ → Bool
is_zero_or_one (pos n) = n == 0 || n == 1
is_zero_or_one (negsuc n) = false

-- `CPU_exectask_jiffies` behind the two `switch` statements of `schedule`, which are the same:
-- only a slice that is used up is renewed.
abbrev pub slice : ℤ → ℤ → ℤ → Option ℤ
slice (pos zero) count priority = do
  q ← div_four count
  some (if is_zero_or_one priority then q else times_three q)
slice j count priority = some j

unfoldable pub renew_slice : Addr → Cpu → Option Cpu
renew_slice task c = do
  j ← slice c.exectask_jiffies c.running_task_count (c.tasks task).priority
  some (record c { exectask_jiffies = j })

-- `switch_mm` loads the page table of the next task, which no other part of this state reads.
abbrev pub switch_to : Addr → Cpu → Option Cpu
switch_to next c = some (record c { current = next })

abbrev pub is_running : Cpu → Addr → Bool
is_running c t = (c.tasks t).state == task_running

-- The first branch of `schedule`: another task takes the processor.
unfoldable pub give_up : ℕ → Addr → Addr → Cpu → Option Cpu
unfolding insert_task_queue renew_slice
give_up fuel cur task c = do
  c3 ← (if is_running c cur then insert_task_queue fuel cur c else some c)
  c4 ← renew_slice task c3
  switch_to task c4

-- The second branch: the current task keeps it.
unfoldable pub carry_on : ℕ → Addr → Cpu → Option Cpu
unfolding insert_task_queue renew_slice
carry_on fuel task c = do c3 ← insert_task_queue fuel task c; renew_slice task c3

-- `schedule` once it has taken `task` out of the queue.
unfoldable pub choose : ℕ → Addr → Addr → Cpu → Option Cpu
unfolding give_up carry_on
choose fuel cur task c =
    if not (ltb_ℤ (vruntime c cur) (vruntime c task)) || not (is_running c cur)
    then give_up fuel cur task c
    else carry_on fuel task c

-- `cli` and `sti` bracket the function: nothing else runs on this processor meanwhile.
unfoldable pub schedule : ℕ → Cpu → Option Cpu
unfolding update get_next_task choose
schedule fuel c0 =
    let cur = c0.current in
    let c1 = set_flags cur (bit_and (c0.tasks cur).flags (2 ^ 64 - 1 - need_shedule)) c0 in
    let (task, c2) = get_next_task c1 in choose fuel cur task c2
