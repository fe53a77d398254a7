-- ===== src/Sched/Tests.antt =====
-- A processor with the tasks 5 and 7 in its queue, and the theorems on the scheduler there.
use system_studying.Base.{◌≡◌, refl, some, List, [], ◌∷◌, arith, if◌then◌else◌, ltb}
use system_studying.Base.Int.{pos, ◌≤ℤ◌}
use system_studying.Links.{Addr, Links, list_init, list_add_before}
use system_studying.Links.Ops.{list_init-IsRing, before-head}
use system_studying.Sched.{
  Task, Cpu, max_long, vruntime, schedule_init, insert_task_queue, schedule,
}
use system_studying.Sched.Queue.{
  IsQueue, inserted, insert_task_queue-IsQueue, schedule_init-IsQueue,
}
use system_studying.Sched.Pick.{Scheduled, unflagged}
use system_studying.Sched.Schedule.{can_run, schedule-Scheduled}

abbrev task_at : Addr → Task
task_at t = record {
  state = 1;
  flags = 2;
  priority = pos 2;
  vruntime = if ltb t 100 then pos t else max_long;
}

abbrev two_tasks : Links
two_tasks =
    list_add_before 100 7
      (list_add_before 100 5 (list_init 100 (record { prev = λ a. 0; next = λ a. 0 })))

abbrev cpu : Cpu
cpu = record {
  links = two_tasks;
  tasks = task_at;
  head = 100;
  init = 1;
  current = 6;
  running_task_count = pos 3;
  exectask_jiffies = pos 0;
}

cpu-IsQueue : IsQueue cpu (5 ∷ 7 ∷ [])
cpu-IsQueue = record {
  ring =
      before-head (list_add_before 100 5 (list_init 100 _)) 100 7 (5 ∷ []) (omega arith)
        (before-head (list_init 100 _) 100 5 [] (omega arith) (list_init-IsRing 100 _));
  sorted = omega arith;
  counted = refl;
  sentinel = refl;
  idle = omega arith;
}

vruntime-long : (t : Addr) → vruntime cpu t ≤ℤ max_long
vruntime-long t = ground arith

insert_task_queue-IsQueue_example :
    (insert_task_queue 3 6 cpu ≡ some (inserted cpu 6 (5 ∷ 7 ∷ [])))
    × IsQueue (inserted cpu 6 (5 ∷ 7 ∷ [])) (5 ∷ 6 ∷ 7 ∷ [])
insert_task_queue-IsQueue_example =
    insert_task_queue-IsQueue 3 cpu 6 (5 ∷ 7 ∷ []) cpu-IsQueue (omega arith) (omega arith)
      (omega arith) (omega arith)

schedule_init-IsQueue_example : IsQueue (schedule_init cpu) []
schedule_init-IsQueue_example = schedule_init-IsQueue cpu

schedule-Scheduled_example :
    (c' : Cpu) × (ys : List Addr) × (schedule 3 cpu ≡ some c')
    × Scheduled (unflagged cpu) (can_run (unflagged cpu) (5 ∷ 7 ∷ [])) c' ys
schedule-Scheduled_example =
    schedule-Scheduled 3 cpu (5 ∷ 7 ∷ []) cpu-IsQueue (omega arith) (λ ne. omega arith)
      vruntime-long
