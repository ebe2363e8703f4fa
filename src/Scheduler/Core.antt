-- ===== src/Scheduler/Core.antt =====
-- kernel/scheduler/scheduler.c, the calls of task.c that reschedule, and the two switches of
-- context_switch.asm as far as they choose where execution goes on. `none` is a crash: a switch to a
-- null task, or to one without a stack.
pub mod Calls
pub mod Frames
pub mod Stuck
pub mod Resume
pub mod Front
pub mod Start
mod Boot
mod Tests
use Prim.Native.Nat.{bit_or, bit_and}
use nexa_kernel.Base.{
  ℕ, zero, suc, ◌+◌, ◌-◌, Bool, true, false, not, ◌&&◌, ◌||◌, Option, none, some, List, [], ◌∷◌,
  ltb, leb, ◌==◌, if◌then◌else◌, add_word,
}
use nexa_kernel.Base.Int.{ℤ}
use nexa_kernel.Allocator.{Allocator}
use nexa_kernel.Scheduler.Task.{
  Task, TaskState, Frame, Tasks, task_at, put_task, zero_task, is_running, is_sleeping, is_waiting,
  max_tasks, scheduler_time_slice, flag_preemptible, flag_idle, flag_first_run, flag_needs_cleanup,
  task_create, task_get_by_index, task_system_init, no_frame, entry_frame, switch_frame, exit_frame,
  ready, running, sleeping, zombie,
}
use nexa_kernel.Scheduler.RrQueue.{
  RrQueue, rr_queue_init, rr_queue_destroy, rr_enqueue, rr_dequeue, rr_peek, rr_remove, rr_count,
}
use nexa_kernel.Scheduler.PriorityQueue.{
  PriorityQueue, TaskFields, pq_init, pq_destroy, pq_enqueue, pq_dequeue, pq_peek, pq_remove,
  pq_count,
}

-- The static variables of scheduler.c, the tasks, both ready queues, the clock and the interrupt flag.
-- `leaving` is where the task on the CPU stands: it has called `task_exit`, and behind the call of
-- `schedule` there it halts in an endless loop.
pub record Kernel : Type 0 where
  pub tasks : Tasks
  pub run_queue : RrQueue
  pub pq : PriorityQueue
  pub scheduler_initialized : Bool
  pub scheduler_running : Bool
  pub scheduling_in_progress : Bool
  pub current_policy : ℕ
  pub idle_task : ℕ
  pub context_switch_count : ℕ
  pub schedule_call_count : ℕ
  pub idle_time : ℕ
  pub timer_callback : Bool
  pub ticks : ℕ
  pub interrupts : Bool
  pub leaving : Bool

abbrev pub sched_policy_priority : ℕ
sched_policy_priority = 1

abbrev pub current : Kernel → ℕ
current k = k.tasks.current_task

abbrev pub at : Kernel → ℕ → Task
at k p = task_at k.tasks p

abbrev pub put : Kernel → ℕ → Task → Kernel
put k p t = record k { tasks = put_task k.tasks p t }

-- The fields of the tasks that the priority queue compares.
abbrev pub task_fields : Kernel → TaskFields
task_fields k = record { priority = λ p. (at k p).priority; pid = λ p. (at k p).pid }

pub scheduler_add_task : Kernel → ℕ → Kernel
scheduler_add_task k task =
    if task == 0
    then k
    else if k.current_policy == sched_policy_priority
    then record k { pq = (pq_enqueue (task_fields k) k.pq task).1 }
    else record k { run_queue = (rr_enqueue k.run_queue task).1 }

pub scheduler_remove_task : Kernel → ℕ → Kernel
scheduler_remove_task k task = if task == 0 then k else record k {
  run_queue = (rr_remove k.run_queue task).1;
  pq = (pq_remove (task_fields k) k.pq task).1;
}

pub pick_next_task : Kernel → ℕ × Kernel
pick_next_task k =
    if k.current_policy == sched_policy_priority
    then (let (next, pq') = pq_dequeue (task_fields k) k.pq in
        (if next == 0 then k.idle_task else next, record k { pq = pq' }))
    else let (next, q) = rr_dequeue k.run_queue in
      (if next == 0 then k.idle_task else next, record k { run_queue = q })

-- Where the CPU goes on once `esp` is that of the task `next`: behind the switch in `schedule`, or at
-- the start of `task_entry_wrapper`.
pub resume : Kernel → ℕ → Frame → Option Kernel
resume k next no_frame = none
resume k next switch_frame =
    some (record k { scheduling_in_progress = false; interrupts = true; leaving = false })
resume k next exit_frame =
    some (record k { scheduling_in_progress = false; interrupts = true; leaving = true })
resume k next entry_frame =
    some
      (record (put k next (record (at k next) {
        flags =
            if (at k next).entry_point == 0
            then (at k next).flags
            else bit_and (at k next).flags (65535 - flag_first_run);
      })) { interrupts = true; leaving = false })

abbrev pub set_current : Kernel → ℕ → Kernel
set_current k next = record k { tasks = record (Kernel.tasks k) { current_task = next } }

-- `switch_to_task` saves nothing; `task_switch_asm` saves the context of the old task first.
pub switch_to_task : Kernel → ℕ → Option Kernel
switch_to_task k next =
    if next == 0 then none else resume (set_current k next) next (at k next).stack_pointer

pub save_context : Kernel → ℕ → Kernel
save_context k old =
    put k old (record (at k old) { stack_pointer = if k.leaving then exit_frame else switch_frame })

pub task_switch_asm : Kernel → ℕ → ℕ → Option Kernel
task_switch_asm k old next = switch_to_task (save_context k old) next

-- The part of `schedule` that handles the current task.
pub requeue_current : Kernel → Kernel
requeue_current k =
    if current k == 0 || not (is_running (at k (current k)).state)
    then k
    else scheduler_add_task (put k (current k) (record (at k (current k)) { state = ready }))
        (current k)

-- The statistics, the state and the slice of the task that is switched to.
pub mark_running : Kernel → ℕ → Kernel
mark_running k next =
    record (put k next (record (at k next) {
      state = running;
      time_slice =
          if (at k next).time_slice == 0 then scheduler_time_slice else (at k next).time_slice;
    })) { context_switch_count = add_word k.context_switch_count 1 }

-- The end of `schedule` if the choice is the current task.
pub stay : Kernel → ℕ → Kernel
stay k next =
    record (if current k == 0 then k else put k next (record (at k next) { state = running })) {
      scheduling_in_progress = false;
      interrupts = true;
    }

-- The part of `schedule` behind the choice of the next task.
pub dispatch : Kernel → ℕ → Option Kernel
dispatch k next =
    if next == current k
    then some (stay k next)
    else if next == 0
    then none
    else if current k == 0
    then switch_to_task (mark_running k next) next
    else task_switch_asm (mark_running k next) (current k) next

-- The entry of `schedule`, behind its guards.
abbrev pub enter : Kernel → Kernel
enter k = record k {
  scheduling_in_progress = true;
  schedule_call_count = add_word k.schedule_call_count 1;
  interrupts = false;
}

pub schedule : Kernel → Option Kernel
schedule k =
    if k.scheduling_in_progress
    then some k
    else if not k.scheduler_running || not k.scheduler_initialized
    then some k
    else let (next, picked) = pick_next_task (requeue_current (enter k)) in dispatch picked next

-- task.c: a yield is a call of `schedule`.
pub task_yield : Kernel → Option Kernel
task_yield k = schedule k

pub task_sleep : Kernel → ℕ → Option Kernel
task_sleep k n =
    if current k == 0 || n == 0
    then some k
    else schedule
        (record (put k (current k)
          (record (at k (current k)) { sleep_until = add_word k.ticks n; state = sleeping })) {
            interrupts = true;
          })

pub task_wakeup : Kernel → ℕ → Kernel
task_wakeup k p =
    if p == 0 || not (is_waiting (at k p).state)
    then k
    else scheduler_add_task (put k p (record (at k p) { state = ready; sleep_until = 0 })) p

-- The steps of `task_exit` before it calls `schedule`.
pub mark_zombie : Kernel → ℤ → Kernel
mark_zombie k exit_code = put k (current k) (record (at k (current k)) {
  exit_code = exit_code;
  state = zombie;
  flags = bit_or (at k (current k)).flags flag_needs_cleanup;
})

pub retire : Kernel → ℤ → Kernel
retire k exit_code =
    let removed : Kernel = scheduler_remove_task (mark_zombie k exit_code) (current k) in
    record removed {
      tasks = record (Kernel.tasks removed) {
        active_task_count = (Kernel.tasks removed).active_task_count - 1;
      };
      interrupts = true;
      leaving = true;
    }

-- The state when `schedule` has come back: the task, or the one that has the CPU now, goes on as
-- `leaving` says. This call comes back to its caller only if there is no current task.
pub task_exit : Kernel → ℤ → Option Kernel
task_exit k exit_code =
    if current k == 0 then some (record k { interrupts = true }) else schedule (retire k exit_code)

-- The loop of the tick handler over the tasks, with `left` to go.
pub wake_sleepers : ℕ → ℕ → Kernel → Kernel
wake_sleepers zero i k = k
wake_sleepers (suc left) i k = wake_sleepers left (suc i) (
    if is_sleeping (at k (task_get_by_index i)).state
      && leb (at k (task_get_by_index i)).sleep_until k.ticks
    then task_wakeup k (task_get_by_index i)
    else k)

-- The slice is refilled, and the scheduler is called, in preemptive mode as it is configured.
pub preempt : Kernel → ℕ → Option Kernel
preempt k p =
    if (at k p).time_slice == 0 && not (bit_and (at k p).flags flag_preemptible == 0)
    then schedule (put k p (record (at k p) { time_slice = scheduler_time_slice }))
    else some k

-- The current task pays for the tick.
pub charge : Kernel → Kernel
charge k = put k (current k) (record (at k (current k)) {
  cpu_time = add_word (at k (current k)).cpu_time 1;
  time_slice = (at k (current k)).time_slice - 1;
})

pub scheduler_tick_handler : Kernel → Option Kernel
scheduler_tick_handler k =
    if current k == 0 || not k.scheduler_running
    then some k
    else preempt (wake_sleepers max_tasks 0 (charge k)) (current k)

-- The policy decides which queue the first task is read from, and it is not taken out.
pub first_task : Kernel → ℕ
first_task k =
    let p : ℕ =
      if k.current_policy == sched_policy_priority then pq_peek k.pq else rr_peek k.run_queue in
    if p == 0 then k.idle_task else p

-- The first task is marked as running before the switch to it.
pub launch : Kernel → ℕ → Kernel
launch k p = record (put k p (record (at k p) { state = running })) {
  scheduler_running = true;
  interrupts = true;
}

-- `none` stands for the panic too.
pub scheduler_start : Kernel → Option Kernel
scheduler_start k =
    if not k.scheduler_initialized
    then none
    else if first_task k == 0
    then none
    else switch_to_task (launch k (first_task k)) (first_task k)

pub scheduler_stop : Kernel → Kernel
scheduler_stop k = record k { scheduler_running = false; timer_callback = false }

pub scheduler_set_policy : Kernel → ℕ → Kernel
scheduler_set_policy k policy = if leb policy 2 then record k { current_policy = policy } else k

pub scheduler_ready_count : Kernel → ℕ
scheduler_ready_count k =
    if k.current_policy == sched_policy_priority then pq_count k.pq else rr_count k.run_queue
