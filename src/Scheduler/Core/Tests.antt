-- ===== src/Scheduler/Core/Tests.antt =====
-- Runs of scheduler.c, and the theorems at concrete states.
use nexa_kernel.Base.{ℕ, ◌≡◌, ◌≢◌, refl, true, false, some, [], ◌∷◌, arith}
use nexa_kernel.Base.Int.{pos}
use nexa_kernel.Scheduler.Task.{
  Task, TaskState, Frame, zero_task, entry_frame, switch_frame, ready, running,
}
use nexa_kernel.Scheduler.RrQueue.{rr_enqueue, rr_dequeue, rr_is_empty}
use nexa_kernel.Scheduler.RrQueue.Invariant.{IsValid, tasks as queued}
use nexa_kernel.Scheduler.Core.{
  Kernel, current, at, schedule, pick_next_task, requeue_current, dispatch, task_switch_asm,
  switch_to_task, save_context, mark_running, resume, scheduler_add_task, scheduler_start,
}
use nexa_kernel.Scheduler.Core.Calls.{calls, yield_cpu, tick, exit}
use nexa_kernel.Scheduler.Core.Stuck.{schedule_entry_stuck}
use nexa_kernel.Scheduler.Core.Front.{IsRunning, schedule-front}
use nexa_kernel.Scheduler.Core.Start.{scheduler_start-front}

abbrev a_task : ℕ → TaskState → Frame → Task
a_task n state frame = record zero_task {
  pid = n;
  state = state;
  stack_pointer = frame;
  time_slice = 10;
  entry_point = 4096;
}

-- Task 1 is on the CPU; tasks 2 and 3 wait in the queue. What lies on the stack of 2 and 3 is given.
abbrev three_tasks : ℕ → TaskState → Frame → Kernel
three_tasks here state frame = record {
  tasks = record {
    task_table = a_task 0 state switch_frame ∷ a_task 1 ready frame ∷ a_task 2 ready frame ∷ [];
    current_task = here;
    next_pid = 3;
    active_task_count = 3;
    initialized = true;
  };
  run_queue = record {
    buffer = 64;
    cells = 2 ∷ 3 ∷ 0 ∷ 0 ∷ [];
    capacity = 4;
    size = 2;
    head = 0;
    tail = 2;
  };
  pq = record { buffer = 0; cells = []; capacity = 0; size = 0 };
  scheduler_initialized = true;
  scheduler_running = true;
  scheduling_in_progress = false;
  current_policy = 0;
  idle_task = 3;
  context_switch_count = 0;
  schedule_call_count = 0;
  idle_time = 0;
  timer_callback = true;
  ticks = 0;
  interrupts = true;
  leaving = false;
}

abbrev fresh_tasks : Kernel
fresh_tasks = three_tasks 1 running entry_frame

-- Task 2 has the CPU for the first time, and the flag is still set.
abbrev after_switch : Kernel
after_switch = record fresh_tasks {
  tasks = record {
    task_table =
        a_task 0 ready switch_frame
        ∷ a_task 1 running entry_frame
        ∷ a_task 2 ready entry_frame
        ∷ [];
    current_task = 2;
    next_pid = 3;
    active_task_count = 3;
    initialized = true;
  };
  run_queue = record {
    buffer = 64;
    cells = 0 ∷ 3 ∷ 1 ∷ 0 ∷ [];
    capacity = 4;
    size = 2;
    head = 1;
    tail = 3;
  };
  scheduling_in_progress = true;
  context_switch_count = 1;
  schedule_call_count = 1;
}

first_switch : schedule fresh_tasks ≡ some after_switch
unfolding schedule pick_next_task requeue_current dispatch task_switch_asm switch_to_task
    save_context mark_running resume scheduler_add_task rr_enqueue rr_dequeue rr_is_empty
first_switch = refl

schedule_entry_stuck_example :
    (k : Kernel) × (calls after_switch (tick ∷ yield_cpu ∷ exit (pos 0) ∷ tick ∷ []) ≡ some k)
    × (current k ≡ 2)
    × (k.leaving ≡ true)
schedule_entry_stuck_example =
    schedule_entry_stuck fresh_tasks after_switch (tick ∷ yield_cpu ∷ exit (pos 0) ∷ tick ∷ [])
      first_switch (omega arith) (omega arith) refl

fresh_tasks-IsRunning : IsRunning fresh_tasks
fresh_tasks-IsRunning = record {
  ring = omega arith;
  room = omega arith;
  in_turn = refl;
  started = refl;
  set_up = refl;
  free = refl;
  here = (omega arith, omega arith);
  runs = refl;
}

schedule-front_example :
    (k : Kernel) × (schedule fresh_tasks ≡ some k)
    × (current k ≡ 2)
    × ((at k 2).state ≡ running)
    × (◌≢◌ {A = ℕ} 2 1 → (at k 1).state ≡ ready)
    × (queued k.run_queue ≡ 3 ∷ 1 ∷ [])
    × IsValid k.run_queue
schedule-front_example =
    schedule-front fresh_tasks fresh_tasks-IsRunning 2 (3 ∷ []) refl (omega arith, omega arith)
      (λ e. cc)

abbrev waiting_tasks : Kernel
waiting_tasks = three_tasks 0 ready entry_frame

scheduler_start-front_example :
    (k : Kernel) × (scheduler_start waiting_tasks ≡ some k)
    × (current k ≡ 2)
    × ((at k 2).state ≡ running)
    × (queued k.run_queue ≡ current k ∷ 3 ∷ [])
scheduler_start-front_example =
    scheduler_start-front waiting_tasks 2 (3 ∷ []) (omega arith) refl (omega arith) refl refl
      (omega arith) (λ e. cc)
