-- ===== src/Scheduler/Core/Boot.antt =====
-- `scheduler_init` of scheduler.c, with the idle task.
use Prim.Native.Nat.{bit_or}
use nexa_kernel.Base.{ℕ, Bool, true, false, not, some, List, [], ◌∷◌, ◌==◌, if◌then◌else◌}
use nexa_kernel.Allocator.{Allocator}
use nexa_kernel.Scheduler.Task.{max_tasks, flag_idle, task_create, task_system_init}
use nexa_kernel.Scheduler.RrQueue.{rr_queue_init, rr_queue_destroy}
use nexa_kernel.Scheduler.PriorityQueue.{pq_init, pq_destroy}
use nexa_kernel.Scheduler.Core.{Kernel, at, put, scheduler_add_task}

module _ (a : Allocator) where
  open a use {Heap}

  abbrev idle_name : List ℕ
  idle_name = 105 ∷ 100 ∷ 108 ∷ 101 ∷ []

  -- The entry point of the idle task is a function of the kernel, at an address other than 0.
  pub create_idle_task : Heap → Kernel → ℕ → Bool × Kernel × Heap
  create_idle_task h k entry =
      let (p, s, h') = task_create a h k.tasks (some idle_name) entry 0 7 4096 k.ticks in
      let named : Kernel = record k { tasks = s; idle_task = p } in
      if p == 0 then (false, named, h') else (
        true,
        put named p (record (at named p) { flags = bit_or (at named p).flags flag_idle }),
        h',
      )

  -- The last steps of `scheduler_init`, once the tasks and the queues are there.
  pub start_idle : Heap → Kernel → ℕ → Bool × Kernel × Heap
  start_idle h k entry =
      let (ok, k', h1) = create_idle_task h k entry in
      if not ok
      then (let (p, h2) = pq_destroy a h1 k'.pq in
          let (q, h3) = rr_queue_destroy a h2 k'.run_queue in
          (false, record k' { pq = p; run_queue = q }, h3))
      else (
        true,
        record (scheduler_add_task k' k'.idle_task) {
          context_switch_count = 0;
          schedule_call_count = 0;
          idle_time = 0;
          timer_callback = true;
          scheduler_initialized = true;
        },
        h1,
      )

  pub scheduler_init : Heap → Kernel → ℕ → Bool × Kernel × Heap
  scheduler_init h k entry =
      if k.scheduler_initialized
      then (true, k, h)
      else let (_, s) = task_system_init k.tasks in
        let (ok, q, h1) = rr_queue_init a h k.run_queue max_tasks in
        let k1 : Kernel = record k { tasks = s; run_queue = q } in
        if not ok
        then (false, k1, h1)
        else let (ok', p, h2) = pq_init a h1 k1.pq max_tasks in
          if not ok'
          then (let (q', h3) = rr_queue_destroy a h2 k1.run_queue in
              (false, record k1 { pq = p; run_queue = q' }, h3))
          else start_idle h2 (record k1 { pq = p }) entry
