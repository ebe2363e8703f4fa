-- ===== src/Scheduler/Task/Tests.antt =====
-- Runs of task.c, and the theorems at a concrete table.
use nexa_kernel.Base.{ℕ, ◌-◌, ◌≡◌, ◌≢◌, refl, true, none, List, [], ◌∷◌, ◌+◌, replicate, arith}
use nexa_kernel.Allocator.{Block}
use nexa_kernel.Allocator.Bump.{bump, full}
use nexa_kernel.Scheduler.Task.{
  Tasks, unused, ready, entry_frame, zero_task, task_at, default_name, safe_strncpy, stack_bytes,
  task_create,
}
use nexa_kernel.Scheduler.Task.Create.{task_create_lem, task_create-no_memory}

abbrev table : Tasks
table = record {
  task_table = record zero_task { state = ready } ∷ zero_task ∷ zero_task ∷ [];
  current_task = 0;
  next_pid = 7;
  active_task_count = 1;
  initialized = true;
}

abbrev eight_bytes : List ℕ
eight_bytes = 1 ∷ 1 ∷ 1 ∷ 1 ∷ 1 ∷ 1 ∷ 1 ∷ 1 ∷ []

-- "Task-42", and "ab" cut to three characters and the end.
default_name-42 : default_name eight_bytes 42 ≡ 84 ∷ 97 ∷ 115 ∷ 107 ∷ 45 ∷ 52 ∷ 50 ∷ 0 ∷ []
unfolding default_name
default_name-42 = refl

safe_strncpy-cut :
    safe_strncpy eight_bytes (97 ∷ 98 ∷ 99 ∷ 0 ∷ []) 3 ≡ 97 ∷ 98 ∷ 0 ∷ 1 ∷ 1 ∷ 1 ∷ 1 ∷ 1 ∷ []
unfolding safe_strncpy
safe_strncpy-cut = refl

stack_bytes-default : (stack_bytes 0 ≡ 16384) × (stack_bytes 100 ≡ 4096) × (stack_bytes 5000 ≡ 8192)
unfolding stack_bytes
stack_bytes-default = (refl, refl, refl)

abbrev stack_block : Block
stack_block = record { addr = 17; words = replicate (stack_bytes 100) 0 }

abbrev created : ℕ × Tasks × ℕ
created = task_create bump 16 table none 4096 0 9 100 5

task_create_lem_example :
    (created.0 ≢ 0)
    × ((task_at table created.0).state ≡ unused)
    × ((task_at created.1 created.0).state ≡ ready)
    × ((task_at created.1 created.0).stack_pointer ≡ entry_frame)
    × ((task_at created.1 created.0).pid ≡ 7)
    × ((task_at created.1 created.0).stack_base ≡ 17)
    × ((q : ℕ) → q - 1 ≢ created.0 - 1 → task_at created.1 q ≡ task_at table q)
    × (Tasks.next_pid created.1 ≡ 8)
    × (Tasks.active_task_count created.1 ≡ 2)
task_create_lem_example =
    task_create_lem bump 16 (16 + stack_bytes 100) table none 4096 0 9 100 5 stack_block 1
      (omega arith) refl (omega arith) refl refl

abbrev refused : ℕ × Tasks × ℕ
refused = task_create full 16 table none 4096 0 9 100 5

task_create-no_memory_example :
    (refused.0 ≡ 0)
    × ((task_at refused.1 2).state ≡ unused)
    × (Tasks.active_task_count refused.1 ≡ 1)
task_create-no_memory_example =
    task_create-no_memory full 16 16 table none 4096 0 9 100 5 2 (omega arith) refl refl
