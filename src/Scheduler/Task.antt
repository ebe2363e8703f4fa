-- ===== src/Scheduler/Task.antt =====
-- kernel/scheduler/task.c and task.h: the table of tasks, without the calls that reschedule. A task
-- pointer is one more than the task's index in `task_table`, 0 for NULL.
pub mod Create
mod Tests
use Prim.Native.Nat.{bit_or}
use nexa_kernel.Base.{
  ℕ, zero, suc, ◌+◌, ◌-◌, ◌*◌, ◌/◌, ◌%◌, Bool, true, false, not, ◌&&◌, ◌||◌, Option, none, some,
  List, [], ◌∷◌, ◌++◌, get_or, set, replicate, length, ltb, leb, ◌==◌, if◌then◌else◌, add_word,
}
use nexa_kernel.Base.Int.{ℤ, pos}
use nexa_kernel.Allocator.{Allocator, Block}

pub data TaskState : Type 0 where
  unused creating ready running blocked sleeping terminated zombie : TaskState

-- What lies at `stack_pointer`: the frame that `setup_task_stack` builds, which returns into
-- `task_entry_wrapper`, or one that a context switch has saved, which returns into `schedule`. Where
-- `task_exit` has called that, the task then halts in an endless loop: `exit_frame`.
pub data Frame : Type 0 where
  no_frame entry_frame switch_frame exit_frame : Frame

-- `struct task`. The queue links are never written but by `task_init`, and are left out.
pub record Task : Type 0 where
  pub stack_pointer : Frame
  pub stack_base : ℕ
  pub stack_size : ℕ
  pub pid : ℕ
  pub name : List ℕ
  pub state : TaskState
  pub priority : ℕ
  pub base_priority : ℕ
  pub flags : ℕ
  pub time_slice : ℕ
  pub cpu_time : ℕ
  pub start_time : ℕ
  pub sleep_until : ℕ
  pub entry_point : ℕ
  pub arg : ℕ
  pub exit_code : ℤ

abbrev pub max_tasks : ℕ
max_tasks = 64

abbrev pub max_priority_levels : ℕ
max_priority_levels = 8

abbrev pub scheduler_time_slice : ℕ
scheduler_time_slice = 10

-- The masks of the flags: kernel, preemptible, idle, first run, needs cleanup.
abbrev pub flag_kernel : ℕ
flag_kernel = 1

abbrev pub flag_preemptible : ℕ
flag_preemptible = 4

abbrev pub flag_idle : ℕ
flag_idle = 8

abbrev pub flag_first_run : ℕ
flag_first_run = 16

abbrev pub flag_needs_cleanup : ℕ
flag_needs_cleanup = 32

abbrev pub is_unused : TaskState → Bool
is_unused unused = true
is_unused _ = false

abbrev pub is_running : TaskState → Bool
is_running running = true
is_running _ = false

abbrev pub is_sleeping : TaskState → Bool
is_sleeping sleeping = true
is_sleeping _ = false

-- `state == SLEEPING || state == BLOCKED`
abbrev pub is_waiting : TaskState → Bool
is_waiting sleeping = true
is_waiting blocked = true
is_waiting _ = false

-- `state == TERMINATED || state == ZOMBIE`
abbrev pub is_finished : TaskState → Bool
is_finished terminated = true
is_finished zombie = true
is_finished _ = false

-- `name` keeps its bytes but for the first.
abbrev pub task_init : Task → Task
task_init t = record {
  stack_pointer = no_frame;
  stack_base = 0;
  stack_size = 0;
  pid = 0;
  name = set t.name 0 0;
  state = unused;
  priority = 3;
  base_priority = 3;
  flags = 0;
  time_slice = scheduler_time_slice;
  cpu_time = 0;
  start_time = 0;
  sleep_until = 0;
  entry_point = 0;
  arg = 0;
  exit_code = pos 0;
}

-- A slot of the static table at the boot: all bytes are 0.
abbrev pub zero_task : Task
zero_task = record {
  stack_pointer = no_frame;
  stack_base = 0;
  stack_size = 0;
  pid = 0;
  name = replicate 32 0;
  state = unused;
  priority = 0;
  base_priority = 0;
  flags = 0;
  time_slice = 0;
  cpu_time = 0;
  start_time = 0;
  sleep_until = 0;
  entry_point = 0;
  arg = 0;
  exit_code = pos 0;
}

-- The static variables of task.c.
pub record Tasks : Type 0 where
  pub task_table : List Task
  pub current_task : ℕ
  pub next_pid : ℕ
  pub active_task_count : ℕ
  pub initialized : Bool

abbrev pub task_at : Tasks → ℕ → Task
task_at s p = get_or s.task_table (p - 1) zero_task

abbrev pub put_task : Tasks → ℕ → Task → Tasks
put_task s p t = record s { task_table = set s.task_table (p - 1) t }

-- The search from slot `i` on, for a pointer.
pub find_free_task_slot : List Task → ℕ → Option ℕ
find_free_task_slot [] i = none
find_free_task_slot (t ∷ ts) i =
    let rest = find_free_task_slot ts (suc i) in if is_unused t.state then some (suc i) else rest

-- `safe_strncpy` from index `i` on, with `left` characters to go at most.
pub copy_name : ℕ → ℕ → List ℕ → List ℕ → List ℕ
copy_name zero i dest src = set dest i 0
copy_name (suc left) i dest src = elim (get_or src i 0 == 0) [
  | true ↦ set dest i 0
  | false ↦ copy_name left (suc i) (set dest i (get_or src i 0)) src
]

pub safe_strncpy : List ℕ → List ℕ → ℕ → List ℕ
unfolding copy_name
safe_strncpy dest src n = copy_name (n - 1) 0 dest src

-- The digits of a pid, the last first, with `left` of ten to go.
pub digits : ℕ → ℕ → List ℕ
digits zero pid = []
digits (suc left) pid = elim (pid == 0) [
  | true ↦ []
  | false ↦ (48 + pid % 10) ∷ digits left (pid / 10)
]

-- Writes a text from index `pos` on; it fits, being at most ten digits.
pub write_text : List ℕ → ℕ → List ℕ → List ℕ
write_text dest p [] = set dest p 0
write_text dest p (c ∷ cs) = write_text (set dest p c) (suc p) cs

pub reversed : List ℕ → List ℕ
reversed [] = []
reversed (c ∷ cs) = reversed cs ++ (c ∷ [])

-- "Task-" and the pid.
pub default_name : List ℕ → ℕ → List ℕ
unfolding write_text digits reversed
default_name dest pid =
    write_text dest 0
      (84 ∷ 97 ∷ 115 ∷ 107 ∷ 45 ∷ (if pid == 0 then 48 ∷ [] else reversed (digits 10 pid)))

pub task_name : List ℕ → Option (List ℕ) → ℕ → List ℕ
unfolding safe_strncpy default_name
task_name dest none pid = default_name dest pid
task_name dest (some src) pid = safe_strncpy dest src 32

-- The size of the stack: 16 KB for 0, 4 KB at least, and a multiple of the page size.
pub stack_bytes : ℕ → ℕ
stack_bytes size =
    let asked : ℕ = if size == 0 then 16384 else size in
    let enough : ℕ = if ltb asked 4096 then 4096 else asked in add_word enough 4095 / 4096 * 4096

abbrev pub clamp_priority : ℕ → ℕ
clamp_priority p = if leb max_priority_levels p then max_priority_levels - 1 else p

-- The task in its slot before the stack is asked for.
pub named_task : Task → ℕ → Option (List ℕ) → ℕ → Task
unfolding task_name
named_task t pid name priority = record t {
  state = creating;
  pid = pid;
  name = task_name t.name name pid;
  priority = clamp_priority priority;
  base_priority = clamp_priority priority;
  time_slice = scheduler_time_slice;
  flags = bit_or (bit_or flag_kernel flag_preemptible) flag_first_run;
}

-- What `task_create` does once the allocator has answered for the stack.
pub give_stack : {H : Type 0} → Tasks → ℕ → Task → ℕ → ℕ → ℕ → ℕ → Option Block × H → ℕ × Tasks × H
give_stack s p t size entry arg ticks (none, h) =
    (0, put_task s p (record t { state = unused; stack_base = 0 }), h)
give_stack s p t size entry arg ticks (some b, h) = (
  p,
  record (put_task s p (record t {
    stack_pointer = entry_frame;
    stack_base = b.addr;
    stack_size = size;
    state = ready;
    entry_point = entry;
    arg = arg;
    cpu_time = 0;
    start_time = ticks;
    sleep_until = 0;
  })) { active_task_count = add_word s.active_task_count 1 },
  h,
)

pub task_system_init : Tasks → Bool × Tasks
task_system_init s = if s.initialized then (true, s) else (
  true,
  record {
    task_table = cleared s.task_table;
    current_task = 0;
    next_pid = 0;
    active_task_count = 0;
    initialized = true;
  },
)
  where
    cleared : List Task → List Task
    cleared [] = []
    cleared (t ∷ ts) = task_init t ∷ cleared ts

module _ (a : Allocator) where
  open a use {Heap, kmalloc, kfree}

  -- `ticks` is the answer of `pit_get_ticks`. The result is the pointer.
  pub task_create : Heap → Tasks → Option (List ℕ) → ℕ → ℕ → ℕ → ℕ → ℕ → ℕ × Tasks × Heap
  unfolding find_free_task_slot named_task give_stack stack_bytes
  task_create h s name entry arg priority size ticks =
      if entry == 0 || not s.initialized
      then (0, s, h)
      else elim (find_free_task_slot s.task_table 0) [
        | none ↦ (0, s, h)
        | some p ↦
            give_stack (record s { next_pid = add_word s.next_pid 1 }) p
              (named_task (task_at s p) s.next_pid name priority) (stack_bytes size) entry arg ticks
              (kmalloc h (stack_bytes size))
      ]

  pub task_destroy : Heap → Tasks → ℕ → Tasks × Heap
  task_destroy h s p = if p == 0 || not (is_finished (task_at s p).state) then (s, h) else (
    put_task s p (task_init (task_at s p)),
    if (task_at s p).stack_base == 0 then h else kfree h (task_at s p).stack_base,
  )

pub task_set_state : Tasks → ℕ → TaskState → Tasks
task_set_state s p state =
    if p == 0 then s else put_task s p (record (task_at s p) { state = state })

pub task_get_state : Tasks → ℕ → TaskState
task_get_state s p = if p == 0 then unused else (task_at s p).state

pub task_set_priority : Tasks → ℕ → ℕ → Tasks
task_set_priority s p priority =
    if p == 0 then s else put_task s p (record (task_at s p) { priority = clamp_priority priority })

pub task_get_priority : Tasks → ℕ → ℕ
task_get_priority s p = if p == 0 then 6 else (task_at s p).priority

-- The search of `task_get_by_pid` from slot `i` on.
pub find_pid : List Task → ℕ → ℕ → ℕ
find_pid [] pid i = 0
find_pid (t ∷ ts) pid i =
    let rest = find_pid ts pid (suc i) in
    if not (is_unused t.state) && t.pid == pid then suc i else rest

pub task_get_by_pid : Tasks → ℕ → ℕ
unfolding find_pid
task_get_by_pid s pid = find_pid s.task_table pid 0

pub task_get_by_index : ℕ → ℕ
task_get_by_index i = if leb max_tasks i then 0 else suc i

pub task_count : Tasks → ℕ
task_count s = s.active_task_count
