-- ===== src/Scheduler/RrQueue.antt =====
-- kernel/scheduler/dsa_structures/round_robin_queue.c. A task pointer is its address, 0 for NULL.
-- The static `run_queue` is the state that each function takes and returns.
pub mod Invariant
pub mod Remove
pub mod Refine
pub mod Run
mod Tests
use nexa_kernel.Base.{
  ℕ, zero, suc, ◌+◌, ◌-◌, ◌%◌, ◌≡◌, Bool, true, false, not, ◌&&◌, ◌||◌, Option, none, some, List,
  [], get_or, set, leb, ◌==◌, if◌then◌else◌, add_word, sub_word, mul_word,
}
use nexa_kernel.Allocator.{Allocator, Block}

-- `rr_queue_t`: `buffer` is the array's address, and `cells` what it holds.
pub record RrQueue : Type 0 where
  pub buffer : ℕ
  pub cells : List ℕ
  pub capacity : ℕ
  pub size : ℕ
  pub head : ℕ
  pub tail : ℕ

-- The static initialiser of `run_queue`.
abbrev pub run_queue : RrQueue
run_queue = record { buffer = 0; cells = []; capacity = 0; size = 0; head = 0; tail = 0 }

-- `for (i = 0; i < capacity; i++) buffer[i] = NULL`, from `i` on.
pub clear_slots : ℕ → ℕ → List ℕ → List ℕ
clear_slots zero i cells = cells
clear_slots (suc left) i cells = clear_slots left (suc i) (set cells i 0)

module _ (a : Allocator) where
  open a use {Heap, kmalloc, kfree}

  pub rr_queue_destroy : Heap → RrQueue → RrQueue × Heap
  rr_queue_destroy h q = (run_queue, if q.buffer == 0 then h else kfree h q.buffer)

  -- What `rr_queue_init` does once the allocator has answered.
  pub start : ℕ → RrQueue → Option Block × Heap → Bool × RrQueue × Heap
  start capacity q (none, h) = (false, record q { buffer = 0; cells = [] }, h)
  start capacity q (some b, h) = (
    true,
    record {
      buffer = b.addr;
      cells = clear_slots capacity 0 b.words;
      capacity = capacity;
      size = 0;
      head = 0;
      tail = 0;
    },
    h,
  )

  -- The clean-up of an existing queue.
  pub release_old : Heap → RrQueue → RrQueue × Heap
  unfolding rr_queue_destroy
  release_old h q = if q.buffer == 0 then (q, h) else rr_queue_destroy h q

  pub rr_queue_init : Heap → RrQueue → ℕ → Bool × RrQueue × Heap
  unfolding start release_old
  rr_queue_init h q capacity =
      if capacity == 0
      then (false, q, h)
      else let (q', h') = release_old h q in start capacity q' (kmalloc h' (mul_word capacity 4))

unfoldable pub rr_enqueue : RrQueue → ℕ → Bool × RrQueue
rr_enqueue q task =
    if task == 0 || q.buffer == 0
    then (false, q)
    else if leb q.capacity q.size
    then (false, q)
    else (
      true,
      record q {
        cells = set q.cells q.tail task;
        tail = add_word q.tail 1 % q.capacity;
        size = add_word q.size 1;
      },
    )

-- The null pointer that `rr_dequeue` and `rr_peek` return for an empty queue is 0.
unfoldable pub rr_is_empty : RrQueue → Bool
rr_is_empty q = q.buffer == 0 || q.size == 0

unfoldable pub rr_dequeue : RrQueue → ℕ × RrQueue
unfolding rr_is_empty
rr_dequeue q = if rr_is_empty q then (0, q) else (
  get_or q.cells q.head 0,
  record q {
    cells = set q.cells q.head 0;
    head = add_word q.head 1 % q.capacity;
    size = sub_word q.size 1;
  },
)

unfoldable pub rr_peek : RrQueue → ℕ
unfolding rr_is_empty
rr_peek q = if rr_is_empty q then 0 else get_or q.cells q.head 0

pub rr_is_full : RrQueue → Bool
rr_is_full q = not (q.buffer == 0) && leb q.capacity q.size

pub rr_count : RrQueue → ℕ
rr_count q = q.size

-- The search of `rr_remove`, with `left` of the `size` rounds to go. `capacity` is "not found".
pub find_index : ℕ → List ℕ → ℕ → ℕ → ℕ → ℕ
find_index zero cells capacity current task = capacity
find_index (suc left) cells capacity current task = elim (get_or cells current 0 == task) [
  | true ↦ current
  | false ↦ find_index left cells capacity (add_word current 1 % capacity) task
]

-- `while (next != tail)`, on fuel: the last index `i`, and the array.
pub shift_back : ℕ → List ℕ → ℕ → ℕ → ℕ → ℕ → ℕ × List ℕ
shift_back zero cells capacity tail i next = (i, cells)
shift_back (suc fuel) cells capacity tail i next = elim (next == tail) [
  | true ↦ (i, cells)
  | false ↦
      shift_back fuel (set cells i (get_or cells next 0)) capacity tail next
        (add_word next 1 % capacity)
]

-- What `rr_remove` does once `task` is found at an index.
pub remove_index : RrQueue → ℕ → RrQueue
remove_index q found =
    let (i, cells) =
      shift_back q.capacity q.cells q.capacity q.tail found (add_word found 1 % q.capacity) in
    record q {
      cells = set cells i 0;
      tail = if q.tail == 0 then sub_word q.capacity 1 else q.tail - 1;
      size = sub_word q.size 1;
    }

pub rr_remove : RrQueue → ℕ → Bool × RrQueue
rr_remove q task =
    if task == 0 || rr_is_empty q
    then (false, q)
    else let found = find_index q.size q.cells q.capacity q.head task in
      if found == q.capacity then (false, q) else (true, remove_index q found)
