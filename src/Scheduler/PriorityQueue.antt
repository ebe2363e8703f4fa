-- ===== src/Scheduler/PriorityQueue.antt =====
-- kernel/scheduler/dsa_structures/priority_queue.c. A task pointer is its address, 0 for NULL. The
-- static `pq` is the state that each function takes and returns.
pub mod Order
pub mod Sift
pub mod Heap
pub mod Tally
pub mod Find
pub mod Restore
pub mod Queue
pub mod Removal
mod Tests
use nexa_kernel.Base.{
  ℕ, zero, suc, ◌+◌, ◌-◌, ◌*◌, ◌/◌, Bool, true, false, not, ◌&&◌, ◌||◌, Option, none, some, List,
  [], get_or, set, ltb, leb, ◌==◌, if◌then◌else◌, add_word, sub_word, mul_word,
}
use nexa_kernel.Base.Int.{ℤ, pos, negsuc}
use nexa_kernel.Allocator.{Allocator, Block}

-- The two fields of the `task_t` at an address that the order reads.
pub record TaskFields : Type 0 where
  pub priority : ℕ → ℕ
  pub pid : ℕ → ℕ

-- `priority_queue_t`: `buffer` is the array's address, and `cells` what it holds.
pub record PriorityQueue : Type 0 where
  pub buffer : ℕ
  pub cells : List ℕ
  pub capacity : ℕ
  pub size : ℕ

abbrev pub pq : PriorityQueue
pq = record { buffer = 0; cells = []; capacity = 0; size = 0 }

-- The index of a parent is asked for at indices above 0 only. No index below the size of an array
-- that fits in memory makes the child's index wrap.
abbrev pub parent : ℕ → ℕ
parent i = (i - 1) / 2

abbrev pub left_child : ℕ → ℕ
left_child i = 2 * i + 1

abbrev pub right_child : ℕ → ℕ
right_child i = 2 * i + 2

pub swap : List ℕ → ℕ → ℕ → List ℕ
swap cells i j = set (set cells i (get_or cells j 0)) j (get_or cells i 0)

-- `c < 0` of an `int`.
abbrev pub negative : ℤ → Bool
negative (pos n) = false
negative (negsuc n) = true

-- `c <= 0`.
abbrev pub nonpositive : ℤ → Bool
nonpositive (pos n) = n == 0
nonpositive (negsuc n) = true

-- The loop of `find_task`, with `left` rounds to go: the size is "not found".
pub find_task : ℕ → List ℕ → ℕ → ℕ → ℕ
find_task zero cells i task = i
find_task (suc left) cells i task = elim (get_or cells i 0 == task) [
  | true ↦ i
  | false ↦ find_task left cells (suc i) task
]

module _ (t : TaskFields) where
  open t use {priority, pid}

  pub task_compare : ℕ → ℕ → ℤ
  task_compare a b =
      if a == 0 || b == 0
      then pos 0
      else if ltb (priority a) (priority b)
      then negsuc 0
      else if ltb (priority b) (priority a)
      then pos 1
      else if ltb (pid a) (pid b)
      then negsuc 0
      else if ltb (pid b) (pid a)
      then pos 1
      else pos 0

  -- `while (index > 0)`, on fuel: each round goes to the parent, so the index is enough.
  pub up : ℕ → List ℕ → ℕ → List ℕ
  unfolding task_compare swap
  up zero cells index = cells
  up (suc fuel) cells index = elim (index == 0) [
    | true ↦ cells
    | false ↦
        elim (nonpositive (task_compare (get_or cells (parent index) 0) (get_or cells index 0))) [
          | true ↦ cells
          | false ↦ up fuel (swap cells index (parent index)) (parent index)
        ]
  ]

  abbrev pub heapify_up : List ℕ → ℕ → List ℕ
  unfolding up
  heapify_up cells index = up index cells index

  -- The child that takes the place of `smallest`, if it lies in the heap and precedes it.
  pub smaller : List ℕ → ℕ → ℕ → ℕ → ℕ
  unfolding task_compare
  smaller cells size smallest child =
      if ltb child size && negative (task_compare (get_or cells child 0) (get_or cells smallest 0))
      then child
      else smallest

  -- `while (true)`, on fuel: each round goes to a child in the heap, so the size is enough.
  pub down : ℕ → List ℕ → ℕ → ℕ → List ℕ
  unfolding smaller swap
  down zero cells size index = cells
  down (suc fuel) cells size index =
      let smallest =
        smaller cells size (smaller cells size index (left_child index)) (right_child index) in
      elim (smallest == index) [
        | true ↦ cells
        | false ↦ down fuel (swap cells index smallest) size smallest
      ]

  abbrev pub heapify_down : List ℕ → ℕ → ℕ → List ℕ
  unfolding down
  heapify_down cells size index = down size cells size index

  -- The repair that `pq_remove` and `pq_update` share.
  pub restore : List ℕ → ℕ → ℕ → List ℕ
  unfolding heapify_up heapify_down
  restore cells size index =
      if ltb 0 index
        && negative (task_compare (get_or cells index 0) (get_or cells (parent index) 0))
      then heapify_up cells index
      else heapify_down cells size index

  pub pq_enqueue : PriorityQueue → ℕ → Bool × PriorityQueue
  unfolding heapify_up
  pq_enqueue q task =
      if task == 0 || q.buffer == 0
      then (false, q)
      else if leb q.capacity q.size
      then (false, q)
      else (
        true,
        record q { cells = heapify_up (set q.cells q.size task) q.size; size = add_word q.size 1 },
      )

  pub pq_dequeue : PriorityQueue → ℕ × PriorityQueue
  unfolding heapify_down
  pq_dequeue q =
      if q.buffer == 0 || q.size == 0
      then (0, q)
      else let last = q.size - 1 in
        (
          get_or q.cells 0 0,
          record q {
            cells =
                if ltb 0 last
                then heapify_down (set (set q.cells 0 (get_or q.cells last 0)) last 0) last 0
                else set q.cells 0 0;
            size = last;
          },
        )

  pub pq_remove : PriorityQueue → ℕ → Bool × PriorityQueue
  unfolding find_task restore
  pq_remove q task =
      if task == 0 || q.buffer == 0 || q.size == 0
      then (false, q)
      else let index = find_task q.size q.cells 0 task in
        let last = q.size - 1 in
        if leb q.size index then (false, q) else (
          true,
          record q {
            cells =
                if ltb index last
                then restore (set (set q.cells index (get_or q.cells last 0)) last 0) last index
                else set q.cells index 0;
            size = last;
          },
        )

  pub pq_update : PriorityQueue → ℕ → PriorityQueue
  unfolding find_task restore
  pq_update q task =
      if task == 0 || q.buffer == 0 || q.size == 0
      then q
      else let index = find_task q.size q.cells 0 task in
        if leb q.size index then q else record q { cells = restore q.cells q.size index }

pub pq_peek : PriorityQueue → ℕ
pq_peek q = if q.buffer == 0 || q.size == 0 then 0 else get_or q.cells 0 0

pub pq_is_empty : PriorityQueue → Bool
pq_is_empty q = q.buffer == 0 || q.size == 0

pub pq_is_full : PriorityQueue → Bool
pq_is_full q = not (q.buffer == 0) && leb q.capacity q.size

pub pq_count : PriorityQueue → ℕ
pq_count q = q.size

-- `for (i = 0; i < capacity; i++) buffer[i] = NULL`, from `i` on.
pub clear_tasks : ℕ → ℕ → List ℕ → List ℕ
clear_tasks zero i cells = cells
clear_tasks (suc left) i cells = clear_tasks left (suc i) (set cells i 0)

module _ (a : Allocator) where
  open a use {Heap, kmalloc, kfree}

  pub pq_destroy : Heap → PriorityQueue → PriorityQueue × Heap
  pq_destroy h q = (pq, if q.buffer == 0 then h else kfree h q.buffer)

  -- What `pq_init` does once the allocator has answered.
  pub begin : ℕ → PriorityQueue → Option Block × Heap → Bool × PriorityQueue × Heap
  unfolding clear_tasks
  begin capacity q (none, h) = (false, record q { buffer = 0; cells = [] }, h)
  begin capacity q (some b, h) = (
    true,
    record {
      buffer = b.addr;
      cells = clear_tasks capacity 0 b.words;
      capacity = capacity;
      size = 0;
    },
    h,
  )

  pub pq_init : Heap → PriorityQueue → ℕ → Bool × PriorityQueue × Heap
  unfolding begin pq_destroy
  pq_init h q capacity =
      if capacity == 0
      then (false, q, h)
      else let (q', h') = if q.buffer == 0 then (q, h) else pq_destroy h q in
        begin capacity q' (kmalloc h' (mul_word capacity 4))
