-- ===== src/Dsa/Queue.antt =====
-- lib/dsa/queue.c, for a queue pointer that is not null. A `void *` is its address, 0 for NULL.
pub mod Order
mod Tests
use nexa_kernel.Base.{
  ℕ, ◌+◌, ◌%◌, Bool, true, false, Option, none, some, List, [], get_or, set, ◌==◌, if◌then◌else◌,
  add_word, sub_word, mul_word,
}
use nexa_kernel.Allocator.{Allocator, Block}

-- `queue_t`: `buffer` is the array's address, and `cells` what it holds.
pub record Queue : Type 0 where
  pub buffer : ℕ
  pub cells : List ℕ
  pub capacity : ℕ
  pub size : ℕ
  pub head : ℕ
  pub tail : ℕ

module _ (a : Allocator) where
  open a use {Heap, kmalloc, kfree}

  -- What `queue_init` does once the allocator has answered.
  pub accept : ℕ → Queue → Option Block × Heap → Bool × Queue × Heap
  accept capacity q (none, h) = (false, record q { buffer = 0; cells = [] }, h)
  accept capacity q (some b, h) = (
    true,
    record { buffer = b.addr; cells = b.words; capacity = capacity; size = 0; head = 0; tail = 0 },
    h,
  )

  pub queue_init : Heap → Queue → ℕ → Bool × Queue × Heap
  unfolding accept
  queue_init h q capacity =
      if capacity == 0 then (false, q, h) else accept capacity q (kmalloc h (mul_word capacity 4))

  pub queue_destroy : Heap → Queue → Queue × Heap
  queue_destroy h q =
      if q.buffer == 0
      then (record q { size = 0; capacity = 0 }, h)
      else (record q { buffer = 0; cells = []; size = 0; capacity = 0 }, kfree h q.buffer)

pub queue_is_empty : Queue → Bool
queue_is_empty q = q.size == 0

pub queue_is_full : Queue → Bool
queue_is_full q = q.size == q.capacity

pub queue_enqueue : Queue → ℕ → Bool × Queue
unfolding queue_is_full
queue_enqueue q item = if queue_is_full q then (false, q) else (
  true,
  record q {
    cells = set q.cells q.tail item;
    tail = add_word q.tail 1 % q.capacity;
    size = add_word q.size 1;
  },
)

pub queue_dequeue : Queue → ℕ × Queue
unfolding queue_is_empty
queue_dequeue q = if queue_is_empty q then (0, q) else (
  get_or q.cells q.head 0,
  record q { head = add_word q.head 1 % q.capacity; size = sub_word q.size 1 },
)

pub queue_peek : Queue → ℕ
unfolding queue_is_empty
queue_peek q = if queue_is_empty q then 0 else get_or q.cells q.head 0

pub queue_size : Queue → ℕ
queue_size q = q.size
