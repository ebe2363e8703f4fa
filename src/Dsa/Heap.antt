-- ===== src/Dsa/Heap.antt =====
-- lib/dsa/heap.c, for a heap pointer that is not null. A `void *` is its address, 0 for NULL.
mod Tests
use nexa_kernel.Base.{
  ℕ, zero, suc, ◌+◌, ◌-◌, ◌*◌, ◌/◌, Bool, true, false, ◌&&◌, Option, none, some, List, [], get_or,
  set, ltb, leb, ◌==◌, if◌then◌else◌, add_word, mul_word,
}
use nexa_kernel.Base.Int.{ℤ, pos, negsuc}
use nexa_kernel.Allocator.{Allocator, Block}

-- `heap_t`, less the comparator, which is not null, and which the functions that call it take as an
-- argument. `buffer` is the
-- array's address, and `cells` what it holds.
pub record Heap : Type 0 where
  pub buffer : ℕ
  pub cells : List ℕ
  pub capacity : ℕ
  pub size : ℕ

pub swap : List ℕ → ℕ → ℕ → List ℕ
swap cells i j = set (set cells i (get_or cells j 0)) j (get_or cells i 0)

-- `c < 0` of an `int`.
abbrev pub comes_first : ℤ → Bool
comes_first (pos n) = false
comes_first (negsuc n) = true

module _ (comparator : ℕ → ℕ → ℤ) where
  -- The recursion goes to the parent, so the index is enough fuel.
  pub climb : ℕ → List ℕ → ℕ → List ℕ
  unfolding swap
  climb zero cells index = cells
  climb (suc fuel) cells index = elim (index == 0) [
    | true ↦ cells
    | false ↦
        elim (comes_first (comparator (get_or cells index 0) (get_or cells ((index - 1) / 2) 0))) [
          | true ↦ climb fuel (swap cells index ((index - 1) / 2)) ((index - 1) / 2)
          | false ↦ cells
        ]
  ]

  abbrev pub heapify_up : List ℕ → ℕ → List ℕ
  heapify_up cells index = climb index cells index

  -- The choice between `smallest` and a child.
  pub choose : List ℕ → ℕ → ℕ → ℕ → ℕ
  choose cells size smallest child =
      if ltb child size && comes_first (comparator (get_or cells child 0) (get_or cells smallest 0))
      then child
      else smallest

  -- The recursion goes to a child in the heap, so the size is enough fuel.
  pub sink : ℕ → List ℕ → ℕ → ℕ → List ℕ
  unfolding choose swap
  sink zero cells size index = cells
  sink (suc fuel) cells size index =
      let smallest = choose cells size (choose cells size index (2 * index + 1)) (2 * index + 2) in
      elim (smallest == index) [
        | true ↦ cells
        | false ↦ sink fuel (swap cells index smallest) size smallest
      ]

  abbrev pub heapify_down : List ℕ → ℕ → ℕ → List ℕ
  heapify_down cells size index = sink size cells size index

  pub heap_insert : Heap → ℕ → Bool × Heap
  unfolding climb
  heap_insert h item = if leb h.capacity h.size then (false, h) else (
    true,
    record h { cells = heapify_up (set h.cells h.size item) h.size; size = add_word h.size 1 },
  )

  pub heap_extract : Heap → ℕ × Heap
  unfolding sink
  heap_extract h = if h.size == 0 then (0, h) else (
    get_or h.cells 0 0,
    record h {
      cells = heapify_down (set h.cells 0 (get_or h.cells (h.size - 1) 0)) (h.size - 1) 0;
      size = h.size - 1;
    },
  )

pub dsa_heap_is_empty : Heap → Bool
dsa_heap_is_empty h = h.size == 0

pub dsa_heap_peek : Heap → ℕ
dsa_heap_peek h = if h.size == 0 then 0 else get_or h.cells 0 0

pub dsa_heap_size : Heap → ℕ
dsa_heap_size h = h.size

module _ (a : Allocator) where
  -- What `dsa_heap_init` does once the allocator has answered.
  pub adopt : ℕ → Heap → Option Block × Allocator.Heap a → Bool × Heap × Allocator.Heap a
  adopt capacity h (none, k) = (false, record h { buffer = 0; cells = [] }, k)
  adopt capacity h (some b, k) =
      (true, record { buffer = b.addr; cells = b.words; capacity = capacity; size = 0 }, k)

  pub dsa_heap_init : Allocator.Heap a → Heap → ℕ → Bool × Heap × Allocator.Heap a
  unfolding adopt
  dsa_heap_init k h capacity =
      if capacity == 0
      then (false, h, k)
      else adopt capacity h (Allocator.kmalloc a k (mul_word capacity 4))

  pub dsa_heap_destroy : Allocator.Heap a → Heap → Heap × Allocator.Heap a
  dsa_heap_destroy k h = if h.buffer == 0 then (record h { size = 0; capacity = 0 }, k) else (
    record h { buffer = 0; cells = []; size = 0; capacity = 0 },
    Allocator.kfree a k h.buffer,
  )
