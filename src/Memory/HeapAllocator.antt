-- ===== src/Memory/HeapAllocator.antt =====
-- kernel/memory/heap_allocator.c. The block headers are a function from their addresses, the bytes of
-- the heap another one: what a client writes does not reach a header. A pointer sum does not wrap, a
-- sum of sizes does. `none` is a panic.
pub mod Chunks
pub mod Rows
pub mod Releases
pub mod Linked
pub mod Local
pub mod Joining
pub mod Refine
pub mod Free
pub mod Start
pub mod Twice
pub mod Resize
pub mod Aligned
pub mod Validate
pub mod Interface
mod Tests
use Prim.Native.Nat.{bit_and}
use nexa_kernel.Base.{
  ℕ, zero, suc, ◌+◌, ◌-◌, ◌*◌, ◌/◌, ◌%◌, Bool, true, false, not, ◌&&◌, ◌||◌, Option, none, some,
  ltb, leb, ◌==◌, if◌then◌else◌, add_word, sub_word, mul_word,
}
use nexa_kernel.Base.Int.{ℤ, pos, negsuc}

-- `heap_block_t`. A pointer is an address, 0 for NULL.
pub record Header : Type 0 where
  pub magic : ℕ
  pub size : ℕ
  pub is_free : Bool
  pub prev : ℕ
  pub next : ℕ

abbrev pub heap_magic : ℕ
heap_magic = 3735928559

abbrev pub header_bytes : ℕ
header_bytes = 20

abbrev pub heap_min_alloc_size : ℕ
heap_min_alloc_size = 16

abbrev pub heap_min_split_size : ℕ
heap_min_split_size = header_bytes + heap_min_alloc_size

abbrev pub Headers : Type 0
Headers = ℕ → Header

pub put : Headers → ℕ → Header → Headers
put hs p x a = if a == p then x else hs a

-- The static variables, and the memory.
pub record Heap : Type 0 where
  pub heap_start : ℕ
  pub heap_end : ℕ
  pub heap_size : ℕ
  pub first_block : ℕ
  pub total_allocations : ℕ
  pub total_frees : ℕ
  pub bytes_allocated : ℕ
  pub peak_usage : ℕ
  pub heap_initialized : Bool
  pub headers : Headers
  pub bytes : ℕ → ℕ

-- Clearing the three low bits.
abbrev pub align_size : ℕ → ℕ
align_size size = add_word size 7 / 8 * 8

abbrev pub block_to_data : ℕ → ℕ
block_to_data block = block + header_bytes

abbrev pub data_to_block : ℕ → ℕ
data_to_block ptr = ptr - header_bytes

abbrev pub is_valid_block : Headers → ℕ → Bool
is_valid_block hs block = not (block == 0) && (hs block).magic == heap_magic

abbrev pub block_end : Headers → ℕ → ℕ
block_end hs block = block + header_bytes + (hs block).size

-- The start that is aligned to eight bytes.
abbrev pub aligned_start : ℕ → ℕ
aligned_start start = (start + 7) / 8 * 8

abbrev pub first_header : ℕ → Header
first_header size = record {
  magic = heap_magic;
  size = size - header_bytes;
  is_free = true;
  prev = 0;
  next = 0;
}

pub heap_init : Heap → ℕ → ℕ → Heap
heap_init h start size =
    if start == 0 || ltb size (header_bytes + heap_min_alloc_size)
    then h
    else if leb size (aligned_start start - start)
    then h
    else let left : ℕ = size - (aligned_start start - start) in
      record {
        heap_start = aligned_start start;
        heap_end = aligned_start start + left;
        heap_size = left;
        first_block = aligned_start start;
        total_allocations = 0;
        total_frees = 0;
        bytes_allocated = 0;
        peak_usage = 0;
        heap_initialized = true;
        headers = put h.headers (aligned_start start) (first_header left);
        bytes = h.bytes;
      }

-- `p->prev = prev` if `p` is not null.
pub set_prev : Headers → ℕ → ℕ → Headers
set_prev hs p prev = if p == 0 then hs else put hs p (record (hs p) { prev = prev })

-- The two writes of `split_block`: the new block, and the block that is cut.
abbrev pub split_remainder : Header → ℕ → ℕ → Header
split_remainder b block needed = record {
  magic = heap_magic;
  size = sub_word (sub_word b.size needed) header_bytes;
  is_free = true;
  prev = block;
  next = b.next;
}

pub split_block : Headers → ℕ → ℕ → Headers
split_block hs block needed =
    if leb (hs block).size (add_word needed heap_min_split_size)
    then hs
    else let new_block : ℕ = block + header_bytes + needed in
      let linked =
        set_prev (put hs new_block (split_remainder (hs block) block needed)) (hs block).next
          new_block in
      put linked block (record (linked block) { size = needed; next = new_block })

-- What the search of `kmalloc` comes to.
pub data Search : Type 0 where
  corrupt no_fit : Search
  fits : ℕ → Search

-- `while (block)`, on fuel.
pub find_fit : ℕ → Headers → ℕ → ℕ → Search
find_fit zero hs block size = no_fit
find_fit (suc fuel) hs block size =
    let rest = find_fit fuel hs (hs block).next size in
    if block == 0
    then no_fit
    else if not (is_valid_block hs block)
    then corrupt
    else if (hs block).is_free && leb size (hs block).size
    then fits block
    else rest

pub set_free : Headers → ℕ → Bool → Headers
set_free hs block free = put hs block (record (hs block) { is_free = free })

-- The block is cut and marked, and the statistics are updated.
pub take_block : Heap → ℕ → ℕ → Heap
take_block h block size =
    let hs = set_free (split_block h.headers block size) block false in
    let used : ℕ = add_word h.bytes_allocated (hs block).size in
    record h {
      headers = hs;
      total_allocations = add_word h.total_allocations 1;
      bytes_allocated = used;
      peak_usage = if ltb h.peak_usage used then used else h.peak_usage;
    }

-- The size that is asked for, aligned, and the least size at least.
abbrev pub request : ℕ → ℕ
request size =
    if ltb (align_size size) heap_min_alloc_size then heap_min_alloc_size else align_size size

pub finish : Heap → ℕ → Search → Option (ℕ × Heap)
finish h size corrupt = none
finish h size no_fit = some (0, h)
finish h size (fits block) = some (block_to_data block, take_block h block size)

-- A heap of `heap_size` bytes has fewer blocks than that.
pub kmalloc : Heap → ℕ → Option (ℕ × Heap)
kmalloc h size =
    if not h.heap_initialized || size == 0
    then some (0, h)
    else finish h (request size) (find_fit h.heap_size h.headers h.first_block (request size))

pub coalesce_forward : Headers → ℕ → Headers
coalesce_forward hs block =
    let next : ℕ = (hs block).next in
    if next == 0 || not (hs next).is_free
    then hs
    else if not (is_valid_block hs next)
    then hs
    else let joined = put hs block (record (hs block) {
      size = add_word (hs block).size (add_word header_bytes (hs next).size);
      next = (hs next).next;
    }) in
      let linked = set_prev joined (hs next).next block in
      put linked next (record (linked next) { magic = 0 })

pub coalesce_backward : Headers → ℕ → Headers
coalesce_backward hs block =
    let prev : ℕ = (hs block).prev in
    if prev == 0 || not (hs prev).is_free
    then hs
    else if not (is_valid_block hs prev)
    then hs
    else coalesce_forward hs prev

-- The part of `kfree` behind its checks.
pub release_block : Heap → ℕ → Heap
release_block h block = record h {
  headers = coalesce_backward (coalesce_forward (set_free h.headers block true) block) block;
  total_frees = add_word h.total_frees 1;
  bytes_allocated = sub_word h.bytes_allocated (h.headers block).size;
}

pub kfree : Heap → ℕ → Option Heap
kfree h ptr =
    if ptr == 0 || not h.heap_initialized
    then some h
    else if ltb ptr h.heap_start || leb h.heap_end ptr
    then some h
    else if not (is_valid_block h.headers (data_to_block ptr))
    then none
    else if (h.headers (data_to_block ptr)).is_free
    then some h
    else some (release_block h (data_to_block ptr))
