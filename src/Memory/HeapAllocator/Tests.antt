-- ===== src/Memory/HeapAllocator/Tests.antt =====
-- Runs of heap_allocator.c, and the theorems at concrete heaps.
use nexa_kernel.Base.{
  ℕ, ◌+◌, ◌%◌, ◌≤◌, ◌<◌, ◌≡◌, refl, Bool, true, false, none, some, List, [], ◌∷◌, arith, ◌==◌,
  if◌then◌else◌, ◌⊎◌,
}
use nexa_kernel.Base.Int.{pos}
use nexa_kernel.Memory.HeapAllocator.{
  Heap, Headers, kmalloc, kfree, heap_init, take_block, find_fit, finish, request,
}
use nexa_kernel.Memory.HeapAllocator.Chunks.{
  Chunk, no_more, one_more, chunk_at, change_at, take, release, used, first_fit, apart,
}
use nexa_kernel.Memory.HeapAllocator.Linked.{header_of, address}
use nexa_kernel.Memory.HeapAllocator.Refine.{IsHeap, kmalloc_refines}
use nexa_kernel.Memory.HeapAllocator.Free.{kfree_refines, kfree-kmalloc}
use nexa_kernel.Memory.HeapAllocator.Start.{heap_init-IsHeap}
use nexa_kernel.Memory.HeapAllocator.Twice.{free_before, kfree-twice}
use nexa_kernel.Memory.HeapAllocator.Resize.{kcalloc, kcalloc-overflow, kcalloc_lem}
use nexa_kernel.Memory.HeapAllocator.Aligned.{kmalloc_aligned, kfree_aligned, kmalloc_aligned_lem}
use nexa_kernel.Memory.HeapAllocator.Validate.{heap_validate, heap_validate_lem}

abbrev chunk : ℕ → Bool → Chunk
chunk n free = record { bytes = n; free = free }

-- 16 bytes in use, 100 free, 24 in use.
abbrev row : List Chunk
row = chunk 16 false ∷ chunk 100 true ∷ chunk 24 false ∷ []

abbrev row_headers : Headers
row_headers a =
    if a == 1000
    then header_of (chunk 16 false) 0 1036
    else if a == 1036
    then header_of (chunk 100 true) 1000 1156
    else header_of (chunk 24 false) 1036 0

abbrev heap : Heap
heap = record {
  heap_start = 1000;
  heap_end = 1200;
  heap_size = 200;
  first_block = 1000;
  total_allocations = 3;
  total_frees = 1;
  bytes_allocated = 40;
  peak_usage = 140;
  heap_initialized = true;
  headers = row_headers;
  bytes = λ a. 7;
}

heap-IsHeap : IsHeap heap row
unfolding used apart
heap-IsHeap = record {
  on = refl;
  starts = refl;
  there = omega arith;
  ends = refl;
  bound = omega arith;
  blocks = (refl, (refl, (refl, refl)));
  some_block = omega arith;
  filled = one_more (omega arith) (one_more (omega arith) (one_more (omega arith) no_more));
  split_up = refl;
  counted = refl;
}

-- Ten bytes are cut off the second chunk.
kmalloc-ten : kmalloc heap 10 ≡ some (1056, take_block heap 1036 16)
unfolding kmalloc find_fit finish
kmalloc-ten = refl

-- A request that wraps when it is aligned is granted 16 bytes.
kmalloc-huge : kmalloc heap 4294967295 ≡ some (1056, take_block heap 1036 16)
unfolding kmalloc find_fit finish
kmalloc-huge = refl

row-cut :
    change_at (take 16) 1 row
    ≡ chunk 16 false ∷ chunk 16 false ∷ chunk 64 true ∷ chunk 24 false ∷ []
unfolding take
row-cut = refl

row-joined : release 2 row ≡ chunk 16 false ∷ chunk 144 true ∷ []
unfolding release
row-joined = refl

kmalloc_refines_example :
    ((first_fit (request 10) row ≡ none) × (kmalloc heap 10 ≡ some (0, heap)))
    ⊎ ((i : ℕ) × (h' : Heap) × (first_fit (request 10) row ≡ some i)
        × (kmalloc heap 10 ≡ some (address 1000 row i + 20, h'))
        × IsHeap h' (change_at (take (request 10)) i row)
        × (h'.heap_start ≡ 1000)
        × ((chunk_at row i).free ≡ true)
        × ((chunk_at (change_at (take (request 10)) i row) i).free ≡ false)
        × (10 ≤ (chunk_at (change_at (take (request 10)) i row) i).bytes))
kmalloc_refines_example = kmalloc_refines heap row heap-IsHeap 10 (omega arith) (omega arith)

kfree_refines_example : (h' : Heap) × (kfree heap 1176 ≡ some h') × IsHeap h' (release 2 row)
kfree_refines_example = kfree_refines heap row heap-IsHeap 2 (omega arith) refl

kfree-kmalloc_example :
    (h'' : Heap) × (kfree (take_block heap 1036 16) 1056 ≡ some h'')
    × IsHeap h'' row
    × (h''.bytes_allocated ≡ 40)
kfree-kmalloc_example =
    kfree-kmalloc heap (take_block heap 1036 16) row 10 1056 heap-IsHeap (omega arith) (omega arith)
      kmalloc-ten (omega arith)

heap_init-IsHeap_example :
    (c : Chunk) × IsHeap (heap_init heap 2001 100) (c ∷ [])
    × (c.free ≡ true)
    × (2001 ≤ (heap_init heap 2001 100).heap_start)
    × ((heap_init heap 2001 100).heap_end ≡ 2101)
    × ((heap_init heap 2001 100).heap_start % 8 ≡ 0)
heap_init-IsHeap_example = heap_init-IsHeap heap 2001 100 (omega arith) (omega arith) (omega arith)

-- The chunk before is free: the second `kfree` panics.
kfree-twice_example : (h' : Heap) × (kfree heap 1176 ≡ some h') × (kfree h' 1176 ≡ none)
unfolding free_before
kfree-twice_example = kfree-twice heap row heap-IsHeap 2 (omega arith) refl

kcalloc-overflow_example : kcalloc heap 65536 65536 ≡ some (0, heap)
kcalloc-overflow_example = kcalloc-overflow heap 65536 65536 (omega arith)

kcalloc_lem_example :
    ((first_fit (request 12) row ≡ none) × (kcalloc heap 3 4 ≡ some (0, heap)))
    ⊎ ((i : ℕ) × (h' : Heap) × (first_fit (request 12) row ≡ some i)
        × (kcalloc heap 3 4 ≡ some (address 1000 row i + 20, h'))
        × IsHeap h' (change_at (take (request 12)) i row)
        × ((chunk_at (change_at (take (request 12)) i row) i).free ≡ false)
        × (12 ≤ (chunk_at (change_at (take (request 12)) i row) i).bytes)
        × ((j : ℕ) → j < 12 → h'.bytes (address 1000 row i + 20 + j) ≡ 0))
kcalloc_lem_example = kcalloc_lem heap row 3 4 heap-IsHeap (omega arith) (omega arith)

kmalloc_aligned_lem_example :
    ((first_fit (request 39) row ≡ none) × (kmalloc_aligned heap 20 16 ≡ some (0, heap)))
    ⊎ ((i : ℕ) × (ptr : ℕ) × (h' : Heap) × (first_fit (request 39) row ≡ some i)
        × (kmalloc_aligned heap 20 16 ≡ some (ptr, h'))
        × IsHeap h' (change_at (take (request 39)) i row)
        × ((chunk_at (change_at (take (request 39)) i row) i).free ≡ false)
        × (ptr % 16 ≡ 0)
        × (address 1000 row i + 20 + 4 ≤ ptr)
        × (ptr + 20
            ≤ address 1000 row i + 20 + (chunk_at (change_at (take (request 39)) i row) i).bytes)
        × (kfree_aligned h' ptr ≡ kfree h' (address 1000 row i + 20)))
kmalloc_aligned_lem_example =
    kmalloc_aligned_lem heap row 20 16 heap-IsHeap (omega arith) (omega arith) refl (omega arith)

heap_validate_lem_example : heap_validate heap ≡ pos 3
heap_validate_lem_example = heap_validate_lem heap row heap-IsHeap (omega arith)
