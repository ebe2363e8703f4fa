-- ===== src/Memory/HeapAllocator/Start.antt =====
-- `heap_init` of heap_allocator.c.
use nexa_kernel.Base.{
  ℕ, ◌+◌, ◌-◌, ◌%◌, ◌^◌, ◌≤◌, ◌≡◌, ◌≢◌, refl, true, false, [], ◌∷◌, arith, leb, ltb, ==_of_ne,
}
use nexa_kernel.Memory.HeapAllocator.{Heap, heap_init, aligned_start}
use nexa_kernel.Memory.HeapAllocator.Chunks.{Chunk, used, no_more, one_more, apart}
use nexa_kernel.Memory.HeapAllocator.Linked.{put-same}
use nexa_kernel.Memory.HeapAllocator.Refine.{IsHeap}

-- A region that is not at address 0, has 36 bytes, and ends 36 bytes before the last address, becomes a
-- heap with one free chunk; the heap lies in the region, and starts at a multiple of 8.
pub heap_init-IsHeap :
    (h : Heap) (start size : ℕ)
    → start ≢ 0
    → 36 ≤ size
    → start + size + 36 ≤ 2 ^ 32
    → (c : Chunk) × IsHeap (heap_init h start size) (c ∷ [])
      × (c.free ≡ true)
      × (start ≤ (heap_init h start size).heap_start)
      × ((heap_init h start size).heap_end ≡ start + size)
      × ((heap_init h start size).heap_start % 8 ≡ 0)
unfolding heap_init used apart
heap_init-IsHeap h start size there enough bound =
    let lost : ℕ = aligned_start start - start in
    let few : leb size lost ≡ false = ground arith in
    let large : ltb size 36 ≡ false = ground arith in
    simp (==_of_ne start 0 there, large, few)
      (
        record { bytes = size - lost - 20; free = true },
        record {
          on = refl;
          starts = refl;
          there = omega arith;
          ends = refl;
          bound = omega arith;
          blocks = (put-same h.headers (aligned_start start) _, omega arith);
          some_block = omega arith;
          filled = one_more (omega arith) no_more;
          split_up = refl;
          counted = refl;
        },
        refl,
        omega arith,
        omega arith,
        omega arith,
      )
