-- ===== src/Memory/HeapAllocator/Validate.antt =====
-- `heap_validate` of heap_allocator.c.
use nexa_kernel.Base.{
  ℕ, zero, suc, ◌+◌, ◌≤◌, ◌<◌, ◌≡◌, ◌≢◌, refl, sym, ap, ◌∙◌, false, not, List, [], ◌∷◌, arith,
  length, ltb, ◌==◌, ==_iff, ==_of_ne, if◌then◌else◌,
}
use nexa_kernel.Base.Int.{ℤ, pos, negsuc}
use nexa_kernel.Memory.HeapAllocator.{Heap, is_valid_block, block_end}
use nexa_kernel.Memory.HeapAllocator.Chunks.{Chunk}
use nexa_kernel.Memory.HeapAllocator.Linked.{IsLinked, total_lem, first_of, behind}
use nexa_kernel.Memory.HeapAllocator.Refine.{IsHeap, first_of-start}

-- `while (block)` with `left` of a million and one rounds to go: the last of them ends in -1.
pub validate_from : ℕ → Heap → ℕ → ℕ → ℕ → ℤ
validate_from zero h block prev count = negsuc 0
validate_from (suc left) h block prev count =
    let rest = validate_from left h (Heap.headers h block).next block (suc count) in
    if block == 0
    then pos count
    else if not (is_valid_block h.headers block)
    then negsuc 0
    else if not ((Heap.headers h block).prev == prev)
    then negsuc 0
    else if ltb h.heap_end (block_end h.headers block)
    then negsuc 0
    else rest

pub heap_validate : Heap → ℤ
heap_validate h =
    if not h.heap_initialized then negsuc 0 else validate_from 1000001 h h.first_block 0 0

module _ (h : Heap) where
  validate_from-linked :
      (left prev p count : ℕ) (cs : List Chunk)
      → length cs < left
      → p ≢ 0
      → IsLinked h.headers h.heap_end prev p cs
      → validate_from left h (first_of p cs) prev count ≡ pos (count + length cs)
  unfolding validate_from
  validate_from-linked zero prev p count cs lt given l = absurd (omega arith)
  validate_from-linked (suc left) prev p count [] lt given l = ap pos (omega arith)
  validate_from-linked (suc left) prev p count (c ∷ cs) lt given l =
      let rest =
        validate_from-linked left p (behind p c) (suc count) cs (omega arith) (omega arith) l.1 in
      let inside : ltb h.heap_end (p + 20 + c.bytes) ≡ false =
        ground (arith, total_lem h.headers h.heap_end p (behind p c) cs l.1) in
      simp (==_of_ne p 0 given, l.0, (==_iff prev prev).1 refl, inside, rest) (ap pos (omega arith))

-- On a heap that holds a row of at most a million chunks, `heap_validate` yields their number.
pub heap_validate_lem :
    (h : Heap) (cs : List Chunk)
    → IsHeap h cs
    → length cs ≤ 1000000
    → heap_validate h ≡ pos (length cs)
unfolding heap_validate
heap_validate_lem h cs v few = simp v.on (
    ap (λ p. validate_from 1000001 h p 0 0)
      (v.starts ∙ sym (first_of-start h cs v h.heap_start cs v.some_block))
    ∙ validate_from-linked h 1000001 0 h.heap_start 0 cs (omega arith) v.there v.blocks
    ∙ ap pos (omega arith))
