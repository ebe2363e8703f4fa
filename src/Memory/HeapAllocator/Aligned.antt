-- ===== src/Memory/HeapAllocator/Aligned.antt =====
-- `kmalloc_aligned` and `kfree_aligned` of heap_allocator.c.
use Prim.Native.Nat.{bit_and}
use nexa_kernel.Base.{
  ℕ, ◌+◌, ◌-◌, ◌*◌, ◌/◌, ◌%◌, ◌^◌, ◌≤◌, ◌<◌, ◌≡◌, ◌≢◌, refl, ap, subst, false, not, ◌||◌, Option,
  none, some, List, arith, ◌==◌, ==_of_ne, if◌then◌else◌, ◌⊎◌, inl, inr, add_word,
}
use nexa_kernel.Memory.HeapAllocator.{Heap, request, kmalloc, kfree}
use nexa_kernel.Memory.HeapAllocator.Chunks.{
  Chunk, chunk_at, change_at, take, first_fit, first_fit-fits,
}
use nexa_kernel.Memory.HeapAllocator.Linked.{address, address-inside}
use nexa_kernel.Memory.HeapAllocator.Refine.{IsHeap, kmalloc_refines}
use native.Mathlib.Nat.{div-mul-le_self, lt-div-mul-add, mul-mod_left}
use nexa_kernel.Memory.HeapAllocator.Resize.{bytes-IsHeap}

-- A pointer in memory, the lowest byte first.
pub store_word : (ℕ → ℕ) → ℕ → ℕ → ℕ → ℕ
store_word m a v x =
    if x == a
    then v % 256
    else if x == a + 1
    then v / 256 % 256
    else if x == a + 2
    then v / 65536 % 256
    else if x == a + 3
    then v / 16777216 % 256
    else m x

pub load_word : (ℕ → ℕ) → ℕ → ℕ
load_word m a = m a + 256 * m (a + 1) + 65536 * m (a + 2) + 16777216 * m (a + 3)

-- The alignment is a power of two, so that clearing the low bits is rounding down to a multiple.
abbrev pub align_up : ℕ → ℕ → ℕ
align_up raw alignment = (raw + 4 + alignment - 1) / alignment * alignment

-- The original pointer is kept in the four bytes before the aligned address.
pub place : Heap → ℕ → ℕ → ℕ × Heap
place h raw alignment =
    if raw == 0
    then (0, h)
    else let ptr : ℕ = align_up raw alignment in
      (ptr, record h { bytes = store_word h.bytes (ptr - 4) raw })

pub kmalloc_aligned : Heap → ℕ → ℕ → Option (ℕ × Heap)
kmalloc_aligned h size alignment =
    if not h.heap_initialized || size == 0 || alignment == 0
    then some (0, h)
    else if not (bit_and alignment (alignment - 1) == 0)
    then some (0, h)
    else elim (kmalloc h (add_word (size + alignment - 1) 4)) [
      | none ↦ none
      | some (raw, h') ↦ some (place h' raw alignment)
    ]

pub kfree_aligned : Heap → ℕ → Option Heap
kfree_aligned h ptr = if ptr == 0 then some h else kfree h (load_word h.bytes (ptr - 4))

place_null : (h : Heap) (alignment : ℕ) → some (place h 0 alignment) ≡ some (0, h)
unfolding place
place_null h alignment = refl

load-store : (m : ℕ → ℕ) (a v : ℕ) → v < 2 ^ 32 → load_word (store_word m a v) a ≡ v
unfolding load_word store_word
load-store m a v small = ground arith

module _ (raw alignment : ℕ) (given : alignment ≢ 0) where
  align_up-multiple : align_up raw alignment % alignment ≡ 0
  align_up-multiple = mul-mod_left ((raw + 4 + alignment - 1) / alignment) alignment

  align_up-bounds :
      (raw + 4 ≤ align_up raw alignment) × (align_up raw alignment + 1 ≤ raw + 4 + alignment)
  align_up-bounds =
      let near : raw + 4 + alignment - 1 < align_up raw alignment + alignment =
        lt-div-mul-add (omega (arith, given)) in
      (
        omega (arith, given, near),
        omega (arith, given, div-mul-le_self (raw + 4 + alignment - 1) alignment),
      )

kfree-place :
    (h : Heap) (raw alignment : ℕ)
    → raw ≢ 0
    → alignment ≢ 0
    → raw < 2 ^ 32
    → kfree_aligned (place h raw alignment).1 (align_up raw alignment)
      ≡ kfree (place h raw alignment).1 raw
unfolding kfree_aligned place
kfree-place h raw alignment there given small =
    let (low, high) = align_up-bounds raw alignment given in
    simp
      (
        ==_of_ne raw 0 there,
        ==_of_ne (align_up raw alignment) 0 (omega (arith, low)),
        load-store h.bytes (align_up raw alignment - 4) raw small,
      )
      refl

place_lem :
    (h : Heap) (raw alignment : ℕ)
    → raw ≢ 0
    → place h raw alignment ≡ (
      align_up raw alignment,
      record h { bytes = store_word h.bytes (align_up raw alignment - 4) raw },
    )
unfolding place
place_lem h raw alignment there = simp (==_of_ne raw 0 there) refl

-- For an alignment that is a power of two, and sizes that do not wrap, a request on a heap that holds a
-- row of chunks comes back. If no free chunk has room for the size, the alignment and 3 bytes more, it
-- answers null and the heap is as it was. Else it answers a multiple of the alignment, and the heap
-- holds the row in which the first chunk that has room is taken, in use; the bytes that were asked for,
-- and the word before them, lie in its data, and to free the pointer is to free that chunk.
pub kmalloc_aligned_lem :
    (h : Heap) (cs : List Chunk) (size alignment : ℕ)
    → IsHeap h cs
    → size ≢ 0
    → alignment ≢ 0
    → bit_and alignment (alignment - 1) ≡ 0
    → size + alignment + 10 < 2 ^ 32
    → ((first_fit (request (size + alignment + 3)) cs ≡ none)
        × (kmalloc_aligned h size alignment ≡ some (0, h)))
      ⊎ ((i : ℕ) × (ptr : ℕ) × (h' : Heap) × (first_fit (request (size + alignment + 3)) cs
            ≡ some i)
          × (kmalloc_aligned h size alignment ≡ some (ptr, h'))
          × IsHeap h' (change_at (take (request (size + alignment + 3))) i cs)
          × ((chunk_at (change_at (take (request (size + alignment + 3))) i cs) i).free ≡ false)
          × (ptr % alignment ≡ 0)
          × (address h.heap_start cs i + 20 + 4 ≤ ptr)
          × (ptr + size
              ≤ address h.heap_start cs i
                + 20
                + (chunk_at (change_at (take (request (size + alignment + 3))) i cs) i).bytes)
          × (kfree_aligned h' ptr ≡ kfree h' (address h.heap_start cs i + 20)))
unfolding kmalloc_aligned
kmalloc_aligned_lem h cs size alignment v given wanted power small =
    let total : add_word (size + alignment - 1) 4 ≡ size + alignment + 3 =
      omega (arith, small, wanted) in
    elim (kmalloc_refines h cs v (size + alignment + 3) (omega arith) (omega (arith, small))) [
      | inl (full, e) ↦ inl (
        full,
        simp (v.on, ==_of_ne size 0 given, ==_of_ne alignment 0 wanted, power, total, e)
            (place_null h alignment),
      )
      | inr (i, h1, found, e, v1, start, free, busy, large) ↦
          let raw : ℕ = address h.heap_start cs i + 20 in
          let there : raw ≢ 0 = omega arith in
          let (inside, was, room) = first_fit-fits (request (size + alignment + 3)) i cs found in
          let end =
            address-inside h.headers h.heap_end 0 h.heap_start i cs inside v.filled v.blocks in
          let (low, high) = align_up-bounds raw alignment wanted in
          let placed = place_lem h1 raw alignment there in
          inr (
            i,
            align_up raw alignment,
            record h1 { bytes = store_word h1.bytes (align_up raw alignment - 4) raw },
            found,
            simp (v.on, ==_of_ne size 0 given, ==_of_ne alignment 0 wanted, power, total, e)
                (ap some placed),
            bytes-IsHeap h1 _ _ v1,
            busy,
            align_up-multiple raw alignment wanted,
            low,
            omega (arith, high, large),
            subst (λ r. kfree_aligned r.1 (align_up raw alignment) ≡ kfree r.1 raw) placed
                (kfree-place h1 raw alignment there wanted (omega (arith, end, v.bound))),
          )
    ]
