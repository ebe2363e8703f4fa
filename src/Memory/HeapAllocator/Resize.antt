-- ===== src/Memory/HeapAllocator/Resize.antt =====
-- `krealloc` and `kcalloc` of heap_allocator.c.
use nexa_kernel.Base.{
  ℕ, zero, suc, ◌+◌, ◌*◌, ◌/◌, ◌^◌, ◌≤◌, ◌<◌, ◌≡◌, ◌≢◌, refl, ap, ◌∙◌, false, not, ◌&&◌, Option,
  none, some, List, arith, leb, ◌==◌, ==_iff, ==_of_ne, if◌then◌else◌, ◌⊎◌, inl, inr, mul_word,
  ℕ_discrete,
}
use nexa_kernel.Memory.HeapAllocator.{
  Heap, is_valid_block, request, kmalloc, kfree, data_to_block, align_size,
}
use nexa_kernel.Memory.HeapAllocator.Chunks.{Chunk, chunk_at, change_at, take, first_fit}
use nexa_kernel.Memory.HeapAllocator.Linked.{address}
use nexa_kernel.Memory.HeapAllocator.Refine.{IsHeap, kmalloc_refines}
use native.Mathlib.Nat.{div-mul-le_self, mul-div_cancel_left, mul_comm, zero-mul}

-- `for (i = 0; i < n; i++) dst[i] = src[i]`, with `left` rounds to go.
pub copy_data : ℕ → ℕ → (ℕ → ℕ) → ℕ → ℕ → ℕ → ℕ
copy_data zero i m dst src = m
copy_data (suc left) i m dst src =
    copy_data left (suc i) (λ a. if a == dst + i then m (src + i) else m a) dst src

pub krealloc : Heap → ℕ → ℕ → Option (ℕ × Heap)
krealloc h ptr size =
    if ptr == 0
    then kmalloc h size
    else if size == 0
    then (elim (kfree h ptr) [ none ↦ none | some h' ↦ some (0, h') ])
    else let block : ℕ = data_to_block ptr in
      if not (is_valid_block h.headers block)
      then some (0, h)
      else if leb (align_size size) (h.headers block).size
      then some (ptr, h)
      else elim (kmalloc h (align_size size)) [
        | none ↦ none
        | some (new_ptr, h') ↦
            if new_ptr == 0
            then some (0, h')
            else elim (kfree
                (record h' {
                  bytes = copy_data (Heap.headers h' block).size 0 h'.bytes new_ptr ptr;
                })
                ptr) [ none ↦ none | some h'' ↦ some (new_ptr, h'') ]
      ]

-- `for (i = 0; i < total; i++) p[i] = 0`, with `left` rounds to go.
pub zero_data : ℕ → ℕ → (ℕ → ℕ) → ℕ → ℕ → ℕ
zero_data zero i m p = m
zero_data (suc left) i m p = zero_data left (suc i) (λ a. if a == p + i then 0 else m a) p

pub kcalloc : Heap → ℕ → ℕ → Option (ℕ × Heap)
kcalloc h count size =
    let total : ℕ = mul_word count size in
    if not (count == 0) && not (total / count == size)
    then some (0, h)
    else elim (kmalloc h total) [
      | none ↦ none
      | some (ptr, h') ↦
          if ptr == 0
          then some (0, h')
          else some (ptr, record h' { bytes = zero_data total 0 h'.bytes ptr })
    ]

-- The bytes count for nothing in the row.
pub bytes-IsHeap :
    (h : Heap) (cs : List Chunk) (m : ℕ → ℕ) → IsHeap h cs → IsHeap (record h { bytes = m }) cs
bytes-IsHeap h cs m v = record {
  on = v.on;
  starts = v.starts;
  there = v.there;
  ends = v.ends;
  bound = v.bound;
  blocks = v.blocks;
  some_block = v.some_block;
  filled = v.filled;
  split_up = v.split_up;
  counted = v.counted;
}

-- The loop that clears the bytes from `p` on leaves the others alone.
zero_data-before : (left i : ℕ) (m : ℕ → ℕ) (p a : ℕ) → a < p + i → zero_data left i m p a ≡ m a
unfolding zero_data
zero_data-before zero i m p a lt = refl
zero_data-before (suc left) i m p a lt =
    zero_data-before left (suc i) _ p a (omega arith) ∙ simp (==_of_ne a (p + i) (omega arith)) refl

zero_data_lem :
    (left i : ℕ) (m : ℕ → ℕ) (p j : ℕ) → i ≤ j → j < i + left → zero_data left i m p (p + j) ≡ 0
unfolding zero_data
zero_data_lem zero i m p j le lt = absurd (omega arith)
zero_data_lem (suc left) i m p j le lt = elim (ℕ_discrete i j) [
  | yes same ↦
      zero_data-before left (suc i) _ p (p + j) (omega arith)
      ∙ simp ((==_iff (p + j) (p + i)).1 (omega arith)) refl
  | no other ↦ zero_data_lem left (suc i) _ p j (omega arith) (omega arith)
]

-- A product that does not fit in 32 bits is refused, and nothing changes.
pub kcalloc-overflow :
    (h : Heap) (count size : ℕ) → 2 ^ 32 ≤ count * size → kcalloc h count size ≡ some (0, h)
unfolding kcalloc
kcalloc-overflow h count size over =
    let some_count : count ≢ 0 = λ e. absurd (omega (arith, over, ap (λ c. c * size) e)) in
    let wraps : mul_word count size / count ≢ size = λ e. absurd (
      omega (
        arith,
        over,
        div-mul-le_self (mul_word count size) count,
        ap (λ q. q * count) e,
        mul_comm size count,
      )) in
    simp (==_of_ne count 0 some_count, ==_of_ne (mul_word count size / count) size wraps) refl

-- On a heap that holds a row of chunks, a request for `count * size` bytes, not 0 and short of 32 bits
-- by 7 at least, comes back. If no free chunk has room for the request, it answers null and the heap is
-- as it was. Else it answers the data of the first chunk that has room; the heap then holds the row in
-- which that chunk is taken, in use and with room for the bytes, and the bytes are all 0.
pub kcalloc_lem :
    (h : Heap) (cs : List Chunk) (count size : ℕ)
    → IsHeap h cs
    → count * size ≢ 0
    → count * size + 7 < 2 ^ 32
    → ((first_fit (request (count * size)) cs ≡ none) × (kcalloc h count size ≡ some (0, h)))
      ⊎ ((i : ℕ) × (h' : Heap) × (first_fit (request (count * size)) cs ≡ some i)
          × (kcalloc h count size ≡ some (address h.heap_start cs i + 20, h'))
          × IsHeap h' (change_at (take (request (count * size))) i cs)
          × ((chunk_at (change_at (take (request (count * size))) i cs) i).free ≡ false)
          × (count * size ≤ (chunk_at (change_at (take (request (count * size))) i cs) i).bytes)
          × ((j : ℕ) → j < count * size → h'.bytes (address h.heap_start cs i + 20 + j) ≡ 0))
unfolding kcalloc
kcalloc_lem h cs count size v given small =
    let some_count : count ≢ 0 = λ e. given (ap (λ c. c * size) e ∙ zero-mul size) in
    let fits : mul_word count size ≡ count * size = omega (arith, small) in
    let whole : count * size / count ≡ size =
      mul-div_cancel_left size (omega (arith, some_count)) in
    elim (kmalloc_refines h cs v (count * size) given small) [
      | inl (full, e) ↦
          inl (
            full,
            simp (==_of_ne count 0 some_count, fits, whole, (==_iff size size).1 refl, e) refl,
          )
      | inr (i, h1, found, e, v1, start, free, busy, large) ↦ inr (
        i,
        record h1 { bytes = zero_data (count * size) 0 h1.bytes (address h.heap_start cs i + 20) },
        found,
        simp
            (
              ==_of_ne count 0 some_count,
              fits,
              whole,
              (==_iff size size).1 refl,
              e,
              ==_of_ne (address h.heap_start cs i + 20) 0 (omega arith),
            )
            refl,
        bytes-IsHeap h1 _ _ v1,
        busy,
        large,
        λ j lt.
            zero_data_lem (count * size) 0 h1.bytes (address h.heap_start cs i + 20) j (omega arith)
              (omega arith),
      )
    ]
