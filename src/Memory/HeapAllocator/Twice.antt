-- ===== src/Memory/HeapAllocator/Twice.antt =====
-- `kfree` of heap_allocator.c, called a second time with the same pointer.
use nexa_kernel.Base.{
  ℕ, zero, suc, ◌+◌, ◌-◌, ◌^◌, ◌≤◌, ◌<◌, ◌≡◌, ◌≢◌, refl, sym, ap, subst, ◌∙◌, Bool, true, false,
  none, some, List, [], ◌∷◌, arith, length, leb, ltb, ==_of_ne, if◌then◌else◌, Bool-cases, inl, inr,
}
use nexa_kernel.Memory.HeapAllocator.{
  Heap, Headers, coalesce_forward, coalesce_backward, release_block, kfree,
}
use nexa_kernel.Memory.HeapAllocator.Chunks.{Chunk, chunk_at, change_at, drop, mark, join, release}
use nexa_kernel.Memory.HeapAllocator.Linked.{
  IsLinked, address, behind, header-at, address_ge, address-inside, address-change, put-same,
}
use nexa_kernel.Memory.HeapAllocator.Joining.{coalesce-join}
use nexa_kernel.Memory.HeapAllocator.Refine.{IsHeap}
use nexa_kernel.Memory.HeapAllocator.Free.{
  length-at, backward-free, dropped, dropped-IsLinked, kfree-release, release_block-IsHeap,
}

-- `kfree` of the data of a free chunk changes nothing.
kfree-free :
    (h : Heap) (cs : List Chunk) (i : ℕ)
    → IsHeap h cs
    → i < length cs
    → (chunk_at cs i).free ≡ true
    → kfree h (address h.heap_start cs i + 20) ≡ some h
unfolding kfree
kfree-free h cs i v inside free =
    let block : ℕ = address h.heap_start cs i in
    let (magic, size, is_free) =
      header-at h.headers h.heap_end 0 h.heap_start i cs inside v.blocks in
    let low = address_ge h.heap_start i cs in
    let high = address-inside h.headers h.heap_end 0 h.heap_start i cs inside v.filled v.blocks in
    let above : ltb (block + 20) h.heap_start ≡ false = ground (arith, low) in
    let under : leb h.heap_end (block + 20) ≡ false = ground (arith, high) in
    let here : block + 20 - 20 ≡ block = omega arith in
    simp
      (
        ==_of_ne (block + 20) 0 (omega arith),
        v.on,
        above,
        under,
        here,
        ==_of_ne block 0 (omega (arith, v.there, low)),
        magic,
        is_free,
        free,
      )
      refl

-- The header of a free block that its neighbour takes in is spoilt.
coalesce-spoils :
    (stop : ℕ)
    → stop ≤ 2 ^ 32
    → (hs : Headers) (prev p j : ℕ) (cs : List Chunk) → p ≢ 0
    → suc j < length cs
    → IsLinked hs stop prev p cs
    → (chunk_at cs (suc j)).free ≡ true
    → (coalesce_forward hs (address p cs j) (address p cs (suc j))).magic ≡ 0
coalesce-spoils stop bound hs prev p j [] given inside l free = absurd (omega arith)
coalesce-spoils stop bound hs prev p zero (c ∷ []) given inside l free = absurd (omega arith)
coalesce-spoils stop bound hs prev p zero (c ∷ d ∷ ds) given inside l free =
    ap (λ m. (m (behind p c)).magic) (coalesce-join stop bound hs prev p c d ds given l free)
    ∙ ap (λ x. x.magic) (put-same _ (behind p c) _)
coalesce-spoils stop bound hs prev p (suc j) (c ∷ cs) given inside l free =
    coalesce-spoils stop bound hs p (behind p c) j cs (λ e. absurd (omega arith)) (omega arith) l.1
      free

chunk_at-drop :
    (i : ℕ) (cs : List Chunk) → i < length cs → (chunk_at (change_at drop i cs) i).free ≡ true
unfolding drop mark join
chunk_at-drop i [] inside = absurd (omega arith)
chunk_at-drop zero (c ∷ []) inside = refl
chunk_at-drop zero (c ∷ d ∷ ds) inside = elim (Bool-cases d.free) [
  | inl joins ↦ simp joins refl
  | inr alone ↦ simp alone refl
]
chunk_at-drop (suc i) (c ∷ cs) inside = chunk_at-drop i cs (omega arith)

chunk_at-drop_before :
    (j : ℕ) (cs : List Chunk) → chunk_at (change_at drop (suc j) cs) j ≡ chunk_at cs j
chunk_at-drop_before j [] = refl
chunk_at-drop_before zero (c ∷ cs) = refl
chunk_at-drop_before (suc j) (c ∷ cs) = chunk_at-drop_before j cs

-- Whether there is a chunk before, and it is free.
unfoldable pub free_before : List Chunk → ℕ → Bool
free_before cs zero = false
free_before cs (suc j) = (chunk_at cs j).free

release-alone :
    (i : ℕ) (cs : List Chunk) → free_before cs i ≡ false → release i cs ≡ change_at drop i cs
unfolding release free_before
release-alone zero cs alone = refl
release-alone (suc j) cs alone = simp (chunk_at-drop_before j cs, alone) refl

module _ (h : Heap) (cs : List Chunk) (v : IsHeap h cs) (i : ℕ) (inside : i < length cs) where
  abbrev block : ℕ
  block = address h.heap_start cs i

  abbrev once : Heap
  once = release_block h block

  -- The block was not joined to the one before: it still is a block, and free.
  again-alone :
      (chunk_at cs i).free ≡ false → free_before cs i ≡ false → kfree once (block + 20) ≡ some once
  unfolding release_block
  again-alone busy alone =
      let row : release i cs ≡ change_at drop i cs = release-alone i cs alone in
      let v' : IsHeap once (change_at drop i cs) =
        subst (IsHeap once) row (release_block-IsHeap h cs v i inside busy) in
      ap (λ p. kfree once (p + 20)) (sym (address-change drop h.heap_start i i cs (omega arith)))
      ∙ kfree-free once (change_at drop i cs) i v' (length-at drop i cs inside)
          (chunk_at-drop i cs inside)

  -- A pointer to a spoilt header of the heap.
  kfree-spoilt :
      (h' : Heap)
      → h'.heap_initialized ≡ true
      → h'.heap_start ≡ h.heap_start
      → h'.heap_end ≡ h.heap_end
      → (h'.headers block).magic ≡ 0
      → kfree h' (block + 20) ≡ none
  unfolding kfree
  kfree-spoilt h' on first last spoilt =
      let low = address_ge h.heap_start i cs in
      let high = address-inside h.headers h.heap_end 0 h.heap_start i cs inside v.filled v.blocks in
      let above : ltb (block + 20) h'.heap_start ≡ false = ground (arith, low, first) in
      let under : leb h'.heap_end (block + 20) ≡ false = ground (arith, high, last) in
      let here : block + 20 - 20 ≡ block = omega arith in
      simp
        (
          ==_of_ne (block + 20) 0 (omega arith),
          on,
          above,
          under,
          here,
          ==_of_ne block 0 (omega (arith, v.there, low)),
          spoilt,
        )
        refl

-- The block was joined to the one before, and its header spoilt.
spoilt-joined :
    (h : Heap) (cs : List Chunk)
    → IsHeap h cs
    → (j : ℕ) → suc j < length cs
    → (chunk_at cs j).free ≡ true
    → (Heap.headers
        (release_block h (address h.heap_start cs (suc j)))
        (address h.heap_start cs (suc j))).magic
      ≡ 0
unfolding release_block
spoilt-joined h cs v j inside joins =
    let stop : h.heap_end ≤ 2 ^ 32 = omega (arith, v.bound) in
    let row : List Chunk = change_at drop (suc j) cs in
    let l = dropped-IsLinked h cs v (suc j) inside in
    let same : address h.heap_start row (suc j) ≡ address h.heap_start cs (suc j) =
      address-change drop h.heap_start (suc j) (suc j) cs (omega arith) in
    let back =
      backward-free h.heap_end stop (dropped h cs v (suc j) inside) h.heap_start row v.there l j
        (length-at drop (suc j) cs inside)
        (ap (λ c. Chunk.free c) (chunk_at-drop_before j cs) ∙ joins) in
    ap (λ p. (coalesce_backward (dropped h cs v (suc j) inside) p p).magic) (sym same)
    ∙ ap (λ m. (m (address h.heap_start row (suc j))).magic) back
    ∙ coalesce-spoils h.heap_end stop (dropped h cs v (suc j) inside) 0 h.heap_start j row v.there
        (length-at drop (suc j) cs inside) l (chunk_at-drop (suc j) cs inside)

again-joined :
    (h : Heap) (cs : List Chunk) (v : IsHeap h cs) (i : ℕ) (inside : i < length cs)
    → free_before cs i ≡ true
    → kfree (release_block h (address h.heap_start cs i)) (address h.heap_start cs i + 20) ≡ none
unfolding release_block free_before
again-joined h cs v zero inside joins = cc
again-joined h cs v (suc j) inside joins =
    kfree-spoilt h cs v (suc j) inside (release_block h (address h.heap_start cs (suc j))) v.on refl
      refl (spoilt-joined h cs v j inside joins)

-- On a heap that holds a row of chunks, `kfree` of the data of a chunk in use comes back, and a second
-- `kfree` of the same pointer changes nothing, but for one case: if the chunk before was free, it has
-- taken the block in and spoilt its header, and the second call panics.
pub kfree-twice :
    (h : Heap) (cs : List Chunk)
    → IsHeap h cs
    → (i : ℕ) → i < length cs
    → (chunk_at cs i).free ≡ false
    → (h' : Heap) × (kfree h (address h.heap_start cs i + 20) ≡ some h')
      × (kfree h' (address h.heap_start cs i + 20) ≡ (if free_before cs i then none else some h'))
kfree-twice h cs v i inside busy = (
  release_block h (address h.heap_start cs i),
  kfree-release h cs v i inside busy,
  elim (Bool-cases (free_before cs i)) [
    | inl joins ↦ simp joins (again-joined h cs v i inside joins)
    | inr alone ↦ simp alone (again-alone h cs v i inside busy alone)
  ],
)
