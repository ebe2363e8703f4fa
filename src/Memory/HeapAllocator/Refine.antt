-- ===== src/Memory/HeapAllocator/Refine.antt =====
-- `kmalloc` and `kfree` of heap_allocator.c against the row of chunks of `Chunks`.
use nexa_kernel.Base.{
  ℕ, zero, suc, ◌+◌, ◌^◌, ◌≤◌, ◌<◌, ◌≡◌, ◌≢◌, refl, sym, ap, ◌∙◌, true, false, none, some, List, [],
  ◌∷◌, arith, length, ==_of_ne, Option-cases, ◌⊎◌, inl, inr,
}
use nexa_kernel.Memory.HeapAllocator.{
  Heap, Header, Headers, set_free, split_block, no_fit, fits, find_fit, request, take_block, finish,
  kmalloc,
}
use nexa_kernel.Memory.HeapAllocator.Chunks.{
  Chunk, chunk_at, change_at, take, used, AllFilled, apart, first_fit, first_fit-fits,
}
use nexa_kernel.Memory.HeapAllocator.Rows.{
  length-change, length-total, used-total, take-chunk, take-AllFilled, take-apart, take-used,
}
use nexa_kernel.Memory.HeapAllocator.Linked.{
  IsLinked, address, header-at, address-change, total_lem, find_fit-linked, first_of,
}
use nexa_kernel.Memory.HeapAllocator.Local.{IsLinked-change}
use nexa_kernel.Memory.HeapAllocator.Joining.{take-IsLocal}

-- The row `cs` lies in the heap, which ends 36 bytes before the last address at the latest.
pub record IsHeap (h : Heap) (cs : List Chunk) : Type 0 where
  pub on : h.heap_initialized ≡ true
  pub starts : h.first_block ≡ h.heap_start
  pub there : h.heap_start ≢ 0
  pub ends : h.heap_start + h.heap_size ≡ h.heap_end
  pub bound : h.heap_end + 36 ≤ 2 ^ 32
  pub blocks : IsLinked h.headers h.heap_end 0 h.heap_start cs
  pub some_block : 0 < length cs
  pub filled : AllFilled cs
  pub split_up : apart cs ≡ true
  pub counted : h.bytes_allocated ≡ used cs

module _ (h : Heap) (cs : List Chunk) (v : IsHeap h cs) where
  fuel_enough : length cs ≤ h.heap_size
  fuel_enough =
      omega
        (arith, length-total cs, total_lem h.headers h.heap_end 0 h.heap_start cs v.blocks, v.ends)

  pub first_of-start : (p : ℕ) (ds : List Chunk) → 0 < length ds → first_of p ds ≡ p
  first_of-start p [] lt = absurd (omega arith)
  first_of-start p (d ∷ ds) lt = refl

  search :
      (need : ℕ)
      → find_fit h.heap_size h.headers h.first_block need
        ≡ elim (first_fit need cs) [ none ↦ no_fit | some i ↦ fits (address h.heap_start cs i) ]
  search need =
      ap (λ p. find_fit h.heap_size h.headers p need)
        (v.starts ∙ sym (first_of-start h.heap_start cs v.some_block))
      ∙ find_fit-linked h.heap_size h.headers h.heap_end 0 h.heap_start need cs fuel_enough v.there
          v.blocks

  kmalloc-search :
      (size : ℕ)
      → size ≢ 0
      → kmalloc h size
        ≡ finish h (request size) (elim (first_fit (request size) cs) [
          | none ↦ no_fit
          | some i ↦ fits (address h.heap_start cs i)
        ])
  unfolding kmalloc
  kmalloc-search size given =
      simp (v.on, ==_of_ne size 0 given) (ap (finish h (request size)) (search (request size)))

  -- The chunk that is found is taken.
  module _ (need i : ℕ) (found : first_fit need cs ≡ some i) (lt : 0 < need) where
    abbrev b : ℕ
    b = address h.heap_start cs i

    abbrev taken : List Chunk
    taken = change_at (take need) i cs

    abbrev cut_headers : Headers
    cut_headers = set_free (split_block h.headers b need) b false

    fit : (i < length cs) × ((chunk_at cs i).free ≡ true) × (need ≤ (chunk_at cs i).bytes)
    fit = first_fit-fits need i cs found

    taken-IsLinked : IsLinked cut_headers h.heap_end 0 h.heap_start taken
    taken-IsLinked =
        (IsLinked-change h.heap_end (λ hs p. set_free (split_block hs p need) p false) (take need)
          (λ c. need ≤ c.bytes) (take-IsLocal h.heap_end need v.bound) h.headers 0 h.heap_start i cs
          v.there fit.0 fit.2 v.blocks).0

    length-taken : i < length taken
    length-taken = go i cs fit.0
      where
        go : (j : ℕ) (ds : List Chunk) → j < length ds → j < length (change_at (take need) j ds)
        go j [] inside = absurd (omega arith)
        go zero (d ∷ ds) inside = omega arith
        go (suc j) (d ∷ ds) inside = omega (arith, go j ds (omega arith))

    size-taken : (cut_headers b).size ≡ (chunk_at taken i).bytes
    size-taken =
        ap (λ p. Header.size (cut_headers p))
          (sym (address-change (take need) h.heap_start i i cs (omega arith)))
        ∙ (header-at cut_headers h.heap_end 0 h.heap_start i taken length-taken taken-IsLinked).1

    take_block-IsHeap : IsHeap (take_block h b need) taken
    unfolding take_block
    take_block-IsHeap = record {
      on = v.on;
      starts = v.starts;
      there = v.there;
      ends = v.ends;
      bound = v.bound;
      blocks = taken-IsLinked;
      some_block = length-change (take need) i cs v.some_block;
      filled = take-AllFilled need i cs lt v.filled;
      split_up = take-apart need i cs fit.1 v.split_up;
      counted = omega (
        arith,
        v.counted,
        size-taken,
        take-used need i cs fit.0 fit.1,
        used-total taken,
        total_lem cut_headers h.heap_end 0 h.heap_start taken taken-IsLinked,
        v.bound,
      );
    }

  start-take_block : (p need : ℕ) → (take_block h p need).heap_start ≡ h.heap_start
  unfolding take_block
  start-take_block p need = refl

  -- On a heap that holds a row of chunks, a request that is not 0 and does not wrap when it is aligned
  -- is answered as the first free chunk with room says: if there is none, by null, and nothing changes;
  -- else by the address of that chunk's data, and the heap holds the row in which the chunk is taken.
  -- The heap starts where it did; the chunk was free, is now in use, and has room for the request.
  pub kmalloc_refines :
      (size : ℕ)
      → size ≢ 0
      → size + 7 < 2 ^ 32
      → ((first_fit (request size) cs ≡ none) × (kmalloc h size ≡ some (0, h)))
        ⊎ ((i : ℕ) × (h' : Heap) × (first_fit (request size) cs ≡ some i)
            × (kmalloc h size ≡ some (address h.heap_start cs i + 20, h'))
            × IsHeap h' (change_at (take (request size)) i cs)
            × (h'.heap_start ≡ h.heap_start)
            × ((chunk_at cs i).free ≡ true)
            × ((chunk_at (change_at (take (request size)) i cs) i).free ≡ false)
            × (size ≤ (chunk_at (change_at (take (request size)) i cs) i).bytes))
  unfolding finish
  kmalloc_refines size given small = elim (Option-cases (first_fit (request size) cs)) [
    | inl full ↦ inl (full, kmalloc-search size given ∙ simp full refl)
    | inr (i, found) ↦
        let (inside, free, room) = first_fit-fits (request size) i cs found in
        let (busy, large) = take-chunk (request size) i cs inside room in
        inr (
          i,
          take_block h (address h.heap_start cs i) (request size),
          found,
          kmalloc-search size given ∙ simp found refl,
          take_block-IsHeap (request size) i found (ground arith),
          start-take_block (address h.heap_start cs i) (request size),
          free,
          busy,
          ground arith,
        )
  ]
