-- ===== src/Memory/HeapAllocator/Free.antt =====
-- `kfree` of heap_allocator.c: what it releases, and that it undoes `kmalloc`.
use nexa_kernel.Base.{
  ℕ, zero, suc, ◌+◌, ◌-◌, ◌^◌, ◌≤◌, ◌<◌, ◌≡◌, ◌≢◌, refl, sym, ap, subst, ◌∙◌, true, false, some,
  List, [], ◌∷◌, arith, length, leb, ltb, ==_of_ne, if◌then◌else◌, Bool-cases, some_inj, inl, inr,
}
use nexa_kernel.Memory.HeapAllocator.{
  Heap, Headers, set_free, coalesce_forward, coalesce_backward, request, kmalloc, release_block,
  kfree,
}
use nexa_kernel.Memory.HeapAllocator.Chunks.{
  Chunk, chunk_at, change_at, take, drop, join, release, used, first_fit-fits,
}
use nexa_kernel.Memory.HeapAllocator.Rows.{used-total}
use nexa_kernel.Memory.HeapAllocator.Releases.{
  release-apart, release-used, release-AllFilled, release-take, length-release,
}
use nexa_kernel.Memory.HeapAllocator.Linked.{
  IsLinked, address, header-at, header-prev, header-first, address_ge, address-inside,
  address-change, total_lem,
}
use nexa_kernel.Memory.HeapAllocator.Local.{IsLinked-change}
use nexa_kernel.Memory.HeapAllocator.Joining.{coalesce-IsLocal, drop-IsLocal}
use nexa_kernel.Memory.HeapAllocator.Refine.{IsHeap, kmalloc_refines}

pub length-at :
    (f : Chunk → List Chunk → Chunk × List Chunk) (i : ℕ) (cs : List Chunk)
    → i < length cs
    → i < length (change_at f i cs)
length-at f i [] inside = absurd (omega arith)
length-at f zero (c ∷ cs) inside = omega arith
length-at f (suc i) (c ∷ cs) inside = omega (arith, length-at f i cs (omega arith))

-- `coalesce_backward` joins the chunk before, if that is free.
module _ (stop : ℕ) (bound : stop ≤ 2 ^ 32) (hs : Headers) (p : ℕ) (cs : List Chunk) (given : p ≢ 0)
    (l : IsLinked hs stop 0 p cs) where
  backward-first : 0 < length cs → coalesce_backward hs (address p cs 0) ≡ hs
  unfolding coalesce_backward
  backward-first inside = simp (header-first hs stop 0 p cs inside l) refl

  module _ (j : ℕ) (inside : suc j < length cs) where
    abbrev before : ℕ
    before = address p cs j

    before_there : before ≢ 0
    before_there = omega (arith, address_ge p j cs)

    backward-used : (chunk_at cs j).free ≡ false → coalesce_backward hs (address p cs (suc j)) ≡ hs
    unfolding coalesce_backward
    backward-used busy =
        let (magic, size, free) = header-at hs stop 0 p j cs (omega arith) l in
        simp (header-prev hs stop 0 p j cs inside l, ==_of_ne before 0 before_there, free, busy)
          refl

    pub backward-free :
        (chunk_at cs j).free ≡ true
        → coalesce_backward hs (address p cs (suc j)) ≡ coalesce_forward hs before
    unfolding coalesce_backward
    backward-free joins =
        let (magic, size, free) = header-at hs stop 0 p j cs (omega arith) l in
        simp
          (
            header-prev hs stop 0 p j cs inside l,
            ==_of_ne before 0 before_there,
            free,
            joins,
            magic,
          )
          refl

    backward-IsLinked :
        IsLinked
          (coalesce_backward hs (address p cs (suc j)))
          stop
          0
          p
          (if (chunk_at cs j).free then change_at join j cs else cs)
    backward-IsLinked = elim (Bool-cases (chunk_at cs j).free) [
      | inl joins ↦
          subst
            (λ m. IsLinked m stop 0 p (if (chunk_at cs j).free then change_at join j cs else cs))
            (sym (backward-free joins))
            (simp joins
              (IsLinked-change stop coalesce_forward join (λ c. c ≡ c) (coalesce-IsLocal stop bound)
                hs 0 p j cs given (omega arith) refl l).0)
      | inr alone ↦
          subst
            (λ m. IsLinked m stop 0 p (if (chunk_at cs j).free then change_at join j cs else cs))
            (sym (backward-used alone)) (simp alone l)
    ]

released-IsLinked :
    (stop : ℕ)
    → stop ≤ 2 ^ 32
    → (hs : Headers) (p i : ℕ) (cs : List Chunk) → p ≢ 0
    → i < length cs
    → IsLinked hs stop 0 p (change_at drop i cs)
    → IsLinked (coalesce_backward hs (address p (change_at drop i cs) i)) stop 0 p (release i cs)
unfolding release
released-IsLinked stop bound hs p zero cs given inside l =
    subst (λ m. IsLinked m stop 0 p (change_at drop 0 cs))
      (sym
        (backward-first stop bound hs p (change_at drop 0 cs) given l (length-at drop 0 cs inside)))
      l
released-IsLinked stop bound hs p (suc i) cs given inside l =
    backward-IsLinked stop bound hs p (change_at drop (suc i) cs) given l i
      (length-at drop (suc i) cs inside)

module _ (h : Heap) (cs : List Chunk) (v : IsHeap h cs) (i : ℕ) (inside : i < length cs) where
  abbrev block : ℕ
  block = address h.heap_start cs i

  abbrev pub dropped : Headers
  dropped = coalesce_forward (set_free h.headers block true) block

  pub dropped-IsLinked : IsLinked dropped h.heap_end 0 h.heap_start (change_at drop i cs)
  dropped-IsLinked =
      (IsLinked-change h.heap_end (λ hs p. coalesce_forward (set_free hs p true) p) drop
        (λ c. c ≡ c) (drop-IsLocal h.heap_end (omega (arith, v.bound))) h.headers 0 h.heap_start i
        cs v.there inside refl v.blocks).0

  blocks_after : IsLinked (coalesce_backward dropped block) h.heap_end 0 h.heap_start (release i cs)
  blocks_after =
      subst (λ b. IsLinked (coalesce_backward dropped b) h.heap_end 0 h.heap_start (release i cs))
        (address-change drop h.heap_start i i cs (omega arith))
        (released-IsLinked h.heap_end (omega (arith, v.bound)) dropped h.heap_start i cs v.there
          inside dropped-IsLinked)

  pub release_block-IsHeap :
      (chunk_at cs i).free ≡ false → IsHeap (release_block h block) (release i cs)
  unfolding release_block
  release_block-IsHeap busy =
      let (magic, size, free) =
        header-at h.headers h.heap_end 0 h.heap_start i cs inside v.blocks in
      record {
        on = v.on;
        starts = v.starts;
        there = v.there;
        ends = v.ends;
        bound = v.bound;
        blocks = blocks_after;
        some_block = length-release i cs v.some_block;
        filled = release-AllFilled i cs v.filled;
        split_up = release-apart i cs inside v.split_up;
        counted = omega (
          arith,
          v.counted,
          size,
          release-used i cs inside busy,
          used-total cs,
          total_lem h.headers h.heap_end 0 h.heap_start cs v.blocks,
          v.bound,
        );
      }

  -- `kfree` passes its checks for the data of a chunk in use.
  pub kfree-release :
      (chunk_at cs i).free ≡ false → kfree h (block + 20) ≡ some (release_block h block)
  unfolding kfree
  kfree-release busy =
      let (magic, size, free) =
        header-at h.headers h.heap_end 0 h.heap_start i cs inside v.blocks in
      let low = address_ge h.heap_start i cs in
      let high = address-inside h.headers h.heap_end 0 h.heap_start i cs inside v.filled v.blocks in
      let above : ltb (block + 20) h.heap_start ≡ false = ground (arith, low) in
      let under : leb h.heap_end (block + 20) ≡ false = ground (arith, high) in
      let here : block + 20 - 20 ≡ block = omega arith in
      simp
        (
          ==_of_ne (block + 20) 0 (omega arith),
          v.on,
          above,
          under,
          here,
          ==_of_ne block 0 (omega (arith, v.there, low)),
          magic,
          free,
          busy,
        )
        refl

  -- The data of a chunk in use can be released: `kfree` comes back, and the heap holds the row in
  -- which the chunk is free and is one with the free chunks next to it.
  pub kfree_refines :
      (chunk_at cs i).free ≡ false
      → (h' : Heap) × (kfree h (address h.heap_start cs i + 20) ≡ some h')
        × IsHeap h' (release i cs)
  kfree_refines busy = (release_block h block, kfree-release busy, release_block-IsHeap busy)

-- What `kmalloc` grants for a request that does not wrap can be given back: `kfree` comes back, and the
-- heap holds the same row of chunks as before, with as many bytes in use.
pub kfree-kmalloc :
    (h h' : Heap) (cs : List Chunk) (size ptr : ℕ)
    → IsHeap h cs
    → size ≢ 0
    → size + 7 < 2 ^ 32
    → kmalloc h size ≡ some (ptr, h')
    → ptr ≢ 0
    → (h'' : Heap) × (kfree h' ptr ≡ some h'')
      × IsHeap h'' cs
      × (h''.bytes_allocated ≡ h.bytes_allocated)
kfree-kmalloc h h' cs size ptr v given small made there =
    elim (kmalloc_refines h cs v size given small) [
      | inl (full, e) ↦ absurd (there (ap (λ r. r.0) (some_inj (ptr, h') (0, h) (sym made ∙ e))))
      | inr (i, h1, found, e, v1, start, free, busy, large) ↦
          let (inside, free', room) = first_fit-fits (request size) i cs found in
          let same = some_inj (ptr, h') (address h.heap_start cs i + 20, h1) (sym made ∙ e) in
          let taken : List Chunk = change_at (take (request size)) i cs in
          let (h2, done, v2) =
            kfree_refines h1 taken v1 i (length-at (take (request size)) i cs inside) busy in
          let back : release i taken ≡ cs = release-take (request size) i cs free room v.split_up in
          let there' : address h1.heap_start taken i ≡ address h.heap_start cs i =
            ap (λ p. address p taken i) start
            ∙ address-change (take (request size)) h.heap_start i i cs (omega arith) in
          (
            h2,
            ap (λ m. kfree m ptr) (ap (λ r. r.1) same)
                ∙ ap (λ p. kfree h1 p) (ap (λ r. r.0) same ∙ ap (λ p. p + 20) (sym there'))
                ∙ done,
            subst (IsHeap h2) back v2,
            v2.counted ∙ ap used back ∙ sym v.counted,
          )
    ]
