-- ===== src/Memory/HeapAllocator/Chunks.antt =====
-- What heap_allocator.c promises, without addresses: a row of chunks, each free or in use, that an
-- allocation takes from, and that a release puts together again.
use nexa_kernel.Base.{
  ℕ, zero, suc, ◌+◌, ◌-◌, ◌≤◌, ◌<◌, ◌≡◌, ap, ◌∙◌, Bool, true, false, not, ◌&&◌, Option, none, some,
  List, [], ◌∷◌, arith, length, leb, if◌then◌else◌, inl, inr, Option-cases,
}

pub record Chunk : Type 0 where
  pub bytes : ℕ
  pub free : Bool

abbrev pub no_chunk : Chunk
no_chunk = record { bytes = 0; free = false }

-- The first free chunk with room for `need` bytes.
unfoldable pub first_fit : ℕ → List Chunk → Option ℕ
first_fit need [] = none
first_fit need (c ∷ cs) = elim (c.free && leb need c.bytes) [
  | true ↦ some 0
  | false ↦ elim (first_fit need cs) [ none ↦ none | some i ↦ some (suc i) ]
]

abbrev pub chunk_at : List Chunk → ℕ → Chunk
chunk_at [] i = no_chunk
chunk_at (c ∷ cs) zero = c
chunk_at (c ∷ cs) (suc i) = chunk_at cs i

-- A change of the row from chunk `i` on.
abbrev pub Change : Type 0
Change = Chunk → List Chunk → Chunk × List Chunk

abbrev pub change_at : Change → ℕ → List Chunk → List Chunk
change_at f i [] = []
change_at f zero (c ∷ cs) = (f c cs).0 ∷ (f c cs).1
change_at f (suc i) (c ∷ cs) = c ∷ change_at f i cs

-- A chunk is cut if more than a header of 20 bytes and 16 bytes would be left over.
unfoldable pub cut : ℕ → Change
cut need c cs =
    if leb c.bytes (need + 36)
    then (c, cs)
    else (record c { bytes = need }, record { bytes = c.bytes - need - 20; free = true } ∷ cs)

unfoldable pub mark : Bool → Change
mark free c cs = (record c { free = free }, cs)

-- A chunk takes in the one behind it, and its header, if that is free.
unfoldable pub join : Change
join c [] = (c, [])
join c (d ∷ cs) = if d.free then (record c { bytes = c.bytes + 20 + d.bytes }, cs) else (c, d ∷ cs)

unfoldable pub take : ℕ → Change
unfolding cut mark
take need c cs = let (c', cs') = cut need c cs in mark false c' cs'

unfoldable pub drop : Change
unfolding join mark
drop c cs = let (c', cs') = mark true c cs in join c' cs'

-- The chunk before takes in what was released, if it is free.
unfoldable pub release : ℕ → List Chunk → List Chunk
unfolding drop
release zero cs = change_at drop 0 cs
release (suc i) cs =
    let cs' : List Chunk = change_at drop (suc i) cs in
    if (chunk_at cs' i).free then change_at join i cs' else cs'

-- The bytes in use.
unfoldable pub used : List Chunk → ℕ
used [] = 0
used (c ∷ cs) = (if c.free then 0 else c.bytes) + used cs

-- All bytes, with a header for each chunk.
unfoldable pub total : List Chunk → ℕ
total [] = 0
total (c ∷ cs) = 20 + c.bytes + total cs

-- No chunk is empty.
pub data AllFilled : List Chunk → Type 0 where
  no_more : AllFilled []
  one_more : {c : Chunk} {cs : List Chunk} → 0 < c.bytes → AllFilled cs → AllFilled (c ∷ cs)

abbrev pub starts_free : List Chunk → Bool
starts_free [] = false
starts_free (c ∷ cs) = c.free

-- Two free chunks never lie next to each other.
unfoldable pub apart : List Chunk → Bool
apart [] = true
apart (c ∷ cs) = not (c.free && starts_free cs) && apart cs

-- The chunk that is found is free and large enough.
pub first_fit-fits :
    (need i : ℕ) (cs : List Chunk)
    → first_fit need cs ≡ some i
    → (i < length cs) × ((chunk_at cs i).free ≡ true) × (need ≤ (chunk_at cs i).bytes)
unfolding first_fit
first_fit-fits need i [] e = cc
first_fit-fits need zero (c ∷ cs) e = ground arith
first_fit-fits need (suc i) (c ∷ cs) e = elim (Option-cases (first_fit need cs)) [
  | inl full ↦ ground (arith, full)
  | inr (j, found) ↦
      let here : j ≡ i = ground (arith, found) in
      let (inside, free, room) = first_fit-fits need i cs (found ∙ ap some here) in
      (omega (arith, inside), free, room)
]
