-- ===== src/Memory/HeapAllocator/Rows.antt =====
-- What an allocation and a release do to a row of chunks.
use nexa_kernel.Base.{
  ℕ, zero, suc, ◌+◌, ◌*◌, ◌≤◌, ◌<◌, ◌≡◌, true, false, List, [], ◌∷◌, arith, length, leb, leb→lt,
  Bool-cases, inl, inr,
}
use nexa_kernel.Memory.HeapAllocator.Chunks.{
  Chunk, Change, chunk_at, change_at, cut, mark, take, used, total, AllFilled, no_more, one_more,
  starts_free, apart,
}

pub length-change :
    (f : Change) (i : ℕ) (cs : List Chunk) → 0 < length cs → 0 < length (change_at f i cs)
length-change f i [] lt = lt
length-change f zero (c ∷ cs) lt = omega arith
length-change f (suc i) (c ∷ cs) lt = omega arith

pub length-total : (cs : List Chunk) → 20 * length cs ≤ total cs
unfolding total
length-total [] = omega arith
length-total (c ∷ cs) = omega (arith, length-total cs)

pub used-total : (cs : List Chunk) → used cs ≤ total cs
unfolding used total
used-total [] = omega arith
used-total (c ∷ cs) = ground (arith, used-total cs)

-- What is granted is in use, and large enough.
module _ (need : ℕ) where
  pub take-chunk :
      (i : ℕ) (cs : List Chunk)
      → i < length cs
      → need ≤ (chunk_at cs i).bytes
      → ((chunk_at (change_at (take need) i cs) i).free ≡ false)
        × (need ≤ (chunk_at (change_at (take need) i cs) i).bytes)
  unfolding take cut mark
  take-chunk i [] inside room = absurd (omega arith)
  take-chunk zero (c ∷ cs) inside room = ground arith
  take-chunk (suc i) (c ∷ cs) inside room = take-chunk i cs (omega arith) room

  pub take-AllFilled :
      (i : ℕ) (cs : List Chunk) → 0 < need → AllFilled cs → AllFilled (change_at (take need) i cs)
  unfolding take cut mark
  take-AllFilled i _ lt no_more = no_more
  take-AllFilled zero _ lt (one_more {c} {cs} big v) = elim (Bool-cases (leb c.bytes (need + 36))) [
    | inl e ↦ simp e (one_more big v)
    | inr e ↦ simp e (one_more lt (one_more (omega (arith, leb→lt c.bytes (need + 36) e)) v))
  ]
  take-AllFilled (suc i) _ lt (one_more {c} {cs} big v) = one_more big (take-AllFilled i cs lt v)

  starts_free-take :
      (i : ℕ) (cs : List Chunk)
      → (chunk_at cs i).free ≡ true
      → starts_free (change_at (take need) i cs) ≡ true
      → starts_free cs ≡ true
  unfolding take cut mark
  starts_free-take i [] free e = e
  starts_free-take zero (c ∷ cs) free e = free
  starts_free-take (suc i) (c ∷ cs) free e = e

  pub take-apart :
      (i : ℕ) (cs : List Chunk)
      → (chunk_at cs i).free ≡ true
      → apart cs ≡ true
      → apart (change_at (take need) i cs) ≡ true
  unfolding take cut mark apart
  take-apart i [] free e = e
  take-apart zero (c ∷ cs) free e = ground arith
  take-apart (suc i) (c ∷ cs) free e =
      ground (arith, take-apart i cs free, starts_free-take i cs free)

  pub take-used :
      (i : ℕ) (cs : List Chunk)
      → i < length cs
      → (chunk_at cs i).free ≡ true
      → used (change_at (take need) i cs)
        ≡ used cs + (chunk_at (change_at (take need) i cs) i).bytes
  unfolding take cut mark used
  take-used i [] inside free = absurd (omega arith)
  take-used zero (c ∷ cs) inside free = ground arith
  take-used (suc i) (c ∷ cs) inside free = omega (arith, take-used i cs (omega arith) free)
