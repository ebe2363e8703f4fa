-- ===== src/Memory/HeapAllocator/Joining.antt =====
-- `coalesce_forward` of heap_allocator.c, and the two changes that `kmalloc` and `kfree` make at a
-- block.
use nexa_kernel.Base.{
  ℕ, ◌+◌, ◌^◌, ◌≤◌, ◌<◌, ◌≡◌, ◌≢◌, refl, sym, ap, subst, ◌∙◌, true, false, List, [], ◌∷◌, arith,
  ==_of_ne, Bool-cases, inl, inr, add_word,
}
use nexa_kernel.Memory.HeapAllocator.{
  Header, Headers, put, set_prev, split_block, set_free, coalesce_forward,
}
use nexa_kernel.Memory.HeapAllocator.Chunks.{Chunk, cut, mark, join, take, drop}
use nexa_kernel.Memory.HeapAllocator.Linked.{
  header_of, behind, first_of, IsLinked, put-same, put-other, set_prev-other, IsLinked-kept,
  set_prev-IsLinked, total_lem,
}
use nexa_kernel.Memory.HeapAllocator.Local.{
  IsLocal, first_of-ne, set_free-IsLocal, split_here, split_below,
}

-- A block that is followed by a free one.
module _ (stop : ℕ) (bound : stop ≤ 2 ^ 32) (hs : Headers) (prev p : ℕ) (c d : Chunk)
    (ds : List Chunk) (given : p ≢ 0) (l : IsLinked hs stop prev p (c ∷ d ∷ ds))
    (free : d.free ≡ true) where
  abbrev n : ℕ
  n = behind p c

  abbrev after : ℕ
  after = first_of (behind n d) ds

  abbrev both : Chunk
  both = record c { bytes = c.bytes + 20 + d.bytes }

  abbrev grown : Header → Header
  grown x = record x { size = add_word x.size (add_word 20 d.bytes); next = after }

  abbrev joined : Headers
  joined = put hs p (grown (hs p))

  abbrev linked : Headers
  linked = set_prev joined after p

  abbrev spoilt : Header → Header
  spoilt x = record x { magic = 0 }

  abbrev result : Headers
  result = put linked n (spoilt (linked n))

  small : p + 20 + c.bytes + 20 + d.bytes ≤ stop
  small = omega (arith, total_lem hs stop n (behind n d) ds l.1.1)

  pub coalesce-join : coalesce_forward hs p ≡ result
  unfolding coalesce_forward
  coalesce-join = simp (l.0, l.1.0, ==_of_ne (p + 20 + c.bytes) 0 (omega arith), free) refl

  grown_lem : grown (header_of c prev n) ≡ header_of both prev after
  grown_lem =
      let fits : add_word c.bytes (add_word 20 d.bytes) ≡ c.bytes + 20 + d.bytes =
        omega (arith, small) in
      ap (λ s. with_size (header_of both prev after) s) fits
    where
      with_size : Header → ℕ → Header
      with_size x s = record x { size = s }

  joined_here : IsLinked result stop prev p (both ∷ ds)
  joined_here =
      let joint : behind n d ≡ behind p both = omega arith in
      (
        put-other linked n p _ (omega arith)
            ∙ set_prev-other joined after p p (first_of-ne p (behind n d) ds given (omega arith))
            ∙ put-same hs p _
            ∙ ap grown l.0
            ∙ grown_lem
            ∙ ap (λ r. header_of both prev (first_of r ds)) joint,
        subst (λ r. IsLinked result stop p r ds) joint
            (IsLinked-kept linked result stop p (behind n d) ds
              (λ a le. put-other linked n a _ (omega arith))
              (set_prev-IsLinked joined stop n p (behind n d) ds (omega arith) (
                IsLinked-kept hs joined stop n (behind n d) ds
                  (λ a le. put-other hs p a _ (omega arith)) l.1.1))),
      )

  joined_below : (a : ℕ) → a ≢ 0 → a < p → result a ≡ hs a
  joined_below a ne lt =
      put-other linked n a _ (omega arith)
      ∙ set_prev-other joined after a p (first_of-ne a (behind n d) ds ne (omega arith))
      ∙ put-other hs p a _ (omega arith)

-- A block that is followed by none, or by one in use.
coalesce-none :
    (hs : Headers) (stop prev p : ℕ) (c : Chunk)
    → IsLinked hs stop prev p (c ∷ [])
    → coalesce_forward hs p ≡ hs
unfolding coalesce_forward
coalesce-none hs stop prev p c l = simp (l.0) refl

coalesce-used :
    (hs : Headers) (stop prev p : ℕ) (c d : Chunk) (ds : List Chunk)
    → IsLinked hs stop prev p (c ∷ d ∷ ds)
    → d.free ≡ false
    → coalesce_forward hs p ≡ hs
unfolding coalesce_forward
coalesce-used hs stop prev p c d ds l busy =
    simp (l.0, l.1.0, ==_of_ne (p + 20 + c.bytes) 0 (omega arith), busy) refl

join-used : (c d : Chunk) (ds : List Chunk) → d.free ≡ false → join c (d ∷ ds) ≡ (c, d ∷ ds)
unfolding join
join-used c d ds busy = simp busy refl

module _ (stop : ℕ) (bound : stop ≤ 2 ^ 32) where
  coalesce_here :
      (hs : Headers) (prev p : ℕ) (c : Chunk) (cs : List Chunk)
      → p ≢ 0
      → IsLinked hs stop prev p (c ∷ cs)
      → IsLinked (coalesce_forward hs p) stop prev p ((join c cs).0 ∷ (join c cs).1)
  unfolding join
  coalesce_here hs prev p c [] given l =
      subst (λ m. IsLinked m stop prev p (c ∷ [])) (sym (coalesce-none hs stop prev p c l)) l
  coalesce_here hs prev p c (d ∷ ds) given l = elim (Bool-cases d.free) [
    | inl free ↦
        subst (λ m. IsLinked m stop prev p ((join c (d ∷ ds)).0 ∷ (join c (d ∷ ds)).1))
          (sym (coalesce-join stop bound hs prev p c d ds given l free))
          (simp free (joined_here stop bound hs prev p c d ds given l free))
    | inr busy ↦
        subst (λ m. IsLinked m stop prev p ((join c (d ∷ ds)).0 ∷ (join c (d ∷ ds)).1))
          (sym (coalesce-used hs stop prev p c d ds l busy))
          (subst (λ r. IsLinked hs stop prev p (r.0 ∷ r.1)) (sym (join-used c d ds busy)) l)
  ]

  coalesce_below :
      (hs : Headers) (prev p a : ℕ) (c : Chunk) (cs : List Chunk)
      → p ≢ 0
      → IsLinked hs stop prev p (c ∷ cs)
      → a ≢ 0
      → a < p
      → coalesce_forward hs p a ≡ hs a
  coalesce_below hs prev p a c [] given l ne lt = ap (λ m. m a) (coalesce-none hs stop prev p c l)
  coalesce_below hs prev p a c (d ∷ ds) given l ne lt = elim (Bool-cases d.free) [
    | inl free ↦
        ap (λ m. m a) (coalesce-join stop bound hs prev p c d ds given l free)
        ∙ joined_below stop bound hs prev p c d ds given l free a ne lt
    | inr busy ↦ ap (λ m. m a) (coalesce-used hs stop prev p c d ds l busy)
  ]

  pub coalesce-IsLocal : IsLocal stop coalesce_forward join (λ c. c ≡ c)
  coalesce-IsLocal = record {
    here = λ hs prev p c cs given ok l. coalesce_here hs prev p c cs given l;
    below = λ hs prev p a c cs given ok l ne lt. coalesce_below hs prev p a c cs given l ne lt;
  }

  -- The change that `kfree` makes at its block, but for the block before.
  pub drop-IsLocal :
      IsLocal stop (λ hs p. coalesce_forward (set_free hs p true) p) drop (λ c. c ≡ c)
  unfolding drop mark
  drop-IsLocal =
      let freed = set_free-IsLocal stop true in
      record {
        here = λ hs prev p c cs given ok l.
            coalesce_here (set_free hs p true) prev p (record c { free = true }) cs given
              (freed.here hs prev p c cs given refl l);
        below = λ hs prev p a c cs given ok l ne lt.
            coalesce_below (set_free hs p true) prev p a (record c { free = true }) cs given
              (freed.here hs prev p c cs given refl l) ne lt
            ∙ freed.below hs prev p a c cs given refl l ne lt;
      }

-- The change that `kmalloc` makes at its block.
pub take-IsLocal :
    (stop need : ℕ)
    → stop + 36 ≤ 2 ^ 32
    → IsLocal stop
        (λ hs p. set_free (split_block hs p need) p false)
        (take need)
        (λ c. need ≤ c.bytes)
unfolding take mark
take-IsLocal stop need bound =
    let busy = set_free-IsLocal stop false in
    record {
      here = λ hs prev p c cs given ok l.
          busy.here (split_block hs p need) prev p (cut need c cs).0 (cut need c cs).1 given refl
            (split_here stop bound need hs prev p c cs given ok l);
      below = λ hs prev p a c cs given ok l ne lt.
          busy.below (split_block hs p need) prev p a (cut need c cs).0 (cut need c cs).1 given refl
            (split_here stop bound need hs prev p c cs given ok l) ne lt
          ∙ split_below stop bound need hs prev p c cs given ok l a ne lt;
    }
