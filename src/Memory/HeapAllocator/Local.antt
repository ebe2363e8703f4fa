-- ===== src/Memory/HeapAllocator/Local.antt =====
-- The changes that heap_allocator.c makes at one block: cutting, marking and joining.
use nexa_kernel.Base.{
  ℕ, zero, suc, ◌+◌, ◌-◌, ◌^◌, ◌≤◌, ◌<◌, ◌≡◌, ◌≢◌, refl, sym, ap, subst, ◌∙◌, Bool, true, false,
  List, [], ◌∷◌, arith, length, leb, leb→lt, Bool-cases, inl, inr, add_word, sub_word,
}
use nexa_kernel.Memory.HeapAllocator.{
  Header, Headers, put, set_prev, split_block, set_free, split_remainder,
}
use nexa_kernel.Memory.HeapAllocator.Chunks.{Chunk, Change, chunk_at, change_at, cut, mark}
use nexa_kernel.Memory.HeapAllocator.Linked.{
  header_of, behind, first_of, IsLinked, address, put-same, put-other, set_prev-other,
  IsLinked-kept, set_prev-IsLinked, total_lem, first_of-change,
}

-- A change of the headers at a block, and the change of the row that it stands for.
pub record IsLocal (stop : ℕ) (op : Headers → ℕ → Headers) (f : Change) (P : Chunk → Type 0)
    : Type 0 where
  pub here :
      (hs : Headers) (prev p : ℕ) (c : Chunk) (cs : List Chunk)
      → p ≢ 0
      → P c
      → IsLinked hs stop prev p (c ∷ cs)
      → IsLinked (op hs p) stop prev p ((f c cs).0 ∷ (f c cs).1)
  pub below :
      (hs : Headers) (prev p a : ℕ) (c : Chunk) (cs : List Chunk)
      → p ≢ 0
      → P c
      → IsLinked hs stop prev p (c ∷ cs)
      → a ≢ 0
      → a < p
      → op hs p a ≡ hs a

module _ (stop : ℕ) (op : Headers → ℕ → Headers) (f : Change) (P : Chunk → Type 0)
    (v : IsLocal stop op f P) where
  -- The same at any chunk of the row.
  pub IsLinked-change :
      (hs : Headers) (prev p i : ℕ) (cs : List Chunk)
      → p ≢ 0
      → i < length cs
      → P (chunk_at cs i)
      → IsLinked hs stop prev p cs
      → IsLinked (op hs (address p cs i)) stop prev p (change_at f i cs)
        × ((a : ℕ) → a ≢ 0 → a < p → op hs (address p cs i) a ≡ hs a)
  IsLinked-change hs prev p i [] given inside ok l = absurd (omega arith)
  IsLinked-change hs prev p zero (c ∷ cs) given inside ok l =
      (v.here hs prev p c cs given ok l, λ a ne lt. v.below hs prev p a c cs given ok l ne lt)
  IsLinked-change hs prev p (suc i) (c ∷ cs) given inside ok l =
      let (rest, same) =
        IsLinked-change hs p (behind p c) i cs (omega arith) (omega arith) ok l.1 in
      (
        (
          same p given (omega arith)
              ∙ l.0
              ∙ ap (header_of c prev) (sym (first_of-change f (behind p c) i cs)),
          rest,
        ),
        λ a ne lt. same a ne (omega arith),
      )

pub first_of-ne : (a p : ℕ) (cs : List Chunk) → a ≢ 0 → a < p → a ≢ first_of p cs
first_of-ne a p [] given lt e = given e
first_of-ne a p (c ∷ cs) given lt e = absurd (omega arith)

abbrev with_free : Bool → Header → Header
with_free free x = record x { is_free = free }

pub set_free-IsLocal :
    (stop : ℕ) (free : Bool) → IsLocal stop (λ hs p. set_free hs p free) (mark free) (λ c. c ≡ c)
unfolding set_free mark
set_free-IsLocal stop free = record {
  here = λ hs prev p c cs given ok l. (
    put-same hs p _ ∙ ap (with_free free) l.0,
    IsLinked-kept hs (put hs p (with_free free (hs p))) stop p (behind p c) cs
        (λ a le. put-other hs p a _ (omega arith)) l.1,
  );
  below = λ hs prev p a c cs given ok l ne lt. put-other hs p a _ (omega arith);
}

-- `split_block` at a block, and what it writes.
module _ (stop : ℕ) (bound : stop + 36 ≤ 2 ^ 32) (need : ℕ) (hs : Headers) (prev p : ℕ) (c : Chunk)
    (cs : List Chunk) (given : p ≢ 0) (ok : need ≤ c.bytes)
    (l : IsLinked hs stop prev p (c ∷ cs)) where
  abbrev q : ℕ
  q = p + 20 + need

  abbrev after : ℕ
  after = first_of (behind p c) cs

  abbrev rest : Chunk
  rest = record { bytes = c.bytes - need - 20; free = true }

  abbrev made : Headers
  made = put hs q (split_remainder (hs p) p need)

  abbrev linked : Headers
  linked = set_prev made after q

  abbrev cut_header : Header → Header
  cut_header x = record x { size = need; next = q }

  abbrev with_size : Header → ℕ → Header
  with_size x n = record x { size = n }

  small : p + 20 + c.bytes ≤ stop
  small = omega (arith, total_lem hs stop p (behind p c) cs l.1)

  size_at : (hs p).size ≡ c.bytes
  size_at = ap (λ x. Header.size x) l.0

  next_at : (hs p).next ≡ after
  next_at = ap (λ x. Header.next x) l.0

  limit : add_word need 36 ≡ need + 36
  limit = omega (arith, small)

  split_kept : leb c.bytes (need + 36) ≡ true → split_block hs p need ≡ hs
  unfolding split_block
  split_kept e = simp (size_at, limit, e) refl

  split_cut :
      leb c.bytes (need + 36) ≡ false → split_block hs p need ≡ put linked p (cut_header (linked p))
  unfolding split_block
  split_cut e = simp (size_at, next_at, limit, e) refl

  linked_same : (a : ℕ) → a ≢ 0 → a < behind p c → a ≢ q → linked a ≡ hs a
  linked_same a ne lt other =
      set_prev-other made after a q (first_of-ne a (behind p c) cs ne lt) ∙ put-other hs q a _ other

  cut_below :
      leb c.bytes (need + 36) ≡ false → (a : ℕ) → a ≢ 0 → a < p → split_block hs p need a ≡ hs a
  cut_below e a ne lt =
      ap (λ m. m a) (split_cut e)
      ∙ put-other linked p a _ (omega arith)
      ∙ linked_same a ne (omega arith) (omega arith)

  split_remainder-header :
      need + 36 < c.bytes → split_remainder (hs p) p need ≡ header_of rest p after
  split_remainder-header room =
      let left : sub_word (sub_word c.bytes need) 20 ≡ c.bytes - need - 20 = omega (arith, small) in
      ap (λ x. split_remainder x p need) l.0 ∙ ap (with_size (header_of rest p after)) left

  cut_here :
      need + 36 < c.bytes
      → IsLinked
          (put linked p (cut_header (linked p)))
          stop
          prev
          p
          (record c { bytes = need } ∷ rest ∷ cs)
  cut_here room =
      let joint : behind p c ≡ behind q rest = omega arith in
      (
        put-same linked p _ ∙ ap cut_header (linked_same p given (omega arith) (omega arith) ∙ l.0),
        (
          put-other linked p q _ (omega arith)
              ∙ set_prev-other made after q q
                  (first_of-ne q (behind p c) cs (omega arith) (omega arith))
              ∙ put-same hs q _
              ∙ split_remainder-header room
              ∙ ap (λ r. header_of rest p (first_of r cs)) joint,
          subst (λ r. IsLinked (put linked p (cut_header (linked p))) stop q r cs) joint
              (IsLinked-kept linked (put linked p (cut_header (linked p))) stop q (behind p c) cs
                (λ a le. put-other linked p a _ (omega arith))
                (set_prev-IsLinked made stop p q (behind p c) cs (omega arith) (
                  IsLinked-kept hs made stop p (behind p c) cs
                    (λ a le. put-other hs q a _ (omega arith)) l.1))),
        ),
      )

  pub split_here :
      IsLinked (split_block hs p need) stop prev p ((cut need c cs).0 ∷ (cut need c cs).1)
  unfolding cut
  split_here = elim (Bool-cases (leb c.bytes (need + 36))) [
    | inl e ↦
        subst (λ m. IsLinked m stop prev p ((cut need c cs).0 ∷ (cut need c cs).1))
          (sym (split_kept e)) (simp e l)
    | inr e ↦
        subst (λ m. IsLinked m stop prev p ((cut need c cs).0 ∷ (cut need c cs).1))
          (sym (split_cut e)) (simp e (cut_here (leb→lt c.bytes (need + 36) e)))
  ]

  pub split_below : (a : ℕ) → a ≢ 0 → a < p → split_block hs p need a ≡ hs a
  split_below a ne lt = elim (Bool-cases (leb c.bytes (need + 36))) [
    | inl e ↦ ap (λ m. m a) (split_kept e)
    | inr e ↦ cut_below e a ne lt
  ]
