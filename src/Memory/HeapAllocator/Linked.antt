-- ===== src/Memory/HeapAllocator/Linked.antt =====
-- The block headers of heap_allocator.c that stand for a row of chunks.
use nexa_kernel.Base.{
  ℕ, zero, suc, ◌+◌, ◌≤◌, ◌<◌, ◌≡◌, ◌≢◌, refl, sym, ap, subst, ◌∙◌, ◌&&◌, List, [], ◌∷◌, arith,
  length, leb, ◌==◌, ==_iff, ==_of_ne, Bool-cases, inl, inr, none, some, Option-cases,
}
use nexa_kernel.Memory.HeapAllocator.{
  Header, Headers, heap_magic, put, set_prev, no_fit, fits, find_fit,
}
use nexa_kernel.Memory.HeapAllocator.Chunks.{
  Chunk, Change, chunk_at, change_at, first_fit, total, AllFilled, no_more, one_more,
}

abbrev pub header_of : Chunk → ℕ → ℕ → Header
header_of c prev next = record {
  magic = heap_magic;
  size = c.bytes;
  is_free = c.free;
  prev = prev;
  next = next;
}

-- The address behind a chunk that starts at `p`.
abbrev pub behind : ℕ → Chunk → ℕ
behind p c = p + 20 + c.bytes

-- The pointer to the first of the chunks.
abbrev pub first_of : ℕ → List Chunk → ℕ
first_of p [] = 0
first_of p (c ∷ cs) = p

-- The chunks lie one behind the other from `p` to `stop`, linked both ways; `prev` is before them.
abbrev pub IsLinked : Headers → ℕ → ℕ → ℕ → List Chunk → Type 0
IsLinked hs stop prev p [] = p ≡ stop
IsLinked hs stop prev p (c ∷ cs) =
    (hs p ≡ header_of c prev (first_of (behind p c) cs)) × IsLinked hs stop p (behind p c) cs

abbrev pub address : ℕ → List Chunk → ℕ → ℕ
address p [] i = p
address p (c ∷ cs) zero = p
address p (c ∷ cs) (suc i) = address (behind p c) cs i

pub put-same : (hs : Headers) (p : ℕ) (x : Header) → put hs p x p ≡ x
unfolding put
put-same hs p x = simp ((==_iff p p).1 refl) refl

pub put-other : (hs : Headers) (p a : ℕ) (x : Header) → a ≢ p → put hs p x a ≡ hs a
unfolding put
put-other hs p a x ne = simp (==_of_ne a p ne) refl

pub set_prev-other : (hs : Headers) (p a prev : ℕ) → a ≢ p → set_prev hs p prev a ≡ hs a
unfolding set_prev
set_prev-other hs p a prev ne = elim (Bool-cases (p == 0)) [
  | inl null ↦ simp null refl
  | inr there ↦ simp there (put-other hs p a _ ne)
]

-- Only the headers from `p` on count.
pub IsLinked-kept :
    (hs hs' : Headers) (stop prev p : ℕ) (cs : List Chunk)
    → ((a : ℕ) → p ≤ a → hs' a ≡ hs a)
    → IsLinked hs stop prev p cs
    → IsLinked hs' stop prev p cs
IsLinked-kept hs hs' stop prev p [] same l = l
IsLinked-kept hs hs' stop prev p (c ∷ cs) same l = (
  same p (omega arith) ∙ l.0,
  IsLinked-kept hs hs' stop p (behind p c) cs (λ a le. same a (omega arith)) l.1,
)

abbrev with_prev : ℕ → Header → Header
with_prev prev x = record x { prev = prev }

set_prev-put :
    (hs : Headers) (p prev : ℕ) → p ≢ 0 → set_prev hs p prev ≡ put hs p (with_prev prev (hs p))
unfolding set_prev
set_prev-put hs p prev given = simp (==_of_ne p 0 given) refl

-- A chunk can be given another chunk before it.
pub set_prev-IsLinked :
    (hs : Headers) (stop prev prev' p : ℕ) (cs : List Chunk)
    → p ≢ 0
    → IsLinked hs stop prev p cs
    → IsLinked (set_prev hs (first_of p cs) prev') stop prev' p cs
set_prev-IsLinked hs stop prev prev' p [] given l = l
set_prev-IsLinked hs stop prev prev' p (c ∷ cs) given l =
    subst (λ m. IsLinked m stop prev' p (c ∷ cs)) (sym (set_prev-put hs p prev' given))
      (
        put-same hs p _ ∙ ap (with_prev prev') l.0,
        IsLinked-kept hs (put hs p (with_prev prev' (hs p))) stop p (behind p c) cs
            (λ a le. put-other hs p a _ (omega arith)) l.1,
      )

pub total_lem :
    (hs : Headers) (stop prev p : ℕ) (cs : List Chunk)
    → IsLinked hs stop prev p cs
    → p + total cs ≡ stop
unfolding total
total_lem hs stop prev p [] l = omega (arith, l)
total_lem hs stop prev p (c ∷ cs) l = omega (arith, total_lem hs stop p (behind p c) cs l.1)

-- The header of a chunk.
pub header-at :
    (hs : Headers) (stop prev p i : ℕ) (cs : List Chunk)
    → i < length cs
    → IsLinked hs stop prev p cs
    → ((hs (address p cs i)).magic ≡ heap_magic)
      × ((hs (address p cs i)).size ≡ (chunk_at cs i).bytes)
      × ((hs (address p cs i)).is_free ≡ (chunk_at cs i).free)
header-at hs stop prev p i [] inside l = absurd (omega arith)
header-at hs stop prev p zero (c ∷ cs) inside l =
    (ap (λ x. Header.magic x) l.0, ap (λ x. Header.size x) l.0, ap (λ x. Header.is_free x) l.0)
header-at hs stop prev p (suc i) (c ∷ cs) inside l =
    header-at hs stop p (behind p c) i cs (omega arith) l.1

-- The chunk before one that is not the first.
pub header-prev :
    (hs : Headers) (stop prev p i : ℕ) (cs : List Chunk)
    → suc i < length cs
    → IsLinked hs stop prev p cs
    → (hs (address p cs (suc i))).prev ≡ address p cs i
header-prev hs stop prev p i [] inside l = absurd (omega arith)
header-prev hs stop prev p i (c ∷ []) inside l = absurd (omega arith)
header-prev hs stop prev p zero (c ∷ d ∷ cs) inside l = ap (λ x. Header.prev x) l.1.0
header-prev hs stop prev p (suc i) (c ∷ d ∷ cs) inside l =
    header-prev hs stop p (behind p c) i (d ∷ cs) (omega arith) l.1

pub header-first :
    (hs : Headers) (stop prev p : ℕ) (cs : List Chunk)
    → 0 < length cs
    → IsLinked hs stop prev p cs
    → (hs (address p cs 0)).prev ≡ prev
header-first hs stop prev p [] inside l = absurd (omega arith)
header-first hs stop prev p (c ∷ cs) inside l = ap (λ x. Header.prev x) l.0

pub address_ge : (p i : ℕ) (cs : List Chunk) → p ≤ address p cs i
address_ge p i [] = omega arith
address_ge p zero (c ∷ cs) = omega arith
address_ge p (suc i) (c ∷ cs) = omega (arith, address_ge (behind p c) i cs)

pub address-change :
    (f : Change) (p i j : ℕ) (cs : List Chunk)
    → j ≤ i
    → address p (change_at f i cs) j ≡ address p cs j
address-change f p i j [] le = refl
address-change f p zero zero (c ∷ cs) le = refl
address-change f p (suc i) zero (c ∷ cs) le = refl
address-change f p zero (suc j) (c ∷ cs) le = absurd (omega arith)
address-change f p (suc i) (suc j) (c ∷ cs) le = address-change f (behind p c) i j cs (omega arith)

pub first_of-change :
    (f : Change) (p i : ℕ) (cs : List Chunk) → first_of p (change_at f i cs) ≡ first_of p cs
first_of-change f p i [] = refl
first_of-change f p zero (c ∷ cs) = refl
first_of-change f p (suc i) (c ∷ cs) = refl

-- The search of `kmalloc` is that for the first chunk that fits, and the fuel is enough.
pub find_fit-linked :
    (fuel : ℕ) (hs : Headers) (stop prev p need : ℕ) (cs : List Chunk)
    → length cs ≤ fuel
    → p ≢ 0
    → IsLinked hs stop prev p cs
    → find_fit fuel hs (first_of p cs) need
      ≡ elim (first_fit need cs) [ none ↦ no_fit | some i ↦ fits (address p cs i) ]
unfolding find_fit first_fit
find_fit-linked zero hs stop prev p need [] le given l = refl
find_fit-linked (suc fuel) hs stop prev p need [] le given l = refl
find_fit-linked zero hs stop prev p need (c ∷ cs) le given l = absurd (omega arith)
find_fit-linked (suc fuel) hs stop prev p need (c ∷ cs) le given l =
    let rest =
      find_fit-linked fuel hs stop p (behind p c) need cs (omega arith) (omega arith) l.1 in
    elim (Bool-cases (c.free && leb need c.bytes)) [
      | inl here ↦ simp (==_of_ne p 0 given, l.0, here, first_fit) refl
      | inr further ↦ elim (Option-cases (first_fit need cs)) [
        | inl full ↦ simp (==_of_ne p 0 given, l.0, further, rest, full, first_fit) refl
        | inr (i, found) ↦ simp (==_of_ne p 0 given, l.0, further, rest, found, first_fit) refl
      ]
    ]

-- A chunk's data lie before the end.
pub address-inside :
    (hs : Headers) (stop prev p i : ℕ) (cs : List Chunk)
    → i < length cs
    → AllFilled cs
    → IsLinked hs stop prev p cs
    → address p cs i + 20 < stop
address-inside hs stop prev p i _ inside no_more l = absurd (omega arith)
address-inside hs stop prev p zero _ inside (one_more {c} {cs} big w) l =
    omega (arith, total_lem hs stop p (behind p c) cs l.1)
address-inside hs stop prev p (suc i) _ inside (one_more {c} {cs} big w) l =
    address-inside hs stop p (behind p c) i cs (omega arith) w l.1
