-- ===== src/Memory/HeapAllocator/Releases.antt =====
-- What a release does to a row of chunks.
use nexa_kernel.Base.{
  ℕ, zero, suc, ◌+◌, ◌≤◌, ◌<◌, ◌≡◌, refl, ap, sym, ◌∙◌, true, false, List, [], ◌∷◌, arith, length,
  leb, leb→lt, Bool-cases, if◌then◌else◌, inl, inr, subst,
}
use nexa_kernel.Memory.HeapAllocator.Chunks.{
  Chunk, Change, chunk_at, change_at, cut, mark, join, take, drop, release, used, AllFilled,
  no_more, one_more, starts_free, apart,
}
use nexa_kernel.Memory.HeapAllocator.Rows.{length-change}

release-suc :
    (i : ℕ) (c : Chunk) (cs : List Chunk) → release (suc (suc i)) (c ∷ cs) ≡ c ∷ release (suc i) cs
unfolding release
release-suc i c cs = elim (Bool-cases (chunk_at (change_at drop (suc i) cs) i).free) [
  | inl e ↦ simp e refl
  | inr e ↦ simp e refl
]

drop-tail :
    (d : Chunk) (cs : List Chunk)
    → apart cs ≡ true
    → (starts_free (drop d cs).1 ≡ false) × (apart (drop d cs).1 ≡ true)
unfolding drop mark join apart
drop-tail d [] e = (refl, refl)
drop-tail d (c ∷ cs) e = ground arith

drop-apart :
    (d : Chunk) (cs : List Chunk) → apart cs ≡ true → apart ((drop d cs).0 ∷ (drop d cs).1) ≡ true
unfolding apart
drop-apart d cs e = ground (arith, drop-tail d cs e)

drop-used :
    (d : Chunk) (cs : List Chunk)
    → d.free ≡ false
    → used ((drop d cs).0 ∷ (drop d cs).1) + d.bytes ≡ used (d ∷ cs)
unfolding used drop mark join
drop-used d [] busy = ground arith
drop-used d (c ∷ cs) busy = ground arith

release-one :
    (c d : Chunk) (cs : List Chunk)
    → release 1 (c ∷ d ∷ cs) ≡ (
        if c.free
        then record c { bytes = c.bytes + 20 + (drop d cs).0.bytes } ∷ (drop d cs).1
        else c ∷ (drop d cs).0 ∷ (drop d cs).1)
unfolding release join drop mark
release-one c d [] = refl
release-one c d (e ∷ es) = ground arith

starts_free-release : (i : ℕ) (cs : List Chunk) → starts_free (release (suc i) cs) ≡ starts_free cs
unfolding release join
starts_free-release i [] = ground arith
starts_free-release zero (c ∷ []) = ground arith
starts_free-release zero (c ∷ d ∷ cs) = ground (arith, release-one c d cs)
starts_free-release (suc i) (c ∷ cs) = ap starts_free (release-suc i c cs)

pub release-apart :
    (i : ℕ) (cs : List Chunk) → i < length cs → apart cs ≡ true → apart (release i cs) ≡ true
unfolding apart release drop
release-apart i [] inside e = absurd (omega arith)
release-apart zero (c ∷ cs) inside e = drop-apart c cs (ground arith)
release-apart (suc zero) (c ∷ []) inside e = absurd (omega arith)
release-apart (suc zero) (c ∷ d ∷ cs) inside e =
    subst (λ r. apart r ≡ true) (sym (release-one c d cs))
      (ground (arith, drop-tail d cs, drop-apart d cs))
release-apart (suc (suc i)) (c ∷ cs) inside e =
    subst (λ r. apart r ≡ true) (sym (release-suc i c cs))
      (ground (arith, release-apart (suc i) cs, starts_free-release i cs))

pub release-used :
    (i : ℕ) (cs : List Chunk)
    → i < length cs
    → (chunk_at cs i).free ≡ false
    → used (release i cs) + (chunk_at cs i).bytes ≡ used cs
unfolding used release drop
release-used i [] inside busy = absurd (omega arith)
release-used zero (c ∷ cs) inside busy = drop-used c cs busy
release-used (suc zero) (c ∷ []) inside busy = absurd (omega arith)
release-used (suc zero) (c ∷ d ∷ cs) inside busy =
    subst (λ r. used r + d.bytes ≡ used (c ∷ d ∷ cs)) (sym (release-one c d cs))
      (ground (arith, drop-used d cs busy))
release-used (suc (suc i)) (c ∷ cs) inside busy =
    subst (λ r. used r + (chunk_at (c ∷ cs) (suc (suc i))).bytes ≡ used (c ∷ cs))
      (sym (release-suc i c cs)) (omega (arith, release-used (suc i) cs (omega arith) busy))

AllFilled-change :
    (f : Change)
    → ((c : Chunk) (cs : List Chunk)
        → 0 < c.bytes
        → AllFilled cs
        → AllFilled ((f c cs).0 ∷ (f c cs).1))
    → (i : ℕ) (cs : List Chunk) → AllFilled cs
    → AllFilled (change_at f i cs)
AllFilled-change f g i _ no_more = no_more
AllFilled-change f g zero _ (one_more {c} {cs} big v) = g c cs big v
AllFilled-change f g (suc i) _ (one_more {c} {cs} big v) =
    one_more big (AllFilled-change f g i cs v)

join-AllFilled :
    (c : Chunk) (cs : List Chunk)
    → 0 < c.bytes
    → AllFilled cs
    → AllFilled ((join c cs).0 ∷ (join c cs).1)
unfolding join
join-AllFilled c _ big no_more = one_more big no_more
join-AllFilled c _ big (one_more {c = d} {cs = ds} more v) = elim (Bool-cases d.free) [
  | inl free ↦ simp free (one_more (omega arith) v)
  | inr busy ↦ simp busy (one_more big (one_more more v))
]

drop-AllFilled :
    (c : Chunk) (cs : List Chunk)
    → 0 < c.bytes
    → AllFilled cs
    → AllFilled ((drop c cs).0 ∷ (drop c cs).1)
unfolding drop mark
drop-AllFilled c cs big v = join-AllFilled (record c { free = true }) cs big v

pub release-AllFilled : (i : ℕ) (cs : List Chunk) → AllFilled cs → AllFilled (release i cs)
unfolding release
release-AllFilled zero cs v = AllFilled-change drop drop-AllFilled 0 cs v
release-AllFilled (suc i) cs v =
    let v' = AllFilled-change drop drop-AllFilled (suc i) cs v in
    elim (Bool-cases (chunk_at (change_at drop (suc i) cs) i).free) [
      | inl e ↦ simp e (AllFilled-change join join-AllFilled i (change_at drop (suc i) cs) v')
      | inr e ↦ simp e v'
    ]

pub length-release : (i : ℕ) (cs : List Chunk) → 0 < length cs → 0 < length (release i cs)
unfolding release
length-release zero cs lt = length-change drop 0 cs lt
length-release (suc i) cs lt =
    let lt' = length-change drop (suc i) cs lt in
    elim (Bool-cases (chunk_at (change_at drop (suc i) cs) i).free) [
      | inl e ↦ simp e (length-change join i (change_at drop (suc i) cs) lt')
      | inr e ↦ simp e lt'
    ]

same_chunk : (c d : Chunk) → c.bytes ≡ d.bytes → c.free ≡ d.free → c ≡ d
same_chunk c d e e' = cc

drop-take :
    (need : ℕ) (c : Chunk) (cs : List Chunk)
    → c.free ≡ true
    → need ≤ c.bytes
    → starts_free cs ≡ false
    → (drop (take need c cs).0 (take need c cs).1).0
        ∷ (drop (take need c cs).0 (take need c cs).1).1
      ≡ c ∷ cs
unfolding drop take cut mark join
drop-take need c [] free room busy = elim (Bool-cases (leb c.bytes (need + 36))) [
  | inl e ↦ simp e (ap (λ x. x ∷ []) (same_chunk _ c refl (sym free)))
  | inr e ↦
      simp e
        (ap (λ x. x ∷ []) (same_chunk _ c (omega (arith, leb→lt c.bytes (need + 36) e)) (sym free)))
]
drop-take need c (d ∷ ds) free room busy = elim (Bool-cases (leb c.bytes (need + 36))) [
  | inl e ↦ simp (e, busy) (ap (λ x. x ∷ d ∷ ds) (same_chunk _ c refl (sym free)))
  | inr e ↦ simp e (
      ap (λ x. x ∷ d ∷ ds)
        (same_chunk _ c (omega (arith, leb→lt c.bytes (need + 36) e)) (sym free)))
]

-- Taking a chunk and giving it back leaves the row as it was.
pub release-take :
    (need i : ℕ) (cs : List Chunk)
    → (chunk_at cs i).free ≡ true
    → need ≤ (chunk_at cs i).bytes
    → apart cs ≡ true
    → release i (change_at (take need) i cs) ≡ cs
unfolding apart release
release-take need zero [] free room e = refl
release-take need (suc i) [] free room e = cc
release-take need zero (c ∷ cs) free room e = drop-take need c cs free room (ground arith)
release-take need (suc zero) (c ∷ []) free room e = cc
release-take need (suc zero) (c ∷ d ∷ cs) free room e =
    let busy : c.free ≡ false = ground arith in
    release-one c (take need d cs).0 (take need d cs).1
    ∙ simp busy (ap (λ r. c ∷ r) (drop-take need d cs free room (ground arith)))
release-take need (suc (suc i)) (c ∷ cs) free room e =
    release-suc i c (change_at (take need) (suc i) cs)
    ∙ ap (λ r. c ∷ r) (release-take need (suc i) cs free room (ground arith))
