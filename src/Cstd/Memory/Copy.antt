-- ===== src/Cstd/Memory/Copy.antt =====
-- What the copies of lib/cstd/memory.c leave in memory, overlaps included.
use nexa_kernel.Base.{
  ℕ, zero, suc, ◌+◌, ◌-◌, ◌%◌, ◌≤◌, ◌<◌, ◌≡◌, ◌≢◌, refl, sym, ap, ◌∙◌, ◌⊎◌, inl, inr, false, ◌&&◌,
  none, some, List, arith, length, length-set, get_or, set, get_or-set, ltb, leb, ==_iff,
  if◌then◌else◌, ℕ_discrete, ==_of_ne, dec_lt, lt→ltb,
}
use nexa_kernel.Cstd.Memory.{copy_forward, copy_backward, memcpy, memmove, fill, memset, memchr}

-- The byte at `i` once `n` bytes from `s` on, as they were in `m`, stand at `d` and after.
abbrev pub copied : List ℕ → ℕ → ℕ → ℕ → ℕ → ℕ
copied m d s n i = if leb d i && ltb i (d + n) then get_or m (s + (i - d)) 0 else get_or m i 0

copy_forward_lem :
    (n : ℕ) (m : List ℕ) (d s i : ℕ)
    → d + n ≤ length m
    → (d ≤ s) ⊎ (s + n ≤ d)
    → get_or (copy_forward n m d s) i 0 ≡ copied m d s n i
unfolding copy_forward
copy_forward_lem zero m d s i room apart = ground arith
copy_forward_lem (suc n) m d s i room apart =
    copy_forward_lem n (set m d (get_or m s 0)) (suc d) (suc s) i
      (omega (arith, length-set m d (get_or m s 0))) (shifted apart)
    ∙ ground (
      arith,
      get_or-set m d i (get_or m s 0) 0 (omega arith),
      get_or-set m d (suc s + (i - suc d)) (get_or m s 0) 0 (omega arith),
      later,
      here,
    )
  where
    later : suc d ≤ i → get_or m (suc s + (i - suc d)) 0 ≡ get_or m (s + (i - d)) 0
    later le = ap (λ k. get_or m k 0) (omega arith)

    here : i ≡ d → get_or m (s + (i - d)) 0 ≡ get_or m s 0
    here e = ap (λ k. get_or m k 0) (omega arith)

    shifted : (d ≤ s) ⊎ (s + suc n ≤ d) → (suc d ≤ suc s) ⊎ (suc s + n ≤ suc d)
    shifted (inl le) = inl (omega arith)
    shifted (inr le) = inr (omega arith)

copy_backward_lem :
    (n : ℕ) (m : List ℕ) (d s i : ℕ)
    → d + n ≤ length m
    → s ≤ d
    → get_or (copy_backward n m d s) i 0 ≡ copied m d s n i
unfolding copy_backward
copy_backward_lem zero m d s i room le = ground arith
copy_backward_lem (suc n) m d s i room le =
    copy_backward_lem n (set m (d + n) (get_or m (s + n) 0)) d s i
      (omega (arith, length-set m (d + n) (get_or m (s + n) 0))) le
    ∙ ground (
      arith,
      get_or-set m (d + n) i (get_or m (s + n) 0) 0 (omega arith),
      get_or-set m (d + n) (s + (i - d)) (get_or m (s + n) 0) 0 (omega arith),
      ap (λ k. get_or m (s + k) 0),
    )

-- If the target lies in memory, after `memmove` each byte of it is the byte that stood in the source
-- before, however the two overlap, and no other byte has changed.
pub memmove_lem :
    (m : List ℕ) (dst src n i : ℕ)
    → dst + n ≤ length m
    → get_or (memmove m dst src n) i 0
      ≡ (if leb dst i && ltb i (dst + n) then get_or m (src + (i - dst)) 0 else get_or m i 0)
unfolding memmove
memmove_lem m dst src n i room = elim (dec_lt dst src) [
  | yes lt ↦ rw (lt→ltb dst src lt) (copy_forward_lem n m dst src i room (inl (omega arith)))
  | no ge ↦ rw (not_below (omega arith)) (copy_backward_lem n m dst src i room (omega arith))
]
  where
    not_below : src ≤ dst → ltb dst src ≡ false
    not_below le = ground arith

-- If the target lies in memory, and begins at or before the source or not before its end, `memcpy`
-- leaves at each index the byte that `memmove` does.
pub memcpy_lem :
    (m : List ℕ) (dst src n i : ℕ)
    → dst + n ≤ length m
    → (dst ≤ src) ⊎ (src + n ≤ dst)
    → get_or (memcpy m dst src n) i 0 ≡ get_or (memmove m dst src n) i 0
unfolding memcpy
memcpy_lem m dst src n i room apart =
    copy_forward_lem n m dst src i room apart ∙ sym (memmove_lem m dst src n i room)

fill_lem :
    (n : ℕ) (m : List ℕ) (p byte i : ℕ)
    → p + n ≤ length m
    → get_or (fill n m p byte) i 0 ≡ (if leb p i && ltb i (p + n) then byte else get_or m i 0)
unfolding fill
fill_lem zero m p byte i room = ground arith
fill_lem (suc n) m p byte i room =
    fill_lem n (set m p byte) (suc p) byte i (omega (arith, length-set m p byte))
    ∙ ground (arith, get_or-set m p i byte 0 (omega arith))

-- If the target lies in memory, after `memset` each byte of it is the low byte of the argument, and no
-- other byte has changed.
pub memset_lem :
    (m : List ℕ) (s c n i : ℕ)
    → s + n ≤ length m
    → get_or (memset m s c n) i 0 ≡ (if leb s i && ltb i (s + n) then c % 256 else get_or m i 0)
unfolding memset
memset_lem m s c n i room = fill_lem n m s (c % 256) i room

-- `memchr` yields the first index of the range that holds the byte, and null only if none does.
pub memchr_lem :
    (m : List ℕ) (s c n : ℕ)
    → ((i : ℕ) × (memchr m s c n ≡ some i)
        × (s ≤ i)
        × (i < s + n)
        × (get_or m i 0 ≡ c % 256)
        × ((j : ℕ) → s ≤ j → j < i → get_or m j 0 ≢ c % 256))
      ⊎ ((memchr m s c n ≡ none) × ((j : ℕ) → s ≤ j → j < s + n → get_or m j 0 ≢ c % 256))
unfolding memchr
memchr_lem m s c zero = inr (refl, λ j h h' e. absurd (omega arith))
memchr_lem m s c (suc n) = elim (ℕ_discrete (get_or m s 0) (c % 256)) [
  | yes e ↦ inl (
    s,
    rw ((==_iff (get_or m s 0) (c % 256)).1 e, memchr) refl,
    omega arith,
    omega arith,
    e,
    λ j h h' e'. absurd (omega arith),
  )
  | no ne ↦ elim (memchr_lem m (suc s) c n) [
    | inl (i, found, above, below, hit, first) ↦ inl (
      i,
      rw (==_of_ne (get_or m s 0) (c % 256) ne, memchr) found,
      omega arith,
      omega arith,
      hit,
      λ j h h' e. elim (ℕ_discrete j s) [
        | yes same ↦ ne (sym (ap (λ k. get_or m k 0) same) ∙ e)
        | no off ↦ first j (omega arith) h' e
      ],
    )
    | inr (missing, absent) ↦ inr (
      rw (==_of_ne (get_or m s 0) (c % 256) ne, memchr) missing,
      λ j h h' e. elim (ℕ_discrete j s) [
        | yes same ↦ ne (sym (ap (λ k. get_or m k 0) same) ∙ e)
        | no off ↦ absent j (omega arith) (omega arith) e
      ],
    )
  ]
]
