-- ===== src/Cstd/String/Copy.antt =====
-- `strcpy` and `strcat` of string.c.
use nexa_kernel.Base.{
  ℕ, zero, suc, ◌+◌, ◌<◌, ◌≡◌, refl, ◌∙◌, some, List, [], ◌∷◌, arith, length, length-set, get_elem?,
  set, lt→ltb, ==_of_ne, ◌⊎◌, inl,
}
use nexa_kernel.Cstd.String.{write, copy_from, strcpy}
use nexa_kernel.Cstd.String.Text.{
  IsText, get_elem?-set_self, get_elem?-set_ne, IsText-inside, IsText-kept,
}

-- The string and its 0 stand at `dst` then, and no other byte has changed.
abbrev IsCopied : List ℕ → List ℕ → ℕ → List ℕ → Type 0
IsCopied m m' dst cs =
    IsText m' dst cs
    × (length m' ≡ length m)
    × ((a : ℕ) → (a < dst) ⊎ (dst + length cs < a) → get_elem? m' a ≡ get_elem? m a)

write_lem : (m : List ℕ) (p c : ℕ) → p < length m → write m p c ≡ some (set m p c)
write_lem m p c lt = simp (lt→ltb p (length m) lt) refl

copy_from_lem :
    (fuel : ℕ) (m : List ℕ) (dst src : ℕ) (cs : List ℕ)
    → length cs < fuel
    → IsText m src cs
    → dst + length cs < length m
    → (dst + length cs < src) ⊎ (src + length cs < dst)
    → (m' : List ℕ) × (copy_from fuel m dst src ≡ some m') × IsCopied m m' dst cs
unfolding copy_from
copy_from_lem zero m dst src cs lt t room far = absurd (omega arith)
copy_from_lem (suc fuel) m dst src [] lt t room far =
    let end : get_elem? m src ≡ some 0 = t in
    (
      set m dst 0,
      simp (end, write_lem m dst 0 (omega arith), copy_from) refl,
      (
        get_elem?-set_self m dst 0 (omega arith),
        length-set m dst 0,
        λ a out. get_elem?-set_ne m dst a 0 (omega (arith, out)),
      ),
    )
copy_from_lem (suc fuel) m dst src (c ∷ cs) lt t room far =
    let m1 : List ℕ = set m dst c in
    let kept : IsText m1 (suc src) cs =
      IsText-kept m m1 (suc src) cs (λ a le ge. get_elem?-set_ne m dst a c (omega (arith, far)))
        t.2 in
    let (m', done, (text, same, others)) =
      copy_from_lem fuel m1 (suc dst) (suc src) cs (omega arith) kept
        (omega (arith, length-set m dst c)) (ground (arith, far)) in
    (
      m',
      simp (t.0, write_lem m dst c (omega arith), ==_of_ne c 0 t.1, copy_from) done,
      (
        (others dst (inl (omega arith)) ∙ get_elem?-set_self m dst c (omega arith), t.1, text),
        same ∙ length-set m dst c,
        λ a out. others a (ground (arith, out)) ∙ get_elem?-set_ne m dst a c (omega (arith, out)),
      ),
    )

-- A string whose copy fits in the memory and does not overlap it is copied: `strcpy` comes back, the
-- string stands at `dst`, and no other byte has changed.
pub strcpy_lem :
    (m : List ℕ) (dst src : ℕ) (cs : List ℕ)
    → IsText m src cs
    → dst + length cs < length m
    → (dst + length cs < src) ⊎ (src + length cs < dst)
    → (m' : List ℕ) × (strcpy m dst src ≡ some m')
      × IsText m' dst cs
      × (length m' ≡ length m)
      × ((a : ℕ) → (a < dst) ⊎ (dst + length cs < a) → get_elem? m' a ≡ get_elem? m a)
unfolding strcpy
strcpy_lem m dst src cs t room far =
    let (m', done, (text, same, others)) =
      copy_from_lem (suc (length m)) m dst src cs (omega (arith, IsText-inside m src cs t)) t room
        far in
    (m', done, text, same, others)
