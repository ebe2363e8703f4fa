-- ===== src/Cstd/String/Compare.antt =====
-- `strcmp` of string.c.
use nexa_kernel.Base.{
  ℕ, zero, suc, ◌<◌, ◌≡◌, refl, sym, ap, ap₂, Option, some, List, [], ◌∷◌, arith, length, get_elem?,
  ==_iff, ==_of_ne, ℕ_discrete,
}
use nexa_kernel.Base.Int.{ℤ, pos}
use nexa_kernel.Cstd.Memory.{byte_difference}
use nexa_kernel.Cstd.String.{compare_from, strcmp}
use nexa_kernel.Cstd.String.Text.{IsText, IsText-inside}

difference_same : (a : ℕ) → byte_difference a a ≡ pos 0
unfolding byte_difference
difference_same a = ground arith

difference_zero : (a b : ℕ) → byte_difference a b ≡ pos 0 → a ≡ b
unfolding byte_difference
difference_zero a b e = ground arith

-- The answer for the strings `xs` and `ys`: 0 exactly if they are the same.
abbrev Answers : Option ℤ → List ℕ → List ℕ → Type 0
Answers o xs ys = (r : ℤ) × (o ≡ some r) × (r ≡ pos 0 → xs ≡ ys) × (xs ≡ ys → r ≡ pos 0)

head_inj : (x y : ℕ) (xs ys : List ℕ) → x ∷ xs ≡ y ∷ ys → (x ≡ y) × (xs ≡ ys)
head_inj x y xs ys e = (cc, cc)

compare_from_lem :
    (fuel : ℕ) (m : List ℕ) (s1 s2 : ℕ) (xs ys : List ℕ)
    → length xs < fuel
    → IsText m s1 xs
    → IsText m s2 ys
    → Answers (compare_from fuel m s1 s2) xs ys
unfolding compare_from
compare_from_lem zero m s1 s2 xs ys lt t u = absurd (omega arith)
compare_from_lem (suc fuel) m s1 s2 [] [] lt t u =
    let end1 : get_elem? m s1 ≡ some 0 = t in
    let end2 : get_elem? m s2 ≡ some 0 = u in
    (pos 0, simp (end1, end2, compare_from) (ap some (difference_same 0)), λ e. refl, λ e. refl)
compare_from_lem (suc fuel) m s1 s2 [] (y ∷ ys) lt t u =
    let end1 : get_elem? m s1 ≡ some 0 = t in
    (
      byte_difference 0 y,
      simp (end1, u.0, compare_from) refl,
      λ e. absurd (u.1 (sym (difference_zero 0 y e))),
      λ e. cc,
    )
compare_from_lem (suc fuel) m s1 s2 (x ∷ xs) [] lt t u =
    let end2 : get_elem? m s2 ≡ some 0 = u in
    (
      byte_difference x 0,
      simp (t.0, end2, ==_of_ne x 0 t.1, compare_from) refl,
      λ e. absurd (t.1 (difference_zero x 0 e)),
      λ e. cc,
    )
compare_from_lem (suc fuel) m s1 s2 (x ∷ xs) (y ∷ ys) lt t u = elim (ℕ_discrete x y) [
  | yes same ↦
      let (r, done, to, from) =
        compare_from_lem fuel m (suc s1) (suc s2) xs ys (omega arith) t.2 u.2 in
      (
        r,
        simp (t.0, u.0, ==_of_ne x 0 t.1, (==_iff x y).1 same, compare_from) done,
        λ e. ap₂ (λ z zs. z ∷ zs) same (to e),
        λ e. from (head_inj x y xs ys e).1,
      )
  | no other ↦ (
    byte_difference x y,
    simp (t.0, u.0, ==_of_ne x 0 t.1, ==_of_ne x y other, compare_from) refl,
    λ e. absurd (other (difference_zero x y e)),
    λ e. absurd (other (head_inj x y xs ys e).0),
  )
]

-- For two strings in memory `strcmp` comes back, with 0 exactly if they have the same characters.
pub strcmp_lem :
    (m : List ℕ) (s1 s2 : ℕ) (xs ys : List ℕ)
    → IsText m s1 xs
    → IsText m s2 ys
    → (r : ℤ) × (strcmp m s1 s2 ≡ some r) × (r ≡ pos 0 → xs ≡ ys) × (xs ≡ ys → r ≡ pos 0)
unfolding strcmp
strcmp_lem m s1 s2 xs ys t u =
    compare_from_lem (suc (length m)) m s1 s2 xs ys (omega (arith, IsText-inside m s1 xs t)) t u
