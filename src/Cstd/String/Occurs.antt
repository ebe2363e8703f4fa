-- ===== src/Cstd/String/Occurs.antt =====
-- `strstr` of string.c against the first occurrence in a list.
use nexa_kernel.Base.{
  ℕ, zero, suc, ◌+◌, ◌<◌, ◌≡◌, refl, sym, ap, ◌∙◌, Bool, true, false, ◌&&◌, Option, none, some,
  List, [], ◌∷◌, arith, length, get_elem?, ◌==◌, ==_iff, ==_of_ne, if◌then◌else◌, Bool-cases, inl,
  inr, ℕ_discrete,
}
use nexa_kernel.Cstd.String.{match_from, search_from, strstr}
use nexa_kernel.Cstd.String.Text.{IsText, IsText-inside}

unfoldable pub is_prefix : List ℕ → List ℕ → Bool
is_prefix [] ys = true
is_prefix (x ∷ xs) [] = false
is_prefix (x ∷ xs) (y ∷ ys) = x == y && is_prefix xs ys

-- Where the first list occurs first in the second.
unfoldable pub occurs : List ℕ → List ℕ → Option ℕ
unfolding is_prefix
occurs xs [] = if is_prefix xs [] then some 0 else none
occurs xs (y ∷ ys) = elim (is_prefix xs (y ∷ ys)) [
  | true ↦ some 0
  | false ↦ elim (occurs xs ys) [ none ↦ none | some k ↦ some (suc k) ]
]

match_from_lem :
    (fuel : ℕ) (m : List ℕ) (h n : ℕ) (hs ns : List ℕ)
    → length hs < fuel
    → IsText m h hs
    → IsText m n ns
    → match_from fuel m h n ≡ some (is_prefix ns hs)
unfolding match_from is_prefix
match_from_lem zero m h n hs ns lt t u = absurd (omega arith)
match_from_lem (suc fuel) m h n [] [] lt t u =
    let end : get_elem? m h ≡ some 0 = t in
    let end' : get_elem? m n ≡ some 0 = u in simp (end, end', match_from) refl
match_from_lem (suc fuel) m h n [] (y ∷ ns) lt t u =
    let end : get_elem? m h ≡ some 0 = t in simp (end, u.0, ==_of_ne y 0 u.1, match_from) refl
match_from_lem (suc fuel) m h n (x ∷ hs) [] lt t u =
    let end' : get_elem? m n ≡ some 0 = u in simp (t.0, end', ==_of_ne x 0 t.1, match_from) refl
match_from_lem (suc fuel) m h n (x ∷ hs) (y ∷ ns) lt t u = elim (ℕ_discrete x y) [
  | yes same ↦
      simp
        (
          t.0,
          u.0,
          ==_of_ne x 0 t.1,
          ==_of_ne y 0 u.1,
          (==_iff x y).1 same,
          (==_iff y x).1 (sym same),
          match_from,
        )
        (match_from_lem fuel m (suc h) (suc n) hs ns (omega arith) t.2 u.2)
  | no other ↦
      simp
        (
          t.0,
          u.0,
          ==_of_ne x 0 t.1,
          ==_of_ne y 0 u.1,
          ==_of_ne x y other,
          ==_of_ne y x (λ e. other (sym e)),
          match_from,
        )
        refl
]

abbrev pub found_at : ℕ → Option ℕ → Option ℕ
found_at h none = none
found_at h (some k) = some (h + k)

moved :
    (h : ℕ) (o : Option ℕ)
    → found_at (suc h) o ≡ found_at h (elim o [ none ↦ none | some k ↦ some (suc k) ])
moved h none = refl
moved h (some k) = ap some (omega arith)

occurs_none : (ys : List ℕ) → occurs [] ys ≡ some 0
unfolding occurs
occurs_none [] = refl
occurs_none (y ∷ ys) = refl

search_from_lem :
    (fuel : ℕ) (m : List ℕ) (h n y : ℕ) (hs ns : List ℕ)
    → length hs < fuel
    → IsText m h hs
    → IsText m n (y ∷ ns)
    → search_from fuel m h n ≡ some (found_at h (occurs (y ∷ ns) hs))
unfolding search_from occurs
search_from_lem zero m h n y hs ns lt t u = absurd (omega arith)
search_from_lem (suc fuel) m h n y [] ns lt t u =
    let end : get_elem? m h ≡ some 0 = t in simp (end, search_from) refl
search_from_lem (suc fuel) m h n y (x ∷ hs) ns lt t u =
    let matched =
      match_from_lem (suc (length m)) m h n (x ∷ hs) (y ∷ ns)
        (omega (arith, IsText-inside m h (x ∷ hs) t)) t u in
    let rest = search_from_lem fuel m (suc h) n y hs ns (omega arith) t.2 u in
    elim (Bool-cases (is_prefix (y ∷ ns) (x ∷ hs))) [
      | inl here ↦
          simp (t.0, ==_of_ne x 0 t.1, matched, here, search_from, occurs)
            (ap (λ p. some (some p)) (omega arith))
      | inr not_here ↦
          simp (t.0, ==_of_ne x 0 t.1, matched, not_here, search_from, occurs)
            (rest ∙ ap some (moved h (occurs (y ∷ ns) hs)))
    ]

-- For a haystack and a needle in memory `strstr` comes back: with the place where the needle occurs
-- first, or with null if it does not occur.
pub strstr_lem :
    (m : List ℕ) (h n : ℕ) (hs ns : List ℕ)
    → IsText m h hs
    → IsText m n ns
    → strstr m h n ≡ some (found_at h (occurs ns hs))
unfolding strstr
strstr_lem m h n hs [] t u =
    let end : get_elem? m n ≡ some 0 = u in
    simp (end, occurs_none hs, strstr) (ap (λ p. some (some p)) (omega arith))
strstr_lem m h n hs (y ∷ ns) t u =
    simp (u.0, ==_of_ne y 0 u.1, strstr)
      (search_from_lem (suc (length m)) m h n y hs ns (omega (arith, IsText-inside m h hs t)) t u)
