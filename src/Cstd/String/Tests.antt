-- ===== src/Cstd/String/Tests.antt =====
-- Runs of string.c, and the theorems at a concrete memory.
use nexa_kernel.Base.{
  ℕ, ◌+◌, ◌<◌, ◌≡◌, refl, none, some, List, [], ◌∷◌, ◌⊎◌, inr, length, get_elem?, arith,
}
use nexa_kernel.Base.Int.{ℤ, pos}
use nexa_kernel.Cstd.String.{
  strlen, strcpy, strncpy, strcmp, strcat, strchr, strrchr, strstr, copy_from,
}
use nexa_kernel.Cstd.String.Text.{IsText, strlen-IsText}
use nexa_kernel.Cstd.String.Copy.{strcpy_lem}
use nexa_kernel.Cstd.String.Compare.{strcmp_lem}
use nexa_kernel.Cstd.String.Occurs.{occurs, strstr_lem}

-- "abc" at 0, "bc" at 4, and six bytes more.
abbrev two_texts : List ℕ
two_texts = 97 ∷ 98 ∷ 99 ∷ 0 ∷ 98 ∷ 99 ∷ 0 ∷ 1 ∷ 1 ∷ 1 ∷ 1 ∷ 1 ∷ 1 ∷ []

abc-IsText : IsText two_texts 0 (97 ∷ 98 ∷ 99 ∷ [])
abc-IsText = (refl, omega arith, (refl, omega arith, (refl, omega arith, refl)))

abbrev bc : List ℕ
bc = 98 ∷ 99 ∷ []

bc-IsText : IsText two_texts 4 (98 ∷ 99 ∷ [])
bc-IsText = (refl, omega arith, (refl, omega arith, refl))

strcat-bcabc :
    strcat two_texts 4 0 ≡ some (97 ∷ 98 ∷ 99 ∷ 0 ∷ 98 ∷ 99 ∷ 97 ∷ 98 ∷ 99 ∷ 0 ∷ 1 ∷ 1 ∷ 1 ∷ [])
unfolding strcat strlen strcpy copy_from
strcat-bcabc = refl

strncpy-short :
    strncpy two_texts 7 4 4 ≡ some (97 ∷ 98 ∷ 99 ∷ 0 ∷ 98 ∷ 99 ∷ 0 ∷ 98 ∷ 99 ∷ 0 ∷ 0 ∷ 1 ∷ 1 ∷ [])
unfolding strncpy
strncpy-short = refl

strchr-last : (strchr two_texts 0 98 ≡ some (some 1)) × (strrchr two_texts 0 120 ≡ some none)
unfolding strchr strrchr
strchr-last = (refl, refl)

strlen-IsText_run : strlen two_texts 4 ≡ some 2
strlen-IsText_run = strlen-IsText two_texts 4 (98 ∷ 99 ∷ []) bc-IsText

strcpy_lem_example :
    (m' : List ℕ) × (strcpy two_texts 8 0 ≡ some m')
    × IsText m' 8 (97 ∷ 98 ∷ 99 ∷ [])
    × (length m' ≡ 13)
    × ((a : ℕ) → (a < 8) ⊎ (8 + 3 < a) → get_elem? m' a ≡ get_elem? two_texts a)
strcpy_lem_example =
    strcpy_lem two_texts 8 0 (97 ∷ 98 ∷ 99 ∷ []) abc-IsText (omega arith) (inr (omega arith))

strcmp_lem_example :
    (r : ℤ) × (strcmp two_texts 1 4 ≡ some r) × (r ≡ pos 0 → bc ≡ bc) × (bc ≡ bc → r ≡ pos 0)
strcmp_lem_example =
    strcmp_lem two_texts 1 4 bc bc (refl, omega arith, (refl, omega arith, refl)) bc-IsText

strstr_lem_example : strstr two_texts 0 4 ≡ some (some 1)
unfolding occurs
strstr_lem_example =
    strstr_lem two_texts 0 4 (97 ∷ 98 ∷ 99 ∷ []) (98 ∷ 99 ∷ []) abc-IsText bc-IsText
