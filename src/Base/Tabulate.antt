-- ===== src/Base/Tabulate.antt =====
-- The list of the values of a function at 0, 1, ..., n - 1. It is how the abstract contents of an
-- array-based structure are read off, entry by entry.
use nexa_kernel.Base.{
  ℕ, zero, suc, ◌<◌, ◌≡◌, refl, ap, ap₂, ◌∙◌, List, [], ◌∷◌, ◌++◌, arith, length, get_or,
  if◌then◌else◌, ltb,
}

module _ {ℓ} {A : Type ℓ} where
  abbrev pub tabulate : ℕ → (ℕ → A) → List A
  tabulate zero f = []
  tabulate (suc n) f = f 0 ∷ tabulate n (λ i. f (suc i))

  -- The list without its entry at a position.
  abbrev pub erase_at : ℕ → List A → List A
  erase_at p [] = []
  erase_at zero (x ∷ xs) = xs
  erase_at (suc p) (x ∷ xs) = x ∷ erase_at p xs

module _ {ℓ} {A : Type ℓ} where
  pub length-tabulate : (n : ℕ) (f : ℕ → A) → length (tabulate n f) ≡ n
  length-tabulate zero f = refl
  length-tabulate (suc n) f = ap suc (length-tabulate n (λ i. f (suc i)))

  pub tabulate_ext :
      (n : ℕ) (f g : ℕ → A) → ((i : ℕ) → i < n → f i ≡ g i) → tabulate n f ≡ tabulate n g
  tabulate_ext zero f g h = refl
  tabulate_ext (suc n) f g h = λ k.
      h 0 (omega arith) k
      ∷ tabulate_ext n (λ i. f (suc i)) (λ i. g (suc i)) (λ i p. h (suc i) (omega arith)) k

  pub tabulate-append : (n : ℕ) (f : ℕ → A) → tabulate n f ++ (f n ∷ []) ≡ tabulate (suc n) f
  tabulate-append zero f = refl
  tabulate-append (suc n) f = ap (◌∷◌ (f 0)) (tabulate-append n (λ i. f (suc i)))

  pub erase_at-tabulate :
      (n p : ℕ) (f : ℕ → A)
      → p < suc n
      → erase_at p (tabulate (suc n) f) ≡ tabulate n (λ i. if ltb i p then f i else f (suc i))
  erase_at-tabulate n zero f h = tabulate_ext n _ _ (λ i q. ground arith)
  erase_at-tabulate zero (suc p) f h = absurd (omega arith)
  erase_at-tabulate (suc n) (suc p) f h =
      ap₂ ◌∷◌ (ground arith) (erase_at-tabulate n p (λ i. f (suc i)) (omega arith) ∙ shifted)
    where
      shifted :
          tabulate n (λ i. if ltb i p then f (suc i) else f (suc (suc i)))
          ≡ tabulate n (λ i. if ltb (suc i) (suc p) then f (suc i) else f (suc (suc i)))
      shifted = tabulate_ext n _ _ (λ i q. ground arith)

  pub get_or-tabulate : (n i : ℕ) (f : ℕ → A) (d : A) → i < n → get_or (tabulate n f) i d ≡ f i
  get_or-tabulate zero i f d h = absurd (omega arith)
  get_or-tabulate (suc n) zero f d h = refl
  get_or-tabulate (suc n) (suc i) f d h = get_or-tabulate n i (λ j. f (suc j)) d (omega arith)
