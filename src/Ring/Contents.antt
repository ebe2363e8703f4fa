-- ===== src/Ring/Contents.antt =====
-- The entries of a ring buffer, front first, and what a write at the back and a step of the front do
-- to them. A ring is an array `cells` of at least `cap` entries, a front `h` and a count `n`.
use nexa_kernel.Base.{
  ℕ, suc, ◌+◌, ◌%◌, ◌≤◌, ◌<◌, ◌≡◌, sym, ap, ap₂, ◌∙◌, List, [], ◌∷◌, ◌++◌, arith, length, get_or,
  set, get_or-set_self, get_or-set_ne,
}
use nexa_kernel.Base.Tabulate.{tabulate, tabulate_ext, tabulate-append, length-tabulate}
use nexa_kernel.Ring.{slot, slot-lt, slot_ne, slot_zero, slot_front}

-- `d` stands for what lies outside the array.
abbrev pub contents {ℓ} : {A : Type ℓ} → A → List A → ℕ → ℕ → ℕ → List A
contents d cells cap h n = tabulate n (λ i. get_or cells (slot cap h i) d)

module _ {ℓ} {A : Type ℓ} (d : A) (cells : List A) (cap h : ℕ) (front : h < cap) where
  pub length-contents : (n : ℕ) → length (contents d cells cap h n) ≡ n
  length-contents n = length-tabulate n _

  -- A write past the count is not seen.
  pub contents-set_past :
      (n j : ℕ) (x : A)
      → n ≤ j
      → j < cap
      → contents d (set cells (slot cap h j) x) cap h n ≡ contents d cells cap h n
  contents-set_past n j x le lt = tabulate_ext n _ _ λ i p.
      get_or-set_ne cells (slot cap h j) (slot cap h i) x d
        (slot_ne cap h front j i lt (omega arith) (omega arith))

  -- A write at the back appends.
  pub contents-push :
      (n : ℕ) (x : A)
      → cap ≤ length cells
      → n < cap
      → contents d (set cells (slot cap h n) x) cap h (suc n) ≡ contents d cells cap h n ++ (x ∷ [])
  contents-push n x room lt =
      sym (tabulate-append n _)
      ∙ ap₂ (λ xs y. xs ++ (y ∷ [])) (contents-set_past n n x (omega arith) lt)
          (get_or-set_self cells (slot cap h n) x d
            (omega (arith, slot-lt cap h front n (omega arith))))

  -- A step of the front takes the first entry away.
  pub contents-pop :
      (n : ℕ)
      → contents d cells cap h (suc n) ≡ get_or cells h d ∷ contents d cells cap ((h + 1) % cap) n
  contents-pop n =
      ap₂ ◌∷◌ (ap (λ k. get_or cells k d) (slot_zero cap h front))
        (tabulate_ext n _ _ λ i p. ap (λ k. get_or cells k d) (sym (slot_front cap h i)))

  -- Clearing the slot of the front is not seen behind it.
  pub contents-clear :
      (n : ℕ) (x : A)
      → suc n ≤ cap
      → contents d (set cells h x) cap ((h + 1) % cap) n ≡ contents d cells cap ((h + 1) % cap) n
  contents-clear n x le = tabulate_ext n _ _ λ i p.
      get_or-set_ne cells h (slot cap ((h + 1) % cap) i) x d (λ e.
        slot_ne cap h front 0 (suc i) (omega arith) (omega arith) (omega arith)
          (slot_zero cap h front ∙ e ∙ slot_front cap h i))
