-- ===== src/Ring/Shift.antt =====
-- Removing an entry from the middle of a ring buffer: the entries behind it move one place towards
-- the front.
use nexa_kernel.Base.{
  ℕ, suc, ◌≤◌, ◌<◌, ◌≡◌, ◌≢◌, refl, sym, ◌∙◌, List, dec_lt, inl, inr, arith, length, get_or, set,
  length-set, get_or-set_self, get_or-set_ne, Bool-cases, ltb, ltb→lt, ltb→le,
}
use nexa_kernel.Base.Tabulate.{tabulate_ext, erase_at, erase_at-tabulate}
use nexa_kernel.Ring.{slot, slot-lt, slot_ne}
use nexa_kernel.Ring.Contents.{contents}

-- `after` is `before` with the places `p ... n - 1` filled from the places behind them.
pub record Shifted {ℓ} {A : Type ℓ} (d : A) (cap h n : ℕ) (p : ℕ) (before after : List A)
    : Type ℓ where
  pub size : length after ≡ length before
  pub below : (i : ℕ) → i < p → get_or after (slot cap h i) d ≡ get_or before (slot cap h i) d
  pub above :
      (i : ℕ) → p ≤ i → i < n → get_or after (slot cap h i) d ≡ get_or before (slot cap h (suc i)) d

module _ {ℓ} {A : Type ℓ} (d : A) (cap h n : ℕ) (front : h < cap) (fits : n < cap) where
  pub Shifted-done : (cells : List A) → Shifted d cap h n n cells cells
  Shifted-done cells = record {
    size = refl;
    below = λ i p. refl;
    above = λ i p q. absurd (omega arith);
  }

  -- One round of the loop, and then the rest of it.
  pub Shifted-step :
      (p : ℕ) (before after : List A)
      → p < n
      → cap ≤ length before
      → Shifted d cap h n
          (suc p)
          (set before (slot cap h p) (get_or before (slot cap h (suc p)) d))
          after
      → Shifted d cap h n p before after
  Shifted-step p before after lt room s = record {
    size = s.size ∙ length-set before _ _;
    below = λ i q. s.below i (omega arith) ∙ other i (omega arith) (omega arith);
    above = λ i q r. elim (dec_lt p i) [
      | yes m ↦ s.above i m r ∙ other (suc i) (omega arith) (omega arith)
      | no m ↦
          let same : i ≡ p = omega arith in
          rw same (s.below p (omega arith) ∙ get_or-set_self before _ _ d inside)
    ];
  }
    where
      inside : slot cap h p < length before
      inside = omega (arith, slot-lt cap h front p (omega arith))

      other :
          (j : ℕ)
          → j ≢ p
          → j < cap
          → get_or
              (set before (slot cap h p) (get_or before (slot cap h (suc p)) d))
              (slot cap h j)
              d
            ≡ get_or before (slot cap h j) d
      other j ne lj =
          get_or-set_ne before _ _ _ d (slot_ne cap h front p j (omega arith) lj (λ e. ne (sym e)))

module _ {ℓ} {A : Type ℓ} (d : A) (cap h n p : ℕ) (before after : List A) where
  -- So the entry at `p` is gone from the contents.
  pub contents-Shifted :
      p < suc n
      → Shifted d cap h n p before after
      → contents d after cap h n ≡ erase_at p (contents d before cap h (suc n))
  contents-Shifted lt s =
      tabulate_ext n _ _ (λ i q. elim (Bool-cases (ltb i p)) [
        | inl e ↦ rw e (s.below i (ltb→lt i p e))
        | inr e ↦ rw e (s.above i (ltb→le i p e) q)
      ])
      ∙ sym (erase_at-tabulate n p (λ i. get_or before (slot cap h i) d) lt)
