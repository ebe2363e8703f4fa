-- ===== src/Ring.antt =====
-- Positions in a ring buffer. Three parts of the kernel keep one: lib/dsa/queue.c,
-- kernel/scheduler/dsa_structures/round_robin_queue.c and kernel/ipc/message_queue.c.
pub mod Contents
pub mod Shift
pub mod Search
use native.Mathlib.Nat.{mod-eq_of_lt, mod-eq-sub-mod, mod-add-mod}
use native.Mathlib.Decide.{dec_lt}
use nexa_kernel.Base.{ℕ, suc, ◌+◌, ◌-◌, ◌%◌, ◌≤◌, ◌<◌, ◌≡◌, ◌≢◌, ◌⊎◌, inl, inr, ap, ◌∙◌, arith}

-- The index of the entry `i` places behind the front `h`.
abbrev pub slot : ℕ → ℕ → ℕ → ℕ
slot cap h i = (h + i) % cap

module _ (cap h : ℕ) (front : h < cap) where
  pub slot_cases :
      (i : ℕ)
      → i ≤ cap
      → ((h + i < cap) × (slot cap h i ≡ h + i)) ⊎ ((cap ≤ h + i) × (slot cap h i + cap ≡ h + i))
  slot_cases i le = elim (dec_lt (h + i) cap) [
    | yes p ↦ inl (p, mod-eq_of_lt p)
    | no p ↦ inr (
      omega arith,
      omega (
        arith,
        mod-eq-sub-mod {n = h + i} {m = cap} (omega arith),
        mod-eq_of_lt {n = h + i - cap} {m = cap} (omega arith),
      ),
    )
  ]

  pub slot-lt : (i : ℕ) → i ≤ cap → slot cap h i < cap
  slot-lt i le = omega (arith, slot_cases i le)

  pub slot_zero : slot cap h 0 ≡ h
  slot_zero = omega (arith, slot_cases 0 (omega arith))

  -- After `cap` places one is back at the front.
  pub slot_full : slot cap h cap ≡ h
  slot_full = omega (arith, slot_cases cap (omega arith))

  -- Fewer places never meet.
  pub slot_ne : (i j : ℕ) → i < cap → j < cap → i ≢ j → slot cap h i ≢ slot cap h j
  slot_ne i j p q ne e = ne (omega (arith, slot_cases i (omega arith), slot_cases j (omega arith)))

  -- A place before the end is not at the end's index, but for the front of a full ring.
  pub slot_ne_end :
      (n p : ℕ) → n < cap → p ≤ n → (0 < p) ⊎ (suc n < cap) → slot cap h p ≢ slot cap h (suc n)
  slot_ne_end n p fits le not_front e =
      omega (arith, not_front, e, slot_cases p (omega arith), slot_cases (suc n) (omega arith))

module _ (cap h : ℕ) where
  pub slot-suc : (i : ℕ) → (slot cap h i + 1) % cap ≡ slot cap h (suc i)
  slot-suc i = mod-add-mod (h + i) cap 1 ∙ ap (λ k. k % cap) (omega arith)

  -- The places behind the next front.
  pub slot_front : (i : ℕ) → slot cap ((h + 1) % cap) i ≡ slot cap h (suc i)
  slot_front i = mod-add-mod (h + 1) cap i ∙ ap (λ k. k % cap) (omega arith)
