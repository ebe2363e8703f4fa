-- ===== src/Scheduler/PriorityQueue/Sift.antt =====
-- The two loops of priority_queue.c that restore the order of the heap.
use nexa_kernel.Base.{ℕ, zero, suc, ◌≤◌, ◌<◌, ◌≡◌, ◌≢◌, ap, ◌∙◌, arith, ℕ_discrete}
use nexa_kernel.Scheduler.PriorityQueue.{parent}

-- Over the ranks `k` of the entries: the order of a heap of `size` entries.
abbrev pub IsOrdered : ℕ → (ℕ → ℕ) → Type 0
IsOrdered size k = (i : ℕ) → 0 < i → i < size → k (parent i) ≤ k i

-- The same but for the entry at `index`, which may precede its parent; its children do not.
pub record IsLow (size index : ℕ) (k : ℕ → ℕ) : Type 0 where
  pub others : (i : ℕ) → 0 < i → i < size → i ≢ index → k (parent i) ≤ k i
  pub around : (i : ℕ) → 0 < i → i < size → parent i ≡ index → 0 < index → k (parent index) ≤ k i

-- The same but for the entry at `index`, which its children may precede; they do not precede its
-- parent.
pub record IsHigh (size index : ℕ) (k : ℕ → ℕ) : Type 0 where
  pub others : (i : ℕ) → 0 < i → i < size → parent i ≢ index → k (parent i) ≤ k i
  pub around : (i : ℕ) → 0 < i → i < size → parent i ≡ index → 0 < index → k (parent index) ≤ k i

-- The ranks after the entries at `i` and `j` have changed places.
pub record IsSwapped (i j : ℕ) (k k' : ℕ → ℕ) : Type 0 where
  pub first : k' i ≡ k j
  pub second : k' j ≡ k i
  pub rest : (m : ℕ) → m ≢ i → m ≢ j → k' m ≡ k m

module _ (size index : ℕ) (k k' : ℕ → ℕ) where
  pub IsLow-swap :
      0 < index
      → k index < k (parent index)
      → IsSwapped index (parent index) k k'
      → IsLow size index k
      → IsLow size (parent index) k'
  IsLow-swap pos lt s inv = record {
    others = λ i h h' ne. elim (ℕ_discrete i index) [
      | yes e ↦ omega (arith, ap (λ x. k' (parent x)) e, ap k' e, s.first, s.second, lt)
      | no off ↦ elim (ℕ_discrete (parent i) (parent index)) [
        | yes e ↦
            omega (arith, ap k' e, ap k e, s.second, s.rest i off ne, inv.others i h h' off, lt)
        | no apart ↦ elim (ℕ_discrete (parent i) index) [
          | yes e ↦ omega (arith, ap k' e, s.first, s.rest i off ne, inv.around i h h' e pos)
          | no away ↦
              omega (arith, s.rest (parent i) away apart, s.rest i off ne, inv.others i h h' off)
        ]
      ]
    ];
    around = λ i h h' e high. elim (ℕ_discrete i index) [
      | yes same ↦ omega (
        arith,
        ap k' same,
        s.first,
        s.rest (parent (parent index)) (λ x. absurd (omega arith)) (λ x. absurd (omega arith)),
        inv.others (parent index) high (omega arith) (λ x. absurd (omega arith)),
      )
      | no off ↦ omega (
        arith,
        s.rest (parent (parent index)) (λ x. absurd (omega arith)) (λ x. absurd (omega arith)),
        s.rest i off (λ x. absurd (omega arith)),
        inv.others i h h' off,
        ap k e,
        inv.others (parent index) high (omega arith) (λ x. absurd (omega arith)),
      )
    ];
  }

  -- `child` is the least of the entry at `index` and its children.
  pub IsHigh-swap :
      (child : ℕ)
      → 0 < child
      → child < size
      → parent child ≡ index
      → k child < k index
      → ((i : ℕ) → 0 < i → i < size → parent i ≡ index → k child ≤ k i)
      → IsSwapped index child k k'
      → IsHigh size index k
      → IsHigh size child k'
  IsHigh-swap child pos inside below lt least s inv = record {
    others = λ i h h' ne. elim (ℕ_discrete (parent i) index) [
      | yes e ↦ elim (ℕ_discrete i child) [
        | yes same ↦ omega (arith, ap k' e, ap k' same, s.first, s.second, lt)
        | no off ↦
            omega
              (arith, ap k' e, s.first, s.rest i (λ x. absurd (omega arith)) off, least i h h' e)
      ]
      | no apart ↦ elim (ℕ_discrete i index) [
        | yes e ↦ omega (
          arith,
          ap k' e,
          ap (λ x. k' (parent x)) e,
          ap (λ x. k (parent x)) e,
          s.first,
          s.rest (parent i) apart ne,
          inv.around child pos inside below (omega arith),
        )
        | no off ↦ elim (ℕ_discrete i child) [
          | yes same ↦ absurd (apart (ap parent same ∙ below))
          | no away ↦
              omega (arith, s.rest (parent i) apart ne, s.rest i off away, inv.others i h h' apart)
        ]
      ]
    ];
    around = λ i h h' e high. omega (
      arith,
      ap k' below,
      s.first,
      ap k e,
      s.rest i (λ x. absurd (omega arith)) (λ x. absurd (omega arith)),
      inv.others i h h' (λ x. absurd (omega arith)),
    );
  }

  pub IsHigh-stop :
      ((i : ℕ) → 0 < i → i < size → parent i ≡ index → k index ≤ k i)
      → IsHigh size index k
      → IsOrdered size k
  IsHigh-stop least inv i h h' = elim (ℕ_discrete (parent i) index) [
    | yes e ↦ omega (arith, ap k e, least i h h' e)
    | no apart ↦ inv.others i h h' apart
  ]

  pub IsLow-stop : (0 < index → k (parent index) ≤ k index) → IsLow size index k → IsOrdered size k
  IsLow-stop le inv i h h' = elim (ℕ_discrete i index) [
    | yes e ↦ omega (arith, ap k e, ap (λ x. k (parent x)) e, le (omega arith))
    | no off ↦ inv.others i h h' off
  ]

-- In an ordered heap no entry precedes the root.
pub root_least : (size : ℕ) (k : ℕ → ℕ) → IsOrdered size k → (i : ℕ) → i < size → k 0 ≤ k i
root_least size k ordered i h = from_root i i h (omega arith)
  where
    none_left : (j : ℕ) → j ≤ 0 → j ≡ 0
    none_left j le = omega arith

    from_root : (fuel j : ℕ) → j < size → j ≤ fuel → k 0 ≤ k j
    from_root zero j lt le = omega (arith, ap k (none_left j le))
    from_root (suc fuel) j lt le = elim (ℕ_discrete j 0) [
      | yes e ↦ omega (arith, ap k e)
      | no ne ↦
          omega (
            arith,
            from_root fuel (parent j) (omega arith) (omega arith),
            ordered j (omega arith) lt,
          )
    ]
