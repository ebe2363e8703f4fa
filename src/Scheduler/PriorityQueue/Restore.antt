-- ===== src/Scheduler/PriorityQueue/Restore.antt =====
-- The repair of the heap that `pq_remove` and `pq_update` of priority_queue.c share.
use nexa_kernel.Base.{
  ℕ, ◌≤◌, ◌<◌, ◌≡◌, ◌≢◌, ap, ◌∙◌, inl, inr, false, List, arith, ltb, ltb→lt, ltb→le, lt→ltb,
  Bool-cases, ℕ_discrete, word_mod,
}
use nexa_kernel.Scheduler.PriorityQueue.{TaskFields, parent, restore}
use nexa_kernel.Scheduler.PriorityQueue.Sift.{IsLow, IsHigh}
use nexa_kernel.Scheduler.PriorityQueue.Heap.{IsFilled, IsHeap, ranks, up_lem, down_lem, compare_lt}

-- The order of a heap but for the entry at `index`, which may precede its parent, or be preceded by
-- its children.
pub record IsBroken (size index : ℕ) (k : ℕ → ℕ) : Type 0 where
  pub others : (i : ℕ) → 0 < i → i < size → i ≢ index → parent i ≢ index → k (parent i) ≤ k i
  pub around : (i : ℕ) → 0 < i → i < size → parent i ≡ index → 0 < index → k (parent index) ≤ k i

module _ (t : TaskFields) (small : (a : ℕ) → t.pid a < word_mod) where
  -- The repair in both directions.
  pub restore_lem :
      (size : ℕ) (cells : List ℕ) (index : ℕ)
      → index < size
      → IsFilled size cells
      → IsBroken size index (ranks t small size cells)
      → IsHeap t small size (restore t cells size index)
  unfolding restore
  restore_lem size cells index lt v inv = elim (ℕ_discrete index 0) [
    | yes root ↦
        rw (ltb_of_zero root, restore)
          (down_lem t small size size cells index (omega arith) lt v
            (high (λ h. absurd (omega arith))))
    | no ne ↦ elim (Bool-cases (ltb (k index) (k (parent index)))) [
      | inl less ↦
          rw
            (
              lt→ltb 0 index (omega arith),
              compare_lt t small size cells v index (parent index) lt (omega arith) ∙ less,
              restore,
            )
            (up_lem t small size index cells index (omega arith) lt v
              (low (omega arith) (ltb→lt _ _ less)))
      | inr more ↦
          rw
            (
              lt→ltb 0 index (omega arith),
              compare_lt t small size cells v index (parent index) lt (omega arith) ∙ more,
              restore,
            )
            (down_lem t small size size cells index (omega arith) lt v
              (high (λ h. ltb→le _ _ more)))
    ]
  ]
    where
      k : ℕ → ℕ
      k = ranks t small size cells

      ltb_of_zero : index ≡ 0 → ltb 0 index ≡ false
      ltb_of_zero e = ground arith

      high : (0 < index → k (parent index) ≤ k index) → IsHigh size index k
      high le = record {
        others = λ i pos h apart. elim (ℕ_discrete i index) [
          | yes e ↦ omega (arith, ap k e, ap (λ x. k (parent x)) e, le (omega arith))
          | no off ↦ inv.others i pos h off apart
        ];
        around = inv.around;
      }

      low : 0 < index → k index < k (parent index) → IsLow size index k
      low deep less = record {
        others = λ i pos h off. elim (ℕ_discrete (parent i) index) [
          | yes e ↦ omega (arith, ap k e, inv.around i pos h e deep, less)
          | no apart ↦ inv.others i pos h off apart
        ];
        around = inv.around;
      }
