-- ===== src/Scheduler/PriorityQueue/Heap.antt =====
-- `heapify_up` and `heapify_down` of priority_queue.c on an array of tasks.
use nexa_kernel.Base.{
  ℕ, zero, suc, ◌+◌, ◌≤◌, ◌<◌, ◌≡◌, ◌≢◌, refl, ap, ◌∙◌, ◌⊎◌, inl, inr, false, List, arith, length,
  length-set, get_or, set, get_or-set, ltb, leb, ltb→lt, ltb→le, ◌==◌, ==_iff, ==_of_ne, lt→ltb,
  leb→le, leb→lt, if◌then◌else◌, Bool-cases, dec_lt, ℕ_discrete, word_mod,
}
use nexa_kernel.Scheduler.PriorityQueue.{
  TaskFields, parent, left_child, right_child, swap, negative, nonpositive, task_compare, up,
  smaller, down,
}
use nexa_kernel.Scheduler.PriorityQueue.Order.{
  rank, negative-task_compare, nonpositive-task_compare,
}
use nexa_kernel.Scheduler.PriorityQueue.Sift.{
  IsOrdered, IsLow, IsHigh, IsSwapped, IsLow-swap, IsLow-stop, IsHigh-swap, IsHigh-stop,
}

-- The array has room for the heap, and no entry of it is null.
pub record IsFilled (size : ℕ) (cells : List ℕ) : Type 0 where
  pub room : size ≤ length cells
  pub no_null : (i : ℕ) → i < size → get_or cells i 0 ≢ 0

get_or-swap :
    (cells : List ℕ) (i j m : ℕ)
    → i < length cells
    → j < length cells
    → get_or (swap cells i j) m 0
      ≡ (if j == m then get_or cells i 0 else if i == m then get_or cells j 0 else get_or cells m 0)
unfolding swap
get_or-swap cells i j m hi hj =
    get_or-set (set cells i (get_or cells j 0)) j m (get_or cells i 0) 0
      (omega (arith, length-set cells i (get_or cells j 0)))
    ∙ ground (arith, get_or-set cells i m (get_or cells j 0) 0 hi)

pub length-swap : (cells : List ℕ) (i j : ℕ) → length (swap cells i j) ≡ length cells
unfolding swap
length-swap cells i j =
    length-set (set cells i (get_or cells j 0)) j (get_or cells i 0)
    ∙ length-set cells i (get_or cells j 0)

pub length-up :
    (t : TaskFields) (fuel : ℕ) (cells : List ℕ) (index : ℕ)
    → length (up t fuel cells index) ≡ length cells
unfolding up
length-up t zero cells index = refl
length-up t (suc fuel) cells index = elim (Bool-cases (index == 0)) [
  | inl root ↦ rw (root, up) refl
  | inr deep ↦
      elim (Bool-cases
        (nonpositive (task_compare t (get_or cells (parent index) 0) (get_or cells index 0)))) [
          | inl fine ↦ rw (deep, fine, up) refl
          | inr worse ↦
              rw (deep, worse, up)
                (length-up t fuel (swap cells index (parent index)) (parent index)
                  ∙ length-swap cells index (parent index))
        ]
]

pub length-down :
    (t : TaskFields) (fuel : ℕ) (cells : List ℕ) (size index : ℕ)
    → length (down t fuel cells size index) ≡ length cells
unfolding down
length-down t zero cells size index = refl
length-down t (suc fuel) cells size index = elim (Bool-cases (next == index)) [
  | inl same ↦ rw (same, down) refl
  | inr other ↦
      rw (other, down)
        (length-down t fuel (swap cells index next) size next ∙ length-swap cells index next)
]
  where
    next : ℕ
    next = smaller t cells size (smaller t cells size index (left_child index)) (right_child index)

module _ (t : TaskFields) (small : (a : ℕ) → t.pid a < word_mod) (size : ℕ) where
  abbrev pub ranks : List ℕ → ℕ → ℕ
  ranks cells i = rank t small (get_or cells i 0)

  module _ (cells : List ℕ) (v : IsFilled size cells) (i j : ℕ) (hi : i < size)
      (hj : j < size) where
    swap-IsFilled : IsFilled size (swap cells i j)
    swap-IsFilled = record {
      room = omega (arith, length-swap cells i j, v.room);
      no_null = λ m h.
          rw (get_or-swap cells i j m (omega (arith, v.room)) (omega (arith, v.room)))
            (ground (arith, v.no_null m h, v.no_null i hi, v.no_null j hj));
    }

    swap-IsSwapped : i ≢ j → IsSwapped i j (ranks cells) (ranks (swap cells i j))
    swap-IsSwapped ne = record {
      first = ap (rank t small) (at i ∙ ground arith);
      second = ap (rank t small) (at j ∙ ground arith);
      rest = λ m h h'. ap (rank t small) (at m ∙ ground arith);
    }
      where
        at :
            (m : ℕ)
            → get_or (swap cells i j) m 0 ≡ (
                if j == m
                then get_or cells i 0
                else if i == m
                then get_or cells j 0
                else get_or cells m 0)
        at m = get_or-swap cells i j m (omega (arith, v.room)) (omega (arith, v.room))

  -- A heap: filled, and in order of rank.
  pub record IsHeap (cells : List ℕ) : Type 0 where
    pub is_filled : IsFilled size cells
    pub is_ordered : IsOrdered size (ranks cells)

  module _ (cells : List ℕ) (v : IsFilled size cells) (a b : ℕ) (ha : a < size)
      (hb : b < size) where
    compare_le :
        nonpositive (task_compare t (get_or cells a 0) (get_or cells b 0))
        ≡ leb (ranks cells a) (ranks cells b)
    compare_le =
        nonpositive-task_compare t small (get_or cells a 0) (get_or cells b 0) (v.no_null a ha)
          (v.no_null b hb)

    pub compare_lt :
        negative (task_compare t (get_or cells a 0) (get_or cells b 0))
        ≡ ltb (ranks cells a) (ranks cells b)
    compare_lt =
        negative-task_compare t small (get_or cells a 0) (get_or cells b 0) (v.no_null a ha)
          (v.no_null b hb)

  -- `heapify_up` restores the order of a heap that only the entry at its index may break.
  pub up_lem :
      (fuel : ℕ) (cells : List ℕ) (index : ℕ)
      → index ≤ fuel
      → index < size
      → IsFilled size cells
      → IsLow size index (ranks cells)
      → IsHeap (up t fuel cells index)
  unfolding up
  up_lem zero cells index le lt v inv = record {
    is_filled = v;
    is_ordered = IsLow-stop size index (ranks cells) (ranks cells) (λ h. absurd (omega arith)) inv;
  }
  up_lem (suc fuel) cells index le lt v inv = elim (ℕ_discrete index 0) [
    | yes root ↦
        rw ((==_iff index 0).1 root, up)
          (record {
            is_filled = v;
            is_ordered =
                IsLow-stop size index (ranks cells) (ranks cells) (λ h. absurd (omega arith)) inv;
          })
    | no ne ↦ elim (Bool-cases (leb (ranks cells (parent index)) (ranks cells index))) [
      | inl fine ↦
          rw
            (
              ==_of_ne index 0 ne,
              compare_le cells v (parent index) index (omega arith) lt ∙ fine,
              up,
            )
            (record {
              is_filled = v;
              is_ordered =
                  IsLow-stop size index (ranks cells) (ranks cells) (λ h. leb→le _ _ fine) inv;
            })
      | inr worse ↦
          rw
            (
              ==_of_ne index 0 ne,
              compare_le cells v (parent index) index (omega arith) lt ∙ worse,
              up,
            )
            (up_lem fuel (swap cells index (parent index)) (parent index) (omega arith)
              (omega arith) (swap-IsFilled cells v index (parent index) lt (omega arith))
              (IsLow-swap size index (ranks cells) (ranks (swap cells index (parent index)))
                (omega arith) (leb→lt _ _ worse)
                (swap-IsSwapped cells v index (parent index) lt (omega arith)
                  (λ e. absurd (omega arith)))
                inv))
    ]
  ]

  -- The choice of the next child: it is in the heap, and not preceded by what it was chosen from.
  smaller_lem :
      (cells : List ℕ) (m child : ℕ)
      → IsFilled size cells
      → m < size
      → let r = smaller t cells size m child in
        (r < size)
        × ((r ≡ m) ⊎ ((r ≡ child) × (ranks cells r < ranks cells m)))
        × (ranks cells r ≤ ranks cells m)
        × (child < size → ranks cells r ≤ ranks cells child)
  unfolding smaller
  smaller_lem cells m child v hm = elim (dec_lt child size) [
    | no out ↦
        rw (ltb_of_le child size (omega arith))
          (hm, inl refl, omega arith, λ h. absurd (omega arith))
    | yes inside ↦ elim (Bool-cases (ltb (ranks cells child) (ranks cells m))) [
      | inl less ↦
          rw (lt→ltb child size inside, compare_lt cells v child m inside hm ∙ less)
            (inside, inr (refl, ltb→lt _ _ less), omega (arith, ltb→lt _ _ less), λ h. omega arith)
      | inr more ↦
          rw (lt→ltb child size inside, compare_lt cells v child m inside hm ∙ more)
            (hm, inl refl, omega arith, λ h. ltb→le _ _ more)
    ]
  ]
    where
      ltb_of_le : (a b : ℕ) → b ≤ a → ltb a b ≡ false
      ltb_of_le a b h = ground arith

  abbrev least : List ℕ → ℕ → ℕ
  least cells index =
      smaller t cells size (smaller t cells size index (left_child index)) (right_child index)

  least_lem :
      (cells : List ℕ) (index : ℕ)
      → IsFilled size cells
      → index < size
      → (least cells index < size)
        × ((least cells index ≡ index)
            ⊎ ((parent (least cells index) ≡ index)
                × (0 < least cells index)
                × (ranks cells (least cells index) < ranks cells index)))
        × ((i : ℕ)
            → 0 < i
            → i < size
            → parent i ≡ index
            → ranks cells (least cells index) ≤ ranks cells i)
  least_lem cells index v h =
      let (in1, which1, le1, child1) = smaller_lem cells index (left_child index) v h in
      let (in2, which2, le2, child2) =
        smaller_lem cells (smaller t cells size index (left_child index)) (right_child index) v
          in1 in
      (
        in2,
        which which1 le1 which2,
        λ i pos lt e. elim (ℕ_discrete i (left_child index)) [
          | yes left ↦ omega (arith, ap (ranks cells) left, child1 (omega arith))
          | no other ↦ omega (arith, ap (ranks cells) (right i e pos other), child2 (omega arith))
        ],
      )
    where
      right : (i : ℕ) → parent i ≡ index → 0 < i → i ≢ left_child index → i ≡ right_child index
      right i e pos other = omega arith

      which :
          {a b : ℕ}
          → (a ≡ index) ⊎ ((a ≡ left_child index) × (ranks cells a < ranks cells index))
          → ranks cells a ≤ ranks cells index
          → (b ≡ a) ⊎ ((b ≡ right_child index) × (ranks cells b < ranks cells a))
          → (b ≡ index) ⊎ ((parent b ≡ index) × (0 < b) × (ranks cells b < ranks cells index))
      which (inl e) le (inl e') = inl (e' ∙ e)
      which (inl e) le (inr (e', lt)) = inr (omega arith, omega arith, omega arith)
      which (inr (e, lt)) le (inl e') =
          inr (omega arith, omega arith, omega (arith, ap (ranks cells) e'))
      which (inr (e, lt)) le (inr (e', lt')) = inr (omega arith, omega arith, omega arith)

  -- `heapify_down` restores the order of a heap that only the children of the entry at its index may
  -- break.
  pub down_lem :
      (fuel : ℕ) (cells : List ℕ) (index : ℕ)
      → size ≤ index + fuel
      → index < size
      → IsFilled size cells
      → IsHigh size index (ranks cells)
      → IsHeap (down t fuel cells size index)
  unfolding down
  down_lem zero cells index le lt v inv = absurd (omega arith)
  down_lem (suc fuel) cells index le lt v inv =
      let (inside, which, below) = least_lem cells index v lt in
      elim which [
        | inl same ↦
            rw ((==_iff (least cells index) index).1 same, down)
              (record {
                is_filled = v;
                is_ordered =
                    IsHigh-stop size index (ranks cells) (ranks cells)
                      (λ i pos h e. omega (arith, below i pos h e, ap (ranks cells) same)) inv;
              })
        | inr (child, pos, less) ↦
            rw (==_of_ne (least cells index) index (λ e. absurd (omega arith)), down)
              (down_lem fuel (swap cells index (least cells index)) (least cells index)
                (omega arith) inside (swap-IsFilled cells v index (least cells index) lt inside)
                (IsHigh-swap size index (ranks cells) (ranks (swap cells index (least cells index)))
                  (least cells index) pos inside child less below
                  (swap-IsSwapped cells v index (least cells index) lt inside
                    (λ e. absurd (omega arith)))
                  inv))
      ]
