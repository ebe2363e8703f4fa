-- ===== src/Scheduler/PriorityQueue/Tally.antt =====
-- How often a task stands in the array of priority_queue.c: what the repairs of the heap keep.
use nexa_kernel.Base.{
  ℕ, zero, suc, ◌+◌, ◌≤◌, ◌<◌, ◌≡◌, refl, ap, ◌∙◌, inl, inr, ◌&&◌, List, arith, length, length-set,
  get_or, set, get_or-set, get_or-set_self, get_or-set_ne, ltb, ◌==◌, if◌then◌else◌, Bool-cases,
  ℕ_discrete,
}
use nexa_kernel.Scheduler.PriorityQueue.{
  TaskFields, PriorityQueue, parent, left_child, right_child, swap, negative, nonpositive,
  task_compare, up, smaller, down, restore,
}
use nexa_kernel.Scheduler.PriorityQueue.Heap.{length-swap}

-- 1 if the entry is `x`.
abbrev pub hits : ℕ → ℕ → ℕ
hits entry x = if entry == x then 1 else 0

-- How many of the first `n` entries are `x`.
unfoldable pub tally : ℕ → ℕ → List ℕ → ℕ
tally x zero cells = 0
tally x (suc n) cells = tally x n cells + hits (get_or cells n 0) x

-- How often the queue holds `x`.
abbrev pub copies : ℕ → PriorityQueue → ℕ
copies x q = tally x q.size q.cells

pub tally-above :
    (x n : ℕ) (cells : List ℕ) (i v : ℕ) → n ≤ i → tally x n (set cells i v) ≡ tally x n cells
unfolding tally
tally-above x zero cells i v le = refl
tally-above x (suc n) cells i v le = omega (
  arith,
  tally-above x n cells i v (omega arith),
  ap (λ c. hits c x) (get_or-set_ne cells i n v 0 (λ e. absurd (omega arith))),
)

pub tally-last :
    (x n : ℕ) (cells : List ℕ) → tally x (suc n) cells ≡ tally x n cells + hits (get_or cells n 0) x
unfolding tally
tally-last x n cells = refl

pub tally-set :
    (x n : ℕ) (cells : List ℕ) (i v : ℕ)
    → i < n
    → i < length cells
    → tally x n (set cells i v) + hits (get_or cells i 0) x ≡ tally x n cells + hits v x
unfolding tally
tally-set x zero cells i v lt inside = absurd (omega arith)
tally-set x (suc n) cells i v lt inside = elim (ℕ_discrete i n) [
  | yes same ↦ omega (
    arith,
    tally-above x n cells i v (omega arith),
    ap (λ j. hits (get_or (set cells i v) j 0) x) same,
    ap (λ j. hits (get_or cells j 0) x) same,
    ap (λ c. hits c x) (get_or-set_self cells i v 0 inside),
  )
  | no other ↦ omega (
    arith,
    tally-set x n cells i v (omega arith) inside,
    ap (λ c. hits c x) (get_or-set_ne cells i n v 0 other),
  )
]

module _ (x n : ℕ) where
  tally-swap :
      (cells : List ℕ) (i j : ℕ)
      → i < n
      → j < n
      → n ≤ length cells
      → tally x n (swap cells i j) ≡ tally x n cells
  unfolding swap
  tally-swap cells i j hi hj room =
      let kept : get_or (set cells i (get_or cells j 0)) j 0 ≡ get_or cells j 0 =
        get_or-set cells i j (get_or cells j 0) 0 (omega arith) ∙ ground arith in
      omega (
        arith,
        tally-set x n cells i (get_or cells j 0) hi (omega arith),
        tally-set x n (set cells i (get_or cells j 0)) j (get_or cells i 0) hj
            (omega (arith, length-set cells i (get_or cells j 0))),
        ap (λ c. hits c x) kept,
      )

  module _ (t : TaskFields) where
    pub tally-up :
        (fuel : ℕ) (cells : List ℕ) (index : ℕ)
        → index < n
        → n ≤ length cells
        → tally x n (up t fuel cells index) ≡ tally x n cells
    unfolding up
    tally-up zero cells index lt room = refl
    tally-up (suc fuel) cells index lt room = elim (Bool-cases (index == 0)) [
      | inl root ↦ rw (root, up) refl
      | inr deep ↦
          elim (Bool-cases
            (nonpositive (task_compare t (get_or cells (parent index) 0) (get_or cells index 0)))) [
              | inl fine ↦ rw (deep, fine, up) refl
              | inr worse ↦
                  rw (deep, worse, up)
                    (tally-up fuel (swap cells index (parent index)) (parent index) (omega arith)
                        (omega (arith, length-swap cells index (parent index)))
                      ∙ tally-swap cells index (parent index) lt (omega arith) room)
            ]
    ]

    smaller-inside : (cells : List ℕ) (m child : ℕ) → m < n → smaller t cells n m child < n
    unfolding smaller
    smaller-inside cells m child lt =
        elim (Bool-cases
          (ltb child n && negative (task_compare t (get_or cells child 0) (get_or cells m 0)))) [
            | inl chosen ↦ simp chosen (ground arith)
            | inr refused ↦ simp refused lt
          ]

    pub tally-down :
        (fuel : ℕ) (cells : List ℕ) (index : ℕ)
        → index < n
        → n ≤ length cells
        → tally x n (down t fuel cells n index) ≡ tally x n cells
    unfolding down
    tally-down zero cells index lt room = refl
    tally-down (suc fuel) cells index lt room = elim (Bool-cases (next == index)) [
      | inl same ↦ rw (same, down) refl
      | inr other ↦
          rw (other, down)
            (tally-down fuel (swap cells index next) next inside
                (omega (arith, length-swap cells index next))
              ∙ tally-swap cells index next lt inside room)
    ]
      where
        next : ℕ
        next = smaller t cells n (smaller t cells n index (left_child index)) (right_child index)

        inside : next < n
        inside =
            smaller-inside cells (smaller t cells n index (left_child index)) (right_child index)
              (smaller-inside cells index (left_child index) lt)

    pub tally-restore :
        (cells : List ℕ) (index : ℕ)
        → index < n
        → n ≤ length cells
        → tally x n (restore t cells n index) ≡ tally x n cells
    unfolding restore
    tally-restore cells index lt room =
        elim (Bool-cases (
          ltb 0 index
          && negative (task_compare t (get_or cells index 0) (get_or cells (parent index) 0)))) [
            | inl above ↦ rw (above, restore) (tally-up index cells index lt room)
            | inr below ↦ rw (below, restore) (tally-down n cells index lt room)
          ]
