-- ===== src/Scheduler/PriorityQueue/Find.antt =====
-- `find_task` of priority_queue.c.
use nexa_kernel.Base.{
  ℕ, zero, suc, ◌+◌, ◌≤◌, ◌<◌, ◌≡◌, ◌≢◌, ap, ◌∙◌, ◌⊎◌, inl, inr, List, arith, get_or, ==_iff,
  ==_of_ne, ℕ_discrete,
}
use nexa_kernel.Scheduler.PriorityQueue.{find_task}

-- The answer of the loop from `i` on: the index of the task, or the end, and the task is not there.
pub find_task_lem :
    (left : ℕ) (cells : List ℕ) (i task : ℕ)
    → ((i ≤ find_task left cells i task)
        × (find_task left cells i task < i + left)
        × (get_or cells (find_task left cells i task) 0 ≡ task))
      ⊎ ((find_task left cells i task ≡ i + left)
          × ((j : ℕ) → i ≤ j → j < i + left → get_or cells j 0 ≢ task))
unfolding find_task
find_task_lem zero cells i task = inr (omega arith, λ j le lt. absurd (omega arith))
find_task_lem (suc left) cells i task = elim (ℕ_discrete (get_or cells i 0) task) [
  | yes here ↦
      rw ((==_iff (get_or cells i 0) task).1 here, find_task) (inl (omega arith, omega arith, here))
  | no other ↦
      rw (==_of_ne (get_or cells i 0) task other, find_task)
        (elim (find_task_lem left cells (suc i) task) [
          | inl (le, lt, there) ↦ inl (omega arith, omega arith, there)
          | inr (end, absent) ↦ inr (
            omega arith,
            λ j le lt. elim (ℕ_discrete j i) [
              | yes same ↦ λ e. other (ap (λ m. get_or cells m 0) (omega (arith, same)) ∙ e)
              | no apart ↦ absent j (omega arith) (omega arith)
            ],
          )
        ])
]
