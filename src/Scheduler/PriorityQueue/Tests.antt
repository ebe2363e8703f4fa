-- ===== src/Scheduler/PriorityQueue/Tests.antt =====
-- Runs of priority_queue.c on a queue of three tasks with room for four.
use nexa_kernel.Base.{
  ℕ, zero, suc, ◌+◌, ◌⊎◌, false, ◌-◌, ◌/◌, ◌≤◌, ◌<◌, ◌≡◌, ◌≢◌, refl, true, [], ◌∷◌, arith, get_or,
  word_mod,
}
use nexa_kernel.Scheduler.PriorityQueue.{
  TaskFields, PriorityQueue, pq_enqueue, pq_dequeue, pq_remove, up, down, swap, smaller,
  task_compare,
}
use nexa_kernel.Scheduler.PriorityQueue.Order.{rank}
use nexa_kernel.Scheduler.PriorityQueue.Tally.{hits, copies}
use nexa_kernel.Scheduler.PriorityQueue.Queue.{IsQueue, pq_enqueue-IsQueue}
use nexa_kernel.Scheduler.PriorityQueue.Removal.{pq_dequeue-IsQueue, pq_remove-IsQueue}

-- The task at an address has that address as its priority, and one pid for all.
abbrev fields : TaskFields
fields = record { priority = λ a. a; pid = λ a. 7 }

fields_small : (a : ℕ) → fields.pid a < word_mod
fields_small a = omega arith

abbrev three : PriorityQueue
three = record { buffer = 100; cells = 10 ∷ 30 ∷ 20 ∷ 0 ∷ []; capacity = 4; size = 3 }

three-IsQueue : IsQueue fields fields_small three
unfolding rank
three-IsQueue = record {
  room = omega arith;
  fits = omega arith;
  word = omega arith;
  heap = record {
    is_filled = record { room = omega arith; no_null = no_null };
    is_ordered = ordered;
  };
}
  where
    no_null : (i : ℕ) → i < 3 → get_or three.cells i 0 ≢ 0
    no_null zero h e = absurd (omega arith)
    no_null (suc zero) h e = absurd (omega arith)
    no_null (suc (suc zero)) h e = absurd (omega arith)
    no_null (suc (suc (suc i))) h e = absurd (omega arith)

    ordered :
        (i : ℕ)
        → 0 < i
        → i < 3
        → rank fields fields_small (get_or three.cells ((i - 1) / 2) 0)
          ≤ rank fields fields_small (get_or three.cells i 0)
    ordered zero pos h = absurd (omega arith)
    ordered (suc zero) pos h = omega arith
    ordered (suc (suc zero)) pos h = omega arith
    ordered (suc (suc (suc i))) pos h = absurd (omega arith)

urgent : (pq_dequeue fields (pq_enqueue fields three 5).1).0 ≡ 5
unfolding pq_enqueue pq_dequeue up swap task_compare down smaller
urgent = refl

pq_enqueue-IsQueue_example :
    ((pq_enqueue fields three 5).0 ≡ true)
    × IsQueue fields fields_small (pq_enqueue fields three 5).1
    × ((pq_enqueue fields three 5).1.size ≡ suc 3)
    × ((x : ℕ) → copies x (pq_enqueue fields three 5).1 ≡ copies x three + hits 5 x)
pq_enqueue-IsQueue_example =
    pq_enqueue-IsQueue fields fields_small three three-IsQueue 5 (λ e. absurd (omega arith))
      (omega arith) (λ e. absurd (omega arith))

pq_dequeue-IsQueue_example :
    ((i : ℕ)
      → i < 3
      → rank fields fields_small (pq_dequeue fields three).0
        ≤ rank fields fields_small (get_or three.cells i 0))
    × IsQueue fields fields_small (pq_dequeue fields three).1
    × (suc (pq_dequeue fields three).1.size ≡ 3)
    × ((x : ℕ)
        → copies x (pq_dequeue fields three).1 + hits (pq_dequeue fields three).0 x
          ≡ copies x three)
pq_dequeue-IsQueue_example =
    pq_dequeue-IsQueue fields fields_small three three-IsQueue (λ e. absurd (omega arith))
      (omega arith)

pq_remove-IsQueue_example :
    ((i : ℕ) × (i < 3)
      × (get_or three.cells i 0 ≡ 30)
      × ((pq_remove fields three 30).0 ≡ true)
      × IsQueue fields fields_small (pq_remove fields three 30).1
      × (suc (pq_remove fields three 30).1.size ≡ 3)
      × ((x : ℕ) → copies x (pq_remove fields three 30).1 + hits 30 x ≡ copies x three))
    ⊎ (((i : ℕ) → i < 3 → get_or three.cells i 0 ≢ 30)
        × (pq_remove fields three 30 ≡ (false, three)))
pq_remove-IsQueue_example =
    pq_remove-IsQueue fields fields_small three three-IsQueue 30 (λ e. absurd (omega arith))
      (λ e. absurd (omega arith))
