-- ===== src/Scheduler/RrQueue/Refine.antt =====
-- The ring of round_robin_queue.c implements the queue of `Scheduler.Fifo`.
use nexa_kernel.Base.{
  Bool, ℕ, suc, ◌+◌, ◌-◌, ◌%◌, ◌<◌, ◌≡◌, ◌≢◌, refl, ap, ◌∙◌, ◌⊎◌, inl, inr, true, false, [], ◌∷◌,
  arith, length, get_or, ◌==◌, dec_lt, ℕ_discrete, ==_of_ne,
}
use nexa_kernel.Ring.{slot-lt}
use nexa_kernel.Ring.Contents.{
  contents, length-contents, contents-push, contents-pop, contents-clear,
}
use nexa_kernel.Ring.Search.{take_first_hit, take_first_miss}
use nexa_kernel.Scheduler.Fifo
use nexa_kernel.Scheduler.Fifo.{Call, Reply, enqueue, dequeue, peek_front, take_out, done, task}
use nexa_kernel.Scheduler.RrQueue.{
  RrQueue, rr_enqueue, rr_dequeue, rr_peek, rr_remove, rr_is_empty, find_index, remove_index,
}
use nexa_kernel.Scheduler.RrQueue.Invariant.{
  IsValid, tasks, rr_enqueue_lem, rr_enqueue_refused, rr_dequeue_lem, rr_dequeue_empty,
}
use nexa_kernel.Scheduler.RrQueue.Remove.{entry, Found, search-Found, remove_index_lem}

module _ (q : RrQueue) (v : IsValid q) where
  open q use {cells, capacity, size, head}

  pub length-tasks : length (tasks q) ≡ size
  length-tasks = length-contents 0 cells capacity head v.head_in size

  pub rr_enqueue_refines :
      (t : ℕ) → let (ok, q') = rr_enqueue q t in (ok, tasks q') ≡ Fifo.push capacity (tasks q) t
  unfolding Fifo.push
  rr_enqueue_refines t = elim (ℕ_discrete t 0) [
    | yes e ↦ rw (rr_enqueue_refused q v t (inl e)) (ground arith)
    | no ne ↦ elim (dec_lt size capacity) [
      | yes lt ↦
          rw
            (
              rr_enqueue_lem q v t ne lt,
              contents-push 0 cells capacity head v.head_in size t v.room lt,
            )
            (ground (arith, length-tasks))
      | no le ↦ rw (rr_enqueue_refused q v t (inr (omega arith))) (ground (arith, length-tasks))
    ]
  ]

  -- The front of a queue that is not empty.
  tasks_front :
      (n : ℕ)
      → size ≡ suc n
      → tasks q ≡ get_or cells head 0 ∷ contents 0 cells capacity ((head + 1) % capacity) n
  tasks_front n e =
      ap (contents 0 cells capacity head) e ∙ contents-pop 0 cells capacity head v.head_in n

  tasks_empty : size ≡ 0 → tasks q ≡ []
  tasks_empty e = ap (contents 0 cells capacity head) e

  pub rr_dequeue_refines : let (t, q') = rr_dequeue q in (t, tasks q') ≡ Fifo.pop (tasks q)
  unfolding Fifo.pop
  rr_dequeue_refines = elim (ℕ_discrete size 0) [
    | yes e ↦ rw (rr_dequeue_empty q v e, tasks_empty e) refl
    | no ne ↦
        let e : size ≡ suc (size - 1) = omega arith in
        rw (rr_dequeue_lem q v (omega arith), tasks_front (size - 1) e)
          (ap (λ xs. (get_or cells head 0, xs))
            (contents-clear 0 cells capacity head v.head_in (size - 1) 0
              (omega (arith, v.size_le))))
  ]

  pub rr_peek_refines : rr_peek q ≡ Fifo.peek (tasks q)
  unfolding Fifo.peek rr_peek
  rr_peek_refines = elim (ℕ_discrete size 0) [
    | yes e ↦ rw (tasks_empty e) (ground arith)
    | no ne ↦
        let e : size ≡ suc (size - 1) = omega arith in
        rw (tasks_front (size - 1) e) (ground (arith, v.allocated))
  ]

  abbrev found : ℕ → ℕ
  found t = find_index size cells capacity head t

  rr_remove-false : (t : ℕ) → (t ≡ 0) ⊎ (found t ≡ capacity) → rr_remove q t ≡ (false, q)
  unfolding rr_remove
  rr_remove-false t why = ground arith

  rr_remove-true :
      (t : ℕ)
      → t ≢ 0
      → 0 < size
      → found t ≢ capacity
      → rr_remove q t ≡ (true, remove_index q (found t))
  unfolding rr_remove rr_is_empty
  rr_remove-true t nonzero some_task ne = ground (arith, v.allocated)

  -- What `rr_remove` yields, in one statement for both of its outcomes.
  abbrev Removed : ℕ → Bool × RrQueue → Type 0
  Removed t (ok, q') =
      ((ok, tasks q') ≡ Fifo.remove (tasks q) t) × IsValid q' × (q'.capacity ≡ capacity)

  rr_remove-found : (t : ℕ) → t ≢ 0 → Found q v t (found t) → Removed t (rr_remove q t)
  unfolding Fifo.remove
  rr_remove-found t ne (inr (e, none_there)) =
      rw
        (
          rr_remove-false t (inr e),
          ==_of_ne t 0 ne,
          take_first_miss (λ x. x == t) size (entry q v t) none_there,
        )
        (refl, v, refl)
  rr_remove-found t ne (inl (p, first, e)) =
      let count : size ≡ suc (size - 1) = omega (arith, first.inside) in
      let fact = remove_index_lem q v (size - 1) count p (omega (arith, first.inside)) in
      rw
        (
          rr_remove-true t ne (omega (arith, first.inside)) (
              omega (
                arith,
                e,
                slot-lt capacity head v.head_in p (omega (arith, first.inside, v.size_le)),
              )),
          e,
          ==_of_ne t 0 ne,
          take_first_hit (λ x. x == t) size (entry q v t) p first,
        )
        (ap (λ xs. (true, xs)) fact.1, fact.0, fact.2)

  -- From a valid ring `rr_remove` answers as removing the first occurrence of the task from the list
  -- of tasks does, leaves exactly the rest in order, and keeps the ring valid and its capacity.
  pub rr_remove_lem :
      (t : ℕ)
      → (((rr_remove q t).0, tasks (rr_remove q t).1) ≡ Fifo.remove (tasks q) t)
        × IsValid (rr_remove q t).1
        × ((rr_remove q t).1.capacity ≡ capacity)
  unfolding Fifo.remove
  rr_remove_lem t = elim (ℕ_discrete t 0) [
    | yes e ↦ rw (rr_remove-false t (inl e)) (ground arith, v, refl)
    | no ne ↦ rr_remove-found t ne (search-Found q v t)
  ]
