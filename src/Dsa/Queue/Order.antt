-- ===== src/Dsa/Queue/Order.antt =====
-- The queue of lib/dsa/queue.c hands its entries out in the order in which it took them.
use nexa_kernel.Base.{
  ℕ, suc, ◌+◌, ◌-◌, ◌%◌, ◌≤◌, ◌<◌, ◌≡◌, refl, sym, ap, ◌∙◌, ◌⊎◌, inl, inr, true, false, List, [],
  ◌∷◌, ◌++◌, arith, length, length-set, get_or, set, ℕ_discrete, ==_of_ne, word_mod, add_word,
  sub_word,
}
use nexa_kernel.Ring.{slot, slot-lt, slot-suc, slot_front}
use nexa_kernel.Ring.Contents.{contents, contents-push, contents-pop}
use nexa_kernel.Dsa.Queue.{Queue, queue_is_full, queue_is_empty, queue_enqueue, queue_dequeue}

pub record IsRing (q : Queue) : Type 0 where
  pub room : q.capacity ≤ length q.cells
  pub small : q.capacity < word_mod
  pub head_in : q.head < q.capacity
  pub fits : q.size ≤ q.capacity
  pub tail_at : q.tail ≡ slot q.capacity q.head q.size

-- The entries, front first.
abbrev pub entries : Queue → List ℕ
entries q = contents 0 q.cells q.capacity q.head q.size

module _ (q : Queue) (v : IsRing q) where
  open q use {cells, capacity, size, head, tail}

  abbrev enqueued : ℕ → Queue
  enqueued x = record q {
    cells = set cells (slot capacity head size) x;
    tail = slot capacity head (suc size);
    size = suc size;
  }

  queue_enqueue-room : (x : ℕ) → size < capacity → queue_enqueue q x ≡ (true, enqueued x)
  unfolding queue_enqueue queue_is_full
  queue_enqueue-room x lt =
      simp (==_of_ne size capacity (λ e. absurd (omega arith)), v.tail_at, next, counter) refl
    where
      next : add_word (slot capacity head size) 1 % capacity ≡ slot capacity head (suc size)
      next =
          ap (λ k. k % capacity)
            (omega (arith, v.small, slot-lt capacity head v.head_in size v.fits))
          ∙ slot-suc capacity head size

      counter : add_word size 1 ≡ suc size
      counter = omega (arith, v.small)

  queue_enqueue-full : (x : ℕ) → size ≡ capacity → queue_enqueue q x ≡ (false, q)
  unfolding queue_enqueue queue_is_full
  queue_enqueue-full x full = ground arith

  queue_dequeue-none : size ≡ 0 → queue_dequeue q ≡ (0, q)
  unfolding queue_dequeue queue_is_empty
  queue_dequeue-none e = ground arith

  -- A ring that keeps its invariant takes an entry exactly if it is not full: then the entry stands
  -- behind the others, and the invariant is kept. A full one stays as it is.
  pub queue_enqueue_lem :
      (x : ℕ)
      → ((size < capacity)
          × ((queue_enqueue q x).0 ≡ true)
          × IsRing (queue_enqueue q x).1
          × (entries (queue_enqueue q x).1 ≡ entries q ++ (x ∷ [])))
        ⊎ ((size ≡ capacity) × (queue_enqueue q x ≡ (false, q)))
  queue_enqueue_lem x = elim (ℕ_discrete size capacity) [
    | yes full ↦ inr (full, queue_enqueue-full x full)
    | no ne ↦
        let lt : size < capacity = omega (arith, v.fits) in
        inl (
          rw (queue_enqueue-room x lt) (
            lt,
            refl,
            record {
              room = omega (arith, length-set cells (slot capacity head size) x, v.room);
              small = v.small;
              head_in = v.head_in;
              fits = omega arith;
              tail_at = refl;
            },
            contents-push 0 cells capacity head v.head_in size x v.room lt,
          ))
  ]

  abbrev dequeued : ℕ → Queue
  dequeued n = record q { head = (head + 1) % capacity; size = n }

  queue_dequeue-some : (n : ℕ) → size ≡ suc n → queue_dequeue q ≡ (get_or cells head 0, dequeued n)
  unfolding queue_dequeue queue_is_empty
  queue_dequeue-some n e = simp (==_of_ne size 0 (λ e'. absurd (omega arith)), next, counter) refl
    where
      next : add_word head 1 % capacity ≡ (head + 1) % capacity
      next = ap (λ k. k % capacity) (omega (arith, v.small, v.head_in))

      counter : sub_word size 1 ≡ n
      counter = omega (arith, v.small, v.fits)

  -- From a ring that keeps its invariant and is not empty, dequeueing takes the first entry off the
  -- list of entries and keeps the invariant. An empty one yields null and stays as it is.
  pub queue_dequeue_lem :
      ((0 < size)
        × (entries q ≡ (queue_dequeue q).0 ∷ entries (queue_dequeue q).1)
        × IsRing (queue_dequeue q).1)
      ⊎ ((entries q ≡ []) × (queue_dequeue q ≡ (0, q)))
  queue_dequeue_lem = elim (ℕ_discrete size 0) [
    | yes e ↦ inr (ap (contents 0 cells capacity head) e, queue_dequeue-none e)
    | no ne ↦
        let e : size ≡ suc (size - 1) = omega arith in
        inl (
          rw (queue_dequeue-some (size - 1) e) (
            omega arith,
            ap (contents 0 cells capacity head) e
                ∙ contents-pop 0 cells capacity head v.head_in (size - 1),
            record {
              room = v.room;
              small = v.small;
              head_in = omega (arith, v.head_in);
              fits = omega (arith, v.fits);
              tail_at =
                  v.tail_at ∙ ap (slot capacity head) e ∙ sym (slot_front capacity head (size - 1));
            },
          ))
  ]
