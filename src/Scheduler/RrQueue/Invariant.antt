-- ===== src/Scheduler/RrQueue/Invariant.antt =====
-- The representation invariant of `run_queue`, and the queue of tasks that it stands for.
use nexa_kernel.Base.{
  Bool-cases, ==→ne, mul_word, ◌==◌, ℕ, zero, suc, ◌⊎◌, inl, inr, false, dec_lt, ℕ_discrete, get_or,
  ◌+◌, ◌-◌, ◌*◌, ◌%◌, ◌≤◌, ◌<◌, ◌≡◌, ◌≢◌, refl, sym, ap, ◌∙◌, true, [], some, none, List, Option,
  arith, length, set, length-set, add_word, word_mod,
}
use nexa_kernel.Allocator.{Allocator, Block}
use nexa_kernel.Ring.{slot, slot-suc, slot_front, slot-lt, slot_zero}
use nexa_kernel.Ring.Contents.{contents}
use nexa_kernel.Scheduler.RrQueue.{
  RrQueue, release_old, clear_slots, start, rr_queue_init, rr_enqueue, rr_dequeue,
}

pub record IsValid (q : RrQueue) : Type 0 where
  pub allocated : q.buffer ≢ 0
  pub room : q.capacity ≤ length q.cells
  pub small : q.capacity < word_mod
  pub head_in : q.head < q.capacity
  pub size_le : q.size ≤ q.capacity
  pub tail_at : q.tail ≡ slot q.capacity q.head q.size

-- The tasks, the next one to run first.
abbrev pub tasks : RrQueue → List ℕ
tasks q = contents 0 q.cells q.capacity q.head q.size

-- The index behind a valid one is computed without overflow.
pub next_index : (cap i : ℕ) → i < cap → cap < word_mod → add_word i 1 % cap ≡ (i + 1) % cap
next_index cap i lt small = ap (λ k. k % cap) (omega arith)

pub next_slot :
    (cap h i : ℕ)
    → h < cap
    → cap < word_mod
    → i ≤ cap
    → add_word (slot cap h i) 1 % cap ≡ slot cap h (suc i)
next_slot cap h i front small le =
    next_index cap (slot cap h i) (slot-lt cap h front i le) small ∙ slot-suc cap h i

pub length-clear_slots : (n i : ℕ) (cells : List ℕ) → length (clear_slots n i cells) ≡ length cells
unfolding clear_slots
length-clear_slots zero i cells = refl
length-clear_slots (suc n) i cells =
    length-clear_slots n (suc i) (set cells i 0) ∙ length-set cells i 0

module _ (q : RrQueue) (v : IsValid q) where
  open q use {buffer, cells, capacity, size, head, tail}

  -- The state after a task was added, with no operation of `size_t` left in it.
  pub rr_enqueue_lem :
      (task : ℕ)
      → task ≢ 0
      → size < capacity
      → rr_enqueue q task ≡ (
        true,
        record q {
          cells = set cells (slot capacity head size) task;
          tail = slot capacity head (suc size);
          size = suc size;
        },
      )
  unfolding rr_enqueue
  rr_enqueue_lem task nonzero lt = ground (arith, v.tail_at, next_slot capacity head size)

  pub rr_enqueue_refused :
      (task : ℕ) → (task ≡ 0) ⊎ (capacity ≤ size) → rr_enqueue q task ≡ (false, q)
  unfolding rr_enqueue
  rr_enqueue_refused task why = ground arith

  pub rr_dequeue_lem :
      0 < size
      → rr_dequeue q ≡ (
        get_or cells head 0,
        record q { cells = set cells head 0; head = (head + 1) % capacity; size = size - 1 },
      )
  unfolding rr_dequeue
  rr_dequeue_lem lt = ground (arith, next_index capacity head)

  pub rr_dequeue_empty : size ≡ 0 → rr_dequeue q ≡ (0, q)
  unfolding rr_dequeue
  rr_dequeue_empty e = ground arith

  enqueued-IsValid :
      (task : ℕ)
      → size < capacity
      → IsValid (record q {
        cells = set cells (slot capacity head size) task;
        tail = slot capacity head (suc size);
        size = suc size;
      })
  enqueued-IsValid task lt = ground (arith, length-set cells (slot capacity head size) task)

  dequeued-IsValid :
      0 < size
      → IsValid
          (record q { cells = set cells head 0; head = (head + 1) % capacity; size = size - 1 })
  dequeued-IsValid lt = record {
    allocated = v.allocated;
    room = omega (arith, length-set cells head 0, v.room);
    small = v.small;
    head_in = omega arith;
    size_le = omega (arith, v.size_le);
    tail_at =
        v.tail_at
        ∙ ap (slot capacity head) (omega arith)
        ∙ sym (slot_front capacity head (size - 1));
  }

  -- `rr_enqueue` keeps the invariant on every branch.
  pub rr_enqueue-IsValid : (task : ℕ) → IsValid (rr_enqueue q task).1
  rr_enqueue-IsValid task = elim (ℕ_discrete task 0) [
    | yes e ↦ rw (rr_enqueue_refused task (inl e)) v
    | no ne ↦ elim (dec_lt size capacity) [
      | yes lt ↦ rw (rr_enqueue_lem task ne lt) (enqueued-IsValid task lt)
      | no le ↦ rw (rr_enqueue_refused task (inr (omega arith))) v
    ]
  ]

  -- `rr_dequeue` keeps the invariant on every branch.
  pub rr_dequeue-IsValid : IsValid (rr_dequeue q).1
  rr_dequeue-IsValid = elim (dec_lt 0 size) [
    | yes lt ↦ rw (rr_dequeue_lem lt) (dequeued-IsValid lt)
    | no ge ↦ rw (rr_dequeue_empty (omega arith)) v
  ]

module _ (a : Allocator) (h' : Allocator.Heap a) (q' : RrQueue) (capacity : ℕ) where
  start-IsValid :
      (q : RrQueue) (h : Allocator.Heap a) (bytes : ℕ) (g : Option Block × Allocator.Heap a)
      → capacity ≢ 0
      → capacity * 4 + 7 < word_mod
      → bytes ≡ capacity * 4
      → Allocator.kmalloc a h bytes ≡ g
      → start a capacity q g ≡ (true, q', h')
      → IsValid q' × (q'.capacity ≡ capacity) × (tasks q' ≡ [])
  unfolding start
  start-IsValid q h bytes (none, k) ne fits size asked e = cc (ap (λ r. r.0) e)
  start-IsValid q h bytes (some b, k) ne fits size asked e = rw (← ap (λ r. r.1) e) (
    record {
      allocated = law.0;
      room = omega (arith, law.1, length-clear_slots capacity 0 b.words);
      small = omega arith;
      head_in = omega arith;
      size_le = omega arith;
      tail_at = sym (slot_zero capacity 0 (omega arith));
    },
    refl,
    refl,
  )
    where
      law : (b.addr ≢ 0) × (bytes ≤ 4 * length b.words)
      law = Allocator.granted a h k bytes b (omega arith) asked

  -- A successful `rr_queue_init` leaves a valid empty queue of the capacity asked for, whatever the
  -- queue held before, if the size of the array in bytes is short of
  -- 32 bits by 7 at least.
  pub rr_queue_init-IsValid :
      (q : RrQueue) (h : Allocator.Heap a)
      → capacity * 4 + 7 < word_mod
      → rr_queue_init a h q capacity ≡ (true, q', h')
      → IsValid q' × (q'.capacity ≡ capacity) × (tasks q' ≡ [])
  unfolding rr_queue_init
  rr_queue_init-IsValid q h fits e = elim (Bool-cases (capacity == 0)) [
    | inl bad ↦ cc (ap (λ r. r.0) (rw bad at e))
    | inr ok ↦
        start-IsValid (release_old a h q).0 (release_old a h q).1 (mul_word capacity 4) _
          (==→ne capacity 0 ok) fits (omega arith) refl (rw ok at e)
  ]
