-- ===== src/Scheduler/PriorityQueue/Removal.antt =====
-- What leaves the array of priority_queue.c: `pq_dequeue` and `pq_remove`.
use nexa_kernel.Base.{
  ℕ, suc, sym, ◌+◌, ◌⊎◌, Bool, ◌-◌, ◌≤◌, ◌<◌, ◌≡◌, ◌≢◌, refl, ap, ◌∙◌, inl, inr, true, false, ◌&&◌,
  ◌||◌, List, arith, length, length-set, get_or, set, get_or-set, ltb, leb, ◌==◌, ==_of_ne, lt→ltb,
  leb_of_lt, if◌then◌else◌, Bool-cases, dec_lt, word_mod,
}
use nexa_kernel.Scheduler.PriorityQueue.{
  TaskFields, PriorityQueue, parent, negative, task_compare, restore, find_task, pq_dequeue,
  pq_remove,
}
use nexa_kernel.Scheduler.PriorityQueue.Order.{rank}
use nexa_kernel.Scheduler.PriorityQueue.Tally.{
  hits, tally, copies, tally-above, tally-set, tally-last, tally-restore,
}
use nexa_kernel.Scheduler.PriorityQueue.Restore.{IsBroken, restore_lem}
use nexa_kernel.Scheduler.PriorityQueue.Find.{find_task_lem}
use nexa_kernel.Scheduler.PriorityQueue.Sift.{root_least}
use nexa_kernel.Scheduler.PriorityQueue.Heap.{IsFilled, IsHeap, length-up, length-down, ranks}
use nexa_kernel.Scheduler.PriorityQueue.Queue.{IsQueue}

module _ (t : TaskFields) (small : (a : ℕ) → t.pid a < word_mod) (q : PriorityQueue)
    (v : IsQueue t small q) where
  open q use {cells, size, capacity}

  abbrev k : ℕ → ℕ
  k = ranks t small size cells

  -- The array after the last entry has moved to `index` and left its place, with one entry less.
  module _ (index : ℕ) (lt : suc index < size) where
    abbrev last : ℕ
    last = size - 1

    abbrev moved : List ℕ
    moved = set (set cells index (get_or cells last 0)) last 0

    moved-at :
        (i : ℕ)
        → i < last
        → get_or moved i 0 ≡ (if index == i then get_or cells last 0 else get_or cells i 0)
    moved-at i h =
        get_or-set (set cells index (get_or cells last 0)) last i 0 0
          (omega (arith, length-set cells index (get_or cells last 0), v.room, v.fits))
        ∙ ground (
          arith,
          get_or-set cells index i (get_or cells last 0) 0 (omega (arith, v.room, v.fits)),
        )

    moved-same : (i : ℕ) → i < last → i ≢ index → ranks t small last moved i ≡ k i
    moved-same i h ne = ap (rank t small) (moved-at i h ∙ ground arith)

    moved-IsFilled : IsFilled last moved
    moved-IsFilled = record {
      room = omega (
        arith,
        length-set (set cells index (get_or cells last 0)) last 0,
        length-set cells index (get_or cells last 0),
        v.room,
        v.fits,
      );
      no_null = λ i h. rw (moved-at i h) (
          ground (
            arith,
            v.heap.is_filled.no_null i (omega arith),
            v.heap.is_filled.no_null last (omega arith),
          ));
    }

    moved-IsBroken : IsBroken last index (ranks t small last moved)
    moved-IsBroken = record {
      others = λ i pos h off apart. omega (
        arith,
        moved-same i h off,
        moved-same (parent i) (omega arith) apart,
        v.heap.is_ordered i pos (omega arith),
      );
      around = λ i pos h e deep. omega (
        arith,
        moved-same i h (λ x. absurd (omega arith)),
        moved-same (parent index) (omega arith) (λ x. absurd (omega arith)),
        ap k e,
        v.heap.is_ordered i pos (omega arith),
        v.heap.is_ordered index deep (omega arith),
      );
    }

    restored : IsHeap t small last (restore t moved last index)
    restored = restore_lem t small last moved index (omega arith) moved-IsFilled moved-IsBroken

    length-restored : length (restore t moved last index) ≡ length cells
    unfolding restore
    length-restored =
        elim (Bool-cases (
          ltb 0 index
          && negative (task_compare t (get_or moved index 0) (get_or moved (parent index) 0)))) [
            | inl above ↦ rw (above, restore) (length-up t index moved index ∙ length-moved)
            | inr below ↦ rw (below, restore) (length-down t last moved last index ∙ length-moved)
          ]
      where
        length-moved : length moved ≡ length cells
        length-moved =
            length-set (set cells index (get_or cells last 0)) last 0
            ∙ length-set cells index (get_or cells last 0)

    restored-IsQueue :
        IsQueue t small (record q { cells = restore t moved last index; size = last })
    restored-IsQueue = record {
      room = omega (arith, length-restored, v.room);
      fits = omega (arith, v.fits);
      word = v.word;
      heap = restored;
    }

    -- The entry at `index` is gone, and no other is lost or doubled.
    tally-restored :
        (x : ℕ)
        → tally x last (restore t moved last index) + hits (get_or cells index 0) x ≡ copies x q
    tally-restored x = omega (
      arith,
      tally-restore x last t moved index (omega arith) moved-IsFilled.room,
      tally-above x last (set cells index (get_or cells last 0)) last 0 (omega arith),
      tally-set x last cells index (get_or cells last 0) (omega arith)
          (omega (arith, v.room, v.fits)),
      tally-last x last cells,
      ap (λ n. tally x n cells) (suc_last lt),
    )
      where
        suc_last : suc index < size → suc (size - 1) ≡ size
        suc_last more = omega arith

  -- The last entry is gone.
  tally-emptied :
      (x index rest : ℕ)
      → index ≡ rest
      → suc rest ≡ size
      → tally x rest (set cells index 0) + hits (get_or cells index 0) x ≡ copies x q
  tally-emptied x index rest same e = omega (
    arith,
    tally-above x rest cells index 0 (omega arith),
    tally-last x rest cells,
    ap (λ n. tally x n cells) e,
    ap (λ i. hits (get_or cells i 0) x) same,
  )

  -- The queue that has lost its last entry.
  emptied-IsQueue :
      (index rest : ℕ)
      → index ≡ rest
      → suc rest ≡ size
      → IsQueue t small (record q { cells = set cells index 0; size = rest })
  emptied-IsQueue index rest same e = record {
    room = omega (arith, length-set cells index 0, v.room);
    fits = omega (arith, v.fits);
    word = v.word;
    heap = record {
      is_filled = record {
        room = omega (arith, length-set cells index 0, v.room, v.fits);
        no_null = λ i h.
            rw (get_or-set cells index i 0 0 (omega (arith, v.room, v.fits)))
              (ground (arith, v.heap.is_filled.no_null i));
      };
      is_ordered = λ i pos h.
          omega
            (arith, kept i h, kept (parent i) (omega arith), v.heap.is_ordered i pos (omega arith));
    };
  }
    where
      kept : (i : ℕ) → i < rest → ranks t small rest (set cells index 0) i ≡ k i
      kept i h =
          ap (rank t small)
            (get_or-set cells index i 0 0 (omega (arith, v.room, v.fits)) ∙ ground arith)

  -- With 32-bit pids, on a well-formed initialised queue that is not empty, `pq_dequeue` yields a task
  -- that no entry precedes by priority and pid, takes one off the size, and keeps the queue well
  -- formed; the queue then holds that task once less, and every other task as often as before.
  pub pq_dequeue-IsQueue :
      q.buffer ≢ 0
      → 0 < size
      → ((i : ℕ) → i < size → rank t small (pq_dequeue t q).0 ≤ rank t small (get_or cells i 0))
        × IsQueue t small (pq_dequeue t q).1
        × (suc (pq_dequeue t q).1.size ≡ size)
        × ((x : ℕ) → copies x (pq_dequeue t q).1 + hits (pq_dequeue t q).0 x ≡ copies x q)
  unfolding pq_dequeue restore
  pq_dequeue-IsQueue ready pos = elim (dec_lt 1 size) [
    | yes more ↦
        simp
          (
            ==_of_ne q.buffer 0 ready,
            ==_of_ne size 0 (λ e. absurd (omega arith)),
            lt→ltb 0 (size - 1) (omega arith),
          )
          (
            root_least size k v.heap.is_ordered,
            restored-IsQueue 0 more,
            omega arith,
            tally-restored 0 more,
          )
    | no one ↦
        simp
          (
            ==_of_ne q.buffer 0 ready,
            ==_of_ne size 0 (λ e. absurd (omega arith)),
            ltb_one (omega arith),
          )
          (
            root_least size k v.heap.is_ordered,
            emptied-IsQueue 0 (size - 1) (omega arith) (omega arith),
            omega arith,
            λ x. tally-emptied x 0 (size - 1) (omega arith) (omega arith),
          )
  ]
    where
      ltb_one : size ≡ 1 → ltb 0 (size - 1) ≡ false
      ltb_one e = ground arith

  -- What a removal of `task` answers if an entry of the queue is `task`.
  abbrev Removed : ℕ → Bool × PriorityQueue → Type 0
  Removed task r =
      (r.0 ≡ true)
      × IsQueue t small r.1
      × (suc r.1.size ≡ size)
      × ((x : ℕ) → copies x r.1 + hits task x ≡ copies x q)

  pq_remove-found :
      (task : ℕ)
      → task ≢ 0
      → q.buffer ≢ 0
      → find_task size cells 0 task < size
      → get_or cells (find_task size cells 0 task) 0 ≡ task
      → Removed task (pq_remove t q task)
  unfolding pq_remove
  pq_remove-found task given ready inside there =
      let index : ℕ = find_task size cells 0 task in
      let asked : (task == 0 || q.buffer == 0 || size == 0) ≡ false = ground arith in
      let found : leb size index ≡ false = leb_of_lt size index inside in
      elim (dec_lt (suc index) size) [
        | yes inner ↦
            simp (asked, found, lt→ltb index (size - 1) (omega arith))
              (
                refl,
                restored-IsQueue index inner,
                omega arith,
                λ x.
                    ap
                      (λ c.
                        tally x (size - 1) (restore t (moved index inner) (size - 1) index)
                        + hits c x)
                      (sym there)
                    ∙ tally-restored index inner x,
              )
        | no final ↦
            simp (asked, found, ltb_last index (omega arith))
              (
                refl,
                emptied-IsQueue index (size - 1) (omega arith) (omega arith),
                omega arith,
                λ x.
                    ap (λ c. tally x (size - 1) (set cells index 0) + hits c x) (sym there)
                    ∙ tally-emptied x index (size - 1) (omega arith) (omega arith),
              )
      ]
    where
      ltb_last : (index : ℕ) → suc index ≡ size → ltb index (size - 1) ≡ false
      ltb_last index e = ground arith

  pq_remove-absent :
      (task : ℕ) → find_task size cells 0 task ≡ size → pq_remove t q task ≡ (false, q)
  unfolding pq_remove
  pq_remove-absent task end = elim (Bool-cases (task == 0 || q.buffer == 0 || size == 0)) [
    | inl refused ↦ simp refused refl
    | inr asked ↦ simp (asked, end, leb_self size) refl
  ]
    where
      leb_self : (n : ℕ) → leb n n ≡ true
      leb_self n = ground arith

  -- With 32-bit pids, on a well-formed initialised queue, for a task that is not null: if an entry is
  -- the task, `pq_remove` of it
  -- succeeds, takes one off the size and keeps the queue well formed (its entries in the order of a
  -- heap), which then holds that task once less, and every other task as often as before. If none is,
  -- it fails, and the queue is as it was.
  pub pq_remove-IsQueue :
      (task : ℕ)
      → task ≢ 0
      → q.buffer ≢ 0
      → ((i : ℕ) × (i < size)
          × (get_or cells i 0 ≡ task)
          × ((pq_remove t q task).0 ≡ true)
          × IsQueue t small (pq_remove t q task).1
          × (suc (pq_remove t q task).1.size ≡ size)
          × ((x : ℕ) → copies x (pq_remove t q task).1 + hits task x ≡ copies x q))
        ⊎ (((i : ℕ) → i < size → get_or cells i 0 ≢ task) × (pq_remove t q task ≡ (false, q)))
  pq_remove-IsQueue task given ready = elim (find_task_lem size cells 0 task) [
    | inl (le, lt, there) ↦
        let (done, v', less, held) = pq_remove-found task given ready (omega (arith, lt)) there in
        inl (find_task size cells 0 task, omega (arith, lt), there, done, v', less, held)
    | inr (end, absent) ↦ inr (
      λ i lt. absent i (omega arith) (omega (arith, lt)),
      pq_remove-absent task (omega (arith, end)),
    )
  ]
