-- ===== src/Scheduler/PriorityQueue/Queue.antt =====
-- The operations of priority_queue.c keep the heap, and dequeue a task that no other precedes.
use nexa_kernel.Base.{
  ℕ, suc, ◌+◌, get_or-set_self, ◌≤◌, ◌<◌, ◌≡◌, ◌≢◌, refl, ap, ◌∙◌, true, List, arith, length,
  length-set, get_or, set, get_or-set, ◌==◌, ==_of_ne, leb_of_lt, if◌then◌else◌, word_mod, add_word,
}
use nexa_kernel.Scheduler.PriorityQueue.{TaskFields, PriorityQueue, parent, up, pq_enqueue}
use nexa_kernel.Scheduler.PriorityQueue.Order.{rank}
use nexa_kernel.Scheduler.PriorityQueue.Tally.{hits, tally, copies, tally-above, tally-up}
use nexa_kernel.Scheduler.PriorityQueue.Heap.{IsHeap, length-up, ranks, up_lem}

module _ (t : TaskFields) (small : (a : ℕ) → t.pid a < word_mod) where
  -- What a queue that is in use satisfies.
  pub record IsQueue (q : PriorityQueue) : Type 0 where
    pub room : q.capacity ≤ length q.cells
    pub fits : q.size ≤ q.capacity
    pub word : q.capacity < word_mod
    pub heap : IsHeap t small q.size q.cells

  module _ (q : PriorityQueue) (v : IsQueue q) where
    open q use {cells, size, capacity}

    abbrev k : ℕ → ℕ
    k = ranks t small size cells

    module _ (task : ℕ) (given : task ≢ 0) (lt : size < capacity) where
      abbrev appended : List ℕ
      appended = set cells size task

      appended-at : (i : ℕ) → get_or appended i 0 ≡ (if size == i then task else get_or cells i 0)
      appended-at i = get_or-set cells size i task 0 (omega (arith, v.room))

      appended-same : (i : ℕ) → i < size → ranks t small (suc size) appended i ≡ k i
      appended-same i h = ap (rank t small) (appended-at i ∙ ground arith)

      appended-IsHeap : IsHeap t small (suc size) (up t size appended size)
      appended-IsHeap =
          up_lem t small (suc size) size appended size (omega arith) (omega arith)
            (record {
              room = omega (arith, length-set cells size task, v.room);
              no_null = λ i h. rw (appended-at i) (ground (arith, v.heap.is_filled.no_null i));
            })
            (record {
              others = λ i pos h off. omega (
                arith,
                appended-same i (omega arith),
                appended-same (parent i) (omega arith),
                v.heap.is_ordered i pos (omega arith),
              );
              around = λ i pos h e. absurd (omega arith);
            })

      abbrev enqueued : PriorityQueue
      enqueued = record q { cells = up t size appended size; size = suc size }

      pq_enqueue-room : q.buffer ≢ 0 → pq_enqueue t q task ≡ (true, enqueued)
      unfolding pq_enqueue
      pq_enqueue-room ready =
          simp
            (==_of_ne task 0 given, ==_of_ne q.buffer 0 ready, leb_of_lt capacity size lt, counter)
            refl
        where
          counter : add_word size 1 ≡ suc size
          counter = omega (arith, v.word)

      -- The task is in the array once more, and no other entry is lost or doubled.
      tally-enqueued : (x : ℕ) → copies x enqueued ≡ copies x q + hits task x
      unfolding tally
      tally-enqueued x = omega (
        arith,
        tally-up x (suc size) t size appended size (omega arith)
            (omega (arith, length-set cells size task, v.room)),
        tally-above x size cells size task (omega arith),
        ap (λ c. hits c x) (get_or-set_self cells size task 0 (omega (arith, v.room))),
      )

      -- With 32-bit pids, on a well-formed initialised queue with room, `pq_enqueue` of a task that is not
      -- null succeeds, keeps the queue well formed (its entries in the order of a heap), and adds one to
      -- its size; the queue holds that task once more, and every other task as often as before.
      pub pq_enqueue-IsQueue :
          q.buffer ≢ 0
          → ((pq_enqueue t q task).0 ≡ true)
            × IsQueue (pq_enqueue t q task).1
            × ((pq_enqueue t q task).1.size ≡ suc size)
            × ((x : ℕ) → copies x (pq_enqueue t q task).1 ≡ copies x q + hits task x)
      pq_enqueue-IsQueue ready = rw (pq_enqueue-room ready) (
        refl,
        record {
          room = omega (arith, length-up t size appended size, length-set cells size task, v.room);
          fits = omega arith;
          word = v.word;
          heap = appended-IsHeap;
        },
        refl,
        tally-enqueued,
      )
