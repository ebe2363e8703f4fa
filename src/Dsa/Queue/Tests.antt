-- ===== src/Dsa/Queue/Tests.antt =====
-- Runs of lib/dsa/queue.c on a ring of three slots whose entries wrap around.
use nexa_kernel.Base.{◌<◌, ◌≡◌, refl, ◌⊎◌, [], ◌∷◌, arith}
use nexa_kernel.Dsa.Queue.{Queue, queue_dequeue}
use nexa_kernel.Dsa.Queue.Order.{IsRing, entries, queue_dequeue_lem}

abbrev wrapped : Queue
wrapped = record { buffer = 64; cells = 8 ∷ 9 ∷ 7 ∷ []; capacity = 3; size = 2; head = 2; tail = 1 }

wrapped-IsRing : IsRing wrapped
wrapped-IsRing = record {
  room = omega arith;
  small = omega arith;
  head_in = omega arith;
  fits = omega arith;
  tail_at = refl;
}

queue_dequeue_lem_example :
    ((0 < 2)
      × (entries wrapped ≡ (queue_dequeue wrapped).0 ∷ entries (queue_dequeue wrapped).1)
      × IsRing (queue_dequeue wrapped).1)
    ⊎ ((entries wrapped ≡ []) × (queue_dequeue wrapped ≡ (0, wrapped)))
queue_dequeue_lem_example = queue_dequeue_lem wrapped wrapped-IsRing
