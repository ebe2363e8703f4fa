-- ===== src/Scheduler/RrQueue/Tests.antt =====
-- Runs of round_robin_queue.c, and the theorems at concrete queues.
use nexa_kernel.Base.{◌≡◌, refl, true, false, List, [], ◌∷◌, arith}
use nexa_kernel.Allocator.Bump.{bump}
use nexa_kernel.Scheduler.Fifo
use nexa_kernel.Scheduler.Fifo.{Call, Reply, enqueue, dequeue, peek_front, take_out, done, task}
use nexa_kernel.Scheduler.RrQueue.{
  find_index, remove_index, shift_back, RrQueue, run_queue, rr_queue_init, clear_slots, rr_enqueue,
  rr_dequeue, rr_peek, rr_remove,
}
use nexa_kernel.Scheduler.RrQueue.Invariant.{IsValid, tasks, rr_queue_init-IsValid}
use nexa_kernel.Scheduler.RrQueue.Refine.{rr_remove_lem}
use nexa_kernel.Scheduler.RrQueue.Run.{run, run_refines}

-- Full, and wrapped round the end of the array: tasks 30, 40, 50.
abbrev wrapped : RrQueue
wrapped = record {
  buffer = 64;
  cells = 40 ∷ 50 ∷ 30 ∷ [];
  capacity = 3;
  size = 3;
  head = 2;
  tail = 2;
}

abbrev calls : List Call
calls =
    enqueue 60
    ∷ take_out 40
    ∷ enqueue 60
    ∷ take_out 70
    ∷ peek_front
    ∷ dequeue
    ∷ dequeue
    ∷ dequeue
    ∷ dequeue
    ∷ []

abbrev started : RrQueue
started = record {
  buffer = 1;
  cells = 0 ∷ 0 ∷ 0 ∷ 0 ∷ 0 ∷ 0 ∷ 0 ∷ 0 ∷ [];
  capacity = 2;
  size = 0;
  head = 0;
  tail = 0;
}

wrapped-IsValid : IsValid wrapped
wrapped-IsValid = omega arith

run-wrapped :
    run wrapped calls
    ≡ done false
      ∷ done true
      ∷ done true
      ∷ done false
      ∷ task 30
      ∷ task 30
      ∷ task 50
      ∷ task 60
      ∷ task 0
      ∷ []
unfolding run rr_enqueue rr_dequeue rr_peek rr_remove find_index remove_index shift_back
run-wrapped = refl

run_refines_example : run wrapped calls ≡ Fifo.run 3 (30 ∷ 40 ∷ 50 ∷ []) calls
run_refines_example = run_refines calls wrapped wrapped-IsValid

rr_remove_lem_example :
    (((rr_remove wrapped 40).0, tasks (rr_remove wrapped 40).1)
      ≡ Fifo.remove (30 ∷ 40 ∷ 50 ∷ []) 40)
    × IsValid (rr_remove wrapped 40).1
    × ((rr_remove wrapped 40).1.capacity ≡ 3)
rr_remove_lem_example = rr_remove_lem wrapped wrapped-IsValid 40

rr_queue_init-IsValid_example : IsValid started × (started.capacity ≡ 2) × (tasks started ≡ [])
unfolding rr_queue_init clear_slots
rr_queue_init-IsValid_example =
    rr_queue_init-IsValid bump 8 started 2 run_queue 0 (omega arith) refl
