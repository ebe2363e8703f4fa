-- ===== src/Scheduler/RrQueue/Run.antt =====
-- Any sequence of calls of round_robin_queue.c, against the queue of `Scheduler.Fifo`.
use nexa_kernel.Base.{ℕ, ◌≡◌, refl, ap, ap₂, ◌∙◌, List, [], ◌∷◌, arith}
use nexa_kernel.Scheduler.Fifo
use nexa_kernel.Scheduler.Fifo.{Call, Reply, enqueue, dequeue, peek_front, take_out, done, task}
use nexa_kernel.Scheduler.RrQueue.{RrQueue, rr_enqueue, rr_dequeue, rr_peek, rr_remove}
use nexa_kernel.Scheduler.RrQueue.Invariant.{IsValid, tasks, rr_enqueue-IsValid, rr_dequeue-IsValid}
use nexa_kernel.Scheduler.RrQueue.Refine.{
  rr_enqueue_refines, rr_dequeue_refines, rr_peek_refines, rr_remove_lem,
}

-- A step of the ring, with what a client sees of it.
pub step : RrQueue → Call → Reply × RrQueue
step q (enqueue t) = let (ok, q') = rr_enqueue q t in (done ok, q')
step q dequeue = let (t, q') = rr_dequeue q in (task t, q')
step q peek_front = (task (rr_peek q), q)
step q (take_out t) = let (ok, q') = rr_remove q t in (done ok, q')

unfoldable pub run : RrQueue → List Call → List Reply
unfolding step
run q [] = []
run q (c ∷ cs) = let (r, q') = step q c in r ∷ run q' cs

pub capacity-rr_enqueue : (q : RrQueue) (t : ℕ) → (rr_enqueue q t).1.capacity ≡ q.capacity
unfolding rr_enqueue
capacity-rr_enqueue q t = ground arith

pub capacity-rr_dequeue : (q : RrQueue) → (rr_dequeue q).1.capacity ≡ q.capacity
unfolding rr_dequeue
capacity-rr_dequeue q = ground arith

-- What a step does to a valid ring.
record Steps (q : RrQueue) (c : Call) : Type 0 where
  refines : ((step q c).0, tasks (step q c).1) ≡ Fifo.step q.capacity (tasks q) c
  valid : IsValid (step q c).1
  kept : (step q c).1.capacity ≡ q.capacity

step-Steps : (q : RrQueue) → IsValid q → (c : Call) → Steps q c
unfolding step Fifo.step
step-Steps q v (enqueue t) = record {
  refines = ap (λ r. (done r.0, r.1)) (rr_enqueue_refines q v t);
  valid = rr_enqueue-IsValid q v t;
  kept = capacity-rr_enqueue q t;
}
step-Steps q v dequeue = record {
  refines = ap (λ r. (task r.0, r.1)) (rr_dequeue_refines q v);
  valid = rr_dequeue-IsValid q v;
  kept = capacity-rr_dequeue q;
}
step-Steps q v peek_front = record {
  refines = ap (λ t. (task t, tasks q)) (rr_peek_refines q v);
  valid = v;
  kept = refl;
}
step-Steps q v (take_out t) =
    let (same, valid, kept) = rr_remove_lem q v t in
    record { refines = ap (λ r. (done r.0, r.1)) same; valid = valid; kept = kept }

-- A valid ring answers every sequence of enqueue, dequeue, peek and remove calls as the
-- first-in-first-out list of its tasks does that is bounded by the capacity.
pub run_refines :
    (cs : List Call) (q : RrQueue) → IsValid q → run q cs ≡ Fifo.run q.capacity (tasks q) cs
unfolding run Fifo.run
run_refines [] q v = refl
run_refines (c ∷ cs) q v =
    let s = step-Steps q v c in
    ap₂ ◌∷◌ (ap (λ r. r.0) s.refines) (
      run_refines cs (step q c).1 s.valid
      ∙ ap₂ (λ n xs. Fifo.run n xs cs) s.kept (ap (λ r. r.1) s.refines))
