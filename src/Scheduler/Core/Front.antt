-- ===== src/Scheduler/Core/Front.antt =====
-- A call of `schedule` in scheduler.c under round robin that passes its guards.
use nexa_kernel.Base.{
  ℕ, ◌-◌, ◌<◌, ◌≡◌, ◌≢◌, refl, sym, ap, subst, ◌∙◌, true, false, some, List, [], ◌∷◌, ◌++◌, arith,
  length, length-set, get_or-set_ne, get_or-set_self, ◌==◌, ==_iff, ==_of_ne, ℕ_discrete,
}
use nexa_kernel.Scheduler.Fifo
use nexa_kernel.Scheduler.Task.{Task, no_frame, running, ready, Tasks, zero_task}
use nexa_kernel.Scheduler.RrQueue.{RrQueue, rr_enqueue, rr_dequeue}
use nexa_kernel.Scheduler.RrQueue.Invariant.{
  IsValid, tasks as queued, rr_enqueue-IsValid, rr_dequeue-IsValid,
}
use nexa_kernel.Scheduler.RrQueue.Refine.{rr_enqueue_refines, rr_dequeue_refines, length-tasks}
use nexa_kernel.Scheduler.RrQueue.Run.{capacity-rr_enqueue, capacity-rr_dequeue}
use nexa_kernel.Scheduler.Core.{
  Kernel, current, at, put, set_current, resume, switch_to_task, task_switch_asm,
  scheduler_add_task, pick_next_task, requeue_current, dispatch, stay, enter, mark_running,
  save_context, sched_policy_priority, schedule,
}
use nexa_kernel.Scheduler.Core.Resume.{state_of, state-put, resume_lem}
use nexa_kernel.Scheduler.Core.Frames.{frame_of, frame-put, frame-put_other, frame-mark_running}

-- An enqueue and a dequeue turn the queue by one.
rr_enqueue-room :
    (q : RrQueue)
    → IsValid q
    → (c : ℕ) → c ≢ 0
    → q.size < q.capacity
    → queued (rr_enqueue q c).1 ≡ queued q ++ (c ∷ [])
unfolding Fifo.push
rr_enqueue-room q v c given room =
    ap (λ r. r.1) (rr_enqueue_refines q v c) ∙ ground (arith, length-tasks q v)

module _ (q : RrQueue) (v : IsValid q) (c t : ℕ) (ts : List ℕ) (given : c ≢ 0)
    (room : q.size < q.capacity) (e : queued q ≡ t ∷ ts) where
  abbrev turned_queue : RrQueue
  turned_queue = (rr_dequeue (rr_enqueue q c).1).1

  turned :
      ((rr_dequeue (rr_enqueue q c).1).0 ≡ t)
      × (queued turned_queue ≡ ts ++ (c ∷ []))
      × IsValid turned_queue
      × (turned_queue.capacity ≡ q.capacity)
  unfolding Fifo.pop
  turned =
      let v' = rr_enqueue-IsValid q v c in
      let held = rr_enqueue-room q v c given room ∙ ap (λ xs. xs ++ (c ∷ [])) e in
      let popped = rr_dequeue_refines (rr_enqueue q c).1 v' ∙ ap Fifo.pop held in
      (
        ap (λ r. r.0) popped,
        ap (λ r. r.1) popped,
        rr_dequeue-IsValid (rr_enqueue q c).1 v',
        capacity-rr_dequeue (rr_enqueue q c).1 ∙ capacity-rr_enqueue q c,
      )

-- A pointer to a slot of the table.
abbrev IsTask : Kernel → ℕ → Type 0
IsTask k p = (p ≢ 0) × (p - 1 < length k.tasks.task_table)

-- Round robin is on, a call of `schedule` passes its guards, and a task that runs is on the CPU.
pub record IsRunning (k : Kernel) : Type 0 where
  pub ring : IsValid k.run_queue
  pub room : k.run_queue.size < k.run_queue.capacity
  pub in_turn : (k.current_policy == sched_policy_priority) ≡ false
  pub started : k.scheduler_running ≡ true
  pub set_up : k.scheduler_initialized ≡ true
  pub free : k.scheduling_in_progress ≡ false
  pub here : IsTask k (current k)
  pub runs : (at k (current k)).state ≡ running

schedule-guards :
    (k : Kernel)
    → k.scheduling_in_progress ≡ false
    → k.scheduler_running ≡ true
    → k.scheduler_initialized ≡ true
    → schedule k ≡ (let (next, k') = pick_next_task (requeue_current (enter k)) in dispatch k' next)
unfolding schedule
schedule-guards k free started set_up = simp (free, started, set_up) refl

module _ (k : Kernel) (v : IsRunning k) (t : ℕ) (ts : List ℕ) (e : queued k.run_queue ≡ t ∷ ts)
    (slot : IsTask k t) where
  abbrev c : ℕ
  c = current k

  abbrev next_queue : RrQueue
  next_queue = (rr_dequeue (rr_enqueue k.run_queue c).1).1

  -- The state in which `schedule` has chosen `t`.
  abbrev picked : Kernel
  picked = record (put (enter k) c (record (at k c) { state = ready })) { run_queue = next_queue }

  requeue_current-turn :
      requeue_current (enter k) ≡ record (put (enter k) c (record (at k c) { state = ready })) {
        run_queue = (rr_enqueue k.run_queue c).1;
      }
  unfolding requeue_current scheduler_add_task
  requeue_current-turn = simp (==_of_ne c 0 v.here.0, v.runs, v.in_turn) refl

  turn :
      ((rr_dequeue (rr_enqueue k.run_queue c).1).0 ≡ t)
      × (queued next_queue ≡ ts ++ (c ∷ []))
      × IsValid next_queue
      × (next_queue.capacity ≡ k.run_queue.capacity)
  turn = turned k.run_queue v.ring c t ts v.here.0 v.room e

  pick_next_task-turn : pick_next_task (requeue_current (enter k)) ≡ (t, picked)
  unfolding pick_next_task
  pick_next_task-turn =
      ap pick_next_task requeue_current-turn ∙ simp (v.in_turn, turn.0, ==_of_ne t 0 slot.0) refl

  schedule-turn : schedule k ≡ dispatch picked t
  schedule-turn =
      schedule-guards k v.free v.started v.set_up ∙ ap (λ r. dispatch r.1 r.0) pick_next_task-turn

  -- The states after the choice.
  length-picked : length (Tasks.task_table (Kernel.tasks picked)) ≡ length k.tasks.task_table
  length-picked = length-set k.tasks.task_table (c - 1) _

  state-picked : state_of picked c ≡ ready
  state-picked =
      ap (λ x. Task.state x) (get_or-set_self k.tasks.task_table (c - 1) _ zero_task v.here.1)

  apart : t ≢ c → c - 1 ≢ t - 1
  apart ne same = ne (omega (arith, v.here.0, slot.0))

  marked-runs : state_of (mark_running picked t) t ≡ running
  unfolding mark_running
  marked-runs =
      ap (λ x. Task.state x)
        (get_or-set_self (Tasks.task_table (Kernel.tasks picked)) (t - 1) _ zero_task
          (omega (arith, slot.1, length-picked)))

  marked-waits : t ≢ c → state_of (mark_running picked t) c ≡ ready
  unfolding mark_running
  marked-waits ne =
      ap (λ x. Task.state x)
        (get_or-set_ne (Tasks.task_table (Kernel.tasks picked)) (t - 1) (c - 1) _ zero_task
          (λ same. apart ne (sym same)))
      ∙ state-picked

  -- The state at the switch, once the context of the old task is saved.
  abbrev saved : Kernel
  saved = save_context (mark_running picked t) c

  state-saved : (p : ℕ) → state_of saved p ≡ state_of (mark_running picked t) p
  unfolding save_context
  state-saved p = state-put (mark_running picked t) c p _ refl

  frame-saved : t ≢ c → frame_of saved t ≡ frame_of k t
  unfolding save_context
  frame-saved ne =
      frame-put_other (mark_running picked t) c t _ (apart ne)
      ∙ frame-mark_running picked t t
      ∙ frame-put (enter k) c t _ refl

  dispatch-switch : t ≢ c → dispatch picked t ≡ resume (set_current saved t) t (frame_of saved t)
  unfolding dispatch task_switch_asm switch_to_task
  dispatch-switch ne = simp (==_of_ne t c ne, ==_of_ne t 0 slot.0, ==_of_ne c 0 v.here.0) refl

  queue-saved : Kernel.run_queue saved ≡ next_queue
  unfolding save_context mark_running
  queue-saved = refl

  abbrev Turned : Kernel → Type 0
  Turned k' =
      (current k' ≡ t)
      × ((at k' t).state ≡ running)
      × (t ≢ c → (at k' c).state ≡ ready)
      × (queued k'.run_queue ≡ ts ++ (c ∷ []))
      × IsValid k'.run_queue

  dispatch-stay : t ≡ c → (k' : Kernel) × (dispatch picked t ≡ some k') × Turned k'
  unfolding dispatch stay
  dispatch-stay same = (
    record (put picked t (record (at picked t) { state = running })) {
      scheduling_in_progress = false;
      interrupts = true;
    },
    simp ((==_iff t c).1 same, ==_of_ne c 0 v.here.0) refl,
    (
      sym same,
      ap (λ x. Task.state x)
          (get_or-set_self (Tasks.task_table (Kernel.tasks picked)) (t - 1)
            (record (at picked t) { state = running }) zero_task
            (omega (arith, slot.1, length-picked))),
      λ ne. absurd (ne same),
      turn.1,
      turn.2,
    ),
  )

  switched :
      t ≢ c → frame_of k t ≢ no_frame → (k' : Kernel) × (dispatch picked t ≡ some k') × Turned k'
  switched ne there =
      let (k', done, now, state, kept) =
        resume_lem (set_current saved t) t (frame_of saved t)
          (λ n. there (sym (frame-saved ne) ∙ n)) in
      let queue : k'.run_queue ≡ next_queue = kept ∙ queue-saved in
      (
        k',
        dispatch-switch ne ∙ done,
        (
          now,
          state t ∙ state-saved t ∙ marked-runs,
          λ ne'. state c ∙ state-saved c ∙ marked-waits ne',
          ap queued queue ∙ turn.1,
          subst IsValid (sym queue) turn.2,
        ),
      )

  -- Under round robin, where a call of `schedule` passes its guards, a task in the state running has the
  -- CPU, and the valid ready queue is not empty and has room for one more: the front of the ready queue, a task with a stack, gets the CPU and is marked as running; the task
  -- that had it goes to the back of the queue, and is ready, unless it was the front itself.
  pub schedule-front :
      (at k t).stack_pointer ≢ no_frame
      → (k' : Kernel) × (schedule k ≡ some k')
        × (current k' ≡ t)
        × ((at k' t).state ≡ running)
        × (t ≢ current k → (at k' (current k)).state ≡ ready)
        × (queued k'.run_queue ≡ ts ++ (current k ∷ []))
        × IsValid k'.run_queue
  schedule-front there = elim (ℕ_discrete t c) [
    | yes same ↦
        let (k', done, (now, runs, waits, held, valid)) = dispatch-stay same in
        (k', schedule-turn ∙ done, now, runs, waits, held, valid)
    | no ne ↦
        let (k', done, (now, runs, waits, held, valid)) = switched ne there in
        (k', schedule-turn ∙ done, now, runs, waits, held, valid)
  ]
