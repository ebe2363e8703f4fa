-- ===== src/Scheduler/Core/Start.antt =====
-- `scheduler_start` of scheduler.c under round robin.
use nexa_kernel.Base.{
  ℕ, ◌-◌, ◌<◌, ◌≡◌, ◌≢◌, refl, sym, ap, ◌∙◌, true, false, some, List, ◌∷◌, length, get_or-set_self,
  ◌==◌, ==_of_ne,
}
use nexa_kernel.Scheduler.Fifo
use nexa_kernel.Scheduler.Task.{Task, no_frame, running, zero_task}
use nexa_kernel.Scheduler.RrQueue.Invariant.{IsValid, tasks as queued}
use nexa_kernel.Scheduler.RrQueue.Refine.{rr_peek_refines}
use nexa_kernel.Scheduler.Core.{
  Kernel, current, at, set_current, resume, switch_to_task, first_task, launch, scheduler_start,
  sched_policy_priority,
}
use nexa_kernel.Scheduler.Core.Frames.{frame_of, frame-put}
use nexa_kernel.Scheduler.Core.Resume.{resume_lem}

module _ (k : Kernel) (t : ℕ) (ts : List ℕ) (v : IsValid k.run_queue)
    (e : queued k.run_queue ≡ t ∷ ts) (given : t ≢ 0)
    (in_turn : (k.current_policy == sched_policy_priority) ≡ false) where
  first_task-front : first_task k ≡ t
  unfolding first_task Fifo.peek
  first_task-front =
      let front = rr_peek_refines k.run_queue v ∙ ap Fifo.peek e in
      simp (in_turn, front, ==_of_ne t 0 given) refl

  start-launch : k.scheduler_initialized ≡ true → scheduler_start k ≡ switch_to_task (launch k t) t
  unfolding scheduler_start
  start-launch set_up = simp (set_up, first_task-front, ==_of_ne t 0 given) refl

  launch-switch :
      switch_to_task (launch k t) t
      ≡ resume (set_current (launch k t) t) t (frame_of (launch k t) t)
  unfolding switch_to_task
  launch-switch = simp (==_of_ne t 0 given) refl

  frame-launch : frame_of (launch k t) t ≡ frame_of k t
  unfolding launch
  frame-launch = frame-put k t t _ refl

  state-launch : t - 1 < length k.tasks.task_table → (at (launch k t) t).state ≡ running
  unfolding launch
  state-launch room =
      ap (λ x. Task.state x) (get_or-set_self k.tasks.task_table (t - 1) _ zero_task room)

  queued-launch : queued (Kernel.run_queue (launch k t)) ≡ t ∷ ts
  unfolding launch
  queued-launch = e

  -- Under round robin `scheduler_start` gives the CPU to the front of the ready queue, a task with a
  -- stack, and marks it as running; the queue is left as it was, so that the running task still
  -- stands at its front.
  pub scheduler_start-front :
      k.scheduler_initialized ≡ true
      → t - 1 < length k.tasks.task_table
      → (at k t).stack_pointer ≢ no_frame
      → (k' : Kernel) × (scheduler_start k ≡ some k')
        × (current k' ≡ t)
        × ((at k' t).state ≡ running)
        × (queued k'.run_queue ≡ current k' ∷ ts)
  scheduler_start-front set_up room there =
      let (k', done, here, state, kept) =
        resume_lem (set_current (launch k t) t) t (frame_of (launch k t) t)
          (λ n. there (sym frame-launch ∙ n)) in
      (
        k',
        start-launch set_up ∙ launch-switch ∙ done,
        here,
        state t ∙ state-launch room,
        ap queued kept ∙ queued-launch ∙ ap (λ p. p ∷ ts) (sym here),
      )
