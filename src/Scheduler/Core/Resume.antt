-- ===== src/Scheduler/Core/Resume.antt =====
-- The switch of scheduler.c to a task with a stack: what it leaves as it was.
use nexa_kernel.Base.{ℕ, ◌-◌, ◌≡◌, ◌≢◌, refl, ap, ◌∙◌, some, inl, inr, get_or, get_or-set_cases}
use nexa_kernel.Scheduler.Task.{
  Task, TaskState, Frame, no_frame, entry_frame, switch_frame, exit_frame, zero_task,
}
use nexa_kernel.Scheduler.Core.{Kernel, current, at, put, resume}

abbrev pub state_of : Kernel → ℕ → TaskState
state_of k p = (at k p).state

-- A write of a task that keeps its state.
pub state-put :
    (k : Kernel) (q p : ℕ) (t : Task)
    → t.state ≡ (at k q).state
    → state_of (put k q t) p ≡ state_of k p
state-put k q p t same = elim (get_or-set_cases k.tasks.task_table (q - 1) (p - 1) t zero_task) [
  | inl e ↦ ap (λ t'. Task.state t') e
  | inr (e, found) ↦
      ap (λ t'. Task.state t') found
      ∙ same
      ∙ ap (λ i. Task.state (get_or k.tasks.task_table i zero_task)) e
]

-- A switch to a task with a stack goes on as that task; neither the states nor the queue change.
pub resume_lem :
    (k : Kernel) (next : ℕ) (f : Frame)
    → f ≢ no_frame
    → (k' : Kernel) × (resume k next f ≡ some k')
      × (current k' ≡ current k)
      × ((p : ℕ) → state_of k' p ≡ state_of k p)
      × (k'.run_queue ≡ k.run_queue)
unfolding resume
resume_lem k next no_frame there = absurd (there refl)
resume_lem k next switch_frame there = (_, refl, refl, λ p. refl, refl)
resume_lem k next exit_frame there = (_, refl, refl, λ p. refl, refl)
resume_lem k next entry_frame there = (_, refl, refl, λ p. state-put k next p _ refl, refl)
