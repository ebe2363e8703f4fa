-- ===== src/Scheduler/Core/Frames.antt =====
-- The frames that the tasks of scheduler.c have on their stacks: what the steps of `schedule` leave alone.
use nexa_kernel.Base.{
  ℕ, ◌-◌, ◌≡◌, ◌≢◌, refl, ap, ◌∙◌, inl, inr, not, ◌||◌, arith, get_or, get_or-set_cases,
  get_or-set_ne, ◌==◌, Bool-cases,
}
use nexa_kernel.Scheduler.Task.{Task, Frame, is_running, zero_task}
use nexa_kernel.Scheduler.Core.{
  Kernel, current, at, put, scheduler_add_task, requeue_current, mark_running,
}

-- The writes before the switch leave the saved frames alone.
abbrev pub frame_of : Kernel → ℕ → Frame
frame_of k p = (at k p).stack_pointer

pub frame-put :
    (k : Kernel) (q p : ℕ) (t : Task)
    → t.stack_pointer ≡ (at k q).stack_pointer
    → frame_of (put k q t) p ≡ frame_of k p
frame-put k q p t same = elim (get_or-set_cases k.tasks.task_table (q - 1) (p - 1) t zero_task) [
  | inl e ↦ ap (λ t'. Task.stack_pointer t') e
  | inr (e, found) ↦
      ap (λ t'. Task.stack_pointer t') found
      ∙ same
      ∙ ap (λ i. Task.stack_pointer (get_or k.tasks.task_table i zero_task)) e
]

pub frame-put_other :
    (k : Kernel) (q p : ℕ) (t : Task) → q - 1 ≢ p - 1 → frame_of (put k q t) p ≡ frame_of k p
frame-put_other k q p t ne =
    ap (λ t'. Task.stack_pointer t')
      (get_or-set_ne k.tasks.task_table (q - 1) (p - 1) t zero_task ne)

pub frame-add : (k : Kernel) (q p : ℕ) → frame_of (scheduler_add_task k q) p ≡ frame_of k p
unfolding scheduler_add_task
frame-add k q p = ground arith

pub frame-requeue : (k : Kernel) (p : ℕ) → frame_of (requeue_current k) p ≡ frame_of k p
unfolding requeue_current
frame-requeue k p =
    elim (Bool-cases (current k == 0 || not (is_running (at k (current k)).state))) [
      | inl refused ↦ simp refused refl
      | inr kept ↦ simp kept (frame-add _ (current k) p ∙ frame-put k (current k) p _ refl)
    ]

pub frame-mark_running : (k : Kernel) (next p : ℕ) → frame_of (mark_running k next) p ≡ frame_of k p
unfolding mark_running
frame-mark_running k next p = frame-put k next p _ refl
