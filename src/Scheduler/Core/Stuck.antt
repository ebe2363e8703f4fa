-- ===== src/Scheduler/Core/Stuck.antt =====
-- What happens in scheduler.c once `schedule` has switched to a task that runs for the first time: the
-- flag `scheduling_in_progress` is cleared only behind the switch, and such a task does not come there.
use nexa_kernel.Base.{
  ℕ, ◌-◌, ◌≡◌, ◌≢◌, refl, sym, ap, ◌∙◌, ◌⊎◌, inl, inr, true, not, ◌||◌, Bool, false, some, some_inj,
  List, arith, ◌==◌, ==_iff, ==_of_ne, ℕ_discrete, Bool-cases,
}
use nexa_kernel.Scheduler.Task.{
  Task, Frame, no_frame, entry_frame, switch_frame, exit_frame, is_running, Tasks, task_at,
}
use nexa_kernel.Scheduler.Core.{
  Kernel, current, at, set_current, resume, switch_to_task, task_switch_asm, pick_next_task,
  requeue_current, dispatch, stay, enter, mark_running, save_context, sched_policy_priority,
  schedule,
}
use nexa_kernel.Scheduler.Core.Calls.{Call, calls, exits, IsStuck, add-IsStuck, calls-Kept}
use nexa_kernel.Scheduler.Core.Frames.{frame_of, frame-put_other, frame-requeue, frame-mark_running}

resume-current :
    (k k' : Kernel) (next : ℕ) (f : Frame) → resume k next f ≡ some k' → current k' ≡ current k
unfolding resume
resume-current k k' next no_frame e = cc
resume-current k k' next switch_frame e = ap current (sym (some_inj _ k' e))
resume-current k k' next exit_frame e = ap current (sym (some_inj _ k' e))
resume-current k k' next entry_frame e = ap current (sym (some_inj _ k' e))

resume-entry :
    (k k' : Kernel) (next : ℕ)
    → resume k next entry_frame ≡ some k'
    → k.scheduling_in_progress ≡ true
    → (k'.scheduling_in_progress ≡ true) × (k'.leaving ≡ false)
unfolding resume
resume-entry k k' next e set = (
  ap (λ s. Kernel.scheduling_in_progress s) (sym (some_inj _ k' e)) ∙ set,
  ap (λ s. Kernel.leaving s) (sym (some_inj _ k' e)),
)

-- The switch to a task that runs for the first time.
switch_to_task-IsStuck :
    (k k' : Kernel) (next : ℕ)
    → switch_to_task k next ≡ some k'
    → frame_of k next ≡ entry_frame
    → k.scheduling_in_progress ≡ true
    → IsStuck next false k'
unfolding switch_to_task
switch_to_task-IsStuck k k' next e fresh set = elim (Bool-cases (next == 0)) [
  | inl null ↦ cc (rw null at e)
  | inr there ↦
      let entered : resume (set_current k next) next entry_frame ≡ some k' =
        rw (there, fresh) at e in
      record {
        set = (resume-entry (set_current k next) k' next entered set).0;
        left = (resume-entry (set_current k next) k' next entered set).1;
        same = resume-current (set_current k next) k' next entry_frame entered;
      }
]

switch_to_task-current :
    (k k' : Kernel) (next : ℕ) → switch_to_task k next ≡ some k' → current k' ≡ next
unfolding switch_to_task
switch_to_task-current k k' next e = elim (Bool-cases (next == 0)) [
  | inl null ↦ cc (rw null at e)
  | inr there ↦
      resume-current (set_current k next) k' next (at k next).stack_pointer (rw there at e)
]

task_switch_asm-IsStuck :
    (k k' : Kernel) (old next : ℕ)
    → old - 1 ≢ next - 1
    → task_switch_asm k old next ≡ some k'
    → frame_of k next ≡ entry_frame
    → k.scheduling_in_progress ≡ true
    → IsStuck next false k'
unfolding task_switch_asm save_context
task_switch_asm-IsStuck k k' old next ne e fresh set =
    switch_to_task-IsStuck _ k' next e (frame-put_other k old next _ ne ∙ fresh) set

-- Where the choice differs from the current task, `dispatch` goes on with it.
module _ (k k' : Kernel) (next : ℕ) (e : dispatch k next ≡ some k') where
  dispatch-stay : next ≡ current k → current k' ≡ current k
  unfolding dispatch stay
  dispatch-stay same = elim (Bool-cases (current k == 0)) [
    | inl null ↦
        ap current (sym (some_inj _ k' (rw ((==_iff next (current k)).1 same) at e)))
        ∙ simp null refl
    | inr there ↦
        ap current (sym (some_inj _ k' (rw ((==_iff next (current k)).1 same) at e)))
        ∙ simp there refl
  ]

  -- What is left of `dispatch` for another task.
  switched :
      next ≢ current k
      → (next ≢ 0)
        × (((current k ≡ 0) × (switch_to_task (mark_running k next) next ≡ some k'))
            ⊎ ((current k ≢ 0)
                × (task_switch_asm (mark_running k next) (current k) next ≡ some k')))
  unfolding dispatch
  switched ne = elim (ℕ_discrete next 0) [
    | yes null ↦ cc (rw (==_of_ne next (current k) ne, (==_iff next 0).1 null) at e)
    | no there ↦ elim (ℕ_discrete (current k) 0) [
      | yes idle ↦ (
        there,
        inl (
          idle,
          simp (==_of_ne next (current k) ne, ==_of_ne next 0 there, (==_iff (current k) 0).1 idle)
              at e,
        ),
      )
      | no busy ↦ (
        there,
        inr (
          busy,
          simp (==_of_ne next (current k) ne, ==_of_ne next 0 there, ==_of_ne (current k) 0 busy) at
              e,
        ),
      )
    ]
  ]

  dispatch-current : next ≢ current k → current k' ≡ next
  unfolding task_switch_asm
  dispatch-current ne = elim (switched ne).1 [
    | inl (idle, e') ↦ switch_to_task-current _ k' next e'
    | inr (busy, e') ↦ switch_to_task-current _ k' next e'
  ]

  dispatch-IsStuck :
      next ≢ current k
      → frame_of k next ≡ entry_frame
      → k.scheduling_in_progress ≡ true
      → IsStuck next false k'
  unfolding mark_running
  dispatch-IsStuck ne fresh set =
      let (there, way) = switched ne in
      elim way [
        | inl (idle, e') ↦
            switch_to_task-IsStuck (mark_running k next) k' next e'
              (frame-mark_running k next next ∙ fresh) set
        | inr (busy, e') ↦
            task_switch_asm-IsStuck (mark_running k next) k' (current k) next (apart there busy) e'
              (frame-mark_running k next next ∙ fresh) set
      ]
    where
      apart : next ≢ 0 → current k ≢ 0 → current k - 1 ≢ next - 1
      apart there busy same = ne (omega arith)

-- The choice of the next task changes neither the tasks nor the flag.
record IsChoice (k : Kernel) (r : ℕ × Kernel) : Type 0 where
  kept : Kernel.tasks r.1 ≡ k.tasks
  flag : Kernel.scheduling_in_progress r.1 ≡ k.scheduling_in_progress

pick_next_task-IsChoice : (k : Kernel) → IsChoice k (pick_next_task k)
unfolding pick_next_task
pick_next_task-IsChoice k = elim (Bool-cases (k.current_policy == sched_policy_priority)) [
  | inl by_priority ↦ simp by_priority (record { kept = refl; flag = refl })
  | inr in_turn ↦ simp in_turn (record { kept = refl; flag = refl })
]

requeue_current-IsStuck :
    (p : ℕ) (l : Bool) (k : Kernel) → IsStuck p l k → IsStuck p l (requeue_current k)
unfolding requeue_current
requeue_current-IsStuck p l k v =
    elim (Bool-cases (current k == 0 || not (is_running (at k (current k)).state))) [
      | inl refused ↦ simp refused v
      | inr kept ↦
          simp kept
            (add-IsStuck p l _ (current k) (record { set = v.set; same = v.same; left = v.left }))
    ]

-- The state in which `schedule` has chosen, and its choice.
module _ (k k' : Kernel) (e : schedule k ≡ some k') where
  chosen : ℕ × Kernel
  chosen = pick_next_task (requeue_current (enter k))

  chosen-current : (current chosen.1 ≡ current k) × (Kernel.scheduling_in_progress chosen.1 ≡ true)
  unfolding chosen
  chosen-current =
      let v =
        requeue_current-IsStuck (current k) k.leaving (enter k)
          (record { set = refl; same = refl; left = refl }) in
      let c = pick_next_task-IsChoice (requeue_current (enter k)) in
      (ap (λ s. Tasks.current_task s) c.kept ∙ v.same, c.flag ∙ v.set)

  chosen-frame : (p : ℕ) → frame_of chosen.1 p ≡ frame_of k p
  unfolding chosen
  chosen-frame p =
      let c = pick_next_task-IsChoice (requeue_current (enter k)) in
      ap (λ s. Task.stack_pointer (task_at s p)) c.kept ∙ frame-requeue (enter k) p

  -- A call that changes the current task has gone through its guards.
  dispatched : current k' ≢ current k → dispatch chosen.1 chosen.0 ≡ some k'
  unfolding schedule chosen
  dispatched moved = elim (Bool-cases k.scheduling_in_progress) [
    | inl busy ↦ absurd (moved (sym (ap current (some_inj k k' (simp busy at e)))))
    | inr idle ↦ elim (Bool-cases (not k.scheduler_running || not k.scheduler_initialized)) [
      | inl off ↦ absurd (moved (sym (ap current (some_inj k k' (simp (idle, off) at e)))))
      | inr on ↦ simp (idle, on) at e
    ]
  ]

  schedule-IsStuck :
      current k' ≢ current k → frame_of k (current k') ≡ entry_frame → IsStuck (current k') false k'
  schedule-IsStuck moved fresh = elim (ℕ_discrete chosen.0 (current chosen.1)) [
    | yes same ↦
        absurd
          (moved (dispatch-stay chosen.1 k' chosen.0 (dispatched moved) same ∙ chosen-current.0))
    | no ne ↦
        let there : current k' ≡ chosen.0 =
          dispatch-current chosen.1 k' chosen.0 (dispatched moved) ne in
        let v =
          dispatch-IsStuck chosen.1 k' chosen.0 (dispatched moved) ne
            (chosen-frame chosen.0 ∙ ap (frame_of k) (sym there) ∙ fresh) chosen-current.1 in
        record { set = v.set; same = refl; left = v.left }
  ]

-- If `schedule` switches to a task whose stack is the one that `task_create` has set up, no call of
-- that task (yield, sleep, wake-up, exit) and no tick of the timer after that changes the current task
-- any more. The task goes on with its own code, or, once it has called `task_exit`, halts for ever in
-- the loop behind the call of `schedule` there.
pub schedule_entry_stuck :
    (k k' : Kernel) (cs : List Call)
    → schedule k ≡ some k'
    → current k' ≢ current k
    → current k' ≢ 0
    → (at k (current k')).stack_pointer ≡ entry_frame
    → (k'' : Kernel) × (calls k' cs ≡ some k'')
      × (current k'' ≡ current k')
      × (k''.leaving ≡ exits cs)
schedule_entry_stuck k k' cs e moved there fresh =
    let (k'', e', v) =
      calls-Kept (current k') there false k' cs (schedule-IsStuck k k' e moved fresh) in
    (k'', e', v.same, v.left)
