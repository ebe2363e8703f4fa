-- ===== src/Scheduler/Task/Create.antt =====
-- `task_create` of task.c: what it grants, and what is left if there is no memory for the stack.
use nexa_kernel.Base.{
  ℕ, zero, suc, ◌+◌, ◌-◌, ◌<◌, ◌≡◌, ◌≢◌, refl, sym, ap, subst, ◌∙◌, inl, inr, true, Option, none,
  some, List, [], ◌∷◌, arith, length, get_or, get_or-set_ne, get_or-set_self, get_or-set_cases,
  ==_of_ne, Bool-cases, Option-cases, add_word,
}
use nexa_kernel.Allocator.{Allocator, Block}
use nexa_kernel.Scheduler.Task.{
  Task, Tasks, TaskState, unused, creating, ready, running, blocked, sleeping, terminated, zombie,
  entry_frame, zero_task, is_unused, task_at, find_free_task_slot, named_task, stack_bytes,
  give_stack, task_create,
}

is_unused-eq : (st : TaskState) → is_unused st ≡ true → st ≡ unused
is_unused-eq unused e = refl
is_unused-eq creating e = cc
is_unused-eq ready e = cc
is_unused-eq running e = cc
is_unused-eq blocked e = cc
is_unused-eq sleeping e = cc
is_unused-eq terminated e = cc
is_unused-eq zombie e = cc

-- The search yields the pointer to an unused slot of the table.
find_free-some :
    (ts : List Task) (i p : ℕ)
    → find_free_task_slot ts i ≡ some p
    → (d : ℕ) × (p ≡ suc (i + d)) × (d < length ts) × ((get_or ts d zero_task).state ≡ unused)
unfolding find_free_task_slot
find_free-some [] i p e = cc
find_free-some (t ∷ ts) i p e = elim (Bool-cases (is_unused t.state)) [
  | inl free ↦ (0, ground arith, omega arith, is_unused-eq t.state free)
  | inr used ↦
      let (d, at, inside, free) = find_free-some ts (suc i) p (rw used at e) in
      (suc d, omega arith, omega arith, free)
]

-- Where a slot is unused, the search finds one.
find_free-found :
    (ts : List Task) (i d : ℕ)
    → d < length ts
    → (get_or ts d zero_task).state ≡ unused
    → (p : ℕ) × (find_free_task_slot ts i ≡ some p)
unfolding find_free_task_slot
find_free-found [] i d lt free = absurd (omega arith)
find_free-found (t ∷ ts) i zero lt free = (suc i, rw free refl)
find_free-found (t ∷ ts) i (suc d) lt free = elim (Bool-cases (is_unused t.state)) [
  | inl here ↦ (suc i, rw here refl)
  | inr used ↦
      let (p, found) = find_free-found ts (suc i) d (omega arith) free in (p, rw used found)
]

module _ (a : Allocator) (h h' : Allocator.Heap a) (s : Tasks) (name : Option (List ℕ))
    (entry arg priority size ticks : ℕ) where
  abbrev made : ℕ × Tasks × Allocator.Heap a
  made = task_create a h s name entry arg priority size ticks

  -- What is done in the slot `p` that was found.
  made_in :
      (p : ℕ)
      → entry ≢ 0
      → s.initialized ≡ true
      → find_free_task_slot s.task_table 0 ≡ some p
      → made
        ≡ give_stack
            (record s { next_pid = add_word s.next_pid 1 })
            p
            (named_task (task_at s p) s.next_pid name priority)
            (stack_bytes size)
            entry
            arg
            ticks
            (Allocator.kmalloc a h (stack_bytes size))
  unfolding task_create
  made_in p given on found = simp (==_of_ne entry 0 given, on, found) refl

  abbrev Granted : Block → ℕ × Tasks × Allocator.Heap a → Type 0
  Granted b r =
      (r.0 ≢ 0)
      × ((task_at s r.0).state ≡ unused)
      × ((task_at r.1 r.0).state ≡ ready)
      × ((task_at r.1 r.0).stack_pointer ≡ entry_frame)
      × ((task_at r.1 r.0).pid ≡ s.next_pid)
      × ((task_at r.1 r.0).stack_base ≡ b.addr)
      × ((q : ℕ) → q - 1 ≢ r.0 - 1 → task_at r.1 q ≡ task_at s q)
      × (Tasks.next_pid r.1 ≡ add_word s.next_pid 1)
      × (Tasks.active_task_count r.1 ≡ add_word s.active_task_count 1)

  abbrev answered : ℕ → Option Block × Allocator.Heap a → ℕ × Tasks × Allocator.Heap a
  answered p =
      give_stack (record s { next_pid = add_word s.next_pid 1 }) p
        (named_task (task_at s p) s.next_pid name priority) (stack_bytes size) entry arg ticks

  answered-Granted :
      (b : Block) (p : ℕ)
      → p ≢ 0
      → p - 1 < length s.task_table
      → (task_at s p).state ≡ unused
      → Granted b (answered p (some b, h'))
  unfolding give_stack named_task
  answered-Granted b p there room was = (
    there,
    was,
    ap (λ t. Task.state t) (get_or-set_self s.task_table (p - 1) _ zero_task room),
    ap (λ t. Task.stack_pointer t) (get_or-set_self s.task_table (p - 1) _ zero_task room),
    ap (λ t. Task.pid t) (get_or-set_self s.task_table (p - 1) _ zero_task room),
    ap (λ t. Task.stack_base t) (get_or-set_self s.task_table (p - 1) _ zero_task room),
    λ q ne. get_or-set_ne s.task_table (p - 1) (q - 1) _ zero_task (λ e. ne (sym e)),
    refl,
    refl,
  )

  -- With an entry point, an initialised task system, an unused slot and memory for the stack,
  -- `task_create` yields the pointer of a slot that was unused. The task in it is ready, with the next
  -- pid and the stack that was granted, and set up for its first run; no other slot has changed.
  pub task_create_lem :
      (b : Block) (d : ℕ)
      → entry ≢ 0
      → s.initialized ≡ true
      → d < length s.task_table
      → (get_or s.task_table d zero_task).state ≡ unused
      → Allocator.kmalloc a h (stack_bytes size) ≡ (some b, h')
      → (made.0 ≢ 0)
        × ((task_at s made.0).state ≡ unused)
        × ((task_at made.1 made.0).state ≡ ready)
        × ((task_at made.1 made.0).stack_pointer ≡ entry_frame)
        × ((task_at made.1 made.0).pid ≡ s.next_pid)
        × ((task_at made.1 made.0).stack_base ≡ b.addr)
        × ((q : ℕ) → q - 1 ≢ made.0 - 1 → task_at made.1 q ≡ task_at s q)
        × (Tasks.next_pid made.1 ≡ add_word s.next_pid 1)
        × (Tasks.active_task_count made.1 ≡ add_word s.active_task_count 1)
  task_create_lem b d given on inside free granted =
      let (p, found) = find_free-found s.task_table 0 d inside free in
      let (j, at_j, room, was) = find_free-some s.task_table 0 p found in
      let slot : j ≡ p - 1 = omega arith in
      subst (Granted b) (sym (made_in p given on found ∙ ap (answered p) granted)) (
        answered-Granted b p (λ e. absurd (omega arith)) (omega arith)
          (ap (λ i. Task.state (get_or s.task_table i zero_task)) (sym slot) ∙ was))

  refused_state :
      (p q : ℕ)
      → (task_at s p).state ≡ unused
      → (task_at (answered p (none, h')).1 q).state ≡ (task_at s q).state
  unfolding give_stack named_task
  refused_state p q was = elim (get_or-set_cases s.task_table (p - 1) (q - 1) _ zero_task) [
    | inl same ↦ ap (λ t. Task.state t) same
    | inr (e, found) ↦
        ap (λ t. Task.state t) found
        ∙ sym was
        ∙ ap (λ i. Task.state (get_or s.task_table i zero_task)) e
  ]

  -- Without memory for the stack `task_create` yields null, and neither the state of a slot nor the
  -- number of active tasks has changed.
  pub task_create-no_memory :
      (q : ℕ)
      → entry ≢ 0
      → s.initialized ≡ true
      → Allocator.kmalloc a h (stack_bytes size) ≡ (none, h')
      → (made.0 ≡ 0)
        × ((task_at made.1 q).state ≡ (task_at s q).state)
        × (Tasks.active_task_count made.1 ≡ s.active_task_count)
  unfolding task_create give_stack
  task_create-no_memory q given on refused =
      elim (Option-cases (find_free_task_slot s.task_table 0)) [
        | inl full ↦ simp (==_of_ne entry 0 given, on, full) (refl, refl, refl)
        | inr (p, found) ↦
            let (j, at_j, room, was) = find_free-some s.task_table 0 p found in
            let slot : j ≡ p - 1 = omega arith in
            subst
              (λ (r : ℕ × Tasks × Allocator.Heap a).
                (r.0 ≡ 0)
                × ((task_at r.1 q).state ≡ (task_at s q).state)
                × (Tasks.active_task_count r.1 ≡ s.active_task_count))
              (sym (made_in p given on found ∙ ap (answered p) refused))
              (
                refl,
                refused_state p q
                    (ap (λ i. Task.state (get_or s.task_table i zero_task)) (sym slot) ∙ was),
                refl,
              )
      ]
