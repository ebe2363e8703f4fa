-- ===== src/Scheduler/Core/Calls.antt =====
-- The calls that reach scheduler.c while the flag `scheduling_in_progress` is set.
use Prim.Native.Nat.{bit_and}
use nexa_kernel.Base.{
  ℕ, zero, suc, ◌≡◌, ◌≢◌, refl, sym, ◌∙◌, inl, inr, true, not, ◌&&◌, ◌||◌, Bool, false,
  if◌then◌else◌, Option, none, some, List, [], ◌∷◌, arith, leb, ◌==◌, ==_of_ne, Bool-cases,
}
use nexa_kernel.Base.Int.{ℤ}
use nexa_kernel.Scheduler.Task.{
  is_sleeping, is_waiting, max_tasks, flag_preemptible, task_get_by_index,
}
use nexa_kernel.Scheduler.Core.{
  Kernel, current, at, scheduler_add_task, scheduler_remove_task, schedule, task_yield, task_sleep,
  task_wakeup, task_exit, wake_sleepers, preempt, retire, mark_zombie, charge,
  scheduler_tick_handler,
}

-- The calls of the tasks and of the timer that reach the scheduler.
pub data Call : Type 0 where
  yield_cpu : Call
  sleep : ℕ → Call
  wake : ℕ → Call
  exit : ℤ → Call
  tick : Call

-- A task that has called `task_exit` halts in the endless loop behind it, and makes no call any more.
-- The timer, and a wake-up by an interrupt, come in there too.
unfoldable pub call : Kernel → Call → Option Kernel
call k (wake p) = some (task_wakeup k p)
call k tick = scheduler_tick_handler k
call k yield_cpu = if k.leaving then some k else task_yield k
call k (sleep n) = if k.leaving then some k else task_sleep k n
call k (exit code) = if k.leaving then some k else task_exit k code

-- A list of calls, one after the other.
unfoldable pub calls : Kernel → List Call → Option Kernel
calls k [] = some k
calls k (c ∷ cs) = elim (call k c) [ none ↦ none | some k' ↦ calls k' cs ]

-- Whether one of the calls is a `task_exit`.
abbrev is_exit : Call → Bool
is_exit (exit code) = true
is_exit yield_cpu = false
is_exit (sleep n) = false
is_exit (wake p) = false
is_exit tick = false

abbrev pub exits : List Call → Bool
exits [] = false
exits (c ∷ cs) = is_exit c || exits cs

-- The flag is set, the task on the CPU is `p`, and `l` says if it has called `task_exit`.
pub record IsStuck (p : ℕ) (l : Bool) (k : Kernel) : Type 0 where
  pub set : k.scheduling_in_progress ≡ true
  pub same : current k ≡ p
  pub left : k.leaving ≡ l

schedule_set : (k : Kernel) → k.scheduling_in_progress ≡ true → schedule k ≡ some k
unfolding schedule
schedule_set k e = simp e refl

module _ (p : ℕ) (l : Bool) where
  pub add-IsStuck : (k : Kernel) (q : ℕ) → IsStuck p l k → IsStuck p l (scheduler_add_task k q)
  unfolding scheduler_add_task
  add-IsStuck k q v = ground arith

  wakeup-IsStuck : (k : Kernel) (q : ℕ) → IsStuck p l k → IsStuck p l (task_wakeup k q)
  unfolding task_wakeup
  wakeup-IsStuck k q v = elim (Bool-cases (q == 0 || not (is_waiting (at k q).state))) [
    | inl refused ↦ simp refused v
    | inr woken ↦
        simp woken (add-IsStuck _ q (record { set = v.set; same = v.same; left = v.left }))
  ]

  wake_sleepers-IsStuck :
      (left i : ℕ) (k : Kernel) → IsStuck p l k → IsStuck p l (wake_sleepers left i k)
  unfolding wake_sleepers
  wake_sleepers-IsStuck zero i k v = v
  wake_sleepers-IsStuck (suc left) i k v =
      wake_sleepers-IsStuck left (suc i) _
        (elim (Bool-cases (
          is_sleeping (at k (task_get_by_index i)).state
          && leb (at k (task_get_by_index i)).sleep_until k.ticks)) [
            | inl due ↦ simp due (wakeup-IsStuck k (task_get_by_index i) v)
            | inr not_due ↦ simp not_due v
          ])

  -- A call after which the flag is still set, and the same task has the CPU.
  abbrev pub Kept : Option Kernel → Type 0
  Kept o = (k' : Kernel) × (o ≡ some k') × IsStuck p l k'

  schedule-Kept : (k : Kernel) → IsStuck p l k → Kept (schedule k)
  schedule-Kept k v = (k, schedule_set k v.set, v)

  charge-IsStuck : (k : Kernel) → IsStuck p l k → IsStuck p l (charge k)
  unfolding charge
  charge-IsStuck k v = record { set = v.set; same = v.same; left = v.left }

  preempt-Kept : (k : Kernel) (q : ℕ) → IsStuck p l k → Kept (preempt k q)
  unfolding preempt
  preempt-Kept k q v =
      elim (Bool-cases
        ((at k q).time_slice == 0 && not (bit_and (at k q).flags flag_preemptible == 0))) [
          | inl due ↦
              simp due (schedule-Kept _ (record { set = v.set; same = v.same; left = v.left }))
          | inr not_due ↦ (k, simp not_due refl, v)
        ]

  tick-Kept : (k : Kernel) → IsStuck p l k → Kept (scheduler_tick_handler k)
  unfolding scheduler_tick_handler
  tick-Kept k v = elim (Bool-cases (current k == 0 || not k.scheduler_running)) [
    | inl idle ↦ (k, simp idle refl, v)
    | inr busy ↦ simp busy (
        preempt-Kept (wake_sleepers max_tasks 0 (charge k)) (current k)
          (wake_sleepers-IsStuck max_tasks 0 (charge k) (charge-IsStuck k v)))
  ]

  task_sleep-Kept : (k : Kernel) (n : ℕ) → IsStuck p l k → Kept (task_sleep k n)
  unfolding task_sleep
  task_sleep-Kept k n v = elim (Bool-cases (current k == 0 || n == 0)) [
    | inl refused ↦ (k, simp refused refl, v)
    | inr asleep ↦
        simp asleep (schedule-Kept _ (record { set = v.set; same = v.same; left = v.left }))
  ]

  retire-IsStuck : (k : Kernel) (code : ℤ) → IsStuck p l k → IsStuck p true (retire k code)
  unfolding retire scheduler_remove_task mark_zombie
  retire-IsStuck k code v = elim (Bool-cases (current k == 0)) [
    | inl none_runs ↦ simp none_runs (record { set = v.set; same = v.same; left = refl })
    | inr runs ↦ simp runs (record { set = v.set; same = v.same; left = refl })
  ]

module _ (p : ℕ) (there : p ≢ 0) where
  task_exit-Kept : (k : Kernel) (code : ℤ) → IsStuck p false k → Kept p true (task_exit k code)
  unfolding task_exit
  task_exit-Kept k code v =
      simp (==_of_ne (current k) 0 (λ e. there (sym v.same ∙ e)))
        (schedule-Kept p true (retire k code) (retire-IsStuck p false k code v))

  call-Kept :
      (l : Bool) (k : Kernel) (c : Call) → IsStuck p l k → Kept p (l || is_exit c) (call k c)
  unfolding call task_yield
  call-Kept true k yield_cpu v = (k, simp v.left refl, v)
  call-Kept true k (sleep n) v = (k, simp v.left refl, v)
  call-Kept true k (exit code) v = (k, simp v.left refl, v)
  call-Kept true k (wake q) v = (task_wakeup k q, refl, wakeup-IsStuck p true k q v)
  call-Kept true k tick v = tick-Kept p true k v
  call-Kept false k yield_cpu v = simp v.left (schedule-Kept p false k v)
  call-Kept false k (sleep n) v = simp v.left (task_sleep-Kept p false k n v)
  call-Kept false k (exit code) v = simp v.left (task_exit-Kept k code v)
  call-Kept false k (wake q) v = (task_wakeup k q, refl, wakeup-IsStuck p false k q v)
  call-Kept false k tick v = tick-Kept p false k v

  pub calls-Kept :
      (l : Bool) (k : Kernel) (cs : List Call) → IsStuck p l k → Kept p (l || exits cs) (calls k cs)
  unfolding calls
  calls-Kept true k [] v = (k, refl, v)
  calls-Kept false k [] v = (k, refl, v)
  calls-Kept true k (c ∷ cs) v =
      let (k', e, v') = call-Kept true k c v in
      let (k'', e', v'') = calls-Kept true k' cs v' in (k'', rw (e, calls) e', v'')
  calls-Kept false k (c ∷ cs) v =
      let (k', e, v') = call-Kept false k c v in
      let (k'', e', v'') = calls-Kept (is_exit c) k' cs v' in (k'', rw (e, calls) e', v'')
