-- ===== src/Scheduler/PriorityQueue/Order.antt =====
-- The order of `task_compare` in priority_queue.c as an order of numbers.
use nexa_kernel.Base.{ℕ, ◌+◌, ◌*◌, ◌<◌, ◌≡◌, ◌≢◌, arith, ltb, leb, word_mod}
use nexa_kernel.Scheduler.PriorityQueue.{TaskFields, negative, nonpositive, task_compare}

module _ (t : TaskFields) (small : (a : ℕ) → t.pid a < word_mod) where
  open t use {priority, pid}

  -- The smaller this is, the sooner the task runs. A `pid` is a 32-bit number.
  unfoldable pub rank : ℕ → ℕ
  rank a = priority a * word_mod + pid a

  -- Of two tasks one precedes the other if its rank is smaller.
  pub negative-task_compare :
      (a b : ℕ) → a ≢ 0 → b ≢ 0 → negative (task_compare t a b) ≡ ltb (rank a) (rank b)
  unfolding task_compare rank
  negative-task_compare a b ha hb = ground (arith, small a, small b)

  pub nonpositive-task_compare :
      (a b : ℕ) → a ≢ 0 → b ≢ 0 → nonpositive (task_compare t a b) ≡ leb (rank a) (rank b)
  unfolding task_compare rank
  nonpositive-task_compare a b ha hb = ground (arith, small a, small b)
