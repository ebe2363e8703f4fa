-- ===== src/Scheduler/Fifo.antt =====
-- What the scheduler's ready queue promises: a first-in-first-out list of at most `cap` tasks, from
-- which a task can also be taken out of the middle. It knows nothing of arrays and indices.
use nexa_kernel.Base.{
  ℕ, Bool, true, false, ◌||◌, none, some, List, [], ◌∷◌, ◌++◌, length, leb, ◌==◌, if◌then◌else◌,
}
use nexa_kernel.Ring.Search.{take_first}

unfoldable pub push : ℕ → List ℕ → ℕ → Bool × List ℕ
push cap xs t = if t == 0 || leb cap (length xs) then (false, xs) else (true, xs ++ (t ∷ []))

-- 0 is the null pointer.
unfoldable pub pop : List ℕ → ℕ × List ℕ
pop [] = (0, [])
pop (x ∷ xs) = (x, xs)

unfoldable pub peek : List ℕ → ℕ
peek [] = 0
peek (x ∷ xs) = x

unfoldable pub remove : List ℕ → ℕ → Bool × List ℕ
remove xs t =
    if t == 0
    then (false, xs)
    else elim (take_first (λ x. x == t) xs) [ none ↦ (false, xs) | some (_, rest) ↦ (true, rest) ]

-- A client's calls, and what it sees of each.
pub data Call : Type 0 where
  enqueue : ℕ → Call
  dequeue : Call
  peek_front : Call
  take_out : ℕ → Call

pub data Reply : Type 0 where
  done : Bool → Reply
  task : ℕ → Reply

unfoldable pub step : ℕ → List ℕ → Call → Reply × List ℕ
unfolding push pop peek remove
step cap xs (enqueue t) = let (ok, ys) = push cap xs t in (done ok, ys)
step cap xs dequeue = let (t, ys) = pop xs in (task t, ys)
step cap xs peek_front = (task (peek xs), xs)
step cap xs (take_out t) = let (ok, ys) = remove xs t in (done ok, ys)

unfoldable pub run : ℕ → List ℕ → List Call → List Reply
unfolding step
run cap xs [] = []
run cap xs (c ∷ cs) = let (r, ys) = step cap xs c in r ∷ run cap ys cs
