-- ===== src/Ipc/MsgQueue/Keys.antt =====
-- The table of queues of message_queue.c: no two valid queues have one key, and every ring is well
-- formed. Each operation keeps that.
use nexa_kernel.Base.{
  ℕ, zero, suc, ◌+◌, ◌<◌, ◌≡◌, ◌≢◌, sym, ◌∙◌, ◌⊎◌, inl, inr, true, false, none, some, List, [], ◌∷◌,
  arith, length, get_or, length-set, get_or-set, ◌==◌, if◌then◌else◌, Bool-cases, ==_iff, ◌&&◌,
}
use nexa_kernel.Ipc.MsgQueue.{
  MsgQueue, Subsystem, max_queues, zero_queue, queue_at, put_queue, find_key, find_free,
}
use nexa_kernel.Ipc.MsgQueue.Invariant.{IsRing}

pub record IsSystem (s : Subsystem) : Type 0 where
  pub size : length s.queues ≡ max_queues
  pub unique :
      (i j : ℕ)
      → (queue_at s i).valid ≡ true
      → (queue_at s j).valid ≡ true
      → (queue_at s i).key ≡ (queue_at s j).key
      → i ≡ j
  pub rings : (i : ℕ) → IsRing (queue_at s i)

pub length-put_queue :
    (s : Subsystem) (i : ℕ) (q : MsgQueue) → length (put_queue s i q).queues ≡ length s.queues
unfolding put_queue
length-put_queue s i q = length-set s.queues i q

module _ (s : Subsystem) (i : ℕ) (q : MsgQueue) (inside : i < length s.queues) where
  pub queue_at-put_queue :
      (j : ℕ) → queue_at (put_queue s i q) j ≡ (if i == j then q else queue_at s j)
  unfolding queue_at put_queue
  queue_at-put_queue j = get_or-set s.queues i j q zero_queue inside

  pub queue_at-put_queue_self : queue_at (put_queue s i q) i ≡ q
  queue_at-put_queue_self = ground (arith, queue_at-put_queue i)

module _ (s : Subsystem) (v : IsSystem s) (i : ℕ) (q : MsgQueue) (inside : i < max_queues) where
  -- A queue may replace another one if no other valid queue has its key.
  pub put_queue-IsSystem :
      IsRing q
      → (q.valid ≡ true
          → (j : ℕ) → (queue_at s j).valid ≡ true
          → (queue_at s j).key ≡ q.key
          → j ≡ i)
      → IsSystem (put_queue s i q)
  put_queue-IsSystem ring fresh = record {
    size = size_lem;
    unique = λ j k vj vk e. unique_lem j k (split j) (split k) vj vk e;
    rings = λ j. rings_lem j (split j);
  }
    where
      at : (j : ℕ) → queue_at (put_queue s i q) j ≡ (if i == j then q else queue_at s j)
      at = queue_at-put_queue s i q (omega (arith, v.size))

      size_lem : length (put_queue s i q).queues ≡ max_queues
      size_lem = length-put_queue s i q ∙ v.size

      Split : ℕ → Type 0
      Split j =
          ((i ≡ j) × (queue_at (put_queue s i q) j ≡ q))
          ⊎ (queue_at (put_queue s i q) j ≡ queue_at s j)

      split : (j : ℕ) → Split j
      split j = elim (Bool-cases (i == j)) [
        | inl e ↦ inl ((==_iff i j).0 e, rw (at j, e))
        | inr ne ↦ inr (rw (at j, ne))
      ]

      rings_lem : (j : ℕ) → Split j → IsRing (queue_at (put_queue s i q) j)
      rings_lem j (inl (e, f)) = rw f ring
      rings_lem j (inr f) = rw f (v.rings j)

      unique_lem :
          (j k : ℕ)
          → Split j
          → Split k
          → (queue_at (put_queue s i q) j).valid ≡ true
          → (queue_at (put_queue s i q) k).valid ≡ true
          → (queue_at (put_queue s i q) j).key ≡ (queue_at (put_queue s i q) k).key
          → j ≡ k
      unique_lem j k (inl (e, f)) (inl (e', f')) vj vk same = sym e ∙ e'
      unique_lem j k (inl (e, f)) (inr f') vj vk same =
          sym e ∙ sym (fresh (rw f at vj) k (rw f' at vk) (sym (rw (f, f') at same)))
      unique_lem j k (inr f) (inl (e, f')) vj vk same =
          fresh (rw f' at vk) j (rw f at vj) (rw (f, f') at same) ∙ e
      unique_lem j k (inr f) (inr f') vj vk same =
          v.unique j k (rw f at vj) (rw f' at vk) (rw (f, f') at same)

  -- In particular one that is valid only if the old one was, with its key.
  pub put_queue_same :
      IsRing q
      → (q.valid ≡ true → ((queue_at s i).valid ≡ true) × (q.key ≡ (queue_at s i).key))
      → IsSystem (put_queue s i q)
  put_queue_same ring kept =
      put_queue-IsSystem ring
        (λ here j there e. v.unique j i there (kept here).0 (e ∙ (kept here).1))

-- What the search for a key means.
pub find_key-some :
    (qs : List MsgQueue) (k i j : ℕ)
    → find_key qs k i ≡ some j
    → (d : ℕ) × (j ≡ i + d)
      × (d < length qs)
      × ((get_or qs d zero_queue).valid ≡ true)
      × ((get_or qs d zero_queue).key ≡ k)
unfolding find_key
find_key-some [] k i j e = cc
find_key-some (q ∷ qs) k i j e = elim (Bool-cases (q.valid && q.key == k)) [
  | inl hit ↦ (0, ground arith, omega arith, ground arith, ground arith)
  | inr miss ↦
      let (d, at, inside, valid, key) = find_key-some qs k (suc i) j (ground arith) in
      (suc d, omega arith, omega arith, valid, key)
]

pub find_key-none :
    (qs : List MsgQueue) (k i : ℕ)
    → find_key qs k i ≡ none
    → (j : ℕ) → (get_or qs j zero_queue).valid ≡ true
    → (get_or qs j zero_queue).key ≢ k
unfolding find_key
find_key-none [] k i e j valid = cc
find_key-none (q ∷ qs) k i e zero valid = ground arith
find_key-none (q ∷ qs) k i e (suc j) valid = find_key-none qs k (suc i) (ground arith) j valid

pub find_free-some :
    (qs : List MsgQueue) (i j : ℕ)
    → find_free qs i ≡ some j
    → (d : ℕ) × (j ≡ i + d) × (d < length qs) × ((get_or qs d zero_queue).valid ≡ false)
unfolding find_free
find_free-some [] i j e = cc
find_free-some (q ∷ qs) i j e = elim (Bool-cases q.valid) [
  | inl used ↦
      let (d, at, inside, free) = find_free-some qs (suc i) j (ground arith) in
      (suc d, omega arith, omega arith, free)
  | inr free ↦ (0, ground arith, omega arith, free)
]

-- Without that many valid queues there is a free slot.
pub find_free-none :
    (qs : List MsgQueue) (i : ℕ)
    → find_free qs i ≡ none
    → (j : ℕ) → j < length qs
    → (get_or qs j zero_queue).valid ≡ true
unfolding find_free
find_free-none [] i e j h = absurd (omega arith)
find_free-none (q ∷ qs) i e zero h = ground arith
find_free-none (q ∷ qs) i e (suc j) h = find_free-none qs (suc i) (ground arith) j (omega arith)
