-- ===== src/Ipc/MsgQueue/Lookup.antt =====
-- A key that `msgq_create` was given is found by `msgq_get`.
use nexa_kernel.Base.{
  ℕ, ◌<◌, ◌≡◌, refl, sym, ap, ◌∙◌, inl, inr, true, some, some_inj, arith, Bool-cases, Option-cases,
}
use nexa_kernel.Ipc.MsgQueue.{
  MsgQueue, Subsystem, max_queues, queue_at, put_queue, find_key, find_free, opened, add_reference,
  msgq_create, msgq_get,
}
use nexa_kernel.Ipc.MsgQueue.Keys.{IsSystem, queue_at-put_queue_self, find_key-none, find_free-some}
use nexa_kernel.Ipc.MsgQueue.System.{keyed, msgq_create-IsSystem}

-- The slot `i` holds the queue of the key `k`.
abbrev Holds : Subsystem → ℕ → ℕ → Type 0
Holds s k i = ((queue_at s i).valid ≡ true) × ((queue_at s i).key ≡ k) × (s.initialized ≡ true)

module _ (s : Subsystem) (v : IsSystem s) (k i : ℕ) where
  put_queue-Holds :
      (q : MsgQueue)
      → i < max_queues
      → s.initialized ≡ true
      → q.valid ≡ true
      → q.key ≡ k
      → Holds (put_queue s i q) k i
  unfolding put_queue
  put_queue-Holds q inside on valid key =
      rw (queue_at-put_queue_self s i q (omega (arith, v.size))) (valid, key, on)

  add_reference-Holds :
      find_key s.queues k 0 ≡ some i → s.initialized ≡ true → Holds (add_reference s i) k i
  unfolding add_reference
  add_reference-Holds found on =
      let (inside, valid, key) = keyed s v k i found in put_queue-Holds _ inside on valid key

  opened-Holds :
      find_free s.queues 0 ≡ some i → s.initialized ≡ true → Holds (put_queue s i (opened k)) k i
  opened-Holds free on =
      let (d, at, inside, _) = find_free-some s.queues 0 i free in
      put_queue-Holds (opened k) (omega (arith, v.size)) on refl refl

  created : (msgq_create s k).0 ≡ some i → Holds (msgq_create s k).1 k i
  unfolding msgq_create
  created e = elim (Bool-cases s.initialized) [
    | inr off ↦ cc
    | inl on ↦ elim (Option-cases (find_key s.queues k 0)) [
      | inr (j, found) ↦
          let same = some_inj j i (simp (on, found) at e) in
          rw (on, found, same) (add_reference-Holds (found ∙ ap some same) on)
      | inl absent ↦ elim (Option-cases (find_free s.queues 0)) [
        | inl full ↦ cc
        | inr (j, free) ↦
            let same = some_inj j i (simp (on, absent, free) at e) in
            rw (on, absent, free, same) (opened-Holds (free ∙ ap some same) on)
      ]
    ]
  ]

  -- In a well-formed table `msgq_get` finds the slot that holds the key.
  found_again : (t : Subsystem) → IsSystem t → Holds t k i → (msgq_get t k).0 ≡ some i
  unfolding msgq_get queue_at
  found_again t w (valid, key, on) = elim (Option-cases (find_key t.queues k 0)) [
    | inr (j, found) ↦
        let (_, valid', key') = keyed t w k j found in
        rw (on, found) (ap some (w.unique j i valid' valid (key' ∙ sym key)))
    | inl absent ↦ absurd (find_key-none t.queues k 0 absent i valid key)
  ]

  -- In a well-formed table, after a successful `msgq_create` of a key `msgq_get` of that key yields
  -- the same queue id.
  pub msgq_get-create : (msgq_create s k).0 ≡ some i → (msgq_get (msgq_create s k).1 k).0 ≡ some i
  msgq_get-create e = found_again (msgq_create s k).1 (msgq_create-IsSystem s v k) (created e)
