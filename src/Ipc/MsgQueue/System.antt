-- ===== src/Ipc/MsgQueue/System.antt =====
-- Every call of message_queue.c keeps the table of queues well formed, from the boot on; and a key
-- that was created is found again.
use nexa_kernel.Base.{
  get_or-replicate, ℕ, ◌-◌, ◌<◌, ◌≡◌, refl, sym, subst, ap, ◌∙◌, inl, inr, true, false, Bool,
  Option, none, some, List, [], ◌∷◌, arith, length, ltb, ◌==◌, if◌then◌else◌, Bool-cases,
  Option-cases, replicate, ◌||◌,
}
use nexa_kernel.Base.Int.{ℤ, pos, negsuc}
use nexa_kernel.Ipc.MsgQueue.{
  MsgQueue, Message, Subsystem, max_queues, max_messages, max_msg_size, zero_queue, zero_message,
  queue_at, put_queue, find_key, find_free, opened, add_reference, usable, drop_reference,
  push_message, pull_message, take_at, take_head, msgq_init, msgq_create, msgq_get, msgq_destroy,
  msgq_send, msgq_receive,
}
use nexa_kernel.Ipc.MsgQueue.Invariant.{IsRing, push_message-IsRing, push_message-kept}
use nexa_kernel.Ipc.MsgQueue.Receive.{pull_message-IsRing}
use nexa_kernel.Ipc.MsgQueue.Keys.{
  IsSystem, put_queue-IsSystem, put_queue_same, find_key-some, find_key-none, find_free-some,
}

pub zero_queue-IsRing :
    (k r : ℕ) (b : Bool) → IsRing (record zero_queue { valid = b; key = k; ref_count = r })
zero_queue-IsRing k r b = record {
  room = refl;
  head_in = omega arith;
  count_le = omega arith;
  tail_at = refl;
  buffers = λ i. ap (λ m. length (Message.bytes m)) (get_or-replicate max_messages i zero_message);
}

drop_reference-IsRing : (q : MsgQueue) → IsRing q → IsRing (drop_reference q)
unfolding drop_reference
drop_reference-IsRing q v = elim (Bool-cases (left == 0)) [
  | inl gone ↦ rw gone (record {
    room = v.room;
    head_in = omega arith;
    count_le = omega arith;
    tail_at = refl;
    buffers = v.buffers;
  })
  | inr used ↦ rw used (record {
    room = v.room;
    head_in = v.head_in;
    count_le = v.count_le;
    tail_at = v.tail_at;
    buffers = v.buffers;
  })
]
  where
    left : ℕ
    left = if ltb 0 q.ref_count then q.ref_count - 1 else q.ref_count

drop_reference-kept :
    (q : MsgQueue)
    → (drop_reference q).valid ≡ true
    → (q.valid ≡ true) × ((drop_reference q).key ≡ q.key)
unfolding drop_reference
drop_reference-kept q e = ground arith

pull_message-kept :
    (q : MsgQueue) (buffer : List ℕ) (size type : ℕ)
    → let q' = (pull_message q buffer size type).2 in (q'.valid ≡ q.valid) × (q'.key ≡ q.key)
unfolding pull_message take_at take_head
pull_message-kept q buffer size type = ground arith

usable-some :
    (s : Subsystem) (qid : ℤ) (i : ℕ)
    → usable s qid ≡ some i
    → (i < max_queues) × ((queue_at s i).valid ≡ true)
unfolding usable
usable-some s (pos n) i e = ground arith
usable-some s (negsuc n) i e = ground arith

-- The calls of a client.
pub data Call : Type 0 where
  init : Call
  create get : ℕ → Call
  destroy : ℤ → Call
  send : ℤ → Option (List ℕ) → ℕ → ℕ → Call
  receive : ℤ → Option (List ℕ) → ℕ → ℕ → Call

unfoldable pub step : Subsystem → Call → Subsystem
step s init = msgq_init s
step s (create k) = (msgq_create s k).1
step s (get k) = (msgq_get s k).1
step s (destroy qid) = (msgq_destroy s qid).1
step s (send qid bytes size type) = (msgq_send s qid bytes size type).1
step s (receive qid buffer size type) = (msgq_receive s qid buffer size type).2

module _ (s : Subsystem) (v : IsSystem s) where
  -- The slot of a key that the search found.
  pub keyed :
      (k i : ℕ)
      → find_key s.queues k 0 ≡ some i
      → (i < max_queues) × ((queue_at s i).valid ≡ true) × ((queue_at s i).key ≡ k)
  unfolding queue_at
  keyed k i e =
      let (d, at, inside, valid, key) = find_key-some s.queues k 0 i e in
      let same : i ≡ d = omega arith in rw same (omega (arith, v.size), valid, key)

  add_reference-IsSystem : (i : ℕ) → i < max_queues → IsSystem (add_reference s i)
  unfolding add_reference
  add_reference-IsSystem i inside =
      put_queue_same s v i _ inside
        (let r = v.rings i in
          record {
            room = r.room;
            head_in = r.head_in;
            count_le = r.count_le;
            tail_at = r.tail_at;
            buffers = r.buffers;
          })
        (λ e. (e, refl))

  opened-IsSystem :
      (k i : ℕ)
      → find_key s.queues k 0 ≡ none
      → find_free s.queues 0 ≡ some i
      → IsSystem (put_queue s i (opened k))
  unfolding queue_at
  opened-IsSystem k i absent free =
      let (d, at, inside, _) = find_free-some s.queues 0 i free in
      put_queue-IsSystem s v i (opened k) (omega (arith, v.size)) (zero_queue-IsRing k 1 true)
        (λ _ j valid e. absurd (find_key-none s.queues k 0 absent j valid e))

  msgq_get-IsSystem : (k : ℕ) → IsSystem (msgq_get s k).1
  unfolding msgq_get
  msgq_get-IsSystem k = elim (Bool-cases s.initialized) [
    | inr off ↦ simp off v
    | inl on ↦ elim (Option-cases (find_key s.queues k 0)) [
      | inl absent ↦ simp (on, absent) v
      | inr (i, found) ↦ rw (on, found) (add_reference-IsSystem i (keyed k i found).0)
    ]
  ]

  pub msgq_create-IsSystem : (k : ℕ) → IsSystem (msgq_create s k).1
  unfolding msgq_create
  msgq_create-IsSystem k = elim (Bool-cases s.initialized) [
    | inr off ↦ simp off v
    | inl on ↦ elim (Option-cases (find_key s.queues k 0)) [
      | inr (i, found) ↦ rw (on, found) (add_reference-IsSystem i (keyed k i found).0)
      | inl absent ↦ elim (Option-cases (find_free s.queues 0)) [
        | inl full ↦ simp (on, absent, full) v
        | inr (i, free) ↦ rw (on, absent, free) (opened-IsSystem k i absent free)
      ]
    ]
  ]

  msgq_destroy-IsSystem : (qid : ℤ) → IsSystem (msgq_destroy s qid).1
  unfolding msgq_destroy
  msgq_destroy-IsSystem qid = elim (Option-cases (usable s qid)) [
    | inl refused ↦ rw (refused, msgq_destroy) v
    | inr (i, e) ↦
        let (inside, valid) = usable-some s qid i e in
        rw (e, msgq_destroy)
          (put_queue_same s v i _ inside (drop_reference-IsRing _ (v.rings i))
            (drop_reference-kept (queue_at s i)))
  ]

  sent-IsSystem :
      (i : ℕ) (bytes : List ℕ) (size type : ℕ) (q : MsgQueue)
      → i < max_queues
      → push_message (queue_at s i) bytes size type ≡ some q
      → IsSystem (put_queue s i q)
  sent-IsSystem i bytes size type q inside e =
      let (valid, key) = push_message-kept (queue_at s i) q bytes size type e in
      put_queue_same s v i q inside
        (push_message-IsRing (queue_at s i) (v.rings i) bytes size type q e)
        (λ h. (sym valid ∙ h, key))

  msgq_send-IsSystem :
      (qid : ℤ) (bytes : Option (List ℕ)) (size type : ℕ)
      → IsSystem (msgq_send s qid bytes size type).1
  unfolding msgq_send
  msgq_send-IsSystem qid none size type = v
  msgq_send-IsSystem qid (some bytes) size type =
      elim (Bool-cases (size == 0 || ltb max_msg_size size)) [
        | inl bad ↦ rw bad v
        | inr good ↦ elim (Option-cases (usable s qid)) [
          | inl refused ↦ simp (good, refused) v
          | inr (i, e) ↦ elim (Option-cases (push_message (queue_at s i) bytes size type)) [
            | inl full ↦ rw (good, e, full) v
            | inr (q, pushed) ↦
                rw (good, e, pushed)
                  (sent-IsSystem i bytes size type q (usable-some s qid i e).0 pushed)
          ]
        ]
      ]

  msgq_receive-IsSystem :
      (qid : ℤ) (buffer : Option (List ℕ)) (size type : ℕ)
      → IsSystem (msgq_receive s qid buffer size type).2
  unfolding msgq_receive
  msgq_receive-IsSystem qid none size type = v
  msgq_receive-IsSystem qid (some buffer) size type = elim (Bool-cases (size == 0)) [
    | inl bad ↦ rw bad v
    | inr good ↦ elim (Option-cases (usable s qid)) [
      | inl refused ↦ simp (good, refused) v
      | inr (i, e) ↦
          let (valid, key) = pull_message-kept (queue_at s i) buffer size type in
          rw (good, e)
            (put_queue_same s v i _ (usable-some s qid i e).0
              (pull_message-IsRing (queue_at s i) (v.rings i) buffer size type)
              (λ h. (sym valid ∙ h, key)))
    ]
  ]

cleared : ℕ → Bool → Subsystem
cleared n b = record { queues = replicate n zero_queue; initialized = b }

-- The table after the boot and after `msgq_init`: no queue is valid.
cleared-IsSystem : (b : Bool) → IsSystem (cleared max_queues b)
unfolding queue_at cleared
cleared-IsSystem b = record {
  size = refl;
  unique =
      λ i j valid. absurd_of (ap MsgQueue.valid (get_or-replicate max_queues i zero_queue)) valid;
  rings = λ i.
      subst IsRing (sym (get_or-replicate max_queues i zero_queue)) (zero_queue-IsRing 0 0 false);
}
  where
    absurd_of : {P : Type 0} {c : Bool} → c ≡ false → c ≡ true → P
    absurd_of e f = cc

msgq_init-IsSystem : (s : Subsystem) → IsSystem s → IsSystem (msgq_init s)
unfolding msgq_init cleared
msgq_init-IsSystem s v = elim (Bool-cases s.initialized) [
  | inl on ↦ simp on v
  | inr off ↦ simp off (cleared-IsSystem true)
]

-- Every call (init, create, get, destroy, send, receive) keeps the table of queues well formed: the
-- keys of valid queues are distinct, and each ring keeps its invariant.
pub step-IsSystem : (s : Subsystem) → IsSystem s → (c : Call) → IsSystem (step s c)
unfolding step
step-IsSystem s v init = msgq_init-IsSystem s v
step-IsSystem s v (create k) = msgq_create-IsSystem s v k
step-IsSystem s v (get k) = msgq_get-IsSystem s v k
step-IsSystem s v (destroy qid) = msgq_destroy-IsSystem s v qid
step-IsSystem s v (send qid bytes size type) = msgq_send-IsSystem s v qid bytes size type
step-IsSystem s v (receive qid buffer size type) = msgq_receive-IsSystem s v qid buffer size type

-- The state at the boot, and after a list of calls.
abbrev pub boot : Subsystem
boot = record { queues = replicate max_queues zero_queue; initialized = false }

unfoldable pub run : Subsystem → List Call → Subsystem
unfolding step
run s [] = s
run s (c ∷ cs) = run (step s c) cs

run-IsSystem : (s : Subsystem) → IsSystem s → (cs : List Call) → IsSystem (run s cs)
unfolding run
run-IsSystem s v [] = v
run-IsSystem s v (c ∷ cs) = run-IsSystem (step s c) (step-IsSystem s v c) cs

-- So it is well formed after any calls from the boot on.
pub run-boot : (cs : List Call) → IsSystem (run boot cs)
unfolding cleared
run-boot cs = run-IsSystem boot (cleared-IsSystem false) cs
