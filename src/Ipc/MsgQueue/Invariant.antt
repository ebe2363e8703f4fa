-- ===== src/Ipc/MsgQueue/Invariant.antt =====
-- The ring of one message queue: its invariant, and what a send appends.
use nexa_kernel.Base.{
  ℕ, suc, ◌+◌, ◌%◌, ◌≤◌, ◌<◌, ◌≡◌, refl, sym, ap, ap₂, subst, some_inj, ◌∙◌, none, some, List, [],
  ◌∷◌, ◌++◌, arith, length, take, get_or, set, length-set, get_or-set, dec_lt, add_word, sub_word,
}
use nexa_kernel.Ring.{slot, slot-lt, slot-suc, slot_front}
use nexa_kernel.Ring.Contents.{contents, contents-push, contents-pop}
use nexa_kernel.Ipc.MsgQueue.{
  Message, MsgQueue, max_messages, max_msg_size, zero_message, filled, push_message, take_head,
}
use nexa_kernel.Ipc.MsgQueue.Bytes.{length-copy_bytes, take-copy_bytes}

pub record IsRing (q : MsgQueue) : Type 0 where
  pub room : length q.messages ≡ max_messages
  pub head_in : q.head < max_messages
  pub count_le : q.count ≤ max_messages
  pub tail_at : q.tail ≡ slot max_messages q.head q.count
  pub buffers : (i : ℕ) → length (get_or q.messages i zero_message).bytes ≡ max_msg_size

-- The messages waiting, oldest first.
abbrev pub held : MsgQueue → List Message
held q = contents zero_message q.messages max_messages q.head q.count

-- The message that a caller hands to `msgq_send`.
pub record Carries (m : Message) (bytes : List ℕ) (size type : ℕ) : Type 0 where
  pub typed : m.type ≡ type
  pub sized : m.size ≡ size
  pub payload : take size m.bytes ≡ take size bytes

module _ (q : MsgQueue) (v : IsRing q) (bytes : List ℕ) (size type : ℕ) where
  open q use {messages, head, tail, count}

  abbrev sent : Message
  sent = filled (get_or messages tail zero_message) bytes size type

  abbrev after_send : MsgQueue
  after_send = record q {
    messages = set messages tail sent;
    tail = (tail + 1) % max_messages;
    count = add_word count 1;
  }

  tail_in : tail < length messages
  tail_in = omega (arith, v.tail_at, v.room, v.count_le, slot-lt max_messages head v.head_in count)

  sent_size : length sent.bytes ≡ max_msg_size
  sent_size = length-copy_bytes size bytes _ ∙ v.buffers tail

  sent-Carries : size ≤ length bytes → size ≤ max_msg_size → Carries sent bytes size type
  sent-Carries full le = record {
    typed = refl;
    sized = refl;
    payload = take-copy_bytes size bytes _ full (omega (arith, v.buffers tail));
  }

  after_send-IsRing : count < max_messages → IsRing after_send
  after_send-IsRing lt = record {
    room = length-set messages tail sent ∙ v.room;
    head_in = v.head_in;
    count_le = omega arith;
    tail_at =
        ap (λ t. (t + 1) % max_messages) v.tail_at
        ∙ slot-suc max_messages head count
        ∙ ap (slot max_messages head) (omega arith);
    buffers = λ i.
        rw (get_or-set messages tail i sent zero_message tail_in)
          (ground (arith, sent_size, v.buffers i));
  }

  one_more : count < max_messages → add_word count 1 ≡ suc count
  one_more lt = omega arith

  held-after_send : count < max_messages → held after_send ≡ held q ++ (sent ∷ [])
  held-after_send lt =
      ap₂ (λ t n. contents zero_message (set messages t sent) max_messages head n) v.tail_at
        (one_more lt)
      ∙ contents-push zero_message messages max_messages head v.head_in count sent
          (omega (arith, v.room)) lt

  -- In a ring that keeps its invariant and is not full, a send of data of at most 256 bytes succeeds,
  -- keeps the invariant, and appends one message that carries the data, its size and its type.
  pub push_message_lem :
      size ≤ length bytes
      → size ≤ max_msg_size
      → count < max_messages
      → (q' : MsgQueue) × (m : Message) × (push_message q bytes size type ≡ some q')
        × IsRing q'
        × (held q' ≡ held q ++ (m ∷ []))
        × Carries m bytes size type
  unfolding push_message
  push_message_lem full le lt = (
    after_send,
    sent,
    ground arith,
    after_send-IsRing lt,
    held-after_send lt,
    sent-Carries full le,
  )

  pub push_message_full : max_messages ≤ count → push_message q bytes size type ≡ none
  unfolding push_message
  push_message_full le = ground arith

  pub push_message-IsRing : (q' : MsgQueue) → push_message q bytes size type ≡ some q' → IsRing q'
  unfolding push_message
  push_message-IsRing q' e = elim (dec_lt count max_messages) [
    | yes lt ↦
        subst IsRing (some_inj after_send q' (sym (push_message_lem_of lt) ∙ e))
          (after_send-IsRing lt)
    | no ge ↦ cc (push_message_full (omega arith))
  ]
    where
      push_message_lem_of : count < max_messages → push_message q bytes size type ≡ some after_send
      push_message_lem_of lt = ground arith

module _ (q : MsgQueue) (v : IsRing q) (n : ℕ) (some_message : q.count ≡ suc n) where
  open q use {messages, head, count}

  one_less : sub_word count 1 ≡ n
  one_less = omega (arith, v.count_le)

  pub take_head-IsRing : IsRing (take_head q)
  unfolding take_head
  take_head-IsRing = record {
    room = v.room;
    head_in = omega arith;
    count_le = omega (arith, one_less, v.count_le);
    tail_at =
        v.tail_at
        ∙ ap (slot max_messages head) some_message
        ∙ sym (slot_front max_messages head n)
        ∙ ap (slot max_messages ((head + 1) % max_messages)) (sym one_less);
    buffers = v.buffers;
  }

  -- A receive of any type takes the oldest message.
  pub held-take_head : held q ≡ get_or messages head zero_message ∷ held (take_head q)
  unfolding take_head
  held-take_head =
      ap (contents zero_message messages max_messages head) some_message
      ∙ contents-pop zero_message messages max_messages head v.head_in n
      ∙ ap
          (λ m.
            get_or messages head zero_message
            ∷ contents zero_message messages max_messages ((head + 1) % max_messages) m)
          (sym one_less)

pub push_message-kept :
    (q q' : MsgQueue) (bytes : List ℕ) (size type : ℕ)
    → push_message q bytes size type ≡ some q'
    → (q'.valid ≡ q.valid) × (q'.key ≡ q.key)
unfolding push_message
push_message-kept q q' bytes size type e = ground arith
