-- ===== src/Ipc/MsgQueue.antt =====
-- kernel/ipc/message_queue.c. The static `queues` and `msgq_initialized` are the state that each
-- function takes and returns. A result of `none` is the -1 of the code.
pub mod Bytes
pub mod Invariant
pub mod Typed
pub mod Receive
pub mod Keys
pub mod System
pub mod Lookup
mod Tests
use nexa_kernel.Base.{
  ℕ, zero, suc, ◌+◌, ◌-◌, ◌%◌, ◌≡◌, Bool, true, false, not, ◌&&◌, ◌||◌, Option, none, some, List,
  [], ◌∷◌, get_or, set, replicate, ltb, leb, ◌==◌, if◌then◌else◌, add_word, sub_word,
}
use nexa_kernel.Base.Int.{ℤ, in_range}

abbrev pub max_queues : ℕ
max_queues = 16

abbrev pub max_messages : ℕ
max_messages = 32

abbrev pub max_msg_size : ℕ
max_msg_size = 256

-- `message_t`
pub record Message : Type 0 where
  pub sender_pid : ℕ
  pub type : ℕ
  pub size : ℕ
  pub bytes : List ℕ

-- `msgq_t`
pub record MsgQueue : Type 0 where
  pub valid : Bool
  pub key : ℕ
  pub ref_count : ℕ
  pub messages : List Message
  pub head : ℕ
  pub tail : ℕ
  pub count : ℕ

pub record Subsystem : Type 0 where
  pub queues : List MsgQueue
  pub initialized : Bool

-- What `memset` leaves.
abbrev pub zero_message : Message
zero_message = record { sender_pid = 0; type = 0; size = 0; bytes = replicate max_msg_size 0 }

abbrev pub zero_queue : MsgQueue
zero_queue = record {
  valid = false;
  key = 0;
  ref_count = 0;
  messages = replicate max_messages zero_message;
  head = 0;
  tail = 0;
  count = 0;
}

-- `memcpy` of `n` bytes to the start of another object.
pub copy_bytes : ℕ → List ℕ → List ℕ → List ℕ
copy_bytes zero src dst = dst
copy_bytes (suc n) [] dst = dst
copy_bytes (suc n) (b ∷ src) [] = []
copy_bytes (suc n) (b ∷ src) (_ ∷ dst) = b ∷ copy_bytes n src dst

pub queue_at : Subsystem → ℕ → MsgQueue
queue_at s i = get_or s.queues i zero_queue

pub put_queue : Subsystem → ℕ → MsgQueue → Subsystem
put_queue s i q = record s { queues = set s.queues i q }

pub msgq_init : Subsystem → Subsystem
msgq_init s =
    if s.initialized
    then s
    else record { queues = replicate max_queues zero_queue; initialized = true }

-- The first valid queue with the key, from index `i` on.
pub find_key : List MsgQueue → ℕ → ℕ → Option ℕ
find_key [] k i = none
find_key (q ∷ qs) k i = if q.valid && q.key == k then some i else find_key qs k (suc i)

-- The first slot that is not in use.
pub find_free : List MsgQueue → ℕ → Option ℕ
find_free [] i = none
find_free (q ∷ qs) i = if q.valid then find_free qs (suc i) else some i

-- `queues[i].ref_count++`
pub add_reference : Subsystem → ℕ → Subsystem
unfolding queue_at put_queue
add_reference s i =
    let q = queue_at s i in put_queue s i (record q { ref_count = add_word q.ref_count 1 })

abbrev pub opened : ℕ → MsgQueue
opened k = record zero_queue { valid = true; key = k; ref_count = 1 }

pub msgq_create : Subsystem → ℕ → Option ℕ × Subsystem
unfolding add_reference put_queue
msgq_create s k = if not s.initialized then (none, s) else elim (find_key s.queues k 0) [
  | some i ↦ (some i, add_reference s i)
  | none ↦ elim (find_free s.queues 0) [
    | some i ↦ (some i, put_queue s i (opened k))
    | none ↦ (none, s)
  ]
]

pub msgq_get : Subsystem → ℕ → Option ℕ × Subsystem
unfolding add_reference
msgq_get s k =
    if not s.initialized
    then (none, s)
    else elim (find_key s.queues k 0) [ some i ↦ (some i, add_reference s i) | none ↦ (none, s) ]

-- The guard that the operations on a queue id share: the id of a valid queue.
pub usable : Subsystem → ℤ → Option ℕ
unfolding queue_at
usable s qid = if not s.initialized then none else elim (in_range qid max_queues) [
  | none ↦ none
  | some i ↦ if (queue_at s i).valid then some i else none
]

pub drop_reference : MsgQueue → MsgQueue
drop_reference q =
    let left = if ltb 0 q.ref_count then q.ref_count - 1 else q.ref_count in
    if left == 0
    then record q { valid = false; key = 0; ref_count = left; head = 0; tail = 0; count = 0 }
    else record q { ref_count = left }

pub msgq_destroy : Subsystem → ℤ → Option ℕ × Subsystem
unfolding usable put_queue drop_reference
msgq_destroy s qid = elim (usable s qid) [
  | none ↦ (none, s)
  | some i ↦ (some 0, put_queue s i (drop_reference (queue_at s i)))
]

-- The message that a send writes over the old one at the tail.
abbrev pub filled : Message → List ℕ → ℕ → ℕ → Message
filled old bytes size type = record {
  sender_pid = 0;
  type = type;
  size = size;
  bytes = copy_bytes size bytes old.bytes;
}

-- The part of `msgq_send` behind the guards on the id and the arguments.
pub push_message : MsgQueue → List ℕ → ℕ → ℕ → Option MsgQueue
push_message q bytes size type =
    if leb max_messages q.count
    then none
    else some (record q {
      messages =
          set q.messages q.tail (filled (get_or q.messages q.tail zero_message) bytes size type);
      tail = (q.tail + 1) % max_messages;
      count = add_word q.count 1;
    })

-- `none` for the data is the null pointer. Each guard returns -1 and changes nothing, so their order
-- is not seen.
pub msgq_send : Subsystem → ℤ → Option (List ℕ) → ℕ → ℕ → Option ℕ × Subsystem
unfolding usable put_queue push_message
msgq_send s qid none size type = (none, s)
msgq_send s qid (some bytes) size type =
    if size == 0 || ltb max_msg_size size then (none, s) else elim (usable s qid) [
      | none ↦ (none, s)
      | some i ↦ elim (push_message (queue_at s i) bytes size type) [
        | none ↦ (none, s)
        | some q ↦ (some 0, put_queue s i q)
      ]
    ]

-- The search of a typed receive, with `left` of the `count` rounds to go.
pub find_type : ℕ → List Message → ℕ → ℕ → Option ℕ
find_type zero messages idx type = none
find_type (suc left) messages idx type = elim ((get_or messages idx zero_message).type == type) [
  | true ↦ some idx
  | false ↦ find_type left messages ((idx + 1) % max_messages) type
]

-- `for (j = idx; j != tail; )`, on fuel.
pub close_gap : ℕ → List Message → ℕ → ℕ → List Message
close_gap zero messages tail j = messages
close_gap (suc fuel) messages tail j = elim (j == tail) [
  | true ↦ messages
  | false ↦ elim ((j + 1) % max_messages == tail) [
    | true ↦ messages
    | false ↦
        close_gap fuel (set messages j (get_or messages ((j + 1) % max_messages) zero_message)) tail
          ((j + 1) % max_messages)
  ]
]

-- `msg->size < size ? msg->size : size`, and the buffer after the copy.
abbrev pub copy_size : Message → ℕ → ℕ
copy_size m size = if ltb m.size size then m.size else size

abbrev pub delivered : Message → ℕ → List ℕ → List ℕ
delivered m size buffer = copy_bytes (copy_size m size) m.bytes buffer

-- The queue after a typed receive found its message at an index.
pub take_at : MsgQueue → ℕ → MsgQueue
take_at q idx = record q {
  messages = close_gap max_messages q.messages q.tail idx;
  tail = (q.tail + max_messages - 1) % max_messages;
  count = sub_word q.count 1;
}

-- The queue after a receive of any type.
pub take_head : MsgQueue → MsgQueue
take_head q = record q { head = (q.head + 1) % max_messages; count = sub_word q.count 1 }

-- The part of `msgq_receive` behind its guards: the result, the buffer and the queue.
pub pull_message : MsgQueue → List ℕ → ℕ → ℕ → ℕ × List ℕ × MsgQueue
unfolding take_at take_head
pull_message q buffer size type =
    let front = get_or q.messages q.head zero_message in
    if q.count == 0
    then (0, buffer, q)
    else if type == 0
    then (copy_size front size, delivered front size buffer, take_head q)
    else elim (find_type q.count q.messages q.head type) [
      | none ↦ (0, buffer, q)
      | some idx ↦
          let m = get_or q.messages idx zero_message in
          (copy_size m size, delivered m size buffer, take_at q idx)
    ]

pub msgq_receive : Subsystem → ℤ → Option (List ℕ) → ℕ → ℕ → Option ℕ × Option (List ℕ) × Subsystem
unfolding usable put_queue pull_message
msgq_receive s qid none size type = (none, none, s)
msgq_receive s qid (some buffer) size type =
    if size == 0 then (none, some buffer, s) else elim (usable s qid) [
      | none ↦ (none, some buffer, s)
      | some i ↦
          let (n, filled_buffer, q) = pull_message (queue_at s i) buffer size type in
          (some n, some filled_buffer, put_queue s i q)
    ]

pub msgq_peek : Subsystem → ℤ → Option ℕ
unfolding usable
msgq_peek s qid = elim (usable s qid) [ none ↦ none | some i ↦ some (queue_at s i).count ]

count_valid : List MsgQueue → ℕ
count_valid [] = 0
count_valid (q ∷ qs) = if q.valid then suc (count_valid qs) else count_valid qs

pub msgq_count : Subsystem → ℕ
unfolding count_valid
msgq_count s = if s.initialized then count_valid s.queues else 0

pub msgq_is_initialized : Subsystem → Bool
msgq_is_initialized s = s.initialized
