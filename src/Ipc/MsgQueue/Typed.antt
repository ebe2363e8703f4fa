-- ===== src/Ipc/MsgQueue/Typed.antt =====
-- The typed receive of message_queue.c: its search, and the loop that closes the gap.
use nexa_kernel.Base.{
  ℕ, zero, suc, ◌+◌, ◌-◌, ◌%◌, ◌≤◌, ◌<◌, ◌≡◌, ◌≢◌, refl, sym, subst, ap, ap₂, ◌∙◌, ◌⊎◌, inl, inr,
  false, Option, none, some, List, [], ◌∷◌, arith, length, get_or, set, length-set, dec_lt,
  ℕ_discrete, Bool, ◌==◌, sub_word, Bool-cases, ==_iff, ==_of_ne,
}
use nexa_kernel.Base.Tabulate.{erase_at}
use nexa_kernel.Ring.{slot, slot_ne_end, slot-suc, slot_zero, slot_cases, slot_full}
use nexa_kernel.Ring.Contents.{contents}
use nexa_kernel.Ring.Search.{IsFirst}
use nexa_kernel.Ring.Shift.{Shifted, Shifted-done, Shifted-step, contents-Shifted}
use nexa_kernel.Ipc.MsgQueue.{
  Message, MsgQueue, max_messages, max_msg_size, zero_message, find_type, close_gap, take_at,
}
use nexa_kernel.Ipc.MsgQueue.Invariant.{IsRing, held}

module _ (fuel : ℕ) (messages : List Message) (tail j : ℕ) where
  close_gap-stop : j ≡ tail → close_gap (suc fuel) messages tail j ≡ messages
  unfolding close_gap
  close_gap-stop e = rw ((==_iff j tail).1 e, close_gap)

  close_gap-last :
      j ≢ tail → (j + 1) % max_messages ≡ tail → close_gap (suc fuel) messages tail j ≡ messages
  unfolding close_gap
  close_gap-last ne e = rw (==_of_ne j tail ne, (==_iff _ tail).1 e, close_gap)

  close_gap-more :
      j ≢ tail
      → (j + 1) % max_messages ≢ tail
      → close_gap (suc fuel) messages tail j
        ≡ close_gap fuel
            (set messages j (get_or messages ((j + 1) % max_messages) zero_message))
            tail
            ((j + 1) % max_messages)
  unfolding close_gap
  close_gap-more ne more = rw (==_of_ne j tail ne, ==_of_ne _ tail more, close_gap)

module _ (h n : ℕ) (front : h < max_messages) (fits : n < max_messages) where
  -- The loop moves each message behind place `p` one place forward, unless the ring is full and
  -- `p` is its front.
  close_gap-Shifted :
      (fuel p : ℕ) (messages : List Message)
      → p ≤ n
      → n < p + fuel
      → (0 < p) ⊎ (suc n < max_messages)
      → length messages ≡ max_messages
      → Shifted zero_message max_messages h n p messages
          (close_gap fuel messages (slot max_messages h (suc n)) (slot max_messages h p))
  close_gap-Shifted zero p messages le enough not_front room = absurd (omega arith)
  close_gap-Shifted (suc fuel) p messages le enough not_front room =
      let here = slot_ne_end max_messages h front n p fits le not_front in
      let next = slot-suc max_messages h p in
      elim (dec_lt p n) [
        | yes lt ↦
            let more = slot_ne_end max_messages h front n (suc p) fits lt (inl (omega arith)) in
            let moved =
              set messages (slot max_messages h p)
                (get_or messages (slot max_messages h (suc p)) zero_message) in
            rw (close_gap-more fuel messages _ _ here (λ e. more (sym next ∙ e)), next)
              (Shifted-step zero_message max_messages h n front fits p messages _ lt (omega arith) (
                close_gap-Shifted fuel (suc p) moved lt (omega arith) (inl (omega arith))
                  (length-set messages _ _ ∙ room)))
        | no ge ↦
            let last : p ≡ n = omega arith in
            rw
              (close_gap-last fuel messages _ _ here
                (next ∙ ap (λ k. slot max_messages h (suc k)) last))
              (subst (λ k. Shifted zero_message max_messages h n k messages messages) (sym last)
                (Shifted-done zero_message max_messages h n front fits messages))
      ]

length-close_gap :
    (fuel : ℕ) (messages : List Message) (tail j : ℕ)
    → length (close_gap fuel messages tail j) ≡ length messages
unfolding close_gap
length-close_gap zero messages tail j = refl
length-close_gap (suc fuel) messages tail j =
    let next = (j + 1) % max_messages in
    let moved = set messages j (get_or messages next zero_message) in
    ground (
      arith,
      length-close_gap fuel moved tail next,
      length-set messages j (get_or messages next zero_message),
    )

-- Moving messages leaves every data buffer at its size.
abbrev Buffers : List Message → Type 0
Buffers messages = (i : ℕ) → length (get_or messages i zero_message).bytes ≡ max_msg_size

Buffers-set :
    (messages : List Message) (j : ℕ) (m : Message)
    → length m.bytes ≡ max_msg_size
    → Buffers messages
    → Buffers (set messages j m)
Buffers-set [] j m h b i = b i
Buffers-set (x ∷ xs) zero m h b zero = h
Buffers-set (x ∷ xs) zero m h b (suc i) = b (suc i)
Buffers-set (x ∷ xs) (suc j) m h b zero = b zero
Buffers-set (x ∷ xs) (suc j) m h b (suc i) = Buffers-set xs j m h (λ k. b (suc k)) i

Buffers-close_gap :
    (fuel : ℕ) (messages : List Message) (tail j : ℕ)
    → Buffers messages
    → Buffers (close_gap fuel messages tail j)
unfolding close_gap
Buffers-close_gap zero messages tail j b = b
Buffers-close_gap (suc fuel) messages tail j b =
    let next = (j + 1) % max_messages in
    let moved = set messages j (get_or messages next zero_message) in
    elim (ℕ_discrete j tail) [
      | yes e ↦ subst Buffers (sym (close_gap-stop fuel messages tail j e)) b
      | no ne ↦ elim (ℕ_discrete next tail) [
        | yes e ↦ subst Buffers (sym (close_gap-last fuel messages tail j ne e)) b
        | no more ↦
            subst Buffers (sym (close_gap-more fuel messages tail j ne more))
              (Buffers-close_gap fuel moved tail next (Buffers-set messages j _ (b next) b))
      ]
    ]

pub find_type-first :
    (left : ℕ) (messages : List Message) (idx type : ℕ)
    → (get_or messages idx zero_message).type ≡ type
    → find_type (suc left) messages idx type ≡ some idx
unfolding find_type
find_type-first left messages idx type e = rw ((==_iff _ type).1 e, find_type)

module _ (q : MsgQueue) (v : IsRing q) (type : ℕ) where
  open q use {messages, head, tail, count}

  abbrev pub has_type : Message → Bool
  has_type m = m.type == type

  abbrev pub message_at : ℕ → Message
  message_at i = get_or messages (slot max_messages head i) zero_message

  -- The search ends at the first message of the type, or says that there is none.
  abbrev pub Found : Option ℕ → Type 0
  Found r =
      ((p : ℕ) × IsFirst has_type count message_at p × (r ≡ some (slot max_messages head p)))
      ⊎ ((r ≡ none) × ((j : ℕ) → j < count → has_type (message_at j) ≡ false))

  find_type-Found :
      (left i : ℕ)
      → i + left ≡ count
      → ((j : ℕ) → j < i → has_type (message_at j) ≡ false)
      → Found (find_type left messages (slot max_messages head i) type)
  unfolding find_type
  find_type-Found zero i e none_yet = inr (refl, λ j h. none_yet j (omega arith))
  find_type-Found (suc left) i e none_yet = elim (Bool-cases (has_type (message_at i))) [
    | inl hit ↦
        inl (i, record { inside = omega arith; hit = hit; before = none_yet }, rw (hit, find_type))
    | inr miss ↦ subst Found (sym (next miss)) (
        find_type-Found left (suc i) (omega arith) λ j h. elim (dec_lt j i) [
          | yes p ↦ none_yet j p
          | no p ↦ let same : j ≡ i = omega arith in rw same miss
        ])
  ]
    where
      next :
          has_type (message_at i) ≡ false
          → find_type (suc left) messages (slot max_messages head i) type
            ≡ find_type left messages (slot max_messages head (suc i)) type
      next miss =
          rw (miss, find_type)
            (ap (λ k. find_type left messages k type) (slot-suc max_messages head i))

  pub search-Found : Found (find_type count messages head type)
  search-Found =
      subst (λ k. Found (find_type count messages k type)) (slot_zero max_messages head v.head_in)
        (find_type-Found count 0 (omega arith) (λ j h. absurd (omega arith)))

module _ (q : MsgQueue) (v : IsRing q) (n : ℕ) (some_message : q.count ≡ suc n) where
  open q use {messages, head, tail, count}

  tail_back : (tail + max_messages - 1) % max_messages ≡ slot max_messages head n
  tail_back = omega (
    arith,
    v.tail_at,
    v.count_le,
    ap (slot max_messages head) some_message,
    slot_cases max_messages head v.head_in n,
    slot_cases max_messages head v.head_in (suc n),
  )

  fewer : sub_word count 1 ≡ n
  fewer = omega (arith, v.count_le)

  -- Closing the gap at a place takes that message away, unless the ring is full and the place is its
  -- front.
  pub held-take_at :
      (p : ℕ)
      → p ≤ n
      → (0 < p) ⊎ (count < max_messages)
      → held (take_at q (slot max_messages head p)) ≡ erase_at p (held q)
  unfolding take_at
  held-take_at p le not_front =
      ap₂
        (λ t m.
          contents zero_message (close_gap max_messages messages t (slot max_messages head p))
            max_messages head m)
        (v.tail_at ∙ ap (slot max_messages head) some_message) fewer
      ∙ contents-Shifted zero_message max_messages head n p messages _ (omega arith) (
          close_gap-Shifted head n v.head_in (omega (arith, v.count_le)) max_messages p messages le
            (omega (arith, v.count_le)) (omega arith) v.room)
      ∙ ap (λ m. erase_at p (contents zero_message messages max_messages head m)) (sym some_message)

  -- On a full ring the loop stops at once if the message is at the front.
  pub held-take_at_front :
      count ≡ max_messages
      → held (take_at q head) ≡ contents zero_message messages max_messages head n
  unfolding take_at
  held-take_at_front full =
      ap₂ (λ ms m. contents zero_message ms max_messages head m)
        (close_gap-stop 31 messages tail head (
          sym
            (v.tail_at ∙ ap (slot max_messages head) full ∙ slot_full max_messages head v.head_in)))
        fewer

  pub take_at-IsRing : (idx : ℕ) → IsRing (take_at q idx)
  unfolding take_at
  take_at-IsRing idx = record {
    room = length-close_gap max_messages messages tail idx ∙ v.room;
    head_in = v.head_in;
    count_le = omega (arith, fewer, v.count_le);
    tail_at = tail_back ∙ ap (slot max_messages head) (sym fewer);
    buffers = Buffers-close_gap max_messages messages tail idx v.buffers;
  }
