-- ===== src/Ipc/MsgQueue/Receive.antt =====
-- `msgq_receive` behind its guards, against a list of messages; and the case in which the ring of
-- message_queue.c differs from it.
use nexa_kernel.Base.{
  ℕ, suc, ◌+◌, ◌-◌, ◌%◌, ◌<◌, ◌≡◌, ◌≢◌, refl, sym, ap, ◌∙◌, ◌⊎◌, inl, inr, true, Option, none, some,
  List, [], ◌∷◌, ◌++◌, arith, get_or, ℕ_discrete, ◌==◌, if◌then◌else◌, Option-cases, ==_iff,
  ==_of_ne,
}
use nexa_kernel.Base.Tabulate.{tabulate-append}
use nexa_kernel.Ring.{slot, slot_zero}
use nexa_kernel.Ring.Contents.{contents, contents-pop}
use nexa_kernel.Ring.Search.{take_first, take_first_hit, take_first_miss}
use nexa_kernel.Ipc.MsgQueue.{
  Message, MsgQueue, max_messages, zero_message, find_type, take_at, take_head, copy_size,
  delivered, pull_message,
}
use nexa_kernel.Ipc.MsgQueue.Invariant.{IsRing, held, take_head-IsRing, held-take_head}
use nexa_kernel.Ipc.MsgQueue.Typed.{
  find_type-first, Found, search-Found, has_type, message_at, held-take_at, held-take_at_front,
  take_at-IsRing,
}

-- The message that a receive of a type takes from a list, oldest first, and what stays. Type 0 is
-- any type.
abbrev pub select : ℕ → List Message → Option (Message × List Message)
select type [] = none
select type (m ∷ ms) = if type == 0 then some (m, ms) else take_first (λ k. k.type == type) (m ∷ ms)

-- What a receive makes of the selection.
abbrev pub Pulled :
    MsgQueue → List ℕ → ℕ → Option (Message × List Message) → ℕ × List ℕ × MsgQueue → Type 0
Pulled q buffer size none (got, out, q') = (got ≡ 0) × (out ≡ buffer) × (q' ≡ q)
Pulled q buffer size (some (m, rest)) (got, out, q') =
    (got ≡ copy_size m size) × (out ≡ delivered m size buffer) × (held q' ≡ rest) × IsRing q'

module _ (q : MsgQueue) (v : IsRing q) (buffer : List ℕ) (size type : ℕ) where
  open q use {messages, head, count}

  abbrev front : Message
  front = get_or messages head zero_message

  pull_message-empty : count ≡ 0 → pull_message q buffer size type ≡ (0, buffer, q)
  unfolding pull_message
  pull_message-empty e = rw ((==_iff count 0).1 e)

  pull_message-any :
      count ≢ 0
      → type ≡ 0
      → pull_message q buffer size type
        ≡ (copy_size front size, delivered front size buffer, take_head q)
  unfolding pull_message
  pull_message-any ne e = rw (==_of_ne count 0 ne, (==_iff type 0).1 e)

  pull_message-miss :
      count ≢ 0
      → type ≢ 0
      → find_type count messages head type ≡ none
      → pull_message q buffer size type ≡ (0, buffer, q)
  unfolding pull_message
  pull_message-miss ne typed e = rw (==_of_ne count 0 ne, ==_of_ne type 0 typed, e)

  pull_message-hit :
      (idx : ℕ)
      → count ≢ 0
      → type ≢ 0
      → find_type count messages head type ≡ some idx
      → let m = get_or messages idx zero_message in
        pull_message q buffer size type ≡ (copy_size m size, delivered m size buffer, take_at q idx)
  unfolding pull_message
  pull_message-hit idx ne typed e = rw (==_of_ne count 0 ne, ==_of_ne type 0 typed, e)

  select-typed :
      (n : ℕ)
      → count ≡ suc n
      → type ≢ 0
      → select type (held q) ≡ take_first (λ m. m.type == type) (held q)
  select-typed n e typed = rw (e, ==_of_ne type 0 typed)

  not_full_front :
      (p : ℕ)
      → ((message_at q v type p).type == type) ≡ true
      → (front.type ≢ type) ⊎ (count < max_messages)
      → (0 < p) ⊎ (count < max_messages)
  not_full_front p hit (inr lt) = inr lt
  not_full_front p hit (inl other) = elim (ℕ_discrete p 0) [
    | yes z ↦
        let at_front : message_at q v type p ≡ front =
          ap (λ k. get_or messages k zero_message)
            (ap (slot max_messages head) z ∙ slot_zero max_messages head v.head_in) in
        absurd (other (ap (λ m. Message.type m) (sym at_front) ∙ (==_iff _ type).0 hit))
    | no nz ↦ inl (omega arith)
  ]

  typed_lem :
      (n : ℕ)
      → count ≡ suc n
      → type ≢ 0
      → (front.type ≢ type) ⊎ (count < max_messages)
      → Found q v type (find_type count messages head type)
      → Pulled q buffer size (select type (held q)) (pull_message q buffer size type)
  typed_lem n e typed apart (inr (missing, none_there)) =
      rw
        (
          pull_message-miss (omega arith) typed missing,
          select-typed n e typed,
          take_first_miss (has_type q v type) count (message_at q v type) none_there,
        )
        (refl, refl, refl)
  typed_lem n e typed apart (inl (p, first, found)) =
      rw
        (
          pull_message-hit (slot max_messages head p) (omega arith) typed found,
          select-typed n e typed,
          take_first_hit (has_type q v type) count (message_at q v type) p first,
        )
        (
          refl,
          refl,
          held-take_at q v n e p (omega (arith, first.inside)) (not_full_front p first.hit apart),
          take_at-IsRing q v n e (slot max_messages head p),
        )

  -- In a ring that keeps its invariant, a receive answers, fills the buffer and leaves the messages as
  -- `select` does on the list of messages held, which takes the first of the type (for type 0 the
  -- first of all), and the ring keeps its invariant. Excepted is a type other than 0 that the front
  -- of a full ring has.
  pub pull_message_refines :
      (type ≡ 0) ⊎ ((front.type ≢ type) ⊎ (count < max_messages))
      → Pulled q buffer size (select type (held q)) (pull_message q buffer size type)
  pull_message_refines apart = elim (ℕ_discrete count 0) [
    | yes e ↦ rw (pull_message-empty e, e) (refl, refl, refl)
    | no ne ↦
        let e : count ≡ suc (count - 1) = omega arith in
        elim (ℕ_discrete type 0) [
          | yes any ↦
              rw (pull_message-any ne any, held-take_head q v (count - 1) e, any)
                (refl, refl, refl, take_head-IsRing q v (count - 1) e)
          | no typed ↦ typed_lem (count - 1) e typed (with_type typed apart) (search-Found q v type)
        ]
  ]
    where
      with_type :
          type ≢ 0
          → (type ≡ 0) ⊎ ((front.type ≢ type) ⊎ (count < max_messages))
          → (front.type ≢ type) ⊎ (count < max_messages)
      with_type typed (inl e) = absurd (typed e)
      with_type typed (inr a) = a

  -- Every receive keeps the ring well formed.
  pub pull_message-IsRing : IsRing (pull_message q buffer size type).2
  pull_message-IsRing = elim (ℕ_discrete count 0) [
    | yes e ↦ rw (pull_message-empty e) v
    | no ne ↦
        let e : count ≡ suc (count - 1) = omega arith in
        elim (ℕ_discrete type 0) [
          | yes any ↦ rw (pull_message-any ne any) (take_head-IsRing q v (count - 1) e)
          | no typed ↦ elim (Option-cases (find_type count messages head type)) [
            | inl missing ↦ rw (pull_message-miss ne typed missing) v
            | inr (idx, found) ↦
                rw (pull_message-hit idx ne typed found) (take_at-IsRing q v (count - 1) e idx)
          ]
        ]
  ]

  -- On a full ring that keeps its invariant, a receive of a type other than 0 that the front has
  -- delivers the front and drops the newest message instead: the front stays.
  pub pull_message-full_front :
      count ≡ max_messages
      → type ≢ 0
      → front.type ≡ type
      → let (got, out, q') = pull_message q buffer size type in
        (got ≡ copy_size front size)
        × (out ≡ delivered front size buffer)
        × ((newest : Message) × (held q ≡ held q' ++ (newest ∷ [])))
        × ((rest : List Message) × (held q' ≡ front ∷ rest))
  pull_message-full_front full typed same =
      rw (pull_message-hit head (omega arith) typed found, held-take_at_front q v 31 full full)
        (
          refl,
          refl,
          (
            message_at q v type 31,
            ap (contents zero_message messages max_messages head) full
                ∙ sym (tabulate-append 31 (message_at q v type)),
          ),
          (
            contents zero_message messages max_messages ((head + 1) % max_messages) 30,
            contents-pop zero_message messages max_messages head v.head_in 30,
          ),
        )
    where
      found : find_type count messages head type ≡ some head
      found =
          ap (λ k. find_type k messages head type) full ∙ find_type-first 31 messages head type same
