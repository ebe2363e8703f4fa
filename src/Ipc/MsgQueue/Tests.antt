-- ===== src/Ipc/MsgQueue/Tests.antt =====
-- Runs of message_queue.c, and the theorems at concrete queues.
use nexa_kernel.Base.{
  ℕ, zero, suc, ◌≡◌, refl, inl, true, some, List, [], ◌∷◌, ◌++◌, arith, length, get_or, replicate,
}
use nexa_kernel.Base.Int.{pos}
use nexa_kernel.Ipc.MsgQueue.{
  Message, MsgQueue, Subsystem, max_messages, max_msg_size, zero_message, opened, push_message,
  pull_message, delivered, msgq_create, msgq_get, msgq_init, find_key, find_free,
}
use nexa_kernel.Ipc.MsgQueue.Invariant.{IsRing, held, Carries, push_message_lem}
use nexa_kernel.Ipc.MsgQueue.Receive.{Pulled, select, pull_message_refines, pull_message-full_front}
use nexa_kernel.Ipc.MsgQueue.System.{
  Call, create, send, receive, destroy, step, run, boot, step-IsSystem, run-boot, zero_queue-IsRing,
}
use nexa_kernel.Ipc.MsgQueue.System
use nexa_kernel.Ipc.MsgQueue.Keys.{IsSystem}
use nexa_kernel.Ipc.MsgQueue.Lookup.{msgq_get-create}

-- A message of type 5 with one byte, in a data buffer of the full size.
abbrev note : Message
note = record { sender_pid = 0; type = 5; size = 1; bytes = replicate max_msg_size 0 }

-- An open queue with 32 such messages.
abbrev crowded : MsgQueue
crowded = record (opened 9) { messages = replicate max_messages note; count = max_messages }

note_size : (n i : ℕ) → length (get_or (replicate n note) i zero_message).bytes ≡ max_msg_size
note_size zero i = refl
note_size (suc n) zero = refl
note_size (suc n) (suc i) = note_size n i

crowded-IsRing : IsRing crowded
crowded-IsRing = record {
  room = refl;
  head_in = omega arith;
  count_le = omega arith;
  tail_at = refl;
  buffers = note_size max_messages;
}

opened-IsRing : IsRing (opened 9)
opened-IsRing = zero_queue-IsRing 9 1 true

push_message_lem_example :
    (q' : MsgQueue) × (m : Message) × (push_message (opened 9) (7 ∷ 8 ∷ []) 2 5 ≡ some q')
    × IsRing q'
    × (held q' ≡ [] ++ (m ∷ []))
    × Carries m (7 ∷ 8 ∷ []) 2 5
push_message_lem_example =
    push_message_lem (opened 9) opened-IsRing (7 ∷ 8 ∷ []) 2 5 (omega arith) (omega arith)
      (omega arith)

pull_message_refines_example :
    Pulled crowded (0 ∷ []) 1 (select 0 (held crowded)) (pull_message crowded (0 ∷ []) 1 0)
pull_message_refines_example = pull_message_refines crowded crowded-IsRing (0 ∷ []) 1 0 (inl refl)

pull_message-full_front_example :
    let (got, out, q') = pull_message crowded (0 ∷ []) 1 5 in
    (got ≡ 1)
    × (out ≡ delivered note 1 (0 ∷ []))
    × ((newest : Message) × (held crowded ≡ held q' ++ (newest ∷ [])))
    × ((rest : List Message) × (held q' ≡ note ∷ rest))
pull_message-full_front_example =
    pull_message-full_front crowded crowded-IsRing (0 ∷ []) 1 5 refl (omega arith) refl

calls : List Call
calls =
    System.init
    ∷ create 9
    ∷ send (pos 0) (some (7 ∷ 8 ∷ [])) 2 5
    ∷ receive (pos 0) (some (0 ∷ 0 ∷ [])) 2 5
    ∷ destroy (pos 0)
    ∷ []

run-boot_example : IsSystem (run boot calls)
run-boot_example = run-boot calls

step-IsSystem_example : IsSystem (step (run boot calls) (create 4))
step-IsSystem_example = step-IsSystem (run boot calls) (run-boot calls) (create 4)

started : Subsystem
started = run boot (System.init ∷ [])

msgq_get-create_example : (msgq_get (msgq_create started 9).1 9).0 ≡ some 0
unfolding started run step msgq_init msgq_create find_key find_free
msgq_get-create_example = msgq_get-create started (run-boot (System.init ∷ [])) 9 0 refl
