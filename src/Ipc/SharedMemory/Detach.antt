-- ===== src/Ipc/SharedMemory/Detach.antt =====
-- What `shm_attach` yields, `shm_detach` accepts.
use nexa_kernel.Base.{
  ℕ, ◌<◌, ◌≡◌, ◌≢◌, inl, inr, ap, true, some, arith, get_or-set_self, ◌==◌, Bool-cases,
  Option-cases, ==_of_ne, ==→ne,
}
use nexa_kernel.Base.Int.{ℤ}
use nexa_kernel.Ipc.SharedMemory.{
  Attachment, Shm, max_attachments, zero_attachment, region_at, add_attachment, live,
  find_attachment_slot, find_attached, shm_attach, shm_detach,
}
use nexa_kernel.Ipc.SharedMemory.Counting.{find_attachment_slot-some, find_attached-none}
use nexa_kernel.Ipc.SharedMemory.Invariant.{IsCounted, attachment_at}
use nexa_kernel.Ipc.SharedMemory.Attach.{live-some}

-- A state with a valid attachment at the address detaches it.
detach_found :
    (s : Shm) (addr slot : ℕ)
    → s.initialized ≡ true
    → addr ≢ 0
    → (attachment_at s slot).valid ≡ true
    → (attachment_at s slot).attached_addr ≡ addr
    → (shm_detach s addr).0 ≡ some 0
unfolding shm_detach
detach_found s addr slot on nonzero valid same =
    elim (Option-cases (find_attached s.attachments addr 0)) [
      | inl missing ↦ absurd (find_attached-none s.attachments addr 0 missing slot valid same)
      | inr (j, found) ↦ rw (on, ==_of_ne addr 0 nonzero, found)
    ]

module _ (s : Shm) (v : IsCounted s) where
  attached_there :
      (i slot : ℕ)
      → slot < max_attachments
      → attachment_at (add_attachment s i slot) slot
        ≡ record { valid = true; shm_id = i; task_pid = 0; attached_addr = (region_at s i).address }
  unfolding add_attachment
  attached_there i slot room =
      get_or-set_self s.attachments slot _ zero_attachment (omega (arith, v.attachment_count))

  add_then_detach :
      (i slot : ℕ)
      → slot < max_attachments
      → s.initialized ≡ true
      → (region_at s i).address ≢ 0
      → (shm_detach (add_attachment s i slot) (region_at s i).address).0 ≡ some 0
  unfolding add_attachment
  add_then_detach i slot room on mapped =
      let there = attached_there i slot room in
      detach_found (add_attachment s i slot) (region_at s i).address slot on mapped
        (ap (λ t. Attachment.valid t) there) (ap (λ t. Attachment.attached_addr t) there)

  -- Where the counts are exact, `shm_detach` accepts in the state after a `shm_attach` the address that
  -- this has yielded, if that is not null.
  pub shm_detach-attach :
      (id : ℤ)
      → (shm_attach s id).0 ≢ 0
      → (shm_detach (shm_attach s id).1 (shm_attach s id).0).0 ≡ some 0
  unfolding shm_attach
  shm_detach-attach id mapped = elim (Option-cases (live s id)) [
    | inl refused ↦ absurd (mapped (rw (refused, shm_attach)))
    | inr (i, e) ↦ elim (Bool-cases ((region_at s i).address == 0)) [
      | inl null ↦ absurd (mapped (rw (e, shm_attach, null)))
      | inr there ↦ elim (Option-cases (find_attachment_slot s.attachments 0)) [
        | inl full ↦ absurd (mapped (rw (e, shm_attach, there, full)))
        | inr (slot, free) ↦
            let (d, at, room, _) = find_attachment_slot-some s.attachments 0 slot free in
            rw (e, shm_attach, there, free)
              (add_then_detach i slot (omega (arith, v.attachment_count)) (live-some s id i e).2
                (==→ne (region_at s i).address 0 there))
      ]
    ]
  ]
