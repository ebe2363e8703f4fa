-- ===== src/Ipc/SharedMemory/Tests.antt =====
-- Runs of shared_memory.c, and the theorems at concrete tables.
use nexa_kernel.Base.{◌≡◌, refl, true, some, none, arith}
use nexa_kernel.Base.Int.{pos}
use nexa_kernel.Allocator.Bump.{bump}
use nexa_kernel.Ipc.SharedMemory.{
  shm_create, shm_attach, shm_detach, shm_destroy, find_region, find_slot, fill_slot, region_at,
  add_attachment, find_attachment_slot, live,
}
use nexa_kernel.Ipc.SharedMemory.Invariant.{IsCounted}
use nexa_kernel.Ipc.SharedMemory.Attach.{
  State, create, attach, step, step-IsCounted, shm_destroy-attached, cleared, cleared-IsCounted,
}
use nexa_kernel.Ipc.SharedMemory.Detach.{shm_detach-attach}

-- One region of 128 bytes, with one attachment.
abbrev shared : State bump
shared = step bump (step bump (cleared true, 4095) (create 7 100)) (attach (pos 0))

shared-IsCounted : IsCounted shared.0
shared-IsCounted =
    step-IsCounted bump _ (step-IsCounted bump _ (cleared-IsCounted true) (create 7 100))
      (attach (pos 0))

shm_attach_address : (shm_attach shared.0 (pos 0)).0 ≡ 4096
unfolding step shm_create find_region find_slot fill_slot shm_attach live region_at add_attachment
    find_attachment_slot
shm_attach_address = refl

step-IsCounted_example : IsCounted (step bump shared (attach (pos 0))).0
step-IsCounted_example = step-IsCounted bump shared shared-IsCounted (attach (pos 0))

shm_destroy-attached_example : shm_destroy bump 5000 shared.0 (pos 0) ≡ (none, shared.0, 5000)
unfolding step shm_create find_region find_slot fill_slot shm_attach live region_at add_attachment
    find_attachment_slot
shm_destroy-attached_example =
    shm_destroy-attached shared.0 shared-IsCounted bump 5000 0 (omega arith)

shm_detach-attach_example :
    (shm_detach (shm_attach shared.0 (pos 0)).1 (shm_attach shared.0 (pos 0)).0).0 ≡ some 0
shm_detach-attach_example =
    shm_detach-attach shared.0 shared-IsCounted (pos 0) (rw shm_attach_address (omega arith))
