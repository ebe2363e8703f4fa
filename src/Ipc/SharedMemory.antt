-- ===== src/Ipc/SharedMemory.antt =====
-- kernel/ipc/shared_memory.c. The static tables and `shm_initialized` are the state that each function
-- takes and returns; the heap comes from the allocator. A result of `none` is the -1 of the code, an
-- address of 0 its null pointer.
pub mod Counting
pub mod Invariant
pub mod Attach
pub mod Detach
mod Tests
use nexa_kernel.Base.{
  ℕ, zero, suc, ◌+◌, ◌-◌, ◌*◌, ◌/◌, Bool, true, false, not, ◌&&◌, ◌||◌, Option, none, some, List,
  [], ◌∷◌, get_or, set, replicate, ltb, leb, ◌==◌, if◌then◌else◌, add_word,
}
use nexa_kernel.Base.Int.{ℤ, pos, in_range}
use nexa_kernel.Allocator.{Allocator, Block}

abbrev pub max_shm_regions : ℕ
max_shm_regions = 16

abbrev pub max_attachments : ℕ
max_attachments = 64

abbrev pub shm_min_size : ℕ
shm_min_size = 64

abbrev pub shm_max_size : ℕ
shm_max_size = 1024 * 1024

-- `shm_region_t`
pub record Region : Type 0 where
  pub valid : Bool
  pub key : ℕ
  pub address : ℕ
  pub size : ℕ
  pub ref_count : ℕ
  pub creator_pid : ℕ

-- `shm_attachment_t`. `shm_id` is never negative: `shm_attach` checks it.
pub record Attachment : Type 0 where
  pub valid : Bool
  pub shm_id : ℕ
  pub task_pid : ℕ
  pub attached_addr : ℕ

pub record Shm : Type 0 where
  pub regions : List Region
  pub attachments : List Attachment
  pub initialized : Bool

abbrev pub zero_region : Region
zero_region = record {
  valid = false;
  key = 0;
  address = 0;
  size = 0;
  ref_count = 0;
  creator_pid = 0;
}

abbrev pub zero_attachment : Attachment
zero_attachment = record { valid = false; shm_id = 0; task_pid = 0; attached_addr = 0 }

pub region_at : Shm → ℕ → Region
region_at s i = get_or s.regions i zero_region

pub shm_init : Shm → Shm
shm_init s = if s.initialized then s else record {
  regions = replicate max_shm_regions zero_region;
  attachments = replicate max_attachments zero_attachment;
  initialized = true;
}

-- The first valid region with the key, from index `i` on.
pub find_region : List Region → ℕ → ℕ → Option ℕ
find_region [] k i = none
find_region (r ∷ rs) k i = if r.valid && r.key == k then some i else find_region rs k (suc i)

-- The first region slot that is not in use.
pub find_slot : List Region → ℕ → Option ℕ
find_slot [] i = none
find_slot (r ∷ rs) i = if r.valid then find_slot rs (suc i) else some i

-- `ALIGN_UP(size, 64)`: rounding up to a multiple.
abbrev pub align_up_64 : ℕ → ℕ
align_up_64 size = (size + 63) / 64 * 64

abbrev pub new_region : ℕ → ℕ → ℕ → Region
new_region k address size = record {
  valid = true;
  key = k;
  address = address;
  size = size;
  ref_count = 0;
  creator_pid = 0;
}

-- The guard of the operations on a region id: the id of a valid region.
pub live : Shm → ℤ → Option ℕ
unfolding region_at
live s id = if not s.initialized then none else elim (in_range id max_shm_regions) [
  | none ↦ none
  | some i ↦ if (region_at s i).valid then some i else none
]

module _ (a : Allocator) where
  open a use {Heap, kmalloc, kfree}

  -- What `shm_create` does with the allocator's answer.
  pub fill_slot : Shm → ℕ → ℕ → ℕ → Option Block × Heap → Option ℕ × Shm × Heap
  fill_slot s slot k size (none, h) = (none, s, h)
  fill_slot s slot k size (some b, h) =
      (some slot, record s { regions = set s.regions slot (new_region k b.addr size) }, h)

  -- The bytes of the region are zeroed by the code; they are not part of this state.
  pub shm_create : Heap → Shm → ℕ → ℕ → Option ℕ × Shm × Heap
  unfolding region_at fill_slot
  shm_create h s k size =
      if not s.initialized
      then (none, s, h)
      else if ltb size shm_min_size || ltb shm_max_size size
      then (none, s, h)
      else elim (find_region s.regions k 0) [
        | some i ↦ if leb size (region_at s i).size then (some i, s, h) else (none, s, h)
        | none ↦ elim (find_slot s.regions 0) [
          | none ↦ (none, s, h)
          | some slot ↦ fill_slot s slot k (align_up_64 size) (kmalloc h (align_up_64 size))
        ]
      ]

  pub shm_destroy : Heap → Shm → ℤ → Option ℕ × Shm × Heap
  unfolding live region_at
  shm_destroy h s id = elim (live s id) [
    | none ↦ (none, s, h)
    | some i ↦
        let r = region_at s i in
        if ltb 0 r.ref_count then (none, s, h) else (
          some 0,
          record s { regions = set s.regions i zero_region },
          if r.address == 0 then h else kfree h r.address,
        )
  ]

pub shm_get : Shm → ℕ → Option ℕ
shm_get s k = if not s.initialized then none else find_region s.regions k 0

-- The first attachment slot that is free.
pub find_attachment_slot : List Attachment → ℕ → Option ℕ
find_attachment_slot [] i = none
find_attachment_slot (t ∷ ts) i = if t.valid then find_attachment_slot ts (suc i) else some i

-- What `shm_attach` does in the slot: record the attachment, and count it.
pub add_attachment : Shm → ℕ → ℕ → Shm
unfolding region_at
add_attachment s i slot =
    let r = region_at s i in
    record s {
      attachments =
          set s.attachments slot
            (record { valid = true; shm_id = i; task_pid = 0; attached_addr = r.address });
      regions = set s.regions i (record r { ref_count = add_word r.ref_count 1 });
    }

-- The address hint is not used by the code.
pub shm_attach : Shm → ℤ → ℕ × Shm
unfolding live add_attachment region_at
shm_attach s id = elim (live s id) [
  | none ↦ (0, s)
  | some i ↦
      if (region_at s i).address == 0 then (0, s) else elim (find_attachment_slot s.attachments 0) [
        | none ↦ (0, s)
        | some slot ↦ ((region_at s i).address, add_attachment s i slot)
      ]
]

-- The first valid attachment at the address.
pub find_attached : List Attachment → ℕ → ℕ → Option ℕ
find_attached [] addr i = none
find_attached (t ∷ ts) addr i =
    if t.valid && t.attached_addr == addr then some i else find_attached ts addr (suc i)

abbrev pub drop_count : Region → Region
drop_count r = if ltb 0 r.ref_count then record r { ref_count = r.ref_count - 1 } else r

-- Clear the attachment in a slot, and take it off its region's count.
pub clear_attachment : Shm → ℕ → Shm
unfolding region_at
clear_attachment s slot =
    let i = (get_or s.attachments slot zero_attachment).shm_id in
    record s {
      attachments = set s.attachments slot zero_attachment;
      regions =
          if ltb i max_shm_regions then set s.regions i (drop_count (region_at s i)) else s.regions;
    }

pub shm_detach : Shm → ℕ → Option ℕ × Shm
unfolding clear_attachment
shm_detach s addr =
    if not s.initialized || addr == 0
    then (none, s)
    else elim (find_attached s.attachments addr 0) [
      | none ↦ (none, s)
      | some slot ↦ (some 0, clear_attachment s slot)
    ]

pub shm_get_size : Shm → ℤ → ℕ
unfolding live region_at
shm_get_size s id = elim (live s id) [ none ↦ 0 | some i ↦ (region_at s i).size ]

pub count_regions : List Region → ℕ
count_regions [] = 0
count_regions (r ∷ rs) = if r.valid then suc (count_regions rs) else count_regions rs

pub shm_count : Shm → ℕ
unfolding count_regions
shm_count s = if s.initialized then count_regions s.regions else 0

pub shm_is_initialized : Shm → Bool
shm_is_initialized s = s.initialized
