-- ===== src/Ipc/SharedMemory/Attach.antt =====
-- Every call of shared_memory.c keeps the reference counts exact. So a region that some task is
-- attached to is never destroyed, and an attached address can be detached.
use nexa_kernel.Base.{
  ℕ, suc, ◌+◌, ◌<◌, ◌≡◌, inl, inr, refl, sym, ap, ◌∙◌, Bool, true, false, ◌||◌, not, Option, some,
  none, List, [], ◌∷◌, arith, length, get_or, replicate, ltb, leb, ◌==◌, Bool-cases, Option-cases,
  get_or-replicate,
}
use nexa_kernel.Base.Int.{ℤ, pos, negsuc}
use nexa_kernel.Allocator.{Allocator, Block}
use nexa_kernel.Ipc.SharedMemory.{
  Region, Attachment, Shm, max_shm_regions, max_attachments, zero_region, zero_attachment,
  region_at, new_region, find_slot, find_region, fill_slot, live, align_up_64, find_attachment_slot,
  find_attached, shm_init, shm_create, shm_destroy, shm_attach, shm_detach, shm_min_size,
  shm_max_size,
}
use nexa_kernel.Ipc.SharedMemory.Counting.{
  count_attached, count_attached-replicate, find_attachment_slot-some, find_attached-some,
}
use nexa_kernel.Ipc.SharedMemory.Invariant.{
  IsCounted, replace_unused, add_attachment-IsCounted, clear_attachment-IsCounted,
}

pub live-some :
    (s : Shm) (id : ℤ) (i : ℕ)
    → live s id ≡ some i
    → (i < max_shm_regions) × ((region_at s i).valid ≡ true) × (s.initialized ≡ true)
unfolding live
live-some s (pos n) i e = ground arith
live-some s (negsuc n) i e = ground arith

live-same : (s : Shm) (i j : ℕ) → live s (pos i) ≡ some j → j ≡ i
unfolding live
live-same s i j e = ground arith

find_slot-some :
    (rs : List Region) (i j : ℕ)
    → find_slot rs i ≡ some j
    → (d : ℕ) × (j ≡ i + d) × (d < length rs) × ((get_or rs d zero_region).valid ≡ false)
unfolding find_slot
find_slot-some [] i j e = cc
find_slot-some (r ∷ rs) i j e = elim (Bool-cases r.valid) [
  | inl used ↦
      let (d, at, inside, free) = find_slot-some rs (suc i) j (ground arith) in
      (suc d, omega arith, omega arith, free)
  | inr free ↦ (0, ground arith, omega arith, free)
]

module _ (s : Shm) (v : IsCounted s) where
  shm_attach-IsCounted : (id : ℤ) → IsCounted (shm_attach s id).1
  unfolding shm_attach
  shm_attach-IsCounted id = elim (Option-cases (live s id)) [
    | inl refused ↦ rw (refused, shm_attach) v
    | inr (i, e) ↦ elim (Bool-cases ((region_at s i).address == 0)) [
      | inl null ↦ rw (e, shm_attach, null) v
      | inr mapped ↦ elim (Option-cases (find_attachment_slot s.attachments 0)) [
        | inl full ↦ rw (e, shm_attach, mapped, full) v
        | inr (slot, free) ↦
            let (inside, valid, on) = live-some s id i e in
            let (d, at, room, unused) = find_attachment_slot-some s.attachments 0 slot free in
            let same : slot ≡ d = omega arith in
            rw (e, shm_attach, mapped, free)
              (add_attachment-IsCounted s v i slot inside valid (omega (arith, v.attachment_count))
                (rw same unused))
      ]
    ]
  ]

  shm_detach-IsCounted : (addr : ℕ) → IsCounted (shm_detach s addr).1
  unfolding shm_detach
  shm_detach-IsCounted addr = elim (Bool-cases (not s.initialized || addr == 0)) [
    | inl bad ↦ simp bad v
    | inr good ↦ elim (Option-cases (find_attached s.attachments addr 0)) [
      | inl missing ↦ simp (good, missing) v
      | inr (slot, found) ↦
          let (d, at, room, valid, _) = find_attached-some s.attachments addr 0 slot found in
          let same : slot ≡ d = omega arith in
          rw (good, found)
            (clear_attachment-IsCounted s v slot (omega (arith, v.attachment_count))
              (rw same valid))
    ]
  ]

  module _ (a : Allocator) (h : Allocator.Heap a) where
    shm_destroy-IsCounted : (id : ℤ) → IsCounted (shm_destroy a h s id).1
    unfolding shm_destroy
    shm_destroy-IsCounted id = elim (Option-cases (live s id)) [
      | inl refused ↦ rw (refused, shm_destroy) v
      | inr (i, e) ↦ elim (Bool-cases (ltb 0 (region_at s i).ref_count)) [
        | inl used ↦ rw (e, shm_destroy, used) v
        | inr unused ↦
            rw (e, shm_destroy, unused)
              (replace_unused s v i (live-some s id i e).0 zero_region (ground arith) refl)
      ]
    ]

    fill_slot-IsCounted :
        (slot k size : ℕ) (g : Option Block × Allocator.Heap a)
        → find_slot s.regions 0 ≡ some slot
        → IsCounted (fill_slot a s slot k size g).1
    unfolding fill_slot region_at
    fill_slot-IsCounted slot k size (none, h') free = v
    fill_slot-IsCounted slot k size (some b, h') free =
        let (d, at, room, unused) = find_slot-some s.regions 0 slot free in
        let same : slot ≡ d = omega arith in
        replace_unused s v slot (omega (arith, v.region_count)) (new_region k b.addr size)
          (v.idle slot (rw same unused)) refl

    shm_create-IsCounted : (k size : ℕ) → IsCounted (shm_create a h s k size).1
    unfolding shm_create
    shm_create-IsCounted k size = elim (Bool-cases (not s.initialized)) [
      | inl off ↦ simp off v
      | inr on ↦ elim (Bool-cases (ltb size shm_min_size || ltb shm_max_size size)) [
        | inl bad ↦ simp (on, bad) v
        | inr good ↦ elim (Option-cases (find_region s.regions k 0)) [
          | inr (i, found) ↦ elim (Bool-cases (leb size (region_at s i).size)) [
            | inl fits ↦ simp (on, good, found, fits) v
            | inr short ↦ simp (on, good, found, short) v
          ]
          | inl absent ↦ elim (Option-cases (find_slot s.regions 0)) [
            | inl full ↦ simp (on, good, absent, full) v
            | inr (slot, free) ↦
                simp (on, good, absent, free)
                  (fill_slot-IsCounted slot k (align_up_64 size)
                    (Allocator.kmalloc a h (align_up_64 size)) free)
          ]
        ]
      ]
    ]

    -- With exact counts, `shm_destroy` refuses a region that an attachment uses, and changes neither
    -- the tables nor the heap.
    pub shm_destroy-attached :
        (i : ℕ) → 0 < count_attached i s.attachments → shm_destroy a h s (pos i) ≡ (none, s, h)
    unfolding shm_destroy
    shm_destroy-attached i used = elim (Option-cases (live s (pos i))) [
      | inl refused ↦ rw (refused, shm_destroy)
      | inr (j, e) ↦
          let same : j ≡ i = live-same s i j e in
          let counted : ltb 0 (region_at s j).ref_count ≡ true =
            rw same (ground (arith, v.counted i)) in
          rw (e, shm_destroy, counted)
    ]

-- The tables at the boot and after `shm_init`.
abbrev pub cleared : Bool → Shm
cleared b = record {
  regions = replicate max_shm_regions zero_region;
  attachments = replicate max_attachments zero_attachment;
  initialized = b;
}

pub cleared-IsCounted : (b : Bool) → IsCounted (cleared b)
unfolding region_at
cleared-IsCounted b = record {
  region_count = refl;
  attachment_count = refl;
  counted = λ i.
      ap (λ r. Region.ref_count r) (get_or-replicate max_shm_regions i zero_region)
      ∙ sym (count_attached-replicate i max_attachments);
  idle = λ i _. ap (λ r. Region.ref_count r) (get_or-replicate max_shm_regions i zero_region);
  backed = λ j here.
      cc (ap (λ t. Attachment.valid t) (get_or-replicate max_attachments j zero_attachment));
}

shm_init-IsCounted : (s : Shm) → IsCounted s → IsCounted (shm_init s)
unfolding shm_init
shm_init-IsCounted s v = elim (Bool-cases s.initialized) [
  | inl on ↦ simp on v
  | inr off ↦ simp off (cleared-IsCounted true)
]

-- The calls of a client.
pub data Call : Type 0 where
  init : Call
  create : ℕ → ℕ → Call
  attach destroy : ℤ → Call
  detach : ℕ → Call

module _ (a : Allocator) where
  abbrev pub State : Type 0
  State = Shm × Allocator.Heap a

  unfoldable pub step : State → Call → State
  step (s, h) init = (shm_init s, h)
  step (s, h) (create k size) = let (_, s', h') = shm_create a h s k size in (s', h')
  step (s, h) (attach id) = ((shm_attach s id).1, h)
  step (s, h) (destroy id) = let (_, s', h') = shm_destroy a h s id in (s', h')
  step (s, h) (detach addr) = ((shm_detach s addr).1, h)

  -- Every call (init, create, attach, destroy, detach) keeps the reference counts exact: a region's
  -- count is the number of attachments to it, and the region of an attachment is valid and lies at
  -- the attached address.
  pub step-IsCounted : (t : State) → IsCounted t.0 → (c : Call) → IsCounted (step t c).0
  unfolding step
  step-IsCounted (s, h) v init = shm_init-IsCounted s v
  step-IsCounted (s, h) v (create k size) = shm_create-IsCounted s v a h k size
  step-IsCounted (s, h) v (attach id) = shm_attach-IsCounted s v id
  step-IsCounted (s, h) v (destroy id) = shm_destroy-IsCounted s v a h id
  step-IsCounted (s, h) v (detach addr) = shm_detach-IsCounted s v addr
