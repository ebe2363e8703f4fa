-- ===== src/Ipc/SharedMemory/Invariant.antt =====
-- Reference counts of shared_memory.c: each region's count is the number of attachments to it, and
-- an attachment's region is valid and lies where the attachment says.
use nexa_kernel.Base.{
  ℕ, zero, suc, ◌<◌, ◌≡◌, inl, inr, sym, ap, ◌∙◌, true, false, List, [], ◌∷◌, arith, length, get_or,
  set, lt→ltb, length-set, get_or-set, ◌==◌, if◌then◌else◌, Bool-cases, add_word,
}
use nexa_kernel.Ipc.SharedMemory.{
  Region, Attachment, Shm, max_shm_regions, max_attachments, zero_region, zero_attachment,
  region_at, add_attachment, clear_attachment, drop_count,
}
use nexa_kernel.Ipc.SharedMemory.Counting.{
  count_attached, count_attached-set, count_attached-le, count_attached-pos,
}

abbrev pub attachment_at : Shm → ℕ → Attachment
attachment_at s j = get_or s.attachments j zero_attachment

-- The region of an attachment is valid, and lies at the attached address.
abbrev pub Backs : Region → Attachment → Type 0
Backs r t = (r.valid ≡ true) × (r.address ≡ t.attached_addr)

pub record IsCounted (s : Shm) : Type 0 where
  pub region_count : length s.regions ≡ max_shm_regions
  pub attachment_count : length s.attachments ≡ max_attachments
  pub counted : (i : ℕ) → (region_at s i).ref_count ≡ count_attached i s.attachments
  pub idle : (i : ℕ) → (region_at s i).valid ≡ false → (region_at s i).ref_count ≡ 0
  pub backed :
      (j : ℕ)
      → (attachment_at s j).valid ≡ true
      → Backs (region_at s (attachment_at s j).shm_id) (attachment_at s j)

-- A region slot after a write to the table.
region_at-set :
    (s : Shm) (ts : List Attachment) (i : ℕ) (r : Region) (j : ℕ)
    → i < length s.regions
    → region_at (record s { regions = set s.regions i r; attachments = ts }) j
      ≡ (if i == j then r else region_at s j)
unfolding region_at
region_at-set s ts i r j h = get_or-set s.regions i j r zero_region h

module _ (s : Shm) (v : IsCounted s) (i : ℕ) (inside : i < max_shm_regions) where
  -- A region that no attachment uses may be replaced by one with a count of 0.
  pub replace_unused :
      (r : Region)
      → (region_at s i).ref_count ≡ 0
      → r.ref_count ≡ 0
      → IsCounted (record s { regions = set s.regions i r })
  replace_unused r unused none_yet = record {
    region_count = length-set s.regions i r ∙ v.region_count;
    attachment_count = v.attachment_count;
    counted = λ j. rw (at j) (ground (arith, v.counted j));
    idle = λ j. rw (at j) (ground (arith, v.idle j));
    backed = λ j valid.
        let other : (i == (attachment_at s j).shm_id) ≡ false = apart j valid in
        rw (at (attachment_at s j).shm_id, other) (v.backed j valid);
  }
    where
      at :
          (j : ℕ)
          → region_at (record s { regions = set s.regions i r }) j
            ≡ (if i == j then r else region_at s j)
      at j = region_at-set s s.attachments i r j (omega (arith, v.region_count))

      apart : (j : ℕ) → (attachment_at s j).valid ≡ true → (i == (attachment_at s j).shm_id) ≡ false
      apart j valid = elim (Bool-cases (i == (attachment_at s j).shm_id)) [
        | inl same ↦
            absurd (omega (arith, v.counted i, count_attached-pos i j s.attachments (ground arith)))
        | inr other ↦ other
      ]

module _ (s : Shm) (v : IsCounted s) (i slot : ℕ) where
  pub add_attachment-IsCounted :
      i < max_shm_regions
      → (region_at s i).valid ≡ true
      → slot < max_attachments
      → (attachment_at s slot).valid ≡ false
      → IsCounted (add_attachment s i slot)
  unfolding add_attachment
  add_attachment-IsCounted inside valid room free = record {
    region_count = length-set s.regions i r' ∙ v.region_count;
    attachment_count = length-set s.attachments slot t ∙ v.attachment_count;
    counted = λ j. rw (at j) (
        ground (
          arith,
          v.counted j,
          v.attachment_count,
          count_attached-set j slot s.attachments t,
          count_attached-le j s.attachments,
        ));
    idle = λ j. rw (at j) (ground (arith, v.idle j, valid));
    backed = λ j here. elim (Bool-cases (slot == j)) [
      | inl same ↦ rw (attached j, same, at i) (ground arith)
      | inr other ↦
          let kept : attachment_at s' j ≡ attachment_at s j = rw (attached j, other) in
          let id = (attachment_at s j).shm_id in
          rw (kept, at id)
            (ground (arith, v.backed j (ap (λ a. Attachment.valid a) (sym kept) ∙ here)))
    ];
  }
    where
      r : Region
      r = region_at s i

      r' : Region
      r' = record r { ref_count = add_word r.ref_count 1 }

      t : Attachment
      t = record { valid = true; shm_id = i; task_pid = 0; attached_addr = r.address }

      s' : Shm
      s' = record s { regions = set s.regions i r'; attachments = set s.attachments slot t }

      at : (j : ℕ) → region_at s' j ≡ (if i == j then r' else region_at s j)
      at j = region_at-set s (set s.attachments slot t) i r' j (omega (arith, v.region_count))

      attached : (j : ℕ) → attachment_at s' j ≡ (if slot == j then t else attachment_at s j)
      attached j =
          get_or-set s.attachments slot j t zero_attachment (omega (arith, v.attachment_count))

in_table : (rs : List Region) (i : ℕ) → (get_or rs i zero_region).valid ≡ true → i < length rs
in_table [] i e = cc
in_table (r ∷ rs) zero e = omega arith
in_table (r ∷ rs) (suc i) e = omega (arith, in_table rs i e)

-- A valid region's id is an index of the table.
pub valid_inside :
    (s : Shm) → IsCounted s → (i : ℕ) → (region_at s i).valid ≡ true → i < max_shm_regions
unfolding region_at
valid_inside s v i e = omega (arith, v.region_count, in_table s.regions i e)

module _ (s : Shm) (v : IsCounted s) (slot : ℕ) (room : slot < max_attachments) where
  abbrev left : ℕ
  left = (attachment_at s slot).shm_id

  abbrev detached : Shm
  detached = record s {
    regions = set s.regions left (drop_count (region_at s left));
    attachments = set s.attachments slot zero_attachment;
  }

  detached-IsCounted : (attachment_at s slot).valid ≡ true → IsCounted detached
  detached-IsCounted valid = record {
    region_count = length-set s.regions left (drop_count (region_at s left)) ∙ v.region_count;
    attachment_count = length-set s.attachments slot zero_attachment ∙ v.attachment_count;
    counted = λ j. rw (at j) (
        ground (
          arith,
          v.counted j,
          v.attachment_count,
          count_attached-set j slot s.attachments zero_attachment,
        ));
    idle = λ j. rw (at j) (ground (arith, v.idle j));
    backed = λ j here. elim (Bool-cases (slot == j)) [
      | inl same ↦
          let gone : attachment_at detached j ≡ zero_attachment = rw (attached j, same) in cc
      | inr other ↦
          let kept : attachment_at detached j ≡ attachment_at s j = rw (attached j, other) in
          let id = (attachment_at s j).shm_id in
          rw (kept, at id)
            (ground (arith, v.backed j (ap (λ a. Attachment.valid a) (sym kept) ∙ here)))
    ];
  }
    where
      inside : left < length s.regions
      inside = omega (arith, v.region_count, valid_inside s v left (v.backed slot valid).0)

      at :
          (j : ℕ)
          → region_at detached j
            ≡ (if left == j then drop_count (region_at s left) else region_at s j)
      at j =
          region_at-set s (set s.attachments slot zero_attachment) left
            (drop_count (region_at s left)) j inside

      attached :
          (j : ℕ)
          → attachment_at detached j ≡ (if slot == j then zero_attachment else attachment_at s j)
      attached j =
          get_or-set s.attachments slot j zero_attachment zero_attachment
            (omega (arith, v.attachment_count))

  clear_attachment_lem : (attachment_at s slot).valid ≡ true → clear_attachment s slot ≡ detached
  unfolding clear_attachment
  clear_attachment_lem valid =
      let inside = valid_inside s v left (v.backed slot valid).0 in
      rw (lt→ltb left max_shm_regions inside)

  pub clear_attachment-IsCounted :
      (attachment_at s slot).valid ≡ true → IsCounted (clear_attachment s slot)
  clear_attachment-IsCounted valid = rw (clear_attachment_lem valid) (detached-IsCounted valid)
