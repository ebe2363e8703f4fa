-- ===== src/Ipc/SharedMemory/Counting.antt =====
-- How many attachments of shared_memory.c a region has, and how a write to the table changes that.
use nexa_kernel.Base.{
  ℕ, zero, suc, ◌+◌, ◌≤◌, ◌<◌, ◌≡◌, refl, true, false, ◌&&◌, some, none, List, [], ◌∷◌, arith,
  length, get_or, set, replicate, inl, inr, ◌≢◌, ◌==◌, if◌then◌else◌, Bool-cases,
}
use nexa_kernel.Ipc.SharedMemory.{Attachment, zero_attachment, find_attachment_slot, find_attached}

-- 1 for a valid attachment to region `i`.
abbrev pub weight : ℕ → Attachment → ℕ
weight i t = if t.valid && t.shm_id == i then 1 else 0

abbrev pub count_attached : ℕ → List Attachment → ℕ
count_attached i [] = 0
count_attached i (t ∷ ts) = weight i t + count_attached i ts

pub count_attached-set :
    (i j : ℕ) (ts : List Attachment) (t : Attachment)
    → j < length ts
    → count_attached i (set ts j t) + weight i (get_or ts j zero_attachment)
      ≡ count_attached i ts + weight i t
count_attached-set i j [] t h = absurd (omega arith)
count_attached-set i zero (x ∷ ts) t h = omega arith
count_attached-set i (suc j) (x ∷ ts) t h = omega (arith, count_attached-set i j ts t (omega arith))

pub count_attached-le : (i : ℕ) (ts : List Attachment) → count_attached i ts ≤ length ts
count_attached-le i [] = omega arith
count_attached-le i (t ∷ ts) = ground (arith, count_attached-le i ts)

pub count_attached-replicate : (i n : ℕ) → count_attached i (replicate n zero_attachment) ≡ 0
count_attached-replicate i zero = refl
count_attached-replicate i (suc n) = omega (arith, count_attached-replicate i n)

-- A region that an attachment names is counted.
pub count_attached-pos :
    (i j : ℕ) (ts : List Attachment)
    → weight i (get_or ts j zero_attachment) ≡ 1
    → 0 < count_attached i ts
count_attached-pos i j [] h = absurd (omega arith)
count_attached-pos i zero (t ∷ ts) h = omega arith
count_attached-pos i (suc j) (t ∷ ts) h = omega (arith, count_attached-pos i j ts h)

pub find_attachment_slot-some :
    (ts : List Attachment) (i j : ℕ)
    → find_attachment_slot ts i ≡ some j
    → (d : ℕ) × (j ≡ i + d) × (d < length ts) × ((get_or ts d zero_attachment).valid ≡ false)
unfolding find_attachment_slot
find_attachment_slot-some [] i j e = cc
find_attachment_slot-some (t ∷ ts) i j e = elim (Bool-cases t.valid) [
  | inl used ↦
      let (d, at, inside, free) = find_attachment_slot-some ts (suc i) j (ground arith) in
      (suc d, omega arith, omega arith, free)
  | inr free ↦ (0, ground arith, omega arith, free)
]

pub find_attached-some :
    (ts : List Attachment) (addr i j : ℕ)
    → find_attached ts addr i ≡ some j
    → (d : ℕ) × (j ≡ i + d)
      × (d < length ts)
      × ((get_or ts d zero_attachment).valid ≡ true)
      × ((get_or ts d zero_attachment).attached_addr ≡ addr)
unfolding find_attached
find_attached-some [] addr i j e = cc
find_attached-some (t ∷ ts) addr i j e = elim (Bool-cases (t.valid && t.attached_addr == addr)) [
  | inl hit ↦ (0, ground arith, omega arith, ground arith, ground arith)
  | inr miss ↦
      let (d, at, inside, valid, same) = find_attached-some ts addr (suc i) j (ground arith) in
      (suc d, omega arith, omega arith, valid, same)
]

-- An attachment at the address is enough for the search to succeed.
pub find_attached-none :
    (ts : List Attachment) (addr i : ℕ)
    → find_attached ts addr i ≡ none
    → (j : ℕ) → (get_or ts j zero_attachment).valid ≡ true
    → (get_or ts j zero_attachment).attached_addr ≢ addr
unfolding find_attached
find_attached-none [] addr i e j valid = cc
find_attached-none (t ∷ ts) addr i e zero valid = ground arith
find_attached-none (t ∷ ts) addr i e (suc j) valid =
    find_attached-none ts addr (suc i) (ground arith) j valid
