-- ===== src/Ipc/MsgQueue/Bytes.antt =====
-- `copy_bytes`, the memcpy of message_queue.c between two objects.
use nexa_kernel.Base.{
  ℕ, zero, suc, ◌≤◌, ◌≡◌, refl, ap, List, [], ◌∷◌, ◌++◌, arith, length, take, drop,
}
use nexa_kernel.Ipc.MsgQueue.{copy_bytes}

pub length-copy_bytes : (n : ℕ) (src dst : List ℕ) → length (copy_bytes n src dst) ≡ length dst
unfolding copy_bytes
length-copy_bytes zero src dst = refl
length-copy_bytes (suc n) [] dst = refl
length-copy_bytes (suc n) (b ∷ src) [] = refl
length-copy_bytes (suc n) (b ∷ src) (c ∷ dst) = ap suc (length-copy_bytes n src dst)

-- The first `n` bytes are the source's, the others those that were there.
pub copy_bytes_lem :
    (n : ℕ) (src dst : List ℕ)
    → n ≤ length src
    → n ≤ length dst
    → copy_bytes n src dst ≡ take n src ++ drop n dst
unfolding copy_bytes
copy_bytes_lem zero src dst p q = refl
copy_bytes_lem (suc n) [] dst p q = absurd (omega arith)
copy_bytes_lem (suc n) (b ∷ src) [] p q = absurd (omega arith)
copy_bytes_lem (suc n) (b ∷ src) (c ∷ dst) p q =
    ap (◌∷◌ b) (copy_bytes_lem n src dst (omega arith) (omega arith))

pub take-copy_bytes :
    (n : ℕ) (src dst : List ℕ)
    → n ≤ length src
    → n ≤ length dst
    → take n (copy_bytes n src dst) ≡ take n src
unfolding copy_bytes
take-copy_bytes zero src dst p q = refl
take-copy_bytes (suc n) [] dst p q = absurd (omega arith)
take-copy_bytes (suc n) (b ∷ src) [] p q = absurd (omega arith)
take-copy_bytes (suc n) (b ∷ src) (c ∷ dst) p q =
    ap (◌∷◌ b) (take-copy_bytes n src dst (omega arith) (omega arith))
