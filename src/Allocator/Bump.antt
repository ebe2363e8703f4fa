-- ===== src/Allocator/Bump.antt =====
-- A heap that grants every request and never reuses a block. It shows that the law of `Allocator`
-- can be met, and runs the examples.
use nexa_kernel.Base.{
  ℕ, suc, ◌+◌, ◌*◌, ◌^◌, ◌<◌, ◌≤◌, ◌≡◌, ◌≢◌, ap, Option, some, none, length, replicate,
  length-replicate, arith,
}
use nexa_kernel.Allocator.{Allocator, Block}

abbrev pub grant : ℕ → ℕ → Option Block × ℕ
grant next bytes = (some (record { addr = suc next; words = replicate bytes 0 }), next + bytes)

abbrev block_of : Option Block × ℕ → Block
block_of (some b, n) = b
block_of (none, n) = record { addr = 0; words = replicate 0 0 }

pub grant_granted :
    (next next' bytes : ℕ) (b : Block)
    → bytes + 7 < 2 ^ 32
    → grant next bytes ≡ (some b, next')
    → (b.addr ≢ 0) × (bytes ≤ 4 * length b.words)
grant_granted next next' bytes b small e =
    let same = ap block_of e in
    (
      omega (arith, ap (λ r. Block.addr r) same),
      omega (arith, ap (λ r. length (Block.words r)) same, length-replicate bytes (zero_word)),
    )
  where
    zero_word : ℕ
    zero_word = 0

abbrev pub bump : Allocator
bump = record { Heap = ℕ; kmalloc = grant; kfree = λ h a. h; granted = grant_granted }

abbrev pub refuse : ℕ → ℕ → Option Block × ℕ
refuse h bytes = (none, h)

pub full_granted :
    (h h' bytes : ℕ) (b : Block)
    → bytes + 7 < 2 ^ 32
    → refuse h bytes ≡ (some b, h')
    → (b.addr ≢ 0) × (bytes ≤ 4 * length b.words)
full_granted h h' bytes b small e = cc

-- A heap with no memory left.
abbrev pub full : Allocator
full = record { Heap = ℕ; kmalloc = refuse; kfree = λ h a. h; granted = full_granted }
