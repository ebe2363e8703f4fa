-- ===== src/Allocator.antt =====
-- The kernel heap as its clients see it: `kmalloc` and `kfree` of kernel/memory/memory.h. The parts
-- that allocate an array take it as a parameter, with the one law that they rely on.
pub mod Bump
use nexa_kernel.Base.{ℕ, ◌+◌, ◌^◌, ◌<◌, ◌*◌, ◌≤◌, ◌≡◌, ◌≢◌, Option, some, List, length}

-- A block of the heap: its address, and the 32-bit words that it holds when it is granted.
pub record Block : Type 0 where
  pub addr : ℕ
  pub words : List ℕ

-- `none` is the null pointer.
pub record Allocator : Type 1 where
  pub Heap : Type 0
  pub kmalloc : Heap → ℕ → Option Block × Heap
  pub kfree : Heap → ℕ → Heap
  -- A granted block does not lie at address 0, and has room for the bytes that were asked for, where
  -- rounding them up to a multiple of 8 does not wrap.
  pub granted :
      (h h' : Heap) (bytes : ℕ) (b : Block)
      → bytes + 7 < 2 ^ 32
      → kmalloc h bytes ≡ (some b, h')
      → (b.addr ≢ 0) × (bytes ≤ 4 * length b.words)
