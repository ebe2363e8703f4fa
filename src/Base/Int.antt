-- ===== src/Base/Int.antt =====
-- The C type `int` where a caller may pass a negative value. `negsuc n` is -(n + 1).
use nexa_kernel.Base.{ℕ, Option, some, none, ltb, if◌then◌else◌}

pub data ℤ : Type 0 where
  pos : ℕ → ℤ
  negsuc : ℕ → ℤ

-- `0 <= i && i < bound`, with the index that passes.
abbrev pub in_range : ℤ → ℕ → Option ℕ
in_range (pos i) bound = if ltb i bound then some i else none
in_range (negsuc i) bound = none
