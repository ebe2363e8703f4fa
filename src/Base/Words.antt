-- ===== src/Base/Words.antt =====
-- Arithmetic of the 32-bit types `size_t` and `uint32_t`. The kernel is built for i386.
use Prim.Native.Nat.{ℕ, ◌+◌, ◌-◌, ◌*◌, ◌%◌, ◌^◌}

abbrev pub word_mod : ℕ
word_mod = 2 ^ 32

abbrev pub add_word : ℕ → ℕ → ℕ
add_word a b = (a + b) % word_mod

abbrev pub sub_word : ℕ → ℕ → ℕ
sub_word a b = (a + word_mod - b) % word_mod

abbrev pub mul_word : ℕ → ℕ → ℕ
mul_word a b = (a * b) % word_mod
