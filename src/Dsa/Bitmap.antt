-- ===== src/Dsa/Bitmap.antt =====
-- lib/dsa/bitmap.c. Each function that writes returns the new bitmap. The callers never pass a null
-- bitmap, so the guards on that are left out; a result of `none` is the -1 of the code.
pub mod Bits
pub mod Access
pub mod Find
pub mod Counting
pub mod Run
mod Tests
use Prim.Native.Nat.{bit_and, bit_or}
use nexa_kernel.Base.{
  ℕ, zero, suc, ◌+◌, ◌-◌, ◌*◌, ◌/◌, ◌%◌, ◌^◌, Bool, true, false, not, ◌&&◌, ◌||◌, Option, none,
  some, List, [], ◌∷◌, get_or, set, ltb, leb, ◌==◌, if◌then◌else◌, add_word, sub_word, mul_word,
}

-- `bitmap_t`
pub record Bitmap : Type 0 where
  pub buffer : List ℕ
  pub size_bits : ℕ
  pub size_bytes : ℕ

-- `byte |= 1 << k`, `byte &= ~(1 << k)` and `(byte & (1 << k)) != 0`, for a `uint8_t` and `k < 8`.
pub set_bit : ℕ → ℕ → ℕ
set_bit byte k = bit_or byte (2 ^ k)

pub clear_bit : ℕ → ℕ → ℕ
clear_bit byte k = bit_and byte (255 - 2 ^ k)

unfoldable pub test_bit : ℕ → ℕ → Bool
test_bit byte k = not (bit_and byte (2 ^ k) == 0)

-- `bitmap_memset` with the value 0, from index `i` on.
pub clear_bytes : ℕ → ℕ → List ℕ → List ℕ
clear_bytes zero i bytes = bytes
clear_bytes (suc count) i bytes = clear_bytes count (suc i) (set bytes i 0)

-- `none` for the buffer is the null pointer.
pub bitmap_init : ℕ → Option (List ℕ) → Option Bitmap
unfolding clear_bytes
bitmap_init size none = none
bitmap_init size (some bytes) =
    if size == 0
    then none
    else let size_bytes = add_word size 7 / 8 in
      some (record {
        buffer = clear_bytes size_bytes 0 bytes;
        size_bits = size;
        size_bytes = size_bytes;
      })

abbrev pub byte_of : Bitmap → ℕ → ℕ
byte_of b index = get_or b.buffer (index / 8) 0

pub bitmap_set : Bitmap → ℕ → Bitmap
bitmap_set b index =
    if leb b.size_bits index
    then b
    else record b { buffer = set b.buffer (index / 8) (set_bit (byte_of b index) (index % 8)) }

pub bitmap_clear : Bitmap → ℕ → Bitmap
bitmap_clear b index =
    if leb b.size_bits index
    then b
    else record b { buffer = set b.buffer (index / 8) (clear_bit (byte_of b index) (index % 8)) }

unfoldable pub bitmap_test : Bitmap → ℕ → Bool
bitmap_test b index =
    if leb b.size_bits index then false else test_bit (byte_of b index) (index % 8)

-- The inner loop of the two searches: the first bit of the byte, from `k` on with `left` to go, that
-- has the value `want` and lies within the bitmap.
unfoldable pub scan_bits : Bool → ℕ → Bitmap → ℕ → ℕ → Option ℕ
scan_bits want zero b byte_idx k = none
scan_bits want (suc left) b byte_idx k =
    let byte = get_or b.buffer byte_idx 0 in
    let index = byte_idx * 8 + k in
    let rest = scan_bits want left b byte_idx (suc k) in
    let hit = if want then test_bit byte k else not (test_bit byte k) in
    if hit && ltb index b.size_bits then some index else rest

-- A return from the inner loop ends the outer one.
abbrev pub or_else : Option ℕ → Option ℕ → Option ℕ
or_else (some index) rest = some index
or_else none rest = rest

-- The outer loop, with `left` bytes to go: a byte equal to `skip` is passed over.
unfoldable pub scan_bytes : Bool → ℕ → ℕ → Bitmap → ℕ → Option ℕ
scan_bytes want skip zero b byte_idx = none
scan_bytes want skip (suc left) b byte_idx =
    let rest = scan_bytes want skip left b (suc byte_idx) in
    if get_or b.buffer byte_idx 0 == skip
    then rest
    else or_else (scan_bits want 8 b byte_idx 0) rest

unfoldable pub bitmap_find_first_zero : Bitmap → Option ℕ
bitmap_find_first_zero b = scan_bytes false 0xFF b.size_bytes b 0

pub bitmap_find_first_set : Bitmap → Option ℕ
bitmap_find_first_set b = scan_bytes true 0x00 b.size_bytes b 0

-- The loop of `bitmap_find_contiguous_zeros`, with `left` bits to go.
pub find_run : ℕ → Bitmap → ℕ → ℕ → ℕ → ℕ → Option ℕ
find_run zero b count i consecutive start = none
find_run (suc left) b count i consecutive start =
    let start' = if consecutive == 0 then i else start in
    let found = find_run left b count (suc i) (suc consecutive) start' in
    let broken = find_run left b count (suc i) 0 start in
    if bitmap_test b i then broken else if leb count (suc consecutive) then some start' else found

pub bitmap_find_contiguous_zeros : Bitmap → ℕ → Option ℕ
unfolding find_run
bitmap_find_contiguous_zeros b count =
    if count == 0 || ltb b.size_bits count then none else find_run b.size_bits b count 0 0 0

-- The loop of the range operations: `write` at `start + i`, while that is in the bitmap, with `left`
-- of the `count` rounds to go. The index does not wrap, for the loop stops at the size.
pub write_range : (Bitmap → ℕ → Bitmap) → ℕ → Bitmap → ℕ → Bitmap
write_range write zero b index = b
write_range write (suc left) b index =
    let rest = write_range write left (write b index) (suc index) in
    if ltb index b.size_bits then rest else b

pub bitmap_set_range : Bitmap → ℕ → ℕ → Bitmap
bitmap_set_range b start count = write_range bitmap_set count b start

pub bitmap_clear_range : Bitmap → ℕ → ℕ → Bitmap
bitmap_clear_range b start count = write_range bitmap_clear count b start

-- Kernighan's loop: `byte &= byte - 1` clears the lowest set bit. Eight rounds empty a byte.
pub count_ones : ℕ → ℕ → ℕ
count_ones zero byte = 0
count_ones (suc fuel) byte = elim (byte == 0) [
  | true ↦ 0
  | false ↦ suc (count_ones fuel (bit_and byte (byte - 1)))
]

pub count_bytes : ℕ → Bitmap → ℕ → ℕ
unfolding count_ones
count_bytes zero b byte_idx = 0
count_bytes (suc left) b byte_idx =
    count_ones 8 (get_or b.buffer byte_idx 0) + count_bytes left b (suc byte_idx)

-- The set bits of the last byte from `k` on, which are no part of the bitmap.
pub count_padding : ℕ → ℕ → ℕ → ℕ
count_padding zero byte k = 0
count_padding (suc left) byte k =
    if test_bit byte k
    then suc (count_padding left byte (suc k))
    else count_padding left byte (suc k)

pub bitmap_count_set : Bitmap → ℕ
unfolding count_bytes count_padding
bitmap_count_set b =
    let counted = count_bytes b.size_bytes b 0 in
    let last = get_or b.buffer (b.size_bytes - 1) 0 in
    if ltb 0 (sub_word (mul_word b.size_bytes 8) b.size_bits)
    then sub_word counted (count_padding (8 - b.size_bits % 8) last (b.size_bits % 8))
    else counted

pub bitmap_count_clear : Bitmap → ℕ
bitmap_count_clear b = sub_word b.size_bits (bitmap_count_set b)
