-- ===== src/Dsa/Bitmap/Access.antt =====
-- A bitmap of lib/dsa/bitmap.c as a set of indices: what set and clear do to every test.
use nexa_kernel.Base.{
  ℕ, zero, suc, ◌+◌, ◌/◌, ◌%◌, ◌≤◌, ◌<◌, ◌≡◌, refl, ◌∙◌, false, some, List, arith, length,
  length-set, get_or, set, get_or-set, ltb, leb, leb_of_lt, leb_of_le, ◌==◌, if◌then◌else◌,
  word_mod, dec_lt, add_word,
}
use nexa_kernel.Dsa.Bitmap.{
  Bitmap, set_bit, clear_bit, test_bit, byte_of, bitmap_init, bitmap_set, bitmap_clear, bitmap_test,
  clear_bytes,
}
use nexa_kernel.Dsa.Bitmap.Bits.{
  test_bit_zero, test_bit-set_bit, test_bit-clear_bit, set_bit-lt, clear_bit-lt,
}

pub record IsValid (b : Bitmap) : Type 0 where
  pub sized : b.size_bytes ≡ (b.size_bits + 7) / 8
  pub room : b.size_bytes ≤ length b.buffer
  pub bytes : (i : ℕ) → get_or b.buffer i 0 < 256

module _ (b : Bitmap) (v : IsValid b) (i : ℕ) where
  inside : i < b.size_bits → i / 8 < length b.buffer
  inside lt = omega (arith, v.sized, v.room)

  -- A write to the byte of an index in range.
  module _ (byte : ℕ) (lt : i < b.size_bits) where
    abbrev written : Bitmap
    written = record b { buffer = set b.buffer (i / 8) byte }

    byte_of-written : (j : ℕ) → byte_of written j ≡ (if i / 8 == j / 8 then byte else byte_of b j)
    byte_of-written j = get_or-set b.buffer (i / 8) (j / 8) byte 0 (inside lt)

    written-IsValid : byte < 256 → IsValid written
    written-IsValid small = record {
      sized = v.sized;
      room = omega (arith, length-set b.buffer (i / 8) byte, v.room);
      bytes =
          λ k. rw (get_or-set b.buffer (i / 8) k byte 0 (inside lt)) (ground (arith, v.bytes k));
    }

    test-written :
        (j : ℕ)
        → bitmap_test written j ≡ (
            if leb b.size_bits j
            then false
            else test_bit (if i / 8 == j / 8 then byte else byte_of b j) (j % 8))
    unfolding bitmap_test
    test-written j = rw (byte_of-written j) refl

  abbrev set_byte : ℕ
  set_byte = set_bit (byte_of b i) (i % 8)

  abbrev clear_byte : ℕ
  clear_byte = clear_bit (byte_of b i) (i % 8)

  set-in : (lt : i < b.size_bits) → bitmap_set b i ≡ written set_byte lt
  unfolding bitmap_set
  set-in lt = simp (leb_of_lt b.size_bits i lt) refl

  clear-in : (lt : i < b.size_bits) → bitmap_clear b i ≡ written clear_byte lt
  unfolding bitmap_clear
  clear-in lt = simp (leb_of_lt b.size_bits i lt) refl

  -- Outside the range both do nothing.
  set-out : b.size_bits ≤ i → bitmap_set b i ≡ b
  unfolding bitmap_set
  set-out le = simp (leb_of_le b.size_bits i le) refl

  clear-out : b.size_bits ≤ i → bitmap_clear b i ≡ b
  unfolding bitmap_clear
  clear-out le = simp (leb_of_le b.size_bits i le) refl

  pub bitmap_set-IsValid : IsValid (bitmap_set b i)
  bitmap_set-IsValid = elim (dec_lt i b.size_bits) [
    | no out ↦ rw (set-out (omega arith)) v
    | yes lt ↦ rw (set-in lt) (
        written-IsValid set_byte lt
          (set_bit-lt (byte_of b i) (i % 8) (v.bytes (i / 8)) (omega arith)))
  ]

  pub bitmap_clear-IsValid : IsValid (bitmap_clear b i)
  bitmap_clear-IsValid = elim (dec_lt i b.size_bits) [
    | no out ↦ rw (clear-out (omega arith)) v
    | yes lt ↦ rw (clear-in lt) (
        written-IsValid clear_byte lt
          (clear_bit-lt (byte_of b i) (i % 8) (v.bytes (i / 8)) (omega arith)))
  ]

  -- In a valid bitmap, setting an index changes the test of that index alone: it passes, if the index
  -- is in range. An index out of range changes nothing.
  pub bitmap_test-set :
      (j : ℕ)
      → bitmap_test (bitmap_set b i) j ≡ (if i == j then ltb j b.size_bits else bitmap_test b j)
  unfolding bitmap_test
  bitmap_test-set j = elim (dec_lt i b.size_bits) [
    | no out ↦ rw (set-out (omega arith)) (ground arith)
    | yes lt ↦ rw (set-in lt) (
        test-written set_byte lt j
        ∙ ground (
          arith,
          test_bit-set_bit (byte_of b i) (i % 8) (j % 8) (v.bytes (i / 8)) (omega arith)
              (omega arith),
        ))
  ]

  -- Clearing an index makes the test of that index fail, and changes no other test.
  pub bitmap_test-clear :
      (j : ℕ) → bitmap_test (bitmap_clear b i) j ≡ (if i == j then false else bitmap_test b j)
  unfolding bitmap_test
  bitmap_test-clear j = elim (dec_lt i b.size_bits) [
    | no out ↦ rw (clear-out (omega arith)) (ground arith)
    | yes lt ↦ rw (clear-in lt) (
        test-written clear_byte lt j
        ∙ ground (
          arith,
          test_bit-clear_bit (byte_of b i) (i % 8) (j % 8) (v.bytes (i / 8)) (omega arith)
              (omega arith),
        ))
  ]

pub size_bits-set : (b : Bitmap) (i : ℕ) → (bitmap_set b i).size_bits ≡ b.size_bits
unfolding bitmap_set
size_bits-set b i = ground arith

pub size_bits-clear : (b : Bitmap) (i : ℕ) → (bitmap_clear b i).size_bits ≡ b.size_bits
unfolding bitmap_clear
size_bits-clear b i = ground arith

-- Out of range the test fails.
pub bitmap_test-out : (b : Bitmap) (i : ℕ) → b.size_bits ≤ i → bitmap_test b i ≡ false
unfolding bitmap_test
bitmap_test-out b i le = simp (leb_of_le b.size_bits i le) refl

length-clear_bytes : (n i : ℕ) (bytes : List ℕ) → length (clear_bytes n i bytes) ≡ length bytes
unfolding clear_bytes
length-clear_bytes zero i bytes = refl
length-clear_bytes (suc n) i bytes =
    length-clear_bytes n (suc i) (set bytes i 0) ∙ length-set bytes i 0

clear_bytes_lem :
    (n i : ℕ) (bytes : List ℕ) (j : ℕ)
    → i + n ≤ length bytes
    → get_or (clear_bytes n i bytes) j 0
      ≡ (if leb i j then (if ltb j (i + n) then 0 else get_or bytes j 0) else get_or bytes j 0)
unfolding clear_bytes
clear_bytes_lem zero i bytes j h = ground arith
clear_bytes_lem (suc n) i bytes j h =
    clear_bytes_lem n (suc i) (set bytes i 0) j (omega (arith, length-set bytes i 0))
    ∙ ground (arith, get_or-set bytes i j 0 0)

-- `bitmap_init` over a buffer of bytes with room for all bits yields a valid bitmap of that size in
-- which no test passes. It refuses a size of 0.
pub bitmap_init_lem :
    (size : ℕ) (bytes : List ℕ)
    → 0 < size
    → size + 7 < word_mod
    → (size + 7) / 8 ≤ length bytes
    → ((i : ℕ) → get_or bytes i 0 < 256)
    → (b : Bitmap) × (bitmap_init size (some bytes) ≡ some b)
      × IsValid b
      × (b.size_bits ≡ size)
      × ((i : ℕ) → bitmap_test b i ≡ false)
unfolding bitmap_init bitmap_test
bitmap_init_lem size bytes pos small room bounded = (
  fresh,
  ground arith,
  record {
    sized = refl;
    room = omega (arith, whole, length-clear_bytes ((size + 7) / 8) 0 bytes);
    bytes = λ i. ground (arith, clear_bytes_lem ((size + 7) / 8) 0 bytes i, bounded i);
  },
  refl,
  clear,
)
  where
    whole : add_word size 7 / 8 ≡ (size + 7) / 8
    whole = omega arith

    fresh : Bitmap
    fresh = record {
      buffer = clear_bytes ((size + 7) / 8) 0 bytes;
      size_bits = size;
      size_bytes = (size + 7) / 8;
    }

    zeroed : (i : ℕ) → i < size → byte_of fresh i ≡ 0
    zeroed i lt = clear_bytes_lem ((size + 7) / 8) 0 bytes (i / 8) (omega arith) ∙ ground arith

    clear : (i : ℕ) → bitmap_test fresh i ≡ false
    clear i = elim (dec_lt i size) [
      | no out ↦ bitmap_test-out fresh i (omega arith)
      | yes lt ↦ rw (leb_of_lt size i lt, zeroed i lt) (test_bit_zero (i % 8) (omega arith))
    ]
