-- ===== src/Dsa/Bitmap/Find.antt =====
-- The two searches of lib/dsa/bitmap.c find the first bit of the wanted value.
use nexa_kernel.Base.{
  ℕ, zero, suc, ◌+◌, ◌-◌, ◌*◌, ◌/◌, ◌%◌, ◌≤◌, ◌<◌, ◌≡◌, refl, sym, ◌∙◌, inl, inr, Bool, true, false,
  not, ◌&&◌, Option, some, none, arith, get_or, ltb, leb_of_lt, ◌==◌, lt→ltb, ap, if◌then◌else◌,
  Bool-cases, dec_lt,
}
use nexa_kernel.Dsa.Bitmap.{
  Bitmap, test_bit, bitmap_test, scan_bits, scan_bytes, or_else, bitmap_find_first_zero,
  bitmap_find_first_set,
}
use nexa_kernel.Dsa.Bitmap.Bits.{test_bit_zero, test_bit_full}
use nexa_kernel.Dsa.Bitmap.Access.{IsValid}

-- The answer of a search for the value `want` from `low` to below `high`: the first index in range
-- whose test has that value, or `none` if there is none.
unfoldable pub IsFirst : Bool → Bitmap → ℕ → ℕ → Option ℕ → Type 0
IsFirst want b low high none =
    (j : ℕ) → low ≤ j → j < high → j < b.size_bits → bitmap_test b j ≡ not want
IsFirst want b low high (some i) =
    (low ≤ i)
    × (i < high)
    × (i < b.size_bits)
    × (bitmap_test b i ≡ want)
    × ((j : ℕ) → low ≤ j → j < i → bitmap_test b j ≡ not want)

module _ (want : Bool) (b : Bitmap) where
  IsFirst-extend :
      (low mid high : ℕ) (o : Option ℕ)
      → ((j : ℕ) → low ≤ j → j < mid → j < b.size_bits → bitmap_test b j ≡ not want)
      → low ≤ mid
      → IsFirst want b mid high o
      → IsFirst want b low high o
  unfolding IsFirst
  IsFirst-extend low mid high none skipped le first = λ j h1 h2 h3. elim (dec_lt j mid) [
    | yes lt ↦ skipped j h1 lt h3
    | no ge ↦ first j (omega arith) h2 h3
  ]
  IsFirst-extend low mid high (some i) skipped le (h1, h2, h3, h4, h5) = (
    omega arith,
    h2,
    h3,
    h4,
    λ j k1 k2. elim (dec_lt j mid) [
      | yes lt ↦ skipped j k1 lt (omega arith)
      | no ge ↦ h5 j (omega arith) k2
    ],
  )

  bit_at : ℕ → ℕ → Bool
  bit_at byte_idx k = test_bit (get_or b.buffer byte_idx 0) k

  test-bit_at :
      (byte_idx k : ℕ)
      → k < 8
      → byte_idx * 8 + k < b.size_bits
      → bitmap_test b (byte_idx * 8 + k) ≡ bit_at byte_idx k
  unfolding bitmap_test bit_at
  test-bit_at byte_idx k h lt =
      rw (leb_of_lt b.size_bits (byte_idx * 8 + k) lt, quotient, remainder) refl
    where
      quotient : (byte_idx * 8 + k) / 8 ≡ byte_idx
      quotient = omega arith

      remainder : (byte_idx * 8 + k) % 8 ≡ k
      remainder = omega arith

  -- The test of the inner loop, in one case and the other.
  wanted : Bool → Bool
  wanted t = if want then t else not t

  wanted-true : (t : Bool) → wanted t ≡ true → t ≡ want
  unfolding wanted
  wanted-true t h = ground arith

  wanted-false : (t : Bool) → wanted t ≡ false → t ≡ not want
  unfolding wanted
  wanted-false t h = ground arith

  IsFirst-step :
      (low high : ℕ) (t : Bool) (o : Option ℕ)
      → low < high
      → (low < b.size_bits → bitmap_test b low ≡ t)
      → IsFirst want b (suc low) high o
      → IsFirst want b low high (if wanted t && ltb low b.size_bits then some low else o)
  unfolding IsFirst
  IsFirst-step low high t o lt reads first = elim (dec_lt low b.size_bits) [
    | no out ↦ rw (beyond out) (
        IsFirst-extend low (suc low) high o (λ j h1 h2 h3. absurd (omega arith)) (omega arith)
          first)
    | yes in_range ↦ elim (Bool-cases (wanted t)) [
      | inl hit ↦
          rw (hit, lt→ltb low b.size_bits in_range)
            (
              omega arith,
              lt,
              in_range,
              reads in_range ∙ wanted-true t hit,
              λ j h1 h2. absurd (omega arith),
            )
      | inr miss ↦
          rw miss (IsFirst-extend low (suc low) high o (here in_range miss) (omega arith) first)
    ]
  ]
    where
      beyond : ¬ low < b.size_bits → (wanted t && ltb low b.size_bits) ≡ false
      beyond out = ground arith

      here :
          low < b.size_bits
          → wanted t ≡ false
          → (j : ℕ) → low ≤ j
          → j < suc low
          → j < b.size_bits
          → bitmap_test b j ≡ not want
      here in_range miss j h1 h2 h3 =
          ap (bitmap_test b) (omega arith) ∙ reads in_range ∙ wanted-false t miss

  scan_bits_lem :
      (left byte_idx k low high : ℕ)
      → k + left ≤ 8
      → low ≡ byte_idx * 8 + k
      → high ≡ low + left
      → IsFirst want b low high (scan_bits want left b byte_idx k)
  unfolding scan_bits IsFirst bit_at wanted
  scan_bits_lem zero byte_idx k low high h el eh = λ j h1 h2 h3. absurd (omega arith)
  scan_bits_lem (suc left) byte_idx k low high h el eh = rw (sym el) (
      IsFirst-step low high (bit_at byte_idx k) (scan_bits want left b byte_idx (suc k))
        (omega arith) reads
        (scan_bits_lem left byte_idx (suc k) (suc low) high (omega arith) (omega arith)
          (omega arith)))
    where
      reads : low < b.size_bits → bitmap_test b low ≡ bit_at byte_idx k
      reads lt = ap (bitmap_test b) el ∙ test-bit_at byte_idx k (omega arith) (omega arith)

  -- A byte that the outer loop passes over has no bit of the wanted value.
  IsSkipped : ℕ → Type 0
  IsSkipped skip = (k : ℕ) → k < 8 → test_bit skip k ≡ not want

  IsFirst-or_else :
      (low mid high : ℕ) (o rest : Option ℕ)
      → low ≤ mid
      → mid ≤ high
      → IsFirst want b low mid o
      → IsFirst want b mid high rest
      → IsFirst want b low high (or_else o rest)
  unfolding IsFirst
  IsFirst-or_else low mid high none rest le le' first later =
      IsFirst-extend low mid high rest first le later
  IsFirst-or_else low mid high (some i) rest le le' (h1, h2, h3, h4, h5) later =
      (h1, omega arith, h3, h4, h5)

  IsFirst-byte :
      (skip byte_idx low high : ℕ) (rest : Option ℕ)
      → IsSkipped skip
      → low ≡ byte_idx * 8
      → low + 8 ≤ high
      → IsFirst want b (low + 8) high rest
      → IsFirst want b low high (
          if get_or b.buffer byte_idx 0 == skip
          then rest
          else or_else (scan_bits want 8 b byte_idx 0) rest)
  unfolding IsSkipped bit_at
  IsFirst-byte skip byte_idx low high rest skipped el le later =
      elim (Bool-cases (get_or b.buffer byte_idx 0 == skip)) [
        | inl same ↦
            rw same (
              IsFirst-extend low (low + 8) high rest (none_here (ground arith)) (omega arith) later)
        | inr other ↦ rw other (
            IsFirst-or_else low (low + 8) high _ rest (omega arith) le
              (scan_bits_lem 8 byte_idx 0 low (low + 8) (omega arith) (omega arith) refl) later)
      ]
    where
      none_here :
          get_or b.buffer byte_idx 0 ≡ skip
          → (j : ℕ) → low ≤ j
          → j < low + 8
          → j < b.size_bits
          → bitmap_test b j ≡ not want
      none_here same j h1 h2 h3 =
          ap (bitmap_test b) (omega arith)
          ∙ test-bit_at byte_idx (j - low) (omega arith) (omega arith)
          ∙ ap (λ byte. test_bit byte (j - low)) same
          ∙ skipped (j - low) (omega arith)

  scan_bytes_lem :
      (skip left byte_idx low high : ℕ)
      → IsSkipped skip
      → low ≡ byte_idx * 8
      → high ≡ low + left * 8
      → IsFirst want b low high (scan_bytes want skip left b byte_idx)
  unfolding scan_bytes IsFirst
  scan_bytes_lem skip zero byte_idx low high skipped el eh = λ j h1 h2 h3. absurd (omega arith)
  scan_bytes_lem skip (suc left) byte_idx low high skipped el eh =
      IsFirst-byte skip byte_idx low high (scan_bytes want skip left b (suc byte_idx)) skipped el
        (omega arith)
        (scan_bytes_lem skip left (suc byte_idx) (low + 8) high skipped (omega arith) (omega arith))

-- Cut to the bitmap: an answer below the end of the last byte is one below the size.
IsFirst-cut :
    (want : Bool) (b : Bitmap) (high : ℕ) (o : Option ℕ)
    → b.size_bits ≤ high
    → IsFirst want b 0 high o
    → IsFirst want b 0 b.size_bits o
unfolding IsFirst
IsFirst-cut want b high none le first = λ j h1 h2 h3. first j h1 (omega arith) h3
IsFirst-cut want b high (some i) le (h1, h2, h3, h4, h5) = (h1, h3, h3, h4, h5)

-- In a valid bitmap `bitmap_find_first_zero` yields the lowest index in range that is clear, and -1
-- only if every index in range is set.
pub find_first_zero_lem :
    (b : Bitmap) → IsValid b → IsFirst false b 0 b.size_bits (bitmap_find_first_zero b)
unfolding bitmap_find_first_zero IsSkipped
find_first_zero_lem b v = IsFirst-cut false b (b.size_bytes * 8) _ (omega (arith, v.sized)) (
    scan_bytes_lem false b 0xFF b.size_bytes 0 0 (b.size_bytes * 8) test_bit_full refl
      (omega arith))

-- In a valid bitmap `bitmap_find_first_set` yields the lowest index in range that is set, and -1 only
-- if every index in range is clear.
pub find_first_set_lem :
    (b : Bitmap) → IsValid b → IsFirst true b 0 b.size_bits (bitmap_find_first_set b)
unfolding bitmap_find_first_set IsSkipped
find_first_set_lem b v = IsFirst-cut true b (b.size_bytes * 8) _ (omega (arith, v.sized)) (
    scan_bytes_lem true b 0x00 b.size_bytes 0 0 (b.size_bytes * 8) test_bit_zero refl (omega arith))
