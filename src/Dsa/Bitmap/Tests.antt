-- ===== src/Dsa/Bitmap/Tests.antt =====
-- Runs of the bitmap of lib/dsa/bitmap.c on a buffer of two bytes, with ten bits in use.
use nexa_kernel.Base.{ℕ, zero, suc, ◌<◌, ◌≡◌, refl, none, some, [], ◌∷◌, arith, get_or}
use nexa_kernel.Dsa.Bitmap.{
  Bitmap, test_bit, scan_bits, scan_bytes, find_run, bitmap_test, bitmap_find_first_zero,
  bitmap_find_contiguous_zeros, bitmap_count_set, count_bytes, count_ones, count_padding,
}
use nexa_kernel.Dsa.Bitmap.Access.{IsValid}
use nexa_kernel.Dsa.Bitmap.Run.{IsFirstRun, find_contiguous_zeros_lem}

-- Indices 0 to 3 and 6 are set, and the six bits of padding too.
abbrev ten : Bitmap
ten = record { buffer = 0b01001111 ∷ 0xFC ∷ []; size_bits = 10; size_bytes = 2 }

ten-IsValid : IsValid ten
ten-IsValid = record { sized = refl; room = omega arith; bytes = bounded }
  where
    bounded : (i : ℕ) → get_or ten.buffer i 0 < 256
    bounded zero = omega arith
    bounded (suc zero) = omega arith
    bounded (suc (suc i)) = omega arith

junk-bytes : (i : ℕ) → get_or (7 ∷ 255 ∷ []) i 0 < 256
junk-bytes zero = omega arith
junk-bytes (suc zero) = omega arith
junk-bytes (suc (suc i)) = omega arith

counts : bitmap_count_set ten ≡ 5
unfolding bitmap_count_set count_bytes count_ones count_padding test_bit
counts = refl

first_zero : bitmap_find_first_zero ten ≡ some 4
unfolding bitmap_find_first_zero scan_bytes scan_bits test_bit
first_zero = refl

run_of_three : bitmap_find_contiguous_zeros ten 3 ≡ some 7
unfolding bitmap_find_contiguous_zeros find_run bitmap_test test_bit
run_of_three = refl

no_run_of_four : bitmap_find_contiguous_zeros ten 4 ≡ none
unfolding bitmap_find_contiguous_zeros find_run bitmap_test test_bit
no_run_of_four = refl

find_contiguous_zeros_lem_example : IsFirstRun ten 3 (bitmap_find_contiguous_zeros ten 3)
find_contiguous_zeros_lem_example = find_contiguous_zeros_lem ten 3 (omega arith)
