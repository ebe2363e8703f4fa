-- ===== src/Memory/FrameBitmap/Tests.antt =====
-- Runs of the frame allocator of kernel/memory/dsa_structures/bitmap.c on four frames.
use nexa_kernel.Base.{
  ℕ, zero, suc, ◌/◌, ◌<◌, ◌≡◌, refl, ◌⊎◌, true, false, some, none, [], ◌∷◌, arith, get_or, ◌==◌,
  if◌then◌else◌,
}
use nexa_kernel.Dsa.Bitmap.{bitmap_test, test_bit, bitmap_find_first_zero, scan_bytes, scan_bits}
use nexa_kernel.Dsa.Bitmap.Counting.{count_used, count_below}
use nexa_kernel.Memory.FrameBitmap.{
  take_frame, Frames, initial_frames, frame_allocator_init, frame_alloc, frame_free,
  frame_is_allocated, frame_used_count,
}
use nexa_kernel.Memory.FrameBitmap.Invariant.{IsTracked}
use nexa_kernel.Memory.FrameBitmap.Alloc.{
  IsReady, no_call, next_init, next_alloc, next_alloc_contiguous, next_free, init, alloc,
  alloc_contiguous, free, calls, calls-IsTracked_init, frame_alloc_lem, frame_free-frame_alloc,
}

-- Frames 0 and 2 of four are in use.
abbrev four : Frames
four = record {
  frame_bitmap = record { buffer = 0b0101 ∷ []; size_bits = 4; size_bytes = 1 };
  total_frames = 4;
  used_frames = 2;
  memory_base = 0x100000;
  page_size = 4096;
  is_initialized = true;
}

four-bytes : (i : ℕ) → get_or (0b0101 ∷ []) i 0 < 256
four-bytes zero = omega arith
four-bytes (suc i) = omega arith

four-IsReady : IsReady (0b0101 ∷ []) 16384 4096
four-IsReady = record {
  some_page = omega arith;
  some_memory = omega arith;
  some_frame = omega arith;
  word = omega arith;
  room = omega arith;
  bytes = four-bytes;
}

four-IsTracked : IsTracked four
unfolding count_used count_below bitmap_test test_bit
four-IsTracked = record {
  valid = record { sized = refl; room = omega arith; bytes = four-bytes };
  total = refl;
  counted = refl;
  small = omega arith;
}

calls-IsTracked_init_example :
    (f : Frames) × (frame_allocator_init initial_frames (some (0b0101 ∷ [])) 16384 4096 ≡ (true, f))
    × (f.total_frames ≡ 16384 / 4096)
    × IsTracked (
        calls f (alloc ∷ alloc_contiguous 2 ∷ free 1 ∷ init (0b0101 ∷ []) 16384 4096 ∷ free 1 ∷ []))
calls-IsTracked_init_example =
    calls-IsTracked_init initial_frames (0b0101 ∷ []) 16384 4096
      (alloc ∷ alloc_contiguous 2 ∷ free 1 ∷ init (0b0101 ∷ []) 16384 4096 ∷ free 1 ∷ [])
      four-IsReady
      (next_alloc (next_alloc_contiguous (next_free (next_init four-IsReady (next_free no_call)))))

frame_alloc_lem_example :
    ((i : ℕ) × ((frame_alloc four).0 ≡ some i)
      × (i < 4)
      × (frame_is_allocated four i ≡ false)
      × ((j : ℕ) → j < i → frame_is_allocated four j ≡ true)
      × ((j : ℕ)
          → frame_is_allocated (frame_alloc four).1 j
            ≡ (if i == j then true else frame_is_allocated four j)))
    ⊎ ((frame_alloc four ≡ (none, four)) × (four.used_frames ≡ four.total_frames))
frame_alloc_lem_example = frame_alloc_lem four four-IsTracked refl

grants_one : (frame_alloc four).0 ≡ some 1
unfolding frame_alloc take_frame bitmap_find_first_zero scan_bytes scan_bits test_bit
grants_one = refl

frame_free-frame_alloc_example :
    ((j : ℕ) → frame_is_allocated (frame_free (frame_alloc four).1 1) j ≡ frame_is_allocated four j)
    × (frame_used_count (frame_free (frame_alloc four).1 1) ≡ frame_used_count four)
frame_free-frame_alloc_example = frame_free-frame_alloc four 1 four-IsTracked refl grants_one
