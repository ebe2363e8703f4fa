-- ===== src/Memory/FrameBitmap/Invariant.antt =====
-- Every operation of the frame allocator of kernel/memory/dsa_structures/bitmap.c keeps its counter
-- equal to the number of frames whose bit is set.
use nexa_kernel.Base.{
  ℕ, zero, suc, ◌-◌, ◌/◌, ◌<◌, ◌≡◌, sym, ◌∙◌, inl, inr, true, false, not, ◌||◌, Option, some, none,
  arith, ltb, leb, ◌==◌, Bool-cases, dec_lt, word_mod, add_word,
}
use nexa_kernel.Dsa.Bitmap.{
  bitmap_test, bitmap_set, bitmap_set_range, bitmap_find_first_zero, bitmap_find_contiguous_zeros,
}
use nexa_kernel.Dsa.Bitmap.Access.{
  IsValid, bitmap_set-IsValid, bitmap_clear-IsValid, bitmap_test-out, size_bits-set,
  size_bits-clear,
}
use nexa_kernel.Dsa.Bitmap.Find.{IsFirst, find_first_zero_lem}
use nexa_kernel.Dsa.Bitmap.Run.{
  IsClearRun, IsFirstRun, find_contiguous_zeros_lem, set_range-IsValid,
}
use nexa_kernel.Memory.FrameBitmap.{
  Frames, take_frame, frame_alloc, take_frames, frame_alloc_contiguous, release_frame, frame_free,
  frame_free_address, free_loop, frame_free_contiguous,
}
use nexa_kernel.Dsa.Bitmap.Counting.{
  count_used, count_used-set, count_used-clear, count_used-set_range, size_bits-set_range,
  count_used-le,
}

-- The bitmap is valid and has a bit for each frame, and the counter is the number of set bits.
pub record IsTracked (f : Frames) : Type 0 where
  pub valid : IsValid f.frame_bitmap
  pub total : f.total_frames ≡ f.frame_bitmap.size_bits
  pub counted : f.used_frames ≡ count_used f.frame_bitmap
  pub small : f.total_frames < word_mod

module _ (f : Frames) (v : IsTracked f) where
  in_range : (i : ℕ) → bitmap_test f.frame_bitmap i ≡ true → i < f.frame_bitmap.size_bits
  in_range i used = elim (dec_lt i f.frame_bitmap.size_bits) [
    | yes lt ↦ lt
    | no ge ↦ ground (arith, bitmap_test-out f.frame_bitmap i)
  ]

  bound : count_used f.frame_bitmap < word_mod
  bound = omega (arith, count_used-le f.frame_bitmap, v.total, v.small)

  pub release_frame-IsTracked : (i : ℕ) → IsTracked (release_frame f i)
  unfolding release_frame
  release_frame-IsTracked i = elim (Bool-cases (bitmap_test f.frame_bitmap i)) [
    | inr clear ↦ simp clear v
    | inl used ↦ simp used (record {
      valid = bitmap_clear-IsValid f.frame_bitmap v.valid i;
      total = v.total ∙ sym (size_bits-clear f.frame_bitmap i);
      counted = omega (
        arith,
        v.counted,
        bound,
        count_used-clear f.frame_bitmap i v.valid (in_range i used) used,
      );
      small = v.small;
    })
  ]

  pub frame_free-IsTracked : (i : ℕ) → IsTracked (frame_free f i)
  unfolding frame_free
  frame_free-IsTracked i = elim (Bool-cases (not f.is_initialized || leb f.total_frames i)) [
    | inl refused ↦ simp refused v
    | inr free ↦ simp free (release_frame-IsTracked i)
  ]

  pub frame_free_address-IsTracked : (address : ℕ) → IsTracked (frame_free_address f address)
  unfolding frame_free_address
  frame_free_address-IsTracked address =
      elim (Bool-cases (not f.is_initialized || ltb address f.memory_base)) [
        | inl refused ↦ simp refused v
        | inr free ↦ simp free (frame_free-IsTracked ((address - f.memory_base) / f.page_size))
      ]

  take_frame-IsTracked :
      (i : ℕ)
      → i < f.frame_bitmap.size_bits
      → bitmap_test f.frame_bitmap i ≡ false
      → IsTracked (take_frame f (some i)).1
  unfolding take_frame
  take_frame-IsTracked i lt clear = record {
    valid = bitmap_set-IsValid f.frame_bitmap v.valid i;
    total = v.total ∙ sym (size_bits-set f.frame_bitmap i);
    counted = omega (
      arith,
      v.counted,
      v.total,
      v.small,
      count_used-set f.frame_bitmap i v.valid lt clear,
      count_used-le (bitmap_set f.frame_bitmap i),
      size_bits-set f.frame_bitmap i,
    );
    small = v.small;
  }

  pub frame_alloc-IsTracked : IsTracked (frame_alloc f).1
  unfolding frame_alloc IsFirst
  frame_alloc-IsTracked = elim (Bool-cases f.is_initialized) [
    | inr off ↦ simp off v
    | inl on ↦
        simp on (
          taken (bitmap_find_first_zero f.frame_bitmap)
            (find_first_zero_lem f.frame_bitmap v.valid))
  ]
    where
      taken :
          (o : Option ℕ)
          → IsFirst false f.frame_bitmap 0 f.frame_bitmap.size_bits o
          → IsTracked (take_frame f o).1
      taken none first = v
      taken (some i) (h1, h2, h3, h4, h5) = take_frame-IsTracked i h3 h4

  take_frames-IsTracked :
      (count i : ℕ) → IsClearRun f.frame_bitmap count i → IsTracked (take_frames f count (some i)).1
  unfolding take_frames
  take_frames-IsTracked count i run = record {
    valid = set_range-IsValid f.frame_bitmap i count v.valid;
    total = v.total ∙ sym (size_bits-set_range f.frame_bitmap i count);
    counted = omega (
      arith,
      v.counted,
      v.total,
      v.small,
      count_used-set_range f.frame_bitmap i count v.valid run.fits run.clear,
      count_used-le (bitmap_set_range f.frame_bitmap i count),
      size_bits-set_range f.frame_bitmap i count,
    );
    small = v.small;
  }

  pub frame_alloc_contiguous-IsTracked : (count : ℕ) → IsTracked (frame_alloc_contiguous f count).1
  unfolding frame_alloc_contiguous IsFirstRun take_frames
  frame_alloc_contiguous-IsTracked count = elim (Bool-cases (not f.is_initialized || count == 0)) [
    | inl refused ↦ simp refused v
    | inr asked ↦ simp asked (
        taken (bitmap_find_contiguous_zeros f.frame_bitmap count)
          (find_contiguous_zeros_lem f.frame_bitmap count (ground arith)))
  ]
    where
      taken :
          (o : Option ℕ) → IsFirstRun f.frame_bitmap count o → IsTracked (take_frames f count o).1
      taken none first = v
      taken (some i) (run, first) = take_frames-IsTracked count i run

free_loop-IsTracked : (left : ℕ) (f : Frames) (i : ℕ) → IsTracked f → IsTracked (free_loop left f i)
unfolding free_loop
free_loop-IsTracked zero f i v = v
free_loop-IsTracked (suc left) f i v = elim (Bool-cases (ltb i f.total_frames)) [
  | inl go ↦
      simp go (
        free_loop-IsTracked left (release_frame f i) (add_word i 1) (release_frame-IsTracked f v i))
  | inr stop ↦ simp stop v
]

pub frame_free_contiguous-IsTracked :
    (f : Frames) (start count : ℕ) → IsTracked f → IsTracked (frame_free_contiguous f start count)
unfolding frame_free_contiguous
frame_free_contiguous-IsTracked f start count v = elim (Bool-cases f.is_initialized) [
  | inr off ↦ simp off v
  | inl on ↦ simp on (free_loop-IsTracked count f start v)
]
