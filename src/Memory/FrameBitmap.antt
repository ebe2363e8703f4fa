-- ===== src/Memory/FrameBitmap.antt =====
-- kernel/memory/dsa_structures/bitmap.c, over the bitmap of lib/dsa/bitmap.c. The file's static
-- variables are the state that each function takes and returns. `none` is the index -1.
pub mod Invariant
pub mod Alloc
mod Tests
use nexa_kernel.Base.{
  ℕ, zero, suc, ◌+◌, ◌-◌, ◌*◌, ◌/◌, Bool, true, false, not, ◌&&◌, ◌||◌, Option, none, some, List,
  [], ltb, leb, ◌==◌, if◌then◌else◌, add_word, sub_word, mul_word,
}
use nexa_kernel.Dsa.Bitmap.{
  Bitmap, bitmap_init, bitmap_set, bitmap_clear, bitmap_test, bitmap_find_first_zero,
  bitmap_find_contiguous_zeros, bitmap_set_range,
}

pub record Frames : Type 0 where
  pub frame_bitmap : Bitmap
  pub total_frames : ℕ
  pub used_frames : ℕ
  pub memory_base : ℕ
  pub page_size : ℕ
  pub is_initialized : Bool

-- The initial values of the static variables. `PAGE_SIZE` is 4096.
abbrev pub initial_frames : Frames
initial_frames = record {
  frame_bitmap = record { buffer = []; size_bits = 0; size_bytes = 0 };
  total_frames = 0;
  used_frames = 0;
  memory_base = 0;
  page_size = 4096;
  is_initialized = false;
}

-- The counters are written before `bitmap_init` is called, and stay so if it fails. `none` for the
-- buffer is the null pointer.
pub frame_allocator_init : Frames → Option (List ℕ) → ℕ → ℕ → Bool × Frames
frame_allocator_init f none mem_size frame_size = (false, f)
frame_allocator_init f (some buffer) mem_size frame_size =
    if mem_size == 0 || frame_size == 0
    then (false, f)
    else let f' : Frames = record f {
      page_size = frame_size;
      total_frames = mem_size / frame_size;
      used_frames = 0;
      memory_base = 0;
    } in
      elim (bitmap_init (mem_size / frame_size) (some buffer)) [
        | none ↦ (false, f')
        | some b ↦ (true, record f' { frame_bitmap = b; is_initialized = true })
      ]

pub frame_allocator_set_base : Frames → ℕ → Frames
frame_allocator_set_base f base = record f { memory_base = base }

-- What `frame_alloc` does with the answer of the search.
pub take_frame : Frames → Option ℕ → Option ℕ × Frames
take_frame f none = (none, f)
take_frame f (some i) = (
  some i,
  record f { frame_bitmap = bitmap_set f.frame_bitmap i; used_frames = add_word f.used_frames 1 },
)

unfoldable pub frame_alloc : Frames → Option ℕ × Frames
unfolding take_frame
frame_alloc f =
    if f.is_initialized then take_frame f (bitmap_find_first_zero f.frame_bitmap) else (none, f)

-- The address 0 stands for a failure.
pub frame_address : Frames → Option ℕ → ℕ
frame_address f none = 0
frame_address f (some i) = add_word f.memory_base (mul_word i f.page_size)

pub frame_alloc_address : Frames → ℕ × Frames
unfolding frame_alloc frame_address
frame_alloc_address f = let (o, f') = frame_alloc f in (frame_address f' o, f')

pub take_frames : Frames → ℕ → Option ℕ → Option ℕ × Frames
take_frames f count none = (none, f)
take_frames f count (some i) = (
  some i,
  record f {
    frame_bitmap = bitmap_set_range f.frame_bitmap i count;
    used_frames = add_word f.used_frames count;
  },
)

pub frame_alloc_contiguous : Frames → ℕ → Option ℕ × Frames
unfolding take_frames
frame_alloc_contiguous f count =
    if not f.is_initialized || count == 0
    then (none, f)
    else take_frames f count (bitmap_find_contiguous_zeros f.frame_bitmap count)

-- The body that `frame_free` and `frame_free_contiguous` share: an index that is not set is left alone.
pub release_frame : Frames → ℕ → Frames
release_frame f i =
    if bitmap_test f.frame_bitmap i
    then record f {
      frame_bitmap = bitmap_clear f.frame_bitmap i;
      used_frames = sub_word f.used_frames 1;
    }
    else f

pub frame_free : Frames → ℕ → Frames
unfolding release_frame
frame_free f i = if not f.is_initialized || leb f.total_frames i then f else release_frame f i

pub frame_free_address : Frames → ℕ → Frames
unfolding frame_free
frame_free_address f address =
    if not f.is_initialized || ltb address f.memory_base
    then f
    else frame_free f ((address - f.memory_base) / f.page_size)

-- The loop of `frame_free_contiguous`, with `left` rounds to go, at index `i`.
pub free_loop : ℕ → Frames → ℕ → Frames
unfolding release_frame
free_loop zero f i = f
free_loop (suc left) f i =
    let rest = free_loop left (release_frame f i) (add_word i 1) in
    if ltb i f.total_frames then rest else f

pub frame_free_contiguous : Frames → ℕ → ℕ → Frames
unfolding free_loop
frame_free_contiguous f start count = if f.is_initialized then free_loop count f start else f

pub frame_is_allocated : Frames → ℕ → Bool
frame_is_allocated f i =
    if not f.is_initialized || leb f.total_frames i then false else bitmap_test f.frame_bitmap i

pub frame_total_count : Frames → ℕ
frame_total_count f = f.total_frames

pub frame_used_count : Frames → ℕ
frame_used_count f = f.used_frames

pub frame_free_count : Frames → ℕ
frame_free_count f = sub_word f.total_frames f.used_frames

pub frame_get_page_size : Frames → ℕ
frame_get_page_size f = f.page_size

pub frame_allocator_is_initialized : Frames → Bool
frame_allocator_is_initialized f = f.is_initialized
