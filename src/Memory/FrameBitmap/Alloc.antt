-- ===== src/Memory/FrameBitmap/Alloc.antt =====
-- What an allocation of kernel/memory/dsa_structures/bitmap.c grants, and the whole of its calls.
use nexa_kernel.Base.{
  ℕ, subst, ◌+◌, ◌/◌, ◌≤◌, ◌<◌, ◌≡◌, refl, sym, ap, ◌∙◌, ◌⊎◌, inl, inr, true, false, ◌||◌, Option,
  some, none, List, [], ◌∷◌, arith, ◌==◌, if◌then◌else◌, some_inj, length, get_or, word_mod,
  add_word, sub_word, leb_of_lt,
}
use nexa_kernel.Dsa.Bitmap.{bitmap_test, bitmap_set, bitmap_clear, bitmap_find_first_zero}
use nexa_kernel.Dsa.Bitmap.Access.{
  bitmap_test-out, bitmap_set-IsValid, bitmap_test-set, bitmap_test-clear, bitmap_init_lem,
}
use nexa_kernel.Dsa.Bitmap.Find.{IsFirst, find_first_zero_lem}
use nexa_kernel.Dsa.Bitmap.Counting.{count_used-none, count_used-full, count_used-missing}
use nexa_kernel.Memory.FrameBitmap.{
  Frames, frame_allocator_init, frame_allocator_set_base, take_frame, frame_alloc,
  frame_alloc_address, frame_alloc_contiguous, release_frame, frame_free, frame_free_address,
  frame_free_contiguous, frame_is_allocated, frame_used_count,
}
use nexa_kernel.Memory.FrameBitmap.Invariant.{
  IsTracked, frame_alloc-IsTracked, frame_alloc_contiguous-IsTracked, frame_free-IsTracked,
  frame_free_address-IsTracked, frame_free_contiguous-IsTracked,
}

-- What `frame_allocator_init` relies on: memory for at least one frame, and a buffer of bytes that has
-- room for the bits.
pub record IsReady (buffer : List ℕ) (mem_size frame_size : ℕ) : Type 0 where
  pub some_page : 0 < frame_size
  pub some_memory : 0 < mem_size
  pub some_frame : 0 < mem_size / frame_size
  pub word : mem_size / frame_size + 7 < word_mod
  pub room : (mem_size / frame_size + 7) / 8 ≤ length buffer
  pub bytes : (i : ℕ) → get_or buffer i 0 < 256

-- The calls of the allocator's clients.
pub data Call : Type 0 where
  init : (buffer : List ℕ) → (mem_size frame_size : ℕ) → Call
  alloc : Call
  alloc_address : Call
  alloc_contiguous : (count : ℕ) → Call
  free : (i : ℕ) → Call
  free_address : (address : ℕ) → Call
  free_contiguous : (start count : ℕ) → Call
  set_base : (base : ℕ) → Call

unfoldable pub call : Frames → Call → Frames
unfolding frame_alloc_address
call f (init buffer mem_size frame_size) =
    (frame_allocator_init f (some buffer) mem_size frame_size).1
call f alloc = (frame_alloc f).1
call f alloc_address = (frame_alloc_address f).1
call f (alloc_contiguous count) = (frame_alloc_contiguous f count).1
call f (free i) = frame_free f i
call f (free_address address) = frame_free_address f address
call f (free_contiguous start count) = frame_free_contiguous f start count
call f (set_base base) = frame_allocator_set_base f base

unfoldable pub calls : Frames → List Call → Frames
calls f [] = f
calls f (c ∷ cs) = calls (call f c) cs

-- Each initialisation among the calls gets what it relies on.
pub data AllReady : List Call → Type 0 where
  no_call : AllReady []
  next_init :
      {buffer : List ℕ} {mem_size frame_size : ℕ} {cs : List Call}
      → IsReady buffer mem_size frame_size
      → AllReady cs
      → AllReady (init buffer mem_size frame_size ∷ cs)
  next_alloc : {cs : List Call} → AllReady cs → AllReady (alloc ∷ cs)
  next_alloc_address : {cs : List Call} → AllReady cs → AllReady (alloc_address ∷ cs)
  next_alloc_contiguous :
      {count : ℕ} {cs : List Call} → AllReady cs → AllReady (alloc_contiguous count ∷ cs)
  next_free : {i : ℕ} {cs : List Call} → AllReady cs → AllReady (free i ∷ cs)
  next_free_address :
      {address : ℕ} {cs : List Call} → AllReady cs → AllReady (free_address address ∷ cs)
  next_free_contiguous :
      {start count : ℕ} {cs : List Call} → AllReady cs → AllReady (free_contiguous start count ∷ cs)
  next_set_base : {base : ℕ} {cs : List Call} → AllReady cs → AllReady (set_base base ∷ cs)

frame_alloc_address-state : (f : Frames) → (frame_alloc_address f).1 ≡ (frame_alloc f).1
unfolding frame_alloc_address
frame_alloc_address-state f = refl

-- The initialisation, with what it relies on, starts a valid bitmap with no bit set.
module _ (f : Frames) (buffer : List ℕ) (mem_size frame_size : ℕ)
    (r : IsReady buffer mem_size frame_size) where
  init-IsTracked :
      (f' : Frames) × (frame_allocator_init f (some buffer) mem_size frame_size ≡ (true, f'))
      × (f'.total_frames ≡ mem_size / frame_size)
      × IsTracked f'
  unfolding frame_allocator_init
  init-IsTracked =
      let (b, made, valid, size, clear) =
        bitmap_init_lem (mem_size / frame_size) buffer r.some_frame r.word r.room r.bytes in
      (
        record {
          frame_bitmap = b;
          total_frames = mem_size / frame_size;
          used_frames = 0;
          memory_base = 0;
          page_size = frame_size;
          is_initialized = true;
        },
        simp (accepted, made) refl,
        refl,
        record {
          valid = valid;
          total = sym size;
          counted = sym (count_used-none b clear);
          small = omega (arith, r.word);
        },
      )
    where
      accepted : (mem_size == 0 || frame_size == 0) ≡ false
      accepted = ground (arith, r.some_page, r.some_memory)

  again-IsTracked : IsTracked (frame_allocator_init f (some buffer) mem_size frame_size).1
  again-IsTracked =
      let (f', e, total, v) = init-IsTracked in subst IsTracked (sym (ap (λ x. x.1) e)) v

calls-IsTracked : (f : Frames) (cs : List Call) → AllReady cs → IsTracked f → IsTracked (calls f cs)
unfolding calls call frame_allocator_set_base
calls-IsTracked f _ no_call v = v
calls-IsTracked f _ (next_init {buffer} {mem_size} {frame_size} {cs} r h) v =
    calls-IsTracked (call f (init buffer mem_size frame_size)) cs h
      (again-IsTracked f buffer mem_size frame_size r)
calls-IsTracked f _ (next_alloc {cs} h) v =
    calls-IsTracked (call f alloc) cs h (frame_alloc-IsTracked f v)
calls-IsTracked f _ (next_alloc_address {cs} h) v =
    calls-IsTracked (call f alloc_address) cs h
      (rw (frame_alloc_address-state f) (frame_alloc-IsTracked f v))
calls-IsTracked f _ (next_alloc_contiguous {count} {cs} h) v =
    calls-IsTracked (call f (alloc_contiguous count)) cs h
      (frame_alloc_contiguous-IsTracked f v count)
calls-IsTracked f _ (next_free {i} {cs} h) v =
    calls-IsTracked (call f (free i)) cs h (frame_free-IsTracked f v i)
calls-IsTracked f _ (next_free_address {address} {cs} h) v =
    calls-IsTracked (call f (free_address address)) cs h (frame_free_address-IsTracked f v address)
calls-IsTracked f _ (next_free_contiguous {start} {count} {cs} h) v =
    calls-IsTracked (call f (free_contiguous start count)) cs h
      (frame_free_contiguous-IsTracked f start count v)
calls-IsTracked f _ (next_set_base {base} {cs} h) v =
    calls-IsTracked (call f (set_base base)) cs h
      (record { valid = v.valid; total = v.total; counted = v.counted; small = v.small })

-- With memory for at least one frame and a buffer of bytes that has room, `frame_allocator_init`
-- succeeds, and after any calls from there on, in which each further `frame_allocator_init` has such
-- memory and such a buffer too, the bitmap is valid, has one bit for each frame, and `used_frames` is
-- the number of frames whose bit is set.
pub calls-IsTracked_init :
    (f : Frames) (buffer : List ℕ) (mem_size frame_size : ℕ) (cs : List Call)
    → IsReady buffer mem_size frame_size
    → AllReady cs
    → (f' : Frames) × (frame_allocator_init f (some buffer) mem_size frame_size ≡ (true, f'))
      × (f'.total_frames ≡ mem_size / frame_size)
      × IsTracked (calls f' cs)
calls-IsTracked_init f buffer mem_size frame_size cs r h =
    let (f', e, total, v) = init-IsTracked f buffer mem_size frame_size r in
    (f', e, total, calls-IsTracked f' cs h v)

module _ (f : Frames) (v : IsTracked f) (on : f.is_initialized ≡ true) where
  -- Under initialisation a frame is allocated if its bit is set.
  allocated_lem : (j : ℕ) → frame_is_allocated f j ≡ bitmap_test f.frame_bitmap j
  unfolding frame_is_allocated
  allocated_lem j = simp on (ground (arith, bitmap_test-out f.frame_bitmap j, v.total))

-- A call that leaves the number of frames and the initialisation alone, and changes the bitmap to `b`.
module _ (f : Frames) (v : IsTracked f) (on : f.is_initialized ≡ true) (i : ℕ) where
  allocated-take_frame :
      i < f.frame_bitmap.size_bits
      → (j : ℕ)
      → frame_is_allocated (take_frame f (some i)).1 j
        ≡ (if i == j then true else frame_is_allocated f j)
  unfolding take_frame frame_is_allocated
  allocated-take_frame lt j =
      simp (on, bitmap_test-set f.frame_bitmap v.valid i j) (ground (arith, v.total))

abbrev Grants : Frames → Option ℕ × Frames → Type 0
Grants f r =
    ((i : ℕ) × (r.0 ≡ some i)
      × (i < f.total_frames)
      × (frame_is_allocated f i ≡ false)
      × ((j : ℕ) → j < i → frame_is_allocated f j ≡ true)
      × ((j : ℕ) → frame_is_allocated r.1 j ≡ (if i == j then true else frame_is_allocated f j)))
    ⊎ ((r ≡ (none, f)) × (f.used_frames ≡ f.total_frames))

take_frame-Grants :
    (f : Frames)
    → IsTracked f
    → f.is_initialized ≡ true
    → (o : Option ℕ) → IsFirst false f.frame_bitmap 0 f.frame_bitmap.size_bits o
    → Grants f (take_frame f o)
unfolding IsFirst take_frame
take_frame-Grants f v on none first = inr (
  refl,
  v.counted ∙ count_used-full f.frame_bitmap (λ j h. first j (omega arith) h h) ∙ sym v.total,
)
take_frame-Grants f v on (some i) (h1, h2, h3, h4, h5) = inl (
  i,
  refl,
  omega (arith, v.total),
  allocated_lem f v on i ∙ h4,
  λ j h. allocated_lem f v on j ∙ h5 j (omega arith) h,
  allocated-take_frame f v on i h3,
)

-- What `frame_alloc` grants in a tracked and initialised allocator: the lowest frame that is not
-- allocated, which is allocated from then on, while every other frame stays as it was. It fails only
-- if all frames are in use.
pub frame_alloc_lem :
    (f : Frames)
    → IsTracked f
    → f.is_initialized ≡ true
    → ((i : ℕ) × ((frame_alloc f).0 ≡ some i)
        × (i < f.total_frames)
        × (frame_is_allocated f i ≡ false)
        × ((j : ℕ) → j < i → frame_is_allocated f j ≡ true)
        × ((j : ℕ)
            → frame_is_allocated (frame_alloc f).1 j
              ≡ (if i == j then true else frame_is_allocated f j)))
      ⊎ ((frame_alloc f ≡ (none, f)) × (f.used_frames ≡ f.total_frames))
unfolding frame_alloc
frame_alloc_lem f v on = simp on (
    take_frame-Grants f v on (bitmap_find_first_zero f.frame_bitmap)
      (find_first_zero_lem f.frame_bitmap v.valid))

module _ (f : Frames) (v : IsTracked f) (on : f.is_initialized ≡ true) (i : ℕ)
    (lt : i < f.frame_bitmap.size_bits) (clear : bitmap_test f.frame_bitmap i ≡ false) where
  abbrev freed : Frames
  freed = record f { frame_bitmap = bitmap_clear (bitmap_set f.frame_bitmap i) i }

  frame_free-take_frame : frame_free (take_frame f (some i)).1 i ≡ freed
  unfolding frame_free release_frame take_frame
  frame_free-take_frame =
      simp (on, leb_of_lt f.total_frames i (omega (arith, v.total)), now_set, counter) refl
    where
      now_set : bitmap_test (bitmap_set f.frame_bitmap i) i ≡ true
      now_set = bitmap_test-set f.frame_bitmap v.valid i i ∙ ground arith

      counter : sub_word (add_word f.used_frames 1) 1 ≡ f.used_frames
      counter =
          omega (arith, v.total, v.small, v.counted, count_used-missing f.frame_bitmap i lt clear)

  allocated-freed : (j : ℕ) → frame_is_allocated freed j ≡ frame_is_allocated f j
  unfolding frame_is_allocated
  allocated-freed j =
      simp
        (
          on,
          bitmap_test-clear (bitmap_set f.frame_bitmap i)
              (bitmap_set-IsValid f.frame_bitmap v.valid i) i j,
        )
        (ground (
          arith,
          bitmap_test-set f.frame_bitmap v.valid i j,
          ap (bitmap_test f.frame_bitmap),
          clear,
        ))

-- In a tracked and initialised allocator, to free the frame that `frame_alloc` has just granted
-- restores the set of allocated frames and the counter.
pub frame_free-frame_alloc :
    (f : Frames) (i : ℕ)
    → IsTracked f
    → f.is_initialized ≡ true
    → (frame_alloc f).0 ≡ some i
    → ((j : ℕ) → frame_is_allocated (frame_free (frame_alloc f).1 i) j ≡ frame_is_allocated f j)
      × (frame_used_count (frame_free (frame_alloc f).1 i) ≡ frame_used_count f)
unfolding frame_alloc frame_used_count IsFirst take_frame
frame_free-frame_alloc f i v on =
    simp on (
      restored (bitmap_find_first_zero f.frame_bitmap) (find_first_zero_lem f.frame_bitmap v.valid))
  where
    restored :
        (o : Option ℕ)
        → IsFirst false f.frame_bitmap 0 f.frame_bitmap.size_bits o
        → (take_frame f o).0 ≡ some i
        → ((j : ℕ)
            → frame_is_allocated (frame_free (take_frame f o).1 i) j ≡ frame_is_allocated f j)
          × ((frame_free (take_frame f o).1 i).used_frames ≡ f.used_frames)
    restored none first e = absurd cc
    restored (some k) (h1, h2, h3, h4, h5) e =
        rw (sym (some_inj k i e), frame_free-take_frame f v on k h3 h4)
          (allocated-freed f v on k h3 h4, refl)
