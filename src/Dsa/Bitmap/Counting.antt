-- ===== src/Dsa/Bitmap/Counting.antt =====
-- How many indices of a bitmap of lib/dsa/bitmap.c are set, and how its writes change that.
use nexa_kernel.Base.{
  ℕ, zero, suc, ◌+◌, ◌≤◌, ◌<◌, ◌≡◌, ◌≢◌, refl, sym, ap, ◌∙◌, Bool, true, false, arith, lt→ltb,
  if◌then◌else◌, dec_lt,
}
use nexa_kernel.Dsa.Bitmap.{
  Bitmap, bitmap_set, bitmap_clear, bitmap_test, bitmap_set_range, write_range,
}
use nexa_kernel.Dsa.Bitmap.Access.{
  IsValid, bitmap_set-IsValid, bitmap_test-set, bitmap_test-clear, size_bits-set, size_bits-clear,
}

-- How many numbers below `n` pass a test.
unfoldable pub count_below : ℕ → (ℕ → Bool) → ℕ
count_below zero p = 0
count_below (suc n) p = count_below n p + (if p n then 1 else 0)

pub count_below-le : (n : ℕ) (p : ℕ → Bool) → count_below n p ≤ n
unfolding count_below
count_below-le zero p = omega arith
count_below-le (suc n) p = ground (arith, count_below-le n p)

count_below-cong :
    (n : ℕ) (p q : ℕ → Bool) → ((j : ℕ) → j < n → p j ≡ q j) → count_below n p ≡ count_below n q
unfolding count_below
count_below-cong zero p q h = refl
count_below-cong (suc n) p q h =
    rw (h n (omega arith), count_below-cong n p q (λ j lt. h j (omega arith))) refl

-- One more number passes.
count_below-more :
    (n i : ℕ) (p q : ℕ → Bool)
    → i < n
    → p i ≡ false
    → q i ≡ true
    → ((j : ℕ) → j < n → j ≢ i → p j ≡ q j)
    → count_below n q ≡ suc (count_below n p)
unfolding count_below
count_below-more zero i p q h hp hq same = absurd (omega arith)
count_below-more (suc n) i p q h hp hq same = elim (dec_lt i n) [
  | yes lt ↦
      rw
        (
          count_below-more n i p q lt hp hq (λ j h' ne. same j (omega arith) ne),
          same n (omega arith) (omega arith),
        )
        (omega arith)
  | no ge ↦
      rw
        (
          ap p (last ge) ∙ hp,
          ap q (last ge) ∙ hq,
          sym (count_below-cong n p q (λ j h'. same j (omega arith) (λ e. absurd (omega arith)))),
        )
        (omega arith)
]
  where
    last : ¬ i < n → n ≡ i
    last ge = omega arith

pub count_below-full : (n : ℕ) (p : ℕ → Bool) → ((j : ℕ) → j < n → p j ≡ true) → count_below n p ≡ n
unfolding count_below
count_below-full zero p h = refl
count_below-full (suc n) p h =
    rw (h n (omega arith), count_below-full n p (λ j lt. h j (omega arith))) (omega arith)

pub count_below-none : (n : ℕ) (p : ℕ → Bool) → ((j : ℕ) → p j ≡ false) → count_below n p ≡ 0
unfolding count_below
count_below-none zero p h = refl
count_below-none (suc n) p h = rw (h n, count_below-none n p h) refl

pub count_below-missing : (n i : ℕ) (p : ℕ → Bool) → i < n → p i ≡ false → count_below n p < n
unfolding count_below
count_below-missing zero i p lt h = absurd (omega arith)
count_below-missing (suc n) i p lt h = elim (dec_lt i n) [
  | yes lt' ↦ ground (arith, count_below-missing n i p lt' h)
  | no ge ↦ rw (ap p (last ge) ∙ h) (omega (arith, count_below-le n p))
]
  where
    last : ¬ i < n → n ≡ i
    last ge = omega arith

-- The number of set indices.
unfoldable pub count_used : Bitmap → ℕ
unfolding count_below
count_used b = count_below b.size_bits (bitmap_test b)

pub count_used-set :
    (b : Bitmap) (i : ℕ)
    → IsValid b
    → i < b.size_bits
    → bitmap_test b i ≡ false
    → count_used (bitmap_set b i) ≡ suc (count_used b)
unfolding count_used
count_used-set b i v lt clear = simp (size_bits-set b i) (
    count_below-more b.size_bits i (bitmap_test b) (bitmap_test (bitmap_set b i)) lt clear
      (bitmap_test-set b v i i ∙ ground arith)
      (λ j h ne. sym (bitmap_test-set b v i j ∙ ground arith)))

pub count_used-clear :
    (b : Bitmap) (i : ℕ)
    → IsValid b
    → i < b.size_bits
    → bitmap_test b i ≡ true
    → suc (count_used (bitmap_clear b i)) ≡ count_used b
unfolding count_used
count_used-clear b i v lt used = simp (size_bits-clear b i) (
    sym (
      count_below-more b.size_bits i (bitmap_test (bitmap_clear b i)) (bitmap_test b) lt
        (bitmap_test-clear b v i i ∙ ground arith) used
        (λ j h ne. bitmap_test-clear b v i j ∙ ground arith)))

pub size_bits-write_range :
    (count start : ℕ) (b : Bitmap) → (write_range bitmap_set count b start).size_bits ≡ b.size_bits
unfolding write_range
size_bits-write_range zero start b = refl
size_bits-write_range (suc count) start b =
    ground
      (arith, size_bits-write_range count (suc start) (bitmap_set b start), size_bits-set b start)

-- Setting a run of clear indices adds as many.
pub count_used-write_range :
    (count start : ℕ) (b : Bitmap)
    → IsValid b
    → start + count ≤ b.size_bits
    → ((j : ℕ) → start ≤ j → j < start + count → bitmap_test b j ≡ false)
    → count_used (write_range bitmap_set count b start) ≡ count_used b + count
unfolding write_range
count_used-write_range zero start b v fits clear = omega arith
count_used-write_range (suc count) start b v fits clear =
    rw (lt→ltb start b.size_bits (omega arith)) (
      count_used-write_range count (suc start) (bitmap_set b start) (bitmap_set-IsValid b v start)
        (omega (arith, size_bits-set b start))
        (λ j h h'.
          bitmap_test-set b v start j ∙ ground (arith, clear j (omega arith) (omega arith)))
      ∙ omega
          (arith, count_used-set b start v (omega arith) (clear start (omega arith) (omega arith))))

pub count_used-le : (b : Bitmap) → count_used b ≤ b.size_bits
unfolding count_used
count_used-le b = count_below-le b.size_bits (bitmap_test b)

pub count_used-full :
    (b : Bitmap) → ((j : ℕ) → j < b.size_bits → bitmap_test b j ≡ true) → count_used b ≡ b.size_bits
unfolding count_used
count_used-full b h = count_below-full b.size_bits (bitmap_test b) h

pub count_used-missing :
    (b : Bitmap) (i : ℕ) → i < b.size_bits → bitmap_test b i ≡ false → count_used b < b.size_bits
unfolding count_used
count_used-missing b i lt h = count_below-missing b.size_bits i (bitmap_test b) lt h

pub count_used-none : (b : Bitmap) → ((j : ℕ) → bitmap_test b j ≡ false) → count_used b ≡ 0
unfolding count_used
count_used-none b h = count_below-none b.size_bits (bitmap_test b) h

pub count_used-set_range :
    (b : Bitmap) (start count : ℕ)
    → IsValid b
    → start + count ≤ b.size_bits
    → ((j : ℕ) → start ≤ j → j < start + count → bitmap_test b j ≡ false)
    → count_used (bitmap_set_range b start count) ≡ count_used b + count
unfolding bitmap_set_range
count_used-set_range b start count v fits clear = count_used-write_range count start b v fits clear

pub size_bits-set_range :
    (b : Bitmap) (start count : ℕ) → (bitmap_set_range b start count).size_bits ≡ b.size_bits
unfolding bitmap_set_range
size_bits-set_range b start count = size_bits-write_range count start b
