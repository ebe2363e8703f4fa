-- ===== src/Dsa/Bitmap/Run.antt =====
-- `bitmap_find_contiguous_zeros` and the range writes of lib/dsa/bitmap.c.
use nexa_kernel.Base.{
  ℕ, zero, suc, ◌+◌, ◌≤◌, ◌<◌, ◌≡◌, ◌∙◌, ap, inl, inr, Bool, true, false, ◌&&◌, ◌||◌, Option, some,
  none, arith, ltb, leb, leb→le, leb→lt, ◌==◌, lt→ltb, if◌then◌else◌, Bool-cases, dec_lt,
}
use nexa_kernel.Dsa.Bitmap.{
  Bitmap, bitmap_set, bitmap_clear, bitmap_test, find_run, bitmap_find_contiguous_zeros,
  write_range, bitmap_set_range, bitmap_clear_range,
}
use nexa_kernel.Dsa.Bitmap.Access.{
  IsValid, bitmap_set-IsValid, bitmap_clear-IsValid, bitmap_test-set, bitmap_test-clear,
  size_bits-set, size_bits-clear,
}

-- `count` clear bits from `start` on, all within the bitmap.
pub record IsClearRun (b : Bitmap) (count : ℕ) (start : ℕ) : Type 0 where
  pub fits : start + count ≤ b.size_bits
  pub clear : (j : ℕ) → start ≤ j → j < start + count → bitmap_test b j ≡ false

-- The first such run, or `none` if the bitmap has none.
unfoldable pub IsFirstRun : Bitmap → ℕ → Option ℕ → Type 0
IsFirstRun b count none = (start : ℕ) → ¬ IsClearRun b count start
IsFirstRun b count (some start) =
    IsClearRun b count start × ((s : ℕ) → s < start → ¬ IsClearRun b count s)

-- What the loop knows before it looks at index `i`: the `consecutive` bits before `i` are clear, from
-- `start` on, and no run begins before them.
record IsScanned (b : Bitmap) (count i consecutive start : ℕ) : Type 0 where
  begins : 0 < consecutive → start + consecutive ≡ i
  counted : consecutive ≤ i
  short : consecutive < count
  clear : (j : ℕ) → i ≤ j + consecutive → j < i → bitmap_test b j ≡ false
  none_before : (s : ℕ) → s + consecutive < i → ¬ IsClearRun b count s

module _ (b : Bitmap) (count i consecutive start : ℕ)
    (inv : IsScanned b count i consecutive start) where
  abbrev run_start : ℕ
  run_start = if consecutive == 0 then i else start

  run_start_lem : run_start + consecutive ≡ i
  run_start_lem = ground (arith, inv.begins)

  IsScanned-set : bitmap_test b i ≡ true → IsScanned b count (suc i) 0 start
  IsScanned-set hit = record {
    begins = λ pos. absurd (omega arith);
    counted = omega arith;
    short = omega (arith, inv.short);
    clear = λ j h1 h2. absurd (omega arith);
    none_before = λ s h run. elim (dec_lt i (s + count)) [
      | yes lt ↦ absurd (clash (run.clear i (omega arith) lt))
      | no ge ↦ inv.none_before s (omega (arith, inv.short)) run
    ];
  }
    where
      clash : bitmap_test b i ≡ false → ⊥
      clash clear = ground arith

  clear_before :
      bitmap_test b i ≡ false
      → (j : ℕ) → suc i ≤ j + suc consecutive
      → j < suc i
      → bitmap_test b j ≡ false
  clear_before clear j h1 h2 = elim (dec_lt j i) [
    | yes lt ↦ inv.clear j (omega arith) lt
    | no ge ↦ ap (bitmap_test b) (omega arith) ∙ clear
  ]

  IsScanned-clear :
      bitmap_test b i ≡ false
      → suc consecutive < count
      → IsScanned b count (suc i) (suc consecutive) run_start
  IsScanned-clear clear more = record {
    begins = λ pos. omega (arith, run_start_lem);
    counted = omega (arith, inv.counted);
    short = more;
    clear = clear_before clear;
    none_before = λ s h. inv.none_before s (omega arith);
  }

  found_lem :
      bitmap_test b i ≡ false
      → count ≤ suc consecutive
      → i < b.size_bits
      → IsClearRun b count run_start × ((s : ℕ) → s < run_start → ¬ IsClearRun b count s)
  found_lem clear enough lt = (
    record {
      fits = omega (arith, run_start_lem, inv.short);
      clear = λ j h1 h2.
          clear_before clear j (omega (arith, run_start_lem, inv.short))
            (omega (arith, run_start_lem, inv.short));
    },
    λ s h. inv.none_before s (omega (arith, run_start_lem)),
  )

module _ (b : Bitmap) (count : ℕ) where
  find_run_lem :
      (left i consecutive start : ℕ)
      → i + left ≡ b.size_bits
      → IsScanned b count i consecutive start
      → IsFirstRun b count (find_run left b count i consecutive start)
  unfolding find_run IsFirstRun
  find_run_lem zero i consecutive start e inv =
      λ s run. inv.none_before s (omega (arith, inv.short, run.fits)) run
  find_run_lem (suc left) i consecutive start e inv = elim (Bool-cases (bitmap_test b i)) [
    | inl hit ↦ rw hit (
        find_run_lem left (suc i) 0 start (omega arith)
          (IsScanned-set b count i consecutive start inv hit))
    | inr clear ↦ rw clear (elim (Bool-cases (leb count (suc consecutive))) [
      | inl enough ↦ rw enough (
          found_lem b count i consecutive start inv clear (leb→le count (suc consecutive) enough)
            (omega arith))
      | inr more ↦ rw more (
          find_run_lem left (suc i) (suc consecutive) _ (omega arith) (
            IsScanned-clear b count i consecutive start inv clear
              (leb→lt count (suc consecutive) more)))
    ])
  ]

-- For a count other than 0 `bitmap_find_contiguous_zeros` yields the start of the first run of
-- `count` clear bits within the bitmap, and -1 only if there is no such run.
pub find_contiguous_zeros_lem :
    (b : Bitmap) (count : ℕ) → 0 < count → IsFirstRun b count (bitmap_find_contiguous_zeros b count)
unfolding bitmap_find_contiguous_zeros IsFirstRun
find_contiguous_zeros_lem b count pos = elim (dec_lt b.size_bits count) [
  | yes lt ↦ rw (too_long lt) (λ s run. absurd (omega (arith, run.fits)))
  | no ge ↦ rw (fitting (omega arith)) (
      find_run_lem b count b.size_bits 0 0 0 (omega arith) (record {
        begins = λ h. absurd (omega arith);
        counted = omega arith;
        short = pos;
        clear = λ j h1 h2. absurd (omega arith);
        none_before = λ s h. absurd (omega arith);
      }))
]
  where
    too_long : b.size_bits < count → (count == 0 || ltb b.size_bits count) ≡ true
    too_long lt = ground arith

    fitting : count ≤ b.size_bits → (count == 0 || ltb b.size_bits count) ≡ false
    fitting le = ground arith

-- The writes of a range, for a write that changes the test of its own index to `value`.
module _ (write : Bitmap → ℕ → Bitmap) (value : Bool)
    (size_bits-write : (b : Bitmap) (i : ℕ) → (write b i).size_bits ≡ b.size_bits)
    (write-IsValid : (b : Bitmap) (v : IsValid b) (i : ℕ) → IsValid (write b i))
    (test-write : (b : Bitmap) (v : IsValid b) (i j : ℕ)
      → i < b.size_bits
      → bitmap_test (write b i) j ≡ (if i == j then value else bitmap_test b j)) where
  pub write_range_lem :
      (count start : ℕ) (b : Bitmap) (j : ℕ)
      → IsValid b
      → j < b.size_bits
      → bitmap_test (write_range write count b start) j
        ≡ (if leb start j && ltb j (start + count) then value else bitmap_test b j)
  unfolding write_range
  write_range_lem zero start b j v lt = ground arith
  write_range_lem (suc count) start b j v lt = elim (dec_lt start b.size_bits) [
    | no out ↦ ground arith
    | yes in_range ↦ rw (lt→ltb start b.size_bits in_range) (
        write_range_lem count (suc start) (write b start) j (write-IsValid b v start)
          (omega (arith, size_bits-write b start))
        ∙ ground (arith, test-write b v start j in_range))
  ]

  pub write_range-IsValid :
      (count start : ℕ) (b : Bitmap) → IsValid b → IsValid (write_range write count b start)
  unfolding write_range
  write_range-IsValid zero start b v = v
  write_range-IsValid (suc count) start b v = elim (dec_lt start b.size_bits) [
    | no out ↦ rw (le→ltb (omega arith)) v
    | yes in_range ↦
        rw (lt→ltb start b.size_bits in_range)
          (write_range-IsValid count (suc start) (write b start) (write-IsValid b v start))
  ]
    where
      le→ltb : b.size_bits ≤ start → ltb start b.size_bits ≡ false
      le→ltb le = ground arith

-- After `bitmap_set_range` an index of the bitmap is set if it lies in the range or was set before.
pub set_range_lem :
    (b : Bitmap) (start count j : ℕ)
    → IsValid b
    → j < b.size_bits
    → bitmap_test (bitmap_set_range b start count) j
      ≡ (if leb start j && ltb j (start + count) then true else bitmap_test b j)
unfolding bitmap_set_range
set_range_lem b start count j v lt =
    write_range_lem bitmap_set true size_bits-set bitmap_set-IsValid
      (λ b' v' i k lt'. bitmap_test-set b' v' i k ∙ ground arith) count start b j v lt

-- After `bitmap_clear_range` an index of the bitmap is set if it was set before and lies outside the
-- range.
pub clear_range_lem :
    (b : Bitmap) (start count j : ℕ)
    → IsValid b
    → j < b.size_bits
    → bitmap_test (bitmap_clear_range b start count) j
      ≡ (if leb start j && ltb j (start + count) then false else bitmap_test b j)
unfolding bitmap_clear_range
clear_range_lem b start count j v lt =
    write_range_lem bitmap_clear false size_bits-clear bitmap_clear-IsValid
      (λ b' v' i k lt'. bitmap_test-clear b' v' i k) count start b j v lt

pub set_range-IsValid :
    (b : Bitmap) (start count : ℕ) → IsValid b → IsValid (bitmap_set_range b start count)
unfolding bitmap_set_range
set_range-IsValid b start count v =
    write_range-IsValid bitmap_set true size_bits-set bitmap_set-IsValid
      (λ b' v' i k lt'. bitmap_test-set b' v' i k ∙ ground arith) count start b v
