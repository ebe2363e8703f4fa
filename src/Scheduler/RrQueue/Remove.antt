-- ===== src/Scheduler/RrQueue/Remove.antt =====
-- `rr_remove`: the search from the front, and the shift that closes the gap.
use nexa_kernel.Base.{
  ℕ, zero, suc, ◌+◌, ◌-◌, ◌%◌, ◌≤◌, ◌<◌, ◌≡◌, ◌≢◌, refl, sym, ap, ap₂, ◌∙◌, ◌⊎◌, inl, inr, false,
  List, arith, length, get_or, set, ◌==◌, add_word, word_mod, Bool-cases, subst, dec_lt, ==_iff,
  ==_of_ne, sub_word, if◌then◌else◌, length-set,
}
use nexa_kernel.Base.Tabulate.{erase_at}
use nexa_kernel.Ring.{slot_ne_end, slot, slot_zero, slot_cases}
use nexa_kernel.Ring.Contents.{contents, contents-set_past}
use nexa_kernel.Ring.Search.{IsFirst}
use nexa_kernel.Ring.Shift.{Shifted, Shifted-done, Shifted-step, contents-Shifted}
use nexa_kernel.Scheduler.RrQueue.{RrQueue, find_index, shift_back, remove_index}
use nexa_kernel.Scheduler.RrQueue.Invariant.{IsValid, tasks, next_slot}

module _ (left fuel : ℕ) (cells : List ℕ) (cap : ℕ) where
  find_index-miss :
      (current task : ℕ)
      → (get_or cells current 0 == task) ≡ false
      → find_index (suc left) cells cap current task
        ≡ find_index left cells cap (add_word current 1 % cap) task
  unfolding find_index
  find_index-miss current task miss = rw (miss, find_index)

  shift_back-more :
      (tail i next : ℕ)
      → next ≢ tail
      → shift_back (suc fuel) cells cap tail i next
        ≡ shift_back fuel (set cells i (get_or cells next 0)) cap tail next (add_word next 1 % cap)
  unfolding shift_back
  shift_back-more tail i next ne = rw (==_of_ne next tail ne, shift_back)

  shift_back-end :
      (tail i next : ℕ) → next ≡ tail → shift_back (suc fuel) cells cap tail i next ≡ (i, cells)
  unfolding shift_back
  shift_back-end tail i next e = rw ((==_iff next tail).1 e, shift_back)

module _ (q : RrQueue) (v : IsValid q) (task : ℕ) where
  open q use {cells, capacity, size, head, tail}

  abbrev pub entry : ℕ → ℕ
  entry i = get_or cells (slot capacity head i) 0

  -- The search ends at the first place of the task, or says that there is none.
  abbrev pub Found : ℕ → Type 0
  Found r =
      ((p : ℕ) × IsFirst (λ t. t == task) size entry p × (r ≡ slot capacity head p))
      ⊎ ((r ≡ capacity) × ((j : ℕ) → j < size → (entry j == task) ≡ false))

  find_index-Found :
      (left i : ℕ)
      → i + left ≡ size
      → ((j : ℕ) → j < i → (entry j == task) ≡ false)
      → Found (find_index left cells capacity (slot capacity head i) task)
  unfolding find_index
  find_index-Found zero i e none_yet = inr (refl, λ j h. none_yet j (omega arith))
  find_index-Found (suc left) i e none_yet = elim (Bool-cases (entry i == task)) [
    | inl hit ↦
        inl (i, record { inside = omega arith; hit = hit; before = none_yet }, rw (hit, find_index))
    | inr miss ↦
        rw
          (
            find_index-miss left 0 cells capacity (slot capacity head i) task miss,
            next_slot capacity head i v.head_in v.small (omega (arith, v.size_le)),
          )
          (find_index-Found left (suc i) (omega arith) λ j h. elim (dec_lt j i) [
            | yes p ↦ none_yet j p
            | no p ↦ let same : j ≡ i = omega arith in rw same miss
          ])
  ]

  pub search-Found : Found (find_index size cells capacity head task)
  search-Found =
      subst (λ c. Found (find_index size cells capacity c task)) (slot_zero capacity head v.head_in)
        (find_index-Found size 0 (omega arith) (λ j h. absurd (omega arith)))

module _ (cap h n : ℕ) (front : h < cap) (small : cap < word_mod) (fits : n < cap) where
  -- With more fuel than places behind `p` the loop closes the gap, and ends at the last place.
  shift_back-Shifted :
      (fuel p : ℕ) (cells : List ℕ)
      → p ≤ n
      → n < p + fuel
      → cap ≤ length cells
      → let (i, after) =
          shift_back fuel cells cap (slot cap h (suc n)) (slot cap h p) (slot cap h (suc p)) in
        (i ≡ slot cap h n) × Shifted 0 cap h n p cells after
  shift_back-Shifted zero p cells le enough room = absurd (omega arith)
  shift_back-Shifted (suc fuel) p cells le enough room = elim (dec_lt p n) [
    | yes lt ↦
        rw
          (
            shift_back-more 0 fuel cells cap _ _ _
                (slot_ne_end cap h front n (suc p) fits lt (inl (omega arith))),
            next_slot cap h (suc p) front small (omega arith),
          )
          (let moved = set cells (slot cap h p) (get_or cells (slot cap h (suc p)) 0) in
            let rest = shift_back-Shifted fuel (suc p) moved lt (omega arith) (
              omega
                (arith, length-set cells (slot cap h p) (get_or cells (slot cap h (suc p)) 0))) in
            (rest.0, Shifted-step 0 cap h n front fits p cells _ lt room rest.1))
    | no ge ↦
        let last : p ≡ n = omega arith in
        rw (last, shift_back-end 0 fuel cells cap _ _ _ refl)
          (refl, Shifted-done 0 cap h n front fits cells)
  ]

module _ (q : RrQueue) (v : IsValid q) (n : ℕ) (count : q.size ≡ suc n) where
  open q use {cells, capacity, size, head, tail}

  tail_back : (if tail == 0 then sub_word capacity 1 else tail - 1) ≡ slot capacity head n
  tail_back = ground (
    arith,
    v.size_le,
    v.small,
    ap (slot capacity head) count,
    slot_cases capacity head v.head_in n,
    slot_cases capacity head v.head_in (suc n),
  )

  gap_closed :
      (p : ℕ)
      → p ≤ n
      → let (i, after) =
          shift_back capacity cells capacity tail
            (slot capacity head p)
            (add_word (slot capacity head p) 1 % capacity) in
        (i ≡ slot capacity head n) × Shifted 0 capacity head n p cells after
  gap_closed p le =
      rw (v.tail_at, count, next_slot capacity head p v.head_in v.small (omega (arith, v.size_le)))
        (shift_back-Shifted capacity head n v.head_in v.small (omega (arith, v.size_le)) capacity p
          cells le (omega (arith, v.size_le)) v.room)

  one_less : sub_word size 1 ≡ n
  one_less = omega (arith, v.size_le, v.small)

  removed_lem :
      (p i : ℕ) (after : List ℕ)
      → p ≤ n
      → i ≡ slot capacity head n
      → Shifted 0 capacity head n p cells after
      → let q' = record q {
        cells = set after i 0;
        tail = if tail == 0 then sub_word capacity 1 else tail - 1;
        size = sub_word size 1;
      } in
        IsValid q' × (tasks q' ≡ erase_at p (tasks q)) × (q'.capacity ≡ capacity)
  removed_lem p i after le at_end moved = (
    record {
      allocated = v.allocated;
      room = omega (arith, length-set after i 0, moved.size, v.room);
      small = v.small;
      head_in = v.head_in;
      size_le = omega (arith, one_less, v.size_le);
      tail_at = tail_back ∙ ap (slot capacity head) (sym one_less);
    },
    ap₂ (λ j m. contents 0 (set after j 0) capacity head m) at_end one_less
        ∙ contents-set_past 0 after capacity head v.head_in n n 0 (omega arith)
            (omega (arith, v.size_le))
        ∙ contents-Shifted 0 capacity head n p cells after (omega arith) moved
        ∙ ap (λ m. erase_at p (contents 0 cells capacity head m)) (sym count),
    refl,
  )

  -- Removing the entry at a place keeps the invariant, and takes exactly that task away.
  pub remove_index_lem :
      (p : ℕ)
      → p ≤ n
      → let q' = remove_index q (slot capacity head p) in
        IsValid q' × (tasks q' ≡ erase_at p (tasks q)) × (q'.capacity ≡ capacity)
  unfolding remove_index
  remove_index_lem p le = let (at_end, moved) = gap_closed p le in removed_lem p _ _ le at_end moved
