-- ===== src/Ring/Search.antt =====
-- The first entry of a list that passes a test, and the list without it. The searches of
-- `rr_remove` and `msgq_receive` are compared with it.
use nexa_kernel.Base.{
  ℕ, zero, suc, ◌<◌, ◌≡◌, refl, Bool, true, false, Option, none, some, List, [], ◌∷◌, arith,
  if◌then◌else◌,
}
use nexa_kernel.Base.Tabulate.{tabulate, erase_at}

module _ {ℓ} {A : Type ℓ} (test : A → Bool) where
  abbrev pub put_back : A → Option (A × List A) → Option (A × List A)
  put_back x none = none
  put_back x (some (y, ys)) = some (y, x ∷ ys)

  abbrev pub take_first : List A → Option (A × List A)
  take_first [] = none
  take_first (x ∷ xs) = if test x then some (x, xs) else put_back x (take_first xs)

  -- `p` is the first of `n` places whose entry passes.
  pub record IsFirst (n : ℕ) (f : ℕ → A) (p : ℕ) : Type 0 where
    pub inside : p < n
    pub hit : test (f p) ≡ true
    pub before : (j : ℕ) → j < p → test (f j) ≡ false

  pub take_first_hit :
      (n : ℕ) (f : ℕ → A) (p : ℕ)
      → IsFirst n f p
      → take_first (tabulate n f) ≡ some (f p, erase_at p (tabulate n f))
  take_first_hit zero f p s = absurd (omega (arith, s.inside))
  take_first_hit (suc n) f zero s = rw s.hit
  take_first_hit (suc n) f (suc p) s = rw (
    s.before 0 (omega arith),
    take_first_hit n (λ i. f (suc i)) p
        (record {
          inside = omega (arith, s.inside);
          hit = s.hit;
          before = λ j q. s.before (suc j) (omega arith);
        }),
  )

  pub take_first_miss :
      (n : ℕ) (f : ℕ → A)
      → ((j : ℕ) → j < n → test (f j) ≡ false)
      → take_first (tabulate n f) ≡ none
  take_first_miss zero f h = refl
  take_first_miss (suc n) f h =
      rw (h 0 (omega arith), take_first_miss n (λ i. f (suc i)) (λ j q. h (suc j) (omega arith)))
