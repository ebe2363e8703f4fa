-- ===== src/Dsa/Bitmap/Bits.antt =====
-- The bits of a byte, by evaluation over all bytes and positions.
use nexa_kernel.Base.{
  ℕ, zero, suc, ◌<◌, ◌≡◌, refl, Bool, true, false, not, ◌&&◌, arith, ltb, ◌==◌, if◌then◌else◌,
}
use nexa_kernel.Dsa.Bitmap.{set_bit, clear_bit, test_bit}

-- Whether a test passes at every number below a bound.
every : ℕ → (ℕ → Bool) → Bool
every zero p = true
every (suc n) p = if p n then every n p else false

every_lem : (n : ℕ) (p : ℕ → Bool) (x : ℕ) → every n p ≡ true → x < n → p x ≡ true
unfolding every
every_lem zero p x h lt = absurd (omega arith)
every_lem (suc n) p x h lt = ground (arith, every_lem n p x)

agree : Bool → Bool → Bool
agree true b = b
agree false b = not b

agree_lem : (a b : Bool) → agree a b ≡ true → a ≡ b
unfolding agree
agree_lem true b h = ground arith
agree_lem false b h = ground arith

set_table : ℕ → ℕ → ℕ → Bool
set_table b k j =
    agree (test_bit (set_bit b k) j) (if k == j then true else test_bit b j)
    && ltb (set_bit b k) 256

clear_table : ℕ → ℕ → ℕ → Bool
clear_table b k j =
    agree (test_bit (clear_bit b k) j) (if k == j then false else test_bit b j)
    && ltb (clear_bit b k) 256

abbrev everywhere : (ℕ → ℕ → ℕ → Bool) → Bool
everywhere p = every 256 (λ b. every 8 (λ k. every 8 (λ j. p b k j)))

set_table_holds : everywhere set_table ≡ true
unfolding every set_table agree set_bit test_bit
set_table_holds = refl

clear_table_holds : everywhere clear_table ≡ true
unfolding every clear_table agree clear_bit test_bit
clear_table_holds = refl

at_all :
    (p : ℕ → ℕ → ℕ → Bool)
    → everywhere p ≡ true
    → (b k j : ℕ) → b < 256
    → k < 8
    → j < 8
    → p b k j ≡ true
at_all p h b k j hb hk hj =
    every_lem 8 (p b k) j
      (every_lem 8 (λ k'. every 8 (p b k')) k
        (every_lem 256 (λ b'. every 8 (λ k'. every 8 (p b' k'))) b h hb) hk)
      hj

module _ (b k j : ℕ) (hb : b < 256) (hk : k < 8) (hj : j < 8) where
  pub test_bit-set_bit : test_bit (set_bit b k) j ≡ (if k == j then true else test_bit b j)
  unfolding set_table
  test_bit-set_bit = agree_lem _ _ (ground (arith, at_all set_table set_table_holds b k j hb hk hj))

  pub test_bit-clear_bit : test_bit (clear_bit b k) j ≡ (if k == j then false else test_bit b j)
  unfolding clear_table
  test_bit-clear_bit =
      agree_lem _ _ (ground (arith, at_all clear_table clear_table_holds b k j hb hk hj))

pub set_bit-lt : (b k : ℕ) → b < 256 → k < 8 → set_bit b k < 256
unfolding set_table
set_bit-lt b k hb hk = ground (arith, at_all set_table set_table_holds b k 0 hb hk)

pub clear_bit-lt : (b k : ℕ) → b < 256 → k < 8 → clear_bit b k < 256
unfolding clear_table
clear_bit-lt b k hb hk = ground (arith, at_all clear_table clear_table_holds b k 0 hb hk)

zero_table_holds : every 8 (λ k. not (test_bit 0 k)) ≡ true
unfolding every test_bit
zero_table_holds = refl

full_table_holds : every 8 (λ k. test_bit 255 k) ≡ true
unfolding every test_bit
full_table_holds = refl

-- No bit of the byte 0 is set, and every bit of the byte 255.
pub test_bit_zero : (k : ℕ) → k < 8 → test_bit 0 k ≡ false
test_bit_zero k h = ground (arith, every_lem 8 (λ k. not (test_bit 0 k)) k zero_table_holds h)

pub test_bit_full : (k : ℕ) → k < 8 → test_bit 255 k ≡ true
test_bit_full k h = every_lem 8 (λ k. test_bit 255 k) k full_table_holds h
