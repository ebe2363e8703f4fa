-- ===== src/Cstd/String/Text.antt =====
-- Strings in memory, and `strlen` of string.c.
use nexa_kernel.Base.{
  ℕ, zero, suc, ◌+◌, ◌≤◌, ◌<◌, ◌≡◌, ◌≢◌, refl, sym, ap, subst, ◌∙◌, some, List, [], ◌∷◌, arith,
  length, get_elem?, set, ==_of_ne,
}
use nexa_kernel.Cstd.String.{strlen_from, strlen}

-- The characters `cs` stand in the memory from `p` on, with a 0 behind them.
abbrev pub IsText : List ℕ → ℕ → List ℕ → Type 0
IsText m p [] = get_elem? m p ≡ some 0
IsText m p (c ∷ cs) = (get_elem? m p ≡ some c) × (c ≢ 0) × IsText m (suc p) cs

pub get_elem?-inside : (m : List ℕ) (p c : ℕ) → get_elem? m p ≡ some c → p < length m
get_elem?-inside [] p c e = cc
get_elem?-inside (x ∷ m) zero c e = omega arith
get_elem?-inside (x ∷ m) (suc p) c e = omega (arith, get_elem?-inside m p c e)

pub get_elem?-set_self : (m : List ℕ) (p c : ℕ) → p < length m → get_elem? (set m p c) p ≡ some c
get_elem?-set_self [] p c lt = absurd (omega arith)
get_elem?-set_self (x ∷ m) zero c lt = refl
get_elem?-set_self (x ∷ m) (suc p) c lt = get_elem?-set_self m p c (omega arith)

pub get_elem?-set_ne : (m : List ℕ) (p q c : ℕ) → q ≢ p → get_elem? (set m p c) q ≡ get_elem? m q
get_elem?-set_ne [] p q c ne = refl
get_elem?-set_ne (x ∷ m) zero zero c ne = absurd (ne refl)
get_elem?-set_ne (x ∷ m) zero (suc q) c ne = refl
get_elem?-set_ne (x ∷ m) (suc p) zero c ne = refl
get_elem?-set_ne (x ∷ m) (suc p) (suc q) c ne = get_elem?-set_ne m p q c (λ e. ne (ap suc e))

pub IsText-inside : (m : List ℕ) (p : ℕ) (cs : List ℕ) → IsText m p cs → p + length cs < length m
IsText-inside m p [] t = omega (arith, get_elem?-inside m p 0 t)
IsText-inside m p (c ∷ cs) t = omega (arith, IsText-inside m (suc p) cs t.2)

pub IsText-kept :
    (m m' : List ℕ) (p : ℕ) (cs : List ℕ)
    → ((a : ℕ) → p ≤ a → a ≤ p + length cs → get_elem? m' a ≡ get_elem? m a)
    → IsText m p cs
    → IsText m' p cs
IsText-kept m m' p [] same t = same p (omega arith) (omega arith) ∙ t
IsText-kept m m' p (c ∷ cs) same t = (
  same p (omega arith) (omega arith) ∙ t.0,
  t.1,
  IsText-kept m m' (suc p) cs (λ a le ge. same a (omega arith) (omega arith)) t.2,
)

strlen_from-end :
    (fuel : ℕ) (m : List ℕ) (s len : ℕ)
    → get_elem? m (s + len) ≡ some 0
    → strlen_from (suc fuel) m s len ≡ some len
unfolding strlen_from
strlen_from-end fuel m s len e = simp (e, strlen_from) refl

strlen_from-IsText :
    (fuel : ℕ) (m : List ℕ) (s len : ℕ) (cs : List ℕ)
    → length cs < fuel
    → IsText m (s + len) cs
    → strlen_from fuel m s len ≡ some (len + length cs)
unfolding strlen_from
strlen_from-IsText zero m s len cs lt t = absurd (omega arith)
strlen_from-IsText (suc fuel) m s len [] lt t =
    strlen_from-end fuel m s len t ∙ ap some (omega arith)
strlen_from-IsText (suc fuel) m s len (c ∷ cs) lt t =
    let next : s + suc len ≡ suc (s + len) = omega arith in
    simp (t.0, ==_of_ne c 0 t.1, strlen_from)
      (strlen_from-IsText fuel m s (suc len) cs (omega arith)
          (subst (λ p. IsText m p cs) (sym next) t.2)
        ∙ ap some (omega arith))

-- The number of its characters.
pub strlen-IsText :
    (m : List ℕ) (s : ℕ) (cs : List ℕ) → IsText m s cs → strlen m s ≡ some (length cs)
unfolding strlen
strlen-IsText m s cs t =
    strlen_from-IsText (suc (length m)) m s 0 cs (omega (arith, IsText-inside m s cs t))
      (subst (λ p. IsText m p cs) (omega arith) t)
    ∙ ap some (omega arith)
