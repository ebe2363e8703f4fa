-- ===== src/Cstd/Memory.antt =====
-- lib/cstd/memory.c. A memory is the list of its bytes, a pointer an index. The result of the routines
-- that return their first argument is left out.
pub mod Copy
mod Tests
use nexa_kernel.Base.{
  ℕ, zero, suc, ◌+◌, ◌-◌, ◌%◌, true, false, Option, none, some, List, get_or, set, ltb, ◌==◌,
  if◌then◌else◌,
}
use nexa_kernel.Base.Int.{ℤ, pos, negsuc}

-- `while (n--) *d++ = *s++`
pub copy_forward : ℕ → List ℕ → ℕ → ℕ → List ℕ
copy_forward zero m d s = m
copy_forward (suc n) m d s = copy_forward n (set m d (get_or m s 0)) (suc d) (suc s)

-- `d += n; s += n; while (n--) *--d = *--s`
pub copy_backward : ℕ → List ℕ → ℕ → ℕ → List ℕ
copy_backward zero m d s = m
copy_backward (suc n) m d s = copy_backward n (set m (d + n) (get_or m (s + n) 0)) d s

pub memcpy : List ℕ → ℕ → ℕ → ℕ → List ℕ
unfolding copy_forward
memcpy m dst src n = copy_forward n m dst src

pub memmove : List ℕ → ℕ → ℕ → ℕ → List ℕ
unfolding copy_forward copy_backward
memmove m dst src n = if ltb dst src then copy_forward n m dst src else copy_backward n m dst src

pub fill : ℕ → List ℕ → ℕ → ℕ → List ℕ
fill zero m p byte = m
fill (suc n) m p byte = fill n (set m p byte) (suc p) byte

-- `(unsigned char)c` is the remainder by 256.
pub memset : List ℕ → ℕ → ℕ → ℕ → List ℕ
unfolding fill
memset m s c n = fill n m s (c % 256)

-- The difference of two bytes as an `int`.
unfoldable pub byte_difference : ℕ → ℕ → ℤ
byte_difference a b = if ltb a b then negsuc (b - a - 1) else pos (a - b)

pub memcmp : List ℕ → ℕ → ℕ → ℕ → ℤ
unfolding byte_difference
memcmp m s1 s2 zero = pos 0
memcmp m s1 s2 (suc n) = elim (get_or m s1 0 == get_or m s2 0) [
  | true ↦ memcmp m (suc s1) (suc s2) n
  | false ↦ byte_difference (get_or m s1 0) (get_or m s2 0)
]

-- `none` is the null pointer.
pub memchr : List ℕ → ℕ → ℕ → ℕ → Option ℕ
memchr m s c zero = none
memchr m s c (suc n) = elim (get_or m s 0 == c % 256) [
  | true ↦ some s
  | false ↦ memchr m (suc s) c n
]
