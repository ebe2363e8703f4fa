-- ===== src/Cstd/String.antt =====
-- lib/cstd/string.c over one memory of bytes; a pointer is an index, and the end of a string is a 0.
-- `none` is a read or a write outside the memory. The loops are on fuel, and the memory's length is
-- enough: each round moves a pointer on. The result of the routines that return their first argument
-- is left out.
pub mod Text
pub mod Copy
pub mod Compare
pub mod Occurs
mod Tests
use nexa_kernel.Base.{
  ℕ, zero, suc, ◌+◌, ◌-◌, ◌%◌, Bool, true, false, not, ◌&&◌, Option, none, some, List, length,
  get_elem?, set, ltb, ◌==◌, if◌then◌else◌,
}
use nexa_kernel.Base.Int.{ℤ, pos}
use nexa_kernel.Cstd.Memory.{byte_difference}

-- A byte that is written.
abbrev pub write : List ℕ → ℕ → ℕ → Option (List ℕ)
write m p c = if ltb p (length m) then some (set m p c) else none

-- `while (s[len]) len++`
pub strlen_from : ℕ → List ℕ → ℕ → ℕ → Option ℕ
strlen_from zero m s len = none
strlen_from (suc fuel) m s len = elim (get_elem? m (s + len)) [
  | none ↦ none
  | some c ↦ elim (c == 0) [ true ↦ some len | false ↦ strlen_from fuel m s (suc len) ]
]

pub strlen : List ℕ → ℕ → Option ℕ
unfolding strlen_from
strlen m s = strlen_from (suc (length m)) m s 0

-- `while (len < maxlen && s[len]) len++`, with `left` of `maxlen` to go.
pub strnlen_from : ℕ → List ℕ → ℕ → ℕ → Option ℕ
strnlen_from zero m s len = some len
strnlen_from (suc left) m s len = elim (get_elem? m (s + len)) [
  | none ↦ none
  | some c ↦ elim (c == 0) [ true ↦ some len | false ↦ strnlen_from left m s (suc len) ]
]

pub strnlen : List ℕ → ℕ → ℕ → Option ℕ
unfolding strnlen_from
strnlen m s maxlen = strnlen_from maxlen m s 0

-- `while ((*dst++ = *src++))`
pub copy_from : ℕ → List ℕ → ℕ → ℕ → Option (List ℕ)
copy_from zero m dst src = none
copy_from (suc fuel) m dst src = elim (get_elem? m src) [
  | none ↦ none
  | some c ↦ elim (write m dst c) [
    | none ↦ none
    | some m' ↦ elim (c == 0) [ true ↦ some m' | false ↦ copy_from fuel m' (suc dst) (suc src) ]
  ]
]

pub strcpy : List ℕ → ℕ → ℕ → Option (List ℕ)
strcpy m dst src = copy_from (suc (length m)) m dst src

-- `while (n > 0) { *dst++ = 0; n--; }`
pub pad : ℕ → List ℕ → ℕ → Option (List ℕ)
pad zero m dst = some m
pad (suc n) m dst = elim (write m dst 0) [ none ↦ none | some m' ↦ pad n m' (suc dst) ]

pub strncpy : List ℕ → ℕ → ℕ → ℕ → Option (List ℕ)
unfolding pad
strncpy m dst src zero = some m
strncpy m dst src (suc n) = elim (get_elem? m src) [
  | none ↦ none
  | some c ↦ elim (c == 0) [
    | true ↦ pad (suc n) m dst
    | false ↦ elim (write m dst c) [ none ↦ none | some m' ↦ strncpy m' (suc dst) (suc src) n ]
  ]
]

-- `while (*s1 && (*s1 == *s2))`, and the difference of the bytes behind it.
pub compare_from : ℕ → List ℕ → ℕ → ℕ → Option ℤ
compare_from zero m s1 s2 = none
compare_from (suc fuel) m s1 s2 = elim (get_elem? m s1) [
  | none ↦ none
  | some a ↦ elim (get_elem? m s2) [
    | none ↦ none
    | some b ↦ elim (not (a == 0) && a == b) [
      | true ↦ compare_from fuel m (suc s1) (suc s2)
      | false ↦ some (byte_difference a b)
    ]
  ]
]

pub strcmp : List ℕ → ℕ → ℕ → Option ℤ
strcmp m s1 s2 = compare_from (suc (length m)) m s1 s2

pub strncmp : List ℕ → ℕ → ℕ → ℕ → Option ℤ
strncmp m s1 s2 zero = some (pos 0)
strncmp m s1 s2 (suc n) = elim (get_elem? m s1) [
  | none ↦ none
  | some a ↦ elim (get_elem? m s2) [
    | none ↦ none
    | some b ↦ elim (not (a == 0) && a == b) [
      | true ↦ strncmp m (suc s1) (suc s2) n
      | false ↦ some (byte_difference a b)
    ]
  ]
]

-- `while (*dst) dst++`: the end of the string is as far on as it is long.
pub strcat : List ℕ → ℕ → ℕ → Option (List ℕ)
strcat m dst src = elim (strlen m dst) [ none ↦ none | some len ↦ strcpy m (dst + len) src ]

-- `while (n > 0 && *src)`, and the 0 behind it.
pub append_from : ℕ → List ℕ → ℕ → ℕ → Option (List ℕ)
append_from zero m dst src = write m dst 0
append_from (suc n) m dst src = elim (get_elem? m src) [
  | none ↦ none
  | some c ↦ elim (c == 0) [
    | true ↦ write m dst 0
    | false ↦ elim (write m dst c) [ none ↦ none | some m' ↦ append_from n m' (suc dst) (suc src) ]
  ]
]

pub strncat : List ℕ → ℕ → ℕ → ℕ → Option (List ℕ)
unfolding append_from
strncat m dst src n = elim (strlen m dst) [
  | none ↦ none
  | some len ↦ append_from n m (dst + len) src
]

-- The null pointer that `strchr`, `strrchr` and `strstr` return is `none` within `some`.
pub find_char : ℕ → List ℕ → ℕ → ℕ → Option (Option ℕ)
find_char zero m s c = none
find_char (suc fuel) m s c = elim (get_elem? m s) [
  | none ↦ none
  | some b ↦ elim (b == 0) [
    | true ↦ some (if c == 0 then some s else none)
    | false ↦ elim (b == c % 256) [ true ↦ some (some s) | false ↦ find_char fuel m (suc s) c ]
  ]
]

pub strchr : List ℕ → ℕ → ℕ → Option (Option ℕ)
unfolding find_char
strchr m s c = find_char (suc (length m)) m s c

pub find_last : ℕ → List ℕ → ℕ → ℕ → Option ℕ → Option (Option ℕ)
find_last zero m s c last = none
find_last (suc fuel) m s c last = elim (get_elem? m s) [
  | none ↦ none
  | some b ↦ elim (b == 0) [
    | true ↦ some (if c == 0 then some s else last)
    | false ↦ find_last fuel m (suc s) c (if b == c % 256 then some s else last)
  ]
]

pub strrchr : List ℕ → ℕ → ℕ → Option (Option ℕ)
unfolding find_last
strrchr m s c = find_last (suc (length m)) m s c none

-- `while (*h && *n && *h == *n)`: whether the needle has ended behind it.
pub match_from : ℕ → List ℕ → ℕ → ℕ → Option Bool
match_from zero m h n = none
match_from (suc fuel) m h n = elim (get_elem? m h) [
  | none ↦ none
  | some a ↦ elim (get_elem? m n) [
    | none ↦ none
    | some b ↦ elim (not (a == 0) && not (b == 0) && a == b) [
      | true ↦ match_from fuel m (suc h) (suc n)
      | false ↦ some (b == 0)
    ]
  ]
]

-- The loop over the haystack. The inner loop has the memory's length as fuel.
pub search_from : ℕ → List ℕ → ℕ → ℕ → Option (Option ℕ)
search_from zero m h n = none
search_from (suc fuel) m h n = elim (get_elem? m h) [
  | none ↦ none
  | some a ↦ elim (a == 0) [
    | true ↦ some none
    | false ↦ elim (match_from (suc (length m)) m h n) [
      | none ↦ none
      | some ended ↦ elim ended [ true ↦ some (some h) | false ↦ search_from fuel m (suc h) n ]
    ]
  ]
]

pub strstr : List ℕ → ℕ → ℕ → Option (Option ℕ)
strstr m haystack needle = elim (get_elem? m needle) [
  | none ↦ none
  | some b ↦ elim (b == 0) [
    | true ↦ some (some haystack)
    | false ↦ search_from (suc (length m)) m haystack needle
  ]
]
