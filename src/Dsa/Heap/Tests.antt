-- ===== src/Dsa/Heap/Tests.antt =====
-- A run of lib/dsa/heap.c on addresses in their own order.
use nexa_kernel.Base.{ℕ, ◌≡◌, refl, [], ◌∷◌, ltb, if◌then◌else◌}
use nexa_kernel.Base.Int.{ℤ, pos, negsuc}
use nexa_kernel.Dsa.Heap.{Heap, heap_insert, heap_extract, climb, sink, choose, swap}

abbrev by_address : ℕ → ℕ → ℤ
by_address a b = if ltb a b then negsuc 0 else pos 0

abbrev three : Heap
three = record { buffer = 64; cells = 10 ∷ 30 ∷ 20 ∷ 0 ∷ []; capacity = 4; size = 3 }

extract_after_insert : (heap_extract by_address (heap_insert by_address three 5).1).0 ≡ 5
unfolding heap_insert heap_extract climb sink choose swap
extract_after_insert = refl
