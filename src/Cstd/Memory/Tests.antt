-- ===== src/Cstd/Memory/Tests.antt =====
-- Runs of lib/cstd/memory.c on a memory of eight bytes.
use nexa_kernel.Base.{
  ℕ, ◌+◌, ◌-◌, ◌≡◌, refl, ◌&&◌, List, [], ◌∷◌, arith, get_or, ltb, leb, if◌then◌else◌,
}
use nexa_kernel.Cstd.Memory.{memmove, copy_forward, copy_backward}
use nexa_kernel.Cstd.Memory.Copy.{memmove_lem}

abbrev eight : List ℕ
eight = 1 ∷ 2 ∷ 3 ∷ 4 ∷ 5 ∷ 6 ∷ 7 ∷ 8 ∷ []

overlapping : memmove eight 2 0 4 ≡ 1 ∷ 2 ∷ 1 ∷ 2 ∷ 3 ∷ 4 ∷ 7 ∷ 8 ∷ []
unfolding memmove copy_forward copy_backward
overlapping = refl

memmove_lem_example :
    get_or (memmove eight 2 0 4) 4 0
    ≡ (if leb 2 4 && ltb 4 (2 + 4) then get_or eight (0 + (4 - 2)) 0 else get_or eight 4 0)
memmove_lem_example = memmove_lem eight 2 0 4 4 (omega arith)
