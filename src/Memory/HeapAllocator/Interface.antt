-- ===== src/Memory/HeapAllocator/Interface.antt =====
-- heap_allocator.c as the `Allocator` that the other parts take.
use nexa_kernel.Base.{
  ℕ, zero, suc, ◌+◌, ◌-◌, ◌*◌, ◌/◌, ◌^◌, ◌≤◌, ◌<◌, ◌≡◌, ◌≢◌, refl, sym, ap, subst, not, ◌||◌,
  Option, none, some, List, [], ◌∷◌, arith, length, leb, ◌==◌, if◌then◌else◌, Bool-cases, ==_of_ne,
  ◌%◌, inl, inr, add_word,
}
use nexa_kernel.Allocator.{Allocator, Block}
use nexa_kernel.Memory.HeapAllocator.{
  Heap, Header, Headers, set_free, split_block, Search, corrupt, no_fit, fits, find_fit, request,
  take_block, finish, kmalloc, kfree, data_to_block,
}
use nexa_kernel.Memory.HeapAllocator.Linked.{put-same}
use nexa_kernel.Memory.HeapAllocator.Aligned.{load_word}

-- The block that the search finds is large enough.
find_fit-fits :
    (fuel : ℕ) (hs : Headers) (block need b : ℕ)
    → find_fit fuel hs block need ≡ fits b
    → need ≤ (hs b).size
unfolding find_fit
find_fit-fits zero hs block need b e = cc
find_fit-fits (suc fuel) hs block need b e =
    ground (arith, find_fit-fits fuel hs (hs block).next need b)

size-split_block :
    (hs : Headers) (b need : ℕ) → need ≤ (hs b).size → need ≤ (split_block hs b need b).size
unfolding split_block
size-split_block hs b need le = elim (Bool-cases (leb (hs b).size (add_word need 36))) [
  | inl whole ↦ simp whole le
  | inr parted ↦
      simp parted (subst (λ x. need ≤ Header.size x) (sym (put-same _ b _)) (omega arith))
]

size-take_block :
    (h : Heap) (b need : ℕ)
    → need ≤ (Heap.headers h b).size
    → need ≤ (Heap.headers (take_block h b need) b).size
unfolding take_block set_free
size-take_block h b need le =
    subst (λ x. need ≤ Header.size x) (sym (put-same (split_block h.headers b need) b _))
      (size-split_block h.headers b need le)

-- `n` words of the memory from `p` on.
pub words_at : (ℕ → ℕ) → ℕ → ℕ → List ℕ
words_at m p zero = []
words_at m p (suc n) = load_word m p ∷ words_at m (p + 4) n

length-words_at : (m : ℕ → ℕ) (p n : ℕ) → length (words_at m p n) ≡ n
unfolding words_at
length-words_at m p zero = refl
length-words_at m p (suc n) = ap suc (length-words_at m (p + 4) n)

-- The answer of `kmalloc` as a client sees it: the words that the block has room for. A panic is no
-- answer, and leaves the heap.
pub seen : Heap → Option (ℕ × Heap) → Option Block × Heap
seen h none = (none, h)
seen h (some (ptr, h')) = if ptr == 0 then (none, h') else (
  some (record {
    addr = ptr;
    words = words_at h'.bytes ptr ((Heap.headers h' (data_to_block ptr)).size / 4);
  }),
  h',
)

pub freed : Heap → Option Heap → Heap
freed h none = h
freed h (some h') = h'

block_of : Option Block → Block
block_of none = record { addr = 0; words = [] }
block_of (some b) = b

module _ (h h' : Heap) (bytes : ℕ) (b : Block) (small : bytes + 7 < 2 ^ 32) where
  finish-granted :
      (s : Search)
      → find_fit h.heap_size h.headers h.first_block (request bytes) ≡ s
      → seen h (finish h (request bytes) s) ≡ (some b, h')
      → (b.addr ≢ 0) × (bytes ≤ 4 * length b.words)
  unfolding seen finish block_of
  finish-granted corrupt found e = cc
  finish-granted no_fit found e = cc (ap (λ r. r.0) e)
  finish-granted (fits p) found e =
      let room =
        size-take_block h p (request bytes)
          (find_fit-fits h.heap_size h.headers h.first_block (request bytes) p found) in
      let here : p + 20 - 20 ≡ p = omega arith in
      let same = ap (λ r. block_of r.0) (simp (==_of_ne (p + 20) 0 (omega arith), here) at e) in
      let large : bytes ≤ request bytes = ground (arith, small) in
      let whole : request bytes % 8 ≡ 0 = ground (arith, small) in
      (
        omega (arith, ap (λ x. Block.addr x) same),
        omega (
          arith,
          room,
          large,
          whole,
          ap (λ x. length (Block.words x)) same,
          length-words_at (Heap.bytes (take_block h p (request bytes))) (p + 20)
              ((Heap.headers (take_block h p (request bytes)) p).size / 4),
        ),
      )

  -- A block that is granted for a request that does not wrap does not lie at 0, and has room for it.
  pub kmalloc-granted :
      seen h (kmalloc h bytes) ≡ (some b, h') → (b.addr ≢ 0) × (bytes ≤ 4 * length b.words)
  unfolding kmalloc seen
  kmalloc-granted e = elim (Bool-cases (not h.heap_initialized || bytes == 0)) [
    | inl refused ↦ cc (ap (λ r. r.0) (simp refused at e))
    | inr asked ↦
        finish-granted (find_fit h.heap_size h.headers h.first_block (request bytes)) refl
          (simp asked at e)
  ]

-- The kernel's heap, for the parts that take an `Allocator`.
abbrev pub kernel_heap : Allocator
kernel_heap = record {
  Heap = Heap;
  kmalloc = λ h bytes. seen h (kmalloc h bytes);
  kfree = λ h ptr. freed h (kfree h ptr);
  granted = λ h h' bytes b small e. kmalloc-granted h h' bytes b small e;
}
