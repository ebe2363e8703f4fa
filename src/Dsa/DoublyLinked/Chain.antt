-- ===== src/Dsa/DoublyLinked/Chain.antt =====
-- The links of list.c that stand for a list of nodes, and a push.
use nexa_kernel.Base.{
  ℕ, zero, suc, ◌^◌, ◌<◌, ◌≡◌, ◌≢◌, refl, sym, ap, ◌∙◌, List, [], ◌∷◌, arith, length, ◌==◌, ==_iff,
  ==_of_ne, Bool-cases, inl, inr,
}
use nexa_kernel.Dsa.DoublyLinked.{Node, Nodes, Linked, put, link_next, link_prev, list_push_front}

abbrev pub first : List ℕ → ℕ
first [] = 0
first (x ∷ xs) = x

-- The nodes are linked both ways; `prev` stands before them, and `tail` is the last.
abbrev pub IsChain : Nodes → ℕ → ℕ → List ℕ → Type 0
IsChain ns tail prev [] = tail ≡ prev
IsChain ns tail prev (x ∷ xs) =
    (x ≢ 0) × (ns x ≡ record { next = first xs; prev = prev }) × IsChain ns tail x xs

abbrev pub IsAbsent : ℕ → List ℕ → Type 0
IsAbsent y [] = y ≡ y
IsAbsent y (x ∷ xs) = (y ≢ x) × IsAbsent y xs

abbrev pub IsDistinct : List ℕ → Type 0
IsDistinct [] = 0 ≡ zero
IsDistinct (x ∷ xs) = IsAbsent x xs × IsDistinct xs

-- The list holds the nodes, each once.
pub record Holds (l : Linked) (xs : List ℕ) : Type 0 where
  pub front : l.head ≡ first xs
  pub chain : IsChain l.nodes l.tail 0 xs
  pub distinct : IsDistinct xs
  pub counted : l.size ≡ length xs

pub put-same : (ns : Nodes) (p : ℕ) (x : Node) → put ns p x p ≡ x
unfolding put
put-same ns p x = simp ((==_iff p p).1 refl) refl

pub put-other : (ns : Nodes) (p y : ℕ) (x : Node) → y ≢ p → put ns p x y ≡ ns y
unfolding put
put-other ns p y x ne = simp (==_of_ne y p ne) refl

pub link_next-same :
    (ns : Nodes) (p v : ℕ) → p ≢ 0 → link_next ns p v p ≡ record { next = v; prev = (ns p).prev }
unfolding link_next
link_next-same ns p v given = simp (==_of_ne p 0 given) (put-same ns p _)

pub link_prev-same :
    (ns : Nodes) (p v : ℕ) → p ≢ 0 → link_prev ns p v p ≡ record { next = (ns p).next; prev = v }
unfolding link_prev
link_prev-same ns p v given = simp (==_of_ne p 0 given) (put-same ns p _)

pub link_next-other : (ns : Nodes) (p v y : ℕ) → y ≢ p → link_next ns p v y ≡ ns y
unfolding link_next
link_next-other ns p v y ne = elim (Bool-cases (p == 0)) [
  | inl null ↦ simp null refl
  | inr there ↦ simp there (put-other ns p y _ ne)
]

pub link_prev-other : (ns : Nodes) (p v y : ℕ) → y ≢ p → link_prev ns p v y ≡ ns y
unfolding link_prev
link_prev-other ns p v y ne = elim (Bool-cases (p == 0)) [
  | inl null ↦ simp null refl
  | inr there ↦ simp there (put-other ns p y _ ne)
]

abbrev pub with_prev : ℕ → Node → Node
with_prev p n = record n { prev = p }

-- A change at a node outside the chain does not count.
pub IsChain-kept :
    (ns ns' : Nodes) (tail prev z : ℕ) (xs : List ℕ)
    → ((y : ℕ) → y ≢ z → ns' y ≡ ns y)
    → IsAbsent z xs
    → IsChain ns tail prev xs
    → IsChain ns' tail prev xs
IsChain-kept ns ns' tail prev z [] same out c = c
IsChain-kept ns ns' tail prev z (x ∷ xs) same out c =
    (c.0, same x (λ e. out.0 (sym e)) ∙ c.1, IsChain-kept ns ns' tail x z xs same out.1 c.2)

-- A node that is not in the list comes to its front.
pub list_push_front-Holds :
    (l : Linked) (xs : List ℕ) (x : ℕ)
    → Holds l xs
    → x ≢ 0
    → IsAbsent x xs
    → suc (length xs) < 2 ^ 32
    → Holds (list_push_front l x) (x ∷ xs)
unfolding list_push_front
list_push_front-Holds l [] x v given out small =
    simp (==_of_ne x 0 given, v.front)
      (record {
        front = refl;
        chain = (given, link_prev-other _ 0 x x given ∙ put-same l.nodes x _, refl);
        distinct = (refl, refl);
        counted = omega (arith, v.counted);
      })
list_push_front-Holds l (y ∷ ys) x v given out small =
    let ns1 : Nodes = put l.nodes x (record { next = y; prev = 0 }) in
    simp (==_of_ne x 0 given, v.front, ==_of_ne y 0 v.chain.0)
      (record {
        front = refl;
        chain = (
          given,
          link_prev-other ns1 y x x out.0 ∙ put-same l.nodes x _,
          (
            v.chain.0,
            link_prev-same ns1 y x v.chain.0
                ∙ ap (with_prev x) (put-other l.nodes x y _ (λ e. out.0 (sym e)) ∙ v.chain.1),
            IsChain-kept ns1 (link_prev ns1 y x) l.tail y y ys
                (λ z ne. link_prev-other ns1 y x z ne) v.distinct.0
                (IsChain-kept l.nodes ns1 l.tail y x ys (λ z ne. put-other l.nodes x z _ ne) out.1
                  v.chain.2),
          ),
        );
        distinct = (out, v.distinct);
        counted = omega (arith, v.counted, small);
      })
