-- ===== src/Dsa/DoublyLinked/Ends.antt =====
-- `list_pop_front` and `list_push_back` of list.c.
use nexa_kernel.Base.{
  ℕ, suc, ◌^◌, ◌<◌, ◌≡◌, ◌≢◌, refl, sym, ap, subst, ◌∙◌, List, [], ◌∷◌, ◌++◌, arith, length,
  length-append, ◌==◌, ==_of_ne, if◌then◌else◌,
}
use nexa_kernel.Dsa.DoublyLinked.{
  Node, Nodes, Linked, put, link_next, link_prev, list_pop_front, list_push_back,
}
use nexa_kernel.Dsa.DoublyLinked.Chain.{
  first, IsChain, IsAbsent, IsDistinct, Holds, put-same, put-other, link_next-same, link_prev-same,
  link_next-other, link_prev-other, IsChain-kept, with_prev,
}
use nexa_kernel.Dsa.DoublyLinked.Remove.{last_or, no_links, absent_last}

-- The first node is taken off a list: it is the answer, and the list holds the others.
pub list_pop_front-Holds :
    (l : Linked) (x : ℕ) (xs : List ℕ)
    → Holds l (x ∷ xs)
    → suc (length xs) < 2 ^ 32
    → ((list_pop_front l).0 ≡ x) × Holds (list_pop_front l).1 xs
unfolding list_pop_front
list_pop_front-Holds l x [] v small =
    simp (v.front, ==_of_ne x 0 v.chain.0, v.chain.1)
      (
        refl,
        record { front = refl; chain = refl; distinct = refl; counted = omega (arith, v.counted) },
      )
list_pop_front-Holds l x (y ∷ ys) v small =
    let ns1 : Nodes = link_prev l.nodes y 0 in
    let there = v.chain.2.0 in
    simp (v.front, ==_of_ne x 0 v.chain.0, v.chain.1, ==_of_ne y 0 there)
      (
        refl,
        record {
          front = refl;
          chain = (
            there,
            put-other ns1 x y no_links (λ e. v.distinct.0.0 (sym e))
                ∙ link_prev-same l.nodes y 0 there
                ∙ ap (with_prev 0) v.chain.2.1,
            IsChain-kept ns1 (put ns1 x no_links) l.tail y x ys
                (λ z ne. put-other ns1 x z no_links ne) v.distinct.0.1
                (IsChain-kept l.nodes ns1 l.tail y y ys (λ z ne. link_prev-other l.nodes y 0 z ne)
                  v.distinct.1.0 v.chain.2.2),
          );
          distinct = v.distinct.1;
          counted = omega (arith, v.counted, small);
        },
      )

-- The end of a chain is its last node.
tail-last : (ns : Nodes) (tail p : ℕ) (xs : List ℕ) → IsChain ns tail p xs → tail ≡ last_or p xs
tail-last ns tail p [] c = c
tail-last ns tail p (x ∷ xs) c = tail-last ns tail x xs c.2

-- The nodes once `x` is behind the last of them.
abbrev pushed : Nodes → ℕ → ℕ → Nodes
pushed ns last x = link_next (put ns x (record { next = 0; prev = last })) last x

pushed-other : (ns : Nodes) (last x y : ℕ) → y ≢ last → y ≢ x → pushed ns last x y ≡ ns y
pushed-other ns last x y ne1 ne2 = link_next-other _ last x y ne1 ∙ put-other ns x y _ ne2

pushed-IsChain :
    (ns : Nodes) (tail p x : ℕ) (xs : List ℕ)
    → x ≢ 0
    → x ≢ p
    → IsAbsent x xs
    → IsDistinct xs
    → IsChain ns tail p xs
    → IsChain (pushed ns (last_or p xs) x) x p (xs ++ (x ∷ []))
pushed-IsChain ns tail p x [] given ne out apart c =
    (given, link_next-other _ p x x ne ∙ put-same ns x _, refl)
pushed-IsChain ns tail p x (y ∷ []) given ne out apart c = (
  c.0,
  link_next-same _ y x c.0
      ∙ ap (λ n. with_next x n) (put-other ns x y _ (λ e. out.0 (sym e)) ∙ c.1),
  (given, link_next-other _ y x x out.0 ∙ put-same ns x _, refl),
)
  where
    with_next : ℕ → Node → Node
    with_next v n = record n { next = v }
pushed-IsChain ns tail p x (y ∷ z ∷ zs) given ne out apart c = (
  c.0,
  pushed-other ns (last_or z zs) x y (absent_last y z zs apart.0.0 apart.0.1) (λ e. out.0 (sym e))
      ∙ c.1,
  pushed-IsChain ns tail y x (z ∷ zs) given out.0 out.1 apart.1 c.2,
)

IsDistinct-pushed :
    (x : ℕ) (xs : List ℕ) → IsAbsent x xs → IsDistinct xs → IsDistinct (xs ++ (x ∷ []))
IsDistinct-pushed x [] out d = (refl, refl)
IsDistinct-pushed x (y ∷ ys) out d =
    (IsAbsent-pushed y ys (λ e. out.0 (sym e)) d.0, IsDistinct-pushed x ys out.1 d.1)
  where
    IsAbsent-pushed : (z : ℕ) (zs : List ℕ) → z ≢ x → IsAbsent z zs → IsAbsent z (zs ++ (x ∷ []))
    IsAbsent-pushed z [] ne o = (ne, refl)
    IsAbsent-pushed z (w ∷ ws) ne o = (o.0, IsAbsent-pushed z ws ne o.1)

tail-there : (ns : Nodes) (tail p : ℕ) (xs : List ℕ) → IsChain ns tail p xs → p ≢ 0 → tail ≢ 0
tail-there ns tail p [] c given e = given (sym c ∙ e)
tail-there ns tail p (x ∷ xs) c given e = tail-there ns tail x xs c.2 c.0 e

push_back-first :
    (l : Linked) (xs : List ℕ) (x : ℕ)
    → Holds l xs
    → (if l.tail == 0 then x else l.head) ≡ first (xs ++ (x ∷ []))
push_back-first l [] x v = let empty : l.tail ≡ 0 = v.chain in simp empty refl
push_back-first l (y ∷ ys) x v =
    simp (==_of_ne l.tail 0 (tail-there l.nodes l.tail y ys v.chain.2 v.chain.0)) v.front

-- A node that is not in the list comes to its end.
pub list_push_back-Holds :
    (l : Linked) (xs : List ℕ) (x : ℕ)
    → Holds l xs
    → x ≢ 0
    → IsAbsent x xs
    → suc (length xs) < 2 ^ 32
    → Holds (list_push_back l x) (xs ++ (x ∷ []))
unfolding list_push_back
list_push_back-Holds l xs x v given out small = simp (==_of_ne x 0 given) (record {
  front = push_back-first l xs x v;
  chain =
      subst (λ t. IsChain (pushed l.nodes t x) x 0 (xs ++ (x ∷ [])))
        (sym (tail-last l.nodes l.tail 0 xs v.chain))
        (pushed-IsChain l.nodes l.tail 0 x xs given given out v.distinct v.chain);
  distinct = IsDistinct-pushed x xs out v.distinct;
  counted = omega (arith, v.counted, small, length-append xs (x ∷ []));
})
