-- ===== src/Dsa/DoublyLinked/Remove.antt =====
-- `list_remove` of list.c.
use nexa_kernel.Base.{
  ℕ, ◌^◌, ◌<◌, ◌≡◌, ◌≢◌, refl, sym, ap, subst, ◌∙◌, List, [], ◌∷◌, ◌++◌, arith, length,
  length-append, ◌==◌, ==_of_ne, if◌then◌else◌, sub_word,
}
use nexa_kernel.Dsa.DoublyLinked.{Node, Nodes, Linked, put, link_next, link_prev, list_remove}
use nexa_kernel.Dsa.DoublyLinked.Chain.{
  first, IsChain, IsAbsent, IsDistinct, Holds, put-other, link_next-same, link_prev-same,
  link_next-other, link_prev-other, IsChain-kept, with_prev,
}

-- The last of the nodes, or the one before them.
abbrev pub last_or : ℕ → List ℕ → ℕ
last_or p [] = p
last_or p (x ∷ xs) = last_or x xs

abbrev pub no_links : Node
no_links = record { next = 0; prev = 0 }

abbrev with_next : ℕ → Node → Node
with_next p n = record n { next = p }

-- What `list_remove` writes to the nodes.
abbrev unlink : Nodes → ℕ → ℕ → ℕ → Nodes
unlink ns before after x = put (link_prev (link_next ns before after) after before) x no_links

-- The end of the chain then.
abbrev end_of : ℕ → ℕ → ℕ → ℕ
end_of tail before after = if after == 0 then before else tail

pub append-IsAbsent :
    (y : ℕ) (xs ys : List ℕ) (x : ℕ)
    → IsAbsent y (xs ++ (x ∷ ys))
    → IsAbsent y xs × (y ≢ x) × IsAbsent y ys
append-IsAbsent y [] ys x out = (refl, out.0, out.1)
append-IsAbsent y (z ∷ xs) ys x out =
    let (before, here, behind) = append-IsAbsent y xs ys x out.1 in ((out.0, before), here, behind)

pub absent_last : (y z : ℕ) (xs : List ℕ) → y ≢ z → IsAbsent y xs → y ≢ last_or z xs
absent_last y z [] ne out = ne
absent_last y z (x ∷ xs) ne out = absent_last y x xs out.0 out.1

pub absent_first : (y : ℕ) (xs : List ℕ) → y ≢ 0 → IsAbsent y xs → y ≢ first xs
absent_first y [] given out = given
absent_first y (x ∷ xs) given out = out.0

unlink-other :
    (ns : Nodes) (before after x y : ℕ)
    → y ≢ before
    → y ≢ after
    → y ≢ x
    → unlink ns before after x y ≡ ns y
unlink-other ns before after x y ne1 ne2 ne3 =
    put-other _ x y no_links ne3
    ∙ link_prev-other (link_next ns before after) after before y ne2
    ∙ link_next-other ns before after y ne1

end_of-there : (tail before after : ℕ) → after ≢ 0 → tail ≡ end_of tail before after
end_of-there tail before after given = simp (==_of_ne after 0 given) refl

-- The chain behind the node that is taken out.
unlink-behind :
    (ns : Nodes) (tail p x : ℕ) (bs : List ℕ)
    → IsAbsent p (x ∷ bs)
    → IsDistinct (x ∷ bs)
    → IsChain ns tail p (x ∷ bs)
    → IsChain (unlink ns p (first bs) x) (end_of tail p (first bs)) p bs
unlink-behind ns tail p x [] out apart c = refl
unlink-behind ns tail p x (b ∷ bs) out apart c =
    let ns1 : Nodes = link_next ns p b in
    let ns2 : Nodes = link_prev ns1 b p in
    let before : IsChain ns tail b bs = c.2.2 in
    subst (λ e. IsChain (unlink ns p b x) e p (b ∷ bs)) (end_of-there tail p b c.2.0)
      (
        c.2.0,
        put-other ns2 x b no_links (λ e. apart.0.0 (sym e))
            ∙ link_prev-same ns1 b p c.2.0
            ∙ ap (λ n. with_prev p n) (link_next-other ns p b b (λ e. out.1.0 (sym e)) ∙ c.2.1),
        IsChain-kept ns2 (unlink ns p b x) tail b x bs (λ y ne. put-other ns2 x y no_links ne)
            apart.0.1
            (IsChain-kept ns1 ns2 tail b b bs (λ y ne. link_prev-other ns1 b p y ne) apart.1.0
              (IsChain-kept ns ns1 tail b p bs (λ y ne. link_next-other ns p b y ne) out.1.1
                before)),
      )

unlink-IsChain :
    (ns : Nodes) (tail p x : ℕ) (us bs : List ℕ)
    → IsAbsent p (us ++ (x ∷ bs))
    → IsDistinct (us ++ (x ∷ bs))
    → IsChain ns tail p (us ++ (x ∷ bs))
    → IsChain
        (unlink ns (last_or p us) (first bs) x)
        (end_of tail (last_or p us) (first bs))
        p
        (us ++ bs)
unlink-IsChain ns tail p x [] bs out apart c = unlink-behind ns tail p x bs out apart c
unlink-IsChain ns tail p x (u ∷ []) bs out apart c =
    let ns1 : Nodes = link_next ns u (first bs) in
    let ns2 : Nodes = link_prev ns1 (first bs) u in
    (
      c.0,
      put-other ns2 x u no_links apart.0.0
          ∙ link_prev-other ns1 (first bs) u u (absent_first u bs c.0 apart.0.1)
          ∙ link_next-same ns u (first bs) c.0
          ∙ ap (λ n. with_next (first bs) n) c.1,
      unlink-behind ns tail u x bs apart.0 apart.1 c.2,
    )
unlink-IsChain ns tail p x (u ∷ u' ∷ us) bs out apart c =
    let rest = unlink-IsChain ns tail u x (u' ∷ us) bs apart.0 apart.1 c.2 in
    let (before, here, behind) = append-IsAbsent u (u' ∷ us) bs x apart.0 in
    (
      c.0,
      unlink-other ns (last_or u' us) (first bs) x u (absent_last u u' us before.0 before.1)
            (absent_first u bs c.0 behind) here
          ∙ c.1,
      rest,
    )

-- The links of a node in the chain.
links-at :
    (ns : Nodes) (tail p x : ℕ) (us bs : List ℕ)
    → IsChain ns tail p (us ++ (x ∷ bs))
    → (x ≢ 0) × (ns x ≡ record { next = first bs; prev = last_or p us })
links-at ns tail p x [] bs c = (c.0, c.1)
links-at ns tail p x (u ∷ us) bs c = links-at ns tail u x us bs c.2

IsAbsent-null : (ns : Nodes) (tail p : ℕ) (xs : List ℕ) → IsChain ns tail p xs → IsAbsent 0 xs
IsAbsent-null ns tail p [] c = refl
IsAbsent-null ns tail p (x ∷ xs) c = (λ e. c.0 (sym e), IsAbsent-null ns tail x xs c.2)

IsAbsent-without : (y x : ℕ) (us bs : List ℕ) → IsAbsent y (us ++ (x ∷ bs)) → IsAbsent y (us ++ bs)
IsAbsent-without y x [] bs out = out.1
IsAbsent-without y x (u ∷ us) bs out = (out.0, IsAbsent-without y x us bs out.1)

IsDistinct-without : (x : ℕ) (us bs : List ℕ) → IsDistinct (us ++ (x ∷ bs)) → IsDistinct (us ++ bs)
IsDistinct-without x [] bs d = d.1
IsDistinct-without x (u ∷ us) bs d =
    (IsAbsent-without u x us bs d.0, IsDistinct-without x us bs d.1)

last_or-there :
    (ns : Nodes) (tail p x : ℕ) (us bs : List ℕ)
    → IsChain ns tail p (us ++ (x ∷ bs))
    → p ≢ 0
    → last_or p us ≢ 0
last_or-there ns tail p x [] bs c given = given
last_or-there ns tail p x (u ∷ us) bs c given = last_or-there ns tail u x us bs c.2 c.0

last_or-other : (p x : ℕ) (us bs : List ℕ) → IsDistinct (us ++ (x ∷ bs)) → x ≢ p → x ≢ last_or p us
last_or-other p x [] bs apart ne = ne
last_or-other p x (u ∷ us) bs apart ne =
    last_or-other u x us bs apart.1 (λ e. (append-IsAbsent u us bs x apart.0).1 (sym e))

first-without :
    (x head : ℕ) (us bs : List ℕ) (ns : Nodes) (tail : ℕ)
    → IsChain ns tail 0 (us ++ (x ∷ bs))
    → head ≡ first (us ++ (x ∷ bs))
    → (if last_or 0 us == 0 then first bs else head) ≡ first (us ++ bs)
first-without x head [] bs ns tail c e = refl
first-without x head (u ∷ us) bs ns tail c e =
    simp (==_of_ne (last_or u us) 0 (last_or-there ns tail u x us bs c.2 c.0)) e

module _ (l : Linked) (us : List ℕ) (x : ℕ) (bs : List ℕ) (v : Holds l (us ++ (x ∷ bs))) where
  abbrev before : ℕ
  before = last_or 0 us

  abbrev after : ℕ
  after = first bs

  abbrev removed : Linked
  removed = record {
    nodes = unlink l.nodes before after x;
    head = if before == 0 then after else l.head;
    tail = end_of l.tail before after;
    size = sub_word l.size 1;
  }

  links : (x ≢ 0) × (l.nodes x ≡ record { next = after; prev = before })
  links = links-at l.nodes l.tail 0 x us bs v.chain

  read : link_next l.nodes before after x ≡ record { next = after; prev = before }
  read =
      link_next-other l.nodes before after x (last_or-other 0 x us bs v.distinct links.0) ∙ links.1

  list_remove-unlink : list_remove l x ≡ removed
  unfolding list_remove
  list_remove-unlink = simp (==_of_ne x 0 links.0, links.1, read) refl

  -- A node of the list is taken out: the list holds the others, in their order.
  pub list_remove-Holds : length (us ++ (x ∷ bs)) < 2 ^ 32 → Holds (list_remove l x) (us ++ bs)
  list_remove-Holds small =
      subst (λ r. Holds r (us ++ bs)) (sym list_remove-unlink)
        (record {
          front = first-without x l.head us bs l.nodes l.tail v.chain v.front;
          chain =
              unlink-IsChain l.nodes l.tail 0 x us bs
                (IsAbsent-null l.nodes l.tail 0 (us ++ (x ∷ bs)) v.chain) v.distinct v.chain;
          distinct = IsDistinct-without x us bs v.distinct;
          counted = omega (arith, v.counted, small, length-append us (x ∷ bs), length-append us bs);
        })
