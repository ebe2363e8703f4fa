-- ===== src/Dsa/DoublyLinked.antt =====
-- lib/dsa/list.c, the intrusive doubly linked list. A node is an address, 0 for NULL; the links of all
-- nodes are a function of the address. The list pointer is not null.
pub mod Chain
pub mod Remove
pub mod Ends
mod Tests
use nexa_kernel.Base.{ℕ, ◌==◌, Bool, true, false, if◌then◌else◌, ◌||◌, add_word, sub_word}

-- `list_node_t`
pub record Node : Type 0 where
  pub next : ℕ
  pub prev : ℕ

abbrev pub Nodes : Type 0
Nodes = ℕ → Node

-- `list_t`, with the nodes.
pub record Linked : Type 0 where
  pub nodes : Nodes
  pub head : ℕ
  pub tail : ℕ
  pub size : ℕ

pub put : Nodes → ℕ → Node → Nodes
put ns p x y = if y == p then x else ns y

-- `if (p) p->next = v`, and the same for `prev`.
pub link_next : Nodes → ℕ → ℕ → Nodes
link_next ns p v = if p == 0 then ns else put ns p (record (ns p) { next = v })

pub link_prev : Nodes → ℕ → ℕ → Nodes
link_prev ns p v = if p == 0 then ns else put ns p (record (ns p) { prev = v })

pub list_init : Linked → Linked
list_init l = record l { head = 0; tail = 0; size = 0 }

pub list_node_init : Nodes → ℕ → Nodes
list_node_init ns node = if node == 0 then ns else put ns node (record { next = 0; prev = 0 })

pub list_is_empty : Linked → Bool
list_is_empty l = l.size == 0

pub list_size : Linked → ℕ
list_size l = l.size

pub list_push_front : Linked → ℕ → Linked
list_push_front l node = if node == 0 then l else record {
  nodes = link_prev (put l.nodes node (record { next = l.head; prev = 0 })) l.head node;
  head = node;
  tail = if l.head == 0 then node else l.tail;
  size = add_word l.size 1;
}

pub list_push_back : Linked → ℕ → Linked
list_push_back l node = if node == 0 then l else record {
  nodes = link_next (put l.nodes node (record { next = 0; prev = l.tail })) l.tail node;
  head = if l.tail == 0 then node else l.head;
  tail = node;
  size = add_word l.size 1;
}

-- The node behind `after` is read before it is written.
pub list_insert_after : Linked → ℕ → ℕ → Linked
list_insert_after l after node =
    if after == 0 || node == 0
    then l
    else let ns = put l.nodes node (record { next = (Linked.nodes l after).next; prev = after }) in
      let linked = link_prev ns (ns after).next node in
      record l {
        nodes = put linked after (record (linked after) { next = node });
        tail = if (ns after).next == 0 then node else l.tail;
        size = add_word l.size 1;
      }

pub list_insert_before : Linked → ℕ → ℕ → Linked
list_insert_before l before node =
    if before == 0 || node == 0
    then l
    else let ns =
        put l.nodes node (record { next = before; prev = (Linked.nodes l before).prev }) in
      let linked = link_next ns (ns before).prev node in
      record l {
        nodes = put linked before (record (linked before) { prev = node });
        head = if (ns before).prev == 0 then node else l.head;
        size = add_word l.size 1;
      }

-- The result is the node, or null.
pub list_pop_front : Linked → ℕ × Linked
list_pop_front l =
    if l.head == 0
    then (0, l)
    else let next : ℕ = (Linked.nodes l l.head).next in
      (
        l.head,
        record {
          nodes = put (link_prev l.nodes next 0) l.head (record { next = 0; prev = 0 });
          head = next;
          tail = if next == 0 then 0 else l.tail;
          size = sub_word l.size 1;
        },
      )

pub list_pop_back : Linked → ℕ × Linked
list_pop_back l =
    if l.tail == 0
    then (0, l)
    else let prev : ℕ = (Linked.nodes l l.tail).prev in
      (
        l.tail,
        record {
          nodes = put (link_next l.nodes prev 0) l.tail (record { next = 0; prev = 0 });
          head = if prev == 0 then 0 else l.head;
          tail = prev;
          size = sub_word l.size 1;
        },
      )

pub list_remove : Linked → ℕ → Linked
list_remove l node =
    if node == 0
    then l
    else let before : ℕ = (Linked.nodes l node).prev in
      let ns = link_next l.nodes before (Linked.nodes l node).next in
      let after : ℕ = (ns node).next in
      record {
        nodes = put (link_prev ns after (ns node).prev) node (record { next = 0; prev = 0 });
        head = if before == 0 then (Linked.nodes l node).next else l.head;
        tail = if after == 0 then (ns node).prev else l.tail;
        size = sub_word l.size 1;
      }
