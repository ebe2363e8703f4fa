-- ===== src/Dsa/DoublyLinked/Tests.antt =====
-- Runs of list.c, and the theorems at a concrete list.
use nexa_kernel.Base.{◌≡◌, refl, [], ◌∷◌, arith, ◌==◌, if◌then◌else◌}
use nexa_kernel.Dsa.DoublyLinked.{Nodes, Linked, list_push_back, list_pop_front, list_remove}
use nexa_kernel.Dsa.DoublyLinked.Chain.{Holds}
use nexa_kernel.Dsa.DoublyLinked.Remove.{list_remove-Holds}
use nexa_kernel.Dsa.DoublyLinked.Ends.{list_pop_front-Holds, list_push_back-Holds}

-- The nodes 8, 16 and 24, in this order.
abbrev three_links : Nodes
three_links y =
    if y == 8
    then record { next = 16; prev = 0 }
    else if y == 16
    then record { next = 24; prev = 8 }
    else record { next = 0; prev = 16 }

abbrev three_nodes : Linked
three_nodes = record { nodes = three_links; head = 8; tail = 24; size = 3 }

three_nodes-Holds : Holds three_nodes (8 ∷ 16 ∷ 24 ∷ [])
three_nodes-Holds = record {
  front = refl;
  chain = (omega arith, refl, (omega arith, refl, (omega arith, refl, refl)));
  distinct = ((omega arith, (omega arith, refl)), ((omega arith, refl), (refl, refl)));
  counted = refl;
}

list_remove-Holds_example : Holds (list_remove three_nodes 16) (8 ∷ 24 ∷ [])
list_remove-Holds_example =
    list_remove-Holds three_nodes (8 ∷ []) 16 (24 ∷ []) three_nodes-Holds (omega arith)

list_push_back-Holds_example : Holds (list_push_back three_nodes 32) (8 ∷ 16 ∷ 24 ∷ 32 ∷ [])
list_push_back-Holds_example =
    list_push_back-Holds three_nodes (8 ∷ 16 ∷ 24 ∷ []) 32 three_nodes-Holds (omega arith)
      (omega arith, (omega arith, (omega arith, refl))) (omega arith)

list_pop_front-Holds_example :
    ((list_pop_front three_nodes).0 ≡ 8) × Holds (list_pop_front three_nodes).1 (16 ∷ 24 ∷ [])
list_pop_front-Holds_example =
    list_pop_front-Holds three_nodes 8 (16 ∷ 24 ∷ []) three_nodes-Holds (omega arith)
