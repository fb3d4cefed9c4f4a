-- ===== src/NvList/Tests.antt =====
-- src/nvlist.h at concrete lists: sentinel at address 1, nodes from address 2 on.
use netvizd.Common.{ℕ, ◌≡◌, refl, true, false, [], ◌∷◌, arith}
use netvizd.NvList.{
  Ptr, Heap, update, done, Action, ◌>>◌, node_new, set_node_data, list_insert, list_append,
  list_del, list_for_each, list_clear,
}
use netvizd.NvList.Ring.{Ends, ends, IsNode, IsRing}
use netvizd.NvList.Insert.{Inserted, append-Inserted}
use netvizd.NvList.Delete.{Deleted, del-Deleted}
use netvizd.NvList.Traverse.{Cleared, for_each-nodes, clear-Cleared}

abbrev blank : Heap
blank = record { live = λ _. false; next = λ _. 0; prev = λ _. 0; payload = λ _. 0 }

new_item : Ptr → Ptr → Action (Unit {0})
new_item n d = do node_new n; set_node_data n d; list_append 1 n

-- Three appends, a deletion in the middle, and a traversal.
session_nodes :
    Ends
      (λ ns _. ns ≡ 2 ∷ 4 ∷ [])
      ((do node_new 1; new_item 2 12; new_item 3 13; new_item 4 14; list_del 3; list_for_each 3 1)
        blank)
unfolding new_item node_new set_node_data list_append list_insert list_del list_for_each
session_nodes = ends refl

abbrev cell : Ptr → ℕ → ℕ → ℕ → Heap → Heap
cell p n q d h = record {
  live = update h.live p true;
  next = update h.next p n;
  prev = update h.prev p q;
  payload = update h.payload p d;
}

-- The list of the nodes 2 and 3; node 4 is allocated and in no list.
abbrev two : Heap
two = cell 4 0 0 14 (cell 3 1 2 13 (cell 2 3 1 12 (cell 1 2 3 0 blank)))

two-IsRing : IsRing two 1 (2 ∷ 3 ∷ [])
two-IsRing = record {
  head_live = refl;
  head_ne_null = omega arith;
  head_empty = refl;
  nodes = (
    record { live = refl; ne_null = omega arith; filled = omega arith },
    (record { live = refl; ne_null = omega arith; filled = omega arith }, tt),
  );
  outside = refl;
  distinct = (refl, (refl, tt));
  circle = (refl, refl, (refl, refl, (refl, refl)));
}

four-IsNode : IsNode two 4
four-IsNode = record { live = refl; ne_null = omega arith; filled = omega arith }

append-Inserted_example : Ends (λ _. Inserted two 1 (2 ∷ 3 ∷ []) 4 []) (list_append 1 4 two)
append-Inserted_example = append-Inserted two 1 (2 ∷ 3 ∷ []) 4 two-IsRing four-IsNode refl

del-Deleted_example : Ends (λ _. Deleted two 1 (2 ∷ []) 3 []) (list_del 3 two)
del-Deleted_example = del-Deleted two 1 (2 ∷ []) 3 [] two-IsRing

for_each-nodes_example : list_for_each 3 1 two ≡ done (2 ∷ 3 ∷ []) two
for_each-nodes_example = for_each-nodes 3 two 1 (2 ∷ 3 ∷ []) two-IsRing (omega arith)

clear-Cleared_example : Ends (λ _. Cleared 1 (2 ∷ 3 ∷ []) two) (list_clear 3 1 two)
clear-Cleared_example = clear-Cleared 3 1 (2 ∷ 3 ∷ []) two two-IsRing (omega arith)
