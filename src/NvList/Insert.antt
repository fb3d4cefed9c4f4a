-- ===== src/NvList/Insert.antt =====
-- src/nvlist.h: `list_insert` and `list_append`.
use mathlib.Core.List.{append-nil, map-append}
use netvizd.Common.{◌≡◌, ◌≢◌, refl, sym, subst, true, false, List, [], ◌∷◌, ◌++◌, arith}
use netvizd.NvList.{Ptr, null, Heap, update, done, list_insert, list_append}
use netvizd.NvList.Ring.{
  Ends, ends, has, Links, IsNode, Nodes, IsRing, contents, Nodes-frame, Nodes-append, Nodes-split,
  Node-of_has,
}
use netvizd.NvList.Places.{
  last, first, linked, has-insert, Distinct-insert, Circle-of_Links, Links-insert, Links-next_last,
  Links-prev_end, last-has, first-has,
}

-- The heap after an insertion into an empty list.
abbrev linked_empty : Heap → Ptr → Ptr → Heap
linked_empty h p n = record h {
  next = update (update h.next p n) n p;
  prev = update (update h.prev p n) n p;
}

-- `g` has the nodes and the data of `h`, and its links but for those of the nodes `xs`.
pub record Relinked (xs : List Ptr) (h g : Heap) : Type 0 where
  pub same_live : g.live ≡ h.live
  pub same_payload : g.payload ≡ h.payload
  pub same_next : (a : Ptr) → has a xs ≡ false → g.next a ≡ h.next a
  pub same_prev : (a : Ptr) → has a xs ≡ false → g.prev a ≡ h.prev a

-- The outcome of an insertion of `n` between `xs` and `ys`.
pub record Inserted (h : Heap) (l : Ptr) (xs : List Ptr) (n : Ptr) (ys : List Ptr) (g : Heap)
    : Type 0 where
  pub ring : IsRing g l (xs ++ n ∷ ys)
  pub holds : contents g (xs ++ n ∷ ys) ≡ contents h xs ++ h.payload n ∷ contents h ys
  pub rest : Relinked (n ∷ l ∷ (xs ++ ys)) h g

insert_empty-eq :
    (h : Heap) (p n : Ptr)
    → h.live p ≡ true
    → h.live n ≡ true
    → p ≢ null
    → n ≢ null
    → h.next p ≡ null
    → list_insert p n h ≡ done tt (linked_empty h p n)
unfolding list_insert
insert_empty-eq h p n lp ln zp zn e = ground arith

insert_after-eq :
    (h : Heap) (p n t : Ptr)
    → h.live p ≡ true
    → h.live n ≡ true
    → h.live t ≡ true
    → p ≢ null
    → n ≢ null
    → t ≢ null
    → h.next p ≡ t
    → list_insert p n h ≡ done tt (linked h p n t)
unfolding list_insert
insert_after-eq h p n t lp ln lt zp zn zt e = ground arith

pub member-live :
    {h : Heap} {l : Ptr} {xs : List Ptr} (r : IsRing h l xs) (a : Ptr)
    → has a (l ∷ xs) ≡ true
    → (h.live a ≡ true) × (a ≢ null)
member-live {h} {l} {xs} r a i =
    ground (arith, Node-of_has h a xs r.nodes, r.head_live, r.head_ne_null)

Nodes-insert :
    (h : Heap) (xs : List Ptr) (n : Ptr) (ys : List Ptr)
    → Nodes h (xs ++ ys)
    → IsNode h n
    → Nodes h (xs ++ n ∷ ys)
Nodes-insert h xs n ys k i =
    let parts = Nodes-split h xs ys k in Nodes-append h xs (n ∷ ys) parts.0 (i, parts.1)

module _ (h : Heap) (l : Ptr) (xs : List Ptr) (n : Ptr) (ys : List Ptr) (r : IsRing h l (xs ++ ys))
    (node : IsNode h n) (new : has n (l ∷ (xs ++ ys)) ≡ false) where
  -- All of the outcome but the links.
  Inserted-of_Links :
      (g : Heap)
      → Links g l (xs ++ n ∷ ys) l
      → Relinked (n ∷ l ∷ (xs ++ ys)) h g
      → Inserted h l xs n ys g
  Inserted-of_Links g k rest = record {
    ring = record {
      head_live = ground (arith, rest.same_live, r.head_live);
      head_ne_null = r.head_ne_null;
      head_empty = ground (arith, rest.same_payload, r.head_empty);
      nodes =
          Nodes-frame h g (xs ++ n ∷ ys) (λ a i. rw rest.same_live) (λ a i. rw rest.same_payload)
            (Nodes-insert h xs n ys r.nodes node);
      outside = ground (arith, has-insert l n xs ys, r.outside);
      distinct = Distinct-insert n xs ys r.distinct (ground arith);
      circle = Circle-of_Links g l xs n ys k;
    };
    holds = rw rest.same_payload (map-append h.payload xs (n ∷ ys));
    rest = rest;
  }

  linked-Relinked : Relinked (n ∷ l ∷ (xs ++ ys)) h (linked h (last l xs) n (first ys l))
  linked-Relinked = record {
    same_live = refl;
    same_payload = refl;
    same_next = λ a o. ground (arith, last-has l xs ys);
    same_prev = λ a o. ground (arith, first-has l xs ys);
  }

  linked-Inserted :
      Links h l (xs ++ ys) l → Ends (λ _. Inserted h l xs n ys) (list_insert (last l xs) n h)
  linked-Inserted k =
      let before = member-live r (last l xs) (last-has l xs ys) in
      let after = member-live r (first ys l) (first-has l xs ys) in
      rw
        (insert_after-eq h (last l xs) n (first ys l) before.0 node.live after.0 before.1
          node.ne_null after.1 (Links-next_last h l xs ys l k))
        (ends (
          Inserted-of_Links _
            (Links-insert h l xs ys l n k r.outside r.outside r.distinct (ground arith))
            linked-Relinked))

-- Inserting an allocated node that carries data and is not yet in the list, after any node of the list or
-- after the sentinel, ends without a fault and puts the node there; the other nodes keep their order and
-- all data, and no node outside the list changes.
pub insert-Inserted :
    (h : Heap) (l : Ptr) (xs : List Ptr) (n : Ptr) (ys : List Ptr)
    → IsRing h l (xs ++ ys)
    → IsNode h n
    → has n (l ∷ (xs ++ ys)) ≡ false
    → Ends (λ _. Inserted h l xs n ys) (list_insert (last l xs) n h)
insert-Inserted h l [] n [] r node new =
    rw (insert_empty-eq h l n r.head_live node.live r.head_ne_null node.ne_null r.circle.0) (
      ends (
        Inserted-of_Links h l [] n [] r node new (linked_empty h l n) (ground arith) (record {
          same_live = refl;
          same_payload = refl;
          same_next = λ a o. ground arith;
          same_prev = λ a o. ground arith;
        })))
insert-Inserted h l [] n (y ∷ ys) r node new = linked-Inserted h l [] n (y ∷ ys) r node new r.circle
insert-Inserted h l (x ∷ xs) n ys r node new = linked-Inserted h l (x ∷ xs) n ys r node new r.circle

append-eq_empty :
    (h : Heap) (l n : Ptr) → IsRing h l [] → n ≢ null → list_append l n h ≡ list_insert l n h
unfolding list_append
append-eq_empty h l n r z = ground (arith, r.head_live, r.head_ne_null, r.circle)

append-eq :
    (h : Heap) (l x : Ptr) (xs : List Ptr) (n : Ptr)
    → IsRing h l (x ∷ xs)
    → x ≢ null
    → n ≢ null
    → list_append l n h ≡ list_insert (last l (x ∷ xs)) n h
unfolding list_append
append-eq h l x xs n r zx zn =
    ground (arith, r.head_live, r.head_ne_null, r.circle, Links-prev_end h l (x ∷ xs) l r.circle)

-- Appending an allocated node that carries data and is not yet in the list ends without a fault and
-- makes the node the last one; the other nodes keep their order and all data, and no node outside
-- the list changes.
pub append-Inserted :
    (h : Heap) (l : Ptr) (xs : List Ptr) (n : Ptr)
    → IsRing h l xs
    → IsNode h n
    → has n (l ∷ xs) ≡ false
    → Ends (λ _. Inserted h l xs n []) (list_append l n h)
append-Inserted h l [] n r node new =
    rw (append-eq_empty h l n r node.ne_null) (insert-Inserted h l [] n [] r node new)
append-Inserted h l (x ∷ xs) n r node new =
    let e = append-nil (x ∷ xs) in
    rw (append-eq h l x xs n r r.nodes.0.ne_null node.ne_null) (
      insert-Inserted h l (x ∷ xs) n [] (subst (IsRing h l) (sym e) r) node
        (subst (λ zs. has n (l ∷ zs) ≡ false) (sym e) new))
