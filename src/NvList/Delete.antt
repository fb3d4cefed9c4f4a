-- ===== src/NvList/Delete.antt =====
-- src/nvlist.h: `list_del`.
use mathlib.Core.List.{map-append}
use netvizd.Common.{◌≡◌, ◌≢◌, ◌⊎◌, inl, inr, refl, true, false, List, [], ◌∷◌, ◌++◌, arith, ◌==◌}
use netvizd.NvList.{Ptr, null, Heap, update, done, list_del}
use netvizd.NvList.Ring.{
  Ends, ends, has, Links, Circle, IsNode, Nodes, IsRing, contents, Links-frame, Nodes-frame,
  Nodes-append, Nodes-split,
}
use netvizd.NvList.Insert.{member-live}
use netvizd.NvList.Places.{
  last, first, unlinked, has-insert, Distinct-remove, Links-of_Circle, Links-remove, Links-around,
  last-has, first-has,
}

-- The heap after the removal of `n` from between `p` and `t`, with other nodes left.
abbrev removed : Heap → Ptr → Ptr → Ptr → Heap
removed h p n t = record (unlinked h p t) { live = update h.live n false }

-- The same with no other node: the two links of the sentinel are `NULL` again.
abbrev emptied : Heap → Ptr → Ptr → Heap
emptied h l n = record {
  live = update h.live n false;
  next = update (update h.next l l) l null;
  prev = update (update h.prev l l) l null;
  payload = h.payload;
}

-- The outcome of the removal of `n` from between `xs` and `ys`.
pub record Deleted (h : Heap) (l : Ptr) (xs : List Ptr) (n : Ptr) (ys : List Ptr) (g : Heap)
    : Type 0 where
  pub ring : IsRing g l (xs ++ ys)
  pub holds : contents g (xs ++ ys) ≡ contents h xs ++ contents h ys
  pub freed : g.live n ≡ false
  pub same_live : (a : Ptr) → (a == n) ≡ false → g.live a ≡ h.live a
  pub same_payload : g.payload ≡ h.payload
  pub same_next : (a : Ptr) → has a (l ∷ (xs ++ ys)) ≡ false → g.next a ≡ h.next a
  pub same_prev : (a : Ptr) → has a (l ∷ (xs ++ ys)) ≡ false → g.prev a ≡ h.prev a

del_last-eq :
    (h : Heap) (l n : Ptr)
    → IsNode h n
    → h.live l ≡ true
    → h.payload l ≡ null
    → h.prev n ≡ l
    → h.next n ≡ l
    → list_del n h ≡ done tt (emptied h l n)
unfolding list_del
del_last-eq h l n node live empty p t = ground (arith, node.live, node.ne_null, node.filled)

del-eq :
    (h : Heap) (p n t : Ptr)
    → IsNode h n
    → h.live p ≡ true
    → h.live t ≡ true
    → (h.payload p ≢ null) ⊎ (h.payload t ≢ null)
    → h.prev n ≡ p
    → h.next n ≡ t
    → list_del n h ≡ done tt (removed h p n t)
unfolding list_del
del-eq h p n t node lp lt full ep et = ground (arith, node.live, node.ne_null, node.filled)

Nodes-remove :
    (h : Heap) (xs : List Ptr) (n : Ptr) (ys : List Ptr)
    → Nodes h (xs ++ n ∷ ys)
    → Nodes h (xs ++ ys) × IsNode h n
Nodes-remove h xs n ys k =
    let parts = Nodes-split h xs (n ∷ ys) k in (Nodes-append h xs ys parts.0 parts.1.1, parts.1.0)

module _ (h : Heap) (l : Ptr) (xs : List Ptr) (n : Ptr) (ys : List Ptr)
    (r : IsRing h l (xs ++ n ∷ ys)) where
  around : (h.prev n ≡ last l xs) × (h.next n ≡ first ys l)
  around = Links-around h l xs ys l n (Links-of_Circle h l xs n ys r.circle)

  node : IsNode h n
  node = (Nodes-remove h xs n ys r.nodes).1

  n_outside : has n (xs ++ ys) ≡ false
  n_outside = (Distinct-remove n xs ys r.distinct).1

  l_outside : has l (n ∷ (xs ++ ys)) ≡ false
  l_outside = ground (arith, has-insert l n xs ys, r.outside)

  -- All of the outcome but the links.
  Deleted-of_Circle :
      (g : Heap)
      → Circle g l (xs ++ ys)
      → g.live ≡ update h.live n false
      → g.payload ≡ h.payload
      → ((a : Ptr) → has a (l ∷ (xs ++ ys)) ≡ false → g.next a ≡ h.next a)
      → ((a : Ptr) → has a (l ∷ (xs ++ ys)) ≡ false → g.prev a ≡ h.prev a)
      → Deleted h l xs n ys g
  Deleted-of_Circle g k live pay sn sp = record {
    ring = record {
      head_live = rw live (ground (arith, r.head_live, l_outside));
      head_ne_null = r.head_ne_null;
      head_empty = rw pay r.head_empty;
      nodes =
          Nodes-frame h g (xs ++ ys) (λ a i. rw live (ground (arith, n_outside))) (λ a i. rw pay)
            (Nodes-remove h xs n ys r.nodes).0;
      outside = ground (arith, l_outside);
      distinct = (Distinct-remove n xs ys r.distinct).0;
      circle = k;
    };
    holds = rw pay (map-append h.payload xs ys);
    freed = rw live (ground arith);
    same_live = λ a o. rw live (ground arith);
    same_payload = pay;
    same_next = sn;
    same_prev = sp;
  }

  del-Deleted-of_Links :
      Links (unlinked h (last l xs) (first ys l)) l (xs ++ ys) l
      → (Links (unlinked h (last l xs) (first ys l)) l (xs ++ ys) l
          → Circle (removed h (last l xs) n (first ys l)) l (xs ++ ys))
      → (h.payload (last l xs) ≢ null) ⊎ (h.payload (first ys l) ≢ null)
      → Ends (λ _. Deleted h l xs n ys) (list_del n h)
  del-Deleted-of_Links k to_circle full =
      let before =
        member-live r (last l xs)
          (ground (arith, has-insert (last l xs) n xs ys, last-has l xs ys)) in
      let after =
        member-live r (first ys l)
          (ground (arith, has-insert (first ys l) n xs ys, first-has l xs ys)) in
      rw (del-eq h (last l xs) n (first ys l) node before.0 after.0 full around.0 around.1) (
        ends (
          Deleted-of_Circle (removed h (last l xs) n (first ys l)) (to_circle k) refl refl
            (λ a o. ground (arith, last-has l xs ys)) (λ a o. ground (arith, first-has l xs ys))))

last-filled : (h : Heap) (x : Ptr) (xs : List Ptr) → Nodes h (x ∷ xs) → h.payload (last x xs) ≢ null
last-filled h x [] (k, ks) = k.filled
last-filled h x (y ∷ xs) (k, ks) = last-filled h y xs ks

-- Deleting a node of a list ends without a fault: the node is freed, the others keep their order
-- and their data, the list that loses its last node is empty again, and no node outside changes.
pub del-Deleted :
    (h : Heap) (l : Ptr) (xs : List Ptr) (n : Ptr) (ys : List Ptr)
    → IsRing h l (xs ++ n ∷ ys)
    → Ends (λ _. Deleted h l xs n ys) (list_del n h)
del-Deleted h l [] n [] r =
    rw
      (del_last-eq h l n r.nodes.0 r.head_live r.head_empty (around h l [] n [] r).0
        (around h l [] n [] r).1)
      (ends (
        Deleted-of_Circle h l [] n [] r (emptied h l n) (ground arith) refl refl
          (λ a o. ground arith) (λ a o. ground arith)))
del-Deleted h l [] n (y ∷ ys) r =
    del-Deleted-of_Links h l [] n (y ∷ ys) r
      (Links-remove h l [] (y ∷ ys) l n r.circle (ground (arith, l_outside h l [] n (y ∷ ys) r))
        (ground (arith, l_outside h l [] n (y ∷ ys) r)) r.distinct.1)
      (λ k.
        Links-frame (unlinked h l y) (removed h l n y) l (y ∷ ys) l (λ a i. refl) (λ a i. refl) k)
      (inr r.nodes.1.0.filled)
del-Deleted h l (x ∷ xs) n ys r =
    del-Deleted-of_Links h l (x ∷ xs) n ys r
      (Links-remove h l (x ∷ xs) ys l n r.circle (ground (arith, l_outside h l (x ∷ xs) n ys r))
        (ground (arith, l_outside h l (x ∷ xs) n ys r))
        (Distinct-remove n (x ∷ xs) ys r.distinct).0)
      (λ k.
        Links-frame (unlinked h (last x xs) (first ys l)) (removed h (last x xs) n (first ys l)) l
          (x ∷ (xs ++ ys)) l (λ a i. refl) (λ a i. refl) k)
      (inl (last-filled h x xs (Nodes-split h (x ∷ xs) (n ∷ ys) r.nodes).0))
