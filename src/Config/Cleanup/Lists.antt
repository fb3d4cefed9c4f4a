-- ===== src/Config/Cleanup/Lists.antt =====
-- src/plugins/config/file.c: one loop of the clean-up after another.
use netvizd.Common.{
  ℕ, ◌<◌, ◌≡◌, ◌≢◌, sym, subst, ap, ◌∙◌, inl, inr, true, false, List, [], ◌∷◌, ◌||◌, arith, ◌==◌,
  Bool-cases, length, map,
}
use netvizd.NvList.{Ptr, null, Heap}
use netvizd.NvList.Ring.{has, has-append, IsRing, Nodes, contents}
use netvizd.Config.Cleanup.{Memory, free_plain, free_inst, free_list}
use netvizd.Config.Cleanup.Steps.{Finishes, Finishes-mono}
use netvizd.Config.Cleanup.Walk.{free_list-Freed}
use netvizd.Config.Cleanup.Rings.{Ring, footprint}
use netvizd.Config.Cleanup.Parts.{owned, carried}
use netvizd.Config.Cleanup.Owned.{Owned, Owned-stable}
use netvizd.Config.Cleanup.Bodies.{no_rings, values_ring, free_plain-step, free_inst-step}

pub contents-filled :
    (h : Heap) (xs : List Ptr) → Nodes h xs → (f : Ptr) → has f (contents h xs) ≡ true → f ≢ null
contents-filled h [] k f i = cc
contents-filled h (x ∷ xs) (n, ns) f i = elim (Bool-cases (f == h.payload x)) [
  | inl e ↦ ground (arith, n.filled)
  | inr e ↦ contents-filled h xs ns f (ground arith)
]

module _ (m0 : Memory) (heads nodes blocks : List Ptr) where
  -- The list `xs` of `l` has been freed, and what comes after is left.
  pub record ListFreed (es : List Ring) (l : Ptr) (xs : List Ptr) (ro : Ptr → List Ring)
      (rs : List Ring) (ps : List Ptr) (m : Memory) : Type 0 where
    pub ring : IsRing m.heap l []
    pub dead : (a : Ptr) → has a xs ≡ true → m.heap.live a ≡ false
    pub rest : Owned m0 heads nodes blocks es (l ∷ xs) ro rs ps [] m

  -- The list `xs` of `l` can be freed, with what its nodes carry.
  pub record ListReady (es : List Ring) (l : Ptr) (xs : List Ptr) (ro : Ptr → List Ring)
      (rs : List Ring) (ps : List Ptr) (m : Memory) : Type 0 where
    pub ring : IsRing m.heap l xs
    pub held : Owned m0 heads nodes blocks es (l ∷ xs) ro rs ps (contents m0.heap xs) m

  ListReady-contents :
      (es : List Ring) (l : Ptr) (xs : List Ptr) (ro : Ptr → List Ring) (rs : List Ring)
      (ps : List Ptr) (m : Memory)
      → ListReady es l xs ro rs ps m
      → Owned m0 heads nodes blocks es (l ∷ xs) ro rs ps (contents m.heap xs) m
  ListReady-contents es l xs ro rs ps m r =
      subst (λ fs. Owned m0 heads nodes blocks es (l ∷ xs) ro rs ps fs m)
        (ap (λ (p : Ptr → Ptr). map p xs) (sym r.held.same_payload)) r.held

  pub plain-ListFreed :
      (k : ℕ) (es : List Ring) (l : Ptr) (xs : List Ptr) (rs : List Ring) (ps : List Ptr)
      (m : Memory)
      → ListReady es l xs no_rings rs ps m
      → length xs < k
      → Finishes (λ _ m'. ListFreed es l xs no_rings rs ps m') (free_list free_plain k l m)
  plain-ListFreed k es l xs rs ps m r fuel =
      Finishes-mono
        (free_list-Freed free_plain l (l ∷ xs)
          (Owned m0 heads nodes blocks es (l ∷ xs) no_rings rs ps)
          (free_plain-step m0 heads nodes blocks es (l ∷ xs) rs ps)
          (Owned-stable m0 heads nodes blocks es (l ∷ xs) no_rings rs ps) k xs m r.ring (λ a i. i)
          (ListReady-contents es l xs no_rings rs ps m r) fuel)
        (λ _ m' f. record { ring = f.ring; dead = f.freed; rest = f.rest })

  pub inst-ListFreed :
      (k : ℕ) (ns : Ptr → List Ptr) (short : (f : Ptr) → length (ns f) < k) (es : List Ring)
      (l : Ptr) (xs : List Ptr) (rs : List Ring) (ps : List Ptr) (m : Memory)
      → ListReady es l xs (values_ring m0 ns) rs ps m
      → length xs < k
      → Finishes
          (λ _ m'. ListFreed es l xs (values_ring m0 ns) rs ps m')
          (free_list (free_inst k) k l m)
  inst-ListFreed k ns short es l xs rs ps m r fuel =
      Finishes-mono
        (free_list-Freed (free_inst k) l (l ∷ xs)
          (Owned m0 heads nodes blocks es (l ∷ xs) (values_ring m0 ns) rs ps)
          (free_inst-step k ns m0 heads nodes blocks es (l ∷ xs) rs ps short)
          (Owned-stable m0 heads nodes blocks es (l ∷ xs) (values_ring m0 ns) rs ps) k xs m r.ring
          (λ a i. i) (ListReady-contents es l xs (values_ring m0 ns) rs ps m r) fuel)
        (λ _ m' f. record { ring = f.ring; dead = f.freed; rest = f.rest })

  -- From a list that has been freed to the next one.
  pub next-ListReady :
      (es : List Ring) (l : Ptr) (xs : List Ptr) (ro : Ptr → List Ring) (l2 : Ptr) (xs2 : List Ptr)
      (ro2 : Ptr → List Ring) (rs : List Ring) (ps : List Ptr) (m : Memory)
      → has l heads ≡ true
      → ListFreed es l xs ro
          ((l2, xs2) ∷ carried ro2 (contents m0.heap xs2) rs)
          (owned m0.strings (contents m0.heap xs2) ps)
          m
      → ListReady ((l, []) ∷ es) l2 xs2 ro2 rs ps m
  next-ListReady es l xs ro l2 xs2 ro2 rs ps m top f =
      let o = f.rest in
      let more = carried ro2 (contents m0.heap xs2) rs in
      let split : (a : Ptr)
          → has a (footprint ((l2, xs2) ∷ more)) ≡ (has a (l2 ∷ xs2) || has a (footprint more)) =
        λ a. let s = has-append a xs2 (footprint more) in ground arith in
      let off : has l (footprint ((l2, xs2) ∷ more)) ≡ false = o.clear l (ground arith) in
      let not_l : (a : Ptr) → has a (footprint ((l2, xs2) ∷ more)) ≡ true → (a == l) ≡ false =
        λ a i. ground arith in
      let in_area : (a : Ptr)
          → has a (l2 ∷ xs2) ≡ true
          → has a (footprint ((l2, xs2) ∷ more)) ≡ true =
        λ a i. let s = split a in ground arith in
      let in_more : (a : Ptr)
          → has a (footprint more) ≡ true
          → has a (footprint ((l2, xs2) ∷ more)) ≡ true =
        λ a i. let s = split a in ground arith in
      record {
        ring = o.rings.0;
        held = record {
          same_strings = o.same_strings;
          same_values = o.same_values;
          same_payload = o.same_payload;
          filled = λ g i.
              contents-filled m.heap xs2 o.rings.0.nodes g
                (ap (λ (p : Ptr → Ptr). has g (map p xs2)) o.same_payload ∙ i);
          rings = o.rings.1;
          apart = o.apart.1;
          clear = o.apart.0;
          finished = (f.ring, o.finished);
          finished_clear = λ a i.
              let n = not_l a (in_more a i) in
              let c = o.finished_clear a (in_more a i) in ground arith;
          area_clear = λ a i.
              let n = not_l a (in_area a i) in
              let c = o.finished_clear a (in_area a i) in ground arith;
          area_within = λ a i. o.within a (in_area a i);
          within = λ a i. o.within a (in_more a i);
          freeable = o.freeable;
          blocks_within = o.blocks_within;
          freed_blocks = o.freed_blocks;
          freed_nodes = λ a i d e n. elim (Bool-cases (has a xs)) [
            | inl j ↦ f.dead a j
            | inr j ↦ let s = split a in o.freed_nodes a i d (ground arith) (ground arith)
          ];
          same_nodes = o.same_nodes;
          same_blocks = o.same_blocks;
        };
      }
