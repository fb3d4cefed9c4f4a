-- ===== src/Config/Cleanup/Bodies.antt =====
-- src/plugins/config/file.c: the bodies of the loops of the clean-up.
use netvizd.Common.{
  ℕ, ◌<◌, ◌≡◌, sym, subst, ap, ◌∙◌, inl, inr, false, List, [], ◌∷◌, ◌++◌, arith, ◌==◌, Bool-cases,
  length,
}
use netvizd.NvList.{Ptr, null, Heap, update, node_free}
use netvizd.NvList.Ring.{has-append, IsRing}
use netvizd.NvList.Traverse.{Cleared, clear-Cleared}
use netvizd.Config.Cleanup.{Memory, free_plain, free_head, free_inst}
use netvizd.Config.Cleanup.Steps.{Agree, Finishes, Finishes-bind, Finishes-bind_run, Finishes-mono}
use netvizd.Config.Cleanup.Blocks.{
  Freeable, BlocksFreed, free_block-BlocksFreed, free_blocks-BlocksFreed, Freeable-block,
}
use netvizd.Config.Cleanup.Rings.{Ring}
use netvizd.Config.Cleanup.Parts.{owned, RingsFreed, Taken}
use netvizd.Config.Cleanup.Owned.{Owned, Owned-step}

Taken-of_BlocksFreed :
    (f : Ptr) (qs : List Ptr) (m m1 : Memory) (g : Heap) (m2 : Memory)
    → BlocksFreed (m.strings f) (f ∷ qs) m m1
    → BlocksFreed (f ∷ []) qs (record m1 { heap = g }) m2
    → Taken f qs m m2
Taken-of_BlocksFreed f qs m m1 g m2 a b = record {
  strings = b.strings ∙ a.strings;
  values = b.values ∙ a.values;
  left = b.left;
  freed = λ c i n. elim (Bool-cases (c == f)) [
    | inl e ↦ b.freed c (ground arith) n
    | inr e ↦ b.fades c (a.freed c (ground arith) n)
  ];
  fades = λ c e. b.fades c (a.fades c e);
  same = λ c e. b.same c (ground arith) ∙ a.same c (ground arith);
}

RingsFreed-none : (h g : Heap) → g ≡ h → RingsFreed [] h g
RingsFreed-none h g e = record {
  same = record {
    same_live = λ a o. ap (λ i. i.live a) e;
    same_next = λ a o. ap (λ i. i.next a) e;
    same_prev = λ a o. ap (λ i. i.prev a) e;
    same_payload = λ a o. ap (λ i. i.payload a) e;
  };
  same_payload = ap (λ i. i.payload) e;
  dead = λ a i. cc;
}

-- The lists of a structure that carries none.
abbrev pub no_rings : Ptr → List Ring
no_rings f = []

-- The list of a storage or a sensor, whose nodes are `ns`.
abbrev pub values_ring : Memory → (Ptr → List Ptr) → Ptr → List Ring
values_ring m ns f = (m.values f, ns f) ∷ []

module _ (m0 : Memory) (heads nodes blocks : List Ptr) (es : List Ring) (area : List Ptr)
    (rs : List Ring) (ps : List Ptr) where
  pub free_plain-step :
      (f : Ptr) (fs : List Ptr) (m : Memory)
      → Owned m0 heads nodes blocks es area no_rings rs ps (f ∷ fs) m
      → Finishes
          (λ _ m'.
            Owned m0 heads nodes blocks es area no_rings rs ps fs m' × Agree area m.heap m'.heap)
          (free_plain f m)
  unfolding free_plain
  free_plain-step f fs m o =
      let qs = owned m0.strings fs ps in
      let there =
        Freeable-block m.block (m0.strings f) f qs (o.filled f (ground arith)) o.freeable in
      let texts = ap (λ s. s f) (sym o.same_strings) in
      let freeable = subst (λ ts. Freeable m.block (ts ++ f ∷ qs)) texts o.freeable in
      rw there (
        Finishes-bind (free_blocks-BlocksFreed (m.strings f) (f ∷ qs) m freeable) λ _ m1 a.
          Finishes-mono (free_block-BlocksFreed f qs m1 a.left) λ _ m2 b.
            Owned-step m0 heads nodes blocks es area no_rings rs ps f fs m m2 o
              (RingsFreed-none m.heap m2.heap (b.heap ∙ a.heap))
              (Taken-of_BlocksFreed f qs m m1 m1.heap m2 a b))

-- After `list_clear` and `nv_free` of the sentinel.
RingsFreed-of_Cleared :
    (v : Ptr) (xs : List Ptr) (h g : Heap)
    → Cleared v xs h g
    → RingsFreed ((v, xs) ∷ []) h (record g { live = update g.live v false })
RingsFreed-of_Cleared v xs h g c = record {
  same = record {
    same_live = λ a o. let split = has-append a xs [] in ground (arith, c.spares.same_live a);
    same_next = λ a o. let split = has-append a xs [] in ground (arith, c.spares.same_next a);
    same_prev = λ a o. let split = has-append a xs [] in ground (arith, c.spares.same_prev a);
    same_payload = λ a o. ap (λ p. p a) c.spares.same_payload;
  };
  same_payload = c.spares.same_payload;
  dead = λ a i. let split = has-append a xs [] in ground (arith, c.freed a);
}

RingsFreed-at :
    {v v' : Ptr} (xs : List Ptr) {h h' g g' : Heap}
    → v ≡ v'
    → h ≡ h'
    → g ≡ g'
    → RingsFreed ((v, xs) ∷ []) h g
    → RingsFreed ((v', xs) ∷ []) h' g'
RingsFreed-at {v} {v'} xs {h} {h'} {g} {g'} e f i r =
    subst (λ w. RingsFreed ((w, xs) ∷ []) h' g') e
      (subst (λ j. RingsFreed ((v, xs) ∷ []) j g') f
        (subst (λ j. RingsFreed ((v, xs) ∷ []) h j) i r))

module _ (k : ℕ) (ns : Ptr → List Ptr) (m0 : Memory) (heads nodes blocks : List Ptr)
    (es : List Ring) (area : List Ptr) (rs : List Ring) (ps : List Ptr) where
  pub free_inst-step :
      (short : (f : Ptr) → length (ns f) < k) (f : Ptr) (fs : List Ptr) (m : Memory)
      → Owned m0 heads nodes blocks es area (values_ring m0 ns) rs ps (f ∷ fs) m
      → Finishes
          (λ _ m'.
            Owned m0 heads nodes blocks es area (values_ring m0 ns) rs ps fs m'
            × Agree area m.heap m'.heap)
          (free_inst k f m)
  unfolding free_inst free_head node_free
  free_inst-step short f fs m o =
      let qs = owned m0.strings fs ps in
      let there =
        Freeable-block m.block (m0.strings f) f qs (o.filled f (ground arith)) o.freeable in
      let texts = ap (λ s. s f) (sym o.same_strings) in
      let freeable = subst (λ ts. Freeable m.block (ts ++ f ∷ qs)) texts o.freeable in
      let ring : IsRing m.heap (m.values f) (ns f) =
        subst (λ v. IsRing m.heap (v f) (ns f)) (sym o.same_values) o.rings.0 in
      let held : (m.values f == null) ≡ false = ground (arith, ring.head_ne_null) in
      rw there (
        Finishes-bind (free_blocks-BlocksFreed (m.strings f) (f ∷ qs) m freeable) λ _ m1 a.
          let ring1 = subst (λ h. IsRing h (m.values f) (ns f)) (sym a.heap) ring in
          Finishes-bind_run m1 _ (clear-Cleared k (m.values f) (ns f) m1.heap ring1 (short f))
            λ _ g c.
              let cleared = record g { live = update g.live (m.values f) false } in
              rw (held, c.ring.head_live)
                (Finishes-mono (free_block-BlocksFreed f qs (record m1 { heap = cleared }) a.left)
                  λ _ m2 b.
                    Owned-step m0 heads nodes blocks es area (values_ring m0 ns) rs ps f fs m m2 o
                      (RingsFreed-at (ns f) (ap (λ v. v f) o.same_values) a.heap (sym b.heap)
                        (RingsFreed-of_Cleared (m.values f) (ns f) m1.heap g c))
                      (Taken-of_BlocksFreed f qs m m1 cleared m2 a b)))
