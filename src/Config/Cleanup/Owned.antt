-- ===== src/Config/Cleanup/Owned.antt =====
-- src/plugins/config/file.c: what the loops of the clean-up free, and the bodies of these loops.
use netvizd.Common.{
  ◌≡◌, ◌≢◌, ap, ◌∙◌, inl, inr, true, false, List, ◌∷◌, ◌||◌, arith, ◌==◌, Bool-cases,
}
use netvizd.NvList.{Ptr, null, Heap}
use netvizd.NvList.Ring.{has, has-append, SameOutside}
use netvizd.Config.Cleanup.{Memory}
use netvizd.Config.Cleanup.Steps.{Agree, Below}
use netvizd.Config.Cleanup.Blocks.{Freeable}
use netvizd.Config.Cleanup.Rings.{
  Ring, footprint, AllRings, Clear, Apart, has-footprint, AllRings-append, Apart-append,
  AllRings-frame,
}
use netvizd.Config.Cleanup.Parts.{
  owned, carried, RingsFreed, Taken, SameOutside-trans, off_part, SameOutside-whole,
}

-- `m0` is the memory before the clean-up, `area` the addresses of the list that is being freed; `ro` gives the
-- lists of a structure. `rs` and `ps` are the lists and the blocks that come after, and `es` the lists that are
-- empty by now. `nodes` and `blocks` are all the addresses of the clean-up, and `heads` its sentinels that stay.
module _ (m0 : Memory) (heads nodes blocks : List Ptr) (es : List Ring) (area : List Ptr)
    (ro : Ptr → List Ring) (rs : List Ring) (ps : List Ptr) where
  pub record Owned (fs : List Ptr) (m : Memory) : Type 0 where
    pub same_strings : m.strings ≡ m0.strings
    pub same_values : m.values ≡ m0.values
    pub same_payload : m.heap.payload ≡ m0.heap.payload
    pub filled : (f : Ptr) → has f fs ≡ true → f ≢ null
    pub rings : AllRings m.heap (carried ro fs rs)
    pub apart : Apart (carried ro fs rs)
    pub clear : Clear area (carried ro fs rs)
    pub finished : AllRings m.heap es
    pub finished_clear : Clear (footprint (carried ro fs rs)) es
    pub area_clear : Clear area es
    pub area_within : Below area nodes
    pub within : Below (footprint (carried ro fs rs)) nodes
    pub freeable : Freeable m.block (owned m0.strings fs ps)
    pub blocks_within : Below (owned m0.strings fs ps) blocks
    pub freed_blocks :
        (a : Ptr)
        → has a blocks ≡ true
        → has a (owned m0.strings fs ps) ≡ false
        → (a == null) ≡ false
        → m.block a ≡ false
    pub freed_nodes :
        (a : Ptr)
        → has a nodes ≡ true
        → has a heads ≡ false
        → has a (footprint (carried ro fs rs)) ≡ false
        → has a area ≡ false
        → m.heap.live a ≡ false
    pub same_nodes : SameOutside nodes m0.heap m.heap
    pub same_blocks : (a : Ptr) → has a blocks ≡ false → m.block a ≡ m0.block a

  pub Owned-stable :
      (fs : List Ptr) (m : Memory) (h : Heap)
      → Owned fs m
      → SameOutside area m.heap h
      → h.payload ≡ m.heap.payload
      → ((a : Ptr) → m.heap.live a ≡ false → h.live a ≡ false)
      → Owned fs (record m { heap = h })
  Owned-stable fs m h o s p fades = record {
    same_strings = o.same_strings;
    same_values = o.same_values;
    same_payload = p ∙ o.same_payload;
    filled = o.filled;
    rings = AllRings-frame area (carried ro fs rs) m.heap h o.clear s o.rings;
    apart = o.apart;
    clear = o.clear;
    finished = AllRings-frame area es m.heap h o.area_clear s o.finished;
    finished_clear = o.finished_clear;
    area_clear = o.area_clear;
    area_within = o.area_within;
    within = o.within;
    freeable = o.freeable;
    blocks_within = o.blocks_within;
    freed_blocks = o.freed_blocks;
    freed_nodes = λ a i d e f. fades a (o.freed_nodes a i d e f);
    same_nodes =
        SameOutside-trans nodes m0.heap m.heap h o.same_nodes
          (SameOutside-whole area nodes m.heap h o.area_within s);
    same_blocks = o.same_blocks;
  }

  -- One structure less.
  pub Owned-step :
      (f : Ptr) (fs : List Ptr) (m m' : Memory)
      → Owned (f ∷ fs) m
      → RingsFreed (ro f) m.heap m'.heap
      → Taken f (owned m0.strings fs ps) m m'
      → Owned fs m' × Agree area m.heap m'.heap
  Owned-step f fs m m' o r t =
      let more = carried ro fs rs in
      let left = owned m0.strings fs ps in
      let (off, apart) = Apart-append (ro f) more o.apart in
      let (_, rest) = AllRings-append m.heap (ro f) more o.rings in
      let away : (a : Ptr) → has a area ≡ true → has a (footprint (ro f)) ≡ false =
        λ a i. let c = o.clear a i in let split = has-footprint a (ro f) more in ground arith in
      let mine : Below (footprint (ro f)) (footprint (carried ro (f ∷ fs) rs)) =
        λ a i. let split = has-footprint a (ro f) more in ground arith in
      let others : Below (footprint more) (footprint (carried ro (f ∷ fs) rs)) =
        λ a i. let split = has-footprint a (ro f) more in ground arith in
      let parts : (a : Ptr)
          → has a (owned m0.strings (f ∷ fs) ps)
            ≡ (has a (m.strings f) || ((a == f) || has a left)) =
        λ a.
          let texts = ap (λ g. has a (g f)) o.same_strings in
          let split = has-append a (m0.strings f) (f ∷ left) in ground arith in
      (
        record {
          same_strings = t.strings ∙ o.same_strings;
          same_values = t.values ∙ o.same_values;
          same_payload = r.same_payload ∙ o.same_payload;
          filled = λ g i. o.filled g (ground arith);
          rings = AllRings-frame (footprint (ro f)) more m.heap m'.heap off r.same rest;
          apart = apart;
          clear =
              λ a i. let c = o.clear a i in let split = has-footprint a (ro f) more in ground arith;
          finished =
              AllRings-frame (footprint (ro f)) es m.heap m'.heap
                (λ a i. o.finished_clear a (mine a i)) r.same o.finished;
          finished_clear = λ a i. o.finished_clear a (others a i);
          area_clear = o.area_clear;
          area_within = o.area_within;
          within = λ a i. o.within a (others a i);
          freeable = t.left;
          blocks_within = λ a i. o.blocks_within a (let p = parts a in ground arith);
          freed_blocks = λ a i e n. elim (Bool-cases (has a (m.strings f) || (a == f))) [
            | inl j ↦ t.freed a j n
            | inr j ↦ t.fades a (o.freed_blocks a i (let p = parts a in ground arith) n)
          ];
          freed_nodes = λ a i d e n. elim (Bool-cases (has a (footprint (ro f)))) [
            | inl j ↦ r.dead a j
            | inr j ↦
                let split = has-footprint a (ro f) more in
                r.same.same_live a j ∙ o.freed_nodes a i d (ground arith) n
          ];
          same_nodes = SameOutside-trans nodes m0.heap m.heap m'.heap o.same_nodes (
              SameOutside-whole (footprint (ro f)) nodes m.heap m'.heap
                (λ a i. o.within a (mine a i)) r.same);
          same_blocks = λ a i.
              let away = off_part _ blocks o.blocks_within a i in
              t.same a (let p = parts a in ground arith) ∙ o.same_blocks a i;
        },
        record {
          same_live = λ a i. r.same.same_live a (away a i);
          same_next = λ a i. r.same.same_next a (away a i);
          same_prev = λ a i. r.same.same_prev a (away a i);
          same_payload = λ a i. r.same.same_payload a (away a i);
        },
      )
