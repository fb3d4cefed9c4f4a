-- ===== src/Config/Cleanup/Whole.antt =====
-- src/plugins/config/file.c: the whole clean-up.
use netvizd.Common.{
  ℕ, ◌<◌, ◌≡◌, refl, true, false, List, [], ◌∷◌, ◌||◌, arith, ◌==◌, length, Bool-cases, inl, inr,
}
use netvizd.NvList.{Ptr, null}
use netvizd.NvList.Ring.{has, has-append, IsRing, SameOutside, contents}
use netvizd.Config.Cleanup.{Memory, FileLists, cleanup}
use netvizd.Config.Cleanup.Steps.{Finishes, Finishes-bind, Finishes-mono}
use netvizd.Config.Cleanup.Blocks.{Freeable}
use netvizd.Config.Cleanup.Rings.{Ring, footprint, AllRings, Apart}
use netvizd.Config.Cleanup.Parts.{owned, carried}
use netvizd.Config.Cleanup.Bodies.{no_rings, values_ring}
use netvizd.Config.Cleanup.Lists.{
  ListFreed, ListReady, plain-ListFreed, inst-ListFreed, next-ListReady, contents-filled,
}

-- The nodes of the five lists.
pub record FileNodes : Type 0 where
  pub plugs : List Ptr
  pub stors : List Ptr
  pub senss : List Ptr
  pub syss : List Ptr
  pub dsets : List Ptr

module _ (ls : FileLists) (ns : Ptr → List Ptr) (xs : FileNodes) (m : Memory) where
  -- The structures of a list.
  abbrev holds : List Ptr → List Ptr
  holds ys = contents m.heap ys

  -- The lists that are still to be freed after each of the five loops, each with the lists of its structures;
  -- `ns` gives the nodes of a storage's or a sensor's `values`.
  abbrev pub rings5 : List Ring
  rings5 = carried no_rings (holds xs.dsets) []

  abbrev pub rings4 : List Ring
  rings4 = carried no_rings (holds xs.syss) ((ls.file_dset_list, xs.dsets) ∷ rings5)

  abbrev pub rings3 : List Ring
  rings3 = carried (values_ring m ns) (holds xs.senss) ((ls.file_sys_list, xs.syss) ∷ rings4)

  abbrev pub rings2 : List Ring
  rings2 = carried (values_ring m ns) (holds xs.stors) ((ls.file_sens_list, xs.senss) ∷ rings3)

  abbrev pub rings1 : List Ring
  rings1 = carried no_rings (holds xs.plugs) ((ls.file_stor_list, xs.stors) ∷ rings2)

  abbrev pub all_rings : List Ring
  all_rings = (ls.file_plug_list, xs.plugs) ∷ rings1

  -- The blocks: the structures of the five lists with their texts.
  abbrev pub blocks5 : List Ptr
  blocks5 = owned m.strings (holds xs.dsets) []

  abbrev pub blocks4 : List Ptr
  blocks4 = owned m.strings (holds xs.syss) blocks5

  abbrev pub blocks3 : List Ptr
  blocks3 = owned m.strings (holds xs.senss) blocks4

  abbrev pub blocks2 : List Ptr
  blocks2 = owned m.strings (holds xs.stors) blocks3

  abbrev pub all_blocks : List Ptr
  all_blocks = owned m.strings (holds xs.plugs) blocks2

  -- The sentinels of the five lists.
  abbrev pub all_heads : List Ptr
  all_heads =
      ls.file_plug_list ∷ ls.file_stor_list ∷ ls.file_sens_list ∷ ls.file_sys_list
      ∷ ls.file_dset_list ∷ []

  -- What the parser has handed over: well-formed lists that share no node, and structures and texts that
  -- share no block. The lists are shorter than `k`.
  pub record Parsed (k : ℕ) : Type 0 where
    pub rings : AllRings m.heap all_rings
    pub apart : Apart all_rings
    pub freeable : Freeable m.block all_blocks
    pub short : (f : Ptr) → length (ns f) < k
    pub short_plugs : length xs.plugs < k
    pub short_stors : length xs.stors < k
    pub short_senss : length xs.senss < k
    pub short_syss : length xs.syss < k
    pub short_dsets : length xs.dsets < k

  -- The memory after the clean-up.
  pub record Cleaned (m' : Memory) : Type 0 where
    pub plugs : IsRing m'.heap ls.file_plug_list []
    pub stors : IsRing m'.heap ls.file_stor_list []
    pub senss : IsRing m'.heap ls.file_sens_list []
    pub syss : IsRing m'.heap ls.file_sys_list []
    pub dsets : IsRing m'.heap ls.file_dset_list []
    pub freed_nodes :
        (a : Ptr)
        → has a (footprint all_rings) ≡ true
        → has a all_heads ≡ false
        → m'.heap.live a ≡ false
    pub freed_blocks :
        (a : Ptr) → has a all_blocks ≡ true → (a == null) ≡ false → m'.block a ≡ false
    pub same_nodes : SameOutside (footprint all_rings) m.heap m'.heap
    pub same_blocks : (a : Ptr) → has a all_blocks ≡ false → m'.block a ≡ m.block a

  module _ (k : ℕ) (p : Parsed k) where
    abbrev Ready :
        List Ring → Ptr → List Ptr → (Ptr → List Ring) → List Ring → List Ptr → Memory → Type 0
    Ready = ListReady m all_heads (footprint all_rings) all_blocks

    first-Ready :
        Ready [] ls.file_plug_list xs.plugs no_rings
          ((ls.file_stor_list, xs.stors) ∷ rings2)
          blocks2
          m
    first-Ready =
        let split : (a : Ptr)
            → has a (footprint all_rings)
              ≡ (has a (ls.file_plug_list ∷ xs.plugs) || has a (footprint rings1)) =
          λ a. let s = has-append a xs.plugs (footprint rings1) in ground arith in
        record {
          ring = p.rings.0;
          held = record {
            same_strings = refl;
            same_values = refl;
            same_payload = refl;
            filled = contents-filled m.heap xs.plugs p.rings.0.nodes;
            rings = p.rings.1;
            apart = p.apart.1;
            clear = p.apart.0;
            finished = tt;
            finished_clear = λ a i. refl;
            area_clear = λ a i. refl;
            area_within = λ a i. let s = split a in ground arith;
            within = λ a i. let s = split a in ground arith;
            freeable = p.freeable;
            blocks_within = λ a i. i;
            freed_blocks = λ a i e n. cc;
            freed_nodes = λ a i d e n. let s = split a in ground arith;
            same_nodes = record {
              same_live = λ a o. refl;
              same_next = λ a o. refl;
              same_prev = λ a o. refl;
              same_payload = λ a o. refl;
            };
            same_blocks = λ a o. refl;
          };
        }

    Cleaned-of_last :
        (m5 : Memory)
        → ListFreed m all_heads
            (footprint all_rings)
            all_blocks
            ((ls.file_sys_list, [])
              ∷ (ls.file_sens_list, [])
              ∷ (ls.file_stor_list, [])
              ∷ (ls.file_plug_list, [])
              ∷ [])
            ls.file_dset_list
            xs.dsets
            no_rings
            []
            []
            m5
        → Cleaned m5
    Cleaned-of_last m5 f =
        let o = f.rest in
        record {
          plugs = o.finished.1.1.1.0;
          stors = o.finished.1.1.0;
          senss = o.finished.1.0;
          syss = o.finished.0;
          dsets = f.ring;
          freed_nodes = λ a i d. elim (Bool-cases (has a xs.dsets)) [
            | inl j ↦ f.dead a j
            | inr j ↦ o.freed_nodes a i d refl (ground arith)
          ];
          freed_blocks = λ a i n. o.freed_blocks a i refl n;
          same_nodes = o.same_nodes;
          same_blocks = o.same_blocks;
        }

    -- The clean-up of `create_conf` ends without a fault: no node and no block is freed twice or read after it
    -- has been freed. The five lists are empty then; every node of theirs is freed, and every node of a
    -- storage's or a sensor's `values` with its sentinel; every structure and every text is freed, and
    -- no other node or block has changed.
    pub cleanup-Cleaned : Finishes (λ _ m'. Cleaned m') (cleanup k ls m)
    unfolding cleanup
    cleanup-Cleaned =
        let hs = all_heads in
        let ns_all = footprint all_rings in
        let values = values_ring m ns in
        Finishes-bind
          (plain-ListFreed m hs ns_all all_blocks k _ _ xs.plugs _ _ m first-Ready p.short_plugs)
          λ _ m1 f1.
            Finishes-bind
              (inst-ListFreed m hs ns_all all_blocks k ns p.short _ _ xs.stors _ _ m1
                (next-ListReady m hs ns_all all_blocks [] _ xs.plugs no_rings _ xs.stors values _
                  blocks3 m1 (ground arith) f1)
                p.short_stors)
              λ _ m2 f2.
                Finishes-bind
                  (inst-ListFreed m hs ns_all all_blocks k ns p.short _ _ xs.senss _ _ m2
                    (next-ListReady m hs ns_all all_blocks _ _ xs.stors values _ xs.senss values _
                      blocks4 m2 (ground arith) f2)
                    p.short_senss)
                  λ _ m3 f3.
                    Finishes-bind
                      (plain-ListFreed m hs ns_all all_blocks k _ _ xs.syss _ _ m3
                        (next-ListReady m hs ns_all all_blocks _ _ xs.senss values _ xs.syss
                          no_rings _ blocks5 m3 (ground arith) f3)
                        p.short_syss)
                      λ _ m4 f4.
                        Finishes-mono
                          (plain-ListFreed m hs ns_all all_blocks k _ _ xs.dsets _ _ m4
                            (next-ListReady m hs ns_all all_blocks _ _ xs.syss no_rings _ xs.dsets
                              no_rings [] [] m4 (ground arith) f4)
                            p.short_dsets)
                          λ _ m5 f5. Cleaned-of_last m5 f5
