-- ===== src/Config/Cleanup/Tests.antt =====
-- src/plugins/config/file.c: the clean-up after a plugin and a storage with one item.
use netvizd.Common.{
  ℕ, ◌≡◌, ◌≢◌, refl, true, false, List, [], ◌∷◌, arith, ◌==◌, if◌then◌else◌, inl, inr,
}
use netvizd.NvList.{Ptr, Heap, update}
use netvizd.NvList.Ring.{has, IsRing}
use netvizd.Config.Cleanup.{Memory, FileLists, cleanup}
use netvizd.Config.Cleanup.Steps.{Finishes, Finishes-mono}
use netvizd.Config.Cleanup.Whole.{FileNodes, Parsed, Cleaned, cleanup-Cleaned}

abbrev cell : Ptr → ℕ → ℕ → ℕ → Heap → Heap
cell p n q d h = record {
  live = update h.live p true;
  next = update h.next p n;
  prev = update h.prev p q;
  payload = update h.payload p d;
}

-- The sentinels 1 to 5; the nodes 10 and 11; the sentinel 30 of the storage's items, and its node 31.
abbrev parsed_heap : Heap
parsed_heap = cell 1 10 10 0 (
    cell 2 11 11 0 (
      cell 3 0 0 0 (
        cell 4 0 0 0 (
          cell 5 0 0 0 (
            cell 10 1 1 20 (
              cell 11 2 2 22 (
                cell 30 31 31 0 (
                  cell 31 30 30 40 (record {
                    live = λ _. false;
                    next = λ _. 0;
                    prev = λ _. 0;
                    payload = λ _. 0;
                  })))))))))

-- The structures 20 and 22 and their texts; 20 has no file. The block 40 is the item.
abbrev parsed_memory : Memory
parsed_memory = record {
  heap = parsed_heap;
  block = λ p. has p (20 ∷ 21 ∷ 22 ∷ 23 ∷ 24 ∷ 40 ∷ []);
  strings = λ p. if p == 20 then 21 ∷ 0 ∷ [] else 23 ∷ 24 ∷ [];
  values = λ p. 30;
}

abbrev file_lists : FileLists
file_lists = record {
  file_plug_list = 1;
  file_stor_list = 2;
  file_sens_list = 3;
  file_sys_list = 4;
  file_dset_list = 5;
}

abbrev file_nodes : FileNodes
file_nodes = record { plugs = 10 ∷ []; stors = 11 ∷ []; senss = []; syss = []; dsets = [] }

abbrev items : Ptr → List Ptr
items f = 31 ∷ []

-- A list of one node, and an empty one.
single :
    (h : Heap) (l x : Ptr)
    → (h.live l ≡ true) × (l ≢ 0) × (h.payload l ≡ 0)
    → (h.live x ≡ true) × (x ≢ 0) × (h.payload x ≢ 0)
    → (l == x) ≡ false
    → (h.next l ≡ x) × (h.prev x ≡ l) × (h.next x ≡ l) × (h.prev l ≡ x)
    → IsRing h l (x ∷ [])
single h l x (a, b, c) (d, e, f) o (i, j, k, m) = record {
  head_live = a;
  head_ne_null = b;
  head_empty = c;
  nodes = (record { live = d; ne_null = e; filled = f }, tt);
  outside = ground arith;
  distinct = (refl, tt);
  circle = (i, j, (k, m));
}

empty :
    (h : Heap) (l : Ptr)
    → (h.live l ≡ true) × (l ≢ 0) × (h.payload l ≡ 0)
    → (h.next l ≡ 0) × (h.prev l ≡ 0)
    → IsRing h l []
empty h l (a, b, c) (i, j) = record {
  head_live = a;
  head_ne_null = b;
  head_empty = c;
  nodes = tt;
  outside = refl;
  distinct = tt;
  circle = (i, j);
}

parsed : Parsed file_lists items file_nodes parsed_memory 2
parsed = record {
  rings = (
    single parsed_heap 1 10 (refl, omega arith, refl) (refl, omega arith, omega arith) refl
        (refl, refl, refl, refl),
    (
      single parsed_heap 2 11 (refl, omega arith, refl) (refl, omega arith, omega arith) refl
          (refl, refl, refl, refl),
      (
        single parsed_heap 30 31 (refl, omega arith, refl) (refl, omega arith, omega arith) refl
            (refl, refl, refl, refl),
        (
          empty parsed_heap 3 (refl, omega arith, refl) (refl, refl),
          (
            empty parsed_heap 4 (refl, omega arith, refl) (refl, refl),
            (empty parsed_heap 5 (refl, omega arith, refl) (refl, refl), tt),
          ),
        ),
      ),
    ),
  );
  apart = (
    λ a i. ground arith,
    (
      λ a i. ground arith,
      (
        λ a i. ground arith,
        (λ a i. ground arith, (λ a i. ground arith, (λ a i. ground arith, tt))),
      ),
    ),
  );
  freeable = (
    inr (refl, refl),
    (inl refl, (inr (refl, refl), (inr (refl, refl), (inr (refl, refl), (inr (refl, refl), tt))))),
  );
  short = λ f. omega arith;
  short_plugs = omega arith;
  short_stors = omega arith;
  short_senss = omega arith;
  short_syss = omega arith;
  short_dsets = omega arith;
}

cleanup-Cleaned_example :
    Finishes
      (λ _ m'. Cleaned file_lists items file_nodes parsed_memory m')
      (cleanup 2 file_lists parsed_memory)
cleanup-Cleaned_example = cleanup-Cleaned file_lists items file_nodes parsed_memory 2 parsed

-- The item of the storage is still there.
item_left : Finishes (λ _ m'. m'.block 40 ≡ true) (cleanup 2 file_lists parsed_memory)
item_left =
    Finishes-mono (cleanup-Cleaned file_lists items file_nodes parsed_memory 2 parsed)
      (λ _ m' c. c.same_blocks 40 refl)
