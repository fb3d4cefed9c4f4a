-- ===== src/Config/Cleanup.antt =====
-- src/plugins/config/file.c: the end of `create_conf`, which frees what the parser has handed over. The nodes
-- of the lists are those of src/nvlist.h; a structure and each of its texts are blocks of memory.
pub mod Blocks
pub mod Steps
pub mod Walk
pub mod Rings
pub mod Parts
pub mod Owned
pub mod Bodies
pub mod Lists
pub mod Whole
mod Tests
use netvizd.Common.{ℕ, zero, suc, Bool, true, false, List, [], ◌∷◌, ◌==◌, ◌||◌, if◌then◌else◌}
use netvizd.NvList.{
  Ptr, null, Heap, update, Run, Action, get_next, get_prev, get_payload, node_free, list_del,
  list_clear,
}

-- `block` says which addresses hold a block. `strings` holds the pointers to texts in the structure at an
-- address, in the order in which they are freed, and `values` the pointer of that name.
pub record Memory : Type 0 where
  pub heap : Heap
  pub block : Ptr → Bool
  pub strings : Ptr → List Ptr
  pub values : Ptr → Ptr

pub data TaskEnd (A : Type 0) : Type 0 where
  no_fuel crashed : TaskEnd A
  did : A → Memory → TaskEnd A

abbrev pub Task : Type 0 → Type 0
Task A = Memory → TaskEnd A

abbrev pub and_then : {A B : Type 0} → TaskEnd A → (A → Task B) → TaskEnd B
and_then no_fuel next = no_fuel
and_then crashed next = crashed
and_then (did a m) next = next a m

infixl 5 ◌>>=◌ ◌>>◌
abbrev pub ◌>>=◌ : {A B : Type 0} → Task A → (A → Task B) → Task B
◌>>=◌ t f m = and_then (t m) f

abbrev pub ◌>>◌ : {B : Type 0} → Task (Unit {0}) → Task B → Task B
t >> u = t >>= λ _. u

-- An action on the nodes.
abbrev pub after_run : {A : Type 0} → Run A → Task A
after_run Run.out_of_fuel m = no_fuel
after_run Run.fault m = crashed
after_run (Run.done a h) m = did a (record m { heap = h })

abbrev pub on_heap : {A : Type 0} → Action A → Task A
on_heap f m = after_run (f m.heap) m

-- `nv_free`: nothing for `NULL`; an address that holds no block is a fault.
pub free_block : Ptr → Task (Unit {0})
free_block p m =
    if p == null
    then did tt m
    else if m.block p
    then did tt (record m { block = update m.block p false })
    else crashed

pub free_blocks : List Ptr → Task (Unit {0})
unfolding free_block
free_blocks [] = did tt
free_blocks (p ∷ ps) = free_block p >> free_blocks ps

-- The body of the loops over plugins, systems and data sets: the texts of `f`, and `f`.
pub free_plain : Ptr → Task (Unit {0})
unfolding free_blocks
free_plain f m = if m.block f then (free_blocks (m.strings f) >> free_block f) m else crashed

-- `nv_free(f->values)`
pub free_head : Ptr → Task (Unit {0})
free_head v = if v == null then did tt else on_heap (node_free v)

-- The body of the loops over storages and sensors: the nodes of `values` are freed, not what they carry.
pub free_inst : ℕ → Ptr → Task (Unit {0})
unfolding free_blocks free_head
free_inst fuel f m =
    if m.block f
    then (do
      free_blocks (m.strings f)
      on_heap (list_clear fuel (m.values f))
      free_head (m.values f)
      free_block f)
        m
    else crashed

-- A loop, from the node `pos` on: `t` is the node before it.
pub free_walk : (Ptr → Task (Unit {0})) → ℕ → Ptr → Ptr → Ptr → Task Ptr
free_walk free zero head t pos = λ _. no_fuel
free_walk free (suc k) head t pos = if pos == head || pos == null then did t else do
  f ← on_heap (get_payload pos)
  free f
  (if t == null then did tt else (do p ← on_heap (get_prev pos); on_heap (list_del p)))
  after ← on_heap (get_next pos)
  free_walk free k head pos after

pub free_list : (Ptr → Task (Unit {0})) → ℕ → Ptr → Task (Unit {0})
unfolding free_walk
free_list free fuel head = do
  pos ← on_heap (get_next head)
  t ← free_walk free fuel head null pos
  on_heap (list_del t)

-- The five static lists.
pub record FileLists : Type 0 where
  pub file_plug_list : Ptr
  pub file_stor_list : Ptr
  pub file_sens_list : Ptr
  pub file_sys_list : Ptr
  pub file_dset_list : Ptr

pub cleanup : ℕ → FileLists → Task (Unit {0})
unfolding free_list free_plain free_inst
cleanup fuel ls = do
  free_list free_plain fuel ls.file_plug_list
  free_list (free_inst fuel) fuel ls.file_stor_list
  free_list (free_inst fuel) fuel ls.file_sens_list
  free_list free_plain fuel ls.file_sys_list
  free_list free_plain fuel ls.file_dset_list
