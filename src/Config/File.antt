-- ===== src/Config/File.antt =====
-- src/plugins/config/file.c: `create_conf`, one function to each of its five loops.
pub mod Names
pub mod Instances
pub mod DataSets
pub mod Integrity
pub mod Complete
pub mod Members
pub mod Tests
use netvizd.Common.{
  ℕ, zero, suc, ◌+◌, Bool, true, false, List, [], ◌∷◌, ◌++◌, map, Option, none, some, if◌then◌else◌,
  length,
}
use netvizd.Common.Int.{ℤ, pos, negsuc}
use netvizd.Common.Text.{Text, same_prefix}
use netvizd.Common.Outcome.{Outcome, crash, ok, ◌>>=◌}
use netvizd.Config.{
  name_len, name_copy, NvConf, Plug, Inst, NvSys, NvDsType, ds_type_none, ds_type_counter,
  ds_type_derive, ds_type_absolute, ds_type_gauge, NvDsts, NvConfig, empty_config, PType,
  p_type_none, p_type_storage, p_type_sensor, p_type_proto, p_type_auth, GlobalPlugin, Values,
  GlobalInst, DataSet, SystemBlock, FileConf,
}

-- The loop over the plugins.
pub copy_file : Option Text → Text
unfolding name_copy
copy_file none = []
copy_file (some f) = name_copy f

pub file_stat : Option Text → ℤ → ℤ
file_stat none stat = negsuc 0
file_stat (some f) stat = stat

pub place_plugin : PType → Plug → NvConfig → ℤ → NvConfig × ℤ
place_plugin p_type_none p c stat = (c, negsuc 0)
place_plugin p_type_storage p c stat = (record c { stor_p = c.stor_p ++ p ∷ [] }, stat)
place_plugin p_type_sensor p c stat = (record c { sens_p = c.sens_p ++ p ∷ [] }, stat)
place_plugin p_type_proto p c stat = (record c { proto_p = c.proto_p ++ p ∷ [] }, stat)
place_plugin p_type_auth p c stat = (record c { auth_p = c.auth_p ++ p ∷ [] }, stat)

pub new_plug : GlobalPlugin → Plug
unfolding copy_file name_copy
new_plug f = record { name = name_copy f.name; file = copy_file f.file }

pub add_plugins : List GlobalPlugin → NvConfig → ℤ → NvConfig × ℤ
unfolding place_plugin file_stat new_plug
add_plugins [] c stat = (c, stat)
add_plugins (f ∷ fs) c stat =
    let placed = place_plugin f.type (new_plug f) c (file_stat f.file stat) in
    add_plugins fs placed.0 placed.1

-- `strncmp(want, name, NAME_LEN) == 0`
pub matches : Text → Text → Bool
unfolding same_prefix
matches want name = same_prefix name_len want name

-- The search for a name: the loop has no `break`, so the last match stays. `ptr` and `err` are the
-- pointer to set and the error flag, `i` the position reached.
module _ {A : Type 0} (name : A → Text) where
  pub find_named : Text → ℕ → List A → Option ℕ → ℤ → Option ℕ × ℤ
  unfolding matches
  find_named want i [] ptr err = (ptr, err)
  find_named want i (c ∷ cs) ptr err =
      let hit = matches want (name c) in
      find_named want (i + 1) cs (if hit then some i else ptr) (if hit then pos 0 else err)

-- `if (err != 0) stat = -1;`
abbrev pub fold_err : ℤ → ℤ → ℤ
fold_err (pos zero) stat = stat
fold_err _ stat = negsuc 0

pub copy_value : Values → NvConf
unfolding name_copy
copy_value v = record { key = name_copy v.word; value = name_copy v.value }

-- `list_for_each` over a list that is `NULL` reads through `NULL`.
abbrev pub deref {ℓ} : {A : Type ℓ} → Option A → Outcome A
deref none = crash
deref (some a) = ok a

pub new_inst : List Plug → GlobalInst → Outcome (Inst × ℤ)
unfolding name_copy copy_value find_named
new_inst plugs f = do
  vs ← deref f.values
  let found = find_named (λ p. p.name) f.p_name 0 plugs none (negsuc 0)
  ok (
    record { name = name_copy f.name; plug = found.0; dsets = []; conf = map copy_value vs },
    found.1,
  )

-- The loops over the storage instances and over the sensor instances.
pub add_insts : List Plug → List GlobalInst → List Inst → ℤ → Outcome (List Inst × ℤ)
unfolding new_inst
add_insts plugs [] out stat = ok (out, stat)
add_insts plugs (f ∷ fs) out stat = do
  (inst, err) ← new_inst plugs f
  add_insts plugs fs (out ++ inst ∷ []) (fold_err err stat)

pub add_stors : List Plug → List GlobalInst → ℤ → Outcome (List Inst × ℤ)
unfolding add_insts
add_stors plugs fs stat = add_insts plugs fs [] stat

pub add_sens : List Plug → List GlobalInst → ℤ → Outcome (List Inst × ℤ)
unfolding add_insts
add_sens plugs fs stat = add_insts plugs fs [] stat

-- The loop over the systems.
pub add_systems : List SystemBlock → List NvSys → Outcome (List NvSys)
unfolding name_copy
add_systems [] out = ok out
add_systems (f ∷ fs) out = do
  desc ← deref f.desc
  add_systems fs (out ++ record { name = name_copy f.name; desc = name_copy desc } ∷ [])

-- The search for an instance by a data set `d`: every match gets `d` on its list, and the pointer is
-- set to the last.
pub record Linked : Type 0 where
  pub insts : List Inst
  pub ptr : Option ℕ
  pub err : ℤ

pub link_insts : Text → ℕ → ℕ → List Inst → Option ℕ → ℤ → Linked
unfolding matches
link_insts want d i [] ptr err = record { insts = []; ptr = ptr; err = err }
link_insts want d i (c ∷ cs) ptr err =
    let hit = matches want c.name in
    let rest =
      link_insts want d (i + 1) cs (if hit then some i else ptr) (if hit then pos 0 else err) in
    record rest { insts = (if hit then record c { dsets = c.dsets ++ d ∷ [] } else c) ∷ rest.insts }

-- A data set names a sensor or none; it has to name a storage instance.
pub link_sensor : Option Text → ℕ → List Inst → Linked
unfolding link_insts
link_sensor none d insts = record { insts = insts; ptr = none; err = pos 0 }
link_sensor (some want) d insts = link_insts want d 0 insts none (negsuc 0)

pub link_storage : Option Text → ℕ → List Inst → Linked
unfolding link_insts
link_storage none d insts = record { insts = insts; ptr = none; err = negsuc 0 }
link_storage (some want) d insts = link_insts want d 0 insts none (negsuc 0)

pub type_stat : NvDsType → ℤ → ℤ
type_stat ds_type_none stat = negsuc 0
type_stat _ stat = stat

-- `d` is the position that the new data set gets, and `desc` its description.
pub new_dset : DataSet → Text → NvConfig → NvDsts
unfolding name_copy link_sensor link_storage find_named
new_dset f desc c =
    let d = length c.dsts in
    record {
      name = name_copy f.name;
      type = f.type;
      cf = f.cf;
      desc = name_copy desc;
      sens = (link_sensor f.sensor d c.sens).ptr;
      stor = (link_storage f.storage d c.stor).ptr;
      sys = (find_named (λ s. s.name) f.system 0 c.sys none (negsuc 0)).0;
    }

-- One round of the loop over the data sets.
pub add_data_set : DataSet → NvConfig → ℤ → Outcome (NvConfig × ℤ)
unfolding new_dset type_stat
add_data_set f c stat = do
  desc ← deref f.desc
  let d = length c.dsts
  let sens = link_sensor f.sensor d c.sens
  let stor = link_storage f.storage d c.stor
  let sys = find_named (λ s. s.name) f.system 0 c.sys none (negsuc 0)
  ok (
    record c { sens = sens.insts; stor = stor.insts; dsts = c.dsts ++ new_dset f desc c ∷ [] },
    fold_err sys.1 (fold_err stor.err (fold_err sens.err (type_stat f.type stat))),
  )

pub add_data_sets : List DataSet → NvConfig → ℤ → Outcome (NvConfig × ℤ)
unfolding add_data_set
add_data_sets [] c stat = ok (c, stat)
add_data_sets (f ∷ fs) c stat = do (c', stat') ← add_data_set f c stat; add_data_sets fs c' stat'

-- The freeing loops at the end leave the configuration alone (NvList.list_clear).
pub create_conf : FileConf → Outcome (NvConfig × ℤ)
unfolding add_plugins add_stors add_sens add_systems add_data_sets
create_conf f = do
  let plugs = add_plugins f.plugins empty_config (pos 0)
  (stors, stat1) ← add_stors plugs.0.stor_p f.storages plugs.1
  (sensors, stat2) ← add_sens plugs.0.sens_p f.sensors stat1
  systems ← add_systems f.systems []
  add_data_sets f.data_sets (record plugs.0 { stor = stors; sens = sensors; sys = systems }) stat2
