-- ===== src/Config/Items.antt =====
-- src/plugins/config/file.c: the functions that the parser of the configuration file calls. The parser
-- is generated: what it calls, in order, is a list.
pub mod Kept
mod Tests
use netvizd.Common.{◌≡◌, List, [], ◌∷◌, ◌++◌, Option, none, some, if◌then◌else◌, Bool, true, false}
use netvizd.Common.Int.{ℤ, pos, negsuc, eq_ℤ}
use netvizd.Common.Outcome.{Outcome, crash, ok, ◌>>=◌}
use netvizd.Config.{GlobalPlugin, GlobalInst, DataSet, SystemBlock, FileConf}
use netvizd.Config.File.{deref}

-- A call of one of the five functions.
pub data Item : Type 0 where
  plugin_item : GlobalPlugin → Item
  storage_item : GlobalInst → Item
  sensor_item : GlobalInst → Item
  data_set_item : DataSet → Item
  system_item : SystemBlock → Item

abbrev pub no_items : FileConf
no_items = record { plugins = []; storages = []; sensors = []; data_sets = []; systems = [] }

pub add_plugin : GlobalPlugin → FileConf → FileConf
add_plugin p f = record f { plugins = f.plugins ++ p ∷ [] }

-- The loop that logs the values reads through their list.
pub add_storage : GlobalInst → FileConf → Outcome FileConf
add_storage s f = do vs ← deref s.values; ok (record f { storages = f.storages ++ s ∷ [] })

pub add_sensor : GlobalInst → FileConf → Outcome FileConf
add_sensor s f = do vs ← deref s.values; ok (record f { sensors = f.sensors ++ s ∷ [] })

pub add_data_set : DataSet → FileConf → FileConf
add_data_set d f = record f { data_sets = f.data_sets ++ d ∷ [] }

pub add_system : SystemBlock → FileConf → FileConf
add_system s f = record f { systems = f.systems ++ s ∷ [] }

pub add_item : Item → FileConf → Outcome FileConf
unfolding add_plugin add_storage add_sensor add_data_set add_system
add_item (plugin_item p) f = ok (add_plugin p f)
add_item (storage_item s) f = add_storage s f
add_item (sensor_item s) f = add_sensor s f
add_item (data_set_item d) f = ok (add_data_set d f)
add_item (system_item s) f = ok (add_system s f)

pub add_items : List Item → FileConf → Outcome FileConf
unfolding add_item
add_items [] f = ok f
add_items (i ∷ is) f = do g ← add_item i f; add_items is g
