-- ===== src/Config/Items/Kept.antt =====
-- src/plugins/config/file.c: what the lists hold of the items of the file.
use netvizd.Common.{◌≡◌, sym, ap, ◌∙◌, ◌↔◌, List, [], ◌∷◌, ◌++◌, Option}
use mathlib.Core.List.{append-nil, append_assoc}
use netvizd.Common.Outcome.{ok, ◌>>=◌, >>=-eq-ok}
use netvizd.Config.{GlobalPlugin, GlobalInst, Values, DataSet, SystemBlock, FileConf}
use netvizd.Config.File.{deref}
use netvizd.Config.File.Complete.{AllValues, deref-some}
use netvizd.Config.Items.{
  Item, plugin_item, storage_item, sensor_item, data_set_item, system_item, no_items, add_plugin,
  add_storage, add_sensor, add_data_set, add_system, add_item, add_items,
}

abbrev pub plugin_items : List Item → List GlobalPlugin
plugin_items [] = []
plugin_items (plugin_item p ∷ is) = p ∷ plugin_items is
plugin_items (_ ∷ is) = plugin_items is

abbrev pub storage_items : List Item → List GlobalInst
storage_items [] = []
storage_items (storage_item s ∷ is) = s ∷ storage_items is
storage_items (_ ∷ is) = storage_items is

abbrev pub sensor_items : List Item → List GlobalInst
sensor_items [] = []
sensor_items (sensor_item s ∷ is) = s ∷ sensor_items is
sensor_items (_ ∷ is) = sensor_items is

abbrev pub data_set_items : List Item → List DataSet
data_set_items [] = []
data_set_items (data_set_item d ∷ is) = d ∷ data_set_items is
data_set_items (_ ∷ is) = data_set_items is

abbrev pub system_items : List Item → List SystemBlock
system_items [] = []
system_items (system_item s ∷ is) = s ∷ system_items is
system_items (_ ∷ is) = system_items is

-- The lists of a file with these items.
abbrev pub sorted : List Item → FileConf → FileConf
sorted is f = record {
  plugins = f.plugins ++ plugin_items is;
  storages = f.storages ++ storage_items is;
  sensors = f.sensors ++ sensor_items is;
  data_sets = f.data_sets ++ data_set_items is;
  systems = f.systems ++ system_items is;
}

sorted-nil : (f : FileConf) → sorted [] f ≡ f
sorted-nil f =
    let p = append-nil f.plugins in
    let s = append-nil f.storages in
    let n = append-nil f.sensors in
    let d = append-nil f.data_sets in let y = append-nil f.systems in cc

same-ok : {A : Type 0} {a b : A} → ok a ≡ ok b → a ≡ b
same-ok e = cc

-- An item that is added first.
module _ (is : List Item) (f : FileConf) where
  plugin-sorted : (p : GlobalPlugin) → sorted is (add_plugin p f) ≡ sorted (plugin_item p ∷ is) f
  unfolding add_plugin
  plugin-sorted p =
      ap (λ (ps : List GlobalPlugin). record (sorted is f) { plugins = ps })
        (append_assoc f.plugins (p ∷ []) (plugin_items is))

  storage-sorted :
      (s : GlobalInst)
      → sorted is (record f { storages = f.storages ++ s ∷ [] }) ≡ sorted (storage_item s ∷ is) f
  storage-sorted s =
      ap (λ (ss : List GlobalInst). record (sorted is f) { storages = ss })
        (append_assoc f.storages (s ∷ []) (storage_items is))

  sensor-sorted :
      (s : GlobalInst)
      → sorted is (record f { sensors = f.sensors ++ s ∷ [] }) ≡ sorted (sensor_item s ∷ is) f
  sensor-sorted s =
      ap (λ (ss : List GlobalInst). record (sorted is f) { sensors = ss })
        (append_assoc f.sensors (s ∷ []) (sensor_items is))

  data_set-sorted : (d : DataSet) → sorted is (add_data_set d f) ≡ sorted (data_set_item d ∷ is) f
  unfolding add_data_set
  data_set-sorted d =
      ap (λ (ds : List DataSet). record (sorted is f) { data_sets = ds })
        (append_assoc f.data_sets (d ∷ []) (data_set_items is))

  system-sorted : (s : SystemBlock) → sorted is (add_system s f) ≡ sorted (system_item s ∷ is) f
  unfolding add_system
  system-sorted s =
      ap (λ (ss : List SystemBlock). record (sorted is f) { systems = ss })
        (append_assoc f.systems (s ∷ []) (system_items is))

-- Every block of the file has an item.
abbrev pub HaveValues : List Item → Type 0
HaveValues is = AllValues (storage_items is) × AllValues (sensor_items is)

add_items-total :
    (is : List Item) (f : FileConf) → HaveValues is → add_items is f ≡ ok (sorted is f)
unfolding add_items add_item add_storage add_sensor
add_items-total [] f h = ap ok (sym (sorted-nil f))
add_items-total (plugin_item p ∷ is) f h =
    add_items-total is (add_plugin p f) h ∙ ap ok (plugin-sorted is f p)
add_items-total (storage_item s ∷ is) f (((vs, e), hs), ht) =
    let f1 = record f { storages = f.storages ++ s ∷ [] } in
    ap (λ (o : Option (List Values)). deref o >>= (λ vs. ok f1) >>= add_items is) e
    ∙ add_items-total is f1 (hs, ht)
    ∙ ap ok (storage-sorted is f s)
add_items-total (sensor_item s ∷ is) f (hs, ((vs, e), ht)) =
    let f1 = record f { sensors = f.sensors ++ s ∷ [] } in
    ap (λ (o : Option (List Values)). deref o >>= (λ vs. ok f1) >>= add_items is) e
    ∙ add_items-total is f1 (hs, ht)
    ∙ ap ok (sensor-sorted is f s)
add_items-total (data_set_item d ∷ is) f h =
    add_items-total is (add_data_set d f) h ∙ ap ok (data_set-sorted is f d)
add_items-total (system_item s ∷ is) f h =
    add_items-total is (add_system s f) h ∙ ap ok (system-sorted is f s)

add_items-HaveValues : (is : List Item) (f g : FileConf) → add_items is f ≡ ok g → HaveValues is
unfolding add_items add_item add_storage add_sensor
add_items-HaveValues [] f g e = (tt, tt)
add_items-HaveValues (plugin_item p ∷ is) f g e = add_items-HaveValues is (add_plugin p f) g e
add_items-HaveValues (storage_item s ∷ is) f g e =
    let (f1, added, more) = >>=-eq-ok (add_storage s f) (add_items is) e in
    let (vs, got, same) = >>=-eq-ok (deref s.values) _ added in
    let (hs, ht) = add_items-HaveValues is f1 g more in (((vs, deref-some s.values vs got), hs), ht)
add_items-HaveValues (sensor_item s ∷ is) f g e =
    let (f1, added, more) = >>=-eq-ok (add_sensor s f) (add_items is) e in
    let (vs, got, same) = >>=-eq-ok (deref s.values) _ added in
    let (hs, ht) = add_items-HaveValues is f1 g more in (hs, ((vs, deref-some s.values vs got), ht))
add_items-HaveValues (data_set_item d ∷ is) f g e = add_items-HaveValues is (add_data_set d f) g e
add_items-HaveValues (system_item s ∷ is) f g e = add_items-HaveValues is (add_system s f) g e

-- The calls of the parser return exactly if every storage and every sensor block has an item; else one
-- reads through `NULL` and the process dies. When they return, each of the five lists holds the items of
-- its kind, each once and in the order of the file.
pub add_items-sorted :
    (is : List Item) (g : FileConf)
    → (add_items is no_items ≡ ok g) ↔ (HaveValues is × (g ≡ sorted is no_items))
add_items-sorted is g = (
  λ e.
      let h = add_items-HaveValues is no_items g e in
      (h, same-ok (sym e ∙ add_items-total is no_items h)),
  λ (h, e). add_items-total is no_items h ∙ ap ok (sym e),
)
