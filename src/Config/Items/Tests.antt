-- ===== src/Config/Items/Tests.antt =====
-- src/plugins/config/file.c: the items of a small file.
use netvizd.Common.{◌≡◌, refl, ◌↔◌, List, [], ◌∷◌, none, some}
use netvizd.Common.Text.{codes}
use netvizd.Common.Outcome.{crash, ok}
use netvizd.Config.{GlobalInst, p_type_storage}
use netvizd.Config.Items.{Item, plugin_item, storage_item, system_item, no_items, add_items}
use netvizd.Config.Items.Kept.{HaveValues, sorted, add_items-sorted}

abbrev block : GlobalInst
block = record {
  name = codes "db0";
  p_name = codes "pgsql";
  values = some (record { word = codes "host"; value = codes "h" } ∷ []);
}

abbrev items : List Item
items =
    system_item (record { name = codes "rtr1"; desc = none })
    ∷ storage_item block
    ∷ plugin_item (record { name = codes "pgsql"; type = p_type_storage; file = none })
    ∷ system_item (record { name = codes "rtr2"; desc = none })
    ∷ []

items-added :
    add_items items no_items
    ≡ ok (record {
      plugins = record { name = codes "pgsql"; type = p_type_storage; file = none } ∷ [];
      storages = block ∷ [];
      sensors = [];
      data_sets = [];
      systems =
          record { name = codes "rtr1"; desc = none }
          ∷ record { name = codes "rtr2"; desc = none }
          ∷ [];
    })
unfolding add_items
items-added = refl

-- A block without an item.
empty_block-crash : add_items (storage_item (record block { values = none }) ∷ []) no_items ≡ crash
unfolding add_items
empty_block-crash = refl

add_items-sorted_example :
    (add_items items no_items ≡ ok (sorted items no_items))
    ↔ (HaveValues items × (sorted items no_items ≡ sorted items no_items))
add_items-sorted_example = add_items-sorted items (sorted items no_items)
