-- ===== src/Config.antt =====
-- src/nvconfig.h and src/plugins/config/file.h: the configuration as the daemon keeps it, and as the
-- parser of the configuration file hands it over. A pointer to an element of one of the global lists
-- is the element's position in that list; `NULL` is `none`.
pub mod File
pub mod Validate
pub mod Items
pub mod Cleanup
use netvizd.Common.{ℕ, List, [], Option, take}
use netvizd.Common.Int.{ℤ}
use netvizd.Common.Text.{Text}

-- `NAME_LEN` of src/netvizd.h
abbrev pub name_len : ℕ
name_len = 256

-- `name_copy` of src/netvizd.h: at most 255 characters, and the terminator.
unfoldable pub name_copy : Text → Text
name_copy s = take 255 s

-- `struct nv_conf`
pub record NvConf : Type 0 where
  pub key : Text
  pub value : Text

-- `struct nv_stor_p`, `nv_sens_p`, `nv_proto_p` and `nv_auth_p`, before the plugin fills in its
-- functions.
pub record Plug : Type 0 where
  pub name : Text
  pub file : Text

-- `struct nv_stor` and `nv_sens`, which agree in these fields. `dsets` holds positions in
-- `nv_dsts_list`.
pub record Inst : Type 0 where
  pub name : Text
  pub plug : Option ℕ
  pub dsets : List ℕ
  pub conf : List NvConf

pub record NvSys : Type 0 where
  pub name : Text
  pub desc : Text

pub data NvDsType : Type 0 where
  ds_type_none ds_type_counter ds_type_derive ds_type_absolute ds_type_gauge : NvDsType

pub data NvDsCf : Type 0 where
  ds_cf_average ds_cf_min ds_cf_max ds_cf_last : NvDsCf

pub record NvDsts : Type 0 where
  pub name : Text
  pub type : NvDsType
  pub cf : NvDsCf
  pub desc : Text
  pub sens : Option ℕ
  pub stor : Option ℕ
  pub sys : Option ℕ

-- The global lists.
pub record NvConfig : Type 0 where
  pub stor_p : List Plug
  pub sens_p : List Plug
  pub proto_p : List Plug
  pub auth_p : List Plug
  pub stor : List Inst
  pub sens : List Inst
  pub sys : List NvSys
  pub dsts : List NvDsts

abbrev pub empty_config : NvConfig
empty_config = record {
  stor_p = [];
  sens_p = [];
  proto_p = [];
  auth_p = [];
  stor = [];
  sens = [];
  sys = [];
  dsts = [];
}

-- What the parser hands over.
pub data PType : Type 0 where
  p_type_none p_type_storage p_type_sensor p_type_proto p_type_auth : PType

pub record GlobalPlugin : Type 0 where
  pub name : Text
  pub type : PType
  pub file : Option Text

pub record Values : Type 0 where
  pub word : Text
  pub value : Text

-- `struct global_storage` and `global_sensor`; `values` is `NULL` for a block with no item.
pub record GlobalInst : Type 0 where
  pub name : Text
  pub p_name : Text
  pub values : Option (List Values)

pub record DataSet : Type 0 where
  pub name : Text
  pub desc : Option Text
  pub type : NvDsType
  pub cf : NvDsCf
  pub sensor : Option Text
  pub storage : Option Text
  pub system : Text

pub record SystemBlock : Type 0 where
  pub name : Text
  pub desc : Option Text

-- The five static lists of src/plugins/config/file.c.
pub record FileConf : Type 0 where
  pub plugins : List GlobalPlugin
  pub storages : List GlobalInst
  pub sensors : List GlobalInst
  pub data_sets : List DataSet
  pub systems : List SystemBlock
