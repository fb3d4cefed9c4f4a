-- ===== src/Daemon/Plugins.antt =====
-- src/nvconfig.c and src/nvconfig.h: the lists of plugins, and how an instance is initialised through them.
use netvizd.Common.{List, [], Bool, false, Option, none, some, get_elem?}
use netvizd.Common.Int.{ℤ, pos}
use netvizd.Common.Text.{Text}
use netvizd.Config.{Plug, Inst, NvConfig, empty_config}
use netvizd.Startup.{InitCall, null_plug, no_inst_init, init_call, Instance}

-- `struct nv_config_p`
pub record ConfigPlugin : Type 0 where
  pub file : Text

-- `struct nv_stor_p` and `nv_sens_p`, which agree in these fields. `inst_init` returns the status, and sets
-- `beat` and whether there is a `beatfunc`.
pub record InstPlugin (W : Type 0) : Type 0 where
  pub plug : Plug
  pub inst_init : Option (Inst → W → (ℤ × ℤ × Bool) × W)

-- `struct nv_proto_p`: whether `listen` is set.
pub record ProtoPlugin : Type 0 where
  pub plug : Plug
  pub listen : Bool

-- The global variables of src/nvconfig.c, and the rest of the process. The plugins' lists hold the
-- functions too.
pub record Daemon (W : Type 0) : Type 0 where
  pub nv_config_p : Option ConfigPlugin
  pub conf : NvConfig
  pub nv_stor_p_list : List (InstPlugin W)
  pub nv_sens_p_list : List (InstPlugin W)
  pub nv_proto_p_list : List ProtoPlugin
  pub outer : W

-- `calloc`
abbrev pub fresh_plugin : ConfigPlugin
fresh_plugin = record { file = [] }

abbrev pub new_inst_plugin : {W : Type 0} → Plug → InstPlugin W
new_inst_plugin p = record { plug = p; inst_init = none }

abbrev pub new_proto_plugin : Plug → ProtoPlugin
new_proto_plugin p = record { plug = p; listen = false }

-- The plugin that an instance points to.
abbrev pub plugin_of : {W : Type 0} → List (InstPlugin W) → Inst → Option (InstPlugin W)
plugin_of ps i = elim i.plug [ none ↦ none | some n ↦ get_elem? ps n ]

-- `s->plug->inst_init(s)`, where it is set.
unfoldable pub call_inst_init :
    {W : Type 0} → Option (InstPlugin W) → Inst → Daemon W → InitCall (Daemon W)
call_inst_init none i d = null_plug
call_inst_init (some p) i d = elim p.inst_init [
  | none ↦ no_inst_init
  | some f ↦
      let ((ret, beat, beatfunc), w) = f i d.outer in
      init_call ret beat beatfunc (record d { outer = w })
]

abbrev pub stor_instance : {W : Type 0} → Inst → Instance (Daemon W)
stor_instance i = record {
  inst_init = λ d. call_inst_init (plugin_of d.nv_stor_p_list i) i d;
  beat = pos 0;
  beatfunc = false;
}

abbrev pub sens_instance : {W : Type 0} → Inst → Instance (Daemon W)
sens_instance i = record {
  inst_init = λ d. call_inst_init (plugin_of d.nv_sens_p_list i) i d;
  beat = pos 0;
  beatfunc = false;
}

-- The globals before `main`.
abbrev pub new_daemon : {W : Type 0} → W → Daemon W
new_daemon w = record {
  nv_config_p = none;
  conf = empty_config;
  nv_stor_p_list = [];
  nv_sens_p_list = [];
  nv_proto_p_list = [];
  outer = w;
}
