-- ===== src/Plugin.antt =====
-- src/plugin.c: how the plugins of the configuration are opened and initialised. The libtool loader is
-- a parameter, and so is the world that it and the plugins act on.
pub mod Load
pub mod LoadConfig
mod Tests
use netvizd.Common.{ℕ, zero, ◌+◌, ◌-◌, List, [], ◌∷◌, ◌++◌, Option, none, some, length, take}
use netvizd.Common.Int.{ℤ, pos, negsuc}
use netvizd.Common.Text.{Text, codes}

-- `lt_dlopen`, `lt_dlsym`, and a call of the function found. `World` is the state of the process.
pub record Loader (P : Type 0) : Type 1 where
  pub World : Type 0
  pub Module : Type 0
  pub Init : Type 0
  pub dlopen : Text → World → Option Module × World
  pub dlsym : Module → Text → World → Option Init × World
  pub run_init : Init → P → World → (P × ℤ) × World

-- What `snprintf(buf, len, "%s/%s", dir, file)` leaves in `buf`.
pub plugin_path : Text → Text → Text
plugin_path dir file = let len = length dir + length file + 2 in take (len - 1) (dir ++ b'/' ∷ file)

pub new_stat : ℤ → ℤ → ℤ
new_stat (pos zero) stat = stat
new_stat ret stat = ret

module _ {P : Type 0} (L : Loader P) (file : P → Text) where
  open L use {World, Module, Init, dlopen, dlsym, run_init}

  -- One round of a loop of `stor_p_init` and its like, from its end: `p` is the plugin and `stat` the
  -- status before.
  pub call_init : P → ℤ → Option Init × World → (P × ℤ) × World
  unfolding new_stat
  call_init p stat (none, w) = ((p, negsuc 0), w)
  call_init p stat (some f, w) =
      let called = run_init f p w in ((called.0.0, new_stat called.0.1 stat), called.1)

  pub load_symbol : Text → P → ℤ → Option Module × World → (P × ℤ) × World
  unfolding call_init
  load_symbol symbol p stat (none, w) = ((p, negsuc 0), w)
  load_symbol symbol p stat (some m, w) = call_init p stat (dlsym m symbol w)

  pub load_plugin : Text → Text → P → ℤ → World → (P × ℤ) × World
  unfolding load_symbol plugin_path
  load_plugin dir symbol p stat w = load_symbol symbol p stat (dlopen (plugin_path dir (file p)) w)

  pub load_plugins : Text → Text → List P → ℤ → World → (List P × ℤ) × World
  unfolding load_plugin
  load_plugins dir symbol [] stat w = (([], stat), w)
  load_plugins dir symbol (p ∷ ps) stat w =
      let done = load_plugin dir symbol p stat w in
      let rest = load_plugins dir symbol ps done.0.1 done.1 in
      ((done.0.0 ∷ rest.0.0, rest.0.1), rest.1)

  -- `pkglibdir` is set by the build.
  module _ (pkglibdir : Text) where
    unfoldable pub stor_p_init : List P → World → (List P × ℤ) × World
    unfolding load_plugins
    stor_p_init ps w =
        load_plugins (pkglibdir ++ codes "/plugins/storage") (codes "storage_init") ps (pos 0) w

    unfoldable pub sens_p_init : List P → World → (List P × ℤ) × World
    unfolding load_plugins
    sens_p_init ps w =
        load_plugins (pkglibdir ++ codes "/plugins/sensor") (codes "sensor_init") ps (pos 0) w

    unfoldable pub proto_p_init : List P → World → (List P × ℤ) × World
    unfolding load_plugins
    proto_p_init ps w =
        load_plugins (pkglibdir ++ codes "/plugins/proto") (codes "proto_init") ps (pos 0) w

    unfoldable pub auth_p_init : List P → World → (List P × ℤ) × World
    unfolding load_plugins
    auth_p_init ps w =
        load_plugins (pkglibdir ++ codes "/plugins/auth") (codes "auth_init") ps (pos 0) w

-- `config_p_init`: the structure `p` and the status after it; `none` is the freed structure.
module _ {P : Type 0} (L : Loader P) (pkglibdir : Text) (fresh : P) where
  open L use {World, Module, Init, dlopen, dlsym, run_init}

  abbrev pub allocated : Option P → P
  allocated none = fresh
  allocated (some p) = p

  pub config_call : Option P → Option Init × World → (Option P × ℤ) × World
  config_call p (none, w) = ((none, negsuc 0), w)
  config_call p (some f, w) =
      let called = run_init f (allocated p) w in ((some called.0.0, called.0.1), called.1)

  pub config_symbol : Option P → Option Module × World → (Option P × ℤ) × World
  unfolding config_call
  config_symbol p (none, w) = ((p, negsuc 0), w)
  config_symbol p (some m, w) = config_call p (dlsym m (codes "config_init") w)

  unfoldable pub config_p_init : Text → Option P → World → (Option P × ℤ) × World
  unfolding config_symbol plugin_path
  config_p_init file p w =
      config_symbol p (dlopen (plugin_path (pkglibdir ++ codes "/plugins/config") file) w)
