-- ===== src/Daemon.antt =====
-- src/nvconfig.c, src/plugin.c and src/netvizd.c: the stages that `main` calls, put together. `nv_config_init`
-- loads the configuration plugin and validates what it has built; the plugins of the lists are then loaded,
-- and set the functions by which their instances are initialised.
pub mod Plugins
pub mod Stages
pub mod Booted
pub mod Configured
pub mod Unconfigured
pub mod Linked
mod Tests
use netvizd.Common.{
  ℕ, zero, List, [], ◌∷◌, map, Bool, true, false, Option, none, some, get_elem?, if◌then◌else◌,
}
use netvizd.Common.Int.{ℤ, pos, negsuc, eq_ℤ}
use netvizd.Common.Text.{Text}
use netvizd.Config.{Plug, Inst, NvConfig, empty_config}
use netvizd.Config.Validate.{nv_validate_conf}
use netvizd.Plugin
use netvizd.Plugin.{Loader}
use netvizd.Daemon.Plugins.{
  ConfigPlugin, InstPlugin, ProtoPlugin, Daemon, fresh_plugin, new_inst_plugin, new_proto_plugin,
  plugin_of, call_inst_init, stor_instance, sens_instance, new_daemon,
}
use netvizd.Startup.{Thread, Instance, Lists, System}

-- What is not the daemon's own code: the libtool loader, the functions that it finds in the plugins, and
-- the system. `run_config` is given the global lists and returns them as the plugin has filled them.
-- `left_over` is what the caller of an `int` function reads that has returned without a value, from the
-- function's last status and the state of the process.
pub record Platform : Type 1 where
  pub World : Type 0
  pub Module : Type 0
  pub Init : Type 0
  pub pkglibdir : Text
  pub lt_dlinit : World → ℤ × World
  pub lt_dlexit : World → ℤ × World
  pub dlopen : Text → World → Option Module × World
  pub dlsym : Module → Text → World → Option Init × World
  pub run_config : Init → ConfigPlugin → NvConfig → World → (ConfigPlugin × ℤ) × (NvConfig × World)
  pub run_inst : Init → InstPlugin World → World → (InstPlugin World × ℤ) × World
  pub run_proto : Init → ProtoPlugin → World → (ProtoPlugin × ℤ) × World
  pub run_auth : Init → Plug → World → (Plug × ℤ) × World
  pub left_over : ℤ → World → ℤ
  pub sigprocmask : World → ℤ × World
  pub pthread_create : Thread → World → ℤ × World
  pub pthread_join : Thread → World → World
  pub fork : List Thread → World → (ℤ × List Thread) × World

-- `stat` at the end of `nv_config_init`, from that of `config_p_init`.
pub config_stat : ℤ → NvConfig → ℤ
config_stat (pos zero) c = nv_validate_conf c
config_stat stat c = stat

-- The return of a stage whose library call has returned `ret`.
pub dl_stat : ℤ → ℤ
dl_stat (pos zero) = pos 0
dl_stat _ = negsuc 0

module _ (O : Platform) where
  open O use {
    World, Module, Init, pkglibdir, lt_dlinit, lt_dlexit, dlopen, dlsym, run_config, run_inst,
    run_proto, run_auth, left_over, sigprocmask, pthread_create, pthread_join, fork,
  }

  abbrev pub inst_loader : Loader (InstPlugin World)
  inst_loader = record {
    World = World;
    Module = Module;
    Init = Init;
    dlopen = dlopen;
    dlsym = dlsym;
    run_init = run_inst;
  }

  abbrev pub proto_loader : Loader ProtoPlugin
  proto_loader = record {
    World = World;
    Module = Module;
    Init = Init;
    dlopen = dlopen;
    dlsym = dlsym;
    run_init = run_proto;
  }

  abbrev pub auth_loader : Loader Plug
  auth_loader = record {
    World = World;
    Module = Module;
    Init = Init;
    dlopen = dlopen;
    dlsym = dlsym;
    run_init = run_auth;
  }

  -- The configuration plugin also acts on the global lists.
  abbrev pub config_loader : Loader ConfigPlugin
  config_loader = record {
    World = NvConfig × World;
    Module = Module;
    Init = Init;
    dlopen = λ path (c, w). let (m, w') = dlopen path w in (m, (c, w'));
    dlsym = λ m symbol (c, w). let (f, w') = dlsym m symbol w in (f, (c, w'));
    run_init = λ f p (c, w). run_config f p c w;
  }

  pub nv_plugins_init : Daemon World → ℤ × Daemon World
  unfolding dl_stat
  nv_plugins_init d = let (ret, w) = lt_dlinit d.outer in (dl_stat ret, record d { outer = w })

  pub nv_plugins_free : Daemon World → ℤ × Daemon World
  unfolding dl_stat
  nv_plugins_free d = let (ret, w) = lt_dlexit d.outer in (dl_stat ret, record d { outer = w })

  -- The lists of plugins that the configuration has made, with no function set yet.
  abbrev pub configured : Daemon World → Option ConfigPlugin → NvConfig → World → Daemon World
  configured d cp c w = record {
    nv_config_p = cp;
    conf = c;
    nv_stor_p_list = map new_inst_plugin c.stor_p;
    nv_sens_p_list = map new_inst_plugin c.sens_p;
    nv_proto_p_list = map new_proto_plugin c.proto_p;
    outer = w;
  }

  -- It ends in `return;`, so its status is lost.
  pub nv_config_init : Text → Daemon World → (ℤ × Lists (Daemon World)) × Daemon World
  unfolding config_stat Plugin.config_p_init
  nv_config_init name d =
      let ((cp, stat), (c, w)) =
        Plugin.config_p_init config_loader pkglibdir fresh_plugin name d.nv_config_p
          (d.conf, d.outer) in
      (
        (
          left_over (config_stat stat c) w,
          record { stor_list = map stor_instance c.stor; sens_list = map sens_instance c.sens },
        ),
        configured d cp c w,
      )

  pub stor_p_init : Daemon World → ℤ × Daemon World
  unfolding Plugin.stor_p_init
  stor_p_init d =
      let ((ps, stat), w) =
        Plugin.stor_p_init inst_loader (λ p. p.plug.file) pkglibdir d.nv_stor_p_list d.outer in
      (stat, record d { nv_stor_p_list = ps; outer = w })

  pub sens_p_init : Daemon World → ℤ × Daemon World
  unfolding Plugin.sens_p_init
  sens_p_init d =
      let ((ps, stat), w) =
        Plugin.sens_p_init inst_loader (λ p. p.plug.file) pkglibdir d.nv_sens_p_list d.outer in
      (stat, record d { nv_sens_p_list = ps; outer = w })

  pub proto_p_init : Daemon World → (ℤ × List Bool) × Daemon World
  unfolding Plugin.proto_p_init
  proto_p_init d =
      let ((ps, stat), w) =
        Plugin.proto_p_init proto_loader (λ p. p.plug.file) pkglibdir d.nv_proto_p_list d.outer in
      ((stat, map (λ p. p.listen) ps), record d { nv_proto_p_list = ps; outer = w })

  pub auth_p_init : Daemon World → ℤ × Daemon World
  unfolding Plugin.auth_p_init
  auth_p_init d =
      let ((ps, stat), w) =
        Plugin.auth_p_init auth_loader (λ p. p.file) pkglibdir d.conf.auth_p d.outer in
      (stat, record d { conf = record d.conf { auth_p = ps }; outer = w })

  -- The stages as `main` calls them.
  abbrev pub system : System
  system = record {
    World = Daemon World;
    sigprocmask = λ d. let (ret, w) = sigprocmask d.outer in (ret, record d { outer = w });
    nv_plugins_init = nv_plugins_init;
    nv_config_init = nv_config_init;
    stor_p_init = stor_p_init;
    sens_p_init = sens_p_init;
    proto_p_init = proto_p_init;
    auth_p_init = auth_p_init;
    pthread_create =
        λ t d. let (ret, w) = pthread_create t d.outer in (ret, record d { outer = w });
    pthread_join = λ t d. record d { outer = pthread_join t d.outer };
    fork = λ ts d. let (r, w) = fork ts d.outer in (r, record d { outer = w });
    nv_plugins_free = λ d. (nv_plugins_free d).1;
  }
