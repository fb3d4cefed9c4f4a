-- ===== src/Daemon/Booted.antt =====
-- src/netvizd.c, src/nvconfig.c and src/plugin.c: the daemon that `main` has brought up.
use netvizd.Common.{subst, ◌≡◌, List, ◌++◌, map, Option, none}
use netvizd.Common.Int.{ℤ, pos}
use netvizd.Common.Text.{Text, codes}
use netvizd.Config.{Plug, NvConfig, empty_config}
use netvizd.Plugin
use netvizd.Plugin.Load.{AllLoad}
use netvizd.Startup.{Opt, Options, options, default_options, read_options, Process, main, returned}
use netvizd.Startup.Inited.{AllInit}
use netvizd.Startup.Success.{SetUp, main-SetUp}
use netvizd.Daemon.Plugins.{
  ConfigPlugin, InstPlugin, ProtoPlugin, Daemon, fresh_plugin, new_inst_plugin, new_proto_plugin,
  stor_instance, sens_instance, new_daemon,
}
use netvizd.Daemon.{
  Platform, config_stat, inst_loader, proto_loader, auth_loader, config_loader, nv_plugins_init,
  nv_config_init, stor_p_init, sens_p_init, proto_p_init, auth_p_init, system, configured,
}
use netvizd.Daemon.Stages.{
  nv_plugins_init-zero, nv_config_init-zero, stor_p_init-zero, sens_p_init-zero, proto_p_init-zero,
  auth_p_init-zero,
}

module _ (O : Platform) where
  open O use {World, pkglibdir, lt_dlinit, left_over, sigprocmask}

  -- The path of `main`, from the world `w` on, to its threads: the configuration plugin `name` has made
  -- the lists `conf`, every plugin of these lists is loaded, and every instance is initialised.
  pub record Booted (name : Text) (w : World) (p : Process (Daemon World)) : Type 0 where
    pub w1 : World
    pub w2 : World
    pub w3 : World
    pub w4 : World
    pub w5 : World
    pub w6 : World
    pub conf : NvConfig
    pub config_plugin : Option ConfigPlugin
    pub stat : ℤ
    pub stor_plugins : List (InstPlugin World)
    pub sens_plugins : List (InstPlugin World)
    pub proto_plugins : List ProtoPlugin
    pub auth_plugins : List Plug
    pub loader : lt_dlinit (sigprocmask w).1 ≡ (pos 0, w1)
    pub config :
        Plugin.config_p_init (config_loader O) pkglibdir fresh_plugin name none (empty_config, w1)
        ≡ ((config_plugin, stat), (conf, w2))
    pub lost : left_over (config_stat stat conf) w2 ≡ pos 0
    pub storages :
        AllLoad
          (inst_loader O)
          (λ p. p.plug.file)
          (pkglibdir ++ codes "/plugins/storage")
          (codes "storage_init")
          (map new_inst_plugin conf.stor_p)
          w2
          stor_plugins
          w3
    pub sensors :
        AllLoad
          (inst_loader O)
          (λ p. p.plug.file)
          (pkglibdir ++ codes "/plugins/sensor")
          (codes "sensor_init")
          (map new_inst_plugin conf.sens_p)
          w3
          sens_plugins
          w4
    pub protocols :
        AllLoad
          (proto_loader O)
          (λ p. p.plug.file)
          (pkglibdir ++ codes "/plugins/proto")
          (codes "proto_init")
          (map new_proto_plugin conf.proto_p)
          w4
          proto_plugins
          w5
    pub listening : p.protos ≡ map (λ p. p.listen) proto_plugins
    pub auths :
        AllLoad
          (auth_loader O)
          (λ p. p.file)
          (pkglibdir ++ codes "/plugins/auth")
          (codes "auth_init")
          conf.auth_p
          w5
          auth_plugins
          w6
    pub instances :
        (d : Daemon World) × AllInit
          (map stor_instance conf.stor)
          (record {
            nv_config_p = config_plugin;
            conf = record conf { auth_p = auth_plugins };
            nv_stor_p_list = stor_plugins;
            nv_sens_p_list = sens_plugins;
            nv_proto_p_list = proto_plugins;
            outer = w6;
          })
          p.stors
          d
        × AllInit (map sens_instance conf.sens) d p.senss p.world

  SetUp-Booted :
      (name : Text) (w : World) (p : Process (Daemon World))
      → SetUp (system O) name (new_daemon w) p
      → Booted name w p
  SetUp-Booted name w p s =
      let d1 : Daemon World = record (new_daemon w) { outer = (sigprocmask w).1 } in
      let (w1, loader, e2) =
        nv_plugins_init-zero O d1 s.w2
          (subst (λ d. nv_plugins_init O d ≡ (pos 0, s.w2)) s.blocked.0 s.loader) in
      let d2 : Daemon World = record d1 { outer = w1 } in
      let (cp, stat, c, w2, config, lost, same, e3) =
        nv_config_init-zero O name d2 s.w3 s.lists
          (subst (λ d. nv_config_init O name d ≡ ((pos 0, s.lists), s.w3)) e2 s.config) in
      let d3 = configured O d2 cp c w2 in
      let (ss, w3, storages, e4) =
        stor_p_init-zero O d3 s.w4 (subst (λ d. stor_p_init O d ≡ (pos 0, s.w4)) e3 s.storages) in
      let d4 : Daemon World = record d3 { nv_stor_p_list = ss; outer = w3 } in
      let (ns, w4, sensors, e5) =
        sens_p_init-zero O d4 s.w5 (subst (λ d. sens_p_init O d ≡ (pos 0, s.w5)) e4 s.sensors) in
      let d5 : Daemon World = record d4 { nv_sens_p_list = ns; outer = w4 } in
      let (ps, w5, protocols, listening, e6) =
        proto_p_init-zero O d5 s.w6 p.protos
          (subst (λ d. proto_p_init O d ≡ ((pos 0, p.protos), s.w6)) e5 s.protocols) in
      let d6 : Daemon World = record d5 { nv_proto_p_list = ps; outer = w5 } in
      let (as_, w6, auths, e7) =
        auth_p_init-zero O d6 s.w7 (subst (λ d. auth_p_init O d ≡ (pos 0, s.w7)) e6 s.auths) in
      let (w8, stors, senss) = s.instances in
      record {
        w1 = w1;
        w2 = w2;
        w3 = w3;
        w4 = w4;
        w5 = w5;
        w6 = w6;
        conf = c;
        config_plugin = cp;
        stat = stat;
        stor_plugins = ss;
        sens_plugins = ns;
        proto_plugins = ps;
        auth_plugins = as_;
        loader = loader;
        config = config;
        lost = lost;
        storages = storages;
        sensors = sensors;
        protocols = protocols;
        listening = listening;
        auths = auths;
        instances = (
          w8,
          subst (λ d. AllInit (map stor_instance c.stor) d p.stors w8) e7
              (subst (λ ls. AllInit ls.stor_list s.w7 p.stors w8) same stors),
          subst (λ ls. AllInit ls.sens_list w8 p.senss p.world) same senss,
        );
      }

  -- Where `main` returns 0: the loader was started, the configuration plugin was called for by its name, and
  -- then every storage, sensor, protocol and authentication plugin of the lists that it made was found by
  -- its whole path, defined the function of its kind, and that function returned 0; and after that the
  -- storage instances and then the sensor instances were gone through in the order of the lists, each in
  -- the state that the one before it left: where the instance's plugin had set the function for it, that
  -- returned 0, and where it had not, the instance stayed as it was; none was without a plugin. Of the
  -- configuration's own status only the value that is left over is known to be 0.
  pub main-Booted :
      (opts : List Opt) (o : Options) (w : World) (p : Process (Daemon World))
      → read_options opts default_options ≡ options o
      → main (system O) opts (new_daemon w) ≡ returned (pos 0) p
      → (q : Process (Daemon World)) × Booted o.config_name w q
  main-Booted opts o w p e h =
      let (q, s) = main-SetUp (system O) opts o (new_daemon w) p e h in
      (q, SetUp-Booted o.config_name w q s)
