-- ===== src/Daemon/Configured.antt =====
-- src/nvconfig.c: what the lost status of `nv_config_init` means for the daemon.
use netvizd.Common.{zero, suc, ◌≡◌, ◌≢◌, refl, sym, ap, ◌∙◌, List, [], ◌++◌, none}
use netvizd.Common.Int.{ℤ, pos, negsuc}
use netvizd.Common.Text.{Text, codes}
use netvizd.Config.{NvConfig, empty_config}
use netvizd.Config.Validate.{nv_validate_conf, nv_validate_conf-zero}
use netvizd.Plugin.Load.{Loads}
use netvizd.Plugin.LoadConfig.{config_p_init-Loads}
use netvizd.Startup.{Opt, Options, options, default_options, read_options, Process, main, returned}
use netvizd.Daemon.Plugins.{ConfigPlugin, Daemon, fresh_plugin, new_daemon}
use netvizd.Daemon.{Platform, config_stat, config_loader, system}
use netvizd.Daemon.Booted.{Booted, main-Booted}

config_stat-zero :
    (stat : ℤ) (c : NvConfig)
    → config_stat stat c ≡ pos 0
    → (stat ≡ pos 0) × (nv_validate_conf c ≡ pos 0)
unfolding config_stat
config_stat-zero (pos zero) c h = (refl, h)
config_stat-zero (pos (suc n)) c h = cc
config_stat-zero (negsuc n) c h = cc

module _ (O : Platform) where
  open O use {World, pkglibdir, lt_dlinit, left_over, sigprocmask, dlopen}

  -- The configuration plugin was loaded from the world `w`, and its lists can be run.
  pub record Configured (name : Text) (w : World) (c : NvConfig) (w' : World) : Type 0 where
    pub plugin : ConfigPlugin
    pub loads :
        Loads
          (config_loader O)
          (λ _. name)
          (pkglibdir ++ codes "/plugins/config")
          (codes "config_init")
          fresh_plugin
          (empty_config, w)
          plugin
          (c, w')
    pub has_proto : c.proto_p ≢ []
    pub has_auth : c.auth_p ≢ []
    pub has_stor : c.stor ≢ []
    pub has_dset : c.dsts ≢ []

  Configured-of_stat :
      (name : Text) (w : World) (p : Process (Daemon World)) (b : Booted O name w p)
      → config_stat b.stat b.conf ≡ pos 0
      → Configured name b.w1 b.conf b.w2
  Configured-of_stat name w p b h =
      let (returns, valid) = config_stat-zero b.stat b.conf h in
      let (plugin, _, loads) =
        (config_p_init-Loads (config_loader O) pkglibdir fresh_plugin name none b.config_plugin
            (empty_config, b.w1) (b.conf, b.w2)).0
          (b.config ∙ ap (λ (s : ℤ). ((b.config_plugin, s), (b.conf, b.w2))) returns) in
      let (proto, auth, stor, dset) = (nv_validate_conf-zero b.conf).0 valid in
      record {
        plugin = plugin;
        loads = loads;
        has_proto = proto;
        has_auth = auth;
        has_stor = stor;
        has_dset = dset;
      }

  -- Where what is left over of `nv_config_init` is its last status, and `main` returns 0: the configuration
  -- plugin was opened by its whole path, its function returned 0 on a fresh structure and empty lists, and
  -- the lists that it made hold a protocol, an authentication plugin, a storage and a data set.
  pub main-Configured :
      (keeps : (stat : ℤ) (w : World) → left_over stat w ≡ stat) (opts : List Opt) (o : Options)
      (w : World) (p : Process (Daemon World))
      → read_options opts default_options ≡ options o
      → main (system O) opts (new_daemon w) ≡ returned (pos 0) p
      → (q : Process (Daemon World)) × (b : Booted O o.config_name w q) × Configured o.config_name
          b.w1 b.conf b.w2
  main-Configured keeps opts o w p e h =
      let (q, b) = main-Booted O opts o w p e h in
      (q, b, Configured-of_stat o.config_name w q b (sym (keeps _ b.w2) ∙ b.lost))
