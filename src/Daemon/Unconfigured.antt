-- ===== src/Daemon/Unconfigured.antt =====
-- src/nvconfig.c and src/netvizd.c: the daemon without its configuration.
use netvizd.Common.{map, ◌≡◌, refl, sym, ap, ◌∙◌, List, [], ◌∷◌, ◌++◌, true, Option, none}
use netvizd.Common.Int.{ℤ, pos, negsuc, ltb_ℤ}
use netvizd.Common.Text.{Text, codes}
use netvizd.Config.{NvConfig, empty_config}
use netvizd.Plugin.LoadConfig.{config_p_init-unopened}
use netvizd.Startup.Complete.{main_none}
use netvizd.Daemon.{config_stat}
use netvizd.Startup.{
  Opt, Options, options, default_options, read_options, new_process, main, returned,
}
use netvizd.Daemon.Plugins.{ConfigPlugin, stor_instance, sens_instance, fresh_plugin, new_daemon}
use netvizd.Daemon.{
  Platform, dl_stat, config_loader, nv_plugins_init, nv_plugins_free, nv_config_init, stor_p_init,
  sens_p_init, proto_p_init, auth_p_init, configured, system,
}

module _ (O : Platform) where
  open O use {World, Module, pkglibdir, lt_dlinit, left_over, sigprocmask, dlopen}

  plugins_init-goes :
      (w w' : World)
      → lt_dlinit w ≡ (pos 0, w')
      → nv_plugins_init O (new_daemon w) ≡ (pos 0, new_daemon w')
  unfolding nv_plugins_init dl_stat
  plugins_init-goes w w' e = ap (λ (r : ℤ × World). (dl_stat r.0, new_daemon r.1)) e

  config_init-unopened :
      (name : Text) (w w' : World)
      → dlopen (pkglibdir ++ codes "/plugins/config" ++ b'/' ∷ name) w ≡ (none, w')
      → left_over (negsuc 0) w' ≡ pos 0
      → nv_config_init O name (new_daemon w)
        ≡ ((pos 0, record { stor_list = []; sens_list = [] }), new_daemon w')
  unfolding nv_config_init config_stat
  config_init-unopened name w w' e l =
      ap
        (λ (r : (Option ConfigPlugin × ℤ) × (NvConfig × World)). (
          (
            left_over (config_stat r.0.1 r.1.0) r.1.1,
            record {
              stor_list = map stor_instance r.1.0.stor;
              sens_list = map sens_instance r.1.0.sens;
            },
          ),
          configured O (new_daemon w) r.0.0 r.1.0 r.1.1,
        ))
        (config_p_init-unopened (config_loader O) pkglibdir fresh_plugin name none (empty_config, w)
          (empty_config, w') (ap (λ (r : Option Module × World). (r.0, (empty_config, r.1))) e))
      ∙ ap (λ (n : ℤ). ((n, record { stor_list = []; sens_list = [] }), new_daemon w')) l

  -- Where the configuration plugin cannot be opened and what is left over of `nv_config_init` is 0, `main`
  -- takes the empty lists for its configuration: in the foreground it starts no thread, closes the
  -- loader, and returns 0.
  pub main-unconfigured :
      (opts : List Opt) (o : Options) (w w1 w2 w3 : World)
      → read_options opts default_options ≡ options o
      → o.foreground ≡ true
      → sigprocmask w ≡ (pos 0, w1)
      → lt_dlinit w1 ≡ (pos 0, w2)
      → dlopen (pkglibdir ++ codes "/plugins/config" ++ b'/' ∷ o.config_name) w2 ≡ (none, w3)
      → left_over (negsuc 0) w3 ≡ pos 0
      → main (system O) opts (new_daemon w)
        ≡ returned (pos 0) (new_process (system O) (nv_plugins_free O (new_daemon w3)).1)
  unfolding stor_p_init sens_p_init proto_p_init auth_p_init
  main-unconfigured opts o w w1 w2 w3 e f s l c left =
      main_none (system O) opts o (new_daemon w) (new_daemon w3) e f (record {
        lists = record { stor_list = []; sens_list = [] };
        w1 = new_daemon w1;
        w2 = new_daemon w2;
        w3 = new_daemon w3;
        w4 = new_daemon w3;
        w5 = new_daemon w3;
        w6 = new_daemon w3;
        w7 = new_daemon w3;
        blocked = (
          ap (λ (r : ℤ × World). new_daemon r.1) (sym s),
          ap (λ (r : ℤ × World). ltb_ℤ r.0 (pos 0)) s,
        );
        loader = plugins_init-goes w1 w2 l;
        config = config_init-unopened o.config_name w2 w3 c left;
        storages = refl;
        sensors = refl;
        protocols = refl;
        auths = refl;
        instances = (new_daemon w3, refl, refl);
      })
