-- ===== src/Daemon/Tests.antt =====
-- src/netvizd.c, src/nvconfig.c and src/plugin.c: runs of `main` from its command line to its threads, with
-- the sample configuration and without.
use netvizd.Common.{ℕ, ◌+◌, ◌≡◌, refl, true, Option, [], ◌∷◌, none, some, if◌then◌else◌}
use netvizd.Common.Int.{ℤ, pos}
use netvizd.Common.Text.{Text, codes, same_text}
use netvizd.Config.{name_copy}
use netvizd.Config.File.Tests.{served, serving}
use netvizd.Config.Validate.{nv_validate_conf}
use netvizd.Startup.{
  opt_config, opt_foreground, Options, default_options, read_options, of_stor, of_sens, of_proto,
  Process, System, End, crashed, exited, returned, main, new_process,
}
use netvizd.Daemon.Plugins.{call_inst_init, Daemon, new_daemon}
use netvizd.Daemon.{
  Platform, nv_plugins_init, nv_plugins_free, nv_config_init, stor_p_init, sens_p_init,
  proto_p_init, auth_p_init, system,
}
use netvizd.Daemon.Booted.{Booted, main-Booted}
use netvizd.Daemon.Configured.{Configured, main-Configured}
use netvizd.Config.Validate.Tests.{served-made}
use netvizd.Daemon.Linked.{IsFilePlugin, Linked, main-Linked}
use netvizd.Daemon.Unconfigured.{main-unconfigured}

abbrev one_call : ℕ → ℤ × ℕ
one_call w = (pos 0, w + 1)

-- The world counts the calls. Every file opens but a configuration plugin `lost.la`, and the configuration
-- plugin makes the lists of `serving`. A storage plugin sets `inst_init`, which asks for a beat; a protocol plugin sets `listen`.
abbrev platform : (ℤ → ℤ) → (Text → Option Text) → Platform
platform left opens = record {
  World = ℕ;
  Module = Text;
  Init = Text;
  pkglibdir = codes "/l";
  lt_dlinit = one_call;
  lt_dlexit = one_call;
  dlopen = λ path w. (opens path, w + 1);
  dlsym = λ m symbol w. (some symbol, w + 1);
  run_config = λ f p c w. ((p, pos 0), (serving, w + 1));
  run_inst = λ f p w.
      ((record p { inst_init = some (λ i v. ((pos 0, pos 300, true), v + 1)) }, pos 0), w + 1);
  run_proto = λ f p w. ((record p { listen = true }, pos 0), w + 1);
  run_auth = λ f p w. ((p, pos 0), w + 1);
  left_over = λ stat w. left stat;
  sigprocmask = one_call;
  pthread_create = λ t w. one_call w;
  pthread_join = λ t w. w + 1;
  fork = λ ts w. ((pos 0, []), w + 1);
}

abbrev keeping : Platform
keeping = platform (λ stat. stat) (λ path. some path)

abbrev process_of : {S : System} → End S → Process S.World
process_of (crashed p) = p
process_of (exited n p) = p
process_of (returned n p) = p

abbrev run : End (system keeping)
run = main (system keeping) (opt_foreground ∷ []) (new_daemon 0)

abbrev foreground_options : Options
foreground_options = record default_options { foreground = true }

run_returned : run ≡ returned (pos 0) (process_of run)
unfolding main nv_plugins_init nv_plugins_free nv_config_init stor_p_init sens_p_init proto_p_init
    auth_p_init nv_validate_conf call_inst_init
run_returned = refl

main-Booted_example : (q : Process (Daemon ℕ)) × Booted keeping foreground_options.config_name 0 q
unfolding read_options
main-Booted_example =
    main-Booted keeping (opt_foreground ∷ []) foreground_options 0 (process_of run) refl
      run_returned

-- Both storages' and sensors' threads, and that of the protocol.
run_threads : (process_of run).threads ≡ of_stor 0 ∷ of_sens 0 ∷ of_proto 0 ∷ []
unfolding main nv_plugins_init nv_plugins_free nv_config_init stor_p_init sens_p_init proto_p_init
    auth_p_init nv_validate_conf call_inst_init
run_threads = refl

main-Configured_example :
    (q : Process (Daemon ℕ)) × (b : Booted keeping foreground_options.config_name 0 q) × Configured
      keeping foreground_options.config_name b.w1 b.conf b.w2
unfolding read_options
main-Configured_example =
    main-Configured keeping (λ stat w. refl) (opt_foreground ∷ []) foreground_options 0
      (process_of run) refl run_returned

-- The plugin is not there, and what is left over is 0.
abbrev forgetting : Platform
forgetting =
    platform (λ stat. pos 0)
      (λ path. if same_text path (codes "/l/plugins/config/lost.la") then none else some path)

abbrev lost_options : Options
lost_options = record default_options { config_name = codes "lost.la"; foreground = true }

main-unconfigured_example :
    main (system forgetting) (opt_config (codes "lost.la") ∷ opt_foreground ∷ []) (new_daemon 0)
    ≡ returned
        (pos 0)
        (new_process (system forgetting) (nv_plugins_free forgetting (new_daemon 3)).1)
unfolding read_options same_text name_copy
main-unconfigured_example =
    main-unconfigured forgetting (opt_config (codes "lost.la") ∷ opt_foreground ∷ []) lost_options 0
      1 2 3 refl refl refl refl refl refl

-- The configuration plugin of the first run gives what file.c makes of the file.
keeping-IsFilePlugin : IsFilePlugin keeping (pos 0) served
keeping-IsFilePlugin g p w = served-made

main-Linked_example :
    (q : Process (Daemon ℕ)) × Linked keeping served foreground_options.config_name 0 q
unfolding read_options
main-Linked_example =
    main-Linked keeping (λ stat w. refl) (pos 0) served keeping-IsFilePlugin (opt_foreground ∷ [])
      foreground_options 0 (process_of run) refl run_returned
