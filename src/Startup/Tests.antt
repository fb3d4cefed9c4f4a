-- ===== src/Startup/Tests.antt =====
-- src/netvizd.c: runs of `main` with a storage that has no beat, a sensor, and a protocol.
use netvizd.Common.{ℕ, ◌+◌, ◌≡◌, refl, Bool, true, false, List, [], ◌∷◌}
use netvizd.Common.Int.{ℤ, pos, negsuc}
use netvizd.Common.Text.{codes}
use netvizd.Config
use netvizd.Startup.{
  opt_config, opt_foreground, opt_stdout, read_options, of_sens, of_proto, Thread, init_call,
  null_plug, Instance, System, End, crashed, exited, returned, main,
}
use netvizd.Startup.Threads.{EndsWell, main-EndsWell}

-- The world counts the calls.
abbrev one_call : ℕ → ℤ × ℕ
one_call w = (pos 0, w + 1)

abbrev storage : Instance ℕ
storage = record {
  inst_init = λ w. init_call (pos 0) (pos 0) false (w + 1);
  beat = pos 0;
  beatfunc = false;
}

abbrev sensor : ℤ → Instance ℕ
sensor ret = record {
  inst_init = λ w. init_call ret (pos 300) true (w + 1);
  beat = pos 0;
  beatfunc = false;
}

-- A system on which the sensor's `inst_init` returns `ret`.
abbrev system : ℤ → System
system ret = record {
  World = ℕ;
  sigprocmask = one_call;
  nv_plugins_init = one_call;
  nv_config_init =
      λ name w. ((pos 0, record { stor_list = storage ∷ []; sens_list = sensor ret ∷ [] }), w + 1);
  stor_p_init = one_call;
  sens_p_init = one_call;
  proto_p_init = λ w. ((pos 0, true ∷ false ∷ []), w + 1);
  auth_p_init = one_call;
  pthread_create = λ t w. one_call w;
  pthread_join = λ t w. w + 1;
  fork = λ ts w. ((pos 0, []), w + 1);
  nv_plugins_free = λ w. w + 1;
}

abbrev threads_of : {S : System} → End S → List Thread
threads_of (crashed p) = p.threads
threads_of (exited n p) = p.threads
threads_of (returned n p) = p.threads

abbrev waited_of : {S : System} → End S → List Thread
waited_of (crashed p) = p.waited
waited_of (exited n p) = p.waited
waited_of (returned n p) = p.waited

abbrev status_of : {S : System} → End S → ℤ
status_of (crashed p) = negsuc 0
status_of (exited n p) = n
status_of (returned n p) = n

foreground_run :
    let e = main (system (pos 0)) (opt_foreground ∷ []) 0 in
    (status_of e ≡ pos 0)
    × (threads_of e ≡ of_sens 0 ∷ of_proto 0 ∷ [])
    × (waited_of e ≡ of_sens 0 ∷ [])
unfolding main
foreground_run = (refl, refl, refl)

background_run :
    let e = main (system (pos 0)) [] 0 in
    (status_of e ≡ pos 0) × (threads_of e ≡ []) × (waited_of e ≡ of_sens 0 ∷ [])
unfolding main
background_run = (refl, refl, refl)

-- A sensor that does not start.
failed_run :
    let e = main (system (negsuc 0)) (opt_foreground ∷ []) 0 in
    (status_of e ≡ pos 1) × (threads_of e ≡ [])
unfolding main
failed_run = (refl, refl)

-- A sensor without a plugin, whose pointer `main` reads through.
abbrev unlinked : System
unlinked = record (system (pos 0)) {
  nv_config_init = λ name w. (
    (
      pos 0,
      record {
        stor_list = storage ∷ [];
        sens_list = record { inst_init = λ v. null_plug; beat = pos 0; beatfunc = false } ∷ [];
      },
    ),
    w + 1,
  );
}

has_crashed : {S : System} → End S → Bool
has_crashed (crashed p) = true
has_crashed _ = false

unlinked_run : has_crashed (main unlinked (opt_foreground ∷ []) 0) ≡ true
unfolding has_crashed main
unlinked_run = refl

main-EndsWell_example :
    EndsWell
      (system (pos 0))
      true
      (main (system (pos 0)) (opt_config (codes "my.la") ∷ opt_stdout ∷ opt_foreground ∷ []) 0)
unfolding read_options netvizd.Config.name_copy
main-EndsWell_example =
    main-EndsWell (system (pos 0)) (λ ts w h. refl)
      (opt_config (codes "my.la") ∷ opt_stdout ∷ opt_foreground ∷ [])
      (record {
        config_name = codes "my.la";
        debug_mode = false;
        foreground = true;
        log_stdout = true;
      })
      0 refl
