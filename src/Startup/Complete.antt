-- ===== src/Startup/Complete.antt =====
-- src/netvizd.c: the stages of `main` that succeed bring it to its threads.
use netvizd.Common.{subst, ◌≡◌, refl, sym, ap, ◌∙◌, Bool, true, false, List, [], ◌∷◌, not}
use netvizd.Common.Int.{ℤ, pos, ltb_ℤ, eq_ℤ}
use netvizd.Common.Text.{Text}
use netvizd.Startup.{
  Opt, Options, CmdLine, options, default_options, read_options, Instance, Process, System, Lists,
  Run, goes, ◌>>◌, goes_if, InitEnd, all_inited, goes_as, block_signals, stage, load_config,
  load_protos, init_instances, init_stors, init_senss, start_threads, start_all, to_background,
  wait_threads, wait_all, clean_up, set_up, run_main, new_process, main_with, main, returned,
}
use netvizd.Startup.Inited.{InitOk, unset, initialised, AllInit}
use netvizd.Startup.Success.{SetUp}

module _ (S : System) where
  open S use {
    World, sigprocmask, nv_plugins_init, nv_config_init, stor_p_init, sens_p_init, proto_p_init,
    auth_p_init, nv_plugins_free,
  }

  init_first :
      (i j : Instance World) (is js : List (Instance World)) (w w1 w' : World)
      → InitOk i w j w1
      → init_instances S is w1 ≡ ((all_inited, js), w')
      → init_instances S (i ∷ is) w ≡ ((all_inited, j ∷ js), w')
  unfolding init_instances
  init_first i j is js w w1 w' (unset e f g) rest =
      let rest' = subst (λ v. init_instances S is v ≡ ((all_inited, js), w')) g rest in
      rw (init_instances, e, f)
        (ap (λ (r : (InitEnd × List (Instance World)) × World). ((r.0.0, i ∷ r.0.1), r.1)) rest')
  init_first i j is js w w1 w' (initialised beat beatfunc e f) rest =
      rw (init_instances, e, rest, f) refl

  init_instances_complete :
      (is : List (Instance World)) (w : World) (js : List (Instance World)) (w' : World)
      → AllInit is w js w'
      → init_instances S is w ≡ ((all_inited, js), w')
  unfolding init_instances
  init_instances_complete [] w [] w' e = ap (λ v. ((all_inited, []), v)) e
  init_instances_complete [] w (j ∷ js) w' e = absurd e
  init_instances_complete (i ∷ is) w [] w' e = absurd e
  init_instances_complete (i ∷ is) w (j ∷ js) w' (w1, first, rest) =
      init_first i j is js w w1 w' first (init_instances_complete is w1 js w' rest)

  stage-goes :
      (f : World → ℤ × World) (p : Process World) (w' : World)
      → f p.world ≡ (pos 0, w')
      → stage S f p ≡ goes (record p { world = w' })
  unfolding stage
  stage-goes f p w' e =
      ap (λ (r : ℤ × World). goes_if (eq_ℤ r.0 (pos 0)) (record p { world = r.1 })) e

  load_config-goes :
      (name : Text) (p : Process World) (ls : Lists World) (w' : World)
      → nv_config_init name p.world ≡ ((pos 0, ls), w')
      → load_config S name p
        ≡ goes (record p { stors = ls.stor_list; senss = ls.sens_list; world = w' })
  unfolding load_config
  load_config-goes name p ls w' e =
      ap
        (λ (r : (ℤ × Lists World) × World).
          goes_if (eq_ℤ r.0.0 (pos 0))
            (record p { stors = r.0.1.stor_list; senss = r.0.1.sens_list; world = r.1 }))
        e

  load_protos-goes :
      (p : Process World) (bs : List Bool) (w' : World)
      → proto_p_init p.world ≡ ((pos 0, bs), w')
      → load_protos S p ≡ goes (record p { protos = bs; world = w' })
  unfolding load_protos
  load_protos-goes p bs w' e =
      ap
        (λ (r : (ℤ × List Bool) × World).
          goes_if (eq_ℤ r.0.0 (pos 0)) (record p { protos = r.0.1; world = r.1 }))
        e

  init_stors-goes :
      (p : Process World) (js : List (Instance World)) (w' : World)
      → init_instances S p.stors p.world ≡ ((all_inited, js), w')
      → init_stors S p ≡ goes (record p { stors = js; world = w' })
  unfolding init_stors
  init_stors-goes p js w' e =
      ap
        (λ (r : (InitEnd × List (Instance World)) × World).
          goes_as r.0.0 (record p { stors = r.0.1; world = r.1 }))
        e

  init_senss-goes :
      (p : Process World) (js : List (Instance World)) (w' : World)
      → init_instances S p.senss p.world ≡ ((all_inited, js), w')
      → init_senss S p ≡ goes (record p { senss = js; world = w' })
  unfolding init_senss
  init_senss-goes p js w' e =
      ap
        (λ (r : (InitEnd × List (Instance World)) × World).
          goes_as r.0.0 (record p { senss = r.0.1; world = r.1 }))
        e

  block_signals-goes :
      (w0 w1 : World)
      → (w1 ≡ (sigprocmask w0).1) × (ltb_ℤ (sigprocmask w0).0 (pos 0) ≡ false)
      → block_signals S (new_process S w0) ≡ goes (new_process S w1)
  unfolding block_signals
  block_signals-goes w0 w1 (e, h) =
      ap (λ (b : Bool). goes_if (not b) (new_process S (sigprocmask w0).1)) h
      ∙ ap (λ w. goes (new_process S w)) (sym e)

  -- The converse of `set_up-SetUp`.
  pub set_up_complete :
      (name : Text) (w0 : World) (p : Process World)
      → SetUp S name w0 p
      → set_up S name (new_process S w0) ≡ goes (record p { threads = []; waited = [] })
  unfolding set_up
  set_up_complete name w0 p s =
      let p1 : Process World = new_process S s.w1 in
      let p2 : Process World = record p1 { world = s.w2 } in
      let p3 : Process World = record p2 {
        stors = s.lists.stor_list;
        senss = s.lists.sens_list;
        world = s.w3;
      } in
      let p4 : Process World = record p3 { world = s.w4 } in
      let p5 : Process World = record p4 { world = s.w5 } in
      let p6 : Process World = record p5 { protos = p.protos; world = s.w6 } in
      let p7 : Process World = record p6 { world = s.w7 } in
      let (w8, stors, senss) = s.instances in
      let p8 : Process World = record p7 { stors = p.stors; world = w8 } in
      rw
        (
          block_signals-goes w0 s.w1 s.blocked,
          stage-goes nv_plugins_init p1 s.w2 s.loader,
          load_config-goes name p2 s.lists s.w3 s.config,
          stage-goes stor_p_init p3 s.w4 s.storages,
          stage-goes sens_p_init p4 s.w5 s.sensors,
          load_protos-goes p5 p.protos s.w6 s.protocols,
          stage-goes auth_p_init p6 s.w7 s.auths,
          init_stors-goes p7 p.stors w8
              (init_instances_complete p7.stors p7.world p.stors w8 stors),
          init_senss-goes p8 p.senss p.world
              (init_instances_complete p8.senss p8.world p.senss p.world senss),
        )
        refl

  -- In the foreground and without any instance or protocol, `main` has nothing to wait for.
  pub main_none :
      (opts : List Opt) (o : Options) (w0 w : World)
      → read_options opts default_options ≡ options o
      → o.foreground ≡ true
      → SetUp S o.config_name w0 (new_process S w)
      → main S opts w0 ≡ returned (pos 0) (new_process S (nv_plugins_free w))
  unfolding main main_with run_main start_all start_threads to_background wait_all wait_threads
      clean_up
  main_none opts o w0 w e f s =
      ap (λ (c : CmdLine). main_with S c w0) e
      ∙ ap
          (λ (r : Run World).
            clean_up S
              (r >> start_all S >> to_background S o.foreground >> (λ q. goes (wait_all S q))))
          (set_up_complete o.config_name w0 (new_process S w) s)
      ∙ ap
          (λ (fg : Bool).
            clean_up S (to_background S fg (new_process S w) >> (λ q. goes (wait_all S q))))
          f
