-- ===== src/Startup/Success.antt =====
-- src/netvizd.c: what has happened where `main` has come through its stages.
use netvizd.Common.{arith, not, ◌≡◌, refl, sym, ap, ◌∙◌, Bool, true, false, List}
use netvizd.Common.Int.{ℤ, pos, ltb_ℤ, eq_ℤ}
use netvizd.Common.Text.{Text}
use netvizd.Startup.{
  Instance, Process, System, Lists, Run, crashes, failed, exits, goes, ◌>>◌, goes_if, InitEnd,
  all_inited, init_failed, init_crashed, goes_as, block_signals, stage, load_config, load_protos,
  init_instances, init_stors, init_senss, set_up, new_process, Opt, Options, CmdLine, options,
  default_options, read_options, main, main_with, run_main, clean_up, returned, start_all,
  to_background, wait_all,
}
use netvizd.Startup.Stages.{Holds, >>-Holds}
use netvizd.Startup.Inited.{AllInit, eq_ℤ-zero, init_instances-AllInit}

abbrev Any : {W : Type 0} → Process W → Type 0
Any p = Unit {0}

goes_if-true :
    {W : Type 0} (R : Process W → Type 0) (b : Bool) (p : Process W)
    → (b ≡ true → R p)
    → Holds R Any (goes_if b p)
goes_if-true R true p k = k refl
goes_if-true R false p k = tt

goes_as-all :
    {W : Type 0} (R : Process W → Type 0) (end : InitEnd) (p : Process W)
    → (end ≡ all_inited → R p)
    → Holds R Any (goes_as end p)
goes_as-all R all_inited p k = k refl
goes_as-all R init_failed p k = tt
goes_as-all R init_crashed p k = tt

not-false : (b : Bool) → not b ≡ true → b ≡ false
not-false b h = ground arith

module _ (S : System) where
  open S use {
    World, sigprocmask, nv_plugins_init, nv_config_init, stor_p_init, sens_p_init, proto_p_init,
    auth_p_init,
  }

  stage-Holds :
      (f : World → ℤ × World) (R : Process World → Type 0) (p : Process World)
      → ((w' : World) → f p.world ≡ (pos 0, w') → R (record p { world = w' }))
      → Holds R Any (stage S f p)
  unfolding stage
  stage-Holds f R p k =
      goes_if-true R (eq_ℤ (f p.world).0 (pos 0)) _
        (λ z. k (f p.world).1 (ap (λ (n : ℤ). (n, (f p.world).1)) (eq_ℤ-zero (f p.world).0 z)))

  -- How the process `p`, begun in the world `w0`, has come through `set_up`.
  pub record SetUp (name : Text) (w0 : World) (p : Process World) : Type 0 where
    pub lists : Lists World
    pub w1 : World
    pub w2 : World
    pub w3 : World
    pub w4 : World
    pub w5 : World
    pub w6 : World
    pub w7 : World
    pub blocked : (w1 ≡ (sigprocmask w0).1) × (ltb_ℤ (sigprocmask w0).0 (pos 0) ≡ false)
    pub loader : nv_plugins_init w1 ≡ (pos 0, w2)
    pub config : nv_config_init name w2 ≡ ((pos 0, lists), w3)
    pub storages : stor_p_init w3 ≡ (pos 0, w4)
    pub sensors : sens_p_init w4 ≡ (pos 0, w5)
    pub protocols : proto_p_init w5 ≡ ((pos 0, p.protos), w6)
    pub auths : auth_p_init w6 ≡ (pos 0, w7)
    pub instances :
        (w8 : World) × AllInit lists.stor_list w7 p.stors w8
        × AllInit lists.sens_list w8 p.senss p.world

  module _ (name : Text) (w0 : World) where
    abbrev Blocked : World → Type 0
    Blocked w1 = (w1 ≡ (sigprocmask w0).1) × (ltb_ℤ (sigprocmask w0).0 (pos 0) ≡ false)

    abbrev After : (World → ℤ × World) → (World → Type 0) → World → Type 0
    After f Q w' = (w : World) × Q w × (f w ≡ (pos 0, w'))

    abbrev Configured : Lists World → World → Type 0
    Configured ls w' =
        (w : World) × After nv_plugins_init Blocked w × (nv_config_init name w ≡ ((pos 0, ls), w'))

    abbrev HasLists : Process World → (Lists World → World → Type 0) → Type 0
    HasLists p Q = Q (record { stor_list = p.stors; sens_list = p.senss }) p.world

    abbrev WithSensors : Lists World → World → Type 0
    WithSensors ls = After sens_p_init (After stor_p_init (Configured ls))

    abbrev WithProtocols : Lists World → List Bool → World → Type 0
    WithProtocols ls bs w' = (w : World) × WithSensors ls w × (proto_p_init w ≡ ((pos 0, bs), w'))

    abbrev WithAuths : Lists World → List Bool → World → Type 0
    WithAuths ls bs = After auth_p_init (WithProtocols ls bs)

    abbrev WithStorages : Process World → Type 0
    WithStorages p =
        (is : List (Instance World)) × (w : World) × WithAuths
          (record { stor_list = is; sens_list = p.senss }) p.protos w
        × AllInit is w p.stors p.world

    block_signals-Blocked : Holds (λ q. Blocked q.world) Any (block_signals S (new_process S w0))
    unfolding block_signals
    block_signals-Blocked =
        goes_if-true (λ q. Blocked q.world) (not (ltb_ℤ (sigprocmask w0).0 (pos 0))) _
          (λ z. (refl, not-false _ z))

    load_config-Configured :
        (p : Process World)
        → After nv_plugins_init Blocked p.world
        → Holds (λ q. HasLists q Configured) Any (load_config S name p)
    unfolding load_config
    load_config-Configured p h =
        let r = nv_config_init name p.world in
        goes_if-true (λ q. HasLists q Configured) (eq_ℤ r.0.0 (pos 0)) _
          (λ z. (p.world, h, ap (λ (n : ℤ). ((n, r.0.1), r.1)) (eq_ℤ-zero r.0.0 z)))

    load_protos-WithProtocols :
        (p : Process World)
        → HasLists p WithSensors
        → Holds (λ q. HasLists q (λ ls. WithProtocols ls q.protos)) Any (load_protos S p)
    unfolding load_protos
    load_protos-WithProtocols p h =
        let r = proto_p_init p.world in
        goes_if-true (λ q. HasLists q (λ ls. WithProtocols ls q.protos)) (eq_ℤ r.0.0 (pos 0)) _
          (λ z. (p.world, h, ap (λ (n : ℤ). ((n, r.0.1), r.1)) (eq_ℤ-zero r.0.0 z)))

    init_stors-WithStorages :
        (p : Process World)
        → HasLists p (λ ls. WithAuths ls p.protos)
        → Holds WithStorages Any (init_stors S p)
    unfolding init_stors
    init_stors-WithStorages p h =
        goes_as-all WithStorages (init_instances S p.stors p.world).0.0 _
          (λ z. (p.stors, p.world, h, init_instances-AllInit S p.stors p.world z))

    init_senss-SetUp :
        (p : Process World) → WithStorages p → Holds (SetUp name w0) Any (init_senss S p)
    unfolding init_senss
    init_senss-SetUp p
          (is, w7, (w6, (w5, (w4, (w3, (w2, (w1, b, l), c), st), se), pr), au), inited) =
        goes_as-all (SetUp name w0) (init_instances S p.senss p.world).0.0 _ (λ z. record {
          lists = record { stor_list = is; sens_list = p.senss };
          w1 = w1;
          w2 = w2;
          w3 = w3;
          w4 = w4;
          w5 = w5;
          w6 = w6;
          w7 = w7;
          blocked = b;
          loader = l;
          config = c;
          storages = st;
          sensors = se;
          protocols = pr;
          auths = au;
          instances = (p.world, inited, init_instances-AllInit S p.senss p.world z);
        })

    pub set_up-SetUp : Holds (SetUp name w0) Any (set_up S name (new_process S w0))
    unfolding set_up
    set_up-SetUp =
        >>-Holds WithStorages (SetUp name w0) Any _ _
          (>>-Holds (λ q. HasLists q (λ ls. WithAuths ls q.protos)) WithStorages Any _ _
            (>>-Holds (λ q. HasLists q (λ ls. WithProtocols ls q.protos))
              (λ q. HasLists q (λ ls. WithAuths ls q.protos)) Any _ _
              (>>-Holds (λ q. HasLists q WithSensors)
                (λ q. HasLists q (λ ls. WithProtocols ls q.protos)) Any _ _
                (>>-Holds (λ q. HasLists q (λ ls. After stor_p_init (Configured ls)))
                  (λ q. HasLists q WithSensors) Any _ _
                  (>>-Holds (λ q. HasLists q Configured)
                    (λ q. HasLists q (λ ls. After stor_p_init (Configured ls))) Any _ _
                    (>>-Holds (λ q. After nv_plugins_init Blocked q.world)
                      (λ q. HasLists q Configured) Any _ _
                      (>>-Holds (λ q. Blocked q.world) (λ q. After nv_plugins_init Blocked q.world)
                        Any _ _ block_signals-Blocked
                        (λ p b. stage-Holds nv_plugins_init _ p (λ w e. (p.world, b, e))))
                      load_config-Configured)
                    (λ p b. stage-Holds stor_p_init _ p (λ w e. (p.world, b, e))))
                  (λ p b. stage-Holds sens_p_init _ p (λ w e. (p.world, b, e))))
                load_protos-WithProtocols)
              (λ p b. stage-Holds auth_p_init _ p (λ w e. (p.world, b, e))))
            init_stors-WithStorages)
          init_senss-SetUp

  finished-SetUp :
      (o : Options) (w0 : World) (r : Run World) (p : Process World)
      → Holds (SetUp o.config_name w0) Any r
      → clean_up S (r >> start_all S >> to_background S o.foreground >> (λ q. goes (wait_all S q)))
        ≡ returned (pos 0) p
      → (q : Process World) × SetUp o.config_name w0 q
  unfolding clean_up
  finished-SetUp o w0 (crashes r) p h e = cc
  finished-SetUp o w0 (failed r) p h e = cc
  finished-SetUp o w0 (exits n r) p h e = cc
  finished-SetUp o w0 (goes r) p h e = (r, h)

  -- Where `main` returns 0, it has come through every stage before the threads, in order, each stage in
  -- the world that the one before it left.
  pub main-SetUp :
      (opts : List Opt) (o : Options) (w0 : World) (p : Process World)
      → read_options opts default_options ≡ options o
      → main S opts w0 ≡ returned (pos 0) p
      → (q : Process World) × SetUp o.config_name w0 q
  unfolding main main_with run_main
  main-SetUp opts o w0 p e h =
      finished-SetUp o w0 (set_up S o.config_name (new_process S w0)) p
        (set_up-SetUp o.config_name w0) (sym (ap (λ (c : CmdLine). main_with S c w0) e) ∙ h)
