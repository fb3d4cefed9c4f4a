-- ===== src/Startup/Stages.antt =====
-- src/netvizd.c: what holds at the ends of a chain of stages.
use netvizd.Common.{◌≡◌, Bool, true, false, []}
use netvizd.Common.Int.{ℤ}
use netvizd.Common.Text.{Text}
use netvizd.Startup.{
  Process, System, Run, crashes, failed, exits, goes, ◌>>◌, goes_if, InitEnd, all_inited,
  init_failed, init_crashed, goes_as, block_signals, stage, load_config, load_protos, init_stors,
  init_senss, set_up,
}

-- `Q` holds where the next stage goes on, and `N` at every other end.
abbrev pub Holds : {W : Type 0} → (Process W → Type 0) → (Process W → Type 0) → Run W → Type 0
Holds Q N (crashes p) = N p
Holds Q N (failed p) = N p
Holds Q N (exits n p) = N p
Holds Q N (goes p) = Q p

pub >>-Holds :
    {W : Type 0} (Q R N : Process W → Type 0) (r : Run W) (f : Process W → Run W)
    → Holds Q N r
    → ((p : Process W) → Q p → Holds R N (f p))
    → Holds R N (r >> f)
>>-Holds Q R N (crashes p) f h k = h
>>-Holds Q R N (failed p) f h k = h
>>-Holds Q R N (exits n p) f h k = h
>>-Holds Q R N (goes p) f h k = k p h

pub goes_if-Holds :
    {W : Type 0} (Q N : Process W → Type 0) (b : Bool) (p : Process W)
    → Q p
    → N p
    → Holds Q N (goes_if b p)
goes_if-Holds Q N true p q n = q
goes_if-Holds Q N false p q n = n

pub goes_as-Holds :
    {W : Type 0} (Q N : Process W → Type 0) (end : InitEnd) (p : Process W)
    → Q p
    → N p
    → Holds Q N (goes_as end p)
goes_as-Holds Q N all_inited p q n = q
goes_as-Holds Q N init_failed p q n = n
goes_as-Holds Q N init_crashed p q n = n

-- No thread has been waited for.
abbrev pub NoneWaited : {W : Type 0} → Process W → Type 0
NoneWaited p = p.waited ≡ []

abbrev pub Quiet : {W : Type 0} → Process W → Type 0
Quiet p = (p.threads ≡ []) × (p.waited ≡ [])

module _ (S : System) where
  open S use {
    World, sigprocmask, nv_plugins_init, nv_config_init, stor_p_init, sens_p_init, proto_p_init,
    auth_p_init,
  }

  abbrev QuietRun : Run World → Type 0
  QuietRun r = Holds Quiet NoneWaited r

  stage-Quiet : (f : World → ℤ × World) (p : Process World) → Quiet p → QuietRun (stage S f p)
  unfolding stage
  stage-Quiet f p (t, w) = goes_if-Holds Quiet NoneWaited _ _ (t, w) w

  init_stors-Quiet : (p : Process World) → Quiet p → QuietRun (init_stors S p)
  unfolding init_stors
  init_stors-Quiet p (t, w) = goes_as-Holds Quiet NoneWaited _ _ (t, w) w

  init_senss-Quiet : (p : Process World) → Quiet p → QuietRun (init_senss S p)
  unfolding init_senss
  init_senss-Quiet p (t, w) = goes_as-Holds Quiet NoneWaited _ _ (t, w) w

  load_config-Quiet : (name : Text) (p : Process World) → Quiet p → QuietRun (load_config S name p)
  unfolding load_config
  load_config-Quiet name p (t, w) = goes_if-Holds Quiet NoneWaited _ _ (t, w) w

  load_protos-Quiet : (p : Process World) → Quiet p → QuietRun (load_protos S p)
  unfolding load_protos
  load_protos-Quiet p (t, w) = goes_if-Holds Quiet NoneWaited _ _ (t, w) w

  block_signals-Quiet : (p : Process World) → Quiet p → QuietRun (block_signals S p)
  unfolding block_signals
  block_signals-Quiet p (t, w) = goes_if-Holds Quiet NoneWaited _ _ (t, w) w

  abbrev then-Quiet :
      (r : Run World) (f : Process World → Run World)
      → QuietRun r
      → ((p : Process World) → Quiet p → QuietRun (f p))
      → QuietRun (r >> f)
  then-Quiet r f h k = >>-Holds Quiet Quiet NoneWaited r f h k

  pub set_up-Quiet : (name : Text) (p : Process World) → Quiet p → QuietRun (set_up S name p)
  unfolding set_up
  set_up-Quiet name p h =
      then-Quiet _ (init_senss S)
        (then-Quiet _ (init_stors S)
          (then-Quiet _ (stage S auth_p_init)
            (then-Quiet _ (load_protos S)
              (then-Quiet _ (stage S sens_p_init)
                (then-Quiet _ (stage S stor_p_init)
                  (then-Quiet _ (load_config S name)
                    (then-Quiet _ (stage S nv_plugins_init) (block_signals-Quiet p h)
                      (stage-Quiet nv_plugins_init))
                    (load_config-Quiet name))
                  (stage-Quiet stor_p_init))
                (stage-Quiet sens_p_init))
              load_protos-Quiet)
            (stage-Quiet auth_p_init))
          init_stors-Quiet)
        init_senss-Quiet
