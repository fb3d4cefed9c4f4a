-- ===== src/Startup.antt =====
-- src/netvizd.c: `main`. The stages that it calls act on a world that is a parameter, and so do
-- `pthread_create`, `fork` and the rest of the system.
pub mod Stages
pub mod Started
pub mod Inited
pub mod Success
pub mod Complete
pub mod Threads
mod Tests
use netvizd.Common.{
  ℕ, zero, suc, ◌+◌, ◌≡◌, Bool, true, false, ◌&&◌, List, [], ◌∷◌, ◌++◌, Option, none, some, not,
  if◌then◌else◌,
}
use netvizd.Common.Int.{ℤ, pos, negsuc, eq_ℤ, ltb_ℤ}
use netvizd.Common.Text.{Text, codes}
use netvizd.Config.{name_copy}

-- What `getopt_long` gives for each option; `opt_unknown` is a question mark.
pub data Opt : Type 0 where
  opt_config : Text → Opt
  opt_debug opt_foreground opt_stdout opt_help opt_unknown opt_other : Opt

pub record Options : Type 0 where
  pub config_name : Text
  pub debug_mode : Bool
  pub foreground : Bool
  pub log_stdout : Bool

abbrev pub default_options : Options
default_options = record {
  config_name = codes "file.la";
  debug_mode = false;
  foreground = false;
  log_stdout = false;
}

-- The command line ends the process, or gives the options.
pub data CmdLine : Type 0 where
  usage_shown : ℤ → CmdLine
  options : Options → CmdLine

unfoldable pub read_options : List Opt → Options → CmdLine
read_options [] o = options o
read_options (opt_config name ∷ opts) o =
    read_options opts (record o { config_name = name_copy name })
read_options (opt_debug ∷ opts) o = read_options opts (record o { debug_mode = true })
read_options (opt_foreground ∷ opts) o = read_options opts (record o { foreground = true })
read_options (opt_stdout ∷ opts) o = read_options opts (record o { log_stdout = true })
read_options (opt_help ∷ opts) o = usage_shown (pos 0)
read_options (opt_unknown ∷ opts) o = read_options opts o
read_options (opt_other ∷ opts) o = usage_shown (pos 1)

-- A thread of the process, by the position of its instance or plugin.
pub data Thread : Type 0 where
  of_stor : ℕ → Thread
  of_sens : ℕ → Thread
  of_proto : ℕ → Thread

-- `s->plug->inst_init` of an instance: `s->plug` is `NULL`, or the plugin has not set the function, or it
-- is called. It returns the status, and sets `beat` and whether there is a `beatfunc`.
pub data InitCall (W : Type 0) : Type 0 where
  null_plug no_inst_init : InitCall W
  init_call : (ret beat : ℤ) (beatfunc : Bool) → W → InitCall W

-- What `main` reads and writes of an instance: a storage or a sensor.
pub record Instance (W : Type 0) : Type 0 where
  pub inst_init : W → InitCall W
  pub beat : ℤ
  pub beatfunc : Bool

-- `protos` holds whether each protocol has a `listen`. `waited` holds the threads that were joined.
pub record Process (W : Type 0) : Type 0 where
  pub stors : List (Instance W)
  pub senss : List (Instance W)
  pub protos : List Bool
  pub threads : List Thread
  pub waited : List Thread
  pub world : W

pub record Lists (W : Type 0) : Type 0 where
  pub stor_list : List (Instance W)
  pub sens_list : List (Instance W)

pub record System : Type 1 where
  pub World : Type 0
  pub sigprocmask : World → ℤ × World
  pub nv_plugins_init : World → ℤ × World
  pub nv_config_init : Text → World → (ℤ × Lists World) × World
  pub stor_p_init : World → ℤ × World
  pub sens_p_init : World → ℤ × World
  -- The status, and whether each plugin has set `listen`.
  pub proto_p_init : World → (ℤ × List Bool) × World
  pub auth_p_init : World → ℤ × World
  pub pthread_create : Thread → World → ℤ × World
  pub pthread_join : Thread → World → World
  -- The threads are those of the process in which the call returns.
  pub fork : List Thread → World → (ℤ × List Thread) × World
  pub nv_plugins_free : World → World

-- The ends of a stage: an access through `NULL`, `goto cleanup` with `EXIT_FAILURE`, a call of `exit`, or
-- the next stage.
pub data Run (W : Type 0) : Type 0 where
  crashes : Process W → Run W
  failed : Process W → Run W
  exits : ℤ → Process W → Run W
  goes : Process W → Run W

infixl 5 ◌>>◌
abbrev pub ◌>>◌ : {W : Type 0} → Run W → (Process W → Run W) → Run W
crashes p >> f = crashes p
failed p >> f = failed p
exits n p >> f = exits n p
goes p >> f = f p

abbrev pub goes_if : {W : Type 0} → Bool → Process W → Run W
goes_if true p = goes p
goes_if false p = failed p

-- How a loop over the instances ends.
pub data InitEnd : Type 0 where
  all_inited init_failed init_crashed : InitEnd

abbrev pub goes_as : {W : Type 0} → InitEnd → Process W → Run W
goes_as all_inited p = goes p
goes_as init_failed p = failed p
goes_as init_crashed p = crashes p

abbrev pub has_thread : {W : Type 0} → Instance W → Bool
has_thread i = not (eq_ℤ i.beat (pos 0) && not i.beatfunc)

abbrev pub have_threads : {W : Type 0} → List (Instance W) → List Bool
have_threads [] = []
have_threads (i ∷ is) = has_thread i ∷ have_threads is

module _ (S : System) where
  open S use {
    World, sigprocmask, nv_plugins_init, nv_config_init, stor_p_init, sens_p_init, proto_p_init,
    auth_p_init, pthread_create, pthread_join, fork, nv_plugins_free,
  }

  pub block_signals : Process World → Run World
  block_signals p =
      let (ret, w) = sigprocmask p.world in
      goes_if (not (ltb_ℤ ret (pos 0))) (record p { world = w })

  -- A stage that returns only its status.
  pub stage : (World → ℤ × World) → Process World → Run World
  stage f p = let (ret, w) = f p.world in goes_if (eq_ℤ ret (pos 0)) (record p { world = w })

  pub load_config : Text → Process World → Run World
  load_config name p =
      let ((ret, lists), w) = nv_config_init name p.world in
      goes_if (eq_ℤ ret (pos 0))
        (record p { stors = lists.stor_list; senss = lists.sens_list; world = w })

  pub load_protos : Process World → Run World
  load_protos p =
      let ((ret, listens), w) = proto_p_init p.world in
      goes_if (eq_ℤ ret (pos 0)) (record p { protos = listens; world = w })

  -- The loop that initialises instances: how it ended, and the instances after it.
  pub init_instances : List (Instance World) → World → (InitEnd × List (Instance World)) × World
  init_instances [] w = ((all_inited, []), w)
  init_instances (i ∷ is) w = elim (i.inst_init w) [
    | null_plug ↦ ((init_crashed, i ∷ is), w)
    | no_inst_init ↦ let ((end, is'), w1) = init_instances is w in ((end, i ∷ is'), w1)
    | init_call ret beat beatfunc w1 ↦
        let i' = record i { beat = beat; beatfunc = beatfunc } in
        let ((end, is'), w2) = init_instances is w1 in
        if eq_ℤ ret (pos 0) then ((end, i' ∷ is'), w2) else ((init_failed, i' ∷ is), w1)
  ]

  pub init_stors : Process World → Run World
  unfolding init_instances
  init_stors p =
      let ((end, is), w) = init_instances p.stors p.world in
      goes_as end (record p { stors = is; world = w })

  pub init_senss : Process World → Run World
  unfolding init_instances
  init_senss p =
      let ((end, is), w) = init_instances p.senss p.world in
      goes_as end (record p { senss = is; world = w })

  pub start_thread : Thread → Process World → Run World
  start_thread t p =
      let (ret, w) = pthread_create t p.world in
      if eq_ℤ ret (pos 0)
      then goes (record p { threads = p.threads ++ t ∷ []; world = w })
      else failed (record p { world = w })

  -- The loops that start threads, from the position `n` on; the list holds which of them have one.
  pub start_threads : (ℕ → Thread) → ℕ → List Bool → Process World → Run World
  unfolding start_thread
  start_threads of n [] p = goes p
  start_threads of n (true ∷ bs) p = start_thread (of n) p >> start_threads of (n + 1) bs
  start_threads of n (false ∷ bs) p = start_threads of (n + 1) bs p

  pub start_all : Process World → Run World
  unfolding start_threads
  start_all p =
      start_threads of_stor 0 (have_threads p.stors) p
      >> (λ q. start_threads of_sens 0 (have_threads q.senss) q)
      >> (λ q. start_threads of_proto 0 q.protos q)

  -- The parent exits, and the child goes on.
  pub to_background : Bool → Process World → Run World
  to_background true p = goes p
  to_background false p =
      let ((pid, threads), w) = fork p.threads p.world in
      let q = record p { threads = threads; world = w } in
      if ltb_ℤ pid (pos 0)
      then exits (pos 1) q
      else if ltb_ℤ (pos 0) pid
      then exits (pos 0) q
      else goes q

  pub wait_threads : (ℕ → Thread) → ℕ → List Bool → Process World → Process World
  wait_threads of n [] p = p
  wait_threads of n (true ∷ bs) p =
      wait_threads of (n + 1) bs
        (record p { waited = p.waited ++ of n ∷ []; world = pthread_join (of n) p.world })
  wait_threads of n (false ∷ bs) p = wait_threads of (n + 1) bs p

  pub wait_all : Process World → Process World
  unfolding wait_threads
  wait_all p =
      let q = wait_threads of_stor 0 (have_threads p.stors) p in
      wait_threads of_sens 0 (have_threads q.senss) q

  -- How the process ends: by an access through `NULL`, by `exit` on the way, or at the end of `main`.
  pub data End : Type 0 where
    crashed : Process World → End
    exited : ℤ → Process World → End
    returned : ℤ → Process World → End

  abbrev pub free_plugins : Process World → Process World
  free_plugins p = record p { world = nv_plugins_free p.world }

  pub clean_up : Run World → End
  clean_up (crashes p) = crashed p
  clean_up (failed p) = returned (pos 1) (free_plugins p)
  clean_up (exits n p) = exited n p
  clean_up (goes p) = returned (pos 0) (free_plugins p)

  pub set_up : Text → Process World → Run World
  unfolding block_signals stage load_config load_protos init_stors init_senss
  set_up name p =
      block_signals p
      >> stage nv_plugins_init
      >> load_config name
      >> stage stor_p_init
      >> stage sens_p_init
      >> load_protos
      >> stage auth_p_init
      >> init_stors
      >> init_senss

  pub run_main : Options → Process World → Run World
  unfolding set_up start_all to_background wait_all
  run_main o p =
      set_up o.config_name p >> start_all >> to_background o.foreground >> (λ q. goes (wait_all q))

  abbrev pub new_process : World → Process World
  new_process w = record {
    stors = [];
    senss = [];
    protos = [];
    threads = [];
    waited = [];
    world = w;
  }

  pub main_with : CmdLine → World → End
  unfolding run_main clean_up
  main_with (usage_shown n) w = exited n (new_process w)
  main_with (options o) w = clean_up (run_main o (new_process w))

  unfoldable pub main : List Opt → World → End
  unfolding read_options main_with
  main opts w = main_with (read_options opts default_options) w
