-- ===== src/Startup/Threads.antt =====
-- src/netvizd.c: the threads that `main` waits for.
use netvizd.Common.{
  ℕ, ◌+◌, ◌≡◌, refl, sym, ap, subst, ◌∙◌, ◌⊎◌, inl, inr, Bool, true, false, List, [], ◌∷◌, ◌++◌,
  if◌then◌else◌, arith, Bool-cases,
}
use mathlib.Core.List.{append-nil, append_assoc}
use netvizd.Common.Int.{ℤ, pos, ltb_ℤ}
use netvizd.Startup.{
  Opt, Options, CmdLine, options, default_options, read_options, Thread, of_stor, of_sens, Instance,
  Process, System, Run, crashes, failed, exits, goes, have_threads, to_background, wait_threads,
  wait_all, End, crashed, exited, returned, clean_up, run_main, new_process, main_with, main,
}
use netvizd.Startup.Stages.{Holds, >>-Holds, NoneWaited, Quiet, set_up-Quiet}
use netvizd.Startup.Started.{
  marked, instance_threads, all_threads, same_instance_threads, same_all_threads, Ready,
  start_all-Ready,
}

zero_between : (n : ℤ) → ltb_ℤ n (pos 0) ≡ false → ltb_ℤ (pos 0) n ≡ false → n ≡ pos 0
zero_between n e f = ground arith

module _ (S : System) where
  open S use {World, pthread_join, fork}

  -- The process in which `main` waits: without the threads if it is the child of `fork`.
  abbrev Waiting : Bool → Process World → Type 0
  Waiting fg p = (p.threads ≡ (if fg then all_threads p else [])) × (p.waited ≡ [])

  module _
      (child : (ts : List Thread) (w : World)
        → (fork ts w).0.0 ≡ pos 0
        → (fork ts w).0.1 ≡ []) where
    to_background-Waiting :
        (fg : Bool) (p : Process World)
        → Ready S p
        → Holds (Waiting fg) NoneWaited (to_background S fg p)
    unfolding to_background
    to_background-Waiting true p h = h
    to_background-Waiting false p (h, n) =
        let pid = (fork p.threads p.world).0.0 in
        elim (Bool-cases (ltb_ℤ pid (pos 0))) [
          | inl e ↦ rw e n
          | inr e ↦ elim (Bool-cases (ltb_ℤ (pos 0) pid)) [
            | inl f ↦ rw (e, f) n
            | inr f ↦ rw (e, f) (child p.threads p.world (zero_between pid e f), n)
          ]
        ]

  -- The threads `ts` have been waited for, and nothing else but the world has changed.
  record Waited (ts : List Thread) (p q : Process World) : Type 0 where
    waited_for : q.waited ≡ p.waited ++ ts
    kept_threads : q.threads ≡ p.threads
    kept_stors : q.stors ≡ p.stors
    kept_senss : q.senss ≡ p.senss
    kept_protos : q.protos ≡ p.protos

  wait_threads-Waited :
      (of : ℕ → Thread) (n : ℕ) (bs : List Bool) (p : Process World)
      → Waited (marked of n bs) p (wait_threads S of n bs p)
  unfolding wait_threads
  wait_threads-Waited of n [] p = record {
    waited_for = sym (append-nil p.waited);
    kept_threads = refl;
    kept_stors = refl;
    kept_senss = refl;
    kept_protos = refl;
  }
  wait_threads-Waited of n (false ∷ bs) p = wait_threads-Waited of (n + 1) bs p
  wait_threads-Waited of n (true ∷ bs) p =
      let q = record p { waited = p.waited ++ of n ∷ []; world = pthread_join (of n) p.world } in
      let a = wait_threads-Waited of (n + 1) bs q in
      record {
        waited_for = a.waited_for ∙ append_assoc p.waited (of n ∷ []) (marked of (n + 1) bs);
        kept_threads = a.kept_threads;
        kept_stors = a.kept_stors;
        kept_senss = a.kept_senss;
        kept_protos = a.kept_protos;
      }

  -- The process when `main` has waited.
  abbrev pub Finished : Bool → Process World → Type 0
  Finished fg p = (p.threads ≡ (if fg then all_threads p else [])) × (p.waited ≡ instance_threads p)

  wait_all-Finished : (fg : Bool) (p : Process World) → Waiting fg p → Finished fg (wait_all S p)
  unfolding wait_all
  wait_all-Finished fg p (h, n) =
      let q = wait_threads S of_stor 0 (have_threads p.stors) p in
      let a = wait_threads-Waited of_stor 0 (have_threads p.stors) p in
      let r = wait_threads S of_sens 0 (have_threads q.senss) q in
      let b = wait_threads-Waited of_sens 0 (have_threads q.senss) q in
      let stors = b.kept_stors ∙ a.kept_stors in
      let senss = b.kept_senss ∙ a.kept_senss in
      let protos = b.kept_protos ∙ a.kept_protos in
      (
        b.kept_threads
            ∙ a.kept_threads
            ∙ h
            ∙ ap (λ (ts : List Thread). if fg then ts else [])
                (sym (same_all_threads r p stors senss protos)),
        b.waited_for
            ∙ ap (λ (ts : List Thread). ts ++ marked of_sens 0 (have_threads q.senss))
                (a.waited_for
                  ∙ ap (λ (ts : List Thread). ts ++ marked of_stor 0 (have_threads p.stors)) n)
            ∙ ap
                (λ (is : List (Instance World)).
                  marked of_stor 0 (have_threads p.stors) ++ marked of_sens 0 (have_threads is))
                a.kept_senss
            ∙ sym (same_instance_threads r p stors senss),
      )

  -- The two ends of `main`, and the calls of `exit` and the crashes before it.
  abbrev pub EndsWell : Bool → End S → Type 0
  EndsWell fg (crashed p) = p.waited ≡ []
  EndsWell fg (exited n p) = p.waited ≡ []
  EndsWell fg (returned n p) = ((n ≡ pos 1) × (p.waited ≡ [])) ⊎ ((n ≡ pos 0) × Finished fg p)

  clean_up-EndsWell :
      (fg : Bool) (r : Run World) → Holds (Finished fg) NoneWaited r → EndsWell fg (clean_up S r)
  unfolding clean_up
  clean_up-EndsWell fg (crashes p) h = h
  clean_up-EndsWell fg (failed p) h = inl (refl, h)
  clean_up-EndsWell fg (exits n p) h = h
  clean_up-EndsWell fg (goes p) h = inr (refl, h)

  module _
      (child : (ts : List Thread) (w : World)
        → (fork ts w).0.0 ≡ pos 0
        → (fork ts w).0.1 ≡ []) where
    run_main-Finished :
        (o : Options) (w : World)
        → Holds (Finished o.foreground) NoneWaited (run_main S o (new_process S w))
    unfolding run_main
    run_main-Finished o w =
        >>-Holds (Waiting o.foreground) (Finished o.foreground) NoneWaited _ _
          (>>-Holds (Ready S) (Waiting o.foreground) NoneWaited _ _
            (>>-Holds Quiet (Ready S) NoneWaited _ _
              (set_up-Quiet S o.config_name (new_process S w) (refl, refl)) (start_all-Ready S))
            (to_background-Waiting child o.foreground))
          (wait_all-Finished o.foreground)

    -- Where the child of `fork` has no thread but the one that called it: `main` returns 1, or crashes, before it has
    -- waited for any thread, or 0 after it has waited for one thread for each storage and each sensor
    -- that has a `beat` or a `beatfunc`, in order. In the foreground these threads, and one for each
    -- protocol that listens, are then the threads that were started. In the background, where `main`
    -- waits in the child, none of them is a thread of the process.
    pub main-EndsWell :
        (opts : List Opt) (o : Options) (w : World)
        → read_options opts default_options ≡ options o
        → EndsWell o.foreground (main S opts w)
    unfolding main main_with
    main-EndsWell opts o w e =
        subst (λ (c : CmdLine). EndsWell o.foreground (main_with S c w)) (sym e)
          (clean_up-EndsWell o.foreground _ (run_main-Finished o w))
