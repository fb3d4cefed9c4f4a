-- ===== src/Startup/Started.antt =====
-- src/netvizd.c: the threads that the daemon starts.
use netvizd.Common.{
  ℕ, ◌+◌, ◌≡◌, refl, sym, ap, subst, ◌∙◌, inl, inr, Bool, true, false, List, [], ◌∷◌, ◌++◌,
  Bool-cases,
}
use mathlib.Core.List.{append-nil, append_assoc}
use netvizd.Common.Int.{pos, eq_ℤ}
use netvizd.Startup.{
  Thread, of_stor, of_sens, of_proto, Instance, Process, System, Run, crashes, failed, exits, goes,
  have_threads, start_thread, start_threads, start_all,
}
use netvizd.Startup.Stages.{Holds, >>-Holds, NoneWaited, Quiet}

-- The threads of the marked positions, from `n` on.
abbrev pub marked : (ℕ → Thread) → ℕ → List Bool → List Thread
marked of n [] = []
marked of n (true ∷ bs) = of n ∷ marked of (n + 1) bs
marked of n (false ∷ bs) = marked of (n + 1) bs

-- One thread for each instance that has a `beat` or a `beatfunc`: the storages, then the sensors.
abbrev pub instance_threads : {W : Type 0} → Process W → List Thread
instance_threads p =
    marked of_stor 0 (have_threads p.stors) ++ marked of_sens 0 (have_threads p.senss)

-- And one for each protocol that listens.
abbrev pub all_threads : {W : Type 0} → Process W → List Thread
all_threads p = instance_threads p ++ marked of_proto 0 p.protos

-- The threads `ts` have been added, and nothing else but the world has changed.
record Started {W : Type 0} (ts : List Thread) (p q : Process W) : Type 0 where
  added : q.threads ≡ p.threads ++ ts
  same_waited : q.waited ≡ p.waited
  same_stors : q.stors ≡ p.stors
  same_senss : q.senss ≡ p.senss
  same_protos : q.protos ≡ p.protos

Started-trans :
    {W : Type 0} (ts us : List Thread) (p q r : Process W)
    → Started ts p q
    → Started us q r
    → Started (ts ++ us) p r
Started-trans ts us p q r a b = record {
  added = b.added ∙ ap (λ (xs : List Thread). xs ++ us) a.added ∙ append_assoc p.threads ts us;
  same_waited = b.same_waited ∙ a.same_waited;
  same_stors = b.same_stors ∙ a.same_stors;
  same_senss = b.same_senss ∙ a.same_senss;
  same_protos = b.same_protos ∙ a.same_protos;
}

Started-none : {W : Type 0} (p : Process W) → Started [] p p
Started-none p = record {
  added = sym (append-nil p.threads);
  same_waited = refl;
  same_stors = refl;
  same_senss = refl;
  same_protos = refl;
}

Holds-trans :
    {W : Type 0} (ts us : List Thread) (p q : Process W) (r : Run W)
    → Started ts p q
    → Holds (Started us q) NoneWaited r
    → Holds (Started (ts ++ us) p) NoneWaited r
Holds-trans ts us p q (crashes r) a h = h
Holds-trans ts us p q (failed r) a h = h
Holds-trans ts us p q (exits n r) a h = h
Holds-trans ts us p q (goes r) a h = Started-trans ts us p q r a h

Holds-map :
    {W : Type 0} (Q R : Process W → Type 0) (r : Run W)
    → ((p : Process W) → Q p → R p)
    → Holds Q NoneWaited r
    → Holds R NoneWaited r
Holds-map Q R (crashes p) f h = h
Holds-map Q R (failed p) f h = h
Holds-map Q R (exits n p) f h = h
Holds-map Q R (goes p) f h = f p h

pub same_instance_threads :
    {W : Type 0} (q p : Process W)
    → q.stors ≡ p.stors
    → q.senss ≡ p.senss
    → instance_threads q ≡ instance_threads p
same_instance_threads q p e f =
    ap
      (λ (is : List (Instance _)).
        marked of_stor 0 (have_threads is) ++ marked of_sens 0 (have_threads q.senss))
      e
    ∙ ap
        (λ (is : List (Instance _)).
          marked of_stor 0 (have_threads p.stors) ++ marked of_sens 0 (have_threads is))
        f

pub same_all_threads :
    {W : Type 0} (q p : Process W)
    → q.stors ≡ p.stors
    → q.senss ≡ p.senss
    → q.protos ≡ p.protos
    → all_threads q ≡ all_threads p
same_all_threads q p e f g =
    ap (λ (ts : List Thread). ts ++ marked of_proto 0 q.protos) (same_instance_threads q p e f)
    ∙ ap (λ (bs : List Bool). instance_threads p ++ marked of_proto 0 bs) g

module _ (S : System) where
  open S use {World, pthread_create, pthread_join, fork}

  abbrev StartsFrom : List Thread → Process World → Run World → Type 0
  StartsFrom ts p r = Holds (Started ts p) NoneWaited r

  start_thread-Started :
      (t : Thread) (p : Process World) → NoneWaited p → StartsFrom (t ∷ []) p (start_thread S t p)
  unfolding start_thread
  start_thread-Started t p h = elim (Bool-cases (eq_ℤ (pthread_create t p.world).0 (pos 0))) [
    | inl e ↦ rw e (record {
      added = refl;
      same_waited = refl;
      same_stors = refl;
      same_senss = refl;
      same_protos = refl;
    })
    | inr e ↦ rw e h
  ]

  start_threads-Started :
      (of : ℕ → Thread) (n : ℕ) (bs : List Bool) (p : Process World)
      → NoneWaited p
      → StartsFrom (marked of n bs) p (start_threads S of n bs p)
  unfolding start_threads
  start_threads-Started of n [] p h = Started-none p
  start_threads-Started of n (false ∷ bs) p h = start_threads-Started of (n + 1) bs p h
  start_threads-Started of n (true ∷ bs) p h =
      >>-Holds (Started (of n ∷ []) p) (Started (marked of n (true ∷ bs)) p) NoneWaited
        (start_thread S (of n) p) (start_threads S of (n + 1) bs) (start_thread-Started (of n) p h)
        (λ q a.
          Holds-trans (of n ∷ []) (marked of (n + 1) bs) p q _ a
            (start_threads-Started of (n + 1) bs q (a.same_waited ∙ h)))

  -- All threads have been started, and none has been waited for.
  abbrev pub Ready : Process World → Type 0
  Ready p = (p.threads ≡ all_threads p) × (p.waited ≡ [])

  Ready-Started : (p q : Process World) → Quiet p → Started (all_threads p) p q → Ready q
  Ready-Started p q (none_yet, h) a = (
    a.added
        ∙ ap (λ (ts : List Thread). ts ++ all_threads p) none_yet
        ∙ sym (same_all_threads q p a.same_stors a.same_senss a.same_protos),
    a.same_waited ∙ h,
  )

  pub start_all-Ready : (p : Process World) → Quiet p → Holds Ready NoneWaited (start_all S p)
  unfolding start_all
  start_all-Ready p h =
      let ts = marked of_stor 0 (have_threads p.stors) in
      let us = marked of_sens 0 (have_threads p.senss) in
      let vs = marked of_proto 0 p.protos in
      >>-Holds (Started (ts ++ us) p) Ready NoneWaited _ _
        (>>-Holds (Started ts p) (Started (ts ++ us) p) NoneWaited _ _
          (start_threads-Started of_stor 0 (have_threads p.stors) p h.1)
          (λ q a. Holds-trans ts us p q _ a (
            subst
              (λ (is : List (Instance World)).
                Holds (Started (marked of_sens 0 (have_threads is)) q) NoneWaited
                  (start_threads S of_sens 0 (have_threads q.senss) q))
              a.same_senss
              (start_threads-Started of_sens 0 (have_threads q.senss) q (a.same_waited ∙ h.1)))))
        (λ q a.
          Holds-map (Started (ts ++ us ++ vs) p) Ready _ (λ r b. Ready-Started p r h b)
            (Holds-trans (ts ++ us) vs p q _ a (
              subst
                (λ (bs : List Bool).
                  Holds (Started (marked of_proto 0 bs) q) NoneWaited
                    (start_threads S of_proto 0 q.protos q))
                a.same_protos (start_threads-Started of_proto 0 q.protos q (a.same_waited ∙ h.1)))))
