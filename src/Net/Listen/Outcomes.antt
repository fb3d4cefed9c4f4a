-- ===== src/Net/Listen/Outcomes.antt =====
-- src/plugins/proto/net.c: how `net_listen` can go.
use netvizd.Common.{
  ℕ, zero, suc, ◌≡◌, refl, sym, ap, subst, ◌∙◌, ◌⊎◌, inl, inr, Bool, true, false, List, [], ◌∷◌,
  ◌++◌, if◌then◌else◌, length, Bool-cases,
}
use mathlib.Core.List.{append-nil, append_assoc}
use netvizd.Common.Int.{ℤ, pos, negsuc, ltb_ℤ, eq_ℤ}
use netvizd.Net.Listen.{
  Sockets, Listening, ended, accepting, accept_round, accept_rounds, net_listen,
}

module _ (S : Sockets) where
  open S use {World, socket, setsockopt, bind_, listen_, accept, pthread_create}

  -- The four calls before the loop succeed: they end in the world `w'`, with the socket `sockfd`.
  pub record Opens (w : World) (sockfd : ℤ) (w' : World) : Type 0 where
    pub at_socket : (socket w).0 ≡ sockfd
    pub socket_made : ltb_ℤ sockfd (pos 0) ≡ false
    pub options_set : ltb_ℤ (setsockopt sockfd (socket w).1).0 (pos 0) ≡ false
    pub bound : ltb_ℤ (bind_ sockfd (setsockopt sockfd (socket w).1).1).0 (pos 0) ≡ false
    pub listens :
        ltb_ℤ (listen_ sockfd (bind_ sockfd (setsockopt sockfd (socket w).1).1).1).0 (pos 0) ≡ false
    pub after : (listen_ sockfd (bind_ sockfd (setsockopt sockfd (socket w).1).1).1).1 ≡ w'

  -- The call that fails, and the world that it leaves; the calls before it have succeeded.
  pub data Fails (w : World) : World → Type 0 where
    at_socket_call : ltb_ℤ (socket w).0 (pos 0) ≡ true → Fails w (socket w).1
    at_setsockopt :
        ltb_ℤ (socket w).0 (pos 0) ≡ false
        → ltb_ℤ (setsockopt (socket w).0 (socket w).1).0 (pos 0) ≡ true
        → Fails w (setsockopt (socket w).0 (socket w).1).1
    at_bind :
        ltb_ℤ (socket w).0 (pos 0) ≡ false
        → ltb_ℤ (setsockopt (socket w).0 (socket w).1).0 (pos 0) ≡ false
        → ltb_ℤ (bind_ (socket w).0 (setsockopt (socket w).0 (socket w).1).1).0 (pos 0) ≡ true
        → Fails w (bind_ (socket w).0 (setsockopt (socket w).0 (socket w).1).1).1
    at_listen :
        ltb_ℤ (socket w).0 (pos 0) ≡ false
        → ltb_ℤ (setsockopt (socket w).0 (socket w).1).0 (pos 0) ≡ false
        → ltb_ℤ (bind_ (socket w).0 (setsockopt (socket w).0 (socket w).1).1).0 (pos 0) ≡ false
        → ltb_ℤ
            (listen_ (socket w).0 (bind_ (socket w).0 (setsockopt (socket w).0 (socket w).1).1).1).0
            (pos 0)
          ≡ true
        → Fails w
            (listen_ (socket w).0 (bind_ (socket w).0 (setsockopt (socket w).0 (socket w).1).1).1).1

  -- What `accept` and then `pthread_create` have returned, round by round, from the world `w` to `w'`.
  abbrev pub Accepts : ℤ → World → List (ℤ × ℤ) → World → Type 0
  Accepts sockfd w [] w' = w ≡ w'
  Accepts sockfd w ((c_sockfd, ret) ∷ calls) w' =
      (w1 : World) × (w2 : World) × (accept sockfd w ≡ (c_sockfd, w1))
      × (pthread_create c_sockfd w1 ≡ (ret, w2))
      × Accepts sockfd w2 calls w'

-- The descriptors that were given to a thread.
abbrev pub with_thread : List (ℤ × ℤ) → List ℤ
with_thread [] = []
with_thread ((c_sockfd, ret) ∷ calls) =
    if eq_ℤ ret (pos 0) then c_sockfd ∷ with_thread calls else with_thread calls

not_both : {b : Bool} → b ≡ true → b ≡ false → ⊥
not_both e f = cc

-- `stat`, which keeps that a thread could not be started.
abbrev pub stat_after : List (ℤ × ℤ) → ℤ → ℤ
stat_after [] stat = stat
stat_after ((c_sockfd, ret) ∷ calls) stat =
    stat_after calls (if eq_ℤ ret (pos 0) then stat else negsuc 0)

module _ (S : Sockets) where
  open S use {World, socket, setsockopt, bind_, listen_, accept, pthread_create}

  -- The loop has made these calls, and nothing else.
  pub record Served (n : ℕ) (k l : Listening World) : Type 0 where
    pub calls : List (ℤ × ℤ)
    pub one_each : length calls ≡ n
    pub accepted : Accepts S k.sockfd k.world calls l.world
    pub threads : l.started ≡ k.started ++ with_thread calls
    pub status : l.stat ≡ stat_after calls k.stat
    pub same_socket : l.sockfd ≡ k.sockfd

  accept_round-Served :
      (n : ℕ) (k l : Listening World) (b : Bool)
      → eq_ℤ (pthread_create (accept k.sockfd k.world).0 (accept k.sockfd k.world).1).0 (pos 0) ≡ b
      → Served n
          (if b
            then record k {
              started = k.started ++ (accept k.sockfd k.world).0 ∷ [];
              world = (pthread_create (accept k.sockfd k.world).0 (accept k.sockfd k.world).1).1;
            }
            else record k {
              stat = negsuc 0;
              world = (pthread_create (accept k.sockfd k.world).0 (accept k.sockfd k.world).1).1;
            })
          l
      → Served (suc n) k l
  accept_round-Served n k l true e s =
      let got = accept k.sockfd k.world in
      let made = pthread_create got.0 got.1 in
      record {
        calls = (got.0, made.0) ∷ s.calls;
        one_each = ap suc s.one_each;
        accepted = (got.1, made.1, refl, refl, s.accepted);
        threads =
            s.threads
            ∙ append_assoc k.started (got.0 ∷ []) (with_thread s.calls)
            ∙ ap
                (λ (b : Bool).
                  k.started ++ (if b then got.0 ∷ with_thread s.calls else with_thread s.calls))
                (sym e);
        status =
            s.status
            ∙ ap (λ (b : Bool). stat_after s.calls (if b then k.stat else negsuc 0)) (sym e);
        same_socket = s.same_socket;
      }
  accept_round-Served n k l false e s =
      let got = accept k.sockfd k.world in
      let made = pthread_create got.0 got.1 in
      record {
        calls = (got.0, made.0) ∷ s.calls;
        one_each = ap suc s.one_each;
        accepted = (got.1, made.1, refl, refl, s.accepted);
        threads =
            s.threads
            ∙ ap
                (λ (b : Bool).
                  k.started ++ (if b then got.0 ∷ with_thread s.calls else with_thread s.calls))
                (sym e);
        status =
            s.status
            ∙ ap (λ (b : Bool). stat_after s.calls (if b then k.stat else negsuc 0)) (sym e);
        same_socket = s.same_socket;
      }

  accept_rounds-Served : (n : ℕ) (k : Listening World) → Served n k (accept_rounds S n k)
  unfolding accept_rounds
  accept_rounds-Served zero k = record {
    calls = [];
    one_each = refl;
    accepted = refl;
    threads = sym (append-nil k.started);
    status = refl;
    same_socket = refl;
  }
  accept_rounds-Served (suc n) k =
      accept_round-Served n k _ _ refl (accept_rounds-Served n (accept_round S k))

  at_socket :
      (w : World) (sockfd : ℤ) (w' : World) → Opens S w sockfd w' → Opens S w (socket w).0 w'
  at_socket w sockfd w' o = subst (λ t. Opens S w t w') (sym o.at_socket) o

  -- Either one of the four calls before the loop fails, and then `net_listen` returns -1 in the very world
  -- that this call has left, so that no call comes after it and no connection is accepted; or they succeed, and `net_listen` does not return: in each round it accepts once and starts
  -- a thread for the descriptor that it got, whatever that is. `started` holds the descriptors of the
  -- threads that could be started, in order, and `stat` is -1 once one could not.
  pub net_listen-Outcomes :
      (w : World)
      → (((sockfd : ℤ) (w' : World) → ¬ Opens S w sockfd w')
          × (w' : World) × Fails S w w'
          × ((n : ℕ) → net_listen S n w ≡ ended (negsuc 0) w'))
        ⊎ ((sockfd : ℤ) × (w' : World) × Opens S w sockfd w'
            × ((n : ℕ)
                → (l : Listening World) × (net_listen S n w ≡ accepting l)
                  × Served n
                      (record { sockfd = sockfd; stat = pos 0; started = []; world = w' })
                      l))
  unfolding net_listen
  net_listen-Outcomes w =
      let s = (socket w).0 in
      let (r2, w2) = setsockopt s (socket w).1 in
      let (r3, w3) = bind_ s w2 in
      let (r4, w4) = listen_ s w3 in
      elim (Bool-cases (ltb_ℤ s (pos 0))) [
        | inl e ↦ inl (
          λ t v o. not_both e (at_socket w t v o).socket_made,
          (socket w).1,
          at_socket_call e,
          λ n. rw e refl,
        )
        | inr e ↦ elim (Bool-cases (ltb_ℤ r2 (pos 0))) [
          | inl f ↦ inl (
            λ t v o. not_both f (at_socket w t v o).options_set,
            w2,
            at_setsockopt e f,
            λ n. rw (e, f) refl,
          )
          | inr f ↦ elim (Bool-cases (ltb_ℤ r3 (pos 0))) [
            | inl g ↦ inl (
              λ t v o. not_both g (at_socket w t v o).bound,
              w3,
              at_bind e f g,
              λ n. rw (e, f, g) refl,
            )
            | inr g ↦ elim (Bool-cases (ltb_ℤ r4 (pos 0))) [
              | inl h ↦ inl (
                λ t v o. not_both h (at_socket w t v o).listens,
                w4,
                at_listen e f g h,
                λ n. rw (e, f, g, h) refl,
              )
              | inr h ↦ inr (
                s,
                w4,
                record {
                  at_socket = refl;
                  socket_made = e;
                  options_set = f;
                  bound = g;
                  listens = h;
                  after = refl;
                },
                λ n. (
                  _,
                  rw (e, f, g, h) refl,
                  accept_rounds-Served n
                      (record { sockfd = s; stat = pos 0; started = []; world = w4 }),
                ),
              )
            ]
          ]
        ]
      ]
