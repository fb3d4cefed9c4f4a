-- ===== src/Net/Listen.antt =====
-- src/plugins/proto/net.c: `proto_init`, and `net_listen`, which starts a thread for each connection. The calls on
-- the socket and `pthread_create` are parameters, over a world of their own.
pub mod Outcomes
mod Tests
use netvizd.Common.{
  ℕ, zero, suc, ◌+◌, ◌≡◌, refl, sym, ap, subst, ◌∙◌, ◌⊎◌, inl, inr, ◌↔◌, Bool, true, false, List,
  [], ◌∷◌, ◌++◌, if◌then◌else◌, length, arith, Bool-cases,
}
use mathlib.Core.List.{append-nil, append_assoc}
use netvizd.Common.Int.{ℤ, pos, negsuc, ltb_ℤ, eq_ℤ}
use netvizd.Daemon.Plugins.{ProtoPlugin}

-- `net_LTX_proto_init`
pub proto_init : ProtoPlugin → ProtoPlugin × ℤ
proto_init p = (record p { listen = true }, pos 0)

-- Each call is given the socket; `pthread_create` is given the descriptor that it hands to `client_thread`.
pub record Sockets : Type 1 where
  pub World : Type 0
  pub socket : World → ℤ × World
  pub setsockopt : ℤ → World → ℤ × World
  pub bind_ : ℤ → World → ℤ × World
  pub listen_ : ℤ → World → ℤ × World
  pub accept : ℤ → World → ℤ × World
  pub pthread_create : ℤ → World → ℤ × World

-- The loop that accepts connections, after some of its rounds. `started` holds the descriptors for which
-- a thread runs, in order.
pub record Listening (W : Type 0) : Type 0 where
  pub sockfd : ℤ
  pub stat : ℤ
  pub started : List ℤ
  pub world : W

-- `net_listen` has returned, or is in its loop.
pub data Listen (W : Type 0) : Type 0 where
  ended : ℤ → W → Listen W
  accepting : Listening W → Listen W

module _ (S : Sockets) where
  open S use {World, socket, setsockopt, bind_, listen_, accept, pthread_create}

  -- What `accept` returned is not tested.
  pub accept_round : Listening World → Listening World
  accept_round l =
      let (c_sockfd, w) = accept l.sockfd l.world in
      let (ret, w') = pthread_create c_sockfd w in
      if eq_ℤ ret (pos 0)
      then record l { started = l.started ++ c_sockfd ∷ []; world = w' }
      else record l { stat = negsuc 0; world = w' }

  -- The loop has no end: `n` is the number of rounds so far.
  pub accept_rounds : ℕ → Listening World → Listening World
  unfolding accept_round
  accept_rounds zero l = l
  accept_rounds (suc n) l = accept_rounds n (accept_round l)

  -- From the socket on: each call that fails ends the function.
  pub after_listen : ℕ → ℤ → ℤ × World → Listen World
  unfolding accept_rounds
  after_listen n sockfd (ret, w) =
      if ltb_ℤ ret (pos 0)
      then ended (negsuc 0) w
      else accepting
          (accept_rounds n (record { sockfd = sockfd; stat = pos 0; started = []; world = w }))

  pub after_bind : ℕ → ℤ → ℤ × World → Listen World
  unfolding after_listen
  after_bind n sockfd (ret, w) =
      if ltb_ℤ ret (pos 0) then ended (negsuc 0) w else after_listen n sockfd (listen_ sockfd w)

  pub after_setsockopt : ℕ → ℤ → ℤ × World → Listen World
  unfolding after_bind
  after_setsockopt n sockfd (ret, w) =
      if ltb_ℤ ret (pos 0) then ended (negsuc 0) w else after_bind n sockfd (bind_ sockfd w)

  pub after_socket : ℕ → ℤ × World → Listen World
  unfolding after_setsockopt
  after_socket n (sockfd, w) =
      if ltb_ℤ sockfd (pos 0)
      then ended (negsuc 0) w
      else after_setsockopt n sockfd (setsockopt sockfd w)

  pub net_listen : ℕ → World → Listen World
  unfolding after_socket
  net_listen n w = after_socket n (socket w)
