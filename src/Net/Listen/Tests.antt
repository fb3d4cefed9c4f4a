-- ===== src/Net/Listen/Tests.antt =====
-- src/plugins/proto/net.c: runs of `net_listen` where `accept` gives two connections and then fails.
use netvizd.Common.{ℕ, ◌+◌, ◌≡◌, refl, ◌⊎◌, [], ◌∷◌, ◌==◌, ltb, if◌then◌else◌}
use netvizd.Common.Int.{ℤ, pos, negsuc}
use netvizd.Net.Listen.{Sockets, Listening, ended, accepting, net_listen}
use netvizd.Net.Listen.Outcomes.{Opens, Fails, Served, net_listen-Outcomes}

-- The world counts the calls. `bind` returns `bound`; no thread can be started for the descriptor 8.
abbrev sockets : ℤ → Sockets
sockets bound = record {
  World = ℕ;
  socket = λ w. (pos 3, w + 1);
  setsockopt = λ s w. (pos 0, w + 1);
  bind_ = λ s w. (bound, w + 1);
  listen_ = λ s w. (pos 0, w + 1);
  accept = λ s w. (if ltb w 8 then pos (w + 2) else negsuc 0, w + 1);
  pthread_create = λ c w. (if w == 7 then pos 11 else pos 0, w + 1);
}

-- A thread is started for a connection, and one for the descriptor -1.
accepting_run :
    net_listen (sockets (pos 0)) 3 0
    ≡ accepting
        (record { sockfd = pos 3; stat = negsuc 0; started = pos 6 ∷ negsuc 0 ∷ []; world = 10 })
unfolding net_listen
accepting_run = refl

failed_run : net_listen (sockets (negsuc 0)) 3 0 ≡ ended (negsuc 0) 3
unfolding net_listen
failed_run = refl

net_listen-Outcomes_example :
    (((sockfd : ℤ) (w' : ℕ) → ¬ Opens (sockets (pos 0)) 0 sockfd w')
      × (w' : ℕ) × Fails (sockets (pos 0)) 0 w'
      × ((n : ℕ) → net_listen (sockets (pos 0)) n 0 ≡ ended (negsuc 0) w'))
    ⊎ ((sockfd : ℤ) × (w' : ℕ) × Opens (sockets (pos 0)) 0 sockfd w'
        × ((n : ℕ)
            → (l : Listening ℕ) × (net_listen (sockets (pos 0)) n 0 ≡ accepting l)
              × Served
                  (sockets (pos 0))
                  n
                  (record { sockfd = sockfd; stat = pos 0; started = []; world = w' })
                  l))
net_listen-Outcomes_example = net_listen-Outcomes (sockets (pos 0)) 0
