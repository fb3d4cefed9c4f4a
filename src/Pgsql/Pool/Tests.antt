-- ===== src/Pgsql/Pool/Tests.antt =====
-- src/plugins/storage/pgsql_pool.c at concrete interleavings.
use netvizd.Common.{
  ℕ, ◌+◌, ◌*◌, ◌≤◌, ◌≡◌, refl, ◌≢◌, true, false, List, [], ◌∷◌, none, some, replicate,
}
use netvizd.Common.Int.{ℤ, pos, ◌+ℤ◌, ◌-ℤ◌}
use netvizd.Pgsql.Pool.{
  Conn, Pool, pool_init, push_bad, push_free, push_inuse, fill_bad, pull_free, pull_bad, mend_conn,
}
use netvizd.Pgsql.Pool.Threads.{
  Client, idle, asking, spoiled, answered, enter, pause, grab, found_good, found_bad, lend, waiting,
  fill, pull, succeed, add_free, System, client, manager, shut_down, Reach, start, later,
}
use netvizd.Pgsql.Pool.Count.{count}
use netvizd.Pgsql.Pool.Kept.{Counted}
use netvizd.Pgsql.Pool.Invariant.{Inv, Reach-Inv}
use netvizd.Pgsql.Pool.Progress.{Answered, spare_bad, in_wait, pool_get-Answered}
use netvizd.Pgsql.Pool.Notices.{
  initialization, repair, begins, ends, connection_ok, connection_bad, Attempt, begin_report,
  end_report, read_status, repair_rounds, pgsql_pool_notices, phases, is_paired,
  pgsql_pool_notices-phases,
}
use netvizd.Pgsql.Pool.Reports.{
  Sight, pgsql_pool_logthread, count_warnings, count_changes, pgsql_pool_logthread-warnings,
}
use netvizd.Pgsql.Pool.Safety.{answered_distinct, stale_answer}

abbrev conn : ℕ → Conn
conn i = record { id = i; opened = true }

abbrev pool : List Conn → List Conn → List Conn → ℤ → ℤ → ℤ → Pool
pool bad free inuse b f i = record {
  num = 2;
  quit = false;
  bad_num = b;
  bad = bad;
  free_num = f;
  free = free;
  inuse_num = i;
  inuse = inuse;
}

abbrev state : Pool → List Client → System
state p cs = record { pool = p; repair = waiting; clients = cs }

-- Both connections are repaired and free.
ready :
    Reach 2 2 (state (pool [] (conn 0 ∷ conn 1 ∷ []) [] (pos 0) (pos 2) (pos 0)) (idle ∷ idle ∷ []))
unfolding pool_init fill_bad push_bad push_free pull_bad mend_conn ◌+ℤ◌ ◌-ℤ◌
ready =
    later
      (later
        (later
          (later
            (later (later (later start (manager fill)) (manager (pull refl refl)))
              (manager (succeed true refl refl)))
            (manager add_free))
          (manager (pull refl refl)))
        (manager (succeed true refl refl)))
      (manager add_free)

-- The first client has been answered.
one_lent : Reach 2 2 (
    state
      (pool [] (conn 1 ∷ []) (conn 0 ∷ []) (pos 0) (pos 1) (pos 1))
      (answered (some (conn 0)) ∷ idle ∷ []))
unfolding push_inuse pull_free ◌+ℤ◌ ◌-ℤ◌
one_lent =
    later
      (later
        (later (later ready (client [] (idle ∷ []) refl (enter refl)))
          (client [] (idle ∷ []) refl (grab refl refl)))
        (client [] (idle ∷ []) refl found_good))
      (client [] (idle ∷ []) refl lend)

-- Both have.
both_lent : Reach 2 2 (
    state
      (pool [] [] (conn 0 ∷ conn 1 ∷ []) (pos 0) (pos 0) (pos 2))
      (answered (some (conn 0)) ∷ answered (some (conn 1)) ∷ []))
unfolding push_inuse pull_free ◌+ℤ◌ ◌-ℤ◌
both_lent =
    later
      (later
        (later (later one_lent (client (answered (some (conn 0)) ∷ []) [] refl (enter refl)))
          (client (answered (some (conn 0)) ∷ []) [] refl (grab refl refl)))
        (client (answered (some (conn 0)) ∷ []) [] refl found_good))
      (client (answered (some (conn 0)) ∷ []) [] refl lend)

-- The second client found its connection bad, and the pool is shut down.
late : Reach 2 2 (
    state
      (record (pool [] [] (conn 0 ∷ []) (pos 0) (pos 0) (pos 1)) { quit = true })
      (answered (some (conn 0)) ∷ spoiled (conn 1) ∷ []))
unfolding pull_free ◌-ℤ◌
late =
    later
      (later
        (later (later one_lent (client (answered (some (conn 0)) ∷ []) [] refl (enter refl)))
          (client (answered (some (conn 0)) ∷ []) [] refl (grab refl refl)))
        (client (answered (some (conn 0)) ∷ []) [] refl found_bad))
      shut_down

Reach-Inv_example : Inv 2 (
    state
      (pool [] [] (conn 0 ∷ conn 1 ∷ []) (pos 0) (pos 0) (pos 2))
      (answered (some (conn 0)) ∷ answered (some (conn 1)) ∷ []))
Reach-Inv_example = Reach-Inv both_lent refl

answered_distinct_example : (conn 0).id ≢ (conn 1).id
answered_distinct_example = answered_distinct both_lent refl [] (conn 0) [] (conn 1) [] refl

abbrev lent : Pool
lent = pool [] (conn 1 ∷ []) (conn 0 ∷ []) (pos 0) (pos 1) (pos 1)

stale_answer_example :
    (t : System) × Reach 2 2 t
    × (t.clients ≡ answered (some (conn 0)) ∷ answered (some (conn 1)) ∷ [])
    × (count 1 t.pool.bad ≡ 0 + 1)
stale_answer_example = stale_answer late (answered (some (conn 0)) ∷ []) (conn 1) [] refl refl refl

abbrev busy : Pool
busy = pool (conn 2 ∷ []) (conn 1 ∷ []) (conn 0 ∷ []) (pos 1) (pos 1) (pos 1)

busy-Counted : Counted busy
busy-Counted = record { bad_counted = refl; free_counted = refl; inuse_counted = refl }

abbrev closed : ℕ → Conn
closed i = record { id = i; opened = false }

-- Nothing is connected yet, and the first client waits.
first_asks : Reach 2 2 (
    state (pool (closed 0 ∷ closed 1 ∷ []) [] [] (pos 2) (pos 0) (pos 0)) (asking none ∷ idle ∷ []))
unfolding pool_init fill_bad push_bad ◌+ℤ◌
first_asks = later (later start (manager fill)) (client [] (idle ∷ []) refl (enter refl))

pool_get-Answered_example : Answered 2 2 [] (idle ∷ [])
pool_get-Answered_example =
    pool_get-Answered [] none (idle ∷ [])
      (later first_asks (client [] (idle ∷ []) refl (pause refl))) refl in_wait refl
      (spare_bad refl)

-- Two connections stay bad.
abbrev two_bad : List Sight
two_bad = replicate 400 (record { bad_num = pos 2; quit = false })

pgsql_pool_logthread-warnings_example :
    180 * count_warnings (pgsql_pool_logthread (pos 0) two_bad) ≤ count_changes (pos 0) two_bad
pgsql_pool_logthread-warnings_example = pgsql_pool_logthread-warnings (pos 0) two_bad

-- A start whose first attempt fails, and a repair later on.
abbrev attempts : List Attempt
attempts =
    record {
      quit = false;
      opened = false;
      quit_after = false;
      status = connection_bad;
      bad_num = pos 1;
    }
    ∷ record {
      quit = false;
      opened = true;
      quit_after = false;
      status = connection_ok;
      bad_num = pos 1;
    }
    ∷ record {
      quit = false;
      opened = false;
      quit_after = false;
      status = connection_ok;
      bad_num = pos 0;
    }
    ∷ record {
      quit = false;
      opened = true;
      quit_after = false;
      status = connection_ok;
      bad_num = pos 0;
    }
    ∷ record {
      quit = false;
      opened = true;
      quit_after = true;
      status = connection_ok;
      bad_num = pos 0;
    }
    ∷ []

attempts_notices :
    pgsql_pool_notices attempts
    ≡ begins initialization ∷ ends initialization ∷ begins repair ∷ ends repair ∷ begins repair ∷ []
unfolding pgsql_pool_notices repair_rounds begin_report read_status end_report
attempts_notices = refl

pgsql_pool_notices-phases_example :
    (pgsql_pool_notices attempts ≡ phases attempts none)
    × (is_paired none (pgsql_pool_notices attempts) ≡ true)
pgsql_pool_notices-phases_example = pgsql_pool_notices-phases attempts
