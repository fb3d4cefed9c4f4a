-- ===== src/Pgsql/Pool/Threads.antt =====
-- src/plugins/storage/pgsql_pool.c: `pgsql_pool_get`, `pgsql_pool_release` and the management
-- thread as threads that interleave. Each critical section is one step; between two of them a
-- thread keeps its connection in a local variable.
use netvizd.Common.{ℕ, ◌≡◌, Bool, true, false, List, ◌∷◌, ◌++◌, Option, none, some, replicate}
use netvizd.Pgsql.Pool.{
  Conn, Pool, pool_init, push_bad, push_free, push_inuse, fill_bad, is_zero, pull_free, pull_bad,
  drop_inuse, mend_conn,
}

-- Where a client of the pool stands.
pub data Client : Type 0 where
  idle : Client
  asking : (c : Option Conn) → Client  -- at `retry` in `pgsql_pool_get`, with its variable `c`
  pausing : (c : Option Conn) → Client  -- in the timed wait of the loop, off the lock
  checking : (c : Conn) → Client  -- holds what it took from the free list
  spoiled : (c : Conn) → Client  -- `PQstatus` said bad, before the bad list
  sound : (c : Conn) → Client  -- `PQstatus` said otherwise, before the in-use list
  answered : (c : Option Conn) → Client  -- `pgsql_pool_get` has returned `c`
  returning : (c : Conn) → Client  -- in `pgsql_pool_release`, off the in-use list
  dropping : (c : Conn) → Client  -- before the bad list
  restoring : (c : Conn) → Client  -- before the free list

-- The timed wait for a free connection ends by a timeout with `quit` set, which leaves the loop whatever
-- the counter is by then; or by a signal or another timeout, which goes back to the test.
pub data Move (p : Pool) : Client → Pool → Client → Type 0 where
  enter : p.quit ≡ false → Move p idle p (asking none)
  refuse : p.quit ≡ true → Move p idle p (answered none)
  grab :
      {prior : Option Conn} {c : Conn} {q : Pool}
      → is_zero p.free_num ≡ false
      → pull_free p ≡ some (c, q)
      → Move p (asking prior) q (checking c)
  pause :
      {prior : Option Conn} → is_zero p.free_num ≡ true → Move p (asking prior) p (pausing prior)
  wake : {prior : Option Conn} → Move p (pausing prior) p (asking prior)
  give_up : {prior : Option Conn} → p.quit ≡ true → Move p (pausing prior) p (answered prior)
  found_bad : {c : Conn} → Move p (checking c) p (spoiled c)
  found_good : {c : Conn} → Move p (checking c) p (sound c)
  mark_bad : {c : Conn} → Move p (spoiled c) (push_bad p c) (asking (some c))
  lend : {c : Conn} → Move p (sound c) (push_inuse p c) (answered (some c))
  leave : Move p (answered none) p idle
  release : {c : Conn} → p.quit ≡ false → Move p (answered (some c)) (drop_inuse p c) (returning c)
  keep : {c : Conn} → p.quit ≡ true → Move p (answered (some c)) p idle
  returned_bad : {c : Conn} → Move p (returning c) p (dropping c)
  returned_good : {c : Conn} → Move p (returning c) p (restoring c)
  drop_bad : {c : Conn} → Move p (dropping c) (push_bad p c) idle
  restore : {c : Conn} → Move p (restoring c) (push_free p c) idle

-- Where the management thread stands.
pub data Repair : Type 0 where
  starting : Repair
  waiting : Repair
  resting : Repair  -- in the timed wait of the loop
  mending : (c : Conn) → Repair  -- at `retry`
  mended : (c : Conn) → Repair  -- before the free list
  stopped : Repair

-- As for a client, the timed wait ends by a timeout with `quit` set, which leaves the loop whatever the
-- counter is by then, or it goes back to the test. `PQconnectdb` may answer `NULL`; `PQstatus` of `NULL` is bad.
pub data Mend (p : Pool) : Repair → Pool → Repair → Type 0 where
  fill : Mend p starting (fill_bad p.num 0 p) waiting
  pull :
      {c : Conn} {q : Pool}
      → is_zero p.bad_num ≡ false
      → pull_bad p ≡ some (c, q)
      → Mend p waiting q (mending c)
  fail : {c : Conn} (got : Bool) → p.quit ≡ false → Mend p (mending c) p (mending (mend_conn got c))
  succeed :
      {c : Conn} (got : Bool)
      → p.quit ≡ false
      → (mend_conn got c).opened ≡ true
      → Mend p (mending c) p (mended (mend_conn got c))
  add_free : {c : Conn} → Mend p (mended c) (push_free p c) waiting
  rest : is_zero p.bad_num ≡ true → Mend p waiting p resting
  rouse : Mend p resting p waiting
  stop_waiting : p.quit ≡ true → Mend p resting p stopped
  stop_mending : {c : Conn} → p.quit ≡ true → Mend p (mending c) p stopped

pub record System : Type 0 where
  pub pool : Pool
  pub repair : Repair
  pub clients : List Client

pub data Step (s : System) : System → Type 0 where
  client :
      (xs ys : List Client) {a b : Client} {q : Pool}
      → s.clients ≡ xs ++ a ∷ ys
      → Move s.pool a q b
      → Step s (record { pool = q; repair = s.repair; clients = xs ++ b ∷ ys })
  manager :
      {q : Pool} {r : Repair}
      → Mend s.pool s.repair q r
      → Step s (record { pool = q; repair = r; clients = s.clients })
  shut_down : Step s (record s { pool = record s.pool { quit = true } })

abbrev pub start_state : ℕ → ℕ → System
start_state num n = record { pool = pool_init num; repair = starting; clients = replicate n idle }

-- The states that `n` clients and the management thread reach over a pool of `num` connections.
pub data Reach (num n : ℕ) : System → Type 0 where
  start : Reach num n (start_state num n)
  later : {s t : System} → Reach num n s → Step s t → Reach num n t
