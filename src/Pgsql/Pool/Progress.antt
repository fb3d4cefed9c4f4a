-- ===== src/Pgsql/Pool/Progress.antt =====
-- src/plugins/storage/pgsql_pool.c: the waiting loops can end.
use netvizd.Common.{ℕ, ◌≡◌, refl, ◌∙◌, inl, inr, true, false, List, ◌∷◌, ◌++◌, Option, some, arith}
use netvizd.Common.Int.{◌+ℤ◌}
use netvizd.Pgsql.Pool.{Conn, Pool, push_free, is_zero, mend_conn}
use netvizd.Pgsql.Pool.Threads.{
  Client, asking, pausing, answered, wake, grab, found_good, lend, Repair, waiting, resting, rouse,
  mending, mended, pull, succeed, add_free, System, client, manager, Reach, later,
}
use netvizd.Pgsql.Pool.Kept.{Counted}
use netvizd.Pgsql.Pool.Invariant.{Mend-quit, Reach-Inv}
use netvizd.Pgsql.Pool.Safety.{pulls_succeed}

-- A connection that no client holds: a free one, one that the management thread mends or has mended, or
-- a bad one while that thread waits for work, in its timed wait or not.
pub data Spare (p : Pool) : Repair → Type 0 where
  spare_free : {r : Repair} → is_zero p.free_num ≡ false → Spare p r
  spare_mended : {c : Conn} → Spare p (mended c)
  spare_mending : {c : Conn} → Spare p (mending c)
  spare_bad : is_zero p.bad_num ≡ false → Spare p waiting
  spare_resting : is_zero p.bad_num ≡ false → Spare p resting

-- A client in the loop of `pgsql_pool_get` that waits for a free connection.
pub data Asks (prior : Option Conn) : Client → Type 0 where
  at_retry : Asks prior (asking prior)
  in_wait : Asks prior (pausing prior)

abbrev pub Answered : ℕ → ℕ → List Client → List Client → Type 0
Answered num n xs ys =
    (t : System) × (c : Conn) × Reach num n t × (t.clients ≡ xs ++ answered (some c) ∷ ys)

some_free : (p : Pool) (c : Conn) → Counted p → is_zero (push_free p c).free_num ≡ false
unfolding push_free ◌+ℤ◌
some_free p c k = ground (arith, k.free_counted)

mend_conn-opened : (c : Conn) → (mend_conn true c).opened ≡ true
unfolding mend_conn
mend_conn-opened c = ground arith

module _ {num n : ℕ} (xs : List Client) (prior : Option Conn) (ys : List Client) where
  free-Answered :
      {s : System}
      → Reach num n s
      → s.pool.quit ≡ false
      → s.clients ≡ xs ++ asking prior ∷ ys
      → is_zero s.pool.free_num ≡ false
      → Answered num n xs ys
  free-Answered r on e z = elim (pulls_succeed r on).0 [
    | inl h ↦ cc
    | inr (c, q, h) ↦ (
      _,
      c,
      later (later (later r (client xs ys e (grab z h))) (client xs ys refl found_good))
          (client xs ys refl lend),
      refl,
    )
  ]

  mended-Answered :
      {p : Pool} {cs : List Client} {c : Conn}
      → Reach num n (record { pool = p; repair = mended c; clients = cs })
      → p.quit ≡ false
      → cs ≡ xs ++ asking prior ∷ ys
      → Answered num n xs ys
  mended-Answered {p} {cs} {c} r on e =
      let k = (Reach-Inv r on).counted in
      free-Answered (later r (manager add_free)) (Mend-quit add_free ∙ on) e (some_free p c k)

  mending-Answered :
      {p : Pool} {cs : List Client} {c : Conn}
      → Reach num n (record { pool = p; repair = mending c; clients = cs })
      → p.quit ≡ false
      → cs ≡ xs ++ asking prior ∷ ys
      → Answered num n xs ys
  mending-Answered {p} {cs} {c} r on e =
      mended-Answered (later r (manager (succeed true on (mend_conn-opened c)))) on e

  bad-Answered :
      {p : Pool} {cs : List Client}
      → Reach num n (record { pool = p; repair = waiting; clients = cs })
      → p.quit ≡ false
      → cs ≡ xs ++ asking prior ∷ ys
      → is_zero p.bad_num ≡ false
      → Answered num n xs ys
  bad-Answered {p} r on e z = elim (pulls_succeed r on).1 [
    | inl h ↦ cc
    | inr (c, q, h) ↦ mending-Answered (later r (manager (pull z h))) (Mend-quit (pull z h) ∙ on) e
  ]

  Spare-Answered :
      {p : Pool} {m : Repair} {cs : List Client}
      → Reach num n (record { pool = p; repair = m; clients = cs })
      → p.quit ≡ false
      → cs ≡ xs ++ asking prior ∷ ys
      → Spare p m
      → Answered num n xs ys
  Spare-Answered r on e (spare_free z) = free-Answered r on e z
  Spare-Answered r on e spare_mended = mended-Answered r on e
  Spare-Answered r on e spare_mending = mending-Answered r on e
  Spare-Answered r on e (spare_bad z) = bad-Answered r on e z
  Spare-Answered r on e (spare_resting z) = bad-Answered (later r (manager rouse)) on e z

  -- While nobody has shut the pool down: from any state that is reached in which a client is at `retry`
  -- in `pgsql_pool_get`, or in the timed wait behind it, and a connection is free, or with the management
  -- thread, or bad while that thread waits for work, there are steps after which the call has returned a
  -- connection to that client, and every other client stands where it stood.
  pub pool_get-Answered :
      {p : Pool} {m : Repair} {cs : List Client} {a : Client}
      → Reach num n (record { pool = p; repair = m; clients = cs })
      → p.quit ≡ false
      → Asks prior a
      → cs ≡ xs ++ a ∷ ys
      → Spare p m
      → Answered num n xs ys
  pool_get-Answered r on at_retry e spare = Spare-Answered r on e spare
  pool_get-Answered r on in_wait e spare =
      Spare-Answered (later r (client xs ys e wake)) on refl spare
