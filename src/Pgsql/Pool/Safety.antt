-- ===== src/Pgsql/Pool/Safety.antt =====
-- src/plugins/storage/pgsql_pool.c: what the invariant says of the clients, and what a shutdown
-- breaks.
use netvizd.Common.{
  ℕ, ◌+◌, ◌≤◌, ◌≡◌, refl, ◌≢◌, sym, ap, ◌⊎◌, inl, inr, Bool-cases, true, false, List, [], ◌∷◌, ◌++◌,
  some, arith, length,
}
use netvizd.Common.Int.{ℤ, pos, ◌-ℤ◌}
use netvizd.Pgsql.Pool.{Conn, Pool, push_bad, is_zero, pull_free, pull_bad, pool_cleanup, sub_all}
use netvizd.Pgsql.Pool.Threads.{
  Client, spoiled, answered, mark_bad, pause, give_up, Repair, starting, waiting, resting, mending,
  mended, stopped, System, client, Reach, later,
}
use netvizd.Pgsql.Pool.Count.{is_conn, count, lent_to, total, count-snoc, total-at}
use netvizd.Pgsql.Pool.Kept.{Counted, due}
use netvizd.Pgsql.Pool.Invariant.{Reach-Inv}

due-le : (num i : ℕ) (r : Repair) → due num i r ≤ 1
due-le num i starting = omega arith
due-le num i waiting = ground arith
due-le num i resting = ground arith
due-le num i (mending c) = ground arith
due-le num i (mended c) = ground arith
due-le num i stopped = ground arith

-- While nobody has shut the pool down, two clients that `pgsql_pool_get` has answered hold
-- different connections.
pub answered_distinct :
    {num n : ℕ} {s : System}
    → Reach num n s
    → s.pool.quit ≡ false
    → (xs : List Client) (c : Conn) (ys : List Client) (d : Conn) (zs : List Client)
    → s.clients ≡ xs ++ answered (some c) ∷ (ys ++ answered (some d) ∷ zs)
    → c.id ≢ d.id
answered_distinct {num} {s} r on xs c ys d zs e same =
    let v = Reach-Inv r on in
    let w = lent_to c.id in
    absurd (
      omega (
        arith,
        v.lent c.id,
        v.each c.id,
        due-le num c.id s.repair,
        ap (total w) e,
        total-at w xs (answered (some c)) (ys ++ answered (some d) ∷ zs),
        total-at w ys (answered (some d)) zs,
        self c.id c refl,
        self c.id d (sym same),
      ))
  where
    self : (i : ℕ) (a : Conn) → a.id ≡ i → is_conn i a ≡ 1
    self i a h = ground arith

module _ {p : Pool} (k : Counted p) where
  pull_free_total-at :
      (free : List Conn)
      → p.free ≡ free
      → is_zero p.free_num ≡ false
      → (c : Conn) × (q : Pool) × (pull_free p ≡ some (c, q))
  unfolding pull_free
  pull_free_total-at [] e z = absurd (ground (arith, k.free_counted))
  pull_free_total-at (c ∷ cs) e z =
      (c, record p { free = cs; free_num = p.free_num -ℤ pos 1 }, rw (e, pull_free) refl)

  pull_bad_total-at :
      (bad : List Conn)
      → p.bad ≡ bad
      → is_zero p.bad_num ≡ false
      → (c : Conn) × (q : Pool) × (pull_bad p ≡ some (c, q))
  unfolding pull_bad
  pull_bad_total-at [] e z = absurd (ground (arith, k.bad_counted))
  pull_bad_total-at (c ∷ cs) e z =
      (c, record p { bad = cs; bad_num = p.bad_num -ℤ pos 1 }, rw (e, pull_bad) refl)

-- While nobody has shut the pool down, the test of each of the two waiting loops agrees with the list:
-- either the counter is zero, and the loop waits, or the code behind the loop finds a connection, and no
-- access goes through `NULL`.
pub pulls_succeed :
    {num n : ℕ} {s : System}
    → Reach num n s
    → s.pool.quit ≡ false
    → ((is_zero s.pool.free_num ≡ true)
        ⊎ ((c : Conn) × (q : Pool) × (pull_free s.pool ≡ some (c, q))))
      × ((is_zero s.pool.bad_num ≡ true)
          ⊎ ((c : Conn) × (q : Pool) × (pull_bad s.pool ≡ some (c, q))))
pulls_succeed {s} r on =
    let k = (Reach-Inv r on).counted in
    (
      elim (Bool-cases (is_zero s.pool.free_num)) [
        | inl e ↦ inl e
        | inr e ↦ inr (pull_free_total-at k s.pool.free refl e)
      ],
      elim (Bool-cases (is_zero s.pool.bad_num)) [
        | inl e ↦ inl e
        | inr e ↦ inr (pull_bad_total-at k s.pool.bad refl e)
      ],
    )

-- After a shutdown `pgsql_pool_get` can answer with a connection that it has just put on the bad
-- list: a client that found its connection bad, while no connection is free, puts it there, leaves
-- the waiting loop by the `quit` test and returns what is still in its variable.
pub stale_answer :
    {num n : ℕ} {s : System}
    → Reach num n s
    → (xs : List Client) (c : Conn) (ys : List Client) → s.clients ≡ xs ++ spoiled c ∷ ys
    → s.pool.quit ≡ true
    → is_zero s.pool.free_num ≡ true
    → (t : System) × Reach num n t
      × (t.clients ≡ xs ++ answered (some c) ∷ ys)
      × (count c.id t.pool.bad ≡ count c.id s.pool.bad + 1)
unfolding push_bad
stale_answer {s} r xs c ys e off empty = (
  _,
  later (later (later r (client xs ys e mark_bad)) (client xs ys refl (pause empty)))
      (client xs ys refl (give_up off)),
  refl,
  ground (arith, count-snoc c.id s.pool.bad c),
)

sub_all-length : (n : ℕ) (cs : List Conn) → sub_all (pos (length cs + n)) cs ≡ pos n
unfolding ◌-ℤ◌
sub_all-length n [] = ground arith
sub_all-length n (c ∷ cs) = ground (arith, sub_all-length n cs)

sub_all-zero : (n : ℤ) (cs : List Conn) → n ≡ pos (length cs) → sub_all n cs ≡ pos 0
sub_all-zero n cs e = ground (arith, sub_all-length 0 cs)

-- The clean-up of the management thread brings the three counters of a consistent pool to zero, and
-- leaves it consistent.
pub cleanup-zero :
    (p : Pool)
    → Counted p
    → Counted (pool_cleanup p).0
      × ((pool_cleanup p).0.free_num ≡ pos 0)
      × ((pool_cleanup p).0.inuse_num ≡ pos 0)
      × ((pool_cleanup p).0.bad_num ≡ pos 0)
unfolding pool_cleanup
cleanup-zero p k =
    let f = sub_all-zero p.free_num p.free k.free_counted in
    let i = sub_all-zero p.inuse_num p.inuse k.inuse_counted in
    let b = sub_all-zero p.bad_num p.bad k.bad_counted in
    (record { bad_counted = b; free_counted = f; inuse_counted = i }, f, i, b)
