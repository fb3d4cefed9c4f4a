-- ===== src/Pgsql/Pool/Invariant.antt =====
-- src/plugins/storage/pgsql_pool.c: what every interleaving keeps, as long as nobody shuts the
-- pool down.
use netvizd.Common.{ℕ, ◌+◌, ◌≤◌, ◌≡◌, refl, ap, ◌∙◌, false, List, ◌∷◌, ◌++◌, arith}
use netvizd.Pgsql.Pool.{Pool, pool_init, push_bad, push_free, push_inuse, drop_inuse}
use netvizd.Pgsql.Pool.Threads.{
  Client, Move, enter, grab, Repair, Mend, fill, pull, add_free, System, Step, client, manager,
  shut_down, start_state, Reach, start, later,
}
use netvizd.Pgsql.Pool.Moves.{Move-Moved, Mend-Mended}
use netvizd.Pgsql.Pool.Kept.{pull_free-eq, pull_bad-eq, Counted, listed, due}
use netvizd.Pgsql.Pool.Count.{
  count, in_flight, lent_to, in_repair, total, total-at, fill-same, total-idle,
}

pub record Inv (num : ℕ) (s : System) : Type 0 where
  pub size : s.pool.num ≡ num
  pub counted : Counted s.pool
  pub each :
      (i : ℕ)
      → listed i s.pool + (total (in_flight i) s.clients + in_repair i s.repair)
        ≡ due num i s.repair
  pub lent : (i : ℕ) → count i s.pool.inuse ≡ total (lent_to i) s.clients

-- No step undoes a shutdown.
Move-quit : {p q : Pool} {a b : Client} → Move p a q b → q.quit ≡ p.quit
unfolding push_bad push_free push_inuse drop_inuse
Move-quit {p} (grab {c} {q} e t) = ground (arith, pull_free-eq p p.free c q refl t)
Move-quit (enter e) = refl
Move-quit _ = refl

pub Mend-quit : {p q : Pool} {r s : Repair} → Mend p r q s → q.quit ≡ p.quit
unfolding push_free
Mend-quit {p} (pull {c} {q} e t) = ground (arith, pull_bad-eq p p.bad c q refl t)
Mend-quit {p} fill = rw (fill-same p.num 0 p)
Mend-quit (add_free) = refl
Mend-quit _ = refl

pub Step-quit : {s t : System} → Step s t → t.pool.quit ≡ false → s.pool.quit ≡ false
Step-quit (client xs ys e m) on = ground (arith, Move-quit m)
Step-quit (manager m) on = ground (arith, Mend-quit m)
Step-quit shut_down on = cc

lent-le :
    {num : ℕ} {s : System}
    → Inv num s
    → (xs : List Client) (a : Client) (ys : List Client) → s.clients ≡ xs ++ a ∷ ys
    → (i : ℕ) → lent_to i a ≤ count i s.pool.inuse
lent-le {s} v xs a ys e i =
    omega (arith, v.lent i, ap (total (lent_to i)) e, total-at (lent_to i) xs a ys)

-- A step over a pool that nobody shuts down keeps the invariant.
pub Step-Inv : {num : ℕ} {s t : System} → Step s t → s.pool.quit ≡ false → Inv num s → Inv num t
Step-Inv {num} {s} (client xs ys {a} {b} {q} e m) on v =
    let moved = Move-Moved m v.counted on (lent-le v xs a ys e) in
    record {
      size = moved.kept.size ∙ v.size;
      counted = moved.kept.counted;
      each = λ i. omega (
        arith,
        moved.kept.each i,
        v.each i,
        ap (total (in_flight i)) e,
        total-at (in_flight i) xs a ys,
        total-at (in_flight i) xs b ys,
      );
      lent = λ i. omega (
        arith,
        moved.lent i,
        v.lent i,
        ap (total (lent_to i)) e,
        total-at (lent_to i) xs a ys,
        total-at (lent_to i) xs b ys,
      );
    }
Step-Inv {num} {s} (manager {q} {r} m) on v =
    let mended = Mend-Mended m v.counted on in
    record {
      size = mended.size ∙ v.size;
      counted = mended.counted;
      each = λ i. omega (
        arith,
        mended.each i,
        v.each i,
        ap (λ (k : ℕ). due k i s.repair) v.size,
        ap (λ (k : ℕ). due k i r) v.size,
      );
      lent = λ i. ap (count i) mended.same_inuse ∙ v.lent i;
    }
Step-Inv shut_down on v = record {
  size = v.size;
  counted = record {
    bad_counted = v.counted.bad_counted;
    free_counted = v.counted.free_counted;
    inuse_counted = v.counted.inuse_counted;
  };
  each = v.each;
  lent = v.lent;
}

pub start-Inv : (num n : ℕ) → Inv num (start_state num n)
unfolding pool_init
start-Inv num n = record {
  size = refl;
  counted = record { bad_counted = refl; free_counted = refl; inuse_counted = refl };
  each = λ i. omega (arith, total-idle (in_flight i) n refl);
  lent = λ i. omega (arith, total-idle (lent_to i) n refl);
}

-- While nobody has shut the pool down, whatever the interleaving of any number of clients with the
-- management thread: each of the three counters is the length of its list, each of the connections
-- numbered below `num` is in exactly one place once the pool is filled, and the in-use list holds
-- just the connections that clients hold.
pub Reach-Inv : {num n : ℕ} {s : System} → Reach num n s → s.pool.quit ≡ false → Inv num s
Reach-Inv {num} {n} start on = start-Inv num n
Reach-Inv (later r st) on = Step-Inv st (Step-quit st on) (Reach-Inv r (Step-quit st on))
