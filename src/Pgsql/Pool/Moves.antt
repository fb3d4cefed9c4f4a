-- ===== src/Pgsql/Pool/Moves.antt =====
-- src/plugins/storage/pgsql_pool.c: what one step of a thread keeps, as long as nobody shuts the
-- pool down.
use netvizd.Common.{ℕ, ◌+◌, ◌≤◌, ◌≡◌, refl, ap, Bool, false, arith}
use netvizd.Pgsql.Pool.{
  Conn, Pool, push_bad, push_free, push_inuse, fill_bad, drop_inuse, mend_conn,
}
use netvizd.Pgsql.Pool.Threads.{
  Client, Move, enter, refuse, grab, pause, wake, give_up, found_bad, found_good, mark_bad, lend,
  leave, release, keep, returned_bad, returned_good, drop_bad, restore, Repair, starting, waiting,
  Mend, fill, pull, fail, succeed, add_free, rest, rouse, stop_waiting, stop_mending,
}
use netvizd.Pgsql.Pool.Kept.{
  Counted, listed, due, Kept, push_bad-Kept, push_free-Kept, push_inuse-Kept, drop_inuse-Kept,
  pull_free-Kept, pull_bad-Kept,
}
use netvizd.Pgsql.Pool.Count.{
  is_conn, count, in_flight, lent_to, in_repair, count-snoc, count-remove, fill-count, fill-length,
  fill-same,
}

-- What a step of a client keeps, the connections that it was lent included.
pub record Moved (p : Pool) (a : Client) (q : Pool) (b : Client) : Type 0 where
  pub kept : Kept p q (λ i. in_flight i a) (λ i. in_flight i b)
  pub lent : (i : ℕ) → count i q.inuse + lent_to i a ≡ count i p.inuse + lent_to i b

same-Kept : (p : Pool) (f g : ℕ → ℕ) → Counted p → ((i : ℕ) → g i ≡ f i) → Kept p p f g
same-Kept p f g k e = record { size = refl; counted = k; each = λ i. omega (arith, e i) }

pub Move-Moved :
    {p q : Pool} {a b : Client}
    → Move p a q b
    → Counted p
    → p.quit ≡ false
    → ((i : ℕ) → lent_to i a ≤ count i p.inuse)
    → Moved p a q b
unfolding push_bad push_free push_inuse drop_inuse
Move-Moved {p} (enter e) k on h = record { kept = same-Kept p _ _ k (λ i. refl); lent = λ i. refl }
Move-Moved (refuse e) k on h = cc
Move-Moved {p} (grab {c} {q} e t) k on h =
    let r = pull_free-Kept p k c q t in record { kept = r.0; lent = λ i. ground (arith, r.1) }
Move-Moved {p} (pause e) k on h = record { kept = same-Kept p _ _ k (λ i. refl); lent = λ i. refl }
Move-Moved {p} wake k on h = record { kept = same-Kept p _ _ k (λ i. refl); lent = λ i. refl }
Move-Moved (give_up t) k on h = cc
Move-Moved {p} found_bad k on h = record { kept = same-Kept p _ _ k (λ i. refl); lent = λ i. refl }
Move-Moved {p} found_good k on h = record { kept = same-Kept p _ _ k (λ i. refl); lent = λ i. refl }
Move-Moved {p} (mark_bad {c}) k on h = record { kept = push_bad-Kept p k c; lent = λ i. refl }
Move-Moved {p} (lend {c}) k on h = record {
  kept = push_inuse-Kept p k c;
  lent = λ i. omega (arith, count-snoc i p.inuse c);
}
Move-Moved {p} leave k on h = record { kept = same-Kept p _ _ k (λ i. refl); lent = λ i. refl }
Move-Moved {p} (release {c} e) k on h =
    let one : 1 ≤ count c.id p.inuse = ground (arith, h c.id) in
    record {
      kept = drop_inuse-Kept p k c one;
      lent = λ i. omega (arith, count-remove i c.id p.inuse c refl one);
    }
Move-Moved (keep e) k on h = cc
Move-Moved {p} returned_bad k on h = record {
  kept = same-Kept p _ _ k (λ i. refl);
  lent = λ i. refl;
}
Move-Moved {p} returned_good k on h = record {
  kept = same-Kept p _ _ k (λ i. refl);
  lent = λ i. refl;
}
Move-Moved {p} (drop_bad {c}) k on h = record { kept = push_bad-Kept p k c; lent = λ i. refl }
Move-Moved {p} (restore {c}) k on h = record { kept = push_free-Kept p k c; lent = λ i. refl }

-- What a step of the management thread keeps.
pub record Mended (p : Pool) (r : Repair) (q : Pool) (s : Repair) : Type 0 where
  pub size : q.num ≡ p.num
  pub counted : Counted q
  pub each :
      (i : ℕ)
      → listed i q + in_repair i s + due p.num i r ≡ listed i p + in_repair i r + due p.num i s
  pub same_inuse : q.inuse ≡ p.inuse

fill-Mended : (p : Pool) → Counted p → Mended p starting (fill_bad p.num 0 p) waiting
fill-Mended p k = record {
  size = rw (fill-same p.num 0 p);
  counted = record {
    bad_counted = fill-length p.num 0 p k.bad_counted;
    free_counted = rw (fill-same p.num 0 p) k.free_counted;
    inuse_counted = rw (fill-same p.num 0 p) k.inuse_counted;
  };
  each = λ i. ground (
    arith,
    fill-count p.num 0 i p,
    ap (λ (q : Pool). count i q.free + count i q.inuse) (fill-same p.num 0 p),
  );
  same_inuse = rw (fill-same p.num 0 p);
}

mend_conn-id : (i : ℕ) (got : Bool) (c : Conn) → is_conn i (mend_conn got c) ≡ is_conn i c
unfolding mend_conn
mend_conn-id i got c = ground arith

pub Mend-Mended :
    {p q : Pool} {r s : Repair} → Mend p r q s → Counted p → p.quit ≡ false → Mended p r q s
unfolding push_free
Mend-Mended {p} fill k on = fill-Mended p k
Mend-Mended {p} (pull {c} {q} e t) k on =
    let (kept, same) = pull_bad-Kept p k c q t in
    record {
      size = kept.size;
      counted = kept.counted;
      each = λ i. omega (arith, kept.each i);
      same_inuse = same;
    }
Mend-Mended {p} (fail {c} got e) k on = record {
  size = refl;
  counted = k;
  each = λ i. omega (arith, mend_conn-id i got c);
  same_inuse = refl;
}
Mend-Mended {p} (succeed {c} got e o) k on = record {
  size = refl;
  counted = k;
  each = λ i. omega (arith, mend_conn-id i got c);
  same_inuse = refl;
}
Mend-Mended {p} (add_free {c}) k on =
    let kept = push_free-Kept p k c in
    record {
      size = refl;
      counted = kept.counted;
      each = λ i. omega (arith, kept.each i);
      same_inuse = refl;
    }
Mend-Mended {p} (rest e) k on = record {
  size = refl;
  counted = k;
  each = λ i. omega arith;
  same_inuse = refl;
}
Mend-Mended {p} rouse k on = record {
  size = refl;
  counted = k;
  each = λ i. omega arith;
  same_inuse = refl;
}
Mend-Mended (stop_waiting t) k on = cc
Mend-Mended (stop_mending e) k on = cc
