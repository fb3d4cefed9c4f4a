-- ===== src/Pgsql/Pool/Kept.antt =====
-- src/plugins/storage/pgsql_pool.c: what each critical section keeps.
use netvizd.Common.{
  ℕ, ◌+◌, ◌≤◌, ◌≡◌, refl, List, [], ◌∷◌, ◌++◌, some, arith, ltb, if◌then◌else◌, length,
  length-append,
}
use netvizd.Common.Int.{pos, ◌+ℤ◌, ◌-ℤ◌}
use netvizd.Pgsql.Pool.{
  Conn, Pool, push_bad, push_free, push_inuse, pull_free, pull_bad, drop_inuse,
}
use netvizd.Pgsql.Pool.Threads.{Repair, starting}
use netvizd.Pgsql.Pool.Count.{is_conn, count, count-snoc, count-remove, length-remove}

-- Each counter is the length of its list.
pub record Counted (p : Pool) : Type 0 where
  pub bad_counted : p.bad_num ≡ pos (length p.bad)
  pub free_counted : p.free_num ≡ pos (length p.free)
  pub inuse_counted : p.inuse_num ≡ pos (length p.inuse)

-- On the three lists together.
abbrev pub listed : ℕ → Pool → ℕ
listed i p = count i p.bad + (count i p.free + count i p.inuse)

-- How often connection `i` is to be found: once, after the bad list has been filled.
abbrev pub due : ℕ → ℕ → Repair → ℕ
due num i starting = 0
due num i _ = if ltb i num then 1 else 0

-- What a step of one thread keeps, `f` and `g` being what the thread holds before and after.
pub record Kept (p q : Pool) (f g : ℕ → ℕ) : Type 0 where
  pub size : q.num ≡ p.num
  pub counted : Counted q
  pub each : (i : ℕ) → listed i q + g i ≡ listed i p + f i

snoc-length : (cs : List Conn) (c : Conn) → length (cs ++ c ∷ []) ≡ length cs + 1
snoc-length cs c = omega (arith, length-append cs (c ∷ []))

module _ (p : Pool) (k : Counted p) (c : Conn) where
  pub push_bad-Kept : Kept p (push_bad p c) (λ i. is_conn i c) (λ i. 0)
  unfolding push_bad ◌+ℤ◌
  push_bad-Kept = record {
    size = refl;
    counted = record {
      bad_counted = ground (arith, snoc-length p.bad c, k.bad_counted);
      free_counted = k.free_counted;
      inuse_counted = k.inuse_counted;
    };
    each = λ i. omega (arith, count-snoc i p.bad c);
  }

  pub push_free-Kept : Kept p (push_free p c) (λ i. is_conn i c) (λ i. 0)
  unfolding push_free ◌+ℤ◌
  push_free-Kept = record {
    size = refl;
    counted = record {
      bad_counted = k.bad_counted;
      free_counted = ground (arith, snoc-length p.free c, k.free_counted);
      inuse_counted = k.inuse_counted;
    };
    each = λ i. omega (arith, count-snoc i p.free c);
  }

  pub push_inuse-Kept : Kept p (push_inuse p c) (λ i. is_conn i c) (λ i. 0)
  unfolding push_inuse ◌+ℤ◌
  push_inuse-Kept = record {
    size = refl;
    counted = record {
      bad_counted = k.bad_counted;
      free_counted = k.free_counted;
      inuse_counted = ground (arith, snoc-length p.inuse c, k.inuse_counted);
    };
    each = λ i. omega (arith, count-snoc i p.inuse c);
  }

  pub drop_inuse-Kept : 1 ≤ count c.id p.inuse → Kept p (drop_inuse p c) (λ i. 0) (λ i. is_conn i c)
  unfolding drop_inuse ◌-ℤ◌
  drop_inuse-Kept h = record {
    size = refl;
    counted = record {
      bad_counted = k.bad_counted;
      free_counted = k.free_counted;
      inuse_counted = ground (arith, length-remove c.id p.inuse h, k.inuse_counted);
    };
    each = λ i. omega (arith, count-remove i c.id p.inuse c refl h);
  }

pub pull_free-eq :
    (p : Pool) (free : List Conn) (c : Conn) (q : Pool)
    → p.free ≡ free
    → pull_free p ≡ some (c, q)
    → (free ≡ c ∷ q.free) × (q ≡ record p { free = q.free; free_num = p.free_num -ℤ pos 1 })
unfolding pull_free
pull_free-eq p [] c q e h = ground (arith, e, h)
pull_free-eq p (d ∷ cs) c q e h = ground (arith, e, h)

pub pull_bad-eq :
    (p : Pool) (bad : List Conn) (c : Conn) (q : Pool)
    → p.bad ≡ bad
    → pull_bad p ≡ some (c, q)
    → (bad ≡ c ∷ q.bad) × (q ≡ record p { bad = q.bad; bad_num = p.bad_num -ℤ pos 1 })
unfolding pull_bad
pull_bad-eq p [] c q e h = ground (arith, e, h)
pull_bad-eq p (d ∷ cs) c q e h = ground (arith, e, h)

module _ (p : Pool) (k : Counted p) (c : Conn) (q : Pool) where
  pub pull_free-Kept :
      pull_free p ≡ some (c, q) → Kept p q (λ i. 0) (λ i. is_conn i c) × (q.inuse ≡ p.inuse)
  unfolding ◌-ℤ◌
  pull_free-Kept h =
      let e = pull_free-eq p p.free c q refl h in
      (
        record {
          size = ground (arith, e.1);
          counted = record {
            bad_counted = ground (arith, e.1, k.bad_counted);
            free_counted = ground (arith, e.0, e.1, k.free_counted);
            inuse_counted = ground (arith, e.1, k.inuse_counted);
          };
          each = λ i. ground (arith, e.0, e.1);
        },
        ground (arith, e.1),
      )

  pub pull_bad-Kept :
      pull_bad p ≡ some (c, q) → Kept p q (λ i. 0) (λ i. is_conn i c) × (q.inuse ≡ p.inuse)
  unfolding ◌-ℤ◌
  pull_bad-Kept h =
      let e = pull_bad-eq p p.bad c q refl h in
      (
        record {
          size = ground (arith, e.1);
          counted = record {
            bad_counted = ground (arith, e.0, e.1, k.bad_counted);
            free_counted = ground (arith, e.1, k.free_counted);
            inuse_counted = ground (arith, e.1, k.inuse_counted);
          };
          each = λ i. ground (arith, e.0, e.1);
        },
        ground (arith, e.1),
      )
