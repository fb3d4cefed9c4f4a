-- ===== src/Pgsql/Pool/Count.antt =====
-- src/plugins/storage/pgsql_pool.c: how often a connection stands in each list of the pool and in
-- each thread.
use netvizd.Common.{
  ℕ, zero, suc, ◌+◌, ◌≤◌, ◌≡◌, refl, false, List, [], ◌∷◌, ◌++◌, some, arith, ltb, ◌==◌,
  if◌then◌else◌, length, length-append, replicate,
}
use netvizd.Common.Int.{pos, ◌+ℤ◌}
use netvizd.Pgsql.Pool.{Conn, Pool, push_bad, fill_bad, remove_conn}
use netvizd.Pgsql.Pool.Threads.{
  Client, idle, asking, pausing, checking, spoiled, sound, answered, returning, dropping, restoring,
  Repair, starting, mending, mended,
}

abbrev pub is_conn : ℕ → Conn → ℕ
is_conn i c = if c.id == i then 1 else 0

abbrev pub count : ℕ → List Conn → ℕ
count i [] = 0
count i (c ∷ cs) = is_conn i c + count i cs

-- Connection `i` in a local variable of a client, on no list.
abbrev pub in_flight : ℕ → Client → ℕ
in_flight i idle = 0
in_flight i (asking c) = 0
in_flight i (pausing c) = 0
in_flight i (checking c) = is_conn i c
in_flight i (spoiled c) = is_conn i c
in_flight i (sound c) = is_conn i c
in_flight i (answered c) = 0
in_flight i (returning c) = is_conn i c
in_flight i (dropping c) = is_conn i c
in_flight i (restoring c) = is_conn i c

-- Connection `i` in the hands of the caller.
abbrev pub lent_to : ℕ → Client → ℕ
lent_to i (answered (some c)) = is_conn i c
lent_to i _ = 0

abbrev pub in_repair : ℕ → Repair → ℕ
in_repair i starting = 0
in_repair i (mending c) = is_conn i c
in_repair i (mended c) = is_conn i c
in_repair i _ = 0

abbrev pub total : (Client → ℕ) → List Client → ℕ
total w [] = 0
total w (c ∷ cs) = w c + total w cs

pub count-snoc :
    (i : ℕ) (cs : List Conn) (c : Conn) → count i (cs ++ c ∷ []) ≡ count i cs + is_conn i c
count-snoc i [] c = omega arith
count-snoc i (d ∷ cs) c = omega (arith, count-snoc i cs c)

pub total-at :
    (w : Client → ℕ) (xs : List Client) (c : Client) (ys : List Client)
    → total w (xs ++ c ∷ ys) ≡ w c + (total w xs + total w ys)
total-at w [] c ys = omega arith
total-at w (x ∷ xs) c ys = omega (arith, total-at w xs c ys)

pub count-remove :
    (i k : ℕ) (cs : List Conn) (c : Conn)
    → c.id ≡ k
    → 1 ≤ count k cs
    → count i (remove_conn k cs) + is_conn i c ≡ count i cs
unfolding remove_conn
count-remove i k [] c e h = absurd (omega arith)
count-remove i k (d ∷ cs) c e h = ground (arith, count-remove i k cs c e)

pub length-remove :
    (k : ℕ) (cs : List Conn) → 1 ≤ count k cs → length (remove_conn k cs) + 1 ≡ length cs
unfolding remove_conn
length-remove k [] h = absurd (omega arith)
length-remove k (d ∷ cs) h = ground (arith, length-remove k cs)

-- What the filling loop leaves: `k` new connections, from `j` on.
pub fill-count :
    (k j i : ℕ) (p : Pool)
    → count i (fill_bad k j p).bad
      ≡ count i p.bad + (if ltb i (j + k) then (if ltb i j then 0 else 1) else 0)
unfolding fill_bad push_bad
fill-count zero j i p = ground arith
fill-count (suc k) j i p = ground (
  arith,
  fill-count k (j + 1) i (push_bad p (record { id = j; opened = false })),
  count-snoc i p.bad (record { id = j; opened = false }),
)

pub fill-length :
    (k j : ℕ) (p : Pool)
    → p.bad_num ≡ pos (length p.bad)
    → (fill_bad k j p).bad_num ≡ pos (length (fill_bad k j p).bad)
unfolding fill_bad push_bad ◌+ℤ◌
fill-length zero j p e = e
fill-length (suc k) j p e =
    fill-length k (j + 1) (push_bad p (record { id = j; opened = false }))
      (ground (arith, length-append p.bad (record { id = j; opened = false } ∷ []), e))

-- The loop touches the bad list alone.
pub fill-same :
    (k j : ℕ) (p : Pool)
    → fill_bad k j p ≡ record p { bad = (fill_bad k j p).bad; bad_num = (fill_bad k j p).bad_num }
unfolding fill_bad push_bad
fill-same zero j p = refl
fill-same (suc k) j p = fill-same k (j + 1) (push_bad p (record { id = j; opened = false }))

pub total-idle : (w : Client → ℕ) (n : ℕ) → w idle ≡ 0 → total w (replicate n idle) ≡ 0
total-idle w zero e = refl
total-idle w (suc n) e = omega (arith, e, total-idle w n e)
