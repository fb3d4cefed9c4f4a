-- ===== src/Pgsql/Instance/Ready.antt =====
-- src/plugins/storage/pgsql.c: what the maintenance thread announces, and how the wait for it ends.
use netvizd.Common.{
  ℕ, ◌≡◌, ◌∙◌, inl, inr, Bool, true, false, ◌&&◌, List, [], ◌∷◌, Option, none, some, arith,
  if◌then◌else◌, Bool-cases,
}
use netvizd.Common.Int.{ℤ, pos, negsuc, ltb_ℤ, ◌-ℤ◌}
use netvizd.Common.Text.{codes}
use netvizd.Pgsql.Statements.{sql_create_meta, sql_create_data}
use netvizd.Pgsql.Store.{Service, pgsql_init_table}
use netvizd.Pgsql.Store.Balance.{Ledger}
use netvizd.Pgsql.Store.Settled.{init_table-Settled}
use netvizd.Pgsql.Instance.{
  Look, wait_ready, pgsql_get_ready, Announced, ready, next_table, pgsql_thread,
}

-- The first look that ends the loop has found `ready`.
abbrev pub ends_ready : List Look → Bool
ends_ready [] = false
ends_ready (l ∷ ls) =
    let rest = ends_ready ls in
    if l.is_ready then true else if l.timed_out && l.is_quit then false else rest

wait_ready-balance :
    (ls : List Look) (n : ℤ)
    → wait_ready (pos 1) ls ≡ some n
    → n ≡ (if ends_ready ls then pos 0 else negsuc 0)
unfolding wait_ready ◌-ℤ◌
wait_ready-balance [] n e = cc
wait_ready-balance (l ∷ ls) n e = let rest = wait_ready-balance ls n in ground arith

-- When `pgsql_get_ready` returns, the lock has been given back as often as it was taken, but for one
-- case: where it began to wait and a wait reached its time limit with `quit` set, the lock has been given
-- back once more than that.
pub pgsql_get_ready-balance :
    (is_quit : Bool) (ls : List Look) (n : ℤ)
    → pgsql_get_ready is_quit ls ≡ some n
    → n ≡ (if is_quit then pos 0 else if ends_ready ls then pos 0 else negsuc 0)
unfolding pgsql_get_ready
pgsql_get_ready-balance true ls n e = ground arith
pgsql_get_ready-balance false ls n e = wait_ready-balance ls n e

module _ (S : Service) (l : Ledger S) where
  open S use {World}
  open l use {held}

  next_table-held :
      (o : Option ℤ × World) (f : World → Announced × World) (w : World)
      → held o.1 ≡ held w
      → held (f o.1).1 ≡ held w
      → held (next_table S o f).1 ≡ held w
  unfolding next_table
  next_table-held (none, w1) f w e h = e
  next_table-held (some ret, w1) f w e h = elim (Bool-cases (ltb_ℤ ret (pos 0))) [
    | inl t ↦ rw t e
    | inr t ↦ rw t h
  ]

  -- Whatever the database answers, when the maintenance thread is done with the tables it has given back
  -- every connection that it took.
  pub pgsql_thread-held : (fuel : ℕ) (w : World) → held (pgsql_thread S fuel w).1 ≡ held w
  unfolding pgsql_thread
  pgsql_thread-held fuel w =
      let first = pgsql_init_table S fuel (codes "nv_dsts") (sql_create_meta (codes "nv_dsts")) w in
      let second = λ (v : World).
        pgsql_init_table S fuel (codes "nv_dsts_data") (sql_create_data (codes "nv_dsts_data")) v in
      let done = λ (v : World). let r : Announced × World = (ready, v) in r in
      let one =
        init_table-Settled S l fuel (codes "nv_dsts") (sql_create_meta (codes "nv_dsts")) w in
      let two =
        init_table-Settled S l fuel (codes "nv_dsts_data") (sql_create_data (codes "nv_dsts_data"))
          first.1 in
      let both = two.same_held ∙ one.same_held in
      next_table-held first (λ v. next_table S (second v) done) w one.same_held
        (next_table-held (second first.1) done w both both)
