-- ===== src/Pgsql/Store/Tests.antt =====
-- src/plugins/storage/pgsql.c: runs on a database that keeps the update time of one data set. Its first
-- connections may be bad.
use netvizd.Common.{
  ℕ, ◌+◌, ◌-◌, ◌≡◌, refl, Bool, true, false, List, [], ◌∷◌, Option, none, some, arith, ltb,
}
use netvizd.Common.Int.{ℤ, pos}
use netvizd.Common.Text.{Text, codes, same_text, atoi}
use netvizd.Net.Tests.{whole_numbers}
use netvizd.Pgsql.Pool.{Conn}
use netvizd.Pgsql.Statements.{
  print_statement, sql_create_meta, sql_get_ts, sql_get_utime, sql_add_utime, sql_update_utime,
  sql_add_row, sql_table_exists,
}
use netvizd.Pgsql.Statements.Tests.{one_day}
use netvizd.Pgsql.Store.Balance.{Ledger, Settled}
use netvizd.Pgsql.Store.Attempts.{bad_tries}
use netvizd.Pgsql.Store.Settled.{SettledBy, utime_tries, operations-Settled}
use netvizd.Pgsql.Store.RoundTrip.{IsUp, RowsOf, get_ts_utime-stor_ts_utime}
use netvizd.Pgsql.Store.{
  PgResult, tuples_ok, command_ok, Service, pgsql_init_table, pgsql_stor_ts_data, pgsql_get_ts_data,
  pgsql_get_ts_utime, pgsql_stor_ts_utime,
}

record Database : Type 0 where
  held : ℕ
  results : ℕ
  runs : ℕ
  epoch : Option Text

abbrev link : Conn
link = record { id = 3; opened = true }

abbrev tuples_of : Option Text → List (ℕ → Text)
tuples_of none = []
tuples_of (some e) = (λ n. e) ∷ []

abbrev one_more : Option Text → Database → Database
one_more e w = record { held = w.held; results = w.results + 1; runs = w.runs + 1; epoch = e }

abbrev run_query : Bool → Database → PgResult × Database
run_query true w = (tuples_ok (tuples_of w.epoch), one_more w.epoch w)
run_query false w = (command_ok, one_more (some (codes "60")) w)

abbrev small_database : ℕ → Service
small_database bad = record {
  World = Database;
  pool_get = λ w. (
    some link,
    record { held = w.held + 1; results = w.results; runs = w.runs; epoch = w.epoch },
  );
  pool_release =
      λ c w. record { held = w.held - 1; results = w.results; runs = w.runs; epoch = w.epoch };
  exec = λ c s w. run_query (same_text s (sql_get_utime (codes "rtr1") (codes "atm"))) w;
  exec_param = λ c s t w. run_query true w;
  clear = λ w. record { held = w.held; results = w.results - 1; runs = w.runs; epoch = w.epoch };
  is_bad = λ c w. ltb w.runs bad;
}

abbrev empty_database : Database
empty_database = record { held = 0; results = 0; runs = 0; epoch = none }

run_query-held : (b : Bool) (w : Database) → (run_query b w).1.held ≡ w.held
run_query-held true w = refl
run_query-held false w = refl

run_query-results : (b : Bool) (w : Database) → (run_query b w).1.results ≡ w.results + 1
run_query-results true w = refl
run_query-results false w = refl

run_query-good : (b : Bool) (w : Database) → ltb (run_query b w).1.runs 0 ≡ false
run_query-good true w = ground arith
run_query-good false w = ground arith

none-link : {A : Type 0} → some link ≡ none → A
none-link e = cc

abbrev database-Ledger : (bad : ℕ) → Ledger (small_database bad)
database-Ledger bad = record {
  held = λ w. w.held;
  results = λ w. w.results;
  get_some = λ w c e. refl;
  get_none = λ w e. none-link e;
  get_results = λ w. refl;
  release_held = λ c w. refl;
  release_results = λ c w. refl;
  exec_held = λ c s w. run_query-held _ w;
  exec_results = λ c s w. run_query-results _ w;
  exec_param_held = λ c s p w. refl;
  exec_param_results = λ c s p w. refl;
  clear_held = λ w. refl;
  clear_results = λ w. refl;
}

answer-RowsOf : (o : Option Text) → RowsOf o (tuples_ok (tuples_of o))
answer-RowsOf none = refl
answer-RowsOf (some e) = ((λ n. e), refl, refl)

database-IsUp : IsUp (small_database 0) (codes "rtr1") (codes "atm") (pos 60) one_day
unfolding same_text sql_get_utime sql_add_utime sql_update_utime atoi
database-IsUp = record {
  epoch = λ w. w.epoch;
  connects = λ w. (link, refl);
  get_keeps = λ w. refl;
  release_keeps = λ c w. refl;
  clear_keeps = λ w. refl;
  stays_good = λ c s w. run_query-good _ w;
  selects = λ c w. answer-RowsOf w.epoch;
  select_keeps = λ c w. refl;
  inserts = λ c w e. record { text = codes "60"; reads_back = refl; accepts = refl; keeps = refl };
  updates =
      λ c w old e. record { text = codes "60"; reads_back = refl; accepts = refl; keeps = refl };
}

get_ts_utime-stor_ts_utime_example :
    let r =
      pgsql_stor_ts_utime
        (small_database 0)
        whole_numbers
        (λ t. one_day)
        (λ v. codes "1")
        (λ t. 1)
        1
        (codes "atm")
        (codes "rtr1")
        (pos 60)
        empty_database in
    (r.0 ≡ some (pos 0))
    × ((pgsql_get_ts_utime
          (small_database 0)
          whole_numbers
          (λ t. one_day)
          (λ v. codes "1")
          (λ t. 1)
          1
          (codes "atm")
          (codes "rtr1")
          r.1).0
        ≡ some (pos 60))
get_ts_utime-stor_ts_utime_example =
    get_ts_utime-stor_ts_utime (small_database 0) whole_numbers (λ t. one_day) (λ v. codes "1")
      (λ t. 1) (codes "rtr1") (codes "atm") (pos 60) database-IsUp (omega arith) refl 0 0
      empty_database

operations-Settled_example :
    let S = small_database 2 in
    let l = database-Ledger 2 in
    let D = whole_numbers in
    let ctime = λ (t : ℤ). one_day in
    let print = λ (v : ℕ). codes "1" in
    let nine : ℕ = 9 in
    let atof = λ (t : Text). nine in
    let sys = codes "rtr1" in
    let dset = codes "atm" in
    let w = empty_database in
    Settled S l w
      (bad_tries S (λ c. S.exec_param c sql_table_exists (codes "nv_dsts")) 4 w)
      (pgsql_init_table S 4 (codes "nv_dsts") (sql_create_meta (codes "nv_dsts")) w).1
    × SettledBy S l D ctime print atof
        (sql_add_row sys dset one_day (codes "1"))
        4
        w
        (pgsql_stor_ts_data S D ctime print atof 4 dset sys (pos 60) nine w).1
    × SettledBy S l D ctime print atof
        (sql_get_ts sys dset one_day one_day)
        4
        w
        (pgsql_get_ts_data S D ctime print atof 4 dset sys (pos 60) (pos 120) w).1
    × SettledBy S l D ctime print atof
        (sql_get_utime sys dset)
        4
        w
        (pgsql_get_ts_utime S D ctime print atof 4 dset sys w).1
    × Settled S l w
        (utime_tries S l D ctime print atof 4 dset sys (pos 60) w)
        (pgsql_stor_ts_utime S D ctime print atof 4 dset sys (pos 60) w).1
operations-Settled_example =
    operations-Settled (small_database 2) (database-Ledger 2) whole_numbers (λ t. one_day)
      (λ v. codes "1") (λ t. 9) 4 (codes "nv_dsts") (sql_create_meta (codes "nv_dsts"))
      (codes "rtr1") (codes "atm") (pos 60) (pos 120) 9 empty_database

-- One attempt on a bad connection, and what it leaves behind.
one_left_behind :
    (pgsql_get_ts_utime
      (small_database 2)
      whole_numbers
      (λ t. one_day)
      (λ v. codes "1")
      (λ t. 1)
      4
      (codes "atm")
      (codes "rtr1")
      empty_database).1
    ≡ record { held = 0; results = 1; runs = 2; epoch = none }
unfolding pgsql_get_ts_utime print_statement sql_get_utime same_text
one_left_behind = refl
