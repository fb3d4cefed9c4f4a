-- ===== src/Pgsql/Store.antt =====
-- src/plugins/storage/pgsql.c: the functions that run a statement on a connection of the pool. The pool
-- and libpq are an interface; `pgsql_get_ready`, with which each of them starts, only waits. The statement
-- is printed into a buffer first, so its tail may be missing.
pub mod Attempts
pub mod Balance
pub mod Settled
pub mod RoundTrip
mod Tests
use netvizd.Common.{
  ℕ, zero, suc, Bool, true, false, List, [], ◌∷◌, map, Option, none, some, if◌then◌else◌,
}
use netvizd.Common.Int.{ℤ, pos, negsuc, ltb_ℤ}
use netvizd.Common.Text.{Text, codes, atoi}
use netvizd.Net.{Double, Row}
use netvizd.Pgsql.Pool.{Conn}
use netvizd.Pgsql.Statements.{
  print_statement, sql_get_ts, sql_get_utime, sql_add_utime, sql_update_utime, sql_table_exists,
  sql_add_row,
}

-- `PQresultStatus`, and `PQgetvalue` for each tuple: the text of a column.
pub data PgResult : Type 0 where
  tuples_ok : List (ℕ → Text) → PgResult
  command_ok : PgResult
  refused : PgResult

-- `pgsql_pool_get`, `pgsql_pool_release`, `PQexec`, `PQexecParams` with one parameter, `PQclear`, and
-- whether `PQstatus` of a connection is `CONNECTION_BAD`.
pub record Service : Type 1 where
  pub World : Type 0
  pub pool_get : World → Option Conn × World
  pub pool_release : Conn → World → World
  pub exec : Conn → Text → World → PgResult × World
  pub exec_param : Conn → Text → Text → World → PgResult × World
  pub clear : World → World
  pub is_bad : Conn → World → Bool

-- How a loop from `retry` to `pgsql_pool_conncheck` ends: without a connection, or with an answer on one.
-- A unit of fuel is one attempt.
pub data Asked : Type 0 where
  out_of_fuel : Asked
  gave_up : Asked
  answered : Conn → PgResult → Asked

module _ (S : Service) where
  open S use {World, pool_get, pool_release, exec, exec_param, clear, is_bad}

  -- One attempt: `again` is the loop from `retry` on.
  pub checked : (World → Asked × World) → Conn → PgResult × World → Asked × World
  checked again c (r, w) =
      let rest = again (pool_release c w) in if is_bad c w then rest else (answered c r, w)

  pub tried :
      (Conn → World → PgResult × World)
      → (World → Asked × World)
      → Option Conn × World
      → Asked × World
  unfolding checked
  tried run again (none, w) = (gave_up, w)
  tried run again (some c, w) = checked again c (run c w)

  pub ask : (Conn → World → PgResult × World) → ℕ → World → Asked × World
  unfolding tried
  ask run zero w = (out_of_fuel, w)
  ask run (suc k) w = tried run (ask run k) (pool_get w)

  -- From `cleanup2` on.
  abbrev pub clean_up : Conn → World → World
  clean_up c w = pool_release c (clear w)

  pub command_stat : PgResult → ℤ
  command_stat command_ok = pos 0
  command_stat _ = negsuc 0

  -- What follows a command: the status, 0 too where there was no connection.
  pub end_command : Asked × World → Option ℤ × World
  unfolding command_stat
  end_command (out_of_fuel, w) = (none, w)
  end_command (gave_up, w) = (some (pos 0), w)
  end_command (answered c r, w) = (some (command_stat r), clean_up c w)

  -- The second half of `pgsql_init_table`: `create` is the statement.
  pub create_table : Text → Asked × World → Option ℤ × World
  unfolding end_command
  create_table create (out_of_fuel, w) = (none, w)
  create_table create (gave_up, w) = (some (pos 0), w)
  create_table create (answered c (tuples_ok []), w) =
      let (r, w1) = exec c (print_statement create) (clear w) in end_command (answered c r, w1)
  create_table create (answered c (tuples_ok (t ∷ ts)), w) = (some (pos 0), clean_up c w)
  create_table create (answered c _, w) = (some (negsuc 0), clean_up c w)

  pub pgsql_init_table : ℕ → Text → Text → World → Option ℤ × World
  unfolding ask create_table
  pgsql_init_table fuel table create w =
      create_table create (ask (λ c. exec_param c sql_table_exists table) fuel w)

  module _ (D : Double) (ctime : ℤ → Text) (print_double : D.Value → Text)
      (atof : Text → D.Value) where
    pub pgsql_add_row : ℕ → Text → Text → ℤ → D.Value → World → Option ℤ × World
    unfolding ask end_command
    pgsql_add_row fuel sys dset time value w = end_command (
        ask (λ c. exec c (print_statement (sql_add_row sys dset (ctime time) (print_double value))))
          fuel w)

    pub stor_stat : Option ℤ → Option ℤ
    stor_stat none = none
    stor_stat (some res) = some (if ltb_ℤ res (pos 0) then negsuc 0 else pos 0)

    pub pgsql_stor_ts_data : ℕ → Text → Text → ℤ → D.Value → World → Option ℤ × World
    unfolding pgsql_add_row stor_stat
    pgsql_stor_ts_data fuel dset sys time value w =
        let (res, w1) = pgsql_add_row fuel sys dset time value w in (stor_stat res, w1)

    -- A tuple as a row; `calloc` leaves the extremes 0.
    pub row_of : (ℕ → Text) → Row D.Value
    row_of t = record {
      time = atoi (t 0);
      value = atof (t 1);
      min = D.zero_value;
      max = D.zero_value;
    }

    pub read_rows : Asked × World → Option (List (Row D.Value)) × World
    unfolding row_of
    read_rows (out_of_fuel, w) = (none, w)
    read_rows (gave_up, w) = (some [], w)
    read_rows (answered c (tuples_ok ts), w) = (some (map row_of ts), clean_up c w)
    read_rows (answered c _, w) = (some [], clean_up c w)

    -- `none` is the lack of fuel; the list that is returned is never `NULL`.
    pub pgsql_get_ts_data : ℕ → Text → Text → ℤ → ℤ → World → Option (List (Row D.Value)) × World
    unfolding ask read_rows
    pgsql_get_ts_data fuel dset sys start end w =
        read_rows (
          ask (λ c. exec c (print_statement (sql_get_ts sys dset (ctime start) (ctime end)))) fuel
            w)

    pub read_utime : Asked × World → Option ℤ × World
    read_utime (out_of_fuel, w) = (none, w)
    read_utime (gave_up, w) = (some (pos 0), w)
    read_utime (answered c (tuples_ok []), w) = (some (pos 0), clean_up c w)
    read_utime (answered c (tuples_ok (t ∷ ts)), w) = (some (atoi (t 0)), clean_up c w)
    read_utime (answered c _, w) = (some (negsuc 0), clean_up c w)

    pub pgsql_get_ts_utime : ℕ → Text → Text → World → Option ℤ × World
    unfolding ask read_utime
    pgsql_get_ts_utime fuel dset sys w =
        read_utime (ask (λ c. exec c (print_statement (sql_get_utime sys dset))) fuel w)

    -- The second statement of `pgsql_stor_ts_utime`.
    pub run_command : ℕ → Text → World → Option ℤ × World
    unfolding ask end_command
    run_command fuel sql w = end_command (ask (λ c. exec c (print_statement sql)) fuel w)

    pub write_utime : ℕ → Text → Text → ℤ → Asked × World → Option ℤ × World
    unfolding run_command
    write_utime fuel dset sys time (out_of_fuel, w) = (none, w)
    write_utime fuel dset sys time (gave_up, w) = (some (pos 0), w)
    write_utime fuel dset sys time (answered c (tuples_ok []), w) =
        run_command fuel (sql_add_utime sys dset (ctime time)) (clean_up c w)
    write_utime fuel dset sys time (answered c (tuples_ok (t ∷ ts)), w) =
        run_command fuel (sql_update_utime (ctime time) sys dset) (clean_up c w)
    write_utime fuel dset sys time (answered c _, w) = (some (negsuc 0), clean_up c w)

    pub pgsql_stor_ts_utime : ℕ → Text → Text → ℤ → World → Option ℤ × World
    unfolding ask write_utime
    pgsql_stor_ts_utime fuel dset sys time w =
        write_utime fuel dset sys time
          (ask (λ c. exec c (print_statement (sql_get_utime sys dset))) fuel w)
