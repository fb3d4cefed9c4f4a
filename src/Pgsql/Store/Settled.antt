-- ===== src/Pgsql/Store/Settled.antt =====
-- src/plugins/storage/pgsql.c: the balance of each function of the plugin.
use netvizd.Common.{ℕ, ◌+◌, ◌≡◌, refl, [], ◌∷◌, arith}
use netvizd.Common.Int.{ℤ}
use netvizd.Common.Text.{Text}
use netvizd.Net.{Double}
use netvizd.Pgsql.Pool.{Conn}
use netvizd.Pgsql.Statements.{
  print_statement, sql_get_ts, sql_get_utime, sql_add_utime, sql_update_utime, sql_table_exists,
  sql_add_row,
}
use netvizd.Pgsql.Store.Attempts.{bad_tries}
use netvizd.Pgsql.Store.Balance.{
  Ledger, taken, exec-Runs, exec_param-Runs, ask-Balanced, Closed, same-Closed, clean_up-Closed,
  end_command-Closed, create_table-Closed, Settled, Settled-of_Closed, read_rows-Closed,
  read_utime-Closed,
}
use netvizd.Pgsql.Store.{
  tuples_ok, command_ok, refused, Service, Asked, out_of_fuel, gave_up, answered, ask, clean_up,
  pgsql_init_table, pgsql_add_row, pgsql_stor_ts_data, pgsql_get_ts_data, pgsql_get_ts_utime,
  run_command, write_utime, pgsql_stor_ts_utime,
}

module _ (S : Service) (l : Ledger S) where
  open S use {World, exec, exec_param}
  open l use {held, results}

  pub init_table-Settled :
      (fuel : ℕ) (table create : Text) (w : World)
      → Settled S l w
          (bad_tries S (λ c. exec_param c sql_table_exists table) fuel w)
          (pgsql_init_table S fuel table create w).1
  unfolding pgsql_init_table
  init_table-Settled fuel table create w =
      let run = λ (c : Conn). exec_param c sql_table_exists table in
      let rs = exec_param-Runs S l sql_table_exists table in
      let b = ask-Balanced S l run rs fuel w in
      let (a, w1) = ask S run fuel w in
      Settled-of_Closed S l run fuel w _ rs
        (create_table-Closed S l create a w1 (omega (arith, b.results_after)))

  module _ (D : Double) (ctime : ℤ → Text) (print_double : D.Value → Text)
      (atof : Text → D.Value) where
    run_command-Settled :
        (fuel : ℕ) (sql : Text) (w : World)
        → Settled S l w
            (bad_tries S (λ c. exec c (print_statement sql)) fuel w)
            (run_command S D ctime print_double atof fuel sql w).1
    unfolding run_command
    run_command-Settled fuel sql w =
        let run = λ (c : Conn). exec c (print_statement sql) in
        let (a, w1) = ask S run fuel w in
        Settled-of_Closed S l run fuel w _ (exec-Runs S l (print_statement sql))
          (end_command-Closed S l a w1)

    -- A function with one loop leaves a result behind for each bad attempt.
    abbrev pub SettledBy : Text → ℕ → World → World → Type 0
    SettledBy sql fuel w w' =
        Settled S l w (bad_tries S (λ c. exec c (print_statement sql)) fuel w) w'

    abbrev tries_of : Text → ℕ → World → ℕ
    tries_of sql fuel w = bad_tries S (λ c. exec c (print_statement sql)) fuel w

    -- The bad attempts of the second loop of `pgsql_stor_ts_utime`, which starts once the answer to the first
    -- statement has been freed and its connection given back.
    abbrev second_tries : ℕ → Text → Text → ℤ → Asked × World → ℕ
    second_tries fuel dset sys time (answered c (tuples_ok []), w) =
        tries_of (sql_add_utime sys dset (ctime time)) fuel (clean_up S c w)
    second_tries fuel dset sys time (answered c (tuples_ok (t ∷ ts)), w) =
        tries_of (sql_update_utime (ctime time) sys dset) fuel (clean_up S c w)
    second_tries fuel dset sys time (answered c command_ok, w) = 0
    second_tries fuel dset sys time (answered c refused, w) = 0
    second_tries fuel dset sys time (gave_up, w) = 0
    second_tries fuel dset sys time (out_of_fuel, w) = 0

    -- Those of both loops.
    abbrev pub utime_tries : ℕ → Text → Text → ℤ → World → ℕ
    utime_tries fuel dset sys time w =
        tries_of (sql_get_utime sys dset) fuel w
        + second_tries fuel dset sys time
            (ask S (λ c. exec c (print_statement (sql_get_utime sys dset))) fuel w)

    Settled-from_Closed :
        (a : Asked) (w w1 w2 : World) (n : ℕ)
        → held w1 ≡ held w + taken S a
        → results w1 ≡ results w + taken S a + n
        → Closed S l a w1 w2
        → Settled S l w n w2
    Settled-from_Closed a w w1 w2 n h r k = record {
      same_held = omega (arith, k.held_closed);
      left = omega (arith, k.results_closed);
    }

    Settled-trans :
        (w w1 w2 : World) (m n : ℕ)
        → Settled S l w m w1
        → Settled S l w1 n w2
        → Settled S l w (m + n) w2
    Settled-trans w w1 w2 m n a b = record {
      same_held = omega (arith, a.same_held, b.same_held);
      left = omega (arith, a.left, b.left);
    }

    Settled-plus_none : (w w' : World) (n : ℕ) → Settled S l w n w' → Settled S l w (n + 0) w'
    Settled-plus_none w w' n k = record { same_held = k.same_held; left = omega (arith, k.left) }

    write_utime-Settled :
        (fuel : ℕ) (dset sys : Text) (time : ℤ) (a : Asked) (w w1 : World) (n : ℕ)
        → held w1 ≡ held w + taken S a
        → results w1 ≡ results w + taken S a + n
        → Settled S l w
            (n + second_tries fuel dset sys time (a, w1))
            (write_utime S D ctime print_double atof fuel dset sys time (a, w1)).1
    unfolding write_utime
    write_utime-Settled fuel dset sys time out_of_fuel w w1 n h r =
        Settled-plus_none w w1 n
          (Settled-from_Closed out_of_fuel w w1 w1 n h r (same-Closed S l out_of_fuel w1 refl))
    write_utime-Settled fuel dset sys time gave_up w w1 n h r =
        Settled-plus_none w w1 n
          (Settled-from_Closed gave_up w w1 w1 n h r (same-Closed S l gave_up w1 refl))
    write_utime-Settled fuel dset sys time (answered c command_ok) w w1 n h r =
        let a = answered c command_ok in
        Settled-plus_none w _ n
          (Settled-from_Closed a w w1 _ n h r (clean_up-Closed S l c command_ok w1))
    write_utime-Settled fuel dset sys time (answered c refused) w w1 n h r =
        let a = answered c refused in
        Settled-plus_none w _ n
          (Settled-from_Closed a w w1 _ n h r (clean_up-Closed S l c refused w1))
    write_utime-Settled fuel dset sys time (answered c (tuples_ok [])) w w1 n h r =
        let a = answered c (tuples_ok []) in
        let w2 = clean_up S c w1 in
        Settled-trans w w2 _ n _
          (Settled-from_Closed a w w1 w2 n h r (clean_up-Closed S l c (tuples_ok []) w1))
          (run_command-Settled fuel (sql_add_utime sys dset (ctime time)) w2)
    write_utime-Settled fuel dset sys time (answered c (tuples_ok (t ∷ ts))) w w1 n h r =
        let a = answered c (tuples_ok (t ∷ ts)) in
        let w2 = clean_up S c w1 in
        Settled-trans w w2 _ n _
          (Settled-from_Closed a w w1 w2 n h r (clean_up-Closed S l c (tuples_ok (t ∷ ts)) w1))
          (run_command-Settled fuel (sql_update_utime (ctime time) sys dset) w2)

    stor_ts_utime-Settled :
        (fuel : ℕ) (dset sys : Text) (time : ℤ) (w : World)
        → Settled S l w
            (utime_tries fuel dset sys time w)
            (pgsql_stor_ts_utime S D ctime print_double atof fuel dset sys time w).1
    unfolding pgsql_stor_ts_utime
    stor_ts_utime-Settled fuel dset sys time w =
        let run = λ (c : Conn). exec c (print_statement (sql_get_utime sys dset)) in
        let b =
          ask-Balanced S l run (exec-Runs S l (print_statement (sql_get_utime sys dset))) fuel w in
        let (a, w1) = ask S run fuel w in
        write_utime-Settled fuel dset sys time a w w1 (bad_tries S run fuel w) b.held_after
          b.results_after

    add_row-Settled :
        (fuel : ℕ) (sys dset : Text) (time : ℤ) (value : D.Value) (w : World)
        → SettledBy
            (sql_add_row sys dset (ctime time) (print_double value))
            fuel
            w
            (pgsql_add_row S D ctime print_double atof fuel sys dset time value w).1
    unfolding pgsql_add_row
    add_row-Settled fuel sys dset time value w =
        let sql = print_statement (sql_add_row sys dset (ctime time) (print_double value)) in
        let (a, w1) = ask S (λ c. exec c sql) fuel w in
        Settled-of_Closed S l (λ c. exec c sql) fuel w _ (exec-Runs S l sql)
          (end_command-Closed S l a w1)

    get_ts_data-Settled :
        (fuel : ℕ) (dset sys : Text) (start end : ℤ) (w : World)
        → SettledBy
            (sql_get_ts sys dset (ctime start) (ctime end))
            fuel
            w
            (pgsql_get_ts_data S D ctime print_double atof fuel dset sys start end w).1
    unfolding pgsql_get_ts_data
    get_ts_data-Settled fuel dset sys start end w =
        let sql = print_statement (sql_get_ts sys dset (ctime start) (ctime end)) in
        let (a, w1) = ask S (λ c. exec c sql) fuel w in
        Settled-of_Closed S l (λ c. exec c sql) fuel w _ (exec-Runs S l sql)
          (read_rows-Closed S l D ctime print_double atof a w1)

    get_ts_utime-Settled :
        (fuel : ℕ) (dset sys : Text) (w : World)
        → SettledBy
            (sql_get_utime sys dset)
            fuel
            w
            (pgsql_get_ts_utime S D ctime print_double atof fuel dset sys w).1
    unfolding pgsql_get_ts_utime
    get_ts_utime-Settled fuel dset sys w =
        let sql = print_statement (sql_get_utime sys dset) in
        let (a, w1) = ask S (λ c. exec c sql) fuel w in
        Settled-of_Closed S l (λ c. exec c sql) fuel w _ (exec-Runs S l sql)
          (read_utime-Closed S l D ctime print_double atof a w1)

    -- Whatever the pool and the database answer, errors included, every function of the plugin has given
    -- back each connection that it took when it ends. It leaves behind exactly one result of libpq for each
    -- attempt of its loops that ended on a bad connection, and has freed every other result;
    -- `pgsql_stor_ts_utime` has two loops, and the second starts when the first has freed its result.
    pub operations-Settled :
        (fuel : ℕ) (table create sys dset : Text) (time end : ℤ) (value : D.Value) (w : World)
        → Settled S l w
            (bad_tries S (λ c. exec_param c sql_table_exists table) fuel w)
            (pgsql_init_table S fuel table create w).1
          × SettledBy
              (sql_add_row sys dset (ctime time) (print_double value))
              fuel
              w
              (pgsql_stor_ts_data S D ctime print_double atof fuel dset sys time value w).1
          × SettledBy
              (sql_get_ts sys dset (ctime time) (ctime end))
              fuel
              w
              (pgsql_get_ts_data S D ctime print_double atof fuel dset sys time end w).1
          × SettledBy
              (sql_get_utime sys dset)
              fuel
              w
              (pgsql_get_ts_utime S D ctime print_double atof fuel dset sys w).1
          × Settled S l w
              (utime_tries fuel dset sys time w)
              (pgsql_stor_ts_utime S D ctime print_double atof fuel dset sys time w).1
    unfolding pgsql_stor_ts_data
    operations-Settled fuel table create sys dset time end value w = (
      init_table-Settled fuel table create w,
      add_row-Settled fuel sys dset time value w,
      get_ts_data-Settled fuel dset sys time end w,
      get_ts_utime-Settled fuel dset sys w,
      stor_ts_utime-Settled fuel dset sys time w,
    )
