-- ===== src/Pgsql/Store/RoundTrip.antt =====
-- src/plugins/storage/pgsql.c: the update time that is stored is the one that is read.
use netvizd.Common.{
  ℕ, suc, ◌+◌, ◌≤◌, ◌≡◌, sym, ap, subst, ◌∙◌, false, [], ◌∷◌, Option, none, some, arith, length,
}
use netvizd.Common.Int.{ℤ, pos}
use netvizd.Common.Text.{Text, atoi}
use netvizd.Net.{Double}
use netvizd.Pgsql.Pool.{Conn}
use netvizd.Pgsql.Statements.{print_statement, sql_get_utime, sql_add_utime, sql_update_utime}
use netvizd.Pgsql.Statements.Fit.{statements-whole}
use netvizd.Pgsql.Store.Attempts.{ask-good}
use netvizd.Pgsql.Store.{
  PgResult, tuples_ok, command_ok, Service, Asked, answered, ask, clean_up, end_command,
  command_stat, read_utime, pgsql_get_ts_utime, run_command, write_utime, pgsql_stor_ts_utime,
}

-- The answer to the query, where the data set has the update time, or none.
abbrev pub RowsOf : Option Text → PgResult → Type 0
RowsOf none r = r ≡ tuples_ok []
RowsOf (some e) r = (t : ℕ → Text) × (r ≡ tuples_ok (t ∷ [])) × (t 0 ≡ e)

-- For one data set and one time, whose text has the 25 characters of `ctime_r`.
module _ (S : Service) (sys dset : Text) (time : ℤ) (tbuf : Text) where
  open S use {World, pool_get, pool_release, exec, clear, is_bad}

  abbrev pub select : Conn → World → PgResult × World
  select c w = exec c (sql_get_utime sys dset) w

  -- The statement `sql` stores the time.
  pub record Stores (epoch : World → Option Text) (sql : Text) (c : Conn) (w : World) : Type 0 where
    pub text : Text
    pub reads_back : atoi text ≡ time
    pub accepts : (exec c sql w).0 ≡ command_ok
    pub keeps : epoch (exec c sql w).1 ≡ some text

  -- A service that is up: the pool has a connection, which stays good, and the database keeps for the
  -- data set nothing or one update time, which `epoch` shows as the text of its number of seconds.
  pub record IsUp : Type 0 where
    pub epoch : World → Option Text
    pub connects : (w : World) → (c : Conn) × ((pool_get w).0 ≡ some c)
    pub get_keeps : (w : World) → epoch (pool_get w).1 ≡ epoch w
    pub release_keeps : (c : Conn) (w : World) → epoch (pool_release c w) ≡ epoch w
    pub clear_keeps : (w : World) → epoch (clear w) ≡ epoch w
    pub stays_good : (c : Conn) (s : Text) (w : World) → is_bad c (exec c s w).1 ≡ false
    pub selects : (c : Conn) (w : World) → RowsOf (epoch w) (select c w).0
    pub select_keeps : (c : Conn) (w : World) → epoch (select c w).1 ≡ epoch w
    pub inserts :
        (c : Conn) (w : World) → epoch w ≡ none → Stores epoch (sql_add_utime sys dset tbuf) c w
    pub updates :
        (c : Conn) (w : World) (old : Text)
        → epoch w ≡ some old
        → Stores epoch (sql_update_utime tbuf sys dset) c w

module _ (S : Service) (D : Double) (ctime : ℤ → Text) (print_double : D.Value → Text)
    (atof : Text → D.Value) (sys dset : Text) (time : ℤ) (up : IsUp S sys dset time (ctime time))
    (short : length sys + length dset ≤ 161) (dated : length (ctime time) ≡ 25) where
  open S use {World, pool_get, pool_release, exec, clear, is_bad}
  open up use {
    epoch, connects, get_keeps, release_keeps, clear_keeps, stays_good, selects, select_keeps,
    inserts, updates,
  }

  get-whole : print_statement (sql_get_utime sys dset) ≡ sql_get_utime sys dset
  get-whole = (statements-whole sys dset (ctime time) (ctime time) [] dated dated).1.1 (omega arith)

  add-whole :
      print_statement (sql_add_utime sys dset (ctime time)) ≡ sql_add_utime sys dset (ctime time)
  add-whole = (statements-whole sys dset (ctime time) (ctime time) [] dated dated).2.1 (omega arith)

  update-whole :
      print_statement (sql_update_utime (ctime time) sys dset)
      ≡ sql_update_utime (ctime time) sys dset
  update-whole =
      (statements-whole sys dset (ctime time) (ctime time) [] dated dated).3.1 (omega arith)

  ask-up :
      (sql : Text) (k : ℕ) (w : World)
      → (c : Conn) × (ask S (λ d. exec d sql) (suc k) w
          ≡ (answered c (exec c sql (pool_get w).1).0, (exec c sql (pool_get w).1).1))
  ask-up sql k w =
      let (c, e) = connects w in
      (c, ask-good S (λ d. exec d sql) k w c e (stays_good c sql (pool_get w).1))

  clean_up-keeps : (c : Conn) (w : World) → epoch (clean_up S c w) ≡ epoch w
  clean_up-keeps c w = release_keeps c (clear w) ∙ clear_keeps w

  -- A command that stores the time.
  run_command-Stores :
      (sql : Text) (k : ℕ) (w : World)
      → print_statement sql ≡ sql
      → ((c : Conn) → Stores S sys dset time (ctime time) epoch sql c (pool_get w).1)
      → let r = run_command S D ctime print_double atof (suc k) sql w in
        (r.0 ≡ some (pos 0)) × ((e : Text) × (atoi e ≡ time) × (epoch r.1 ≡ some e))
  unfolding run_command end_command command_stat
  run_command-Stores sql k w whole stores =
      let (c, asked) = ask-up sql k w in
      let st = stores c in
      let w2 = (exec c sql (pool_get w).1).1 in
      let ends =
        ap (λ (s : Text). end_command S (ask S (λ d. exec d s) (suc k) w)) whole
        ∙ ap (end_command S) asked in
      (
        ap (λ (x : Option ℤ × World). x.0) ends
            ∙ ap (λ (r : PgResult). some (command_stat S r)) st.accepts,
        (
          st.text,
          st.reads_back,
          ap (λ (x : Option ℤ × World). epoch x.1) ends ∙ clean_up-keeps c w2 ∙ st.keeps,
        ),
      )

  -- What both functions find of the data set.
  select-up :
      (k : ℕ) (w : World)
      → (c : Conn) × (r : PgResult) × (w2 : World) × (ask S
            (λ d. exec d (print_statement (sql_get_utime sys dset)))
            (suc k)
            w
          ≡ (answered c r, w2))
        × RowsOf (epoch w) r
        × (epoch w2 ≡ epoch w)
  select-up k w =
      let (c, asked) = ask-up (sql_get_utime sys dset) k w in
      let w1 = (pool_get w).1 in
      (
        c,
        (exec c (sql_get_utime sys dset) w1).0,
        (exec c (sql_get_utime sys dset) w1).1,
        ap (λ (s : Text). ask S (λ d. exec d s) (suc k) w) get-whole ∙ asked,
        subst (λ (o : Option Text). RowsOf o (exec c (sql_get_utime sys dset) w1).0) (get_keeps w)
            (selects c w1),
        select_keeps c w1 ∙ get_keeps w,
      )

  read-epoch :
      (e : Text) (k : ℕ) (w : World)
      → epoch w ≡ some e
      → (pgsql_get_ts_utime S D ctime print_double atof (suc k) dset sys w).0 ≡ some (atoi e)
  unfolding pgsql_get_ts_utime
  read-epoch e k w kept =
      let (c, r, w2, asked, rows, same) = select-up k w in
      let (t, one, text) = subst (λ (o : Option Text). RowsOf o r) kept rows in
      ap (λ (x : Asked × World). (read_utime S D ctime print_double atof x).0) asked
      ∙ ap (λ (x : PgResult). (read_utime S D ctime print_double atof (answered c x, w2)).0) one
      ∙ ap (λ (x : Text). some (atoi x)) text

  abbrev Stored : Option ℤ × World → Type 0
  Stored r = (r.0 ≡ some (pos 0)) × ((e : Text) × (atoi e ≡ time) × (epoch r.1 ≡ some e))

  write_utime-Stored :
      (k : ℕ) (o : Option Text) (c : Conn) (r : PgResult) (w : World)
      → epoch w ≡ o
      → RowsOf o r
      → Stored (write_utime S D ctime print_double atof (suc k) dset sys time (answered c r, w))
  unfolding write_utime
  write_utime-Stored k none c r w kept rows =
      let w1 = clean_up S c w in
      subst
        (λ (x : PgResult).
          Stored (write_utime S D ctime print_double atof (suc k) dset sys time (answered c x, w)))
        (sym rows)
        (run_command-Stores (sql_add_utime sys dset (ctime time)) k w1 add-whole
          (λ d. inserts d (pool_get w1).1 (get_keeps w1 ∙ clean_up-keeps c w ∙ kept)))
  write_utime-Stored k (some old) c r w kept (t, one, text) =
      let w1 = clean_up S c w in
      subst
        (λ (x : PgResult).
          Stored (write_utime S D ctime print_double atof (suc k) dset sys time (answered c x, w)))
        (sym one)
        (run_command-Stores (sql_update_utime (ctime time) sys dset) k w1 update-whole
          (λ d. updates d (pool_get w1).1 old (get_keeps w1 ∙ clean_up-keeps c w ∙ kept)))

  stor_ts_utime-Stored :
      (k : ℕ) (w : World)
      → Stored (pgsql_stor_ts_utime S D ctime print_double atof (suc k) dset sys time w)
  unfolding pgsql_stor_ts_utime
  stor_ts_utime-Stored k w =
      let (c, r, w2, asked, rows, same) = select-up k w in
      subst
        (λ (x : Asked × World).
          Stored (write_utime S D ctime print_double atof (suc k) dset sys time x))
        (sym asked) (write_utime-Stored k (epoch w) c r w2 same rows)

  -- On a service that is up, for names that leave each statement whole: `pgsql_stor_ts_utime` returns 0
  -- after one attempt of each of its loops, whether or not the data set had an update time before, and
  -- `pgsql_get_ts_utime` then returns the time that was stored.
  pub get_ts_utime-stor_ts_utime :
      (j k : ℕ) (w : World)
      → let r = pgsql_stor_ts_utime S D ctime print_double atof (suc k) dset sys time w in
        (r.0 ≡ some (pos 0))
        × ((pgsql_get_ts_utime S D ctime print_double atof (suc j) dset sys r.1).0 ≡ some time)
  get_ts_utime-stor_ts_utime j k w =
      let (done, (e, back, kept)) = stor_ts_utime-Stored k w in
      (done, read-epoch e j _ kept ∙ ap (λ (t : ℤ). some t) back)
