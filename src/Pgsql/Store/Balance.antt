-- ===== src/Pgsql/Store/Balance.antt =====
-- src/plugins/storage/pgsql.c: each function gives back the connection that it took, and what it keeps of
-- the results that it was handed.
use netvizd.Common.{
  ℕ, zero, suc, ◌+◌, ◌-◌, ◌≤◌, ◌≡◌, refl, sym, subst, true, false, [], ◌∷◌, Option-cases,
  Bool-cases, inl, inr, none, some, arith,
}
use netvizd.Common.Int.{ℤ}
use netvizd.Common.Text.{Text}
use netvizd.Net.{Double}
use netvizd.Pgsql.Pool.{Conn}
use netvizd.Pgsql.Statements.{print_statement}
use netvizd.Pgsql.Store.Attempts.{
  bad_tries, ask-none, ask-good, ask-bad, bad_tries-zero, bad_tries-none, bad_tries-good,
  bad_tries-bad,
}
use netvizd.Pgsql.Store.{
  PgResult, tuples_ok, command_ok, refused, Service, Asked, out_of_fuel, gave_up, answered, ask,
  clean_up, end_command, create_table, read_rows, read_utime,
}

module _ (S : Service) where
  open S use {World, pool_get, pool_release, exec, exec_param, clear, is_bad}

  -- `held` counts the connections that the caller of the pool has, and `results` the results of libpq
  -- that nobody has freed.
  pub record Ledger : Type 0 where
    pub held : World → ℕ
    pub results : World → ℕ
    pub get_some :
        (w : World) (c : Conn) → (pool_get w).0 ≡ some c → held (pool_get w).1 ≡ held w + 1
    pub get_none : (w : World) → (pool_get w).0 ≡ none → held (pool_get w).1 ≡ held w
    pub get_results : (w : World) → results (pool_get w).1 ≡ results w
    pub release_held : (c : Conn) (w : World) → held (pool_release c w) ≡ held w - 1
    pub release_results : (c : Conn) (w : World) → results (pool_release c w) ≡ results w
    pub exec_held : (c : Conn) (s : Text) (w : World) → held (exec c s w).1 ≡ held w
    pub exec_results : (c : Conn) (s : Text) (w : World) → results (exec c s w).1 ≡ results w + 1
    pub exec_param_held : (c : Conn) (s p : Text) (w : World) → held (exec_param c s p w).1 ≡ held w
    pub exec_param_results :
        (c : Conn) (s p : Text) (w : World) → results (exec_param c s p w).1 ≡ results w + 1
    pub clear_held : (w : World) → held (clear w) ≡ held w
    pub clear_results : (w : World) → results (clear w) ≡ results w - 1

  abbrev pub taken : Asked → ℕ
  taken (answered c r) = 1
  taken _ = 0

  module _ (l : Ledger) where
    open l use {
      held, results, get_some, get_none, get_results, release_held, release_results, exec_held,
      exec_results, exec_param_held, exec_param_results, clear_held, clear_results,
    }

    -- A statement keeps the connections and hands over one result.
    pub record Runs (run : Conn → World → PgResult × World) : Type 0 where
      pub run_held : (c : Conn) (w : World) → held (run c w).1 ≡ held w
      pub run_results : (c : Conn) (w : World) → results (run c w).1 ≡ results w + 1

    pub exec-Runs : (s : Text) → Runs (λ c. exec c s)
    exec-Runs s = record {
      run_held = λ c w. exec_held c s w;
      run_results = λ c w. exec_results c s w;
    }

    pub exec_param-Runs : (s p : Text) → Runs (λ c. exec_param c s p)
    exec_param-Runs s p = record {
      run_held = λ c w. exec_param_held c s p w;
      run_results = λ c w. exec_param_results c s p w;
    }

    pub record Balanced (run : Conn → World → PgResult × World) (k : ℕ) (w : World)
        (r : Asked × World) : Type 0 where
      pub held_after : held r.1 ≡ held w + taken r.0
      pub results_after : results r.1 ≡ results w + taken r.0 + bad_tries S run k w

    module _ (run : Conn → World → PgResult × World) (rs : Runs run) where
      Balanced-none :
          (k : ℕ) (w : World)
          → (pool_get w).0 ≡ none
          → Balanced run (suc k) w (gave_up, (pool_get w).1)
      Balanced-none k w e = record {
        held_after = omega (arith, get_none w e);
        results_after = omega (arith, get_results w, bad_tries-none S run k w e);
      }

      Balanced-good :
          (k : ℕ) (w : World) (c : Conn)
          → (pool_get w).0 ≡ some c
          → is_bad c (run c (pool_get w).1).1 ≡ false
          → Balanced run (suc k) w (answered c (run c (pool_get w).1).0, (run c (pool_get w).1).1)
      Balanced-good k w c e good = record {
        held_after = omega (arith, get_some w c e, rs.run_held c (pool_get w).1);
        results_after = omega (
          arith,
          get_results w,
          rs.run_results c (pool_get w).1,
          bad_tries-good S run k w c e good,
        );
      }

      Balanced-bad :
          (k : ℕ) (w : World) (c : Conn) (r : Asked × World)
          → (pool_get w).0 ≡ some c
          → is_bad c (run c (pool_get w).1).1 ≡ true
          → Balanced run k (pool_release c (run c (pool_get w).1).1) r
          → Balanced run (suc k) w r
      Balanced-bad k w c r e bad b = record {
        held_after = omega (
          arith,
          b.held_after,
          get_some w c e,
          rs.run_held c (pool_get w).1,
          release_held c (run c (pool_get w).1).1,
        );
        results_after = omega (
          arith,
          b.results_after,
          get_results w,
          rs.run_results c (pool_get w).1,
          release_results c (run c (pool_get w).1).1,
          bad_tries-bad S run k w c e bad,
        );
      }

      pub ask-Balanced : (k : ℕ) (w : World) → Balanced run k w (ask S run k w)
      unfolding ask
      ask-Balanced zero w = record {
        held_after = omega arith;
        results_after = omega (arith, bad_tries-zero S run w);
      }
      ask-Balanced (suc k) w = elim (Option-cases (pool_get w).0) [
        | inl e ↦ subst (Balanced run (suc k) w) (sym (ask-none S run k w e)) (Balanced-none k w e)
        | inr (c, e) ↦ elim (Bool-cases (is_bad c (run c (pool_get w).1).1)) [
          | inr good ↦
              subst (Balanced run (suc k) w) (sym (ask-good S run k w c e good))
                (Balanced-good k w c e good)
          | inl bad ↦ subst (Balanced run (suc k) w) (sym (ask-bad S run k w c e bad)) (
              Balanced-bad k w c _ e bad (ask-Balanced k (pool_release c (run c (pool_get w).1).1)))
        ]
      ]

    -- What ends a loop gives back what the loop has left in hand.
    pub record Closed (a : Asked) (w w' : World) : Type 0 where
      pub held_closed : held w' ≡ held w - taken a
      pub results_closed : results w' ≡ results w - taken a

    pub same-Closed : (a : Asked) (w : World) → taken a ≡ 0 → Closed a w w
    same-Closed a w e = record { held_closed = omega arith; results_closed = omega arith }

    pub clean_up-Closed :
        (c : Conn) (r : PgResult) (w : World) → Closed (answered c r) w (clean_up S c w)
    clean_up-Closed c r w = record {
      held_closed = omega (arith, release_held c (clear w), clear_held w);
      results_closed = omega (arith, release_results c (clear w), clear_results w);
    }

    pub end_command-Closed : (a : Asked) (w : World) → Closed a w (end_command S (a, w)).1
    unfolding end_command
    end_command-Closed out_of_fuel w = same-Closed out_of_fuel w refl
    end_command-Closed gave_up w = same-Closed gave_up w refl
    end_command-Closed (answered c r) w = clean_up-Closed c r w

    pub create_table-Closed :
        (create : Text) (a : Asked) (w : World)
        → taken a ≤ results w
        → Closed a w (create_table S create (a, w)).1
    unfolding create_table end_command
    create_table-Closed create out_of_fuel w h = same-Closed out_of_fuel w refl
    create_table-Closed create gave_up w h = same-Closed gave_up w refl
    create_table-Closed create (answered c (tuples_ok [])) w h =
        let w1 = (exec c (print_statement create) (clear w)).1 in
        record {
          held_closed = omega (
            arith,
            release_held c (clear w1),
            clear_held w1,
            clear_held w,
            exec_held c (print_statement create) (clear w),
          );
          results_closed = omega (
            arith,
            release_results c (clear w1),
            clear_results w1,
            clear_results w,
            exec_results c (print_statement create) (clear w),
          );
        }
    create_table-Closed create (answered c (tuples_ok (t ∷ ts))) w h =
        clean_up-Closed c (tuples_ok (t ∷ ts)) w
    create_table-Closed create (answered c command_ok) w h = clean_up-Closed c command_ok w
    create_table-Closed create (answered c refused) w h = clean_up-Closed c refused w

    -- From a loop and its end: the connections as before, and one result more for each bad attempt.
    pub record Settled (w : World) (tries : ℕ) (w' : World) : Type 0 where
      pub same_held : held w' ≡ held w
      pub left : results w' ≡ results w + tries

    pub Settled-of_Closed :
        (run : Conn → World → PgResult × World) (k : ℕ) (w w' : World)
        → Runs run
        → Closed (ask S run k w).0 (ask S run k w).1 w'
        → Settled w (bad_tries S run k w) w'
    Settled-of_Closed run k w w' rs h =
        let b = ask-Balanced run rs k w in
        record {
          same_held = omega (arith, h.held_closed, b.held_after);
          left = omega (arith, h.results_closed, b.results_after);
        }

    module _ (D : Double) (ctime : ℤ → Text) (print_double : D.Value → Text)
        (atof : Text → D.Value) where
      pub read_rows-Closed :
          (a : Asked) (w : World) → Closed a w (read_rows S D ctime print_double atof (a, w)).1
      unfolding read_rows
      read_rows-Closed out_of_fuel w = same-Closed out_of_fuel w refl
      read_rows-Closed gave_up w = same-Closed gave_up w refl
      read_rows-Closed (answered c (tuples_ok ts)) w = clean_up-Closed c (tuples_ok ts) w
      read_rows-Closed (answered c command_ok) w = clean_up-Closed c command_ok w
      read_rows-Closed (answered c refused) w = clean_up-Closed c refused w

      pub read_utime-Closed :
          (a : Asked) (w : World) → Closed a w (read_utime S D ctime print_double atof (a, w)).1
      unfolding read_utime
      read_utime-Closed out_of_fuel w = same-Closed out_of_fuel w refl
      read_utime-Closed gave_up w = same-Closed gave_up w refl
      read_utime-Closed (answered c (tuples_ok [])) w = clean_up-Closed c (tuples_ok []) w
      read_utime-Closed (answered c (tuples_ok (t ∷ ts))) w =
          clean_up-Closed c (tuples_ok (t ∷ ts)) w
      read_utime-Closed (answered c command_ok) w = clean_up-Closed c command_ok w
      read_utime-Closed (answered c refused) w = clean_up-Closed c refused w
