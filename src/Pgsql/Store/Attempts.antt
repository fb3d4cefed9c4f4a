-- ===== src/Pgsql/Store/Attempts.antt =====
-- src/plugins/storage/pgsql.c: the attempts of the loops from `retry` to `pgsql_pool_conncheck`.
use netvizd.Common.{
  ℕ, zero, suc, ◌+◌, ◌≡◌, refl, ap, ◌∙◌, true, false, Option, none, some, if◌then◌else◌,
}
use netvizd.Pgsql.Pool.{Conn}
use netvizd.Pgsql.Store.{PgResult, Service, gave_up, answered, checked, tried, ask}

module _ (S : Service) (run : Conn → S.World → PgResult × S.World) where
  open S use {World, pool_get, pool_release, is_bad}

  bad_try : (World → ℕ) → Option Conn × World → ℕ
  bad_try again (none, w) = 0
  bad_try again (some c, w) =
      let w' = (run c w).1 in
      let rest = again (pool_release c w') in if is_bad c w' then rest + 1 else 0

  -- How many attempts of the loop end on a bad connection.
  pub bad_tries : ℕ → World → ℕ
  unfolding bad_try
  bad_tries zero w = 0
  bad_tries (suc k) w = bad_try (bad_tries k) (pool_get w)

  pub bad_tries-zero : (w : World) → bad_tries 0 w ≡ 0
  unfolding bad_tries
  bad_tries-zero w = refl

  module _ (k : ℕ) (w : World) where
    pub ask-none : (pool_get w).0 ≡ none → ask S run (suc k) w ≡ (gave_up, (pool_get w).1)
    unfolding ask
    ask-none e = ap (λ (o : Option Conn). tried S run (ask S run k) (o, (pool_get w).1)) e

    pub bad_tries-none : (pool_get w).0 ≡ none → bad_tries (suc k) w ≡ 0
    unfolding bad_tries
    bad_tries-none e = ap (λ (o : Option Conn). bad_try (bad_tries k) (o, (pool_get w).1)) e

    module _ (c : Conn) (e : (pool_get w).0 ≡ some c) where
      tried-some : ask S run (suc k) w ≡ tried S run (ask S run k) (some c, (pool_get w).1)
      unfolding ask
      tried-some = ap (λ (o : Option Conn). tried S run (ask S run k) (o, (pool_get w).1)) e

      bad_try-some : bad_tries (suc k) w ≡ bad_try (bad_tries k) (some c, (pool_get w).1)
      unfolding bad_tries
      bad_try-some = ap (λ (o : Option Conn). bad_try (bad_tries k) (o, (pool_get w).1)) e

      pub ask-good :
          is_bad c (run c (pool_get w).1).1 ≡ false
          → ask S run (suc k) w ≡ (answered c (run c (pool_get w).1).0, (run c (pool_get w).1).1)
      unfolding tried checked
      ask-good good = tried-some ∙ rw good refl

      pub bad_tries-good : is_bad c (run c (pool_get w).1).1 ≡ false → bad_tries (suc k) w ≡ 0
      unfolding bad_try
      bad_tries-good good = bad_try-some ∙ rw good refl

      pub ask-bad :
          is_bad c (run c (pool_get w).1).1 ≡ true
          → ask S run (suc k) w ≡ ask S run k (pool_release c (run c (pool_get w).1).1)
      unfolding tried checked
      ask-bad bad = tried-some ∙ rw bad refl

      pub bad_tries-bad :
          is_bad c (run c (pool_get w).1).1 ≡ true
          → bad_tries (suc k) w ≡ bad_tries k (pool_release c (run c (pool_get w).1).1) + 1
      unfolding bad_try
      bad_tries-bad bad = bad_try-some ∙ rw bad refl
