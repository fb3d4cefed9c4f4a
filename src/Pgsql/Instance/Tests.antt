-- ===== src/Pgsql/Instance/Tests.antt =====
-- src/plugins/storage/pgsql.c and src/plugins/storage/pgsql_pool.c: an instance, its connection and its thread.
use netvizd.Common.{◌≡◌, refl, true, false, List, [], ◌∷◌, some}
use netvizd.Common.Int.{ℤ, pos, negsuc, ◌-ℤ◌}
use netvizd.Common.Text.{Text, codes, same_prefix, same_text, atoi}
use netvizd.Config.{NvConf}
use netvizd.Pgsql.Instance.{PgsqlData, pgsql_inst_init, pgsql_connect, pgsql_get_ready}
use netvizd.Pgsql.Instance.Checks.{Outcomes, all_keys, pgsql_inst_init-Outcomes}

abbrev item : Text → Text → NvConf
item key value = record { key = key; value = value }

abbrev settings : List NvConf
settings =
    item (codes "host") (codes "db.local")
    ∷ item (codes "user") (codes "nv")
    ∷ item (codes "pass") (codes "secret")
    ∷ item (codes "db") (codes "netviz")
    ∷ item (codes "ssl") (codes "yes")
    ∷ []

abbrev instance_data : PgsqlData
instance_data = record {
  host = some (codes "db.local");
  port = pos 5432;
  user = some (codes "nv");
  pass = some (codes "secret");
  db = some (codes "netviz");
  pool_num = pos 10;
  ctimeout = pos 10;
  rtimeout = pos 10;
  ssl = true;
}

settings-read : pgsql_inst_init (pos 0) settings ≡ (pos 0, instance_data)
unfolding pgsql_inst_init same_prefix same_text atoi
settings-read = refl

pgsql_inst_init-Outcomes_example :
    Outcomes (pos 0) (all_keys settings) (pgsql_inst_init (pos 0) settings)
pgsql_inst_init-Outcomes_example = pgsql_inst_init-Outcomes (pos 0) settings

abbrev four_digits : ℤ → Text
four_digits n = codes "5432"

connection_string :
    pgsql_connect four_digits instance_data.host instance_data.user instance_data.pass
      instance_data.db instance_data
    ≡ some (
        codes
          "host=db.local port=5432 user=nv password=secret dbname=netviz sslmode=require connect_timeout=5432")
unfolding pgsql_connect
connection_string = refl

-- A wait that reaches its limit with `quit` set: the lock is given back once too often.
late_quit :
    pgsql_get_ready false (
      record { is_ready = false; timed_out = true; is_quit = false }
      ∷ record { is_ready = false; timed_out = true; is_quit = true }
      ∷ [])
    ≡ some (negsuc 0)
unfolding pgsql_get_ready ◌-ℤ◌
late_quit = refl
