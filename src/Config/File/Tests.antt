-- ===== src/Config/File/Tests.antt =====
-- src/plugins/config/file.c at the sample configuration src/plugins/config/netvizd.conf, cut down to
-- one sensor and one data set, and at a file without descriptions.
use netvizd.Common.{◌≡◌, refl, ◌≢◌, ◌↔◌, [], ◌∷◌, ◌++◌, none, some}
use netvizd.Common.Int.{ℤ, pos}
use netvizd.Common.Text.{codes, same_prefix, same_text}
use netvizd.Common.Outcome.{crash, ok}
use netvizd.Config.{
  name_copy, ds_type_counter, ds_cf_average, NvConfig, p_type_storage, p_type_sensor, p_type_proto,
  p_type_auth, FileConf,
}
use netvizd.Config.File.{create_conf}
use netvizd.Config.File.Integrity.{IsLinked, create_conf-IsLinked}
use netvizd.Config.File.Complete.{IsComplete, create_conf-IsComplete}

abbrev pub sample : FileConf
sample = record {
  plugins =
      record { name = codes "pgsql"; type = p_type_storage; file = some (codes "pgsql.la") }
      ∷ record { name = codes "rrd"; type = p_type_sensor; file = some (codes "rrd.la") }
      ∷ [];
  storages =
      record {
        name = codes "db0";
        p_name = codes "pgsql";
        values = some (record { word = codes "host"; value = codes "h" } ∷ []);
      }
      ∷ [];
  sensors =
      record {
        name = codes "in";
        p_name = codes "rrd";
        values = some (record { word = codes "column"; value = codes "0" } ∷ []);
      }
      ∷ [];
  data_sets =
      record {
        name = codes "atm";
        desc = some (codes "Incoming");
        type = ds_type_counter;
        cf = ds_cf_average;
        sensor = some (codes "in");
        storage = some (codes "db0");
        system = codes "rtr1";
      }
      ∷ [];
  systems = record { name = codes "rtr1"; desc = some (codes "Router") } ∷ [];
}

abbrev pub built : NvConfig
built = record {
  stor_p = record { name = codes "pgsql"; file = codes "pgsql.la" } ∷ [];
  sens_p = record { name = codes "rrd"; file = codes "rrd.la" } ∷ [];
  proto_p = [];
  auth_p = [];
  stor =
      record {
        name = codes "db0";
        plug = some 0;
        dsets = 0 ∷ [];
        conf = record { key = codes "host"; value = codes "h" } ∷ [];
      }
      ∷ [];
  sens =
      record {
        name = codes "in";
        plug = some 0;
        dsets = 0 ∷ [];
        conf = record { key = codes "column"; value = codes "0" } ∷ [];
      }
      ∷ [];
  sys = record { name = codes "rtr1"; desc = codes "Router" } ∷ [];
  dsts =
      record {
        name = codes "atm";
        type = ds_type_counter;
        cf = ds_cf_average;
        desc = codes "Incoming";
        sens = some 0;
        stor = some 0;
        sys = some 0;
      }
      ∷ [];
}

pub sample-built : create_conf sample ≡ ok (built, pos 0)
unfolding create_conf name_copy same_prefix same_text
sample-built = refl

-- The sample with the two plugins that it lacks.
abbrev pub served : FileConf
served = record sample {
  plugins =
      sample.plugins
      ++ record { name = codes "net"; type = p_type_proto; file = some (codes "net.la") }
        ∷ record { name = codes "permit"; type = p_type_auth; file = some (codes "permit.la") }
        ∷ [];
}

abbrev pub serving : NvConfig
serving = record built {
  proto_p = record { name = codes "net"; file = codes "net.la" } ∷ [];
  auth_p = record { name = codes "permit"; file = codes "permit.la" } ∷ [];
}

pub served-built : create_conf served ≡ ok (serving, pos 0)
unfolding create_conf name_copy same_prefix same_text
served-built = refl

create_conf-IsLinked_example : IsLinked sample built
create_conf-IsLinked_example = create_conf-IsLinked sample built sample-built

create_conf-IsComplete_example :
    ((r : NvConfig × ℤ) × (create_conf sample ≡ ok r)) ↔ IsComplete sample
create_conf-IsComplete_example = create_conf-IsComplete sample

-- A system block without a `description` statement.
undescribed :
    create_conf (record sample { systems = record { name = codes "x"; desc = none } ∷ [] }) ≡ crash
unfolding create_conf name_copy same_prefix same_text
undescribed = refl

-- A storage block that names a plugin of another type.
misnamed :
    create_conf (record sample {
      storages = record { name = codes "db0"; p_name = codes "rrd"; values = some [] } ∷ [];
      data_sets = [];
    })
    ≢ ok (built, pos 0)
unfolding create_conf name_copy same_prefix same_text
misnamed e = cc
