-- ===== src/Submit/Tests.antt =====
-- src/sensor.c: a value that the sensor of the sample configuration submits.
use netvizd.Common.{ℕ, ◌≡◌, refl, List, [], ◌∷◌, some}
use netvizd.Common.Int.{ℤ, pos}
use netvizd.Common.Text.{Text, codes}
use netvizd.Common.Outcome.{ok}
use netvizd.Config.{Inst, NvDsts, ds_type_counter, ds_cf_average}
use netvizd.Config.File.Tests.{sample, built, sample-built}
use netvizd.Submit.{Series, Call, sens_submit_ts_data}
use netvizd.Submit.Passed.{Passed, stor_calls-Passed}
use netvizd.Submit.Total.{AreCalls, call_all, sens_submit-AreCalls}

-- A storage plugin that keeps the names and the values.
abbrev keep : Call ℕ → List (Text × ℕ) → List (Text × ℕ)
keep k w = (k.series.name, k.value) ∷ w

abbrev sensor_in : Inst
sensor_in = record {
  name = codes "in";
  plug = some 0;
  dsets = 0 ∷ [];
  conf = record { key = codes "column"; value = codes "0" } ∷ [];
}

value-kept : sens_submit_ts_data keep built sensor_in (pos 60) 7 [] ≡ ok ((codes "atm", 7) ∷ [])
unfolding sens_submit_ts_data
value-kept = refl

sens_submit-AreCalls_example :
    (ks : List (Call ℕ)) × (sens_submit_ts_data keep built sensor_in (pos 60) 7 []
      ≡ ok (call_all keep ks []))
    × AreCalls built (0 ∷ []) (pos 60) 7 ks
sens_submit-AreCalls_example =
    sens_submit-AreCalls keep sample built 0 sensor_in (pos 60) 7 [] sample-built refl

abbrev atm : NvDsts
atm = record {
  name = codes "atm";
  type = ds_type_counter;
  cf = ds_cf_average;
  desc = codes "Incoming";
  sens = some 0;
  stor = some 0;
  sys = some 0;
}

abbrev put : Series → ℤ → List ℤ → List ℤ
put s t w = t ∷ w

abbrev get : Series → List ℤ → ℤ × List ℤ
get s w = (pos 9, w)

abbrev fetch : Series → ℤ → ℤ → ℤ → List ℤ → ℤ × List ℤ
fetch s start end res w = (res, w)

stor_calls-Passed_example : Passed built atm put get fetch (pos 1) (pos 2) (pos 3) []
stor_calls-Passed_example =
    stor_calls-Passed sample built 0 atm put get fetch (pos 1) (pos 2) (pos 3) [] sample-built refl
