-- ===== src/Rrd/Tests.antt =====
-- src/plugins/sensor/rrd.c: beats over a table with two data sources, with integers for `double`.
use netvizd.Common.{
  suc, ◌≡◌, refl, List, [], ◌∷◌, ◌++◌, none, some, if◌then◌else◌, length, take, drop, inl, inr,
  Bool-cases,
}
use netvizd.Common.Int.{ℤ, pos, ◌+ℤ◌}
use netvizd.Common.Text.{Text, codes, same_prefix, same_text, next_token, until_nul, atoi}
use netvizd.Config.{NvDsts, ds_type_none, ds_cf_average}
use netvizd.Io.{Read, chunk, interrupted, broken, readline}
use netvizd.Io.Lines.{pending}
use netvizd.Rrd.{
  Progress, Outside, done, null_pipe, read_failed, words, pipe, read_rows, rrd_get_ts_utime,
  rrd_beatfunc,
}
use netvizd.Rrd.Columns.{lines_of}
use netvizd.Rrd.Rows.{AreRead}
use netvizd.Rrd.Lines.{read_rows-AreRead}
use netvizd.Rrd.History.{IsSound}
use netvizd.Rrd.Fetched.{AllUpdated}
use netvizd.Rrd.Beat.{rrd_beatfunc-AllUpdated}

data Event : Type 0 where
  value_stored : Text → ℤ → ℤ → Event
  utime_stored : Text → ℤ → Event

abbrev table : Text
table = codes "      ds0  ds1\n\n300: 5 50\n600: nan 60\n900: 7 70\n"

-- The table comes in two cuts, with an interrupted call between them.
abbrev fetch_answers : List Read
fetch_answers = chunk (take 30 table) ∷ interrupted ∷ chunk (drop 30 table) ∷ []

abbrev last_answers : List Read
last_answers = chunk (codes "900\n") ∷ []

abbrev logged : Outside ℤ
logged = record {
  World = List Event;
  popen = λ s w.
      (some (if same_prefix 12 s (codes "rrdtool last") then last_answers else fetch_answers), w);
  stor_get_ts_utime = λ d w. (pos 0, w);
  stor_submit_ts_data = λ d t v w. w ++ value_stored d.name t v ∷ [];
  stor_submit_ts_utime = λ d t w. w ++ utime_stored d.name t ∷ [];
}

abbrev dset : Text → NvDsts
dset name = record {
  name = name;
  type = ds_type_none;
  cf = ds_cf_average;
  desc = [];
  sens = some 0;
  stor = some 0;
  sys = some 0;
}

abbrev no_number : ℤ → Text
no_number t = codes "0"

-- The second data set is given the first line as a value for the time 0.
two_dsets-logged :
    rrd_beatfunc logged atoi no_number
      (codes "rrdtool")
      (codes "a.rrd")
      (pos 0)
      (pos 0)
      (dset (codes "in") ∷ dset (codes "out") ∷ [])
      []
    ≡ done (
      pos 0,
      value_stored (codes "in") (pos 300) (pos 5)
          ∷ value_stored (codes "in") (pos 900) (pos 7)
          ∷ utime_stored (codes "in") (pos 900)
          ∷ value_stored (codes "out") (pos 0) (pos 0)
          ∷ value_stored (codes "out") (pos 300) (pos 5)
          ∷ value_stored (codes "out") (pos 900) (pos 7)
          ∷ utime_stored (codes "out") (pos 900)
          ∷ [],
    )
unfolding rrd_beatfunc same_prefix same_text next_token until_nul atoi ◌+ℤ◌ words readline
two_dsets-logged = refl

abbrev begun : Progress (List Event)
begun = record { row = 0; vtime = pos 0; valid_vtime = pos 0; world = [] }

read_rows-AreRead_example :
    (q : Progress (List Event)) × (read_rows logged atoi no_number
        (codes "rrdtool")
        (codes "a.rrd")
        (pos 0)
        (pos 1)
        (dset (codes "in"))
        (suc (length (pending (pipe fetch_answers))))
        (pipe fetch_answers)
        begun
      ≡ done q)
    × AreRead logged atoi no_number
        (codes "rrdtool")
        (codes "a.rrd")
        (pos 0)
        (pos 1)
        (dset (codes "in"))
        (lines_of (pending (pipe fetch_answers)))
        begun
        q
read_rows-AreRead_example =
    read_rows-AreRead logged atoi no_number (codes "rrdtool") (codes "a.rrd") (pos 0) (pos 1)
      (dset (codes "in")) (pipe fetch_answers) begun tt

-- `popen` gives `NULL`.
unstarted_crashes :
    rrd_beatfunc
      (record logged { popen = λ s w. (none, w) })
      atoi
      no_number
      (codes "rrdtool")
      (codes "a.rrd")
      (pos 0)
      (pos 0)
      []
      []
    ≡ null_pipe
unfolding rrd_beatfunc
unstarted_crashes = refl

logged-IsSound : IsSound logged
logged-IsSound = record {
  output = λ s w. if same_prefix 12 s (codes "rrdtool last") then last_answers else fetch_answers;
  starts = λ s w. refl;
  steady = λ s w. elim (Bool-cases (same_prefix 12 s (codes "rrdtool last"))) [
    | inl e ↦ rw e tt
    | inr e ↦ rw e tt
  ];
}

rrd_beatfunc-AllUpdated_example :
    let tool = codes "rrdtool" in
    let file = codes "a.rrd" in
    let ds = dset (codes "in") ∷ dset (codes "out") ∷ [] in
    (rrd_time : ℤ) × (w1 : List Event) × (w2 : List Event) × (rrd_get_ts_utime logged atoi no_number
        tool file
        (pos 0)
        (pos 0)
        []
      ≡ done (rrd_time, w1))
    × (rrd_beatfunc logged atoi no_number tool file (pos 0) (pos 0) ds [] ≡ done (pos 0, w2))
    × AllUpdated logged atoi no_number tool file (pos 0) (pos 0) rrd_time ds [] w1 w2
rrd_beatfunc-AllUpdated_example =
    rrd_beatfunc-AllUpdated logged atoi no_number (codes "rrdtool") (codes "a.rrd") (pos 0) (pos 0)
      logged-IsSound (dset (codes "in") ∷ dset (codes "out") ∷ []) []

-- Each read of the output fails.
abbrev failing : Outside ℤ
failing = record logged {
  popen = λ s w. (
    some (if same_prefix 12 s (codes "rrdtool last") then last_answers else broken ∷ fetch_answers),
    w,
  );
}

failing_run :
    rrd_beatfunc failing atoi no_number
      (codes "rrdtool")
      (codes "a.rrd")
      (pos 0)
      (pos 0)
      (dset (codes "in") ∷ [])
      []
    ≡ read_failed
unfolding rrd_beatfunc same_prefix until_nul atoi readline same_text
failing_run = refl
