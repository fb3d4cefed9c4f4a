-- ===== src/Rrd.antt =====
-- src/plugins/sensor/rrd.c: the sensor that reads the output of `rrdtool`. The commands that it runs,
-- and the functions of src/storage.c that it calls, act on a world that is a parameter.
pub mod Settings
pub mod Columns
pub mod Rows
pub mod Lines
pub mod Ends
pub mod History
pub mod Fetched
pub mod Beat
pub mod Storage
mod Tests
use netvizd.Common.{
  ℕ, zero, suc, ◌+◌, ◌-◌, ◌≡◌, Bool, true, false, List, [], ◌∷◌, ◌++◌, Option, none, some, ltb,
  if◌then◌else◌, length, take,
}
use netvizd.Common.Int.{ℤ, pos, negsuc, ◌+ℤ◌, ltb_ℤ, eq_ℤ}
use netvizd.Common.Text.{Text, codes, same_prefix, next_token, until_nul, atoi}
use netvizd.Config.{NvConf, NvDsts}
use netvizd.Io.{Read, chunk, interrupted, broken, Reader, Line, readline}

-- `struct rrd_data`, and the `beat` of the sensor.
pub record RrdData : Type 0 where
  pub interval : ℤ
  pub file : Option Text
  pub rrdtool : Option Text
  pub start : ℤ
  pub column : ℤ
  pub beat : ℤ

abbrev pub new_data : RrdData
new_data = record {
  interval = pos 300;
  file = none;
  rrdtool = none;
  start = pos 0;
  column = pos 0;
  beat = pos 300;
}

-- One item of the configuration; `none` is an unknown key.
pub set_key : NvConf → RrdData → Option RrdData
set_key c me =
    if same_prefix 256 c.key (codes "interval")
    then some (record me { interval = atoi c.value; beat = atoi c.value })
    else if same_prefix 256 c.key (codes "file")
    then some (record me { file = some c.value })
    else if same_prefix 256 c.key (codes "rrdtool")
    then some (record me { rrdtool = some c.value })
    else if same_prefix 256 c.key (codes "start")
    then some (record me { start = atoi c.value })
    else if same_prefix 256 c.key (codes "column")
    then some (record me { column = atoi c.value })
    else none

-- The checks behind the loop.
abbrev pub tool_or_default : Option Text → Option Text
tool_or_default none = some (codes "rrdtool")
tool_or_default (some tool) = some tool

abbrev pub file_stat_of : Option Text → ℤ
file_stat_of none = negsuc 0
file_stat_of (some file) = pos 0

pub check_data : RrdData → ℤ × RrdData
check_data me = (file_stat_of me.file, record me { rrdtool = tool_or_default me.rrdtool })

-- The rest of the loop, where there was no unknown key.
pub next_key : (RrdData → ℤ × RrdData) → RrdData → Option RrdData → ℤ × RrdData
next_key rest me none = (negsuc 0, me)
next_key rest me (some me') = rest me'

pub read_conf : List NvConf → RrdData → ℤ × RrdData
unfolding next_key set_key check_data
read_conf [] me = check_data me
read_conf (c ∷ conf) me = next_key (read_conf conf) me (set_key c me)

pub rrd_inst_init : List NvConf → ℤ × RrdData
unfolding read_conf
rrd_inst_init conf = read_conf conf new_data

abbrev pub seps : Text
seps = codes " :\t\n"

-- The words that `strtok_r` gives.
pub words_upto : ℕ → Text → List Text
words_upto zero s = []
words_upto (suc k) s = elim (next_token seps s) [ none ↦ [] | some (w, r) ↦ w ∷ words_upto k r ]

unfoldable pub words : Text → List Text
unfolding words_upto
words s = words_upto (length s) s

-- The loop over the words of a line, from the column `col` on: `vtime`, and the word that is submitted.
pub scan : ℤ → ℤ → List Text → ℤ → ℤ × Option Text
scan column col [] vtime = (vtime, none)
scan column col (word ∷ ws) vtime =
    let first = scan column (col +ℤ pos 1) ws (atoi word) in
    let later = scan column (col +ℤ pos 1) ws vtime in
    if eq_ℤ col (negsuc 0)
    then first
    else if eq_ℤ column col
    then (vtime, if same_prefix 3 (codes "nan") word then none else some word)
    else later

-- What the loops change.
pub record Progress (W : Type 0) : Type 0 where
  pub row : ℕ
  pub vtime : ℤ
  pub valid_vtime : ℤ
  pub world : W

pub record Outside (V : Type 0) : Type 1 where
  pub World : Type 0
  -- `NULL`, or the answers of the pipe to `read`, with the world behind `pclose`.
  pub popen : Text → World → Option (List Read) × World
  pub stor_get_ts_utime : NvDsts → World → ℤ × World
  pub stor_submit_ts_data : NvDsts → ℤ → V → World → World
  pub stor_submit_ts_utime : NvDsts → ℤ → World → World

-- How a loop or a beat goes. Neither `popen` nor `readline` is tested for an error: `NULL` is passed to `fileno`
-- or `fread`, which ends the process; and after a read that failed the code goes on and takes what the
-- buffer still holds for a line, where the model ends.
pub data Course (A : Type 0) : Type 0 where
  out_of_fuel null_pipe read_failed : Course A
  done : A → Course A

abbrev pub and_then : {A B : Type 0} → Course A → (A → Course B) → Course B
and_then out_of_fuel f = out_of_fuel
and_then null_pipe f = null_pipe
and_then read_failed f = read_failed
and_then (done a) f = f a

abbrev pub pipe : List Read → Reader
pipe rs = record { rl_buf = []; answers = rs }

-- The characters that all the answers hold.
abbrev pub size_of : List Read → ℕ
size_of [] = 0
size_of (chunk s ∷ rs) = length s + size_of rs
size_of (interrupted ∷ rs) = size_of rs
size_of (broken ∷ rs) = size_of rs

-- What `fread` stores: it stops at the end of the input and at an error, an interrupted call included.
pub fread : List Read → Text
fread [] = []
fread (chunk [] ∷ rs) = []
fread (chunk (c ∷ s) ∷ rs) = c ∷ s ++ fread rs
fread (interrupted ∷ rs) = []
fread (broken ∷ rs) = []

module _ {V : Type 0} (O : Outside V) (atof : Text → V) (print_int : ℤ → Text) (rrdtool file : Text)
    (start column : ℤ) where
  open O use {World, popen, stor_get_ts_utime, stor_submit_ts_data, stor_submit_ts_utime}

  pub submit_word : NvDsts → Progress World → ℤ × Option Text → Progress World
  submit_word d p (t, none) = record p { vtime = t }
  submit_word d p (t, some word) = record p {
    vtime = t;
    valid_vtime = t;
    world = stor_submit_ts_data d t (atof word) p.world;
  }

  -- One line, which `readline` has stored.
  pub read_row : NvDsts → Text → Progress World → Progress World
  unfolding submit_word scan
  read_row d buf p =
      let q = record p { row = p.row + 1 } in
      if ltb (p.row + 1) 3
      then q
      else submit_word d q (scan column (negsuc 0) (words (until_nul buf)) p.vtime)

  pub row_or_end :
      NvDsts
      → (Reader → Progress World → Course (Progress World))
      → Progress World
      → Line × Reader
      → Course (Progress World)
  unfolding read_row
  row_or_end d loop p (l, r) =
      let rest = loop r (read_row d l.stored p) in
      if eq_ℤ l.ret (pos 0) then done p else if ltb_ℤ l.ret (pos 0) then read_failed else rest

  -- The loop over the lines; a unit of fuel is one call of `readline`.
  pub read_rows : NvDsts → ℕ → Reader → Progress World → Course (Progress World)
  unfolding row_or_end
  read_rows d zero r p = out_of_fuel
  read_rows d (suc k) r p = row_or_end d (read_rows d k) p (readline 1023 r)

  pub fetch_command : ℤ → ℤ → Text
  fetch_command ds_time rrd_time = take 1023 (
      rrdtool
      ++ codes " fetch "
      ++ file
      ++ codes " AVERAGE -s "
      ++ print_int ds_time
      ++ codes " -e "
      ++ print_int rrd_time)

  -- Enough fuel for a line of each character.
  pub fetch_rows : NvDsts → Progress World → Option (List Read) × World → Course (Progress World)
  unfolding read_rows
  fetch_rows d p (none, w) = null_pipe
  fetch_rows d p (some rs, w) = read_rows d (suc (size_of rs)) (pipe rs) (record p { world = w })

  -- The end of a round of the loop over the data sets.
  pub keep_utime : NvDsts → ℤ → Progress World → Progress World
  keep_utime d ds_time p =
      if ltb_ℤ ds_time p.valid_vtime
      then record p { world = stor_submit_ts_utime d p.valid_vtime p.world }
      else p

  pub update_dset : NvDsts → ℤ → Progress World → ℤ × World → Course (Progress World)
  unfolding fetch_rows keep_utime fetch_command
  update_dset d rrd_time p (utime, w) =
      let ds_time = if eq_ℤ utime (pos 0) then start else utime in
      let q = record p { world = w } in
      and_then
        (if ltb_ℤ ds_time rrd_time
          then fetch_rows d q (popen (fetch_command ds_time rrd_time) w)
          else done q)
        (λ r. done (keep_utime d ds_time r))

  pub update_dsets : ℤ → List NvDsts → Progress World → Course (Progress World)
  unfolding update_dset
  update_dsets rrd_time [] p = done p
  update_dsets rrd_time (d ∷ ds) p =
      and_then (update_dset d rrd_time p (stor_get_ts_utime d p.world)) (update_dsets rrd_time ds)

  -- `fread` gives at most 1,023 characters, and -1 stands for a missing file.
  pub rrd_time_of : Text → ℤ
  rrd_time_of [] = pos 0
  rrd_time_of (c ∷ s) =
      let buf = take 1023 (c ∷ s) in if same_prefix 2 (codes "-1") buf then pos 0 else atoi buf

  pub last_output : Option (List Read) × World → Course (ℤ × World)
  unfolding rrd_time_of fread
  last_output (none, w) = null_pipe
  last_output (some rs, w) = done (rrd_time_of (fread rs), w)

  pub rrd_get_ts_utime : World → Course (ℤ × World)
  unfolding last_output
  rrd_get_ts_utime w = last_output (popen (take 1023 (rrdtool ++ codes " last " ++ file)) w)

  abbrev pub first_progress : World → Progress World
  first_progress w = record { row = 0; vtime = pos 0; valid_vtime = pos 0; world = w }

  -- The data sets of the sensor, in order. Where it returns, it returns 0.
  pub rrd_beatfunc : List NvDsts → World → Course (ℤ × World)
  unfolding rrd_get_ts_utime update_dsets
  rrd_beatfunc dsets w = and_then (rrd_get_ts_utime w) (λ (rrd_time, w1).
      and_then (update_dsets rrd_time dsets (first_progress w1)) (λ p. done (pos 0, p.world)))
