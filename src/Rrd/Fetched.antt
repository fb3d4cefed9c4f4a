-- ===== src/Rrd/Fetched.antt =====
-- src/plugins/sensor/rrd.c: what a beat reads and submits for a data set.
use netvizd.Common.{
  ℕ, suc, ◌-◌, ◌≡◌, refl, sym, ap, subst, ◌∙◌, inl, inr, true, false, List, [], ◌∷◌, ◌++◌, Option,
  some, if◌then◌else◌, length, drop, arith, Bool-cases, length-append,
}
use netvizd.Common.Int.{ℤ, pos, ltb_ℤ, eq_ℤ}
use netvizd.Common.Text.{Text}
use mathlib.Core.List.{append-nil}
use netvizd.Config.{NvDsts}
use netvizd.Io.{Read}
use netvizd.Io.Lines.{IsSteady, incoming}
use netvizd.Rrd.{
  Progress, Outside, Course, done, pipe, size_of, read_rows, fetch_command, fetch_rows,
}
use netvizd.Rrd.Columns.{lines_of, readings, last_time}
use netvizd.Rrd.Rows.{submit_readings, AreRead}
use netvizd.Rrd.Lines.{read_rows-AreRead}
use netvizd.Rrd.History.{
  IsSound, size_of-incoming, last_time-append, all_readings, all_readings-append,
}

module _ {V : Type 0} (O : Outside V) (atof : Text → V) (print_int : ℤ → Text) (rrdtool file : Text)
    (start column : ℤ) where
  open O use {World, popen, stor_get_ts_utime, stor_submit_ts_utime}

  -- From which time on a data set is fetched.
  abbrev pub fetched_from : ℤ → ℤ
  fetched_from utime = if eq_ℤ utime (pos 0) then start else utime

  -- The lines that are read for a data set with the time `t`: none, or the output of the command.
  pub data Fetched (t rrd_time : ℤ) (w : World) (ls : List Text) (w' : World) : Type 0 where
    up_to_date : ltb_ℤ t rrd_time ≡ false → ls ≡ [] → w' ≡ w → Fetched t rrd_time w ls w'
    behind :
        (rs : List Read)
        → ltb_ℤ t rrd_time ≡ true
        → popen (fetch_command O atof print_int rrdtool file start column t rrd_time) w
          ≡ (some rs, w')
        → ls ≡ lines_of (incoming rs)
        → Fetched t rrd_time w ls w'

  -- What a beat does for one data set, where it has read the lines `seen` before.
  pub record IsUpdated (rrd_time : ℤ) (d : NvDsts) (seen : List Text) (w : World)
      (seen' : List Text) (w' : World) : Type 0 where
    pub utime : ℤ
    pub w1 : World
    pub w2 : World
    pub output_lines : List Text
    pub added : List (ℤ × Text)
    pub asked : stor_get_ts_utime d w ≡ (utime, w1)
    pub fetched : Fetched (fetched_from utime) rrd_time w1 output_lines w2
    pub all_lines : seen' ≡ seen ++ output_lines
    pub added_readings : all_readings column seen' ≡ all_readings column seen ++ added
    pub submitted :
        let w3 = submit_readings O atof print_int rrdtool file start column d added w2 in
        let last = last_time (all_readings column seen') (pos 0) in
        w' ≡ (if ltb_ℤ (fetched_from utime) last then stor_submit_ts_utime d last w3 else w3)

  abbrev pub AllUpdated : ℤ → List NvDsts → List Text → World → World → Type 0
  AllUpdated rrd_time [] seen w w' = w ≡ w'
  AllUpdated rrd_time (d ∷ ds) seen w w' =
      (seen1 : List Text) × (w1 : World) × IsUpdated rrd_time d seen w seen1 w1
      × AllUpdated rrd_time ds seen1 w1 w'

  -- The variables of the code after the lines `seen`.
  pub record Sees (seen : List Text) (p : Progress World) : Type 0 where
    pub row_count : p.row ≡ length seen
    pub last_valid : p.valid_vtime ≡ last_time (all_readings column seen) (pos 0)

  -- Where the lines of a data set have been read.
  pub record HasRead (seen : List Text) (t rrd_time : ℤ) (d : NvDsts) (p : Progress World)
      (c : Course (Progress World)) : Type 0 where
    pub now : Progress World
    pub ls : List Text
    pub rs : List (ℤ × Text)
    pub after : World
    pub goes : c ≡ done now
    pub read : Fetched t rrd_time p.world ls after
    pub sees : Sees (seen ++ ls) now
    pub adds : all_readings column (seen ++ ls) ≡ all_readings column seen ++ rs
    pub world_now :
        now.world ≡ submit_readings O atof print_int rrdtool file start column d rs after

  rows-AreRead :
      (d : NvDsts) (p : Progress World) (rs : List Read)
      → IsSteady rs
      → (q : Progress World) × (read_rows O atof print_int rrdtool file start column d
            (suc (size_of rs))
            (pipe rs)
            p
          ≡ done q)
        × AreRead O atof print_int rrdtool file start column d (lines_of (incoming rs)) p q
  rows-AreRead d p rs h =
      rw (size_of-incoming rs)
        (read_rows-AreRead O atof print_int rrdtool file start column d (pipe rs) p h)

  -- The order of the two outputs does not matter to the variables: they go on from where they were.
  Sees-append :
      (seen ls : List Text) (d : NvDsts) (p q : Progress World)
      → Sees seen p
      → AreRead O atof print_int rrdtool file start column d ls p q
      → Sees (seen ++ ls) q
  Sees-append seen ls d p q s a =
      let rs = readings column (drop (2 - length seen) ls) in
      record {
        row_count = omega (arith, a.rows, s.row_count, length-append seen ls);
        last_valid =
            subst
              (λ (n : ℕ).
                q.valid_vtime ≡ last_time (readings column (drop (2 - n) ls)) p.valid_vtime)
              s.row_count a.last
            ∙ ap (last_time rs) s.last_valid
            ∙ sym (last_time-append (all_readings column seen) rs (pos 0))
            ∙ sym (ap (λ us. last_time us (pos 0)) (all_readings-append column seen ls));
      }

  module _ (sound : IsSound O) where
    behind-HasRead :
        (seen : List Text) (t rrd_time : ℤ) (d : NvDsts) (p : Progress World)
        → Sees seen p
        → ltb_ℤ t rrd_time ≡ true
        → HasRead seen t rrd_time d p (
            fetch_rows O atof print_int rrdtool file start column d p
              (popen (fetch_command O atof print_int rrdtool file start column t rrd_time) p.world))
    unfolding fetch_rows
    behind-HasRead seen t rrd_time d p s e =
        let cmd = fetch_command O atof print_int rrdtool file start column t rrd_time in
        let rs = sound.output cmd p.world in
        let w' = (popen cmd p.world).1 in
        let p' = record p { world = w' } in
        let started = ap (λ (o : Option (List Read)). (o, w')) (sound.starts cmd p.world) in
        let (q, f, a) = rows-AreRead d p' rs (sound.steady cmd p.world) in
        let ls = lines_of (incoming rs) in
        record {
          now = q;
          ls = ls;
          rs = readings column (drop (2 - length seen) ls);
          after = w';
          goes = ap (fetch_rows O atof print_int rrdtool file start column d p) started ∙ f;
          read = behind rs e started refl;
          sees =
              Sees-append seen ls d p' q
                (record { row_count = s.row_count; last_valid = s.last_valid }) a;
          adds = all_readings-append column seen ls;
          world_now =
              subst
                (λ (n : ℕ).
                  q.world
                  ≡ submit_readings O atof print_int rrdtool file start column d
                      (readings column (drop (2 - n) ls)) w')
                s.row_count a.submitted;
        }

    up_to_date-HasRead :
        (seen : List Text) (t rrd_time : ℤ) (d : NvDsts) (p : Progress World)
        → Sees seen p
        → ltb_ℤ t rrd_time ≡ false
        → HasRead seen t rrd_time d p (done p)
    up_to_date-HasRead seen t rrd_time d p s e = record {
      now = p;
      ls = [];
      rs = [];
      after = p.world;
      goes = refl;
      read = up_to_date e refl refl;
      sees = subst (λ (ls : List Text). Sees ls p) (sym (append-nil seen)) s;
      adds =
          ap (all_readings column) (append-nil seen) ∙ sym (append-nil (all_readings column seen));
      world_now = refl;
    }

    pub fetch-HasRead :
        (seen : List Text) (t rrd_time : ℤ) (d : NvDsts) (p : Progress World)
        → Sees seen p
        → HasRead seen t rrd_time d p (
            if ltb_ℤ t rrd_time
            then fetch_rows O atof print_int rrdtool file start column d p (
                popen (fetch_command O atof print_int rrdtool file start column t rrd_time) p.world)
            else done p)
    fetch-HasRead seen t rrd_time d p s = elim (Bool-cases (ltb_ℤ t rrd_time)) [
      | inl e ↦ rw e (behind-HasRead seen t rrd_time d p s e)
      | inr e ↦ rw e (up_to_date-HasRead seen t rrd_time d p s e)
    ]
