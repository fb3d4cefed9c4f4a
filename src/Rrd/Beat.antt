-- ===== src/Rrd/Beat.antt =====
-- src/plugins/sensor/rrd.c: a beat of the sensor, data set by data set.
use netvizd.Common.{◌≡◌, refl, ap, subst, ◌∙◌, List, [], ◌∷◌, ◌++◌, Option, if◌then◌else◌, take}
use netvizd.Common.Int.{ℤ, pos, ltb_ℤ}
use netvizd.Common.Text.{Text, codes}
use netvizd.Config.{NvDsts}
use netvizd.Io.{Read}
use netvizd.Rrd.{
  Progress, Outside, Course, done, and_then, keep_utime, update_dset, update_dsets, last_output,
  rrd_get_ts_utime, first_progress, rrd_beatfunc,
}
use netvizd.Rrd.Columns.{last_time}
use netvizd.Rrd.Rows.{submit_readings}
use netvizd.Rrd.History.{IsSound, ap-if, if-same, all_readings}
use netvizd.Rrd.Fetched.{fetched_from, Fetched, IsUpdated, AllUpdated, Sees, HasRead, fetch-HasRead}

module _ {V : Type 0} (O : Outside V) (atof : Text → V) (print_int : ℤ → Text) (rrdtool file : Text)
    (start column : ℤ) where
  open O use {World, popen, stor_get_ts_utime, stor_submit_ts_utime}

  module _ (sound : IsSound O) where
    -- A data set is done: the code keeps the time, and submits it if it is later.
    kept-IsUpdated :
        (seen : List Text) (rrd_time utime : ℤ) (d : NvDsts) (w w1 : World) (p : Progress World)
        (c : Course (Progress World))
        → stor_get_ts_utime d w ≡ (utime, w1)
        → p.world ≡ w1
        → (h : HasRead O atof print_int rrdtool file start column seen
            (fetched_from O atof print_int rrdtool file start column utime)
            rrd_time
            d
            p
            c)
        → let q =
            keep_utime O atof print_int rrdtool file start column d
              (fetched_from O atof print_int rrdtool file start column utime)
              h.now in
          Sees O atof print_int rrdtool file start column (seen ++ h.ls) q
          × IsUpdated O atof print_int rrdtool file start column rrd_time d seen w
              (seen ++ h.ls)
              q.world
    unfolding keep_utime
    kept-IsUpdated seen rrd_time utime d w w1 p c asked at h =
        let t = fetched_from O atof print_int rrdtool file start column utime in
        let last = last_time (all_readings column (seen ++ h.ls)) (pos 0) in
        let w3 = submit_readings O atof print_int rrdtool file start column d h.rs h.after in
        let kept = record h.now { world = stor_submit_ts_utime d h.now.valid_vtime h.now.world } in
        let late = ltb_ℤ t h.now.valid_vtime in
        (
          record {
            row_count = ap-if (λ p. p.row) late kept h.now ∙ if-same late _ ∙ h.sees.row_count;
            last_valid =
                ap-if (λ p. p.valid_vtime) late kept h.now ∙ if-same late _ ∙ h.sees.last_valid;
          },
          record {
            utime = utime;
            w1 = w1;
            w2 = h.after;
            output_lines = h.ls;
            added = h.rs;
            asked = asked;
            fetched =
                subst
                  (λ v.
                    Fetched O atof print_int rrdtool file start column t rrd_time v h.ls h.after)
                  at h.read;
            all_lines = refl;
            added_readings = h.adds;
            submitted =
                ap-if (λ p. p.world) late kept h.now
                ∙ ap
                    (λ (u : ℤ).
                      if ltb_ℤ t u then stor_submit_ts_utime d u h.now.world else h.now.world)
                    h.sees.last_valid
                ∙ ap (λ v. if ltb_ℤ t last then stor_submit_ts_utime d last v else v) h.world_now;
          },
        )

    -- A data set, and the progress after it.
    record Updates (seen : List Text) (rrd_time : ℤ) (d : NvDsts) (p : Progress World)
        : Type 0 where
      seen_then : List Text
      then_ : Progress World
      updates :
          update_dset O atof print_int rrdtool file start column d rrd_time p
            (stor_get_ts_utime d p.world)
          ≡ done then_
      then_sees : Sees O atof print_int rrdtool file start column seen_then then_
      is_updated :
          IsUpdated O atof print_int rrdtool file start column rrd_time d seen p.world seen_then
            then_.world

    update_dset-Updates :
        (seen : List Text) (rrd_time : ℤ) (d : NvDsts) (p : Progress World)
        → Sees O atof print_int rrdtool file start column seen p
        → Updates seen rrd_time d p
    unfolding update_dset
    update_dset-Updates seen rrd_time d p s =
        let (utime, w1) = stor_get_ts_utime d p.world in
        let t = fetched_from O atof print_int rrdtool file start column utime in
        let q = record p { world = w1 } in
        let at : Sees O atof print_int rrdtool file start column seen q = record {
          row_count = s.row_count;
          last_valid = s.last_valid;
        } in
        let h =
          fetch-HasRead O atof print_int rrdtool file start column sound seen t rrd_time d q at in
        let (sees, updated) = kept-IsUpdated seen rrd_time utime d p.world w1 q _ refl refl h in
        record {
          seen_then = seen ++ h.ls;
          then_ = keep_utime O atof print_int rrdtool file start column d t h.now;
          updates =
              ap
                (λ (c : Course (Progress World)).
                  and_then c
                    (λ r. done (keep_utime O atof print_int rrdtool file start column d t r)))
                h.goes;
          then_sees = sees;
          is_updated = updated;
        }

    update_dsets-AllUpdated :
        (seen : List Text) (rrd_time : ℤ) (ds : List NvDsts) (p : Progress World)
        → Sees O atof print_int rrdtool file start column seen p
        → (q : Progress World) × (update_dsets O atof print_int rrdtool file start column rrd_time
              ds p
            ≡ done q)
          × AllUpdated O atof print_int rrdtool file start column rrd_time ds seen p.world q.world
    unfolding update_dsets
    update_dsets-AllUpdated seen rrd_time [] p s = (p, refl, refl)
    update_dsets-AllUpdated seen rrd_time (d ∷ ds) p s =
        let u = update_dset-Updates seen rrd_time d p s in
        let (q, e, rest) = update_dsets-AllUpdated u.seen_then rrd_time ds u.then_ u.then_sees in
        let loop = update_dsets O atof print_int rrdtool file start column rrd_time ds in
        (
          q,
          ap (λ (c : Course (Progress World)). and_then c loop) u.updates ∙ e,
          (u.seen_then, u.then_.world, u.is_updated, rest),
        )

    get_ts_utime-done :
        (w : World)
        → (rrd_time : ℤ) × (w1 : World) × (rrd_get_ts_utime O atof print_int rrdtool file start
              column w
            ≡ done (rrd_time, w1))
    unfolding rrd_get_ts_utime last_output
    get_ts_utime-done w =
        let cmd = take 1023 (rrdtool ++ codes " last " ++ file) in
        let last = last_output O atof print_int rrdtool file start column in
        (
          _,
          (popen cmd w).1,
          ap (λ (o : Option (List Read)). last (o, (popen cmd w).1)) (sound.starts cmd w),
        )

    -- Where every command can be started and no read of its output fails, a beat ends and returns 0. It goes
    -- through the data sets in order, once `rrdtool last` has been asked. A data set whose update time
    -- (`start` where there is none) is before that time is fetched from there on. The code takes all the
    -- output of one beat for one table with one header: what is submitted for a data set are the readings
    -- that its output adds to those of all the lines read so far, in order, each once; and the time of the
    -- last reading of all so far is then submitted for it, if that is later than its update time.
    pub rrd_beatfunc-AllUpdated :
        (ds : List NvDsts) (w : World)
        → (rrd_time : ℤ) × (w1 : World) × (w2 : World) × (rrd_get_ts_utime O atof print_int rrdtool
              file start column w
            ≡ done (rrd_time, w1))
          × (rrd_beatfunc O atof print_int rrdtool file start column ds w ≡ done (pos 0, w2))
          × AllUpdated O atof print_int rrdtool file start column rrd_time ds [] w1 w2
    unfolding rrd_beatfunc
    rrd_beatfunc-AllUpdated ds w =
        let (rrd_time, w1, asked) = get_ts_utime-done w in
        let start_at = first_progress O atof print_int rrdtool file start column w1 in
        let (p, e, rest) =
          update_dsets-AllUpdated [] rrd_time ds start_at
            (record { row_count = refl; last_valid = refl }) in
        (
          rrd_time,
          w1,
          p.world,
          asked,
          ap
                (λ (c : Course (ℤ × World)). and_then c (λ (t, v).
                  and_then
                    (update_dsets O atof print_int rrdtool file start column t ds
                      (first_progress O atof print_int rrdtool file start column v))
                    (λ p. done (pos 0, p.world))))
                asked
              ∙ ap (λ (c : Course (Progress World)). and_then c (λ p. done (pos 0, p.world))) e,
          rest,
        )
