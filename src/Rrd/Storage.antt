-- ===== src/Rrd/Storage.antt =====
-- src/storage.c fills the interface that the sensor of src/plugins/sensor/rrd.c uses, over a
-- configuration that was read from a file.
use netvizd.Common.{ℕ, ◌≡◌, sym, ap, ◌∙◌, List, Option, some, get_elem?}
use netvizd.Common.Int.{ℤ, pos}
use netvizd.Common.Text.{Text}
use netvizd.Common.Outcome.{Outcome, crash, ok}
use netvizd.Config.{NvDsts, NvConfig, FileConf}
use netvizd.Config.File.{create_conf}
use netvizd.Submit.{Series, Call, stor_submit_ts_data, stor_submit_ts_utime, stor_get_ts_utime}
use netvizd.Submit.Passed.{stor_calls-Passed, stor_submit_ts_data-IsCall}
use netvizd.Io.{Read}
use netvizd.Rrd.{Outside}

-- The value of a call that returns.
abbrev or_else : {A : Type 0} → A → Outcome A → A
or_else a crash = a
or_else a (ok b) = b

returns : {A : Type 0} {b : A} (a : A) (o : Outcome A) → o ≡ ok b → o ≡ ok (or_else a o)
returns a o e = e ∙ sym (ap (λ (x : Outcome _). ok (or_else a x)) e)

module _ {V W : Type 0} (popen : Text → W → Option (List Read) × W) (c : NvConfig)
    (get : Series → W → ℤ × W) (put : Call V → W → W) (put_utime : Series → ℤ → W → W) where
  -- The world that the plugins' functions and the commands act on.
  abbrev pub storage : Outside V
  storage = record {
    World = W;
    popen = popen;
    stor_get_ts_utime = λ d w. or_else (pos 0, w) (stor_get_ts_utime c get d w);
    stor_submit_ts_data = λ d t v w. or_else w (stor_submit_ts_data put c d t v w);
    stor_submit_ts_utime = λ d t w. or_else w (stor_submit_ts_utime c put_utime d t w);
  }

  -- For every data set of a configuration that `create_conf` made without an error, the functions of
  -- the interface are those of src/storage.c, which return.
  pub storage-fills :
      (f : FileConf) (i : ℕ) (d : NvDsts) (t : ℤ) (v : V) (w : W)
      → create_conf f ≡ ok (c, pos 0)
      → get_elem? c.dsts i ≡ some d
      → (stor_get_ts_utime c get d w ≡ ok (storage.stor_get_ts_utime d w))
        × (stor_submit_ts_data put c d t v w ≡ ok (storage.stor_submit_ts_data d t v w))
        × (stor_submit_ts_utime c put_utime d t w ≡ ok (storage.stor_submit_ts_utime d t w))
  storage-fills f i d t v w made at =
      let (s, is, puts, gets, fetches) =
        stor_calls-Passed f c i d put_utime get (λ s start end res w. (res, w)) t t t w made at in
      let (k, calls, is_call) = stor_submit_ts_data-IsCall f c i d put t v w made at in
      (
        returns (pos 0, w) (stor_get_ts_utime c get d w) gets,
        returns w (stor_submit_ts_data put c d t v w) calls,
        returns w (stor_submit_ts_utime c put_utime d t w) puts,
      )
