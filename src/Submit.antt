-- ===== src/Submit.antt =====
-- src/sensor.c and src/storage.c: how a sensor's data reaches the storage plugins. The function
-- `stor_ts_data` of the plugins is a parameter over a world of its own.
pub mod Total
pub mod Passed
mod Tests
use netvizd.Common.{ℕ, List, [], ◌∷◌, Option, none, some, get_elem?}
use netvizd.Common.Int.{ℤ, pos}
use netvizd.Common.Text.{Text}
use netvizd.Common.Outcome.{Outcome, crash, ok, ◌>>=◌}
use netvizd.Config.{Plug, Inst, NvSys, NvDsts, NvConfig}
use netvizd.Config.File.{deref}

-- What every function of src/storage.c reads through the pointers of a data set, and hands to the
-- function of the plugin.
pub record Series : Type 0 where
  pub plug : Plug
  pub stor : Inst
  pub name : Text
  pub sys : Text

-- The arguments of a call of `stor_ts_data`, with the plugin that is called.
pub record Call (V : Type 0) : Type 0 where
  pub series : Series
  pub time : ℤ
  pub value : V

pub series_of : NvConfig → NvDsts → Outcome Series
series_of c d = do
  i ← deref d.stor
  stor ← deref (get_elem? c.stor i)
  p ← deref stor.plug
  plug ← deref (get_elem? c.stor_p p)
  s ← deref d.sys
  sys ← deref (get_elem? c.sys s)
  ok (record { plug = plug; stor = stor; name = d.name; sys = sys.name })

pub call_of : {V : Type 0} → NvConfig → NvDsts → ℤ → V → Outcome (Call V)
unfolding series_of
call_of c d time value = do
  series ← series_of c d
  ok (record { series = series; time = time; value = value })

-- The functions of the plugin are parameters. The status that the two functions which store return is left
-- out: it is the plugin's, and the sensors do not read it.
module _ {W : Type 0} (c : NvConfig) where
  pub stor_submit_ts_utime : (Series → ℤ → W → W) → NvDsts → ℤ → W → Outcome W
  unfolding series_of
  stor_submit_ts_utime stor_ts_utime d time w = do
    series ← series_of c d
    ok (stor_ts_utime series time w)

  pub stor_get_ts_utime : (Series → W → ℤ × W) → NvDsts → W → Outcome (ℤ × W)
  unfolding series_of
  stor_get_ts_utime get_ts_utime d w = do series ← series_of c d; ok (get_ts_utime series w)

  pub stor_get_ts_data :
      {R : Type 0} → (Series → ℤ → ℤ → ℤ → W → R × W) → NvDsts → ℤ → ℤ → ℤ → W → Outcome (R × W)
  unfolding series_of
  stor_get_ts_data get_ts_data d start end res w = do
    series ← series_of c d
    ok (get_ts_data series start end res w)

module _ {V W : Type 0} (stor_ts_data : Call V → W → W) (c : NvConfig) where
  pub stor_submit_ts_data : NvDsts → ℤ → V → W → Outcome W
  unfolding call_of
  stor_submit_ts_data d time value w = do call ← call_of c d time value; ok (stor_ts_data call w)

  -- The loop over the data sets of a sensor instance.
  pub submit_all : List ℕ → ℤ → V → W → Outcome W
  unfolding stor_submit_ts_data
  submit_all [] time value w = ok w
  submit_all (i ∷ is) time value w = do
    d ← deref (get_elem? c.dsts i)
    w' ← stor_submit_ts_data d time value w
    submit_all is time value w'

  pub sens_submit_ts_data : Inst → ℤ → V → W → Outcome W
  unfolding submit_all
  sens_submit_ts_data s time value w = submit_all s.dsets time value w
