-- ===== src/Submit/Passed.antt =====
-- src/storage.c: in a configuration that was read from a file, the calls for a data set reach the plugin
-- of its storage instance.
use netvizd.Common.{ℕ, ◌≡◌, ap, some, get_elem?}
use netvizd.Common.Int.{ℤ, pos}
use netvizd.Common.Outcome.{Outcome, ok, ◌>>=◌}
use netvizd.Config.{NvDsts, NvConfig, FileConf}
use netvizd.Config.File.{create_conf}
use netvizd.Submit.{
  Series, Call, stor_submit_ts_data, stor_submit_ts_utime, stor_get_ts_utime, stor_get_ts_data,
}
use netvizd.Submit.Total.{IsSeries, series_of-IsSeries, IsCall, call_of-IsCall}

-- The three functions pass on the call, all with one series, and the two that read return what the plugin does.
abbrev pub Passed :
    {W R : Type 0}
    → NvConfig
    → NvDsts
    → (Series → ℤ → W → W)
    → (Series → W → ℤ × W)
    → (Series → ℤ → ℤ → ℤ → W → R × W)
    → ℤ
    → ℤ
    → ℤ
    → W
    → Type 0
Passed c d put get fetch time end res w =
    (s : Series) × IsSeries c d s
    × (stor_submit_ts_utime c put d time w ≡ ok (put s time w))
    × (stor_get_ts_utime c get d w ≡ ok (get s w))
    × (stor_get_ts_data c fetch d time end res w ≡ ok (fetch s time end res w))

-- In a configuration that `create_conf` made without an error, `stor_submit_ts_utime`,
-- `stor_get_ts_utime` and `stor_get_ts_data` read through no `NULL` for any of its data sets: each calls
-- the function of the plugin of the data set's storage instance with that instance and the two names.
pub stor_calls-Passed :
    {W R : Type 0} (f : FileConf) (c : NvConfig) (i : ℕ) (d : NvDsts) (put : Series → ℤ → W → W)
    (get : Series → W → ℤ × W) (fetch : Series → ℤ → ℤ → ℤ → W → R × W) (time end res : ℤ) (w : W)
    → create_conf f ≡ ok (c, pos 0)
    → get_elem? c.dsts i ≡ some d
    → Passed c d put get fetch time end res w
unfolding stor_submit_ts_utime stor_get_ts_utime stor_get_ts_data
stor_calls-Passed f c i d put get fetch time end res w made at =
    let (s, e, is) = series_of-IsSeries f c made i d at in
    (
      s,
      is,
      ap (λ (o : Outcome Series). o >>= (λ k. ok (put k time w))) e,
      ap (λ (o : Outcome Series). o >>= (λ k. ok (get k w))) e,
      ap (λ (o : Outcome Series). o >>= (λ k. ok (fetch k time end res w))) e,
    )

-- The same for a value.
pub stor_submit_ts_data-IsCall :
    {V W : Type 0} (f : FileConf) (c : NvConfig) (i : ℕ) (d : NvDsts) (put : Call V → W → W)
    (time : ℤ) (value : V) (w : W)
    → create_conf f ≡ ok (c, pos 0)
    → get_elem? c.dsts i ≡ some d
    → (k : Call V) × (stor_submit_ts_data put c d time value w ≡ ok (put k w))
      × IsCall c d time value k
unfolding stor_submit_ts_data
stor_submit_ts_data-IsCall f c i d put time value w made at =
    let (k, e, is) = call_of-IsCall f c made i d time value at in
    (k, ap (λ (o : Outcome (Call _)). o >>= (λ call. ok (put call w))) e, is)
