-- ===== src/Rrd/Settings.antt =====
-- src/plugins/sensor/rrd.c: when `rrd_inst_init` accepts a configuration.
use netvizd.Common.{
  ◌≡◌, refl, sym, ap, subst, ◌⊎◌, inl, inr, Bool, true, false, ◌||◌, ◌&&◌, List, [], ◌∷◌, Option,
  none, some, arith, Option-cases,
}
use netvizd.Common.Int.{ℤ, pos, negsuc}
use netvizd.Common.Text.{Text, codes, same_prefix}
use netvizd.Config.{NvConf}
use netvizd.Rrd.{
  RrdData, new_data, set_key, tool_or_default, file_stat_of, check_data, next_key, read_conf,
  rrd_inst_init,
}

abbrev pub is_key : Text → Bool
is_key k =
    same_prefix 256 k (codes "interval")
    || same_prefix 256 k (codes "file")
    || same_prefix 256 k (codes "rrdtool")
    || same_prefix 256 k (codes "start")
    || same_prefix 256 k (codes "column")

abbrev pub all_keys : List NvConf → Bool
all_keys [] = true
all_keys (c ∷ conf) = is_key c.key && all_keys conf

-- The two ends of `rrd_inst_init`.
abbrev pub Outcomes : Bool → ℤ × RrdData → Type 0
Outcomes known (stat, me) =
    ((stat ≡ pos 0)
      × (known ≡ true)
      × ((file : Text) × (me.file ≡ some file))
      × ((tool : Text) × (me.rrdtool ≡ some tool))
      × (me.beat ≡ me.interval))
    ⊎ ((stat ≡ negsuc 0) × ((known ≡ false) ⊎ (me.file ≡ none)))

tool-some : (o : Option Text) → (tool : Text) × (tool_or_default o ≡ some tool)
tool-some none = (codes "rrdtool", refl)
tool-some (some t) = (t, refl)

check_data-Outcomes : (me : RrdData) → me.beat ≡ me.interval → Outcomes true (check_data me)
unfolding check_data
check_data-Outcomes me e = elim (Option-cases me.file) [
  | inl h ↦ inr (ap file_stat_of h, inr h)
  | inr (f, h) ↦ inl (ap file_stat_of h, refl, (f, h), tool-some me.rrdtool, e)
]

set_key-known :
    (c : NvConf) (me me' : RrdData)
    → me.beat ≡ me.interval
    → set_key c me ≡ some me'
    → (is_key c.key ≡ true) × (me'.beat ≡ me'.interval)
unfolding set_key
set_key-known c me me' e h = ground arith

set_key-unknown : (c : NvConf) (me : RrdData) → set_key c me ≡ none → is_key c.key ≡ false
unfolding set_key
set_key-unknown c me h = ground arith

known-later : (a b : Bool) (r : ℤ × RrdData) → a ≡ true → Outcomes b r → Outcomes (a && b) r
known-later a b r h o = subst (λ (x : Bool). Outcomes (x && b) r) (sym h) o

read_conf-Outcomes :
    (conf : List NvConf) (me : RrdData)
    → me.beat ≡ me.interval
    → Outcomes (all_keys conf) (read_conf conf me)
unfolding read_conf next_key
read_conf-Outcomes [] me e = check_data-Outcomes me e
read_conf-Outcomes (c ∷ conf) me e = elim (Option-cases (set_key c me)) [
  | inl h ↦
      subst
        (λ (o : Option RrdData). Outcomes (all_keys (c ∷ conf)) (next_key (read_conf conf) me o))
        (sym h) (inr (refl, inl (ap (λ (b : Bool). b && all_keys conf) (set_key-unknown c me h))))
  | inr (me', h) ↦
      let (known, beats) = set_key-known c me me' e h in
      subst
        (λ (o : Option RrdData). Outcomes (all_keys (c ∷ conf)) (next_key (read_conf conf) me o))
        (sym h)
        (known-later (is_key c.key) (all_keys conf) (read_conf conf me') known
          (read_conf-Outcomes conf me' beats))
]

-- `rrd_inst_init` returns 0 or -1. It returns 0 only if each key of the configuration is one of the
-- five and a file is given, and then `file` and `rrdtool` are both set, and the sensor's beat is the
-- interval. It returns -1 only if there is an unknown key or no file.
pub rrd_inst_init-Outcomes : (conf : List NvConf) → Outcomes (all_keys conf) (rrd_inst_init conf)
unfolding rrd_inst_init
rrd_inst_init-Outcomes conf = read_conf-Outcomes conf new_data refl
