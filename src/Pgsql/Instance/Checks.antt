-- ===== src/Pgsql/Instance/Checks.antt =====
-- src/plugins/storage/pgsql.c: when `pgsql_inst_init` accepts a configuration.
use netvizd.Common.{
  ℕ, ◌≤◌, ◌≡◌, ◌≢◌, refl, sym, ap, subst, ◌⊎◌, inl, inr, Bool, true, false, ◌||◌, ◌&&◌, List, [],
  ◌∷◌, Option, none, some, arith, if◌then◌else◌, Option-cases,
}
use netvizd.Common.Int.{ℤ, pos, negsuc, eq_ℤ}
use netvizd.Common.Text.{Text, codes, same_prefix}
use netvizd.Config.{NvConf}
use netvizd.Pgsql.Instance.{
  PgsqlData, new_data, set_key, or_default, check_data, next_key, read_conf, pgsql_inst_init,
}

abbrev pub is_key : Text → Bool
is_key k =
    same_prefix 256 k (codes "host")
    || same_prefix 256 k (codes "port")
    || same_prefix 256 k (codes "user")
    || same_prefix 256 k (codes "pass")
    || same_prefix 256 k (codes "db")
    || same_prefix 256 k (codes "pool_num")
    || same_prefix 256 k (codes "connect_timeout")
    || same_prefix 256 k (codes "retry_timeout")
    || same_prefix 256 k (codes "ssl")

abbrev pub all_keys : List NvConf → Bool
all_keys [] = true
all_keys (c ∷ conf) = is_key c.key && all_keys conf

abbrev pub Given : Option Text → Type 0
Given o = (s : Text) × (o ≡ some s)

-- The instance can connect.
pub record IsComplete (me : PgsqlData) : Type 0 where
  pub host_given : Given me.host
  pub user_given : Given me.user
  pub pass_given : Given me.pass
  pub port_set : me.port ≢ pos 0
  pub pool_set : me.pool_num ≢ pos 0
  pub connect_set : me.ctimeout ≢ pos 0
  pub retry_set : me.rtimeout ≢ pos 0

abbrev pub Accepted : ℤ → ℤ → Type 0
Accepted created stat = ((created ≡ pos 0) × (stat ≡ pos 0)) ⊎ ((created ≢ pos 0) × (stat ≡ pos 1))

abbrev pub Outcomes : ℤ → Bool → ℤ × PgsqlData → Type 0
Outcomes created known (stat, me) =
    ((known ≡ true) × IsComplete me × Accepted created stat)
    ⊎ ((stat ≡ negsuc 0)
        × ((known ≡ false) ⊎ (me.host ≡ none) ⊎ (me.user ≡ none) ⊎ (me.pass ≡ none)))

or_default-set : (n : ℤ) (d : ℕ) → 1 ≤ d → or_default n (pos d) ≢ pos 0
or_default-set n d h e = ground arith

Accepted-of : (created : ℤ) → Accepted created (if eq_ℤ created (pos 0) then pos 0 else pos 1)
Accepted-of created = ground arith

check_data-Outcomes :
    (created : ℤ) (me : PgsqlData) (h u p : Option Text)
    → me.host ≡ h
    → me.user ≡ u
    → me.pass ≡ p
    → Outcomes created true (check_data created h u p me)
unfolding check_data
check_data-Outcomes created me none u p eh eu ep = inr (refl, inr (inl eh))
check_data-Outcomes created me (some h) none p eh eu ep = inr (refl, inr (inr (inl eu)))
check_data-Outcomes created me (some h) (some u) none eh eu ep = inr (refl, inr (inr (inr ep)))
check_data-Outcomes created me (some h) (some u) (some p) eh eu ep = inl (
  refl,
  record {
    host_given = (h, eh);
    user_given = (u, eu);
    pass_given = (p, ep);
    port_set = or_default-set me.port 5432 (omega arith);
    pool_set = or_default-set me.pool_num 10 (omega arith);
    connect_set = or_default-set me.ctimeout 10 (omega arith);
    retry_set = or_default-set me.rtimeout 10 (omega arith);
  },
  Accepted-of created,
)

set_key-known : (c : NvConf) (me me' : PgsqlData) → set_key c me ≡ some me' → is_key c.key ≡ true
unfolding set_key
set_key-known c me me' h = ground arith

set_key-unknown : (c : NvConf) (me : PgsqlData) → set_key c me ≡ none → is_key c.key ≡ false
unfolding set_key
set_key-unknown c me h = ground arith

known-later :
    (created : ℤ) (a b : Bool) (r : ℤ × PgsqlData)
    → a ≡ true
    → Outcomes created b r
    → Outcomes created (a && b) r
known-later created a b r h o = subst (λ (x : Bool). Outcomes created (x && b) r) (sym h) o

read_conf-Outcomes :
    (created : ℤ) (conf : List NvConf) (me : PgsqlData)
    → Outcomes created (all_keys conf) (read_conf created conf me)
unfolding read_conf next_key
read_conf-Outcomes created [] me =
    check_data-Outcomes created me me.host me.user me.pass refl refl refl
read_conf-Outcomes created (c ∷ conf) me =
    let step = λ (o : Option PgsqlData).
      Outcomes created (all_keys (c ∷ conf)) (next_key (read_conf created conf) me o) in
    elim (Option-cases (set_key c me)) [
      | inl h ↦
          subst step (sym h)
            (inr (refl, inl (ap (λ (b : Bool). b && all_keys conf) (set_key-unknown c me h))))
      | inr (me', h) ↦ subst step (sym h) (
          known-later created (is_key c.key) (all_keys conf) (read_conf created conf me')
            (set_key-known c me me' h) (read_conf-Outcomes created conf me'))
    ]

-- `pgsql_inst_init` returns -1 only if there is an unknown key, or the host, the user or the password is
-- missing. Else every key is known, these three are given, the port, the number of connections and the
-- two timeouts are not 0, and it returns 0 or, if the maintenance thread could not be created, 1.
pub pgsql_inst_init-Outcomes :
    (created : ℤ) (conf : List NvConf)
    → Outcomes created (all_keys conf) (pgsql_inst_init created conf)
unfolding pgsql_inst_init
pgsql_inst_init-Outcomes created conf = read_conf-Outcomes created conf new_data
