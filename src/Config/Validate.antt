-- ===== src/Config/Validate.antt =====
-- src/nvconfig.c: `nv_validate_conf`, and `config_init` of src/plugins/config/file.c, which runs before it.
pub mod Tests
use netvizd.Common.{
  ℕ, zero, suc, ◌≡◌, refl, ap, ◌∙◌, ◌≢◌, ◌↔◌, List, [], ◌∷◌, map, Option, none, some, get_elem?,
}
use netvizd.Common.Int.{ℤ, pos, negsuc}
use netvizd.Common.Text.{Text}
use netvizd.Common.Outcome.{Outcome, crash, ok, ◌>>=◌, >>=-eq-ok}
use netvizd.Config.{empty_config, NvConfig, FileConf, Inst, NvDsts, GlobalInst, DataSet}
use netvizd.Config.File.{create_conf, matches}
use netvizd.Config.File.Names.{PointsTo}
use netvizd.Config.File.Instances.{Pairs, InstOk, names_of, ok_injective}
use netvizd.Config.File.DataSets.{DsOk}
use netvizd.Config.File.Integrity.{create_conf-IsLinked}

-- `if (list.next == NULL) stat = -1;`
pub check_list : {A : Type 0} → List A → ℤ → ℤ
check_list [] stat = negsuc 0
check_list (x ∷ xs) stat = stat

unfoldable pub nv_validate_conf : NvConfig → ℤ
unfolding check_list
nv_validate_conf c =
    check_list c.dsts (check_list c.stor (check_list c.auth_p (check_list c.proto_p (pos 0))))

-- The status of `config_init` from that of `create_conf`.
pub init_stat : ℤ → ℤ
init_stat (pos zero) = pos 0
init_stat _ = negsuc 0

-- `config_init`; `parsed` is what `begin_parse` returned and `f` what the parser handed over.
pub config_init : ℤ → FileConf → Outcome (NvConfig × ℤ)
unfolding init_stat
config_init (pos zero) f = do (c, ret) ← create_conf f; ok (c, init_stat ret)
config_init _ f = ok (empty_config, negsuc 0)

check_list-zero :
    {A : Type 0} (xs : List A) (stat : ℤ)
    → (check_list xs stat ≡ pos 0) ↔ ((xs ≢ []) × (stat ≡ pos 0))
unfolding check_list
check_list-zero [] stat = (λ h. cc, λ h. absurd (h.0 refl))
check_list-zero (x ∷ xs) stat = (λ h. (λ e. cc, h), λ h. h.1)

-- The validation returns 0 exactly if there is a protocol plugin, an authentication plugin, a storage
-- instance and a data set.
pub nv_validate_conf-zero :
    (c : NvConfig)
    → (nv_validate_conf c ≡ pos 0)
      ↔ ((c.proto_p ≢ []) × (c.auth_p ≢ []) × (c.stor ≢ []) × (c.dsts ≢ []))
unfolding nv_validate_conf
nv_validate_conf-zero c =
    let d = check_list-zero c.dsts _ in
    let s = check_list-zero c.stor _ in
    let a = check_list-zero c.auth_p _ in
    let p = check_list-zero c.proto_p (pos 0) in
    (
      λ h.
          let (hd, h1) = d.0 h in
          let (hs, h2) = s.0 h1 in let (ha, h3) = a.0 h2 in ((p.0 h3).0, ha, hs, hd),
      λ (hp, ha, hs, hd). d.1 (hd, s.1 (hs, a.1 (ha, p.1 (hp, refl)))),
    )

PointsTo-cons :
    {A : Type 0} (name : A → Text) (want : Text) (xs : List A) (ptr : Option ℕ)
    → PointsTo want (map name xs) ptr
    → xs ≢ []
PointsTo-cons name want [] ptr (i, n, _, at, _) e = cc
PointsTo-cons name want (x ∷ xs) ptr k e = cc

stor_p-cons :
    (c : NvConfig) (fs : List GlobalInst) (cs : List Inst)
    → Pairs (InstOk (names_of c.stor_p)) fs cs
    → cs ≢ []
    → c.stor_p ≢ []
stor_p-cons c fs [] k h = absurd (h refl)
stor_p-cons c [] (i ∷ is) k h = absurd k
stor_p-cons c (f ∷ fs) (i ∷ is) (k, ks) h =
    PointsTo-cons (λ p. p.name) f.p_name c.stor_p i.plug k.plug

sys-cons :
    (c : NvConfig) (fs : List DataSet) (ds : List NvDsts)
    → Pairs (DsOk c) fs ds
    → ds ≢ []
    → c.sys ≢ []
sys-cons c fs [] k h = absurd (h refl)
sys-cons c [] (d ∷ ds) k h = absurd k
sys-cons c (f ∷ fs) (d ∷ ds) (k, ks) h = PointsTo-cons (λ s. s.name) f.system c.sys d.sys k.system

init_stat-zero : (ret : ℤ) → init_stat ret ≡ pos 0 → ret ≡ pos 0
unfolding init_stat
init_stat-zero (pos zero) h = refl
init_stat-zero (pos (suc n)) h = cc
init_stat-zero (negsuc n) h = cc

pub config_init-made :
    (parsed : ℤ) (f : FileConf) (c : NvConfig)
    → config_init parsed f ≡ ok (c, pos 0)
    → create_conf f ≡ ok (c, pos 0)
unfolding config_init
config_init-made (pos zero) f c h =
    let ((c', ret), made, h1) = >>=-eq-ok (create_conf f) _ h in
    let e = ok_injective h1 in
    let same : c' ≡ c = ap (λ (r : NvConfig × ℤ). r.0) e in
    let none_wrong = init_stat-zero ret (ap (λ (r : NvConfig × ℤ). r.1) e) in
    made ∙ ap (λ (d : NvConfig). ok (d, ret)) same ∙ ap (λ (z : ℤ). ok (c, z)) none_wrong
config_init-made (pos (suc n)) f c h = cc
config_init-made (negsuc n) f c h = cc

-- A configuration that `config_init` made without an error and that passes the validation has at least
-- one of each: a protocol, an authentication and a storage plugin, a storage instance, a system and a data
-- set.
pub validated_whole :
    (parsed : ℤ) (f : FileConf) (c : NvConfig)
    → config_init parsed f ≡ ok (c, pos 0)
    → nv_validate_conf c ≡ pos 0
    → ((c.proto_p ≢ []) × (c.auth_p ≢ []) × (c.stor_p ≢ []))
      × ((c.stor ≢ []) × (c.sys ≢ []) × (c.dsts ≢ []))
validated_whole parsed f c made valid =
    let linked = create_conf-IsLinked f c (config_init-made parsed f c made) in
    let (proto, auth, stor, dsts) = (nv_validate_conf-zero c).0 valid in
    (
      (proto, auth, stor_p-cons c f.storages c.stor linked.storages stor),
      (stor, sys-cons c f.data_sets c.dsts linked.data_sets dsts, dsts),
    )
