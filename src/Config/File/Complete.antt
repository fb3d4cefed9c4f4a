-- ===== src/Config/File/Complete.antt =====
-- src/plugins/config/file.c: status 0 is returned whenever the file gives no reason for an error, and
-- the process dies on a `NULL` description or value list.
use netvizd.Common.{◌≡◌, refl, ◌↔◌, List, [], ◌∷◌, Option, none, some}
use netvizd.Common.Int.{ℤ, pos}
use netvizd.Common.Text.{Text}
use netvizd.Common.Outcome.{ok, >>=-eq-ok}
use netvizd.Config.{
  Plug, Inst, NvSys, NvConfig, GlobalInst, Values, DataSet, SystemBlock, FileConf, empty_config,
}
use netvizd.Config.File.{
  deref, new_inst, add_insts, add_systems, add_data_set, add_data_sets, add_plugins, add_stors,
  add_sens, create_conf,
}

-- Every storage or sensor block has an item.
abbrev pub AllValues : List GlobalInst → Type 0
AllValues [] = Unit {0}
AllValues (f ∷ fs) = ((vs : List Values) × (f.values ≡ some vs)) × AllValues fs

abbrev pub AllDescribed : List SystemBlock → Type 0
AllDescribed [] = Unit {0}
AllDescribed (f ∷ fs) = ((t : Text) × (f.desc ≡ some t)) × AllDescribed fs

abbrev pub SetsDescribed : List DataSet → Type 0
SetsDescribed [] = Unit {0}
SetsDescribed (f ∷ fs) = ((t : Text) × (f.desc ≡ some t)) × SetsDescribed fs

add_insts-total :
    (plugs : List Plug) (fs : List GlobalInst) (out : List Inst) (stat : ℤ)
    → AllValues fs
    → (r : List Inst × ℤ) × (add_insts plugs fs out stat ≡ ok r)
unfolding add_insts new_inst
add_insts-total plugs [] out stat k = ((out, stat), refl)
add_insts-total plugs (f ∷ fs) out stat ((vs, e), ks) = rw e (add_insts-total plugs fs _ _ ks)

add_systems-total :
    (fs : List SystemBlock) (out : List NvSys)
    → AllDescribed fs
    → (r : List NvSys) × (add_systems fs out ≡ ok r)
unfolding add_systems
add_systems-total [] out k = (out, refl)
add_systems-total (f ∷ fs) out ((t, e), ks) = rw e (add_systems-total fs _ ks)

add_data_sets-total :
    (fs : List DataSet) (c : NvConfig) (stat : ℤ)
    → SetsDescribed fs
    → (r : NvConfig × ℤ) × (add_data_sets fs c stat ≡ ok r)
unfolding add_data_sets add_data_set
add_data_sets-total [] c stat k = ((c, stat), refl)
add_data_sets-total (f ∷ fs) c stat ((t, e), ks) = rw e (add_data_sets-total fs _ _ ks)

-- Nothing that `create_conf` reads through is `NULL`.
pub record IsComplete (f : FileConf) : Type 0 where
  pub storages : AllValues f.storages
  pub sensors : AllValues f.sensors
  pub systems : AllDescribed f.systems
  pub data_sets : SetsDescribed f.data_sets

pub deref-some : {A : Type 0} (o : Option A) (a : A) → deref o ≡ ok a → o ≡ some a
deref-some none a e = cc
deref-some (some b) a e = cc

add_insts-AllValues :
    (plugs : List Plug) (fs : List GlobalInst) (out : List Inst) (stat : ℤ) (r : List Inst × ℤ)
    → add_insts plugs fs out stat ≡ ok r
    → AllValues fs
unfolding add_insts new_inst
add_insts-AllValues plugs [] out stat r h = tt
add_insts-AllValues plugs (f ∷ fs) out stat r h =
    let (made, built, more) = >>=-eq-ok (new_inst plugs f) _ h in
    let (vs, got, same) = >>=-eq-ok (deref f.values) _ built in
    ((vs, deref-some f.values vs got), add_insts-AllValues plugs fs _ _ r more)

add_systems-AllDescribed :
    (fs : List SystemBlock) (out r : List NvSys) → add_systems fs out ≡ ok r → AllDescribed fs
unfolding add_systems
add_systems-AllDescribed [] out r h = tt
add_systems-AllDescribed (f ∷ fs) out r h =
    let (t, got, more) = >>=-eq-ok (deref f.desc) _ h in
    ((t, deref-some f.desc t got), add_systems-AllDescribed fs _ r more)

add_data_sets-SetsDescribed :
    (fs : List DataSet) (c : NvConfig) (stat : ℤ) (r : NvConfig × ℤ)
    → add_data_sets fs c stat ≡ ok r
    → SetsDescribed fs
unfolding add_data_sets add_data_set
add_data_sets-SetsDescribed [] c stat r h = tt
add_data_sets-SetsDescribed (f ∷ fs) c stat r h =
    let (made, built, more) = >>=-eq-ok (add_data_set f c stat) _ h in
    let (t, got, same) = >>=-eq-ok (deref f.desc) _ built in
    ((t, deref-some f.desc t got), add_data_sets-SetsDescribed fs _ _ r more)

create_conf-total : (f : FileConf) → IsComplete f → (r : NvConfig × ℤ) × (create_conf f ≡ ok r)
unfolding create_conf add_stors add_sens
create_conf-total f k =
    let plugs = add_plugins f.plugins empty_config (pos 0) in
    let (stors, e1) = add_insts-total plugs.0.stor_p f.storages [] plugs.1 k.storages in
    let (sensors, e2) = add_insts-total plugs.0.sens_p f.sensors [] stors.1 k.sensors in
    let (systems, e3) = add_systems-total f.systems [] k.systems in
    rw (e1, e2, e3) (add_data_sets-total f.data_sets _ sensors.1 k.data_sets)

IsComplete-of_ok : (f : FileConf) (r : NvConfig × ℤ) → create_conf f ≡ ok r → IsComplete f
unfolding create_conf add_stors add_sens
IsComplete-of_ok f r h =
    let plugs = add_plugins f.plugins empty_config (pos 0) in
    let (stors, h1, r1) = >>=-eq-ok (add_stors plugs.0.stor_p f.storages plugs.1) _ h in
    let (sensors, h2, r2) = >>=-eq-ok (add_sens plugs.0.sens_p f.sensors stors.1) _ r1 in
    let (systems, h3, r3) = >>=-eq-ok (add_systems f.systems []) _ r2 in
    record {
      storages = add_insts-AllValues plugs.0.stor_p f.storages [] plugs.1 stors h1;
      sensors = add_insts-AllValues plugs.0.sens_p f.sensors [] stors.1 sensors h2;
      systems = add_systems-AllDescribed f.systems [] systems h3;
      data_sets =
          add_data_sets-SetsDescribed f.data_sets
            (record plugs.0 { stor = stors.0; sens = sensors.0; sys = systems }) sensors.1 r r3;
    }

-- `create_conf` returns exactly if every storage and every sensor block has an item and every system
-- and every data set a description; else it reads through `NULL` and the process dies.
pub create_conf-IsComplete :
    (f : FileConf) → ((r : NvConfig × ℤ) × (create_conf f ≡ ok r)) ↔ IsComplete f
create_conf-IsComplete f = (λ t. IsComplete-of_ok f t.0 t.1, create_conf-total f)
