-- ===== src/Config/File/DataSets.antt =====
-- src/plugins/config/file.c: what the loop over the data sets builds when it raises no error.
use mathlib.Core.List.{append-nil, append_assoc}
use netvizd.Common.{
  ℕ, ◌≡◌, refl, ◌≢◌, sym, ap, subst, ◌∙◌, List, [], ◌∷◌, ◌++◌, map, Option, none, some, length,
}
use netvizd.Common.Int.{ℤ, pos, negsuc}
use netvizd.Common.Text.{Text}
use netvizd.Common.Outcome.{ok, >>=-eq-ok}
use netvizd.Config.{
  name_copy, NvConf, Inst, NvSys, NvDsType, ds_type_none, ds_type_counter, NvDsts, NvConfig,
  DataSet,
}
use netvizd.Config.File.{
  deref, link_sensor, link_storage, type_stat, new_dset, add_data_set, add_data_sets,
}
use netvizd.Config.File.Names.{
  PointsTo, find_named-Found, link_insts-Found, PointsTo-of_Found, core, link_insts-core,
}
use netvizd.Config.File.Instances.{Pairs, inst_names, fold_err-zero, ok_injective}

-- What the loop over the data sets leaves alone.
pub record Stage (c d : NvConfig) : Type 0 where
  pub same_stor_p : d.stor_p ≡ c.stor_p
  pub same_sens_p : d.sens_p ≡ c.sens_p
  pub same_proto_p : d.proto_p ≡ c.proto_p
  pub same_auth_p : d.auth_p ≡ c.auth_p
  pub same_sys : d.sys ≡ c.sys
  pub same_stor : map core d.stor ≡ map core c.stor
  pub same_sens : map core d.sens ≡ map core c.sens

-- A sensor is found if the data set names one.
abbrev pub SensorOk : Option Text → List Text → Option ℕ → Type 0
SensorOk none names ptr = ptr ≡ none
SensorOk (some want) names ptr = PointsTo want names ptr

abbrev pub StorageOk : Option Text → List Text → Option ℕ → Type 0
StorageOk none names ptr = ⊥
StorageOk (some want) names ptr = PointsTo want names ptr

-- A data set has a type, and its references lead to what its block names.
pub record DsOk (c : NvConfig) (f : DataSet) (ds : NvDsts) : Type 0 where
  pub name : ds.name ≡ name_copy f.name
  pub type : ds.type ≡ f.type
  pub typed : ds.type ≢ ds_type_none
  pub sensor : SensorOk f.sensor (inst_names c.sens) ds.sens
  pub storage : StorageOk f.storage (inst_names c.stor) ds.stor
  pub system : PointsTo f.system (map (λ s. s.name) c.sys) ds.sys

names-core : (cs : List Inst) → inst_names cs ≡ map (λ t. t.0) (map core cs)
names-core [] = refl
names-core (c ∷ cs) = ap (◌∷◌ c.name) (names-core cs)

inst_names-eq : (cs ds : List Inst) → map core ds ≡ map core cs → inst_names ds ≡ inst_names cs
inst_names-eq cs ds e =
    names-core ds ∙ ap (map (λ (t : Text × Option ℕ × List NvConf). t.0)) e ∙ sym (names-core cs)

type_stat-zero : (t : NvDsType) (s : ℤ) → type_stat t s ≡ pos 0 → (t ≢ ds_type_none) × (s ≡ pos 0)
unfolding type_stat
type_stat-zero ds_type_none s h = cc
type_stat-zero ds_type_counter s h = (λ e. cc, h)
type_stat-zero _ s h = (λ e. cc, h)

link_sensor-SensorOk :
    (w : Option Text) (d : ℕ) (cs : List Inst)
    → (link_sensor w d cs).err ≡ pos 0
    → SensorOk w (inst_names cs) (link_sensor w d cs).ptr
unfolding link_sensor
link_sensor-SensorOk none d cs z = refl
link_sensor-SensorOk (some want) d cs z =
    PointsTo-of_Found want (inst_names cs) _ (link_insts-Found want d 0 cs none (negsuc 0)) z

link_storage-StorageOk :
    (w : Option Text) (d : ℕ) (cs : List Inst)
    → (link_storage w d cs).err ≡ pos 0
    → StorageOk w (inst_names cs) (link_storage w d cs).ptr
unfolding link_storage
link_storage-StorageOk none d cs z = cc
link_storage-StorageOk (some want) d cs z =
    PointsTo-of_Found want (inst_names cs) _ (link_insts-Found want d 0 cs none (negsuc 0)) z

link_sensor-core :
    (w : Option Text) (d : ℕ) (cs : List Inst) → map core (link_sensor w d cs).insts ≡ map core cs
unfolding link_sensor
link_sensor-core none d cs = refl
link_sensor-core (some want) d cs = link_insts-core want d 0 cs none (negsuc 0)

link_storage-core :
    (w : Option Text) (d : ℕ) (cs : List Inst) → map core (link_storage w d cs).insts ≡ map core cs
unfolding link_storage
link_storage-core none d cs = refl
link_storage-core (some want) d cs = link_insts-core want d 0 cs none (negsuc 0)

-- The outcome of one round that raises no error.
record Added (f : DataSet) (c : NvConfig) (stat : ℤ) (c' : NvConfig) : Type 0 where
  before : stat ≡ pos 0
  ds : NvDsts
  appended : c'.dsts ≡ c.dsts ++ ds ∷ []
  ds_ok : DsOk c f ds
  stage : Stage c c'

add_data_set-Added :
    (f : DataSet) (c : NvConfig) (stat : ℤ) (c' : NvConfig) (stat' : ℤ)
    → add_data_set f c stat ≡ ok (c', stat')
    → stat' ≡ pos 0
    → Added f c stat c'
unfolding add_data_set
add_data_set-Added f c stat c' stat' h z =
    let (desc, got, built) = >>=-eq-ok (deref f.desc) _ h in
    let e = ok_injective built in
    let config = ap (λ (r : NvConfig × ℤ). r.0) e in
    let z1 = fold_err-zero _ _ (ap (λ (r : NvConfig × ℤ). r.1) e ∙ z) in
    let z2 = fold_err-zero _ _ z1.1 in
    let z3 = fold_err-zero _ _ z2.1 in
    let z4 = type_stat-zero f.type stat z3.1 in
    record {
      before = z4.1;
      ds = new_dset f desc c;
      appended = sym (ap (λ (r : NvConfig). r.dsts) config);
      ds_ok = record {
        name = refl;
        type = refl;
        typed = z4.0;
        sensor = link_sensor-SensorOk f.sensor (length c.dsts) c.sens z3.0;
        storage = link_storage-StorageOk f.storage (length c.dsts) c.stor z2.0;
        system =
            PointsTo-of_Found f.system (map (λ s. s.name) c.sys) _
              (find_named-Found (λ s. s.name) f.system 0 c.sys none (negsuc 0)) z1.0;
      };
      stage = record {
        same_stor_p = sym (ap (λ (r : NvConfig). r.stor_p) config);
        same_sens_p = sym (ap (λ (r : NvConfig). r.sens_p) config);
        same_proto_p = sym (ap (λ (r : NvConfig). r.proto_p) config);
        same_auth_p = sym (ap (λ (r : NvConfig). r.auth_p) config);
        same_sys = sym (ap (λ (r : NvConfig). r.sys) config);
        same_stor =
            sym (ap (λ (r : NvConfig). map core r.stor) config)
            ∙ link_storage-core f.storage (length c.dsts) c.stor;
        same_sens =
            sym (ap (λ (r : NvConfig). map core r.sens) config)
            ∙ link_sensor-core f.sensor (length c.dsts) c.sens;
      };
    }

-- The names by which data sets refer do not change.
pub DsOk-back : (c d : NvConfig) (f : DataSet) (ds : NvDsts) → Stage c d → DsOk d f ds → DsOk c f ds
DsOk-back c d f ds st k = record {
  name = k.name;
  type = k.type;
  typed = k.typed;
  sensor =
      subst (λ ns. SensorOk f.sensor ns ds.sens) (inst_names-eq c.sens d.sens st.same_sens)
        k.sensor;
  storage =
      subst (λ ns. StorageOk f.storage ns ds.stor) (inst_names-eq c.stor d.stor st.same_stor)
        k.storage;
  system =
      subst (λ (ys : List NvSys). PointsTo f.system (map (λ s. s.name) ys) ds.sys) st.same_sys
        k.system;
}

pub Pairs-map :
    {A B : Type 0} {R S : A → B → Type 0} (xs : List A) (ys : List B)
    → ((x : A) (y : B) → R x y → S x y)
    → Pairs R xs ys
    → Pairs S xs ys
Pairs-map [] [] g k = tt
Pairs-map [] (y ∷ ys) g k = k
Pairs-map (x ∷ xs) [] g k = k
Pairs-map (x ∷ xs) (y ∷ ys) g (k, ks) = (g x y k, Pairs-map xs ys g ks)

pub Stage-refl : (c : NvConfig) → Stage c c
Stage-refl c = record {
  same_stor_p = refl;
  same_sens_p = refl;
  same_proto_p = refl;
  same_auth_p = refl;
  same_sys = refl;
  same_stor = refl;
  same_sens = refl;
}

pub Stage-trans : (a b c : NvConfig) → Stage a b → Stage b c → Stage a c
Stage-trans a b c s t = record {
  same_stor_p = t.same_stor_p ∙ s.same_stor_p;
  same_sens_p = t.same_sens_p ∙ s.same_sens_p;
  same_proto_p = t.same_proto_p ∙ s.same_proto_p;
  same_auth_p = t.same_auth_p ∙ s.same_auth_p;
  same_sys = t.same_sys ∙ s.same_sys;
  same_stor = t.same_stor ∙ s.same_stor;
  same_sens = t.same_sens ∙ s.same_sens;
}

-- The loop over the data sets: it appends one data set for each block, in order.
pub add_data_sets-Pairs :
    (fs : List DataSet) (c : NvConfig) (stat : ℤ) (c' : NvConfig)
    → add_data_sets fs c stat ≡ ok (c', pos 0)
    → (stat ≡ pos 0)
      × (ds : List NvDsts) × (c'.dsts ≡ c.dsts ++ ds)
      × Pairs (DsOk c) fs ds
      × Stage c c'
unfolding add_data_sets
add_data_sets-Pairs [] c stat c' h =
    let e = ok_injective h in
    (
      ap (λ (r : NvConfig × ℤ). r.1) e,
      [],
      sym (ap (λ (r : NvConfig × ℤ). r.0.dsts) e) ∙ sym (append-nil c.dsts),
      tt,
      subst (Stage c) (ap (λ (r : NvConfig × ℤ). r.0) e) (Stage-refl c),
    )
add_data_sets-Pairs (f ∷ fs) c stat c' h =
    let (r, built, more) = >>=-eq-ok (add_data_set f c stat) _ h in
    let rest = add_data_sets-Pairs fs r.0 r.1 c' more in
    let a = add_data_set-Added f c stat r.0 r.1 built rest.0 in
    (
      a.before,
      a.ds ∷ rest.1,
      rest.2
          ∙ ap (λ (l : List NvDsts). l ++ rest.1) a.appended
          ∙ append_assoc c.dsts (a.ds ∷ []) rest.1,
      (a.ds_ok, Pairs-map fs rest.1 (λ g ds. DsOk-back c r.0 g ds a.stage) rest.3),
      Stage-trans c r.0 c' a.stage rest.4,
    )
