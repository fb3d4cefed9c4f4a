-- ===== src/Config/File/Integrity.antt =====
-- src/plugins/config/file.c: the references of a configuration that is built without an error.
use netvizd.Common.{
  ◌≡◌, refl, ◌≢◌, sym, ap, subst, ◌∙◌, List, [], ◌∷◌, ◌++◌, map, Option, none, some, arith,
}
use netvizd.Common.Int.{ℤ, pos}
use netvizd.Common.Text.{Text}
use netvizd.Common.Outcome.{ok, >>=-eq-ok}
use netvizd.Config.{
  Plug, Inst, NvSys, NvDsts, NvConfig, GlobalInst, FileConf, empty_config, PType, p_type_none,
  p_type_storage, p_type_sensor, p_type_proto, p_type_auth, GlobalPlugin,
}
use netvizd.Config.File.{
  add_stors, add_sens, add_systems, add_data_sets, create_conf, add_plugins, place_plugin,
  file_stat, new_plug,
}
use netvizd.Config.File.Names.{PointsTo, core}
use netvizd.Config.File.Instances.{Pairs, names_of, InstOk, add_insts-Pairs}
use netvizd.Config.File.DataSets.{Stage, DsOk, DsOk-back, Pairs-map, add_data_sets-Pairs}

-- A plugin block that names a file and a type.
pub record PluginOk (f : GlobalPlugin) : Type 0 where
  pub filed : f.file ≢ none
  pub typed : f.type ≢ p_type_none

abbrev pub AllPlugins : List GlobalPlugin → Type 0
AllPlugins [] = Unit {0}
AllPlugins (f ∷ fs) = PluginOk f × AllPlugins fs

-- A configuration whose references all lead to what the blocks of the file name.
pub record IsLinked (f : FileConf) (c : NvConfig) : Type 0 where
  pub plugins : AllPlugins f.plugins
  pub storages : Pairs (InstOk (names_of c.stor_p)) f.storages c.stor
  pub sensors : Pairs (InstOk (names_of c.sens_p)) f.sensors c.sens
  pub data_sets : Pairs (DsOk c) f.data_sets c.dsts

place_plugin-ok :
    (f : GlobalPlugin) (t : PType) (file : Option Text) (p : Plug) (c : NvConfig) (stat : ℤ)
    → f.type ≡ t
    → f.file ≡ file
    → (place_plugin t p c (file_stat file stat)).1 ≡ pos 0
    → (stat ≡ pos 0) × PluginOk f
unfolding place_plugin file_stat
place_plugin-ok f p_type_none file p c stat et ef z = cc
place_plugin-ok f p_type_storage none p c stat et ef z = cc
place_plugin-ok f p_type_sensor none p c stat et ef z = cc
place_plugin-ok f p_type_proto none p c stat et ef z = cc
place_plugin-ok f p_type_auth none p c stat et ef z = cc
place_plugin-ok f p_type_storage (some x) p c stat et ef z =
    (z, record { filed = λ e. cc; typed = λ e. cc })
place_plugin-ok f p_type_sensor (some x) p c stat et ef z =
    (z, record { filed = λ e. cc; typed = λ e. cc })
place_plugin-ok f p_type_proto (some x) p c stat et ef z =
    (z, record { filed = λ e. cc; typed = λ e. cc })
place_plugin-ok f p_type_auth (some x) p c stat et ef z =
    (z, record { filed = λ e. cc; typed = λ e. cc })

place_plugin-dsts :
    (t : PType) (p : Plug) (c : NvConfig) (stat : ℤ) → (place_plugin t p c stat).0.dsts ≡ c.dsts
unfolding place_plugin
place_plugin-dsts p_type_none p c stat = refl
place_plugin-dsts _ p c stat = refl

add_plugins-dsts :
    (fs : List GlobalPlugin) (c : NvConfig) (stat : ℤ) → (add_plugins fs c stat).0.dsts ≡ c.dsts
unfolding add_plugins
add_plugins-dsts [] c stat = refl
add_plugins-dsts (f ∷ fs) c stat =
    add_plugins-dsts fs _ _ ∙ place_plugin-dsts f.type (new_plug f) c (file_stat f.file stat)

add_plugins-ok :
    (fs : List GlobalPlugin) (c : NvConfig) (stat : ℤ)
    → (add_plugins fs c stat).1 ≡ pos 0
    → (stat ≡ pos 0) × AllPlugins fs
unfolding add_plugins
add_plugins-ok [] c stat z = (z, tt)
add_plugins-ok (f ∷ fs) c stat z =
    let placed = place_plugin f.type (new_plug f) c (file_stat f.file stat) in
    let rest = add_plugins-ok fs placed.0 placed.1 z in
    let here = place_plugin-ok f f.type f.file (new_plug f) c stat refl refl rest.0 in
    (here.0, (here.1, rest.1))

InstOk-core :
    (ps : List Text) (fs : List GlobalInst) (cs ds : List Inst)
    → map core ds ≡ map core cs
    → Pairs (InstOk ps) fs cs
    → Pairs (InstOk ps) fs ds
InstOk-core ps [] [] [] e k = tt
InstOk-core ps [] [] (d ∷ ds) e k = cc
InstOk-core ps [] (c ∷ cs) ds e k = absurd k
InstOk-core ps (f ∷ fs) [] ds e k = absurd k
InstOk-core ps (f ∷ fs) (c ∷ cs) [] e k = cc
InstOk-core ps (f ∷ fs) (c ∷ cs) (d ∷ ds) e (k, ks) = (
  record {
    name = ground (arith, e, k.name);
    plug = subst (PointsTo f.p_name ps) (ground (arith, e)) k.plug;
  },
  InstOk-core ps fs cs ds (ground (arith, e)) ks,
)

Stage-sym : (c d : NvConfig) → Stage c d → Stage d c
Stage-sym c d s = record {
  same_stor_p = sym s.same_stor_p;
  same_sens_p = sym s.same_sens_p;
  same_proto_p = sym s.same_proto_p;
  same_auth_p = sym s.same_auth_p;
  same_sys = sym s.same_sys;
  same_stor = sym s.same_stor;
  same_sens = sym s.same_sens;
}

module _ (f : FileConf) (stors sensors : List Inst × ℤ) (systems : List NvSys) (c : NvConfig) where
  plugs : NvConfig × ℤ
  plugs = add_plugins f.plugins empty_config (pos 0)

  before_sets : NvConfig
  before_sets = record plugs.0 { stor = stors.0; sens = sensors.0; sys = systems }

  IsLinked-of_loops :
      add_stors plugs.0.stor_p f.storages plugs.1 ≡ ok stors
      → add_sens plugs.0.sens_p f.sensors stors.1 ≡ ok sensors
      → add_data_sets f.data_sets before_sets sensors.1 ≡ ok (c, pos 0)
      → IsLinked f c
  unfolding add_stors add_sens before_sets plugs
  IsLinked-of_loops h1 h2 h3 =
      let (z2, ds, eds, oks, stage) = add_data_sets-Pairs f.data_sets before_sets sensors.1 c h3 in
      let (z1, ss, ess, sens_ok) =
        add_insts-Pairs plugs.0.sens_p f.sensors [] stors.1 sensors.0
          (h2 ∙ ap (λ (z : ℤ). ok (sensors.0, z)) z2) in
      let (z0, cs, ecs, stor_ok) =
        add_insts-Pairs plugs.0.stor_p f.storages [] plugs.1 stors.0
          (h1 ∙ ap (λ (z : ℤ). ok (stors.0, z)) z1) in
      let all : c.dsts ≡ ds =
        eds ∙ ap (λ (l : List NvDsts). l ++ ds) (add_plugins-dsts f.plugins empty_config (pos 0)) in
      record {
        plugins = (add_plugins-ok f.plugins empty_config (pos 0) z0).1;
        storages =
            subst (λ ps. Pairs (InstOk (names_of ps)) f.storages c.stor) (sym stage.same_stor_p)
              (InstOk-core (names_of plugs.0.stor_p) f.storages cs c.stor
                (stage.same_stor ∙ ap (map core) ecs) stor_ok);
        sensors =
            subst (λ ps. Pairs (InstOk (names_of ps)) f.sensors c.sens) (sym stage.same_sens_p)
              (InstOk-core (names_of plugs.0.sens_p) f.sensors ss c.sens
                (stage.same_sens ∙ ap (map core) ess) sens_ok);
        data_sets = subst (Pairs (DsOk c) f.data_sets) (sym all) (
            Pairs-map f.data_sets ds
              (λ g d. DsOk-back c before_sets g d (Stage-sym before_sets c stage)) oks);
      }

-- A configuration that `create_conf` builds with status 0 has every reference in place: each plugin
-- block has a file and a type; the storage and sensor instances are the blocks of the file in order,
-- each with a plugin whose name matches; the data sets are those of the file in order, each with a
-- type, a storage instance, a system and, if it names one, a sensor, whose names match.
pub create_conf-IsLinked :
    (f : FileConf) (c : NvConfig) → create_conf f ≡ ok (c, pos 0) → IsLinked f c
unfolding create_conf plugs before_sets
create_conf-IsLinked f c h =
    let (stors, h1, r1) = >>=-eq-ok _ _ h in
    let (sensors, h2, r2) = >>=-eq-ok _ _ r1 in
    let (systems, h3, r3) = >>=-eq-ok (add_systems f.systems []) _ r2 in
    IsLinked-of_loops f stors sensors systems c h1 h2 r3
