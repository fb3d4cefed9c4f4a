-- ===== src/Config/File/Members.antt =====
-- src/plugins/config/file.c: the lists of data sets that the instances keep.
use netvizd.Common.{
  ℕ, ◌+◌, ◌<◌, ◌≡◌, sym, ap, subst, Bool, true, false, List, [], ◌∷◌, ◌++◌, Option, none, some,
  arith, if◌then◌else◌, length, length-append,
}
use netvizd.Common.Int.{ℤ, pos, negsuc}
use netvizd.Common.Text.{Text}
use netvizd.Common.Outcome.{ok, >>=-eq-ok}
use netvizd.Config.{Plug, Inst, NvConfig, GlobalInst, DataSet, FileConf, empty_config}
use netvizd.Config.File.{
  matches, deref, fold_err, new_inst, add_insts, add_stors, add_sens, add_plugins, add_systems,
  link_insts, link_sensor, new_dset, add_data_set, add_data_sets, create_conf,
}
use netvizd.Config.File.Instances.{ok_injective}

-- Positions in a list of `n` elements.
abbrev pub AllBelow : ℕ → List ℕ → Type 0
AllBelow n [] = Unit {0}
AllBelow n (i ∷ is) = (i < n) × AllBelow n is

abbrev pub InstsBelow : ℕ → List Inst → Type 0
InstsBelow n [] = Unit {0}
InstsBelow n (c ∷ cs) = AllBelow n c.dsets × InstsBelow n cs

AllBelow-suc : (n : ℕ) (is : List ℕ) → AllBelow n is → AllBelow (n + 1) is
AllBelow-suc n [] k = tt
AllBelow-suc n (i ∷ is) (h, k) = (omega arith, AllBelow-suc n is k)

AllBelow-snoc : (n : ℕ) (is : List ℕ) → AllBelow n is → AllBelow (n + 1) (is ++ n ∷ [])
AllBelow-snoc n [] k = (omega arith, tt)
AllBelow-snoc n (i ∷ is) (h, k) = (omega arith, AllBelow-snoc n is k)

InstsBelow-suc : (n : ℕ) (cs : List Inst) → InstsBelow n cs → InstsBelow (n + 1) cs
InstsBelow-suc n [] k = tt
InstsBelow-suc n (c ∷ cs) (h, k) = (AllBelow-suc n c.dsets h, InstsBelow-suc n cs k)

InstsBelow-snoc :
    (n : ℕ) (cs : List Inst) (c : Inst)
    → InstsBelow n cs
    → AllBelow n c.dsets
    → InstsBelow n (cs ++ c ∷ [])
InstsBelow-snoc n [] c k h = (h, tt)
InstsBelow-snoc n (x ∷ cs) c (h0, k) h = (h0, InstsBelow-snoc n cs c k h)

linked-AllBelow :
    (hit : Bool) (d : ℕ) (c : Inst)
    → AllBelow d c.dsets
    → AllBelow (d + 1) (if hit then record c { dsets = c.dsets ++ d ∷ [] } else c).dsets
linked-AllBelow true d c k = AllBelow-snoc d c.dsets k
linked-AllBelow false d c k = AllBelow-suc d c.dsets k

link_insts-InstsBelow :
    (want : Text) (d i : ℕ) (cs : List Inst) (ptr : Option ℕ) (err : ℤ)
    → InstsBelow d cs
    → InstsBelow (d + 1) (link_insts want d i cs ptr err).insts
unfolding link_insts
link_insts-InstsBelow want d i [] ptr err k = tt
link_insts-InstsBelow want d i (c ∷ cs) ptr err (h, k) =
    (linked-AllBelow (matches want c.name) d c h, link_insts-InstsBelow want d (i + 1) cs _ _ k)

link_sensor-InstsBelow :
    (want : Option Text) (d : ℕ) (cs : List Inst)
    → InstsBelow d cs
    → InstsBelow (d + 1) (link_sensor want d cs).insts
unfolding link_sensor
link_sensor-InstsBelow none d cs k = InstsBelow-suc d cs k
link_sensor-InstsBelow (some want) d cs k = link_insts-InstsBelow want d 0 cs none (negsuc 0) k

add_data_set-InstsBelow :
    (f : DataSet) (c : NvConfig) (stat : ℤ) (r : NvConfig × ℤ)
    → add_data_set f c stat ≡ ok r
    → InstsBelow (length c.dsts) c.sens
    → InstsBelow (length r.0.dsts) r.0.sens
unfolding add_data_set
add_data_set-InstsBelow f c stat r h k =
    let (desc, got, built) = >>=-eq-ok (deref f.desc) _ h in
    subst (λ (s : NvConfig × ℤ). InstsBelow (length s.0.dsts) s.0.sens) (ok_injective built)
      (subst (λ (n : ℕ). InstsBelow n (link_sensor f.sensor (length c.dsts) c.sens).insts)
        (sym (length-append c.dsts (new_dset f desc c ∷ [])))
        (link_sensor-InstsBelow f.sensor (length c.dsts) c.sens k))

add_data_sets-InstsBelow :
    (fs : List DataSet) (c : NvConfig) (stat : ℤ) (r : NvConfig × ℤ)
    → add_data_sets fs c stat ≡ ok r
    → InstsBelow (length c.dsts) c.sens
    → InstsBelow (length r.0.dsts) r.0.sens
unfolding add_data_sets
add_data_sets-InstsBelow [] c stat r h k =
    subst (λ (s : NvConfig × ℤ). InstsBelow (length s.0.dsts) s.0.sens) (ok_injective h) k
add_data_sets-InstsBelow (f ∷ fs) c stat r h k =
    let ((c', stat'), made, more) = >>=-eq-ok (add_data_set f c stat) _ h in
    add_data_sets-InstsBelow fs c' stat' r more
      (add_data_set-InstsBelow f c stat (c', stat') made k)

new_inst-dsets :
    (plugs : List Plug) (f : GlobalInst) (r : Inst × ℤ) → new_inst plugs f ≡ ok r → r.0.dsets ≡ []
unfolding new_inst
new_inst-dsets plugs f r h =
    let (vs, got, built) = >>=-eq-ok (deref f.values) _ h in
    ap (λ (s : Inst × ℤ). s.0.dsets) (sym (ok_injective built))

add_insts-InstsBelow :
    (n : ℕ) (plugs : List Plug) (fs : List GlobalInst) (out : List Inst) (stat : ℤ)
    (r : List Inst × ℤ)
    → add_insts plugs fs out stat ≡ ok r
    → InstsBelow n out
    → InstsBelow n r.0
unfolding add_insts
add_insts-InstsBelow n plugs [] out stat r h k =
    subst (λ (s : List Inst × ℤ). InstsBelow n s.0) (ok_injective h) k
add_insts-InstsBelow n plugs (f ∷ fs) out stat r h k =
    let ((inst, err), made, more) = >>=-eq-ok (new_inst plugs f) _ h in
    add_insts-InstsBelow n plugs fs (out ++ inst ∷ []) (fold_err err stat) r more (
      InstsBelow-snoc n out inst k
        (subst (AllBelow n) (sym (new_inst-dsets plugs f (inst, err) made)) tt))

-- Every position on the list of a sensor instance is that of a data set.
pub create_conf-InstsBelow :
    (f : FileConf) (r : NvConfig × ℤ) → create_conf f ≡ ok r → InstsBelow (length r.0.dsts) r.0.sens
unfolding create_conf add_sens
create_conf-InstsBelow f r h =
    let plugs = add_plugins f.plugins empty_config (pos 0) in
    let (stors, h1, r1) = >>=-eq-ok (add_stors plugs.0.stor_p f.storages plugs.1) _ h in
    let (sensors, h2, r2) = >>=-eq-ok (add_sens plugs.0.sens_p f.sensors stors.1) _ r1 in
    let (systems, h3, r3) = >>=-eq-ok (add_systems f.systems []) _ r2 in
    add_data_sets-InstsBelow f.data_sets
      (record plugs.0 { stor = stors.0; sens = sensors.0; sys = systems }) sensors.1 r r3
      (add_insts-InstsBelow (length plugs.0.dsts) plugs.0.sens_p f.sensors [] stors.1 sensors h2 tt)
