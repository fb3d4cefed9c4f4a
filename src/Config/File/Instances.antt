-- ===== src/Config/File/Instances.antt =====
-- src/plugins/config/file.c: what the loops over the instances build when they raise no error.
use mathlib.Core.List.{append-nil, append_assoc}
use netvizd.Common.{zero, suc, ◌≡◌, refl, sym, ap, subst, ◌∙◌, List, [], ◌∷◌, ◌++◌, map, none}
use netvizd.Common.Int.{ℤ, pos, negsuc}
use netvizd.Common.Text.{Text}
use netvizd.Common.Outcome.{ok, >>=-eq-ok}
use netvizd.Config.{name_copy, Plug, Inst, GlobalInst}
use netvizd.Config.File.{fold_err, deref, new_inst, add_insts}
use netvizd.Config.File.Names.{PointsTo, find_named-Found, PointsTo-of_Found}

-- Two lists agree element by element.
abbrev pub Pairs : {A B : Type 0} → (A → B → Type 0) → List A → List B → Type 0
Pairs R [] [] = Unit {0}
Pairs R [] (y ∷ ys) = ⊥
Pairs R (x ∷ xs) [] = ⊥
Pairs R (x ∷ xs) (y ∷ ys) = R x y × Pairs R xs ys

abbrev pub names_of : List Plug → List Text
names_of = map λ p. p.name

abbrev pub inst_names : List Inst → List Text
inst_names = map λ c. c.name

-- An instance is the copy of its block, and its plugin is one that the block names.
pub record InstOk (plugs : List Text) (f : GlobalInst) (c : Inst) : Type 0 where
  pub name : c.name ≡ name_copy f.name
  pub plug : PointsTo f.p_name plugs c.plug

pub fold_err-zero : (e s : ℤ) → fold_err e s ≡ pos 0 → (e ≡ pos 0) × (s ≡ pos 0)
fold_err-zero (pos zero) s h = (refl, h)
fold_err-zero (pos (suc n)) s h = cc
fold_err-zero (negsuc n) s h = cc

pub ok_injective : {A : Type 0} {a b : A} → ok a ≡ ok b → a ≡ b
ok_injective h = cc

new_inst-InstOk :
    (plugs : List Plug) (f : GlobalInst) (c : Inst) (err : ℤ)
    → new_inst plugs f ≡ ok (c, err)
    → err ≡ pos 0
    → InstOk (names_of plugs) f c
unfolding new_inst
new_inst-InstOk plugs f c err h z =
    let (vs, got, built) = >>=-eq-ok (deref f.values) _ h in
    let e = ok_injective built in
    let search = find_named-Found (λ p. p.name) f.p_name 0 plugs none (negsuc 0) in
    record {
      name = sym (ap (λ (r : Inst × ℤ). r.0.name) e);
      plug =
          subst (PointsTo f.p_name (names_of plugs)) (ap (λ (r : Inst × ℤ). r.0.plug) e) (
            PointsTo-of_Found f.p_name (names_of plugs) _ search
              (ap (λ (r : Inst × ℤ). r.1) e ∙ z));
    }

-- The loop over the instances: it appends one instance for each block, in order.
pub add_insts-Pairs :
    (plugs : List Plug) (fs : List GlobalInst) (out : List Inst) (stat : ℤ) (out' : List Inst)
    → add_insts plugs fs out stat ≡ ok (out', pos 0)
    → (stat ≡ pos 0) × (cs : List Inst) × (out' ≡ out ++ cs) × Pairs (InstOk (names_of plugs)) fs cs
unfolding add_insts
add_insts-Pairs plugs [] out stat out' h =
    let e = ok_injective h in
    (
      ap (λ (r : List Inst × ℤ). r.1) e,
      [],
      sym (ap (λ (r : List Inst × ℤ). r.0) e) ∙ sym (append-nil out),
      tt,
    )
add_insts-Pairs plugs (f ∷ fs) out stat out' h =
    let (r, built, more) = >>=-eq-ok (new_inst plugs f) _ h in
    let rest = add_insts-Pairs plugs fs (out ++ r.0 ∷ []) (fold_err r.1 stat) out' more in
    let z = fold_err-zero r.1 stat rest.0 in
    (
      z.1,
      r.0 ∷ rest.1,
      rest.2 ∙ append_assoc out (r.0 ∷ []) rest.1,
      (new_inst-InstOk plugs f r.0 r.1 built z.0, rest.3),
    )
