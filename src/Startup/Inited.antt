-- ===== src/Startup/Inited.antt =====
-- src/netvizd.c: the loops that initialise the instances.
use netvizd.Common.{arith, ◌≡◌, refl, ap, ◌∙◌, inl, inr, Bool, ◌⊎◌, true, List, [], ◌∷◌, Bool-cases}
use netvizd.Common.Int.{ℤ, pos, eq_ℤ}
use netvizd.Startup.{
  InitCall, null_plug, no_inst_init, init_call, Instance, System, InitEnd, all_inited, init_failed,
  init_crashed, init_instances,
}

-- `inst_init` is not set, and the instance stays as it is; or it returns 0, and sets the two fields.
pub data InitOk {W : Type 0} (i : Instance W) (w : W) (j : Instance W) (w' : W) : Type 0 where
  unset : i.inst_init w ≡ no_inst_init → j ≡ i → w' ≡ w → InitOk i w j w'
  initialised :
      (beat : ℤ) (beatfunc : Bool)
      → i.inst_init w ≡ init_call (pos 0) beat beatfunc w'
      → j ≡ record i { beat = beat; beatfunc = beatfunc }
      → InitOk i w j w'

-- The instances are initialised in turn.
abbrev pub AllInit : {W : Type 0} → List (Instance W) → W → List (Instance W) → W → Type 0
AllInit [] w [] w' = w ≡ w'
AllInit [] w (j ∷ js) w' = ⊥
AllInit (i ∷ is) w [] w' = ⊥
AllInit {W} (i ∷ is) w (j ∷ js) w' = (w1 : W) × InitOk i w j w1 × AllInit is w1 js w'

InitCall-cases :
    {W : Type 0} (o : InitCall W)
    → ((o ≡ null_plug) ⊎ (o ≡ no_inst_init))
      ⊎ ((ret : ℤ) × (beat : ℤ) × (beatfunc : Bool) × (w : W) × (o ≡ init_call ret beat beatfunc w))
InitCall-cases null_plug = inl (inl refl)
InitCall-cases no_inst_init = inl (inr refl)
InitCall-cases (init_call ret beat beatfunc w) = inr (ret, beat, beatfunc, w, refl)

abbrev NotAll : InitEnd → Type 0
NotAll all_inited = ⊥
NotAll end = Unit {0}

not_inited : (end : InitEnd) → NotAll end → end ≡ all_inited → ⊥
not_inited all_inited k e = k
not_inited init_failed k e = cc
not_inited init_crashed k e = cc

pub eq_ℤ-zero : (n : ℤ) → eq_ℤ n (pos 0) ≡ true → n ≡ pos 0
eq_ℤ-zero n h = ground arith

module _ (S : System) where
  open S use {World}

  pub init_instances-AllInit :
      (is : List (Instance World)) (w : World)
      → (init_instances S is w).0.0 ≡ all_inited
      → AllInit is w (init_instances S is w).0.1 (init_instances S is w).1
  unfolding init_instances
  init_instances-AllInit [] w = λ h. refl
  init_instances-AllInit (i ∷ is) w = elim (InitCall-cases (i.inst_init w)) [
    | inl (inl e) ↦ rw (e, init_instances) (λ h. absurd (not_inited init_crashed tt h))
    | inl (inr e) ↦
        rw (e, init_instances) (λ h. (w, unset e refl refl, init_instances-AllInit is w h))
    | inr (ret, beat, beatfunc, w1, e) ↦ elim (Bool-cases (eq_ℤ ret (pos 0))) [
      | inl z ↦
          let zero_ret : ret ≡ pos 0 = eq_ℤ-zero ret z in
          let called = e ∙ ap (λ (r : ℤ). init_call r beat beatfunc w1) zero_ret in
          rw (e, init_instances, z)
            (λ h. (w1, initialised beat beatfunc called refl, init_instances-AllInit is w1 h))
      | inr z ↦ rw (e, init_instances, z) (λ h. absurd (not_inited init_failed tt h))
    ]
  ]
