-- ===== src/Heartbeat/Spaced.antt =====
-- src/storage.c and src/sensor.c: how often a heartbeat thread calls its function.
use netvizd.Common.{
  ◌≡◌, refl, Bool, true, false, List, [], ◌∷◌, Option, none, some, arith, Bool-cases, inl, inr, not,
}
use netvizd.Common.Int.{ℤ, pos, ◌+ℤ◌, ◌≤ℤ◌, leb_ℤ, ltb_ℤ, eq_ℤ}
use netvizd.Heartbeat.{rounds, beating, stor_thread, sens_thread}

-- Each call comes at least `beat` seconds after the one before, the first as long after `last`; every
-- call but the last returned 0, and the last did so just if the thread has not stopped.
abbrev pub IsSpaced : ℤ → ℤ → List (ℤ × ℤ) → Bool → Type 0
IsSpaced beat last [] stopped = stopped ≡ false
IsSpaced beat last ((now, ret) ∷ []) stopped =
    (last +ℤ beat ≤ℤ now) × (eq_ℤ ret (pos 0) ≡ not stopped)
IsSpaced beat last ((now, ret) ∷ c ∷ calls) stopped =
    (last +ℤ beat ≤ℤ now) × (eq_ℤ ret (pos 0) ≡ true) × IsSpaced beat now (c ∷ calls) stopped

leb_ℤ→≤ℤ : (a b : ℤ) → leb_ℤ a b ≡ true → a ≤ℤ b
leb_ℤ→≤ℤ a b h = ground arith

IsSpaced-cons :
    (beat last now ret : ℤ) (calls : List (ℤ × ℤ)) (stopped : Bool)
    → last +ℤ beat ≤ℤ now
    → eq_ℤ ret (pos 0) ≡ true
    → IsSpaced beat now calls stopped
    → IsSpaced beat last ((now, ret) ∷ calls) stopped
IsSpaced-cons beat last now ret [] true h z k = cc
IsSpaced-cons beat last now ret [] false h z k = (h, z)
IsSpaced-cons beat last now ret (c ∷ calls) stopped h z k = (h, z, k)

module _ {W : Type 0} (beat : ℤ) (f : W → ℤ × W) where
  rounds-IsSpaced :
      (last : ℤ) (clock : List ℤ) (w : W)
      → IsSpaced beat last (rounds beat f last clock w).called (rounds beat f last clock w).stopped
  unfolding rounds
  rounds-IsSpaced last [] w = refl
  rounds-IsSpaced last (now ∷ clock) w = elim (Bool-cases (leb_ℤ (last +ℤ beat) now)) [
    | inr e ↦ rw e (rounds-IsSpaced last clock w)
    | inl e ↦ elim (Bool-cases (eq_ℤ (f w).0 (pos 0))) [
      | inr z ↦ rw (e, z) (leb_ℤ→≤ℤ (last +ℤ beat) now e, z)
      | inl z ↦
          rw (e, z)
            (IsSpaced-cons beat last now (f w).0 _ _ (leb_ℤ→≤ℤ (last +ℤ beat) now e) z
              (rounds-IsSpaced now clock (f w).1))
    ]
  ]

beating-IsSpaced :
    {W : Type 0} (beat : ℤ) (f : Option (W → ℤ × W)) (last : ℤ) (clock : List ℤ) (w : W)
    → IsSpaced beat last (beating beat f last clock w).called (beating beat f last clock w).stopped
unfolding beating
beating-IsSpaced beat none last clock w = refl
beating-IsSpaced beat (some f) last clock w = elim (Bool-cases (ltb_ℤ (pos 0) beat)) [
  | inl e ↦ rw e (rounds-IsSpaced beat f last clock w)
  | inr e ↦ rw e refl
]

-- Whatever the clock says and the plugin's function returns, each call that a heartbeat thread makes
-- comes at least `beat` seconds after the call before; the first comes that long after the start for a
-- storage instance, and at the time `beat` or later for a sensor instance. Every call but the last
-- returned 0, and the last did so just if the thread has not stopped.
pub thread-IsSpaced :
    {W : Type 0} (beat : ℤ) (f : Option (W → ℤ × W)) (began : ℤ) (clock : List ℤ) (w : W)
    → IsSpaced beat began
        (stor_thread beat f began clock w).called
        (stor_thread beat f began clock w).stopped
      × IsSpaced beat
          (pos 0)
          (sens_thread beat f clock w).called
          (sens_thread beat f clock w).stopped
unfolding stor_thread sens_thread
thread-IsSpaced beat f began clock w =
    (beating-IsSpaced beat f began clock w, beating-IsSpaced beat f (pos 0) clock w)
