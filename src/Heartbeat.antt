-- ===== src/Heartbeat.antt =====
-- src/storage.c and src/sensor.c: the heartbeat threads of the instances. The answers of `time(NULL)` are a list of numbers of seconds, in order; the functions of the plugins are
-- parameters over a world of their own.
pub mod Spaced
mod Tests
use netvizd.Common.{
  ℕ, ◌≡◌, Bool, true, false, List, [], ◌∷◌, Option, none, some, if◌then◌else◌, not,
}
use netvizd.Common.Int.{ℤ, pos, ◌+ℤ◌, leb_ℤ, ltb_ℤ, eq_ℤ}
use netvizd.Common.Text.{Text}

-- What a thread has done: the times at which it called `beatfunc`, in order, with what each call
-- returned; whether it has stopped; and the world.
pub record Beats (W : Type 0) : Type 0 where
  pub called : List (ℤ × ℤ)
  pub stopped : Bool
  pub world : W

module _ {W : Type 0} (beat : ℤ) (beatfunc : W → ℤ × W) where
  abbrev pub add_call : ℤ → ℤ → Beats W → Beats W
  add_call now ret b = record b { called = (now, ret) ∷ b.called }

  -- The rounds of the loop, for an instance that has a `beatfunc` and a positive `beat`: a call if it is
  -- time for one, and the end if the last call failed.
  pub rounds : ℤ → List ℤ → W → Beats W
  rounds last [] w = record { called = []; stopped = false; world = w }
  rounds last (now ∷ clock) w =
      let (ret, w') = beatfunc w in
      let rest = rounds now clock w' in
      let quiet = rounds last clock w in
      if leb_ℤ (last +ℤ beat) now
      then (if eq_ℤ ret (pos 0)
          then add_call now ret rest
          else record { called = (now, ret) ∷ []; stopped = true; world = w' })
      else quiet

-- An instance without a `beatfunc`, or with a `beat` that is not positive, does nothing in its rounds.
pub beating : {W : Type 0} → ℤ → Option (W → ℤ × W) → ℤ → List ℤ → W → Beats W
unfolding rounds
beating beat none last clock w = record { called = []; stopped = false; world = w }
beating beat (some f) last clock w =
    if ltb_ℤ (pos 0) beat
    then rounds beat f last clock w
    else record { called = []; stopped = false; world = w }

-- The first answer of the clock is the time from which a storage instance counts.
pub stor_thread : {W : Type 0} → ℤ → Option (W → ℤ × W) → ℤ → List ℤ → W → Beats W
unfolding beating
stor_thread beat f began clock w = beating beat f began clock w

pub sens_thread : {W : Type 0} → ℤ → Option (W → ℤ × W) → List ℤ → W → Beats W
unfolding beating
sens_thread beat f clock w = beating beat f (pos 0) clock w
