-- ===== src/Heartbeat/Tests.antt =====
-- src/storage.c and src/sensor.c: a heartbeat thread with a function that fails at its third call.
use netvizd.Common.{ℕ, zero, suc, ◌≡◌, refl, List, [], ◌∷◌, some, true}
use netvizd.Common.Int.{ℤ, pos, negsuc, ◌+ℤ◌}
use netvizd.Heartbeat.{stor_thread, sens_thread}
use netvizd.Heartbeat.Spaced.{IsSpaced, thread-IsSpaced}

abbrev third_fails : ℕ → ℤ × ℕ
third_fails (suc (suc zero)) = (negsuc 0, 3)
third_fails n = (pos 0, suc n)

abbrev clock : List ℤ
clock = pos 100 ∷ pos 101 ∷ pos 110 ∷ pos 119 ∷ pos 121 ∷ pos 140 ∷ pos 160 ∷ []

stor_thread-stops : stor_thread (pos 10) (some third_fails) (pos 100) clock 0 ≡ record {
  called = (pos 110, pos 0) ∷ (pos 121, pos 0) ∷ (pos 140, negsuc 0) ∷ [];
  stopped = true;
  world = 3;
}
unfolding stor_thread ◌+ℤ◌
stor_thread-stops = refl

thread-IsSpaced_example :
    IsSpaced
      (pos 10)
      (pos 100)
      (stor_thread (pos 10) (some third_fails) (pos 100) clock 0).called
      (stor_thread (pos 10) (some third_fails) (pos 100) clock 0).stopped
    × IsSpaced
        (pos 10)
        (pos 0)
        (sens_thread (pos 10) (some third_fails) clock 0).called
        (sens_thread (pos 10) (some third_fails) clock 0).stopped
thread-IsSpaced_example = thread-IsSpaced (pos 10) (some third_fails) (pos 100) clock 0
