-- ===== src/Net/Skip.antt =====
-- src/plugins/proto/net.c: the numbers that a `fetch` computes from its first two rows.
use native.Mathlib.Nat.{div-mul-le_self, lt-div-mul-add, le-div_iff_mul-le}
use netvizd.Common.{
  ℕ, zero, suc, ◌+◌, ◌*◌, ◌/◌, ◌≤◌, ◌<◌, ◌≡◌, refl, ◌↔◌, ◌⊎◌, inl, inr, arith, leb, Bool-cases,
}
use netvizd.Common.Int.{ℤ, pos, negsuc, ◌+ℤ◌, ◌*ℤ◌, quot}
use netvizd.Common.Outcome.{crash, ok}
use netvizd.Net.{calc_skip, calc_skipt}

-- A report's row lies within the group of a report, for every size of the group.
pub calc_skipt-within : (k : ℕ) → 1 ≤ k → (t : ℕ) × (calc_skipt (pos k) ≡ pos t) × (1 ≤ t) × (t ≤ k)
unfolding calc_skipt quot ◌+ℤ◌
calc_skipt-within zero h = absurd (omega arith)
calc_skipt-within (suc zero) h = (1, refl, omega arith, omega arith)
calc_skipt-within (suc (suc zero)) h = (1, refl, omega arith, omega arith)
calc_skipt-within (suc (suc (suc n))) h = ((n + 3) / 2 + 1, ground arith, omega arith, omega arith)

times_60 : (r : ℕ) → pos r *ℤ pos 60 ≡ pos (r * 60)
unfolding ◌*ℤ◌
times_60 r = ground arith

-- The size of a group is the least, 1, or the greatest that `res` minutes of rows fill.
pub IsSkip : ℕ → ℕ → ℕ → Type 0
IsSkip r diff k =
    ((k ≡ 1) × (r * 60 ≤ diff)) ⊎ ((1 ≤ k) × (k * diff ≤ r * 60) × (r * 60 < k * diff + diff))

calc_skip-one : (r diff : ℕ) → r * 60 ≤ diff → calc_skip (pos r) (pos diff) ≡ ok (pos 1)
unfolding calc_skip
calc_skip-one r diff h = rw (times_60 r) (ground arith)

calc_skip-many :
    (r diff : ℕ)
    → 1 ≤ diff
    → diff < r * 60
    → calc_skip (pos r) (pos diff) ≡ ok (pos (r * 60 / diff))
unfolding calc_skip quot
calc_skip-many r diff h1 h2 = rw (times_60 r) (ground arith)

many-IsSkip : (r diff : ℕ) → 1 ≤ diff → diff < r * 60 → IsSkip r diff (r * 60 / diff)
unfolding IsSkip
many-IsSkip r diff h1 h2 = inr (
  (le-div_iff_mul-le {k = diff} {x = 1} {y = r * 60} h1).1 (omega arith),
  div-mul-le_self (r * 60) diff,
  lt-div-mul-add h1,
)

pub calc_skip-IsSkip :
    (r diff : ℕ)
    → 1 ≤ diff
    → (k : ℕ) × (calc_skip (pos r) (pos diff) ≡ ok (pos k)) × IsSkip r diff k
unfolding IsSkip
calc_skip-IsSkip r diff h = elim (Bool-cases (leb (r * 60) diff)) [
  | inl e ↦ let le : r * 60 ≤ diff = ground arith in (1, calc_skip-one r diff le, inl (refl, le))
  | inr e ↦
      let lt : diff < r * 60 = ground arith in
      (r * 60 / diff, calc_skip-many r diff h lt, many-IsSkip r diff h lt)
]

-- Two rows of the same time: a positive resolution divides by zero.
pub calc_skip-crash : (r : ℕ) (z : ℤ) → (calc_skip (pos r) z ≡ crash) ↔ ((z ≡ pos 0) × (1 ≤ r))
unfolding calc_skip
calc_skip-crash r (pos zero) = rw (times_60 r) (ground arith)
calc_skip-crash r (pos (suc n)) = rw (times_60 r) (ground arith)
calc_skip-crash r (negsuc n) = rw (times_60 r) (ground arith)

pub IsSkip-positive : (r diff k : ℕ) → IsSkip r diff k → 1 ≤ k
unfolding IsSkip
IsSkip-positive r diff k (inl (e, h)) = omega arith
IsSkip-positive r diff k (inr (h, h2, h3)) = h
