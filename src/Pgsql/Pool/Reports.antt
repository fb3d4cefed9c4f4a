-- ===== src/Pgsql/Pool/Reports.antt =====
-- src/plugins/storage/pgsql_pool.c: `pgsql_pool_logthread`, and how often it warns. The thread reads
-- the number of bad connections without a lock: what it finds in its rounds is a list.
use netvizd.Common.{
  ℕ, ◌+◌, ◌*◌, ◌≤◌, ◌≡◌, Bool, true, List, [], ◌∷◌, ◌++◌, arith, leb, if◌then◌else◌,
}
use netvizd.Common.Int.{ℤ, pos, eq_ℤ, ltb_ℤ}

-- A call of `pgsql_pool_status` at one of the two levels.
pub data Report : Type 0 where
  info warn : Report

-- `bad_num`, and `quit`, as a round finds them.
pub record Sight : Type 0 where
  pub bad_num : ℤ
  pub quit : Bool

abbrev pub changed : ℤ → ℤ → Bool
changed bad last = if ltb_ℤ bad last then true else ltb_ℤ last bad

-- `badcount` after the first half of a round, before its test against 180.
abbrev pub next_count : ℤ → ℤ → ℕ → ℕ
next_count bad last n = if eq_ℤ bad (pos 0) then 0 else if changed bad last then n + 1 else n

-- The rounds, from `lastbad` and `badcount` on.
pub log_rounds : List Sight → ℤ → ℕ → List Report
log_rounds [] last n = []
log_rounds (s ∷ ss) last n =
    let m = next_count s.bad_num last n in
    let rest = log_rounds ss s.bad_num (if leb 180 m then 0 else m) in
    (if changed s.bad_num last then info ∷ [] else [])
    ++ (if leb 180 m then warn ∷ [] else [])
    ++ (if s.quit then info ∷ [] else rest)

pub pgsql_pool_logthread : ℤ → List Sight → List Report
unfolding log_rounds
pgsql_pool_logthread bad ss = info ∷ log_rounds ss bad 0

abbrev pub count_warnings : List Report → ℕ
count_warnings [] = 0
count_warnings (info ∷ rs) = count_warnings rs
count_warnings (warn ∷ rs) = count_warnings rs + 1

-- In how many rounds the number of bad connections is not what it was in the round before.
abbrev pub count_changes : ℤ → List Sight → ℕ
count_changes last [] = 0
count_changes last (s ∷ ss) = (if changed s.bad_num last then 1 else 0) + count_changes s.bad_num ss

count_warnings-append :
    (rs us : List Report) → count_warnings (rs ++ us) ≡ count_warnings rs + count_warnings us
count_warnings-append [] us = omega arith
count_warnings-append (info ∷ rs) us = count_warnings-append rs us
count_warnings-append (warn ∷ rs) us = omega (arith, count_warnings-append rs us)

-- The reports of one round.
round-warnings :
    (c w q : Bool) (rest : List Report)
    → count_warnings (
        (if c then info ∷ [] else [])
        ++ (if w then warn ∷ [] else [])
        ++ (if q then info ∷ [] else rest))
      ≤ (if w then 1 else 0) + count_warnings rest
round-warnings c w q rest = ground arith

next_count-le :
    (bad last : ℤ) (n : ℕ) → next_count bad last n ≤ n + (if changed bad last then 1 else 0)
next_count-le bad last n = ground arith

-- A warning takes 180 off the count.
count-left : (m : ℕ) → 180 * (if leb 180 m then 1 else 0) + (if leb 180 m then 0 else m) ≤ m
count-left m = ground arith

log_rounds-warnings :
    (ss : List Sight) (last : ℤ) (n : ℕ)
    → 180 * count_warnings (log_rounds ss last n) ≤ n + count_changes last ss
unfolding log_rounds
log_rounds-warnings [] last n = omega arith
log_rounds-warnings (s ∷ ss) last n =
    let m = next_count s.bad_num last n in
    let n' = if leb 180 m then 0 else m in
    let here =
      round-warnings (changed s.bad_num last) (leb 180 m) s.quit (log_rounds ss s.bad_num n') in
    let rest = log_rounds-warnings ss s.bad_num n' in
    omega (arith, here, rest, next_count-le s.bad_num last n, count-left m)

-- A warning takes 180 changes of the number of bad connections: the thread gives at most one for every
-- 180 rounds that find a number other than the one before. While the number stays what it is, it never
-- warns, however long connections are bad.
pub pgsql_pool_logthread-warnings :
    (bad : ℤ) (ss : List Sight)
    → 180 * count_warnings (pgsql_pool_logthread bad ss) ≤ count_changes bad ss
unfolding pgsql_pool_logthread
pgsql_pool_logthread-warnings bad ss = omega (arith, log_rounds-warnings ss bad 0)
