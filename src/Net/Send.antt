-- ===== src/Net/Send.antt =====
-- src/plugins/proto/net.c: the rounds of the sending loop, one by one and over the rows of a group.
use mathlib.Core.List.{append_assoc}
use netvizd.Common.{
  ℕ, zero, suc, ◌+◌, ◌≤◌, ◌<◌, ◌≡◌, refl, sym, ap, ◌∙◌, List, [], ◌∷◌, ◌++◌, none, some, arith,
  ◌==◌, if◌then◌else◌, length, get_elem?,
}
use netvizd.Common.Int.{ℤ, pos, ◌+ℤ◌}
use netvizd.Net.{Double, Row, Client, Report, send_row, send_rows}

-- The rows of one report: those before the last, and the last.
pub record Group (V : Type 0) : Type 0 where
  pub front : List (Row V)
  pub last : Row V

module _ {V : Type 0} where
  abbrev pub group_rows : Group V → List (Row V)
  group_rows g = g.front ++ g.last ∷ []

  -- The rows of some groups, and further rows.
  abbrev pub rows_of : List (Group V) → List (Row V) → List (Row V)
  rows_of [] rest = rest
  rows_of (g ∷ gs) rest = group_rows g ++ rows_of gs rest

  abbrev pub AllFull : ℕ → List (Group V) → Type 0
  AllFull k [] = Unit {0}
  AllFull k (g ∷ gs) = (length g.front + 1 ≡ k) × AllFull k gs

module _ (D : Double) where
  open D use {Value, zero_value, plus}

  abbrev pub sum_from : Value → List (Row Value) → Value
  sum_from a [] = a
  sum_from a (d ∷ ds) = sum_from (plus a d.value) ds

  module _ (k t : ℕ) where
    abbrev pub at : ℕ → Value → ℤ → Client Value
    at n a m = record { skip = pos k; skipt = pos t; skip_cnt = pos n; tally = a; midtime = m }

    unfoldable pub mid : ℕ → ℤ → List (Row Value) → ℤ
    mid n m [] = m
    mid n m (d ∷ ds) = mid (n + 1) (if n == t then d.time else m) ds

    mid_past : (n : ℕ) (m : ℤ) (ds : List (Row Value)) → t < n → mid n m ds ≡ m
    unfolding mid
    mid_past n m [] h = refl
    mid_past n m (d ∷ ds) h =
        mid_past (n + 1) (if n == t then d.time else m) ds (omega arith) ∙ ground arith

    pub mid_found :
        (n i : ℕ) (m : ℤ) (ds : List (Row Value)) (d : Row Value)
        → get_elem? ds i ≡ some d
        → n + i ≡ t
        → mid n m ds ≡ d.time
    unfolding mid
    mid_found n i m [] d e h = cc
    mid_found n zero m (x ∷ ds) d e h =
        mid_past (n + 1) (if n == t then x.time else m) ds (omega arith) ∙ ground arith
    mid_found n (suc i) m (x ∷ ds) d e h =
        mid_found (n + 1) i (if n == t then x.time else m) ds d e (omega arith)

    send_row-quiet :
        (n : ℕ) (a : Value) (m : ℤ) (d : Row Value)
        → n < k
        → send_row D (at n a m) d
          ≡ (at (n + 1) (plus a d.value) (if n == t then d.time else m), none)
    unfolding send_row ◌+ℤ◌
    send_row-quiet n a m d h = ground arith

    send_row-report :
        (a : Value) (m : ℤ) (d : Row Value)
        → send_row D (at k a m) d ≡ (
          at 1 zero_value (if k == t then d.time else m),
          some (record {
            time = if k == t then d.time else m;
            tally = plus a d.value;
            min = d.min;
            max = d.max;
          }),
        )
    unfolding send_row
    send_row-report a m d = ground arith

    -- Up to `k - n` rows report nothing.
    pub send_rows-quiet :
        (n : ℕ) (a : Value) (m : ℤ) (ds rest : List (Row Value))
        → n + length ds ≤ k
        → send_rows D (at n a m) (ds ++ rest)
          ≡ send_rows D (at (n + length ds) (sum_from a ds) (mid n m ds)) rest
    unfolding send_rows mid
    send_rows-quiet n a m [] rest h = ap (λ (j : ℕ). send_rows D (at j a m) rest) (omega arith)
    send_rows-quiet n a m (d ∷ ds) rest h = rw (send_row-quiet n a m d (omega arith)) (
        send_rows-quiet (n + 1) (plus a d.value) (if n == t then d.time else m) ds rest
          (omega arith)
        ∙ ap
            (λ (j : ℕ).
              send_rows D
                (at j (sum_from (plus a d.value) ds)
                  (mid (n + 1) (if n == t then d.time else m) ds))
                rest)
            (omega arith))

    sum_from-snoc :
        (a : Value) (ds : List (Row Value)) (d : Row Value)
        → sum_from a (ds ++ d ∷ []) ≡ plus (sum_from a ds) d.value
    sum_from-snoc a [] d = refl
    sum_from-snoc a (x ∷ ds) d = sum_from-snoc (plus a x.value) ds d

    mid-snoc :
        (n : ℕ) (m : ℤ) (ds : List (Row Value)) (d : Row Value)
        → mid n m (ds ++ d ∷ []) ≡ (if n + length ds == t then d.time else mid n m ds)
    unfolding mid
    mid-snoc n m [] d = ground arith
    mid-snoc n m (x ∷ ds) d =
        mid-snoc (n + 1) (if n == t then x.time else m) ds d
        ∙ ap (λ (j : ℕ). if j == t then d.time else mid (n + 1) (if n == t then x.time else m) ds)
            (omega arith)

    -- The state and the reports after a report of time `m`, tally `a` and last row `d`.
    unfoldable pub after_report :
        ℤ → Value → Row Value → List (Row Value) → Client Value × List (Report Value)
    after_report m a d rest =
        let more = send_rows D (at 1 zero_value m) rest in
        (more.0, record { time = m; tally = a; min = d.min; max = d.max } ∷ more.1)

    send_rows-last :
        (a : Value) (m : ℤ) (d : Row Value) (rest : List (Row Value))
        → send_rows D (at k a m) (d ∷ rest)
          ≡ after_report (if k == t then d.time else m) (plus a d.value) d rest
    unfolding send_rows after_report
    send_rows-last a m d rest = rw (send_row-report a m d) refl

    -- A full group: one report, and the state is as at the start with an empty tally.
    pub send_rows-group :
        (a : Value) (m : ℤ) (g : Group Value) (rest : List (Row Value))
        → length g.front + 1 ≡ k
        → send_rows D (at 1 a m) (group_rows g ++ rest)
          ≡ after_report (mid 1 m (group_rows g)) (sum_from a (group_rows g)) g.last rest
    send_rows-group a m g rest h =
        let e : 1 + length g.front ≡ k = omega arith in
        ap (send_rows D (at 1 a m)) (append_assoc g.front (g.last ∷ []) rest)
        ∙ (send_rows-quiet 1 a m g.front (g.last ∷ rest) (omega arith)
            ∙ (ap
                  (λ (j : ℕ).
                    send_rows D (at j (sum_from a g.front) (mid 1 m g.front)) (g.last ∷ rest))
                  e
                ∙ (send_rows-last (sum_from a g.front) (mid 1 m g.front) g.last rest
                    ∙ (ap
                          (λ (j : ℕ).
                            after_report (if j == t then g.last.time else mid 1 m g.front)
                              (plus (sum_from a g.front) g.last.value) g.last rest)
                          (sym e)
                        ∙ (ap
                              (λ (z : ℤ).
                                after_report z (plus (sum_from a g.front) g.last.value) g.last rest)
                              (sym (mid-snoc 1 m g.front g.last))
                            ∙ ap
                                (λ (v : Value). after_report (mid 1 m (group_rows g)) v g.last rest)
                                (sym (sum_from-snoc a g.front g.last)))))))
