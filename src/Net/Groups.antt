-- ===== src/Net/Groups.antt =====
-- src/plugins/proto/net.c: the sending loop of a `fetch` against a description by groups of rows.
use mathlib.Core.List.{append-nil}
use netvizd.Common.{
  ℕ, zero, suc, ◌+◌, ◌-◌, ◌≤◌, ◌<◌, ◌≡◌, refl, sym, ap, ◌∙◌, List, [], ◌∷◌, some, arith, length,
  length-append, get_elem?,
}
use netvizd.Common.Int.{ℤ}
use netvizd.Net.{Double, Row, Client, Report, send_rows}
use netvizd.Net.Send.{
  Group, group_rows, rows_of, AllFull, sum_from, at, mid, mid_found, after_report, send_rows-group,
  send_rows-quiet,
}

module _ (D : Double) where
  open D use {Value, zero_value, plus}

  -- A report on the group `g` that starts from the tally `a`: the time of the `t`-th row of the
  -- group, the sum of the values, and the extremes of the last row.
  pub record IsReport (t : ℕ) (a : Value) (g : Group Value) (r : Report Value) : Type 0 where
    pub row : Row Value
    pub found : get_elem? (group_rows g) (t - 1) ≡ some row
    pub time : r.time ≡ row.time
    pub tally : r.tally ≡ sum_from D a (group_rows g)
    pub min : r.min ≡ g.last.min
    pub max : r.max ≡ g.last.max

  -- One report to a group, the first from the tally `a` and the others from zero.
  abbrev pub Reports : ℕ → Value → List (Group Value) → List (Report Value) → Type 0
  Reports t a [] [] = Unit {0}
  Reports t a [] (r ∷ rs) = ⊥
  Reports t a (g ∷ gs) [] = ⊥
  Reports t a (g ∷ gs) (r ∷ rs) = IsReport t a g r × Reports t zero_value gs rs

  -- The tally that is left after the groups and the rows behind them.
  abbrev pub left_over : Value → List (Group Value) → List (Row Value) → Value
  left_over a [] rest = sum_from D a rest
  left_over a (g ∷ gs) rest = left_over zero_value gs rest

  module _ (k t : ℕ) where
    get_elem?-total :
        (i : ℕ) (ds : List (Row Value))
        → i < length ds
        → (d : Row Value) × (get_elem? ds i ≡ some d)
    get_elem?-total i [] h = absurd (omega arith)
    get_elem?-total zero (x ∷ ds) h = (x, refl)
    get_elem?-total (suc i) (x ∷ ds) h = get_elem?-total i ds (omega arith)

    IsReport-of_group :
        (a : Value) (m : ℤ) (g : Group Value)
        → 1 ≤ t
        → t ≤ k
        → length g.front + 1 ≡ k
        → IsReport t a g (record {
          time = mid D k t 1 m (group_rows g);
          tally = sum_from D a (group_rows g);
          min = g.last.min;
          max = g.last.max;
        })
    IsReport-of_group a m g h1 h2 h3 =
        let (d, e) =
          get_elem?-total (t - 1) (group_rows g)
            (omega (arith, length-append g.front (g.last ∷ []))) in
        record {
          row = d;
          found = e;
          time = mid_found D k t 1 (t - 1) m (group_rows g) d e (omega arith);
          tally = refl;
          min = refl;
          max = refl;
        }

    send_rows-end : (c : Client Value) → send_rows D c [] ≡ (c, [])
    unfolding send_rows
    send_rows-end c = refl

    -- From a state at the start of a group, rows in full groups and fewer than `k` further rows give
    -- one report to a group, and leave the sum of the further rows in the tally.
    pub send_rows-Reports :
        (gs : List (Group Value)) (rest : List (Row Value)) (a : Value) (m : ℤ)
        → 1 ≤ t
        → t ≤ k
        → AllFull k gs
        → length rest < k
        → Reports t a gs (send_rows D (at D k t 1 a m) (rows_of gs rest)).1
          × ((send_rows D (at D k t 1 a m) (rows_of gs rest)).0.tally ≡ left_over a gs rest)
    unfolding after_report
    send_rows-Reports [] rest a m h1 h2 full short =
        let e =
          ap (send_rows D (at D k t 1 a m)) (sym (append-nil rest))
          ∙ send_rows-quiet D k t 1 a m rest [] (omega arith) in
        (rw (e, send_rows-end) tt, rw (e, send_rows-end) refl)
    send_rows-Reports (g ∷ gs) rest a m h1 h2 (f, full) short =
        let ih =
          send_rows-Reports gs rest zero_value (mid D k t 1 m (group_rows g)) h1 h2 full short in
        rw (send_rows-group D k t a m g (rows_of gs rest) f)
          ((IsReport-of_group a m g h1 h2 f, ih.0), ih.1)
