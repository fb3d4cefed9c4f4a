-- ===== src/Net/Resolution.antt =====
-- src/plugins/proto/net.c: a `fetch` from the answer of the storage plugin on, for rows that stand a
-- positive number of seconds apart.
use mathlib.Core.List.{append_assoc}
use netvizd.Common.{
  ℕ, zero, suc, ◌-◌, ◌≤◌, ◌<◌, ◌≡◌, refl, sym, ap, subst, ◌∙◌, ◌↔◌, inl, inr, List, [], ◌∷◌, ◌++◌,
  arith, Bool-cases, ltb, length, length-take, length-drop, take, drop, take-append-drop,
}
use netvizd.Common.Int.{ℤ, pos, ◌-ℤ◌}
use netvizd.Common.Outcome.{Outcome, crash, ok}
use netvizd.Net.{
  Double, Row, Client, Report, calc_skip, calc_skipt, set_skip, send_rows, send_result,
}
use netvizd.Net.Send.{Group, rows_of, AllFull, at}
use netvizd.Net.Groups.{Reports, left_over, send_rows-Reports}
use netvizd.Net.Skip.{calc_skipt-within, IsSkip, calc_skip-IsSkip, calc_skip-crash, IsSkip-positive}

module _ {V : Type 0} where
  -- Rows as full groups of `k` and fewer than `k` further rows.
  pub record Grouped (k : ℕ) (rows : List (Row V)) : Type 0 where
    pub groups : List (Group V)
    pub rest : List (Row V)
    pub same : rows_of groups rest ≡ rows
    pub full : AllFull k groups
    pub short : length rest < k

  cons_group :
      (k : ℕ) (rows : List (Row V)) (d : Row V) (more : List (Row V))
      → 1 ≤ k
      → k ≤ length rows
      → drop (k - 1) rows ≡ d ∷ more
      → Grouped k more
      → Grouped k rows
  cons_group k rows d more h1 h2 e g = record {
    groups = record { front = take (k - 1) rows; last = d } ∷ g.groups;
    rest = g.rest;
    same =
        append_assoc (take (k - 1) rows) (d ∷ []) (rows_of g.groups g.rest)
        ∙ (ap (λ (l : List (Row V)). take (k - 1) rows ++ d ∷ l) g.same
            ∙ (ap (λ (l : List (Row V)). take (k - 1) rows ++ l) (sym e)
                ∙ take-append-drop (k - 1) rows));
    full = (omega (arith, length-take (k - 1) rows), g.full);
    short = g.short;
  }

  drop-total :
      (n : ℕ) (rows : List (Row V))
      → n < length rows
      → (d : Row V) × (more : List (Row V)) × (drop n rows ≡ d ∷ more)
  drop-total n [] h = absurd (omega arith)
  drop-total zero (d ∷ rows) h = (d, rows, refl)
  drop-total (suc n) (d ∷ rows) h = drop-total n rows (omega arith)

  group_by : (n k : ℕ) (rows : List (Row V)) → 1 ≤ k → length rows ≤ n → Grouped k rows
  group_by zero k rows h1 h2 = record {
    groups = [];
    rest = rows;
    same = refl;
    full = tt;
    short = omega arith;
  }
  group_by (suc n) k rows h1 h2 = elim (Bool-cases (ltb (length rows) k)) [
    | inl e ↦ record { groups = []; rest = rows; same = refl; full = tt; short = ground arith }
    | inr e ↦
        let le : k ≤ length rows = ground arith in
        let (d, more, e') = drop-total (k - 1) rows (omega arith) in
        let size : length (drop (k - 1) rows) ≡ length (d ∷ more) = ap length e' in
        cons_group k rows d more h1 le e'
          (group_by n k more h1 (omega (arith, size, length-drop (k - 1) rows)))
  ]

module _ (D : Double) where
  open D use {Value}

  -- The replies to a `fetch` of `r` minutes, from rows that begin `diff` seconds apart, for a client
  -- whose tally is `a`: the rows in groups of `k` and a rest, a report to each group, and the sum of the
  -- rest in the tally.
  pub record IsAnswer (r diff : ℕ) (rows : List (Row Value)) (a : Value)
      (sent : Client Value × List (Report Value)) : Type 0 where
    pub size : ℕ
    pub middle : ℕ
    pub fits : IsSkip r diff size
    pub middle_positive : 1 ≤ middle
    pub middle_within : middle ≤ size
    pub grouped : Grouped size rows
    pub reports : Reports D middle a grouped.groups sent.1
    pub tally : sent.0.tally ≡ left_over D a grouped.groups grouped.rest

  set_skip-two :
      (r k : ℕ) (d1 d2 : Row Value) (ds : List (Row Value)) (c : Client Value)
      → calc_skip (pos r) (d2.time -ℤ d1.time) ≡ ok (pos k)
      → set_skip D (pos r) (d1 ∷ d2 ∷ ds) c
        ≡ ok (record c { skip = pos k; skipt = calc_skipt (pos k) })
  unfolding set_skip
  set_skip-two r k d1 d2 ds c h = rw h refl

  send_result-sent :
      (r k t : ℕ) (d1 d2 : Row Value) (ds : List (Row Value)) (c : Client Value)
      → calc_skip (pos r) (d2.time -ℤ d1.time) ≡ ok (pos k)
      → calc_skipt (pos k) ≡ pos t
      → send_result D (pos r) (d1 ∷ d2 ∷ ds) c
        ≡ ok (send_rows D (at D k t 1 c.tally c.midtime) (d1 ∷ d2 ∷ ds))
  unfolding send_result
  send_result-sent r k t d1 d2 ds c h1 h2 = rw (set_skip-two r k d1 d2 ds c h1, h2) refl

  -- A `fetch` of `r` minutes on at least two rows, the first two a positive number of seconds apart,
  -- returns: the rows fall into groups of a size `k` that the resolution gives (1 if `r` minutes are not
  -- longer than the distance of the rows, else the number of rows that fit into `r` minutes) and fewer
  -- than `k` further rows. Each group makes one report, in order, with the sum of the group's values, the
  -- extremes of its last row, and the time of one of its rows, the same in each group. The first report
  -- also counts the tally that the client had before, and the further rows stay in the tally.
  pub send_result-IsAnswer :
      (r diff : ℕ) (d1 d2 : Row Value) (ds : List (Row Value)) (c : Client Value)
      → d2.time -ℤ d1.time ≡ pos diff
      → 1 ≤ diff
      → (sent : Client Value × List (Report Value)) × (send_result D (pos r) (d1 ∷ d2 ∷ ds) c
          ≡ ok sent)
        × IsAnswer r diff (d1 ∷ d2 ∷ ds) c.tally sent
  send_result-IsAnswer r diff d1 d2 ds c apart h =
      let (k, skip, fits) = calc_skip-IsSkip r diff h in
      let one = IsSkip-positive r diff k fits in
      let (t, middle, t1, t2) = calc_skipt-within k one in
      let g = group_by (length (d1 ∷ d2 ∷ ds)) k (d1 ∷ d2 ∷ ds) one (omega arith) in
      let made = send_rows-Reports D k t g.groups g.rest c.tally c.midtime t1 t2 g.full g.short in
      (
        send_rows D (at D k t 1 c.tally c.midtime) (d1 ∷ d2 ∷ ds),
        send_result-sent r k t d1 d2 ds c (ap (calc_skip (pos r)) apart ∙ skip) middle,
        record {
          size = k;
          middle = t;
          fits = fits;
          middle_positive = t1;
          middle_within = t2;
          grouped = g;
          reports =
              subst
                (λ (rows : List (Row Value)).
                  Reports D t c.tally g.groups (send_rows D (at D k t 1 c.tally c.midtime) rows).1)
                g.same made.0;
          tally =
              ap
                (λ (rows : List (Row Value)).
                  (send_rows D (at D k t 1 c.tally c.midtime) rows).0.tally)
                (sym g.same)
              ∙ made.1;
        },
      )

  set_skip-crash :
      (res : ℤ) (d1 d2 : Row Value) (ds : List (Row Value)) (c : Client Value) (o : Outcome ℤ)
      → calc_skip res (d2.time -ℤ d1.time) ≡ o
      → (send_result D res (d1 ∷ d2 ∷ ds) c ≡ crash) ↔ (o ≡ crash)
  unfolding send_result set_skip
  set_skip-crash res d1 d2 ds c crash e = rw e (λ _. refl, λ _. refl)
  set_skip-crash res d1 d2 ds c (ok k) e = rw e (λ h. cc, λ h. cc)

  -- A `fetch` of a resolution that is not negative, on two rows or more, kills the process exactly if the
  -- first two rows have the same time and the resolution is positive: it divides by zero.
  pub send_result-crash :
      (r : ℕ) (d1 d2 : Row Value) (ds : List (Row Value)) (c : Client Value)
      → (send_result D (pos r) (d1 ∷ d2 ∷ ds) c ≡ crash) ↔ ((d2.time -ℤ d1.time ≡ pos 0) × (1 ≤ r))
  send_result-crash r d1 d2 ds c =
      let both = set_skip-crash (pos r) d1 d2 ds c (calc_skip (pos r) (d2.time -ℤ d1.time)) refl in
      let why = calc_skip-crash r (d2.time -ℤ d1.time) in
      (λ h. why.0 (both.0 h), λ h. both.1 (why.1 h))
