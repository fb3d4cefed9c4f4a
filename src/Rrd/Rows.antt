-- ===== src/Rrd/Rows.antt =====
-- src/plugins/sensor/rrd.c: what the rows of a command's output submit.
use netvizd.Common.{
  ℕ, zero, suc, ◌+◌, ◌-◌, ◌≤◌, ◌<◌, ◌≡◌, refl, sym, ap, subst, ◌∙◌, Bool-cases, inl, inr, tests,
  List, [], ◌∷◌, Option, none, some, arith, ltb, length, drop,
}
use netvizd.Common.Int.{ℤ, negsuc}
use netvizd.Common.Text.{Text, until_nul, atoi}
use netvizd.Config.{NvDsts}
use netvizd.Rrd.{words, scan, Progress, Outside, submit_word, read_row}
use netvizd.Rrd.Columns.{
  known, column_of, at_time, reading_of, scan-line, add_reading, readings, last_time,
}

module _ {V : Type 0} (O : Outside V) (atof : Text → V) (print_int : ℤ → Text) (rrdtool file : Text)
    (start column : ℤ) (d : NvDsts) where
  open O use {World, stor_submit_ts_data}

  abbrev pub submit_readings : List (ℤ × Text) → World → World
  submit_readings [] w = w
  submit_readings ((t, word) ∷ rs) w = submit_readings rs (stor_submit_ts_data d t (atof word) w)

  abbrev row : Text → Progress World → Progress World
  row = read_row O atof print_int rrdtool file start column d

  abbrev word_in : Progress World → ℤ × Option Text → Progress World
  word_in = submit_word O atof print_int rrdtool file start column d

  -- The lines `ls` have been read from `p` on: the first two rows of all say nothing.
  pub record AreRead (ls : List Text) (p q : Progress World) : Type 0 where
    pub rows : q.row ≡ p.row + length ls
    pub last : q.valid_vtime ≡ last_time (readings column (drop (2 - p.row) ls)) p.valid_vtime
    pub submitted : q.world ≡ submit_readings (readings column (drop (2 - p.row) ls)) p.world

  -- The same for a row of the table.
  record IsAdded (o : Option (ℤ × Text)) (p q : Progress World) : Type 0 where
    row_added : q.row ≡ p.row + 1
    last_added : q.valid_vtime ≡ last_time (add_reading o []) p.valid_vtime
    world_added : q.world ≡ submit_readings (add_reading o []) p.world

  word_in-IsAdded :
      (t : ℤ) (o : Option Text) (p : Progress World)
      → IsAdded (at_time t o) p (word_in (record p { row = p.row + 1 }) (t, o))
  unfolding submit_word
  word_in-IsAdded t none p = record { row_added = refl; last_added = refl; world_added = refl }
  word_in-IsAdded t (some w) p = record { row_added = refl; last_added = refl; world_added = refl }

  words-IsAdded :
      (ws : List Text) (p : Progress World)
      → IsAdded
          (reading_of column ws)
          p
          (word_in (record p { row = p.row + 1 }) (scan column (negsuc 0) ws p.vtime))
  unfolding submit_word scan
  words-IsAdded [] p = record { row_added = refl; last_added = refl; world_added = refl }
  words-IsAdded (t ∷ ws) p =
      subst
        (λ (s : ℤ × Option Text).
          IsAdded (reading_of column (t ∷ ws)) p (word_in (record p { row = p.row + 1 }) s))
        (sym (scan-line column t ws p.vtime))
        (word_in-IsAdded (atoi t) (known (column_of column ws)) p)

  row-table :
      (l : Text) (p : Progress World)
      → 2 ≤ p.row
      → row l p
        ≡ word_in
            (record p { row = p.row + 1 })
            (scan column (negsuc 0) (words (until_nul l)) p.vtime)
  unfolding read_row
  row-table l p h = ground arith

  row-header : (l : Text) (p : Progress World) → p.row < 2 → row l p ≡ record p { row = p.row + 1 }
  unfolding read_row
  row-header l p h = ground arith

  abbrev pub all_rows : List Text → Progress World → Progress World
  all_rows [] p = p
  all_rows (l ∷ ls) p = all_rows ls (row l p)

  drop-header :
      (n : ℕ) (l : Text) (ls : List Text) → n < 2 → drop (2 - n) (l ∷ ls) ≡ drop (2 - (n + 1)) ls
  drop-header zero l ls h = refl
  drop-header (suc zero) l ls h = refl
  drop-header (suc (suc n)) l ls h = absurd (omega arith)

  drop-nil : (n : ℕ) → drop {A = Text} n [] ≡ []
  drop-nil zero = refl
  drop-nil (suc n) = refl

  drop-zero : (n : ℕ) (ls : List Text) → n ≡ 0 → drop n ls ≡ ls
  drop-zero zero ls h = refl
  drop-zero (suc n) ls h = absurd (omega arith)

  drop-none : (n : ℕ) (ls : List Text) → 2 ≤ n → drop (2 - n) ls ≡ ls
  drop-none n ls h = drop-zero (2 - n) ls (omega arith)

  last_time-add :
      (o : Option (ℤ × Text)) (rs : List (ℤ × Text)) (t : ℤ)
      → last_time (add_reading o rs) t ≡ last_time rs (last_time (add_reading o []) t)
  last_time-add none rs t = refl
  last_time-add (some (u, w)) rs t = refl

  submit-add :
      (o : Option (ℤ × Text)) (rs : List (ℤ × Text)) (w : World)
      → submit_readings (add_reading o rs) w
        ≡ submit_readings rs (submit_readings (add_reading o []) w)
  submit-add none rs w = refl
  submit-add (some (u, v)) rs w = refl

  AreRead-header :
      (l : Text) (ls : List Text) (p q : Progress World)
      → p.row < 2
      → AreRead ls (record p { row = p.row + 1 }) q
      → AreRead (l ∷ ls) p q
  AreRead-header l ls p q h a = record {
    rows = omega (arith, a.rows);
    last = rw (drop-header p.row l ls h) a.last;
    submitted = rw (drop-header p.row l ls h) a.submitted;
  }

  AreRead-table :
      (l : Text) (ls : List Text) (p p' q : Progress World)
      → 2 ≤ p.row
      → IsAdded (reading_of column (words (until_nul l))) p p'
      → AreRead ls p' q
      → AreRead (l ∷ ls) p q
  AreRead-table l ls p p' q h i a =
      let o = reading_of column (words (until_nul l)) in
      let rs = readings column ls in
      let later = drop-none p'.row ls (omega (arith, i.row_added)) in
      record {
        rows = omega (arith, a.rows, i.row_added);
        last = rw (drop-none p.row (l ∷ ls) h) (
            subst
              (λ (xs : List Text). q.valid_vtime ≡ last_time (readings column xs) p'.valid_vtime)
              later a.last
            ∙ ap (last_time rs) i.last_added
            ∙ sym (last_time-add o rs p.valid_vtime));
        submitted = rw (drop-none p.row (l ∷ ls) h) (
            subst (λ (xs : List Text). q.world ≡ submit_readings (readings column xs) p'.world)
              later a.submitted
            ∙ ap (submit_readings rs) i.world_added
            ∙ sym (submit-add o rs p.world));
      }

  pub all_rows-AreRead : (ls : List Text) (p : Progress World) → AreRead ls p (all_rows ls p)
  all_rows-AreRead [] p = record {
    rows = omega arith;
    last = rw (drop-nil (2 - p.row)) refl;
    submitted = rw (drop-nil (2 - p.row)) refl;
  }
  all_rows-AreRead (l ∷ ls) p =
      let rest = all_rows-AreRead ls (row l p) in
      elim (Bool-cases (ltb p.row 2)) [
        | inl e ↦
            let h = row-header l p (omega tests) in
            AreRead-header l ls p _ (omega tests)
              (subst (λ (x : Progress World). AreRead ls x (all_rows ls (row l p))) h rest)
        | inr e ↦
            let h = row-table l p (ground arith) in
            AreRead-table l ls p (row l p) _ (ground arith)
              (subst (λ (x : Progress World). IsAdded (reading_of column (words (until_nul l))) p x)
                (sym h) (words-IsAdded (words (until_nul l)) p))
              rest
      ]
