-- ===== src/Rrd/Lines.antt =====
-- src/plugins/sensor/rrd.c: the loop over the lines of a command's output.
use netvizd.Common.{ℕ, zero, suc, ◌≤◌, ◌≡◌, refl, ap, ◌∙◌, List, [], ◌∷◌, arith, length}
use netvizd.Common.Int.{ℤ, pos}
use netvizd.Common.Text.{Text}
use netvizd.Config.{NvDsts}
use netvizd.Io.{Reader, Line, readline}
use netvizd.Io.Lines.{IsSteady, pending, next_line, ret_of, readline-next_line}
use netvizd.Rrd.{Progress, Outside, Course, done, read_row, row_or_end, read_rows}
use netvizd.Rrd.Columns.{lines_upto, lines_of}
use netvizd.Rrd.Rows.{AreRead, all_rows, all_rows-AreRead}

module _ {V : Type 0} (O : Outside V) (atof : Text → V) (print_int : ℤ → Text) (rrdtool file : Text)
    (start column : ℤ) (d : NvDsts) where
  open O use {World}

  abbrev row : Text → Progress World → Progress World
  row = read_row O atof print_int rrdtool file start column d

  abbrev every_row : List Text → Progress World → Progress World
  every_row = all_rows O atof print_int rrdtool file start column d

  abbrev loop : ℕ → Reader → Progress World → Course (Progress World)
  loop = read_rows O atof print_int rrdtool file start column d

  abbrev round_of :
      (Reader → Progress World → Course (Progress World))
      → Progress World
      → Line × Reader
      → Course (Progress World)
  round_of = row_or_end O atof print_int rrdtool file start column d

  next_line-shorter : (n : ℕ) (s : Text) → length (next_line n s).1 ≤ length s
  next_line-shorter zero s = omega arith
  next_line-shorter (suc n) [] = omega arith
  next_line-shorter (suc n) (c ∷ s) = let rest = next_line-shorter n s in ground arith

  next_line-shrinks : (n c : ℕ) (s : Text) → length (next_line (suc n) (c ∷ s)).1 ≤ length s
  next_line-shrinks n c s = let rest = next_line-shorter n s in ground arith

  ret_of-positive : (n c : ℕ) (s : Text) → 1 ≤ ret_of (suc n) (c ∷ s)
  ret_of-positive n c s = ground arith

  round-end :
      (f : Reader → Progress World → Course (Progress World)) (p : Progress World) (l : Line)
      (r : Reader)
      → l.ret ≡ pos 0
      → round_of f p (l, r) ≡ done p
  unfolding row_or_end
  round-end f p l r e = rw e refl

  round-goes :
      (f : Reader → Progress World → Course (Progress World)) (p : Progress World) (l : Line)
      (r : Reader) (m : ℕ)
      → l.ret ≡ pos m
      → 1 ≤ m
      → round_of f p (l, r) ≡ f r (row l.stored p)
  unfolding row_or_end
  round-goes f p l r m e h = rw e (ground arith)

  loop-every_row :
      (k : ℕ) (r : Reader) (p : Progress World) (s : Text)
      → pending r ≡ s
      → IsSteady r.answers
      → length s ≤ k
      → loop (suc k) r p ≡ done (every_row (lines_upto 1022 k s) p)
  unfolding read_rows
  loop-every_row zero r p [] e h b =
      let (stored, behind, steady, ret) = readline-next_line 1023 r (omega arith) h in
      round-end (loop 0) p (readline 1023 r).0 (readline 1023 r).1
        (ret ∙ ap (λ (t : Text). pos (ret_of 1022 t)) e)
  loop-every_row zero r p (c ∷ s) e h b = absurd (omega arith)
  loop-every_row (suc k) r p [] e h b =
      let (stored, behind, steady, ret) = readline-next_line 1023 r (omega arith) h in
      round-end (loop (suc k)) p (readline 1023 r).0 (readline 1023 r).1
        (ret ∙ ap (λ (t : Text). pos (ret_of 1022 t)) e)
  loop-every_row (suc k) r p (c ∷ s) e h b =
      let (stored, behind, steady, ret) = readline-next_line 1023 r (omega arith) h in
      let line = stored ∙ ap (λ (t : Text). (next_line 1022 t).0) e in
      let short = next_line-shrinks 1021 c s in
      round-goes (loop (suc k)) p (readline 1023 r).0 (readline 1023 r).1 (ret_of 1022 (c ∷ s))
        (ret ∙ ap (λ (t : Text). pos (ret_of 1022 t)) e) (ret_of-positive 1021 c s)
      ∙ ap (λ (t : Text). loop (suc k) (readline 1023 r).1 (row t p)) line
      ∙ loop-every_row k (readline 1023 r).1 (row (next_line 1022 (c ∷ s)).0 p)
          (next_line 1022 (c ∷ s)).1 (behind ∙ ap (λ (t : Text). (next_line 1022 t).1) e) steady
          (omega (arith, short))

  -- With one call of `readline` more than the output has characters, the loop over its lines ends, and
  -- whatever the cuts of the output, it has submitted the readings of the sensor's column, each once and
  -- in order: one for each line with a time, and a value in that column which is no `nan`. The first
  -- two rows are left out, where `row` counts from its value before the loop. `valid_vtime` becomes the
  -- time of the last reading, and stays where there is none.
  pub read_rows-AreRead :
      (r : Reader) (p : Progress World)
      → IsSteady r.answers
      → (q : Progress World) × (read_rows O atof print_int rrdtool file start column d
            (suc (length (pending r)))
            r
            p
          ≡ done q)
        × AreRead O atof print_int rrdtool file start column d (lines_of (pending r)) p q
  read_rows-AreRead r p h =
      let s = pending r in
      (
        every_row (lines_of s) p,
        loop-every_row (length s) r p s refl h (omega arith),
        all_rows-AreRead O atof print_int rrdtool file start column d (lines_of s) p,
      )
