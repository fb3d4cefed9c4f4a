-- ===== src/Rrd/Columns.antt =====
-- src/plugins/sensor/rrd.c: what the lines of a command's output say, and how a line is searched for
-- the sensor's column.
use netvizd.Common.{
  ℕ, zero, suc, ◌+◌, ◌≡◌, refl, List, [], ◌∷◌, Option, none, some, arith, if◌then◌else◌, length,
  get_elem?,
}
use netvizd.Common.Int.{ℤ, pos, negsuc, ◌+ℤ◌}
use netvizd.Common.Text.{Text, codes, same_prefix, until_nul, atoi}
use netvizd.Io.Lines.{next_line}
use netvizd.Rrd.{words, scan}

-- What a line says of the data source in a column: the time in its first word, and the word in the
-- column if it is there and is not a `nan`.
abbrev pub known : Option Text → Option Text
known none = none
known (some word) = if same_prefix 3 (codes "nan") word then none else some word

abbrev pub column_of : ℤ → List Text → Option Text
column_of (pos k) ws = get_elem? ws k
column_of (negsuc k) ws = none

abbrev pub at_time : ℤ → Option Text → Option (ℤ × Text)
at_time t none = none
at_time t (some word) = some (t, word)

abbrev pub reading_of : ℤ → List Text → Option (ℤ × Text)
reading_of column [] = none
reading_of column (t ∷ ws) = at_time (atoi t) (known (column_of column ws))

next_column : (j : ℕ) → pos j +ℤ pos 1 ≡ pos (j + 1)
unfolding ◌+ℤ◌
next_column j = ground arith

scan-column :
    (c j k : ℕ) (ws : List Text) (vtime : ℤ)
    → c ≡ j + k
    → scan (pos c) (pos j) ws vtime ≡ (vtime, known (get_elem? ws k))
unfolding scan
scan-column c j k [] vtime e = refl
scan-column c j zero (w ∷ ws) vtime e = ground arith
scan-column c j (suc k) (w ∷ ws) vtime e =
    let rest = scan-column c (j + 1) k ws vtime (omega arith) in ground (arith, next_column j)

scan-no_column :
    (m j : ℕ) (ws : List Text) (vtime : ℤ) → scan (negsuc m) (pos j) ws vtime ≡ (vtime, none)
unfolding scan
scan-no_column m j [] vtime = refl
scan-no_column m j (w ∷ ws) vtime =
    let rest = scan-no_column m (j + 1) ws vtime in ground (arith, next_column j)

scan-column_of :
    (column : ℤ) (ws : List Text) (vtime : ℤ)
    → scan column (pos 0) ws vtime ≡ (vtime, known (column_of column ws))
scan-column_of (pos k) ws vtime = scan-column k 0 k ws vtime (omega arith)
scan-column_of (negsuc m) ws vtime = scan-no_column m 0 ws vtime

pub scan-line :
    (column : ℤ) (t : Text) (ws : List Text) (vtime : ℤ)
    → scan column (negsuc 0) (t ∷ ws) vtime ≡ (atoi t, known (column_of column ws))
unfolding scan ◌+ℤ◌
scan-line column t ws vtime = scan-column_of column ws (atoi t)

-- The lines of a text, in pieces of at most `n` characters; `fuel` bounds their number.
abbrev pub lines_upto : ℕ → ℕ → Text → List Text
lines_upto n zero s = []
lines_upto n (suc fuel) [] = []
lines_upto n (suc fuel) (c ∷ s) =
    (next_line n (c ∷ s)).0 ∷ lines_upto n fuel (next_line n (c ∷ s)).1

abbrev pub lines_of : Text → List Text
lines_of s = lines_upto 1022 (length s) s

abbrev pub add_reading : Option (ℤ × Text) → List (ℤ × Text) → List (ℤ × Text)
add_reading none rs = rs
add_reading (some r) rs = r ∷ rs

abbrev pub readings : ℤ → List Text → List (ℤ × Text)
readings column [] = []
readings column (l ∷ ls) =
    add_reading (reading_of column (words (until_nul l))) (readings column ls)

abbrev pub last_time : List (ℤ × Text) → ℤ → ℤ
last_time [] t = t
last_time ((t', word) ∷ rs) t = last_time rs t'
