-- ===== src/Pgsql/Statements/Fit.antt =====
-- src/plugins/storage/pgsql.c: for which names the statements fit their buffers.
use netvizd.Common.{
  take-all, ℕ, ◌+◌, ◌-◌, ◌≤◌, ◌≡◌, refl, ap, ◌∙◌, ◌↔◌, List, [], ◌∷◌, arith, length, length-append,
  length-take, take,
}
use netvizd.Common.Text.{Text, codes}
use netvizd.Pgsql.Statements.{
  print_statement, join, create_meta_parts, create_data_parts, get_ts_parts, get_utime_parts,
  add_utime_parts, update_utime_parts, add_row_parts, sql_create_meta, sql_create_data, sql_get_ts,
  sql_get_utime, sql_add_utime, sql_update_utime, sql_add_row,
}

-- A statement is printed whole exactly if it has at most 255 characters.
print_statement-whole : (s : Text) → (print_statement s ≡ s) ↔ (length s ≤ 255)
unfolding print_statement
print_statement-whole s = (
  λ e. let f : length (take 255 s) ≡ length s = ap length e in omega (arith, length-take 255 s),
  take-all 255 s,
)

abbrev pub lengths : List Text → ℕ
lengths [] = 0
lengths (s ∷ ss) = length s + lengths ss

pub length-join : (ss : List Text) → length (join ss) ≡ lengths ss
length-join [] = refl
length-join (s ∷ ss) = omega (arith, length-append s (join ss), length-join ss)

length-sql_create_meta : (table : Text) → length (sql_create_meta table) ≡ length table + 147
unfolding sql_create_meta
length-sql_create_meta table = length-join (create_meta_parts table) ∙ omega arith

length-sql_create_data : (table : Text) → length (sql_create_data table) ≡ length table + 171
unfolding sql_create_data
length-sql_create_data table = length-join (create_data_parts table) ∙ omega arith

length-sql_get_ts :
    (sys dset start end : Text)
    → length (sql_get_ts sys dset start end)
      ≡ length sys + length dset + length start + length end + 128
unfolding sql_get_ts
length-sql_get_ts sys dset start end = length-join (get_ts_parts sys dset start end) ∙ omega arith

length-sql_get_utime :
    (sys dset : Text) → length (sql_get_utime sys dset) ≡ length sys + length dset + 81
unfolding sql_get_utime
length-sql_get_utime sys dset = length-join (get_utime_parts sys dset) ∙ omega arith

length-sql_add_utime :
    (sys dset time : Text)
    → length (sql_add_utime sys dset time) ≡ length sys + length dset + length time + 69
unfolding sql_add_utime
length-sql_add_utime sys dset time = length-join (add_utime_parts sys dset time) ∙ omega arith

length-sql_update_utime :
    (time sys dset : Text)
    → length (sql_update_utime time sys dset) ≡ length time + length sys + length dset + 65
unfolding sql_update_utime
length-sql_update_utime time sys dset = length-join (update_utime_parts time sys dset) ∙ omega arith

length-sql_add_row :
    (sys dset time value : Text)
    → length (sql_add_row sys dset time value)
      ≡ length sys + length dset + length time + length value + 86
unfolding sql_add_row
length-sql_add_row sys dset time value =
    length-join (add_row_parts sys dset time value) ∙ omega arith

-- The two statements that create the tables of the plugin fit their buffer.
create_statements-whole :
    (print_statement (sql_create_meta (codes "nv_dsts")) ≡ sql_create_meta (codes "nv_dsts"))
    × (print_statement (sql_create_data (codes "nv_dsts_data"))
        ≡ sql_create_data (codes "nv_dsts_data"))
create_statements-whole = (
  (print_statement-whole (sql_create_meta (codes "nv_dsts"))).1
      (omega (arith, length-sql_create_meta (codes "nv_dsts"))),
  (print_statement-whole (sql_create_data (codes "nv_dsts_data"))).1
      (omega (arith, length-sql_create_data (codes "nv_dsts_data"))),
)

pub whole_iff :
    (s : Text) (n k : ℕ) → length s ≡ n + k → k ≤ 255 → (print_statement s ≡ s) ↔ (n ≤ 255 - k)
whole_iff s n k e h = (
  λ whole. let fits = (print_statement-whole s).0 whole in omega arith,
  λ fits. (print_statement-whole s).1 (omega arith),
)

-- With times of 25 characters, as `ctime_r` writes them, the statements for a data set are printed whole
-- exactly as long as its name and its system's have together at most 77 characters (reading its rows),
-- 174 (reading its update time), 161 and 165 (storing the update time for the first time and again), and,
-- with the printed value, 144 (storing a value).
pub statements-whole :
    (sys dset start end value : Text)
    → length start ≡ 25
    → length end ≡ 25
    → ((print_statement (sql_get_ts sys dset start end) ≡ sql_get_ts sys dset start end)
        ↔ (length sys + length dset ≤ 77))
      × ((print_statement (sql_get_utime sys dset) ≡ sql_get_utime sys dset)
          ↔ (length sys + length dset ≤ 174))
      × ((print_statement (sql_add_utime sys dset start) ≡ sql_add_utime sys dset start)
          ↔ (length sys + length dset ≤ 161))
      × ((print_statement (sql_update_utime start sys dset) ≡ sql_update_utime start sys dset)
          ↔ (length sys + length dset ≤ 165))
      × ((print_statement (sql_add_row sys dset start value) ≡ sql_add_row sys dset start value)
          ↔ (length sys + length dset + length value ≤ 144))
statements-whole sys dset start end value h1 h2 =
    let n = length sys + length dset in
    (
      whole_iff (sql_get_ts sys dset start end) n 178
          (omega (arith, length-sql_get_ts sys dset start end)) (omega arith),
      whole_iff (sql_get_utime sys dset) n 81 (omega (arith, length-sql_get_utime sys dset))
          (omega arith),
      whole_iff (sql_add_utime sys dset start) n 94
          (omega (arith, length-sql_add_utime sys dset start)) (omega arith),
      whole_iff (sql_update_utime start sys dset) n 90
          (omega (arith, length-sql_update_utime start sys dset)) (omega arith),
      whole_iff (sql_add_row sys dset start value) (n + length value) 111
          (omega (arith, length-sql_add_row sys dset start value)) (omega arith),
    )
