-- ===== src/Pgsql/Statements/Tests.antt =====
-- src/plugins/storage/pgsql.c: statements for short and for long names.
use netvizd.Common.{◌+◌, ◌≤◌, ◌≡◌, refl, ◌↔◌, length, replicate}
use netvizd.Common.Text.{Text, codes}
use netvizd.Pgsql.Statements.{
  print_statement, sql_get_ts, sql_get_utime, sql_add_utime, sql_update_utime, sql_add_row,
}
use netvizd.Pgsql.Statements.Fit.{statements-whole}

abbrev pub one_day : Text
one_day = codes "Thu Jan  1 00:00:00 1970\n"

abbrev another_day : Text
another_day = codes "Fri Jan  2 00:00:00 1970\n"

statements-whole_example :
    let sys = codes "rtr1" in
    let dset = codes "atm" in
    let value = codes "1.500000" in
    ((print_statement (sql_get_ts sys dset one_day another_day)
        ≡ sql_get_ts sys dset one_day another_day)
      ↔ (length sys + length dset ≤ 77))
    × ((print_statement (sql_get_utime sys dset) ≡ sql_get_utime sys dset)
        ↔ (length sys + length dset ≤ 174))
    × ((print_statement (sql_add_utime sys dset one_day) ≡ sql_add_utime sys dset one_day)
        ↔ (length sys + length dset ≤ 161))
    × ((print_statement (sql_update_utime one_day sys dset) ≡ sql_update_utime one_day sys dset)
        ↔ (length sys + length dset ≤ 165))
    × ((print_statement (sql_add_row sys dset one_day value) ≡ sql_add_row sys dset one_day value)
        ↔ (length sys + length dset + length value ≤ 144))
statements-whole_example =
    statements-whole (codes "rtr1") (codes "atm") one_day another_day (codes "1.500000") refl refl

-- Names that the configuration allows, and a statement that loses its end.
cut_short :
    length (print_statement (sql_get_ts (replicate 60 b'a') (replicate 40 b'b') one_day one_day))
    ≡ 255
unfolding print_statement sql_get_ts
cut_short = refl
