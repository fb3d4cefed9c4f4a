-- ===== src/Pgsql/Statements.antt =====
-- src/plugins/storage/pgsql.c: the SQL statements, and the buffers of `NAME_LEN` bytes that they are
-- printed into.
pub mod Fit
pub mod Tests
use netvizd.Common.{ℕ, List, [], ◌∷◌, ◌++◌, take}
use netvizd.Common.Text.{Text, codes}

-- `snprintf(buf, NAME_LEN, ...)`: what the buffer holds of the text.
unfoldable pub print_statement : Text → Text
print_statement s = take 255 s

-- The pieces of a format and its arguments, in order.
abbrev pub join : List Text → Text
join [] = []
join (s ∷ ss) = s ++ join ss

-- `SQL_CREATE_META` and `SQL_CREATE_DATA` with a table's name.
abbrev pub create_meta_parts : Text → List Text
create_meta_parts table =
    codes "CREATE TABLE "
    ∷ table
    ∷ codes " (     system VARCHAR(256),     dataset VARCHAR(256), "
    ∷ codes "    utime TIMESTAMP WITH TIME ZONE NOT NULL, "
    ∷ codes "    PRIMARY KEY (system, dataset));"
    ∷ []

unfoldable pub sql_create_meta : Text → Text
sql_create_meta table = join (create_meta_parts table)

abbrev pub create_data_parts : Text → List Text
create_data_parts table =
    codes "CREATE TABLE "
    ∷ table
    ∷ codes " (     system VARCHAR(256),     dataset VARCHAR(256), "
    ∷ codes "    time TIMESTAMP WITH TIME ZONE,     value DOUBLE PRECISION, "
    ∷ codes "    PRIMARY KEY (system, dataset, time));"
    ∷ []

unfoldable pub sql_create_data : Text → Text
sql_create_data table = join (create_data_parts table)

-- `SQL_GET_TS`; the two times are in the form of `ctime_r`.
abbrev pub get_ts_parts : Text → Text → Text → Text → List Text
get_ts_parts sys dset start end =
    codes "SELECT EXTRACT(epoch FROM time), value FROM nv_dsts_data WHERE system = '"
    ∷ sys
    ∷ codes "' and dataset = '"
    ∷ dset
    ∷ codes "' and       time >= '"
    ∷ start
    ∷ codes "' AND time <= '"
    ∷ end
    ∷ codes "';"
    ∷ []

unfoldable pub sql_get_ts : Text → Text → Text → Text → Text
sql_get_ts sys dset start end = join (get_ts_parts sys dset start end)

abbrev pub get_utime_parts : Text → Text → List Text
get_utime_parts sys dset =
    codes "SELECT EXTRACT(epoch FROM utime) FROM nv_dsts WHERE system = '"
    ∷ sys
    ∷ codes "' and dataset = '"
    ∷ dset
    ∷ codes "';"
    ∷ []

unfoldable pub sql_get_utime : Text → Text → Text
sql_get_utime sys dset = join (get_utime_parts sys dset)

abbrev pub add_utime_parts : Text → Text → Text → List Text
add_utime_parts sys dset time =
    codes "INSERT INTO nv_dsts ( system, dataset, utime ) VALUES ( '"
    ∷ sys
    ∷ codes "', '"
    ∷ dset
    ∷ codes "', '"
    ∷ time
    ∷ codes "' );"
    ∷ []

unfoldable pub sql_add_utime : Text → Text → Text → Text
sql_add_utime sys dset time = join (add_utime_parts sys dset time)

abbrev pub update_utime_parts : Text → Text → Text → List Text
update_utime_parts time sys dset =
    codes "UPDATE nv_dsts SET utime = '"
    ∷ time
    ∷ codes "' WHERE system = '"
    ∷ sys
    ∷ codes "' and dataset = '"
    ∷ dset
    ∷ codes "';"
    ∷ []

unfoldable pub sql_update_utime : Text → Text → Text → Text
sql_update_utime time sys dset = join (update_utime_parts time sys dset)

-- `SQL_TABLE_EXISTS`; the table's name is its parameter.
abbrev pub table_exists_parts : List Text
table_exists_parts =
    codes "SELECT table_schema, table_name FROM information_schema.tables "
    ∷ codes "WHERE table_schema = 'public' and       table_name = $1;"
    ∷ []

unfoldable pub sql_table_exists : Text
sql_table_exists = join (table_exists_parts)

-- `SQL_ADD_ROW`; `value` is what `%f` prints.
abbrev pub add_row_parts : Text → Text → Text → Text → List Text
add_row_parts sys dset time value =
    codes "INSERT INTO nv_dsts_data ( system, dataset,     time, value ) VALUES ( '"
    ∷ sys
    ∷ codes "', '"
    ∷ dset
    ∷ codes "', '"
    ∷ time
    ∷ codes "', "
    ∷ value
    ∷ codes " );"
    ∷ []

unfoldable pub sql_add_row : Text → Text → Text → Text → Text
sql_add_row sys dset time value = join (add_row_parts sys dset time value)
