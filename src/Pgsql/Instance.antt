-- ===== src/Pgsql/Instance.antt =====
-- src/plugins/storage/pgsql.c: the configuration of an instance, its maintenance thread and the wait for
-- it; and the parameters of a connection, in src/plugins/storage/pgsql_pool.c.
pub mod Checks
pub mod Connection
pub mod Ready
mod Tests
use netvizd.Common.{
  ℕ, zero, suc, ◌+◌, ◌≡◌, Bool, true, false, ◌&&◌, List, [], ◌∷◌, ◌++◌, Option, none, some,
  if◌then◌else◌, take,
}
use netvizd.Common.Int.{ℤ, pos, negsuc, eq_ℤ, ltb_ℤ, ◌+ℤ◌, ◌-ℤ◌}
use netvizd.Common.Text.{Text, codes, same_prefix, atoi}
use netvizd.Config.{NvConf}
use netvizd.Pgsql.Statements.{join, sql_create_meta, sql_create_data}
use netvizd.Pgsql.Store.{Service, pgsql_init_table}

-- `struct pgsql_data` as the configuration sets it, with the local variable `pool_num`.
pub record PgsqlData : Type 0 where
  pub host : Option Text
  pub port : ℤ
  pub user : Option Text
  pub pass : Option Text
  pub db : Option Text
  pub pool_num : ℤ
  pub ctimeout : ℤ
  pub rtimeout : ℤ
  pub ssl : Bool

abbrev pub new_data : PgsqlData
new_data = record {
  host = none;
  port = pos 0;
  user = none;
  pass = none;
  db = none;
  pool_num = pos 0;
  ctimeout = pos 0;
  rtimeout = pos 0;
  ssl = false;
}

-- One item of the configuration; `none` is an unknown key.
pub set_key : NvConf → PgsqlData → Option PgsqlData
set_key c me =
    if same_prefix 256 c.key (codes "host")
    then some (record me { host = some c.value })
    else if same_prefix 256 c.key (codes "port")
    then some (record me { port = atoi c.value })
    else if same_prefix 256 c.key (codes "user")
    then some (record me { user = some c.value })
    else if same_prefix 256 c.key (codes "pass")
    then some (record me { pass = some c.value })
    else if same_prefix 256 c.key (codes "db")
    then some (record me { db = some c.value })
    else if same_prefix 256 c.key (codes "pool_num")
    then some (record me { pool_num = atoi c.value })
    else if same_prefix 256 c.key (codes "connect_timeout")
    then some (record me { ctimeout = atoi c.value })
    else if same_prefix 256 c.key (codes "retry_timeout")
    then some (record me { rtimeout = atoi c.value })
    else if same_prefix 256 c.key (codes "ssl")
    then some (record me { ssl = same_prefix 3 c.value (codes "yes") })
    else none

abbrev pub or_default : ℤ → ℤ → ℤ
or_default n d = if eq_ℤ n (pos 0) then d else n

abbrev pub with_defaults : PgsqlData → PgsqlData
with_defaults me = record me {
  port = or_default me.port (pos 5432);
  pool_num = or_default me.pool_num (pos 10);
  ctimeout = or_default me.ctimeout (pos 10);
  rtimeout = or_default me.rtimeout (pos 10);
}

-- From the checks on: `created` is what `pthread_create` returns.
pub check_data : ℤ → Option Text → Option Text → Option Text → PgsqlData → ℤ × PgsqlData
check_data created none user pass me = (negsuc 0, me)
check_data created (some host) none pass me = (negsuc 0, me)
check_data created (some host) (some user) none me = (negsuc 0, me)
check_data created (some host) (some user) (some pass) me =
    (if eq_ℤ created (pos 0) then pos 0 else pos 1, with_defaults me)

pub next_key : (PgsqlData → ℤ × PgsqlData) → PgsqlData → Option PgsqlData → ℤ × PgsqlData
next_key rest me none = (negsuc 0, me)
next_key rest me (some me') = rest me'

pub read_conf : ℤ → List NvConf → PgsqlData → ℤ × PgsqlData
unfolding next_key set_key check_data
read_conf created [] me = check_data created me.host me.user me.pass me
read_conf created (c ∷ conf) me = next_key (read_conf created conf) me (set_key c me)

pub pgsql_inst_init : ℤ → List NvConf → ℤ × PgsqlData
unfolding read_conf
pgsql_inst_init created conf = read_conf created conf new_data

-- The pieces of the string that `pgsql_connect` prints into a buffer of `NAME_LEN` bytes.
abbrev pub conninfo_parts : (ℤ → Text) → Text → Text → Text → Text → PgsqlData → List Text
conninfo_parts print_int host user pass db me =
    codes "host="
    ∷ host
    ∷ codes " port="
    ∷ print_int me.port
    ∷ codes " user="
    ∷ user
    ∷ codes " password="
    ∷ pass
    ∷ codes " dbname="
    ∷ db
    ∷ codes " sslmode="
    ∷ (if me.ssl then codes "require" else codes "disable")
    ∷ codes " connect_timeout="
    ∷ print_int me.ctimeout
    ∷ []

-- What `PQconnectdb` is given; `none` where the code prints a null pointer.
pub pgsql_connect :
    (ℤ → Text) → Option Text → Option Text → Option Text → Option Text → PgsqlData → Option Text
pgsql_connect print_int (some host) (some user) (some pass) (some db) me =
    some (take 255 (join (conninfo_parts print_int host user pass db me)))
pgsql_connect print_int _ _ _ _ me = none

-- A round of the loop of `pgsql_get_ready`: whether `ready` is set at its head; and, if not, whether the
-- wait ends by its time limit, and whether `quit` is set then.
pub record Look : Type 0 where
  pub is_ready : Bool
  pub timed_out : Bool
  pub is_quit : Bool

-- How often the lock has been taken less how often it has been given back, at the end; `none` while
-- the looks do not end the loop.
pub wait_ready : ℤ → List Look → Option ℤ
wait_ready held [] = none
wait_ready held (l ∷ ls) =
    let rest = wait_ready held ls in
    if l.is_ready
    then some (held -ℤ pos 1)
    else if l.timed_out && l.is_quit
    then some (held -ℤ pos 1 -ℤ pos 1)
    else rest

pub pgsql_get_ready : Bool → List Look → Option ℤ
unfolding wait_ready
pgsql_get_ready true ls = some (pos 0)
pgsql_get_ready false ls = wait_ready (pos 1) ls

-- `pgsql_thread` up to its wait: whether it has set `ready`, or else `quit`.
pub data Announced : Type 0 where
  ready quit waiting : Announced

module _ (S : Service) where
  open S use {World}

  pub next_table : Option ℤ × World → (World → Announced × World) → Announced × World
  next_table (none, w) f = (waiting, w)
  next_table (some ret, w) f = let rest = f w in if ltb_ℤ ret (pos 0) then (quit, w) else rest

  pub pgsql_thread : ℕ → World → Announced × World
  unfolding next_table
  pgsql_thread fuel w =
      next_table (pgsql_init_table S fuel (codes "nv_dsts") (sql_create_meta (codes "nv_dsts")) w)
        (λ w1.
          next_table
            (pgsql_init_table S fuel (codes "nv_dsts_data") (sql_create_data (codes "nv_dsts_data"))
              w1)
            (λ w2. (ready, w2)))
