-- ===== src/Pgsql/Pool.antt =====
-- src/plugins/storage/pgsql_pool.c: the state of the connection pool and its critical sections.
-- The three `nv_list`s are lists of connections, as src/nvlist.h implements them (NvList). What
-- `PQstatus` answers is up to the environment, so it is an argument or a choice of the step.
pub mod Threads
pub mod Count
pub mod Kept
pub mod Moves
pub mod Invariant
pub mod Safety
pub mod Progress
pub mod Reports
pub mod Notices
mod Tests
use netvizd.Common.{
  ℕ, zero, suc, ◌+◌, Bool, true, false, List, [], ◌∷◌, ◌++◌, Option, none, some, ◌==◌,
  if◌then◌else◌,
}
use netvizd.Common.Int.{ℤ, pos, ◌+ℤ◌, ◌-ℤ◌}

-- `opened` is `conn != NULL`. The list node is found by the `id`.
pub record Conn : Type 0 where
  pub id : ℕ
  pub opened : Bool

pub record Pool : Type 0 where
  pub num : ℕ
  pub quit : Bool
  pub bad_num : ℤ
  pub bad : List Conn
  pub free_num : ℤ
  pub free : List Conn
  pub inuse_num : ℤ
  pub inuse : List Conn

-- `pgsql_pool_init` and the counters that the management thread sets at first.
unfoldable pub pool_init : ℕ → Pool
pool_init num = record {
  num = num;
  quit = false;
  bad_num = pos 0;
  bad = [];
  free_num = pos 0;
  free = [];
  inuse_num = pos 0;
  inuse = [];
}

-- Under the lock of the list: a connection is appended and counted.
unfoldable pub push_bad : Pool → Conn → Pool
push_bad p c = record p { bad = p.bad ++ c ∷ []; bad_num = p.bad_num +ℤ pos 1 }

unfoldable pub push_free : Pool → Conn → Pool
push_free p c = record p { free = p.free ++ c ∷ []; free_num = p.free_num +ℤ pos 1 }

unfoldable pub push_inuse : Pool → Conn → Pool
push_inuse p c = record p { inuse = p.inuse ++ c ∷ []; inuse_num = p.inuse_num +ℤ pos 1 }

-- The loop that fills the bad list: `k` rounds, from connection `i` on.
unfoldable pub fill_bad : ℕ → ℕ → Pool → Pool
fill_bad zero i p = p
fill_bad (suc k) i p = fill_bad k (i + 1) (push_bad p (record { id = i; opened = false }))

-- The test of the two waiting loops.
abbrev pub is_zero : ℤ → Bool
is_zero (pos n) = n == 0
is_zero _ = false

-- The first node of a list and what is left; `none` stands for the access through `NULL` that an
-- empty list gives.
abbrev pub take_first : List Conn → Option (Conn × List Conn)
take_first [] = none
take_first (c ∷ cs) = some (c, cs)

-- What follows the wait in `pgsql_pool_get`: the first free connection is taken off the list.
unfoldable pub pull_free : Pool → Option (Conn × Pool)
pull_free p = elim (take_first p.free) [
  | none ↦ none
  | some (c, cs) ↦ some (c, record p { free = cs; free_num = p.free_num -ℤ pos 1 })
]

-- The same for the bad list in the management thread.
unfoldable pub pull_bad : Pool → Option (Conn × Pool)
pull_bad p = elim (take_first p.bad) [
  | none ↦ none
  | some (c, cs) ↦ some (c, record p { bad = cs; bad_num = p.bad_num -ℤ pos 1 })
]

unfoldable pub remove_conn : ℕ → List Conn → List Conn
remove_conn k [] = []
remove_conn k (c ∷ cs) = if c.id == k then cs else c ∷ remove_conn k cs

-- The first section of `pgsql_pool_release`.
unfoldable pub drop_inuse : Pool → Conn → Pool
unfolding remove_conn
drop_inuse p c = record p { inuse = remove_conn c.id p.inuse; inuse_num = p.inuse_num -ℤ pos 1 }

-- `PQreset` and `pgsql_connect` in the repair loop: a connection without a handle gets one, if
-- `PQconnectdb` returns one.
unfoldable pub mend_conn : Bool → Conn → Conn
mend_conn got c = if c.opened then c else record c { opened = got }

abbrev opened_ids : List Conn → List ℕ
opened_ids [] = []
opened_ids (c ∷ cs) = if c.opened then c.id ∷ opened_ids cs else opened_ids cs

abbrev sub_all : ℤ → List Conn → ℤ
sub_all n [] = n
sub_all n (c ∷ cs) = sub_all (n -ℤ pos 1) cs

-- The clean-up of the management thread: the counters, and the connections that it closes.
unfoldable pub pool_cleanup : Pool → Pool × List ℕ
pool_cleanup p = (
  record p {
    free_num = sub_all p.free_num p.free;
    inuse_num = sub_all p.inuse_num p.inuse;
    bad_num = sub_all p.bad_num p.bad;
    free = [];
    inuse = [];
    bad = [];
  },
  opened_ids p.free ++ (opened_ids p.inuse ++ opened_ids p.bad),
)
