-- ===== src/Lib.antt =====
-- netvizd, a daemon that collects time series from sensor plugins, keeps them through storage
-- plugins and hands them to clients over a text protocol.
--
-- The parts and their files:
--
-- NvList models src/nvlist.h, the circular lists that every other part uses. The heap is a set of
-- nodes at addresses, each with `next`, `prev` and `data`; an operation is a command on the heap
-- that ends, faults on the access to a node that is not allocated, or runs out of fuel.
-- NvList/Ring says which heaps hold a list of given nodes. One unit of fuel is one test of a loop;
-- the theorems give one more than the number of nodes, which is enough. The other models take a
-- list as the sequence of its elements.
--
-- Config and Config/File model src/nvconfig.h, src/plugins/config/file.h and `create_conf` of
-- src/plugins/config/file.c, which turns what the parser of the configuration file hands over into
-- the global lists. A pointer into a global list is a position in it; a read through `NULL` is the
-- outcome `crash`. The lists are empty before, as when the daemon starts. Config/Items has the
-- functions that the parser calls for each item; the parser itself is not modelled, and its calls
-- are a list. Config/Validate has `config_init`, which calls `create_conf`, and `nv_validate_conf`
-- of src/nvconfig.c, which runs after it. Config/Cleanup has the end of `create_conf`, which frees
-- what the parser has handed over, on the heap of NvList and with a block of memory for each
-- structure and text; to free or read what is not allocated is a fault. Fuel is that of NvList, for
-- each of the lists.
--
-- Heartbeat models `stor_thread` of src/storage.c and `sens_thread` of src/sensor.c over a clock
-- that is a list of readings; a plugin's function is a parameter. Submit models how
-- `sens_submit_ts_data` and the functions of src/storage.c hand a call on to the storage plugins,
-- whose functions are parameters; its theorems rest on those on `create_conf`.
--
-- Plugin models the loading loops of src/plugin.c and `config_p_init`. The libtool loader and the
-- plugins' functions are parameters, over a state of the process that is a parameter too.
--
-- Pgsql/Pool models src/plugins/storage/pgsql_pool.c: the critical sections as functions on the
-- pool, and in Pgsql/Pool/Threads the clients (`pgsql_pool_get`, `pgsql_pool_release`), the
-- management thread and a shutdown as steps that interleave in any order. What `PQstatus` and
-- `PQconnectdb` answer is a choice of each step. Pgsql/Pool/Reports has the logging thread, over
-- the numbers that its rounds find, and Pgsql/Pool/Notices the report flags of the repair loop, over
-- what it finds in its attempts.
--
-- Pgsql/Statements, Pgsql/Store and Pgsql/Instance model src/plugins/storage/pgsql.c. The
-- statements are texts that a buffer may cut off. Each function that runs one is written over
-- `Service`, an interface of the pool and of libpq on a world of its own; `Ledger` says how these
-- count connections and results, and `IsUp` what a database does that stores one update time. Fuel
-- counts the attempts of the loops that start again on a bad connection; one attempt is enough
-- where the connection is good. Pgsql/Instance has the configuration, the string for
-- `PQconnectdb`, the maintenance thread until it waits, and `pgsql_get_ready`. The thread's calls
-- of `pgsql_init_table` are those of Pgsql/Store. What `snprintf` makes of a number, `ctime_r` of
-- a time and `atof` of a text are parameters.
--
-- Rrd models src/plugins/sensor/rrd.c. The commands, and the functions of src/storage.c that a
-- beat calls, act on a world that is a parameter (`Outside`). A command may give no pipe, which
-- crashes the process, and a read of the pipe may fail, where the model ends (`Course`): the code
-- goes on with what its buffer still holds. The lines come from `readline` of Io. Rrd/Storage fills
-- the interface with the functions of Submit. Rrd/History and Rrd/Fetched describe a beat for
-- Rrd/Beat, and Rrd/Ends rests on Io/Shrinks. Fuel counts the calls of `readline`, one more than the output has characters, which is
-- enough.
--
-- Startup models `main` of src/netvizd.c: the options that `getopt_long` gives, the stages in their
-- order, the threads that are started, the fork, the wait and the clean-up. The stages, which
-- Daemon fills in, and the system are parameters (`System`); that a child of `fork` has
-- one thread only is a hypothesis. An instance without a plugin, whose pointer `main` reads
-- through, is an end of its own (`crashed`). Log models `_nv_log` of the same file, up to the functions of
-- the C library that put in the arguments.
--
-- Daemon puts the stages together: `nv_plugins_init` and `nv_plugins_free` of src/plugin.c,
-- `nv_config_init` of src/nvconfig.c, which loads the configuration plugin and validates its lists,
-- and the loading loops of Plugin on these lists; the functions that the plugins set are those by
-- which `main` initialises the instances. The library calls, the plugins and the system are
-- parameters (`Platform`). So is what is left over of `nv_config_init`, which ends without a value:
-- a function of its last status and of the state of the process.
--
-- Net models src/plugins/proto/net.c: Net/Listen has `net_listen`, of whose endless loop any number
-- of rounds is run, over calls on sockets that are parameters; Net has the parsing of a request and the sending loop of a
-- `fetch`, Net/Session the main loop of `client_thread`. The storage plugin's `get_ts_data` is a
-- parameter over a world of its own, `double` is a type with a zero and an addition. Net uses the
-- configuration of Config, and its theorems on the search for data sets rest on those on
-- `create_conf`. Numbers are exact: what C leaves undefined on overflow is not modelled, nor that the
-- difference of two times is kept in an `int`.
--
-- Io models `my_read`, `readline` and `writen` of src/io.c over the list of answers that the
-- kernel gives, and Io/Readn `readn`, with counters that wrap around at 2 ^ 64.
--
-- Common holds the shared names: tests on the native numbers, lists, signed integers, C strings,
-- outcomes.
--
-- Not modelled: the messages of debugging, the allocation wrappers and lock macros, which end the process on an error, the usage text, the key under which a thread keeps
-- its `readline` buffer, the grammar of the configuration file, and the Java client.
mod Common
pub mod Daemon
pub mod NvList
pub mod Pgsql
pub mod Config
pub mod Net
pub mod Plugin
pub mod Io
pub mod Heartbeat
pub mod Rrd
pub mod Startup
pub mod Log
pub mod Submit
