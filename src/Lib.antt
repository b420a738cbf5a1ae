-- ===== src/Lib.antt =====
-- HolyPipe: a model of the data replication service in holypipe/, and its correctness.
--
-- A connection copies tables from a source database to a destination. The scheduler starts due
-- batch jobs and keeps CDC workers up; a worker streams changes into the destination and stores
-- how far it came; parts tell each other what happened over the event bus; the API answers
-- requests that pass a permission check.
--
-- - Prelude, Dict: booleans, lists, integers, and Python's dict.
-- - Models: the rows of holypipe/models.py, and the stream definitions kept in them.
-- - Cache: TTLCache of holypipe/cache.py (`get`, `set`, `invalidate`, `get_or_set`). History holds
--   it against a map from keys to values.
-- - Bus: holypipe/bus.py (`publish`, `subscribe`, `_fanout`, `pump`). Newest is about publishing,
--   Fanout about the subscribers, Threads about several threads that publish at once: each call on
--   the queue is one step, and a run is any sequence of steps.
-- - Supervisor: CdcSupervisor of holypipe/engine/cdc.py. A thread is a number that is in the list
--   of live threads until it exits. Registry is about each call, Workers about runs, in which the
--   two parts of a stop come apart.
-- - Scheduler: holypipe/engine/scheduler.py (`_tick` as `tick`, `_run_one` as `finish`). Jobs is
--   about the batch jobs in flight, Restarts about the back-off of CDC workers.
-- - Auth: holypipe/auth.py, over tables of roles, users, sessions and tokens. Header is the parsing
--   of the Authorization header, Callers who a request comes from, Revocation what ends a session,
--   Throttle the LoginThrottle.
-- - Accounts: the handlers of holypipe/api/auth_routes.py over the tables of Auth (`login`,
--   `change_password`, `update_user`, ...). Login is about sessions, Admins about one's own row.
-- - Connector: holypipe/connectors/base.py: the calls on a destination, bounded table names, and
--   the choice of columns that both engines make; Values is `normalize_value`, Schemas
--   `as_dict` and `from_dict`, Tables what
--   `discover` makes of the rows of its queries, Grouping about its dicts.
-- - Cdc: CdcWorker of holypipe/engine/cdc.py. The batch of changes is in Cdc, `run` with its
--   snapshot in Lifecycle. Groups is about the events by stream; Taken tells by the calls which
--   batches a destination took; Batches is about the stored position, Order about the order of
--   changes, Runs about whole runs.
-- - Sync: `run_batch_sync` of holypipe/engine/sync.py. `plan` is what the loop over the streams
--   works out before it reads, `run_stream` its body. Cursors and Streams are about the saved
--   cursor, Shadow about the tables of a full refresh, Failures about cursors that the
--   row cannot hold.
-- - Text: Python's operations on texts: `strip`, `splitlines`, `partition`.
-- - Postgres: holypipe/connectors/postgres.py. Types is `_canonical`, Scan `_scan_columns` and
--   `_coerce_unquoted`, Decode `_parse_test_decoding`, `_parse_wal2json` and `_lsn_to_str`, Stream
--   the loop of `stream_changes`. Print says how test_decoding prints a row: RoundTrip reads it
--   back, Delivery is about what the loop hands over,
--   and Rounds about the fuel of the scanner: one unit for a column, of which there are at most as
--   many as characters.
--   Setup is `_dsn`, `setup_cdc` and `teardown_cdc`, Discover `discover`; Slots is about the slot.
--   Statements and Removals are PostgresDestination, its statements as psycopg2 composes them;
--   Atomic is about its transactions, Swaps about what a reader finds after `swap_in`.
-- - Mysql: holypipe/connectors/mysql.py. Types is `_canonical`, Setup `_conn_kwargs` and
--   `setup_cdc`, Discover `discover`, Binlog the loop of `stream_changes`, a round for each event; Statements and
--   Changes are MysqlDestination, its statements as texts. Delivery is about what the loop hands
--   over, Starts about where it starts, Swaps about a swap that is cut off.
-- - Sqlite: holypipe/connectors/sqlite.py. Types is `_canonical` and `_user_tables`, Journal the
--   loop of `stream_changes` over the rows that the triggers of `setup_cdc` log, between which
--   triggers fire; a round is one step, since what fires within it has a later id. Ids is about
--   the ids of the rows, Delivery about what the loop hands over. Discover is `discover`.
--   Statements is SqliteDestination, its statements as texts and the answers of the database to
--   them, and Setup those of `prepare` and `setup_cdc`; Transactions is about what they leave open.
-- - Types: the canonical types of holypipe/connectors/base.py, over the maps of the connectors;
--   Discovery is about the streams that the Postgres and the MySQL source discover.
-- - Logs: holypipe/logging_util.py, and `get_logs` of holypipe/api/routes.py; Pruning is about
--   `prune_logs`.
-- - Dsn: `parse_dsn` of holypipe/connectors/dsn.py; Fields is about the config that it returns.
-- - Api: the handlers of holypipe/api/routes.py that change something: Connectors those of sources
--   and destinations, with the discovery that uses Cache, Create and Patch those of a connection's
--   row, Operate those that run, resync, start and stop it, with the workers of Supervisor.
--   Discovery is about the cache, Resync about cursors, Workers about the row, the worker and the
--   scheduler after a stop.
-- - Mcp: the tools of holypipe/mcp_server.py that change something, over the handlers of Api
--   (`update_connection`), or with steps of their own (Syncs: `run_sync`, `resync_connection`,
--   which run the job of Sync); Calls is the dispatch, with `_tool` and `asgi_app` around it. Access is about who gets in,
--   Resync compares with the handler, Partial is about calls of `update_connection`.
-- - Recovery: `recover_orphaned_state` of holypipe/engine/recovery.py; Restart is about its result.
--
-- A database is seen only through its answers: a destination is the list of the calls made on it
-- and a function from that list to the next answer, where `none` is an exception; a source is
-- what its methods yield. The clock, bcrypt, SHA-256, random tokens, croniter, urllib, thread joins
-- and the comparison of two values are arguments. An exception is `none`, `fail`, or `false` beside
-- the state it leaves. Python's integers are ℕ or ℤ, with no bound; times are microseconds. A loop
-- runs on its list; only the scanner of Postgres takes fuel, one more than the text has characters,
-- and a half of a log position is printed with at most 8 digits, which its 32 bits need.
--
-- Not modelled: the handlers and tools that only read, but for the log's, the sources' reading, the
-- drivers and servers below the connectors, the metadata store's own engine and the backfill of
-- connection groups, the texts of log lines, the event payloads, the web client, and the wiring of
-- the process; and what a worker's last session writes to its row when a handler other than
-- `stop_cdc` stops it.
pub mod Prelude
pub mod Dict
pub mod Text
pub mod Models
pub mod Cache
pub mod Bus
pub mod Supervisor
pub mod Scheduler
pub mod Auth
pub mod Connector
pub mod Cdc
pub mod Sync
pub mod Recovery
pub mod Accounts
pub mod Postgres
pub mod Mysql
pub mod Sqlite
pub mod Types
pub mod Dsn
pub mod Logs
pub mod Api
pub mod Mcp
