-- ===== src/Lib.antt =====
-- satan-attrd: a daemon that turns events about interventions, file operations, sensors and idle
-- time into bounded changes of eight attributes, logs each change and keeps their current values.
--
-- Files, and the Rust files they model (paths from the repository's root):
--   Prelude, Prelude/   names shared by all files; integers over the native numbers
--   F64, F64/           what the program uses of `f64`, exact: a finite value is an integer number
--                       of 2^-1074, and each operation rounds once, to nearest, ties to even
--   Error               src/error.rs: the errors that the modelled code returns
--   Clock               src/clock.rs: SystemClock, and FakeClock with its mutex and its clones
--   Types, Types/       src/types.rs: each enum with `as_str` and `from_str`
--   Extern              timestamps and JSON values, which are parameters of the model
--   Tuning              src/tuning.rs: magnitudes, confidence weights, the delta tables
--   Steps, Steps/       steps of a task on its state, which end in a value, an error or a panic
--   Store/Counter, Event, Id   src/store.rs: Counter (`AtomicI32`, overflow included), EventInsert
--                       and its check, the text id of an event
--   Store/Database      the tables, and one statement on them: atomic, and failing where the
--                       schedule of faults of the world says so; transactions
--   Store/Operations, Settings, Rebuild   the operations on the tables, with their constraints
--   Store/Operations/Order, Store/Rebuild/Order, Agrees   sorted rows, and the order of the replay
--   Rpc, Rpc/           src/rpc.rs: the version of a payload, and the audit queue
--   Rpc/Numbers, Rpc/Numbers/Major   `split` and `parse` on a version, and the texts with a major number 1
--   Dispatcher/Weight   src/dispatcher.rs: Confidence and `weight_delta`
--   Dispatcher/Plan     `plan_for`: the friction cap, then the range clamp
--   Dispatcher/Input    the inputs of the dispatchers
--   Dispatcher/Emit     the loop that the dispatchers share, with the counter passed along
--   Dispatcher/Outcome, Signal, Maintenance, Evidence   the four dispatchers and what they record
--   RunLoop/Lru         src/run_loop.rs: LruCounterMap
--   RunLoop/Lru/LastUse, Recency   the runs by their last use, and those that the map holds
--   RunLoop/Payload, Parse, Union   the payloads, their parsers, `union_affected`
--   RunLoop/Parse/Cue, Fields   what an accepted outcome payload says of its JSON
--   Dispatcher/Prior    `gather_prior_actuals`
--   RunLoop/Loop, Read, Audit, Write, Process   the handler of one inbox row
--   RunLoop/Write/Stored, Derived   the tables after the loop that stores events, and the log
--   RunLoop/Drain       the drains, the notifications and the replies
--   Decay, Decay/Tick   src/decay.rs: the rows that are due, the counter of the day, `tick`
--   Decay/Returns, Stamps, Stamping, Rows, Covers, Settled   the decay stamps through a tick
--   Daemon/Writes, Moves, Sound   what each statement of the daemon, and the broker, does to the
--                       tables, in any order
--   Daemon/Runs, Performs, Operations, Handlers, Ticks   each operation, handler and tick as a sequence
--                       of those statements
--   Daemon/Run          the loops of src/run_loop.rs and src/decay.rs
--   Daemon/Claims, Drains, Ends   what becomes of a row of the inbox
--   NotifyStream        src/notify_stream.rs: the lines that the subcommand writes
--   NotifyStream/Lines  what a reader of those lines gets
--   Main                src/main.rs and src/pool.rs: the subcommands and their exit codes
--   Tests, Tests/       runs at concrete inputs
--
-- How the parts interact: the run loop claims an inbox row, parses its payload, reads the current values, asks the counter
-- map for the counter of the payload's run and calls a dispatcher. The dispatcher walks a row of the
-- delta table, plans each attribute and allocates one number per event. A panic of the counter is
-- `none`, so a dispatcher that panics returns no events. The events are stored one by one: inserted in
-- the log, projected unless disabled, and queued for audit; then the row is deleted. The decay
-- scheduler does the same from its own clock and with a counter of its own.
--
-- Bounds: `exponent` of F64 looks for a binade with fuel 2045, which is the number of binades of
-- binary64, so it reaches the exponent of every finite value. Infinities and NaN are left out: every
-- value that the program stores is in [0, 1] or one delta away from it. Counters are `i32`, from
-- -2^31 to 2^31 - 1, with the wrap of `fetch_add` and the saturation of the returned value. The two
-- zeros of binary64 are one. `decimal` writes 10 digits at most, which is enough for an `i32`.
--
-- The tables: a table is the list of its rows in the order in which the database gives them without
-- ORDER BY. The orders of times and texts, `->>` and `NOW()` are parameters. A world says for each
-- statement to come whether the connection fails at it, so a theorem about every world is about every
-- schedule of faults.
--
-- Tasks: the run loop and the scheduler run in one process and interleave at their statements. A
-- handler is modelled as one function on the tables, with no other statement between its own; in
-- Daemon/Moves the statements of both tasks and of the broker come in any order. A rebuild is a process
-- of its own and not among those moves. What wakes a loop (notifications, the times of an interval,
-- signals) is an argument, a list in the order of arrival.
--
-- Not modelled: the set-up of tracing, the reading of DATABASE_URL, the migrations and their runner,
-- and `outcome_evidence_json`, a helper of tests; the texts of log lines
-- and error messages.
pub mod Prelude
pub mod F64
pub mod Error
pub mod Clock
pub mod Types
pub mod Extern
pub mod Steps
pub mod Tuning
pub mod Store
pub mod Rpc
pub mod Dispatcher
pub mod RunLoop
pub mod Decay
pub mod Daemon
pub mod NotifyStream
pub mod Main
mod Tests
