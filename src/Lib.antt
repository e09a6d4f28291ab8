-- ===== src/Lib.antt =====
-- A library about the Collective Capability Runtime, a Python runtime (src/ccr) in which agents lease
-- tasks from file queues, report residuals and promote packets. The state of a runtime root is its
-- JSON files, the rows of its SQLite tables, and the clock.
--
-- Modules, and the code that they are about:
--   Prelude    shared names: tests on numbers and texts, lists, maps, signed integers, sorting
--   Json       decoded JSON as Python holds it, with get, [k] = v, update, bool(), int()
--   Result     exceptions as values
--   Env        what is not the repository's own code: SHA-256, str() of containers, ISO-8601 text,
--              the JSON Schema validator, casefold, where a path resolves; a
--              parameter, an instance argument everywhere
--   Floats     Python's floats: their type and operations, a parameter
--   Exec       the state (World) and the code that runs on it: reads and writes of files
--              (src/ccr/io.py), now_utc and now_iso (src/ccr/time.py), immediate_transaction
--              (src/ccr/storage/sqlite.py); Exec/Laws has the rules for how a run ends, Exec/Steps
--              the effect of each primitive, Exec/Directory sorted(path.glob(pattern)), Exec/Columns
--              what SQLite can store in a column
--   Ids        src/ccr/ids.py and json_file_name of src/ccr/io.py
--   Time       src/ccr/time.py: durations and expiry; Time/Expiry is its meaning at an instant
--   Residuals  src/ccr/residuals/model.py; below it Store is src/ccr/residuals/store.py and Lifecycle
--              src/ccr/residuals/lifecycle.py, with its operations in Lifecycle/Refines and
--              Lifecycle/Resolving
--   Blackboard src/ccr/blackboard: events and their log
--   Tasks      src/ccr/tasks/model.py and what the task modules share; below it Queue is
--              src/ccr/tasks/store.py, Factory src/ccr/tasks/factory.py, Lease
--              src/ccr/tasks/lease.py and Lifecycle src/ccr/tasks/lifecycle.py. Machine is the
--              abstract life of one task, Tracking the relation between a stage of that life and a
--              runtime root, Traces any sequence of calls, Submitting where a task's life starts;
--              Lease/Refines, Lease/Release and the children of Lifecycle have one operation each.
--              Tasks/Scheduler is src/ccr/tasks/scheduler.py: Score and Ranking are its parts,
--              Order and Choice say which task it chooses
--   Packets    src/ccr/packets/status.py, model.py and store.py; below it Gates and Promotion are
--              src/ccr/packets/promotion.py, Exact says when the gates pass, and Promotion/Outcome
--              what a promotion leaves
--   Control    src/ccr/storage/control.py: documents under a key, on the SQLite backend
--   Operations src/ccr/operations/approval.py: Create and Consume are its two operations, Registry
--              the edit that takes a use; Uses is what one such edit does, Replay any
--              number of them, and Nonces is about registration and what follows it
--   Workcells  src/ccr/workcells/protocol.py: Advance, Submit, Claims, Integrate and Create are its
--              operations; Loading, Keeping, Stages, Runs, Grouping, Integrating and Creating are
--              about one call of these, any sequence of them, and how claims are grouped
--   Phase      Eligibility is src/ccr/phase/eligibility.py and Threshold src/ccr/phase/threshold.py;
--              Contributing and Accepting say when a packet counts and an observation is accepted,
--              Distance how far from its threshold that is then
--   Optimizer  Journal is src/ccr/optimizer/growth_ledger.py, its append and the digest chain of
--              replay, and Chained about both; Invalidation is how replay carries the
--              invalidation of an asset on, Descendants and Withdrawal say how far; Values,
--              Profile, Terms, Listed (what such checks find), Plans and Normalize are normalize
--              of src/ccr/optimizer/growth_model.py, Lineage its loop over the parents of assets,
--              Acyclic what this loop finds, Ranked what it means for a profile
--   Tests      concrete runs
--
-- How a call is modelled: an operation is a function from a World to a result and the World that it
-- leaves, so that the state behind an exception can be stated. A transaction that raises restores
-- the tables and not the files, as the code does. The methods of one process are atomic: the write
-- lock of SQLite makes the calls of several processes one sequence, and Traces is about all
-- sequences.
--
-- Numbers and texts: Python integers are signed integers over the native numbers and have no
-- bound; instants are microseconds since year 1, up to the last one of a datetime, and a shift
-- beyond that raises OverflowError. The columns of SQLite have 64 bits: an integer beyond that
-- raises OverflowError when a lease or residual row is written, and a list or an object raises a
-- binding error; the file has been written by then, and only the rows are rolled back. A duration
-- of more than 4300 digits is refused with ValueError, by the default limit of int(). Digits,
-- letters and spaces that the code reads, strips or lowers are ASCII; casefold and the operations
-- of floats are parameters. Three recursions are on fuel: the printing of a number has the number
-- plus one, and a number has no more digits than that; the lineage loop of a growth profile has
-- one round more than there are assets, since each round removes one at least, and never runs out
-- of them (Optimizer/Acyclic); and so has the loop of replay over invalidated assets, since each
-- round but the last makes one fall (Optimizer/Withdrawal).
--
-- Not modelled: the temporary file and fsync of write_json_atomic, size and depth limits of read_json,
-- symbolic links (require_path_within_root passes on the paths that are built here, since an
-- identifier has no separator), storage failures, telemetry spans, and the mirror of events in
-- SQLite; init_runtime, which create_workcell calls first, is an argument, and so is what
-- normalize_config makes of the base of a growth profile. The rest of the optimizer, the residual
-- market, the command line and the audits are left.
pub mod Prelude
pub mod Json
pub mod Result
pub mod Env
pub mod Floats
pub mod Exec
pub mod Ids
pub mod Time
pub mod Residuals
pub mod Blackboard
pub mod Tasks
pub mod Packets
pub mod Phase
pub mod Control
pub mod Operations
pub mod Workcells
pub mod Optimizer
pub mod Tests
