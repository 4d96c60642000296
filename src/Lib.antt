-- ===== src/Lib.antt =====
-- nimplex, a durable coding-agent harness. A runtime owns one state root; everything it knows is in
-- one SQLite database there, every model response and tool result is an explicit commit, and a
-- runtime that opens the root again recovers from what was committed.
--
-- Parts, and where each is modelled.
-- - Status: packages/core/src/status.ts, the states of a run.
-- - Storage: packages/runtime/src/pi-storage (sqlite.ts, schema.ts) and
--   packages/contracts/src/pi-storage.ts, the session storage of the agent harness: a journal of
--   commits, with a digest in each, and projections that every commit updates. Journal has
--   `openStorage`, `commitSync`, `applyCommitted`, `rebuildProjections` and `ownTransaction`,
--   Projections has `apply`, Fork has `importForkSync`, Queries and Branch the readers. Reach is
--   the relation of the stores that these operations reach.
-- - Store: packages/runtime/src/store.ts, the other tables: sessions, turns, the event log of each
--   turn, workspaces, the sandbox ledger, accepted inputs. The records of
--   packages/contracts/src are in Store.Records.
-- - Checkpoints: packages/runtime/src/checkpoints.ts and packages/core/src/workspace.ts, the steps
--   that commit a model call, a tool and a workspace. They run on the store: Settlement is about
--   `commitModelIn`, Minimal and Delta about `commitToolIn`, Guards about the check that the turn is running,
--   History about sequences of steps.
-- - Runtime: packages/runtime/src/runtime.ts, the lifecycle of a turn: the recovery when a
--   root is opened (Lifecycle the turns, Opening the whole), `startTurn` (Starting), `finish`, `resumeTurn`, `launch`, and
--   `events` (Stream), the generator that a subscriber reads, as a loop over its wakings: at each it
--   reads one store, and decides whether to end at the one that it finds when the subscriber has
--   taken the events. Closing has
--   the `catch` of `execute`, `cleanupSandbox` and what `close` does to the sessions once their
--   executions have ended; whether a provider's `delete` returns is a parameter. Executing has the host
--   that `execute` gives a native command, Growth and Hosting the laws that it has as such.
-- - Sessions: packages/runtime/src/sessions.ts. Seeding has `seedTurn`, which Starting calls, with
--   the attachments in Attachments; Branching has `createSession`, `renameSession` and
--   `forkSession`'s transaction, which copies the history of the agent through Storage; Snapshots has
--   `getSession` and `publicEvents`, Forked the whole of `forkSession`, which ends with a snapshot. Requests has the schema of
--   a request (packages/contracts/src/runtime.ts) and the model that it selects
--   (packages/runtime/src/models.ts), Conversation the messages that a turn continues
--   (packages/core/src/conversation.ts).
-- - Metering: packages/runtime/src/sandbox-usage.ts and the sandbox rates of
--   packages/core/src/pricing.ts. A session's open interval is in its record; a settlement appends
--   to the ledger and adds to the session's running total.
-- - Pricing: the prices of model tokens in packages/core/src/pricing.ts, with the estimate for a model
--   that no table lists.
-- - Native: packages/runtime/src/native-bash.ts, a native command in a sandbox. Actions is the monad of
--   its code and Keeps the rules for what a computation keeps; Host has the operations of the turn's
--   host and the provider, Session the sandbox, Launch the supervisor, Journal the journal that the
--   sandbox leaves, Bash `createNativeBash`. Workers is the relation of what any workers' calls
--   reach. Confined is about the journal, Deadline about the loop that reads it, Idle about the session
--   that a call leaves, Once about what a call starts.
-- - Prelude: lists, results, sorting, dictionaries and texts.
--
-- How the code is rendered. A function that throws returns a Result; one that writes takes the
-- tables and returns them. A transaction runs its operation on the tables and keeps the old ones
-- where it throws. A table whose key is one text is a Dict, in the order of the first insertion.
-- The clock, random identities, SHA-256, the JSON text of a value and the checks of the agent
-- library (in @earendil-works packages) are parameters: the records Platform, PiSession and Host.
-- Their documented laws are the records PlatformLaws and PiSessionLaws, and the tests give
-- instances. Times that the code computes with are in milliseconds; a call that reads the clock
-- more than once reads one time. The price of a model call is a whole number of 10⁻¹⁴ dollars and
-- what a turn has spent a whole number of micro-dollars, so that the rounding of `commitModelIn` is
-- exact; sandbox time costs nano-dollars, and a price for tokens is in 10⁻⁴ dollars for a million. Float noise is not modelled. Fields of a record that no
-- modelled code reads are left out. A text is UTF-8 here: where the source counts UTF-16 units, so
-- does the model. node:path, the catalog of models and the truth of a JSON number are parameters.
--
-- A native command runs in a monad over a world: the variables of the closure, the state of the host,
-- the commands that supervisors have started, and the number of requests so far. The provider, the
-- abort signal and the clock answer by that number, so each answer may differ, and whether a request
-- reaches the sandbox does not depend on whether its answer arrives. The operations of the host take it
-- too; their laws say that on the host's good states, which they keep, they only add to the turn's log,
-- and that appending, when it returns, has added its events. The good states of the store are those whose
-- logs have no gaps.
--
-- Fuel. The walk from a branch's leaf to its root (Storage.Branch) has the number of stored entries as
-- its fuel, since a walk without a repetition visits no more; the walk up the directories of an
-- attachment has the length of its path, since each step shortens it; the search up the parents of a
-- session takes its fuel as an argument, and so does the loop that reads a command's journal, each
-- with a theorem on what is enough.
--
-- Not modelled: the promise queue that serialises commits, abort signals and listeners, so each
-- operation is one step; the ownership lock on the root, which is a Boolean where the storage reads
-- it; the schema's versions; the executors between a start and its end (pi-executor.ts,
-- pi-harness-engine.ts), with queued input and the compaction of a conversation; model providers,
-- what a sandbox does with a command, extensions, the terminal interface.
pub mod Prelude
pub mod Status
pub mod Storage
pub mod Store
pub mod Checkpoints
pub mod Runtime
pub mod Metering
pub mod Sessions
pub mod Pricing
pub mod Native
