-- ===== src/Lib.antt =====
-- A model of subagent007, which starts delegated agent runs as child processes, queues them,
-- settles their results and keeps a durable record of each.
--
-- A start with a client's id is admitted once (ClientStart, src/clientStartAdmission.ts). An
-- admitted run asks for a lease of a child, or waits in its owner's queue (Children,
-- src/activeChildLease.ts). Its child is watched until it settles (Runner,
-- src/processRunner.ts), and may ask for input (Mailbox, src/inputMailbox.ts), within the times
-- of its budget (Budget, src/timeoutBudget.ts and src/env.ts). Its claim changes under a lock
-- (ClaimLock, src/runClaimLock.ts). The result is classified and tested (Settlement, of
-- src/runSubagent.ts and src/runTask.ts), named by a terminal status (Lifecycle,
-- src/runLifecycle.ts), and its outputs are shown (Projection, src/terminalProjection.ts). A run of
-- a named session commits its child's session file, its record and the session's manifest together
-- (Session, src/session.ts). A child delegates further over a control socket (Recursion,
-- src/recursiveControl.ts, with the server's handler of src/server.ts and src/runTask.ts). The
-- skills of a run may be kept as snapshots (Snapshots, src/skillSnapshotStore.ts), and the web calls
-- of a research run are accounted for (Dispatch, src/researchDispatchMediator.ts).
--
-- - Common: the names that the others share, texts by their code points, JSON values, chains of
--   optional results, and calls that change a state and can throw.
-- - ClientStart.Records: the persisted records, `validatePersistedRecord` and what is written.
--   ClientStart.Admission: the directory as a map from paths to contents, and every exported call;
--   a `Moment` says how the lock and the writes of one call go. The calls take effect one after the
--   other; one whose lock is found changed at its release has overlapped another, and leaves any
--   directory. SHA-256, `Date.parse` and the schema of a request are the parameter `Platform`.
-- - Children: `State` has the lease files, the ticket files and the owner's own map;
--   `admitActiveChild`, the tickets, the promotion and the pump are functions on it. The capacity
--   lock is not contended; its attempts are those of the source. The pump's fuel is one more than
--   the runs that wait. Timers and a cancellation inside one promotion are left out.
-- - Runner: `Runner` has the variables of `runChildProcess`, `Event` what its timers, its child and
--   its callbacks do, and `step` is what each does; `cleanup_on_parent_exit` is the listener of the
--   exit of the process, and `run_promise` what the promise of the run answers. Whether the process
--   groups are gone is part of the events. Streams, process-group registration, heartbeats and the
--   waiting for the chain of output lines are left out.
-- - Settlement: `Evidence` is what a run knows of its child, `result_of_run` the fields of its
--   result, `normalize_accepted_cancellation` and `has_consistent_result_status` those of runTask.ts.
-- - Mailbox: the request and settlement files; `settle_input_request_at_path` takes what other
--   processes do between its read and its write. Mailbox.Requests has the exported calls. The
--   closing of all requests of a run and the sorted listing are left out.
-- - ClaimLock: `act` is the next step of one process on the lock file of a run, `run` the steps of
--   a schedule; only these processes write the file. The durable record of a run is changed under
--   this lock.
-- - Session: `World` is the directory of a session and the number of writes until the process dies;
--   Session.Commit has `commitAttemptSession` and its replay as single writes, Session.Run what
--   `runSubagentSession` does under its lock, Session.Request its checks. A write is done or not done,
--   JSON texts are the values that they hold, and hashes, the functions of `path`, and random texts
--   are the parameter `Platform`; the paths that the code makes of them are definitions, and
--   Session.Posix has the functions of a POSIX system, for which Session.Ledger.Posix shows what
--   Session.Ledger relies on. A child, with the copy of the session that it is given, is a function
--   that the run takes. Session.Lock has the lock file, as steps of any number of processes. The preflight, the
--   packet files and the failure log are left out.
-- - Recursion: Recursion.Caller has the checks of a request, Recursion.Server the answer to a line,
--   Recursion.Child what a child is given and sends, and Recursion.Delegation the handler of a
--   delegation on the list of runs, newest first. A line is a JSON value or no JSON; the parts of one
--   answer do not overlap with others. `Schedule` stands for `scheduleRunTask`, and SHA-256 and the
--   length of a text in UTF-8 are the parameter `Platform`. The socket itself is left out.
-- - Snapshots: `Store` has the bundles, the references and the publications; Snapshots.References,
--   Snapshots.Publications and Snapshots.Deletion have the exported calls, each under its lock, which
--   is free or held by another process for as long as the call waits. Digests and orders of locales
--   are the parameter `Platform`; the files of a bundle and the digest of a publication's record are
--   left out.
-- - Dispatch: `Mediator` has the two sets of the mediator by the ids of tool calls, and counts what the
--   controller has accepted; `dispatch_step` is what the answers of the controller and the results
--   that arrive do.
-- - Budget, Lifecycle and Projection: each function of its file under its own name.
--
-- Numbers are natural numbers; a difference that the source lets go below 0 is met by the maximum
-- with 1 that follows it. Message texts are left out. The other files of src/ are not modelled.
pub mod Budget
pub mod Children
pub mod ClaimLock
pub mod ClientStart
pub mod Common
pub mod Dispatch
pub mod Lifecycle
pub mod Mailbox
pub mod Projection
pub mod Recursion
pub mod Runner
pub mod Session
pub mod Settlement
pub mod Snapshots
