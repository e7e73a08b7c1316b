-- ===== src/Lib.antt =====
-- NookBridge: the core logic of a daemon that gives programs access to encrypted notes.
--
-- The parts, and the files that model them:
-- * The gate of a database (src/core/notesnook-database-mutex.ts) lets one exclusive function or
--   several shared ones run. DatabaseMutex has the state, the queue and the operations; its children
--   have the invariant, the order of service, the interleavings of arriving and ending functions, and
--   the registry of all gates. A promise that is kept waiting is its waiter's ticket.
-- * The settings (src/settings/) decide which notes may be read, edited, created or deleted.
--   Settings/Types has the data, Settings/Glob the patterns of settings-glob.ts, and
--   Settings/Evaluator the decisions of settings-evaluator.ts. Settings/NotebookIndex has the paths of
--   notebooks, from notebook-index.ts.
--   Settings/Loader reads a settings file, as settings-loader.ts does.
-- * The services (src/service/) answer programs and the operator. Service/Policy/Profiles has
--   the lists of methods of service-policy.ts, and Service/Policy the
--   inspection of a policy and the decision about a method. Service/Operator has the operator's
--   methods and policy (operator-methods.ts, operator-policy.ts), Service/Operator/Context the
--   resolution of targets, locks and notebooks (operator-authorization-context.ts), and
--   Service/Operator/Authorizer the decision (operator-authorizer.ts). Service/UndoStore is the
--   encrypted store of the operator's operations (notes-undo-store.ts), Service/UndoStore/Recovery
--   its opening, and Service/UndoStore/Changes and Calls its operations as abstract steps.
--   Service/Discovery decides what a search or a list may show (discovery-visibility.ts), on the
--   snapshot of Service/Discovery/Hierarchy with the paths of Settings/NotebookIndex, and Service/AbuseBounds has the limits of
--   service-abuse-bounds.ts.
-- * The synchronisation (src/core/notesnook-sync-coordinator.ts) keeps a queue of the local changes
--   that are not uploaded yet. Sync/Types and Sync/Store have the markers and the durable state,
--   Sync/Queue the calls that record, resolve and release markers, Sync/Approvals the operator's
--   approvals, Sync/Drain the drain that hands the queue to an executor, and Sync/SingleFlight the
--   requests that share one drain. Sync/PersistentStore is the store of
--   src/core/notesnook-sync-state-store.ts, which fills the interface of Sync/Store.
--   Sync/RecoveryJournal has the journals of src/core/notesnook-recovery-journal.ts.
--
-- The parts meet in these places: the evaluator compiles patterns by Settings/Glob and takes the files
-- that Settings/Loader accepts, the policies ask the evaluator, and the coordinator saves to any store
-- that has the record SyncStore, of which a memory store and the persistent store are given.
--
-- Strings are lists of UTF-16 code units (Common/Texts), and unknown values are JSON values, functions
-- and `undefined` (Common/Js); accessors, proxies and symbol keys are left out. Times are natural
-- numbers of milliseconds, and the jitter of a backoff is an exact fraction, where the code has floating
-- point. Sequences are not bounded by the model, and the code checks their bound on loading alone.
--
-- Two loops have fuel. The search over parent paths (`findNotebookMatch`) need not end; more fuel than
-- the path is long is enough for a path that does not begin with a slash. The walk to the root of a
-- notebook ends before it visits one twice, so that more fuel than one more than there are notebooks is
-- enough. A drain counts the attempts that are left, where the code counts those that were made.
--
-- The drain takes what comes from outside as an argument: the clock's readings, the executor's answers,
-- whether sleeps return, and the calls on the coordinator that other code makes at each `await`. The
-- key-value table under the persistent store is a record with the law that a written value is read
-- back, and the JSON text in between is left out. The undo store takes the file system, the cipher, the
-- clock and random bytes as parameters, without laws. The operator's authorizer takes the functions
-- that resolve a request; what resolves its target is asked at three moments, which may differ.
--
-- Not modelled are the network, the files, the command line, the MCP adapter and the servers, which are
-- input and output, and the Notesnook packages under the core; the write path is
-- not modelled. Of the coordinator, the constructor's checks
-- on its functions are left out, and the `idle` result, which no code makes.
pub mod Common
pub mod DatabaseMutex
pub mod Settings
pub mod Service
pub mod Sync
