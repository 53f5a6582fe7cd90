-- ===== src/Lib.antt =====
-- Codex Remote Host: the Go program that lets remote clients drive Codex agents on this machine.
--
-- The program's parts. A client's connection (internal/gateway) sends requests; the dispatcher
-- deduplicates the ones with side effects through the SQLite store (internal/persistence) and
-- hands them to the Codex manager (internal/codex), which drives the Codex app-server processes
-- (internal/runtime, internal/adapter, internal/session) and keeps workspaces
-- (internal/workspace). Everything that happens to a Codex is published as an event through the
-- activity store (internal/activity), which commits it with the Codex's CurrentView in the SQLite
-- store and delivers it to the watching connections.
--
-- Which file models which part.
-- - Prelude and its children: Boolean tests, lists measured by native numbers, Go maps as
--   association lists. Errors: the error values that the packages tell apart.
-- - Persistence: the tables that the modelled statements touch, with the driver's answers to the
--   coming transactions as a list of faults. Persistence/Events: LoadEventState and CommitEvent.
--   Persistence/Dedup: BeginRequest and CompleteRequest of internal/persistence/store.go.
-- - Activity and its children: internal/activity/store.go. Load: ensure, loadDurable, reloadUnsafe
--   and ReloadDurable; Publish: Publish; Watch: Watch, watchLocked, continuousReplayAvailable,
--   ForceReset and CurrentView; Forget: Forget and its wrapper. A step of History is one call of an
--   operation, made under the store's mutex, so that any interleaving of goroutines is a list of
--   steps. Interface is what the store needs of the database; Persistence/Events/Refines fills it.
-- - Gateway: internal/gateway/dispatcher.go. The Backend is a parameter: for each method a function
--   from the request id, the message and its state to an answer and the next state.
-- - Gateway/Kinds, Gateway/Call, Gateway/Dispatch: operation and markDeduplicated, call, and
--   validateRequest with Dispatch. Gateway/Once, Gateway/History and Gateway/Replay are proofs; a
--   step of a history is one dispatched request. The field `calls` of the World is a log of the
--   backend's calls that the code does not keep.
-- - Codex/Store: persistState, publishEvent, publishCodex, rollbackLifecycleState and
--   preserveLifecycleState of internal/codex/manager.go, with the answers of the two stores as a
--   list of replies. Codex/Lease: UnmanageCodex, renewLease, RenewForegroundCodexes, sweepLease and
--   sweepLeases. Codex/Turn: RenameCodex and setRunning. Codex/Pending: upsertPending and
--   resolvePending. Codex/Pages: page sizes and page tokens. Codex/Items: findItem, upsertItem and
--   boundHistoryPage.
-- - Codex/Budget: contentBudget, boundString, validUTF8Prefix and mergeCompleteness of
--   internal/codex/manager.go, and boundedProtoPrefix, boundPendingRequest, boundWarning, boundError
--   and boundCodex of internal/codex/budget.go.
-- - Gateway/Server and its children: one connection of internal/gateway/server.go. Queue: enqueue,
--   protocolClose, shutdown, writeLoop, writeOutbound and heartbeat; Watches: handleWatch,
--   handleUnwatch and forwardWatch over the operations of an event store; Frames: handleRaw and
--   readLoop. A move of Moves is one step of one of the connection's goroutines; the writer takes a frame,
--   writes it and hangs up in separate moves, and shutdown cancels in one and clears the watches in
--   another. Ledger is the modelled Activity store as a connection uses it, with a number for each
--   watch that its pointer is. Bounds, Handled, Read, Writer, Running, Order, Store, Handed, Taken,
--   Silence and Closing are proofs.
-- - Workspace/Access: Register, RestoreAgent, AgentStarted, AgentStopped and the state half of
--   WriteText and Upload of internal/workspace/service.go; an operation that calls the state sink is
--   two steps, and a history is a list of the steps of Moves. Workspace/Service: New, Register,
--   Unregister, State and rootForAccess on the map of workspaces. Workspace/Files: the files of
--   WriteText and Upload (stageTarget, rollback, discard, atomicFile, validateMutationTarget,
--   validateUploadTarget, extractZIPAtomic, replaceTree, entryMetadata). Workspace/Paths:
--   canonicalRelative and within, on the bytes and the elements of a path. Workspace/Reads: the
--   attempts of ReadText and the page of List.
-- - Runtime: the Manager of internal/runtime/manager.go; Supervise: startInstance and supervise.
-- - Adapter: the JSON-RPC client of internal/adapter/client.go. A call takes its id, registers under the
--   lock, writes and ends in separate moves, and closeWithError closes done in one and resets pending in
--   another.
-- - Tests: runs of the definitions at concrete inputs.
--
-- How state and loops correspond to the code. An operation takes the state and returns its result
-- with the next state. Loops over maps and slices are recursion on the list. Goroutines that share
-- a lock or a channel are a list of moves, in any order; a move is what is done under the lock, or one
-- send, write or close outside of it. The binary search of
-- Codex/Budget runs on fuel, the length of the slice, and the restart loop of Runtime/Supervise on
-- MaxRestarts + 1 rounds, which their theorems show to be enough. Times, sequence numbers,
-- generations and counts of agents and restarts are natural numbers: they are int64, uint64 or
-- uint32 in the code and far below the bound. The sum of the declared sizes of an archive, the
-- count of its entries and the ids of calls keep their wrap-around.
--
-- What is a parameter. The protobuf messages and their JSON form (generated code and protobuf-go)
-- are type parameters with a Codec; SQLite is the record Db with a list of faults; the auditor is
-- a function; so are the backend and the hash of a request's payload. The calls of package os that
-- Workspace/Files makes are the record Os, any of which may fail; IsOs says what their documentation
-- promises of the entries of one directory. What a WebSocket message decodes to, the size of an
-- outgoing frame and whether it could be written are arguments of the steps of a connection; so is
-- what the app-server process, its socket and the clock do, for Runtime.
--
-- What is not modelled. internal/session, internal/directory, internal/tailnet,
-- internal/capability, internal/audit, internal/attachment, internal/codex/translate.go,
-- internal/codex/workspace.go, internal/adapter/adapter.go and cmd are processes, files and sockets,
-- or are left for a later extension, and so is the handling of turns and items in internal/codex. Of
-- internal/workspace, Download and the search for the canonical root are left out; of internal/gateway/server.go, the HTTP handlers and the calls of the auditor. The
-- steps of WriteText and Upload on the files are taken as one operation that no other one
-- interrupts. The lease model leaves out the fields of a Codex that its operations copy, the text
-- of a warning, and the test hooks of the Manager.
pub mod Prelude
pub mod Errors
pub mod Persistence
pub mod Activity
pub mod Gateway
pub mod Codex
pub mod Workspace
pub mod Runtime
pub mod Adapter
mod Tests
