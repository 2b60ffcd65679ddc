-- ===== src/Lib.antt =====
-- DevBoard: the hub that collects the state of the nodes, and the uplink by which a node reports to it.
--
-- A node samples its local state and sends snapshots over HTTP; the loop that decides when to send, under
-- which session identity and with which sequence number is the uplink. The hub authenticates a request,
-- validates the snapshot, orders it against what it has accepted of the node, and stores it; the
-- dashboard reads the store. In the older, pulled mode a host polls its peers and keeps their last good
-- state. On the node, the events of coding agents drive tasks, whose checkpoint,
-- attention and lifecycle are what a snapshot shows: the reducer takes one event at a time, finds the
-- memory of its session, and updates the local store in one step. Navigation actions travel the other way: the hub
-- queues them per node, the node polls and acknowledges them.
--
-- The modules and the code they model:
--   State.Enums, State.Public   internal/state/model.go (named strings), internal/state/public.go
--   State.Internal, State.Root  internal/state/model.go (agents and tasks; the root of the state)
--   State.Store                 internal/state/store.go (Update, UpdateIf, Replace, Changes)
--   State.Display               internal/state/display_status.go (DeriveDisplay)
--   State.Projector             internal/state/projector.go (ProjectPublic, validTarget)
--   State.Acknowledge           internal/state/task_ack.go (AcknowledgeTask)
--   Agent.Events                internal/agent/event.go (Validate), vocabularies of internal/agent/adapters.go
--   Agent.Sanitize              internal/agent/sanitize.go (truncateUTF8, normalizeSingleLine)
--   Agent.Checkpoints           internal/agent/task_reducer.go (setTaskCheckpoint, toolCheckpoint)
--   Agent.Tasks                 internal/agent/task_reducer.go (applyTaskEvent and the rest that it calls)
--   Agent.Creation              internal/agent/task_reducer.go (newTaskState)
--   Agent.Alerts                internal/agent/reducer.go (upsertAlert, resolveAlert, resolveAllAgentAlerts)
--   Agent.Reducer               internal/agent/reducer.go: the configuration, the sources, findAgent; its
--                               children Turns (applyWorking and the like), Prompt (beginTurn, sessionEnd),
--                               Steps and Reduce (reduce), Submit, Maintenance; the other children prove
--   Navigation                  internal/navigation/navigation.go (Action, Result)
--   Navigation.Execute          internal/navigation/navigation.go (Resolve, Execute)
--   Hub.Registry                internal/hub/registry.go (NewRegistry, Lookup, Authenticate)
--   Hub.Validation              internal/hub/validation.go and the type of internal/hub/snapshot.go
--   Hub.Store                   internal/hub/store.go (Apply, MarkTaskRead, pruneReadAcksLocked)
--   Hub.Dashboard               internal/hub/store.go (Dashboard, dedupeQuota), internal/dashboard/model.go
--   Hub.Actions                 internal/hub/actions.go (the queues)
--   Hub.Receiver                internal/hub/receiver.go and the action routes of internal/hub/actions.go
--   Multihost.Peers             internal/multihost/store.go (PeerSnapshotStore)
--   Multihost.Poller            internal/multihost/poller.go (pollPeer, validatePeerState)
--   Uplink.Client               internal/uplink/client.go (Send, PollActions, AckAction) and
--                               internal/uplink/snapshot.go (Build, Digest)
--   Uplink.Actions              internal/uplink/scheduler.go (pollActions); its children put it over the
--                               action routes of the hub
--   Uplink.SchedulerState       internal/uplink/scheduler.go (SchedulerConfig, schedState, Health)
--   Uplink.Scheduler            internal/uplink/scheduler.go (Run, attempt, resync)
--   Tests                       runs at concrete inputs
--
-- The state of each component is a record with the fields of the source; an operation is a function from
-- the state and its arguments to the new state and the result. The hub's store is guarded by a mutex, so
-- an operation is one step, and a history is a list of steps. The names are those of the source in
-- snake_case; an operation whose body is long is cut into helpers that stand beside it.
--
-- An instant is a number of nanoseconds with 0 for the zero time.Time; a difference of instants stops
-- at 0, where the source's may be negative: it is only compared with bounds that are not negative. A
-- map is an association list. A sequence number of the uplink and the revision of the local store wrap
-- at 2^64, and a run is bounded accordingly. A float64 is carried as its bits. Every loop recurses on
-- a list or a number; the only fuel is that of the decimal digits of a number (Prelude.Text), one
-- round more than the number, and more gives the same.
--
-- A pointer of the reducer into a list of the root is the first entry with its key; the memory of a session
-- that the map has dropped is lost when the event is over. The id that a new alert draws is an argument
-- of the step, and the ids of a run of maintenance are a sequence.
--
-- Parameters: the project of a working directory (it runs git), SHA-256 and its hexadecimal text, the JSON
-- texts and decoders, the parser of endpoints, the copy of a state through JSON (a function that may fail), the
-- media type that the mime package gives, the clock, the entropy source, the network and its replies, the
-- order in which Go walks the map of navigation targets, whether a command of the operating system
-- succeeds and whether that is macOS, the hash of a public state, and what wakes the loop.
--
-- Not modelled: the adapters and the runtime of internal/agent (sockets and files), the goroutines of
-- internal/multihost, configuration, metrics and quota collection, the web pages, diagnostics and logging,
-- the command line and the macOS application.
pub mod Agent
pub mod Hub
pub mod Multihost
pub mod Navigation
pub mod Prelude
pub mod State
pub mod Tests
pub mod Uplink
