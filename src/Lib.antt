-- ===== src/Lib.antt =====
-- NetBox Conductor runs clusters of NetBox nodes: an agent on each node connects to the server
-- over a WebSocket, reports the node's state in heartbeats, and carries out tasks. This library
-- models the server's own decisions, that is, what it does to its tables of sessions and timers,
-- which tasks it sends, and what it computes. It is made of these parts.
--
-- * Nodestate (internal/server/nodestate/nodestate.go): the health and state of a node, its
--   Patroni role, the health of a cluster. The failover manager asks it which nodes may run
--   NetBox. A Go string that has a fixed set of values is a data type; `*bool` is an option; the
--   JSON of a Patroni state is one of the three outcomes of decoding it.
-- * Protocol (internal/shared/protocol/messages.go): task types, dispatch messages, results.
-- * Hub (internal/server/hub/hub.go and session.go): the sessions by node. A `*Session` is a
--   reference into a heap of session objects; closing a closed channel, or sending on one, is a
--   crash. Register, Unregister, UnregisterIfSame, UnregisterCluster, DrainAll, RegisterStaging,
--   UnregisterStaging, Send and the setters are functions of the same names. Hub.Reach is the
--   step relation of a hub in use, where a message may be sent on any session, since SendRaw
--   gets a session and sends on it in two steps. A map is an association list, in one order among those in
--   which Go may walk it.
-- * TaskWatch (hub.go's task watches, and Task.Wait of internal/server/hub/dispatcher.go): what a
--   waiter sees of acks, heartbeats and results. The case that `select` takes is an argument of a
--   round.
-- * Failover (internal/server/failover/manager.go, and Dispatcher.DispatchTask): the handlers and
--   timers of the failover manager. `Env` holds what the database, Patroni's REST API and the
--   clock answer during one handler; `World` holds the hub, the timers and a log of what was
--   done, newest first: rows of task_results, messages to agents, REST calls, events.
--   Failover.Attempt is attemptFailover, Failover.Failback both kinds of attemptFailback,
--   Failover.Maintenance and Failover.Topology are what the operator and the configuration of
--   Patroni call. A handler is one step: what other goroutines do to the database meanwhile is
--   not modelled, nor what they do to the hub between the Get and the Send of a dispatched task,
--   but for the two critical sections of OnNodeConnect, which are separate
--   functions in Failover.Timers.
-- * OpLock (internal/server/oplock/oplock.go): TryLock and the functions that it returns, as
--   handles.
-- * Heartbeats (internal/server/events/heartbeat_processor.go): the events that a heartbeat
--   gives.
-- * FileSync (internal/server/filesync/plan.go): the plans of a two-way sync and of a backup
--   sync, and the batches of messages. A plan lists its copies and deletions; what the maps
--   sends, copies and bytes hold is read off the copies. The sorting of the plan's slices is left
--   out, since no map's order is known before it.
-- * Alerting (internal/server/alerting/engine.go and matcher.go): when an alert of one rule in
--   one scope is sent, sent again, escalated and resolved; and the schedules of rules.
--   Alerting.Matching is MatchesEvent, MatchesMetric and the loop of processEvent.
-- * TaskResults (internal/server/db/queries/task_results.go): the rows that follow tasks, as a
--   list, with a function for each statement; an UPDATE is a map over the rows.
-- * Dispatcher (internal/server/hub/dispatcher.go): StartTask, and what stands around Task.Wait.
-- * Cron (internal/server/cron/cron.go): the parser and the matching of schedules, over texts as
--   lists of code points, with the functions of Go's libraries that it calls. Cron.Print writes
--   schedules as data, and says on which times they fall, without the parser.
-- * Backups (internal/server/scheduler/backupscheduler.go): Backups.due_tier is checkSchedule,
--   Backups.Starts startRound and skipRound, Backups.Rounds fireBackup, Backups.Runs the rows of
--   backup_runs and syncCompletedRuns, Backups.Sync which syncs of backups are started,
--   Backups.Settling the settle timers, a heap of timer objects, and Backups.Ticks the scheduler's
--   tick.
-- * FileSync.Jobs (internal/server/filesync/jobs.go, filesync.go and
--   internal/server/scheduler/filesyncscheduler.go): the jobs of media and folders, and the queue
--   of jobs that wait for a running sync.
-- * FileSync.Stages (filesync.go, and sendOrder of plan.go): what sync does from the plan on, and
--   FileSync.Relay what becomes of the listings and chunks that arrive meanwhile.
-- * Agents (internal/server/api/handlers/agent.go): a connection of an agent from its start to
--   its end. Agents.Connect is connectNode and its deferred function, Agents.Pending its loop
--   over the tasks that wait for the node, Agents.Inbound the handlers of the agent's messages
--   (with Agents.Hosts for those of Patroni's role and Agents.Answers for those of tasks).
--   Agents.State holds what all these change: the world of the failover manager, the rows of
--   tasks, the settle timers, the waiters of tasks, and notes of what was written or published.
--   Agents.Tokens is the registration and the authentication of agents and the tokens behind
--   them, with reissueAgentToken of nodes.go; Agents.Staging the connections of agents without a
--   node and their assignment to one (staging.go).
-- * Scenarios (no code): concrete clusters, agents and listings on which the theorems are
--   applied.
--
-- Base has the shared names, lists and maps. Numbers are natural numbers: durations in seconds,
-- file times in nanoseconds from 1970, UUIDs numbered in the order of their texts. All loops are
-- recursions on a list, but for the loop over a range of a cron field: it has a round of fuel for
-- each number from the first to the one behind the last, and one more, and never runs out since
-- it adds at least one in each. A failover delay or a multiplier below zero counts as zero, which
-- the code treats alike.
--
-- Not modelled: HTTP handlers other than those named above, SQL other than the statements named
-- above, templates of configuration files, cryptography, network output, the agent's own
-- commands, the stages of a file sync before its plan, and how walKeep reads the output of
-- pgbackrest, whose answer is a parameter of the backup plan. So are SHA-256, the matches of
-- regular expressions, the floating-point numbers of metrics, and what json.Unmarshal makes of a
-- backup's output: parameters of the definitions that use them. Log lines are left out
-- everywhere.
pub mod Base
pub mod Nodestate
pub mod Protocol
pub mod Hub
pub mod TaskWatch
pub mod Failover
pub mod OpLock
pub mod Dispatcher
pub mod Heartbeats
pub mod FileSync
pub mod Alerting
pub mod TaskResults
pub mod Cron
pub mod Backups
pub mod Agents
pub mod Scenarios
