-- ===== src/Dispatcher.antt =====
-- StartTask, RunTask and orphan of internal/server/hub/dispatcher.go: tasks that the server follows.
--
-- `Task.Wait` is TaskWatch.wait_round; here is what stands around it.
use netbox_conductor.Base.{ℕ, ◌+◌, String, Bool, Option, none, some, ◌⊎◌, inl, inr, if◌then◌else◌}
use netbox_conductor.Protocol.{TaskType, Params}
use netbox_conductor.Failover.State as Manager
use netbox_conductor.Failover.State.{Env, DispatchError}
use netbox_conductor.Failover.Tasks.{dispatch_task}
use netbox_conductor.TaskResults.{TaskTable, mark_orphaned}
use netbox_conductor.TaskWatch.{
  Waiters, Task, watch_task, done, Reason, result_never_arrived, away_or_never_received, WaitResult,
  no_result,
}

pub record Dispatcher : Type 0 where
  pub manager : Manager.World
  pub waiters : Waiters

followed : ℕ → Task → Option DispatchError → Dispatcher → (DispatchError ⊎ Task) × Dispatcher
followed id t none d = (inr t, d)
followed id t (some err) d = (inl err, record d { waiters = done id d.waiters })

-- The task's id is the next UUID. The watch stands before the task is sent, and is taken away if it
-- cannot be sent.
unfoldable pub start_task :
    Env
    → (node : ℕ) → TaskType
    → Params
    → (timeout_secs : ℕ) → Dispatcher
    → (DispatchError ⊎ Task) × Dispatcher
unfolding followed
start_task e node type params timeout_secs d =
    let id = d.manager.next_uuid in
    let t : Task = record { id = id; node = node; deadline = e.now + timeout_secs } in
    let watched = watch_task id node d.waiters in
    let (err, m) = dispatch_task e node type params timeout_secs timeout_secs d.manager in
    followed id t err (record { manager = m; waiters = watched })

reason_text : Reason → String
reason_text result_never_arrived = "the agent no longer has the task and its result never arrived"
reason_text away_or_never_received = "timed out: the agent was away or never received the task"

-- `orphan`, for a wait that ends without a result; `ok` says whether the statement succeeds.
unfoldable pub orphan_if_lost : (now : ℕ) → Bool → Task → WaitResult → TaskTable → TaskTable
unfolding reason_text
orphan_if_lost now ok t (no_result why) rows =
    if ok then mark_orphaned now t.id (reason_text why) rows else rows
orphan_if_lost now ok t _ rows = rows

-- The deferred `done` of Wait.
unfoldable pub end_wait : Task → Waiters → Waiters
end_wait t ws = done t.id ws
