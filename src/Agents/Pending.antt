-- ===== src/Agents/Pending.antt =====
-- The tasks that an agent gets when it connects: the loop over its pending rows in connectNode of
-- internal/server/api/handlers/agent.go.
--
-- The session's channel has room for 64 messages, and the pump that empties it starts after the loop.
pub mod Sent
pub mod Rows
pub mod Full
pub mod Hubs
pub mod Enqueued
use netbox_conductor.Base.{
  ℕ, String, Bool, true, false, ◌&&◌, not, Option, none, some, List, [], ◌∷◌, if◌then◌else◌,
}
use netbox_conductor.Protocol.{
  TaskType, Params, dispatch_params, Envelope, safe_to_retry_on_reconnect,
}
use netbox_conductor.Hub.{Hub, send}
use netbox_conductor.Failover.State.{RequestPayload, inner, whole}
use netbox_conductor.TaskResults.{
  TaskResult, TaskTable, Status, queued, sent, is_status, set_sent, mark_orphaned,
  list_pending_by_node,
}

-- Whether the statements succeed.
pub record Answers : Type 0 where
  pub list_ok : Bool
  pub set_sent_ok : Bool
  pub mark_orphaned_ok : Bool

pub record Delivery : Type 0 where
  pub hub : Hub
  pub tasks : TaskTable

abbrev pub orphan_reason : String
orphan_reason =
    "task was in-flight when agent disconnected; not safe to retry automatically (non-idempotent operation)"

-- The column as the parameters of a message, whatever JSON it holds.
abbrev pub params_of : RequestPayload → Params
params_of (inner p) = p
params_of (whole d) = dispatch_params d.task_id d.task_type d.params d.timeout_secs

-- The dispatch message for a row.
abbrev pub envelope : ℕ → TaskType → RequestPayload → Envelope
envelope task type payload = record {
  id = task;
  payload = record {
    task_id = task;
    task_type = type;
    params = params_of payload;
    timeout_secs = 60;
  };
}

-- The answer of `Send` is not looked at.
abbrev pub deliver : ℕ → Envelope → Delivery → Delivery
deliver r env d = record d { hub = (send r env d.hub).1 }

pub advance : Answers → TaskResult → Delivery → Delivery
advance a t d =
    if is_status queued t.status && a.set_sent_ok
    then record d { tasks = set_sent t.task_id d.tasks }
    else d

pub orphan : Answers → ℕ → TaskResult → Delivery → Delivery
orphan a now t d =
    if a.mark_orphaned_ok
    then record d { tasks = mark_orphaned now t.task_id orphan_reason d.tasks }
    else d

resend_as :
    Answers
    → (now r : ℕ) → TaskResult
    → Option RequestPayload
    → Option TaskType
    → Delivery
    → Delivery
unfolding advance orphan
resend_as a now r t none type d = d
resend_as a now r t (some payload) none d = d
resend_as a now r t (some payload) (some type) d =
    if is_status sent t.status && not (safe_to_retry_on_reconnect type)
    then orphan a now t d
    else advance a t (deliver r (envelope t.task_id type payload) d)

-- The body of the loop.
unfoldable pub resend : Answers → (now r : ℕ) → TaskResult → Delivery → Delivery
unfolding resend_as
resend a now r t d = resend_as a now r t t.request_payload t.task_type d

unfoldable pub resend_all : Answers → (now r : ℕ) → List TaskResult → Delivery → Delivery
unfolding resend
resend_all a now r [] d = d
resend_all a now r (t ∷ ts) d = resend_all a now r ts (resend a now r t d)

unfoldable pub dispatch_pending : Answers → (now r node : ℕ) → Delivery → Delivery
unfolding resend_all
dispatch_pending a now r node d =
    if a.list_ok then resend_all a now r (list_pending_by_node node d.tasks) d else d
