-- ===== src/TaskResults.antt =====
-- internal/server/db/queries/task_results.go and internal/server/scheduler/tasks.go: the rows that
-- follow tasks, and the statements that change them.
--
-- A statement that fails changes nothing; whether it does is an answer of its caller's environment.
-- Times are in seconds.
pub mod Lifecycle
pub mod Listing
use netbox_conductor.Base.{
  ℕ, ◌+◌, ◌-◌, String, Bool, true, false, ◌&&◌, ◌||◌, Option, none, some, List, [], ◌∷◌, ◌++◌, map,
  ◌==◌, ltb, leb, if◌then◌else◌, count, keep,
}
use netbox_conductor.Protocol.{TaskType, TaskType-discrete, TaskResultPayload}
use netbox_conductor.Failover.State.{RequestPayload}

pub data Status : Type 0 where
  queued sent ack success failure timeout : Status

-- The column response_payload: the JSON of a result, or of the reason of a task without one.
pub data ResponsePayload : Type 0 where
  of_result : TaskResultPayload → ResponsePayload
  of_error : (reason : String) → ResponsePayload

-- A row. `request_payload` is `none` for NULL, and `task_type` is `none` for the empty text.
pub record TaskResult : Type 0 where
  pub node_id : ℕ
  pub task_id : ℕ
  pub task_type : Option TaskType
  pub status : Status
  pub request_payload : Option RequestPayload
  pub response_payload : Option ResponsePayload
  pub ack_timeout_secs : Option ℕ
  pub queued_at : ℕ
  pub completed_at : Option ℕ

abbrev pub TaskTable : Type 0
TaskTable = List TaskResult

unfoldable pub create : ℕ → ℕ → ℕ → TaskType → RequestPayload → TaskTable → TaskTable
create now node task type payload rows =
    rows
    ++ record {
      node_id = node;
      task_id = task;
      task_type = some type;
      status = queued;
      request_payload = some payload;
      response_payload = none;
      ack_timeout_secs = none;
      queued_at = now;
      completed_at = none;
    }
      ∷ []

unfoldable pub create_with_ack_timeout :
    ℕ → ℕ → ℕ → TaskType → RequestPayload → ℕ → TaskTable → TaskTable
create_with_ack_timeout now node task type payload secs rows =
    rows
    ++ record {
      node_id = node;
      task_id = task;
      task_type = some type;
      status = queued;
      request_payload = some payload;
      response_payload = none;
      ack_timeout_secs = some secs;
      queued_at = now;
      completed_at = none;
    }
      ∷ []

-- `UPDATE task_results SET … WHERE …`.
abbrev pub update_where : (TaskResult → Bool) → (TaskResult → TaskResult) → TaskTable → TaskTable
update_where p f = map (λ r. if p r then f r else r)

abbrev pub has_task : ℕ → TaskResult → Bool
has_task task r = r.task_id == task

abbrev pub with_status : Status → TaskResult → TaskResult
with_status s r = record r { status = s }

unfoldable pub set_sent : ℕ → TaskTable → TaskTable
set_sent task = update_where (has_task task) (with_status sent)

unfoldable pub set_ack : ℕ → TaskTable → TaskTable
set_ack task = update_where (has_task task) (with_status ack)

abbrev pub final_status : Bool → Status
final_status true = success
final_status false = failure

abbrev pub completed : ℕ → TaskResultPayload → TaskResult → TaskResult
completed now res r = record r {
  status = final_status res.success;
  response_payload = some (of_result res);
  completed_at = some now;
}

unfoldable pub complete : ℕ → ℕ → TaskResultPayload → TaskTable → TaskTable
complete now task res = update_where (has_task task) (completed now res)

abbrev pub is_status : Status → Status → Bool
is_status queued queued = true
is_status sent sent = true
is_status ack ack = true
is_status success success = true
is_status failure failure = true
is_status timeout timeout = true
is_status _ _ = false

abbrev pub orphaned : ℕ → String → TaskResult → TaskResult
orphaned now reason r = record r {
  status = timeout;
  response_payload = some (of_error reason);
  completed_at = some now;
}

unfoldable pub mark_orphaned : ℕ → ℕ → String → TaskTable → TaskTable
mark_orphaned now task reason =
    update_where (λ r. has_task task r && (is_status sent r.status || is_status ack r.status))
      (orphaned now reason)

-- The first row; a task id is unique.
abbrev pub first_row : List TaskResult → Option TaskResult
first_row [] = none
first_row (r ∷ rs) = some r

unfoldable pub get_by_task_id : ℕ → TaskTable → Option TaskResult
get_by_task_id task rows = first_row (keep (has_task task) rows)

-- SentTimeout, AckTimeout and QueuedTimeout.
pub record Timeouts : Type 0 where
  pub sent_timeout : ℕ
  pub ack_timeout : ℕ
  pub queued_timeout : ℕ

abbrev pub coalesce : Option ℕ → ℕ → ℕ
coalesce none d = d
coalesce (some n) d = n

-- The row was queued longer ago than the limit of its status.
unfoldable pub is_stale : ℕ → Timeouts → TaskResult → Bool
is_stale now t r =
    is_status sent r.status && ltb (r.queued_at + t.sent_timeout) now
    || (is_status ack r.status && ltb (r.queued_at + coalesce r.ack_timeout_secs t.ack_timeout) now
        || is_status queued r.status && ltb (r.queued_at + t.queued_timeout) now)

abbrev pub timed_out : ℕ → TaskResult → TaskResult
timed_out now r = record r { status = timeout; completed_at = some now }

-- The table, and the number of rows that the sweep changed.
unfoldable pub timeout_stale : ℕ → Timeouts → TaskTable → TaskTable × ℕ
unfolding is_stale
timeout_stale now t rows =
    (update_where (is_stale now t) (timed_out now) rows, count (is_stale now t) rows)

-- `ORDER BY queued_at`.
insert_by_time : TaskResult → List TaskResult → List TaskResult
insert_by_time r [] = r ∷ []
insert_by_time r (s ∷ rows) =
    let rest = insert_by_time r rows in
    if leb r.queued_at s.queued_at then r ∷ s ∷ rows else s ∷ rest

order_by_time : List TaskResult → List TaskResult
unfolding insert_by_time
order_by_time [] = []
order_by_time (r ∷ rows) = insert_by_time r (order_by_time rows)

unfoldable pub is_pending : ℕ → TaskResult → Bool
is_pending node r = r.node_id == node && (is_status queued r.status || is_status sent r.status)

unfoldable pub list_pending_by_node : ℕ → TaskTable → List TaskResult
unfolding is_pending order_by_time
list_pending_by_node node rows = order_by_time (keep (is_pending node) rows)

-- One reading of `WaitSuccess`, `none` for another one: the deadline is over, the row is read or not.
poll_status : Status → Option Bool
poll_status success = some true
poll_status failure = some false
poll_status timeout = some false
poll_status _ = none

poll_row : Option TaskResult → Option Bool
unfolding poll_status
poll_row none = none
poll_row (some r) = poll_status r.status

or_else : Option Bool → Bool → Bool
or_else none b = b
or_else (some a) b = a

-- `WaitSuccess` over what the table answers at the readings before its deadline, one every three
-- seconds; a wait whose context ends sees no more of them.
unfoldable pub wait_success : ℕ → List (Option TaskTable) → Bool
unfolding poll_row or_else get_by_task_id
wait_success task [] = false
wait_success task (none ∷ rest) = wait_success task rest
wait_success task (some rows ∷ rest) =
    or_else (poll_row (get_by_task_id task rows)) (wait_success task rest)
