-- ===== src/Failover/State.antt =====
-- What the failover manager reads, and what it changes.
--
-- A handler runs against one state of the database and answers of Patroni, which `Env` holds; it
-- changes the hub's send buffers and its own timers, and does what the log lists, newest first.
use netbox_conductor.Base.{ℕ, String, Bool, Option, List, Map, ◌∷◌}
use netbox_conductor.Nodestate.{Node}
use netbox_conductor.Protocol.{TaskType, Params, TaskDispatchPayload, Envelope}
use netbox_conductor.Hub.{Hub}

-- A row of the clusters table, with the columns that the manager reads.
pub record Cluster : Type 0 where
  pub id : ℕ
  pub mode : String
  pub auto_failover : Bool
  pub auto_failback : Bool
  pub app_tier_always_available : Bool
  pub failover_on_maintenance : Bool
  pub failover_delay_secs : ℕ
  pub failback_multiplier : ℕ
  pub patroni_configured : Bool

-- Why a task was not dispatched: it was not recorded, or not sent.
pub data DispatchError : Type 0 where
  not_recorded not_connected buffer_full : DispatchError

-- A POST to the Patroni REST API at an address.
pub data RestRequest : Type 0 where
  switchover : (ip leader candidate : String) → RestRequest
  forced_failover : (ip master candidate : String) → RestRequest

pub data RestError : Type 0 where
  request_failed : RestError
  status_returned : ℕ → RestError

-- What calls out of the manager answer: the time in seconds; rows of the database, `none` for an
-- error; whether an INSERT of a task succeeds; the status of a REST call, `none` if it got none; and
-- the text of a UUID.
pub record Env : Type 0 where
  pub now : ℕ
  pub cluster : ℕ → Option Cluster
  pub node : ℕ → Option Node
  pub nodes : ℕ → Option (List Node)
  pub create_ok : ℕ → TaskType → Bool
  pub set_sent_ok : Bool
  pub rest : RestRequest → Option ℕ
  pub uuid_string : ℕ → String

pub data EventType : Type 0 where
  failover_initiated failover failback_initiated failback maintenance_failover : EventType

pub data Trigger : Type 0 where
  disconnect heartbeat reconnect maintenance : Trigger

pub data Reason : Type 0 where
  no_candidate : Reason
  dispatch_failed stop_failed start_failed : DispatchError → Reason

-- The constants CodeFailoverInitiated to CodeMaintenanceFailover.
pub data Code : Type 0 where
  code_failover_initiated code_failover_completed code_failover_failed : Code
  code_failback_initiated code_failback_completed code_maintenance_failover : Code

pub data Severity : Type 0 where
  info warn error : Severity

-- The parts of a message, which the code joins with spaces.
pub data Part : Type 0 where
  from to : String → Part
  triggered : Trigger → Part
  because : Reason → Part

-- An event of the category "ha" by the actor "system".
pub record HaEvent : Type 0 where
  pub severity : Severity
  pub code : Code
  pub message : List Part
  pub cluster_id : ℕ
  pub node_id : Option ℕ

-- An SSE event: its type, and the node and the success that it reports.
pub data Published : Type 0 where
  failover_triggered : (node : ℕ) (success : Bool) → Published
  failback_triggered : (node : ℕ) → Published

-- The column request_payload: the parameters of a task, or a whole dispatch message.
pub data RequestPayload : Type 0 where
  inner : Params → RequestPayload
  whole : TaskDispatchPayload → RequestPayload

pub data Effect : Type 0 where
  -- A row of task_results in the state "queued", with its ack timeout if it has one of its own.
  recorded : (node task_id : ℕ) → TaskType → RequestPayload → Option ℕ → Effect
  marked_sent : (task_id : ℕ) → Effect
  delivered : (node : ℕ) → Envelope → Effect
  rest_called : RestRequest → Effect
  emitted : HaEvent → Effect
  published : Published → Effect

-- What a timer does when it fires.
pub data Job : Type 0 where
  attempt_failover_job : (node cluster : ℕ) (check_netbox_running : Bool) → Trigger → Job
  attempt_failback_job : (node cluster : ℕ) → Job

pub record Timer : Type 0 where
  pub due : ℕ
  pub job : Job

pub record World : Type 0 where
  pub hub : Hub
  pub started_at : ℕ
  pub fail_timers : Map Timer
  pub failback_timers : Map Timer
  pub next_uuid : ℕ
  pub log : List Effect

abbrev pub do_effect : Effect → World → World
do_effect e w = record w { log = e ∷ w.log }
