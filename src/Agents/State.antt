-- ===== src/Agents/State.antt =====
-- What the agent handler of internal/server/api/handlers/agent.go reads and changes.
--
-- The failover manager, the backup scheduler, the emitter and the catalog are there, as
-- cmd/server/main.go wires them. What a handler starts as a goroutine is done where it is started.
use netbox_conductor.Base.{ℕ, String, Bool, Option, List, [], ◌∷◌, ◌++◌, Map}
use netbox_conductor.Protocol.{TaskResultPayload}
use netbox_conductor.Hub.{Hub}
use netbox_conductor.Failover.State as Manager
use netbox_conductor.Failover.State.{Cluster, Env, recorded, marked_sent}
use netbox_conductor.TaskResults.{TaskTable, create, create_with_ack_timeout, set_sent}
use netbox_conductor.TaskWatch.{Waiters}
use netbox_conductor.Heartbeats.{HeartbeatState, HeartbeatInput, Event}
use netbox_conductor.Backups.Settling.{Settling}

-- What is written to the database, to the agent or to the users, in the order newest first.
pub data Note : Type 0 where
  agent_status_written : (node : ℕ) → (connected : Bool) → Note
  token_touched : (node : ℕ) → Note
  status_published : (node : ℕ) → (connected : Bool) → Note
  hello_written : Option Cluster → Note
  heartbeat_stored heartbeat_published : HeartbeatInput → Note
  version_stored : (cluster : ℕ) → String → Note
  emitted : Event → Note
  role_published : (node : ℕ) → (role prev_role : String) → Note
  backups_synced : (cluster : ℕ) → Note
  catalog_stored : (cluster : ℕ) → (output : String) → Note
  result_published : (node : ℕ) → TaskResultPayload → Note

pub record World : Type 0 where
  pub manager : Manager.World
  pub tasks : TaskTable
  pub settling : Settling
  pub waiters : Waiters
  pub hb_states : Map HeartbeatState
  pub notes : List Note

abbrev pub note : Note → World → World
note n w = record w { notes = n ∷ w.notes }

abbrev pub with_hub : (Hub → Hub) → World → World
with_hub f w = record w { manager = record w.manager { hub = f w.manager.hub } }

-- What an effect of the dispatcher does to the rows of tasks.
unfoldable pub apply_effect : ℕ → Manager.Effect → TaskTable → TaskTable
apply_effect now (recorded node task type payload Option.none) rows =
    create now node task type payload rows
apply_effect now (recorded node task type payload (Option.some secs)) rows =
    create_with_ack_timeout now node task type payload secs rows
apply_effect now (marked_sent task) rows = set_sent task rows
apply_effect now _ rows = rows

-- The effects, newest first.
unfoldable pub apply_effects : ℕ → List Manager.Effect → TaskTable → TaskTable
unfolding apply_effect
apply_effects now [] rows = rows
apply_effects now (x ∷ xs) rows = apply_effect now x (apply_effects now xs rows)

-- A function of the failover manager or of the dispatcher, with its effects on the rows of tasks.
unfoldable pub run_manager : Env → (Manager.World → Manager.World) → World → World
unfolding apply_effects
run_manager e f w =
    let m = f (record w.manager { log = [] }) in
    record w {
      manager = record m { log = m.log ++ w.manager.log };
      tasks = apply_effects e.now m.log w.tasks;
    }
