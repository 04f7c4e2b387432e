-- ===== src/Agents/Answers.antt =====
-- What internal/server/api/handlers/agent.go does with an acknowledgement, a result and a backup's event.
use Prim.Native.String.{◌++◌}
use netbox_conductor.Base.{
  ℕ, String, Bool, true, false, ◌&&◌, Option, none, some, List, [], ◌∷◌, if◌then◌else◌,
}
use netbox_conductor.Protocol.{pgbackrest_catalog, TaskResultPayload}
use netbox_conductor.Failover.State.{Env}
use netbox_conductor.TaskResults.{TaskResult, set_ack, complete, get_by_task_id}
use netbox_conductor.TaskWatch.{notify_task_ack, notify_task_result}
use netbox_conductor.Heartbeats.{Event}
use netbox_conductor.Agents.State.{World, note, emitted, catalog_stored, result_published}

unfoldable pub handle_task_ack : Bool → Option ℕ → World → World
handle_task_ack ok none w = w
handle_task_ack ok (some task) w = record w {
  tasks = if ok then set_ack task w.tasks else w.tasks;
  waiters = notify_task_ack task w.waiters;
}

join : List String → String
join [] = ""
join (s ∷ []) = s
join (s ∷ ss) = s ++ (", " ++ join ss)

repaired_event : List String → (node cluster : ℕ) → Event
unfolding join
repaired_event paths node cluster = record {
  category = "agent";
  severity = "warn";
  code = "NBC-AGT-005";
  message = "Agent restored its access to " ++ join paths;
  cluster_id = some cluster;
  node_id = some node;
  metadata = [];
}

emit_repaired : List String → (node cluster : ℕ) → World → World
unfolding repaired_event
emit_repaired [] node cluster w = w
emit_repaired (p ∷ ps) node cluster w = note (emitted (repaired_event (p ∷ ps) node cluster)) w

is_catalog : Option TaskResult → Bool
is_catalog none = false
is_catalog (some t) = elim t.task_type [
  | none ↦ false
  | some pgbackrest_catalog ↦ true
  | some _ ↦ false
]

record_result : Env → Bool → (cluster : ℕ) → Option ℕ → TaskResultPayload → World → World
unfolding is_catalog
record_result e ok cluster none res w = w
record_result e ok cluster (some task) res w =
    let w' = record w {
      tasks = if ok then complete e.now task res w.tasks else w.tasks;
      waiters = notify_task_result task res w.waiters;
    } in
    if res.success && is_catalog (get_by_task_id task w'.tasks)
    then note (catalog_stored cluster res.output) w'
    else w'

unfoldable pub handle_task_result :
    Env → Bool → (r : ℕ) → Option ℕ → TaskResultPayload → List String → World → World
unfolding record_result emit_repaired
handle_task_result e ok r task res repaired w =
    let s = w.manager.hub.heap r in
    let w1 = emit_repaired repaired s.node_id s.cluster_id w in
    note (result_published s.node_id res) (record_result e ok s.cluster_id task res w1)

backup_event_of : Bool → (repo message : String) → (node cluster : ℕ) → Event
backup_event_of is_error repo message node cluster = record {
  category = "cluster";
  severity = if is_error then "error" else "warn";
  code = if is_error then "NBC-CLU-014" else "NBC-CLU-013";
  message =
      if is_error
      then "Backup to storage location " ++ (repo ++ (" failed: " ++ message))
      else "Backup storage location " ++ (repo ++ (": " ++ message));
  cluster_id = some cluster;
  node_id = some node;
  metadata = ("repo", repo) ∷ [];
}

unfoldable pub handle_backup_event : (r : ℕ) → Bool → (repo message : String) → World → World
unfolding backup_event_of
handle_backup_event r is_error repo message w =
    let s = w.manager.hub.heap r in
    note (emitted (backup_event_of is_error repo message s.node_id s.cluster_id)) w
