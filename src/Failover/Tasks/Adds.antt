-- ===== src/Failover/Tasks/Adds.antt =====
-- What the dispatch helpers add to the log: effects of their own tasks, and no others.
use netbox_conductor.Base.{
  ℕ, ◌==◌, ◌&&◌, String, Bool, true, false, ◌||◌, not, ◌≡◌, Option, none, some, List, [], ◌∷◌,
  arith, Bool-cases, inl, inr,
}
use netbox_conductor.Nodestate.{Node, is_app_role}
use netbox_conductor.Protocol.{
  TaskType, start_netbox, stop_netbox, update_db_host, update_redis_host, Params, no_params,
  host_params, Envelope,
}
use netbox_conductor.Hub.{get, is_connected, send}
use netbox_conductor.Failover.State.{DispatchError, Env, World}
use netbox_conductor.Failover.Tasks.{
  send_raw, mark_sent, dispatch_task, dispatch_service_task, db_host_update_on,
  redis_host_update_on, dispatch_db_host_update, dispatch_redis_host_update, enqueue_for_reconnect,
}
use netbox_conductor.Failover.Log.{
  NotTask, Adds, same, more, Adds-trans, has, records_start, delivers_stop,
}

module _ (p : TaskType → Bool) where
  send_raw-Adds :
      (node : ℕ) (env : Envelope) (o : Option ℕ) (w : World)
      → p env.payload.task_type ≡ false
      → Adds (NotTask p) w.log (send_raw node env o w).1.log
  unfolding send_raw
  send_raw-Adds node env none w h = same
  send_raw-Adds node env (some r) w h = elim (Bool-cases (send r env w.hub).0) [
    | inl b ↦ rw b (more h same)
    | inr b ↦ rw b same
  ]

  mark_sent-Adds :
      (ok : Bool) (id : ℕ) (r : Option DispatchError × World)
      → Adds (NotTask p) r.1.log (mark_sent ok id r).1.log
  unfolding mark_sent
  mark_sent-Adds ok id (some err, w) = same
  mark_sent-Adds true id (none, w) = more tt same
  mark_sent-Adds false id (none, w) = same

  pub dispatch_task-Adds :
      (e : Env) (node : ℕ) (t : TaskType) (q : Params) (timeout ack : ℕ) (w : World)
      → p t ≡ false
      → Adds (NotTask p) w.log (dispatch_task e node t q timeout ack w).1.log
  unfolding dispatch_task
  dispatch_task-Adds e node t q timeout ack w h = elim (Bool-cases (e.create_ok node t)) [
    | inr no_row ↦ rw no_row same
    | inl row ↦ rw row (
        Adds-trans (Adds-trans (more h same) (send_raw-Adds node _ (get node w.hub) _ h))
          (mark_sent-Adds e.set_sent_ok w.next_uuid _))
  ]

  pub dispatch_service_task-Adds :
      (e : Env) (n : Node) (t : TaskType) (w : World)
      → p t ≡ false
      → Adds (NotTask p) w.log (dispatch_service_task e n t w).1.log
  unfolding dispatch_service_task
  dispatch_service_task-Adds e n t w h = dispatch_task-Adds e n.id t no_params 30 0 w h

  db_host_update_on-Adds :
      (e : Env) (host : String) (n : Node) (w : World)
      → p update_db_host ≡ false
      → Adds (NotTask p) w.log (db_host_update_on e host n w).log
  unfolding db_host_update_on
  db_host_update_on-Adds e host n w h = elim (Bool-cases (is_connected n.id w.hub)) [
    | inr off ↦ rw off same
    | inl on ↦ rw on (dispatch_task-Adds e n.id update_db_host (host_params host false) 30 0 w h)
  ]

  redis_host_update_on-Adds :
      (e : Env) (host : String) (n : Node) (w : World)
      → p update_redis_host ≡ false
      → Adds (NotTask p) w.log (redis_host_update_on e host n w).log
  unfolding redis_host_update_on
  redis_host_update_on-Adds e host n w h = elim (Bool-cases (is_connected n.id w.hub)) [
    | inr off ↦ rw off same
    | inl on ↦ rw on (elim (Bool-cases (n.maintenance_mode || not (is_app_role n.role))) [
      | inl skip ↦ rw skip same
      | inr serve ↦
          rw serve (dispatch_task-Adds e n.id update_redis_host (host_params host true) 30 0 w h)
    ])
  ]

  pub dispatch_db_host_update-Adds :
      (e : Env) (ns : List Node) (host : String) (w : World)
      → p update_db_host ≡ false
      → Adds (NotTask p) w.log (dispatch_db_host_update e ns host w).log
  unfolding dispatch_db_host_update
  dispatch_db_host_update-Adds e [] host w h = same
  dispatch_db_host_update-Adds e (n ∷ ns) host w h =
      Adds-trans (db_host_update_on-Adds e host n w h)
        (dispatch_db_host_update-Adds e ns host (db_host_update_on e host n w) h)

  pub dispatch_redis_host_update-Adds :
      (e : Env) (ns : List Node) (host : String) (w : World)
      → p update_redis_host ≡ false
      → Adds (NotTask p) w.log (dispatch_redis_host_update e ns host w).log
  unfolding dispatch_redis_host_update
  dispatch_redis_host_update-Adds e [] host w h = same
  dispatch_redis_host_update-Adds e (n ∷ ns) host w h =
      Adds-trans (redis_host_update_on-Adds e host n w h)
        (dispatch_redis_host_update-Adds e ns host (redis_host_update_on e host n w) h)

  pub enqueue_for_reconnect-Adds :
      (e : Env) (n : Node) (t : TaskType) (w : World)
      → p t ≡ false
      → Adds (NotTask p) w.log (enqueue_for_reconnect e n t w).log
  unfolding enqueue_for_reconnect
  enqueue_for_reconnect-Adds e n t w h = elim (Bool-cases (e.create_ok n.id t)) [
    | inl row ↦ rw row (more h same)
    | inr no_row ↦ rw no_row same
  ]

-- A start is recorded exactly if its row can be written.
pub dispatch_start-has :
    (e : Env) (m : ℕ) (n : Node) (w : World)
    → has (records_start m) (dispatch_service_task e n start_netbox w).1.log
      ≡ ((e.create_ok n.id start_netbox && n.id == m) || has (records_start m) w.log)
unfolding dispatch_service_task dispatch_task send_raw mark_sent
dispatch_start-has e m n w = ground arith

-- A stop that is dispatched without an error was handed to the agent.
pub dispatch_stop-has :
    (e : Env) (n : Node) (w : World)
    → (dispatch_service_task e n stop_netbox w).0 ≡ none
    → has (delivers_stop n.id) (dispatch_service_task e n stop_netbox w).1.log ≡ true
unfolding dispatch_service_task dispatch_task send_raw mark_sent
dispatch_stop-has e n w h = ground arith
