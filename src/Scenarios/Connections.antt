-- ===== src/Scenarios/Connections.antt =====
-- An agent that connects, connects again and goes away, and the tasks that wait for it.
use netbox_conductor.Base.{
  ℕ, zero, suc, ◌+◌, ◌-◌, ◌++◌, ◌≤◌, Bool, true, false, ◌≡◌, refl, none, some, List, [], ◌∷◌,
  length, In, inl, keep, lookup, insert, arith, is_some, if◌then◌else◌,
}
use netbox_conductor.Protocol.{start_netbox, stop_netbox, db_backup, no_params, TaskResultPayload}
use netbox_conductor.Hub.{Hub, is_connected, register, new_session, send_capacity}
use netbox_conductor.Failover.State.{Env, inner, disconnect, attempt_failover_job}
use netbox_conductor.Failover.Timers.{grace}
use netbox_conductor.Failover.Tasks.{enqueue_for_reconnect}
use netbox_conductor.Backups.Settling as Settling
use netbox_conductor.Backups.Settling.{settled}
use netbox_conductor.TaskResults.{
  TaskResult, TaskTable, queued, sent, has_task, complete, is_pending, list_pending_by_node, create,
  Timeouts, timeout_stale,
}
use netbox_conductor.TaskResults.Lifecycle.{Statement, creates, orphans, sweeps, run, run-settled}
use netbox_conductor.Agents.State.{World, apply_effects}
use netbox_conductor.Agents.Pending.{Answers, Delivery, dispatch_pending}
use netbox_conductor.Agents.Pending.Sent.{buffer, filled, messages, dispatch_pending-messages}
use netbox_conductor.Agents.Pending.Rows.{NotQueued, IsWaiting}
use netbox_conductor.Agents.Pending.Full.{dispatch_pending-full}
use netbox_conductor.Agents.Pending.Enqueued.{
  left_row, left_message, dispatch_pending-enqueue_for_reconnect,
}
use netbox_conductor.Agents.Connect.{connect_node, end_connection}
use netbox_conductor.Agents.Connect.Replaced.{end_connection-connect_node}
use netbox_conductor.Agents.Connect.Ended.{end_connection-current}
use netbox_conductor.Agents.Inbound.{HeartbeatPayload}
use netbox_conductor.Agents.Inbound.Transitions.{heartbeats, changes, heartbeats-due}
use netbox_conductor.Scenarios.Failovers.{env, world, one, two, first}

abbrev row : ℕ → TaskResult
row id = record {
  node_id = 1;
  task_id = id;
  task_type = some start_netbox;
  status = queued;
  request_payload = some (inner no_params);
  response_payload = none;
  ack_timeout_secs = none;
  queued_at = id;
  completed_at = none;
}

-- A backup that is under way, and a start that waits.
abbrev rows : TaskTable
rows = record (row 4) { task_type = some db_backup; status = sent } ∷ row 5 ∷ []

abbrev answered : Answers
answered = record { list_ok = true; set_sent_ok = true; mark_orphaned_ok = true }

abbrev delivery : TaskTable → Delivery
delivery tasks = record { hub = two; tasks = tasks }

opened : (two.heap 11).closed ≡ false
opened = unfold register new_session lookup insert in refl

dispatch_pending-messages_example :
    buffer 11 (dispatch_pending answered 100 11 1 (delivery rows)).hub
    ≡ filled (buffer 11 two) (messages (list_pending_by_node 1 rows))
dispatch_pending-messages_example =
    dispatch_pending-messages answered 100 11 1 (delivery rows) opened

-- The stop that a failover leaves for the node 1.
abbrev left : TaskTable
left = apply_effects 100 (enqueue_for_reconnect (env false) first stop_netbox (world one)).log []

abbrev limits : Timeouts
limits = record { sent_timeout = 60; ack_timeout = 300; queued_timeout = 600 }

-- Before the node connects, the task of another one is recorded and swept.
abbrev since : TaskTable
since = (timeout_stale 650 limits (create 0 2 9 start_netbox (inner no_params) left)).0

dispatch_pending-enqueue_for_reconnect_example :
    In (left_row (env false) first stop_netbox 0) left
    × In
        (left_message stop_netbox 0)
        (buffer 11 (dispatch_pending answered 650 11 1 (delivery since)).hub)
dispatch_pending-enqueue_for_reconnect_example =
    dispatch_pending-enqueue_for_reconnect (env false) first stop_netbox (world one) [] answered 650
      11 (delivery since) refl refl kept refl opened room
  where
    room : length (buffer 11 two) + length (messages (list_pending_by_node 1 since)) ≤ send_capacity
    room =
        unfold register new_session apply_effects enqueue_for_reconnect create timeout_stale
          list_pending_by_node is_pending in
        ground arith

    kept : In (left_row (env false) first stop_netbox 0) since
    kept = unfold apply_effects enqueue_for_reconnect create timeout_stale in inl refl

-- 65 tasks wait, of which the one of the number 0 was left last.
abbrev others : ℕ → TaskTable
others zero = []
others (suc n) = record (row (suc n)) { queued_at = 64 - suc n } ∷ others n

abbrev last : TaskResult
last = record (row 0) { queued_at = 100 }

abbrev crowd : TaskTable
crowd = last ∷ others 64

dispatch_pending-full_example :
    let d = dispatch_pending answered 100 11 1 (delivery crowd) in
    (buffer 11 d.hub ≡ filled (buffer 11 two) (messages (others 64))) × NotQueued 0 d.tasks
dispatch_pending-full_example =
    dispatch_pending-full answered 100 11 1 last (others 64) [] (delivery crowd) refl refl opened
      order crowded (inl refl) refl waiting
  where
    order : list_pending_by_node 1 crowd ≡ others 64 ++ last ∷ []
    order = unfold list_pending_by_node is_pending in refl

    crowded : send_capacity ≤ length (buffer 11 two) + length (messages (others 64))
    crowded = unfold register new_session lookup insert in omega arith

    waiting : IsWaiting last
    waiting = record {
      waits = refl;
      typed = (start_netbox, refl);
      with_params = (inner no_params, refl);
    }

-- The task 5 has its result, and others come and go.
abbrev done : TaskResultPayload
done = record { success = true; output = "ok"; error_msg = "" }

abbrev later : List Statement
later =
    creates 100 1 6 start_netbox (inner no_params) ∷ orphans 200 5 "lost" ∷ sweeps 900 limits ∷ []

abbrev finished : TaskTable
finished = complete 90 5 done rows

run-settled_example : keep (has_task 5) (run later finished) ≡ keep (has_task 5) finished
run-settled_example =
    run-settled 5 later finished (refl, (refl, (refl, tt))) (unfold complete in (refl, tt))

-- The server's tables, with no timers and no heartbeats yet.
abbrev tables : Hub → World
tables hub = record {
  manager = world hub;
  tasks = rows;
  settling = Settling.new;
  waiters = [];
  hb_states = λ n. none;
  notes = [];
}

end_connection-connect_node_example :
    end_connection
      (env false)
      11
      first
      (connect_node (env false) answered 120 13 1 first "1.0" (tables two))
    ≡ connect_node (env false) answered 120 13 1 first "1.0" (tables two)
end_connection-connect_node_example =
    end_connection-connect_node (env false) (env false) answered 120 11 13 1 first "1.0"
      (tables two) (λ e. ground arith)

end_connection-current_example :
    let w' = end_connection (env false) 11 first (tables two) in
    (is_connected 1 w'.manager.hub ≡ false)
    × (settled 1 w'.settling ≡ false)
    × (w'.manager.failback_timers 1 ≡ none)
    × (w'.manager.fail_timers 1
        ≡ some (record {
          due = 100 + grace (env false) 7;
          job = attempt_failover_job 1 7 true disconnect;
        }))
end_connection-current_example =
    end_connection-current (env false) 11 first 1 (tables two) registered
  where
    registered : lookup 1 two.sessions ≡ some 11
    registered = unfold register new_session lookup insert in refl

-- NetBox stops, stays stopped, and starts.
abbrev report : Bool → HeartbeatPayload
report running = record {
  tasks = [];
  netbox_running = running;
  rq_running = true;
  patroni_running = true;
  postgres_running = true;
  redis_running = true;
  sentinel_running = true;
  patroni_role = "primary";
  netbox_version = "4.1";
}

-- The first heartbeats report nothing new, and the last that NetBox has stopped.
abbrev reported : List (Env × HeartbeatPayload)
reported = (env false, report true) ∷ (env false, report true) ∷ (env false, report false) ∷ []

heartbeats-due_example :
    is_some ((heartbeats 11 "nb" reported (tables two)).manager.fail_timers (two.heap 11).node_id)
    ≡ (if changes (two.heap 11).netbox_running (true ∷ true ∷ false ∷ []) then true else false)
heartbeats-due_example = heartbeats-due 11 "nb" reported (tables two)
