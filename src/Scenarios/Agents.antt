-- ===== src/Scenarios/Agents.antt =====
-- Agents that connect twice, locks that are released twice, and a task that fails.
use netbox_conductor.Base.{
  ℕ, Bool, true, false, ◌≡◌, ◌≢◌, ◌⊎◌, refl, Option, none, some, List, [], ◌∷◌, inr, arith, lookup,
  insert, count, ◌+◌,
}
use netbox_conductor.Protocol.{TaskResultPayload, Envelope, start_netbox, no_params}
use netbox_conductor.Hub.{
  Hub, new, send, new_session, register, register_staging, unregister_staging, is_connected_staging,
}
use netbox_conductor.Hub.Channels.{IsSound}
use netbox_conductor.Hub.Reach.{
  allocate, connect, deliver, Reach, start, next, SentLate, Reach-IsSound,
}
use netbox_conductor.Hub.Replacement.{unregister_staging-register_staging}
use netbox_conductor.OpLock as OpLock
use netbox_conductor.OpLock.Exclusion.{lock, call_unlock, run, IsExclusive, run-new-IsExclusive}
use netbox_conductor.TaskWatch.{
  TaskWatch, Task, outcome, wait_round, lost_ready, no_result, result_never_arrived, watch_task,
  notify_task_ack, notify_heartbeat,
}
use netbox_conductor.TaskWatch.Contract.{
  Notice, ack, heartbeat, notices, first_result, InOrder, wait_round-first_result,
}
use netbox_conductor.Heartbeats.{
  HeartbeatState, HeartbeatInput, update, process_all, netbox, no_state,
}
use netbox_conductor.Heartbeats.Balance.{has_code, process_all-balance}

-- A session of node 1 at the reference 11, and one at 12.
abbrev two : Hub
two = new_session 12 1 7 50 (new_session 11 1 7 20 new)

-- Two connections of the staging agent 3.
unregister_staging-register_staging_example :
    let h = register_staging 3 12 (register_staging 3 11 two) in
    (is_connected_staging 3 h ≡ true)
    × (is_connected_staging 3 (unregister_staging 3 h) ≡ false)
    × (((unregister_staging 3 h).heap 12).closed ≡ true)
unregister_staging-register_staging_example =
    unregister_staging-register_staging 3 12 (register_staging 3 11 two) unopened other
  where
    unopened : ((register_staging 3 11 two).heap 12).closed ≡ false
    unopened = unfold register_staging new_session lookup insert in refl

    not_twelve : ◌≡◌ {A = Option ℕ} (some 11) (some 12) → ⊥
    not_twelve e = ground arith

    other : lookup 3 (register_staging 3 11 two).staging_sessions ≡ some 12 → ⊥
    other e = not_twelve (unfold register_staging new_session lookup insert in e)

-- The node 1 has connected once, and its second session is allocated.
abbrev once : Hub
once = new_session 12 1 7 50 (register 11 (new_session 11 1 7 20 new))

connected : Reach (register 12 once)
unfolding new_session register lookup insert
connected =
    next
      (next
        (next (next start refl (allocate 11 1 7 20 (record { no_session = tt; no_staging = tt })))
          refl (connect 11 (record { unopened = refl; no_session = tt; no_staging = tt })))
        refl (allocate 12 1 7 50 (record { no_session = (apart, tt); no_staging = tt })))
      refl (connect 12 (record { unopened = refl; no_session = (apart, tt); no_staging = tt }))
  where
    apart : ◌≢◌ {A = ℕ} 11 12
    apart e = ground arith

abbrev message : Envelope
message = record {
  id = 0;
  payload = record { task_id = 0; task_type = start_netbox; params = no_params; timeout_secs = 60 };
}

-- A message on the session that was replaced.
Reach-IsSound_example :
    IsSound (send 11 message (register 12 once)).1 ⊎ SentLate (send 11 message (register 12 once)).1
Reach-IsSound_example = Reach-IsSound (next connected up (deliver 11 message))
  where
    up : (register 12 once).crashed ≡ false
    up = unfold register new_session lookup insert in refl

late_send : (send 11 message (register 12 once)).1.crashed ≡ true
unfolding send register new_session lookup insert
late_send = refl

-- The task is acked and listed; then the agent has restarted, and does not list it any more.
abbrev story : List Notice
story = ack 5 ∷ heartbeat 1 (5 ∷ []) ∷ heartbeat 1 [] ∷ []

abbrev task : Task
task = record { id = 5; node = 1; deadline = 60 }

abbrev watched : TaskWatch
watched = record { node = 1; result = none; known = true; lost = true }

wait_round-first_result_example :
    ((res : TaskResultPayload) × (none ≡ some res) × (no_result result_never_arrived ≡ outcome res))
    ⊎ ((first_result 5 story ≡ none)
        × (no_result result_never_arrived ≡ no_result result_never_arrived)
        × ¬ InOrder 5 1 false false story)
wait_round-first_result_example =
    wait_round-first_result task story [] lost_ready 50 true watched
      (no_result result_never_arrived) seen (inr refl) read
  where
    seen : lookup 5 (notices story (watch_task 5 1 [])) ≡ some watched
    seen = unfold lookup insert notices notify_task_ack notify_heartbeat watch_task in refl

    read : wait_round lost_ready 50 true task watched ≡ some (no_result result_never_arrived)
    read = unfold wait_round in refl

-- Two operations on one cluster, with the first one's unlock called twice.
run-new-IsExclusive_example :
    IsExclusive
      (run (lock 7 "restore" ∷ call_unlock 0 ∷ lock 7 "backup" ∷ call_unlock 0 ∷ []) OpLock.new)
run-new-IsExclusive_example =
    run-new-IsExclusive (lock 7 "restore" ∷ call_unlock 0 ∷ lock 7 "backup" ∷ call_unlock 0 ∷ [])

abbrev beat : Bool → HeartbeatInput
beat running = record {
  node_id = 1;
  cluster_id = 7;
  hostname = "nb";
  netbox_running = running;
  rq_running = true;
  patroni_running = true;
  postgres_running = true;
  redis_running = true;
  sentinel_running = true;
  patroni_role = "primary";
}

-- NetBox was known to run when the session began, from an earlier one.
abbrev kept : HeartbeatState
kept = update no_state (beat true)

process_all-balance_example :
    let events = process_all kept (beat false ∷ beat true ∷ beat false ∷ []) in
    count (has_code "NBC-SVC-001") events + 1 ≡ count (has_code "NBC-SVC-002") events + 0
process_all-balance_example =
    unfold update in process_all-balance netbox kept (beat false) (beat true ∷ beat false ∷ [])
