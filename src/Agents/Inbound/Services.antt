-- ===== src/Agents/Inbound/Services.antt =====
-- A message about a service, and the heartbeats after it.
use netbox_conductor.Base.{ℕ, String, Bool, true, false, ◌≡◌, refl, some, [], ◌∷◌, arith, count}
use netbox_conductor.Heartbeats.{
  HeartbeatState, HeartbeatInput, Event, process, bool_transition, Service, netbox, rq, patroni,
  postgres, redis, sentinel,
}
use netbox_conductor.Heartbeats.Balance.{
  has_code, reported, start_code, stop_code, count-append, other-code, role-code, same_refl,
}
use netbox_conductor.Agents.State.{World, emitted}
use netbox_conductor.Agents.Inbound.{
  set_running, handle_service_state_change, state_or_new, change_event,
}

-- A service whose state is known and does not change gives no event.
quiet :
    (hb : HeartbeatInput) (b : Bool) (start stop m1 m2 : String)
    → bool_transition hb (some b) b start stop m1 m2 ≡ []
unfolding bool_transition
quiet hb b start stop m1 m2 = rw (same_refl b) refl

-- The two codes of a service.
abbrev pub code_of : Service → Bool → String
code_of svc true = start_code svc
code_of svc false = stop_code svc

process-quiet :
    (svc : Service) (started b : Bool) (s : HeartbeatState) (hb : HeartbeatInput)
    → reported svc hb ≡ b
    → count (has_code (code_of svc started)) (process (set_running svc b s) hb) ≡ 0
unfolding process set_running
process-quiet netbox true b s hb e = simp (e, count-append, other-code, role-code, quiet) refl
process-quiet netbox false b s hb e = simp (e, count-append, other-code, role-code, quiet) refl
process-quiet rq true b s hb e = simp (e, count-append, other-code, role-code, quiet) refl
process-quiet rq false b s hb e = simp (e, count-append, other-code, role-code, quiet) refl
process-quiet patroni true b s hb e = simp (e, count-append, other-code, role-code, quiet) refl
process-quiet patroni false b s hb e = simp (e, count-append, other-code, role-code, quiet) refl
process-quiet postgres true b s hb e = simp (e, count-append, other-code, role-code, quiet) refl
process-quiet postgres false b s hb e = simp (e, count-append, other-code, role-code, quiet) refl
process-quiet redis true b s hb e = simp (e, count-append, other-code, role-code, quiet) refl
process-quiet redis false b s hb e = simp (e, count-append, other-code, role-code, quiet) refl
process-quiet sentinel true b s hb e = simp (e, count-append, other-code, role-code, quiet) refl
process-quiet sentinel false b s hb e = simp (e, count-append, other-code, role-code, quiet) refl

state-handled :
    (r : ℕ) (svc : Service) (b : Bool) (w : World)
    → let node = (w.manager.hub.heap r).node_id in
      (handle_service_state_change r (some svc) b w).hb_states node
      ≡ some (set_running svc b (state_or_new (w.hb_states node)))
unfolding handle_service_state_change
state-handled r svc b w = ground arith

event_code :
    (svc : Service) (b : Bool) (node cluster : ℕ)
    → (change_event svc b node cluster).code ≡ code_of svc b
unfolding change_event
event_code netbox true node cluster = refl
event_code netbox false node cluster = refl
event_code rq true node cluster = refl
event_code rq false node cluster = refl
event_code patroni true node cluster = refl
event_code patroni false node cluster = refl
event_code postgres true node cluster = refl
event_code postgres false node cluster = refl
event_code redis true node cluster = refl
event_code redis false node cluster = refl
event_code sentinel true node cluster = refl
event_code sentinel false node cluster = refl

notes-handled :
    (r : ℕ) (svc : Service) (b : Bool) (w : World)
    → let s = w.manager.hub.heap r in
      (handle_service_state_change r (some svc) b w).notes
      ≡ emitted (change_event svc b s.node_id s.cluster_id) ∷ w.notes
unfolding handle_service_state_change
notes-handled r svc b w = refl

-- A message that a service runs, or does not, gives one event, with the code for that; and the next
-- heartbeat of the node, if it says the same of the service, gives no event of the service, neither
-- that it started nor that it stopped.
pub handle_service_state_change-once :
    (r : ℕ) (svc : Service) (b started : Bool) (w : World) (hb : HeartbeatInput)
    → reported svc hb ≡ b
    → let w' = handle_service_state_change r (some svc) b w in
      let node = (w.manager.hub.heap r).node_id in
      ((ev : Event) × (w'.notes ≡ emitted ev ∷ w.notes) × (ev.code ≡ code_of svc b))
      × (count (has_code (code_of svc started)) (process (state_or_new (w'.hb_states node)) hb) ≡ 0)
handle_service_state_change-once r svc b started w hb e =
    let s = w.manager.hub.heap r in
    (
      (
        change_event svc b s.node_id s.cluster_id,
        notes-handled r svc b w,
        event_code svc b s.node_id s.cluster_id,
      ),
      rw (state-handled r svc b w)
          (process-quiet svc started b (state_or_new (w.hb_states s.node_id)) hb e),
    )
