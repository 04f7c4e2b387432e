-- ===== src/Agents/Inbound/Transitions.antt =====
-- What the heartbeats of a session tell the failover manager.
use mathlib.Core.Path.{subst}
use netbox_conductor.Base.{
  ℕ, String, Bool, true, false, not, ◌||◌, ◌≡◌, ◌∙◌, refl, sym, Option, none, some, if◌then◌else◌,
  List, [], ◌∷◌, is_some, arith,
}
use netbox_conductor.Hub.{set_netbox_running, set_patroni_role}
use netbox_conductor.Failover.State as Manager
use netbox_conductor.Failover.State.{Env}
use netbox_conductor.Failover.Timers.{on_netbox_stopped, on_netbox_started}
use netbox_conductor.Heartbeats.{HeartbeatInput, Event, process, same}
use netbox_conductor.TaskWatch.{notify_heartbeat}
use netbox_conductor.Agents.State.{World, note, heartbeat_stored}
use netbox_conductor.Agents.Inbound.{
  HeartbeatPayload, state_or_new, heartbeat_input, emit_all, emit_transitions, notify_manager,
  track_netbox, track_role, track_version, handle_heartbeat,
}

-- The session is the node's, it has reported last what is known, and a failover of the node is due or
-- not.
record IsSeen (r node : ℕ) (known : Option Bool) (due : Bool) (w : Manager.World) : Type 0 where
  of_node : (w.hub.heap r).node_id ≡ node
  reported : (w.hub.heap r).netbox_running ≡ known
  armed : is_some (w.fail_timers node) ≡ due

-- Whether a failover is due after a report.
abbrev due_after : Option Bool → Bool → Bool → Bool
due_after none running due = due
due_after (some was) running due = if same was running then due else not running

manager-emit_all : (evs : List Event) (w : World) → (emit_all evs w).manager ≡ w.manager
unfolding emit_all
manager-emit_all [] w = refl
manager-emit_all (ev ∷ evs) w = manager-emit_all evs _

manager-emit_transitions :
    (i : HeartbeatInput) (w : World) → (emit_transitions i w).manager ≡ w.manager
unfolding emit_transitions
manager-emit_transitions i w = manager-emit_all (process (state_or_new (w.hb_states i.node_id)) i) w

track_netbox-IsSeen :
    (e : Env) (r node : ℕ) (known : Option Bool) (due running : Bool) (w : World)
    → IsSeen r node known due w.manager
    → IsSeen r node
        (some running)
        (due_after known running due)
        (track_netbox e r running w).manager
unfolding track_netbox set_netbox_running notify_manager on_netbox_stopped on_netbox_started
track_netbox-IsSeen e r node none due true w i = ground arith
track_netbox-IsSeen e r node none due false w i = ground arith
track_netbox-IsSeen e r node (some true) due true w i = ground arith
track_netbox-IsSeen e r node (some true) due false w i = ground arith
track_netbox-IsSeen e r node (some false) due true w i = ground arith
track_netbox-IsSeen e r node (some false) due false w i = ground arith

track_role-IsSeen :
    (r node : ℕ) (known : Option Bool) (due : Bool) (role : String) (w : World)
    → IsSeen r node known due w.manager
    → IsSeen r node known due (track_role r role w).manager
unfolding track_role set_patroni_role
track_role-IsSeen r node known due role w i = ground arith

track_version-IsSeen :
    (r node : ℕ) (known : Option Bool) (due : Bool) (version : String) (w : World)
    → IsSeen r node known due w.manager
    → IsSeen r node known due (track_version r version w).manager
unfolding track_version
track_version-IsSeen r node known due version w i = ground arith

handle_heartbeat-IsSeen :
    (e : Env) (r node : ℕ) (hostname : String) (known : Option Bool) (due : Bool)
    (hb : HeartbeatPayload) (w : World)
    → IsSeen r node known due w.manager
    → IsSeen r node
        (some hb.netbox_running)
        (due_after known hb.netbox_running due)
        (handle_heartbeat e r hostname hb w).manager
unfolding handle_heartbeat
handle_heartbeat-IsSeen e r node hostname known due hb w i =
    let s = w.manager.hub.heap r in
    let w1 = record w { waiters = notify_heartbeat s.node_id hb.tasks w.waiters } in
    let input = heartbeat_input s.node_id s.cluster_id hostname hb in
    let w2 = note (heartbeat_stored input) w1 in
    let after = due_after known hb.netbox_running due in
    track_version-IsSeen r node (some hb.netbox_running) after hb.netbox_version _ (
      track_role-IsSeen r node (some hb.netbox_running) after hb.patroni_role _ (
        track_netbox-IsSeen e r node known due hb.netbox_running _
          (subst (IsSeen r node known due) (sym (manager-emit_transitions input w2)) i)))

-- Heartbeats of a session, each with what the handler is answered.
pub heartbeats : (r : ℕ) → String → List (Env × HeartbeatPayload) → World → World
heartbeats r hostname [] w = w
heartbeats r hostname ((e, hb) ∷ hbs) w =
    heartbeats r hostname hbs (handle_heartbeat e r hostname hb w)

abbrev pub reports : List (Env × HeartbeatPayload) → List Bool
reports [] = []
reports ((e, hb) ∷ hbs) = hb.netbox_running ∷ reports hbs

-- Some report differs from the one before it; the first is compared with what was known, if anything.
abbrev pub changes : Option Bool → List Bool → Bool
changes known [] = false
changes none (b ∷ bs) = changes (some b) bs
changes (some was) (b ∷ bs) = not (same was b) || changes (some b) bs

abbrev pub last_report : Bool → List Bool → Bool
last_report b [] = b
last_report b (c ∷ bs) = last_report c bs

abbrev due_after_all : Option Bool → List Bool → Bool → Bool
due_after_all known [] due = due
due_after_all known (b ∷ bs) due = due_after_all (some b) bs (due_after known b due)

-- Without a change the last report is what was known.
last_report-same :
    (was : Bool) (bs : List Bool) → changes (some was) bs ≡ false → last_report was bs ≡ was
last_report-same was [] e = refl
last_report-same true (true ∷ bs) e = last_report-same true bs e
last_report-same true (false ∷ bs) e = absurd (ground arith)
last_report-same false (true ∷ bs) e = absurd (ground arith)
last_report-same false (false ∷ bs) e = last_report-same false bs e

due_after_all-some :
    (was : Bool) (bs : List Bool) (due : Bool)
    → due_after_all (some was) bs due
      ≡ (if changes (some was) bs then not (last_report was bs) else due)
due_after_all-some was [] due = refl
due_after_all-some true (true ∷ bs) due = due_after_all-some true bs due
due_after_all-some true (false ∷ bs) due =
    ground (arith, due_after_all-some false bs true, last_report-same false bs)
due_after_all-some false (true ∷ bs) due =
    ground (arith, due_after_all-some true bs false, last_report-same true bs)
due_after_all-some false (false ∷ bs) due = due_after_all-some false bs due

due_after_all-changes :
    (known : Option Bool) (bs : List Bool) (due b : Bool)
    → due_after_all known bs due ≡ (if changes known bs then not (last_report b bs) else due)
due_after_all-changes none [] due b = refl
due_after_all-changes (some was) [] due b = refl
due_after_all-changes none (c ∷ bs) due b = due_after_all-some c bs due
due_after_all-changes (some was) (c ∷ bs) due b = due_after_all-some was (c ∷ bs) due

heartbeats-IsSeen :
    (r node : ℕ) (hostname : String) (known : Option Bool) (due : Bool)
    (hbs : List (Env × HeartbeatPayload)) (w : World)
    → IsSeen r node known due w.manager
    → is_some ((heartbeats r hostname hbs w).manager.fail_timers node)
      ≡ due_after_all known (reports hbs) due
unfolding heartbeats
heartbeats-IsSeen r node hostname known due [] w i = i.armed
heartbeats-IsSeen r node hostname known due ((e, hb) ∷ hbs) w i =
    heartbeats-IsSeen r node hostname (some hb.netbox_running)
      (due_after known hb.netbox_running due) hbs _
      (handle_heartbeat-IsSeen e r node hostname known due hb w i)

-- After heartbeats of a session with nothing in between, each handled to its end, the call of
-- OnNetboxStopped included, and whatever the session reported before, if anything: if one of them
-- differed from the report before it, a failover of the node is due exactly if the last one reported
-- that NetBox does not run; if none did, it is due exactly if it was before. So a session that has only
-- ever reported NetBox not to run arms no failover.
pub heartbeats-due :
    (r : ℕ) (hostname : String) (hbs : List (Env × HeartbeatPayload)) (w : World)
    → let s = w.manager.hub.heap r in
      is_some ((heartbeats r hostname hbs w).manager.fail_timers s.node_id) ≡ (
        if changes s.netbox_running (reports hbs)
        then not (last_report true (reports hbs))
        else is_some (w.manager.fail_timers s.node_id))
heartbeats-due r hostname hbs w =
    let s = w.manager.hub.heap r in
    heartbeats-IsSeen r s.node_id hostname s.netbox_running
      (is_some (w.manager.fail_timers s.node_id)) hbs w
      (record { of_node = refl; reported = refl; armed = refl })
    ∙ due_after_all-changes s.netbox_running (reports hbs)
        (is_some (w.manager.fail_timers s.node_id)) true
