-- ===== src/Alerting.antt =====
-- internal/server/alerting/engine.go, over db/queries/alert_states.go: what the alert engine does about
-- one rule in one scope.
--
-- The table active_alert_states has at most one row for a rule, a cluster and a node that is not
-- resolved (its unique index), which is the state here. Times are in seconds; the log is newest first.
pub mod Limits
pub mod Schedule
pub mod Matching
use netbox_conductor.Base.{
  ℕ, ◌+◌, ◌*◌, Bool, true, false, ◌&&◌, ◌||◌, not, Option, none, some, List, [], ◌∷◌, ltb,
  if◌then◌else◌,
}

pub data FireMode : Type 0 where
  once re_alert every_occurrence : FireMode

pub record AlertRule : Type 0 where
  pub fire_mode : FireMode
  pub re_alert_mins : Option ℕ
  pub max_re_alerts : Option ℕ
  pub notify_on_clear : Bool
  pub escalate_after_mins : Option ℕ
  pub escalate_transport_id : Option ℕ
  pub transport_ids : List ℕ

pub data Status : Type 0 where
  active acknowledged : Status

pub record AlertState : Type 0 where
  pub state : Status
  pub re_alert_count : ℕ
  pub escalated : Bool
  pub first_fired_at : ℕ
  pub last_alerted_at : Option ℕ

-- One dispatch of a message to the transports of a rule, and one to the escalation's transport.
pub data Effect : Type 0 where
  dispatched : (transports : List ℕ) (is_resolve : Bool) → Effect
  escalated_to : (transport : ℕ) → Effect

pub record World : Type 0 where
  pub row : Option AlertState
  pub log : List Effect

-- What the database answers: whether statements succeed, and whether a transport is enabled, `none`
-- for an error.
pub record Answers : Type 0 where
  pub upsert_ok : Bool
  pub mark_alerted_ok : Bool
  pub mark_escalated_ok : Bool
  pub resolve_ok : Bool
  pub transport : ℕ → Option Bool

abbrev pub enabled : Option Bool → Bool
enabled none = false
enabled (some b) = b

-- The loop of dispatchToTransports, which skips transports that are missing or disabled.
unfoldable pub enabled_transports : Answers → List ℕ → List ℕ
enabled_transports a [] = []
enabled_transports a (t ∷ ts) =
    let rest = enabled_transports a ts in if enabled (a.transport t) then t ∷ rest else rest

unfoldable pub dispatch_to_transports : Answers → AlertRule → Bool → World → World
unfolding enabled_transports
dispatch_to_transports a rule is_resolve w = record w {
  log = dispatched (enabled_transports a rule.transport_ids) is_resolve ∷ w.log;
}

alerted : ℕ → Option AlertState → Option AlertState
alerted now none = none
alerted now (some s) =
    some (record s { last_alerted_at = some now; re_alert_count = s.re_alert_count + 1 })

-- `MarkAlerted` also counts the first alert.
unfoldable pub mark_alerted : Answers → ℕ → World → World
unfolding alerted
mark_alerted a now w = if a.mark_alerted_ok then record w { row = alerted now w.row } else w

abbrev pub fresh : ℕ → AlertState
fresh now = record {
  state = active;
  re_alert_count = 0;
  escalated = false;
  first_fired_at = now;
  last_alerted_at = none;
}

-- After `UpsertActive` has found a row, or made one.
fire_state : Answers → AlertRule → ℕ → Option AlertState → World → World
unfolding dispatch_to_transports mark_alerted
fire_state a rule now (some s) w = w
fire_state a rule now none w =
    mark_alerted a now (dispatch_to_transports a rule false (record w { row = some (fresh now) }))

fire_mode : Answers → AlertRule → ℕ → Bool → FireMode → World → World
unfolding fire_state dispatch_to_transports
fire_mode a rule now is_resolve every_occurrence w = dispatch_to_transports a rule is_resolve w
fire_mode a rule now is_resolve once w = if a.upsert_ok then fire_state a rule now w.row w else w
fire_mode a rule now is_resolve re_alert w =
    if a.upsert_ok then fire_state a rule now w.row w else w

unfoldable pub fire_alert : Answers → AlertRule → ℕ → Bool → World → World
unfolding fire_mode
fire_alert a rule now is_resolve w = fire_mode a rule now is_resolve rule.fire_mode w

abbrev pub below_max : Option ℕ → ℕ → Bool
below_max none n = true
below_max (some m) n = ltb n m

-- Whether the time for another alert of the rule has come.
re_alert_due : ℕ → FireMode → Option ℕ → Option ℕ → Bool
re_alert_due now re_alert (some mins) (some last) = ltb (last + mins * 60) now
re_alert_due now _ _ _ = false

re_alert_step : Answers → AlertRule → ℕ → AlertState → World → World
unfolding re_alert_due dispatch_to_transports mark_alerted
re_alert_step a rule now s w =
    if re_alert_due now rule.fire_mode rule.re_alert_mins s.last_alerted_at
      && below_max rule.max_re_alerts s.re_alert_count
    then mark_alerted a now (dispatch_to_transports a rule false w)
    else w

escalated : Option AlertState → Option AlertState
escalated none = none
escalated (some s) = some (record s { escalated = true })

unfoldable pub mark_escalated : Answers → World → World
unfolding escalated
mark_escalated a w = if a.mark_escalated_ok then record w { row = escalated w.row } else w

escalation_due : ℕ → AlertState → Option ℕ → Bool
escalation_due now s none = false
escalation_due now s (some mins) = not s.escalated && ltb (s.first_fired_at + mins * 60) now

escalate_to : Answers → Bool → Option ℕ → World → World
unfolding mark_escalated
escalate_to a due none w = w
escalate_to a due (some t) w =
    if due && enabled (a.transport t)
    then mark_escalated a (record w { log = escalated_to t ∷ w.log })
    else w

-- The body of the loop of processTimers, over the row as ListActive has read it.
timer_step : Answers → AlertRule → ℕ → Option AlertState → World → World
unfolding re_alert_step escalation_due escalate_to
timer_step a rule now none w = w
timer_step a rule now (some s) w =
    escalate_to a (escalation_due now s rule.escalate_after_mins) rule.escalate_transport_id
      (re_alert_step a rule now s w)

unfoldable pub process_timers : Answers → AlertRule → ℕ → World → World
unfolding timer_step
process_timers a rule now w = timer_step a rule now w.row w

resolve_row : Option AlertState → Option AlertState × Bool
resolve_row none = (none, false)
resolve_row (some s) = elim s.state [ active ↦ (none, true) | acknowledged ↦ (some s, false) ]

-- `Resolve`, which leaves an acknowledged row, and the message that follows it in processMetrics.
unfoldable pub resolve : Answers → AlertRule → World → World
unfolding resolve_row dispatch_to_transports
resolve a rule w =
    let (row, resolved) = resolve_row w.row in
    if not a.resolve_ok
    then w
    else if resolved && rule.notify_on_clear
    then dispatch_to_transports a rule true (record w { row = row })
    else record w { row = row }
