-- ===== src/Alerting/Matching.antt =====
-- MatchesEvent and MatchesMetric of internal/server/alerting/matcher.go, and the loop of processEvent in
-- internal/server/alerting/engine.go.
--
-- Go's regular expressions are a parameter: whether a pattern compiles and the text matches it. So are
-- the floating-point numbers of metrics, with their comparisons.
pub mod Codes
use Prim.Native.Char.{code}
use Prim.Native.String.{◌++◌}
use netbox_conductor.Base.{
  ℕ, String, Bool, true, false, ◌&&◌, ◌||◌, not, Option, none, some, List, [], ◌∷◌, ◌==◌, ltb,
  str_eq, if◌then◌else◌,
}
use netbox_conductor.Heartbeats.{Event}
use netbox_conductor.Alerting.Schedule.{ScheduleWindow, matches_schedule}

-- What MatchesEvent reads of a rule, and its schedule. A rule without a regular expression, or with the
-- empty one, has `none`.
pub record EventRule : Type 0 where
  pub categories : List String
  pub codes : List String
  pub min_severity : String
  pub cluster_id : Option ℕ
  pub node_id : Option ℕ
  pub message_regex : Option String
  pub schedule_id : Option ℕ

-- `strings.HasPrefix(s, prefix)`.
unfoldable pub has_prefix : String → String → Bool
has_prefix s String.[] = true
has_prefix String.[] (String.◌∷◌ d p) = false
has_prefix (String.◌∷◌ c s) (String.◌∷◌ d p) = code c == code d && has_prefix s p

-- `strings.HasSuffix(s, "-")`.
unfoldable pub ends_in_dash : String → Bool
ends_in_dash String.[] = false
ends_in_dash (String.◌∷◌ c String.[]) = code c == b'-'
ends_in_dash (String.◌∷◌ c (String.◌∷◌ d s)) = ends_in_dash (String.◌∷◌ d s)

unfoldable pub code_matches : String → String → Bool
unfolding has_prefix ends_in_dash
code_matches event_code c =
    if ends_in_dash c
    then has_prefix event_code c
    else str_eq event_code c || has_prefix event_code (c ++ "-")

any_code : String → List String → Bool
unfolding code_matches
any_code event_code [] = false
any_code event_code (c ∷ cs) =
    let rest = any_code event_code cs in if code_matches event_code c then true else rest

any_category : String → List String → Bool
any_category category [] = false
any_category category (c ∷ cs) =
    let rest = any_category category cs in if str_eq c category then true else rest

-- A filter that is not set lets all through.
unset : List String → Bool
unset [] = true
unset (x ∷ xs) = false

-- `SeverityOrder`, 0 for a text that it lacks.
unfoldable pub severity_order : String → ℕ
severity_order s =
    if str_eq s "debug"
    then 0
    else if str_eq s "info"
    then 1
    else if str_eq s "warn"
    then 2
    else if str_eq s "error"
    then 3
    else if str_eq s "critical"
    then 4
    else 0

in_scope : Option ℕ → Option ℕ → Bool
in_scope none event_id = true
in_scope (some id) none = false
in_scope (some id) (some event_id) = event_id == id

module _ (regex_matches : String → String → Bool) where
  message_allowed : Option String → String → Bool
  message_allowed none message = true
  message_allowed (some regex) message = regex_matches regex message

  unfoldable pub matches_event : EventRule → Event → Bool
  unfolding any_category any_code severity_order in_scope message_allowed unset
  matches_event rule ev =
      if not (unset rule.categories) && not (any_category ev.category rule.categories)
      then false
      else if not (unset rule.codes) && not (any_code ev.code rule.codes)
      then false
      else if not (str_eq rule.min_severity "")
          && ltb (severity_order ev.severity) (severity_order rule.min_severity)
      then false
      else if not (in_scope rule.cluster_id ev.cluster_id)
      then false
      else if not (in_scope rule.node_id ev.node_id)
      then false
      else message_allowed rule.message_regex ev.message

  schedule_of : (ℕ → Option (List ScheduleWindow)) → Option ℕ → Option (List ScheduleWindow)
  schedule_of schedules none = none
  schedule_of schedules (some id) = schedules id

  -- The rules that processEvent fires on an event, in their order, at a day of the week and a time of
  -- the day, over the schedules that were loaded.
  unfoldable pub rules_fired :
      (dow : ℕ)
      → (hhmm : String) → (ℕ → Option (List ScheduleWindow))
      → List EventRule
      → Event
      → List EventRule
  unfolding matches_event schedule_of
  rules_fired dow hhmm schedules [] ev = []
  rules_fired dow hhmm schedules (r ∷ rs) ev =
      let rest = rules_fired dow hhmm schedules rs ev in
      if not (matches_event r ev)
      then rest
      else if not (matches_schedule dow hhmm (schedule_of schedules r.schedule_id))
      then rest
      else r ∷ rest

-- What MatchesMetric reads of a heartbeat; the lag as a number.
pub record Metrics {ℓ} (F : Type ℓ) : Type ℓ where
  pub disk_used_pct : Option F
  pub load_avg_1 : Option F
  pub load_avg_5 : Option F
  pub mem_used_pct : Option F
  pub replication_lag_bytes : Option F

module _ {ℓ} {F : Type ℓ} (lt eq : F → F → Bool) where
  value_of : String → Metrics F → Option F
  value_of field m =
      if str_eq field "disk_used_pct"
      then m.disk_used_pct
      else if str_eq field "load_avg_1"
      then m.load_avg_1
      else if str_eq field "load_avg_5"
      then m.load_avg_5
      else if str_eq field "mem_used_pct"
      then m.mem_used_pct
      else if str_eq field "replication_lag_bytes"
      then m.replication_lag_bytes
      else none

  compare_metric : String → F → F → Bool
  compare_metric operator value threshold =
      if str_eq operator ">"
      then lt threshold value
      else if str_eq operator ">="
      then lt threshold value || eq value threshold
      else if str_eq operator "<"
      then lt value threshold
      else if str_eq operator "<="
      then lt value threshold || eq value threshold
      else if str_eq operator "=="
      then eq value threshold
      else false

  against : Option F → String → F → Bool
  unfolding compare_metric
  against none operator threshold = false
  against (some value) operator threshold = compare_metric operator value threshold

  unfoldable pub matches_metric :
      (field operator : Option String) → (threshold : Option F) → Option (Metrics F) → Bool
  unfolding value_of against
  matches_metric (some field) (some operator) (some threshold) (some m) =
      against (value_of field m) operator threshold
  matches_metric field operator threshold m = false
