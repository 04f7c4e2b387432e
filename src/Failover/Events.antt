-- ===== src/Failover/Events.antt =====
-- emitHAEvent and publish.
use netbox_conductor.Base.{
  ℕ, String, Bool, true, false, Option, none, some, List, [], ◌∷◌, ◌++◌, str_eq, if◌then◌else◌,
}
use netbox_conductor.Failover.State.{
  EventType, failover_initiated, failover, failback_initiated, failback, maintenance_failover,
  Trigger, Reason, Code, code_failover_initiated, code_failover_completed, code_failover_failed,
  code_failback_initiated, code_failback_completed, code_maintenance_failover, Severity, info, warn,
  error, Part, from, to, triggered, because, HaEvent, emitted, Published, published, World,
  do_effect,
}

pub record HaEventParams : Type 0 where
  pub cluster_id : ℕ
  pub event_type : EventType
  pub trigger : Trigger
  pub failed_node : Option (ℕ × String)
  pub target_node : Option (ℕ × String)
  pub success : Bool
  pub reason : Option Reason

unfoldable pub code_severity : EventType → Bool → Code × Severity
code_severity failover_initiated success = (code_failover_initiated, warn)
code_severity failover true = (code_failover_completed, info)
code_severity failover false = (code_failover_failed, error)
code_severity failback_initiated success = (code_failback_initiated, info)
code_severity failback true = (code_failback_completed, info)
code_severity failback false = (code_failover_failed, error)
code_severity maintenance_failover success = (code_maintenance_failover, warn)

-- A part for a node's name, which is left out if it is empty.
name_part : (String → Part) → Option (ℕ × String) → List Part
name_part p none = []
name_part p (some (id, name)) = if str_eq name "" then [] else p name ∷ []

reason_part : Option Reason → List Part
reason_part none = []
reason_part (some r) = because r ∷ []

abbrev id_of : Option (ℕ × String) → Option ℕ
id_of none = none
id_of (some (id, name)) = some id

abbrev or_else : Option ℕ → Option ℕ → Option ℕ
or_else none b = b
or_else (some a) b = some a

-- Every trigger that the manager passes is a word, so that the message is never empty.
unfoldable pub ha_event : HaEventParams → HaEvent
unfolding code_severity name_part reason_part
ha_event p =
    let (code, severity) = code_severity p.event_type p.success in
    record {
      severity = severity;
      code = code;
      message =
          name_part from p.failed_node
          ++ (name_part to p.target_node ++ (triggered p.trigger ∷ reason_part p.reason));
      cluster_id = p.cluster_id;
      node_id = or_else (id_of p.failed_node) (id_of p.target_node);
    }

unfoldable pub emit_ha_event : HaEventParams → World → World
emit_ha_event p = do_effect (emitted (ha_event p))

unfoldable pub publish : Published → World → World
publish p = do_effect (published p)
