-- ===== src/Nodestate.antt =====
-- internal/server/nodestate/nodestate.go, over the rows of internal/server/db/queries/nodes.go.
pub mod Decisions
use netbox_conductor.Base.{
  ℕ, String, Bool, ◌&&◌, ◌||◌, not, Option, none, some, List, [], ◌∷◌, str_eq, if◌then◌else◌,
  is_true, ltb, true, false, ◌+◌,
}

-- The `json.RawMessage` of a node's Patroni state by what `json.Unmarshal` makes of it: no state,
-- bytes that are no JSON object, or an object with the string at its key "role", if it has one.
pub data PatroniState : Type 0 where
  absent : PatroniState
  malformed : PatroniState
  object : Option String → PatroniState

pub data StateError : Type 0 where
  patroni_state_corrupt : StateError

-- A row of the nodes table, with the columns that the modelled code reads.
pub record Node : Type 0 where
  pub id : ℕ
  pub cluster_id : ℕ
  pub hostname : String
  pub ip_address : String
  pub role : String
  pub failover_priority : ℕ
  pub agent_status : String
  pub patroni_state : PatroniState
  pub netbox_running : Option Bool
  pub rq_running : Option Bool
  pub suppress_auto_start : Bool
  pub maintenance_mode : Bool

abbrev or_empty : Option String → String
or_empty none = ""
or_empty (some s) = s

-- The role, and the error if the state is there and malformed.
unfoldable pub extract_patroni_role_strict : PatroniState → String × Option StateError
extract_patroni_role_strict absent = ("", none)
extract_patroni_role_strict malformed = ("", some patroni_state_corrupt)
extract_patroni_role_strict (object role) = (or_empty role, none)

unfoldable pub extract_patroni_role : PatroniState → String
unfolding extract_patroni_role_strict
extract_patroni_role s = (extract_patroni_role_strict s).0

unfoldable pub is_db_role : String → Bool
is_db_role role = str_eq role "hyperconverged" || str_eq role "db_only"

unfoldable pub is_app_role : String → Bool
is_app_role role = str_eq role "hyperconverged" || str_eq role "app"

unfoldable pub valid_role : String → Bool
unfolding is_db_role is_app_role
valid_role role = is_db_role role || is_app_role role

-- `role == "primary" || role == "master"`.
unfoldable pub is_primary_role : String → Bool
is_primary_role r = str_eq r "primary" || str_eq r "master"

is_replica_role : String → Bool
is_replica_role r = str_eq r "replica" || str_eq r "standby"

-- The loop of PrimaryDBNode, `best` being the first connected DB node so far.
primary_db_node_from : Option Node → List Node → Option Node
unfolding is_db_role extract_patroni_role
primary_db_node_from best [] = best
primary_db_node_from best (n ∷ ns) =
    let skip = primary_db_node_from best ns in
    let first = primary_db_node_from (elim best [ none ↦ some n | some b ↦ some b ]) ns in
    if not (is_db_role n.role) || not (str_eq n.agent_status "connected")
    then skip
    else if str_eq (extract_patroni_role n.patroni_state) "primary"
    then some n
    else first

unfoldable pub primary_db_node : List Node → Option Node
unfolding primary_db_node_from
primary_db_node ns = primary_db_node_from none ns

-- The strings that the functions below return, each with the constructor for its literal.
pub data Health : Type 0 where
  healthy unhealthy offline : Health

pub data State : Type 0 where
  active standby no_state : State

pub data ClusterHealth : Type 0 where
  all_healthy degraded down : ClusterHealth

abbrev pub is_healthy : Health → Bool
is_healthy healthy = true
is_healthy _ = false

abbrev pub is_active : State → Bool
is_active active = true
is_active _ = false

abbrev pub is_standby : State → Bool
is_standby standby = true
is_standby _ = false

hyperconverged_health : Bool → Bool → String → Bool → Health
unfolding is_primary_role
hyperconverged_health nb rq patroni_role patroni_configured =
    if nb
    then (if not rq
        then unhealthy
        else if patroni_configured
            && (not (str_eq patroni_role "") && not (is_primary_role patroni_role))
        then unhealthy
        else healthy)
    else (if patroni_configured && (not (str_eq patroni_role "") && is_primary_role patroni_role)
        then unhealthy
        else healthy)

db_only_health : String → Bool → Health
unfolding is_primary_role is_replica_role
db_only_health patroni_role patroni_configured =
    if patroni_configured
    then (if str_eq patroni_role ""
        then unhealthy
        else if not (is_primary_role patroni_role) && not (is_replica_role patroni_role)
        then unhealthy
        else healthy)
    else healthy

unfoldable pub compute_node_health :
    String → String → Option Bool → Option Bool → String → Bool → Health
unfolding hyperconverged_health db_only_health
compute_node_health role agent_status netbox_running rq_running patroni_role patroni_configured =
    let nb = is_true netbox_running in
    let rq = is_true rq_running in
    if not (str_eq agent_status "connected")
    then offline
    else if str_eq role "hyperconverged"
    then hyperconverged_health nb rq patroni_role patroni_configured
    else if str_eq role "app"
    then (if nb && not rq then unhealthy else healthy)
    else if str_eq role "db_only"
    then db_only_health patroni_role patroni_configured
    else healthy

unfoldable pub compute_node_state : String → Option Bool → String → Bool → State
unfolding is_primary_role
compute_node_state role netbox_running patroni_role patroni_configured =
    if str_eq role "hyperconverged" || str_eq role "app"
    then (if is_true netbox_running then active else standby)
    else if str_eq role "db_only"
    then (if not patroni_configured
        then no_state
        else if is_primary_role patroni_role
        then active
        else standby)
    else no_state

-- The loop of AggregateClusterHealth over the index of `nodeRoles`, with what it has seen so far:
-- a healthy active node, only healthy standbys, and how many standbys. `none` is the panic on an
-- index past the end of `nodeHealths` or `nodeStates`.
aggregate_from : Bool → Bool → ℕ → List Health → List State → List String → Option ClusterHealth
aggregate_from seen ok n hs ss [] =
    some (if not seen then down else if ltb 0 n && not ok then degraded else all_healthy)
aggregate_from seen ok n [] [] (role ∷ roles) =
    if str_eq role "db_only" then aggregate_from seen ok n [] [] roles else none
aggregate_from seen ok n (h ∷ hs) [] (role ∷ roles) =
    if str_eq role "db_only" then aggregate_from seen ok n hs [] roles else none
aggregate_from seen ok n [] (s ∷ ss) (role ∷ roles) =
    let rest = aggregate_from seen ok n [] ss roles in
    if str_eq role "db_only" then rest else if is_active s || is_standby s then none else rest
aggregate_from seen ok n (h ∷ hs) (s ∷ ss) (role ∷ roles) =
    let skip = aggregate_from seen ok n hs ss roles in
    let active_seen = aggregate_from true ok n hs ss roles in
    let standby_seen = aggregate_from seen (ok && is_healthy h) (n + 1) hs ss roles in
    if str_eq role "db_only"
    then skip
    else if is_active s && is_healthy h
    then active_seen
    else if is_standby s
    then standby_seen
    else skip

unfoldable pub aggregate_cluster_health :
    List Health → List State → List String → Option ClusterHealth
unfolding aggregate_from
aggregate_cluster_health healths states roles = aggregate_from false true 0 healths states roles
