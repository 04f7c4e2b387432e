-- ===== src/Failover/Switchover.antt =====
-- triggerPatroniSwitchover: moves the database primary to the candidate.
use Prim.Native.Char.{code}
use netbox_conductor.Base.{
  ℕ, String, Bool, true, false, ◌||◌, not, Option, none, some, List, [], ◌∷◌, ◌==◌, str_eq,
  if◌then◌else◌,
}
use netbox_conductor.Nodestate.{
  Node, StateError, extract_patroni_role, extract_patroni_role_strict, is_primary_role,
}
use netbox_conductor.Hub.{Hub, is_connected}
use netbox_conductor.Failover.State.{
  Cluster, Env, RestRequest, switchover, forced_failover, RestError, request_failed,
  status_returned, rest_called, World, do_effect,
}

-- What stands before the first `/`: an address without its CIDR length.
unfoldable pub bare_ip : String → String
bare_ip String.[] = String.[]
bare_ip (String.◌∷◌ c s) =
    let rest = bare_ip s in if code c == b'/' then String.[] else String.◌∷◌ c rest

-- The first connected node that reports to be the primary, or the master.
unfoldable pub connected_primary : Hub → List Node → Option Node
connected_primary hub [] = none
connected_primary hub (n ∷ ns) =
    let rest = connected_primary hub ns in
    if not (is_connected n.id hub)
    then rest
    else if is_primary_role (extract_patroni_role n.patroni_state)
    then some n
    else rest

hostname_of : ℕ → String → List Node → String
hostname_of id default [] = default
hostname_of id default (n ∷ ns) =
    let rest = hostname_of id default ns in if n.id == id then n.hostname else rest

-- POST /switchover to the primary if there is one, else POST /failover to the candidate.
unfoldable pub rest_request : Env → Node → List Node → ℕ → Option Node → RestRequest
unfolding bare_ip hostname_of
rest_request e candidate ns failing (some primary) =
    switchover (bare_ip primary.ip_address) primary.hostname candidate.hostname
rest_request e candidate ns failing none =
    forced_failover (bare_ip candidate.ip_address) (hostname_of failing (e.uuid_string failing) ns)
      candidate.hostname

rest_outcome : Option ℕ → Bool × Option RestError
rest_outcome none = (false, some request_failed)
rest_outcome (some status) =
    if status == 200 then (true, none) else (false, some (status_returned status))

-- Whether the candidate's reported role calls for a switchover: it is a replica of some kind.
unfoldable pub movable : String × Option StateError → Bool
movable (role, some err) = false
movable (role, none) = not (is_primary_role role || str_eq role "")

unfoldable pub trigger_patroni_switchover :
    Env → Cluster → Node → List Node → ℕ → World → (Bool × Option RestError) × World
unfolding rest_outcome movable
trigger_patroni_switchover e c candidate ns failing w =
    let request = rest_request e candidate ns failing (connected_primary w.hub ns) in
    if not c.patroni_configured || not (str_eq c.mode "active_standby")
    then ((false, none), w)
    else if not (movable (extract_patroni_role_strict candidate.patroni_state))
    then ((false, none), w)
    else (rest_outcome (e.rest request), do_effect (rest_called request) w)
