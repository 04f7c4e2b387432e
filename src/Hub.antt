-- ===== src/Hub.antt =====
-- internal/server/hub/hub.go and internal/server/hub/session.go: the agents' sessions.
--
-- A `*Session` is a reference into a heap of session objects, so that two sessions of one node are
-- told apart as the code tells them apart. `closed` says that the channel `send` was closed. To
-- close it again, or to send on it afterwards, is a panic, which stops the server: `crashed`.
pub mod Channels
pub mod Reach
pub mod Replacement
use netbox_conductor.Base.{
  ℕ, String, Bool, true, false, ◌&&◌, ◌||◌, not, Option, none, some, List, [], ◌∷◌, ◌++◌, ◌==◌, ltb,
  length, str_eq, if◌then◌else◌, is_true, is_some, Table, lookup, insert, remove,
}
use netbox_conductor.Protocol.{Envelope}

pub record Session : Type 0 where
  pub node_id : ℕ
  pub cluster_id : ℕ
  pub netbox_version : String
  pub send : List Envelope
  pub closed : Bool
  pub conn_closed : Bool
  pub last_seen : ℕ
  pub netbox_running : Option Bool
  pub patroni_role : Option String

pub record Hub : Type 0 where
  pub sessions : Table ℕ
  pub staging_sessions : Table ℕ
  pub heap : ℕ → Session
  pub crashed : Bool

abbrev pub store : ℕ → Session → Hub → Hub
store r s h = record h { heap = λ q. if r == q then s else h.heap q }

abbrev pub empty_session : Session
empty_session = record {
  node_id = 0;
  cluster_id = 0;
  netbox_version = "";
  send = [];
  closed = false;
  conn_closed = false;
  last_seen = 0;
  netbox_running = none;
  patroni_role = none;
}

abbrev pub new : Hub
new = record { sessions = []; staging_sessions = []; heap = λ r. empty_session; crashed = false }

-- `NewSession`, with the object at the reference `r`.
unfoldable pub new_session : ℕ → ℕ → ℕ → ℕ → Hub → Hub
new_session r node cluster now =
    store r (record empty_session { node_id = node; cluster_id = cluster; last_seen = now })

-- `close(s.send)`.
close_send : ℕ → Hub → Hub
close_send r h =
    if (h.heap r).closed
    then record h { crashed = true }
    else store r (record (h.heap r) { closed = true }) h

-- `s.Close()`.
close_conn : ℕ → Hub → Hub
close_conn r h = store r (record (h.heap r) { conn_closed = true }) h

evict : Option ℕ → Hub → Hub
unfolding close_send close_conn
evict none h = h
evict (some old) h = close_conn old (close_send old h)

unfoldable pub register : ℕ → Hub → Hub
unfolding evict
register r h =
    let node = (h.heap r).node_id in
    let h' = evict (lookup node h.sessions) h in record h' { sessions = insert node r h'.sessions }

close_if_there : Option ℕ → Hub → Hub
unfolding close_send
close_if_there none h = h
close_if_there (some r) h = close_send r h

unfoldable pub unregister : ℕ → Hub → Hub
unfolding close_if_there
unregister node h =
    let h' = close_if_there (lookup node h.sessions) h in
    record h' { sessions = remove node h'.sessions }

abbrev is_ref : ℕ → Option ℕ → Bool
is_ref r none = false
is_ref r (some q) = q == r

unfoldable pub unregister_if_same : ℕ → ℕ → Hub → Bool × Hub
unregister_if_same node r h =
    if is_ref r (lookup node h.sessions)
    then (true, record h { sessions = remove node h.sessions })
    else (false, h)

unfoldable pub get : ℕ → Hub → Option ℕ
get node h = lookup node h.sessions

unfoldable pub is_connected : ℕ → Hub → Bool
is_connected node h = is_some (lookup node h.sessions)

unfoldable pub connected_count : Hub → ℕ
connected_count h = length h.sessions

abbrev pub keys : Table ℕ → List ℕ
keys [] = []
keys ((k, r) ∷ t) = k ∷ keys t

abbrev pub values : Table ℕ → List ℕ
values [] = []
values ((k, r) ∷ t) = r ∷ values t

unfoldable pub connected_node_ids : Hub → List ℕ
connected_node_ids h = keys h.sessions

-- Closes the channels of the given sessions in turn.
close_all : List ℕ → Hub → Hub
unfolding close_send
close_all [] h = h
close_all (r ∷ rs) h = close_all rs (close_send r h)

-- The two loops of DrainAll, each of which deletes every key that it visits.
unfoldable pub drain_all : Hub → Hub
unfolding close_all
drain_all h =
    let h' = close_all (values h.sessions) h in
    let h'' = close_all (values h.staging_sessions) h' in
    record h'' { sessions = []; staging_sessions = [] }

unfoldable pub register_staging : ℕ → ℕ → Hub → Hub
unfolding close_if_there
register_staging staging_id r h =
    let h' = close_if_there (lookup staging_id h.staging_sessions) h in
    record h' { staging_sessions = insert staging_id r h'.staging_sessions }

unfoldable pub unregister_staging : ℕ → Hub → Hub
unfolding close_if_there
unregister_staging staging_id h =
    let h' = close_if_there (lookup staging_id h.staging_sessions) h in
    record h' { staging_sessions = remove staging_id h'.staging_sessions }

unfoldable pub is_connected_staging : ℕ → Hub → Bool
is_connected_staging staging_id h = is_some (lookup staging_id h.staging_sessions)

abbrev in_cluster : ℕ → (ℕ → Session) → ℕ → Bool
in_cluster c heap r = (heap r).cluster_id == c

-- The version that the first matching session reports, in the order in which the map is walked.
version_from : ℕ → (ℕ → Session) → Table ℕ → String
version_from c heap [] = ""
version_from c heap ((k, r) ∷ t) =
    let rest = version_from c heap t in
    if in_cluster c heap r && not (str_eq (heap r).netbox_version "")
    then (heap r).netbox_version
    else rest

unfoldable pub netbox_version_for_cluster : ℕ → Hub → String
unfolding version_from
netbox_version_for_cluster c h = version_from c h.heap h.sessions

-- The sessions of a cluster, and the table without them.
members : ℕ → (ℕ → Session) → Table ℕ → List ℕ
members c heap [] = []
members c heap ((k, r) ∷ t) =
    let rest = members c heap t in if in_cluster c heap r then r ∷ rest else rest

others : ℕ → (ℕ → Session) → Table ℕ → Table ℕ
others c heap [] = []
others c heap ((k, r) ∷ t) =
    let rest = others c heap t in if in_cluster c heap r then rest else (k, r) ∷ rest

-- The loop closes the sessions of the cluster and deletes their keys; the others stay.
unfoldable pub unregister_cluster : ℕ → Hub → Hub
unfolding close_all members others
unregister_cluster c h =
    let h' = close_all (members c h.heap h.sessions) h in
    record h' { sessions = others c h.heap h.sessions }

abbrev pub send_capacity : ℕ
send_capacity = 64

-- `Send`: the `default` case is taken when the buffer is full.
unfoldable pub send : ℕ → Envelope → Hub → Bool × Hub
send r env h =
    let s = h.heap r in
    if s.closed
    then (false, record h { crashed = true })
    else if ltb (length s.send) send_capacity
    then (true, store r (record s { send = s.send ++ env ∷ [] }) h)
    else (false, h)

unfoldable pub touch_last_seen : ℕ → ℕ → Hub → Hub
touch_last_seen now r h = store r (record (h.heap r) { last_seen = now }) h

abbrev differs : Bool → Bool → Bool
differs true b = not b
differs false b = b

-- The previous value, and whether it changed: nil differs from both values.
unfoldable pub set_netbox_running : Option Bool → ℕ → Hub → (Option Bool × Bool) × Hub
set_netbox_running running r h =
    let old = (h.heap r).netbox_running in
    (
      (
        old,
        differs (not (is_some old)) (not (is_some running))
            || differs (is_true old) (is_true running),
      ),
      store r (record (h.heap r) { netbox_running = running }) h,
    )

abbrev or_empty : Option String → String
or_empty none = ""
or_empty (some s) = s

-- The previous role, and whether the session had reported none before.
unfoldable pub set_patroni_role : String → ℕ → Hub → (String × Bool) × Hub
set_patroni_role role r h =
    let old = (h.heap r).patroni_role in
    ((or_empty old, not (is_some old)), store r (record (h.heap r) { patroni_role = some role }) h)
