-- ===== src/Backups/Settling/Latest.antt =====
-- A node is settled by the timer of its latest connection, and by no other.
use netbox_conductor.Base.{
  ℕ, Bool, true, false, ◌||◌, ◌≡◌, refl, some, List, [], ◌∷◌, ◌==◌, All, arith,
}
use netbox_conductor.Backups.Settling.{Settling, on_node_connect, on_node_disconnect, fire, settled}

pub data Event : Type 0 where
  connected : (now delay timer node : ℕ) → Event
  disconnected : (node : ℕ) → Event
  fired : (timer node : ℕ) → Event

pub receive : Event → Settling → Settling
receive (connected now delay t node) s = on_node_connect now delay t node s
receive (disconnected node) s = on_node_disconnect node s
receive (fired t node) s = (fire t node s).1

pub receive_all : List Event → Settling → Settling
receive_all [] s = s
receive_all (e ∷ es) s = receive_all es (receive e s)

-- The event neither begins nor ends a connection of the node, and makes no new timer at the reference
-- `t`, whose function is of the node.
abbrev pub IsApart : (t node : ℕ) → Event → Type 0
IsApart t node (connected now delay u n) = ((n == node) ≡ false) × ((u == t) ≡ false)
IsApart t node (disconnected n) = (n == node) ≡ false
IsApart t node (fired u n) = (u == t) ≡ true → (n == node) ≡ true

abbrev pub fires : ℕ → List Event → Bool
fires t [] = false
fires t (connected now delay u n ∷ es) = fires t es
fires t (disconnected n ∷ es) = fires t es
fires t (fired u n ∷ es) = u == t || fires t es

-- While the node's entry is its timer `t`, an event of another connection leaves that entry, and the
-- node is settled once the function of `t` has run.
connected_step :
    (t node now delay u n : ℕ) (s : Settling)
    → (n == node) ≡ false
    → (u == t) ≡ false
    → s.settling node ≡ some t
    → ((on_node_connect now delay u n s).settling node ≡ some t)
      × (settled node (on_node_connect now delay u n s) ≡ settled node s)
unfolding on_node_connect settled
connected_step t node now delay u n s h k c = ground arith

disconnected_step :
    (t node n : ℕ) (s : Settling)
    → (n == node) ≡ false
    → s.settling node ≡ some t
    → ((on_node_disconnect n s).settling node ≡ some t)
      × (settled node (on_node_disconnect n s) ≡ settled node s)
unfolding on_node_disconnect settled
disconnected_step t node n s h c = ground arith

fired_step :
    (t node u n : ℕ) (s : Settling)
    → ((u == t) ≡ true → (n == node) ≡ true)
    → s.settling node ≡ some t
    → ((fire u n s).1.settling node ≡ some t)
      × (settled node (fire u n s).1 ≡ (u == t || settled node s))
unfolding fire settled
fired_step t node u n s h c = ground arith

receive_all-settled :
    (t node : ℕ) (es : List Event) (s : Settling)
    → All (IsApart t node) es
    → s.settling node ≡ some t
    → settled node (receive_all es s) ≡ (fires t es || settled node s)
unfolding receive_all receive
receive_all-settled t node [] s a c = refl
receive_all-settled t node (connected now delay u n ∷ es) s a c =
    let e = connected_step t node now delay u n s a.0.0 a.0.1 c in
    ground (arith, receive_all-settled t node es (on_node_connect now delay u n s) a.1 e.0)
receive_all-settled t node (disconnected n ∷ es) s a c =
    let e = disconnected_step t node n s a.0 c in
    ground (arith, receive_all-settled t node es (on_node_disconnect n s) a.1 e.0)
receive_all-settled t node (fired u n ∷ es) s a c =
    let e = fired_step t node u n s a.0 c in
    ground (arith, receive_all-settled t node es (fire u n s).1 a.1 e.0)

connect_fresh :
    (now delay t node : ℕ) (s : Settling)
    → ((on_node_connect now delay t node s).settling node ≡ some t)
      × (settled node (on_node_connect now delay t node s) ≡ false)
unfolding on_node_connect settled
connect_fresh now delay t node s = ground arith

-- Whatever came before a node's latest connection, after it the node is settled exactly if the
-- function of the timer of that connection has run, until the connection ends: what other nodes do,
-- and a timer of an earlier connection whose function runs late, neither settle nor unsettle it.
pub settled-on_node_connect :
    (now delay t node : ℕ) (es : List Event) (s : Settling)
    → All (IsApart t node) es
    → settled node (receive_all es (on_node_connect now delay t node s)) ≡ fires t es
settled-on_node_connect now delay t node es s a =
    let e = connect_fresh now delay t node s in
    let f = receive_all-settled t node es (on_node_connect now delay t node s) a e.0 in
    ground (arith, f)
