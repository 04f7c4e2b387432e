-- ===== src/Hub/Reach.antt =====
-- The hub under any sequence of operations.
use netbox_conductor.Base.{
  ℕ, String, Bool, true, false, ◌≡◌, ◌≢◌, ◌⊎◌, refl, sym, Option, arith, All, Bool-cases, inl, inr,
  ltb, length,
}
use netbox_conductor.Protocol.{Envelope}
use netbox_conductor.Hub.{
  Session, Hub, new, send_capacity, new_session, values, store, register, unregister,
  unregister_if_same, drain_all, register_staging, unregister_staging, unregister_cluster, send,
  touch_last_seen, set_netbox_running, set_patroni_role,
}
use netbox_conductor.Hub.Channels.Tables.{All-map, All-zip}
use netbox_conductor.Hub.Channels.{
  IsOpen, IsSound, IsFresh, register-IsSound, unregister-IsSound, unregister_if_same-IsSound,
  register_staging-IsSound, unregister_staging-IsSound,
}
use netbox_conductor.Hub.Channels.Loops.{drain_all-IsSound, unregister_cluster-IsSound}

-- The session object is in neither table.
pub record IsFree (r : ℕ) (h : Hub) : Type 0 where
  pub no_session : All (λ q. q ≢ r) (values h.sessions)
  pub no_staging : All (λ q. q ≢ r) (values h.staging_sessions)

-- What the server does with the hub. A session is allocated at a reference that nothing holds; the
-- connection that owns it registers it. A message is sent on any session: on the one that `Get` returned
-- some steps before, since SendRaw does not hold the lock between the two, or on a connection's own.
pub data Step : Hub → Hub → Type 0 where
  allocate :
      (r node cluster now : ℕ) {h : Hub} → IsFree r h → Step h (new_session r node cluster now h)
  connect : (r : ℕ) {h : Hub} → IsFresh r h → Step h (register r h)
  disconnect : (node r : ℕ) {h : Hub} → Step h (unregister_if_same node r h).1
  remove_node : (node : ℕ) {h : Hub} → Step h (unregister node h)
  remove_cluster : (cluster : ℕ) {h : Hub} → Step h (unregister_cluster cluster h)
  connect_staging : (id r : ℕ) {h : Hub} → IsFresh r h → Step h (register_staging id r h)
  disconnect_staging : (id : ℕ) {h : Hub} → Step h (unregister_staging id h)
  drain : {h : Hub} → Step h (drain_all h)
  deliver : (r : ℕ) (env : Envelope) {h : Hub} → Step h (send r env h).1
  seen : (now r : ℕ) {h : Hub} → Step h (touch_last_seen now r h)
  running : (b : Option Bool) (r : ℕ) {h : Hub} → Step h (set_netbox_running b r h).1
  role : (name : String) (r : ℕ) {h : Hub} → Step h (set_patroni_role name r h).1

-- A panic ends the server, and is followed by no step.
pub data Reach : Hub → Type 0 where
  start : Reach new
  next : {h h' : Hub} → Reach h → h.crashed ≡ false → Step h h' → Reach h'

-- A session object that keeps its channel as it was, or that no table holds.
store-IsSound :
    (r : ℕ) (s : Session) (h : Hub)
    → s.closed ≡ (h.heap r).closed
    → IsSound h
    → IsSound (store r s h)
store-IsSound r s h e i =
    let same = λ (q : ℕ) (o : IsOpen h q). store-IsOpen r q s h e o in
    record {
      alive = i.alive;
      open_sessions = All-map (values h.sessions) same i.open_sessions;
      open_staging = All-map (values h.staging_sessions) same i.open_staging;
      distinct = i.distinct;
      distinct_staging = i.distinct_staging;
      apart = i.apart;
    }
  where
    store-IsOpen :
        (r q : ℕ) (s : Session) (h : Hub)
        → s.closed ≡ (h.heap r).closed
        → IsOpen h q
        → IsOpen (store r s h) q
    store-IsOpen r q s h e o = ground arith

allocate-IsSound : (r : ℕ) (s : Session) (h : Hub) → IsFree r h → IsSound h → IsSound (store r s h)
allocate-IsSound r s h f i =
    let same = λ (q : ℕ) (n : q ≢ r) (o : IsOpen h q). keeps r q s h n o in
    record {
      alive = i.alive;
      open_sessions = All-zip (values h.sessions) same f.no_session i.open_sessions;
      open_staging = All-zip (values h.staging_sessions) same f.no_staging i.open_staging;
      distinct = i.distinct;
      distinct_staging = i.distinct_staging;
      apart = i.apart;
    }
  where
    keeps : (r q : ℕ) (s : Session) (h : Hub) → q ≢ r → IsOpen h q → IsOpen (store r s h) q
    keeps r q s h n o = ground arith

send-IsSound :
    (r : ℕ) (env : Envelope) (h : Hub) → IsOpen h r → IsSound h → IsSound (send r env h).1
unfolding send
send-IsSound r env h o i = rw o (elim (Bool-cases (ltb (length (h.heap r).send) send_capacity)) [
  | inl room ↦ rw room (store-IsSound r _ h (sym o) i)
  | inr full ↦ rw full i
])

-- The last step was a send on a session whose channel was closed; before it, all was sound.
pub record SentLate (h : Hub) : Type 0 where
  pub before : Hub
  pub session : ℕ
  pub message : Envelope
  pub sound : IsSound before
  pub late : (before.heap session).closed ≡ true
  pub sent_there : h ≡ (send session message before).1

deliver-cases :
    (r : ℕ) (env : Envelope) (h : Hub)
    → IsSound h
    → IsSound (send r env h).1 ⊎ SentLate (send r env h).1
deliver-cases r env h i = elim (Bool-cases (h.heap r).closed) [
  | inr o ↦ inl (send-IsSound r env h o i)
  | inl c ↦
      inr
        (record { before = h; session = r; message = env; sound = i; late = c; sent_there = refl })
]

Step-cases : {h h' : Hub} → Step h h' → IsSound h → IsSound h' ⊎ SentLate h'
unfolding new_session touch_last_seen set_netbox_running set_patroni_role
Step-cases (allocate r node cluster now f) i = inl (allocate-IsSound r _ _ f i)
Step-cases (connect r f) i = inl (register-IsSound r _ i f)
Step-cases (disconnect node r) i = inl (unregister_if_same-IsSound node r _ i)
Step-cases (remove_node node) i = inl (unregister-IsSound node _ i)
Step-cases (remove_cluster c) i = inl (unregister_cluster-IsSound c _ i)
Step-cases (connect_staging id r f) i = inl (register_staging-IsSound id r _ i f)
Step-cases (disconnect_staging id) i = inl (unregister_staging-IsSound id _ i)
Step-cases drain i = inl (drain_all-IsSound _ i)
Step-cases (deliver r env {h = h}) i = deliver-cases r env h i
Step-cases (seen now r) i = inl (store-IsSound r _ _ refl i)
Step-cases (running b r) i = inl (store-IsSound r _ _ refl i)
Step-cases (role name r) i = inl (store-IsSound r _ _ refl i)

crashed-SentLate : (h : Hub) → SentLate h → h.crashed ≡ true
unfolding send
crashed-SentLate h s = rw (s.sent_there, s.late) refl

-- Whatever agents connect, replace one another, leave or are removed, and whatever is sent to any
-- sessions, in any order: either no operation has panicked, and every session that is registered has an
-- open channel and is registered once; or the last operation, and no other, has panicked, and it
-- was a send on a session whose channel had been closed, as after a `Get` that another connection of
-- the node has overtaken.
pub Reach-IsSound : {h : Hub} → Reach h → IsSound h ⊎ SentLate h
Reach-IsSound start = inl (record {
  alive = refl;
  open_sessions = tt;
  open_staging = tt;
  distinct = tt;
  distinct_staging = tt;
  apart = tt;
})
Reach-IsSound (next {h = h} r up st) = elim (Reach-IsSound r) [
  | inl i ↦ Step-cases st i
  | inr s ↦ absurd (contradicts up (crashed-SentLate h s))
]
  where
    contradicts : {b : Bool} → b ≡ false → b ≡ true → ⊥
    contradicts p q = ground arith
