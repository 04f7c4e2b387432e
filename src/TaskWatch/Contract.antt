-- ===== src/TaskWatch/Contract.antt =====
-- What a waiter can rely on, and what it learns of an agent that loses a task.
use netbox_conductor.Base.{
  ℕ, Bool, true, false, ◌&&◌, ◌||◌, ◌≡◌, sym, ap, ◌∙◌, ◌⊎◌, ◌↔◌, ◌<◌, refl, Option, none, some,
  List, [], ◌∷◌, arith, ◌==◌, if◌then◌else◌, lookup, lookup-insert, is_some, Bool-cases,
  Option-cases, inl, inr, ==_iff,
}
use netbox_conductor.Protocol.{TaskResultPayload}
use netbox_conductor.TaskWatch.{
  TaskWatch, Waiters, watch_task, notify_task_result, notify_task_ack, notify_heartbeat, contains,
  heard, acknowledge, deliver, update_watch, away_or_never_received, WaitResult, no_result,
  result_never_arrived, outcome, Ready, result_ready, lost_ready, ticked, cancelled, Task,
  wait_round,
}

-- What reaches the hub about tasks.
pub data Notice : Type 0 where
  ack : ℕ → Notice
  heartbeat : ℕ → List ℕ → Notice
  result : ℕ → TaskResultPayload → Notice

abbrev pub notice : Notice → Waiters → Waiters
notice (ack id) ws = notify_task_ack id ws
notice (heartbeat node tasks) ws = notify_heartbeat node tasks ws
notice (result id res) ws = notify_task_result id res ws

unfoldable pub notices : List Notice → Waiters → Waiters
notices [] ws = ws
notices (n ∷ ns) ws = notices ns (notice n ws)

-- The first result for a task.
abbrev pub first_result : ℕ → List Notice → Option TaskResultPayload
first_result id [] = none
first_result id (ack j ∷ ns) = first_result id ns
first_result id (heartbeat m ts ∷ ns) = first_result id ns
first_result id (result j res ∷ ns) = if j == id then some res else first_result id ns

-- The agent of `node` is in order about the task `id`: once it has acked or listed the task, a
-- heartbeat that does not list it comes after the task's result.
abbrev pub InOrder : ℕ → ℕ → Bool → Bool → List Notice → Type 0
InOrder id node shown over [] = Unit
InOrder id node shown over (ack j ∷ ns) = InOrder id node (shown || j == id) over ns
InOrder id node shown over (heartbeat m ts ∷ ns) =
    (m ≡ node → contains ts id ≡ false → shown ≡ true → over ≡ true)
    × InOrder id node (shown || (m == node && contains ts id)) over ns
InOrder id node shown over (result j res ∷ ns) = InOrder id node shown (over || j == id) ns

-- One notice, seen from the watch of one task.
abbrev seen : ℕ → Notice → TaskWatch → TaskWatch
seen id (ack j) w = if j == id then acknowledge w else w
seen id (heartbeat m ts) w = heard m ts id w
seen id (result j res) w = if j == id then deliver res w else w

lookup-notify_heartbeat :
    (id m : ℕ) (ts : List ℕ) (ws : Waiters) (w : TaskWatch)
    → lookup id ws ≡ some w
    → lookup id (notify_heartbeat m ts ws) ≡ some (heard m ts id w)
unfolding notify_heartbeat lookup
lookup-notify_heartbeat id m ts [] w e = cc
lookup-notify_heartbeat id m ts ((j, v) ∷ ws) w e = elim (Bool-cases (j == id)) [
  | inl b ↦
      let same : j ≡ id = (==_iff j id).0 b in let here : some v ≡ some w = rw b at e in rw b (cc)
  | inr b ↦ rw b (lookup-notify_heartbeat id m ts ws w (rw b at e))
]

update-watch :
    (id j : ℕ) (f : TaskWatch → TaskWatch) (ws : Waiters) (w : TaskWatch)
    → lookup id ws ≡ some w
    → lookup id (update_watch j f (lookup j ws) ws) ≡ some (if j == id then f w else w)
update-watch id j f ws w e = elim (Option-cases (lookup j ws)) [
  | inl n ↦ rw n (elim (Bool-cases (j == id)) [
    | inl b ↦ let same : j ≡ id = (==_iff j id).0 b in cc
    | inr b ↦ rw b e
  ])
  | inr (v, n) ↦ rw n (
      rw lookup-insert (elim (Bool-cases (j == id)) [
        | inl b ↦ let same : j ≡ id = (==_iff j id).0 b in rw b (cc)
        | inr b ↦ rw b e
      ]))
]

lookup-notice :
    (id : ℕ) (n : Notice) (ws : Waiters) (w : TaskWatch)
    → lookup id ws ≡ some w
    → lookup id (notice n ws) ≡ some (seen id n w)
unfolding notify_task_ack notify_task_result
lookup-notice id (ack j) ws w e = update-watch id j acknowledge ws w e
lookup-notice id (heartbeat m ts) ws w e = lookup-notify_heartbeat id m ts ws w e
lookup-notice id (result j res) ws w e = update-watch id j (deliver res) ws w e

-- The watch after all notices.
seen_all : ℕ → List Notice → TaskWatch → TaskWatch
seen_all id [] w = w
seen_all id (n ∷ ns) w = seen_all id ns (seen id n w)

lookup-notices :
    (id : ℕ) (ns : List Notice) (ws : Waiters) (w : TaskWatch)
    → lookup id ws ≡ some w
    → lookup id (notices ns ws) ≡ some (seen_all id ns w)
unfolding notices seen_all
lookup-notices id [] ws w e = e
lookup-notices id (n ∷ ns) ws w e =
    lookup-notices id ns (notice n ws) (seen id n w) (lookup-notice id n ws w e)

abbrev or_else : Option TaskResultPayload → Option TaskResultPayload → Option TaskResultPayload
or_else none b = b
or_else (some a) b = some a

result-seen_all :
    (id : ℕ) (ns : List Notice) (w : TaskWatch)
    → (seen_all id ns w).result ≡ or_else w.result (first_result id ns)
unfolding seen_all
result-seen_all id [] w = ground arith
result-seen_all id (ack j ∷ ns) w = ground (arith, result-seen_all id ns (seen id (ack j) w))
result-seen_all id (heartbeat m ts ∷ ns) w =
    ground (arith, result-seen_all id ns (seen id (heartbeat m ts) w))
result-seen_all id (result j res ∷ ns) w =
    ground (arith, result-seen_all id ns (seen id (result j res) w))

-- The watch of a task of `node`: it knows no more than was shown, and nothing is lost before the
-- result is there.
record IsTrue (node : ℕ) (shown over : Bool) (w : TaskWatch) : Type 0 where
  same_node : w.node ≡ node
  known_shown : w.known ≡ true → shown ≡ true
  over_result : over ≡ true → is_some w.result ≡ true
  lost_result : w.lost ≡ true → is_some w.result ≡ true

heartbeat-IsTrue :
    (id node m : ℕ) (shown over : Bool) (ts : List ℕ) (w : TaskWatch)
    → (m ≡ node → contains ts id ≡ false → shown ≡ true → over ≡ true)
    → IsTrue node shown over w
    → IsTrue node (shown || (m == node && contains ts id)) over (heard m ts id w)
heartbeat-IsTrue id node m shown over ts w o i = record {
  same_node = ground arith;
  known_shown = ground arith;
  over_result = ground arith;
  lost_result = ground arith;
}

lost-seen_all :
    (id node : ℕ) (shown over : Bool) (ns : List Notice) (w : TaskWatch)
    → InOrder id node shown over ns
    → IsTrue node shown over w
    → (seen_all id ns w).lost ≡ true
    → is_some (seen_all id ns w).result ≡ true
unfolding seen_all
lost-seen_all id node shown over [] w o i l = i.lost_result l
lost-seen_all id node shown over (ack j ∷ ns) w o i l =
    lost-seen_all id node (shown || j == id) over ns (seen id (ack j) w) o (ground arith) l
lost-seen_all id node shown over (heartbeat m ts ∷ ns) w o i l =
    lost-seen_all id node (shown || (m == node && contains ts id)) over ns
      (seen id (heartbeat m ts) w) o.1 (heartbeat-IsTrue id node m shown over ts w o.0 i) l
lost-seen_all id node shown over (result j res ∷ ns) w o i l =
    lost-seen_all id node shown (over || j == id) ns (seen id (result j res) w) o (ground arith) l

abbrev fresh : ℕ → TaskWatch
fresh node = record { node = node; result = none; known = false; lost = false }

lookup-watch_task :
    (id node : ℕ) (ws : Waiters) → lookup id (watch_task id node ws) ≡ some (fresh node)
unfolding watch_task
lookup-watch_task id node ws = rw lookup-insert (ground arith)

round_of_result :
    (t : Task) (ready : Ready) (now : ℕ) (connected : Bool) (w : TaskWatch) (r : WaitResult)
    → (ready ≡ result_ready) ⊎ (ready ≡ lost_ready)
    → wait_round ready now connected t w ≡ some r
    → ((res : TaskResultPayload) × (w.result ≡ some res) × (r ≡ outcome res))
      ⊎ ((w.result ≡ none) × (w.lost ≡ true) × (r ≡ no_result result_never_arrived))
unfolding wait_round
round_of_result t result_ready now connected w r c h = elim (Option-cases w.result) [
  | inl e ↦ absurd (ground arith)
  | inr (res, e) ↦ inl (res, e, ground arith)
]
round_of_result t lost_ready now connected w r c h = elim (Option-cases w.result) [
  | inl e ↦ inr (e, ground arith, ground arith)
  | inr (res, e) ↦ inl (res, e, ground arith)
]
round_of_result t ticked now connected w r c h = absurd (ground arith)
round_of_result t cancelled now connected w r c h = absurd (ground arith)

-- When a round of `Wait` returns on the case of a result or of a lost task, it returns the outcome of the
-- first result for the task that the hub was notified of, also if the task was lost as well; or there
-- was no result, and it returns ErrNoResult: then the agent was not in order about the task, which a
-- heartbeat of it has left out after the agent had acked or listed it.
pub wait_round-first_result :
    (t : Task) (ns : List Notice) (ws : Waiters) (ready : Ready) (now : ℕ) (connected : Bool)
    (w : TaskWatch) (r : WaitResult)
    → lookup t.id (notices ns (watch_task t.id t.node ws)) ≡ some w
    → (ready ≡ result_ready) ⊎ (ready ≡ lost_ready)
    → wait_round ready now connected t w ≡ some r
    → ((res : TaskResultPayload) × (first_result t.id ns ≡ some res) × (r ≡ outcome res))
      ⊎ ((first_result t.id ns ≡ none)
          × (r ≡ no_result result_never_arrived)
          × ¬ InOrder t.id t.node false false ns)
wait_round-first_result t ns ws ready now connected w r e c h =
    let w' = seen_all t.id ns (fresh t.node) in
    let found : lookup t.id (notices ns (watch_task t.id t.node ws)) ≡ some w' =
      lookup-notices t.id ns (watch_task t.id t.node ws) (fresh t.node)
        (lookup-watch_task t.id t.node ws) in
    let same : w ≡ w' = cc in
    let first : first_result t.id ns ≡ w.result =
      sym (result-seen_all t.id ns (fresh t.node)) ∙ sym (ap (λ v. v.result) same) in
    elim (round_of_result t ready now connected w r c h) [
      | inl (res, p, q) ↦ inl (res, first ∙ p, q)
      | inr (p, lost, q) ↦ inr (
        first ∙ p,
        q,
        λ o. absurd (
            lost_alone w p (
              rw same (
                lost-seen_all t.id t.node false false ns (fresh t.node) o (ground arith)
                  (rw⁻¹ same lost)))),
      )
    ]
  where
    lost_alone : (v : TaskWatch) → v.result ≡ none → is_some v.result ≡ true → ⊥
    lost_alone v p q = ground arith

-- A result that the hub is notified of after the task is watched is kept for `Wait`: when a round of
-- `Wait` takes it, `Wait` returns its outcome, and later results for the task change nothing.
pub result_ready-first_result :
    (t : Task) (ns : List Notice) (ws : Waiters) (now : ℕ) (connected : Bool)
    (res : TaskResultPayload)
    → first_result t.id ns ≡ some res
    → (w : TaskWatch) × (lookup t.id (notices ns (watch_task t.id t.node ws)) ≡ some w)
      × (wait_round result_ready now connected t w ≡ some (outcome res))
unfolding wait_round
result_ready-first_result t ns ws now connected res f = (
  seen_all t.id ns (fresh t.node),
  lookup-notices t.id ns (watch_task t.id t.node ws) (fresh t.node)
      (lookup-watch_task t.id t.node ws),
  rw (result-seen_all t.id ns (fresh t.node), f) refl,
)

-- The timer ends the wait exactly when the task's limit has passed and its agent is away or has not
-- shown that it has the task.
pub ticked_iff :
    (t : Task) (now : ℕ) (connected : Bool) (w : TaskWatch)
    → (wait_round ticked now connected t w ≡ some (no_result away_or_never_received))
      ↔ ((t.deadline < now) × ((connected ≡ false) ⊎ (w.known ≡ false)))
unfolding wait_round
ticked_iff t now connected w = ground arith
