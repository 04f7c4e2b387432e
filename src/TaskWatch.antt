-- ===== src/TaskWatch.antt =====
-- internal/server/hub/hub.go (the task watches) and internal/server/hub/dispatcher.go (Task.Wait).
--
-- The channel `result` holds one value. `Wait` is modelled round by round: which case of its `select`
-- is taken is an argument, since Go takes any that is ready.
pub mod Contract
use netbox_conductor.Base.{
  ℕ, String, Bool, true, false, ◌&&◌, ◌||◌, not, Option, none, some, List, [], ◌∷◌, ◌==◌, ltb,
  if◌then◌else◌, Table, lookup, insert, remove, is_some,
}
use netbox_conductor.Protocol.{TaskResultPayload}

pub record TaskWatch : Type 0 where
  pub node : ℕ
  pub result : Option TaskResultPayload
  pub known : Bool
  pub lost : Bool

abbrev pub Waiters : Type 0
Waiters = Table TaskWatch

unfoldable pub watch_task : ℕ → ℕ → Waiters → Waiters
watch_task id node ws =
    insert id (record { node = node; result = none; known = false; lost = false }) ws

-- The function that `watchTask` returns.
unfoldable pub done : ℕ → Waiters → Waiters
done id ws = remove id ws

abbrev deliver : TaskResultPayload → TaskWatch → TaskWatch
deliver res w = if is_some w.result then w else record w { result = some res }

abbrev acknowledge : TaskWatch → TaskWatch
acknowledge w = record w { known = true }

abbrev update_watch : ℕ → (TaskWatch → TaskWatch) → Option TaskWatch → Waiters → Waiters
update_watch id f none ws = ws
update_watch id f (some w) ws = insert id (f w) ws

unfoldable pub notify_task_result : ℕ → TaskResultPayload → Waiters → Waiters
notify_task_result id res ws = update_watch id (deliver res) (lookup id ws) ws

unfoldable pub notify_task_ack : ℕ → Waiters → Waiters
notify_task_ack id ws = update_watch id acknowledge (lookup id ws) ws

abbrev pub contains : List ℕ → ℕ → Bool
contains [] x = false
contains (y ∷ ys) x = y == x || contains ys x

-- What a heartbeat of `node` that lists `tasks` says of one watch.
abbrev heard : ℕ → List ℕ → ℕ → TaskWatch → TaskWatch
heard node tasks id w =
    if not (w.node == node)
    then w
    else if contains tasks id
    then record w { known = true }
    else if w.known
    then record w { lost = true }
    else w

unfoldable pub notify_heartbeat : ℕ → List ℕ → Waiters → Waiters
notify_heartbeat node tasks [] = []
notify_heartbeat node tasks ((id, w) ∷ ws) =
    (id, heard node tasks id w) ∷ notify_heartbeat node tasks ws

pub data Reason : Type 0 where
  result_never_arrived : Reason
  away_or_never_received : Reason

-- What `Wait` returns: the output of a task that succeeded, output and message of one that failed,
-- ErrNoResult, or the error of its context.
pub data WaitResult : Type 0 where
  succeeded : String → WaitResult
  failed : String → String → WaitResult
  no_result : Reason → WaitResult
  context_done : WaitResult

unfoldable pub outcome : TaskResultPayload → WaitResult
outcome res = if not res.success then failed res.output res.error_msg else succeeded res.output

-- The cases of the `select`.
pub data Ready : Type 0 where
  result_ready lost_ready ticked cancelled : Ready

pub record Task : Type 0 where
  pub id : ℕ
  pub node : ℕ
  pub deadline : ℕ

outcome_or : Option WaitResult → Option TaskResultPayload → Option WaitResult
unfolding outcome
outcome_or other none = other
outcome_or other (some res) = some (outcome res)

-- One round at the time `now`, the agent being connected or not; `none` is another round. A case
-- that is not ready cannot be taken, and is another round here too.
unfoldable pub wait_round : Ready → ℕ → Bool → Task → TaskWatch → Option WaitResult
unfolding outcome_or
wait_round result_ready now connected t w = outcome_or none w.result
wait_round lost_ready now connected t w =
    if w.lost then outcome_or (some (no_result result_never_arrived)) w.result else none
wait_round ticked now connected t w =
    if ltb t.deadline now && (not connected || not w.known)
    then some (no_result away_or_never_received)
    else none
wait_round cancelled now connected t w = some context_done
