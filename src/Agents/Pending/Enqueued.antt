-- ===== src/Agents/Pending/Enqueued.antt =====
-- A task that the failover manager left for a node that was away, and the node's next connection.
use netbox_conductor.Base.{
  ℕ, zero, suc, ◌+◌, ◌-◌, ◌≤◌, Bool, true, false, ◌≡◌, refl, sym, ap, ◌∙◌, none, some, List, [],
  ◌∷◌, ◌++◌, length, In, inl, inr, if◌then◌else◌, arith,
}
use mathlib.Core.Path.{subst}
use netbox_conductor.Nodestate.{Node}
use netbox_conductor.Protocol.{TaskType, no_params, dispatch_params, Envelope}
use netbox_conductor.Hub.{send_capacity}
use netbox_conductor.Failover.State as Manager
use netbox_conductor.Failover.State.{Env, RequestPayload, whole}
use netbox_conductor.Failover.Tasks.{enqueue_for_reconnect}
use netbox_conductor.TaskResults.{
  TaskResult, TaskTable, queued, create, is_pending, list_pending_by_node,
}
use netbox_conductor.TaskResults.Listing.{In-list_pending_by_node}
use netbox_conductor.Agents.State.{apply_effects}
use netbox_conductor.Agents.Pending.{Answers, Delivery, dispatch_pending}
use netbox_conductor.Agents.Pending.Sent.{
  message_as, messages, take, filled, buffer, dispatch_pending-messages,
}

In-append_right : (x : Envelope) (xs ys : List Envelope) → In x ys → In x (xs ++ ys)
In-append_right x [] ys i = i
In-append_right x (y ∷ xs) ys i = inr (In-append_right x xs ys i)

In-append_left : (x : Envelope) (xs ys : List Envelope) → In x xs → In x (xs ++ ys)
In-append_left x [] ys i = absurd i
In-append_left x (y ∷ xs) ys (inl e) = inl e
In-append_left x (y ∷ xs) ys (inr i) = inr (In-append_left x xs ys i)

take-all : (n : ℕ) (xs : List Envelope) → length xs ≤ n → take n xs ≡ xs
take-all n [] h = refl
take-all zero (x ∷ xs) h = absurd (omega arith)
take-all (suc n) (x ∷ xs) h = ap (λ l. x ∷ l) (take-all n xs (omega arith))

In-messages :
    (t : TaskResult) (ts : List TaskResult) (env : Envelope)
    → In t ts
    → In env (message_as t t.request_payload t.task_type)
    → In env (messages ts)
In-messages t [] env i j = absurd i
In-messages t (u ∷ ts) env (inl e) j =
    In-append_left env _ (messages ts)
      (subst (λ v. In env (message_as v v.request_payload v.task_type)) (sym e) j)
In-messages t (u ∷ ts) env (inr i) j =
    In-append_right env (message_as u u.request_payload u.task_type) (messages ts)
      (In-messages t ts env i j)

-- The row that the manager leaves.
abbrev pub left_row : Env → Node → TaskType → ℕ → TaskResult
left_row e n type id = record {
  node_id = n.id;
  task_id = id;
  task_type = some type;
  status = queued;
  request_payload =
      some
        (whole (record { task_id = id; task_type = type; params = no_params; timeout_secs = 30 }));
  response_payload = none;
  ack_timeout_secs = none;
  queued_at = e.now;
  completed_at = none;
}

In-last : (t : TaskResult) (rows : TaskTable) → In t (rows ++ t ∷ [])
In-last t [] = inl refl
In-last t (r ∷ rows) = inr (In-last t rows)

left_there :
    (e : Env) (n : Node) (type : TaskType) (w : Manager.World) (rows : TaskTable)
    → e.create_ok n.id type ≡ true
    → w.log ≡ []
    → apply_effects e.now (enqueue_for_reconnect e n type w).log rows
      ≡ rows ++ left_row e n type w.next_uuid ∷ []
unfolding apply_effects enqueue_for_reconnect create
left_there e n type w rows ok quiet = rw (ok, quiet) refl

left_pending :
    (e : Env) (n : Node) (type : TaskType) (id : ℕ) → is_pending n.id (left_row e n type id) ≡ true
unfolding is_pending
left_pending e n type id = ground arith

-- The message for a task that was left: its parameters are the whole message that the manager stored.
abbrev pub left_message : TaskType → ℕ → Envelope
left_message type id = record {
  id = id;
  payload = record {
    task_id = id;
    task_type = type;
    params = dispatch_params id type no_params 30;
    timeout_secs = 60;
  };
}

-- The row of a task that the failover manager leaves for a node is in the table, if it can be recorded. When
-- the node's agent connects while the row is still as it was left, so that no sweep has timed it out, the
-- agent is sent the task, provided that the rows are read and the channel has room for all that the
-- node waits for. Its parameters are not `{}` but the whole dispatch message.
pub dispatch_pending-enqueue_for_reconnect :
    (e : Env) (n : Node) (type : TaskType) (w : Manager.World) (rows : TaskTable) (a : Answers)
    (now r : ℕ) (d : Delivery)
    → e.create_ok n.id type ≡ true
    → w.log ≡ []
    → In (left_row e n type w.next_uuid) d.tasks
    → a.list_ok ≡ true
    → (d.hub.heap r).closed ≡ false
    → length (buffer r d.hub) + length (messages (list_pending_by_node n.id d.tasks))
      ≤ send_capacity
    → In
        (left_row e n type w.next_uuid)
        (apply_effects e.now (enqueue_for_reconnect e n type w).log rows)
      × In (left_message type w.next_uuid) (buffer r (dispatch_pending a now r n.id d).hub)
dispatch_pending-enqueue_for_reconnect e n type w rows a now r d ok quiet there listed open_ room =
    let row = left_row e n type w.next_uuid in
    let listing =
      In-list_pending_by_node n.id row d.tasks (left_pending e n type w.next_uuid) there in
    let sent =
      In-messages row (list_pending_by_node n.id d.tasks) (left_message type w.next_uuid) listing
        (inl refl) in
    let whole_list =
      take-all (send_capacity - length (buffer r d.hub))
        (messages (list_pending_by_node n.id d.tasks)) (omega arith) in
    (
      subst (In row) (sym (left_there e n type w rows ok quiet)) (In-last row rows),
      subst (In (left_message type w.next_uuid))
          (sym (
            dispatch_pending-messages a now r n.id d open_
            ∙ filled_lem a.list_ok listed whole_list))
          (In-append_right (left_message type w.next_uuid) (buffer r d.hub)
            (messages (list_pending_by_node n.id d.tasks)) sent),
    )
  where
    filled_lem :
        (b : Bool)
        → b ≡ true
        → take
            (send_capacity - length (buffer r d.hub))
            (messages (list_pending_by_node n.id d.tasks))
          ≡ messages (list_pending_by_node n.id d.tasks)
        → filled (buffer r d.hub) (if b then messages (list_pending_by_node n.id d.tasks) else [])
          ≡ buffer r d.hub ++ messages (list_pending_by_node n.id d.tasks)
    filled_lem b h t = rw h (ap (λ l. buffer r d.hub ++ l) t)
