-- ===== src/Agents/Pending/Rows.antt =====
-- What becomes of the pending rows.
use mathlib.Core.Path.{subst}
use netbox_conductor.Base.{
  ℕ, Bool, true, false, ◌&&◌, not, ◌≡◌, refl, sym, Option, none, some, List, [], ◌∷◌, if◌then◌else◌,
  arith, inl, inr, All, In,
}
use netbox_conductor.Protocol.{TaskType, safe_to_retry_on_reconnect}
use netbox_conductor.Failover.State.{RequestPayload}
use netbox_conductor.TaskResults.{
  TaskResult, TaskTable, queued, sent, is_status, set_sent, mark_orphaned, is_pending, update_where,
  has_task, with_status, orphaned, list_pending_by_node,
}
use netbox_conductor.TaskResults.Listing.{In-list_pending_by_node}
use netbox_conductor.Agents.Pending.{
  Answers, Delivery, envelope, resend, resend_as, resend_all, dispatch_pending, deliver, advance,
  orphan, orphan_reason,
}

-- No row of the task waits to be sent.
abbrev pub NotQueued : ℕ → TaskTable → Type 0
NotQueued task rows = All (λ r. has_task task r ≡ true → is_status queued r.status ≡ false) rows

-- An update that makes no row queued and keeps task ids.
NotQueued-update_where :
    (task : ℕ) (p : TaskResult → Bool) (f : TaskResult → TaskResult) (rows : TaskTable)
    → ((r : TaskResult) → (f r).task_id ≡ r.task_id)
    → ((r : TaskResult) → is_status queued (f r).status ≡ false)
    → NotQueued task rows
    → NotQueued task (update_where p f rows)
NotQueued-update_where task p f [] same out n = tt
NotQueued-update_where task p f (r ∷ rows) same out n =
    (row (p r), NotQueued-update_where task p f rows same out n.1)
  where
    row :
        (b : Bool)
        → has_task task (if b then f r else r) ≡ true
        → is_status queued (if b then f r else r).status ≡ false
    row true h = out r
    row false h = n.0 h

NotQueued-set_sent : (task : ℕ) (rows : TaskTable) → NotQueued task (set_sent task rows)
unfolding set_sent
NotQueued-set_sent task [] = tt
NotQueued-set_sent task (r ∷ rows) = ground (arith, NotQueued-set_sent task rows)

NotQueued-resend_as :
    (a : Answers) (now r task : ℕ) (t : TaskResult) (p : Option RequestPayload)
    (type : Option TaskType) (d : Delivery)
    → NotQueued task d.tasks
    → NotQueued task (resend_as a now r t p type d).tasks
unfolding resend_as set_sent mark_orphaned
NotQueued-resend_as a now r task t none type d n = n
NotQueued-resend_as a now r task t (some p) none d n = n
NotQueued-resend_as a now r task t (some p) (some type) d n =
    step (is_status sent t.status && not (safe_to_retry_on_reconnect type))
  where
    marked :
        (b : Bool)
        → NotQueued task
            (if b
              then record d { tasks = mark_orphaned now t.task_id orphan_reason d.tasks }
              else d).tasks
    marked true =
        NotQueued-update_where task _ (orphaned now orphan_reason) d.tasks (λ q. refl) (λ q. refl) n
    marked false = n

    moved :
        (e : Delivery)
        → (e.tasks ≡ d.tasks)
        → (b : Bool)
        → NotQueued task (if b then record e { tasks = set_sent t.task_id e.tasks } else e).tasks
    moved e same true = rw same (
        NotQueued-update_where task (has_task t.task_id) (with_status sent) d.tasks (λ q. refl)
          (λ q. refl) n)
    moved e same false = rw same n

    step :
        (b : Bool)
        → NotQueued task
            (if b
              then orphan a now t d
              else advance a t (deliver r (envelope t.task_id type p) d)).tasks
    step true = marked a.mark_orphaned_ok
    step false =
        moved (deliver r (envelope t.task_id type p) d) refl
          (is_status queued t.status && a.set_sent_ok)

NotQueued-resend_all :
    (a : Answers) (now r task : ℕ) (ts : List TaskResult) (d : Delivery)
    → NotQueued task d.tasks
    → NotQueued task (resend_all a now r ts d).tasks
unfolding resend_all resend
NotQueued-resend_all a now r task [] d n = n
NotQueued-resend_all a now r task (t ∷ ts) d n =
    NotQueued-resend_all a now r task ts (resend a now r t d)
      (NotQueued-resend_as a now r task t t.request_payload t.task_type d n)

-- A queued row that the loop can send.
pub record IsWaiting (t : TaskResult) : Type 0 where
  pub waits : t.status ≡ queued
  pub typed : (type : TaskType) × (t.task_type ≡ some type)
  pub with_params : (p : RequestPayload) × (t.request_payload ≡ some p)

resend-advances :
    (a : Answers) (now r : ℕ) (t : TaskResult) (d : Delivery)
    → a.set_sent_ok ≡ true
    → IsWaiting t
    → NotQueued t.task_id (resend a now r t d).tasks
unfolding resend resend_as
resend-advances a now r t d ok w =
    rw (w.typed.1, w.with_params.1, w.waits, ok) (NotQueued-set_sent t.task_id d.tasks)

resend_all-advances :
    (a : Answers) (now r : ℕ) (t : TaskResult) (ts : List TaskResult) (d : Delivery)
    → a.set_sent_ok ≡ true
    → IsWaiting t
    → In t ts
    → NotQueued t.task_id (resend_all a now r ts d).tasks
unfolding resend_all
resend_all-advances a now r t [] d ok w i = absurd i
resend_all-advances a now r t (u ∷ ts) d ok w (inl e) =
    subst (λ v. NotQueued v.task_id (resend_all a now r ts (resend a now r u d)).tasks) e
      (NotQueued-resend_all a now r u.task_id ts (resend a now r u d)
        (resend-advances a now r u d ok (subst IsWaiting (sym e) w)))
resend_all-advances a now r t (u ∷ ts) d ok w (inr i) =
    resend_all-advances a now r t ts (resend a now r u d) ok w i

-- Once an agent has connected, none of the tasks that waited for it waits any longer, provided that
-- the statements succeed.
pub dispatch_pending-NotQueued :
    (a : Answers) (now r node : ℕ) (t : TaskResult) (d : Delivery)
    → a.list_ok ≡ true
    → a.set_sent_ok ≡ true
    → In t d.tasks
    → t.node_id ≡ node
    → IsWaiting t
    → NotQueued t.task_id (dispatch_pending a now r node d).tasks
unfolding dispatch_pending is_pending
dispatch_pending-NotQueued a now r node t d listed ok i n w = rw opened (
    resend_all-advances a now r t (list_pending_by_node node d.tasks) d ok w
      (In-list_pending_by_node node t d.tasks (ground arith) i))
  where
    opened :
        dispatch_pending a now r node d ≡ resend_all a now r (list_pending_by_node node d.tasks) d
    opened = simp listed
