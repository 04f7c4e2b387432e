-- ===== src/TaskResults/Lifecycle.antt =====
-- What the statements on task_results do to the life of a task.
use mathlib.Core.Path.{subst}
use netbox_conductor.Base.{
  ℕ, ◌+◌, ◌<◌, String, Bool, true, false, ◌&&◌, ◌||◌, ◌≡◌, refl, ◌∙◌, sym, some, List, [], ◌∷◌,
  ◌++◌, ◌==◌, if◌then◌else◌, keep, All, arith,
}
use netbox_conductor.Protocol.{TaskType, TaskResultPayload}
use netbox_conductor.Failover.State.{RequestPayload}
use netbox_conductor.TaskResults.{
  Status, queued, sent, ack, success, failure, timeout, of_result, TaskResult, TaskTable, create,
  create_with_ack_timeout, update_where, has_task, set_sent, set_ack, complete, mark_orphaned,
  with_status, completed, orphaned, timed_out, is_status, Timeouts, is_stale, timeout_stale,
  coalesce, is_pending,
}

pub data Statement : Type 0 where
  creates : (now node task : ℕ) → TaskType → RequestPayload → Statement
  creates_with_ack_timeout :
      (now node task : ℕ) → TaskType → RequestPayload → (secs : ℕ) → Statement
  marks_sent acks : (task : ℕ) → Statement
  completes : (now task : ℕ) → TaskResultPayload → Statement
  orphans : (now task : ℕ) → (reason : String) → Statement
  sweeps : (now : ℕ) → Timeouts → Statement

pub exec : Statement → TaskTable → TaskTable
exec (creates now node task type p) rows = create now node task type p rows
exec (creates_with_ack_timeout now node task type p secs) rows =
    create_with_ack_timeout now node task type p secs rows
exec (marks_sent task) rows = set_sent task rows
exec (acks task) rows = set_ack task rows
exec (completes now task res) rows = complete now task res rows
exec (orphans now task reason) rows = mark_orphaned now task reason rows
exec (sweeps now t) rows = (timeout_stale now t rows).0

pub run : List Statement → TaskTable → TaskTable
run [] rows = rows
run (s ∷ ss) rows = run ss (exec s rows)

-- The dispatcher or the agent speaks of the task, or it is recorded.
abbrev pub speaks_of : ℕ → Statement → Bool
speaks_of task (creates now node t type p) = t == task
speaks_of task (creates_with_ack_timeout now node t type p secs) = t == task
speaks_of task (marks_sent t) = t == task
speaks_of task (acks t) = t == task
speaks_of task (completes now t res) = t == task
speaks_of task (orphans now t reason) = false
speaks_of task (sweeps now t) = false

-- The status is a final one.
abbrev pub is_final : Status → Bool
is_final success = true
is_final failure = true
is_final timeout = true
is_final _ = false

-- The rows of the task are final.
abbrev pub IsSettled : ℕ → TaskTable → Type 0
IsSettled task rows = All (λ r. is_final r.status ≡ true) (keep (has_task task) rows)

-- An update that changes no task id and no row of the task leaves those rows.
keep-update_where :
    (task : ℕ) (p : TaskResult → Bool) (f : TaskResult → TaskResult) (rows : TaskTable)
    → ((r : TaskResult) → (f r).task_id ≡ r.task_id)
    → All (λ r. p r ≡ false) (keep (has_task task) rows)
    → keep (has_task task) (update_where p f rows) ≡ keep (has_task task) rows
keep-update_where task p f [] same a = refl
keep-update_where task p f (r ∷ rows) same a =
    ground (arith, same r, keep-update_where task p f rows same)

All_other :
    (task u : ℕ) (rows : TaskTable)
    → (u == task) ≡ false
    → All (λ r. has_task u r ≡ false) (keep (has_task task) rows)
All_other task u [] h = tt
All_other task u (r ∷ rows) h = ground (arith, All_other task u rows h)

-- A final row is neither open nor stale.
final_closed :
    (r : TaskResult)
    → is_final r.status ≡ true
    → (is_status sent r.status || is_status ack r.status) ≡ false
final_closed r h = closed r.status h
  where
    closed : (s : Status) → is_final s ≡ true → (is_status sent s || is_status ack s) ≡ false
    closed success h = refl
    closed failure h = refl
    closed timeout h = refl
    closed queued h = absurd (ground arith)
    closed sent h = absurd (ground arith)
    closed ack h = absurd (ground arith)

final_fresh :
    (now : ℕ) (t : Timeouts) (r : TaskResult) → is_final r.status ≡ true → is_stale now t r ≡ false
unfolding is_stale
final_fresh now t r h = fresh r.status _ _ _ h
  where
    fresh :
        (s : Status) (a b c : Bool)
        → is_final s ≡ true
        → (is_status sent s && a || (is_status ack s && b || is_status queued s && c)) ≡ false
    fresh success a b c h = refl
    fresh failure a b c h = refl
    fresh timeout a b c h = refl
    fresh queued a b c h = absurd (ground arith)
    fresh sent a b c h = absurd (ground arith)
    fresh ack a b c h = absurd (ground arith)

All_weaken :
    (P Q : TaskResult → Type 0) (rows : List TaskResult)
    → ((r : TaskResult) → P r → Q r)
    → All P rows
    → All Q rows
All_weaken P Q [] f a = tt
All_weaken P Q (r ∷ rows) f a = (f r a.0, All_weaken P Q rows f a.1)

keep-append :
    (task : ℕ) (rows : TaskTable) (r : TaskResult)
    → has_task task r ≡ false
    → keep (has_task task) (rows ++ r ∷ []) ≡ keep (has_task task) rows
keep-append task [] r h = ground arith
keep-append task (s ∷ rows) r h = ground (arith, keep-append task rows r h)

keep-exec :
    (task : ℕ) (s : Statement) (rows : TaskTable)
    → speaks_of task s ≡ false
    → IsSettled task rows
    → keep (has_task task) (exec s rows) ≡ keep (has_task task) rows
unfolding exec create create_with_ack_timeout set_sent set_ack complete mark_orphaned timeout_stale
keep-exec task (creates now node t type p) rows h a = keep-append task rows _ h
keep-exec task (creates_with_ack_timeout now node t type p secs) rows h a =
    keep-append task rows _ h
keep-exec task (marks_sent t) rows h a =
    keep-update_where task (has_task t) (with_status sent) rows (λ r. refl)
      (All_other task t rows h)
keep-exec task (acks t) rows h a =
    keep-update_where task (has_task t) (with_status ack) rows (λ r. refl) (All_other task t rows h)
keep-exec task (completes now t res) rows h a =
    keep-update_where task (has_task t) (completed now res) rows (λ r. refl)
      (All_other task t rows h)
keep-exec task (orphans now t reason) rows h a =
    keep-update_where task _ (orphaned now reason) rows (λ r. refl)
      (All_weaken (λ r. is_final r.status ≡ true) _ _
        (λ r f. let c = final_closed r f in ground arith) a)
keep-exec task (sweeps now t) rows h a =
    keep-update_where task (is_stale now t) (timed_out now) rows (λ r. refl)
      (All_weaken (λ r. is_final r.status ≡ true) _ _ (final_fresh now t) a)

-- While neither the dispatcher nor the agent speaks of a task whose row is final, no sweep, no waiter
-- that gives up and no other task changes that row.
pub run-settled :
    (task : ℕ) (ss : List Statement) (rows : TaskTable)
    → All (λ s. speaks_of task s ≡ false) ss
    → IsSettled task rows
    → keep (has_task task) (run ss rows) ≡ keep (has_task task) rows
unfolding run
run-settled task [] rows h a = refl
run-settled task (s ∷ ss) rows h a =
    let e = keep-exec task s rows h.0 a in
    run-settled task ss (exec s rows) h.1
      (subst (λ kept. All (λ r. is_final r.status ≡ true) kept) (sym e) a)
    ∙ e

-- Every row that was queued longer ago than all the limits is final after a sweep.
pub timeout_stale-final :
    (now : ℕ) (t : Timeouts) (rows : TaskTable)
    → All
        (λ r.
          (r.queued_at + t.sent_timeout < now)
          × (r.queued_at + t.queued_timeout < now)
          × (r.queued_at + coalesce r.ack_timeout_secs t.ack_timeout < now))
        rows
    → All (λ r. is_final r.status ≡ true) (timeout_stale now t rows).0
unfolding timeout_stale is_stale
timeout_stale-final now t [] h = tt
timeout_stale-final now t (r ∷ rows) h =
    (swept r.status refl h.0, timeout_stale-final now t rows h.1)
  where
    swept :
        (s : Status)
        → r.status ≡ s
        → (r.queued_at + t.sent_timeout < now)
          × (r.queued_at + t.queued_timeout < now)
          × (r.queued_at + coalesce r.ack_timeout_secs t.ack_timeout < now)
        → is_final (if is_stale now t r then timed_out now r else r).status ≡ true
    swept success e h = ground arith
    swept failure e h = ground arith
    swept timeout e h = ground arith
    swept queued e h = ground arith
    swept sent e h = ground arith
    swept ack e h = ground arith

-- A dispatcher that marks a task as sent after its result came in opens the row again: it has the
-- result, and the status of a task in flight, which the agent's next connection sends again.
pub set_sent-complete :
    (now node task : ℕ) (res : TaskResultPayload) (rows : TaskTable)
    → All (λ r. r.node_id ≡ node) (keep (has_task task) rows)
    → All
        (λ r.
          (r.response_payload ≡ some (of_result res))
          × (r.completed_at ≡ some now)
          × (is_pending node r ≡ true))
        (keep (has_task task) (set_sent task (complete now task res rows)))
unfolding set_sent complete is_pending
set_sent-complete now node task res [] h = tt
set_sent-complete now node task res (r ∷ rows) h =
    ground (arith, set_sent-complete now node task res rows)
