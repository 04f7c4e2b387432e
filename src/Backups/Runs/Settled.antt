-- ===== src/Backups/Runs/Settled.antt =====
-- What the recording of outcomes makes of the table of runs.
use netbox_conductor.Base.{
  String, true, false, ◌≡◌, refl, sym, ap, ◌∙◌, Option, none, some, ◌⊎◌, inl, inr, List, [], ◌∷◌,
  ◌++◌ as append, map, ◌==◌, str_eq, if◌then◌else◌, All, arith,
}
use netbox_conductor.TaskResults as TaskResults
use netbox_conductor.TaskResults.{TaskResult, TaskTable}
use netbox_conductor.Backups.Runs.{
  BackupRun, RunStatus, pending, running, success, failed, abandoned, reported, BackupResult,
  CompletedBackupRun, joined, completed_as, task_of, completed_run,
  list_running_with_completed_task, outcome_text, set_success, set_failed, record_outcome,
  record_outcomes, sync_completed_runs,
}

-- No two runs have one id.
abbrev pub Distinct : List BackupRun → Type 0
Distinct [] = Unit
Distinct (r ∷ rs) = All (λ q. (q.id == r.id) ≡ false) rs × Distinct rs

module _ (decode : String → List BackupResult) where
  -- The run as its task's outcome leaves it.
  abbrev pub verdict : CompletedBackupRun → BackupRun → BackupRun
  verdict c r =
      if str_eq (outcome_text decode c) ""
      then record r { status = success }
      else record r { status = failed; error_message = some (reported (outcome_text decode c)) }

  abbrev pub by_task : List CompletedBackupRun → BackupRun → BackupRun
  by_task [] r = r
  by_task (c ∷ cs) r = verdict c r

  abbrev step : CompletedBackupRun → BackupRun → BackupRun
  step c r = if r.id == c.run_id then verdict c r else r

  abbrev steps : List CompletedBackupRun → BackupRun → BackupRun
  steps [] r = r
  steps (c ∷ cs) r = steps cs (step c r)

  id-step : (c : CompletedBackupRun) (r : BackupRun) → (step c r).id ≡ r.id
  id-step c r = ground arith

  id-steps : (cs : List CompletedBackupRun) (r : BackupRun) → (steps cs r).id ≡ r.id
  id-steps [] r = refl
  id-steps (c ∷ cs) r = id-steps cs (step c r) ∙ id-step c r

  record_outcome-cons :
      (c : CompletedBackupRun) (r : BackupRun) (rs : List BackupRun)
      → record_outcome decode c (r ∷ rs) ≡ step c r ∷ record_outcome decode c rs
  unfolding record_outcome set_success set_failed
  record_outcome-cons c r rs = ground arith

  record_outcomes-cons :
      (cs : List CompletedBackupRun) (r : BackupRun) (rs : List BackupRun)
      → record_outcomes decode cs (r ∷ rs) ≡ steps cs r ∷ record_outcomes decode cs rs
  unfolding record_outcomes
  record_outcomes-cons [] r rs = refl
  record_outcomes-cons (c ∷ cs) r rs =
      rw (record_outcome-cons c r rs)
        (record_outcomes-cons cs (step c r) (record_outcome decode c rs))

  record_outcome-nil : (c : CompletedBackupRun) → record_outcome decode c [] ≡ []
  unfolding record_outcome set_success set_failed
  record_outcome-nil c = ground arith

  record_outcomes-nil : (cs : List CompletedBackupRun) → record_outcomes decode cs [] ≡ []
  unfolding record_outcomes
  record_outcomes-nil [] = refl
  record_outcomes-nil (c ∷ cs) = rw (record_outcome-nil c) (record_outcomes-nil cs)

  record_outcomes-append :
      (cs ds : List CompletedBackupRun) (rs : List BackupRun)
      → record_outcomes decode (append cs ds) rs
        ≡ record_outcomes decode ds (record_outcomes decode cs rs)
  unfolding record_outcomes
  record_outcomes-append [] ds rs = refl
  record_outcomes-append (c ∷ cs) ds rs = record_outcomes-append cs ds (record_outcome decode c rs)

  steps-append :
      (cs ds : List CompletedBackupRun) (r : BackupRun)
      → steps (append cs ds) r ≡ steps ds (steps cs r)
  steps-append [] ds r = refl
  steps-append (c ∷ cs) ds r = steps-append cs ds (step c r)

-- A run's entry in the list names the run.
completed_as-shape :
    (r : BackupRun) (t : TaskResult) (s : TaskResults.Status)
    → (completed_as r t s ≡ [])
      ⊎ ((c : CompletedBackupRun) × (completed_as r t s ≡ c ∷ []) × (c.run_id ≡ r.id))
completed_as-shape r t TaskResults.queued = inl refl
completed_as-shape r t TaskResults.sent = inl refl
completed_as-shape r t TaskResults.ack = inl refl
completed_as-shape r t TaskResults.success = inr (_, refl, refl)
completed_as-shape r t TaskResults.failure = inr (_, refl, refl)
completed_as-shape r t TaskResults.timeout = inr (_, refl, refl)

joined-shape :
    (r : BackupRun) (o : Option TaskResult)
    → (joined r o ≡ []) ⊎ ((c : CompletedBackupRun) × (joined r o ≡ c ∷ []) × (c.run_id ≡ r.id))
unfolding joined
joined-shape r none = inl refl
joined-shape r (some t) = completed_as-shape r t t.status

completed_run-shape :
    (tasks : TaskTable) (r : BackupRun)
    → (completed_run tasks r ≡ [])
      ⊎ ((c : CompletedBackupRun) × (completed_run tasks r ≡ c ∷ []) × (c.run_id ≡ r.id))
unfolding completed_run
completed_run-shape tasks r = by_status r.status
  where
    by_status :
        (s : RunStatus)
        → let l = elim s as (λ x. List CompletedBackupRun) [
          | running ↦ joined r (task_of tasks r.task_id)
          | _ ↦ []
        ] in
          (l ≡ []) ⊎ ((c : CompletedBackupRun) × (l ≡ c ∷ []) × (c.run_id ≡ r.id))
    by_status running = joined-shape r (task_of tasks r.task_id)
    by_status pending = inl refl
    by_status success = inl refl
    by_status failed = inl refl
    by_status abandoned = inl refl

-- The run after the recording, if no other run has its id.
abbrev pub settled : (String → List BackupResult) → TaskTable → BackupRun → BackupRun
settled decode tasks r = by_task decode (completed_run tasks r) r

module _ (decode : String → List BackupResult) (tasks : TaskTable) where
  abbrev completed : List BackupRun → List CompletedBackupRun
  completed = list_running_with_completed_task tasks

  steps-other :
      (r x : BackupRun) → (x.id == r.id) ≡ false → steps decode (completed_run tasks r) x ≡ x
  steps-other r x n = elim (completed_run-shape tasks r) [
    | inl e ↦ rw e refl
    | inr (c, e, same) ↦ rw e (apart c same)
  ]
    where
      apart : (c : CompletedBackupRun) → c.run_id ≡ r.id → step decode c x ≡ x
      apart c same = rw (same, n) refl

  steps_self : (r : BackupRun) → steps decode (completed_run tasks r) r ≡ settled decode tasks r
  steps_self r = elim (completed_run-shape tasks r) [
    | inl e ↦ rw e refl
    | inr (c, e, same) ↦ rw e (own c same)
  ]
    where
      own : (c : CompletedBackupRun) → c.run_id ≡ r.id → step decode c r ≡ verdict decode c r
      own c same = let t : (r.id == r.id) ≡ true = ground arith in rw (same, t) refl

  steps-others :
      (rs : List BackupRun) (x : BackupRun)
      → All (λ q. (q.id == x.id) ≡ false) rs
      → steps decode (completed rs) x ≡ x
  unfolding list_running_with_completed_task
  steps-others [] x a = refl
  steps-others (r ∷ rs) x a =
      steps-append decode (completed_run tasks r) (completed rs) x
      ∙ ap (steps decode (completed rs)) (steps-other r x (ground arith))
      ∙ steps-others rs x a.1

  record_outcomes-other :
      (r : BackupRun) (rs : List BackupRun)
      → All (λ q. (q.id == r.id) ≡ false) rs
      → record_outcomes decode (completed_run tasks r) rs ≡ rs
  record_outcomes-other r [] a = record_outcomes-nil decode (completed_run tasks r)
  record_outcomes-other r (x ∷ rs) a =
      record_outcomes-cons decode (completed_run tasks r) x rs
      ∙ rw (steps-other r x a.0) (ap (λ l. x ∷ l) (record_outcomes-other r rs a.1))

  same_id : (r : BackupRun) → (settled decode tasks r).id ≡ r.id
  same_id r = sym (ap (λ q. q.id) (steps_self r)) ∙ id-steps decode (completed_run tasks r) r

  record_outcomes-settled :
      (runs : List BackupRun)
      → Distinct runs
      → record_outcomes decode (completed runs) runs ≡ map (settled decode tasks) runs
  unfolding list_running_with_completed_task
  record_outcomes-settled [] d = unfold record_outcomes in refl
  record_outcomes-settled (r ∷ rs) d =
      record_outcomes-cons decode (append (completed_run tasks r) (completed rs)) r rs
      ∙ rw
          (
            steps-append decode (completed_run tasks r) (completed rs) r,
            steps_self r,
            steps-others rs (settled decode tasks r) (rw (same_id r) d.0),
            record_outcomes-append decode (completed_run tasks r) (completed rs) rs,
            record_outcomes-other r rs d.0,
          )
          (ap (λ l. settled decode tasks r ∷ l) (record_outcomes-settled rs d.1))

-- Recording the outcomes settles each run by the task that it waits for, and by that alone: a running
-- run whose task is final becomes a success, or a failure with its message, and every other run stays
-- as it is, in its place.
pub sync_completed_runs-settled :
    (decode : String → List BackupResult) (tasks : TaskTable) (runs : List BackupRun)
    → Distinct runs
    → sync_completed_runs decode tasks runs ≡ map (settled decode tasks) runs
unfolding sync_completed_runs
sync_completed_runs-settled decode tasks runs d = record_outcomes-settled decode tasks runs d
