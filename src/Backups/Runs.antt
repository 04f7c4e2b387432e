-- ===== src/Backups/Runs.antt =====
-- The runs of backups: the statements on them in internal/server/db/queries/backup.go, and
-- syncCompletedRuns of internal/server/scheduler/backupscheduler.go.
pub mod Outcome
pub mod Settled
use Prim.Native.String.{◌++◌}
use netbox_conductor.Base.{
  ℕ, ◌+◌, String, Bool, true, false, ◌&&◌, Option, none, some, List, [], ◌∷◌, ◌++◌ as append, map,
  ◌==◌, str_eq, if◌then◌else◌, Map, put,
}
use netbox_conductor.Failover.State.{DispatchError}
use netbox_conductor.TaskResults as TaskResults
use netbox_conductor.TaskResults.{
  TaskResult, TaskTable, ResponsePayload, of_result, of_error, get_by_task_id,
}
use netbox_conductor.Backups.{Tier}

-- Why a round could not start.
pub data StartError : Type 0 where
  no_locations : StartError
  no_primary : StartError
  busy : (running : String) → StartError
  not_dispatched : DispatchError → StartError

pub data RunStatus : Type 0 where
  pending running success failed abandoned : RunStatus

pub data RunError : Type 0 where
  reported : String → RunError
  not_started : StartError → RunError

pub record BackupRun : Type 0 where
  pub id : ℕ
  pub cluster_id : ℕ
  pub backup_type : Tier
  pub repo_index : Option ℕ
  pub task_id : Option ℕ
  pub attempt : ℕ
  pub scheduled_at : ℕ
  pub status : RunStatus
  pub error_message : Option RunError

unfoldable pub create :
    (id cluster : ℕ) → Tier → (repo scheduled_at attempt : ℕ) → List BackupRun → List BackupRun
create id cluster tier repo scheduled_at attempt runs = append runs (
    record {
      id = id;
      cluster_id = cluster;
      backup_type = tier;
      repo_index = some repo;
      task_id = none;
      attempt = attempt;
      scheduled_at = scheduled_at;
      status = pending;
      error_message = none;
    }
    ∷ [])

abbrev pub update_run : ℕ → (BackupRun → BackupRun) → List BackupRun → List BackupRun
update_run id f = map (λ r. if r.id == id then f r else r)

unfoldable pub set_dispatched : (id task : ℕ) → List BackupRun → List BackupRun
set_dispatched id task = update_run id (λ r. record r { task_id = some task; status = running })

unfoldable pub set_success : ℕ → List BackupRun → List BackupRun
set_success id = update_run id (λ r. record r { status = success })

unfoldable pub set_failed : ℕ → RunError → List BackupRun → List BackupRun
set_failed id err = update_run id (λ r. record r { status = failed; error_message = some err })

unfoldable pub set_abandoned : ℕ → RunError → List BackupRun → List BackupRun
set_abandoned id err =
    update_run id (λ r. record r { status = abandoned; error_message = some err })

-- One location's outcome in a round; no error is the empty text.
pub record BackupResult : Type 0 where
  pub repo : ℕ
  pub error : String

pub record CompletedBackupRun : Type 0 where
  pub run_id : ℕ
  pub repo_index : Option ℕ
  pub timed_out : Bool
  pub response_payload : Option ResponsePayload

abbrev completed_as : BackupRun → TaskResult → TaskResults.Status → List CompletedBackupRun
completed_as r t TaskResults.success =
    record {
      run_id = r.id;
      repo_index = r.repo_index;
      timed_out = false;
      response_payload = t.response_payload;
    }
    ∷ []
completed_as r t TaskResults.failure =
    record {
      run_id = r.id;
      repo_index = r.repo_index;
      timed_out = false;
      response_payload = t.response_payload;
    }
    ∷ []
completed_as r t TaskResults.timeout =
    record {
      run_id = r.id;
      repo_index = r.repo_index;
      timed_out = true;
      response_payload = t.response_payload;
    }
    ∷ []
completed_as r t _ = []

joined : BackupRun → Option TaskResult → List CompletedBackupRun
joined r none = []
joined r (some t) = completed_as r t t.status

abbrev task_of : TaskTable → Option ℕ → Option TaskResult
task_of tasks none = none
task_of tasks (some id) = get_by_task_id id tasks

unfoldable pub completed_run : TaskTable → BackupRun → List CompletedBackupRun
unfolding joined
completed_run tasks r = elim r.status [ running ↦ joined r (task_of tasks r.task_id) | _ ↦ [] ]

unfoldable pub list_running_with_completed_task :
    TaskTable → List BackupRun → List CompletedBackupRun
unfolding completed_run
list_running_with_completed_task tasks [] = []
list_running_with_completed_task tasks (r ∷ runs) =
    append (completed_run tasks r) (list_running_with_completed_task tasks runs)

-- The fields `output` and `error` of a response.
abbrev output_of : Option ResponsePayload → String
output_of none = ""
output_of (some (of_result res)) = res.output
output_of (some (of_error reason)) = ""

abbrev error_of : Option ResponsePayload → String
error_of none = ""
error_of (some (of_result res)) = res.error_msg
error_of (some (of_error reason)) = reason

abbrev or_text : String → String → String
or_text a b = if str_eq a "" then b else a

abbrev pub is_repo : Option ℕ → ℕ → Bool
is_repo none repo = false
is_repo (some r) repo = repo == r

-- The last outcome of the location, or else the given text.
location_error : String → Option ℕ → List BackupResult → String
location_error msg repo [] = msg
location_error msg repo (res ∷ rest) =
    location_error (if is_repo repo res.repo then res.error else msg) repo rest

-- `decode` is what `json.Unmarshal` makes of a task's output, no result where it fails.
unfoldable pub outcome_text : (String → List BackupResult) → CompletedBackupRun → String
unfolding location_error
outcome_text decode c =
    let msg = or_text (error_of c.response_payload) "no outcome for this location" in
    location_error (if c.timed_out then "task timed out: " ++ msg else msg) c.repo_index
      (decode (output_of c.response_payload))

unfoldable pub record_outcome :
    (String → List BackupResult) → CompletedBackupRun → List BackupRun → List BackupRun
unfolding outcome_text
record_outcome decode c runs =
    if str_eq (outcome_text decode c) ""
    then set_success c.run_id runs
    else set_failed c.run_id (reported (outcome_text decode c)) runs

record_outcomes :
    (String → List BackupResult) → List CompletedBackupRun → List BackupRun → List BackupRun
unfolding record_outcome
record_outcomes decode [] runs = runs
record_outcomes decode (c ∷ cs) runs = record_outcomes decode cs (record_outcome decode c runs)

unfoldable pub sync_completed_runs :
    (String → List BackupResult) → TaskTable → List BackupRun → List BackupRun
unfolding record_outcomes
sync_completed_runs decode tasks runs =
    record_outcomes decode (list_running_with_completed_task tasks runs) runs
