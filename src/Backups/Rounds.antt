-- ===== src/Backups/Rounds.antt =====
-- The rounds of internal/server/scheduler/backupscheduler.go: fireBackup, the end of a round, and the
-- refresh of the catalog after it.
pub mod Tries
pub mod Locked
use netbox_conductor.Base.{
  ℕ, ◌+◌, String, not, Option, none, some, List, [], ◌∷◌, ◌⊎◌, inl, inr, ◌==◌, str_eq,
  if◌then◌else◌,
}
use netbox_conductor.Nodestate.{Node}
use netbox_conductor.Protocol.{pgbackrest_catalog, catalog_params}
use netbox_conductor.Failover.State as Manager
use netbox_conductor.Failover.State.{Env}
use netbox_conductor.Failover.Tasks.{dispatch_task}
use netbox_conductor.OpLock.{unlock}
use netbox_conductor.Dispatcher.{end_wait}
use netbox_conductor.Backups.{Tier, BackupSchedule}
use netbox_conductor.Backups.Runs.{StartError, BackupResult}
use netbox_conductor.Backups.Starts.{
  backup_start_tries, Answers, Note, postponed, skipped, World, Round, start_round, skip_round,
  may_start_later, find_primary_node,
}

-- How fireBackup ends.
pub data Fired : Type 0 where
  started : (try : ℕ) → Round → Fired
  given_up : StartError → Fired
  skipped_after : (tries : ℕ) → StartError → Fired
  stopped : Fired

-- After a try that failed; `rest` are the tries to come.
after_failure :
    Answers
    → (cluster : ℕ) → Tier
    → (scheduled_at try : ℕ) → StartError
    → (World → Fired × World)
    → World
    → Fired × World
after_failure a cluster tier scheduled_at try err rest w =
    let later = rest (record w { notes = postponed cluster tier try err ∷ w.notes }) in
    if not (may_start_later err)
    then (given_up err, w)
    else if try == backup_start_tries
    then (skipped_after try err, skip_round a cluster tier scheduled_at err w)
    else later

after_try :
    Answers
    → (cluster : ℕ) → Tier
    → (scheduled_at try : ℕ) → (World → Fired × World)
    → (StartError ⊎ Round) × World
    → Fired × World
unfolding after_failure
after_try a cluster tier scheduled_at try rest (inl err, w) =
    after_failure a cluster tier scheduled_at try err rest w
after_try a cluster tier scheduled_at try rest (inr round, w) = (started try round, w)

-- The loop of fireBackup, over what each try is answered; where the list ends, the server stops.
unfoldable pub fire_from :
    (cluster : ℕ)
    → (stanza : String) → Tier
    → (scheduled_at try : ℕ) → List Answers
    → World
    → Fired × World
unfolding after_try
fire_from cluster stanza tier scheduled_at try [] w = (stopped, w)
fire_from cluster stanza tier scheduled_at try (a ∷ as_) w =
    after_try a cluster tier scheduled_at try
      (fire_from cluster stanza tier scheduled_at (try + 1) as_)
      (start_round a cluster stanza tier scheduled_at try w)

unfoldable pub fire_backup :
    (cluster : ℕ)
    → (stanza : String) → Tier
    → (scheduled_at : ℕ) → List Answers
    → World
    → Fired × World
unfolding fire_from
fire_backup cluster stanza tier scheduled_at answers w =
    fire_from cluster stanza tier scheduled_at 1 answers w

-- The locations whose result has no error.
unfoldable pub backed_up : List BackupResult → List ℕ
backed_up [] = []
backed_up (res ∷ rest) =
    let done = backed_up rest in if str_eq res.error "" then res.repo ∷ done else done

-- The end of a round's task: the watch and the lock are given up, and what was backed up is returned.
-- A task without a result has no results.
unfoldable pub end_round : Round → List BackupResult → World → List ℕ × World
unfolding backed_up
end_round round results w = (
  backed_up results,
  record w {
    dispatcher = record w.dispatcher { waiters = end_wait round.task w.dispatcher.waiters };
    locks = unlock round.lock w.locks;
  },
)

refresh_on : Env → String → Option Node → Manager.World → Manager.World
refresh_on e stanza none m = m
refresh_on e stanza (some primary) m =
    (dispatch_task e primary.id pgbackrest_catalog (catalog_params stanza) 60 0 m).1

refresh_of : Env → (cluster : ℕ) → Option String → Manager.World → Manager.World
unfolding refresh_on
refresh_of e cluster none m = m
refresh_of e cluster (some stanza) m = refresh_on e stanza (find_primary_node e cluster) m

-- The refresh of the catalog in afterBackups, over the cluster's schedule and the locations that were
-- backed up. The syncs that follow it are Backups.Sync.after_backups.
unfoldable pub refresh_catalog :
    Env → (cluster : ℕ) → Option BackupSchedule → List ℕ → Manager.World → Manager.World
unfolding refresh_of
refresh_catalog e cluster sched [] m = m
refresh_catalog e cluster none (repo ∷ repos) m = m
refresh_catalog e cluster (some sched) (repo ∷ repos) m = refresh_of e cluster sched.stanza_name m
