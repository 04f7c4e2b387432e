-- ===== src/Backups/Starts.antt =====
-- startRound and skipRound of internal/server/scheduler/backupscheduler.go, with the rows of backup_runs
-- that they write.
use netbox_conductor.Base.{
  ℕ, ◌+◌, ◌-◌, ◌*◌, String, Bool, true, false, not, Option, none, some, List, [], ◌∷◌, ◌⊎◌, inl,
  inr, map, if◌then◌else◌, length,
}
use netbox_conductor.Nodestate.{Node, primary_db_node}
use netbox_conductor.Protocol.{pgbackrest_backup, Params, backup_params}
use netbox_conductor.Failover.State.{Env, DispatchError}
use netbox_conductor.OpLock.{Locks, BusyError, busy, try_lock, unlock}
use netbox_conductor.TaskWatch.{Task}
use netbox_conductor.Dispatcher.{Dispatcher, start_task}
use netbox_conductor.Backups.{Tier, full, diff, incr, BackupTarget}
use netbox_conductor.Backups.Runs as Runs
use netbox_conductor.Backups.Runs.{
  BackupRun, StartError, no_locations, no_primary, not_dispatched, not_started, BackupResult,
  create, set_dispatched, set_abandoned,
}

abbrev pub backup_start_tries : ℕ
backup_start_tries = 3

abbrev pub backup_check_tries : ℕ
backup_check_tries = 3

-- `backupScheduleInterval`, `BackupTimeoutSecs` and `filesync.CatalogTimeoutSecs`, in seconds.
abbrev pub schedule_interval : ℕ
schedule_interval = 60

abbrev pub backup_timeout_secs : ℕ
backup_timeout_secs = 3600

abbrev pub catalog_timeout_secs : ℕ
catalog_timeout_secs = 60

unfoldable pub round_timeout_secs : ℕ → ℕ
round_timeout_secs n =
    n
    * (backup_check_tries * catalog_timeout_secs
        + (backup_check_tries - 1) * schedule_interval
        + backup_timeout_secs)

-- What the calls of one try answer; an error of a list is `none`.
pub record Answers : Type 0 where
  pub env : Env
  pub targets : Option (List BackupTarget)
  pub create_ok : Bool
  pub update_ok : Bool

pub data Note : Type 0 where
  postponed : (cluster : ℕ) → Tier → (try : ℕ) → StartError → Note
  skipped : (cluster : ℕ) → Tier → StartError → Note

pub record World : Type 0 where
  pub dispatcher : Dispatcher
  pub locks : Locks
  pub runs : List BackupRun
  pub next_run : ℕ
  pub notes : List Note

abbrev pub targets_or_none : Option (List BackupTarget) → List BackupTarget
targets_or_none none = []
targets_or_none (some ts) = ts

abbrev pub repo_indexes : List BackupTarget → List ℕ
repo_indexes = map (λ t. t.repo_index)

primary_of : Option (List Node) → Option Node
primary_of none = none
primary_of (some ns) = primary_db_node ns

unfoldable pub find_primary_node : Env → ℕ → Option Node
unfolding primary_of
find_primary_node e cluster = primary_of (e.nodes cluster)

abbrev pub tier_text : Tier → String
tier_text full = "full"
tier_text diff = "diff"
tier_text incr = "incr"

-- A new row, as far as the INSERT succeeds, and its UPDATE.
unfoldable pub record_run :
    Answers → (cluster : ℕ) → Tier → (repo scheduled_at try task : ℕ) → World → World
record_run a cluster tier repo scheduled_at try task w =
    let id = w.next_run in
    let runs = create id cluster tier repo scheduled_at try w.runs in
    if not a.create_ok then w else record w {
      runs = if a.update_ok then set_dispatched id task runs else runs;
      next_run = id + 1;
    }

unfoldable pub record_runs :
    Answers → (cluster : ℕ) → Tier → (repos : List ℕ) → (scheduled_at try task : ℕ) → World → World
unfolding record_run
record_runs a cluster tier [] scheduled_at try task w = w
record_runs a cluster tier (repo ∷ repos) scheduled_at try task w =
    record_runs a cluster tier repos scheduled_at try task
      (record_run a cluster tier repo scheduled_at try task w)

-- A round that runs: its node, its task, and the handle of its unlock.
pub record Round : Type 0 where
  pub primary : Node
  pub task : Task
  pub lock : ℕ

abbrev pub params_of : (stanza : String) → Tier → List ℕ → Params
params_of stanza tier repos =
    backup_params stanza (tier_text tier) repos backup_check_tries catalog_timeout_secs
      schedule_interval backup_timeout_secs

unfoldable pub dispatched :
    Answers
    → (cluster : ℕ) → Tier
    → (repos : List ℕ) → (scheduled_at try lock : ℕ) → Node
    → (DispatchError ⊎ Task)
    → World
    → (StartError ⊎ Round) × World
unfolding record_runs
dispatched a cluster tier repos scheduled_at try lock primary (inl err) w =
    (inl (not_dispatched err), record w { locks = unlock lock w.locks })
dispatched a cluster tier repos scheduled_at try lock primary (inr t) w = (
  inr (record { primary = primary; task = t; lock = lock }),
  record_runs a cluster tier repos scheduled_at try t.id w,
)

unfoldable pub locked :
    Answers
    → (cluster : ℕ) → (stanza : String) → Tier
    → (repos : List ℕ) → (scheduled_at try : ℕ) → Node
    → (BusyError ⊎ ℕ)
    → World
    → (StartError ⊎ Round) × World
unfolding dispatched
locked a cluster stanza tier repos scheduled_at try primary (inl (busy running)) w =
    (inl (Runs.busy running), w)
locked a cluster stanza tier repos scheduled_at try primary (inr lock) w =
    let (t, d) =
      start_task a.env primary.id pgbackrest_backup (params_of stanza tier repos)
        (round_timeout_secs (length repos)) w.dispatcher in
    dispatched a cluster tier repos scheduled_at try lock primary t (record w { dispatcher = d })

unfoldable pub on_primary :
    Answers
    → (cluster : ℕ) → (stanza : String) → Tier
    → (repos : List ℕ) → (scheduled_at try : ℕ) → Option Node
    → World
    → (StartError ⊎ Round) × World
unfolding locked
on_primary a cluster stanza tier repos scheduled_at try none w = (inl no_primary, w)
on_primary a cluster stanza tier repos scheduled_at try (some primary) w =
    let (held, locks) = try_lock cluster "a backup" w.locks in
    locked a cluster stanza tier repos scheduled_at try primary held (record w { locks = locks })

unfoldable pub with_repos :
    Answers
    → (cluster : ℕ) → (stanza : String) → Tier
    → (scheduled_at try : ℕ) → (repos : List ℕ) → World
    → (StartError ⊎ Round) × World
unfolding on_primary
with_repos a cluster stanza tier scheduled_at try [] w = (inl no_locations, w)
with_repos a cluster stanza tier scheduled_at try (repo ∷ repos) w =
    on_primary a cluster stanza tier (repo ∷ repos) scheduled_at try
      (find_primary_node a.env cluster) w

unfoldable pub start_round :
    Answers
    → (cluster : ℕ) → (stanza : String) → Tier
    → (scheduled_at try : ℕ) → World
    → (StartError ⊎ Round) × World
unfolding with_repos
start_round a cluster stanza tier scheduled_at try w =
    with_repos a cluster stanza tier scheduled_at try (repo_indexes (targets_or_none a.targets)) w

-- The answer `retry`.
abbrev pub may_start_later : StartError → Bool
may_start_later no_locations = false
may_start_later _ = true

unfoldable pub abandon_runs :
    Answers
    → (cluster : ℕ) → Tier
    → (repos : List ℕ) → (scheduled_at : ℕ) → StartError
    → World
    → World
abandon_runs a cluster tier [] scheduled_at err w = w
abandon_runs a cluster tier (repo ∷ repos) scheduled_at err w =
    let id = w.next_run in
    let runs = create id cluster tier repo scheduled_at backup_start_tries w.runs in
    abandon_runs a cluster tier repos scheduled_at err (
      if not a.create_ok then w else record w {
        runs = if a.update_ok then set_abandoned id (not_started err) runs else runs;
        next_run = id + 1;
      })

unfoldable pub skip_round :
    Answers → (cluster : ℕ) → Tier → (scheduled_at : ℕ) → StartError → World → World
unfolding abandon_runs
skip_round a cluster tier scheduled_at err w =
    let w' =
      abandon_runs a cluster tier (repo_indexes (targets_or_none a.targets)) scheduled_at err w in
    record w' { notes = skipped cluster tier err ∷ w'.notes }
