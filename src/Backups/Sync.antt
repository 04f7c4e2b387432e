-- ===== src/Backups/Sync.antt =====
-- syncBackups, SyncBackups and afterBackups of internal/server/scheduler/backupscheduler.go, with
-- BackupJob of internal/server/filesync/jobs.go.
pub mod Safe
use Prim.Native.String.{◌++◌}
use netbox_conductor.Base.{
  ℕ, String, Bool, true, false, ◌&&◌, ◌||◌, not, Option, none, some, List, [], ◌∷◌, ◌++◌ as append,
  ◌==◌, str_eq, if◌then◌else◌,
}
use netbox_conductor.Nodestate.{Node, is_db_role, extract_patroni_role}
use netbox_conductor.TaskWatch.{contains}
use netbox_conductor.Backups.{BackupSchedule, BackupTarget}
use netbox_conductor.Backups.Settling.{Settling, settled}

-- The job of a sync of backups. Its nodes are the source and the destinations.
pub record BackupJob : Type 0 where
  pub target : BackupTarget
  pub stanza : String
  pub name : String
  pub root : String
  pub source : Node
  pub dests : List Node

pub data SkipReason : Type 0 where
  primary_unsettled : (hostname : String) → SkipReason
  agent_not_connected : SkipReason
  agent_unsettled : SkipReason

-- What a sync does, in order.
pub data Effect : Type 0 where
  node_skipped : BackupTarget → Node → SkipReason → Effect
  job_started : BackupJob → Effect

abbrev pub is_connected : Node → Bool
is_connected n = str_eq n.agent_status "connected"

abbrev pub reports_primary : Node → Bool
reports_primary n =
    is_db_role n.role && (is_connected n && str_eq (extract_patroni_role n.patroni_state) "primary")

-- The one node that reports to be the primary; none also where two do. `found` is the one so far.
sole_primary : Option Node → List Node → Option Node
sole_primary found [] = found
sole_primary none (n ∷ ns) = sole_primary (if reports_primary n then some n else none) ns
sole_primary (some p) (n ∷ ns) =
    let rest = sole_primary (some p) ns in if reports_primary n then none else rest

-- The location with its path, or the default one.
unfoldable pub path_or_default : Option String → String
path_or_default none = "/var/lib/pgbackrest"
path_or_default (some path) = if str_eq path "" then "/var/lib/pgbackrest" else path

-- What becomes of a node in the inner loop: left out silently, skipped with an event, or a destination.
pub data Choice : Type 0 where
  passed_over : Choice
  skip : SkipReason → Choice
  take : Choice

choose : Settling → Node → BackupTarget → Node → Choice
choose s primary t n =
    if n.id == primary.id || not (contains t.sync_to_nodes n.id)
    then passed_over
    else if not (settled primary.id s)
    then skip (primary_unsettled primary.hostname)
    else if not (is_connected n)
    then skip agent_not_connected
    else if not (settled n.id s)
    then skip agent_unsettled
    else take

chosen : BackupTarget → Node → Choice → List Effect × List Node → List Effect × List Node
chosen t n passed_over rest = rest
chosen t n (skip why) (effects, dests) = (node_skipped t n why ∷ effects, dests)
chosen t n take (effects, dests) = (effects, n ∷ dests)

-- The skip events, and the destinations.
unfoldable pub sync_nodes : Settling → Node → BackupTarget → List Node → List Effect × List Node
unfolding chosen choose
sync_nodes s primary t [] = ([], [])
sync_nodes s primary t (n ∷ ns) = chosen t n (choose s primary t n) (sync_nodes s primary t ns)

job_effects : BackupTarget → String → Node → List Node → List Effect
job_effects t stanza primary [] = []
job_effects t stanza primary (d ∷ ds) =
    job_started (record {
      target = t;
      stanza = stanza;
      name = "backups (" ++ (t.label ++ ")");
      root = path_or_default t.posix_path;
      source = primary;
      dests = d ∷ ds;
    })
    ∷ []

abbrev is_empty : List ℕ → Bool
is_empty [] = true
is_empty (x ∷ xs) = false

unfoldable pub sync_target :
    Settling → String → Node → List Node → (BackupTarget → Bool) → BackupTarget → List Effect
unfolding sync_nodes job_effects
sync_target s stanza primary ns pick t =
    let (effects, dests) = sync_nodes s primary t ns in
    if not (str_eq t.target_type "posix") || (is_empty t.sync_to_nodes || not (pick t))
    then []
    else append effects (job_effects t stanza primary dests)

sync_targets :
    Settling → String → Node → List Node → (BackupTarget → Bool) → List BackupTarget → List Effect
unfolding sync_target
sync_targets s stanza primary ns pick [] = []
sync_targets s stanza primary ns pick (t ∷ ts) =
    append (sync_target s stanza primary ns pick t) (sync_targets s stanza primary ns pick ts)

from_primary :
    Settling
    → String
    → List Node
    → (BackupTarget → Bool)
    → Option (List BackupTarget)
    → Option Node
    → List Effect
unfolding sync_targets
from_primary s stanza ns pick targets none = []
from_primary s stanza ns pick none (some primary) = []
from_primary s stanza ns pick (some ts) (some primary) = sync_targets s stanza primary ns pick ts

-- Over the nodes and the locations of the cluster, `none` for an error.
unfoldable pub sync_backups_of :
    Settling
    → String
    → Option (List Node)
    → Option (List BackupTarget)
    → (BackupTarget → Bool)
    → List Effect
unfolding from_primary sole_primary
sync_backups_of s stanza none targets pick = []
sync_backups_of s stanza (some ns) targets pick =
    from_primary s stanza ns pick targets (sole_primary none ns)

with_stanza :
    Settling
    → Option String
    → Option (List Node)
    → Option (List BackupTarget)
    → (BackupTarget → Bool)
    → List Effect
unfolding sync_backups_of
with_stanza s none nodes targets pick = []
with_stanza s (some stanza) nodes targets pick = sync_backups_of s stanza nodes targets pick

-- `SyncBackups`, over the cluster's schedule.
unfoldable pub sync_backups :
    Settling → Option BackupSchedule → Option (List Node) → Option (List BackupTarget) → List Effect
unfolding with_stanza
sync_backups s none nodes targets = []
sync_backups s (some sched) nodes targets =
    if not sched.stanza_initialized
    then []
    else with_stanza s sched.stanza_name nodes targets (λ t. true)

-- The syncs of afterBackups, over the locations that were backed up. The refresh of the catalog that
-- it sends before them is a dispatch of its own.
unfoldable pub after_backups :
    Settling
    → Option BackupSchedule
    → Option (List Node)
    → Option (List BackupTarget)
    → List ℕ
    → List Effect
unfolding with_stanza
after_backups s sched nodes targets [] = []
after_backups s none nodes targets (repo ∷ repos) = []
after_backups s (some sched) nodes targets (repo ∷ repos) =
    with_stanza s sched.stanza_name nodes targets (λ t. contains (repo ∷ repos) t.repo_index)
