-- ===== src/FileSync/Jobs.antt =====
-- internal/server/filesync/jobs.go, the queue of internal/server/filesync/filesync.go (Start and loop), and
-- tick of internal/server/scheduler/filesyncscheduler.go.
--
-- The goroutine that syncs a folder is its entry in `running`: the job that it works on. `m.sync` itself
-- is not modelled; when it returns is a step, `finish`.
pub mod Queue
use Prim.Native.String.{◌++◌}
use netbox_conductor.Base.{
  ℕ, String, Bool, true, false, ◌&&◌, ◌||◌, not, Option, none, some, ◌⊎◌, inl, inr, List, [], ◌∷◌,
  ◌++◌ as append, map, keep, length, ltb, str_eq, if◌then◌else◌,
}
use netbox_conductor.Nodestate.{Node, is_app_role}
use netbox_conductor.Cron.{Text, Time, matches}

pub record Cluster : Type 0 where
  pub id : ℕ
  pub media_sync_enabled : Bool
  pub extra_folders_sync_enabled : Bool
  pub extra_sync_folders : List String
  pub file_sync_schedule_enabled : Bool
  pub file_sync_cron : Text

-- A job, with its key "cluster|root" for the table of jobs. A job of backups has a source.
pub record Job : Type 0 where
  pub key : String
  pub name : String
  pub root : String
  pub nodes : List Node
  pub source : Option ℕ

abbrev is_named : String → Bool
is_named f = not (str_eq f "")

-- "" is the media folder.
unfoldable pub sync_folders : Cluster → List String
sync_folders c =
    "" ∷ (if c.extra_folders_sync_enabled then keep is_named c.extra_sync_folders else [])

abbrev folder_name : String → String
folder_name f = if str_eq f "" then "media" else f

abbrev folder_job : String → List Node → String → Job
folder_job cluster peers f = record {
  key = cluster ++ ("|" ++ f);
  name = folder_name f;
  root = f;
  nodes = peers;
  source = none;
}

-- `none` where there are fewer than two nodes to sync. `cluster` is the text of the cluster's id.
unfoldable pub media_jobs :
    (cluster : String) → Cluster → List Node → (connected : ℕ → Bool) → Option (List Job)
unfolding sync_folders
media_jobs cluster c nodes connected =
    let peers = keep (λ n. is_app_role n.role && connected n.id) nodes in
    if ltb (length peers) 2 then none else some (map (folder_job cluster peers) (sync_folders c))

-- `active` has the job queued behind the running one.
pub record Manager : Type 0 where
  pub active : String → Option (Option Job)
  pub running : String → Option Job

abbrev pub new : Manager
new = record { active = λ k. none; running = λ k. none }

abbrev pub put {ℓ} : {V : Type ℓ} → String → Option V → (String → Option V) → String → Option V
put k v m j = if str_eq k j then v else m j

start_on : Job → Bool → Option (Option Job) → Manager → Bool × Manager
start_on job queue none m = (
  true,
  record { active = put job.key (some none) m.active; running = put job.key (some job) m.running },
)
start_on job queue (some next) m =
    if not queue
    then (false, m)
    else (true, record m { active = put job.key (some (some job)) m.active })

-- Whether the job was started or queued: false is ErrBusy.
unfoldable pub start : Job → Bool → Manager → Bool × Manager
unfolding start_on
start job queue m = start_on job queue (m.active job.key) m

next_of : Option (Option Job) → Option Job
next_of none = none
next_of (some next) = next

finish_with : String → Option Job → Manager → Manager
finish_with key none m = record { active = put key none m.active; running = put key none m.running }
finish_with key (some job) m = record {
  active = put key (some none) m.active;
  running = put key (some job) m.running;
}

-- The sync that runs under the key returns, and the loop goes on with the job that is queued, or ends.
unfoldable pub finish : String → Manager → Manager
unfolding finish_with next_of
finish key m = finish_with key (next_of (m.active key)) m

start_all : List Job → Manager → Manager
unfolding start
start_all [] m = m
start_all (j ∷ js) m = start_all js (start j false m).1

tick_jobs : Option (List Job) → Manager → Manager
unfolding start_all
tick_jobs none m = m
tick_jobs (some js) m = start_all js m

tick_on : Option (List Job) → Option Bool → Manager → Option Manager
unfolding tick_jobs
tick_on jobs none m = none
tick_on jobs (some false) m = some m
tick_on jobs (some true) m = some (tick_jobs jobs m)

abbrev jobs_of : String → Cluster → Option (List Node) → (ℕ → Bool) → Option (List Job)
jobs_of cluster c none connected = none
jobs_of cluster c (some nodes) connected = media_jobs cluster c nodes connected

-- The body of the loop over the clusters; `none` is a panic of the cron expression.
unfoldable pub tick_cluster :
    (cluster : String)
    → Cluster
    → Option (List Node)
    → (connected : ℕ → Bool) → Time
    → Manager
    → Option Manager
unfolding tick_on media_jobs
tick_cluster cluster c nodes connected now m =
    let due = tick_on (jobs_of cluster c nodes connected) (matches c.file_sync_cron now) m in
    if not c.media_sync_enabled || not c.file_sync_schedule_enabled then some m else due
