-- ===== src/Backups/Ticks.antt =====
-- tick of internal/server/scheduler/backupscheduler.go. The rounds of fireBackup, which it starts as
-- goroutines, are its answer.
use netbox_conductor.Base.{String, Option, none, some, List, [], ◌∷◌}
use netbox_conductor.Cron.{Time}
use netbox_conductor.TaskResults.{TaskTable}
use netbox_conductor.Backups.{Tier, BackupSchedule, due_tier}
use netbox_conductor.Backups.Runs.{BackupRun, BackupResult, sync_completed_runs}

with_tier :
    BackupSchedule → Option Tier → List (BackupSchedule × Tier) → List (BackupSchedule × Tier)
with_tier s none rest = rest
with_tier s (some tier) rest = (s, tier) ∷ rest

after_schedule :
    BackupSchedule
    → Option (Option Tier)
    → Option (List (BackupSchedule × Tier))
    → Option (List (BackupSchedule × Tier))
unfolding with_tier
after_schedule s none rest = none
after_schedule s (some tier) none = none
after_schedule s (some tier) (some rest) = some (with_tier s tier rest)

-- The loop over the schedules; `none` is a panic of a cron expression.
unfoldable pub due_rounds : List BackupSchedule → Time → Option (List (BackupSchedule × Tier))
unfolding after_schedule
due_rounds [] now = some []
due_rounds (s ∷ ss) now = after_schedule s (due_tier s now) (due_rounds ss now)

abbrev schedules_or_none : Option (List BackupSchedule) → List BackupSchedule
schedules_or_none none = []
schedules_or_none (some ss) = ss

-- The runs, and the rounds that are due; `enabled` is `none` where they cannot be listed.
unfoldable pub tick :
    (String → List BackupResult)
    → TaskTable
    → (enabled : Option (List BackupSchedule)) → Time
    → List BackupRun
    → List BackupRun × Option (List (BackupSchedule × Tier))
unfolding due_rounds
tick decode tasks enabled now runs =
    (sync_completed_runs decode tasks runs, due_rounds (schedules_or_none enabled) now)
