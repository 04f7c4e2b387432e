-- ===== src/Backups.antt =====
-- internal/server/scheduler/backupscheduler.go: when backup rounds start, how they end, and which
-- nodes the sync of backups takes part.
--
-- An interval of zero hours or less is zero, which the code treats alike.
pub mod Settling
pub mod Runs
pub mod Starts
pub mod Rounds
pub mod Sync
pub mod Due
pub mod Ticks
use netbox_conductor.Base.{
  ℕ, ◌+◌, ◌*◌, ◌%◌, String, Bool, true, false, ◌&&◌, Option, none, some, List, [], ◌∷◌, ◌==◌, ltb,
  if◌then◌else◌,
}
use netbox_conductor.Cron.{Text, Time, matches}

pub data Tier : Type 0 where
  full diff incr : Tier

-- A row of the schedules, with the columns that are read.
pub record BackupSchedule : Type 0 where
  pub cluster_id : ℕ
  pub stanza_name : Option String
  pub stanza_initialized : Bool
  pub full_backup_cron : Text
  pub diff_backup_cron : Text
  pub incr_backup_interval_hrs : ℕ

-- A storage location, with the columns that are read.
pub record BackupTarget : Type 0 where
  pub cluster_id : ℕ
  pub repo_index : ℕ
  pub label : String
  pub target_type : String
  pub posix_path : Option String
  pub sync_to_nodes : List ℕ

incr_due : BackupSchedule → Time → Option Tier
incr_due s now =
    if ltb 0 s.incr_backup_interval_hrs
      && (now.hour % s.incr_backup_interval_hrs == 0 && now.minute == 0)
    then some incr
    else none

diff_due : BackupSchedule → Time → Option Bool → Option (Option Tier)
unfolding incr_due
diff_due s now none = none
diff_due s now (some true) = some (some diff)
diff_due s now (some false) = some (incr_due s now)

full_due : BackupSchedule → Time → Option Bool → Option (Option Tier)
unfolding diff_due
full_due s now none = none
full_due s now (some true) = some (some full)
full_due s now (some false) = diff_due s now (matches s.diff_backup_cron now)

named_due : BackupSchedule → Time → Option String → Option (Option Tier)
unfolding full_due
named_due s now none = some none
named_due s now (some stanza) = full_due s now (matches s.full_backup_cron now)

-- The tier whose round checkSchedule starts at a time, `none` within for no tier; the outer `none` is a
-- panic of the cron expressions.
unfoldable pub due_tier : BackupSchedule → Time → Option (Option Tier)
unfolding named_due
due_tier s now = named_due s now s.stanza_name
