-- ===== src/Scenarios/Crons.antt =====
-- Schedules of backups: "*/15 3 1-7 * 0,3" and "30 4 * * *".
use netbox_conductor.Base.{
  ℕ, ◌+◌, ◌<◌, ◌≤◌, Bool, true, ◌≡◌, ◌⊎◌, ◌↔◌, refl, Option, none, some, List, [], ◌∷◌, arith,
}
use netbox_conductor.Cron.{Time, matches, range_bits, int_limit, ok, panics}
use netbox_conductor.Cron.Bits.{IsRange, range_bits_lem}
use netbox_conductor.Cron.Print.{
  Range, any, number, between, Part, Field, Schedule, print, FallsOn, IsSchedule,
}
use netbox_conductor.Cron.Print.Whole.{matches-print}
use netbox_conductor.Backups.{Tier, BackupSchedule, due_tier}
use netbox_conductor.Backups.Due.{IsDue, IsIncrHour, due_tier-print}

abbrev part : Range → Option ℕ → Part
part range step = record { range = range; step = step }

abbrev field : Range → Field
field range = record { first = part range none; others = [] }

abbrev weekly : Schedule
weekly = record {
  minute = record { first = part any (some 15); others = [] };
  hour = field (number 3);
  day = field (between 1 7);
  month = field any;
  weekday = record { first = part (number 0) none; others = part (number 3) none ∷ [] };
}

abbrev daily : Schedule
daily = record {
  minute = field (number 30);
  hour = field (number 4);
  day = field any;
  month = field any;
  weekday = field any;
}

-- Wednesday the 3rd, at 03:45.
abbrev moment : Time
moment = record { minute = 45; hour = 3; day = 3; month = 6; weekday = 3 }

weekly-IsSchedule : IsSchedule weekly
weekly-IsSchedule = record {
  minute = ((tt, (omega arith, omega arith)), tt);
  hour = (((omega arith, omega arith), tt), tt);
  day = (((omega arith, omega arith, omega arith), tt), tt);
  month = ((tt, tt), tt);
  weekday = (((omega arith, omega arith), tt), (((omega arith, omega arith), tt), tt));
}

daily-IsSchedule : IsSchedule daily
daily-IsSchedule = record {
  minute = (((omega arith, omega arith), tt), tt);
  hour = (((omega arith, omega arith), tt), tt);
  day = ((tt, tt), tt);
  month = ((tt, tt), tt);
  weekday = ((tt, tt), tt);
}

matches-print_example :
    (b : Bool) × (matches (print weekly) moment ≡ some b) × ((b ≡ true) ↔ FallsOn weekly moment)
matches-print_example = matches-print weekly moment weekly-IsSchedule

-- "1/9223372036854775807" in the field of minutes.
range_bits_lem_example :
    ((1 + 9223372036854775807 < int_limit)
      × ((bits : List ℕ) × (range_bits 1 59 9223372036854775807 ≡ ok bits)
          × IsRange 1 59 9223372036854775807 bits))
    ⊎ ((int_limit ≤ 1 + 9223372036854775807) × (range_bits 1 59 9223372036854775807 ≡ panics))
range_bits_lem_example =
    range_bits_lem 1 59 9223372036854775807 (omega arith) (omega arith) (omega arith)

abbrev schedule : BackupSchedule
schedule = record {
  cluster_id = 7;
  stanza_name = some "main";
  stanza_initialized = true;
  full_backup_cron = print weekly;
  diff_backup_cron = print daily;
  incr_backup_interval_hrs = 6;
}

due_tier-print_example :
    (tier : Option Tier) × (due_tier schedule moment ≡ some tier)
    × IsDue (FallsOn weekly moment) (FallsOn daily moment) (IsIncrHour schedule moment) tier
due_tier-print_example =
    due_tier-print schedule "main" weekly daily moment refl refl refl weekly-IsSchedule
      daily-IsSchedule
