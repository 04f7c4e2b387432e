-- ===== src/Backups/Due.antt =====
-- Which tier is due, in terms of the schedules that the cron expressions are the texts of.
use netbox_conductor.Base.{
  ◌%◌, ◌<◌, String, Bool, true, false, ◌≡◌, ◌≢◌, refl, sym, ap, ◌∙◌, Option, some, ◌↔◌, arith,
}
use netbox_conductor.Cron.{Time, matches}
use netbox_conductor.Cron.Print.{Schedule, print, FallsOn, IsSchedule}
use netbox_conductor.Cron.Print.Whole.{matches-print}
use netbox_conductor.Backups.{
  Tier, full, diff, incr, BackupSchedule, due_tier, named_due, full_due, diff_due, incr_due,
}

-- The hour of an incremental backup.
abbrev pub IsIncrHour : BackupSchedule → Time → Type 0
IsIncrHour s now =
    (0 < s.incr_backup_interval_hrs)
    × (now.hour % s.incr_backup_interval_hrs ≡ 0)
    × (now.minute ≡ 0)

-- The tier is full, differential or incremental if nothing before it falls on the time and it does.
abbrev pub IsDue : (f d i : Type 0) → Option Tier → Type 0
IsDue f d i tier =
    ((tier ≡ some full) ↔ f)
    × ((tier ≡ some diff) ↔ ((f → ⊥) × d))
    × ((tier ≡ some incr) ↔ ((f → ⊥) × (d → ⊥) × i))

full_diff : ◌≡◌ {A = Option Tier} (some full) (some diff) → ⊥
full_diff e = ground arith

full_incr : ◌≡◌ {A = Option Tier} (some full) (some incr) → ⊥
full_incr e = ground arith

diff_incr : ◌≡◌ {A = Option Tier} (some diff) (some incr) → ⊥
diff_incr e = ground arith

IsDue-full : (f d i : Type 0) → f → IsDue f d i (some full)
IsDue-full f d i h = (
  (λ e. h, λ k. refl),
  (λ e. absurd (full_diff e), λ k. absurd (k.0 h)),
  (λ e. absurd (full_incr e), λ k. absurd (k.0 h)),
)

IsDue-diff : (f d i : Type 0) → (f → ⊥) → d → IsDue f d i (some diff)
IsDue-diff f d i n h = (
  (λ e. absurd (full_diff (sym e)), λ k. absurd (n k)),
  (λ e. (n, h), λ k. refl),
  (λ e. absurd (diff_incr e), λ k. absurd (k.1 h)),
)

incr_due_iff : (s : BackupSchedule) (now : Time) → (incr_due s now ≡ some incr) ↔ IsIncrHour s now
unfolding incr_due
incr_due_iff s now = (λ e. ground arith, λ h. ground arith)

not_full : (s : BackupSchedule) (now : Time) (t : Tier) → incr_due s now ≡ some t → t ≡ incr
unfolding incr_due
not_full s now t e = ground arith

IsDue-incr :
    (f d : Type 0) (s : BackupSchedule) (now : Time)
    → (f → ⊥)
    → (d → ⊥)
    → IsDue f d (IsIncrHour s now) (incr_due s now)
IsDue-incr f d s now n m = (
  (λ e. absurd (not_it full e (λ k. ground arith)), λ k. absurd (n k)),
  (λ e. absurd (not_it diff e (λ k. ground arith)), λ k. absurd (m k.1)),
  (λ e. (n, m, (incr_due_iff s now).0 e), λ k. (incr_due_iff s now).1 k.2),
)
  where
    not_it : (t : Tier) → incr_due s now ≡ some t → t ≢ incr → ⊥
    not_it t e ne = ne (not_full s now t e)

due_tier_lem :
    (s : BackupSchedule) (stanza : String) (now : Time)
    → s.stanza_name ≡ some stanza
    → due_tier s now ≡ full_due s now (matches s.full_backup_cron now)
unfolding due_tier
due_tier_lem s stanza now named = ap (named_due s now) named

due_tier_step :
    (s : BackupSchedule) (stanza : String) (now : Time) (F D : Type 0) (a b : Bool)
    → s.stanza_name ≡ some stanza
    → matches s.full_backup_cron now ≡ some a
    → matches s.diff_backup_cron now ≡ some b
    → (a ≡ true) ↔ F
    → (b ≡ true) ↔ D
    → (tier : Option Tier) × (due_tier s now ≡ some tier) × IsDue F D (IsIncrHour s now) tier
unfolding full_due diff_due
due_tier_step s stanza now F D true b named e k falls falls' = (
  some full,
  due_tier_lem s stanza now named ∙ ap (full_due s now) e,
  IsDue-full F D (IsIncrHour s now) (falls.0 refl),
)
due_tier_step s stanza now F D false true named e k falls falls' = (
  some diff,
  due_tier_lem s stanza now named ∙ ap (full_due s now) e ∙ ap (diff_due s now) k,
  IsDue-diff F D (IsIncrHour s now) (λ h. absurd (no (falls.1 h))) (falls'.0 refl),
)
  where
    no : false ≡ true → ⊥
    no h = ground arith
due_tier_step s stanza now F D false false named e k falls falls' = (
  incr_due s now,
  due_tier_lem s stanza now named ∙ ap (full_due s now) e ∙ ap (diff_due s now) k,
  IsDue-incr F D s now (λ h. absurd (no (falls.1 h))) (λ h. absurd (no (falls'.1 h))),
)
  where
    no : false ≡ true → ⊥
    no h = ground arith

-- Where a schedule has a stanza and its cron expressions are texts of schedules, exactly one tier is
-- due at a time, or none, and nothing panics: a full backup when its schedule falls on the time; a
-- differential one when its schedule does and the full one's does not; else an incremental one on
-- the hours that its interval divides.
pub due_tier-print :
    (s : BackupSchedule) (stanza : String) (f d : Schedule) (now : Time)
    → s.stanza_name ≡ some stanza
    → s.full_backup_cron ≡ print f
    → s.diff_backup_cron ≡ print d
    → IsSchedule f
    → IsSchedule d
    → (tier : Option Tier) × (due_tier s now ≡ some tier)
      × IsDue (FallsOn f now) (FallsOn d now) (IsIncrHour s now) tier
due_tier-print s stanza f d now named fc dc fi di =
    let (a, e, falls) = matches-print f now fi in
    let (b, k, falls') = matches-print d now di in
    due_tier_step s stanza now (FallsOn f now) (FallsOn d now) a b named
      (ap (λ t. matches t now) fc ∙ e) (ap (λ t. matches t now) dc ∙ k) falls falls'
