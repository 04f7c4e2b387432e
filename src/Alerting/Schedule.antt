-- ===== src/Alerting/Schedule.antt =====
-- MatchesSchedule of internal/server/alerting/matcher.go.
use Prim.Native.Nat.{Ordering}
use Prim.Native.String.{compare}
use netbox_conductor.Base.{
  ℕ, String, Bool, true, false, ◌&&◌, ◌||◌, not, Option, none, some, List, [], ◌∷◌, if◌then◌else◌,
  ◌==◌,
}

-- Times of the day are texts "15:04", compared as texts.
pub record ScheduleWindow : Type 0 where
  pub days : List ℕ
  pub start : String
  pub end : String

abbrev pub text_lt : String → String → Bool
text_lt a b = elim (compare a b) [ Ordering.lt ↦ true | _ ↦ false ]

-- `a >= b`.
abbrev pub text_ge : String → String → Bool
text_ge a b = not (text_lt a b)

unfoldable pub day_match : ℕ → List ℕ → Bool
day_match dow [] = false
day_match dow (d ∷ ds) = d == dow || day_match dow ds

unfoldable pub in_window : ℕ → String → ScheduleWindow → Bool
unfolding day_match
in_window dow hhmm w =
    if not (day_match dow w.days)
    then false
    else if text_lt w.start w.end
    then text_ge hhmm w.start && text_lt hhmm w.end
    else text_ge hhmm w.start || text_lt hhmm w.end

-- The loop over the windows, at a day of the week and a time of that day in the schedule's zone.
unfoldable pub in_windows : ℕ → String → List ScheduleWindow → Bool
unfolding in_window
in_windows dow hhmm [] = false
in_windows dow hhmm (w ∷ ws) =
    let rest = in_windows dow hhmm ws in if in_window dow hhmm w then true else rest

-- `none` for a rule without a schedule, or whose schedule was not loaded.
unfoldable pub matches_schedule : ℕ → String → Option (List ScheduleWindow) → Bool
unfolding in_windows
matches_schedule dow hhmm none = true
matches_schedule dow hhmm (some ws) = in_windows dow hhmm ws
