-- ===== src/Alerting/Limits.antt =====
-- How often an alert is sent and escalated before it is resolved.
use mathlib.Core.Path.{subst}
use netbox_conductor.Base.{
  and-right, and-left, ℕ, suc, ◌+◌, ◌≤◌, Bool, true, false, ◌&&◌, not, ◌≡◌, ◌≢◌, ◌⊎◌, refl, sym,
  ◌∙◌, ap, Option, none, some, List, [], ◌∷◌, if◌then◌else◌, count, All, arith, Bool-cases, inl,
  inr,
}
use netbox_conductor.Alerting.{
  FireMode, once, re_alert, every_occurrence, AlertRule, AlertState, Effect, dispatched,
  escalated_to, World, Answers, enabled, dispatch_to_transports, mark_alerted, fire_state,
  fire_mode, fire_alert, below_max, re_alert_due, re_alert_step, mark_escalated, escalation_due,
  escalate_to, timer_step, process_timers, alerted, escalated,
}

-- A matching event, or a tick of the timer loop, with what the database answers meanwhile.
pub data Step : Type 0 where
  fired ticked : (a : Answers) (now : ℕ) → Step

abbrev pub answers : Step → Answers
answers (fired a now) = a
answers (ticked a now) = a

abbrev pub run : AlertRule → List Step → World → World
run rule [] w = w
run rule (fired a now ∷ ss) w = run rule ss (fire_alert a rule now false w)
run rule (ticked a now ∷ ss) w = run rule ss (process_timers a rule now w)

abbrev pub is_alert : Effect → Bool
is_alert (dispatched ts resolve) = not resolve
is_alert (escalated_to t) = false

abbrev pub is_escalation : Effect → Bool
is_escalation (dispatched ts resolve) = false
is_escalation (escalated_to t) = true

-- The limit on the alerts, the first one included.
abbrev pub WithinMax : Option ℕ → ℕ → Type 0
WithinMax none n = Unit
WithinMax (some m) n = (n ≤ 1) ⊎ (n ≤ m)

abbrev score : Bool → ℕ
score b = if b then 1 else 0

-- What the row says of the log.
CountedBy : AlertRule → Option AlertState → List Effect → Type 0
CountedBy rule none log = (count is_alert log ≡ 0) × (count is_escalation log ≡ 0)
CountedBy rule (some s) log =
    (count is_alert log ≡ s.re_alert_count)
    × (count is_escalation log ≡ score s.escalated)
    × (1 ≤ s.re_alert_count)
    × WithinMax rule.max_re_alerts s.re_alert_count
    × (rule.fire_mode ≡ once → s.re_alert_count ≡ 1)

abbrev Counted : AlertRule → World → Type 0
Counted rule w = CountedBy rule w.row w.log

first-WithinMax : (m : Option ℕ) → WithinMax m 1
first-WithinMax none = tt
first-WithinMax (some m) = inl (omega arith)

next-WithinMax : (m : Option ℕ) (n : ℕ) → below_max m n ≡ true → WithinMax m (n + 1)
next-WithinMax none n h = tt
next-WithinMax (some m) n h = inr (ground arith)

fire_state-Counted :
    (a : Answers) (rule : AlertRule) (now : ℕ) (row : Option AlertState) (log : List Effect)
    → a.mark_alerted_ok ≡ true
    → CountedBy rule row log
    → Counted rule (fire_state a rule now row (record { row = row; log = log }))
unfolding fire_state mark_alerted dispatch_to_transports CountedBy alerted
fire_state-Counted a rule now (some s) log ok c = c
fire_state-Counted a rule now none log ok (z, e) =
    rw ok (omega (arith, z), e, omega arith, first-WithinMax rule.max_re_alerts, λ h. refl)

due-not_once :
    (now : ℕ) (m : FireMode) (mins last : Option ℕ)
    → re_alert_due now m mins last ≡ true
    → m ≡ once
    → ⊥
unfolding re_alert_due
due-not_once now once mins last h e = ground arith
due-not_once now re_alert mins last h e = ground arith
due-not_once now every_occurrence mins last h e = ground arith

-- The row stays, escalated or not as before, and still counts the alerts.
record Stays (rule : AlertRule) (s : AlertState) (w : World) : Type 0 where
  pub t : AlertState
  pub row : w.row ≡ some t
  pub same : t.escalated ≡ s.escalated
  pub counted : CountedBy rule (some t) w.log

re_alert_step-Stays :
    (a : Answers) (rule : AlertRule) (now : ℕ) (s : AlertState) (log : List Effect)
    → a.mark_alerted_ok ≡ true
    → CountedBy rule (some s) log
    → Stays rule s (re_alert_step a rule now s (record { row = some s; log = log }))
unfolding re_alert_step mark_alerted dispatch_to_transports alerted CountedBy
re_alert_step-Stays a rule now s log ok (n, e, first, within, single) =
    elim (Bool-cases (
      re_alert_due now rule.fire_mode rule.re_alert_mins s.last_alerted_at
      && below_max rule.max_re_alerts s.re_alert_count)) [
        | inr quiet ↦
            rw quiet
              record { t = s; row = refl; same = refl; counted = (n, e, first, within, single) }
        | inl due ↦
            rw (due, ok)
              record {
                t = record s { last_alerted_at = some now; re_alert_count = s.re_alert_count + 1 };
                row = refl;
                same = refl;
                counted = (
                  omega (arith, n),
                  e,
                  omega arith,
                  next-WithinMax rule.max_re_alerts s.re_alert_count (and-right _ _ due),
                  λ once. absurd (
                      due-not_once now rule.fire_mode rule.re_alert_mins s.last_alerted_at
                        (and-left _ _ due) once),
                );
              }
      ]

escalation_due-fresh :
    (now : ℕ) (s : AlertState) (mins : Option ℕ)
    → escalation_due now s mins ≡ true
    → s.escalated ≡ false
unfolding escalation_due
escalation_due-fresh now s none h = ground arith
escalation_due-fresh now s (some m) h = ground arith

escalate_to-Counted :
    (a : Answers) (rule : AlertRule) (due : Bool) (transport : Option ℕ) (t : AlertState)
    (log : List Effect)
    → a.mark_escalated_ok ≡ true
    → (due ≡ true → t.escalated ≡ false)
    → CountedBy rule (some t) log
    → Counted rule (escalate_to a due transport (record { row = some t; log = log }))
unfolding escalate_to mark_escalated escalated CountedBy
escalate_to-Counted a rule due none t log ok new c = c
escalate_to-Counted a rule due (some k) t log ok new (n, e, first, within, single) =
    elim (Bool-cases (due && enabled (a.transport k))) [
      | inr quiet ↦ rw quiet (n, e, first, within, single)
      | inl goes ↦ rw (goes, ok) (n, once_more (new (and-left _ _ goes)) e, first, within, single)
    ]
  where
    once_more :
        t.escalated ≡ false
        → count is_escalation log ≡ score t.escalated
        → suc (count is_escalation log) ≡ 1
    once_more f h = omega (arith, rw f at h)

fire_alert-Counted :
    (a : Answers) (rule : AlertRule) (now : ℕ) (w : World)
    → rule.fire_mode ≢ every_occurrence
    → a.mark_alerted_ok ≡ true
    → Counted rule w
    → Counted rule (fire_alert a rule now false w)
unfolding fire_alert fire_mode
fire_alert-Counted a rule now w mode ok c = by_mode rule.fire_mode refl
  where
    stored : (upsert : Bool) → Counted rule (if upsert then fire_state a rule now w.row w else w)
    stored true = fire_state-Counted a rule now w.row w.log ok c
    stored false = c

    by_mode : (m : FireMode) → rule.fire_mode ≡ m → Counted rule (fire_mode a rule now false m w)
    by_mode once e = stored a.upsert_ok
    by_mode re_alert e = stored a.upsert_ok
    by_mode every_occurrence e = absurd (mode e)

escalate_to-row :
    (a : Answers) (rule : AlertRule) (due : Bool) (transport : Option ℕ) (t : AlertState)
    (w : World)
    → a.mark_escalated_ok ≡ true
    → w.row ≡ some t
    → (due ≡ true → t.escalated ≡ false)
    → CountedBy rule (some t) w.log
    → Counted rule (escalate_to a due transport w)
escalate_to-row a rule due transport t w ok row new c =
    let here : w ≡ record { row = some t; log = w.log } =
      ap (λ r. record { row = r; log = w.log }) row in
    subst (λ v. Counted rule (escalate_to a due transport v)) (sym here)
      (escalate_to-Counted a rule due transport t w.log ok new c)

timer_step-Counted :
    (a : Answers) (rule : AlertRule) (now : ℕ) (row : Option AlertState) (log : List Effect)
    → a.mark_alerted_ok ≡ true
    → a.mark_escalated_ok ≡ true
    → CountedBy rule row log
    → Counted rule (timer_step a rule now row (record { row = row; log = log }))
unfolding timer_step
timer_step-Counted a rule now none log ok ok' c = c
timer_step-Counted a rule now (some s) log ok ok' c =
    let st = re_alert_step-Stays a rule now s log ok c in
    escalate_to-row a rule (escalation_due now s rule.escalate_after_mins)
      rule.escalate_transport_id st.t _ ok' st.row
      (λ due. st.same ∙ escalation_due-fresh now s rule.escalate_after_mins due) st.counted

-- The database carries out what the step asks of it.
abbrev pub Stored : Step → Type 0
Stored s = ((answers s).mark_alerted_ok ≡ true) × ((answers s).mark_escalated_ok ≡ true)

run-Counted :
    (rule : AlertRule) (ss : List Step) (w : World)
    → rule.fire_mode ≢ every_occurrence
    → All Stored ss
    → Counted rule w
    → Counted rule (run rule ss w)
unfolding process_timers
run-Counted rule [] w mode ok c = c
run-Counted rule (fired a now ∷ ss) w mode ((ok, _), rest) c =
    run-Counted rule ss _ mode rest (fire_alert-Counted a rule now w mode ok c)
run-Counted rule (ticked a now ∷ ss) w mode ((ok, ok'), rest) c =
    run-Counted rule ss _ mode rest (timer_step-Counted a rule now w.row w.log ok ok' c)

abbrev pub idle : World
idle = record { row = none; log = [] }

limits :
    (rule : AlertRule) (row : Option AlertState) (log : List Effect)
    → CountedBy rule row log
    → WithinMax rule.max_re_alerts (count is_alert log)
      × (rule.fire_mode ≡ once → count is_alert log ≤ 1)
      × (count is_escalation log ≤ 1)
unfolding CountedBy
limits rule none log (n, e) =
    (rw n (none_yet rule.max_re_alerts), λ h. omega (arith, n), omega (arith, e))
  where
    none_yet : (m : Option ℕ) → WithinMax m 0
    none_yet none = tt
    none_yet (some m) = inl (omega arith)
limits rule (some s) log (n, e, first, within, single) =
    (rw n within, λ h. omega (arith, n, single h), rw e (at_most s.escalated))
  where
    at_most : (b : Bool) → score b ≤ 1
    at_most true = omega arith
    at_most false = omega arith

-- An alert that is not resolved, of a rule that does not fire at every occurrence, whatever matching
-- events and ticks come at whatever times, the database storing what it is told: the alert is sent no more often
-- than the rule's maximum of re-alerts, the first alert included, or once if that maximum is zero; it is sent
-- once at most if the rule fires once; and it is escalated once at most.
pub run-limits :
    (rule : AlertRule) (ss : List Step)
    → rule.fire_mode ≢ every_occurrence
    → All Stored ss
    → let log = (run rule ss idle).log in
      WithinMax rule.max_re_alerts (count is_alert log)
      × (rule.fire_mode ≡ once → count is_alert log ≤ 1)
      × (count is_escalation log ≤ 1)
unfolding CountedBy
run-limits rule ss mode ok =
    limits rule (run rule ss idle).row (run rule ss idle).log
      (run-Counted rule ss idle mode ok (refl, refl))
