-- ===== src/Backups/Rounds/Tries.antt =====
-- How often a scheduled round is tried.
use netbox_conductor.Base.{
  ℕ, suc, ◌+◌, ◌≤◌, ◌<◌, String, Bool, true, false, not, ◌≡◌, refl, ◌⊎◌, inl, inr, Option, none,
  some, List, [], ◌∷◌, ◌==◌, ==_iff, length, count, if◌then◌else◌, arith, ◌∙◌,
}
use netbox_conductor.Nodestate.{Node}
use netbox_conductor.OpLock.{BusyError, busy}
use netbox_conductor.Failover.State.{DispatchError}
use netbox_conductor.TaskWatch.{Task}
use netbox_conductor.Backups.{Tier}
use netbox_conductor.Backups.Runs.{StartError}
use netbox_conductor.Backups.Starts.{
  backup_start_tries, Answers, World, Note, postponed, skipped, Round, start_round, on_primary,
  locked, dispatched, with_repos, record_run, record_runs, abandon_runs, skip_round,
  may_start_later, find_primary_node, repo_indexes, targets_or_none,
}
use netbox_conductor.Backups.Rounds.{
  Fired, started, given_up, skipped_after, stopped, after_failure, after_try, fire_from,
  fire_backup,
}

abbrev pub is_postponed : Note → Bool
is_postponed (postponed cluster tier try err) = true
is_postponed (skipped cluster tier err) = false

abbrev pub is_skipped : Note → Bool
is_skipped (postponed cluster tier try err) = false
is_skipped (skipped cluster tier err) = true

notes-record_runs :
    (a : Answers) (cluster : ℕ) (tier : Tier) (repos : List ℕ) (at try task : ℕ) (w : World)
    → (record_runs a cluster tier repos at try task w).notes ≡ w.notes
unfolding record_runs record_run
notes-record_runs a cluster tier [] at try task w = refl
notes-record_runs a cluster tier (repo ∷ repos) at try task w =
    notes-record_runs a cluster tier repos at try task
      (record_run a cluster tier repo at try task w)
    ∙ one
  where
    one : (record_run a cluster tier repo at try task w).notes ≡ w.notes
    one = ground arith

notes-abandon_runs :
    (a : Answers) (cluster : ℕ) (tier : Tier) (repos : List ℕ) (at : ℕ) (err : StartError)
    (w : World)
    → (abandon_runs a cluster tier repos at err w).notes ≡ w.notes
unfolding abandon_runs
notes-abandon_runs a cluster tier [] at err w = refl
notes-abandon_runs a cluster tier (repo ∷ repos) at err w =
    notes-abandon_runs a cluster tier repos at err _ ∙ ground arith

notes-dispatched :
    (a : Answers) (cluster : ℕ) (tier : Tier) (repos : List ℕ) (at try lock : ℕ) (primary : Node)
    (t : DispatchError ⊎ Task) (w : World)
    → (dispatched a cluster tier repos at try lock primary t w).1.notes ≡ w.notes
unfolding dispatched
notes-dispatched a cluster tier repos at try lock primary (inl err) w = refl
notes-dispatched a cluster tier repos at try lock primary (inr t) w =
    notes-record_runs a cluster tier repos at try t.id w

notes-locked :
    (a : Answers) (cluster : ℕ) (stanza : String) (tier : Tier) (repos : List ℕ) (at try : ℕ)
    (primary : Node) (held : BusyError ⊎ ℕ) (w : World)
    → (locked a cluster stanza tier repos at try primary held w).1.notes ≡ w.notes
unfolding locked
notes-locked a cluster stanza tier repos at try primary (inl (busy running)) w = refl
notes-locked a cluster stanza tier repos at try primary (inr lock) w =
    notes-dispatched a cluster tier repos at try lock primary _ _

notes-on_primary :
    (a : Answers) (cluster : ℕ) (stanza : String) (tier : Tier) (repos : List ℕ) (at try : ℕ)
    (primary : Option Node) (w : World)
    → (on_primary a cluster stanza tier repos at try primary w).1.notes ≡ w.notes
unfolding on_primary
notes-on_primary a cluster stanza tier repos at try none w = refl
notes-on_primary a cluster stanza tier repos at try (some primary) w =
    notes-locked a cluster stanza tier repos at try primary _ _

notes-with_repos :
    (a : Answers) (cluster : ℕ) (stanza : String) (tier : Tier) (at try : ℕ) (repos : List ℕ)
    (w : World)
    → (with_repos a cluster stanza tier at try repos w).1.notes ≡ w.notes
unfolding with_repos
notes-with_repos a cluster stanza tier at try [] w = refl
notes-with_repos a cluster stanza tier at try (repo ∷ repos) w =
    notes-on_primary a cluster stanza tier (repo ∷ repos) at try (find_primary_node a.env cluster) w

notes-start_round :
    (a : Answers) (cluster : ℕ) (stanza : String) (tier : Tier) (at try : ℕ) (w : World)
    → (start_round a cluster stanza tier at try w).1.notes ≡ w.notes
unfolding start_round
notes-start_round a cluster stanza tier at try w =
    notes-with_repos a cluster stanza tier at try (repo_indexes (targets_or_none a.targets)) w

abbrev pub postponements : World → ℕ
postponements w = count is_postponed w.notes

abbrev pub skips : World → ℕ
skips w = count is_skipped w.notes

-- How the tries end that begin with the try `t`, of which the server lives to see `n`.
abbrev pub EndsFrom : (t n : ℕ) → World → Fired × World → Type 0
EndsFrom t n w (started k round, w') =
    (t ≤ k)
    × (k ≤ backup_start_tries)
    × (postponements w' + t ≡ postponements w + k)
    × (skips w' ≡ skips w)
EndsFrom t n w (given_up err, w') =
    (may_start_later err ≡ false)
    × (postponements w' + t ≤ postponements w + backup_start_tries)
    × (skips w' ≡ skips w)
EndsFrom t n w (skipped_after k err, w') =
    (may_start_later err ≡ true)
    × (k ≡ backup_start_tries)
    × (postponements w' + t ≡ postponements w + backup_start_tries)
    × (skips w' ≡ skips w + 1)
EndsFrom t n w (stopped, w') =
    (postponements w' ≡ postponements w + n) × (n + t ≤ backup_start_tries) × (skips w' ≡ skips w)

-- The next try's end is this one's, with one postponement more.
EndsFrom-later :
    (t n : ℕ) (w v : World) (r : Fired × World)
    → postponements v ≡ postponements w + 1
    → skips v ≡ skips w
    → EndsFrom (t + 1) n v r
    → EndsFrom t (suc n) w r
EndsFrom-later t n w v (started k round, w') p s e = omega (arith, p, s)
EndsFrom-later t n w v (given_up err, w') p s e = (e.0, omega arith, omega arith)
EndsFrom-later t n w v (skipped_after k err, w') p s e = (e.0, e.1, omega arith, omega arith)
EndsFrom-later t n w v (stopped, w') p s e = omega (arith, p, s)

skip_round-notes :
    (a : Answers) (cluster : ℕ) (tier : Tier) (at : ℕ) (err : StartError) (w : World)
    → (postponements (skip_round a cluster tier at err w) ≡ postponements w)
      × (skips (skip_round a cluster tier at err w) ≡ skips w + 1)
unfolding skip_round
skip_round-notes a cluster tier at err w =
    rw (notes-abandon_runs a cluster tier (repo_indexes (targets_or_none a.targets)) at err w)
      (refl, omega arith)

after_failure-ends :
    (a : Answers) (cluster : ℕ) (tier : Tier) (at t n : ℕ) (err : StartError)
    (rest : World → Fired × World) (w : World)
    → t ≤ backup_start_tries
    → (t < backup_start_tries → (v : World) → EndsFrom (t + 1) n v (rest v))
    → EndsFrom t (suc n) w (after_failure a cluster tier at t err rest w)
unfolding after_failure
after_failure-ends a cluster tier at t n err rest w h later =
    by_error (may_start_later err) refl (t == backup_start_tries) refl
  where
    next : World
    next = record w { notes = postponed cluster tier t err ∷ w.notes }

    by_error :
        (b : Bool)
        → may_start_later err ≡ b
        → (last : Bool) → (t == backup_start_tries) ≡ last
        → EndsFrom t (suc n) w (
            if not b
            then (given_up err, w)
            else if last
            then (skipped_after t err, skip_round a cluster tier at err w)
            else rest next)
    by_error false e last f = (e, omega arith, refl)
    by_error true e true f =
        let s = skip_round-notes a cluster tier at err w in
        let k = (==_iff t backup_start_tries).0 f in (e, k, omega arith, s.1)
    by_error true e false f =
        EndsFrom-later t n w next (rest next) (omega arith) refl (later (ground arith) next)

after_try-ends :
    (a : Answers) (cluster : ℕ) (tier : Tier) (at t n : ℕ) (rest : World → Fired × World)
    (r : (StartError ⊎ Round) × World) (w : World)
    → r.1.notes ≡ w.notes
    → t ≤ backup_start_tries
    → (t < backup_start_tries → (v : World) → EndsFrom (t + 1) n v (rest v))
    → EndsFrom t (suc n) w (after_try a cluster tier at t rest r)
unfolding after_try
after_try-ends a cluster tier at t n rest (inr round, v) w same h later =
    (omega arith, h, rw same refl, rw same refl)
after_try-ends a cluster tier at t n rest (inl err, v) w same h later =
    EndsFrom-same t (suc n) v w _ same (after_failure-ends a cluster tier at t n err rest v h later)
  where
    EndsFrom-same :
        (s m : ℕ) (x y : World) (f : Fired × World)
        → x.notes ≡ y.notes
        → EndsFrom s m x f
        → EndsFrom s m y f
    EndsFrom-same s m x y (started k round, z) e i = rw⁻¹ e i
    EndsFrom-same s m x y (given_up err', z) e i = rw⁻¹ e i
    EndsFrom-same s m x y (skipped_after k err', z) e i = rw⁻¹ e i
    EndsFrom-same s m x y (stopped, z) e i = rw⁻¹ e i

fire_from-ends :
    (cluster : ℕ) (stanza : String) (tier : Tier) (at t : ℕ) (answers : List Answers) (w : World)
    → t ≤ backup_start_tries
    → EndsFrom t (length answers) w (fire_from cluster stanza tier at t answers w)
unfolding fire_from
fire_from-ends cluster stanza tier at t [] w h = (omega arith, omega arith, refl)
fire_from-ends cluster stanza tier at t (a ∷ answers) w h =
    after_try-ends a cluster tier at t (length answers)
      (fire_from cluster stanza tier at (t + 1) answers) (start_round a cluster stanza tier at t w)
      w (notes-start_round a cluster stanza tier at t w) h
      (λ more v. fire_from-ends cluster stanza tier at (t + 1) answers v (omega arith))

-- A scheduled round is tried at most three times. If its try k starts it, k is at most three and k - 1
-- postponements were announced; if not, then either it has no storage location, or the server stopped
-- before the third try, a postponement after each try, or all three tries failed, with two
-- postponements and then one announcement that it is skipped, which no other end has.
pub fire_backup-ends :
    (cluster : ℕ) (stanza : String) (tier : Tier) (at : ℕ) (answers : List Answers) (w : World)
    → EndsFrom 1 (length answers) w (fire_backup cluster stanza tier at answers w)
unfolding fire_backup
fire_backup-ends cluster stanza tier at answers w =
    fire_from-ends cluster stanza tier at 1 answers w (omega arith)
