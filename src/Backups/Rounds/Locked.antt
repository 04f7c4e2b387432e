-- ===== src/Backups/Rounds/Locked.antt =====
-- A round holds its cluster's lock while it runs, and at no other time.
use mathlib.Core.Path.{subst}
use netbox_conductor.Base.{
  ℕ, String, ◌≡◌, refl, sym, ap, ◌∙◌, if◌then◌else◌, ◌⊎◌, inl, inr, Option, none, some, List, [],
  ◌∷◌, ◌==◌, arith,
}
use netbox_conductor.Nodestate.{Node}
use netbox_conductor.Failover.State.{DispatchError}
use netbox_conductor.OpLock.{Locks, BusyError, busy, try_lock}
use netbox_conductor.OpLock.Exclusion.{Call, run, IsExclusive, try_lock-IsExclusive}
use netbox_conductor.OpLock.Kept.{IsKept, Spares, run-IsKept, unlock-kept}
use netbox_conductor.OpLock.Held.{SameRunning, IsHeld, try_lock-IsHeld, try_lock-busy, unlock-held}
use netbox_conductor.TaskWatch.{Task}
use netbox_conductor.Backups.{Tier}
use netbox_conductor.Backups.Runs.{StartError, BackupResult}
use netbox_conductor.Backups.Starts.{
  Answers, World, Round, start_round, with_repos, on_primary, locked, dispatched, record_run,
  record_runs, find_primary_node, repo_indexes, targets_or_none,
}
use netbox_conductor.Backups.Rounds.{end_round}

locks-record_runs :
    (a : Answers) (cluster : ℕ) (tier : Tier) (repos : List ℕ) (at try task : ℕ) (w : World)
    → (record_runs a cluster tier repos at try task w).locks ≡ w.locks
unfolding record_runs record_run
locks-record_runs a cluster tier [] at try task w = refl
locks-record_runs a cluster tier (repo ∷ repos) at try task w =
    locks-record_runs a cluster tier repos at try task
      (record_run a cluster tier repo at try task w)
    ∙ one
  where
    one : (record_run a cluster tier repo at try task w).locks ≡ w.locks
    one = ground arith

-- The result of a try: either no lock is kept, or the round keeps its cluster's, which it has taken.
abbrev pub Holds : (cluster : ℕ) → Locks → (StartError ⊎ Round) × World → Type 0
Holds cluster l (inl err, w) = SameRunning l w.locks
Holds cluster l (inr round, w) = try_lock cluster "a backup" l ≡ (inr round.lock, w.locks)

dispatched-Holds :
    (a : Answers) (cluster : ℕ) (tier : Tier) (repos : List ℕ) (at try lock : ℕ) (primary : Node)
    (t : DispatchError ⊎ Task) (l : Locks) (w : World)
    → try_lock cluster "a backup" l ≡ (inr lock, w.locks)
    → Holds cluster l (dispatched a cluster tier repos at try lock primary t w)
unfolding dispatched
dispatched-Holds a cluster tier repos at try lock primary (inl err) l w e =
    let held = try_lock-IsHeld cluster "a backup" l lock (ap (λ p. p.0) e) in
    unlock-held cluster "a backup" lock l w.locks
      (subst (IsHeld cluster "a backup" lock l) (ap (λ p. p.1) e) held)
dispatched-Holds a cluster tier repos at try lock primary (inr t) l w e =
    rw (locks-record_runs a cluster tier repos at try t.id w) e

locked-Holds :
    (a : Answers) (cluster : ℕ) (stanza : String) (tier : Tier) (repos : List ℕ) (at try : ℕ)
    (primary : Node) (held : BusyError ⊎ ℕ) (l : Locks) (w : World)
    → try_lock cluster "a backup" l ≡ (held, w.locks)
    → Holds cluster l (locked a cluster stanza tier repos at try primary held w)
unfolding locked
locked-Holds a cluster stanza tier repos at try primary (inl (busy running)) l w e =
    let same = try_lock-busy cluster "a backup" l (busy running) (ap (λ p. p.0) e) in
    rw (sym (ap (λ p. p.1) e) ∙ same) (λ c. refl)
locked-Holds a cluster stanza tier repos at try primary (inr lock) l w e =
    dispatched-Holds a cluster tier repos at try lock primary _ l _ e

on_primary-Holds :
    (a : Answers) (cluster : ℕ) (stanza : String) (tier : Tier) (repos : List ℕ) (at try : ℕ)
    (primary : Option Node) (w : World)
    → Holds cluster w.locks (on_primary a cluster stanza tier repos at try primary w)
unfolding on_primary
on_primary-Holds a cluster stanza tier repos at try none w = λ c. refl
on_primary-Holds a cluster stanza tier repos at try (some primary) w =
    locked-Holds a cluster stanza tier repos at try primary (try_lock cluster "a backup" w.locks).0
      w.locks (record w { locks = (try_lock cluster "a backup" w.locks).1 }) refl

with_repos-Holds :
    (a : Answers) (cluster : ℕ) (stanza : String) (tier : Tier) (at try : ℕ) (repos : List ℕ)
    (w : World)
    → Holds cluster w.locks (with_repos a cluster stanza tier at try repos w)
unfolding with_repos
with_repos-Holds a cluster stanza tier at try [] w = λ c. refl
with_repos-Holds a cluster stanza tier at try (repo ∷ repos) w =
    on_primary-Holds a cluster stanza tier (repo ∷ repos) at try (find_primary_node a.env cluster) w

-- A try that fails leaves every cluster locked or free as it was. One that starts a round has taken its
-- cluster's lock.
start_round-Holds :
    (a : Answers) (cluster : ℕ) (stanza : String) (tier : Tier) (at try : ℕ) (w : World)
    → Holds cluster w.locks (start_round a cluster stanza tier at try w)
unfolding start_round
start_round-Holds a cluster stanza tier at try w =
    with_repos-Holds a cluster stanza tier at try (repo_indexes (targets_or_none a.targets)) w

-- From locks that calls have brought about, a try that starts a round found its cluster free. While the
-- round runs, whatever is locked and unlocked meanwhile except by the round's own handle, the cluster is
-- locked by the backup. The end of the round, with whatever results, frees the cluster and no other.
pub end_round-start_round :
    (a : Answers) (cluster : ℕ) (stanza : String) (tier : Tier) (at try c : ℕ) (w w' : World)
    (round : Round) (results : List BackupResult) (meanwhile : List Call)
    → IsExclusive w.locks
    → start_round a cluster stanza tier at try w ≡ (inr round, w')
    → Spares round.lock meanwhile
    → let running = record w' { locks = run meanwhile w'.locks } in
      (w.locks.running cluster ≡ none)
      × (running.locks.running cluster ≡ some "a backup")
      × ((end_round round results running).1.locks.running c
          ≡ (if cluster == c then none else running.locks.running c))
unfolding end_round
end_round-start_round a cluster stanza tier at try c w w' round results meanwhile i e s =
    let taken : try_lock cluster "a backup" w.locks ≡ (inr round.lock, w'.locks) =
      subst (Holds cluster w.locks) e (start_round-Holds a cluster stanza tier at try w) in
    let held = try_lock-IsHeld cluster "a backup" w.locks round.lock (ap (λ p. p.0) taken) in
    let locks : (try_lock cluster "a backup" w.locks).1 ≡ w'.locks = ap (λ p. p.1) taken in
    let began : IsKept round.lock cluster "a backup" (try_lock cluster "a backup" w.locks).1 =
      record {
        exclusive = try_lock-IsExclusive cluster "a backup" w.locks i;
        holds = held.handle;
        running = held.held;
      } in
    let kept =
      run-IsKept round.lock cluster "a backup" meanwhile w'.locks s
        (subst (IsKept round.lock cluster "a backup") locks began) in
    (
      held.was_free,
      kept.running,
      unlock-kept round.lock cluster c "a backup" (run meanwhile w'.locks) kept,
    )
