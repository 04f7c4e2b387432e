-- ===== src/Backups/Sync/Safe.antt =====
-- What a sync of backups starts, and whom it leaves out.
use netbox_conductor.Base.{
  ◌+◌, String, Bool, true, false, ◌&&◌, ◌||◌, not, ◌≡◌, ◌≢◌, refl, sym, ◌∙◌, Option, none, some,
  List, [], ◌∷◌, ◌++◌, ◌==◌, str_eq, if◌then◌else◌, All, In, count, length, inl, inr, Bool-cases,
  some-inj, some-none, arith,
}
use netbox_conductor.Nodestate.{Node}
use netbox_conductor.TaskWatch.{contains}
use netbox_conductor.Backups.{BackupTarget}
use netbox_conductor.Backups.Settling.{Settling, settled}
use netbox_conductor.Backups.Sync.{
  BackupJob, Effect, node_skipped, job_started, is_connected, reports_primary, sole_primary, Choice,
  passed_over, skip, take, choose, chosen, sync_nodes, job_effects, sync_target, sync_targets,
  from_primary, is_empty, sync_backups_of,
}

-- A node that may receive a location's backups from the primary.
pub record IsDest (s : Settling) (primary : Node) (t : BackupTarget) (n : Node) : Type 0 where
  pub other : (n.id == primary.id) ≡ false
  pub listed : contains t.sync_to_nodes n.id ≡ true
  pub source_settled : settled primary.id s ≡ true
  pub online : is_connected n ≡ true
  pub steady : settled n.id s ≡ true

-- Every job of the effects satisfies the predicate.
abbrev pub JobsSatisfy : (BackupJob → Type 0) → List Effect → Type 0
JobsSatisfy P [] = Unit
JobsSatisfy P (node_skipped t n why ∷ es) = JobsSatisfy P es
JobsSatisfy P (job_started j ∷ es) = P j × JobsSatisfy P es

JobsSatisfy-append :
    (P : BackupJob → Type 0) (xs ys : List Effect)
    → JobsSatisfy P xs
    → JobsSatisfy P ys
    → JobsSatisfy P (xs ++ ys)
JobsSatisfy-append P [] ys p q = q
JobsSatisfy-append P (node_skipped t n why ∷ xs) ys p q = JobsSatisfy-append P xs ys p q
JobsSatisfy-append P (job_started j ∷ xs) ys p q = (p.0, JobsSatisfy-append P xs ys p.1 q)

choose-take :
    (s : Settling) (primary : Node) (t : BackupTarget) (n : Node)
    → choose s primary t n ≡ take
    → IsDest s primary t n
unfolding choose
choose-take s primary t n e = record {
  other = ground arith;
  listed = ground arith;
  source_settled = ground arith;
  online = ground arith;
  steady = ground arith;
}

dests-IsDest :
    (s : Settling) (primary : Node) (t : BackupTarget) (ns : List Node)
    → All (IsDest s primary t) (sync_nodes s primary t ns).1
unfolding sync_nodes chosen
dests-IsDest s primary t [] = tt
dests-IsDest s primary t (n ∷ ns) =
    by_choice (choose s primary t n) refl (dests-IsDest s primary t ns)
  where
    by_choice :
        (c : Choice)
        → choose s primary t n ≡ c
        → All (IsDest s primary t) (sync_nodes s primary t ns).1
        → All (IsDest s primary t) (chosen t n c (sync_nodes s primary t ns)).1
    by_choice passed_over e a = a
    by_choice (skip why) e a = a
    by_choice take e a = (choose-take s primary t n e, a)

abbrev pub listed_other : Node → BackupTarget → Node → Bool
listed_other primary t n = not (n.id == primary.id) && contains t.sync_to_nodes n.id

-- Every node that the location lists, other than the primary, is a destination or is named in an
-- event, and is so once.
pub sync_nodes-accounts :
    (s : Settling) (primary : Node) (t : BackupTarget) (ns : List Node)
    → length (sync_nodes s primary t ns).0 + length (sync_nodes s primary t ns).1
      ≡ count (listed_other primary t) ns
unfolding sync_nodes chosen choose
sync_nodes-accounts s primary t [] = omega arith
sync_nodes-accounts s primary t (n ∷ ns) = ground (arith, sync_nodes-accounts s primary t ns)

no_jobs :
    (P : BackupJob → Type 0) (s : Settling) (primary : Node) (t : BackupTarget) (ns : List Node)
    → JobsSatisfy P (sync_nodes s primary t ns).0
unfolding sync_nodes chosen
no_jobs P s primary t [] = tt
no_jobs P s primary t (n ∷ ns) = by_choice (choose s primary t n) (no_jobs P s primary t ns)
  where
    by_choice :
        (c : Choice)
        → JobsSatisfy P (sync_nodes s primary t ns).0
        → JobsSatisfy P (chosen t n c (sync_nodes s primary t ns)).0
    by_choice passed_over a = a
    by_choice (skip why) a = a
    by_choice take a = a

-- The only node that reports to be the primary, among those of the cluster.
pub record IsSole (ns : List Node) (p : Node) : Type 0 where
  pub reports : reports_primary p ≡ true
  pub alone : count reports_primary ns ≡ 1
  pub there : In p ns

sole_primary-found :
    (q p : Node) (ns : List Node)
    → sole_primary (some q) ns ≡ some p
    → (count reports_primary ns ≡ 0) × (q ≡ p)
unfolding sole_primary
sole_primary-found q p [] e = (refl, some-inj e)
sole_primary-found q p (n ∷ ns) e = elim (Bool-cases (reports_primary n)) [
  | inl r ↦ absurd (some-none (sym e ∙ rw r refl))
  | inr r ↦ rw r (sole_primary-found q p ns (rw r at e))
]

sole_primary-IsSole : (p : Node) (ns : List Node) → sole_primary none ns ≡ some p → IsSole ns p
unfolding sole_primary
sole_primary-IsSole p [] e = absurd (some-none (sym e))
sole_primary-IsSole p (n ∷ ns) e = elim (Bool-cases (reports_primary n)) [
  | inl r ↦
      let (zero_left, same) = sole_primary-found n p ns (rw r at e) in
      record { reports = rw⁻¹ same r; alone = rw (r, zero_left) refl; there = inl same }
  | inr r ↦
      let i = sole_primary-IsSole p ns (rw r at e) in
      record { reports = i.reports; alone = rw r i.alone; there = inr i.there }
]

-- A job that may be started over the cluster's nodes.
pub record IsSafe (s : Settling) (ns : List Node) (pick : BackupTarget → Bool) (j : BackupJob)
    : Type 0 where
  pub sole : IsSole ns j.source
  pub on_disk : str_eq j.target.target_type "posix" ≡ true
  pub picked : pick j.target ≡ true
  pub dests_allowed : All (IsDest s j.source j.target) j.dests
  pub some_dest : j.dests ≢ []

module _ (s : Settling) (stanza : String) (ns : List Node) (pick : BackupTarget → Bool) (p : Node)
    (sole : IsSole ns p) where
  job_effects-IsSafe :
      (t : BackupTarget) (dests : List Node)
      → str_eq t.target_type "posix" ≡ true
      → pick t ≡ true
      → All (IsDest s p t) dests
      → JobsSatisfy (IsSafe s ns pick) (job_effects t stanza p dests)
  unfolding job_effects
  job_effects-IsSafe t [] on k a = tt
  job_effects-IsSafe t (d ∷ ds) on k a =
      (record { sole = sole; on_disk = on; picked = k; dests_allowed = a; some_dest = λ e. cc }, tt)

  sync_target-IsSafe :
      (t : BackupTarget) → JobsSatisfy (IsSafe s ns pick) (sync_target s stanza p ns pick t)
  unfolding sync_target
  sync_target-IsSafe t =
      by_tests (str_eq t.target_type "posix") refl (is_empty t.sync_to_nodes) (pick t) refl
    where
      jobs : List Effect
      jobs = (sync_nodes s p t ns).0 ++ job_effects t stanza p (sync_nodes s p t ns).1

      by_tests :
          (a : Bool)
          → str_eq t.target_type "posix" ≡ a
          → (b : Bool) → (c : Bool) → pick t ≡ c
          → JobsSatisfy (IsSafe s ns pick) (if not a || (b || not c) then [] else jobs)
      by_tests false e b c f = tt
      by_tests true e true c f = tt
      by_tests true e false false f = tt
      by_tests true e false true f =
          JobsSatisfy-append (IsSafe s ns pick) (sync_nodes s p t ns).0
            (job_effects t stanza p (sync_nodes s p t ns).1) (no_jobs (IsSafe s ns pick) s p t ns)
            (job_effects-IsSafe t (sync_nodes s p t ns).1 e f (dests-IsDest s p t ns))

  sync_targets-IsSafe :
      (ts : List BackupTarget) → JobsSatisfy (IsSafe s ns pick) (sync_targets s stanza p ns pick ts)
  unfolding sync_targets
  sync_targets-IsSafe [] = tt
  sync_targets-IsSafe (t ∷ ts) =
      JobsSatisfy-append (IsSafe s ns pick) (sync_target s stanza p ns pick t)
        (sync_targets s stanza p ns pick ts) (sync_target-IsSafe t) (sync_targets-IsSafe ts)

-- Every sync of backups that is started has as its source the only node of the cluster that reports
-- to be the connected primary; it is of a location on a local disk that was asked for; and it has at
-- least one destination, each a connected node other than the source that the location lists, the
-- source and the destination both being settled.
pub sync_backups_of-IsSafe :
    (s : Settling) (stanza : String) (ns : List Node) (targets : Option (List BackupTarget))
    (pick : BackupTarget → Bool)
    → JobsSatisfy (IsSafe s ns pick) (sync_backups_of s stanza (some ns) targets pick)
unfolding sync_backups_of from_primary
sync_backups_of-IsSafe s stanza ns targets pick =
    by_primary targets (sole_primary none ns) (λ p e. sole_primary-IsSole p ns e)
  where
    by_primary :
        (ts : Option (List BackupTarget)) (o : Option Node)
        → ((p : Node) → o ≡ some p → IsSole ns p)
        → JobsSatisfy (IsSafe s ns pick) (from_primary s stanza ns pick ts o)
    by_primary ts none f = tt
    by_primary none (some p) f = tt
    by_primary (some l) (some p) f = sync_targets-IsSafe s stanza ns pick p (f p refl) l
