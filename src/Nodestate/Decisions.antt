-- ===== src/Nodestate/Decisions.antt =====
-- What nodestate.go decides: a node's health, the primary DB node, a cluster's health.
use netbox_conductor.Base.{
  ℕ, ◌+◌, ◌<◌, String, Bool, true, false, ◌&&◌, ◌||◌, not, Option, none, some, List, [], ◌∷◌, ltb,
  leb, str_eq, if◌then◌else◌, is_true, ◌≡◌, ◌↔◌, ◌⊎◌, arith, count, keep, map, ◌∙◌, ap,
}
use netbox_conductor.Nodestate.{
  Node, compute_node_health, is_primary_role, primary_db_node, primary_db_node_from, is_db_role,
  extract_patroni_role, aggregate_cluster_health, aggregate_from, Health, healthy, offline, State,
  is_healthy, is_active, is_standby, all_healthy, degraded, down, ClusterHealth,
}

-- A node is offline exactly when its agent is not connected, whatever else is known of it.
pub offline_iff :
    (role status : String) (nb rq : Option Bool) (patroni : String) (configured : Bool)
    → (compute_node_health role status nb rq patroni configured ≡ offline)
      ↔ (str_eq status "connected" ≡ false)
unfolding compute_node_health
offline_iff role status nb rq patroni configured = ground arith

abbrev pub HyperconvergedRules : Option Bool → Option Bool → String → Bool → Type 0
HyperconvergedRules nb rq patroni configured =
    (is_true nb ≡ true
      → (is_true rq ≡ true)
        × (configured ≡ true → (str_eq patroni "" ≡ true) ⊎ (is_primary_role patroni ≡ true)))
    × (is_true nb ≡ false
        → configured ≡ true
        → (str_eq patroni "" ≡ true) ⊎ (is_primary_role patroni ≡ false))

-- A connected hyperconverged node counts as healthy exactly in two cases: it runs NetBox and the RQ
-- worker and, where Patroni is configured, reports to be primary or master, or no role at all; or it
-- does not run NetBox and, where Patroni is configured, does not report to be primary or master, or reports no role.
pub hyperconverged_healthy_iff :
    (nb rq : Option Bool) (patroni : String) (configured : Bool)
    → (compute_node_health "hyperconverged" "connected" nb rq patroni configured ≡ healthy)
      ↔ HyperconvergedRules nb rq patroni configured
unfolding compute_node_health
hyperconverged_healthy_iff nb rq patroni configured = ground arith

-- A row of the cluster's table: role, state and health of one node.
abbrev pub Row : Type 0
Row = record { role : String; state : State; health : Health }

abbrev healthy_active : Row → Bool
healthy_active r = not (str_eq r.role "db_only") && (is_active r.state && is_healthy r.health)

abbrev failing_standby : Row → Bool
failing_standby r =
    not (str_eq r.role "db_only") && (is_standby r.state && not (is_healthy r.health))

abbrev verdict : ℕ → ℕ → ClusterHealth
verdict actives failing =
    if leb actives 0 then down else if ltb 0 failing then degraded else all_healthy

abbrev app_standby : Row → Bool
app_standby r = not (str_eq r.role "db_only") && is_standby r.state

aggregate_rows : Bool → Bool → ℕ → List Row → Option ClusterHealth
aggregate_rows seen ok n rows =
    aggregate_from seen ok n (map (λ r. r.health) rows) (map (λ r. r.state) rows)
      (map (λ r. r.role) rows)

aggregate_rows-cons :
    (seen ok : Bool) (n : ℕ) (r : Row) (rows : List Row)
    → aggregate_rows seen ok n (r ∷ rows)
      ≡ aggregate_rows
          (seen || healthy_active r)
          (ok && not (failing_standby r))
          (if app_standby r then n + 1 else n)
          rows
unfolding aggregate_rows aggregate_from
aggregate_rows-cons true true n r rows = ground arith
aggregate_rows-cons true false n r rows = ground arith
aggregate_rows-cons false true n r rows = ground arith
aggregate_rows-cons false false n r rows = ground arith

abbrev score : Bool → ℕ
score b = if b then 1 else 0

-- A flag or-ed into a verdict counts as one more row.
verdict_step :
    (seen ok b c : Bool) (x y a f : ℕ)
    → x ≡ score b + a
    → y ≡ score c + f
    → verdict (score (seen || b) + a) (score (not (ok && not c)) + f)
      ≡ verdict (score seen + x) (score (not ok) + y)
verdict_step seen ok b c x y a f p q = ground arith

count_cons :
    (p : Row → Bool) (r : Row) (rows : List Row) → count p (r ∷ rows) ≡ score (p r) + count p rows
count_cons p r rows = ground arith

aggregate_rows-nil :
    (seen ok : Bool) (n : ℕ)
    → (ok ≡ false → 0 < n)
    → aggregate_rows seen ok n [] ≡ some (verdict (score seen + 0) (score (not ok) + 0))
unfolding aggregate_rows aggregate_from
aggregate_rows-nil seen ok n h = ground arith

standby_counted :
    (ok : Bool) (n : ℕ) (r : Row)
    → (ok ≡ false → 0 < n)
    → (ok && not (failing_standby r)) ≡ false
    → 0 < (if app_standby r then n + 1 else n)
standby_counted ok n r h e = ground arith

aggregate_rows_lem :
    (seen ok : Bool) (n : ℕ) (rows : List Row)
    → (ok ≡ false → 0 < n)
    → aggregate_rows seen ok n rows
      ≡ some (
          verdict
            (score seen + count healthy_active rows)
            (score (not ok) + count failing_standby rows))
aggregate_rows_lem seen ok n [] h = aggregate_rows-nil seen ok n h
aggregate_rows_lem seen ok n (r ∷ rows) h =
    aggregate_rows-cons seen ok n r rows
    ∙ aggregate_rows_lem (seen || healthy_active r) (ok && not (failing_standby r))
        (if app_standby r then n + 1 else n) rows (standby_counted ok n r h)
    ∙ ap some (
        verdict_step seen ok (healthy_active r) (failing_standby r) _ _ _ _
          (count_cons healthy_active r rows) (count_cons failing_standby r rows))

-- Of nodes given by role, state and health, those with the role db_only do not count. The cluster is down
-- if no active node is healthy; else degraded if some standby is not healthy; else healthy. The lists of the
-- three have one length here, so that the code never panics.
pub aggregate-verdict :
    (rows : List Row)
    → aggregate_cluster_health
        (map (λ r. r.health) rows)
        (map (λ r. r.state) rows)
        (map (λ r. r.role) rows)
      ≡ some (verdict (count healthy_active rows) (count failing_standby rows))
unfolding aggregate_cluster_health aggregate_rows
aggregate-verdict rows = ground (arith, aggregate_rows_lem false true 0 rows)

abbrev connected_db : Node → Bool
connected_db n = is_db_role n.role && str_eq n.agent_status "connected"

abbrev reports_primary : Node → Bool
reports_primary n = connected_db n && str_eq (extract_patroni_role n.patroni_state) "primary"

abbrev first {ℓ} : {A : Type ℓ} → List A → Option A
first [] = none
first (x ∷ xs) = some x

abbrev or_else {ℓ} : {A : Type ℓ} → Option A → Option A → Option A
or_else none b = b
or_else (some a) b = some a

primary_db_node_from_lem :
    (best : Option Node) (ns : List Node)
    → primary_db_node_from best ns
      ≡ or_else (first (keep reports_primary ns)) (or_else best (first (keep connected_db ns)))
unfolding primary_db_node_from
primary_db_node_from_lem best [] = ground arith
primary_db_node_from_lem best (n ∷ ns) =
    ground (arith, primary_db_node_from_lem best ns, primary_db_node_from_lem (some n) ns)

-- The primary database node is the first connected database node that reports the role primary, and if there
-- is none, the first connected database node.
pub primary_db_node_lem :
    (ns : List Node)
    → primary_db_node ns ≡ or_else (first (keep reports_primary ns)) (first (keep connected_db ns))
unfolding primary_db_node
primary_db_node_lem ns = primary_db_node_from_lem none ns
