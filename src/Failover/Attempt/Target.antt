-- ===== src/Failover/Attempt/Target.antt =====
-- When a failover starts NetBox, and where.
use netbox_conductor.Base.{
  both-values, ℕ, ◌==◌, ==_iff, Bool, true, false, ◌&&◌, ◌||◌, ◌≡◌, ◌↔◌, refl, sym, ◌∙◌, ap, Option,
  none, some, [], arith, Bool-cases, Option-cases, inl, inr, is_true, str_eq,
}
use netbox_conductor.Nodestate.{Node}
use netbox_conductor.Protocol.{start_netbox}
use netbox_conductor.Hub.{Hub, is_connected}
use netbox_conductor.Failover.State.{Cluster, DispatchError, Env, Trigger, World}
use netbox_conductor.Failover.Events.{emit_ha_event, publish}
use netbox_conductor.Failover.Tasks.Adds.{dispatch_start-has}
use netbox_conductor.Failover.Timers.{on_node_connect}
use netbox_conductor.Failover.Candidate.{best_candidate}
use netbox_conductor.Failover.Attempt.{
  failover_started, failover_prepared, failover_to, no_candidate_found, was_standby, with_candidate,
  with_node, with_cluster, node_blocks, cluster_allows, recovered, attempt_failover,
}
use netbox_conductor.Failover.Attempt.SplitBrain.{failover_prepared-Adds}
use netbox_conductor.Failover.Log.{has, has-Adds_eq, records_start, not_records_start}

-- A failover of the node is due, and `n` is its candidate.
pub record IsDue (e : Env) (node cluster_id : ℕ) (check : Bool) (hub : Hub) (n : Node)
    : Type 0 where
  pub c : Cluster
  pub failed : Node
  pub cluster : e.cluster cluster_id ≡ some c
  pub row : e.node node ≡ some failed
  pub automatic : c.auto_failover ≡ true
  pub mode : str_eq c.mode "active_standby" ≡ true
  pub gone : recovered e node hub ≡ false
  pub was_running : check ≡ true → is_true failed.netbox_running ≡ true
  pub in_service : failed.maintenance_mode ≡ false
  pub was_active : was_standby hub node failed (e.nodes cluster_id) ≡ false
  pub chosen : best_candidate e cluster_id node hub ≡ some (some n)

module _ (e : Env) (node cluster_id : ℕ) (trigger : Trigger) (m : ℕ) where
  started-has :
      (failed candidate : Node) (r : Option DispatchError × World)
      → has (records_start m) (failover_started e node cluster_id trigger failed candidate r).log
        ≡ has (records_start m) r.1.log
  unfolding failover_started publish emit_ha_event on_node_connect
  started-has failed candidate (some err, w) = refl
  started-has failed candidate (none, w) = elim (Bool-cases (is_connected node w.hub)) [
    | inl on ↦ rw on refl
    | inr off ↦ rw off refl
  ]

  failover_to-has :
      (c : Cluster) (failed candidate : Node) (w : World)
      → has (records_start m) (failover_to e node cluster_id trigger c failed candidate w).log ≡ (
          (e.create_ok candidate.id start_netbox && candidate.id == m)
          || has (records_start m) w.log)
  unfolding failover_to
  failover_to-has c failed candidate w =
      started-has failed candidate _
      ∙ dispatch_start-has e m candidate
          (failover_prepared e node cluster_id trigger c failed candidate w)
      ∙ ap (λ b. (e.create_ok candidate.id start_netbox && candidate.id == m) || b)
          (has-Adds_eq (records_start m) (not_records_start m)
            (failover_prepared-Adds e node cluster_id trigger c failed candidate w))

  -- The start of a failover to `n`, if its row can be written, in a world with no start on record.
  abbrev StartsTo : Bool → Hub → Type 0
  StartsTo check hub =
      (n : Node) × IsDue e node cluster_id check hub n
      × (e.create_ok n.id start_netbox ≡ true)
      × (n.id ≡ m)

  no_candidate-has :
      (failed : Node) (w : World)
      → has (records_start m) (no_candidate_found e node cluster_id trigger failed w).log
        ≡ has (records_start m) w.log
  unfolding no_candidate_found publish emit_ha_event
  no_candidate-has failed w = refl

  -- The candidate, if the start that was recorded is the one of this failover.
  with_candidate_start :
      (c : Cluster) (failed : Node) (o : Option (Option Node)) (w : World)
      → has (records_start m) w.log ≡ false
      → has (records_start m) (with_candidate e node cluster_id trigger c failed o w).log ≡ true
      → (n : Node) × (o ≡ some (some n)) × (e.create_ok n.id start_netbox ≡ true) × (n.id ≡ m)
  unfolding with_candidate
  with_candidate_start c failed none w none_yet h = absurd (both-values _ h none_yet)
  with_candidate_start c failed (some none) w none_yet h =
      absurd (both-values _ (sym (no_candidate-has failed w) ∙ h) none_yet)
  with_candidate_start c failed (some (some n)) w none_yet h =
      let started = sym (failover_to-has c failed n w) ∙ h in (n, refl, ground arith, ground arith)

  module _ (check : Bool) (w : World) (none_yet : has (records_start m) w.log ≡ false) where
    with_node_start :
        (c : Cluster) (failed : Node)
        → has (records_start m) (with_node e node cluster_id trigger check c (some failed) w).log
          ≡ true
        → (node_blocks e node cluster_id check w.hub failed ≡ false)
          × ((n : Node) × (best_candidate e cluster_id node w.hub ≡ some (some n))
              × (e.create_ok n.id start_netbox ≡ true)
              × (n.id ≡ m))
    unfolding with_node
    with_node_start c failed h =
        elim (Bool-cases (node_blocks e node cluster_id check w.hub failed)) [
          | inl blocked ↦ absurd (both-values _ (rw blocked at h) none_yet)
          | inr clear ↦ (clear, with_candidate_start c failed _ w none_yet (rw clear at h))
        ]

    due :
        (c : Cluster) (failed n : Node)
        → e.cluster cluster_id ≡ some c
        → e.node node ≡ some failed
        → cluster_allows c ≡ true
        → recovered e node w.hub ≡ false
        → node_blocks e node cluster_id check w.hub failed ≡ false
        → best_candidate e cluster_id node w.hub ≡ some (some n)
        → IsDue e node cluster_id check w.hub n
    unfolding cluster_allows node_blocks
    due c failed n hc row allows gone clear chosen = record {
      c = c;
      failed = failed;
      cluster = hc;
      row = row;
      automatic = ground arith;
      mode = ground arith;
      gone = gone;
      was_running = ground arith;
      in_service = ground arith;
      was_active = ground arith;
      chosen = chosen;
    }

    with_cluster_start :
        recovered e node w.hub ≡ false
        → has
            (records_start m)
            (with_cluster e node cluster_id trigger check (e.cluster cluster_id) w).log
          ≡ true
        → StartsTo check w.hub
    unfolding with_cluster
    with_cluster_start gone h = elim (Option-cases (e.cluster cluster_id)) [
      | inl hc ↦ absurd (both-values _ (rw hc at h) none_yet)
      | inr (c, hc) ↦ elim (Bool-cases (cluster_allows c)) [
        | inr off ↦ absurd (both-values _ (rw (hc, off) at h) none_yet)
        | inl on ↦ elim (Option-cases (e.node node)) [
          | inl row ↦ absurd (both-values _ (rw (hc, on, row, with_node) at h) none_yet)
          | inr (failed, row) ↦
              let (clear, start) = with_node_start c failed (rw (hc, on, row) at h) in
              let (n, chosen, ok, same) = start in
              (n, due c failed n hc row on gone clear chosen, ok, same)
        ]
      ]
    ]

    due_allows : {n : Node} (d : IsDue e node cluster_id check w.hub n) → cluster_allows d.c ≡ true
    unfolding cluster_allows
    due_allows d = rw (d.automatic, d.mode) refl

    due_clear :
        {n : Node} (d : IsDue e node cluster_id check w.hub n)
        → node_blocks e node cluster_id check w.hub d.failed ≡ false
    unfolding node_blocks
    due_clear d = ground (arith, d.was_running, d.in_service, d.was_active)

    starts :
        (n : Node)
        → IsDue e node cluster_id check w.hub n
        → e.create_ok n.id start_netbox ≡ true
        → n.id ≡ m
        → has
            (records_start m)
            (with_cluster e node cluster_id trigger check (e.cluster cluster_id) w).log
          ≡ true
    unfolding with_cluster with_node with_candidate
    starts n d ok same =
        rw (d.cluster, due_allows d, d.row, due_clear d, d.chosen)
          (failover_to-has d.c d.failed n w ∙ rw (ok, (==_iff n.id m).1 same) refl)

  -- A failover whose log is empty at first records a start of NetBox on the node `m` if and only if the
  -- failover is due, `m` is the best candidate, and the task can be written. It is due when the cluster
  -- asks for automatic failover in the mode active_standby, the failed node has no recent session that
  -- runs NetBox, it ran NetBox before if that is checked, it is not in maintenance, and no connected node of
  -- a higher priority runs NetBox already.
  pub attempt_failover-start_iff :
      (check : Bool) (w : World)
      → w.log ≡ []
      → (has (records_start m) (attempt_failover e node cluster_id trigger check w).log ≡ true)
        ↔ StartsTo check w.hub
  unfolding attempt_failover
  attempt_failover-start_iff check w empty =
      let none_yet : has (records_start m) w.log ≡ false = rw empty refl in
      (
        λ h. elim (Bool-cases (recovered e node w.hub)) [
          | inl back ↦ absurd (both-values _ (rw back at h) none_yet)
          | inr gone ↦ with_cluster_start check _ none_yet gone (rw gone at h)
        ],
        λ (n, d, ok, same). rw d.gone (starts check _ none_yet n d ok same),
      )
