-- ===== src/Failover/Timers/Signals.antt =====
-- The timers under any sequence of the signals that arm and cancel them.
use netbox_conductor.Base.{
  ℕ, Map, ap, ◌-◌, Bool, true, false, ◌≡◌, ◌⊎◌, refl, Option, none, some, List, [], ◌∷◌, arith, ltb,
  Bool-cases, is_some, inl, inr, put, delete, ◌==◌,
}
use netbox_conductor.Failover.State.{
  Env, Trigger, Job, attempt_failover_job, attempt_failback_job, Timer, World,
}
use netbox_conductor.Failover.Timers.{
  arm_failover, on_node_disconnect, cancel_timers, arm_failback, on_node_connect, on_netbox_stopped,
  on_netbox_started, startup_suppress_window,
}

pub data Signal : Type 0 where
  node_disconnect node_connect netbox_stopped : (e : Env) (node cluster : ℕ) → Signal
  netbox_started : (node : ℕ) → Signal

abbrev pub receive : Signal → World → World
receive (node_disconnect e node cluster) w = on_node_disconnect e node cluster w
receive (node_connect e node cluster) w = on_node_connect e node cluster w
receive (netbox_stopped e node cluster) w = on_netbox_stopped e node cluster w
receive (netbox_started node) w = on_netbox_started node w

abbrev pub receive_all : List Signal → World → World
receive_all [] w = w
receive_all (s ∷ ss) w = receive_all ss (receive s w)

abbrev pub FailsOver : ℕ → Job → Type 0
FailsOver n (attempt_failover_job node cluster check trigger) = n ≡ node
FailsOver n (attempt_failback_job node cluster) = ⊥

abbrev pub FailsBack : ℕ → Job → Type 0
FailsBack n (attempt_failover_job node cluster check trigger) = ⊥
FailsBack n (attempt_failback_job node cluster) = n ≡ node

-- A node has at most one timer: one that fails over from it, or one that fails back to it.
pub record IsTimed (w : World) : Type 0 where
  pub apart : (n : ℕ) → (w.fail_timers n ≡ none) ⊎ (w.failback_timers n ≡ none)
  pub over : (n : ℕ) (t : Timer) → w.fail_timers n ≡ some t → FailsOver n t.job
  pub back : (n : ℕ) (t : Timer) → w.failback_timers n ≡ some t → FailsBack n t.job

module _ (node : ℕ) where
  -- A table that has the timer of one node set, and one that has it deleted.
  apart-put :
      (n : ℕ) (t : Timer) (ts us : Map Timer)
      → (ts n ≡ none) ⊎ (us n ≡ none)
      → (put node t ts n ≡ none) ⊎ (delete node us n ≡ none)
  apart-put n t ts us h = elim (Bool-cases (node == n)) [ inl e ↦ rw e (inr refl) | inr e ↦ rw e h ]

  apart-swap :
      (n : ℕ) (t : Timer) (ts us : Map Timer)
      → (us n ≡ none) ⊎ (ts n ≡ none)
      → (delete node us n ≡ none) ⊎ (put node t (delete node ts) n ≡ none)
  apart-swap n t ts us h = elim (Bool-cases (node == n)) [
    | inl e ↦ rw e (inl refl)
    | inr e ↦ rw e h
  ]

  abbrev job_of : Timer → Option Timer → Job
  job_of t none = t.job
  job_of t (some u) = u.job

  put-job :
      (P : ℕ → Job → Type 0) (n : ℕ) (t u : Timer) (ts : Map Timer)
      → P node t.job
      → (ts n ≡ some u → P n u.job)
      → put node t ts n ≡ some u
      → P n u.job
  put-job P n t u ts here there e = elim (Bool-cases (node == n)) [
    | inl s ↦ job_at P (is_same n s) (rw s at e) here
    | inr s ↦ there (rw s at e)
  ]
    where
      is_same : (n : ℕ) → (node == n) ≡ true → node ≡ n
      is_same n s = ground arith

      job_at :
          (P : ℕ → Job → Type 0) {n : ℕ} {t u : Timer}
          → node ≡ n
          → some t ≡ some u
          → P node t.job
          → P n u.job
      job_at P e f h = rw (e, ap (job_of t) f) at h

  delete-job :
      (P : ℕ → Job → Type 0) (n : ℕ) (u : Timer) (ts : Map Timer)
      → (ts n ≡ some u → P n u.job)
      → delete node ts n ≡ some u
      → P n u.job
  delete-job P n u ts there e = elim (Bool-cases (node == n)) [
    | inl s ↦ absurd (none_some (rw s at e))
    | inr s ↦ there (rw s at e)
  ]
    where
      none_some : {u : Timer} → none ≡ some u → ⊥
      none_some e = ground arith

arm_failover-IsTimed :
    (due node cluster : ℕ) (check : Bool) (trigger : Trigger) (w : World)
    → IsTimed w
    → IsTimed (arm_failover due node cluster check trigger w)
unfolding arm_failover
arm_failover-IsTimed due node cluster check trigger w i = record {
  apart = λ n. apart-put node n _ w.fail_timers w.failback_timers (i.apart n);
  over = λ n t e. put-job node FailsOver n _ t w.fail_timers refl (i.over n t) e;
  back = λ n t e. delete-job node FailsBack n t w.failback_timers (i.back n t) e;
}

arm_failback-IsTimed :
    (due node cluster : ℕ) (w : World)
    → IsTimed w
    → IsTimed (arm_failback due node cluster (cancel_timers node w))
unfolding arm_failback cancel_timers
arm_failback-IsTimed due node cluster w i = record {
  apart = λ n. apart-swap node n _ w.failback_timers w.fail_timers (i.apart n);
  over = λ n t e. delete-job node FailsOver n t w.fail_timers (i.over n t) e;
  back = λ n t e.
      put-job node FailsBack n _ t (delete node w.failback_timers) refl
        (delete-job node FailsBack n t w.failback_timers (i.back n t)) e;
}

started-IsTimed : (node : ℕ) (w : World) → IsTimed w → IsTimed (on_netbox_started node w)
unfolding on_netbox_started
started-IsTimed node w i = record {
  apart = λ n. elim (Bool-cases (node == n)) [ inl e ↦ rw e (inl refl) | inr e ↦ rw e (i.apart n) ];
  over = λ n t e. delete-job node FailsOver n t w.fail_timers (i.over n t) e;
  back = i.back;
}

receive-IsTimed : (s : Signal) (w : World) → IsTimed w → IsTimed (receive s w)
unfolding on_node_disconnect on_node_connect on_netbox_stopped
receive-IsTimed (node_disconnect e node cluster) w i =
    elim (Bool-cases (ltb (e.now - w.started_at) startup_suppress_window)) [
      | inl early ↦ rw early i
      | inr late ↦ rw late (arm_failover-IsTimed _ node cluster true _ w i)
    ]
receive-IsTimed (node_connect e node cluster) w i = arm_failback-IsTimed _ node cluster w i
receive-IsTimed (netbox_stopped e node cluster) w i =
    arm_failover-IsTimed _ node cluster false _ w i
receive-IsTimed (netbox_started node) w i = started-IsTimed node w i

-- Handlers that run one after another never leave a node with both a failover and a failback timer,
-- whatever signals come from whichever nodes, if there was none at first; and the timer that a node has
-- runs the failover from that node, or the failback to it.
pub receive_all-IsTimed : (ss : List Signal) (w : World) → IsTimed w → IsTimed (receive_all ss w)
receive_all-IsTimed [] w i = i
receive_all-IsTimed (s ∷ ss) w i = receive_all-IsTimed ss _ (receive-IsTimed s w i)

-- Two connections of one node whose OnNodeConnect calls overlap with a disconnect: the lock is free
-- between the cancelling and the arming. A signal that comes between them and finds NetBox stopped
-- leaves the node with both timers.
pub arm_failback-both :
    (e : Env) (node cluster due : ℕ) (w : World)
    → let w' =
        arm_failback due node cluster (on_netbox_stopped e node cluster (cancel_timers node w)) in
      (is_some (w'.fail_timers node) ≡ true) × (is_some (w'.failback_timers node) ≡ true)
unfolding arm_failback on_netbox_stopped cancel_timers arm_failover
arm_failback-both e node cluster due w = (ground arith, ground arith)
