-- ===== src/Scenarios/Backups.antt =====
-- A round of backups on the primary, a cluster whose backups are copied, and jobs that queue.
use netbox_conductor.Base.{
  ℕ, true, false, String, ◌≡◌, ◌≢◌, refl, arith, ◌⊎◌, inr, none, some, List, [], ◌∷◌, map, lookup,
  insert,
}
use netbox_conductor.Nodestate.{
  Node, object, primary_db_node, is_db_role, extract_patroni_role, extract_patroni_role_strict,
}
use netbox_conductor.Failover.Tasks.{dispatch_task}
use netbox_conductor.Hub.{register, new_session, send, get}
use netbox_conductor.OpLock as OpLock
use netbox_conductor.OpLock.{Locks}
use netbox_conductor.OpLock.Exclusion as Exclusion
use netbox_conductor.OpLock.Exclusion.{Call, lock, call_unlock, run-new-IsExclusive}
use netbox_conductor.Dispatcher.{start_task}
use netbox_conductor.TaskResults as TaskResults
use netbox_conductor.TaskResults.{TaskResult, TaskTable, of_error}
use netbox_conductor.Backups.{full, BackupTarget}
use netbox_conductor.Backups.Settling.{Settling}
use netbox_conductor.Backups.Runs.{
  StartError, BackupRun, BackupResult, running, sync_completed_runs,
}
use netbox_conductor.Backups.Runs.Settled.{settled, sync_completed_runs-settled}
use netbox_conductor.Backups.Starts.{
  Answers, World, Round, start_round, find_primary_node, round_timeout_secs,
}
use netbox_conductor.Backups.Rounds.{end_round, fire_backup}
use netbox_conductor.Backups.Rounds.Tries.{EndsFrom, fire_backup-ends}
use netbox_conductor.Backups.Rounds.Locked.{end_round-start_round}
use netbox_conductor.Backups.Sync.{sync_backups_of}
use netbox_conductor.Backups.Sync.Safe.{IsSafe, JobsSatisfy, sync_backups_of-IsSafe}
use netbox_conductor.FileSync.Jobs as Jobs
use netbox_conductor.FileSync.Jobs.{Job, start, finish}
use netbox_conductor.FileSync.Jobs.Queue.{Step, starts, run, take, run-queue}
use netbox_conductor.Scenarios.Failovers as Failovers
use netbox_conductor.Scenarios.Failovers.{env, first, second, two}

abbrev location : BackupTarget
location = record {
  cluster_id = 7;
  repo_index = 1;
  label = "local";
  target_type = "posix";
  posix_path = none;
  sync_to_nodes = 2 ∷ [];
}

abbrev answers : Answers
answers = record {
  env = env false;
  targets = some (location ∷ []);
  create_ok = true;
  update_ok = true;
}

abbrev world : Locks → World
world locks = record {
  dispatcher = record { manager = Failovers.world two; waiters = [] };
  locks = locks;
  runs = [];
  next_run = 0;
  notes = [];
}

-- A restore holds the cluster at both tries that the server lives to see.
abbrev restoring : Locks
restoring = (OpLock.try_lock 7 "restore" OpLock.new).1

fire_backup-ends_example :
    EndsFrom 1 2
      (world restoring)
      (fire_backup 7 "main" full 1000 (answers ∷ answers ∷ []) (world restoring))
fire_backup-ends_example =
    fire_backup-ends 7 "main" full 1000 (answers ∷ answers ∷ []) (world restoring)

abbrev round : Round
round = record { primary = first; task = record { id = 0; node = 1; deadline = 4000 }; lock = 0 }

-- The task timed out, and the run that waits for it is settled.
abbrev swept : TaskTable
swept =
    record {
      node_id = 1;
      task_id = 5;
      task_type = none;
      status = TaskResults.timeout;
      request_payload = none;
      response_payload = some (of_error "lost");
      ack_timeout_secs = none;
      queued_at = 0;
      completed_at = some 90;
    }
    ∷ []

abbrev run_of : ℕ → ℕ → BackupRun
run_of id task = record {
  id = id;
  cluster_id = 7;
  backup_type = full;
  repo_index = some 1;
  task_id = some task;
  attempt = 1;
  scheduled_at = 0;
  status = running;
  error_message = none;
}

abbrev no_outcome : String → List BackupResult
no_outcome output = []

sync_completed_runs-settled_example :
    sync_completed_runs no_outcome swept (run_of 0 5 ∷ run_of 1 6 ∷ [])
    ≡ map (settled no_outcome swept) (run_of 0 5 ∷ run_of 1 6 ∷ [])
sync_completed_runs-settled_example =
    sync_completed_runs-settled no_outcome swept (run_of 0 5 ∷ run_of 1 6 ∷ [])
      ((refl, tt), (tt, tt))

-- Both nodes settled, of which the first reports to be the primary.
abbrev steady : Settling
steady = record {
  settling = λ n. some n;
  timers = λ t. record { due = 0; stopped = false; settled = true };
}

abbrev primary : Node
primary = record first { patroni_state = object (some "primary") }

sync_backups_of-IsSafe_example : JobsSatisfy (IsSafe steady (primary ∷ second ∷ []) (λ t. true)) (
    sync_backups_of steady "main" (some (primary ∷ second ∷ [])) (some (location ∷ [])) (λ t. true))
sync_backups_of-IsSafe_example =
    sync_backups_of-IsSafe steady "main" (primary ∷ second ∷ []) (some (location ∷ [])) (λ t. true)

abbrev job : String → Job
job name = record { key = "7|media"; name = name; root = ""; nodes = []; source = none }

abbrev steps : List Step
steps = starts (job "first") false ∷ starts (job "second") true ∷ []

run-queue_example :
    let m = run steps Jobs.new in
    (start (job "third") false m ≡ (false, m))
    × ((start (job "third") true m).1.running "7|media" ≡ some (job "first"))
    × ((finish "7|media" (start (job "third") true m).1).running "7|media" ≡ some (job "third"))
run-queue_example = run-queue steps (job "third") (job "first") (unfold run take Jobs.start in refl)

-- The round that starts, and the world that it leaves.
abbrev tried : (StartError ⊎ Round) × World
tried = start_round answers 7 "main" full 1000 1 (world OpLock.new)

-- While it runs, a restore of the cluster is refused, and one of another cluster comes and goes.
abbrev meanwhile : List Call
meanwhile = lock 7 "restore" ∷ lock 8 "restore" ∷ call_unlock 1 ∷ []

end_round-start_round_example :
    (OpLock.new.running 7 ≡ none)
    × ((Exclusion.run meanwhile tried.1.locks).running 7 ≡ some "a backup")
    × ((end_round round []
            (record tried.1 { locks = Exclusion.run meanwhile tried.1.locks })).1.locks.running
          7
        ≡ none)
end_round-start_round_example =
    end_round-start_round answers 7 "main" full 1000 1 7 (world OpLock.new) tried.1 round []
      meanwhile (run-new-IsExclusive []) began (other, tt)
  where
    began : tried ≡ (inr round, tried.1)
    began =
        unfold start_round find_primary_node primary_db_node is_db_role extract_patroni_role
          extract_patroni_role_strict OpLock.try_lock start_task dispatch_task register new_session
          lookup insert send get round_timeout_secs in
        refl

    other : ◌≢◌ {A = ℕ} 1 0
    other e = ground arith
