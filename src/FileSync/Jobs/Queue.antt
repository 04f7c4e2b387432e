-- ===== src/FileSync/Jobs/Queue.antt =====
-- Jobs that wait for the sync of their folder to end.
use netbox_conductor.Base.{
  String, Bool, true, false, ◌≡◌, refl, ap, ◌∙◌, some, is_some, List, [], ◌∷◌, eq_iff, arith,
}
use netbox_conductor.FileSync.Jobs.{Job, Manager, new, start, finish}

-- What the server or the syncs do, in any order.
pub data Step : Type 0 where
  starts : Job → (queue : Bool) → Step
  finishes : (key : String) → Step

unfoldable pub take : Step → Manager → Manager
take (starts job queue) m = (start job queue m).1
take (finishes key) m = finish key m

unfoldable pub run : List Step → Manager → Manager
run [] m = m
run (s ∷ ss) m = run ss (take s m)

-- A folder is in the table exactly while a sync of it runs.
abbrev pub IsConsistent : Manager → Type 0
IsConsistent m = (k : String) → is_some (m.active k) ≡ is_some (m.running k)

start-IsConsistent :
    (job : Job) (queue : Bool) (m : Manager) → IsConsistent m → IsConsistent (start job queue m).1
unfolding start
start-IsConsistent job queue m c k = ground (arith, c k, c job.key, eq_iff job.key k)

finish-IsConsistent : (key : String) (m : Manager) → IsConsistent m → IsConsistent (finish key m)
unfolding finish
finish-IsConsistent key m c k = ground (arith, c k, c key, eq_iff key k)

run-IsConsistent : (ss : List Step) (m : Manager) → IsConsistent m → IsConsistent (run ss m)
unfolding run take
run-IsConsistent [] m c = c
run-IsConsistent (starts job queue ∷ ss) m c =
    run-IsConsistent ss (start job queue m).1 (start-IsConsistent job queue m c)
run-IsConsistent (finishes key ∷ ss) m c =
    run-IsConsistent ss (finish key m) (finish-IsConsistent key m c)

running-of :
    (m : Manager) (key : String) (job : Job)
    → IsConsistent m
    → m.running key ≡ some job
    → is_some (m.active key) ≡ true
running-of m key job c e = c key ∙ ap is_some e

busy_start :
    (m : Manager) (job running : Job)
    → is_some (m.active job.key) ≡ true
    → (start job false m ≡ (false, m))
      × ((start job true m).1.running job.key ≡ m.running job.key)
      × ((finish job.key (start job true m).1).running job.key ≡ some job)
unfolding start finish
busy_start m job running b = ground (arith, eq_iff job.key job.key)

-- After any sequence of starts and ends of syncs: where a sync of the folder runs, a start without
-- queueing is refused and changes nothing; one with queueing leaves the running sync alone, and its
-- job is the next that runs when that sync ends, whichever job was queued before.
pub run-queue :
    (ss : List Step) (job running : Job)
    → (run ss new).running job.key ≡ some running
    → let m = run ss new in
      (start job false m ≡ (false, m))
      × ((start job true m).1.running job.key ≡ some running)
      × ((finish job.key (start job true m).1).running job.key ≡ some job)
run-queue ss job running e =
    let m = run ss new in
    let b =
      busy_start m job running
        (running-of m job.key running (run-IsConsistent ss new (λ k. refl)) e) in
    (b.0, b.1 ∙ e, b.2)
