-- ===== src/FileSync/Stages.antt =====
-- What follows the plan in `sync` of internal/server/filesync/filesync.go: its stages 3 (the check of free
-- space) to 6, with finish; and sendOrder of plan.go.
--
-- The outcomes of the tasks that it runs on the nodes are answers. The effects are in their order.
pub mod Deletes
use Prim.Native.Nat.{Ordering}
use Prim.Native.String.{compare as compare_text}
use netbox_conductor.Base.{
  ℕ, ◌+◌, String, Bool, true, false, ◌&&◌, ◌||◌, not, Option, none, some, is_some, List, [], ◌∷◌,
  ◌++◌, map, ◌==◌, ltb, leb, str_eq, if◌then◌else◌, keep, length,
}
use netbox_conductor.TaskWatch.{contains}
use netbox_conductor.FileSync.{Plan, Copy, sends, copies, bytes, contains as contains_path}
use netbox_conductor.FileSync.Batches.{batches}
use netbox_conductor.FileSync.Backup.{is_index_file}

-- Why a node failed; `unlisted` is an error of the stages before the plan.
pub data SyncError : Type 0 where
  unlisted not_receiving cut_off finish_failed deleting_failed record_not_saved : SyncError
  needs_space : (need free : ℕ) → SyncError
  sender_failed : (source : ℕ) → SyncError
  files_failed : (errors : ℕ) → SyncError
  files_missing : (got want : ℕ) → SyncError

pub record NodeState : Type 0 where
  pub node : ℕ
  pub free : ℕ
  pub err : Option SyncError
  pub copied : ℕ
  pub deleted : ℕ

pub record SyncFinishResult : Type 0 where
  pub copied : ℕ
  pub skipped : ℕ
  pub errors : ℕ

-- `finished` is `none` for a failed task; `dropped` are the receivers that were cut off.
pub record Answers : Type 0 where
  pub receive_ok : ℕ → Bool
  pub send_ok : ℕ → List String → Bool
  pub finished : ℕ → Option SyncFinishResult
  pub dropped : ℕ → Bool
  pub delete_ok : ℕ → List String → Bool
  pub save_ok : Bool

pub data Effect : Type 0 where
  receive_asked : (node : ℕ) → Effect
  send_asked : (source : ℕ) → (paths : List String) → Effect
  finish_asked : (node : ℕ) → Effect
  delete_asked : (node : ℕ) → (paths : List String) → Effect
  saved : (nodes : List ℕ) → Effect

abbrev with_err : SyncError → NodeState → NodeState
with_err e s = record s { err = some e }

unfoldable pub check_space : Plan → NodeState → NodeState
check_space p s =
    if not (is_some s.err) && ltb s.free (bytes s.node p.copied)
    then with_err (needs_space (bytes s.node p.copied) s.free) s
    else s

-- The states, the nodes that receive, and the effects.
receive_one :
    Answers
    → Plan
    → NodeState
    → List NodeState × List ℕ × List Effect
    → List NodeState × List ℕ × List Effect
receive_one a p s (states, receiving, effects) =
    if is_some s.err || copies s.node p.copied == 0
    then (s ∷ states, receiving, effects)
    else if a.receive_ok s.node
    then (s ∷ states, s.node ∷ receiving, receive_asked s.node ∷ effects)
    else (with_err not_receiving s ∷ states, receiving, receive_asked s.node ∷ effects)

unfoldable pub receive_all : Answers → Plan → List NodeState → List NodeState × List ℕ × List Effect
unfolding receive_one
receive_all a p [] = ([], [], [])
receive_all a p (s ∷ states) = receive_one a p s (receive_all a p states)

-- `routes[path]`.
route : List ℕ → ℕ → String → List Copy → List ℕ
route receiving source path cs = keep (contains receiving) (sends source path cs)

abbrev is_nil : List ℕ → Bool
is_nil [] = true
is_nil (x ∷ xs) = false

-- The keys of `routes`, over the rest of the plan's copies.
route_paths : List ℕ → ℕ → (all rest : List Copy) → List String
unfolding route
route_paths receiving source all [] = []
route_paths receiving source all (c ∷ rest) =
    let paths = route_paths receiving source all rest in
    if not (c.source == source)
    then paths
    else if contains_path c.file.path paths || is_nil (route receiving source c.file.path all)
    then paths
    else c.file.path ∷ paths

route_targets : List ℕ → ℕ → List Copy → List String → List ℕ
unfolding route
route_targets receiving source cs [] = []
route_targets receiving source cs (path ∷ paths) =
    route receiving source path cs ++ route_targets receiving source cs paths

abbrev is_before : Ordering → Bool
is_before Ordering.lt = true
is_before _ = false

comes_first : Bool → Bool → String → String → Bool
comes_first true false a b = false
comes_first false true a b = true
comes_first _ _ a b = is_before (compare_text a b)

insert_path : String → List String → List String
unfolding comes_first
insert_path p [] = p ∷ []
insert_path p (q ∷ qs) =
    let rest = insert_path p qs in
    if comes_first (is_index_file p) (is_index_file q) p q then p ∷ q ∷ qs else q ∷ rest

unfoldable pub send_order : List String → List String
unfolding insert_path
send_order [] = []
send_order (p ∷ ps) = insert_path p (send_order ps)

-- The keys of `sends`, each once and sorted.
insert_node : ℕ → List ℕ → List ℕ
insert_node n [] = n ∷ []
insert_node n (m ∷ ms) =
    let rest = insert_node n ms in
    if n == m then m ∷ ms else if ltb n m then n ∷ m ∷ ms else m ∷ rest

unfoldable pub senders : List Copy → List ℕ
unfolding insert_node
senders [] = []
senders (c ∷ cs) = insert_node c.source (senders cs)

-- Whether all batches were sent.
send_batches : Answers → ℕ → List (List String) → Bool × List Effect
send_batches a source [] = (true, [])
send_batches a source (b ∷ bs) =
    let (ok, effects) = send_batches a source bs in
    if a.send_ok source b
    then (ok, send_asked source b ∷ effects)
    else (false, send_asked source b ∷ [])

mark_failed : Bool → ℕ → List ℕ → (ℕ → Option ℕ) → ℕ → Option ℕ
mark_failed ok source targets errs n = if not ok && contains targets n then some source else errs n

-- `sendErr`, which sender failed for a receiver, and the effects.
unfoldable pub send_all :
    Answers → Plan → (receiving senders : List ℕ) → (ℕ → Option ℕ) → (ℕ → Option ℕ) × List Effect
unfolding route_paths route_targets send_batches mark_failed
send_all a p receiving [] errs = (errs, [])
send_all a p receiving (source ∷ more) errs =
    let paths = route_paths receiving source p.copied p.copied in
    let (ok, effects) = send_batches a source (batches (send_order paths)) in
    let targets = route_targets receiving source p.copied paths in
    let (errs', effects') = send_all a p receiving more (mark_failed ok source targets errs) in
    (errs', effects ++ effects')

result_error : SyncFinishResult → ℕ → Option SyncError
result_error r want =
    if ltb 0 r.errors
    then some (files_failed r.errors)
    else if r.copied + r.skipped == want
    then none
    else some (files_missing (r.copied + r.skipped) want)

finished_error : Option SyncFinishResult → ℕ → Option SyncError
unfolding result_error
finished_error none want = some finish_failed
finished_error (some r) want = result_error r want

-- The answer of `finish`.
unfoldable pub finish_error :
    Option ℕ → (dropped : Bool) → Option SyncFinishResult → (want : ℕ) → Option SyncError
unfolding finished_error
finish_error (some source) dropped res want = some (sender_failed source)
finish_error none true res want = some cut_off
finish_error none false res want = finished_error res want

abbrev copied_of : Option SyncFinishResult → ℕ
copied_of none = 0
copied_of (some r) = r.copied

unfoldable pub finish_one : Answers → Plan → List ℕ → (ℕ → Option ℕ) → NodeState → NodeState
finish_one a p receiving errs s =
    if contains receiving s.node
    then record s {
      err =
          finish_error (errs s.node) (a.dropped s.node) (a.finished s.node)
            (copies s.node p.copied);
      copied = copied_of (a.finished s.node);
    }
    else s

finish_effects : List ℕ → List NodeState → List Effect
finish_effects receiving [] = []
finish_effects receiving (s ∷ states) =
    let rest = finish_effects receiving states in
    if contains receiving s.node then finish_asked s.node ∷ rest else rest

unfoldable pub deletes_of : ℕ → List (ℕ × String) → List String
deletes_of node [] = []
deletes_of node ((n, path) ∷ ds) =
    let rest = deletes_of node ds in if n == node then path ∷ rest else rest

-- The batches in order, until one fails: the state and the effects.
delete_batches : Answers → List (List String) → NodeState → NodeState × List Effect
delete_batches a [] s = (s, [])
delete_batches a (b ∷ bs) s =
    let (s', effects) = delete_batches a bs (record s { deleted = s.deleted + length b }) in
    if a.delete_ok s.node b
    then (s', delete_asked s.node b ∷ effects)
    else (with_err deleting_failed s, delete_asked s.node b ∷ [])

unfoldable pub delete_one : Answers → Plan → NodeState → NodeState × List Effect
unfolding delete_batches
delete_one a p s =
    if is_some s.err then (s, []) else delete_batches a (batches (deletes_of s.node p.deletes)) s

unfoldable pub delete_all : Answers → Plan → List NodeState → List NodeState × List Effect
unfolding delete_one
delete_all a p [] = ([], [])
delete_all a p (s ∷ states) =
    let (s', effects) = delete_one a p s in
    let (states', effects') = delete_all a p states in (s' ∷ states', effects ++ effects')

unfoldable pub synced : List NodeState → List ℕ
synced [] = []
synced (s ∷ states) = let rest = synced states in if is_some s.err then rest else s.node ∷ rest

not_saved : NodeState → NodeState
not_saved s = if is_some s.err then s else with_err record_not_saved s

unfoldable pub save_record :
    Answers → (two_way : Bool) → List NodeState → List NodeState × List Effect
unfolding not_saved
save_record a false states = (states, [])
save_record a true states =
    (if a.save_ok then states else map not_saved states, saved (synced states) ∷ [])

-- The states of the nodes, and the effects, from the plan on.
unfoldable pub carry_out_plan :
    Answers → (two_way : Bool) → Plan → List NodeState → List NodeState × List Effect
unfolding finish_effects
carry_out_plan a two_way p states =
    let (received, receiving, effects1) = receive_all a p (map (check_space p) states) in
    let (errs, effects2) = send_all a p receiving (senders p.copied) (λ n. none) in
    let finished = map (finish_one a p receiving errs) received in
    let effects3 = finish_effects receiving received in
    let (deleted, effects4) = delete_all a p finished in
    let (last, effects5) = save_record a two_way deleted in
    (last, effects1 ++ (effects2 ++ (effects3 ++ (effects4 ++ effects5))))
