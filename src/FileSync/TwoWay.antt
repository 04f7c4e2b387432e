-- ===== src/FileSync/TwoWay.antt =====
-- twoWayPlan of internal/server/filesync/plan.go, over the record of db/queries/file_sync.go.
pub mod Winner
pub mod Effects
pub mod Paths
pub mod Indexes
pub mod Converge
pub mod Edits
use netbox_conductor.Base.{
  ℕ, String, Bool, true, false, ◌&&◌, ◌||◌, not, Option, none, some, List, [], ◌∷◌, str_eq,
  if◌then◌else◌, Table, lookup, is_some,
}
use netbox_conductor.FileSync.{
  SyncFile, Plan, new_plan, copy, Index, find, index, Version, newer, more_recent, max_func, differ,
  contains,
}

-- The sums of each node at its last sync; when that was, the zero time for a node that never synced;
-- and the paths that some node deleted.
pub record FileSyncRecord : Type 0 where
  pub files : Table (List (String × String))
  pub synced_at : ℕ → ℕ
  pub deleted : List String

-- The first loop: the indexes of the listings, and the plan with the leftover partial files.
unfoldable pub index_all : Table (List SyncFile) → Plan → Table Index × Plan
index_all [] p = ([], p)
index_all ((node, files) ∷ lists) p =
    let (m, p1) = index node files p in
    let (have, p2) = index_all lists p1 in ((node, m) ∷ have, p2)

abbrev pub add_path : String → List String → List String
add_path path ps = if contains path ps then ps else path ∷ ps

abbrev add_keys {ℓ} : {V : Type ℓ} → List (String × V) → List String → List String
add_keys [] ps = ps
add_keys ((k, v) ∷ t) ps = add_path k (add_keys t ps)

abbrev add_all : List String → List String → List String
add_all [] ps = ps
add_all (k ∷ ks) ps = add_path k (add_all ks ps)

abbrev recorded_keys : Option (List (String × String)) → List String → List String
recorded_keys none ps = ps
recorded_keys (some t) ps = add_keys t ps

-- The set `paths`: what a listed node has, or has on record, and what is marked as deleted.
unfoldable pub all_paths : FileSyncRecord → Table Index → List String
all_paths rec [] = add_all rec.deleted []
all_paths rec ((node, m) ∷ have) =
    add_keys m (recorded_keys (lookup node rec.files) (all_paths rec have))

abbrev is_text : String → Option String → Bool
is_text s none = false
is_text s (some t) = str_eq t s

-- `known[sum]`: some node had this version of the file at its last sync.
unfoldable pub known : String → String → Table (List (String × String)) → Bool
known path sum [] = false
known path sum ((node, files) ∷ t) = is_text sum (find path files) || known path sum t

-- The versions of one path, by what their nodes' records say of them.
pub record Versions : Type 0 where
  pub changed : List Version
  pub kept : List Version
  pub fresh : List Version
  pub deleted : Bool

-- The body of the loop over the nodes: the file there, and the node's record.
unfoldable pub classify_file :
    String
    → FileSyncRecord
    → ℕ
    → Option SyncFile
    → Option (List (String × String))
    → Versions
    → Versions
classify_file path rec node none none vs = vs
classify_file path rec node (some f) none vs = record vs {
  fresh = record { node = node; file = f } ∷ vs.fresh;
}
classify_file path rec node (some f) (some old) vs =
    if known path f.sha256 rec.files
    then record vs { kept = record { node = node; file = f } ∷ vs.kept }
    else record vs { changed = record { node = node; file = f } ∷ vs.changed }
classify_file path rec node none (some old) vs =
    if is_some (find path old) then record vs { deleted = true } else vs

unfoldable pub classify : String → FileSyncRecord → Table Index → Versions
unfolding classify_file
classify path rec [] = record {
  changed = [];
  kept = [];
  fresh = [];
  deleted = contains path rec.deleted;
}
classify path rec ((node, m) ∷ have) =
    classify_file path rec node (find path m) (lookup node rec.files) (classify path rec have)

-- What becomes of a path: the version that goes everywhere, a deletion, or nothing.
pub data Outcome : Type 0 where
  spread : Version → Outcome
  delete_everywhere : Outcome
  leave : Outcome

-- The `switch`, with whether the path is a conflict.
decide_kept : FileSyncRecord → List Version → List Version → Outcome × Bool
decide_kept rec (v ∷ vs) fresh = (spread (max_func (more_recent rec.synced_at) v vs), false)
decide_kept rec [] (v ∷ vs) = (spread (max_func newer v vs), differ v vs)
decide_kept rec [] [] = (leave, false)

decide_versions : FileSyncRecord → List Version → Versions → Outcome × Bool
unfolding decide_kept
decide_versions rec (v ∷ vs) all = (spread (max_func newer v vs), all.deleted || differ v vs)
decide_versions rec [] all =
    if all.deleted then (delete_everywhere, false) else decide_kept rec all.kept all.fresh

unfoldable pub decide : FileSyncRecord → Versions → Outcome × Bool
unfolding decide_versions
decide rec vs = decide_versions rec vs.changed vs

-- `have[node][path].SHA256`: the empty text for a missing file.
abbrev pub sum_of : Option SyncFile → String
sum_of none = ""
sum_of (some f) = f.sha256

pub spread_to : Version → String → Table Index → Plan → Plan
spread_to win path [] p = p
spread_to win path ((node, m) ∷ have) p =
    let rest = spread_to win path have p in
    if str_eq (sum_of (find path m)) win.file.sha256 then rest else copy win.node node win.file rest

pub delete_from : String → Table Index → Plan → Plan
delete_from path [] p = p
delete_from path ((node, m) ∷ have) p =
    let rest = delete_from path have p in
    if is_some (find path m) then record rest { deletes = (node, path) ∷ rest.deletes } else rest

abbrev note_conflict : Bool → String → Plan → Plan
note_conflict conflict path p = if conflict then record p { conflicts = path ∷ p.conflicts } else p

pub carry_out : String → Table Index → Outcome → Plan → Plan
unfolding spread_to delete_from
carry_out path have (spread win) p =
    spread_to win path have (record p { files = (path, win.file.sha256) ∷ p.files })
carry_out path have delete_everywhere p =
    delete_from path have (record p { deleted = path ∷ p.deleted })
carry_out path have leave p = p

-- The body of the loop over the paths.
unfoldable pub settle : FileSyncRecord → Table Index → String → Plan → Plan
unfolding carry_out
settle rec have path p =
    let (outcome, conflict) = decide rec (classify path rec have) in
    carry_out path have outcome (note_conflict conflict path p)

pub settle_all : FileSyncRecord → Table Index → List String → Plan → Plan
unfolding settle
settle_all rec have [] p = p
settle_all rec have (path ∷ paths) p = settle_all rec have paths (settle rec have path p)

unfoldable pub two_way_plan : Table (List SyncFile) → FileSyncRecord → Plan
unfolding settle_all
two_way_plan lists rec =
    let (have, p) = index_all lists new_plan in settle_all rec have (all_paths rec have) p
