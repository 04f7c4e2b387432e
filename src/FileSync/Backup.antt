-- ===== src/FileSync/Backup.antt =====
-- backupPlan of internal/server/filesync/plan.go: the sync of a pgBackRest repository.
--
-- The listings come in the order of their nodes, in which the code goes through them. A map from
-- segments is computed where it is read. `keep` is the function that walKeep returns.
pub mod Tables
pub mod Wanted
pub mod Source
use Prim.Native.Char.{code}
use Prim.Native.String.{◌++◌}
use text.Mathlib.Text.{starts_with}
use netbox_conductor.Base.{
  ℕ, ◌+◌, String, Bool, true, false, ◌&&◌, ◌||◌, not, Option, none, some, List, [], ◌∷◌, ◌==◌, leb,
  length, str_eq, if◌then◌else◌, Table, lookup, is_some,
}
use netbox_conductor.FileSync.{
  SyncFile, Plan, new_plan, copy, Index, find, set, has_suffix, index, Version,
}
use netbox_conductor.FileSync.TwoWay.{index_all, add_path, sum_of}

is_slash : ℕ → Bool
is_slash c = c == b'/'

-- `strings.Count(p, "/")`.
slashes : String → ℕ
unfolding is_slash
slashes String.[] = 0
slashes (String.◌∷◌ c s) = let rest = slashes s in if is_slash (code c) then rest + 1 else rest

-- What stands before the first `-`.
before_dash : String → String
before_dash String.[] = String.[]
before_dash (String.◌∷◌ c s) =
    let rest = before_dash s in if code c == b'-' then String.[] else String.◌∷◌ c rest

-- `path.Split`: up to the last slash, and what follows it.
split_path : String → String × String
unfolding is_slash
split_path String.[] = (String.[], String.[])
split_path (String.◌∷◌ c s) =
    let (dir, base) = split_path s in
    if not (str_eq dir "") || is_slash (code c)
    then (String.◌∷◌ c dir, base)
    else (dir, String.◌∷◌ c base)

-- The base names that `isIndexFile` lists. Listed paths do not end in a slash.
unfoldable pub is_index_file : String → Bool
unfolding split_path
is_index_file p =
    let base = (split_path p).1 in
    str_eq base "backup.info"
    || (str_eq base "backup.info.copy"
        || (str_eq base "archive.info" || str_eq base "archive.info.copy"))

unfoldable pub is_wal : String → Bool
unfolding slashes is_index_file
is_wal p = starts_with p "archive/" && (leb 3 (slashes p) && not (is_index_file p))

unfoldable pub wal_segment : String → String
unfolding split_path before_dash
wal_segment p = let (dir, base) = split_path p in dir ++ before_dash base

-- The path and checksum of each copy of a segment, added to those in `vs`.
segment_versions : String → Index → List String → List String
unfolding is_wal wal_segment
segment_versions seg [] vs = vs
segment_versions seg ((path, f) ∷ m) vs =
    let rest = segment_versions seg m vs in
    if is_wal path && str_eq (wal_segment path) seg
    then add_path (path ++ (" " ++ f.sha256)) rest
    else rest

-- `versions[seg]`.
versions : String → Table Index → List String
unfolding segment_versions
versions seg [] = []
versions seg ((node, m) ∷ have) = segment_versions seg m (versions seg have)

unfoldable pub conflicted : Table Index → String → Bool
unfolding versions
conflicted have seg = leb 2 (length (versions seg have))

-- `holds[node][seg]`.
unfoldable pub holds : String → Index → Bool
holds seg [] = false
holds seg ((path, f) ∷ m) = is_wal path && str_eq (wal_segment path) seg || holds seg m

abbrev pub Want : Type 0
Want = List (String × Version)

-- The main server's own files.
pub own_files : ℕ → Index → Want
own_files source [] = []
own_files source ((path, f) ∷ m) = (path, record { node = source; file = f }) ∷ own_files source m

-- WAL of another node that is gathered.
pub gather_from : (String → Bool) → Table Index → ℕ → Index → Want → Want
gather_from keep have node [] want = want
gather_from keep have node ((path, f) ∷ m) want =
    let skip = gather_from keep have node m want in
    let add = gather_from keep have node m (set path (record { node = node; file = f }) want) in
    if is_some (find path want) || (not (is_wal path) || conflicted have (wal_segment path))
    then skip
    else if has_suffix path ".history" || keep path
    then add
    else skip

pub gather : (String → Bool) → Table Index → Table Index → Want → Want
unfolding gather_from
gather keep have [] want = want
gather keep have ((node, m) ∷ rest) want = gather keep have rest (gather_from keep have node m want)

-- A segment that the node holds in conflict with others is left as it is.
abbrev kept_apart : Table Index → Index → String → Bool
kept_apart have m path =
    is_wal path && (holds (wal_segment path) m && conflicted have (wal_segment path))

pub copy_wanted : Table Index → ℕ → Index → Want → Plan → Plan
copy_wanted have node m [] p = p
copy_wanted have node m ((path, v) ∷ want) p =
    let rest = copy_wanted have node m want p in
    if not (str_eq (sum_of (find path m)) v.file.sha256) && not (kept_apart have m path)
    then copy v.node node v.file rest
    else rest

pub delete_unwanted : Table Index → ℕ → Want → Index → Plan → Plan
delete_unwanted have node want [] p = p
delete_unwanted have node want ((path, f) ∷ m) p =
    let rest = delete_unwanted have node want m p in
    if not (is_some (find path want)) && not (is_wal path && conflicted have (wal_segment path))
    then record rest { deletes = (node, path) ∷ rest.deletes }
    else rest

pub spread_to_node : ℕ → Table Index → Want → ℕ → Index → Plan → Plan
unfolding copy_wanted delete_unwanted
spread_to_node source have want node m p =
    let p1 = copy_wanted have node m want p in
    if node == source then p1 else delete_unwanted have node want m p1

pub spread_all : ℕ → Table Index → Want → Table Index → Plan → Plan
unfolding spread_to_node
spread_all source have want [] p = p
spread_all source have want ((node, m) ∷ rest) p =
    spread_all source have want rest (spread_to_node source have want node m p)

-- The segments of a node's index.
segments : Index → List String → List String
segments [] ss = ss
segments ((path, f) ∷ m) ss =
    let rest = segments m ss in if is_wal path then add_path (wal_segment path) rest else rest

all_segments : Table Index → List String
unfolding segments
all_segments [] = []
all_segments ((node, m) ∷ have) = segments m (all_segments have)

conflicts_of : Table Index → List String → List String
conflicts_of have [] = []
conflicts_of have (seg ∷ ss) =
    let rest = conflicts_of have ss in if conflicted have seg then seg ∷ rest else rest

abbrev pub index_of : Option Index → Index
index_of none = []
index_of (some m) = m

unfoldable pub want_of : ℕ → Table Index → (String → Bool) → Want
unfolding own_files gather
want_of source have keep = gather keep have have (own_files source (index_of (lookup source have)))

unfoldable pub backup_plan : ℕ → Table (List SyncFile) → (String → Bool) → Plan
unfolding spread_all all_segments conflicts_of
backup_plan source lists keep =
    let (have, p) = index_all lists new_plan in
    spread_all source have (want_of source have keep) have
      (record p { conflicts = conflicts_of have (all_segments have) })
