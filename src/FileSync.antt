-- ===== src/FileSync.antt =====
-- internal/server/filesync/plan.go: what one sync of a folder does.
--
-- A `plan` keeps the calls of `copy` with the newest first; what Go keeps in `sends`, `copies` and
-- `bytes` is read off them. `deletes` pairs nodes with paths. The slices are not sorted here, since
-- a map's keys come in no particular order before the code sorts them.
pub mod TwoWay
pub mod Batches
pub mod Backup
pub mod Jobs
pub mod Stages
pub mod Relay
use Prim.Native.Nat.{compare, Ordering}
use Prim.Native.String.{len, slice, compare as compare_text}
use netbox_conductor.Base.{
  ℕ, ◌+◌, ◌-◌, String, Bool, true, false, ◌&&◌, ◌||◌, not, Option, none, some, List, [], ◌∷◌, ◌==◌,
  leb, str_eq, if◌then◌else◌, Table,
}

-- Times are in nanoseconds from 1970 on.
pub record SyncFile : Type 0 where
  pub path : String
  pub size : ℕ
  pub sha256 : String
  pub mtime : ℕ

pub record Copy : Type 0 where
  pub source : ℕ
  pub target : ℕ
  pub file : SyncFile

pub record Plan : Type 0 where
  pub copied : List Copy
  pub deletes : List (ℕ × String)
  pub files : List (String × String)
  pub deleted : List String
  pub conflicts : List String

abbrev pub new_plan : Plan
new_plan = record { copied = []; deletes = []; files = []; deleted = []; conflicts = [] }

abbrev pub copy : ℕ → ℕ → SyncFile → Plan → Plan
copy source target f p = record p {
  copied = record { source = source; target = target; file = f } ∷ p.copied;
}

-- `p.sends[source][path]`, `p.copies[target]` and `p.bytes[target]`.
unfoldable pub sends : ℕ → String → List Copy → List ℕ
sends source path [] = []
sends source path (c ∷ cs) =
    let rest = sends source path cs in
    if c.source == source && str_eq c.file.path path then c.target ∷ rest else rest

unfoldable pub copies : ℕ → List Copy → ℕ
copies target [] = 0
copies target (c ∷ cs) =
    let rest = copies target cs in if c.target == target then rest + 1 else rest

unfoldable pub bytes : ℕ → List Copy → ℕ
bytes target [] = 0
bytes target (c ∷ cs) =
    let rest = bytes target cs in if c.target == target then rest + c.file.size else rest

abbrev pub has_suffix : String → String → Bool
has_suffix s t = leb (len t) (len s) && str_eq (slice s (len s - len t) (len s)) t

-- A listing by path, with one file for each; maps from paths are found by text.
abbrev pub find {ℓ} : {V : Type ℓ} → String → List (String × V) → Option V
find path [] = none
find path ((k, v) ∷ t) = if str_eq k path then some v else find path t

abbrev pub set {ℓ} : {V : Type ℓ} → String → V → List (String × V) → List (String × V)
set path v [] = (path, v) ∷ []
set path v ((k, w) ∷ t) =
    let rest = set path v t in if str_eq k path then (path, v) ∷ t else (k, w) ∷ rest

abbrev pub Index : Type 0
Index = List (String × SyncFile)

abbrev pub is_partial : String → Bool
is_partial path = has_suffix path ".nbc-partial"

-- The loop of `index` over the files, `m` being the map so far.
pub index_from : ℕ → List SyncFile → Index → Plan → Index × Plan
index_from node [] m p = (m, p)
index_from node (f ∷ fs) m p =
    let skip = index_from node fs m (record p { deletes = (node, f.path) ∷ p.deletes }) in
    let add = index_from node fs (set f.path f m) p in if is_partial f.path then skip else add

unfoldable pub index : ℕ → List SyncFile → Plan → Index × Plan
unfolding index_from
index node fs p = index_from node fs [] p

-- One node's copy of a file.
pub record Version : Type 0 where
  pub node : ℕ
  pub file : SyncFile

abbrev or_order : Ordering → Ordering → Ordering
or_order Ordering.lt b = Ordering.lt
or_order Ordering.gt b = Ordering.gt
or_order Ordering.eq b = b

-- UUIDs and their texts are in the same order.
unfoldable pub newer : Version → Version → Ordering
newer a b =
    or_order (compare a.file.mtime b.file.mtime)
      (or_order (compare_text a.file.sha256 b.file.sha256) (compare a.node b.node))

unfoldable pub more_recent : (ℕ → ℕ) → Version → Version → Ordering
unfolding newer
more_recent synced_at a b = or_order (compare (synced_at a.node) (synced_at b.node)) (newer a b)

abbrev pub is_greater : Ordering → Bool
is_greater Ordering.gt = true
is_greater _ = false

-- `slices.MaxFunc` of the first version and the others: the first of the greatest.
unfoldable pub max_func : (Version → Version → Ordering) → Version → List Version → Version
max_func cmp m [] = m
max_func cmp m (v ∷ vs) = max_func cmp (if is_greater (cmp v m) then v else m) vs

-- Whether one of the versions differs from the first.
unfoldable pub differ : Version → List Version → Bool
differ first [] = false
differ first (v ∷ vs) = not (str_eq v.file.sha256 first.file.sha256) || differ first vs

abbrev pub contains : String → List String → Bool
contains path [] = false
contains path (k ∷ ks) = str_eq k path || contains path ks
