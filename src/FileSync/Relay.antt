-- ===== src/FileSync/Relay.antt =====
-- HandleListing and HandleChunk of internal/server/filesync/filesync.go, over the `run` of one sync, and what
-- sync does to it for a batch.
--
-- A chunk is its path and the rest of its message. Whether SendWait hands a chunk to the session in
-- time is an answer. Until the first batch the source is `none`, `uuid.Nil`.
pub mod Gaps
use netbox_conductor.Base.{
  ℕ, String, Bool, true, false, ◌&&◌, not, Option, none, some, List, [], ◌∷◌, ◌++◌, ◌==◌,
  if◌then◌else◌, keep, Table, lookup, insert,
}
use netbox_conductor.Hub.{Hub, get}
use netbox_conductor.FileSync.{SyncFile, find}

pub record Run : Type 0 where
  pub lists : Table (List SyncFile)
  pub source : Option ℕ
  pub routes : List (String × List ℕ)
  pub dropped : ℕ → Bool

pub record Chunk : Type 0 where
  pub path : String
  pub content : ℕ

append_listing : ℕ → List SyncFile → Option (List SyncFile) → Run → Run
append_listing node files none r = r
append_listing node files (some fs) r = record r { lists = insert node (fs ++ files) r.lists }

unfoldable pub handle_listing : ℕ → List SyncFile → Run → Run
unfolding append_listing
handle_listing node files r = append_listing node files (lookup node r.lists) r

unfoldable pub start_batch : ℕ → List (String × List ℕ) → Run → Run
start_batch source routes r = record r { source = some source; routes = routes }

abbrev pub route_of : Option (List ℕ) → List ℕ
route_of none = []
route_of (some ns) = ns

abbrev pub not_dropped : Run → ℕ → Bool
not_dropped r n = not (r.dropped n)

abbrev pub drop : ℕ → Run → Run
drop n r = record r { dropped = λ m. if n == m then true else r.dropped m }

abbrev has_session : Option ℕ → Bool
has_session none = false
has_session (some s) = true

-- The run, and the nodes that were handed the chunk.
unfoldable pub forward : Hub → (ℕ → Bool) → List ℕ → Run → Run × List ℕ
forward h sent [] r = (r, [])
forward h sent (d ∷ ds) r =
    let (r1, got1) = forward h sent ds r in
    let (r2, got2) = forward h sent ds (drop d r) in
    if has_session (get d h) && sent d then (r1, d ∷ got1) else (r2, got2)

abbrev pub is_source : ℕ → Option ℕ → Bool
is_source node none = false
is_source node (some s) = node == s

unfoldable pub handle_chunk : Hub → (ℕ → Bool) → (node : ℕ) → Chunk → Run → Run × List ℕ
unfolding forward
handle_chunk h sent node c r =
    if is_source node r.source
    then forward h sent (keep (not_dropped r) (route_of (find c.path r.routes))) r
    else (r, [])
