-- ===== src/Scenarios/Syncs.antt =====
-- Two nodes that sync a folder, of which one edited a file that the other deleted.
use netbox_conductor.Base.{
  both-values, true, str_eq, eq_iff, String, false, ◌≡◌, ◌≢◌, refl, some, List, [], ◌∷◌, Table,
  lookup, All,
}
use netbox_conductor.FileSync.{SyncFile, new_plan, index}
use netbox_conductor.FileSync.TwoWay.{
  FileSyncRecord, index_all, known, classify, decide, two_way_plan,
}
use netbox_conductor.FileSync.TwoWay.Indexes.{AreSummed}
use netbox_conductor.FileSync.TwoWay.Converge.{Agrees, two_way_plan-Agrees}
use netbox_conductor.FileSync.TwoWay.Edits.{WinsOrConflicts, decide-edit}
use netbox_conductor.FileSync.TwoWay.Effects.{removed}
use netbox_conductor.FileSync.Backup.{index_of, backup_plan}
use netbox_conductor.FileSync.Backup.Tables.{Once}
use netbox_conductor.FileSync.Backup.Source.{Spares, backup_plan-Spares}
use netbox_conductor.FileSync.Batches.{batches, concat, Fits, Greedy, batches_lem}

abbrev edited : SyncFile
edited = record { path = "a"; size = 4; sha256 = "e1"; mtime = 9 }

abbrev partial : SyncFile
partial = record { path = "b.nbc-partial"; size = 2; sha256 = "00"; mtime = 9 }

abbrev lists : Table (List SyncFile)
lists = (1, edited ∷ partial ∷ []) ∷ (2, []) ∷ []

-- At the last sync both had the file.
abbrev before : FileSyncRecord
before = record {
  files = (1, ("a", "e0") ∷ []) ∷ (2, ("a", "e0") ∷ []) ∷ [];
  synced_at = λ n. 5;
  deleted = [];
}

two_way_plan-Agrees_example : Agrees 2 "a" [] (two_way_plan lists before)
two_way_plan-Agrees_example = two_way_plan-Agrees lists before 2 [] "a" sums refl listed
  where
    filled : (s : String) → str_eq s "" ≡ false → s ≢ ""
    filled s h e = both-values _ ((eq_iff s "").1 e) h

    sums : All AreSummed lists
    sums = ((filled "e1" refl, (filled "00" refl, tt)), (tt, tt))

    listed : lookup 2 (index_all lists new_plan).0 ≡ some []
    listed = unfold lookup index_all index in refl

decide-edit_example :
    WinsOrConflicts "e1"
      (decide before (classify "a" before ((1, ("a", edited) ∷ []) ∷ (2, []) ∷ [])))
decide-edit_example =
    decide-edit "a" before ((1, ("a", edited) ∷ []) ∷ (2, []) ∷ []) 1 (("a", edited) ∷ []) edited
      (("a", "e0") ∷ []) (unfold lookup in refl) refl (unfold lookup in refl) (unfold known in refl)

batches_lem_example :
    (concat (batches ("a" ∷ "b/c" ∷ [])) ≡ "a" ∷ "b/c" ∷ [])
    × All Fits (batches ("a" ∷ "b/c" ∷ []))
    × Greedy (batches ("a" ∷ "b/c" ∷ []))
batches_lem_example = batches_lem ("a" ∷ "b/c" ∷ [])

-- The main server 1 and a node that has the same segment file with another checksum.
abbrev archive : Table (List SyncFile)
archive =
    (1, record { path = "archive/m/15-1/00000001"; size = 4; sha256 = "e1"; mtime = 9 } ∷ [])
    ∷ (2, record { path = "archive/m/15-1/00000001"; size = 4; sha256 = "e2"; mtime = 9 } ∷ [])
    ∷ []

backup_plan-Spares_example :
    let own = index_of (lookup 1 (index_all archive new_plan).0) in
    All (Spares 1 own) (backup_plan 1 archive (λ p. true)).copied
    × (removed 1 "archive/m/15-1/00000001" (backup_plan 1 archive (λ p. true)).deletes ≡ false)
backup_plan-Spares_example =
    backup_plan-Spares 1 archive (λ p. true) "archive/m/15-1/00000001" once
      ((filled "e1" refl, tt), ((filled "e2" refl, tt), tt)) refl
  where
    filled : (s : String) → str_eq s "" ≡ false → s ≢ ""
    filled s h e = both-values _ ((eq_iff s "").1 e) h

    once : Once 1 archive
    once = ((λ e. (refl, tt)), ((λ e. tt), tt))
