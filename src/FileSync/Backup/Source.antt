-- ===== src/FileSync/Backup/Source.antt =====
-- A backup sync leaves the main server's files as they are.
use mathlib.Core.Path.{subst}
use netbox_conductor.Base.{
  both-values, ℕ, String, Bool, true, false, ◌&&◌, not, ◌≡◌, ◌⊎◌, refl, sym, ◌∙◌, ap, none, some,
  List, [], ◌∷◌, str_eq, Table, lookup, is_some, All, arith, inl, inr, Bool-cases, eq_iff, ◌==◌,
}
use netbox_conductor.FileSync.{
  SyncFile, Copy, Plan, new_plan, Index, find, is_partial, index_from, index,
}
use netbox_conductor.FileSync.TwoWay.{index_all, sum_of}
use netbox_conductor.FileSync.TwoWay.Winner.{IsEntry}
use netbox_conductor.FileSync.TwoWay.Effects.{removed}
use netbox_conductor.FileSync.TwoWay.Indexes.{AreSummed, index_all-AreEntries, index_all-SameAt}
use netbox_conductor.FileSync.Backup.{
  is_wal, wal_segment, conflicted, Want, own_files, kept_apart, copy_wanted, delete_unwanted,
  spread_to_node, spread_all, index_of, want_of, backup_plan,
}
use netbox_conductor.FileSync.Backup.Tables.{
  Unique, index_all-AreUnique, Once, index_all-Once, IsAt, Once-IsAt, index_of-All,
}
use netbox_conductor.FileSync.Backup.Wanted.{
  IsWanted, gather-IsWanted, Unique-IsFound, own_files-IsWanted, own_files-Covers,
}

module _ (source : ℕ) (own : Index) where
  -- A copy to the main server is of a path that it lacks.
  abbrev pub Spares : Copy → Type 0
  Spares c = (c.target == source) ≡ true → find c.file.path own ≡ none

  copy_wanted-Spares :
      (have : Table Index) (node : ℕ) (m : Index) (want : Want) (p : Plan)
      → ((node == source) ≡ true → m ≡ own)
      → All (IsWanted own) want
      → All Spares p.copied
      → All Spares (copy_wanted have node m want p).copied
  unfolding copy_wanted
  copy_wanted-Spares have node m [] p at_source w a = a
  copy_wanted-Spares have node m ((path, v) ∷ want) p at_source ((same, which), w) a =
      let rest = copy_wanted-Spares have node m want p at_source w a in
      elim (Bool-cases
        (not (str_eq (sum_of (find path m)) v.file.sha256) && not (kept_apart have m path))) [
          | inr skips ↦ rw skips rest
          | inl does ↦ rw does (λ e. rw same (lacks (at_source e) (first _ _ does) which), rest)
        ]
    where
      first : (a b : Bool) → (not a && b) ≡ true → a ≡ false
      first a b h = ground arith

      lacks :
          m ≡ own
          → str_eq (sum_of (find path m)) v.file.sha256 ≡ false
          → (find path own ≡ some v.file) ⊎ (find path own ≡ none)
          → find path own ≡ none
      lacks e d (inr h) = h
      lacks e d (inl h) =
          absurd (both-values _ ((eq_iff v.file.sha256 v.file.sha256).1 refl) (rw (e, h) at d))

  copy_wanted-deletes :
      (have : Table Index) (node : ℕ) (m : Index) (want : Want) (p : Plan)
      → (copy_wanted have node m want p).deletes ≡ p.deletes
  unfolding copy_wanted
  copy_wanted-deletes have node m [] p = refl
  copy_wanted-deletes have node m ((path, v) ∷ want) p =
      elim (Bool-cases
        (not (str_eq (sum_of (find path m)) v.file.sha256) && not (kept_apart have m path))) [
          | inr skips ↦ rw skips (copy_wanted-deletes have node m want p)
          | inl does ↦ rw does (copy_wanted-deletes have node m want p)
        ]

  delete_unwanted-copied :
      (have : Table Index) (node : ℕ) (want : Want) (m : Index) (p : Plan)
      → (delete_unwanted have node want m p).copied ≡ p.copied
  unfolding delete_unwanted
  delete_unwanted-copied have node want [] p = refl
  delete_unwanted-copied have node want ((path, f) ∷ m) p =
      elim (Bool-cases (
        not (is_some (find path want))
        && not (is_wal path && conflicted have (wal_segment path)))) [
          | inr skips ↦ rw skips (delete_unwanted-copied have node want m p)
          | inl does ↦ rw does (delete_unwanted-copied have node want m p)
        ]

  delete_unwanted-removed :
      (have : Table Index) (node : ℕ) (want : Want) (m : Index) (p : Plan) (x : String)
      → (node == source) ≡ false
      → removed source x (delete_unwanted have node want m p).deletes ≡ removed source x p.deletes
  unfolding delete_unwanted
  delete_unwanted-removed have node want [] p x other = refl
  delete_unwanted-removed have node want ((path, f) ∷ m) p x other =
      elim (Bool-cases (
        not (is_some (find path want))
        && not (is_wal path && conflicted have (wal_segment path)))) [
          | inr skips ↦ rw skips (delete_unwanted-removed have node want m p x other)
          | inl does ↦ rw (does, other) (delete_unwanted-removed have node want m p x other)
        ]

  spread_to_node-Spares :
      (have : Table Index) (node : ℕ) (m : Index) (want : Want) (p : Plan) (x : String)
      → ((node == source) ≡ true → m ≡ own)
      → All (IsWanted own) want
      → All Spares p.copied
      → All Spares (spread_to_node source have want node m p).copied
        × (removed source x (spread_to_node source have want node m p).deletes
            ≡ removed source x p.deletes)
  unfolding spread_to_node
  spread_to_node-Spares have node m want p x h w a =
      let copied = copy_wanted-Spares have node m want p h w a in
      let same = ap (removed source x) (copy_wanted-deletes have node m want p) in
      elim (Bool-cases (node == source)) [
        | inl here ↦ rw here (copied, same)
        | inr other ↦ rw other (
          subst (All Spares) (sym (delete_unwanted-copied have node want m _)) copied,
          delete_unwanted-removed have node want m _ x other ∙ same,
        )
      ]

  spread_all-Spares :
      (have rest : Table Index) (want : Want) (p : Plan) (x : String)
      → IsAt source own rest
      → All (IsWanted own) want
      → All Spares p.copied
      → All Spares (spread_all source have want rest p).copied
        × (removed source x (spread_all source have want rest p).deletes
            ≡ removed source x p.deletes)
  unfolding spread_all
  spread_all-Spares have [] want p x i w a = (a, refl)
  spread_all-Spares have ((node, m) ∷ rest) want p x (h, i) w a =
      let (s, d) = spread_to_node-Spares have node m want p x h w a in
      let (s', d') = spread_all-Spares have rest want _ x i w s in (s', d' ∙ d)

index_from-copied :
    (node : ℕ) (fs : List SyncFile) (m : Index) (p : Plan)
    → (index_from node fs m p).1.copied ≡ p.copied
unfolding index_from
index_from-copied node [] m p = refl
index_from-copied node (f ∷ fs) m p = elim (Bool-cases (is_partial f.path)) [
  | inl e ↦ rw e (index_from-copied node fs m _)
  | inr e ↦ rw e (index_from-copied node fs _ p)
]

index_all-copied :
    (lists : Table (List SyncFile)) (p : Plan) → (index_all lists p).1.copied ≡ p.copied
unfolding index_all index
index_all-copied [] p = refl
index_all-copied ((node, files) ∷ lists) p =
    index_all-copied lists _ ∙ index_from-copied node files [] p

-- A sync of a repository whose main server is listed once, with a checksum for every file: each copy that
-- goes to the main server is of a path that it does not have, and it deletes none but leftover
-- partial files; so none of its own files is overwritten or deleted.
pub backup_plan-Spares :
    (source : ℕ) (lists : Table (List SyncFile)) (keep : String → Bool) (x : String)
    → Once source lists
    → All AreSummed lists
    → is_partial x ≡ false
    → let own = index_of (lookup source (index_all lists new_plan).0) in
      All (Spares source own) (backup_plan source lists keep).copied
      × (removed source x (backup_plan source lists keep).deletes ≡ false)
unfolding backup_plan want_of
backup_plan-Spares source lists keep x once sums whole =
    let have = (index_all lists new_plan).0 in
    let own = index_of (lookup source have) in
    let entries = index_all-AreEntries lists new_plan sums in
    let own_entries = index_of-All (All IsEntry) source have tt entries in
    let own_found =
      Unique-IsFound own
        (index_of-All Unique source have tt (index_all-AreUnique lists new_plan)) in
    let wanted =
      gather-IsWanted own keep have have (own_files source own) entries
        (own_files-IsWanted source own own own_entries own_found)
        (λ y. own_files-Covers source own y own) in
    let (s, d) =
      spread_all-Spares source own have have _ _ x
        (Once-IsAt source have (index_all-Once source lists new_plan once)) wanted
        (subst (All (Spares source own)) (sym (index_all-copied lists new_plan)) tt) in
    (s, d ∙ (index_all-SameAt source x lists new_plan whole).deletes)
