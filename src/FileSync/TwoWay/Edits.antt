-- ===== src/FileSync/TwoWay/Edits.antt =====
-- A two-way sync loses no edit without noting a conflict.
use netbox_conductor.Base.{
  some-inj, ℕ, String, Bool, true, false, ◌||◌, ◌≡◌, ◌⊎◌, refl, sym, ◌∙◌, Option, none, some, List,
  [], ◌∷◌, str_eq, Table, lookup, is_some, All, arith, inl, inr, Bool-cases, eq_iff, ◌==◌, ==_iff,
}
use netbox_conductor.FileSync.{SyncFile, Index, find, Version, newer, max_func, differ}
use netbox_conductor.FileSync.TwoWay.{
  FileSyncRecord, known, Versions, classify_file, classify, Outcome, spread, decide_versions,
  decide,
}
use netbox_conductor.FileSync.TwoWay.Winner.{max_func-All}

-- The node has an entry with this sum among the versions.
HasSum : String → List Version → Type 0
HasSum sum [] = ⊥
HasSum sum (v ∷ vs) = (v.file.sha256 ≡ sum) ⊎ HasSum sum vs

-- The versions that were found so far stay.
classify_file-keeps :
    (path : String) (rec : FileSyncRecord) (node : ℕ) (f : Option SyncFile)
    (old : Option (List (String × String))) (vs : Versions) (sum : String)
    → HasSum sum vs.changed
    → HasSum sum (classify_file path rec node f old vs).changed
unfolding classify_file HasSum
classify_file-keeps path rec node none none vs sum h = h
classify_file-keeps path rec node (some f) none vs sum h = h
classify_file-keeps path rec node (some f) (some old) vs sum h =
    elim (Bool-cases (known path f.sha256 rec.files)) [ inl e ↦ rw e h | inr e ↦ rw e (inr h) ]
classify_file-keeps path rec node none (some old) vs sum h =
    elim (Bool-cases (is_some (find path old))) [ inl e ↦ rw e h | inr e ↦ rw e h ]

file_here :
    (path : String) (rec : FileSyncRecord) (n : ℕ) (f : SyncFile) (old : List (String × String))
    (vs : Versions)
    → known path f.sha256 rec.files ≡ false
    → HasSum f.sha256 (classify_file path rec n (some f) (some old) vs).changed
unfolding classify_file HasSum
file_here path rec n f old vs k = rw k (inl refl)

classify-changed :
    (path : String) (rec : FileSyncRecord) (have : Table Index) (n : ℕ) (m : Index) (f : SyncFile)
    (old : List (String × String))
    → lookup n have ≡ some m
    → find path m ≡ some f
    → lookup n rec.files ≡ some old
    → known path f.sha256 rec.files ≡ false
    → HasSum f.sha256 (classify path rec have).changed
unfolding classify lookup
classify-changed path rec [] n m f old l g r k = absurd (ground arith)
classify-changed path rec ((j, t) ∷ have) n m f old l g r k = elim (Bool-cases (j == n)) [
  | inl own ↦ rw (some-inj (rw own at l), (==_iff j n).0 own, g, r) (here (classify path rec have))
  | inr other ↦
      classify_file-keeps path rec j (find path t) (lookup j rec.files) (classify path rec have)
        f.sha256 (classify-changed path rec have n m f old (rw other at l) g r k)
]
  where
    here :
        (vs : Versions) → HasSum f.sha256 (classify_file path rec n (some f) (some old) vs).changed
    here vs = file_here path rec n f old vs k

-- All versions have the first one's sum, unless they differ.
differ-All :
    (first : Version) (vs : List Version)
    → differ first vs ≡ false
    → All (λ v. v.file.sha256 ≡ first.file.sha256) vs
unfolding differ
differ-All first [] h = tt
differ-All first (v ∷ vs) h = elim (Bool-cases (str_eq v.file.sha256 first.file.sha256)) [
  | inl e ↦ ((eq_iff _ _).0 e, differ-All first vs (rw e at h))
  | inr e ↦ absurd (not_both (rw e at h))
]
  where
    not_both : true ≡ false → ⊥
    not_both e = ground arith

same-sum :
    (sum : String) (first : Version) (vs : List Version)
    → All (λ v. v.file.sha256 ≡ first.file.sha256) vs
    → HasSum sum vs
    → first.file.sha256 ≡ sum
unfolding HasSum
same-sum sum first [] a h = absurd h
same-sum sum first (v ∷ vs) (e, a) (inl h) = sym e ∙ h
same-sum sum first (v ∷ vs) (e, a) (inr h) = same-sum sum first vs a h

abbrev pub WinsOrConflicts : String → Outcome × Bool → Type 0
WinsOrConflicts sum (o, conflict) =
    (win : Version) × (o ≡ spread win) × ((win.file.sha256 ≡ sum) ⊎ (conflict ≡ true))

decide_versions-edit :
    (rec : FileSyncRecord) (changed : List Version) (all : Versions) (sum : String)
    → HasSum sum changed
    → WinsOrConflicts sum (decide_versions rec changed all)
unfolding decide_versions HasSum
decide_versions-edit rec [] all sum h = absurd h
decide_versions-edit rec (v ∷ vs) all sum h = (
  max_func newer v vs,
  refl,
  elim (Bool-cases (all.deleted || differ v vs)) [
    | inl e ↦ inr e
    | inr e ↦ inl (agreed (differ-All v vs (second all.deleted _ e)) h)
  ],
)
  where
    second : (a b : Bool) → (a || b) ≡ false → b ≡ false
    second a b h = ground arith

    agreed :
        All (λ w. w.file.sha256 ≡ v.file.sha256) vs
        → (v.file.sha256 ≡ sum) ⊎ HasSum sum vs
        → (max_func newer v vs).file.sha256 ≡ sum
    agreed a (inl s) = max_func-All (λ w. w.file.sha256 ≡ v.file.sha256) newer v vs refl a ∙ s
    agreed a (inr s) =
        max_func-All (λ w. w.file.sha256 ≡ v.file.sha256) newer v vs refl a ∙ same-sum sum v vs a s

-- A listed node that synced before, with a version of a file that no node had at its last sync: the
-- file is deleted nowhere, and either this content goes everywhere, or the path is noted as a conflict.
pub decide-edit :
    (path : String) (rec : FileSyncRecord) (have : Table Index) (n : ℕ) (m : Index) (f : SyncFile)
    (old : List (String × String))
    → lookup n have ≡ some m
    → find path m ≡ some f
    → lookup n rec.files ≡ some old
    → known path f.sha256 rec.files ≡ false
    → WinsOrConflicts f.sha256 (decide rec (classify path rec have))
unfolding decide
decide-edit path rec have n m f old l g r k =
    decide_versions-edit rec _ (classify path rec have) f.sha256
      (classify-changed path rec have n m f old l g r k)
