-- ===== src/FileSync/TwoWay/Winner.antt =====
-- The versions of a path, and the one that goes everywhere.
use Prim.Native.Nat.{Ordering}
use netbox_conductor.Base.{
  ℕ, String, Bool, true, false, ◌≡◌, ◌≢◌, refl, sym, ◌∙◌, ap, Option, none, some, List, [], ◌∷◌,
  str_eq, if◌then◌else◌, Table, is_some, All, arith, inl, inr, Bool-cases, Option-cases, eq_iff,
}
use netbox_conductor.FileSync.{
  is_greater, SyncFile, Index, find, Version, newer, more_recent, max_func, is_partial,
}
use netbox_conductor.FileSync.TwoWay.{
  FileSyncRecord, known, Versions, classify_file, classify, Outcome, spread, delete_everywhere,
  leave, decide_kept, decide_versions, decide,
}

-- An entry of an index: under the file's own path, with a checksum, and no partial file.
abbrev pub IsEntry : String × SyncFile → Type 0
IsEntry (k, f) = (f.path ≡ k) × (f.sha256 ≢ "") × (is_partial k ≡ false)

abbrev pub AreEntries : ℕ × Index → Type 0
AreEntries (node, m) = All IsEntry m

-- A version of the file at the path.
abbrev pub IsOf : String → Version → Type 0
IsOf path v = (v.file.path ≡ path) × (v.file.sha256 ≢ "")

abbrev path_of : SyncFile → Option SyncFile → String
path_of d none = d.path
path_of d (some f) = f.path

abbrev sum_in : SyncFile → Option SyncFile → String
sum_in d none = d.sha256
sum_in d (some f) = f.sha256

pub find-IsEntry :
    (path : String) (m : Index) (f : SyncFile)
    → All IsEntry m
    → find path m ≡ some f
    → (f.path ≡ path) × (f.sha256 ≢ "")
find-IsEntry path [] f a e = absurd (ground arith)
find-IsEntry path ((k, g) ∷ m) f ((p, s, _), a) e = elim (Bool-cases (str_eq k path)) [
  | inl same ↦ here p s ((eq_iff k path).0 same) (rw same at e)
  | inr other ↦ find-IsEntry path m f a (rw other at e)
]
  where
    here :
        {k path : String} {f g : SyncFile}
        → g.path ≡ k
        → g.sha256 ≢ ""
        → k ≡ path
        → some g ≡ some f
        → (f.path ≡ path) × (f.sha256 ≢ "")
    here p s e h = (sym (ap (path_of g) h) ∙ p ∙ e, λ z. s (ap (sum_in g) h ∙ z))

pub record AreOf (path : String) (vs : Versions) : Type 0 where
  pub changed : All (IsOf path) vs.changed
  pub kept : All (IsOf path) vs.kept
  pub fresh : All (IsOf path) vs.fresh

classify_file-AreOf :
    (path : String) (rec : FileSyncRecord) (node : ℕ) (m : Index)
    (old : Option (List (String × String))) (vs : Versions)
    → All IsEntry m
    → AreOf path vs
    → AreOf path (classify_file path rec node (find path m) old vs)
unfolding classify_file
classify_file-AreOf path rec node m old vs a i = elim (Option-cases (find path m)) [
  | inl e ↦ rw e (absent old)
  | inr (f, e) ↦ rw e (there f (find-IsEntry path m f a e) old)
]
  where
    absent :
        (old : Option (List (String × String)))
        → AreOf path (classify_file path rec node none old vs)
    absent none = i
    absent (some t) = elim (Bool-cases (is_some (find path t))) [
      | inl e ↦ rw e record { changed = i.changed; kept = i.kept; fresh = i.fresh }
      | inr e ↦ rw e i
    ]

    there :
        (f : SyncFile)
        → (f.path ≡ path) × (f.sha256 ≢ "")
        → (old : Option (List (String × String)))
        → AreOf path (classify_file path rec node (some f) old vs)
    there f o none = record { changed = i.changed; kept = i.kept; fresh = (o, i.fresh) }
    there f o (some t) = elim (Bool-cases (known path f.sha256 rec.files)) [
      | inl e ↦ rw e record { changed = i.changed; kept = (o, i.kept); fresh = i.fresh }
      | inr e ↦ rw e record { changed = (o, i.changed); kept = i.kept; fresh = i.fresh }
    ]

pub classify-AreOf :
    (path : String) (rec : FileSyncRecord) (have : Table Index)
    → All AreEntries have
    → AreOf path (classify path rec have)
unfolding classify
classify-AreOf path rec [] a = record { changed = tt; kept = tt; fresh = tt }
classify-AreOf path rec ((node, m) ∷ have) (h, a) =
    classify_file-AreOf path rec node m _ _ h (classify-AreOf path rec have a)

either : (P : Version → Type 0) (b : Bool) (v w : Version) → P v → P w → P (if b then v else w)
either P true v w p q = p
either P false v w p q = q

pub max_func-All :
    (P : Version → Type 0) (cmp : Version → Version → Ordering) (m : Version) (vs : List Version)
    → P m
    → All P vs
    → P (max_func cmp m vs)
unfolding max_func
max_func-All P cmp m [] p a = p
max_func-All P cmp m (v ∷ vs) p (q, a) =
    max_func-All P cmp _ vs (either P (is_greater (cmp v m)) v m q p) a

-- What the outcome spreads is a version of the path.
abbrev pub Spreads : String → Outcome → Type 0
Spreads path (spread win) = IsOf path win
Spreads path delete_everywhere = Unit
Spreads path leave = Unit

decide_kept-Spreads :
    (path : String) (rec : FileSyncRecord) (kept fresh : List Version)
    → All (IsOf path) kept
    → All (IsOf path) fresh
    → Spreads path (decide_kept rec kept fresh).0
unfolding decide_kept
decide_kept-Spreads path rec (v ∷ vs) fresh (o, a) b =
    max_func-All (IsOf path) (more_recent rec.synced_at) v vs o a
decide_kept-Spreads path rec [] (v ∷ vs) a (o, b) = max_func-All (IsOf path) newer v vs o b
decide_kept-Spreads path rec [] [] a b = tt

decide_versions-Spreads :
    (path : String) (rec : FileSyncRecord) (changed : List Version) (all : Versions)
    → All (IsOf path) changed
    → AreOf path all
    → Spreads path (decide_versions rec changed all).0
unfolding decide_versions
decide_versions-Spreads path rec (v ∷ vs) all (o, a) i = max_func-All (IsOf path) newer v vs o a
decide_versions-Spreads path rec [] all a i = elim (Bool-cases all.deleted) [
  | inl e ↦ rw e tt
  | inr e ↦ rw e (decide_kept-Spreads path rec all.kept all.fresh i.kept i.fresh)
]

pub decide-Spreads :
    (path : String) (rec : FileSyncRecord) (have : Table Index)
    → All AreEntries have
    → Spreads path (decide rec (classify path rec have)).0
unfolding decide
decide-Spreads path rec have a =
    let i = classify-AreOf path rec have a in
    decide_versions-Spreads path rec _ (classify path rec have) i.changed i

-- Nothing is left alone that some node has.
abbrev Leaves : Outcome → Type 0
Leaves leave = Unit
Leaves _ = ⊥

abbrev IsBare : List Version → List Version → List Version → Type 0
IsBare [] [] [] = Unit
IsBare _ _ _ = ⊥

decide_kept-leave :
    (rec : FileSyncRecord) (kept fresh : List Version)
    → Leaves (decide_kept rec kept fresh).0
    → IsBare [] kept fresh
unfolding decide_kept
decide_kept-leave rec (k ∷ ks) fs h = absurd h
decide_kept-leave rec [] (f ∷ fs) h = absurd h
decide_kept-leave rec [] [] h = tt

decide_versions-leave :
    (rec : FileSyncRecord) (changed : List Version) (all : Versions)
    → Leaves (decide_versions rec changed all).0
    → IsBare changed all.kept all.fresh
unfolding decide_versions
decide_versions-leave rec (v ∷ vs) all h = absurd h
decide_versions-leave rec [] all h = elim (Bool-cases all.deleted) [
  | inl e ↦ absurd (rw e at h)
  | inr e ↦ decide_kept-leave rec all.kept all.fresh (rw e at h)
]

classify_file-IsBare :
    (path : String) (rec : FileSyncRecord) (node : ℕ) (f : Option SyncFile)
    (old : Option (List (String × String))) (vs : Versions)
    → let vs' = classify_file path rec node f old vs in
      IsBare vs'.changed vs'.kept vs'.fresh → (f ≡ none) × IsBare vs.changed vs.kept vs.fresh
unfolding classify_file
classify_file-IsBare path rec node none none vs h = (refl, h)
classify_file-IsBare path rec node none (some t) vs h = elim (Bool-cases (is_some (find path t))) [
  | inl e ↦ (refl, rw e at h)
  | inr e ↦ (refl, rw e at h)
]
classify_file-IsBare path rec node (some f) none vs h = absurd (not_fresh vs.changed vs.kept _ _ h)
  where
    not_fresh : (c k : List Version) (v : Version) (fs : List Version) → IsBare c k (v ∷ fs) → ⊥
    not_fresh [] [] v fs h = h
    not_fresh [] (_ ∷ _) v fs h = h
    not_fresh (_ ∷ _) k v fs h = h
classify_file-IsBare path rec node (some f) (some t) vs h =
    elim (Bool-cases (known path f.sha256 rec.files)) [
      | inl e ↦ absurd (not_kept vs.changed _ _ _ (rw e at h))
      | inr e ↦ absurd (rw e at h)
    ]
  where
    not_kept : (c : List Version) (v : Version) (ks fs : List Version) → IsBare c (v ∷ ks) fs → ⊥
    not_kept [] v ks fs h = h
    not_kept (_ ∷ _) v ks fs h = h

-- No listed node has the file.
abbrev pub HasNone : String → Table Index → Type 0
HasNone path have = All (λ (e : ℕ × Index). find path e.1 ≡ none) have

classify-HasNone :
    (path : String) (rec : FileSyncRecord) (have : Table Index)
    → let vs = classify path rec have in IsBare vs.changed vs.kept vs.fresh → HasNone path have
unfolding classify
classify-HasNone path rec [] h = tt
classify-HasNone path rec ((node, m) ∷ have) h =
    let (gone, rest) =
      classify_file-IsBare path rec node (find path m) _ (classify path rec have) h in
    (gone, classify-HasNone path rec have rest)

pub decide-leave :
    (path : String) (rec : FileSyncRecord) (have : Table Index)
    → (decide rec (classify path rec have)).0 ≡ leave
    → HasNone path have
unfolding decide
decide-leave path rec have e =
    classify-HasNone path rec have (decide_versions-leave rec _ (classify path rec have) (leaves e))
  where
    leaves : {o : Outcome} → o ≡ leave → Leaves o
    leaves e = rw e tt
