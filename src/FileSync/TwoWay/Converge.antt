-- ===== src/FileSync/TwoWay/Converge.antt =====
-- After a two-way sync the listed nodes agree.
use netbox_conductor.Base.{
  both-values, some-inj, ℕ, String, Bool, true, false, ◌||◌, ◌≡◌, refl, ◌∙◌, Option, none, some,
  List, [], ◌∷◌, str_eq, if◌then◌else◌, Table, lookup, is_some, All, arith, inl, inr, Bool-cases,
  Option-cases, eq_iff, ◌==◌,
}
use netbox_conductor.FileSync.{SyncFile, Plan, new_plan, Index, find, contains, is_partial}
use netbox_conductor.FileSync.TwoWay.{
  FileSyncRecord, index_all, all_paths, Outcome, spread, delete_everywhere, leave, note_conflict,
  carry_out, settle, settle_all, two_way_plan,
}
use netbox_conductor.FileSync.TwoWay.Paths.{NoDup, all_paths-NoDup, all_paths-listed}
use netbox_conductor.FileSync.TwoWay.Indexes.{AreSummed, index_all-AreEntries, index_all-SameAt}
use netbox_conductor.FileSync.TwoWay.Winner.{AreEntries, Spreads, decide-Spreads, decide-leave}
use netbox_conductor.FileSync.TwoWay.Effects.{
  got, removed, after, SameAt, SameAt-refl, SameAt-trans, spread_to-other, spread_to-deletes,
  spread_to-got, delete_from-same, delete_from-other, delete_from-removed,
}

find-set_other :
    (path other sum : String) (t : List (String × String))
    → str_eq path other ≡ false
    → find other ((path, sum) ∷ t) ≡ find other t
find-set_other path other sum t h = rw h refl

note-SameAt :
    (n : ℕ) (other : String) (b : Bool) (path : String) (p : Plan)
    → SameAt n other (note_conflict b path p) p
note-SameAt n other true path p = record { copied = refl; deletes = refl; files = refl }
note-SameAt n other false path p = SameAt-refl n other p

carry_out-other :
    (n : ℕ) (path other : String) (have : Table Index) (o : Outcome) (p : Plan)
    → Spreads path o
    → str_eq path other ≡ false
    → SameAt n other (carry_out path have o p) p
unfolding carry_out
carry_out-other n path other have (spread win) p (same, _) h =
    let s = spread_to-other win path n other have _ (rw same h) in
    record {
      copied = s.copied;
      deletes = s.deletes;
      files = s.files ∙ find-set_other path other _ p.files h;
    }
carry_out-other n path other have delete_everywhere p s h =
    let d = delete_from-same path n other have _ in
    record { copied = d.0; deletes = delete_from-other path n other have _ h; files = d.1 }
carry_out-other n path other have leave p s h = SameAt-refl n other p

-- Nothing was done to the path on the node so far.
pub record IsClean (n : ℕ) (path : String) (p : Plan) : Type 0 where
  pub copied : got n path p.copied ≡ none
  pub deletes : removed n path p.deletes ≡ false
  pub files : find path p.files ≡ none

SameAt-IsClean :
    {n : ℕ} {path : String} {p q : Plan} → SameAt n path p q → IsClean n path q → IsClean n path p
SameAt-IsClean s c = record {
  copied = s.copied ∙ c.copied;
  deletes = s.deletes ∙ c.deletes;
  files = s.files ∙ c.files;
}

-- The node's file after the plan is the one that the plan has for all.
abbrev pub Agrees : ℕ → String → Index → Plan → Type 0
Agrees n path m p = after p n path (find path m) ≡ find path p.files

SameAt-Agrees :
    (n : ℕ) (path : String) (m : Index) (p q : Plan)
    → SameAt n path p q
    → Agrees n path m q
    → Agrees n path m p
SameAt-Agrees n path m p q s a = rw (s.copied, s.deletes, s.files) a

lookup-All :
    (P : Index → Type 0) (n : ℕ) (m : Index) (have : Table Index)
    → All (λ (e : ℕ × Index). P e.1) have
    → lookup n have ≡ some m
    → P m
unfolding lookup
lookup-All P n m [] a h = absurd (ground arith)
lookup-All P n m ((k, t) ∷ have) (p, a) h = elim (Bool-cases (k == n)) [
  | inl own ↦ rw (some-inj (rw own at h)) at p
  | inr other ↦ lookup-All P n m have a (rw other at h)
]

deleted-Agrees :
    (n : ℕ) (path : String) (m : Index) (q : Plan)
    → got n path q.copied ≡ none
    → find path q.files ≡ none
    → (is_some (find path m) ≡ true → removed n path q.deletes ≡ true)
    → Agrees n path m q
deleted-Agrees n path m q g f d = elim (Option-cases (find path m)) [
  | inl e ↦ rw (g, f, e) (either (removed n path q.deletes))
  | inr (x, e) ↦ rw (f, d (rw e refl)) refl
]
  where
    either : (b : Bool) → if◌then◌else◌ {A = Option String} b none none ≡ none
    either true = refl
    either false = refl

carry_out-own :
    (n : ℕ) (path : String) (m : Index) (have : Table Index) (o : Outcome) (p : Plan)
    → Spreads path o
    → (o ≡ leave → find path m ≡ none)
    → lookup n have ≡ some m
    → IsClean n path p
    → Agrees n path m (carry_out path have o p)
unfolding carry_out
carry_out-own n path m have (spread win) p (same, sum) z l c =
    let (d, f) =
      spread_to-deletes win path n path have
        (record p { files = (path, win.file.sha256) ∷ p.files }) in
    rw (d, f, c.deletes, (eq_iff path path).1 refl)
      (spread_to-got win path n m have _ same sum l c.copied)
carry_out-own n path m have delete_everywhere p s z l c =
    let (g, f) = delete_from-same path n path have (record p { deleted = path ∷ p.deleted }) in
    deleted-Agrees n path m (carry_out path have delete_everywhere p) (g ∙ c.copied) (f ∙ c.files)
      (delete_from-removed path n m have _ l)
carry_out-own n path m have leave p s z l c = rw (z refl, c.copied, c.deletes, c.files) refl

module _ (rec : FileSyncRecord) (have : Table Index) (entries : All AreEntries have) where
  settle-other :
      (n : ℕ) (path other : String) (p : Plan)
      → str_eq path other ≡ false
      → SameAt n other (settle rec have path p) p
  unfolding settle
  settle-other n path other p h =
      SameAt-trans (carry_out-other n path other have _ _ (decide-Spreads path rec have entries) h)
        (note-SameAt n other _ path p)

  settle-own :
      (n : ℕ) (path : String) (m : Index) (p : Plan)
      → lookup n have ≡ some m
      → IsClean n path p
      → Agrees n path m (settle rec have path p)
  unfolding settle
  settle-own n path m p l c =
      carry_out-own n path m have _ _ (decide-Spreads path rec have entries)
        (λ z. lookup-All (λ t. find path t ≡ none) n m have (decide-leave path rec have z) l) l
        (SameAt-IsClean (note-SameAt n path _ path p) c)

  settle_all-other :
      (n : ℕ) (other : String) (paths : List String) (p : Plan)
      → contains other paths ≡ false
      → SameAt n other (settle_all rec have paths p) p
  unfolding settle_all
  settle_all-other n other [] p h = SameAt-refl n other p
  settle_all-other n other (path ∷ paths) p h =
      SameAt-trans (settle_all-other n other paths _ (both (str_eq path other) _ h).1)
        (settle-other n path other p (both (str_eq path other) _ h).0)
    where
      both : (a b : Bool) → (a || b) ≡ false → (a ≡ false) × (b ≡ false)
      both a b h = ground arith

  settle_all-own :
      (n : ℕ) (path : String) (m : Index) (paths : List String) (p : Plan)
      → NoDup paths
      → contains path paths ≡ true
      → lookup n have ≡ some m
      → IsClean n path p
      → Agrees n path m (settle_all rec have paths p)
  unfolding settle_all
  settle_all-own n path m [] p d h l c = absurd (ground arith)
  settle_all-own n path m (k ∷ ks) p (once, d) h l c = elim (Bool-cases (str_eq k path)) [
    | inl own ↦
        let e = (eq_iff k path).0 own in
        rw e (
          SameAt-Agrees n path m _ _ (settle_all-other n path ks _ (rw e at once))
            (settle-own n path m p l c))
    | inr other ↦
        settle_all-own n path m ks _ d (rw other at h) l
          (SameAt-IsClean (settle-other n k path p other) c)
  ]

untouched-Agrees :
    (n : ℕ) (path : String) (m : Index) (p : Plan)
    → find path m ≡ none
    → IsClean n path p
    → Agrees n path m p
untouched-Agrees n path m p e c = rw (e, c.copied, c.deletes, c.files) refl

-- After a two-way sync of listings whose files all have a checksum, every listed node has the same
-- files: at each path that is no leftover partial file, the node's own file, if it was not deleted or
-- replaced by a copy, or else the last copy sent to it, has the checksum that the plan records for the path,
-- and the node has none if the plan records none. `m` is the node's listing by path.
pub two_way_plan-Agrees :
    (lists : Table (List SyncFile)) (rec : FileSyncRecord) (n : ℕ) (m : Index) (path : String)
    → All AreSummed lists
    → is_partial path ≡ false
    → lookup n (index_all lists new_plan).0 ≡ some m
    → Agrees n path m (two_way_plan lists rec)
unfolding two_way_plan
two_way_plan-Agrees lists rec n m path sums whole l =
    let have = (index_all lists new_plan).0 in
    let p = (index_all lists new_plan).1 in
    let entries = index_all-AreEntries lists new_plan sums in
    let clean : IsClean n path p =
      SameAt-IsClean (index_all-SameAt n path lists new_plan whole)
        record { copied = refl; deletes = refl; files = refl } in
    elim (Bool-cases (contains path (all_paths rec have))) [
      | inl e ↦ settle_all-own rec have entries n path m _ p (all_paths-NoDup rec have) e l clean
      | inr e ↦
          let gone =
            untouched-Agrees n path m p
              (unlisted (find path m) (all_paths-listed rec have n m path l) e) clean in
          SameAt-Agrees n path m _ p (settle_all-other rec have entries n path _ p e) gone
    ]
  where
    unlisted :
        {b : Bool} (o : Option SyncFile) → (is_some o ≡ true → b ≡ true) → b ≡ false → o ≡ none
    unlisted none f e = refl
    unlisted (some x) f e = absurd (both-values _ (f refl) e)
