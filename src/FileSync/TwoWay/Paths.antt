-- ===== src/FileSync/TwoWay/Paths.antt =====
-- The paths that a two-way sync goes through.
use netbox_conductor.Base.{
  or-right, some-inj, ℕ, String, true, false, ◌||◌, ◌≡◌, refl, sym, ◌∙◌, Option, none, some, List,
  [], ◌∷◌, str_eq, Table, lookup, is_some, arith, inl, inr, Bool-cases, eq_iff, ◌==◌,
}
use netbox_conductor.FileSync.{Index, find, contains}
use netbox_conductor.FileSync.TwoWay.{
  FileSyncRecord, add_path, add_keys, add_all, recorded_keys, all_paths,
}

-- Each path occurs once.
abbrev pub NoDup : List String → Type 0
NoDup [] = Unit
NoDup (k ∷ ks) = (contains k ks ≡ false) × NoDup ks

contains-add :
    (x k : String) (ps : List String) → contains x (add_path k ps) ≡ (str_eq k x || contains x ps)
contains-add x k ps = elim (Bool-cases (contains k ps)) [
  | inr e ↦ rw e refl
  | inl e ↦ elim (Bool-cases (str_eq k x)) [
    | inl s ↦ rw (e, s, (rw ((eq_iff k x).0 s) at e)) refl
    | inr s ↦ rw (e, s) refl
  ]
]

add_path-NoDup : (k : String) (ps : List String) → NoDup ps → NoDup (add_path k ps)
add_path-NoDup k ps d = elim (Bool-cases (contains k ps)) [ inl e ↦ rw e d | inr e ↦ rw e (e, d) ]

module _ {V : Type 0} where
  add_keys-NoDup : (t : List (String × V)) (ps : List String) → NoDup ps → NoDup (add_keys t ps)
  add_keys-NoDup [] ps d = d
  add_keys-NoDup ((k, v) ∷ t) ps d = add_path-NoDup k _ (add_keys-NoDup t ps d)

  add_keys-keeps :
      (x : String) (t : List (String × V)) (ps : List String)
      → contains x ps ≡ true
      → contains x (add_keys t ps) ≡ true
  add_keys-keeps x [] ps h = h
  add_keys-keeps x ((k, v) ∷ t) ps h =
      contains-add x k _ ∙ rw (add_keys-keeps x t ps h) (or-right (str_eq k x))

  add_keys-adds :
      (x : String) (t : List (String × V)) (ps : List String)
      → is_some (find x t) ≡ true
      → contains x (add_keys t ps) ≡ true
  add_keys-adds x [] ps h = absurd (ground arith)
  add_keys-adds x ((k, v) ∷ t) ps h = elim (Bool-cases (str_eq k x)) [
    | inl s ↦ contains-add x k _ ∙ rw s refl
    | inr s ↦ contains-add x k _ ∙ rw s (add_keys-adds x t ps (rw s at h))
  ]

recorded-NoDup :
    (o : Option (List (String × String))) (ps : List String) → NoDup ps → NoDup (recorded_keys o ps)
recorded-NoDup none ps d = d
recorded-NoDup (some t) ps d = add_keys-NoDup t ps d

recorded-keeps :
    (x : String) (o : Option (List (String × String))) (ps : List String)
    → contains x ps ≡ true
    → contains x (recorded_keys o ps) ≡ true
recorded-keeps x none ps h = h
recorded-keeps x (some t) ps h = add_keys-keeps x t ps h

add_all-NoDup : (ks : List String) → NoDup (add_all ks [])
add_all-NoDup [] = tt
add_all-NoDup (k ∷ ks) = add_path-NoDup k _ (add_all-NoDup ks)

pub all_paths-NoDup : (rec : FileSyncRecord) (have : Table Index) → NoDup (all_paths rec have)
unfolding all_paths
all_paths-NoDup rec [] = add_all-NoDup rec.deleted
all_paths-NoDup rec ((n, m) ∷ have) =
    add_keys-NoDup m _ (recorded-NoDup (lookup n rec.files) _ (all_paths-NoDup rec have))

-- Every path of a listed node is in the loop.
pub all_paths-listed :
    (rec : FileSyncRecord) (have : Table Index) (n : ℕ) (m : Index) (x : String)
    → lookup n have ≡ some m
    → is_some (find x m) ≡ true
    → contains x (all_paths rec have) ≡ true
unfolding all_paths lookup
all_paths-listed rec [] n m x l h = absurd (ground arith)
all_paths-listed rec ((k, t) ∷ have) n m x l h = elim (Bool-cases (k == n)) [
  | inl own ↦ add_keys-adds x t _ (rw (sym (some-inj (rw own at l))) at h)
  | inr other ↦
      add_keys-keeps x t _ (
        recorded-keeps x (lookup k rec.files) _ (all_paths-listed rec have n m x (rw other at l) h))
]
