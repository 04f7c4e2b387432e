-- ===== src/FileSync/Backup/Wanted.antt =====
-- What a backup sync spreads: the main server's files, and WAL that it lacks.
use netbox_conductor.Base.{
  some-none, ℕ, String, Bool, false, ◌||◌, not, ◌≡◌, ◌⊎◌, refl, sym, Option, none, some, [], ◌∷◌,
  str_eq, Table, is_some, All, arith, inl, inr, Bool-cases, eq_iff,
}
use netbox_conductor.FileSync.{SyncFile, Index, find, set, has_suffix, Version}
use netbox_conductor.FileSync.TwoWay.Winner.{IsEntry, AreEntries}
use netbox_conductor.FileSync.Backup.{
  is_wal, wal_segment, conflicted, Want, own_files, gather_from, gather,
}
use netbox_conductor.FileSync.Backup.Tables.{Fresh, Unique}

module _ (own : Index) where
  -- A wanted version: under its own path, and either the main server's, or of a path that it lacks.
  abbrev pub IsWanted : String × Version → Type 0
  IsWanted (path, v) =
      (v.file.path ≡ path) × ((find path own ≡ some v.file) ⊎ (find path own ≡ none))

  abbrev pub Covers : Want → Type 0
  Covers want = (x : String) → find x want ≡ none → find x own ≡ none

  set-IsWanted :
      (path : String) (v : Version) (want : Want)
      → IsWanted (path, v)
      → All IsWanted want
      → All IsWanted (set path v want)
  set-IsWanted path v [] w a = (w, tt)
  set-IsWanted path v ((k, u) ∷ want) w (b, a) = elim (Bool-cases (str_eq k path)) [
    | inl same ↦ rw same (w, a)
    | inr other ↦ rw other (b, set-IsWanted path v want w a)
  ]

  find-set :
      (x path : String) (v : Version) (want : Want)
      → find x (set path v want) ≡ none
      → find x want ≡ none
  find-set x path v [] h = refl
  find-set x path v ((k, u) ∷ want) h = elim (Bool-cases (str_eq k path)) [
    | inl same ↦ elim (Bool-cases (str_eq k x)) [
      | inl here ↦ absurd (some-none (rw (same, sym ((eq_iff k path).0 same), here) at h))
      | inr gone ↦ rw gone (rw (same, sym ((eq_iff k path).0 same), gone) at h)
    ]
    | inr other ↦ elim (Bool-cases (str_eq k x)) [
      | inl here ↦ absurd (some-none (rw (other, here) at h))
      | inr gone ↦ rw gone (find-set x path v want (rw (other, gone) at h))
    ]
  ]

  gather_from-IsWanted :
      (keep : String → Bool) (have : Table Index) (node : ℕ) (m : Index) (want : Want)
      → All IsEntry m
      → All IsWanted want
      → Covers want
      → All IsWanted (gather_from keep have node m want)
        × Covers (gather_from keep have node m want)
  unfolding gather_from
  gather_from-IsWanted keep have node [] want i a c = (a, c)
  gather_from-IsWanted keep have node ((path, f) ∷ m) want ((p, _, _), i) a c =
      let skip = gather_from-IsWanted keep have node m want i a c in
      elim (Bool-cases
        (is_some (find path want) || (not (is_wal path) || conflicted have (wal_segment path)))) [
          | inl out ↦ rw out skip
          | inr new ↦ rw new (elim (Bool-cases (has_suffix path ".history" || keep path)) [
            | inr old ↦ rw old skip
            | inl kept ↦ rw kept (
                gather_from-IsWanted keep have node m _ i
                  (set-IsWanted path _ want (p, inr (c path (lacks (find path want) _ new))) a)
                  (λ x h. c x (find-set x path _ want h)))
          ])
        ]
    where
      lacks : (o : Option Version) (b : Bool) → (is_some o || b) ≡ false → o ≡ none
      lacks none b h = refl
      lacks (some v) b h = absurd (ground arith)

  pub gather-IsWanted :
      (keep : String → Bool) (have rest : Table Index) (want : Want)
      → All AreEntries rest
      → All IsWanted want
      → Covers want
      → All IsWanted (gather keep have rest want)
  unfolding gather
  gather-IsWanted keep have [] want e a c = a
  gather-IsWanted keep have ((node, m) ∷ rest) want (i, e) a c =
      let (a', c') = gather_from-IsWanted keep have node m want i a c in
      gather-IsWanted keep have rest _ e a' c'

-- Each entry of an index is the one that is found.
abbrev pub IsFound : Index → Index → Type 0
IsFound own m = All (λ (e : String × SyncFile). find e.0 own ≡ some e.1) m

cons-IsFound :
    (k : String) (f : SyncFile) (own m : Index)
    → Fresh k m
    → IsFound own m
    → IsFound ((k, f) ∷ own) m
cons-IsFound k f own [] u a = tt
cons-IsFound k f own ((j, g) ∷ m) (n, u) (h, a) = (rw n h, cons-IsFound k f own m u a)

pub Unique-IsFound : (m : Index) → Unique m → IsFound m m
Unique-IsFound [] u = tt
Unique-IsFound ((k, f) ∷ m) (a, u) =
    (rw ((eq_iff k k).1 refl) refl, cons-IsFound k f m m a (Unique-IsFound m u))

module _ (source : ℕ) (own : Index) where
  pub own_files-IsWanted :
      (m : Index) → All IsEntry m → IsFound own m → All (IsWanted own) (own_files source m)
  unfolding own_files
  own_files-IsWanted [] i a = tt
  own_files-IsWanted ((k, f) ∷ m) ((p, _, _), i) (h, a) = ((p, inl h), own_files-IsWanted m i a)

  pub own_files-Covers :
      (x : String) (m : Index) → find x (own_files source m) ≡ none → find x m ≡ none
  unfolding own_files
  own_files-Covers x [] h = refl
  own_files-Covers x ((k, f) ∷ m) h = elim (Bool-cases (str_eq k x)) [
    | inl here ↦ absurd (some-none (rw here at h))
    | inr gone ↦ rw gone (own_files-Covers x m (rw gone at h))
  ]
