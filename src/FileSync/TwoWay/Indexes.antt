-- ===== src/FileSync/TwoWay/Indexes.antt =====
-- The indexes of the listings.
use netbox_conductor.Base.{
  both-values, ℕ, String, Bool, true, false, ◌&&◌, ◌||◌, ◌≡◌, ◌≢◌, refl, List, [], ◌∷◌, str_eq,
  Table, All, inl, inr, Bool-cases, eq_iff, ◌==◌,
}
use netbox_conductor.FileSync.{SyncFile, Plan, Index, set, is_partial, index_from, index}
use netbox_conductor.FileSync.TwoWay.{index_all}
use netbox_conductor.FileSync.TwoWay.Winner.{IsEntry, AreEntries}
use netbox_conductor.FileSync.TwoWay.Effects.{SameAt, SameAt-refl, SameAt-trans}

-- Every file of the listing has a checksum.
abbrev pub AreSummed : ℕ × List SyncFile → Type 0
AreSummed (node, files) = All (λ f. f.sha256 ≢ "") files

set-IsEntry :
    (f : SyncFile) (m : Index)
    → f.sha256 ≢ ""
    → is_partial f.path ≡ false
    → All IsEntry m
    → All IsEntry (set f.path f m)
set-IsEntry f [] s q a = ((refl, s, q), tt)
set-IsEntry f ((k, g) ∷ m) s q (e, a) = elim (Bool-cases (str_eq k f.path)) [
  | inl own ↦ rw own ((refl, s, q), a)
  | inr other ↦ rw other (e, set-IsEntry f m s q a)
]

index_from-IsEntry :
    (node : ℕ) (fs : List SyncFile) (m : Index) (p : Plan)
    → All (λ f. f.sha256 ≢ "") fs
    → All IsEntry m
    → All IsEntry (index_from node fs m p).0
unfolding index_from
index_from-IsEntry node [] m p s a = a
index_from-IsEntry node (f ∷ fs) m p (sum, s) a = elim (Bool-cases (is_partial f.path)) [
  | inl e ↦ rw e (index_from-IsEntry node fs m _ s a)
  | inr e ↦ rw e (index_from-IsEntry node fs _ p s (set-IsEntry f m sum e a))
]

-- Only partial files are deleted.
index_from-SameAt :
    (n node : ℕ) (path : String) (fs : List SyncFile) (m : Index) (p : Plan)
    → is_partial path ≡ false
    → SameAt n path (index_from node fs m p).1 p
unfolding index_from
index_from-SameAt n node path [] m p h = SameAt-refl n path p
index_from-SameAt n node path (f ∷ fs) m p h = elim (Bool-cases (is_partial f.path)) [
  | inl e ↦ rw e (
      SameAt-trans (index_from-SameAt n node path fs m _ h)
        record { copied = refl; deletes = rw (other e) (drop (node == n) _); files = refl })
  | inr e ↦ rw e (index_from-SameAt n node path fs _ p h)
]
  where
    drop : (b c : Bool) → (b && false || c) ≡ c
    drop true c = refl
    drop false c = refl

    other : is_partial f.path ≡ true → str_eq f.path path ≡ false
    other e = elim (Bool-cases (str_eq f.path path)) [
      | inl s ↦ absurd (both-values _ (rw ((eq_iff f.path path).0 s) at e) h)
      | inr s ↦ s
    ]

pub index_all-AreEntries :
    (lists : Table (List SyncFile)) (p : Plan)
    → All AreSummed lists
    → All AreEntries (index_all lists p).0
unfolding index_all index
index_all-AreEntries [] p s = tt
index_all-AreEntries ((node, files) ∷ lists) p (sums, s) =
    (index_from-IsEntry node files [] p sums tt, index_all-AreEntries lists _ s)

pub index_all-SameAt :
    (n : ℕ) (path : String) (lists : Table (List SyncFile)) (p : Plan)
    → is_partial path ≡ false
    → SameAt n path (index_all lists p).1 p
unfolding index_all index
index_all-SameAt n path [] p h = SameAt-refl n path p
index_all-SameAt n path ((node, files) ∷ lists) p h =
    SameAt-trans (index_all-SameAt n path lists _ h) (index_from-SameAt n node path files [] p h)
