-- ===== src/FileSync/Backup/Tables.antt =====
-- The indexes of a table have each path once, and a node that is listed once has one index.
use mathlib.Core.Path.{subst}
use netbox_conductor.Base.{
  both-values, ℕ, String, true, false, ◌≡◌, refl, sym, List, [], ◌∷◌, str_eq, Table, lookup, All,
  inl, inr, Bool-cases, eq_iff, ◌==◌,
}
use netbox_conductor.FileSync.{SyncFile, Plan, Index, set, is_partial, index_from, index}
use netbox_conductor.FileSync.TwoWay.{index_all}
use netbox_conductor.FileSync.Backup.{index_of}

-- The path is at no entry of the map.
abbrev pub Fresh {ℓ} : {V : Type ℓ} → String → List (String × V) → Type 0
Fresh k [] = Unit
Fresh k ((j, v) ∷ m) = (str_eq k j ≡ false) × Fresh k m

abbrev pub Unique : Index → Type 0
Unique [] = Unit
Unique ((k, f) ∷ m) = Fresh k m × Unique m

set-Fresh :
    (k path : String) (f : SyncFile) (m : Index)
    → str_eq k path ≡ false
    → Fresh k m
    → Fresh k (set path f m)
set-Fresh k path f [] h a = (h, tt)
set-Fresh k path f ((j, g) ∷ m) h (n, a) = elim (Bool-cases (str_eq j path)) [
  | inl own ↦ rw own (h, a)
  | inr other ↦ rw other (n, set-Fresh k path f m h a)
]

set-Unique : (path : String) (f : SyncFile) (m : Index) → Unique m → Unique (set path f m)
set-Unique path f [] u = (tt, tt)
set-Unique path f ((k, g) ∷ m) (a, u) = elim (Bool-cases (str_eq k path)) [
  | inl own ↦ rw own (rw ((eq_iff k path).0 own) at a, u)
  | inr other ↦ rw other (set-Fresh k path f m other a, set-Unique path f m u)
]

index_from-Unique :
    (node : ℕ) (fs : List SyncFile) (m : Index) (p : Plan)
    → Unique m
    → Unique (index_from node fs m p).0
unfolding index_from
index_from-Unique node [] m p u = u
index_from-Unique node (f ∷ fs) m p u = elim (Bool-cases (is_partial f.path)) [
  | inl e ↦ rw e (index_from-Unique node fs m _ u)
  | inr e ↦ rw e (index_from-Unique node fs _ p (set-Unique f.path f m u))
]

abbrev pub AreUnique : Table Index → Type 0
AreUnique have = All (λ (e : ℕ × Index). Unique e.1) have

pub index_all-AreUnique :
    (lists : Table (List SyncFile)) (p : Plan) → AreUnique (index_all lists p).0
unfolding index_all index
index_all-AreUnique [] p = tt
index_all-AreUnique ((node, files) ∷ lists) p =
    (index_from-Unique node files [] p tt, index_all-AreUnique lists _)

-- The node is in the table once at most.
abbrev Absent {ℓ} : {V : Type ℓ} → ℕ → Table V → Type 0
Absent n [] = Unit
Absent n ((k, v) ∷ t) = ((k == n) ≡ false) × Absent n t

abbrev pub Once {ℓ} : {V : Type ℓ} → ℕ → Table V → Type 0
Once n [] = Unit
Once n ((k, v) ∷ t) = ((k == n) ≡ true → Absent n t) × Once n t

index_all-Absent :
    (n : ℕ) (lists : Table (List SyncFile)) (p : Plan)
    → Absent n lists
    → Absent n (index_all lists p).0
unfolding index_all
index_all-Absent n [] p a = tt
index_all-Absent n ((k, fs) ∷ lists) p (h, a) = (h, index_all-Absent n lists _ a)

pub index_all-Once :
    (n : ℕ) (lists : Table (List SyncFile)) (p : Plan) → Once n lists → Once n (index_all lists p).0
unfolding index_all
index_all-Once n [] p o = tt
index_all-Once n ((k, fs) ∷ lists) p (h, o) =
    (λ e. index_all-Absent n lists _ (h e), index_all-Once n lists _ o)

-- Whatever stands for the node is the index that a lookup finds.
abbrev pub IsAt : ℕ → Index → Table Index → Type 0
IsAt n own have = All (λ (e : ℕ × Index). (e.0 == n) ≡ true → e.1 ≡ own) have

Absent-IsAt : (n : ℕ) (own : Index) (have : Table Index) → Absent n have → IsAt n own have
Absent-IsAt n own [] a = tt
Absent-IsAt n own ((k, m) ∷ have) (h, a) =
    (λ e. absurd (both-values _ e h), Absent-IsAt n own have a)

index-here :
    (n k : ℕ) (m : Index) (have : Table Index)
    → (k == n) ≡ true
    → index_of (lookup n ((k, m) ∷ have)) ≡ m
unfolding lookup
index-here n k m have e = rw e refl

index-there :
    (n k : ℕ) (m : Index) (have : Table Index)
    → (k == n) ≡ false
    → index_of (lookup n ((k, m) ∷ have)) ≡ index_of (lookup n have)
unfolding lookup
index-there n k m have e = rw e refl

pub Once-IsAt : (n : ℕ) (have : Table Index) → Once n have → IsAt n (index_of (lookup n have)) have
Once-IsAt n [] o = tt
Once-IsAt n ((k, m) ∷ have) (h, o) = elim (Bool-cases (k == n)) [
  | inl own ↦
      subst (λ x. IsAt n x ((k, m) ∷ have)) (sym (index-here n k m have own))
        (λ e. refl, Absent-IsAt n m have (h own))
  | inr other ↦
      subst (λ x. IsAt n x ((k, m) ∷ have)) (sym (index-there n k m have other))
        (λ e. absurd (both-values _ e other), Once-IsAt n have o)
]

-- A property of every index of the table holds of the one that is found.
pub index_of-All :
    (P : Index → Type 0) (n : ℕ) (have : Table Index)
    → P []
    → All (λ (e : ℕ × Index). P e.1) have
    → P (index_of (lookup n have))
unfolding lookup
index_of-All P n [] z a = z
index_of-All P n ((k, m) ∷ have) z (p, a) = elim (Bool-cases (k == n)) [
  | inl own ↦ subst P (sym (index-here n k m have own)) p
  | inr other ↦ subst P (sym (index-there n k m have other)) (index_of-All P n have z a)
]
