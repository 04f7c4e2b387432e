-- ===== src/OpLock/Kept.antt =====
-- A lock that is held stays held until its own handle is called.
use netbox_conductor.Base.{
  ℕ, String, Bool, true, false, ◌≡◌, ◌≢◌, refl, sym, ◌∙◌, Option, none, some, List, [], ◌∷◌, ◌==◌,
  ==_iff, some-none, if◌then◌else◌, Bool-cases, inl, inr, arith,
}
use netbox_conductor.OpLock.{Unlock, Locks, claim, try_lock, release, unlock}
use netbox_conductor.OpLock.Exclusion.{
  Call, lock, call_unlock, run, Holds, IsExclusive, try_lock-IsExclusive, unlock-IsExclusive,
}

-- The handle holds the cluster for the operation, and the locks are exclusive.
pub record IsKept (t cluster : ℕ) (op : String) (l : Locks) : Type 0 where
  pub exclusive : IsExclusive l
  pub holds : Holds l t cluster
  pub running : l.running cluster ≡ some op

-- Calls none of which is the handle's.
abbrev pub Spares : ℕ → List Call → Type 0
Spares t [] = Unit
Spares t (lock cluster op ∷ cs) = Spares t cs
Spares t (call_unlock u ∷ cs) = (u ≢ t) × Spares t cs

claim-running :
    (cluster c : ℕ) (op op' : String) (o : Option String) (l : Locks)
    → l.running c ≡ o
    → l.running cluster ≡ some op
    → (claim c op' o l).1.running cluster ≡ some op
unfolding claim
claim-running cluster c op op' (some r) l e h = h
claim-running cluster c op op' none l e h = elim (Bool-cases (c == cluster)) [
  | inl same ↦ absurd (some-none (sym h ∙ rw ((==_iff c cluster).0 same) at e))
  | inr other ↦ rw other h
]

claim-holds :
    (t cluster c : ℕ) (op : String) (o : Option String) (l : Locks)
    → l.unlocks l.next ≡ none
    → Holds l t cluster
    → Holds (claim c op o l).1 t cluster
unfolding claim
claim-holds t cluster c op (some r) l f h = h
claim-holds t cluster c op none l f h = elim (Bool-cases (l.next == t)) [
  | inl same ↦ absurd (some-none (sym h ∙ rw ((==_iff l.next t).0 same) at f))
  | inr other ↦ rw other h
]

try_lock-IsKept :
    (t cluster c : ℕ) (op op' : String) (l : Locks)
    → IsKept t cluster op l
    → IsKept t cluster op (try_lock c op' l).1
unfolding try_lock
try_lock-IsKept t cluster c op op' l k = record {
  exclusive = try_lock-IsExclusive c op' l k.exclusive;
  holds =
      claim-holds t cluster c op' (l.running c) l (k.exclusive.unused l.next (omega arith)) k.holds;
  running = claim-running cluster c op op' (l.running c) l refl k.running;
}

release-kept :
    (t u cluster : ℕ) (op : String) (o : Option Unlock) (l : Locks)
    → l.unlocks u ≡ o
    → u ≢ t
    → IsKept t cluster op l
    → Holds (release u o l) t cluster × ((release u o l).running cluster ≡ some op)
unfolding release
release-kept t u cluster op none l e ne k = (k.holds, k.running)
release-kept t u cluster op (some v) l e ne k = elim (Bool-cases v.spent) [
  | inl old ↦ rw old (k.holds, k.running)
  | inr live ↦ rw live (others k.holds, elsewhere (v.cluster == cluster) refl live)
]
  where
    others :
        Holds l t cluster
        → (if u == t then some (record v { spent = true }) else l.unlocks t)
          ≡ some (record { cluster = cluster; spent = false })
    others h = ground arith

    mine : v.spent ≡ false → v.cluster ≡ cluster → Holds l u cluster
    mine live same = ground arith

    elsewhere :
        (b : Bool)
        → (v.cluster == cluster) ≡ b
        → v.spent ≡ false
        → (if b then none else l.running cluster) ≡ some op
    elsewhere true same live =
        absurd
          (ne (k.exclusive.one u t cluster (mine live ((==_iff v.cluster cluster).0 same)) k.holds))
    elsewhere false same live = k.running

unlock-kept_other :
    (t u cluster : ℕ) (op : String) (l : Locks)
    → u ≢ t
    → IsKept t cluster op l
    → Holds (unlock u l) t cluster × ((unlock u l).running cluster ≡ some op)
unfolding unlock
unlock-kept_other t u cluster op l ne k = release-kept t u cluster op (l.unlocks u) l refl ne k

unlock-IsKept :
    (t u cluster : ℕ) (op : String) (l : Locks)
    → u ≢ t
    → IsKept t cluster op l
    → IsKept t cluster op (unlock u l)
unlock-IsKept t u cluster op l ne k =
    let (h, r) = unlock-kept_other t u cluster op l ne k in
    record { exclusive = unlock-IsExclusive u l k.exclusive; holds = h; running = r }

pub run-IsKept :
    (t cluster : ℕ) (op : String) (cs : List Call) (l : Locks)
    → Spares t cs
    → IsKept t cluster op l
    → IsKept t cluster op (run cs l)
run-IsKept t cluster op [] l s k = k
run-IsKept t cluster op (lock c op' ∷ cs) l s k =
    run-IsKept t cluster op cs _ s (try_lock-IsKept t cluster c op op' l k)
run-IsKept t cluster op (call_unlock u ∷ cs) l s k =
    run-IsKept t cluster op cs _ s.1 (unlock-IsKept t u cluster op l s.0 k)

-- The call of the handle frees its cluster, and no other.
pub unlock-kept :
    (t cluster c : ℕ) (op : String) (l : Locks)
    → IsKept t cluster op l
    → (unlock t l).running c ≡ (if cluster == c then none else l.running c)
unfolding unlock release
unlock-kept t cluster c op l k = rw (k.holds) refl
