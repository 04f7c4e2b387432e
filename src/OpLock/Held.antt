-- ===== src/OpLock/Held.antt =====
-- What holding one lock changes, and what its unlock restores.
use netbox_conductor.Base.{
  ℕ, String, Bool, true, false, ◌≡◌, refl, sym, inl, inr, Option, none, some, ◌==◌, ==_iff,
  if◌then◌else◌, arith,
}
use netbox_conductor.OpLock.{Locks, BusyError, claim, release, try_lock, unlock}

-- The same clusters are locked, by the same operations.
abbrev pub SameRunning : Locks → Locks → Type 0
SameRunning l l' = (c : ℕ) → l'.running c ≡ l.running c

-- The second locks hold the cluster besides what the first hold, and calling `t` releases it.
pub record IsHeld (cluster : ℕ) (op : String) (t : ℕ) (l l' : Locks) : Type 0 where
  pub was_free : l.running cluster ≡ none
  pub held : l'.running cluster ≡ some op
  pub others : (c : ℕ) → (cluster == c) ≡ false → l'.running c ≡ l.running c
  pub handle : l'.unlocks t ≡ some (record { cluster = cluster; spent = false })

pub try_lock-IsHeld :
    (cluster : ℕ) (op : String) (l : Locks) (t : ℕ)
    → (try_lock cluster op l).0 ≡ inr t
    → IsHeld cluster op t l (try_lock cluster op l).1
unfolding try_lock claim
try_lock-IsHeld cluster op l t e = by_running (l.running cluster) refl e
  where
    by_running :
        (o : Option String)
        → l.running cluster ≡ o
        → (claim cluster op o l).0 ≡ inr t
        → IsHeld cluster op t l (claim cluster op o l).1
    by_running none f e = record {
      was_free = f;
      held = ground arith;
      others = λ c n. ground arith;
      handle = ground arith;
    }
    by_running (some running) f e = absurd (ground arith)

pub try_lock-busy :
    (cluster : ℕ) (op : String) (l : Locks) (b : BusyError)
    → (try_lock cluster op l).0 ≡ inl b
    → (try_lock cluster op l).1 ≡ l
unfolding try_lock claim
try_lock-busy cluster op l b e = ground arith

pub unlock-held :
    (cluster : ℕ) (op : String) (t : ℕ) (l l' : Locks)
    → IsHeld cluster op t l l'
    → SameRunning l (unlock t l')
unfolding unlock release
unlock-held cluster op t l l' h c = rw (h.handle) (by_cluster (cluster == c) refl)
  where
    same_key : (cluster == c) ≡ true → l.running c ≡ none
    same_key e = rw⁻¹ ((==_iff cluster c).0 e) h.was_free

    by_cluster : (b : Bool) → (cluster == c) ≡ b → (if b then none else l'.running c) ≡ l.running c
    by_cluster true e = sym (same_key e)
    by_cluster false e = h.others c e
