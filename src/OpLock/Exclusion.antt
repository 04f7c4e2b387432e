-- ===== src/OpLock/Exclusion.antt =====
-- The locks under any sequence of calls.
use netbox_conductor.Base.{
  some-none, ℕ, ◌+◌, ◌≤◌, String, Bool, true, false, ◌≡◌, ◌≢◌, ◌⊎◌, refl, ◌∙◌, sym, ap, Option,
  none, some, List, [], ◌∷◌, arith, is_some, Option-cases, Bool-cases, inl, inr, put, ◌==◌,
}
use netbox_conductor.OpLock.{Unlock, Locks, new, claim, try_lock, release, unlock}

pub data Call : Type 0 where
  lock : (cluster : ℕ) (op : String) → Call
  call_unlock : (handle : ℕ) → Call

abbrev pub do_call : Call → Locks → Locks
do_call (lock cluster op) l = (try_lock cluster op l).1
do_call (call_unlock t) l = unlock t l

abbrev pub run : List Call → Locks → Locks
run [] l = l
run (c ∷ cs) l = run cs (do_call c l)

abbrev handle : ℕ → Bool → Option Unlock
handle c spent = some (record { cluster = c; spent = spent })

-- The handle was given out for the cluster, and was not called yet.
abbrev pub Holds : Locks → ℕ → ℕ → Type 0
Holds l t c = l.unlocks t ≡ handle c false

-- A cluster has a running operation as long as a handle holds it; no two handles hold one cluster.
pub record IsExclusive (l : Locks) : Type 0 where
  pub busy : (t c : ℕ) → Holds l t c → is_some (l.running c) ≡ true
  pub one : (t u c : ℕ) → Holds l t c → Holds l u c → t ≡ u
  pub unused : (t : ℕ) → l.next ≤ t → l.unlocks t ≡ none

-- Who holds after a claim: the new handle, or one that held before.
held-claim :
    (cluster t c : ℕ) (op : String) (l : Locks)
    → Holds (claim cluster op none l).1 t c
    → ((t ≡ l.next) × (cluster ≡ c)) ⊎ Holds l t c
unfolding claim
held-claim cluster t c op l h = elim (Bool-cases (l.next == t)) [
  | inl e ↦ inl (ground arith, claimed (rw e at h))
  | inr e ↦ inr (rw e at h)
]
  where
    claimed : {u v : Unlock} → some u ≡ some v → u.cluster ≡ v.cluster
    claimed e = ground arith

claim-IsExclusive :
    (cluster : ℕ) (op : String) (l : Locks)
    → l.running cluster ≡ none
    → IsExclusive l
    → IsExclusive (claim cluster op none l).1
unfolding claim
claim-IsExclusive cluster op l e i = record {
  busy = λ t c h. elim (held-claim cluster t c op l h) [
    | inl (_, s) ↦ ground arith
    | inr k ↦ still c (i.busy t c k)
  ];
  one = λ t u c h k. elim (held-claim cluster t c op l h) [
    | inl (p, s) ↦ elim (held-claim cluster u c op l k) [
      | inl (q, _) ↦ p ∙ sym q
      | inr old ↦ absurd (not_free s (i.busy u c old))
    ]
    | inr mine ↦ elim (held-claim cluster u c op l k) [
      | inl (q, s) ↦ absurd (not_free s (i.busy t c mine))
      | inr old ↦ i.one t u c mine old
    ]
  ];
  unused = λ t h. later t h (i.unused t);
}
  where
    still : (c : ℕ) → is_some (l.running c) ≡ true → is_some (put cluster op l.running c) ≡ true
    still c h = ground arith

    not_free : {c : ℕ} → cluster ≡ c → is_some (l.running c) ≡ true → ⊥
    not_free s h = ground (arith, rw (sym s) at h)

    later :
        (t : ℕ)
        → l.next + 1 ≤ t
        → (l.next ≤ t → l.unlocks t ≡ none)
        → (claim cluster op none l).1.unlocks t ≡ none
    later t h f = ground (arith, f)

pub try_lock-IsExclusive :
    (cluster : ℕ) (op : String) (l : Locks) → IsExclusive l → IsExclusive (try_lock cluster op l).1
unfolding try_lock claim
try_lock-IsExclusive cluster op l i = elim (Option-cases (l.running cluster)) [
  | inr (r, e) ↦ rw e i
  | inl e ↦ rw e (claim-IsExclusive cluster op l e i)
]

held-release :
    (t v c : ℕ) (u : Unlock) (l : Locks)
    → u.spent ≡ false
    → Holds (release t (some u) l) v c
    → (t ≢ v) × Holds l v c
unfolding release
held-release t v c u l s h = elim (Bool-cases (t == v)) [
  | inl e ↦ absurd (spent_not (rw (s, e) at h))
  | inr e ↦ (ground arith, rw (s, e) at h)
]
  where
    spent_not : {a b : ℕ} → handle a true ≡ handle b false → ⊥
    spent_not e = ground arith

held_as :
    (t : ℕ) (u : Unlock) (l : Locks) → l.unlocks t ≡ some u → u.spent ≡ false → Holds l t u.cluster
held_as t u l e s = e ∙ ap (handle u.cluster) s

release-IsExclusive :
    (t : ℕ) (u : Unlock) (l : Locks)
    → l.unlocks t ≡ some u
    → u.spent ≡ false
    → IsExclusive l
    → IsExclusive (release t (some u) l)
unfolding release
release-IsExclusive t u l e s i = record {
  busy = λ v c h.
      let (ne, k) = held-release t v c u l s h in
      let other = λ (same : u.cluster ≡ c). ne (i.one t v c (rw same at (held_as t u l e s)) k) in
      still c other (i.busy v c k);
  one = λ v w c h k. i.one v w c (held-release t v c u l s h).1 (held-release t w c u l s k).1;
  unused = λ v h. never v (rw s at h);
}
  where
    still :
        (c : ℕ)
        → u.cluster ≢ c
        → is_some (l.running c) ≡ true
        → is_some ((release t (some u) l).running c) ≡ true
    still c ne h = rw s (ground arith)

    never : (v : ℕ) → l.next ≤ v → (release t (some u) l).unlocks v ≡ none
    never v h = rw s (elim (Bool-cases (t == v)) [
      | inl same ↦ absurd (some-none (sym e ∙ i.unused t (ground arith)))
      | inr other ↦ rw other (i.unused v h)
    ])

pub unlock-IsExclusive : (t : ℕ) (l : Locks) → IsExclusive l → IsExclusive (unlock t l)
unfolding unlock release
unlock-IsExclusive t l i = elim (Option-cases (l.unlocks t)) [
  | inl e ↦ rw e i
  | inr (u, e) ↦ elim (Bool-cases u.spent) [
    | inl s ↦ rw (e, s) i
    | inr s ↦ rw e (release-IsExclusive t u l e s i)
  ]
]

run-IsExclusive : (cs : List Call) (l : Locks) → IsExclusive l → IsExclusive (run cs l)
run-IsExclusive [] l i = i
run-IsExclusive (lock c op ∷ cs) l i = run-IsExclusive cs _ (try_lock-IsExclusive c op l i)
run-IsExclusive (call_unlock t ∷ cs) l i = run-IsExclusive cs _ (unlock-IsExclusive t l i)

-- Whatever is locked and unlocked, in any order, handles called twice or never: a cluster that a
-- handle holds has a running operation, and two handles that were not called yet hold two different clusters.
pub run-new-IsExclusive : (cs : List Call) → IsExclusive (run cs new)
run-new-IsExclusive cs = run-IsExclusive cs new record {
  busy = λ t c h. absurd (some-none (sym h));
  one = λ t u c h k. absurd (some-none (sym h));
  unused = λ t h. refl;
}

-- The handle is spent, and stays so.
abbrev IsSpent : ℕ → Locks → Type 0
IsSpent t l = (c : ℕ) × (l.unlocks t ≡ handle c true)

release-IsSpent :
    (t : ℕ) (u : Unlock) (l : Locks) → l.unlocks t ≡ some u → IsSpent t (release t (some u) l)
unfolding release
release-IsSpent t u l e = elim (Bool-cases u.spent) [
  | inl s ↦ (u.cluster, rw s (e ∙ ap (handle u.cluster) s))
  | inr s ↦ (u.cluster, rw s (ground arith))
]

release-unspent :
    (t v : ℕ) (o : Option Unlock) (l : Locks)
    → l.unlocks v ≡ o
    → IsSpent t l
    → IsSpent t (release v o l)
unfolding release
release-unspent t v none l e s = s
release-unspent t v (some u) l e (c, s) = elim (Bool-cases u.spent) [
  | inl old ↦ (c, rw old s)
  | inr live ↦ (
    c,
    rw live (elim (Bool-cases (v == t)) [
      | inl same ↦ absurd (live_spent live (sym (rw (is_same same) at e) ∙ s))
      | inr other ↦ rw other s
    ]),
  )
]
  where
    is_same : (v == t) ≡ true → v ≡ t
    is_same h = ground arith

    live_spent : {c : ℕ} → u.spent ≡ false → some u ≡ handle c true → ⊥
    live_spent live h = ground arith

claim-IsSpent :
    (t cluster : ℕ) (op : String) (o : Option String) (l : Locks)
    → l.unlocks l.next ≡ none
    → IsSpent t l
    → IsSpent t (claim cluster op o l).1
unfolding claim
claim-IsSpent t cluster op (some r) l f s = s
claim-IsSpent t cluster op none l f (c, s) = (
  c,
  elim (Bool-cases (l.next == t)) [
    | inl same ↦ absurd (some-none (sym s ∙ rw (is_same same) at f))
    | inr other ↦ rw other s
  ],
)
  where
    is_same : (l.next == t) ≡ true → l.next ≡ t
    is_same h = ground arith

run-IsSpent :
    (t : ℕ) (cs : List Call) (l : Locks) → IsExclusive l → IsSpent t l → IsSpent t (run cs l)
unfolding try_lock unlock
run-IsSpent t [] l i s = s
run-IsSpent t (lock c op ∷ cs) l i s =
    run-IsSpent t cs _ (try_lock-IsExclusive c op l i)
      (claim-IsSpent t c op (l.running c) l (i.unused l.next (ground arith)) s)
run-IsSpent t (call_unlock v ∷ cs) l i s =
    run-IsSpent t cs _ (unlock-IsExclusive v l i) (release-unspent t v (l.unlocks v) l refl s)

unlock-spent : (t : ℕ) (l : Locks) → IsSpent t l → unlock t l ≡ l
unfolding unlock release
unlock-spent t l (c, s) = rw s refl

-- A handle that was called once does nothing when it is called again, whatever was locked and
-- unlocked in between: a stale unlock releases no newer holder's lock.
pub unlock-stale :
    (t : ℕ) (u : Unlock) (before after : List Call)
    → (run before new).unlocks t ≡ some u
    → let l = run after (unlock t (run before new)) in unlock t l ≡ l
unfolding unlock
unlock-stale t u before after e =
    let l = run before new in
    unlock-spent t _ (
      run-IsSpent t after (unlock t l) (unlock-IsExclusive t l (run-new-IsExclusive before))
        (rw e (release-IsSpent t u l e)))
