-- ===== src/Failover/Candidate/Best.antt =====
-- Which node bestCandidate picks.
use mathlib.Core.Path.{subst}
use netbox_conductor.Base.{
  some-inj, ℕ, ◌≤◌, Bool, true, false, ◌≡◌, refl, ◌⊎◌, inl, inr, Option, none, some, List, [], ◌∷◌,
  arith, All, In, keep, if◌then◌else◌, Bool-cases, Option-cases,
}
use netbox_conductor.Nodestate.{Node}
use netbox_conductor.Hub.{Hub}
use netbox_conductor.Failover.State.{Env}
use netbox_conductor.Failover.Candidate.{
  eligible, healthy_candidate, choose, best_of, best_candidate, first_healthy, head?,
}

-- The listing is sorted by priority, the highest first.
abbrev pub IsSorted : List Node → Type 0
IsSorted [] = Unit
IsSorted (n ∷ ns) = All (λ m. m.failover_priority ≤ n.failover_priority) ns × IsSorted ns

-- `n` is a node of the list that passes the test, and no other that passes has a higher priority.
abbrev pub IsTop : (Node → Bool) → List Node → Node → Type 0
IsTop p ns n =
    In n ns × (p n ≡ true) × All (λ m. p m ≡ true → m.failover_priority ≤ n.failover_priority) ns

abbrev pub both : (p q : Node → Bool) → Node → Bool
both p q n = if p n then q n else false

-- What is expected of the choice among nodes that pass `p`, those that pass `q` too being preferred.
abbrev pub IsBest : (p q : Node → Bool) → List Node → Option Node → Type 0
IsBest p q ns none = All (λ m. p m ≡ false) ns
IsBest p q ns (some n) = IsTop (both p q) ns n ⊎ (All (λ m. both p q m ≡ false) ns × IsTop p ns n)

All-weaken : {P Q : Node → Type 0} (ns : List Node) → ((n : Node) → P n → Q n) → All P ns → All Q ns
All-weaken [] f a = tt
All-weaken (n ∷ ns) f a = (f n a.0, All-weaken ns f a.1)

-- The first that passes is the top one of a sorted list.
head-keep-some :
    (r : Node → Bool) (ns : List Node) (n : Node)
    → IsSorted ns
    → head? (keep r ns) ≡ some n
    → IsTop r ns n
head-keep-some r [] n s e = absurd (ground arith)
head-keep-some r (m ∷ ns) n s e = elim (Bool-cases (r m)) [
  | inl b ↦
      subst (IsTop r (m ∷ ns)) (some-inj (rw b at e))
        (inl refl, b, (λ h. omega arith, All-weaken ns (λ k le h. le) s.0))
  | inr b ↦
      let (there, passes, top) = head-keep-some r ns n s.1 (rw b at e) in
      (inr there, passes, (λ h. absurd (ground arith), top))
]

head-keep-none :
    (r : Node → Bool) (ns : List Node) → head? (keep r ns) ≡ none → All (λ m. r m ≡ false) ns
head-keep-none r [] e = tt
head-keep-none r (m ∷ ns) e = elim (Bool-cases (r m)) [
  | inl b ↦ absurd (ground arith)
  | inr b ↦ (b, head-keep-none r ns (rw b at e))
]

first_healthy-keep :
    (p : Node → Bool) (d : Option Node) (ns : List Node)
    → first_healthy d (keep p ns)
      ≡ elim (head? (keep (both p healthy_candidate) ns)) [ none ↦ d | some n ↦ some n ]
first_healthy-keep p d [] = refl
first_healthy-keep p d (n ∷ ns) = ground (arith, first_healthy-keep p d ns)

choose-IsBest :
    (p : Node → Bool) (ns : List Node)
    → IsSorted ns
    → IsBest p healthy_candidate ns (choose (keep p ns))
choose-IsBest p ns s =
    rw (first_healthy-keep p (head? (keep p ns)) ns)
      (elim (Option-cases (head? (keep (both p healthy_candidate) ns))) [
        | inr (n, e) ↦ rw e (inl (head-keep-some (both p healthy_candidate) ns n s e))
        | inl e ↦ rw e (elim (Option-cases (head? (keep p ns))) [
          | inl f ↦ rw f (head-keep-none p ns f)
          | inr (n, f) ↦
              rw f (inr (head-keep-none (both p healthy_candidate) ns e, head-keep-some p ns n s f))
        ])
      ])

-- Of a listing that is sorted by priority, the candidate is an eligible node that counts as healthy,
-- of the highest priority among those, whatever the priorities of the others; if no eligible node
-- counts as healthy, it is an eligible node of the highest priority; and there is no candidate
-- only if no node is eligible.
pub best_candidate-IsBest :
    (e : Env) (cluster excluded : ℕ) (hub : Hub) (ns : List Node) (choice : Option Node)
    → e.nodes cluster ≡ some ns
    → IsSorted ns
    → best_candidate e cluster excluded hub ≡ some choice
    → IsBest (eligible hub excluded) healthy_candidate ns choice
unfolding best_candidate
best_candidate-IsBest e cluster excluded hub ns choice listed s h =
    subst (IsBest (eligible hub excluded) healthy_candidate ns)
      (some-inj (rw (listed, best_of) at h)) (choose-IsBest (eligible hub excluded) ns s)
