-- ===== src/Hub/Channels/Tables.antt =====
-- The references in a table: none occurs twice, and what holds of all of them.
use netbox_conductor.Base.{
  ℕ, ◌==◌, true, ◌≡◌, ◌≢◌, sym, Option-cases, none, some, List, [], ◌∷◌, arith, All, Table, lookup,
  insert, remove, Bool-cases, inl, inr,
}
use netbox_conductor.Hub.{values}
use mathlib.Core.Path.{subst}

pub All-map {κ μ} :
    {P : ℕ → Type κ} {Q : ℕ → Type μ} (xs : List ℕ) → ((x : ℕ) → P x → Q x) → All P xs → All Q xs
All-map [] f h = tt
All-map (x ∷ xs) f h = (f x h.0, All-map xs f h.1)

pub All-zip :
    {P Q R : ℕ → Type 0} (xs : List ℕ)
    → ((x : ℕ) → P x → Q x → R x)
    → All P xs
    → All Q xs
    → All R xs
All-zip [] f p q = tt
All-zip (x ∷ xs) f p q = (f x p.0 q.0, All-zip xs f p.1 q.1)

abbrev pub Distinct : List ℕ → Type 0
Distinct [] = Unit
Distinct (x ∷ xs) = All (λ y. y ≢ x) xs × Distinct xs

found_here : (k r j q : ℕ) (t : Table ℕ) → (j == k) ≡ true → lookup k ((j, q) ∷ t) ≡ some r → q ≡ r
unfolding lookup
found_here k r j q t b e = ground arith

module _ (P : ℕ → Type 0) where
  pub All-insert : (k r : ℕ) (t : Table ℕ) → P r → All P (values t) → All P (values (insert k r t))
  unfolding insert
  All-insert k r [] p h = (p, tt)
  All-insert k r ((j, q) ∷ t) p h = elim (Bool-cases (j == k)) [
    | inl e ↦ rw e (p, h.1)
    | inr e ↦ rw e (h.0, All-insert k r t p h.1)
  ]

  pub All-remove : (k : ℕ) (t : Table ℕ) → All P (values t) → All P (values (remove k t))
  unfolding remove
  All-remove k [] h = tt
  All-remove k ((j, q) ∷ t) h = elim (Bool-cases (j == k)) [
    | inl e ↦ rw e (All-remove k t h.1)
    | inr e ↦ rw e (h.0, All-remove k t h.1)
  ]

  pub All-lookup : (k r : ℕ) (t : Table ℕ) → lookup k t ≡ some r → All P (values t) → P r
  unfolding lookup
  All-lookup k r [] e h = cc
  All-lookup k r ((j, q) ∷ t) e h = elim (Bool-cases (j == k)) [
    | inl b ↦ subst P (found_here _ _ _ _ t b e) h.0
    | inr b ↦ All-lookup k r t (rw b at e) h.1
  ]

pub Distinct-insert :
    (k r : ℕ) (t : Table ℕ)
    → All (λ q. q ≢ r) (values t)
    → Distinct (values t)
    → Distinct (values (insert k r t))
unfolding insert
Distinct-insert k r [] a d = (tt, tt)
Distinct-insert k r ((j, q) ∷ t) a d = elim (Bool-cases (j == k)) [
  | inl b ↦ rw b (a.1, d.1)
  | inr b ↦
      rw b (All-insert (λ y. y ≢ q) k r t (λ e. a.0 (sym e)) d.0, Distinct-insert k r t a.1 d.1)
]

pub Distinct-remove : (k : ℕ) (t : Table ℕ) → Distinct (values t) → Distinct (values (remove k t))
unfolding remove
Distinct-remove k [] d = tt
Distinct-remove k ((j, q) ∷ t) d = elim (Bool-cases (j == k)) [
  | inl b ↦ rw b (Distinct-remove k t d.1)
  | inr b ↦ rw b (All-remove (λ y. y ≢ q) k t d.0, Distinct-remove k t d.1)
]

-- After its key is overwritten or removed, a session is registered no more.
pub gone-insert :
    (k r old : ℕ) (t : Table ℕ)
    → r ≢ old
    → lookup k t ≡ some old
    → Distinct (values t)
    → All (λ y. y ≢ old) (values (insert k r t))
unfolding lookup insert
gone-insert k r old [] ne e d = cc
gone-insert k r old ((j, q) ∷ t) ne e d = elim (Bool-cases (j == k)) [
  | inl b ↦ rw b (ne, subst (λ x. All (λ y. y ≢ x) (values t)) (found_here _ _ _ _ t b e) d.0)
  | inr b ↦
      let there : lookup k t ≡ some old = rw b at e in
      rw b
        (λ p. All-lookup (λ y. y ≢ q) k old t there d.0 (sym p), gone-insert k r old t ne there d.1)
]

pub gone-remove :
    (k old : ℕ) (t : Table ℕ)
    → lookup k t ≡ some old
    → Distinct (values t)
    → All (λ y. y ≢ old) (values (remove k t))
unfolding lookup remove
gone-remove k old [] e d = cc
gone-remove k old ((j, q) ∷ t) e d = elim (Bool-cases (j == k)) [
  | inl b ↦ rw b (
      All-remove (λ y. y ≢ old) k t
        (subst (λ x. All (λ y. y ≢ x) (values t)) (found_here _ _ _ _ t b e) d.0))
  | inr b ↦
      let there : lookup k t ≡ some old = rw b at e in
      rw b (λ p. All-lookup (λ y. y ≢ q) k old t there d.0 (sym p), gone-remove k old t there d.1)
]

All_none : (xs : List ℕ) → All (λ q. some q ≢ none) xs
All_none [] = tt
All_none (x ∷ xs) = (λ e. cc, All_none xs)

All_some : (old : ℕ) (xs : List ℕ) → All (λ q. q ≢ old) xs → All (λ q. some q ≢ some old) xs
All_some old xs = All-map xs (λ q n e. n (ground arith))

pub gone_insert :
    (k r : ℕ) (t : Table ℕ)
    → All (λ q. q ≢ r) (values t)
    → Distinct (values t)
    → All (λ q. some q ≢ lookup k t) (values (insert k r t))
gone_insert k r t f d = elim (Option-cases (lookup k t)) [
  | inl e ↦ rw e (All_none _)
  | inr (old, e) ↦ rw e (
      All_some old _ (gone-insert k r old t (λ p. All-lookup (λ q. q ≢ r) k old t e f (sym p)) e d))
]

pub gone_remove :
    (k : ℕ) (t : Table ℕ)
    → Distinct (values t)
    → All (λ q. some q ≢ lookup k t) (values (remove k t))
gone_remove k t d = elim (Option-cases (lookup k t)) [
  | inl e ↦ rw e (All_none _)
  | inr (old, e) ↦ rw e (All_some old _ (gone-remove k old t e d))
]

-- What is registered in one table is not in the other.
pub gone_apart :
    (k : ℕ) (t u : Table ℕ)
    → All (λ r. All (λ q. q ≢ r) (values u)) (values t)
    → All (λ q. some q ≢ lookup k t) (values u)
gone_apart k t u a = elim (Option-cases (lookup k t)) [
  | inl e ↦ rw e (All_none _)
  | inr (old, e) ↦ rw e (All_some old _ (All-lookup (λ r. All (λ q. q ≢ r) (values u)) k old t e a))
]

pub gone_apart_of :
    (k : ℕ) (t u : Table ℕ)
    → All (λ r. All (λ q. q ≢ r) (values u)) (values t)
    → All (λ q. some q ≢ lookup k u) (values t)
gone_apart_of k t u a = elim (Option-cases (lookup k u)) [
  | inl e ↦ rw e (All_none _)
  | inr (old, e) ↦
      rw e (
        All_some old _
          (All-map (values t) (λ r b p. All-lookup (λ q. q ≢ r) k old u e b (sym p)) a))
]
