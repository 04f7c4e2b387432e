-- ===== src/FileSync/TwoWay/Effects.antt =====
-- What a plan leaves on a node, and what each step of the loop over the paths adds to that.
use netbox_conductor.Base.{
  some-inj, ℕ, String, Bool, true, false, ◌&&◌, ◌||◌, ◌≡◌, ◌≢◌, ◌⊎◌, refl, sym, ◌∙◌, ap, Option,
  none, some, List, [], ◌∷◌, str_eq, if◌then◌else◌, Table, lookup, is_some, arith, inl, inr,
  Bool-cases, eq_iff, ◌==◌,
}
use netbox_conductor.FileSync.{SyncFile, Copy, Plan, Index, find, Version}
use netbox_conductor.FileSync.TwoWay.{sum_of, spread_to, delete_from}

-- The sum of the file that was copied to the node last.
abbrev pub got : ℕ → String → List Copy → Option String
got n path [] = none
got n path (c ∷ cs) =
    let rest = got n path cs in
    if c.target == n && str_eq c.file.path path then some c.file.sha256 else rest

abbrev pub removed : ℕ → String → List (ℕ × String) → Bool
removed n path [] = false
removed n path ((m, k) ∷ ds) = m == n && str_eq k path || removed n path ds

abbrev pub sum? : Option SyncFile → Option String
sum? none = none
sum? (some f) = some f.sha256

abbrev pub or_else : Option String → Option String → Option String
or_else none b = b
or_else (some a) b = some a

-- The sum of the node's file at the path after the plan, `f` being the file before it.
abbrev pub after : Plan → ℕ → String → Option SyncFile → Option String
after p n path f = if removed n path p.deletes then none else or_else (got n path p.copied) (sum? f)

-- The two plans do the same to a path on a node.
pub record SameAt (n : ℕ) (path : String) (p q : Plan) : Type 0 where
  pub copied : got n path p.copied ≡ got n path q.copied
  pub deletes : removed n path p.deletes ≡ removed n path q.deletes
  pub files : find path p.files ≡ find path q.files

pub SameAt-refl : (n : ℕ) (path : String) (p : Plan) → SameAt n path p p
SameAt-refl n path p = record { copied = refl; deletes = refl; files = refl }

pub SameAt-trans :
    {n : ℕ} {path : String} {p q r : Plan}
    → SameAt n path p q
    → SameAt n path q r
    → SameAt n path p r
SameAt-trans a b = record {
  copied = a.copied ∙ b.copied;
  deletes = a.deletes ∙ b.deletes;
  files = a.files ∙ b.files;
}

module _ (win : Version) (path : String) where
  pub spread_to-other :
      (n : ℕ) (other : String) (have : Table Index) (p : Plan)
      → str_eq win.file.path other ≡ false
      → SameAt n other (spread_to win path have p) p
  unfolding spread_to
  spread_to-other n other [] p h = SameAt-refl n other p
  spread_to-other n other ((k, m) ∷ have) p h =
      let rest = spread_to-other n other have p h in
      elim (Bool-cases (str_eq (sum_of (find path m)) win.file.sha256)) [
        | inl e ↦ rw e rest
        | inr e ↦ rw e record {
          copied = rw h (skip (k == n) _ _ ∙ rest.copied);
          deletes = rest.deletes;
          files = rest.files;
        }
      ]
    where
      skip : (b : Bool) (x y : Option String) → (if b && false then x else y) ≡ y
      skip true x y = refl
      skip false x y = refl

  pub spread_to-deletes :
      (n : ℕ) (other : String) (have : Table Index) (p : Plan)
      → (removed n other (spread_to win path have p).deletes ≡ removed n other p.deletes)
        × (find other (spread_to win path have p).files ≡ find other p.files)
  unfolding spread_to
  spread_to-deletes n other [] p = (refl, refl)
  spread_to-deletes n other ((k, m) ∷ have) p =
      elim (Bool-cases (str_eq (sum_of (find path m)) win.file.sha256)) [
        | inl e ↦ rw e (spread_to-deletes n other have p)
        | inr e ↦ rw e (spread_to-deletes n other have p)
      ]

  -- Where nothing was copied, either nothing is, or the version.
  spread_to-either :
      (n : ℕ) (have : Table Index) (p : Plan)
      → got n path p.copied ≡ none
      → let o = got n path (spread_to win path have p).copied in
        (o ≡ none) ⊎ (o ≡ some win.file.sha256)
  unfolding spread_to
  spread_to-either n [] p h = inl h
  spread_to-either n ((k, m) ∷ have) p h =
      let rest = spread_to-either n have p h in
      elim (Bool-cases (str_eq (sum_of (find path m)) win.file.sha256)) [
        | inl e ↦ rw e rest
        | inr e ↦ rw e (elim (Bool-cases (k == n && str_eq win.file.path path)) [
          | inl s ↦ rw s (inr refl)
          | inr s ↦ rw s rest
        ])
      ]

  held :
      (f : Option SyncFile) (o : Option String)
      → win.file.sha256 ≢ ""
      → str_eq (sum_of f) win.file.sha256 ≡ true
      → (o ≡ none) ⊎ (o ≡ some win.file.sha256)
      → or_else o (sum? f) ≡ some win.file.sha256
  held none o s e h = absurd (s (sym ((eq_iff _ _).0 e)))
  held (some f) o s e (inl h) = rw h (ap some ((eq_iff _ _).0 e))
  held (some f) o s e (inr h) = rw h refl

  pub spread_to-got :
      (n : ℕ) (m : Index) (have : Table Index) (p : Plan)
      → win.file.path ≡ path
      → win.file.sha256 ≢ ""
      → lookup n have ≡ some m
      → got n path p.copied ≡ none
      → or_else (got n path (spread_to win path have p).copied) (sum? (find path m))
        ≡ some win.file.sha256
  unfolding spread_to lookup
  spread_to-got n m [] p q s l h = absurd (ground arith)
  spread_to-got n m ((k, t) ∷ have) p q s l h = elim (Bool-cases (k == n)) [
    | inl own ↦ elim (Bool-cases (str_eq (sum_of (find path t)) win.file.sha256)) [
      | inl e ↦
          rw e (
            held (find path m) _ s (rw (some-inj (rw own at l)) at e) (spread_to-either n have p h))
      | inr e ↦ rw (e, own, (eq_iff win.file.path path).1 q) refl
    ]
    | inr other ↦
        let rest = spread_to-got n m have p q s (rw other at l) h in
        elim (Bool-cases (str_eq (sum_of (find path t)) win.file.sha256)) [
          | inl e ↦ rw e rest
          | inr e ↦ rw (e, other) rest
        ]
  ]

module _ (path : String) where
  pub delete_from-same :
      (n : ℕ) (other : String) (have : Table Index) (p : Plan)
      → (got n other (delete_from path have p).copied ≡ got n other p.copied)
        × (find other (delete_from path have p).files ≡ find other p.files)
  unfolding delete_from
  delete_from-same n other [] p = (refl, refl)
  delete_from-same n other ((k, m) ∷ have) p = elim (Bool-cases (is_some (find path m))) [
    | inl e ↦ rw e (delete_from-same n other have p)
    | inr e ↦ rw e (delete_from-same n other have p)
  ]

  pub delete_from-other :
      (n : ℕ) (other : String) (have : Table Index) (p : Plan)
      → str_eq path other ≡ false
      → removed n other (delete_from path have p).deletes ≡ removed n other p.deletes
  unfolding delete_from
  delete_from-other n other [] p h = refl
  delete_from-other n other ((k, m) ∷ have) p h = elim (Bool-cases (is_some (find path m))) [
    | inl e ↦ rw (e, h) (drop (k == n) _ ∙ delete_from-other n other have p h)
    | inr e ↦ rw e (delete_from-other n other have p h)
  ]
    where
      drop : (b c : Bool) → (b && false || c) ≡ c
      drop true c = refl
      drop false c = refl

  -- A node that has the file deletes it.
  pub delete_from-removed :
      (n : ℕ) (m : Index) (have : Table Index) (p : Plan)
      → lookup n have ≡ some m
      → is_some (find path m) ≡ true
      → removed n path (delete_from path have p).deletes ≡ true
  unfolding delete_from lookup
  delete_from-removed n m [] p l h = absurd (ground arith)
  delete_from-removed n m ((k, t) ∷ have) p l h = elim (Bool-cases (k == n)) [
    | inl own ↦ rw (some-inj (rw own at l), h, own, (eq_iff path path).1 refl) refl
    | inr other ↦
        let rest = delete_from-removed n m have p (rw other at l) h in
        elim (Bool-cases (is_some (find path t))) [ inl e ↦ rw (e, other) rest | inr e ↦ rw e rest ]
  ]
