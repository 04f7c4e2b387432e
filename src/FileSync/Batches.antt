-- ===== src/FileSync/Batches.antt =====
-- batches: paths in groups whose text fits into one message.
use Prim.Native.String.{len}
use netbox_conductor.Base.{
  ℕ, ◌+◌, ◌<◌, ◌≤◌, String, true, false, ◌≡◌, ◌⊎◌, refl, ap, ◌∙◌, List, [], ◌∷◌, ◌++◌, ltb,
  if◌then◌else◌, All, arith, inl, inr, Bool-cases,
}

abbrev batch_bytes : ℕ
batch_bytes = 1048576

-- The loop, with the last group so far and `size`; the groups before it are out already.
batches_from : List String → ℕ → List String → List (List String)
batches_from b size [] = b ∷ []
batches_from b size (p ∷ ps) =
    let full = batches_from (p ∷ []) (len p + 4) ps in
    let fits = batches_from (b ++ p ∷ []) (size + len p + 4) ps in
    if ltb batch_bytes (size + len p) then b ∷ full else fits

unfoldable pub batches : List String → List (List String)
unfolding batches_from
batches [] = []
batches (p ∷ ps) = batches_from (p ∷ []) (len p + 4) ps

abbrev pub concat : List (List String) → List String
concat [] = []
concat (b ∷ bs) = b ++ concat bs

append_assoc : (xs ys zs : List String) → (xs ++ ys) ++ zs ≡ xs ++ (ys ++ zs)
append_assoc [] ys zs = refl
append_assoc (x ∷ xs) ys zs = ap (λ t. x ∷ t) (append_assoc xs ys zs)

append_nil : (xs : List String) → xs ++ [] ≡ xs
append_nil [] = refl
append_nil (x ∷ xs) = ap (λ t. x ∷ t) (append_nil xs)

concat-from :
    (b : List String) (size : ℕ) (ps : List String) → concat (batches_from b size ps) ≡ b ++ ps
unfolding batches_from
concat-from b size [] = refl
concat-from b size (p ∷ ps) = elim (Bool-cases (ltb batch_bytes (size + len p))) [
  | inl full ↦ rw full (ap (λ t. b ++ t) (concat-from (p ∷ []) (len p + 4) ps))
  | inr fits ↦
      rw fits (concat-from (b ++ p ∷ []) (size + len p + 4) ps ∙ append_assoc b (p ∷ []) ps)
]

-- The bytes of a group's text: its paths, and between them the quotes and the comma.
abbrev pub text_bytes : List String → ℕ
text_bytes [] = 0
text_bytes (p ∷ ps) = len p + 4 + text_bytes ps

text_bytes-append :
    (b : List String) (p : String) → text_bytes (b ++ p ∷ []) ≡ text_bytes b + len p + 4
text_bytes-append [] p = omega arith
text_bytes-append (x ∷ b) p = omega (arith, text_bytes-append b p)

-- A group is one path, or its text has at most `batch_bytes` bytes and four more.
abbrev pub Fits : List String → Type 0
Fits b = ((p : String) × (b ≡ p ∷ [])) ⊎ (text_bytes b ≤ batch_bytes + 4)

-- What a full group leaves out: the next group begins with a path that did not fit.
abbrev pub Greedy : List (List String) → Type 0
Greedy [] = Unit
Greedy (b ∷ []) = Unit
Greedy (b ∷ [] ∷ bs) = ⊥
Greedy (b ∷ (p ∷ c) ∷ bs) = (batch_bytes < text_bytes b + len p) × Greedy ((p ∷ c) ∷ bs)

grown-Fits :
    (b : List String) (p : String)
    → ltb batch_bytes (text_bytes b + len p) ≡ false
    → Fits (b ++ p ∷ [])
grown-Fits b p h = inr (omega (arith, text_bytes-append b p, room (text_bytes b + len p) h))
  where
    room : (n : ℕ) → ltb batch_bytes n ≡ false → n ≤ batch_bytes
    room n h = ground arith

batches_from-Fits :
    (b : List String) (size : ℕ) (ps : List String)
    → size ≡ text_bytes b
    → Fits b
    → All Fits (batches_from b size ps)
unfolding batches_from
batches_from-Fits b size [] e f = (f, tt)
batches_from-Fits b size (p ∷ ps) e f = elim (Bool-cases (ltb batch_bytes (size + len p))) [
  | inl full ↦ rw full (f, batches_from-Fits (p ∷ []) (len p + 4) ps (omega arith) (inl (p, refl)))
  | inr fits ↦ rw fits (
      batches_from-Fits (b ++ p ∷ []) (size + len p + 4) ps
        (omega (arith, text_bytes-append b p, e)) (grown-Fits b p (rw e at fits)))
]

-- The first group begins with what the loop has already.
batches_from-head :
    (p : String) (c : List String) (size : ℕ) (ps : List String)
    → (c' : List String) × (bs : List (List String)) × (batches_from (p ∷ c) size ps
        ≡ (p ∷ c') ∷ bs)
unfolding batches_from
batches_from-head p c size [] = (c, [], refl)
batches_from-head p c size (q ∷ ps) = elim (Bool-cases (ltb batch_bytes (size + len q))) [
  | inl full ↦ (c, batches_from (q ∷ []) (len q + 4) ps, rw full refl)
  | inr fits ↦ rw fits (batches_from-head p (c ++ q ∷ []) (size + len q + 4) ps)
]

Greedy-cons :
    (b : List String) (p : String) (c : List String) (bs rest : List (List String))
    → rest ≡ (p ∷ c) ∷ bs
    → batch_bytes < text_bytes b + len p
    → Greedy rest
    → Greedy (b ∷ rest)
Greedy-cons b p c bs rest e h g = rw e (h, rw e at g)

batches_from-Greedy :
    (b : List String) (size : ℕ) (ps : List String)
    → size ≡ text_bytes b
    → Greedy (batches_from b size ps)
unfolding batches_from
batches_from-Greedy b size [] e = tt
batches_from-Greedy b size (p ∷ ps) e = elim (Bool-cases (ltb batch_bytes (size + len p))) [
  | inl full ↦
      let (c, bs, head) = batches_from-head p [] (len p + 4) ps in
      rw full (
        Greedy-cons b p c bs _ head (over (text_bytes b + len p) (rw e at full))
          (batches_from-Greedy (p ∷ []) (len p + 4) ps (omega arith)))
  | inr fits ↦ rw fits (
      batches_from-Greedy (b ++ p ∷ []) (size + len p + 4) ps
        (omega (arith, text_bytes-append b p, e)))
]
  where
    over : (n : ℕ) → ltb batch_bytes n ≡ true → batch_bytes < n
    over n h = ground arith

-- The groups are the paths in order, none left out; each is one path, or fits into `batch_bytes` and
-- four more bytes with its quotes and commas; and a group ends only before a path that would have gone past
-- `batch_bytes`.
pub batches_lem :
    (ps : List String) → (concat (batches ps) ≡ ps) × All Fits (batches ps) × Greedy (batches ps)
unfolding batches
batches_lem [] = (refl, tt, tt)
batches_lem (p ∷ ps) = (
  concat-from (p ∷ []) (len p + 4) ps,
  batches_from-Fits (p ∷ []) (len p + 4) ps (omega arith) (inl (p, refl)),
  batches_from-Greedy (p ∷ []) (len p + 4) ps (omega arith),
)
