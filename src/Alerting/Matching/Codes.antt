-- ===== src/Alerting/Matching/Codes.antt =====
-- Which event codes a rule's code stands for.
use Prim.Native.Char.{code}
use Prim.Native.String.{◌++◌}
use text.Mathlib.TextLemmas.{nil-append, cons-append}
use text.Mathlib.TextEquality.{Char-path}
use netbox_conductor.Base.{
  String, Bool, true, false, ◌||◌, ◌≡◌, refl, sym, ap, ◌∙◌, ◌↔◌, ◌⊎◌, inl, inr, ◌==◌, ==_iff,
  str_eq, eq_iff, if◌then◌else◌, Bool-cases, both-values, and-left, and-right, or-right, arith,
}
use netbox_conductor.Alerting.Matching.{has_prefix, ends_in_dash, code_matches}

-- The text begins with the other one.
abbrev pub BeginsWith : String → String → Type 0
BeginsWith s p = (rest : String) × (s ≡ p ++ rest)

has_prefix_sound : (s p : String) → has_prefix s p ≡ true → BeginsWith s p
unfolding has_prefix
has_prefix_sound s String.[] h = (s, sym (nil-append s))
has_prefix_sound String.[] (String.◌∷◌ d p) h = absurd (ground arith)
has_prefix_sound (String.◌∷◌ c s) (String.◌∷◌ d p) h =
    let (rest, e) = has_prefix_sound s p (and-right (code c == code d) (has_prefix s p) h) in
    let same =
      Char-path c d
        ((==_iff (code c) (code d)).0 (and-left (code c == code d) (has_prefix s p) h)) in
    (rest, ap (λ x. String.◌∷◌ x s) same ∙ ap (λ t. String.◌∷◌ d t) e ∙ sym (cons-append d p rest))

has_prefix_complete : (p rest : String) → has_prefix (p ++ rest) p ≡ true
unfolding has_prefix
has_prefix_complete String.[] rest = refl
has_prefix_complete (String.◌∷◌ d p) rest =
    let t : (code d == code d) ≡ true = ground arith in
    rw (cons-append d p rest) (rw (t, has_prefix_complete p rest) refl)

has_prefix_iff : (s p : String) → (has_prefix s p ≡ true) ↔ BeginsWith s p
has_prefix_iff s p = (has_prefix_sound s p, λ b. rw (b.1) (has_prefix_complete p b.0))

-- A rule's code that ends in a dash stands for the codes that begin with it; another one stands for
-- itself and for the codes that begin with it and a dash, and so not for those that only begin with it.
pub code_matches_iff :
    (event_code c : String)
    → (code_matches event_code c ≡ true) ↔ (
        ((ends_in_dash c ≡ true) × BeginsWith event_code c)
        ⊎ ((ends_in_dash c ≡ false) × ((event_code ≡ c) ⊎ BeginsWith event_code (c ++ "-"))))
unfolding code_matches
code_matches_iff event_code c = by_dash (ends_in_dash c)
  where
    by_dash :
        (b : Bool)
        → ((if b
              then has_prefix event_code c
              else str_eq event_code c || has_prefix event_code (c ++ "-"))
            ≡ true)
          ↔ (((b ≡ true) × BeginsWith event_code c)
              ⊎ ((b ≡ false) × ((event_code ≡ c) ⊎ BeginsWith event_code (c ++ "-"))))
    by_dash true = (
      λ h. inl (refl, (has_prefix_iff event_code c).0 h),
      λ h. elim h [
        | inl k ↦ (has_prefix_iff event_code c).1 k.1
        | inr k ↦ absurd (both-values true refl k.0)
      ],
    )
    by_dash false = (
      λ h. inr (
        refl,
        elim (Bool-cases (str_eq event_code c)) [
          | inl e ↦ inl ((eq_iff event_code c).0 e)
          | inr e ↦ inr ((has_prefix_iff event_code (c ++ "-")).0 (rw e at h))
        ],
      ),
      λ h. elim h [
        | inl k ↦ absurd (both-values false k.0 refl)
        | inr k ↦ elim (k.1) [
          | inl e ↦ rw ((eq_iff event_code c).1 e) refl
          | inr b ↦ rw ((has_prefix_iff event_code (c ++ "-")).1 b) (or-right (str_eq event_code c))
        ]
      ],
    )
