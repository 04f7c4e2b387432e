-- ===== src/Backups/Runs/Outcome.antt =====
-- Which runs succeed.
use Prim.Native.String.{◌++◌}
use netbox_conductor.Base.{
  ℕ, String, Bool, true, false, ◌≡◌, refl, ap, Option, none, some, ◌↔◌, inl, inr, List, [], ◌∷◌,
  str_eq, eq_iff, if◌then◌else◌, Bool-cases, some-inj, both-values, arith,
}
use text.Mathlib.TextLemmas.{append-ne-nil_of_right_ne-nil}
use netbox_conductor.Backups.Runs.{
  BackupResult, CompletedBackupRun, is_repo, or_text, error_of, output_of, location_error,
  outcome_text,
}

-- The last outcome that a list of results has for a location.
abbrev pub last_outcome : Option ℕ → Option String → List BackupResult → Option String
last_outcome repo found [] = found
last_outcome repo found (res ∷ rest) =
    last_outcome repo (if is_repo repo res.repo then some res.error else found) rest

abbrev or_default : String → Option String → String
or_default msg none = msg
or_default msg (some s) = s

location_error_lem :
    (msg : String) (repo : Option ℕ) (found : Option String) (rs : List BackupResult)
    → location_error (or_default msg found) repo rs ≡ or_default msg (last_outcome repo found rs)
unfolding location_error
location_error_lem msg repo found [] = refl
location_error_lem msg repo found (res ∷ rs) =
    step (is_repo repo res.repo) (location_error_lem msg repo (some res.error) rs)
      (location_error_lem msg repo found rs)
  where
    step :
        (b : Bool)
        → location_error res.error repo rs ≡ or_default msg (last_outcome repo (some res.error) rs)
        → location_error (or_default msg found) repo rs
          ≡ or_default msg (last_outcome repo found rs)
        → location_error (if b then res.error else or_default msg found) repo rs
          ≡ or_default msg (last_outcome repo (if b then some res.error else found) rs)
    step true t f = t
    step false t f = f

not_empty : (s : String) → (s ≡ "" → ⊥) → str_eq s "" ≡ false
not_empty s h = elim (Bool-cases (str_eq s "")) [
  | inl e ↦ absurd (h ((eq_iff s "").0 e))
  | inr e ↦ e
]

-- The message without an outcome is never empty.
no_outcome_message :
    (msg : String) (timed_out : Bool)
    → str_eq msg "" ≡ false
    → str_eq (if timed_out then "task timed out: " ++ msg else msg) "" ≡ false
no_outcome_message msg true h = not_empty ("task timed out: " ++ msg) (
    append-ne-nil_of_right_ne-nil "task timed out: "
      (λ e. both-values (str_eq msg "") ((eq_iff msg "").1 e) h))
no_outcome_message msg false h = h

or_text-nonempty : (a b : String) → str_eq b "" ≡ false → str_eq (or_text a b) "" ≡ false
or_text-nonempty a b h = ground arith

-- A run is recorded as a success exactly if the last outcome that its task's output has for its
-- location is without error, whatever the task's own error, and whether or not it timed out.
outcome_text-empty :
    (decode : String → List BackupResult) (c : CompletedBackupRun)
    → (str_eq (outcome_text decode c) "" ≡ true)
      ↔ (last_outcome c.repo_index none (decode (output_of c.response_payload)) ≡ some "")
unfolding outcome_text
outcome_text-empty decode c =
    let own = or_text (error_of c.response_payload) "no outcome for this location" in
    let msg = if c.timed_out then "task timed out: " ++ own else own in
    let results = decode (output_of c.response_payload) in
    let nonempty =
      no_outcome_message own c.timed_out
        (or_text-nonempty (error_of c.response_payload) "no outcome for this location" refl) in
    rw (location_error_lem msg c.repo_index none results)
      (by_outcome msg nonempty (last_outcome c.repo_index none results))
  where
    by_outcome :
        (msg : String)
        → str_eq msg "" ≡ false
        → (o : Option String) → (str_eq (or_default msg o) "" ≡ true) ↔ (o ≡ some "")
    by_outcome msg n none =
        (λ h. absurd (both-values (str_eq msg "") h n), λ e. absurd (ground arith))
    by_outcome msg n (some s) =
        (λ h. ap some ((eq_iff s "").0 h), λ e. (eq_iff s "").1 (some-inj e))
