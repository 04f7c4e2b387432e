-- ===== src/Cron/Print/Numbers.antt =====
-- Decimal numbers as texts, and what Atoi reads of them.
use netbox_conductor.Base.{
  ℕ, zero, suc, ◌+◌, ◌-◌, ◌*◌, ◌/◌, ◌%◌, ◌≤◌, ◌<◌, ◌≡◌, ◌≢◌, refl, ap, ◌∙◌, some, [], ◌∷◌, ◌++◌,
  ltb, if◌then◌else◌, Bool-cases, inl, inr, All, arith,
}
use netbox_conductor.Cron.{Text, pos, int_limit, digits_value, atoi}

-- With fuel: a number has no more digits than its value and one.
print_digits : ℕ → ℕ → Text
print_digits zero n = []
print_digits (suc fuel) n =
    let rest = print_digits fuel (n / 10) in
    if ltb n 10 then (48 + n) ∷ [] else rest ++ (48 + n % 10) ∷ []

unfoldable pub print_nat : ℕ → Text
unfolding print_digits
print_nat n = print_digits (suc n) n

abbrev pub IsDigits : Text → Type 0
IsDigits = All (λ c. (48 ≤ c) × (c ≤ 57))

IsDigits-append : (s : Text) (c : ℕ) → IsDigits s → 48 ≤ c → c ≤ 57 → IsDigits (s ++ c ∷ [])
IsDigits-append [] c d l h = ((l, h), tt)
IsDigits-append (x ∷ s) c d l h = (d.0, IsDigits-append s c d.1 l h)

digits_value-append :
    (acc : ℕ) (s : Text) (c v : ℕ)
    → digits_value acc s ≡ some v
    → 48 ≤ c
    → c ≤ 57
    → digits_value acc (s ++ c ∷ []) ≡ some (v * 10 + (c - 48))
unfolding digits_value
digits_value-append acc [] c v e l h = ground arith
digits_value-append acc (x ∷ s) c v e l h =
    ground (arith, digits_value-append (acc * 10 + (x - 48)) s c v)

print_digits-value : (fuel n : ℕ) → n < fuel → digits_value 0 (print_digits fuel n) ≡ some n
unfolding print_digits
print_digits-value zero n h = absurd (omega arith)
print_digits-value (suc fuel) n h = elim (Bool-cases (ltb n 10)) [
  | inl e ↦ rw e (unfold digits_value in ground arith)
  | inr e ↦ rw e (
      digits_value-append 0 (print_digits fuel (n / 10)) (48 + n % 10) (n / 10)
        (print_digits-value fuel (n / 10) (ground arith)) (omega arith) (omega arith)
      ∙ ap some (omega arith))
]

print_digits-IsDigits : (fuel n : ℕ) → n < fuel → IsDigits (print_digits fuel n)
unfolding print_digits
print_digits-IsDigits zero n h = absurd (omega arith)
print_digits-IsDigits (suc fuel) n h = elim (Bool-cases (ltb n 10)) [
  | inl e ↦ rw e ((omega arith, ground arith), tt)
  | inr e ↦ rw e (
      IsDigits-append (print_digits fuel (n / 10)) (48 + n % 10)
        (print_digits-IsDigits fuel (n / 10) (ground arith)) (omega arith) (omega arith))
]

pub print_nat-IsDigits : (n : ℕ) → IsDigits (print_nat n)
unfolding print_nat
print_nat-IsDigits n = print_digits-IsDigits (suc n) n (omega arith)

-- A text of digits is not empty if it has a value, and Atoi reads that value.
atoi-digits :
    (s : Text) (n : ℕ)
    → IsDigits s
    → s ≢ []
    → digits_value 0 s ≡ some n
    → n < int_limit
    → atoi s ≡ some (pos n)
unfolding atoi digits_value
atoi-digits [] n d ne v h = absurd (ne refl)
atoi-digits (c ∷ s) n d ne v h = ground arith

nonempty_append : (s : Text) (c : ℕ) → (s ++ c ∷ []) ≢ []
nonempty_append [] c e = cc
nonempty_append (x ∷ s) c e = cc

print_digits-nonempty : (fuel n : ℕ) → n < fuel → print_digits fuel n ≢ []
unfolding print_digits
print_digits-nonempty zero n h = absurd (omega arith)
print_digits-nonempty (suc fuel) n h = elim (Bool-cases (ltb n 10)) [
  | inl e ↦ rw e (λ k. cc)
  | inr e ↦ rw e (nonempty_append (print_digits fuel (n / 10)) (48 + n % 10))
]

pub print_nat-nonempty : (n : ℕ) → print_nat n ≢ []
unfolding print_nat
print_nat-nonempty n = print_digits-nonempty (suc n) n (omega arith)

pub atoi-print_nat : (n : ℕ) → n < int_limit → atoi (print_nat n) ≡ some (pos n)
unfolding print_nat
atoi-print_nat n h =
    atoi-digits (print_digits (suc n) n) n (print_digits-IsDigits (suc n) n (omega arith))
      (print_digits-nonempty (suc n) n (omega arith)) (print_digits-value (suc n) n (omega arith)) h
