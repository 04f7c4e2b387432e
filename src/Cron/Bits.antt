-- ===== src/Cron/Bits.antt =====
-- Which values a range sets, and when it panics.
use netbox_conductor.Base.{
  ℕ, zero, suc, ◌+◌, ◌-◌, ◌*◌, ◌≤◌, ◌<◌, Bool, true, ◌||◌, ◌≡◌, refl, ap, ◌∙◌, some, List, [], ◌∷◌,
  ◌++◌, ◌==◌, ==_iff, ltb, ◌⊎◌, inl, inr, Bool-cases, or-right, arith,
}
use netbox_conductor.Cron.{int_limit, ok, panics, set_bits, range_bits, or_panic, contains}

-- The value is reached from `from` by steps, and is at most `to`.
abbrev pub IsReached : (from to step v : ℕ) → Type 0
IsReached from to step v = ((k : ℕ) × (v ≡ from + k * step)) × (v ≤ to)

IsReached-first : (from to step : ℕ) → from ≤ to → IsReached from to step from
IsReached-first from to step h = ((0, grind arith), h)

IsReached-next : (from to step v : ℕ) → IsReached (from + step) to step v → IsReached from to step v
IsReached-next from to step v ((k, e), h) = ((suc k, grind arith), h)

IsReached-split :
    (from to step v : ℕ) → IsReached from to step v → (from ≡ v) ⊎ IsReached (from + step) to step v
IsReached-split from to step v ((zero, e), h) = inl (grind arith)
IsReached-split from to step v ((suc k, e), h) = inr ((k, grind arith), h)

not_reached : (from to step v : ℕ) → to < from → IsReached from to step v → ⊥
not_reached from to step v h ((k, e), i) = grind arith

append_assoc : (xs ys zs : List ℕ) → (xs ++ ys) ++ zs ≡ xs ++ (ys ++ zs)
append_assoc [] ys zs = refl
append_assoc (x ∷ xs) ys zs = ap (λ l. x ∷ l) (append_assoc xs ys zs)

append-nil : (xs : List ℕ) → xs ++ [] ≡ xs
append-nil [] = refl
append-nil (x ∷ xs) = ap (λ l. x ∷ l) (append-nil xs)

-- Bits that are set exactly at the values that are reached.
pub record IsRange (from to step : ℕ) (bits : List ℕ) : Type 0 where
  pub sound : (v : ℕ) → contains v bits ≡ true → IsReached from to step v
  pub complete : (v : ℕ) → IsReached from to step v → contains v bits ≡ true

contains_first : (b c : Bool) → b ≡ true → (b || c) ≡ true
contains_first b c h = rw h refl

IsRange-cons :
    (from to step : ℕ) (bits : List ℕ)
    → from ≤ to
    → IsRange (from + step) to step bits
    → IsRange from to step (from ∷ bits)
IsRange-cons from to step bits h r = record {
  sound = λ v c. elim (Bool-cases (from == v)) [
    | inl e ↦ rw⁻¹ ((==_iff from v).0 e) (IsReached-first from to step h)
    | inr e ↦ IsReached-next from to step v (r.sound v (rw e at c))
  ];
  complete = λ v i. elim (IsReached-split from to step v i) [
    | inl e ↦ contains_first (from == v) _ ((==_iff from v).1 e)
    | inr j ↦ rw (r.complete v j) (or-right (from == v))
  ];
}

lt→ltb : (a b : ℕ) → a < b → ltb a b ≡ true
lt→ltb a b h = ground arith

-- With no wrap round ahead, the loop sets the values that are reached.
set_bits-IsRange :
    (fuel v to step : ℕ) (acc : List ℕ)
    → 0 < fuel
    → to + 1 < fuel + v
    → to < 64
    → 0 < step
    → (v ≤ to → v + step < int_limit)
    → (bits : List ℕ) × (set_bits fuel v to step acc ≡ some (ok (acc ++ bits)))
      × IsRange v to step bits
unfolding set_bits
set_bits-IsRange zero v to step acc p f small s h = absurd (omega arith)
set_bits-IsRange (suc fuel) v to step acc p f small s h = elim (Bool-cases (ltb to v)) [
  | inl e ↦ (
    [],
    rw (e, append-nil acc) refl,
    record {
      sound = λ u c. absurd (ground arith);
      complete = λ u i. absurd (not_reached v to step u (ground arith) i);
    },
  )
  | inr e ↦
      let fits : v + step < int_limit = h (ground arith) in
      let (bits, r, range) =
        set_bits-IsRange fuel (v + step) to step (acc ++ v ∷ []) (ground arith) (ground arith) small
          s (λ k. ground arith) in
      (
        v ∷ bits,
        rw (e, lt→ltb (v + step) int_limit fits)
            (r ∙ ap (λ l. some (ok l)) (append_assoc acc (v ∷ []) bits)),
        IsRange-cons v to step bits (ground arith) range,
      )
]

-- A step that fits beside the first number sets the numbers that are reached.
pub range_bits-IsRange :
    (from to step : ℕ)
    → from ≤ to
    → to < 64
    → 0 < step
    → from + step < int_limit
    → (bits : List ℕ) × (range_bits from to step ≡ ok bits) × IsRange from to step bits
unfolding range_bits
range_bits-IsRange from to step h small s fits =
    let (bits, r, range) =
      set_bits-IsRange (to + 2 - from) from to step [] (omega arith) (omega arith) small s
        (λ k. fits) in
    (bits, rw r refl, range)

panicking :
    (fuel from to step : ℕ)
    → 0 < fuel
    → from ≤ to
    → int_limit ≤ from + step
    → or_panic (set_bits fuel from to step []) ≡ panics
unfolding set_bits
panicking zero from to step p h w = absurd (omega arith)
panicking (suc fuel) from to step p h w = ground arith

-- In a range of numbers below 64, from the first to the last by a positive step: either the first number
-- and the step fit into 63 bits together, and the bits of the numbers that are reached are set, and no
-- others; or they do not, and the code panics.
pub range_bits_lem :
    (from to step : ℕ)
    → from ≤ to
    → to < 64
    → 0 < step
    → ((from + step < int_limit)
        × ((bits : List ℕ) × (range_bits from to step ≡ ok bits) × IsRange from to step bits))
      ⊎ ((int_limit ≤ from + step) × (range_bits from to step ≡ panics))
unfolding range_bits
range_bits_lem from to step h small s = elim (Bool-cases (ltb (from + step) int_limit)) [
  | inl e ↦
      let fits : from + step < int_limit = ground arith in
      inl (fits, range_bits-IsRange from to step h small s fits)
  | inr e ↦
      let wraps : int_limit ≤ from + step = ground arith in
      inr (wraps, panicking (to + 2 - from) from to step (omega arith) h wraps)
]
