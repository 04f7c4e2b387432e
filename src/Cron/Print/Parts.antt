-- ===== src/Cron/Print/Parts.antt =====
-- What the parser makes of the text of a part.
use netbox_conductor.Base.{
  ℕ, ◌+◌, ◌≤◌, ◌<◌, Bool, true, false, ◌≡◌, refl, ◌∙◌, Option, none, some, List, [], ◌∷◌, ◌++◌,
  ◌==◌, ltb, if◌then◌else◌, arith,
}
use netbox_conductor.Cron.{
  Text, int_limit, Result, ok, ◌>>=◌, cut, cron_num, cron_num_of, range_end, part_range, cron_step,
  step_of, range_bits, cron_part,
}
use netbox_conductor.Cron.Bits.{IsRange, range_bits-IsRange}
use netbox_conductor.Cron.Print.{
  Range, any, number, between, Part, print_range, print_with, print_part, first_of, last_of,
  step_or_one, IsInside, IsStep, IsPart,
}
use netbox_conductor.Cron.Print.Numbers.{print_nat, IsDigits, print_nat-IsDigits, atoi-print_nat}
use netbox_conductor.Cron.Print.Cuts.{Lacks, cut-found, cut-missing}

-- Digits are none of the separators.
pub Lacks-digits : (sep : ℕ) (s : Text) → sep < 48 → IsDigits s → Lacks sep s
Lacks-digits sep [] h d = tt
Lacks-digits sep (c ∷ s) h d = (ground arith, Lacks-digits sep s h d.1)

pub Lacks-append :
    (sep : ℕ) (s t : Text) (c : ℕ)
    → Lacks sep s
    → (c == sep) ≡ false
    → Lacks sep t
    → Lacks sep (s ++ c ∷ t)
Lacks-append sep [] t c l h m = (h, m)
Lacks-append sep (x ∷ s) t c l h m = (l.0, Lacks-append sep s t c l.1 h m)

pub Lacks-print_nat : (sep n : ℕ) → sep < 48 → Lacks sep (print_nat n)
Lacks-print_nat sep n h = Lacks-digits sep (print_nat n) h (print_nat-IsDigits n)

cron_num-print_nat : (a lo hi : ℕ) → lo ≤ a → a ≤ hi → hi < 64 → cron_num (print_nat a) lo hi ≡ ok a
unfolding cron_num cron_num_of
cron_num-print_nat a lo hi l h small = rw (atoi-print_nat a (omega arith)) (ground arith)

-- The range of a text that is not the star.
abbrev bounds : Bool → Text → (lo hi : ℕ) → Result (ℕ × ℕ)
bounds has_step rng lo hi =
    let (a, b, is_range) = cut 45 rng in
    cron_num a lo hi >>= λ from.
    range_end has_step is_range rng b from lo hi >>= λ to. ok (from, to)

part_range-bounds :
    (has_step : Bool) (rng : Text) (lo hi : ℕ)
    → Lacks 42 rng
    → part_range has_step rng lo hi ≡ bounds has_step rng lo hi
unfolding part_range
part_range-bounds has_step [] lo hi l = refl
part_range-bounds has_step (c ∷ []) lo hi l = rw (l.0) refl
part_range-bounds has_step (c ∷ d ∷ s) lo hi l = refl

abbrev has : Option ℕ → Bool
has none = false
has (some n) = true

number_range :
    (a lo hi : ℕ) (step : Option ℕ)
    → lo ≤ a
    → a ≤ hi
    → hi < 64
    → part_range (has step) (print_nat a) lo hi ≡ ok (a, last_of hi (number a) step)
unfolding range_end
number_range a lo hi none l h small =
    part_range-bounds false (print_nat a) lo hi (Lacks-print_nat 42 a (omega arith))
    ∙ rw
        (
          cut-missing 45 (print_nat a) (Lacks-print_nat 45 a (omega arith)),
          cron_num-print_nat a lo hi l h small,
        )
        refl
number_range a lo hi (some n) l h small =
    part_range-bounds true (print_nat a) lo hi (Lacks-print_nat 42 a (omega arith))
    ∙ rw
        (
          cut-missing 45 (print_nat a) (Lacks-print_nat 45 a (omega arith)),
          cron_num-print_nat a lo hi l h small,
        )
        refl

between_range :
    (has_step : Bool) (a b lo hi : ℕ)
    → lo ≤ a
    → a ≤ b
    → b ≤ hi
    → hi < 64
    → part_range has_step (print_nat a ++ 45 ∷ print_nat b) lo hi ≡ ok (a, b)
unfolding range_end
between_range has_step a b lo hi l m h small =
    part_range-bounds has_step (print_nat a ++ 45 ∷ print_nat b) lo hi (
      Lacks-append 42 (print_nat a) (print_nat b) 45 (Lacks-print_nat 42 a (omega arith)) refl
        (Lacks-print_nat 42 b (omega arith)))
    ∙ rw
        (
          cut-found 45 (print_nat a) (print_nat b) (Lacks-print_nat 45 a (omega arith)),
          cron_num-print_nat a lo hi l (omega arith) small,
          cron_num-print_nat b lo hi (omega arith) h small,
        )
        (ordered (ltb b a) _ (ground arith))
  where
    pair : ℕ → Result (ℕ × ℕ)
    pair to = ok (a, to)

    ordered : (c : Bool) (f : Result ℕ) → c ≡ false → ((if c then f else ok b) >>= pair) ≡ pair b
    ordered c f e = rw e refl

part_range-print_range :
    (r : Range) (lo hi : ℕ) (step : Option ℕ)
    → IsInside lo hi r
    → hi < 64
    → part_range (has step) (print_range r) lo hi ≡ ok (first_of lo r, last_of hi r step)
part_range-print_range any lo hi step i small = unfold part_range in refl
part_range-print_range (number a) lo hi step i small = number_range a lo hi step i.0 i.1 small
part_range-print_range (between a b) lo hi step i small =
    between_range (has step) a b lo hi i.0 i.1 i.2 small

Lacks-print_range :
    (sep : ℕ) (r : Range)
    → sep < 48
    → (42 == sep) ≡ false
    → (45 == sep) ≡ false
    → Lacks sep (print_range r)
Lacks-print_range sep any h k l = (k, tt)
Lacks-print_range sep (number a) h k l = Lacks-print_nat sep a h
Lacks-print_range sep (between a b) h k l =
    Lacks-append sep (print_nat a) (print_nat b) 45 (Lacks-print_nat sep a h) l
      (Lacks-print_nat sep b h)

cron_part-print_with :
    (r : Range) (step : Option ℕ) (lo hi : ℕ)
    → IsInside lo hi r
    → IsStep step
    → hi < 64
    → cron_part (print_with (print_range r) step) lo hi
      ≡ range_bits (first_of lo r) (last_of hi r step) (step_or_one step)
unfolding cron_part cron_step step_of
cron_part-print_with r none lo hi i st small =
    rw
      (
        cut-missing 47 (print_range r) (Lacks-print_range 47 r (omega arith) refl refl),
        part_range-print_range r lo hi none i small,
      )
      refl
cron_part-print_with r (some n) lo hi i st small =
    rw
      (
        cut-found 47 (print_range r) (print_nat n) (Lacks-print_range 47 r (omega arith) refl refl),
        atoi-print_nat n (omega arith),
        zero_test n st.0,
        part_range-print_range r lo hi (some n) i small,
      )
      refl
  where
    zero_test : (m : ℕ) → 0 < m → (m == 0) ≡ false
    zero_test m h = ground arith

ordered_range :
    (r : Range) (step : Option ℕ) (lo hi : ℕ)
    → IsInside lo hi r
    → lo ≤ hi
    → (first_of lo r ≤ last_of hi r step) × (last_of hi r step ≤ hi)
ordered_range any step lo hi i h = (h, omega arith)
ordered_range (number a) none lo hi i h = (omega arith, i.1)
ordered_range (number a) (some n) lo hi i h = (i.1, omega arith)
ordered_range (between a b) step lo hi i h = (i.1, i.2)

step_fits :
    (step : Option ℕ) → IsStep step → (0 < step_or_one step) × (step_or_one step + 64 ≤ int_limit)
step_fits none s = (omega arith, omega arith)
step_fits (some n) s = s

-- The parser sets the bits of the values that the part allows.
pub cron_part-print_part :
    (p : Part) (lo hi : ℕ)
    → IsPart lo hi p
    → lo ≤ hi
    → hi < 64
    → (bits : List ℕ) × (cron_part (print_part p) lo hi ≡ ok bits)
      × IsRange (first_of lo p.range) (last_of hi p.range p.step) (step_or_one p.step) bits
cron_part-print_part p lo hi i h small =
    let o = ordered_range p.range p.step lo hi i.0 h in
    let s = step_fits p.step i.1 in
    let (bits, e, range) =
      range_bits-IsRange (first_of lo p.range) (last_of hi p.range p.step) (step_or_one p.step) o.0
        (omega arith) s.0 (omega arith) in
    (bits, cron_part-print_with p.range p.step lo hi i.0 i.1 small ∙ e, range)
