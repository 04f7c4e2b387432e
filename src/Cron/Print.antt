-- ===== src/Cron/Print.antt =====
-- Schedules as data: their texts, and the times on which they fall, written independently of the parser.
pub mod Numbers
pub mod Cuts
pub mod Parts
pub mod Whole
use netbox_conductor.Base.{
  ℕ, ◌+◌, ◌≤◌, ◌<◌, ◌≡◌, ◌⊎◌, Option, none, some, List, [], ◌∷◌, ◌++◌, map, All,
}
use netbox_conductor.Cron.{Text, int_limit, Time}
use Numbers.{print_nat}
use Cuts.{join}
use netbox_conductor.Cron.Bits.{IsReached}

pub data Range : Type 0 where
  any : Range
  number : ℕ → Range
  between : ℕ → ℕ → Range

pub record Part : Type 0 where
  pub range : Range
  pub step : Option ℕ

-- One part, and the others behind it.
pub record Field : Type 0 where
  pub first : Part
  pub others : List Part

pub record Schedule : Type 0 where
  pub minute : Field
  pub hour : Field
  pub day : Field
  pub month : Field
  pub weekday : Field

abbrev pub print_range : Range → Text
print_range any = 42 ∷ []
print_range (number a) = print_nat a
print_range (between a b) = print_nat a ++ 45 ∷ print_nat b

abbrev pub print_with : Text → Option ℕ → Text
print_with s none = s
print_with s (some n) = s ++ 47 ∷ print_nat n

abbrev pub print_part : Part → Text
print_part p = print_with (print_range p.range) p.step

abbrev pub print_field : Field → Text
print_field f = join 44 (print_part f.first) (map print_part f.others)

abbrev pub print : Schedule → Text
print s =
    join 32 (print_field s.minute)
      (print_field s.hour ∷ print_field s.day ∷ print_field s.month ∷ print_field s.weekday ∷ [])

abbrev pub first_of : ℕ → Range → ℕ
first_of lo any = lo
first_of lo (number a) = a
first_of lo (between a b) = a

-- A number with a step goes on to the end of the field.
abbrev pub last_of : ℕ → Range → Option ℕ → ℕ
last_of hi any step = hi
last_of hi (number a) none = a
last_of hi (number a) (some n) = hi
last_of hi (between a b) step = b

abbrev pub step_or_one : Option ℕ → ℕ
step_or_one none = 1
step_or_one (some n) = n

-- The values that a part allows in a field from `lo` to `hi`.
abbrev pub Allows : (lo hi : ℕ) → Part → ℕ → Type 0
Allows lo hi p v =
    IsReached (first_of lo p.range) (last_of hi p.range p.step) (step_or_one p.step) v

abbrev pub SomeAllows : (lo hi : ℕ) → List Part → ℕ → Type 0
SomeAllows lo hi [] v = ⊥
SomeAllows lo hi (p ∷ ps) v = Allows lo hi p v ⊎ SomeAllows lo hi ps v

abbrev pub FieldAllows : (lo hi : ℕ) → Field → ℕ → Type 0
FieldAllows lo hi f v = SomeAllows lo hi (f.first ∷ f.others) v

-- The schedule falls on the time: all its fields allow the time's values, and a Sunday, 0, also
-- where they allow 7.
abbrev pub FallsOn : Schedule → Time → Type 0
FallsOn s t =
    FieldAllows 0 59 s.minute t.minute
    × FieldAllows 0 23 s.hour t.hour
    × FieldAllows 1 31 s.day t.day
    × FieldAllows 1 12 s.month t.month
    × (FieldAllows 0 7 s.weekday t.weekday ⊎ ((t.weekday ≡ 0) × FieldAllows 0 7 s.weekday 7))

abbrev pub IsInside : (lo hi : ℕ) → Range → Type 0
IsInside lo hi any = Unit
IsInside lo hi (number a) = (lo ≤ a) × (a ≤ hi)
IsInside lo hi (between a b) = (lo ≤ a) × (a ≤ b) × (b ≤ hi)

-- A step is positive, and far enough below the limit of an `int`.
abbrev pub IsStep : Option ℕ → Type 0
IsStep none = Unit
IsStep (some n) = (0 < n) × (n + 64 ≤ int_limit)

abbrev pub IsPart : (lo hi : ℕ) → Part → Type 0
IsPart lo hi p = IsInside lo hi p.range × IsStep p.step

abbrev pub IsField : (lo hi : ℕ) → Field → Type 0
IsField lo hi f = IsPart lo hi f.first × All (IsPart lo hi) f.others

pub record IsSchedule (s : Schedule) : Type 0 where
  pub minute : IsField 0 59 s.minute
  pub hour : IsField 0 23 s.hour
  pub day : IsField 1 31 s.day
  pub month : IsField 1 12 s.month
  pub weekday : IsField 0 7 s.weekday
