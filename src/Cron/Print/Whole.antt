-- ===== src/Cron/Print/Whole.antt =====
-- The text of a schedule is parsed, and matches the times on which the schedule falls.
use netbox_conductor.Base.{
  ℕ, ◌≤◌, ◌<◌, Bool, true, false, ◌||◌, ◌≡◌, ◌≢◌, refl, sym, ◌∙◌, Option, none, some, List, [], ◌∷◌,
  ◌++◌, map, ◌==◌, ==_iff, All, ◌↔◌, ◌⊎◌, inl, inr, Bool-cases, both-values, or-right, and-left,
  and-right, arith,
}
use netbox_conductor.Cron.{
  Text, ok, is_space, cron_parts, cron_field, parse_fields, parse_cron, CronSpec, Time, contains,
  with_sunday, spec_matches, matches_result, matches,
}
use netbox_conductor.Cron.Print.{
  Range, any, number, between, Part, Field, Schedule, print_range, print_with, print_part,
  print_field, print, Allows, SomeAllows, FieldAllows, FallsOn, IsPart, IsField, IsSchedule,
}
use netbox_conductor.Cron.Print.Numbers.{
  print_nat, IsDigits, print_nat-IsDigits, print_nat-nonempty,
}
use netbox_conductor.Cron.Print.Cuts.{Lacks, join, split-join, IsWord, fields_lem}
use netbox_conductor.Cron.Print.Parts.{Lacks-append, Lacks-print_nat, cron_part-print_part}

-- The bits are those of the values that satisfy `P`.
abbrev Decides : List ℕ → (ℕ → Type 0) → Type 0
Decides bits P = (v : ℕ) → (contains v bits ≡ true) ↔ P v

contains-append :
    (v : ℕ) (xs ys : List ℕ) → contains v (xs ++ ys) ≡ (contains v xs || contains v ys)
contains-append v [] ys = refl
contains-append v (x ∷ xs) ys = ground (arith, contains-append v xs ys)

Decides-append :
    (P Q : ℕ → Type 0) (xs ys : List ℕ)
    → Decides xs P
    → Decides ys Q
    → Decides (xs ++ ys) (λ v. P v ⊎ Q v)
Decides-append P Q xs ys p q v = (
  λ h. either (contains v xs) (contains v ys) refl refl (sym (contains-append v xs ys) ∙ h),
  λ h.
      contains-append v xs ys
      ∙ elim h [ inl i ↦ rw ((p v).1 i) refl | inr j ↦ rw ((q v).1 j) (or-right (contains v xs)) ],
)
  where
    either : (a b : Bool) → contains v xs ≡ a → contains v ys ≡ b → (a || b) ≡ true → P v ⊎ Q v
    either true b e f h = inl ((p v).0 e)
    either false b e f h = inr ((q v).0 (f ∙ h))

cron_parts-print_part :
    (ps : List Part) (lo hi : ℕ)
    → All (IsPart lo hi) ps
    → lo ≤ hi
    → hi < 64
    → (bits : List ℕ) × (cron_parts (map print_part ps) lo hi ≡ ok bits)
      × Decides bits (SomeAllows lo hi ps)
unfolding cron_parts
cron_parts-print_part [] lo hi a h small =
    ([], refl, λ v. (λ c. absurd (ground arith), λ i. absurd i))
cron_parts-print_part (p ∷ ps) lo hi a h small =
    let (xs, e, range) = cron_part-print_part p lo hi a.0 h small in
    let (ys, f, others) = cron_parts-print_part ps lo hi a.1 h small in
    (
      xs ++ ys,
      rw (e, f) refl,
      Decides-append (Allows lo hi p) (SomeAllows lo hi ps) xs ys
          (λ v. (range.sound v, range.complete v)) others,
    )

-- The characters of a part: a star, a comma, a dash, a slash and digits.
abbrev IsPrinted : Text → Type 0
IsPrinted = All (λ c. (42 ≤ c) × (c ≤ 57))

IsPrinted-append : (s t : Text) → IsPrinted s → IsPrinted t → IsPrinted (s ++ t)
IsPrinted-append [] t p q = q
IsPrinted-append (c ∷ s) t p q = (p.0, IsPrinted-append s t p.1 q)

IsPrinted-digits : (s : Text) → IsDigits s → IsPrinted s
IsPrinted-digits [] d = tt
IsPrinted-digits (c ∷ s) d = ((omega arith, d.0.1), IsPrinted-digits s d.1)

IsPrinted-print_nat : (n : ℕ) → IsPrinted (print_nat n)
IsPrinted-print_nat n = IsPrinted-digits (print_nat n) (print_nat-IsDigits n)

IsPrinted-print_range : (r : Range) → IsPrinted (print_range r)
IsPrinted-print_range any = ((omega arith, omega arith), tt)
IsPrinted-print_range (number a) = IsPrinted-print_nat a
IsPrinted-print_range (between a b) =
    IsPrinted-append (print_nat a) (45 ∷ print_nat b) (IsPrinted-print_nat a)
      ((omega arith, omega arith), IsPrinted-print_nat b)

IsPrinted-print_with : (s : Text) (step : Option ℕ) → IsPrinted s → IsPrinted (print_with s step)
IsPrinted-print_with s none p = p
IsPrinted-print_with s (some n) p =
    IsPrinted-append s (47 ∷ print_nat n) p ((omega arith, omega arith), IsPrinted-print_nat n)

IsPrinted-print_part : (p : Part) → IsPrinted (print_part p)
IsPrinted-print_part p =
    IsPrinted-print_with (print_range p.range) p.step (IsPrinted-print_range p.range)

IsPrinted-join :
    (s : Text) (ps : List Part) → IsPrinted s → IsPrinted (join 44 s (map print_part ps))
IsPrinted-join s [] p = p
IsPrinted-join s (q ∷ ps) p =
    IsPrinted-append s (44 ∷ join 44 (print_part q) (map print_part ps)) p
      ((omega arith, omega arith), IsPrinted-join (print_part q) ps (IsPrinted-print_part q))

IsWord-printed : (s : Text) → IsPrinted s → IsWord s
unfolding is_space
IsWord-printed [] p = tt
IsWord-printed (c ∷ s) p = (ground arith, IsWord-printed s p.1)

IsWord-print_field : (f : Field) → IsWord (print_field f)
IsWord-print_field f =
    IsWord-printed (print_field f)
      (IsPrinted-join (print_part f.first) f.others (IsPrinted-print_part f.first))

-- No part has a comma.
Lacks-print_range : (r : Range) → Lacks 44 (print_range r)
Lacks-print_range any = (refl, tt)
Lacks-print_range (number a) = Lacks-print_nat 44 a (omega arith)
Lacks-print_range (between a b) =
    Lacks-append 44 (print_nat a) (print_nat b) 45 (Lacks-print_nat 44 a (omega arith)) refl
      (Lacks-print_nat 44 b (omega arith))

Lacks-print_with : (s : Text) (step : Option ℕ) → Lacks 44 s → Lacks 44 (print_with s step)
Lacks-print_with s none l = l
Lacks-print_with s (some n) l =
    Lacks-append 44 s (print_nat n) 47 l refl (Lacks-print_nat 44 n (omega arith))

Lacks-print_part : (p : Part) → Lacks 44 (print_part p)
Lacks-print_part p = Lacks-print_with (print_range p.range) p.step (Lacks-print_range p.range)

Lacks-parts : (ps : List Part) → All (Lacks 44) (map print_part ps)
Lacks-parts [] = tt
Lacks-parts (p ∷ ps) = (Lacks-print_part p, Lacks-parts ps)

append-nonempty : (s t : Text) → s ≢ [] → (s ++ t) ≢ []
append-nonempty [] t n = absurd (n refl)
append-nonempty (c ∷ s) t n = λ e. cc

nonempty_range : (r : Range) → print_range r ≢ []
nonempty_range any = λ e. cc
nonempty_range (number a) = print_nat-nonempty a
nonempty_range (between a b) =
    append-nonempty (print_nat a) (45 ∷ print_nat b) (print_nat-nonempty a)

nonempty_part : (r : Range) (step : Option ℕ) → print_with (print_range r) step ≢ []
nonempty_part r none = nonempty_range r
nonempty_part r (some n) = append-nonempty (print_range r) (47 ∷ print_nat n) (nonempty_range r)

nonempty_join : (s : Text) (ts : List Text) → s ≢ [] → join 44 s ts ≢ []
nonempty_join s [] n = n
nonempty_join s (t ∷ ts) n = append-nonempty s (44 ∷ join 44 t ts) n

nonempty_field : (f : Field) → print_field f ≢ []
nonempty_field f =
    nonempty_join (print_part f.first) (map print_part f.others)
      (nonempty_part f.first.range f.first.step)

cron_field-print_field :
    (f : Field) (lo hi : ℕ)
    → IsField lo hi f
    → lo ≤ hi
    → hi < 64
    → (bits : List ℕ) × (cron_field (print_field f) lo hi ≡ ok bits)
      × Decides bits (FieldAllows lo hi f)
unfolding cron_field
cron_field-print_field f lo hi i h small =
    let (bits, e, d) = cron_parts-print_part (f.first ∷ f.others) lo hi i h small in
    let s =
      split-join 44 (print_part f.first) (map print_part f.others) (Lacks-print_part f.first)
        (Lacks-parts f.others) in
    (bits, rw s e, d)

Decides-with_sunday :
    (P : ℕ → Type 0) (bits : List ℕ)
    → Decides bits P
    → Decides (with_sunday bits) (λ v. P v ⊎ ((v ≡ 0) × P 7))
Decides-with_sunday P bits d v = elim (Bool-cases (contains 7 bits)) [
  | inl e ↦ rw e (with_seven ((d 7).0 e))
  | inr e ↦ rw e (
    λ h. inl ((d v).0 h),
    λ h. elim h [
      | inl i ↦ (d v).1 i
      | inr j ↦ absurd (both-values (contains 7 bits) ((d 7).1 j.1) e)
    ],
  )
]
  where
    with_seven : P 7 → (contains v (0 ∷ bits) ≡ true) ↔ (P v ⊎ ((v ≡ 0) × P 7))
    with_seven seven = (
      λ h. elim (Bool-cases (0 == v)) [
        | inl e ↦ inr (sym ((==_iff 0 v).0 e), seven)
        | inr e ↦ inl ((d v).0 (rw e at h))
      ],
      λ h. elim h [
        | inl i ↦ rw ((d v).1 i) (or-right (0 == v))
        | inr j ↦ rw ((==_iff 0 v).1 (sym j.0)) refl
      ],
    )

-- The parsed fields of a schedule.
record IsParsed (s : Schedule) (c : CronSpec) : Type 0 where
  minute : Decides c.minute (FieldAllows 0 59 s.minute)
  hour : Decides c.hour (FieldAllows 0 23 s.hour)
  day : Decides c.day (FieldAllows 1 31 s.day)
  month : Decides c.month (FieldAllows 1 12 s.month)
  weekday :
      Decides c.weekday (λ v. FieldAllows 0 7 s.weekday v ⊎ ((v ≡ 0) × FieldAllows 0 7 s.weekday 7))

IsWord-field : (f : Field) → IsWord (print_field f) × (print_field f ≢ [])
IsWord-field f = (IsWord-print_field f, nonempty_field f)

parse_cron-print :
    (s : Schedule) → IsSchedule s → (c : CronSpec) × (parse_cron (print s) ≡ ok c) × IsParsed s c
unfolding parse_cron parse_fields
parse_cron-print s i =
    let (mi, e1, d1) = cron_field-print_field s.minute 0 59 i.minute (omega arith) (omega arith) in
    let (ho, e2, d2) = cron_field-print_field s.hour 0 23 i.hour (omega arith) (omega arith) in
    let (da, e3, d3) = cron_field-print_field s.day 1 31 i.day (omega arith) (omega arith) in
    let (mo, e4, d4) = cron_field-print_field s.month 1 12 i.month (omega arith) (omega arith) in
    let (we, e5, d5) = cron_field-print_field s.weekday 0 7 i.weekday (omega arith) (omega arith) in
    let f =
      fields_lem (print_field s.minute)
        (print_field s.hour ∷ print_field s.day ∷ print_field s.month ∷ print_field s.weekday ∷ [])
        (IsWord-print_field s.minute) (nonempty_field s.minute)
        (
          IsWord-field s.hour,
          (IsWord-field s.day, (IsWord-field s.month, (IsWord-field s.weekday, tt))),
        ) in
    (
      record { minute = mi; hour = ho; day = da; month = mo; weekday = with_sunday we },
      rw (f, e1, e2, e3, e4, e5) refl,
      record {
        minute = d1;
        hour = d2;
        day = d3;
        month = d4;
        weekday = Decides-with_sunday (FieldAllows 0 7 s.weekday) we d5;
      },
    )

spec_matches_iff :
    (s : Schedule) (c : CronSpec) (t : Time)
    → IsParsed s c
    → (spec_matches c t ≡ true) ↔ FallsOn s t
unfolding spec_matches
spec_matches_iff s c t p = (
  λ h.
      let h1 = and-right (contains t.minute c.minute) _ h in
      let h2 = and-right (contains t.hour c.hour) _ h1 in
      let h3 = and-right (contains t.day c.day) _ h2 in
      (
        (p.minute t.minute).0 (and-left (contains t.minute c.minute) _ h),
        (p.hour t.hour).0 (and-left (contains t.hour c.hour) _ h1),
        (p.day t.day).0 (and-left (contains t.day c.day) _ h2),
        (p.month t.month).0 (and-left (contains t.month c.month) _ h3),
        (p.weekday t.weekday).0 (and-right (contains t.month c.month) _ h3),
      ),
  λ h.
      rw
        (
          (p.minute t.minute).1 h.0,
          (p.hour t.hour).1 h.1,
          (p.day t.day).1 h.2,
          (p.month t.month).1 h.3,
          (p.weekday t.weekday).1 h.4,
        )
        refl,
)

-- The text of a schedule whose numbers lie within their fields, and whose steps are positive and at
-- least 64 below 2^63, is a valid expression: it matches exactly the times on which the schedule
-- falls, and never panics.
pub matches-print :
    (s : Schedule) (t : Time)
    → IsSchedule s
    → (b : Bool) × (matches (print s) t ≡ some b) × ((b ≡ true) ↔ FallsOn s t)
unfolding matches matches_result
matches-print s t i =
    let (c, e, p) = parse_cron-print s i in (spec_matches c t, rw e refl, spec_matches_iff s c t p)
