-- ===== src/Cron.antt =====
-- internal/server/cron/cron.go: schedules of five fields.
--
-- A text is the list of its code points. A `uint64` of a field's allowed values is the list of its set
-- bits, all of which are below 64. An `int` has 64 bits: the addition in the loop over a range may wrap
-- round to a negative number, and to shift by that is a panic.
pub mod Bits
pub mod Print
use Prim.Native.Char.{code}
use netbox_conductor.Base.{
  ℕ, zero, suc, ◌+◌, ◌-◌, ◌*◌, String, Bool, true, false, ◌&&◌, ◌||◌, not, Option, none, some, List,
  [], ◌∷◌, ◌++◌, ◌==◌, ltb, leb, length, if◌then◌else◌,
}

abbrev pub Text : Type 0
Text = List ℕ

abbrev pub codes : String → Text
codes String.[] = []
codes (String.◌∷◌ c s) = code c ∷ codes s

-- An `int`; `negsuc n` is -(n + 1).
pub data ℤ : Type 0 where
  pos : ℕ → ℤ
  negsuc : ℕ → ℤ

abbrev pub int_limit : ℕ
int_limit = 9223372036854775808

-- `unicode.IsSpace`.
unfoldable pub is_space : ℕ → Bool
is_space c =
    c == 32
    || (leb 9 c && leb c 13
        || (c == 0x85
            || (c == 0xA0
                || (c == 0x1680
                    || (leb 0x2000 c && leb c 0x200A
                        || (c == 0x2028
                            || (c == 0x2029 || (c == 0x202F || (c == 0x205F || c == 0x3000)))))))))

abbrev flush : Text → List Text → List Text
flush [] rest = rest
flush (c ∷ cs) rest = (c ∷ cs) ∷ rest

-- `strings.Fields`, behind the characters of a field that has begun.
fields_from : Text → Text → List Text
unfolding is_space
fields_from cur [] = flush cur []
fields_from cur (c ∷ cs) = elim (is_space c) [
  | true ↦ flush cur (fields_from [] cs)
  | false ↦ fields_from (cur ++ c ∷ []) cs
]

unfoldable pub fields : Text → List Text
unfolding fields_from
fields s = fields_from [] s

abbrev cons_first : ℕ → List Text → List Text
cons_first c [] = (c ∷ []) ∷ []
cons_first c (t ∷ ts) = (c ∷ t) ∷ ts

-- `strings.Split` at one character.
unfoldable pub split : ℕ → Text → List Text
split sep [] = [] ∷ []
split sep (c ∷ cs) = let rest = split sep cs in if c == sep then [] ∷ rest else cons_first c rest

-- `strings.Cut` at one character: what stands before it, behind it, and whether it is there.
unfoldable pub cut : ℕ → Text → Text × Text × Bool
cut sep [] = ([], [], false)
cut sep (c ∷ cs) =
    let (a, b, found) = cut sep cs in if c == sep then ([], cs, true) else (c ∷ a, b, found)

abbrev is_digit : ℕ → Bool
is_digit c = leb 48 c && leb c 57

-- The value of the digits behind those of `acc`.
unfoldable pub digits_value : ℕ → Text → Option ℕ
digits_value acc [] = some acc
digits_value acc (c ∷ cs) =
    let rest = digits_value (acc * 10 + (c - 48)) cs in if is_digit c then rest else none

abbrev within : Option ℕ → Option ℤ
within none = none
within (some n) = if ltb n int_limit then some (pos n) else none

abbrev negated : Option ℕ → Option ℤ
negated none = none
negated (some n) =
    if n == 0 then some (pos 0) else if leb n int_limit then some (negsuc (n - 1)) else none

unsigned : Text → Option ℕ
unfolding digits_value
unsigned [] = none
unsigned (c ∷ cs) = digits_value 0 (c ∷ cs)

-- `strconv.Atoi`.
unfoldable pub atoi : Text → Option ℤ
unfolding unsigned
atoi [] = none
atoi (c ∷ cs) =
    if c == 43
    then within (unsigned cs)
    else if c == 45
    then negated (unsigned cs)
    else within (unsigned (c ∷ cs))

pub data CronError : Type 0 where
  needs_five_fields : CronError
  step_not_positive : Text → CronError
  not_a_number : Text → CronError
  is_outside : ℤ → (lo hi : ℕ) → CronError
  runs_backwards : Text → CronError

pub data Result (A : Type 0) : Type 0 where
  ok : A → Result A
  fails : CronError → Result A
  panics : Result A

infixl 5 ◌>>=◌
abbrev pub ◌>>=◌ : {A B : Type 0} → Result A → (A → Result B) → Result B
ok a >>= f = f a
fails e >>= f = fails e
panics >>= f = panics

cron_num_of : Text → ℕ → ℕ → Option ℤ → Result ℕ
cron_num_of s lo hi none = fails (not_a_number s)
cron_num_of s lo hi (some (negsuc n)) = fails (is_outside (negsuc n) lo hi)
cron_num_of s lo hi (some (pos n)) =
    if ltb n lo || ltb hi n then fails (is_outside (pos n) lo hi) else ok n

unfoldable pub cron_num : Text → ℕ → ℕ → Result ℕ
unfolding cron_num_of
cron_num s lo hi = cron_num_of s lo hi (atoi s)

step_of : Text → Option ℤ → Result ℕ
step_of s none = fails (step_not_positive s)
step_of s (some (negsuc n)) = fails (step_not_positive s)
step_of s (some (pos n)) = if n == 0 then fails (step_not_positive s) else ok n

cron_step : Bool → Text → Result ℕ
unfolding step_of
cron_step false s = ok 1
cron_step true s = step_of s (atoi s)

-- The loop `for v := from; v <= to; v += step`, with fuel. `none` would mean that the fuel ran out.
unfoldable pub set_bits : ℕ → (v to step : ℕ) → List ℕ → Option (Result (List ℕ))
set_bits zero v to step bits = none
set_bits (suc fuel) v to step bits =
    let rest = set_bits fuel (v + step) to step (bits ++ v ∷ []) in
    if ltb to v then some (ok bits) else if ltb (v + step) int_limit then rest else some panics

abbrev or_panic : Option (Result (List ℕ)) → Result (List ℕ)
or_panic none = panics
or_panic (some r) = r

-- Each round adds at least one to `v`, which starts at `from`.
unfoldable pub range_bits : (from to step : ℕ) → Result (List ℕ)
unfolding set_bits
range_bits from to step = or_panic (set_bits (to + 2 - from) from to step [])

-- The end of a range that starts at `from`.
range_end : (has_step is_range : Bool) → Text → Text → (from lo hi : ℕ) → Result ℕ
unfolding cron_num
range_end has_step true rng b from lo hi =
    cron_num b lo hi >>= λ to. if ltb to from then fails (runs_backwards rng) else ok to
range_end true false rng b from lo hi = ok hi
range_end false false rng b from lo hi = ok from

unfoldable pub part_range : Bool → Text → (lo hi : ℕ) → Result (ℕ × ℕ)
unfolding cron_num range_end
part_range has_step rng lo hi =
    let (a, b, is_range) = cut 45 rng in
    let bounds = cron_num a lo hi >>= λ from.
    range_end has_step is_range rng b from lo hi >>= λ to. ok (from, to) in
    elim rng [
      | [] ↦ bounds
      | c ∷ [] ↦ if c == 42 then ok (lo, hi) else bounds
      | c ∷ d ∷ cs ↦ bounds
    ]

unfoldable pub cron_part : Text → (lo hi : ℕ) → Result (List ℕ)
unfolding cron_step part_range range_bits
cron_part part lo hi =
    let (rng, step_str, has_step) = cut 47 part in
    cron_step has_step step_str >>= λ step.
    part_range has_step rng lo hi >>= λ r. range_bits r.0 r.1 step

unfoldable pub cron_parts : List Text → (lo hi : ℕ) → Result (List ℕ)
unfolding cron_part
cron_parts [] lo hi = ok []
cron_parts (part ∷ parts) lo hi =
    cron_part part lo hi >>= λ bits. cron_parts parts lo hi >>= λ more. ok (bits ++ more)

pub record CronSpec : Type 0 where
  pub minute : List ℕ
  pub hour : List ℕ
  pub day : List ℕ
  pub month : List ℕ
  pub weekday : List ℕ

abbrev pub contains : ℕ → List ℕ → Bool
contains v [] = false
contains v (b ∷ bits) = b == v || contains v bits

-- 7 is Sunday too.
abbrev with_sunday : List ℕ → List ℕ
with_sunday bits = if contains 7 bits then 0 ∷ bits else bits

cron_field : Text → (lo hi : ℕ) → Result (List ℕ)
unfolding cron_parts split
cron_field f lo hi = cron_parts (split 44 f) lo hi

parse_fields : List Text → Result CronSpec
unfolding cron_field
parse_fields (mi ∷ ho ∷ da ∷ mo ∷ we ∷ []) = cron_field mi 0 59 >>= λ minute.
    cron_field ho 0 23 >>= λ hour. cron_field da 1 31 >>= λ day. cron_field mo 1 12 >>= λ month.
    cron_field we 0 7 >>= λ weekday. ok (record {
      minute = minute;
      hour = hour;
      day = day;
      month = month;
      weekday = with_sunday weekday;
    })
parse_fields _ = fails needs_five_fields

unfoldable pub parse_cron : Text → Result CronSpec
unfolding parse_fields fields
parse_cron expr = parse_fields (fields expr)

-- `Weekday` counts from Sunday, 0.
pub record Time : Type 0 where
  pub minute : ℕ
  pub hour : ℕ
  pub day : ℕ
  pub month : ℕ
  pub weekday : ℕ

unfoldable pub spec_matches : CronSpec → Time → Bool
spec_matches s t =
    contains t.minute s.minute
    && (contains t.hour s.hour
        && (contains t.day s.day && (contains t.month s.month && contains t.weekday s.weekday)))

matches_result : Result CronSpec → Time → Option Bool
unfolding spec_matches
matches_result (ok s) t = some (spec_matches s t)
matches_result (fails e) t = some false
matches_result panics t = none

-- `Matches`; `none` is a panic.
unfoldable pub matches : Text → Time → Option Bool
unfolding matches_result parse_cron
matches expr t = matches_result (parse_cron expr) t
