-- ===== src/Heartbeats/Balance.antt =====
-- What the events of a sequence of heartbeats say of a service.
use netbox_conductor.Base.{
  ℕ, ◌+◌, String, Bool, true, false, ◌≡◌, refl, Option, none, some, List, [], ◌∷◌, ◌++◌, str_eq,
  if◌then◌else◌, arith, count, Option-cases, inl, inr,
}
use netbox_conductor.Heartbeats.{
  HeartbeatState, HeartbeatInput, Event, same, bool_transition, role_change, process, update,
  process_all, service_event, Service, netbox, rq, patroni, postgres, redis, sentinel,
}

abbrev pub has_code : String → Event → Bool
has_code c e = str_eq e.code c

abbrev score : Bool → ℕ
score b = if b then 1 else 0

pub count-append :
    (p : Event → Bool) (xs ys : List Event) → count p (xs ++ ys) ≡ count p xs + count p ys
count-append p [] ys = omega arith
count-append p (x ∷ xs) ys = ground (arith, count-append p xs ys)

pub same_refl : (b : Bool) → same b b ≡ true
same_refl true = refl
same_refl false = refl

pub other-code :
    (c start stop m1 m2 : String) (hb : HeartbeatInput) (prev : Option Bool) (cur : Bool)
    → str_eq start c ≡ false
    → str_eq stop c ≡ false
    → count (has_code c) (bool_transition hb prev cur start stop m1 m2) ≡ 0
unfolding bool_transition service_event
other-code c start stop m1 m2 hb none cur p q = refl
other-code c start stop m1 m2 hb (some prev) cur p q = ground arith

pub role-code :
    (c prev : String) (hb : HeartbeatInput)
    → str_eq "NBC-HA-006" c ≡ false
    → count (has_code c) (role_change prev hb) ≡ 0
unfolding role_change
role-code c prev hb p = ground arith

-- A transition of a service whose state was known is one start, or one stop, or neither.
own-code :
    (start stop m1 m2 : String) (hb : HeartbeatInput) (prev cur : Bool)
    → str_eq start start ≡ true
    → str_eq stop stop ≡ true
    → str_eq start stop ≡ false
    → str_eq stop start ≡ false
    → count (has_code start) (bool_transition hb (some prev) cur start stop m1 m2) + score prev
      ≡ count (has_code stop) (bool_transition hb (some prev) cur start stop m1 m2) + score cur
unfolding bool_transition service_event
own-code start stop m1 m2 hb prev cur p q r t = ground arith

-- What a heartbeat, and the state, say of a service; the codes of its two events.
abbrev pub reported : Service → HeartbeatInput → Bool
reported netbox hb = hb.netbox_running
reported rq hb = hb.rq_running
reported patroni hb = hb.patroni_running
reported postgres hb = hb.postgres_running
reported redis hb = hb.redis_running
reported sentinel hb = hb.sentinel_running

abbrev pub known : Service → HeartbeatState → Option Bool
known netbox s = s.netbox_running
known rq s = s.rq_running
known patroni s = s.patroni_running
known postgres s = s.postgres_running
known redis s = s.redis_running
known sentinel s = s.sentinel_running

abbrev pub start_code : Service → String
start_code netbox = "NBC-SVC-001"
start_code rq = "NBC-SVC-003"
start_code patroni = "NBC-SVC-005"
start_code postgres = "NBC-SVC-007"
start_code redis = "NBC-SVC-009"
start_code sentinel = "NBC-SVC-011"

abbrev pub stop_code : Service → String
stop_code netbox = "NBC-SVC-002"
stop_code rq = "NBC-SVC-004"
stop_code patroni = "NBC-SVC-006"
stop_code postgres = "NBC-SVC-008"
stop_code redis = "NBC-SVC-010"
stop_code sentinel = "NBC-SVC-012"

process-code :
    (svc : Service) (s : HeartbeatState) (hb : HeartbeatInput) (prev : Bool)
    → known svc s ≡ some prev
    → count (has_code (start_code svc)) (process s hb) + score prev
      ≡ count (has_code (stop_code svc)) (process s hb) + score (reported svc hb)
unfolding process
process-code netbox s hb prev e =
    simp (e, count-append, other-code, role-code)
      (omega (
        arith,
        own-code (start_code netbox) (stop_code netbox) _ _ hb prev hb.netbox_running refl refl refl
            refl,
      ))
process-code rq s hb prev e =
    simp (e, count-append, other-code, role-code)
      (omega (
        arith,
        own-code (start_code rq) (stop_code rq) _ _ hb prev hb.rq_running refl refl refl refl,
      ))
process-code patroni s hb prev e =
    simp (e, count-append, other-code, role-code)
      (omega (
        arith,
        own-code (start_code patroni) (stop_code patroni) _ _ hb prev hb.patroni_running refl refl
            refl refl,
      ))
process-code postgres s hb prev e =
    simp (e, count-append, other-code, role-code)
      (omega (
        arith,
        own-code (start_code postgres) (stop_code postgres) _ _ hb prev hb.postgres_running refl
            refl refl refl,
      ))
process-code redis s hb prev e =
    simp (e, count-append, other-code, role-code)
      (omega (
        arith,
        own-code (start_code redis) (stop_code redis) _ _ hb prev hb.redis_running refl refl refl
            refl,
      ))
process-code sentinel s hb prev e =
    simp (e, count-append, other-code, role-code)
      (omega (
        arith,
        own-code (start_code sentinel) (stop_code sentinel) _ _ hb prev hb.sentinel_running refl
            refl refl refl,
      ))

-- The last heartbeat's report.
abbrev pub last_reported : Service → HeartbeatInput → List HeartbeatInput → Bool
last_reported svc hb [] = reported svc hb
last_reported svc hb (x ∷ xs) = last_reported svc x xs

known-update :
    (svc : Service) (s : HeartbeatState) (hb : HeartbeatInput)
    → known svc (update s hb) ≡ some (reported svc hb)
unfolding update
known-update netbox s hb = refl
known-update rq s hb = refl
known-update patroni s hb = refl
known-update postgres s hb = refl
known-update redis s hb = refl
known-update sentinel s hb = refl

balance_step : (a b c d p q r : ℕ) → a + p ≡ b + q → c + q ≡ d + r → a + c + p ≡ b + d + r
balance_step a b c d p q r h k = omega (arith, h, k)

count-process_all :
    (p : Event → Bool) (s : HeartbeatState) (hb : HeartbeatInput) (hbs : List HeartbeatInput)
    → count p (process_all s (hb ∷ hbs))
      ≡ count p (process s hb) + count p (process_all (update s hb) hbs)
unfolding process_all
count-process_all p s hb hbs = count-append p (process s hb) _

count-process_all_nil : (p : Event → Bool) (s : HeartbeatState) → count p (process_all s []) ≡ 0
unfolding process_all
count-process_all_nil p s = refl

process_all_from :
    (svc : Service) (s : HeartbeatState) (prev : Bool) (hb : HeartbeatInput)
    (hbs : List HeartbeatInput)
    → known svc s ≡ some prev
    → count (has_code (start_code svc)) (process_all s (hb ∷ hbs)) + score prev
      ≡ count (has_code (stop_code svc)) (process_all s (hb ∷ hbs))
        + score (last_reported svc hb hbs)
process_all_from svc s prev hb [] e =
    rw
      (
        count-process_all (has_code (start_code svc)) s hb [],
        count-process_all (has_code (stop_code svc)) s hb [],
        count-process_all_nil (has_code (start_code svc)) (update s hb),
        count-process_all_nil (has_code (stop_code svc)) (update s hb),
      )
      (omega (arith, process-code svc s hb prev e))
process_all_from svc s prev hb (x ∷ xs) e =
    rw
      (
        count-process_all (has_code (start_code svc)) s hb (x ∷ xs),
        count-process_all (has_code (stop_code svc)) s hb (x ∷ xs),
      )
      (balance_step _ _ _ _ _ _ _ (process-code svc s hb prev e)
        (process_all_from svc (update s hb) (reported svc hb) x xs (known-update svc s hb)))

-- What is known of a service before heartbeats: what the state says, or else the first report.
abbrev known_or : Bool → Option Bool → Bool
known_or first none = first
known_or first (some b) = b

abbrev pub before : Service → HeartbeatState → HeartbeatInput → Bool
before svc s hb = known_or (reported svc hb) (known svc s)

-- An unknown service gives no event of its own.
process-unknown :
    (svc : Service) (s : HeartbeatState) (hb : HeartbeatInput)
    → known svc s ≡ none
    → (count (has_code (start_code svc)) (process s hb) ≡ 0)
      × (count (has_code (stop_code svc)) (process s hb) ≡ 0)
unfolding process bool_transition
process-unknown netbox s hb e = simp (e, count-append, other-code, role-code) (refl, refl)
process-unknown rq s hb e = simp (e, count-append, other-code, role-code) (refl, refl)
process-unknown patroni s hb e = simp (e, count-append, other-code, role-code) (refl, refl)
process-unknown postgres s hb e = simp (e, count-append, other-code, role-code) (refl, refl)
process-unknown redis s hb e = simp (e, count-append, other-code, role-code) (refl, refl)
process-unknown sentinel s hb e = simp (e, count-append, other-code, role-code) (refl, refl)

process_all_unknown :
    (svc : Service) (s : HeartbeatState) (hb : HeartbeatInput) (hbs : List HeartbeatInput)
    → known svc s ≡ none
    → count (has_code (start_code svc)) (process_all s (hb ∷ hbs)) + score (reported svc hb)
      ≡ count (has_code (stop_code svc)) (process_all s (hb ∷ hbs))
        + score (last_reported svc hb hbs)
process_all_unknown svc s hb [] e =
    let (a, b) = process-unknown svc s hb e in
    rw
      (
        count-process_all (has_code (start_code svc)) s hb [],
        count-process_all (has_code (stop_code svc)) s hb [],
        count-process_all_nil (has_code (start_code svc)) (update s hb),
        count-process_all_nil (has_code (stop_code svc)) (update s hb),
      )
      (omega (arith, a, b))
process_all_unknown svc s hb (x ∷ xs) e =
    let (a, b) = process-unknown svc s hb e in
    rw
      (
        count-process_all (has_code (start_code svc)) s hb (x ∷ xs),
        count-process_all (has_code (stop_code svc)) s hb (x ∷ xs),
      )
      (balance_step _ _ _ _ (score (reported svc hb)) (score (reported svc hb)) _
        (omega (arith, a, b))
        (process_all_from svc (update s hb) (reported svc hb) x xs (known-update svc s hb)))

-- Over heartbeats of a node with nothing in between, from whatever state the server has kept of the
-- node, a service's start and stop events add up: the starts are as many as the stops, one more if the
-- last heartbeat reports it running and it was not known to run before, one fewer in the opposite
-- case. What was known before is what the kept state says, or, if that says nothing, the first report.
pub process_all-balance :
    (svc : Service) (s : HeartbeatState) (hb : HeartbeatInput) (hbs : List HeartbeatInput)
    → let events = process_all s (hb ∷ hbs) in
      count (has_code (start_code svc)) events + score (before svc s hb)
      ≡ count (has_code (stop_code svc)) events + score (last_reported svc hb hbs)
process_all-balance svc s hb hbs = elim (Option-cases (known svc s)) [
  | inl e ↦ rw (e, before) (process_all_unknown svc s hb hbs e)
  | inr (prev, e) ↦ rw (e, before) (process_all_from svc s prev hb hbs e)
]
