-- ===== src/Failover/Log.antt =====
-- Statements about what a handler has done, read off the log.
use netbox_conductor.Base.{
  both-values, ℕ, Bool, true, false, ◌&&◌, ◌||◌, ◌≡◌, refl, List, [], ◌∷◌, arith, ◌==◌, count,
}
use netbox_conductor.Protocol.{TaskType, start_netbox, stop_netbox}
use netbox_conductor.Failover.State.{
  Effect, recorded, marked_sent, delivered, rest_called, emitted, published,
}

abbrev pub is_start_task : TaskType → Bool
is_start_task start_netbox = true
is_start_task _ = false

abbrev pub is_stop_task : TaskType → Bool
is_stop_task stop_netbox = true
is_stop_task _ = false

-- The effect is a start, or a stop, of NetBox: recorded, or handed to the agent.
abbrev pub is_start : Effect → Bool
is_start (recorded n id t p a) = is_start_task t
is_start (delivered n env) = is_start_task env.payload.task_type
is_start _ = false

abbrev pub is_stop : Effect → Bool
is_stop (recorded n id t p a) = is_stop_task t
is_stop (delivered n env) = is_stop_task env.payload.task_type
is_stop _ = false

-- A start of NetBox on the node was recorded.
abbrev pub records_start : ℕ → Effect → Bool
records_start node (recorded n id t p a) = n == node && is_start_task t
records_start node _ = false

-- A stop of NetBox on the node was recorded, or handed to its agent.
abbrev pub records_stop : ℕ → Effect → Bool
records_stop node (recorded n id t p a) = n == node && is_stop_task t
records_stop node _ = false

abbrev pub delivers_stop : ℕ → Effect → Bool
delivers_stop node (delivered n env) = n == node && is_stop_task env.payload.task_type
delivers_stop node _ = false

abbrev pub has : (Effect → Bool) → List Effect → Bool
has q [] = false
has q (x ∷ xs) = q x || has q xs

-- Every effect that passes `p` has an earlier one that passes `q`.
abbrev pub Before : (q p : Effect → Bool) → List Effect → Type 0
Before q p [] = Unit
Before q p (x ∷ xs) = (p x ≡ true → has q xs ≡ true) × Before q p xs

abbrev pub NotTask : (TaskType → Bool) → Effect → Type 0
NotTask p (recorded n id t q a) = p t ≡ false
NotTask p (delivered n env) = p env.payload.task_type ≡ false
NotTask p _ = Unit

or-true : (a b : Bool) → b ≡ true → (a || b) ≡ true
or-true a b h = ground arith

-- The second log is the first with effects of the given kind added.
pub data Adds (P : Effect → Type 0) (xs : List Effect) : List Effect → Type 0 where
  same : Adds P xs xs
  more : {x : Effect} {ys : List Effect} → P x → Adds P xs ys → Adds P xs (x ∷ ys)

module _ {P : Effect → Type 0} where
  pub Adds-trans : {xs ys zs : List Effect} → Adds P xs ys → Adds P ys zs → Adds P xs zs
  Adds-trans a same = a
  Adds-trans a (more p b) = more p (Adds-trans a b)

  pub has-Adds :
      (q : Effect → Bool) {xs ys : List Effect} → Adds P xs ys → has q xs ≡ true → has q ys ≡ true
  has-Adds q same h = h
  has-Adds q (more {x = x} p a) h = or-true (q x) _ (has-Adds q a h)

  pub Before-Adds :
      (q p : Effect → Bool) {xs ys : List Effect}
      → ((x : Effect) → P x → p x ≡ false)
      → Adds P xs ys
      → Before q p xs
      → Before q p ys
  Before-Adds q p f same b = b
  Before-Adds q p f (more {x = x} px a) b =
      (λ e. absurd (both-values (p x) e (f x px)), Before-Adds q p f a b)

  pub count-Adds :
      (p : Effect → Bool) {xs ys : List Effect}
      → ((x : Effect) → P x → p x ≡ false)
      → Adds P xs ys
      → count p ys ≡ count p xs
  count-Adds p f same = refl
  count-Adds p f (more {x = x} px a) = rw (f x px) (count-Adds p f a)

  pub has-Adds_eq :
      (p : Effect → Bool) {xs ys : List Effect}
      → ((x : Effect) → P x → p x ≡ false)
      → Adds P xs ys
      → has p ys ≡ has p xs
  has-Adds_eq p f same = refl
  has-Adds_eq p f (more {x = x} px a) = rw (f x px) (has-Adds_eq p f a)

  -- After an effect that passes `q`, anything may follow.
  pub Before-later :
      (q p : Effect → Bool) {xs ys : List Effect}
      → has q xs ≡ true
      → Adds P xs ys
      → Before q p xs
      → Before q p ys
  Before-later q p h same b = b
  Before-later q p h (more px a) b = (λ e. has-Adds q a h, Before-later q p h a b)

-- Any effect at all.
abbrev pub any_task : TaskType → Bool
any_task t = false

pub not_start : (x : Effect) → NotTask is_start_task x → is_start x ≡ false
not_start (recorded n id t q a) h = h
not_start (marked_sent id) h = refl
not_start (delivered n env) h = h
not_start (rest_called r) h = refl
not_start (emitted ev) h = refl
not_start (published p) h = refl

pub not_stop : (x : Effect) → NotTask is_stop_task x → is_stop x ≡ false
not_stop (recorded n id t q a) h = h
not_stop (marked_sent id) h = refl
not_stop (delivered n env) h = h
not_stop (rest_called r) h = refl
not_stop (emitted ev) h = refl
not_stop (published p) h = refl

pub not_records_start : (m : ℕ) (x : Effect) → NotTask is_start_task x → records_start m x ≡ false
not_records_start m (recorded n id t q a) h = rw h (ground arith)
not_records_start m (marked_sent id) h = refl
not_records_start m (delivered n env) h = refl
not_records_start m (rest_called r) h = refl
not_records_start m (emitted ev) h = refl
not_records_start m (published p) h = refl
