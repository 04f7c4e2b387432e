-- ===== src/Hub/Channels.antt =====
-- Every channel is closed at most once, and the sessions that are registered can be sent to.
pub mod Tables
pub mod Loops
use netbox_conductor.Base.{
  ℕ, ◌==◌, Bool, not, true, false, ◌≡◌, ◌≢◌, refl, inl, inr, sym, Bool-cases, Option-cases, ◌∙◌,
  Option, none, some, List, [], ◌∷◌, arith, All, Table, lookup, insert, remove, if◌then◌else◌,
}
use Tables.{
  All-zip, gone_insert, gone_remove, gone_apart, gone_apart_of, All-map, Distinct, All-insert,
  All-remove, All-lookup, Distinct-insert, Distinct-remove, gone-remove, gone-insert,
}
use netbox_conductor.Hub.{
  Session, Hub, values, close_send, close_conn, evict, register, close_if_there, unregister,
  unregister_if_same, close_all, drain_all, register_staging, unregister_staging, members, others,
  is_ref, store, store, unregister_cluster, send,
}

abbrev pub IsOpen : Hub → ℕ → Type 0
IsOpen h r = (h.heap r).closed ≡ false

-- No panic so far; every registered session's channel is open; and no session is registered twice.
pub record IsSound (h : Hub) : Type 0 where
  pub alive : h.crashed ≡ false
  pub open_sessions : All (IsOpen h) (values h.sessions)
  pub open_staging : All (IsOpen h) (values h.staging_sessions)
  pub distinct : Distinct (values h.sessions)
  pub distinct_staging : Distinct (values h.staging_sessions)
  pub apart : All (λ r. All (λ q. q ≢ r) (values h.staging_sessions)) (values h.sessions)

-- The session is registered nowhere, and its channel is open: a new connection.
pub record IsFresh (r : ℕ) (h : Hub) : Type 0 where
  pub unopened : IsOpen h r
  pub no_session : All (λ q. q ≢ r) (values h.sessions)
  pub no_staging : All (λ q. q ≢ r) (values h.staging_sessions)

-- `h'` has the given tables, has not panicked since `h`, and of the channels that were open in `h`
-- it has closed that of `old` at most.
record IsClosing (old : Option ℕ) (ss st : Table ℕ) (h h' : Hub) : Type 0 where
  alive : h'.crashed ≡ h.crashed
  sessions_eq : h'.sessions ≡ ss
  staging_eq : h'.staging_sessions ≡ st
  keeps : (q : ℕ) → some q ≢ old → IsOpen h q → IsOpen h' q

-- Tables that hold open sessions, each once, and not the one that was closed.
record IsLive (old : Option ℕ) (ss st : Table ℕ) (h : Hub) : Type 0 where
  open_sessions : All (IsOpen h) (values ss)
  open_staging : All (IsOpen h) (values st)
  gone_sessions : All (λ q. some q ≢ old) (values ss)
  gone_staging : All (λ q. some q ≢ old) (values st)
  distinct : Distinct (values ss)
  distinct_staging : Distinct (values st)
  apart : All (λ r. All (λ q. q ≢ r) (values st)) (values ss)

IsClosing-IsSound :
    {old : Option ℕ} {ss st : Table ℕ} {h h' : Hub}
    → h.crashed ≡ false
    → IsLive old ss st h
    → IsClosing old ss st h h'
    → IsSound h'
IsClosing-IsSound {old} {ss} {st} {h} {h'} a l c =
    let keep = λ (xs : List ℕ) (ne : All (λ q. some q ≢ old) xs) (o : All (IsOpen h) xs).
      All-zip xs (λ q n p. c.keeps q n p) ne o in
    record {
      alive = c.alive ∙ a;
      open_sessions = rw c.sessions_eq (keep (values ss) l.gone_sessions l.open_sessions);
      open_staging = rw c.staging_eq (keep (values st) l.gone_staging l.open_staging);
      distinct = rw c.sessions_eq l.distinct;
      distinct_staging = rw c.staging_eq l.distinct_staging;
      apart = rw (c.sessions_eq, c.staging_eq) l.apart;
    }

abbrev OpenIfThere : Hub → Option ℕ → Type 0
OpenIfThere h none = Unit
OpenIfThere h (some r) = IsOpen h r

open_if_there :
    (h : Hub) (k : ℕ) (t : Table ℕ) → All (IsOpen h) (values t) → OpenIfThere h (lookup k t)
open_if_there h k t a = elim (Option-cases (lookup k t)) [
  | inl e ↦ rw e tt
  | inr (r, e) ↦ rw e (All-lookup (IsOpen h) k r t e a)
]

register_closes :
    (r : ℕ) (h : Hub)
    → OpenIfThere h (lookup (h.heap r).node_id h.sessions)
    → IsClosing
        (lookup (h.heap r).node_id h.sessions)
        (insert (h.heap r).node_id r h.sessions)
        h.staging_sessions
        h
        (register r h)
unfolding register
register_closes r h o = record {
  alive = ground arith;
  sessions_eq = ground arith;
  staging_eq = ground arith;
  keeps = λ q n p. ground arith;
}

unregister_closes :
    (node : ℕ) (h : Hub)
    → OpenIfThere h (lookup node h.sessions)
    → IsClosing
        (lookup node h.sessions)
        (remove node h.sessions)
        h.staging_sessions
        h
        (unregister node h)
unfolding unregister
unregister_closes node h o = record {
  alive = ground arith;
  sessions_eq = ground arith;
  staging_eq = ground arith;
  keeps = λ q n p. ground arith;
}

register_staging_closes :
    (id r : ℕ) (h : Hub)
    → OpenIfThere h (lookup id h.staging_sessions)
    → IsClosing
        (lookup id h.staging_sessions)
        h.sessions
        (insert id r h.staging_sessions)
        h
        (register_staging id r h)
unfolding register_staging
register_staging_closes id r h o = record {
  alive = ground arith;
  sessions_eq = ground arith;
  staging_eq = ground arith;
  keeps = λ q n p. ground arith;
}

unregister_staging_closes :
    (id : ℕ) (h : Hub)
    → OpenIfThere h (lookup id h.staging_sessions)
    → IsClosing
        (lookup id h.staging_sessions)
        h.sessions
        (remove id h.staging_sessions)
        h
        (unregister_staging id h)
unfolding unregister_staging
unregister_staging_closes id h o = record {
  alive = ground arith;
  sessions_eq = ground arith;
  staging_eq = ground arith;
  keeps = λ q n p. ground arith;
}

pub register-IsSound : (r : ℕ) (h : Hub) → IsSound h → IsFresh r h → IsSound (register r h)
register-IsSound r h s f =
    let k = (h.heap r).node_id in
    IsClosing-IsSound s.alive
      (record {
        open_sessions = All-insert (IsOpen h) k r h.sessions f.unopened s.open_sessions;
        open_staging = s.open_staging;
        gone_sessions = gone_insert k r h.sessions f.no_session s.distinct;
        gone_staging = gone_apart k h.sessions h.staging_sessions s.apart;
        distinct = Distinct-insert k r h.sessions f.no_session s.distinct;
        distinct_staging = s.distinct_staging;
        apart =
            All-insert (λ x. All (λ q. q ≢ x) (values h.staging_sessions)) k r h.sessions
              f.no_staging s.apart;
      })
      (register_closes r h (open_if_there h k h.sessions s.open_sessions))

pub unregister-IsSound : (node : ℕ) (h : Hub) → IsSound h → IsSound (unregister node h)
unregister-IsSound node h s =
    IsClosing-IsSound s.alive
      (record {
        open_sessions = All-remove (IsOpen h) node h.sessions s.open_sessions;
        open_staging = s.open_staging;
        gone_sessions = gone_remove node h.sessions s.distinct;
        gone_staging = gone_apart node h.sessions h.staging_sessions s.apart;
        distinct = Distinct-remove node h.sessions s.distinct;
        distinct_staging = s.distinct_staging;
        apart =
            All-remove (λ x. All (λ q. q ≢ x) (values h.staging_sessions)) node h.sessions s.apart;
      })
      (unregister_closes node h (open_if_there h node h.sessions s.open_sessions))

pub unregister_if_same-IsSound :
    (node r : ℕ) (h : Hub) → IsSound h → IsSound (unregister_if_same node r h).1
unfolding unregister_if_same
unregister_if_same-IsSound node r h s = elim (Bool-cases (is_ref r (lookup node h.sessions))) [
  | inl e ↦ rw e (record {
    alive = s.alive;
    open_sessions = All-remove (IsOpen h) node h.sessions s.open_sessions;
    open_staging = s.open_staging;
    distinct = Distinct-remove node h.sessions s.distinct;
    distinct_staging = s.distinct_staging;
    apart = All-remove (λ x. All (λ q. q ≢ x) (values h.staging_sessions)) node h.sessions s.apart;
  })
  | inr e ↦ rw e s
]

pub register_staging-IsSound :
    (id r : ℕ) (h : Hub) → IsSound h → IsFresh r h → IsSound (register_staging id r h)
register_staging-IsSound id r h s f =
    IsClosing-IsSound s.alive
      (record {
        open_sessions = s.open_sessions;
        open_staging = All-insert (IsOpen h) id r h.staging_sessions f.unopened s.open_staging;
        gone_sessions = gone_apart_of id h.sessions h.staging_sessions s.apart;
        gone_staging = gone_insert id r h.staging_sessions f.no_staging s.distinct_staging;
        distinct = s.distinct;
        distinct_staging = Distinct-insert id r h.staging_sessions f.no_staging s.distinct_staging;
        apart =
            All-zip (values h.sessions)
              (λ x a n. All-insert (λ q. q ≢ x) id r h.staging_sessions (λ e. n (sym e)) a) s.apart
              f.no_session;
      })
      (register_staging_closes id r h (open_if_there h id h.staging_sessions s.open_staging))

pub unregister_staging-IsSound : (id : ℕ) (h : Hub) → IsSound h → IsSound (unregister_staging id h)
unregister_staging-IsSound id h s =
    IsClosing-IsSound s.alive
      (record {
        open_sessions = s.open_sessions;
        open_staging = All-remove (IsOpen h) id h.staging_sessions s.open_staging;
        gone_sessions = gone_apart_of id h.sessions h.staging_sessions s.apart;
        gone_staging = gone_remove id h.staging_sessions s.distinct_staging;
        distinct = s.distinct;
        distinct_staging = Distinct-remove id h.staging_sessions s.distinct_staging;
        apart =
            All-map (values h.sessions) (λ x a. All-remove (λ q. q ≢ x) id h.staging_sessions a)
              s.apart;
      })
      (unregister_staging_closes id h (open_if_there h id h.staging_sessions s.open_staging))
