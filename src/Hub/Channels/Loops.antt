-- ===== src/Hub/Channels/Loops.antt =====
-- The hub's loops over its sessions: DrainAll and UnregisterCluster.
use netbox_conductor.Base.{
  ℕ, ◌≡◌, ◌≢◌, refl, sym, ◌∙◌, inl, inr, Bool-cases, List, [], ◌∷◌, arith, All, Table,
}
use netbox_conductor.Hub.{
  Session, Hub, values, close_send, close_all, drain_all, members, others, unregister_cluster,
  in_cluster,
}
use netbox_conductor.Hub.Channels.Tables.{All-map, All-zip, Distinct}
use netbox_conductor.Hub.Channels.{IsOpen, IsSound}

close_send-IsOpen : (r q : ℕ) (h : Hub) → r ≢ q → IsOpen h q → IsOpen (close_send r h) q
unfolding close_send
close_send-IsOpen r q h ne o = ground arith

crashed-close_send : (r : ℕ) (h : Hub) → IsOpen h r → (close_send r h).crashed ≡ h.crashed
unfolding close_send
crashed-close_send r h o = ground arith

staging-close_send : (r : ℕ) (h : Hub) → (close_send r h).staging_sessions ≡ h.staging_sessions
unfolding close_send
staging-close_send r h = ground arith

-- To close distinct open channels is no panic, and leaves the other channels open.
crashed-close_all :
    (rs : List ℕ) (h : Hub) → All (IsOpen h) rs → Distinct rs → (close_all rs h).crashed ≡ h.crashed
unfolding close_all
crashed-close_all [] h o d = refl
crashed-close_all (r ∷ rs) h o d =
    crashed-close_all rs (close_send r h)
      (All-zip rs (λ q n p. close_send-IsOpen r q h (λ e. n (sym e)) p) d.0 o.1) d.1
    ∙ crashed-close_send r h o.0

staging-close_all : (rs : List ℕ) (h : Hub) → (close_all rs h).staging_sessions ≡ h.staging_sessions
unfolding close_all
staging-close_all [] h = refl
staging-close_all (r ∷ rs) h = staging-close_all rs (close_send r h) ∙ staging-close_send r h

close_all-IsOpen :
    (rs : List ℕ) (q : ℕ) (h : Hub) → All (λ r. q ≢ r) rs → IsOpen h q → IsOpen (close_all rs h) q
unfolding close_all
close_all-IsOpen [] q h a o = o
close_all-IsOpen (r ∷ rs) q h a o =
    close_all-IsOpen rs q (close_send r h) a.1 (close_send-IsOpen r q h (λ e. a.0 (sym e)) o)

All-flip :
    (P : ℕ → ℕ → Type 0) (xs ys : List ℕ)
    → All (λ x. All (λ y. P x y) ys) xs
    → All (λ y. All (λ x. P x y) xs) ys
All-flip P xs [] a = tt
All-flip P xs (y ∷ ys) a = (All-map xs (λ x b. b.0) a, All-flip P xs ys (All-map xs (λ x b. b.1) a))

pub drain_all-IsSound : (h : Hub) → IsSound h → IsSound (drain_all h)
unfolding drain_all
drain_all-IsSound h s =
    let ss = values h.sessions in
    let st = values h.staging_sessions in
    let still : All (IsOpen (close_all ss h)) st =
      All-zip st (λ q a o. close_all-IsOpen ss q h a o) (All-flip (λ r q. q ≢ r) ss st s.apart)
        s.open_staging in
    record {
      alive =
          crashed-close_all st (close_all ss h) still s.distinct_staging
          ∙ crashed-close_all ss h s.open_sessions s.distinct
          ∙ s.alive;
      open_sessions = tt;
      open_staging = tt;
      distinct = tt;
      distinct_staging = tt;
      apart = tt;
    }

module _ (c : ℕ) (heap : ℕ → Session) where
  module _ (P : ℕ → Type 0) where
    All-members : (t : Table ℕ) → All P (values t) → All P (members c heap t)
    unfolding members
    All-members [] a = tt
    All-members ((k, r) ∷ t) a = elim (Bool-cases (in_cluster c heap r)) [
      | inl e ↦ rw e (a.0, All-members t a.1)
      | inr e ↦ rw e (All-members t a.1)
    ]

    All-others : (t : Table ℕ) → All P (values t) → All P (values (others c heap t))
    unfolding others
    All-others [] a = tt
    All-others ((k, r) ∷ t) a = elim (Bool-cases (in_cluster c heap r)) [
      | inl e ↦ rw e (All-others t a.1)
      | inr e ↦ rw e (a.0, All-others t a.1)
    ]

  Distinct-members : (t : Table ℕ) → Distinct (values t) → Distinct (members c heap t)
  unfolding members
  Distinct-members [] d = tt
  Distinct-members ((k, r) ∷ t) d = elim (Bool-cases (in_cluster c heap r)) [
    | inl e ↦ rw e (All-members (λ q. q ≢ r) t d.0, Distinct-members t d.1)
    | inr e ↦ rw e (Distinct-members t d.1)
  ]

  Distinct-others : (t : Table ℕ) → Distinct (values t) → Distinct (values (others c heap t))
  unfolding others
  Distinct-others [] d = tt
  Distinct-others ((k, r) ∷ t) d = elim (Bool-cases (in_cluster c heap r)) [
    | inl e ↦ rw e (Distinct-others t d.1)
    | inr e ↦ rw e (All-others (λ q. q ≢ r) t d.0, Distinct-others t d.1)
  ]

  -- No session is both closed and kept.
  members_gone :
      (t : Table ℕ)
      → Distinct (values t)
      → All (λ q. All (λ r. q ≢ r) (members c heap t)) (values (others c heap t))
  unfolding members others
  members_gone [] d = tt
  members_gone ((k, r) ∷ t) d = elim (Bool-cases (in_cluster c heap r)) [
    | inl e ↦ rw e (
        All-zip (values (others c heap t)) (λ q n a. (n, a)) (All-others (λ q. q ≢ r) t d.0)
          (members_gone t d.1))
    | inr e ↦ rw e (
      All-map (members c heap t) (λ q n p. n (sym p)) (All-members (λ q. q ≢ r) t d.0),
      members_gone t d.1,
    )
  ]

pub unregister_cluster-IsSound : (c : ℕ) (h : Hub) → IsSound h → IsSound (unregister_cluster c h)
unfolding unregister_cluster
unregister_cluster-IsSound c h s =
    let ms = members c h.heap h.sessions in
    let os = values (others c h.heap h.sessions) in
    let st = values h.staging_sessions in
    let same = staging-close_all ms h in
    let open_all =
      λ (q : ℕ) (a : All (λ r. q ≢ r) ms) (o : IsOpen h q). close_all-IsOpen ms q h a o in
    record {
      alive =
          crashed-close_all ms h (All-members c h.heap (IsOpen h) h.sessions s.open_sessions)
            (Distinct-members c h.heap h.sessions s.distinct)
          ∙ s.alive;
      open_sessions =
          All-zip os open_all (members_gone c h.heap h.sessions s.distinct)
            (All-others c h.heap (IsOpen h) h.sessions s.open_sessions);
      open_staging = rw same (
          All-zip st open_all
            (All-flip (λ r q. q ≢ r) ms st
              (All-members c h.heap (λ r. All (λ q. q ≢ r) st) h.sessions s.apart))
            s.open_staging);
      distinct = Distinct-others c h.heap h.sessions s.distinct;
      distinct_staging = rw same s.distinct_staging;
      apart = rw same (All-others c h.heap (λ r. All (λ q. q ≢ r) st) h.sessions s.apart);
    }
