-- ===== src/Hub/Replacement.antt =====
-- A second connection of an agent replaces the first, which then ends.
use netbox_conductor.Base.{
  ℕ, true, false, ◌≡◌, ◌≢◌, some, arith, lookup, lookup-insert, lookup-remove,
}
use netbox_conductor.Hub.{
  Hub, register, unregister_if_same, get, register_staging, unregister_staging,
  is_connected_staging,
}

get-register : (r : ℕ) (h : Hub) → get (h.heap r).node_id (register r h) ≡ some r
unfolding register get
get-register r h = simp lookup-insert (ground arith)

unregister_if_same-other :
    (node r old : ℕ) (h : Hub)
    → get node h ≡ some r
    → old ≢ r
    → unregister_if_same node old h ≡ (false, h)
unfolding unregister_if_same get
unregister_if_same-other node r old h e ne = ground arith

-- When a node's agent connects again, the new session is the one that `get` returns, and the end of
-- an older connection of that node unregisters nothing and reports that it was replaced.
pub unregister_if_same-register :
    (r old : ℕ) (h : Hub)
    → old ≢ r
    → let h' = register r h in
      (get (h.heap r).node_id h' ≡ some r)
      × (unregister_if_same (h.heap r).node_id old h' ≡ (false, h'))
unregister_if_same-register r old h ne = (
  get-register r h,
  unregister_if_same-other (h.heap r).node_id r old (register r h) (get-register r h) ne,
)

lookup-register_staging :
    (id r : ℕ) (h : Hub) → lookup id (register_staging id r h).staging_sessions ≡ some r
unfolding register_staging
lookup-register_staging id r h = simp lookup-insert (ground arith)

closed-register_staging :
    (id r : ℕ) (h : Hub)
    → (h.heap r).closed ≡ false
    → lookup id h.staging_sessions ≢ some r
    → ((register_staging id r h).heap r).closed ≡ false
unfolding register_staging
closed-register_staging id r h o ne = ground arith

-- The end of a staging session closes whichever session is registered for the agent.
unregister_staging-closes :
    (id r : ℕ) (h : Hub)
    → lookup id h.staging_sessions ≡ some r
    → (h.heap r).closed ≡ false
    → ((unregister_staging id h).heap r).closed ≡ true
unfolding unregister_staging
unregister_staging-closes id r h e o = ground arith

gone-unregister_staging :
    (id : ℕ) (h : Hub) → is_connected_staging id (unregister_staging id h) ≡ false
unfolding unregister_staging is_connected_staging
gone-unregister_staging id h = simp lookup-remove (ground arith)

connected-register_staging :
    (id r : ℕ) (h : Hub) → is_connected_staging id (register_staging id r h) ≡ true
unfolding is_connected_staging
connected-register_staging id r h = rw (lookup-register_staging id r h)

-- A staging agent that connects again is registered; when then its older connection ends, which calls
-- `unregister_staging` for the same agent, the new session is unregistered and its channel is closed.
pub unregister_staging-register_staging :
    (id r : ℕ) (h : Hub)
    → (h.heap r).closed ≡ false
    → lookup id h.staging_sessions ≢ some r
    → let h' = unregister_staging id (register_staging id r h) in
      (is_connected_staging id (register_staging id r h) ≡ true)
      × (is_connected_staging id h' ≡ false)
      × ((h'.heap r).closed ≡ true)
unregister_staging-register_staging id r h o ne = (
  connected-register_staging id r h,
  gone-unregister_staging id (register_staging id r h),
  unregister_staging-closes id r (register_staging id r h) (lookup-register_staging id r h)
      (closed-register_staging id r h o ne),
)
