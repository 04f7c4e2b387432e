-- ===== src/Agents/Tokens/Registered.antt =====
-- The token that a registration returns.
use mathlib.Core.Path.{subst}
use netbox_conductor.Base.{
  ℕ, String, Bool, true, false, ◌||◌, not, ◌≡◌, refl, sym, ap, ◌∙◌, Option, none, some, inl, inr,
  List, [], ◌∷◌, ◌++◌, ◌==◌, eq_iff, keep, Bool-cases, some-inj, some-none, arith,
}
use netbox_conductor.Nodestate.{Node}
use netbox_conductor.Agents.Tokens.{
  OneTimeToken, AgentToken, Tokens, RegisterAnswer, as_node, first, is_valid, any_hash,
  create_agent_token, get_valid, stored, consume, node_found, auth_node, or_staging, authenticate,
  generated, consumed, register,
}

first-new :
    (hash : String) (rows : List AgentToken) (r : AgentToken)
    → any_hash hash rows ≡ false
    → is_valid hash r ≡ true
    → first (keep (is_valid hash) (rows ++ r ∷ [])) ≡ some r
unfolding any_hash
first-new hash [] r none_there v = ground arith
first-new hash (q ∷ rows) r none_there v = ground (arith, first-new hash rows r)

pub get_valid-create_agent_token :
    (ok : Bool) (node : ℕ) (hash : String) (rows rows' : List AgentToken)
    → create_agent_token ok node hash rows ≡ some rows'
    → get_valid hash rows' ≡ some (record { node_id = node; token_hash = hash; revoked = false })
unfolding create_agent_token get_valid
get_valid-create_agent_token ok node hash rows rows' e =
    elim (Bool-cases (not ok || any_hash hash rows)) [
      | inl h ↦ absurd (some-none (sym (rw h at e)))
      | inr h ↦
          let r : AgentToken = record { node_id = node; token_hash = hash; revoked = false } in
          let same = (eq_iff hash hash).1 refl in
          ap (λ l. first (keep (is_valid hash) l)) (sym (some-inj (rw h at e)))
          ∙ first-new hash rows r (ground arith) (ground arith)
    ]

-- A valid token of the node lets the agent in.
pub authenticate-get_valid :
    (hash_token : String → String) (node : ℕ) (raw : String) (nodes : ℕ → Option Node) (n : Node)
    (s : Tokens) (t : AgentToken)
    → get_valid (hash_token raw) s.agent_tokens ≡ some t
    → (t.node_id == node) ≡ true
    → nodes node ≡ some n
    → authenticate hash_token nodes (some node) raw s ≡ some (as_node n)
unfolding authenticate auth_node node_found or_staging
authenticate-get_valid hash_token node raw nodes n s t found of_node row =
    rw (found, of_node, row) refl

module _ (hash_token : String → String) where
  -- A registration that succeeds has stored a token that is found under its hash.
  IsStored : ℕ → String → RegisterAnswer × Tokens → Type 0
  IsStored node raw (RegisterAnswer.registered m r, s) =
      (t : AgentToken) × (get_valid (hash_token r) s.agent_tokens ≡ some t)
      × ((t.node_id == m) ≡ true)
      × (m ≡ node)
  IsStored node raw (_, s) = Unit

  stored-IsStored :
      (ok : Bool) (node : ℕ) (raw : String) (s : Tokens)
      → IsStored node raw
          (stored node raw (create_agent_token ok node (hash_token raw) s.agent_tokens) s)
  unfolding stored IsStored
  stored-IsStored ok node raw s =
      by_rows (create_agent_token ok node (hash_token raw) s.agent_tokens)
        (get_valid-create_agent_token ok node (hash_token raw) s.agent_tokens)
    where
      by_rows :
          (o : Option (List AgentToken))
          → ((rows : List AgentToken)
              → o ≡ some rows
              → get_valid (hash_token raw) rows
                ≡ some (record { node_id = node; token_hash = hash_token raw; revoked = false }))
          → IsStored node raw (stored node raw o s)
      by_rows none f = tt
      by_rows (some rows) f = (_, f rows refl, ground arith, refl)

  consumed-IsStored :
      (ok : Bool) (node : ℕ) (raw : String) (o : Option (OneTimeToken ℕ)) (s : Tokens)
      → IsStored node raw (consumed hash_token ok node (some raw) o s)
  unfolding consumed generated IsStored
  consumed-IsStored ok node raw none s = tt
  consumed-IsStored ok node raw (some t) s = elim (Bool-cases (t.owner == node)) [
    | inl h ↦ rw h (stored-IsStored ok node raw s)
    | inr h ↦ rw h tt
  ]

  -- The token that a registration returns lets the agent in as the node that it registered, whatever
  -- tokens there were, as long as the node's row can be read.
  pub authenticate-register :
      (consume_ok ok : Bool) (now node : ℕ) (token raw : String) (nodes : ℕ → Option Node)
      (n : Node) (s s' : Tokens)
      → register hash_token consume_ok ok now (some node) token (some raw) s
        ≡ (RegisterAnswer.registered node raw, s')
      → nodes node ≡ some n
      → authenticate hash_token nodes (some node) raw s' ≡ some (as_node n)
  unfolding register IsStored
  authenticate-register consume_ok ok now node token raw nodes n s s' e row =
      let (t, found, of_node, same) = subst (IsStored node raw) e (
        consumed-IsStored ok node raw
          (consume consume_ok now (hash_token token) s.registration_tokens).0
          (record s {
            registration_tokens =
                (consume consume_ok now (hash_token token) s.registration_tokens).1;
          })) in
      authenticate-get_valid hash_token node raw nodes n s' t found of_node row
