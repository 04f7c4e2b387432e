-- ===== src/Agents/Tokens/Reissued.antt =====
-- The token that reissueAgentToken returns.
use netbox_conductor.Base.{
  ℕ, String, Bool, true, false, ◌||◌, not, ◌≡◌, refl, sym, ap, ◌∙◌, Option, none, some, inl, inr,
  List, [], ◌∷◌, ◌++◌, map, ◌==◌, if◌then◌else◌, ◌⊎◌, eq_iff, keep, Bool-cases, some-none, arith,
}
use netbox_conductor.Nodestate.{Node}
use netbox_conductor.Agents.Tokens.{
  AgentToken, StagingAgent, Tokens, AuthResult, as_node, first, has_hash, is_valid, revoked_for,
  revoke, any_hash, create_agent_token, get_valid, get_by_token_hash, auth_node, auth_staging,
  or_staging, authenticate, reissued, reissued_as, reissue_agent_token,
}

-- After the other rows of the node are revoked, the first valid one of the node is the new one.
first-revoked :
    (node : ℕ) (hash : String) (rows : List AgentToken) (r t : AgentToken)
    → first (keep (is_valid hash) (map (revoked_for node) rows ++ r ∷ [])) ≡ some t
    → (t.node_id == node) ≡ true
    → has_hash hash r ≡ true
first-revoked node hash [] r t e n = ground arith
first-revoked node hash (q ∷ rows) r t e n = ground (arith, first-revoked node hash rows r t)

-- Without a revocation the first valid row is the new one, or one from before.
first-added :
    (hash : String) (rows : List AgentToken) (r t : AgentToken)
    → first (keep (is_valid hash) (rows ++ r ∷ [])) ≡ some t
    → (has_hash hash r ≡ true) ⊎ (first (keep (is_valid hash) rows) ≡ some t)
first-added hash [] r t e = inl (ground arith)
first-added hash (q ∷ rows) r t e = elim (Bool-cases (is_valid hash q)) [
  | inl v ↦ rw v (inr (rw v at e))
  | inr v ↦ rw v (first-added hash rows r t (rw v at e))
]

auth_node-some :
    (node : ℕ) (o : Option AgentToken) (nodes : ℕ → Option Node) (n : Node)
    → auth_node node o nodes ≡ some (as_node n)
    → (t : AgentToken) × (o ≡ some t) × ((t.node_id == node) ≡ true)
unfolding auth_node
auth_node-some node none nodes n e = absurd (some-none (sym e))
auth_node-some node (some t) nodes n e = elim (Bool-cases (t.node_id == node)) [
  | inl h ↦ (t, refl, h)
  | inr h ↦ absurd (some-none (sym (rw h at e)))
]

auth_staging-staging :
    (id : ℕ) (o : Option StagingAgent) (n : Node) → auth_staging id o ≡ some (as_node n) → ⊥
unfolding auth_staging
auth_staging-staging id none n e = ground arith
auth_staging-staging id (some a) n e = ground arith

or_staging-node :
    (a b : Option AuthResult) (n : Node)
    → (b ≡ some (as_node n) → ⊥)
    → or_staging a b ≡ some (as_node n)
    → a ≡ some (as_node n)
unfolding or_staging
or_staging-node none b n other e = absurd (other e)
or_staging-node (some r) b n other e = e

module _ (hash_token : String → String) where
  reissued_as-rows :
      (ok : Bool) (node : ℕ) (raw : String) (s s' : Tokens)
      → reissued_as hash_token ok node (some raw) s ≡ (some raw, s')
      → s'.agent_tokens
        ≡ s.agent_tokens
          ++ record { node_id = node; token_hash = hash_token raw; revoked = false } ∷ []
  unfolding reissued_as reissued create_agent_token
  reissued_as-rows ok node raw s s' e =
      elim (Bool-cases (not ok || any_hash (hash_token raw) s.agent_tokens)) [
        | inl h ↦ absurd (some-none (sym (ap (λ p. p.0) (rw h at e))))
        | inr h ↦ sym (ap (λ p. p.1.agent_tokens) (rw h at e))
      ]

  -- The token is a valid one of the node in the rows.
  abbrev pub IsOld : ℕ → String → Tokens → Type 0
  IsOld node token s =
      (t : AgentToken) × (get_valid (hash_token token) s.agent_tokens ≡ some t)
      × ((t.node_id == node) ≡ true)

  -- After a token is reissued for a node, an agent that is accepted as the node has sent a token with
  -- the new token's hash, or the old ones could not be revoked and it has sent one that was valid
  -- before.
  pub reissue_agent_token-only :
      (revoke_ok ok : Bool) (node : ℕ) (raw token : String) (nodes : ℕ → Option Node) (n : Node)
      (s s' : Tokens)
      → reissue_agent_token hash_token revoke_ok ok node (some raw) s ≡ (some raw, s')
      → authenticate hash_token nodes (some node) token s' ≡ some (as_node n)
      → (hash_token raw ≡ hash_token token) ⊎ ((revoke_ok ≡ false) × IsOld node token s)
  unfolding reissue_agent_token authenticate get_valid revoke
  reissue_agent_token-only revoke_ok ok node raw token nodes n s s' e a =
      let accepted =
        or_staging-node (auth_node node (get_valid (hash_token token) s'.agent_tokens) nodes) _ n
          (auth_staging-staging node (get_by_token_hash (hash_token token) s'.staging_agents) n)
          a in
      let (t, found, of_node) =
        auth_node-some node (get_valid (hash_token token) s'.agent_tokens) nodes n accepted in
      by_revoked revoke_ok e t found of_node
    where
      by_revoked :
          (b : Bool)
          → reissued_as hash_token ok node
              (some raw)
              (record s { agent_tokens = if b then revoke node s.agent_tokens else s.agent_tokens })
            ≡ (some raw, s')
          → (t : AgentToken) → first (keep (is_valid (hash_token token)) s'.agent_tokens) ≡ some t
          → (t.node_id == node) ≡ true
          → (hash_token raw ≡ hash_token token) ⊎ ((b ≡ false) × IsOld node token s)
      by_revoked true e t found of_node =
          let rows =
            reissued_as-rows ok node raw
              (record s { agent_tokens = map (revoked_for node) s.agent_tokens }) s' e in
          inl (
            (eq_iff (hash_token raw) (hash_token token)).0 (
              first-revoked node (hash_token token) s.agent_tokens
                (record { node_id = node; token_hash = hash_token raw; revoked = false }) t
                (sym (ap (λ l. first (keep (is_valid (hash_token token)) l)) rows) ∙ found)
                of_node))
      by_revoked false e t found of_node =
          let rows = reissued_as-rows ok node raw s s' e in
          elim (first-added (hash_token token) s.agent_tokens
            (record { node_id = node; token_hash = hash_token raw; revoked = false }) t
            (sym (ap (λ l. first (keep (is_valid (hash_token token)) l)) rows) ∙ found)) [
              | inl h ↦ inl ((eq_iff (hash_token raw) (hash_token token)).0 h)
              | inr old ↦ inr (refl, (t, old, of_node))
            ]
