-- ===== src/Agents/Staging/Assigned.antt =====
-- An agent that is assigned to a node.
use mathlib.Core.Path.{subst}
use netbox_conductor.Base.{
  ℕ, String, Bool, false, ◌≡◌, refl, sym, ap, ◌∙◌, Option, none, some, List, lookup-remove, arith,
}
use netbox_conductor.Nodestate.{Node}
use netbox_conductor.Hub.{Hub, is_connected_staging, unregister_staging}
use netbox_conductor.Agents.Tokens.{
  Tokens, AgentToken, StagingAgent, as_node, get_valid, authenticate,
}
use netbox_conductor.Agents.Tokens.Registered.{get_valid-create_agent_token, authenticate-get_valid}
use netbox_conductor.Agents.Staging.{
  World, Answers, AssignAnswer, assigned, get_by_id, delete_agent, migrated, with_node, with_agent,
  assign_staging_agent,
}

is_connected_staging-unregister_staging :
    (id : ℕ) (h : Hub) → is_connected_staging id (unregister_staging id h) ≡ false
unfolding is_connected_staging unregister_staging
is_connected_staging-unregister_staging id h =
    let l = lookup-remove id id h.staging_sessions in ground arith

-- An assignment that succeeds has stored the agent's hash for the node, and ended its session.
IsAssigned : (id : ℕ) → (hash : String) → AssignAnswer × World → Type 0
IsAssigned id hash (assigned node, w) =
    (get_valid hash w.tokens.agent_tokens
      ≡ some (record { node_id = node; token_hash = hash; revoked = false }))
    × (is_connected_staging id w.hub ≡ false)
IsAssigned id hash (_, w) = Unit

agent_tokens-delete_agent :
    (ok : Bool) (id : ℕ) (s : Tokens) → (delete_agent ok id s).agent_tokens ≡ s.agent_tokens
unfolding delete_agent
agent_tokens-delete_agent ok id s = ground arith

migrated-IsAssigned :
    (a : Answers) (id node : ℕ) (hash : String) (o : Option (List AgentToken)) (w : World)
    → ((rows : List AgentToken)
        → o ≡ some rows
        → get_valid hash rows
          ≡ some (record { node_id = node; token_hash = hash; revoked = false }))
    → IsAssigned id hash (migrated a id node o w)
unfolding migrated IsAssigned
migrated-IsAssigned a id node hash none w f = tt
migrated-IsAssigned a id node hash (some rows) w f = (
  ap (get_valid hash)
        (agent_tokens-delete_agent a.delete_ok id (record w.tokens { agent_tokens = rows }))
      ∙ f rows refl,
  is_connected_staging-unregister_staging id w.hub,
)

with_node-IsAssigned :
    (a : Answers) (id : ℕ) (agent : StagingAgent) (node : Option ℕ) (w : World)
    → IsAssigned id agent.token_hash (with_node a id agent node w)
unfolding with_node IsAssigned
with_node-IsAssigned a id agent none w = tt
with_node-IsAssigned a id agent (some node) w =
    migrated-IsAssigned a id node agent.token_hash _ _
      (get_valid-create_agent_token a.create_token_ok node agent.token_hash w.tokens.agent_tokens)

-- When a staging agent is assigned to a new node, the token that it has lets it in as that node, as
-- long as the node's row can be read, and its staging session has ended.
pub authenticate-assign_staging_agent :
    (hash_token : String → String) (a : Answers) (id node : ℕ) (raw : String)
    (nodes : ℕ → Option Node) (n : Node) (agent : StagingAgent) (w w' : World)
    → get_by_id id w.tokens ≡ some agent
    → agent.token_hash ≡ hash_token raw
    → assign_staging_agent a id w ≡ (assigned node, w')
    → nodes node ≡ some n
    → (authenticate hash_token nodes (some node) raw w'.tokens ≡ some (as_node n))
      × (is_connected_staging id w'.hub ≡ false)
unfolding assign_staging_agent with_agent IsAssigned
authenticate-assign_staging_agent hash_token a id node raw nodes n agent w w' there same e row =
    let i =
      subst (IsAssigned id agent.token_hash) (sym (ap (λ o. with_agent a id o w) there) ∙ e)
        (with_node-IsAssigned a id agent a.created_node w) in
    let found = ap (λ h. get_valid h w'.tokens.agent_tokens) (sym same) ∙ i.0 in
    (authenticate-get_valid hash_token node raw nodes n w'.tokens _ found (ground arith) row, i.1)
