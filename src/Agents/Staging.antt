-- ===== src/Agents/Staging.antt =====
-- Agents without a node: connectStagingAgent and readPumpStaging of internal/server/api/handlers/agent.go,
-- DeleteStagingAgent and AssignStagingAgent of internal/server/api/handlers/staging.go.
--
-- The defaults of a request's fields go into the node's row, which is an answer here.
pub mod Assigned
use netbox_conductor.Base.{
  ℕ, String, Bool, true, false, not, Option, none, some, List, [], ◌∷◌, ◌==◌, if◌then◌else◌, keep,
}
use netbox_conductor.Hub.{Hub, new_session, register_staging, unregister_staging, touch_last_seen}
use netbox_conductor.Agents.Tokens.{Tokens, AgentToken, StagingAgent, create_agent_token, first}

-- What is written or published, newest first.
pub data Note : Type 0 where
  status_written : (agent : ℕ) → (connected : Bool) → Note
  hello_written : (agent : ℕ) → Note
  connected_published disconnected_published : StagingAgent → Note
  node_created node_deleted : (node : ℕ) → Note
  assigned_published : (agent node : ℕ) → Note

pub record World : Type 0 where
  pub hub : Hub
  pub tokens : Tokens
  pub notes : List Note

abbrev note : Note → World → World
note n w = record w { notes = n ∷ w.notes }

-- Up to the start of the pumps, with the session's object at the reference `r`; it belongs to no
-- cluster, `uuid.Nil`, which is 0.
unfoldable pub connect_staging : (now r : ℕ) → StagingAgent → World → World
connect_staging now r a w =
    let h = register_staging a.id r (new_session r a.id 0 now w.hub) in
    note (connected_published a)
      (note (hello_written a.id) (note (status_written a.id true) (record w { hub = h })))

-- The deferred function.
unfoldable pub end_staging : StagingAgent → World → World
end_staging a w =
    note (disconnected_published a)
      (note (status_written a.id false) (record w { hub = unregister_staging a.id w.hub }))

-- A message of the session at the reference `r`, which only counts as a heartbeat.
unfoldable pub read_staging : (now r : ℕ) → (agent : ℕ) → (is_heartbeat : Bool) → World → World
read_staging now r agent is_heartbeat w =
    let w' = record w { hub = touch_last_seen now r w.hub } in
    if is_heartbeat then note (status_written agent true) w' else w'

abbrev other_agent : ℕ → StagingAgent → Bool
other_agent id a = not (a.id == id)

-- `ok` says whether the DELETE succeeds.
unfoldable pub delete_agent : Bool → ℕ → Tokens → Tokens
delete_agent ok id s =
    if ok then record s { staging_agents = keep (other_agent id) s.staging_agents } else s

unfoldable pub delete_staging_agent : Bool → ℕ → World → Bool × World
unfolding delete_agent
delete_staging_agent ok id w =
    (ok, record w { hub = unregister_staging id w.hub; tokens = delete_agent ok id w.tokens })

unfoldable pub get_by_id : ℕ → Tokens → Option StagingAgent
get_by_id id s = first (keep (λ a. a.id == id) s.staging_agents)

pub data AssignAnswer : Type 0 where
  not_found node_not_created token_not_migrated : AssignAnswer
  assigned : (node : ℕ) → AssignAnswer

-- The id of the new node's row, `none` where it could not be created, and whether the other statements
-- succeed.
pub record Answers : Type 0 where
  pub created_node : Option ℕ
  pub create_token_ok : Bool
  pub delete_ok : Bool

migrated : Answers → (id node : ℕ) → Option (List AgentToken) → World → AssignAnswer × World
unfolding delete_agent
migrated a id node none w = (token_not_migrated, note (node_deleted node) w)
migrated a id node (some rows) w =
    let s = delete_agent a.delete_ok id (record w.tokens { agent_tokens = rows }) in
    (
      assigned node,
      note (assigned_published id node)
          (record w { hub = unregister_staging id w.hub; tokens = s }),
    )

with_node : Answers → (id : ℕ) → StagingAgent → Option ℕ → World → AssignAnswer × World
unfolding migrated
with_node a id agent none w = (node_not_created, w)
with_node a id agent (some node) w =
    migrated a id node
      (create_agent_token a.create_token_ok node agent.token_hash w.tokens.agent_tokens)
      (note (node_created node) w)

with_agent : Answers → (id : ℕ) → Option StagingAgent → World → AssignAnswer × World
unfolding with_node
with_agent a id none w = (not_found, w)
with_agent a id (some agent) w = with_node a id agent a.created_node w

unfoldable pub assign_staging_agent : Answers → ℕ → World → AssignAnswer × World
unfolding with_agent get_by_id
assign_staging_agent a id w = with_agent a id (get_by_id id w.tokens) w
