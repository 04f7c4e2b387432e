-- ===== src/Scenarios/Tokens.antt =====
-- Tokens of two agents, under a hash that is easy to read.
use Prim.Native.String.{◌++◌}
use netbox_conductor.Base.{
  ℕ, String, true, false, ◌⊎◌, ◌≡◌, refl, Option, none, some, [], ◌∷◌, ◌==◌, if◌then◌else◌, arith,
}
use netbox_conductor.Nodestate.{Node}
use netbox_conductor.Hub.{is_connected_staging}
use netbox_conductor.Agents.Tokens.{
  Tokens, RegisterAnswer, as_node, register, authenticate, reissue_agent_token, create_agent_token,
  revoke, get_valid,
}
use netbox_conductor.Agents.Tokens.Once.{register-once}
use netbox_conductor.Agents.Tokens.Reissued.{IsOld, reissue_agent_token-only}
use netbox_conductor.Agents.Staging.{World, Answers, get_by_id, assign_staging_agent}
use netbox_conductor.Agents.Staging.Assigned.{authenticate-assign_staging_agent}
use netbox_conductor.Scenarios.Failovers.{first, two}

abbrev hash : String → String
hash token = "sha:" ++ token

abbrev rows_of_nodes : ℕ → Option Node
rows_of_nodes n = if n == 1 then some first else none

-- Node 1 has a registration token and an old token, and agent 3 waits in the staging pool.
abbrev tokens : Tokens
tokens = record {
  registration_tokens =
      record { owner = 1; token_hash = "sha:once"; expires_at = 500; used = false } ∷ [];
  staging_tokens = [];
  agent_tokens = record { node_id = 1; token_hash = "sha:old"; revoked = false } ∷ [];
  staging_agents = record { id = 3; hostname = "nb"; token_hash = "sha:staged" } ∷ [];
  next_id = 4;
}

-- The first request names another node.
register-once_example :
    let s' = (register hash true true 100 (some 2) "once" (some "a") tokens).1 in
    let again = register hash true true 200 (some 1) "once" (some "b") s' in
    (again.0 ≡ RegisterAnswer.invalid_token) × (again.1.agent_tokens ≡ s'.agent_tokens)
register-once_example =
    register-once hash true true true 100 200 2 1 "once" (some "a") (some "b") tokens (omega arith)

-- The old tokens are not revoked.
abbrev reissued : Option String × Tokens
reissued = reissue_agent_token hash false true 1 (some "new") tokens

reissue_agent_token-only_example :
    (hash "new" ≡ hash "old") ⊎ ((false ≡ false) × IsOld hash 1 "old" tokens)
reissue_agent_token-only_example =
    reissue_agent_token-only hash false true 1 "new" "old" rows_of_nodes first tokens reissued.1
      (unfold reissue_agent_token revoke create_agent_token in refl)
      (unfold reissue_agent_token revoke create_agent_token authenticate get_valid in refl)

abbrev pool : World
pool = record { hub = two; tokens = tokens; notes = [] }

abbrev answers : Answers
answers = record { created_node = some 1; create_token_ok = true; delete_ok = true }

authenticate-assign_staging_agent_example :
    let w' = (assign_staging_agent answers 3 pool).1 in
    (authenticate hash rows_of_nodes (some 1) "staged" w'.tokens ≡ some (as_node first))
    × (is_connected_staging 3 w'.hub ≡ false)
authenticate-assign_staging_agent_example =
    authenticate-assign_staging_agent hash answers 3 1 "staged" rows_of_nodes first
      (record { id = 3; hostname = "nb"; token_hash = "sha:staged" }) pool
      (assign_staging_agent answers 3 pool).1 (unfold get_by_id in refl) refl
      (unfold assign_staging_agent get_by_id create_agent_token in refl) refl
