-- ===== src/Agents/Tokens.antt =====
-- The tokens of agents: Register, StagingRegister and authenticate of
-- internal/server/api/handlers/agent.go, reissueAgentToken of internal/server/api/handlers/nodes.go, and
-- the statements that they run, in internal/server/db/queries/nodes.go and staging.go.
--
-- SHA-256 is a parameter, `hash_token`, and a random token is an argument, `none` where there is none to
-- be had. A column token_hash is unique: an INSERT of a second row with one hash fails.
pub mod Once
pub mod Reissued
pub mod Registered
use netbox_conductor.Base.{
  ℕ, ◌+◌, String, Bool, true, false, ◌&&◌, ◌||◌, not, Option, none, some, List, [], ◌∷◌, ◌++◌, map,
  ◌==◌, ltb, str_eq, if◌then◌else◌, keep,
}
use netbox_conductor.Nodestate.{Node}

-- A row of registration_tokens, whose owner is a node, or of staging_tokens, with a label.
pub record OneTimeToken {ℓ} (A : Type ℓ) : Type ℓ where
  pub owner : A
  pub token_hash : String
  pub expires_at : ℕ
  pub used : Bool

pub record AgentToken : Type 0 where
  pub node_id : ℕ
  pub token_hash : String
  pub revoked : Bool

pub record StagingAgent : Type 0 where
  pub id : ℕ
  pub hostname : String
  pub token_hash : String

pub record Tokens : Type 0 where
  pub registration_tokens : List (OneTimeToken ℕ)
  pub staging_tokens : List (OneTimeToken String)
  pub agent_tokens : List AgentToken
  pub staging_agents : List StagingAgent
  pub next_id : ℕ

abbrev pub first {ℓ} : {A : Type ℓ} → List A → Option A
first [] = none
first (x ∷ xs) = some x

abbrev pub is_usable {ℓ} : {A : Type ℓ} → ℕ → String → OneTimeToken A → Bool
is_usable now hash t = str_eq t.token_hash hash && (not t.used && ltb now t.expires_at)

abbrev pub use_up {ℓ} : {A : Type ℓ} → ℕ → String → OneTimeToken A → OneTimeToken A
use_up now hash t = if is_usable now hash t then record t { used = true } else t

-- Both `Consume`; `ok` is false where the UPDATE fails.
unfoldable pub consume {ℓ} :
    {A : Type ℓ}
    → (ok : Bool) → ℕ
    → String
    → List (OneTimeToken A)
    → Option (OneTimeToken A) × List (OneTimeToken A)
consume ok now hash rows =
    if ok
    then (first (keep (is_usable now hash) rows), map (use_up now hash) rows)
    else (none, rows)

abbrev pub has_hash : String → AgentToken → Bool
has_hash hash r = str_eq r.token_hash hash

abbrev pub is_valid : String → AgentToken → Bool
is_valid hash r = has_hash hash r && not r.revoked

any_hash : String → List AgentToken → Bool
any_hash hash [] = false
any_hash hash (r ∷ rs) = has_hash hash r || any_hash hash rs

-- `none` where the INSERT fails; `ok` is false where it does for another reason than the hash.
unfoldable pub create_agent_token :
    Bool → (node : ℕ) → (hash : String) → List AgentToken → Option (List AgentToken)
unfolding any_hash
create_agent_token ok node hash rows =
    if not ok || any_hash hash rows
    then none
    else some (rows ++ record { node_id = node; token_hash = hash; revoked = false } ∷ [])

unfoldable pub get_valid : String → List AgentToken → Option AgentToken
get_valid hash rows = first (keep (is_valid hash) rows)

abbrev pub revoked_for : ℕ → AgentToken → AgentToken
revoked_for node r = if r.node_id == node then record r { revoked = true } else r

unfoldable pub revoke : ℕ → List AgentToken → List AgentToken
revoke node = map (revoked_for node)

unfoldable pub get_by_token_hash : String → List StagingAgent → Option StagingAgent
get_by_token_hash hash agents = first (keep (λ a. str_eq a.token_hash hash) agents)

pub data RegisterAnswer : Type 0 where
  bad_request invalid_token token_mismatch generation_failed storage_failed : RegisterAnswer
  registered : (node : ℕ) → (raw : String) → RegisterAnswer

pub data StagingAnswer : Type 0 where
  required_missing invalid_token generation_failed registration_failed : StagingAnswer
  registered : StagingAgent → (raw : String) → StagingAnswer

pub data AuthResult : Type 0 where
  as_node : Node → AuthResult
  as_staging : StagingAgent → AuthResult

stored : ℕ → String → Option (List AgentToken) → Tokens → RegisterAnswer × Tokens
stored node raw none s = (storage_failed, s)
stored node raw (some rows) s = (registered node raw, record s { agent_tokens = rows })

any_agent : String → List StagingAgent → Bool
any_agent hash [] = false
any_agent hash (a ∷ agents) = str_eq a.token_hash hash || any_agent hash agents

node_found : Option Node → Option AuthResult
node_found none = none
node_found (some n) = some (as_node n)

auth_node : ℕ → Option AgentToken → (ℕ → Option Node) → Option AuthResult
unfolding node_found
auth_node id none nodes = none
auth_node id (some t) nodes = if t.node_id == id then node_found (nodes id) else none

auth_staging : ℕ → Option StagingAgent → Option AuthResult
auth_staging id none = none
auth_staging id (some a) = if a.id == id then some (as_staging a) else none

or_staging : Option AuthResult → Option AuthResult → Option AuthResult
or_staging none other = other
or_staging (some r) other = some r

reissued : Option (List AgentToken) → String → Tokens → Option String × Tokens
reissued none raw s = (none, s)
reissued (some rows) raw s = (some raw, record s { agent_tokens = rows })

module _ (hash_token : String → String) where
  generated : Bool → ℕ → Option String → Tokens → RegisterAnswer × Tokens
  unfolding stored
  generated ok node none s = (generation_failed, s)
  generated ok node (some raw) s =
      stored node raw (create_agent_token ok node (hash_token raw) s.agent_tokens) s

  consumed : Bool → ℕ → Option String → Option (OneTimeToken ℕ) → Tokens → RegisterAnswer × Tokens
  unfolding generated
  consumed ok node new none s = (invalid_token, s)
  consumed ok node new (some t) s =
      if t.owner == node then generated ok node new s else (token_mismatch, s)

  -- `node` is `none` where the id is no UUID; `new` is the token that is generated. `consume_ok` is the
  -- answer of the UPDATE, and `ok` that of the INSERT.
  unfoldable pub register :
      (consume_ok ok : Bool)
      → (now : ℕ) → (node : Option ℕ) → (token : String) → (new : Option String) → Tokens
      → RegisterAnswer × Tokens
  unfolding consumed
  register consume_ok ok now none token new s = (bad_request, s)
  register consume_ok ok now (some node) token new s =
      let (t, rows) = consume consume_ok now (hash_token token) s.registration_tokens in
      consumed ok node new t (record s { registration_tokens = rows })

  staged : Bool → String → Option String → Tokens → StagingAnswer × Tokens
  unfolding any_agent
  staged ok hostname none s = (generation_failed, s)
  staged ok hostname (some raw) s =
      let a : StagingAgent = record {
        id = s.next_id;
        hostname = hostname;
        token_hash = hash_token raw;
      } in
      if not ok || any_agent (hash_token raw) s.staging_agents then (registration_failed, s) else (
        registered a raw,
        record s { staging_agents = s.staging_agents ++ a ∷ []; next_id = s.next_id + 1 },
      )

  staging_consumed :
      Bool → String → Option String → Option (OneTimeToken String) → Tokens → StagingAnswer × Tokens
  unfolding staged
  staging_consumed ok hostname new none s = (invalid_token, s)
  staging_consumed ok hostname new (some t) s = staged ok hostname new s

  unfoldable pub staging_register :
      (consume_ok ok : Bool)
      → (now : ℕ) → (token hostname : String) → (new : Option String) → Tokens
      → StagingAnswer × Tokens
  unfolding staging_consumed
  staging_register consume_ok ok now token hostname new s =
      let (t, rows) = consume consume_ok now (hash_token token) s.staging_tokens in
      if str_eq token "" || str_eq hostname ""
      then (required_missing, s)
      else staging_consumed ok hostname new t (record s { staging_tokens = rows })

  -- `nodes` are the rows of nodes by their ids.
  unfoldable pub authenticate :
      (nodes : ℕ → Option Node) → (id : Option ℕ) → (token : String) → Tokens → Option AuthResult
  unfolding auth_node auth_staging or_staging
  authenticate nodes none token s = none
  authenticate nodes (some id) token s =
      or_staging (auth_node id (get_valid (hash_token token) s.agent_tokens) nodes)
        (auth_staging id (get_by_token_hash (hash_token token) s.staging_agents))

  reissued_as : Bool → ℕ → Option String → Tokens → Option String × Tokens
  unfolding reissued
  reissued_as ok node none s = (none, s)
  reissued_as ok node (some raw) s =
      reissued (create_agent_token ok node (hash_token raw) s.agent_tokens) raw s

  -- The token, or `none` for an error. The answer of `Revoke`, `revoke_ok`, is not looked at.
  unfoldable pub reissue_agent_token :
      (revoke_ok ok : Bool) → (node : ℕ) → (new : Option String) → Tokens → Option String × Tokens
  unfolding reissued_as
  reissue_agent_token revoke_ok ok node new s =
      let rows = if revoke_ok then revoke node s.agent_tokens else s.agent_tokens in
      reissued_as ok node new (record s { agent_tokens = rows })
