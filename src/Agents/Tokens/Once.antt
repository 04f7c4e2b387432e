-- ===== src/Agents/Tokens/Once.antt =====
-- Registration tokens are good for one request.
use netbox_conductor.Base.{
  ℕ, ◌≤◌, String, Bool, true, false, ◌≡◌, refl, Option, none, some, List, [], ◌∷◌, map, ◌==◌,
  if◌then◌else◌, keep, arith,
}
use netbox_conductor.Agents.Tokens.{
  OneTimeToken, Tokens, AgentToken, RegisterAnswer, invalid_token, first, is_usable, use_up,
  consume, register, consumed, generated, stored, create_agent_token,
}

keep-use_up :
    (now now' : ℕ) (hash : String) (rows : List (OneTimeToken ℕ))
    → now ≤ now'
    → keep (is_usable now' hash) (map (use_up now hash) rows) ≡ []
keep-use_up now now' hash [] h = refl
keep-use_up now now' hash (t ∷ rows) h = ground (arith, keep-use_up now now' hash rows h)

module _ (hash_token : String → String) where
  registration_tokens-consumed :
      (ok : Bool) (node : ℕ) (new : Option String) (o : Option (OneTimeToken ℕ)) (s : Tokens)
      → (consumed hash_token ok node new o s).1.registration_tokens ≡ s.registration_tokens
  unfolding consumed generated stored
  registration_tokens-consumed ok node new none s = refl
  registration_tokens-consumed ok node none (some t) s = ground arith
  registration_tokens-consumed ok node (some raw) (some t) s =
      by_row (create_agent_token ok node (hash_token raw) s.agent_tokens)
    where
      by_row :
          (o : Option (List AgentToken))
          → (if t.owner == node
              then stored node raw o s
              else (RegisterAnswer.token_mismatch, s)).1.registration_tokens
            ≡ s.registration_tokens
      by_row none = ground arith
      by_row (some rows) = ground arith

  -- After a registration that names a node and whose UPDATE of the token did not fail, whatever it was
  -- answered, another one with the same token, then or later, for this node or another, is refused,
  -- and adds no token of an agent. The second UPDATE may fail.
  pub register-once :
      (consume_ok ok ok' : Bool) (now now' node : ℕ) (other : ℕ) (token : String)
      (new new' : Option String) (s : Tokens)
      → now ≤ now'
      → let s' = (register hash_token true ok now (some node) token new s).1 in
        let again = register hash_token consume_ok ok' now' (some other) token new' s' in
        (again.0 ≡ invalid_token) × (again.1.agent_tokens ≡ s'.agent_tokens)
  unfolding register consume consumed
  register-once false ok ok' now now' node other token new new' s h = (refl, refl)
  register-once true ok ok' now now' node other token new new' s h =
      let hash = hash_token token in
      let s1 = record s { registration_tokens = map (use_up now hash) s.registration_tokens } in
      let e =
        registration_tokens-consumed ok node new
          (first (keep (is_usable now hash) s.registration_tokens)) s1 in
      let k = keep-use_up now now' hash s.registration_tokens h in rw (e, k) (refl, refl)
