-- ===== src/Agent/Registry.antt =====
-- `AgentRegistry.register_agent`, `update_agent` and `deprecate_agent`
-- (adl_lite/agents/identity.py).
use adl_lite.Prelude.{
  ℕ, String, Bool, true, false, Option, none, some, List, str_eq, last?, if◌then◌else◌,
}
use adl_lite.Prelude.Int.{ℤ}
use adl_lite.Prelude.Dict.{lookup, insert}
use adl_lite.Prelude.Text.{is_empty}
use adl_lite.Prelude.Result.{
  Result, ok, err, value_error, key_error, already_registered, not_the_owner,
}
use adl_lite.Payload.{obj, text, num, bool, Fields, field, end}
use adl_lite.Event.{agent_register, agent_validate, agent_update, agent_deprecate, Platform, Event}
use adl_lite.Chain.{EventChain, empty_chain, append, link_to}
use adl_lite.Did.Resolver.{create_did_key}
use adl_lite.Consensus.{Stamp, new_event}
use adl_lite.Agent.{AgentProfile, model_dump, AgentRegistry}

-- The DID that is registered: the profile's, or else that of the public key.
unfoldable pub named_did : AgentProfile → Option (List ℕ) → Option String
named_did profile public_key =
    if is_empty profile.did
    then (elim public_key [ none ↦ none | some key ↦ some (create_did_key key) ])
    else some profile.did

-- `if genesis_proof: genesis.proof = genesis_proof`; an empty proof counts as none.
unfoldable pub filled_proof : Option Fields → Option Fields
filled_proof none = none
filled_proof (some end) = none
filled_proof (some (field j v fs)) = some (field j v fs)

module _ ⦃p : Platform⦄ where
  -- `chain.append(event)` on the chain that the engine holds for a DID, and the event returned.
  unfoldable pub append_at :
      String → EventChain → Event → AgentRegistry → Result Event × AgentRegistry
  append_at did chain event r =
      let (res, chain') = append event chain in
      let r' = record r {
        engine = record r.engine { chains = insert did chain' r.engine.chains };
      } in
      elim res [ err x ↦ (err x, r') | ok _ ↦ (ok (link_to (last? chain.events) event), r') ]

  -- The genesis event of `register_agent`.
  unfoldable pub agent_genesis : Stamp → AgentProfile → String → Option Fields → Event
  agent_genesis stamp profile genesis_signature genesis_proof =
      record (new_event stamp profile.did agent_register profile.did ""
        (field "profile" (obj (model_dump profile)) (field "scope" (text profile.scope) end))) {
          signature = genesis_signature;
          proof = filled_proof genesis_proof;
        }

  -- The second half of `register_agent`: the profile has its DID.
  unfoldable pub register_did :
      Stamp
      → AgentProfile
      → String
      → Option Fields
      → AgentRegistry
      → Result EventChain × AgentRegistry
  register_did stamp profile genesis_signature genesis_proof r =
      elim (lookup profile.did r.engine.chains) [
        | some _ ↦ (err already_registered, r)
        | none ↦
            (let (res, chain) =
                append (agent_genesis stamp profile genesis_signature genesis_proof)
                  (empty_chain profile.did) in
              elim res [
                | err x ↦ (err x, r)
                | ok _ ↦ (
                  ok chain,
                  record r {
                    engine = record r.engine { chains = insert profile.did chain r.engine.chains };
                  },
                )
              ])
      ]

  -- `register_agent`, with the raw bytes of the public key, if one is given.
  unfoldable pub register_agent :
      Stamp
      → AgentProfile
      → Option (List ℕ)
      → String
      → Option Fields
      → AgentRegistry
      → Result EventChain × AgentRegistry
  unfolding register_did
  register_agent stamp profile public_key genesis_signature genesis_proof r =
      elim (named_did profile public_key) [
        | none ↦ (err value_error, r)
        | some did ↦
            register_did stamp (record profile { did = did }) genesis_signature genesis_proof r
      ]

  -- `_assert_actor_can_write`
  unfoldable pub can_write : String → String → AgentRegistry → Bool
  can_write agent_did actor r =
      if str_eq actor agent_did
      then true
      else elim (lookup actor r.admin_public_keys) [ none ↦ false | some _ ↦ true ]

  -- A write by the owner or an administrator: `update_agent` and `deprecate_agent`.
  unfoldable pub write_event :
      String → String → Event → AgentRegistry → Result Event × AgentRegistry
  unfolding can_write append_at
  write_event agent_did actor event r =
      if can_write agent_did actor r
      then (elim (lookup agent_did r.engine.chains) [
        | none ↦ (err key_error, r)
        | some chain ↦ append_at agent_did chain event r
      ])
      else (err not_the_owner, r)

  unfoldable pub update_agent :
      Stamp → String → String → Fields → AgentRegistry → Result Event × AgentRegistry
  update_agent stamp agent_did actor fields r =
      write_event agent_did actor
        (new_event stamp agent_did agent_update actor "" (field "fields" (obj fields) end)) r

  unfoldable pub deprecate_agent :
      Stamp → String → String → String → AgentRegistry → Result Event × AgentRegistry
  deprecate_agent stamp agent_did actor reason r =
      write_event agent_did actor (new_event stamp agent_did agent_deprecate actor reason end) r

  -- The event of `validate_agent`.
  unfoldable pub attestation : Stamp → String → String → String → ℤ → String → Bool → Event
  attestation stamp agent_did validator reason confidence signature admin =
      record (new_event stamp agent_did agent_validate validator reason
        (field "confidence" (num confidence) (field "admin" (bool admin) end))) {
          signature = signature;
        }
