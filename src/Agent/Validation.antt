-- ===== src/Agent/Validation.antt =====
-- `AgentRegistry.validate_agent` (adl_lite/agents/identity.py), and all calls that change a registry.
use adl_lite.Prelude.{
  ℕ, String, Bool, true, false, Option, none, some, List, str_eq, ltb, last?, if◌then◌else◌,
}
use adl_lite.Prelude.Int.{ℤ}
use adl_lite.Prelude.Dict.{lookup}
use adl_lite.Prelude.Text.{is_empty}
use adl_lite.Prelude.Result.{
  Error, Result, ok, err, index_error, unknown_agent, admin_not_allowed, signature_missing,
  signature_invalid, self_validation, validator_not_active, too_few_validators,
}
use adl_lite.Payload.{Fields}
use adl_lite.Event.{Platform, Event}
use adl_lite.Chain.{EventChain}
use adl_lite.Did.Resolver.{Signatures, verify_did_signature}
use adl_lite.Consensus.{ConsensusEngine, Stamp, prospective, effective_n_min}
use adl_lite.Agent.{active, AgentProfile, AgentRegistry, agent_validators, agent_status}
use adl_lite.Agent.Registry.{append_at, register_agent, update_agent, deprecate_agent, attestation}

module _ ⦃k : Signatures⦄ where
  -- `_verify_admin_signature`; the signature is over the hash of the chain's last event.
  unfoldable pub verify_admin_signature : EventChain → String → String → AgentRegistry → Result Bool
  verify_admin_signature chain admin_did signature r = elim (lookup admin_did r.admin_public_keys) [
    | none ↦ ok false
    | some _ ↦ (elim (k.b64decode signature) [
      | none ↦ ok false
      | some bytes ↦ (elim (last? chain.events) [
        | none ↦ err index_error
        | some e ↦ verify_did_signature admin_did e.hash bytes
      ])
    ])
  ]

  -- The guards of the path `admin=True`: `none` lets the call pass.
  unfoldable pub admin_guard : EventChain → String → String → AgentRegistry → Option Error
  unfolding verify_admin_signature
  admin_guard chain validator signature r =
      if r.admin_calls_allowed
      then (if is_empty signature
          then some signature_missing
          else elim (verify_admin_signature chain validator signature r) [
            | err x ↦ some x
            | ok verdict ↦ if verdict then none else some signature_invalid
          ])
      else some admin_not_allowed

module _ ⦃p : Platform⦄ (int_of_text : String → Option ℤ) where
  unfoldable pub is_active : String → ConsensusEngine → Bool
  is_active did g = elim (lookup did g.chains) [
    | none ↦ false
    | some _ ↦ (elim (agent_status int_of_text did g) [ active ↦ true | _ ↦ false ])
  ]

  -- The guards of the regular path.
  unfoldable pub peer_guard : EventChain → String → String → AgentRegistry → Option Error
  unfolding is_active
  peer_guard chain agent_did validator r =
      if str_eq validator agent_did
      then some self_validation
      else if is_active validator r.engine
      then (if ltb (prospective validator (agent_validators chain))
            (effective_n_min int_of_text r.engine)
          then some too_few_validators
          else none)
      else some validator_not_active

-- The calls that change a registry.
pub data Operation : Type 0 where
  registering : AgentProfile → Option (List ℕ) → String → Option Fields → Operation
  validating : String → String → String → ℤ → String → Bool → Operation
  updating : String → String → Fields → Operation
  deprecating : String → String → String → Operation

module _ ⦃p : Platform⦄ ⦃k : Signatures⦄ (int_of_text : String → Option ℤ) where
  unfoldable pub validate_agent :
      Stamp
      → String
      → String
      → String
      → ℤ
      → String
      → Bool
      → AgentRegistry
      → Result Event × AgentRegistry
  unfolding append_at
  validate_agent stamp agent_did validator reason confidence signature admin r =
      elim (lookup agent_did r.engine.chains) [
        | none ↦ (err unknown_agent, r)
        | some chain ↦
            (let guard : Option Error =
                if admin
                then admin_guard chain validator signature r
                else peer_guard int_of_text chain agent_did validator r in
              elim guard [
                | some x ↦ (err x, r)
                | none ↦
                    append_at agent_did chain
                      (attestation stamp agent_did validator reason confidence signature admin) r
              ])
      ]

  unfoldable pub run : Stamp → Operation → AgentRegistry → AgentRegistry
  run stamp (registering profile public_key signature proof) r =
      (register_agent stamp profile public_key signature proof r).1
  run stamp (validating did validator reason confidence signature admin) r =
      (validate_agent stamp did validator reason confidence signature admin r).1
  run stamp (updating did actor fields) r = (update_agent stamp did actor fields r).1
  run stamp (deprecating did actor reason) r = (deprecate_agent stamp did actor reason r).1
