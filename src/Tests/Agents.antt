-- ===== src/Tests/Agents.antt =====
-- Tests of `AgentRegistry` (adl_lite/agents/identity.py) and of did:key
-- (adl_lite/did_resolver.py).
use adl_lite.Prelude.{ℕ, ◌≡◌, refl, true, false, none, some, List, [], ◌∷◌, ◌⊎◌, arith}
use adl_lite.Prelude.Int.{pos}
use adl_lite.Prelude.Dict.{lookup, insert}
use adl_lite.Prelude.Text.{is_empty}
use adl_lite.Prelude.Result.{Error, ok, err}
use adl_lite.Payload.{has_truthy, truthy, get}
use adl_lite.Event.{rehash, compute_hash, type_to_status}
use adl_lite.Chain.{
  EventChain, empty_chain, append, update_crdt_caches, update_confidence, update_status, link_to,
  carries_confidence,
}
use adl_lite.Consensus.{new_event}
use adl_lite.Did.{base58btc_encode, base58btc_decode}
use adl_lite.Did.Base58.{base58_round_trip}
use adl_lite.Did.Resolver.{
  Signatures, key_document, base58_run, resolve_did_key, create_did_key, strip_prefix, split_colons,
  put_first, method, verify_did_signature,
}
use adl_lite.Did.Keys.{resolve-create_did_key}
use adl_lite.Agent.{
  AgentRegistry, AgentProfile, reviewer, active, deprecated, agent_status, status_of_chain,
  is_agent_deprecate, is_agent_validate, is_admin_attestation,
}
use adl_lite.Agent.Registry.{
  register_agent, register_did, named_did, agent_genesis, filled_proof, attestation, append_at,
  deprecate_agent, write_event, can_write,
}
use adl_lite.Agent.Validation.{
  validate_agent, admin_guard, verify_admin_signature, run, registering, validating, deprecating,
}
use adl_lite.Agent.Effects.{Kept, Grown, Authorised, validate_agent_outcome}
use adl_lite.Agent.Trust.{start, called, HasRoot, active_needs_a_root, deprecation_is_final}
use adl_lite.Agent.Profiles.{get_agent, get_agent-register}
use adl_lite.Tests.Samples.{
  sample_platform, no_int_of_text, sample_ontology, stamp1, stamp2, no_forks,
}

-- Signatures that did:web accepts, and keys that fit nothing.
instance abbrev pub sample_signatures : Signatures
sample_signatures = record {
  b64decode = λ s. some (1 ∷ []);
  ed25519_verify = λ key message signature. false;
  secp256k1_verify = λ key message signature. true;
  resolve_did_web = λ did. some (record {
    id = did;
    verification_methods =
        record {
          id = "key";
          type_name = "EcdsaSecp256k1VerificationKey2019";
          controller = did;
          public_key_bytes = [];
          format = "hex";
          address = none;
        }
        ∷ [];
    assertion_method = [];
  });
  ethr_verify = λ did message signature. false;
}

abbrev empty_registry : AgentRegistry
empty_registry = record {
  engine = record {
    chains = [];
    fork_manager = no_forks;
    ontology = sample_ontology;
    dev_mode = false;
  };
  admin_public_keys = ("did:web:root", "key") ∷ [];
  admin_calls_allowed = true;
}

abbrev ann : AgentProfile
ann = record {
  did = "did:web:ann";
  role = reviewer;
  name = "Ann";
  model = "";
  capabilities = "translate" ∷ [];
  mcp_endpoint = none;
  scope = "public";
  tenant = none;
  org_id = some "acme";
}

abbrev with_ann : AgentRegistry
with_ann = run no_int_of_text stamp1 (registering ann none "" none) empty_registry

abbrev with_active_ann : AgentRegistry
with_active_ann =
    run no_int_of_text stamp2 (validating "did:web:ann" "did:web:root" "" (pos 5) "c2ln" true)
      with_ann

ann_registered :
    (c : EventChain) × ((register_agent stamp1 ann none "" none empty_registry).0 ≡ ok c)
unfolding register_agent register_did named_did is_empty lookup append agent_genesis filled_proof
    new_event rehash compute_hash empty_chain update_crdt_caches update_confidence update_status
    link_to carries_confidence type_to_status
ann_registered = (_, refl)

named_ann : named_did ann none ≡ some "did:web:ann"
unfolding named_did is_empty
named_ann = refl

get_agent-register_example :
    get_agent "did:web:ann" (register_agent stamp1 ann none "" none empty_registry).1.engine
    ≡ ok (some ann)
get_agent-register_example =
    get_agent-register stamp1 ann none "did:web:ann" "" none empty_registry ann_registered.0
      named_ann ann_registered.1

validate_agent_outcome_example :
    let call =
      validate_agent no_int_of_text stamp2 "did:web:ann" "did:web:root" ""
        (pos 5)
        "c2ln"
        true
        with_ann in
    ((x : Error) × (call.0 ≡ err x) × Kept with_ann call.1)
    ⊎ ((chain : EventChain) × (lookup "did:web:ann" with_ann.engine.chains ≡ some chain)
        × Authorised no_int_of_text "did:web:ann" "did:web:root" "c2ln" true chain with_ann
        × Grown "did:web:ann"
            (attestation stamp2 "did:web:ann" "did:web:root" "" (pos 5) "c2ln" true)
            with_ann
            call.1)
validate_agent_outcome_example =
    validate_agent_outcome no_int_of_text stamp2 "did:web:ann" "did:web:root" "" (pos 5) "c2ln" true
      with_ann

ann_active : agent_status no_int_of_text "did:web:ann" with_active_ann.engine ≡ active
unfolding run register_agent register_did named_did is_empty lookup insert append agent_genesis
    filled_proof new_event rehash compute_hash empty_chain update_crdt_caches update_confidence
    update_status link_to carries_confidence type_to_status validate_agent attestation admin_guard
    verify_admin_signature verify_did_signature method strip_prefix split_colons put_first append_at
    agent_status status_of_chain is_agent_deprecate is_agent_validate is_admin_attestation
    has_truthy truthy get
ann_active = refl

active_needs_a_root_example : HasRoot no_int_of_text with_active_ann
active_needs_a_root_example =
    active_needs_a_root no_int_of_text "did:web:ann" with_active_ann
      (called stamp2 (validating "did:web:ann" "did:web:root" "" (pos 5) "c2ln" true)
        (called stamp1 (registering ann none "" none) (start empty_registry refl)))
      ann_active

abbrev without_ann : AgentRegistry
without_ann =
    run no_int_of_text stamp2 (deprecating "did:web:ann" "did:web:root" "gone") with_active_ann

ann_deprecated : agent_status no_int_of_text "did:web:ann" without_ann.engine ≡ deprecated
unfolding run register_agent register_did named_did is_empty lookup insert append agent_genesis
    filled_proof new_event rehash compute_hash empty_chain update_crdt_caches update_confidence
    update_status link_to carries_confidence type_to_status validate_agent attestation admin_guard
    verify_admin_signature verify_did_signature method strip_prefix split_colons put_first append_at
    agent_status status_of_chain is_agent_deprecate is_agent_validate is_admin_attestation
    has_truthy truthy get deprecate_agent write_event can_write
ann_deprecated = refl

deprecation_is_final_example :
    agent_status no_int_of_text "did:web:ann"
      (run no_int_of_text stamp2
        (validating "did:web:ann" "did:web:root" "" (pos 5) "c2ln" true)
        without_ann).engine
    ≡ deprecated
deprecation_is_final_example =
    deprecation_is_final no_int_of_text stamp2
      (validating "did:web:ann" "did:web:root" "" (pos 5) "c2ln" true) "did:web:ann" without_ann
      ann_deprecated

base58_round_trip_example :
    base58btc_decode (base58btc_encode (0 ∷ 0 ∷ 237 ∷ 1 ∷ [])) ≡ some (0 ∷ 0 ∷ 237 ∷ 1 ∷ [])
base58_round_trip_example = base58_round_trip (0 ∷ 0 ∷ 237 ∷ 1 ∷ []) (omega arith)

abbrev sample_key : List ℕ
sample_key =
    1 ∷ 2 ∷ 3 ∷ 4 ∷ 5 ∷ 6 ∷ 7 ∷ 8 ∷ 9 ∷ 10 ∷ 11 ∷ 12 ∷ 13 ∷ 14 ∷ 15 ∷ 16 ∷ 17 ∷ 18 ∷ 19 ∷ 20 ∷ 21
    ∷ 22 ∷ 23 ∷ 24 ∷ 25 ∷ 26 ∷ 27 ∷ 28 ∷ 29 ∷ 30 ∷ 31 ∷ 255 ∷ []

other_text : base58_run "0 and more" ≡ ""
unfolding base58_run adl_lite.Did.index adl_lite.Did.position
other_text = refl

resolve-create_did_key_example :
    let did = Prim.Native.String.◌++◌ (create_did_key sample_key) "0 and more" in
    resolve_did_key did ≡ ok (key_document did sample_key)
resolve-create_did_key_example =
    resolve-create_did_key sample_key "0 and more" refl (omega arith) other_text
