-- ===== src/Agent.antt =====
-- `AgentRegistry` (adl_lite/agents/identity.py): agents as event chains in the engine, keyed by
-- their DID.
pub mod Registry
pub mod Validation
pub mod Effects
pub mod Steps
pub mod Trust
pub mod Profiles
use adl_lite.Prelude.{
  ℕ, ◌+◌, String, Bool, true, false, Option, none, some, List, [], ◌∷◌, ◌++◌, str_eq, ltb, length,
  last?, any, not, ◌&&◌, if◌then◌else◌,
}
use adl_lite.Prelude.Int.{ℤ}
use adl_lite.Prelude.Dict.{Dict, contains, lookup, insert}
use adl_lite.Prelude.Text.{is_empty}
use adl_lite.Prelude.Result.{
  Error, Result, ok, err, ◌>>=◌, value_error, index_error, key_error, already_registered,
  unknown_agent, not_the_owner, admin_not_allowed, signature_missing, signature_invalid,
  self_validation, validator_not_active, too_few_validators,
}
use adl_lite.Payload.{
  Value, obj, arr, text, num, bool, null, Items, nil, cons, Fields, field, end, has_truthy,
}
use adl_lite.Event.{
  EventType, agent_register, agent_validate, agent_update, agent_deprecate, task_create, Platform,
  Event,
}
use adl_lite.Chain.{EventChain, empty_chain, append, link_to}
use adl_lite.Did.Resolver.{Signatures, create_did_key, verify_did_signature}
use adl_lite.Consensus.{ConsensusEngine, Stamp, prospective, new_event, effective_n_min}

pub data AgentRole : Type 0 where
  discoverer reviewer skeptic merger librarian planner : AgentRole

unfoldable pub role_text : AgentRole → String
role_text discoverer = "discoverer"
role_text reviewer = "reviewer"
role_text skeptic = "skeptic"
role_text merger = "merger"
role_text librarian = "librarian"
role_text planner = "planner"

pub data AgentStatus : Type 0 where
  pending active deprecated : AgentStatus

pub record AgentProfile : Type 0 where
  pub did : String
  pub role : AgentRole
  pub name : String
  pub model : String
  pub capabilities : List String
  pub mcp_endpoint : Option String
  pub scope : String
  pub tenant : Option String
  pub org_id : Option String

unfoldable pub text_or_null : Option String → Value
text_or_null none = null
text_or_null (some s) = text s

unfoldable pub text_items : List String → Items
text_items [] = nil
text_items (s ∷ ss) = cons (text s) (text_items ss)

-- `profile.model_dump()`
unfoldable pub model_dump : AgentProfile → Fields
unfolding role_text text_or_null text_items
model_dump q = field "did" (text q.did) (
    field "role" (text (role_text q.role)) (
      field "name" (text q.name) (
        field "model" (text q.model) (
          field "capabilities" (arr (text_items q.capabilities)) (
            field "mcp_endpoint" (text_or_null q.mcp_endpoint) (
              field "scope" (text q.scope) (
                field "tenant" (text_or_null q.tenant)
                  (field "org_id" (text_or_null q.org_id) end))))))))

pub record AgentRegistry : Type 0 where
  pub engine : ConsensusEngine
  pub admin_public_keys : Dict String
  pub admin_calls_allowed : Bool

pub data ChainKind : Type 0 where
  agent_kind task_kind discovery_kind unknown_kind : ChainKind

unfoldable pub kind_of : EventType → ChainKind
kind_of agent_register = agent_kind
kind_of task_create = task_kind
kind_of _ = discovery_kind

unfoldable pub chain_kind : EventChain → ChainKind
unfolding kind_of
chain_kind c = elim c.events [ [] ↦ unknown_kind | e ∷ _ ↦ kind_of e.event_type ]

unfoldable pub is_agent_validate : EventType → Bool
is_agent_validate agent_validate = true
is_agent_validate _ = false

unfoldable pub is_agent_deprecate : EventType → Bool
is_agent_deprecate agent_deprecate = true
is_agent_deprecate _ = false

-- The loop of `_agent_validators`.
unfoldable pub collect_validators : List String → List Event → List String
collect_validators seen [] = seen
collect_validators seen (e ∷ es) =
    collect_validators
      (if is_agent_validate e.event_type && not (contains e.actor seen)
        then seen ++ e.actor ∷ []
        else seen)
      es

unfoldable pub agent_validators : EventChain → List String
agent_validators c = collect_validators [] c.events

-- Whether an event is an attestation by an administrator.
unfoldable pub is_admin_attestation : Event → Bool
is_admin_attestation e = is_agent_validate e.event_type && has_truthy "admin" e.payload

module _ ⦃p : Platform⦄ (int_of_text : String → Option ℤ) where
  -- The status of a chain that is there.
  unfoldable pub status_of_chain : EventChain → ConsensusEngine → AgentStatus
  status_of_chain c g =
      if any (λ e. is_agent_deprecate e.event_type) c.events
      then deprecated
      else if any is_admin_attestation c.events
      then active
      else if ltb (length (agent_validators c)) (effective_n_min int_of_text g)
      then pending
      else active

  unfoldable pub agent_status : String → ConsensusEngine → AgentStatus
  agent_status agent_did g = elim (lookup agent_did g.chains) [
    | none ↦ pending
    | some c ↦ status_of_chain c g
  ]
