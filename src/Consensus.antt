-- ===== src/Consensus.antt =====
-- `ForkManager` and `ConsensusEngine` (adl_lite/consensus.py). The lock is not modelled: each method
-- is one atomic step.
pub mod Validators
pub mod Transition
pub mod Quorum
pub mod Production
pub mod Reachable
pub mod Fork
pub mod Audit
use adl_lite.Prelude.{
  ℕ, ◌+◌, String, Bool, true, false, Option, none, some, List, [], ◌∷◌, ◌++◌, str_eq, ltb, ◌==◌,
  leb, length, last?, max, map, if◌then◌else◌,
}
use adl_lite.Prelude.Int.{ℤ}
use adl_lite.Prelude.Dict.{Dict, contains, lookup, insert}
use adl_lite.Prelude.Result.{
  Error, Result, ok, err, key_error, not_registered, no_execution_spec, invalid_transition,
  too_few_validators,
}
use adl_lite.Payload.{Fields, end}
use adl_lite.Event.{
  EventType, DiscoveryStatus, provisional, validated, deprecated, forked, archived, register,
  validate, deprecate, fork, archive, Platform, Event, rehash,
}
use adl_lite.Chain.{EventChain, empty_chain, append, status, validators}
use adl_lite.Chain.Verify.{Verdict, verify_integrity}
use adl_lite.Ontology.{
  is_valid_transition, min_distinct_validators, require_execution_spec_on_register, status_text,
}

-- `_status_to_event_type`
unfoldable pub status_to_event_type : DiscoveryStatus → EventType
status_to_event_type provisional = register
status_to_event_type validated = validate
status_to_event_type deprecated = deprecate
status_to_event_type forked = fork
status_to_event_type archived = archive

pub record ForkManager : Type 0 where
  pub forks : Dict (List String)
  pub creation_times : Dict String

-- `register_fork`; `now` is the text of the current time.
unfoldable pub register_fork : String → String → String → ForkManager → ForkManager
register_fork now original_id fork_id m =
    let children : List String = elim (lookup original_id m.forks) [ none ↦ [] | some xs ↦ xs ] in
    record m {
      forks = insert original_id (children ++ fork_id ∷ []) m.forks;
      creation_times = insert fork_id now m.creation_times;
    }

-- What `Event(…)` draws by itself: an id and the time.
pub record Stamp : Type 0 where
  pub event_id : String
  pub timestamp : String

-- The parts of an `ADLDocument` that `register` reads.
pub record Document : Type 0 where
  pub adl_id : String
  pub event_chain : EventChain
  pub has_execution_spec : Bool

pub record ConsensusEngine : Type 0 where
  pub chains : Dict EventChain
  pub fork_manager : ForkManager
  pub ontology : Fields
  pub dev_mode : Bool

unfoldable pub set_production_mode : ConsensusEngine → ConsensusEngine
set_production_mode g = record g { dev_mode = false }

unfoldable pub set_dev_mode : ConsensusEngine → ConsensusEngine
set_dev_mode g = record g { dev_mode = true }

unfoldable pub is_validated : DiscoveryStatus → Bool
is_validated validated = true
is_validated _ = false

unfoldable pub is_forked : DiscoveryStatus → Bool
is_forked forked = true
is_forked _ = false

-- `existing + (0 if actor in existing else 1)`
unfoldable pub prospective : String → List String → ℕ
prospective actor existing = length existing + (if contains actor existing then 0 else 1)

module _ ⦃p : Platform⦄ where
  -- `Event(concept_id=…, event_type=…, actor=…, reasoning=…, payload=…)`
  unfoldable pub new_event : Stamp → String → EventType → String → String → Fields → Event
  new_event stamp cid et actor reasoning payload = rehash (record {
    event_id = stamp.event_id;
    concept_id = cid;
    event_type = et;
    actor = actor;
    reasoning = reasoning;
    timestamp = stamp.timestamp;
    payload = payload;
    previous_event_id = none;
    hash = "";
    signature = "";
    proof = none;
    prev_hash = "";
  })

  -- `_enforce_execution_spec`: whether it lets the document pass.
  unfoldable pub execution_spec_met : Document → ConsensusEngine → Bool
  execution_spec_met doc g =
      if g.dev_mode
      then true
      else if require_execution_spec_on_register g.ontology
      then doc.has_execution_spec
      else true

  -- The chain that `register` stores: with a genesis event, if it has none.
  unfoldable pub with_genesis : Stamp → Document → Result (Unit {0}) × EventChain
  with_genesis stamp doc = elim doc.event_chain.events [
    | [] ↦
        append (new_event stamp doc.adl_id register "system" "Document registered" end)
          doc.event_chain
    | _ ∷ _ ↦ (ok tt, doc.event_chain)
  ]

  -- `register`
  unfoldable pub register_document :
      Stamp → Document → ConsensusEngine → Result EventChain × ConsensusEngine
  register_document stamp doc g = elim (lookup doc.adl_id g.chains) [
    | some chain ↦ (ok chain, g)
    | none ↦
        if execution_spec_met doc g
        then (let (r, chain) = with_genesis stamp doc in
            elim r [
              | err x ↦ (err x, g)
              | ok _ ↦ (ok chain, record g { chains = insert doc.adl_id chain g.chains })
            ])
        else (err no_execution_spec, g)
  ]

  -- The second half of `fork`: the chain of the fork.
  unfoldable pub add_fork :
      Stamp
      → String
      → String
      → String
      → String
      → ConsensusEngine
      → Result EventChain × ConsensusEngine
  add_fork stamp original_id fork_id actor reasoning g =
      let (r, chain) =
        append (new_event stamp fork_id register actor reasoning end) (empty_chain fork_id) in
      elim r [
        | err x ↦ (err x, g)
        | ok _ ↦ (
          ok chain,
          record g {
            chains = insert fork_id chain g.chains;
            fork_manager = register_fork stamp.timestamp original_id fork_id g.fork_manager;
          },
        )
      ]

module _ ⦃p : Platform⦄ (int_of_text : String → Option ℤ) where
  unfoldable pub effective_n_min : ConsensusEngine → ℕ
  effective_n_min g =
      let ontology_min = min_distinct_validators int_of_text g.ontology in
      if g.dev_mode then 1 else if ltb ontology_min 2 then 2 else ontology_min

  -- The guards of `transition` on the chain: `none` lets the transition pass.
  unfoldable pub transition_guard :
      EventChain → DiscoveryStatus → String → ConsensusEngine → Option Error
  transition_guard chain to_status actor g =
      if is_valid_transition g.ontology (status_text (status chain)) (status_text to_status)
      then (if is_validated to_status
          then (if ltb (prospective actor (validators chain)) (effective_n_min g)
              then some too_few_validators
              else none)
          else none)
      else some invalid_transition

  -- `transition`: the event that it returns is the one in the chain, with its links set.
  unfoldable pub transition :
      Stamp
      → String
      → DiscoveryStatus
      → String
      → String
      → Fields
      → ConsensusEngine
      → Result Event × ConsensusEngine
  transition stamp adl_id to_status actor reason payload g = elim (lookup adl_id g.chains) [
    | none ↦ (err not_registered, g)
    | some chain ↦ (elim (transition_guard chain to_status actor g) [
      | some x ↦ (err x, g)
      | none ↦
          (let event =
              new_event stamp adl_id (status_to_event_type to_status) actor reason payload in
            let (r, chain') = append event chain in
            let g' = record g { chains = insert adl_id chain' g.chains } in
            elim r [
              | err x ↦ (err x, g')
              | ok _ ↦ (elim (last? chain'.events) [ none ↦ (ok event, g') | some e ↦ (ok e, g') ])
            ])
    ])
  ]

  -- `fork`; `reasoning` is the text "Forked from …: reason".
  unfoldable pub fork_concept :
      Stamp
      → Stamp
      → String
      → String
      → String
      → String
      → String
      → ConsensusEngine
      → Result EventChain × ConsensusEngine
  fork_concept stamp stamp' original_id fork_id actor reason reasoning g =
      elim (lookup original_id g.chains) [
        | none ↦ (err key_error, g)
        | some chain ↦
            if is_forked (status chain)
            then add_fork stamp' original_id fork_id actor reasoning g
            else (let (r, g') = transition stamp original_id forked actor reason end g in
                elim r [
                  | err x ↦ (err x, g')
                  | ok _ ↦ add_fork stamp' original_id fork_id actor reasoning g'
                ])
      ]

-- `get_status`
unfoldable pub get_status : String → ConsensusEngine → DiscoveryStatus
get_status adl_id g = elim (lookup adl_id g.chains) [
  | none ↦ provisional
  | some chain ↦ status chain
]
