-- ===== src/Tests/Engines.antt =====
-- Tests of `ConsensusEngine` (adl_lite/consensus.py).
use adl_lite.Prelude.{◌≤◌, ◌≡◌, refl, true, some, [], ◌⊎◌, length, str_eq, if◌then◌else◌, String}
use adl_lite.Prelude.Dict.{lookup, contains, insert}
use adl_lite.Prelude.Result.{Result, ok, err, Error}
use adl_lite.Payload.{end, get}
use adl_lite.Event.{
  Event, validated, rehash, compute_hash, type_to_status, order, of_order, confidence_field,
  to_float, clamp,
}
use adl_lite.Chain.{
  EventChain, empty_chain, append, append_all, update_crdt_caches, update_confidence, update_status,
  link_to, carries_confidence, validators, status, fromkeys, validating_actors, is_validate,
  compute_status_from_events, max_order, raise_order,
}
use adl_lite.Chain.Status.{IsCoherent, append_all-IsCoherent, empty_chain-IsCoherent}
use adl_lite.Ontology.{
  is_valid_transition, allowed_transitions, section_of, texts, status_text, min_distinct_validators,
  at_least_one,
}
use adl_lite.Consensus.{
  ConsensusEngine, set_production_mode, register_document, transition, fork_concept,
  effective_n_min, transition_guard, new_event, is_validated, is_forked, prospective,
  status_to_event_type, add_fork, register_fork,
}
use adl_lite.Consensus.Transition.{Permitted, transition_event, transition_outcome}
use adl_lite.Consensus.Quorum.{validation_has_quorum}
use adl_lite.Consensus.Reachable.{start, registered, production_never_validates}
use adl_lite.Tests.Samples.{
  sample_platform, no_int_of_text, sample_chain, sample_engine, sample_document, sample_ontology,
  stamp1, stamp2, no_forks, drafts,
}

abbrev fresh_engine : ConsensusEngine
fresh_engine = record {
  chains = [];
  fork_manager = no_forks;
  ontology = sample_ontology;
  dev_mode = true;
}

abbrev registered_engine : ConsensusEngine
registered_engine = (register_document stamp1 sample_document (set_production_mode fresh_engine)).1

no_validators_yet : validators sample_document.event_chain ≡ []
unfolding validators empty_chain validating_actors fromkeys
no_validators_yet = refl

production_never_validates_example :
    (x : Error) × (transition no_int_of_text stamp2 "cap" validated "ann" "good" end
        registered_engine
      ≡ (err x, registered_engine))
production_never_validates_example =
    production_never_validates no_int_of_text stamp2 "cap" "ann" "good" end
      (registered stamp1 sample_document no_validators_yet (start no_forks sample_ontology))

sample_id : sample_chain.concept_id ≡ "cap"
unfolding append_all append empty_chain update_crdt_caches update_confidence update_status link_to
    rehash compute_hash type_to_status order of_order carries_confidence confidence_field to_float
    get clamp lookup
sample_id = refl

-- The event of a second validation of the sample.
abbrev second_approval : Result Event × ConsensusEngine
second_approval =
    transition no_int_of_text stamp2 sample_chain.concept_id validated "cal" "good" end
      sample_engine

second_approval_event : (e : Event) × (second_approval.0 ≡ ok e)
unfolding section_of allowed_transitions texts is_valid_transition status_text
    min_distinct_validators at_least_one append_all append empty_chain update_crdt_caches
    update_confidence update_status link_to rehash compute_hash type_to_status order of_order
    carries_confidence confidence_field to_float get clamp lookup transition effective_n_min
    transition_guard new_event is_validated prospective status_to_event_type status validators
    validating_actors fromkeys is_validate contains compute_status_from_events max_order raise_order
    insert
second_approval_event = (_, refl)

sample_stored : lookup sample_chain.concept_id sample_engine.chains ≡ some sample_chain
unfolding append_all append empty_chain update_crdt_caches update_confidence update_status link_to
    rehash compute_hash type_to_status order of_order carries_confidence confidence_field to_float
    get clamp lookup
sample_stored = refl

validation_has_quorum_example :
    (c' : EventChain) × (lookup sample_chain.concept_id second_approval.1.chains ≡ some c')
    × (effective_n_min no_int_of_text sample_engine ≤ length (validators c'))
validation_has_quorum_example =
    validation_has_quorum no_int_of_text stamp2 "cal" "good" end sample_engine sample_chain
      second_approval_event.0 sample_stored second_approval_event.1

sample_IsCoherent : IsCoherent sample_chain
sample_IsCoherent = append_all-IsCoherent drafts (empty_chain "cap") (empty_chain-IsCoherent "cap")

transition_outcome_example :
    ((x : Error) × (second_approval ≡ (err x, sample_engine)))
    ⊎ ((c : EventChain) × (lookup sample_chain.concept_id sample_engine.chains ≡ some c)
        × Permitted no_int_of_text c validated "cal" sample_engine
        × ((j : String)
            → lookup j second_approval.1.chains ≡ (
                if str_eq sample_chain.concept_id j
                then some
                    (append
                      (transition_event no_int_of_text stamp2 sample_chain.concept_id validated
                        "cal" "good" end sample_engine)
                      c).1
                else lookup j sample_engine.chains)))
transition_outcome_example =
    transition_outcome no_int_of_text stamp2 sample_chain.concept_id validated "cal" "good" end
      sample_engine

abbrev sample_fork : Result EventChain × ConsensusEngine
sample_fork =
    fork_concept no_int_of_text stamp1 stamp2 "cap" "cap2" "ann" "split" "Forked from cap: split"
      sample_engine

sample_fork_chain : (c : EventChain) × (sample_fork.0 ≡ ok c)
unfolding section_of allowed_transitions texts is_valid_transition status_text
    min_distinct_validators at_least_one append_all append empty_chain update_crdt_caches
    update_confidence update_status link_to rehash compute_hash type_to_status order of_order
    carries_confidence confidence_field to_float get clamp lookup transition effective_n_min
    transition_guard new_event is_validated prospective status_to_event_type status validators
    validating_actors fromkeys is_validate contains compute_status_from_events max_order raise_order
    insert fork_concept is_forked add_fork register_fork
sample_fork_chain = (_, refl)
