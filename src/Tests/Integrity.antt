-- ===== src/Tests/Integrity.antt =====
-- Tests of `verify_integrity` (adl_lite/models.py).
use adl_lite.Prelude.{
  some, ◌≡◌, sym, ◌∙◌, str_eq, eq_iff, String, refl, true, false, [], ◌∷◌, inr, map,
}
use adl_lite.Prelude.Dict.{contains, lookup}
use adl_lite.Prelude.Text.{is_blank, is_empty, len, str_lt}
use adl_lite.Prelude.Result.{ok}
use adl_lite.Payload.{get, truthy, has_truthy, is_filled}
use adl_lite.Event.{
  content, order, of_order, type_to_status, dt_lt, compute_hash, rehash, parse_event_dt, to_float,
  confidence_field, clamp,
}
use adl_lite.Chain.{
  empty_chain, carries_confidence, update_status, update_confidence, update_crdt_caches, link_to,
  append, append_all,
}
use adl_lite.Chain.Axioms.{
  is_action, eal_required_payload_fields, eal_proof_required, is_text, all_filled,
  challenge_payload_well_formed, proof_present, match_is, replay_fields, replay_confirms,
  replay_mismatch, verdict_consistent, verdict_axiom, has_previous, content_axioms,
  axioms_before_verdict,
}
use adl_lite.Chain.Verify.{
  valid, invalid, is_archive, has_archive, points_to, link_axioms, goes_back, prefix_match,
  keeps_prefix, start_index, event_before, anchored, verify_from, initial_progress, finish,
  verify_prefix, verify_integrity,
}
use adl_lite.Chain.Integrity.{IsWellFormed}
use adl_lite.Chain.Restart.{Restarts, IsFresh, full, verified_chain-IsWellFormed}
use adl_lite.Chain.Incremental.{incremental_equals_full}
use adl_lite.Chain.Tamper.{NoCollision, tail_hash_binds_history}
use adl_lite.Report.{well_formedness_report}
use adl_lite.Report.Agreement.{clean_report, report_of_valid_chain}
use adl_lite.Chain.StaleCache.{second_verification_passes}
use adl_lite.Consensus.Audit.{verify_chains, verify_all}
use adl_lite.Tests.Samples.{
  sample_engine, sample_platform, sample_chain, genesis, approval, nameless, other_chain,
  nameless_chain, first_linked, second_linked,
}

sample_valid : (verify_integrity sample_chain).0 ≡ valid
unfolding append_all append empty_chain update_crdt_caches update_confidence update_status link_to
    rehash compute_hash type_to_status order of_order carries_confidence confidence_field to_float
    get clamp str_lt is_action eal_required_payload_fields eal_proof_required is_text all_filled
    challenge_payload_well_formed proof_present match_is replay_fields replay_confirms
    replay_mismatch verdict_consistent verdict_axiom has_previous content_axioms
    axioms_before_verdict is_archive has_archive points_to link_axioms goes_back prefix_match
    keeps_prefix start_index event_before anchored verify_from initial_progress finish verify_prefix
    verify_integrity contains dt_lt parse_event_dt truthy has_truthy is_filled is_blank is_empty len
    content
sample_valid = refl

sample_no_archive : has_archive sample_chain.events ≡ false
unfolding append_all append empty_chain update_crdt_caches update_confidence update_status link_to
    rehash compute_hash type_to_status order of_order carries_confidence confidence_field to_float
    get clamp str_lt has_archive is_archive
sample_no_archive = refl

sample_Restarts : Restarts sample_chain
unfolding append_all append empty_chain update_crdt_caches update_confidence update_status link_to
    rehash compute_hash type_to_status order of_order carries_confidence confidence_field to_float
    get clamp str_lt content
sample_Restarts = inr (record { ids = refl; seen = refl; last_dt = refl })

verified_chain-IsWellFormed_example : IsWellFormed sample_chain.concept_id sample_chain.events
verified_chain-IsWellFormed_example =
    verified_chain-IsWellFormed sample_chain sample_Restarts sample_no_archive sample_valid

incremental_equals_full_example :
    let grown = (append nameless (verify_integrity sample_chain).1).1 in
    (verify_integrity grown).0 ≡ (full grown).0
unfolding append_all append empty_chain update_crdt_caches update_confidence update_status link_to
    rehash compute_hash type_to_status order of_order carries_confidence confidence_field to_float
    get clamp str_lt is_archive content
incremental_equals_full_example =
    incremental_equals_full sample_chain (first_linked genesis)
      (second_linked genesis approval ∷ []) nameless refl sample_Restarts sample_valid refl refl

other_valid : (verify_integrity other_chain).0 ≡ valid
unfolding append_all append empty_chain update_crdt_caches update_confidence update_status link_to
    rehash compute_hash type_to_status order of_order carries_confidence confidence_field to_float
    get clamp str_lt is_action eal_required_payload_fields eal_proof_required is_text all_filled
    challenge_payload_well_formed proof_present match_is replay_fields replay_confirms
    replay_mismatch verdict_consistent verdict_axiom has_previous content_axioms
    axioms_before_verdict is_archive has_archive points_to link_axioms goes_back prefix_match
    keeps_prefix start_index event_before anchored verify_from initial_progress finish verify_prefix
    verify_integrity contains dt_lt parse_event_dt truthy has_truthy is_filled is_blank is_empty len
    content
other_valid = refl

other_no_archive : has_archive other_chain.events ≡ false
unfolding append_all append empty_chain update_crdt_caches update_confidence update_status link_to
    rehash compute_hash type_to_status order of_order carries_confidence confidence_field to_float
    get clamp str_lt has_archive is_archive
other_no_archive = refl

other_Restarts : Restarts other_chain
unfolding append_all append empty_chain update_crdt_caches update_confidence update_status link_to
    rehash compute_hash type_to_status order of_order carries_confidence confidence_field to_float
    get clamp str_lt
other_Restarts = inr (record { ids = refl; seen = refl; last_dt = refl })

ids_differ {ℓ} : {A : Type ℓ} {x y : String} → str_eq x y ≡ false → x ≡ y → A
ids_differ {x = x} {y = y} q h = let clash : true ≡ false = sym ((eq_iff x y).1 h) ∙ q in cc

samples_NoCollision : NoCollision sample_chain.events other_chain.events
unfolding append_all append empty_chain update_crdt_caches update_confidence update_status link_to
    rehash compute_hash type_to_status order of_order carries_confidence confidence_field to_float
    get clamp str_lt content
samples_NoCollision =
    ((λ h. refl, (λ h. ids_differ refl h, tt)), ((λ h. ids_differ refl h, (λ h. refl, tt)), tt))

tail_hash_binds_history_example : map content sample_chain.events ≡ map content other_chain.events
unfolding append_all append empty_chain update_crdt_caches update_confidence update_status link_to
    rehash compute_hash type_to_status order of_order carries_confidence confidence_field to_float
    get clamp str_lt content
tail_hash_binds_history_example =
    tail_hash_binds_history sample_chain other_chain (second_linked genesis approval)
      (second_linked genesis (record approval { reasoning = "y" })) sample_Restarts other_Restarts
      sample_no_archive other_no_archive sample_valid other_valid samples_NoCollision refl refl refl

nameless_IsFresh : IsFresh nameless_chain
unfolding append_all append empty_chain update_crdt_caches update_confidence update_status link_to
    rehash compute_hash type_to_status order of_order carries_confidence confidence_field to_float
    get clamp str_lt
nameless_IsFresh = record { ids = refl; seen = refl; last_dt = refl }

second_verification_passes_example :
    ((verify_integrity nameless_chain).0 ≡ invalid)
    × ((verify_integrity nameless_chain).1.events ≡ nameless_chain.events)
    × ((verify_integrity (verify_integrity nameless_chain).1).0 ≡ valid)
unfolding append_all append empty_chain update_crdt_caches update_confidence update_status link_to
    rehash compute_hash type_to_status order of_order carries_confidence confidence_field to_float
    get clamp str_lt is_action eal_required_payload_fields eal_proof_required is_text all_filled
    challenge_payload_well_formed proof_present match_is replay_fields replay_confirms
    replay_mismatch verdict_consistent verdict_axiom has_previous content_axioms
    axioms_before_verdict is_archive has_archive points_to link_axioms goes_back prefix_match
    keeps_prefix start_index event_before anchored verify_from initial_progress finish verify_prefix
    contains dt_lt parse_event_dt truthy has_truthy is_filled is_blank is_empty len content
second_verification_passes_example =
    second_verification_passes nameless_chain (first_linked nameless)
      (second_linked nameless approval) [] refl nameless_IsFresh refl refl refl

report_of_valid_chain_example : well_formedness_report sample_chain ≡ ok clean_report
report_of_valid_chain_example = report_of_valid_chain sample_chain sample_Restarts sample_valid

sample_audit : (verify_all sample_engine).0 ≡ ok (("cap", true) ∷ [])
unfolding verify_all verify_chains
sample_audit = rw (sample_valid, verify_chains) refl

sample_held : lookup "cap" sample_engine.chains ≡ some sample_chain
unfolding lookup
sample_held = refl
