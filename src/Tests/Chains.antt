-- ===== src/Tests/Chains.antt =====
-- Tests of `EventChain` and `CRDTState` (adl_lite/models.py, adl_lite/crdt.py).
use adl_lite.Prelude.{ℕ, ◌≤◌, ◌≡◌, refl, true, ◌⊎◌, All, arith, str_eq}
use adl_lite.Prelude.Result.{ok, err, value_error}
use adl_lite.Event.{
  provisional, order, one, confidence_field, to_float, rehash, compute_hash, type_to_status,
  of_order, clamp,
}
use adl_lite.Payload.{get}
use adl_lite.Chain.{
  empty_chain, append, append_all, status, confidence, compute_confidence_from_events,
  carries_confidence, link_to, update_crdt_caches, update_confidence, update_status,
}
use adl_lite.Chain.Lattice.{AtMost, Attains, status_is_lub}
use adl_lite.Chain.Confidence.{confidence_is_max, confidence_never_falls}
use adl_lite.Tests.Samples.{sample_platform, sample_chain, drafts, bad_approval}

status_is_lub_example :
    let c = (append_all drafts (empty_chain "cap")).1 in
    All (AtMost (order (status c))) c.events
    × ((status c ≡ provisional) ⊎ Attains (status c) c.events)
status_is_lub_example = status_is_lub "cap" drafts

appends_return : (append_all drafts (empty_chain "cap")).0 ≡ ok tt
unfolding append_all append empty_chain update_crdt_caches update_confidence update_status link_to
    rehash compute_hash type_to_status order of_order carries_confidence confidence_field to_float
    get clamp
appends_return = refl

confidence_is_max_example :
    let c = (append_all drafts (empty_chain "cap")).1 in
    (n : ℕ) × (confidence c ≡ ok n) × (compute_confidence_from_events c.events ≡ ok n) × (n ≤ one)
confidence_is_max_example = confidence_is_max "cap" drafts appends_return

sample_id : str_eq "cap" sample_chain.concept_id ≡ true
unfolding append_all append empty_chain update_crdt_caches update_confidence update_status link_to
    rehash compute_hash type_to_status order of_order carries_confidence confidence_field to_float
    get clamp
sample_id = refl

sample_bound : sample_chain.cached_confidence ≤ one
unfolding append_all append empty_chain update_crdt_caches update_confidence update_status link_to
    rehash compute_hash type_to_status order of_order carries_confidence confidence_field to_float
    get clamp
sample_bound = omega arith

text_is_no_number : confidence_field bad_approval.payload ≡ err value_error
unfolding confidence_field to_float get
text_is_no_number = refl

confidence_never_falls_example :
    (sample_chain.cached_confidence ≤ (append bad_approval sample_chain).1.cached_confidence)
    × ((append bad_approval sample_chain).1.cached_confidence ≤ one)
confidence_never_falls_example = confidence_never_falls bad_approval sample_chain sample_bound
