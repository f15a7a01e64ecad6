-- ===== src/Tests/Crdts.antt =====
-- Tests of `CRDTState` (adl_lite/crdt.py).
use adl_lite.Prelude.{◌≡◌, refl, ◌⊎◌, arith}
use adl_lite.Prelude.Int.{pos}
use adl_lite.Prelude.Result.{ok, err, assertion_error}
use adl_lite.Payload.{end, get}
use adl_lite.Event.{deprecate, order, confidence_field, to_float}
use adl_lite.Chain.{compute_status_from_events}
use adl_lite.Crdt.{
  CrdtState, archived, validated, provisional, value, merge, initial, apply_event, apply_events,
  from_chain, updated, has_grown, next_status, counts_validator, counts_evidence,
}
use adl_lite.Crdt.Lattice.{IsBelow, merge_is_lub}
use adl_lite.Crdt.Update.{apply_event_outcome, from_chain_status}
use adl_lite.Tests.Samples.{sample_platform, drafts}

abbrev low : CrdtState
low = record { status = provisional; confidence = pos 3; validator_count = 2; evidence_count = 7 }

abbrev high : CrdtState
high = record { status = validated; confidence = pos 8; validator_count = 3; evidence_count = 5 }

abbrev top : CrdtState
top = record { status = archived; confidence = pos 9; validator_count = 4; evidence_count = 8 }

merge_is_lub_example :
    IsBelow low (merge low high) × IsBelow high (merge low high) × IsBelow (merge low high) top
unfolding value
merge_is_lub_example = merge_is_lub low high top (omega arith) (omega arith)

no_confidence : confidence_field end ≡ ok (pos 0)
unfolding confidence_field get
no_confidence = refl

apply_event_outcome_example :
    ((archived ≡ archived)
      × (deprecate ≡ deprecate)
      × (apply_event top deprecate end ≡ err assertion_error))
    ⊎ ((t : CrdtState) × (apply_event top deprecate end ≡ ok t) × IsBelow top t)
apply_event_outcome_example = apply_event_outcome top deprecate end (pos 0) no_confidence

drafts_fold : (t : CrdtState) × (from_chain drafts ≡ ok t)
unfolding from_chain apply_events apply_event initial confidence_field to_float get updated
    has_grown next_status counts_validator counts_evidence value
drafts_fold = (_, refl)

from_chain_status_example : value drafts_fold.0.status ≡ order (compute_status_from_events drafts)
from_chain_status_example = from_chain_status drafts drafts_fold.0 drafts_fold.1
