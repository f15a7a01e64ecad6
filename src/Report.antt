-- ===== src/Report.antt =====
-- `EventChain.well_formedness_report` (adl_lite/models.py): the second implementation of the axioms,
-- one list of event ids for each. Axioms 1 to 4 have constant empty lists there, and axioms 8 and 12
-- hold by the types of the model.
pub mod Agreement
use Prim.Native.Nat.{zero, suc}
use adl_lite.Prelude.{
  ℕ, String, Bool, true, false, ◌&&◌, not, Option, none, some, List, [], ◌∷◌, ◌++◌, ltb, ◌==◌,
  if◌then◌else◌,
}
use adl_lite.Prelude.Dict.{contains}
use adl_lite.Prelude.Text.{is_blank, is_empty, len}
use adl_lite.Prelude.Result.{Result, ok, err, ◌>>=◌, type_error}
use adl_lite.Payload.{has_truthy}
use adl_lite.Event.{DateTime, Platform, Event, parse_event_dt}
use adl_lite.Chain.{EventChain}
use adl_lite.Chain.Axioms.{
  is_action, eal_required_payload_fields, eal_proof_required, all_filled, proof_present,
  verdict_axiom, has_previous,
}
use adl_lite.Chain.Verify.{goes_back}

-- `[e.event_id for e in events if test(e)]`
unfoldable pub ids_where : (Event → Bool) → List Event → List String
ids_where test [] = []
ids_where test (e ∷ es) = let rest = ids_where test es in if test e then e.event_id ∷ rest else rest

-- `_check_wf5_distinct_event_ids`, from the ids seen so far.
unfoldable pub repeated_ids : List String → List Event → List String
repeated_ids seen [] = []
repeated_ids seen (e ∷ es) =
    let rest = repeated_ids (e.event_id ∷ seen) es in
    if contains e.event_id seen then e.event_id ∷ rest else rest

-- `_check_wf6_non_empty_actor`
unfoldable pub lacks_actor : Event → Bool
lacks_actor e = is_blank e.actor

-- `_check_wf9_action_preconditions`
unfoldable pub lacks_action : Event → Bool
lacks_action e = if is_action e.event_type then not (has_truthy "action" e.payload) else false

-- `_check_wf10_hash_algorithm`
unfoldable pub has_short_hash : Event → Bool
has_short_hash e = if is_empty e.hash then false else not (len e.hash == 64)

-- `_check_wf11_canonical_fields`, from position `i` on.
unfoldable pub unlinked_ids : ℕ → List Event → List String
unfolding has_previous
unlinked_ids i [] = []
unlinked_ids i (e ∷ es) =
    (if has_previous i e.previous_event_id then [] else e.event_id ∷ [])
    ++ (if ltb 0 i && is_empty e.hash then e.event_id ∷ [] else [])
    ++ unlinked_ids (suc i) es

-- `_check_wf13_evidence_schema`
unfoldable pub lacks_evidence_fields : Event → Bool
lacks_evidence_fields e = not (all_filled (eal_required_payload_fields e.event_type) e.payload)

-- `_check_wf14_proof_presence`
unfoldable pub lacks_proof : Event → Bool
lacks_proof e = if eal_proof_required e.event_type then not (proof_present e.proof) else false

-- `_check_wf15_verdict_consistency`. For a CHALLENGE event whose phase is a list or a dict the code
-- raises `TypeError`; here the event is named.
unfoldable pub has_bad_verdict : Event → Bool
has_bad_verdict e = not (verdict_axiom e.event_type e.payload)

pub record WellFormednessReport : Type 0 where
  pub distinct_event_ids : List String
  pub non_empty_actor : List String
  pub timestamp_monotonicity : List String
  pub action_preconditions : List String
  pub hash_algorithm : List String
  pub canonical_fields : List String
  pub evidence_schema : List String
  pub proof_presence : List String
  pub verdict_consistency : List String

module _ ⦃p : Platform⦄ where
  -- `_check_wf7_timestamp_monotonicity`, behind a timestamp.
  unfoldable pub earlier_ids : Option DateTime → List Event → Result (List String)
  earlier_ids prev [] = ok []
  earlier_ids prev (e ∷ es) =
      let ts = parse_event_dt e.timestamp in
      let rest = earlier_ids (some ts) es in
      elim (goes_back prev ts) [
        | none ↦ err type_error
        | some b ↦ (do ids ← rest; ok (if b then e.event_id ∷ ids else ids))
      ]

  -- `well_formedness_report`
  unfoldable pub well_formedness_report : EventChain → Result WellFormednessReport
  unfolding earlier_ids repeated_ids unlinked_ids ids_where
  well_formedness_report c = do
    earlier ← earlier_ids none c.events
    ok (record {
      distinct_event_ids = repeated_ids [] c.events;
      non_empty_actor = ids_where lacks_actor c.events;
      timestamp_monotonicity = earlier;
      action_preconditions = ids_where lacks_action c.events;
      hash_algorithm = ids_where has_short_hash c.events;
      canonical_fields = unlinked_ids 0 c.events;
      evidence_schema = ids_where lacks_evidence_fields c.events;
      proof_presence = ids_where lacks_proof c.events;
      verdict_consistency = ids_where has_bad_verdict c.events;
    })
