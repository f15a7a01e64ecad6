-- ===== src/Chain/Axioms.antt =====
-- The per-event axioms 6 and 8 to 15 of `_verify_prefix` (adl_lite/models.py). Axioms 8 and 12, on
-- the types of the payload and of the event type, hold by the types of the model.
use Prim.Native.Nat.{zero, suc}
use adl_lite.Prelude.{
  ℕ, String, Bool, true, false, ◌&&◌, ◌||◌, not, Option, none, some, List, [], ◌∷◌, str_eq, ◌==◌,
  all, if◌then◌else◌,
}
use adl_lite.Prelude.Text.{is_empty, len}
use adl_lite.Payload.{arr, Value, text, bool, obj, Fields, get, has_truthy, is_filled}
use adl_lite.Event.{
  EventType, Event, announce, publish, sync_dashboard, listen, execute, attest, exec_anchor,
  challenge,
}

-- The set `action_types`.
unfoldable pub is_action : EventType → Bool
is_action announce = true
is_action publish = true
is_action sync_dashboard = true
is_action listen = true
is_action _ = false

-- `_EAL_REQUIRED_PAYLOAD_FIELDS`, with no field for the other types.
unfoldable pub eal_required_payload_fields : EventType → List String
eal_required_payload_fields execute = "execution_id" ∷ "input_commitment" ∷ "output_commitment" ∷ []
eal_required_payload_fields attest = "subject_execution" ∷ "method" ∷ "verdict" ∷ []
eal_required_payload_fields exec_anchor = "log_merkle_root" ∷ []
eal_required_payload_fields challenge = "challenge_id" ∷ "phase" ∷ []
eal_required_payload_fields _ = []

-- `_EAL_PROOF_REQUIRED_TYPES`
unfoldable pub eal_proof_required : EventType → Bool
eal_proof_required execute = true
eal_proof_required attest = true
eal_proof_required challenge = true
eal_proof_required _ = false

-- `value == s`
unfoldable pub is_text : String → Option Value → Bool
is_text s none = false
is_text s (some (text t)) = str_eq t s
is_text s (some _) = false

-- Every listed field is there and not blank.
unfoldable pub all_filled : List String → Fields → Bool
all_filled names fs = all (λ name. is_filled (get name fs)) names

-- The test `phase not in _CHALLENGE_PHASES` raises `TypeError` for a list or a dict.
unfoldable pub is_unhashable : Option Value → Bool
is_unhashable none = false
is_unhashable (some (arr _)) = true
is_unhashable (some (obj _)) = true
is_unhashable (some _) = false

-- `_challenge_payload_well_formed`, where its test of the phase does not raise.
unfoldable pub challenge_payload_well_formed : Fields → Bool
unfolding is_text all_filled
challenge_payload_well_formed fs =
    let phase = get "phase" fs in
    if is_text "open" phase
    then all_filled ("seed_commitment" ∷ "reveal_deadline" ∷ "response_window_s" ∷ []) fs
    else if is_text "reveal" phase
    then all_filled ("seed" ∷ []) fs
    else if is_text "answer" phase
    then all_filled ("output_commitment" ∷ []) fs
    else false

-- `isinstance(proof, dict) and proof.get("type") and proof.get("proofValue")`
unfoldable pub proof_present : Option Fields → Bool
proof_present none = false
proof_present (some fs) = has_truthy "type" fs && has_truthy "proofValue" fs

-- `isinstance(replay, dict)` and `replay.get("match") is b`
unfoldable pub match_is : Bool → Fields → Bool
match_is b fs = elim (get "match" fs) [
  | none ↦ false
  | some v ↦ (elim v [ bool true ↦ b | bool false ↦ not b | _ ↦ false ])
]

-- The fields of `payload["replay"]`, if it is a dict.
unfoldable pub replay_fields : Option Value → Option Fields
replay_fields none = none
replay_fields (some (obj fs)) = some fs
replay_fields (some _) = none

unfoldable pub replay_confirms : Option Fields → Bool
unfolding match_is
replay_confirms none = false
replay_confirms (some fs) =
    match_is true fs && has_truthy "input_commitment" fs && has_truthy "output_commitment" fs

unfoldable pub replay_mismatch : Option Fields → Bool
unfolding match_is
replay_mismatch none = false
replay_mismatch (some fs) = match_is false fs

-- Axiom 15 for an ATTEST event.
unfoldable pub verdict_consistent : Fields → Bool
unfolding is_text replay_fields replay_confirms replay_mismatch
verdict_consistent fs =
    let verdict = get "verdict" fs in
    let replay = replay_fields (get "replay" fs) in
    if is_text "confirm" verdict || is_text "refute" verdict || is_text "inconclusive" verdict
    then ((if is_text "replay" (get "method" fs) && is_text "confirm" verdict
          then replay_confirms replay
          else true)
        && (if is_text "refute" verdict
            then has_truthy "evidence_ref" fs || replay_mismatch replay
            else true))
    else false

-- Axiom 15, by the type of the event.
unfoldable pub verdict_axiom : EventType → Fields → Bool
unfolding verdict_consistent challenge_payload_well_formed
verdict_axiom attest fs = verdict_consistent fs
verdict_axiom challenge fs = challenge_payload_well_formed fs
verdict_axiom _ fs = true

-- Axiom 11: `not event.previous_event_id` fails beyond the first event.
unfoldable pub has_previous : ℕ → Option String → Bool
has_previous zero _ = true
has_previous (suc i) none = false
has_previous (suc i) (some s) = not (is_empty s)

-- The test of axiom 15 raises.
unfoldable pub verdict_raises : EventType → Fields → Bool
unfolding is_unhashable
verdict_raises challenge fs = is_unhashable (get "phase" fs)
verdict_raises _ fs = false

-- Axioms 9 to 14 at position `i`.
unfoldable pub axioms_before_verdict : ℕ → Event → Bool
unfolding has_previous all_filled proof_present
axioms_before_verdict i e =
    (if is_action e.event_type then has_truthy "action" e.payload else true)
    && (is_empty e.hash || len e.hash == 64)
    && has_previous i e.previous_event_id
    && not (is_empty e.hash)
    && all_filled (eal_required_payload_fields e.event_type) e.payload
    && (if eal_proof_required e.event_type then proof_present e.proof else true)

-- Axioms 9 to 15 at position `i`.
unfoldable pub content_axioms : ℕ → Event → Bool
unfolding axioms_before_verdict
content_axioms i e = axioms_before_verdict i e && verdict_axiom e.event_type e.payload
