-- ===== src/Crdt.antt =====
-- `CRDTState` (adl_lite/crdt.py): the derived state of a capability, its merge and its update.
pub mod Lattice
pub mod Update
use adl_lite.Prelude.{
  ℕ, ◌+◌, ◌≤◌, Bool, true, false, ◌||◌, List, [], ◌∷◌, ltb, leb, ◌==◌, if◌then◌else◌,
}
use adl_lite.Prelude.Int.{ℤ, pos, ◌≤ℤ◌, leb_ℤ, max_ℤ}
use adl_lite.Prelude.Result.{Result, ok, err, assertion_error, ◌>>=◌}
use adl_lite.Payload.{Fields}
use adl_lite.Event.{
  EventType, Platform, Event, validate, deprecate, fork, archive, evidence, confidence_field,
}

pub data StatusOrder : Type 0 where
  provisional forked validated deprecated archived : StatusOrder

unfoldable pub value : StatusOrder → ℕ
value provisional = 1
value forked = 2
value validated = 3
value deprecated = 4
value archived = 5

pub record CrdtState : Type 0 where
  pub status : StatusOrder
  pub confidence : ℤ
  pub validator_count : ℕ
  pub evidence_count : ℕ

-- `CRDTState()`
unfoldable pub initial : CrdtState
initial = record {
  status = provisional;
  confidence = pos 0;
  validator_count = 0;
  evidence_count = 0;
}

-- Python's `max(a, b)`: the first, where neither is larger.
unfoldable pub max_status : StatusOrder → StatusOrder → StatusOrder
max_status a b = if ltb (value a) (value b) then b else a

unfoldable pub max_count : ℕ → ℕ → ℕ
max_count a b = if ltb a b then b else a

unfoldable pub merge : CrdtState → CrdtState → CrdtState
unfolding max_status max_count
merge a b = record {
  status = max_status a.status b.status;
  confidence = max_ℤ a.confidence b.confidence;
  validator_count = max_count a.validator_count b.validator_count;
  evidence_count = max_count a.evidence_count b.evidence_count;
}

-- The status after an event, in `apply_event`.
unfoldable pub next_status : StatusOrder → EventType → StatusOrder
next_status provisional validate = validated
next_status forked validate = validated
next_status s deprecate = deprecated
next_status provisional fork = forked
next_status s archive = archived
next_status s _ = s

unfoldable pub counts_validator : EventType → ℕ
counts_validator validate = 1
counts_validator _ = 0

unfoldable pub counts_evidence : EventType → ℕ
counts_evidence evidence = 1
counts_evidence _ = 0

-- The four assertions at the end of `apply_event`.
unfoldable pub has_grown : CrdtState → CrdtState → Bool
has_grown s t =
    if leb (value s.status) (value t.status)
    then (if leb_ℤ s.confidence t.confidence
        then (if leb s.validator_count t.validator_count
            then leb s.evidence_count t.evidence_count
            else false)
        else false)
    else false

-- The state that `apply_event` builds.
unfoldable pub updated : CrdtState → EventType → ℤ → CrdtState
updated s et c = record {
  status = next_status s.status et;
  confidence = max_ℤ s.confidence c;
  validator_count = s.validator_count + counts_validator et;
  evidence_count = s.evidence_count + counts_evidence et;
}

module _ ⦃p : Platform⦄ where
  unfoldable pub apply_event : CrdtState → EventType → Fields → Result CrdtState
  apply_event s et payload = do
    c ← confidence_field payload
    if has_grown s (updated s et c) then ok (updated s et c) else err assertion_error

  -- The loop of `from_chain`.
  unfoldable pub apply_events : CrdtState → List Event → Result CrdtState
  apply_events s [] = ok s
  apply_events s (e ∷ es) = do t ← apply_event s e.event_type e.payload; apply_events t es

  unfoldable pub from_chain : List Event → Result CrdtState
  unfolding initial
  from_chain es = apply_events initial es
