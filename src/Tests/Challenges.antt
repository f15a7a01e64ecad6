-- ===== src/Tests/Challenges.antt =====
-- Tests of `ChallengeManager` (adl_lite/challenge.py).
use adl_lite.Prelude.{String, ◌≡◌, refl, none, some, [], ◌∷◌}
use adl_lite.Prelude.Int.{pos}
use adl_lite.Prelude.Result.{ok, err, overflow_error}
use adl_lite.Payload.{round_units, Value, Fields, end, field, text, num}
use adl_lite.Event.{challenge}
use adl_lite.Chain.{EventChain, empty_chain, append_all}
use adl_lite.Challenge.{response_deadline, ChallengeState, opened, revealed, void}
use adl_lite.Challenge.Manager.{phase_at}
use adl_lite.Tests.Samples.{sample_platform, draft}

abbrev show : Value → String
show v = "?"

abbrev same_text : String → String
same_text s = s

abbrev open_fields : Fields
open_fields = field "challenge_id" (text "q1") (
    field "phase" (text "open") (
      field "seed_commitment" (text "sha256:abc") (
        field "reveal_deadline" (text "2025")
          (field "response_window_s" (num (pos 5000000000)) end))))

abbrev reveal_fields : Fields
reveal_fields =
    field "challenge_id" (text "q1") (field "phase" (text "reveal") (field "seed" (text "abc") end))

abbrev answer_fields : Fields
answer_fields =
    field "challenge_id" (text "q1")
      (field "phase" (text "answer") (field "output_commitment" (text "out") end))

abbrev challenge_chain : EventChain
challenge_chain =
    (append_all
      (draft "c1" challenge "ann" open_fields
        ∷ draft "c2" challenge "ann" reveal_fields
        ∷ draft "c3" challenge "bob" answer_fields
        ∷ [])
      (empty_chain "cap")).1

abbrev lapsed : ChallengeState
lapsed = record {
  challenge_id = "q1";
  concept_id = "cap";
  challenger = "ann";
  commitment = "sha256:abc";
  reveal_deadline = 10;
  response_window = 5000000000;
  opened_at = 1;
  target_executor = none;
  phase = opened;
  seed = none;
  revealed_at = none;
  answer_actor = none;
  answered_at = none;
  output_commitment = none;
  void_reason = none;
}

-- A window of some 30000 years: an answer and the derived phase both raise.
abbrev overlong : ChallengeState
overlong = record lapsed {
  phase = revealed;
  revealed_at = some 10;
  response_window = 1000000000000000000000;
}

overlong_raises : phase_at 11 overlong ≡ err overflow_error
unfolding phase_at response_deadline round_units
overlong_raises = refl

void_at_eleven : phase_at 11 lapsed ≡ ok void
unfolding phase_at
void_at_eleven = refl
