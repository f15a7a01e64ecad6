-- ===== src/Challenge.antt =====
-- The commit-reveal protocol: `ChallengeState` and `ChallengeManager` (adl_lite/challenge.py).
-- Instants are counted in nanoseconds since `datetime.min`, and windows in nanoseconds. `str` of a number, a list or a dict and SHA-256
-- as a hex text are parameters.
pub mod Manager
pub mod Protocol
pub mod Phases
pub mod Replay
use Prim.Native.String.{◌++◌ as ◌++ˢ◌}
use adl_lite.Prelude.{
  ℕ, ◌+◌, String, Bool, true, false, Option, none, some, List, [], ◌∷◌, ◌++◌, str_eq, ltb, is_some,
  ◌⊎◌, inl, inr, if◌then◌else◌,
}
use adl_lite.Prelude.Int.{ℤ, pos, negsuc}
use adl_lite.Prelude.Dict.{Dict, lookup, insert}
use adl_lite.Prelude.Result.{Result, ok, err, ◌>>=◌, assertion_error, overflow_error}
use adl_lite.Payload.{Value, null, bool, num, text, arr, obj, Fields, get, truthy, round_units}
use adl_lite.Event.{EventType, challenge, DateTime, aware, naive, Platform, Event, to_float}
use adl_lite.Chain.{EventChain}
use adl_lite.Chain.Axioms.{is_text}

pub data Phase : Type 0 where
  opened revealed answered timed_out void : Phase

pub data VoidReason : Type 0 where
  seed_commitment_mismatch reveal_after_deadline : VoidReason

pub record ChallengeState : Type 0 where
  pub challenge_id : String
  pub concept_id : String
  pub challenger : String
  pub commitment : String
  pub reveal_deadline : ℕ
  pub response_window : ℕ
  pub opened_at : ℕ
  pub target_executor : Option Value
  pub phase : Phase
  pub seed : Option String
  pub revealed_at : Option ℕ
  pub answer_actor : Option String
  pub answered_at : Option ℕ
  pub output_commitment : Option String
  pub void_reason : Option VoidReason

-- The texts of the list `issues`, without the ids in them.
pub data Issue : Type 0 where
  unknown_phase duplicate_open bad_deadline bad_window non_positive_window : Issue
  reveal_before_open duplicate_reveal reveal_by_non_challenger : Issue
  seed_mismatch late_reveal : Issue
  answer_before_open answer_out_of_phase late_answer answer_by_non_target : Issue

pub record ChallengeManager : Type 0 where
  pub challenges : Dict ChallengeState
  pub issues : List Issue
  pub max_seen : Option ℕ

-- `ChallengeManager()`
unfoldable pub new_manager : ChallengeManager
new_manager = record { challenges = []; issues = []; max_seen = none }

-- The instant of a datetime; one without a zone is read as UTC.
unfoldable pub instant_of : DateTime → ℕ
instant_of (aware n) = n
instant_of (naive n) = n

unfoldable pub is_bool : Value → Bool
is_bool (bool _) = true
is_bool _ = false

unfoldable pub add_issue : Issue → ChallengeManager → ChallengeManager
add_issue i m = record m { issues = m.issues ++ i ∷ [] }

unfoldable pub set_state : String → ChallengeState → ChallengeManager → ChallengeManager
set_state cid st m = record m { challenges = insert cid st m.challenges }

-- `a or b` for an instant that may be missing.
unfoldable pub instant_or : Option ℕ → ℕ → ℕ
instant_or none d = d
instant_or (some n) d = n

-- `payload.get("target_executor") or None`
unfoldable pub truthy_or_none : Option Value → Option Value
truthy_or_none none = none
truthy_or_none (some v) = if truthy v then some v else none

-- `datetime.max`, in UTC; that of another zone differs by less than a day.
abbrev max_instant : ℕ
max_instant = 315537897599999999000

-- The end of the window for an answer to a reveal, or `none` where the sum is later than every
-- datetime, for which the code raises `OverflowError`.
unfoldable pub response_deadline : ℕ → ChallengeState → Option ℕ
response_deadline revealed_at st =
    let deadline = revealed_at + round_units st.response_window in
    if ltb max_instant deadline then none else some deadline

-- `state.target_executor is not None and event.actor != state.target_executor`
unfoldable pub is_other_target : String → Option Value → Bool
unfolding is_text
is_other_target actor none = false
is_other_target actor (some v) = if is_text actor (some v) then false else true

-- What `_apply_reveal` and `_apply_answer` write back.
unfoldable pub store : String → Option Issue × ChallengeState → ChallengeManager → ChallengeManager
store cid (none, st) m = set_state cid st m
store cid (some i, st) m = add_issue i (set_state cid st m)

-- The newest timestamp seen.
unfoldable pub see : Option ℕ → ChallengeManager → ChallengeManager
see none m = m
see (some t) m = elim m.max_seen [
  | none ↦ record m { max_seen = some t }
  | some n ↦ if ltb n t then record m { max_seen = some t } else m
]

unfoldable pub is_challenge : EventType → Bool
is_challenge challenge = true
is_challenge _ = false

module _ ⦃p : Platform⦄ (show : Value → String) (sha256_hex : String → String) where
  -- `seed_commitment`
  unfoldable pub seed_commitment : String → String
  seed_commitment seed = "sha256:" ++ˢ sha256_hex seed

  -- `str(value)`
  unfoldable pub str_of : Value → String
  str_of null = "None"
  str_of (bool true) = "True"
  str_of (bool false) = "False"
  str_of (text s) = s
  str_of (num n) = show (num n)
  str_of (arr xs) = show (arr xs)
  str_of (obj fs) = show (obj fs)

  -- `str(payload.get(key, ""))`
  unfoldable pub str_field : String → Fields → String
  unfolding str_of
  str_field k fs = elim (get k fs) [ none ↦ "" | some v ↦ str_of v ]

  -- `_parse_dt` of a text.
  unfoldable pub parse_text : String → Option ℕ
  parse_text s = elim (p.fromisoformat s) [ none ↦ none | some dt ↦ some (instant_of dt) ]

  -- `_parse_dt` of a payload's value.
  unfoldable pub parse_dt : Option Value → Option ℕ
  unfolding parse_text
  parse_dt none = none
  parse_dt (some (text s)) = parse_text s
  parse_dt (some _) = none

  -- The window of an open event, or the issue that it raises.
  unfoldable pub parse_window : Option Value → Issue ⊎ ℕ
  parse_window none = inl bad_window
  parse_window (some v) = if is_bool v then inl bad_window else elim (to_float v) [
    | err _ ↦ inl bad_window
    | ok n ↦ (elim n [
      | pos m ↦ if ltb 0 m then inr m else inl non_positive_window
      | negsuc _ ↦ inl non_positive_window
    ])
  ]

  -- `_apply_reveal` on a state in phase open.
  unfoldable pub reveal : Event → Option ℕ → ChallengeState → Option Issue × ChallengeState
  unfolding str_field seed_commitment
  reveal e event_dt st =
      let revealed_seed = str_field "seed" e.payload in
      let reveal_dt = instant_or event_dt st.reveal_deadline in
      if str_eq e.actor st.challenger
      then (if str_eq (seed_commitment revealed_seed) st.commitment
          then (if ltb st.reveal_deadline reveal_dt
              then (
                some late_reveal,
                record st { phase = void; void_reason = some reveal_after_deadline },
              )
              else (
                none,
                record st {
                  phase = revealed;
                  seed = some revealed_seed;
                  revealed_at = some reveal_dt;
                },
              ))
          else (
            some seed_mismatch,
            record st { phase = void; void_reason = some seed_commitment_mismatch },
          ))
      else (some reveal_by_non_challenger, st)

  -- `_apply_answer` on a state in phase revealed.
  unfoldable pub answer : Event → Option ℕ → ChallengeState → Result (Option Issue × ChallengeState)
  unfolding str_field
  answer e event_dt st = elim st.revealed_at [
    | none ↦ err assertion_error
    | some at ↦
        (let answer_dt = instant_or event_dt at in
          elim (response_deadline at st) [
            | none ↦ err overflow_error
            | some deadline ↦
                if ltb deadline answer_dt
                then ok (some late_answer, record st { phase = timed_out })
                else if is_other_target e.actor st.target_executor
                then ok (some answer_by_non_target, st)
                else ok (
                  none,
                  record st {
                    phase = answered;
                    answer_actor = some e.actor;
                    answered_at = some answer_dt;
                    output_commitment = some (str_field "output_commitment" e.payload);
                  },
                )
          ])
  ]
