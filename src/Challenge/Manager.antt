-- ===== src/Challenge/Manager.antt =====
-- `ChallengeManager` (adl_lite/challenge.py): the events that it applies, and the derived phases.
use adl_lite.Prelude.{
  ℕ, String, Option, none, some, List, [], ◌∷◌, ltb, is_some, inl, inr, if◌then◌else◌,
}
use adl_lite.Prelude.Dict.{lookup}
use adl_lite.Prelude.Result.{Result, ok, err, assertion_error, key_error, overflow_error}
use adl_lite.Payload.{Value, get}
use adl_lite.Event.{Platform, Event}
use adl_lite.Chain.{EventChain}
use adl_lite.Chain.Axioms.{is_text}
use adl_lite.Challenge.{
  Phase, opened, revealed, answered, timed_out, void, ChallengeState, ChallengeManager,
  duplicate_open, bad_deadline, reveal_before_open, duplicate_reveal, answer_before_open,
  answer_out_of_phase, unknown_phase, new_manager, add_issue, set_state, instant_or, truthy_or_none,
  response_deadline, store, see, is_challenge, str_field, parse_text, parse_dt, parse_window,
  reveal, answer,
}

module _ ⦃p : Platform⦄ (show : Value → String) (sha256_hex : String → String) where
  -- `_apply_open`
  unfoldable pub apply_open : Event → String → Option ℕ → ChallengeManager → ChallengeManager
  unfolding parse_dt parse_window str_field
  apply_open e cid event_dt m =
      if is_some (lookup cid m.challenges)
      then add_issue duplicate_open m
      else elim (parse_dt show sha256_hex (get "reveal_deadline" e.payload)) [
        | none ↦ add_issue bad_deadline m
        | some deadline ↦ (elim (parse_window show sha256_hex (get "response_window_s" e.payload)) [
          | inl issue ↦ add_issue issue m
          | inr window ↦
              set_state cid
                (record {
                  challenge_id = cid;
                  concept_id = e.concept_id;
                  challenger = e.actor;
                  commitment = str_field show sha256_hex "seed_commitment" e.payload;
                  reveal_deadline = deadline;
                  response_window = window;
                  opened_at = instant_or event_dt deadline;
                  target_executor = truthy_or_none (get "target_executor" e.payload);
                  phase = opened;
                  seed = none;
                  revealed_at = none;
                  answer_actor = none;
                  answered_at = none;
                  output_commitment = none;
                  void_reason = none;
                })
                m
        ])
      ]

  unfoldable pub apply_reveal : Event → String → Option ℕ → ChallengeManager → ChallengeManager
  unfolding reveal store
  apply_reveal e cid event_dt m = elim (lookup cid m.challenges) [
    | none ↦ add_issue reveal_before_open m
    | some st ↦ (elim st.phase [
      | opened ↦ store cid (reveal show sha256_hex e event_dt st) m
      | _ ↦ add_issue duplicate_reveal m
    ])
  ]

  unfoldable pub apply_answer :
      Event → String → Option ℕ → ChallengeManager → Result (Unit {0}) × ChallengeManager
  unfolding answer store
  apply_answer e cid event_dt m = elim (lookup cid m.challenges) [
    | none ↦ (ok tt, add_issue answer_before_open m)
    | some st ↦ (elim st.phase [
      | answered ↦ (ok tt, m)
      | revealed ↦ (elim (answer show sha256_hex e event_dt st) [
        | err x ↦ (err x, m)
        | ok r ↦ (ok tt, store cid r m)
      ])
      | _ ↦ (ok tt, add_issue answer_out_of_phase m)
    ])
  ]

  -- `apply`
  unfoldable pub apply : Event → ChallengeManager → Result (Unit {0}) × ChallengeManager
  unfolding parse_text str_field is_challenge
  apply e m =
      let event_dt = parse_text show sha256_hex e.timestamp in
      let cid = str_field show sha256_hex "challenge_id" e.payload in
      let phase = get "phase" e.payload in
      let seen = see event_dt m in
      if is_challenge e.event_type
      then (if is_text "open" phase
          then (ok tt, apply_open e cid event_dt seen)
          else if is_text "reveal" phase
          then (ok tt, apply_reveal e cid event_dt seen)
          else if is_text "answer" phase
          then apply_answer e cid event_dt seen
          else (ok tt, add_issue unknown_phase seen))
      else (ok tt, m)

  -- The loop of `apply_chain`.
  unfoldable pub apply_all : List Event → ChallengeManager → Result (Unit {0}) × ChallengeManager
  unfolding apply
  apply_all [] m = (ok tt, m)
  apply_all (e ∷ es) m =
      let (r, m') = apply e m in
      let rest = apply_all es m' in elim r [ err x ↦ (err x, m') | ok _ ↦ rest ]

  -- `apply_chain`
  unfoldable pub apply_chain : EventChain → ChallengeManager → Result (Unit {0}) × ChallengeManager
  unfolding apply_all
  apply_chain chain m = apply_all chain.events new_manager

-- The derived phase of a state at an instant. An open or revealed challenge can have lapsed.
unfoldable pub phase_at : ℕ → ChallengeState → Result Phase
phase_at now st = elim st.phase [
  | answered ↦ ok answered
  | timed_out ↦ ok timed_out
  | void ↦ ok void
  | opened ↦ if ltb st.reveal_deadline now then ok void else ok opened
  | revealed ↦ (elim st.revealed_at [
    | none ↦ err assertion_error
    | some at ↦ (elim (response_deadline at st) [
      | none ↦ err overflow_error
      | some deadline ↦ if ltb deadline now then ok timed_out else ok revealed
    ])
  ])
]

-- `derived_phase`; `clock` is the wall clock, which is read if nothing else gives the time.
unfoldable pub derived_phase : ℕ → String → Option ℕ → ChallengeManager → Result Phase
unfolding phase_at
derived_phase clock cid as_of m = elim (lookup cid m.challenges) [
  | none ↦ err key_error
  | some st ↦ phase_at (instant_or as_of (instant_or m.max_seen clock)) st
]
