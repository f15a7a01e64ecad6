-- ===== src/Challenge/Protocol.antt =====
-- What the phase of a `ChallengeState` (adl_lite/challenge.py) stands for, and that every event
-- keeps it.
use adl_lite.Prelude.{
  ℕ, ◌≤◌, String, ◌≡◌, refl, sym, subst, true, false, Option, none, some, str_eq, eq_iff, ltb,
  is_some, inl, inr, arith, Bool-cases, Option-cases, ◌⊎◌,
}
use adl_lite.Prelude.Result.{ok, err, overflow_error}
use adl_lite.Payload.{Value}
use adl_lite.Event.{Platform, Event}
use adl_lite.Challenge.{
  Phase, opened, revealed, answered, timed_out, void, ChallengeState, Issue, seed_commitment,
  response_deadline, is_other_target, instant_or, str_field, reveal, answer, late_answer,
  answer_by_non_target,
}

module _ ⦃p : Platform⦄ (show : Value → String) (sha256_hex : String → String) where
  -- The seed was revealed in time and is the one committed to.
  pub record IsRevealed (st : ChallengeState) (s : String) (at : ℕ) : Type 0 where
    pub seed_eq : st.seed ≡ some s
    pub committed : seed_commitment show sha256_hex s ≡ st.commitment
    pub revealed_eq : st.revealed_at ≡ some at
    pub in_time : at ≤ st.reveal_deadline

  -- The answer came within the window, and from the target, if there is one.
  pub record IsAnswered (st : ChallengeState) (at : ℕ) : Type 0 where
    pub actor : String
    pub actor_eq : st.answer_actor ≡ some actor
    pub from_target : is_other_target actor st.target_executor ≡ false
    pub time : ℕ
    pub answered_eq : st.answered_at ≡ some time
    pub deadline : ℕ
    pub deadline_eq : response_deadline at st ≡ some deadline
    pub in_window : time ≤ deadline

  -- A revealed challenge whose window ends later than every datetime.
  abbrev pub IsOverlong : ChallengeState → Type 0
  IsOverlong st =
      (st.phase ≡ revealed)
      × ((at : ℕ) × (st.revealed_at ≡ some at) × (response_deadline at st ≡ none))

  abbrev pub FitsPhase : Phase → ChallengeState → Type 0
  FitsPhase opened st = (st.seed ≡ none) × (st.revealed_at ≡ none)
  FitsPhase revealed st = (s : String) × (at : ℕ) × IsRevealed st s at
  FitsPhase answered st = (s : String) × (at : ℕ) × IsRevealed st s at × IsAnswered st at
  FitsPhase timed_out st = (s : String) × (at : ℕ) × IsRevealed st s at
  FitsPhase void st = is_some st.void_reason ≡ true

  abbrev pub IsSound : ChallengeState → Type 0
  IsSound st = FitsPhase st.phase st

  pub reveal-IsSound :
      (e : Event) (t : Option ℕ) (st : ChallengeState)
      → FitsPhase opened st
      → st.phase ≡ opened
      → IsSound (reveal show sha256_hex e t st).1
  unfolding reveal
  reveal-IsSound e t st h q = elim (Bool-cases (str_eq e.actor st.challenger)) [
    | inr other ↦ rw (other, reveal) (rw q h)
    | inl same ↦
        (elim (Bool-cases (
          str_eq (seed_commitment show sha256_hex (str_field show sha256_hex "seed" e.payload))
            st.commitment)) [
              | inr wrong ↦ rw (same, wrong, reveal) refl
              | inl right ↦
                  (elim (Bool-cases (ltb st.reveal_deadline (instant_or t st.reveal_deadline))) [
                    | inl late ↦ rw (same, right, late, reveal) refl
                    | inr early ↦
                        rw (same, right, early, reveal)
                          (
                            _,
                            _,
                            record {
                              seed_eq = refl;
                              committed = (eq_iff _ _).0 right;
                              revealed_eq = refl;
                              in_time = ground (arith, early);
                            },
                          )
                  ])
            ])
  ]

  answer_in_time :
      (e : Event) (t : Option ℕ) (st : ChallengeState) (s : String) (at deadline : ℕ)
      → IsRevealed st s at
      → response_deadline at st ≡ some deadline
      → st.phase ≡ revealed
      → (r : Option Issue × ChallengeState) × (answer show sha256_hex e t st ≡ ok r) × IsSound r.1
  unfolding answer response_deadline
  answer_in_time e t st s at deadline h ends q =
      elim (Bool-cases (ltb deadline (instant_or t at))) [
        | inl late ↦ (
          (some late_answer, record st { phase = timed_out }),
          ground (arith, h.revealed_eq, ends, late),
          (
            s,
            at,
            record {
              seed_eq = h.seed_eq;
              committed = h.committed;
              revealed_eq = h.revealed_eq;
              in_time = h.in_time;
            },
          ),
        )
        | inr early ↦ (elim (Bool-cases (is_other_target e.actor st.target_executor)) [
          | inl other ↦ (
            (some answer_by_non_target, st),
            ground (arith, h.revealed_eq, ends, early, other),
            subst (λ ph. FitsPhase ph st) (sym q) (s, at, h),
          )
          | inr fit ↦ (
            (
              none,
              record st {
                phase = answered;
                answer_actor = some e.actor;
                answered_at = some (instant_or t at);
                output_commitment = some (str_field show sha256_hex "output_commitment" e.payload);
              },
            ),
            ground (arith, h.revealed_eq, ends, early, fit),
            (
              s,
              at,
              record {
                seed_eq = h.seed_eq;
                committed = h.committed;
                revealed_eq = h.revealed_eq;
                in_time = h.in_time;
              },
              record {
                actor = e.actor;
                actor_eq = refl;
                from_target = fit;
                time = instant_or t at;
                answered_eq = refl;
                deadline = deadline;
                deadline_eq = ends;
                in_window = ground (arith, early);
              },
            ),
          )
        ])
      ]

  pub answer-IsSound :
      (e : Event) (t : Option ℕ) (st : ChallengeState)
      → FitsPhase revealed st
      → st.phase ≡ revealed
      → ((answer show sha256_hex e t st ≡ err overflow_error) × IsOverlong st)
        ⊎ ((r : Option Issue × ChallengeState) × (answer show sha256_hex e t st ≡ ok r)
            × IsSound r.1)
  unfolding answer
  answer-IsSound e t st (s, at, h) q = elim (Option-cases (response_deadline at st)) [
    | inl over ↦ inl (rw (h.revealed_eq, over, answer) refl, (q, (at, h.revealed_eq, over)))
    | inr (deadline, ends) ↦ inr (answer_in_time e t st s at deadline h ends q)
  ]
