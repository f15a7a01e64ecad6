-- ===== src/Challenge/Replay.antt =====
-- The replay of a chain by `ChallengeManager` (adl_lite/challenge.py).
use adl_lite.Prelude.{
  ℕ, String, ◌≡◌, ◌≢◌, subst, Option, some, [], ◌∷◌, All, str_eq, ◌⊎◌, inl, inr, arith, Bool-cases,
}
use adl_lite.Prelude.Dict.{Dict, lookup}
use adl_lite.Prelude.Result.{Result, ok, err, overflow_error}
use adl_lite.Payload.{Value}
use adl_lite.Event.{Platform, Event}
use adl_lite.Challenge.{
  opened, revealed, ChallengeState, ChallengeManager, duplicate_reveal, add_issue, see,
}
use adl_lite.Challenge.Manager.{apply_reveal, apply_answer}
use adl_lite.Challenge.Protocol.{IsOverlong, IsSound}

module _ ⦃p : Platform⦄ (show : Value → String) (sha256_hex : String → String) where
  -- Every state of a manager is sound.
  abbrev pub AllSound : ChallengeManager → Type 0
  AllSound m = All (λ (k : String × ChallengeState). IsSound show sha256_hex k.1) m.challenges

  pub lookup-IsSound :
      (cid : String) (st : ChallengeState) (d : Dict ChallengeState)
      → All (λ (k : String × ChallengeState). IsSound show sha256_hex k.1) d
      → lookup cid d ≡ some st
      → IsSound show sha256_hex st
  unfolding lookup
  lookup-IsSound cid st [] a h = cc
  lookup-IsSound cid st ((j, old) ∷ d) a h = elim (Bool-cases (str_eq j cid)) [
    | inl same ↦ subst (IsSound show sha256_hex) (some_injective (rw (same, lookup) at h)) a.0
    | inr other ↦ lookup-IsSound cid st d a.1 (rw (other, lookup) at h)
  ]
    where
      some_injective : {x y : ChallengeState} → some x ≡ some y → x ≡ y
      some_injective e = cc

  pub see_challenges : (t : Option ℕ) (m : ChallengeManager) → (see t m).challenges ≡ m.challenges
  unfolding see
  see_challenges t m = ground arith

  pub reveal_refused :
      (e : Event) (cid : String) (t : Option ℕ) (m : ChallengeManager) (st : ChallengeState)
      → lookup cid m.challenges ≡ some st
      → st.phase ≢ opened
      → apply_reveal show sha256_hex e cid t m ≡ add_issue duplicate_reveal m
  unfolding apply_reveal
  reveal_refused e cid t m st q h = ground (arith, q, h)

  -- An answer to a state that is not in phase revealed leaves the states, and returns.
  pub answer_ignored :
      (e : Event) (cid : String) (t : Option ℕ) (m : ChallengeManager) (st : ChallengeState)
      → lookup cid m.challenges ≡ some st
      → st.phase ≢ revealed
      → ((apply_answer show sha256_hex e cid t m).0 ≡ ok tt)
        × ((apply_answer show sha256_hex e cid t m).1.challenges ≡ m.challenges)
  unfolding apply_answer add_issue
  answer_ignored e cid t m st q h = ground (arith, q, h)

  -- An overflow, with a revealed challenge whose window ends later than every datetime.
  abbrev pub Overflows : Result (Unit {0}) × ChallengeManager → Type 0
  Overflows r =
      (r.0 ≡ err overflow_error)
      × ((cid : String) × (st : ChallengeState) × (lookup cid r.1.challenges ≡ some st)
          × IsOverlong show sha256_hex st)

  -- The outcome of an operation that returns or overflows, and leaves sound states.
  abbrev pub Keeps : Result (Unit {0}) × ChallengeManager → Type 0
  Keeps r = ((r.0 ≡ ok tt) ⊎ Overflows r) × AllSound r.1
