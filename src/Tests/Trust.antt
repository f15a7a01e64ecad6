-- ===== src/Tests/Trust.antt =====
-- Tests of `TrustValidator` (adl_lite/trust_model.py).
use adl_lite.Prelude.{ℕ, ◌≤◌, String, ◌≡◌, refl, true, false, none, List, [], ◌∷◌, All, length}
use adl_lite.Prelude.Int.{pos}
use adl_lite.Prelude.Dict.{contains, lookup, insert}
use adl_lite.Prelude.Text.{is_empty}
use adl_lite.Prelude.Result.{ok}
use adl_lite.Payload.{end}
use adl_lite.Event.{Event, register, validate}
use adl_lite.Chain.{EventChain, empty_chain, is_validate}
use adl_lite.TrustModel.{prod, ConsensusConfig, resolve, ValidationResult}
use adl_lite.TrustModel.Verdict.{TrustValidator, validate_event_chain}
use adl_lite.TrustModel.Loops.{validate_events, find_discoverer, is_discoverer}
use adl_lite.TrustModel.Soundness.{IsDistinct, Claimed, Bound, valid_chain_is_trusted}
use adl_lite.Tests.Samples.{draft}
use adl_lite.Tests.Agents.{sample_signatures}

abbrev no_base64 : List ℕ → String
no_base64 bytes = ""

-- A capability that an agent with a DID and one without have validated.
abbrev reviewed_chain : EventChain
reviewed_chain = record (empty_chain "cap") {
  events =
      draft "e1" register "ann" end
      ∷ record (draft "e2" validate "did:web:bob" end) { signature = "signed" }
      ∷ draft "e3" validate "cat" end
      ∷ [];
}

abbrev production : ConsensusConfig
production = record {
  mode = prod;
  min_distinct_validators = none;
  require_did_binding = true;
  enforce_validator_diversity = true;
  min_validator_reputation = pos 0;
  diversity_provider = none;
}

abbrev plain_validator : TrustValidator
plain_validator = record { diversity_provider = none; reputation = none }

reviewed_result :
    (r : ValidationResult) × (validate_event_chain no_base64 plain_validator reviewed_chain
        production
      ≡ ok r)
    × (r.valid ≡ true)
unfolding validate_event_chain is_validate is_empty contains lookup insert
reviewed_result = (_, refl, refl)

valid_chain_is_trusted_example :
    ((identities : List String) × ((resolve production).min_distinct_validators ≤ length identities)
      × IsDistinct identities
      × ((i : String)
          → contains i identities ≡ true
          → Claimed no_base64 i (validate_events reviewed_chain.events)))
    × All
        (λ (e : Event). is_discoverer e.actor (find_discoverer reviewed_chain.events) ≡ false)
        (validate_events reviewed_chain.events)
    × All Bound reviewed_chain.events
valid_chain_is_trusted_example =
    valid_chain_is_trusted no_base64 plain_validator reviewed_chain production reviewed_result.0
      reviewed_result.1 reviewed_result.2
