-- ===== src/Consensus/Transition.antt =====
-- `ConsensusEngine.transition` (adl_lite/consensus.py) on every branch.
use adl_lite.Prelude.{
  ◌≤◌, String, ◌≡◌, refl, true, false, Option, none, some, str_eq, arith, Option-cases, inl, inr,
  ◌⊎◌, if◌then◌else◌,
}
use adl_lite.Prelude.Int.{ℤ}
use adl_lite.Prelude.Dict.{lookup, insert, lookup-insert}
use adl_lite.Prelude.Result.{Error, Result, ok, err, not_registered}
use adl_lite.Payload.{Fields}
use adl_lite.Event.{DiscoveryStatus, Platform, Event}
use adl_lite.Chain.{EventChain, append, status, validators}
use adl_lite.Ontology.{is_valid_transition, status_text}
use adl_lite.Consensus.{
  ConsensusEngine, Stamp, status_to_event_type, is_validated, prospective, effective_n_min,
  new_event, transition_guard, transition,
}

module _ ⦃p : Platform⦄ (int_of_text : String → Option ℤ) where
  -- The guards of a transition, as the documentation states them.
  pub record Permitted (c : EventChain) (to_status : DiscoveryStatus) (actor : String)
      (g : ConsensusEngine) : Type 0 where
    pub in_ontology :
        is_valid_transition g.ontology (status_text (status c)) (status_text to_status) ≡ true
    pub quorum :
        (is_validated to_status ≡ false)
        ⊎ (effective_n_min int_of_text g ≤ prospective actor (validators c))

  pub guard-Permitted :
      (c : EventChain) (to_status : DiscoveryStatus) (actor : String) (g : ConsensusEngine)
      → transition_guard int_of_text c to_status actor g ≡ none
      → Permitted c to_status actor g
  unfolding transition_guard
  guard-Permitted c to_status actor g h = record {
    in_ontology = ground arith;
    quorum = ground arith;
  }

  module _ (stamp : Stamp) (adl_id : String) (to_status : DiscoveryStatus) (actor reason : String)
      (payload : Fields) (g : ConsensusEngine) where
    -- The event that a transition appends.
    abbrev pub transition_event : Event
    transition_event = new_event stamp adl_id (status_to_event_type to_status) actor reason payload

    abbrev pub transitioned : Result Event × ConsensusEngine
    transitioned = transition int_of_text stamp adl_id to_status actor reason payload g

    pub transition_unknown : lookup adl_id g.chains ≡ none → transitioned ≡ (err not_registered, g)
    unfolding transition
    transition_unknown q = rw (q, transition) refl

    pub transition_refused :
        (c : EventChain) (x : Error)
        → lookup adl_id g.chains ≡ some c
        → transition_guard int_of_text c to_status actor g ≡ some x
        → transitioned ≡ (err x, g)
    unfolding transition
    transition_refused c x q r = rw (q, r, transition) refl

    pub transition_engine :
        (c : EventChain)
        → lookup adl_id g.chains ≡ some c
        → transition_guard int_of_text c to_status actor g ≡ none
        → transitioned.1
          ≡ record g { chains = insert adl_id (append transition_event c).1 g.chains }
    unfolding transition
    transition_engine c q r = ground arith

    pub transition_ok :
        (c : EventChain) (e : Event)
        → lookup adl_id g.chains ≡ some c
        → transition_guard int_of_text c to_status actor g ≡ none
        → transitioned.0 ≡ ok e
        → (append transition_event c).0 ≡ ok tt
    unfolding transition
    transition_ok c e q r h = ground arith

    -- A transition either raises and leaves the engine as it was, or all its guards hold: then it
    -- appends one event of its type to the chain of the capability and touches no other chain.
    pub transition_outcome :
        ((x : Error) × (transitioned ≡ (err x, g)))
        ⊎ ((c : EventChain) × (lookup adl_id g.chains ≡ some c)
            × Permitted c to_status actor g
            × ((j : String)
                → lookup j transitioned.1.chains ≡ (
                    if str_eq adl_id j
                    then some (append transition_event c).1
                    else lookup j g.chains)))
    transition_outcome = elim (Option-cases (lookup adl_id g.chains)) [
      | inl q ↦ inl (not_registered, transition_unknown q)
      | inr (c, q) ↦ (elim (Option-cases (transition_guard int_of_text c to_status actor g)) [
        | inr (x, r) ↦ inl (x, transition_refused c x q r)
        | inl r ↦ inr (
          c,
          q,
          guard-Permitted c to_status actor g r,
          λ j.
              rw (transition_engine c q r)
                (lookup-insert adl_id j (append transition_event c).1 g.chains),
        )
      ])
    ]
