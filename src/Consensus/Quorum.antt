-- ===== src/Consensus/Quorum.antt =====
-- The validator quorum of `ConsensusEngine.transition` (adl_lite/consensus.py).
use adl_lite.Prelude.{
  ℕ, ◌≤◌, String, ◌≡◌, refl, ap, sym, ◌∙◌, true, false, Option, none, some, length, eq_refl,
  Option-cases, inl, inr, ◌⊎◌,
}
use adl_lite.Prelude.Int.{ℤ}
use adl_lite.Prelude.Dict.{lookup, lookup-insert}
use adl_lite.Prelude.Result.{ok, err}
use adl_lite.Payload.{Fields}
use adl_lite.Event.{DiscoveryStatus, validated, validate, Platform, Event, rehash}
use adl_lite.Chain.{EventChain, is_validate, append, validators}
use adl_lite.Consensus.{
  ConsensusEngine, Stamp, status_to_event_type, is_validated, prospective, effective_n_min,
  new_event, transition_guard, transition,
}
use adl_lite.Consensus.Validators.{validators-append, length-add_distinct}
use adl_lite.Consensus.Transition.{transition_refused, transition_engine, guard-Permitted}

module _ ⦃p : Platform⦄ where
  -- The event drawn for a validation keeps its fields.
  validation_event :
      (stamp : Stamp) (cid actor reason : String) (payload : Fields)
      → let e = new_event stamp cid validate actor reason payload in
        (e.concept_id ≡ cid) × (is_validate e.event_type ≡ true) × (e.actor ≡ actor)
  unfolding new_event rehash is_validate
  validation_event stamp cid actor reason payload = (refl, refl, refl)

  validators_after_validation :
      (stamp : Stamp) (c : EventChain) (actor reason : String) (payload : Fields)
      → length
          (validators (append (new_event stamp c.concept_id validate actor reason payload) c).1)
        ≡ prospective actor (validators c)
  unfolding prospective
  validators_after_validation stamp c actor reason payload =
      let e = new_event stamp c.concept_id validate actor reason payload in
      let (cid_eq, type_eq, actor_eq) = validation_event stamp c.concept_id actor reason payload in
      ap length (validators-append e c (rw cid_eq (eq_refl c.concept_id)))
      ∙ rw (type_eq, actor_eq) (length-add_distinct (validators c) actor)

at_quorum : {m n : ℕ} → (true ≡ false) ⊎ (m ≤ n) → m ≤ n
at_quorum (inl h) = cc
at_quorum (inr h) = h

module _ ⦃p : Platform⦄ (int_of_text : String → Option ℤ) where
  pub guard_of_ok :
      (stamp : Stamp) (adl_id : String) (to_status : DiscoveryStatus) (actor reason : String)
      (payload : Fields) (g : ConsensusEngine) (c : EventChain) (e : Event)
      → lookup adl_id g.chains ≡ some c
      → (transition int_of_text stamp adl_id to_status actor reason payload g).0 ≡ ok e
      → transition_guard int_of_text c to_status actor g ≡ none
  guard_of_ok stamp adl_id to_status actor reason payload g c e q h =
      elim (Option-cases (transition_guard int_of_text c to_status actor g)) [
        | inl r ↦ r
        | inr (x, r) ↦
            (let refused =
                transition_refused int_of_text stamp adl_id to_status actor reason payload g c x q
                  r in
              let clash : err x ≡ ok e = sym (ap (λ t. t.0) refused) ∙ h in cc)
      ]

  -- A transition to VALIDATED that returns leaves the capability with at least the effective
  -- minimum of distinct validators.
  pub validation_has_quorum :
      (stamp : Stamp) (actor reason : String) (payload : Fields) (g : ConsensusEngine)
      (c : EventChain) (e : Event)
      → lookup c.concept_id g.chains ≡ some c
      → let t = transition int_of_text stamp c.concept_id validated actor reason payload g in
        t.0 ≡ ok e
        → (c' : EventChain) × (lookup c.concept_id t.1.chains ≡ some c')
          × (effective_n_min int_of_text g ≤ length (validators c'))
  unfolding is_validated status_to_event_type
  validation_has_quorum stamp actor reason payload g c e q h =
      let r = guard_of_ok stamp c.concept_id validated actor reason payload g c e q h in
      let permitted = guard-Permitted int_of_text c validated actor g r in
      let engine =
        transition_engine int_of_text stamp c.concept_id validated actor reason payload g c q r in
      (
        (append (new_event stamp c.concept_id validate actor reason payload) c).1,
        rw engine (rw (lookup-insert, eq_refl) refl),
        rw (validators_after_validation stamp c actor reason payload) (at_quorum permitted.quorum),
      )
