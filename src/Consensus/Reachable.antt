-- ===== src/Consensus/Reachable.antt =====
-- The engines that a program reaches in production mode (adl_lite/consensus.py): documents without
-- validators are registered, and transitions and forks follow in any order.
use adl_lite.Prelude.{String, ◌≡◌, refl, true, Option, [], Option-cases, Bool-cases, inl, inr}
use adl_lite.Prelude.Int.{ℤ}
use adl_lite.Prelude.Dict.{lookup}
use adl_lite.Prelude.Result.{Error, err, Result-cases}
use adl_lite.Payload.{Fields, end}
use adl_lite.Event.{DiscoveryStatus, validated, forked, Platform}
use adl_lite.Chain.{status, validators}
use adl_lite.Consensus.{
  ConsensusEngine, ForkManager, Stamp, Document, is_forked, set_production_mode, register_document,
  transition, fork_concept,
}
use adl_lite.Consensus.Production.{
  IsUnvalidated, add_fork_keeps, register_keeps, transition_keeps, validation_refused,
}

module _ ⦃p : Platform⦄ (int_of_text : String → Option ℤ) where
  fork_keeps :
      (stamp stamp' : Stamp) (original_id fork_id actor reason reasoning : String)
      (g : ConsensusEngine)
      → IsUnvalidated g
      → IsUnvalidated
          (fork_concept int_of_text stamp stamp' original_id fork_id actor reason reasoning g).1
  unfolding fork_concept
  fork_keeps stamp stamp' original_id fork_id actor reason reasoning g inv =
      elim (Option-cases (lookup original_id g.chains)) [
        | inl q ↦ rw (q, fork_concept) inv
        | inr (c, q) ↦ (elim (Bool-cases (is_forked (status c))) [
          | inl already ↦
              rw (q, already, fork_concept)
                (add_fork_keeps stamp' original_id fork_id actor reasoning g inv)
          | inr first ↦
              (let keeps =
                  transition_keeps int_of_text stamp original_id forked actor reason end g inv in
                elim (Result-cases
                  (transition int_of_text stamp original_id forked actor reason end g).0) [
                    | inl (x, r) ↦ rw (q, first, r, fork_concept) keeps
                    | inr (e, r) ↦
                        rw (q, first, r, fork_concept)
                          (add_fork_keeps stamp' original_id fork_id actor reasoning _ keeps)
                  ])
        ])
      ]

  -- The calls that change the engine, from one without capabilities.
  pub data Reachable : ConsensusEngine → Type 0 where
    start :
        (forks : ForkManager) (ontology : Fields)
        → Reachable (
            set_production_mode
              (record { chains = []; fork_manager = forks; ontology = ontology; dev_mode = true }))
    registered :
        {g : ConsensusEngine} (stamp : Stamp) (doc : Document)
        → validators doc.event_chain ≡ []
        → Reachable g
        → Reachable (register_document stamp doc g).1
    moved :
        {g : ConsensusEngine} (stamp : Stamp) (adl_id : String) (to_status : DiscoveryStatus)
        (actor reason : String) (payload : Fields)
        → Reachable g
        → Reachable (transition int_of_text stamp adl_id to_status actor reason payload g).1
    branched :
        {g : ConsensusEngine} (stamp stamp' : Stamp)
        (original_id fork_id actor reason reasoning : String)
        → Reachable g
        → Reachable
            (fork_concept int_of_text stamp stamp' original_id fork_id actor reason reasoning g).1

  Reachable-IsUnvalidated : {g : ConsensusEngine} → Reachable g → IsUnvalidated g
  unfolding set_production_mode lookup
  Reachable-IsUnvalidated (start forks ontology) = record {
    production = refl;
    no_validators = λ k c q. cc;
  }
  Reachable-IsUnvalidated (registered stamp doc h r) =
      register_keeps stamp doc _ h (Reachable-IsUnvalidated r)
  Reachable-IsUnvalidated (moved stamp adl_id to_status actor reason payload r) =
      transition_keeps int_of_text stamp adl_id to_status actor reason payload _
        (Reachable-IsUnvalidated r)
  Reachable-IsUnvalidated (branched stamp stamp' original_id fork_id actor reason reasoning r) =
      fork_keeps stamp stamp' original_id fork_id actor reason reasoning _
        (Reachable-IsUnvalidated r)

  -- In production mode every transition to VALIDATED raises and leaves the engine as it was, when
  -- the documents registered so far carried no validator: the first validator is refused for want
  -- of a second one.
  pub production_never_validates :
      {g : ConsensusEngine} (stamp : Stamp) (adl_id actor reason : String) (payload : Fields)
      → Reachable g
      → (x : Error) × (transition int_of_text stamp adl_id validated actor reason payload g
          ≡ (err x, g))
  production_never_validates stamp adl_id actor reason payload r =
      validation_refused int_of_text stamp adl_id actor reason payload _ (Reachable-IsUnvalidated r)
