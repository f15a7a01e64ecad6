-- ===== src/Consensus/Production.antt =====
-- The engine in production mode (adl_lite/consensus.py): which capabilities it can validate.
use adl_lite.Prelude.{
  String, ◌≡◌, refl, ap, sym, ◌∙◌, false, Option, some, List, [], ◌∷◌, str_eq, arith, Bool-cases,
  Option-cases, inl, inr,
}
use adl_lite.Prelude.Int.{ℤ}
use adl_lite.Prelude.Dict.{Dict, contains, lookup, insert, lookup-insert}
use adl_lite.Prelude.Result.{
  Error, Result, ok, err, not_registered, too_few_validators, Result-cases,
}
use adl_lite.Payload.{Fields, end}
use adl_lite.Event.{DiscoveryStatus, EventType, validated, register, Platform, Event, rehash}
use adl_lite.Chain.{
  EventChain, empty_chain, is_validate, append, validators, validating_actors, fromkeys,
}
use adl_lite.Chain.Status.{events-append}
use adl_lite.Consensus.{
  ConsensusEngine, Stamp, Document, status_to_event_type, is_validated, prospective,
  effective_n_min, new_event, execution_spec_met, with_genesis, register_document, add_fork,
  register_fork, transition_guard, transition,
}
use adl_lite.Consensus.Validators.{validators-append}
use adl_lite.Consensus.Transition.{transition_unknown, transition_refused, transition_engine}

-- No capability has a validator, and the engine is in production mode.
pub record IsUnvalidated (g : ConsensusEngine) : Type 0 where
  pub production : g.dev_mode ≡ false
  pub no_validators : (k : String) (c : EventChain) → lookup k g.chains ≡ some c → validators c ≡ []

module _ ⦃p : Platform⦄ where
  append_keeps :
      (e : Event) (c : EventChain)
      → is_validate e.event_type ≡ false
      → validators c ≡ []
      → validators (append e c).1 ≡ []
  unfolding validators
  append_keeps e c q h = elim (Bool-cases (str_eq e.concept_id c.concept_id)) [
    | inl same ↦ validators-append e c same ∙ rw q h
    | inr other ↦
        ap (λ es. fromkeys [] (validating_actors es)) (events-append e c ∙ (rw other refl)) ∙ h
  ]

  new_event_type :
      (stamp : Stamp) (cid : String) (et : EventType) (actor reason : String) (payload : Fields)
      → (new_event stamp cid et actor reason payload).event_type ≡ et
  unfolding new_event rehash
  new_event_type stamp cid et actor reason payload = refl

  insert_keeps :
      (k : String) (c : EventChain) (d : Dict EventChain)
      → validators c ≡ []
      → ((j : String) (b : EventChain) → lookup j d ≡ some b → validators b ≡ [])
      → (j : String) (b : EventChain) → lookup j (insert k c d) ≡ some b
      → validators b ≡ []
  insert_keeps k c d h all j b q = elim (Bool-cases (str_eq k j)) [
    | inl same ↦
        (let eq : some c ≡ some b = sym (lookup-insert k j c d ∙ (rw same refl)) ∙ q in
          ap validators (sym (some_injective eq)) ∙ h)
    | inr other ↦ all j b (sym (lookup-insert k j c d ∙ (rw other refl)) ∙ q)
  ]
    where
      some_injective : {x y : EventChain} → some x ≡ some y → x ≡ y
      some_injective e = cc

module _ ⦃p : Platform⦄ (int_of_text : String → Option ℤ) where
  -- Without validators a validation is refused in production mode, whoever asks.
  guard_refuses :
      (g : ConsensusEngine) (c : EventChain) (actor : String)
      → g.dev_mode ≡ false
      → validators c ≡ []
      → (x : Error) × (transition_guard int_of_text c validated actor g ≡ some x)
  unfolding transition_guard effective_n_min prospective is_validated contains
  guard_refuses g c actor prod none_yet =
      elim (Option-cases (transition_guard int_of_text c validated actor g)) [
        | inr (x, q) ↦ (x, q)
        | inl q ↦ (too_few_validators, ground (arith, q, prod, none_yet))
      ]

  pub validation_refused :
      (stamp : Stamp) (adl_id actor reason : String) (payload : Fields) (g : ConsensusEngine)
      → IsUnvalidated g
      → (x : Error) × (transition int_of_text stamp adl_id validated actor reason payload g
          ≡ (err x, g))
  validation_refused stamp adl_id actor reason payload g inv =
      elim (Option-cases (lookup adl_id g.chains)) [
        | inl q ↦ (
          not_registered,
          transition_unknown int_of_text stamp adl_id validated actor reason payload g q,
        )
        | inr (c, q) ↦
            (let (x, r) = guard_refuses g c actor inv.production (inv.no_validators adl_id c q) in
              (
                x,
                transition_refused int_of_text stamp adl_id validated actor reason payload g c x q
                    r,
              ))
      ]

  other_type :
      (s : DiscoveryStatus) → is_validated s ≡ false → is_validate (status_to_event_type s) ≡ false
  unfolding is_validated is_validate status_to_event_type
  other_type s h = ground arith

  transition_keeps_other :
      (stamp : Stamp) (adl_id : String) (to_status : DiscoveryStatus) (actor reason : String)
      (payload : Fields) (g : ConsensusEngine)
      → is_validated to_status ≡ false
      → IsUnvalidated g
      → IsUnvalidated (transition int_of_text stamp adl_id to_status actor reason payload g).1
  transition_keeps_other stamp adl_id to_status actor reason payload g other inv =
      elim (Option-cases (lookup adl_id g.chains)) [
        | inl q ↦
            rw (transition_unknown int_of_text stamp adl_id to_status actor reason payload g q) inv
        | inr (c, q) ↦ (elim (Option-cases (transition_guard int_of_text c to_status actor g)) [
          | inr (x, r) ↦
              rw
                (transition_refused int_of_text stamp adl_id to_status actor reason payload g c x q
                  r)
                inv
          | inl r ↦
              rw (transition_engine int_of_text stamp adl_id to_status actor reason payload g c q r)
                (record {
                  production = inv.production;
                  no_validators =
                      insert_keeps adl_id _ g.chains
                        (append_keeps _ c
                          (ap is_validate (new_event_type stamp adl_id _ actor reason payload)
                            ∙ other_type to_status other)
                          (inv.no_validators adl_id c q))
                        inv.no_validators;
                })
        ])
      ]

  pub transition_keeps :
      (stamp : Stamp) (adl_id : String) (to_status : DiscoveryStatus) (actor reason : String)
      (payload : Fields) (g : ConsensusEngine)
      → IsUnvalidated g
      → IsUnvalidated (transition int_of_text stamp adl_id to_status actor reason payload g).1
  unfolding is_validated
  transition_keeps stamp adl_id validated actor reason payload g inv =
      rw ((validation_refused stamp adl_id actor reason payload g inv).1) inv
  transition_keeps stamp adl_id to_status actor reason payload g inv =
      transition_keeps_other stamp adl_id to_status actor reason payload g refl inv

module _ ⦃p : Platform⦄ where
  validators-empty_chain : (cid : String) → validators (empty_chain cid) ≡ []
  unfolding validators empty_chain validating_actors fromkeys
  validators-empty_chain cid = refl

  new_registration_keeps :
      (stamp : Stamp) (cid actor reason : String) (c : EventChain)
      → validators c ≡ []
      → validators (append (new_event stamp cid register actor reason end) c).1 ≡ []
  unfolding is_validate
  new_registration_keeps stamp cid actor reason c h =
      append_keeps _ c (ap is_validate (new_event_type stamp cid register actor reason end)) h

  with_genesis_keeps :
      (stamp : Stamp) (doc : Document)
      → validators doc.event_chain ≡ []
      → validators (with_genesis stamp doc).1 ≡ []
  unfolding with_genesis
  with_genesis_keeps stamp doc h = cases doc.event_chain.events
    where
      cases :
          (es : List Event)
          → validators
              (elim es as (λ _. Result (Unit {0}) × EventChain) [
                | [] ↦
                    append
                      (new_event stamp doc.adl_id register "system" "Document registered" end)
                      doc.event_chain
                | _ ∷ _ ↦ (ok tt, doc.event_chain)
              ]).1
            ≡ []
      cases [] = new_registration_keeps stamp doc.adl_id _ _ doc.event_chain h
      cases (_ ∷ _) = h

  pub add_fork_keeps :
      (stamp : Stamp) (original_id fork_id actor reasoning : String) (g : ConsensusEngine)
      → IsUnvalidated g
      → IsUnvalidated (add_fork stamp original_id fork_id actor reasoning g).1
  unfolding add_fork
  add_fork_keeps stamp original_id fork_id actor reasoning g inv =
      after (append (new_event stamp fork_id register actor reasoning end) (empty_chain fork_id)).0
    where
      chain : EventChain
      chain =
          (append (new_event stamp fork_id register actor reasoning end) (empty_chain fork_id)).1

      after :
          (r : Result (Unit {0}))
          → IsUnvalidated
              (elim r as (λ _. Result EventChain × ConsensusEngine) [
                | err x ↦ (err x, g)
                | ok _ ↦ (
                  ok chain,
                  record g {
                    chains = insert fork_id chain g.chains;
                    fork_manager = register_fork stamp.timestamp original_id fork_id g.fork_manager;
                  },
                )
              ]).1
      after (err x) = inv
      after (ok _) = record {
        production = inv.production;
        no_validators =
            insert_keeps fork_id chain g.chains
              (new_registration_keeps stamp fork_id actor reasoning (empty_chain fork_id)
                (validators-empty_chain fork_id))
              inv.no_validators;
      }

  pub register_keeps :
      (stamp : Stamp) (doc : Document) (g : ConsensusEngine)
      → validators doc.event_chain ≡ []
      → IsUnvalidated g
      → IsUnvalidated (register_document stamp doc g).1
  unfolding register_document
  register_keeps stamp doc g h inv = elim (Option-cases (lookup doc.adl_id g.chains)) [
    | inr (c, q) ↦ rw (q, register_document) inv
    | inl q ↦ (elim (Bool-cases (execution_spec_met doc g)) [
      | inr unmet ↦ rw (q, unmet, register_document) inv
      | inl met ↦ (elim (Result-cases (with_genesis stamp doc).0) [
        | inl (x, r) ↦ rw (q, met, r, register_document) inv
        | inr (_, r) ↦
            rw (q, met, r, register_document)
              (record {
                production = inv.production;
                no_validators =
                    insert_keeps doc.adl_id _ g.chains (with_genesis_keeps stamp doc h)
                      inv.no_validators;
              })
      ])
    ])
  ]
