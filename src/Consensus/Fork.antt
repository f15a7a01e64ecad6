-- ===== src/Consensus/Fork.antt =====
-- Statuses after `transition`, and what `fork` leaves (adl_lite/consensus.py).
use adl_lite.Prelude.{
  String, ◌≡◌, refl, ap, sym, ◌∙◌, Option, none, some, List, [], ◌∷◌, ◌++◌, length, eq_refl, arith,
  Bool-cases, Option-cases, inl, inr, ltb, if◌then◌else◌,
}
use adl_lite.Prelude.Int.{ℤ}
use adl_lite.Prelude.Dict.{lookup, lookup-insert}
use adl_lite.Prelude.Result.{ok, err, ok-injective, Result-cases}
use adl_lite.Payload.{Fields, end}
use adl_lite.Event.{
  DiscoveryStatus, forked, register, order, type_to_status, Platform, Event, rehash,
}
use adl_lite.Chain.{
  EventChain, empty_chain, append, status, link_to, update_crdt_caches, update_status,
  update_confidence, carries_confidence,
}
use adl_lite.Chain.Status.{IsCoherent}
use adl_lite.Chain.Lattice.{join, status-append}
use adl_lite.Consensus.{
  ConsensusEngine, Stamp, status_to_event_type, is_forked, new_event, register_fork, add_fork,
  transition, fork_concept, get_status,
}
use adl_lite.Consensus.Transition.{transition_engine}
use adl_lite.Consensus.Quorum.{guard_of_ok}

-- The higher of two statuses.
abbrev pub join_status : DiscoveryStatus → DiscoveryStatus → DiscoveryStatus
join_status s t = if ltb (order s) (order t) then t else s

join-status_to_event_type :
    (s t : DiscoveryStatus) → join s (status_to_event_type t) ≡ join_status s t
unfolding status_to_event_type type_to_status
join-status_to_event_type s t = ground arith

module _ ⦃p : Platform⦄ where
  joined :
      (stamp : Stamp) (c : EventChain) (s : DiscoveryStatus) (actor reason : String)
      (payload : Fields)
      → IsCoherent c
      → status
          (append (new_event stamp c.concept_id (status_to_event_type s) actor reason payload) c).1
        ≡ join_status (status c) s
  unfolding new_event rehash
  joined stamp c s actor reason payload h =
      status-append _ c h ∙ rw (eq_refl c.concept_id) (join-status_to_event_type (status c) s)

module _ ⦃p : Platform⦄ (int_of_text : String → Option ℤ) where
  -- After a transition that returns, the status of the capability is the higher one of its status
  -- before and the requested status, in the order of the lifecycle; its chain's caches stood for
  -- its events before.
  pub status_after_transition :
      (stamp : Stamp) (s : DiscoveryStatus) (actor reason : String) (payload : Fields)
      (g : ConsensusEngine) (c : EventChain) (e : Event)
      → lookup c.concept_id g.chains ≡ some c
      → IsCoherent c
      → let t = transition int_of_text stamp c.concept_id s actor reason payload g in
        t.0 ≡ ok e → get_status c.concept_id t.1 ≡ join_status (get_status c.concept_id g) s
  unfolding get_status
  status_after_transition stamp s actor reason payload g c e q h returned =
      let r = guard_of_ok int_of_text stamp c.concept_id s actor reason payload g c e q returned in
      let engine =
        transition_engine int_of_text stamp c.concept_id s actor reason payload g c q r in
      rw (engine, q, get_status)
        (rw (lookup-insert, eq_refl, get_status) (joined stamp c s actor reason payload h))

module _ ⦃p : Platform⦄ where
  -- What stands in the engine after the second half of a fork that returned.
  pub record IsForkOf (g : ConsensusEngine) (original_id fork_id : String) (c : EventChain)
      : Type 0 where
    pub stored : lookup fork_id g.chains ≡ some c
    pub own_id : c.concept_id ≡ fork_id
    pub one_event : length c.events ≡ 1
    pub lineage :
        (before : List String) × (lookup original_id g.fork_manager.forks
          ≡ some (before ++ fork_id ∷ []))

  fork_chain_shape :
      (stamp : Stamp) (fork_id actor reasoning : String)
      → let c =
          (append (new_event stamp fork_id register actor reasoning end) (empty_chain fork_id)).1 in
        (length c.events ≡ 1) × (c.concept_id ≡ fork_id)
  unfolding new_event rehash empty_chain append update_crdt_caches update_status update_confidence
      type_to_status carries_confidence link_to order
  fork_chain_shape stamp fork_id actor reasoning = rw (eq_refl, append) (refl, refl)

  add_fork-IsForkOf :
      (stamp : Stamp) (original_id fork_id actor reasoning : String) (g : ConsensusEngine)
      (c : EventChain)
      → let f = add_fork stamp original_id fork_id actor reasoning g in
        f.0 ≡ ok c → IsForkOf f.1 original_id fork_id c
  unfolding add_fork register_fork
  add_fork-IsForkOf stamp original_id fork_id actor reasoning g c h =
      let shape = fork_chain_shape stamp fork_id actor reasoning in
      elim (Result-cases
        (append (new_event stamp fork_id register actor reasoning end) (empty_chain fork_id)).0) [
          | inl (x, r) ↦ (let clash : err x ≡ ok c = sym (rw (r, add_fork) refl) ∙ h in cc)
          | inr (_, r) ↦
              (let same : (append (new_event stamp fork_id register actor reasoning end)
                      (empty_chain fork_id)).1
                    ≡ c =
                  ok-injective (sym (rw (r, add_fork) refl) ∙ h) in
                record {
                  stored = rw (r, add_fork) (rw (lookup-insert, eq_refl) (ap some same));
                  own_id = ap (λ x. x.concept_id) (sym same) ∙ shape.1;
                  one_event = ap (λ x. length x.events) (sym same) ∙ shape.0;
                  lineage = (
                    elim (lookup original_id g.fork_manager.forks) as (λ _. List String) [
                      | none ↦ []
                      | some xs ↦ xs
                    ],
                    rw (r, add_fork, register_fork) (rw (lookup-insert, eq_refl) refl),
                  );
                })
        ]

module _ ⦃p : Platform⦄ (int_of_text : String → Option ℤ) where
  -- A fork that returns leaves under the fork's id a chain of its own with one event, whatever
  -- stood under that id before, and records the id as a child of the original.
  pub fork_leaves_one_event :
      (stamp stamp' : Stamp) (original_id fork_id actor reason reasoning : String)
      (g : ConsensusEngine) (c : EventChain)
      → let f =
          fork_concept int_of_text stamp stamp' original_id fork_id actor reason reasoning g in
        f.0 ≡ ok c → IsForkOf f.1 original_id fork_id c
  unfolding fork_concept
  fork_leaves_one_event stamp stamp' original_id fork_id actor reason reasoning g c =
      elim (Option-cases (lookup original_id g.chains)) [
        | inl q ↦ rw (q, fork_concept) (λ h. cc)
        | inr (d, q) ↦ (elim (Bool-cases (is_forked (status d))) [
          | inl already ↦
              rw (q, already, fork_concept)
                (add_fork-IsForkOf stamp' original_id fork_id actor reasoning g c)
          | inr first ↦
              (elim (Result-cases
                (transition int_of_text stamp original_id forked actor reason end g).0) [
                  | inl (x, r) ↦ rw (q, first, r, fork_concept) (λ h. cc)
                  | inr (e, r) ↦
                      rw (q, first, r, fork_concept)
                        (add_fork-IsForkOf stamp' original_id fork_id actor reasoning _ c)
                ])
        ])
      ]
