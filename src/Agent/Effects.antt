-- ===== src/Agent/Effects.antt =====
-- What the methods of `AgentRegistry` (adl_lite/agents/identity.py) leave, on every branch.
use adl_lite.Prelude.{
  ℕ, ◌≤◌, String, ◌≡◌, refl, sym, ap, subst, ◌∙◌, Bool, true, false, Option, none, some, List, [],
  ◌∷◌, ◌++◌, str_eq, last?, ◌⊎◌, inl, inr, Bool-cases, Option-cases, arith, if◌then◌else◌,
}
use adl_lite.Prelude.Int.{ℤ}
use adl_lite.Prelude.Dict.{lookup, insert, lookup-insert, lookup-insert_same}
use adl_lite.Prelude.Result.{
  Error, Result, ok, err, value_error, key_error, already_registered, not_the_owner, unknown_agent,
}
use adl_lite.Payload.{Fields}
use adl_lite.Event.{Platform, Event, rehash}
use adl_lite.Chain.{EventChain, empty_chain, carries_confidence, append, link_to}
use adl_lite.Chain.Status.{append_total}
use adl_lite.Did.Resolver.{Signatures}
use adl_lite.Consensus.{Stamp, new_event, prospective, effective_n_min}
use adl_lite.Agent.{AgentRegistry, AgentProfile, agent_validators}
use adl_lite.Agent.Registry.{
  append_at, agent_genesis, register_agent, named_did, register_did, can_write, write_event,
  attestation,
}
use adl_lite.Agent.Validation.{
  verify_admin_signature, admin_guard, is_active, peer_guard, validate_agent,
}

-- Every chain is as it was.
abbrev pub Kept : AgentRegistry → AgentRegistry → Type 0
Kept r r' = (j : String) → lookup j r'.engine.chains ≡ lookup j r.engine.chains

module _ ⦃p : Platform⦄ where
  -- The chain of one agent has one more event, linked to its last one.
  abbrev pub Grown : String → Event → AgentRegistry → AgentRegistry → Type 0
  Grown k e r r' =
      (c c' : EventChain) × (lookup k r.engine.chains ≡ some c)
      × (c'.events ≡ c.events ++ link_to (last? c.events) e ∷ [])
      × ((j : String)
          → lookup j r'.engine.chains ≡ (if str_eq k j then some c' else lookup j r.engine.chains))

  -- A new agent has a chain of one event.
  abbrev pub Started : String → Event → AgentRegistry → AgentRegistry → Type 0
  Started k e r r' =
      (c' : EventChain) × (lookup k r.engine.chains ≡ none)
      × (c'.events ≡ link_to none e ∷ [])
      × ((j : String)
          → lookup j r'.engine.chains ≡ (if str_eq k j then some c' else lookup j r.engine.chains))

  append_at_effect :
      (k : String) (c : EventChain) (e : Event) (r : AgentRegistry)
      → lookup k r.engine.chains ≡ some c
      → carries_confidence e.event_type ≡ false
      → (((append_at k c e r).0 ≡ err value_error) × Kept r (append_at k c e r).1)
        ⊎ (((append_at k c e r).0 ≡ ok (link_to (last? c.events) e))
            × Grown k e r (append_at k c e r).1)
  unfolding append_at
  append_at_effect k c e r h plain = elim (append_total e c plain) [
    | inl (raised, kept) ↦ inl (
      rw (raised, append_at) refl,
      λ j.
          rw (raised, append_at)
            (ap (λ d. lookup j (insert k d r.engine.chains)) kept
              ∙ lookup-insert_same k j c r.engine.chains h),
    )
    | inr (returned, es) ↦ inr (
      rw (returned, append_at) refl,
      (
        c,
        (append e c).1,
        h,
        es,
        λ j. rw (returned, append_at) (lookup-insert k j _ r.engine.chains),
      ),
    )
  ]

  write_event-allowed :
      (k actor : String) (e : Event) (r : AgentRegistry) (c : EventChain)
      → can_write k actor r ≡ true
      → lookup k r.engine.chains ≡ some c
      → write_event k actor e r ≡ append_at k c e r
  unfolding write_event
  write_event-allowed k actor e r c allowed q = rw (allowed, q, write_event) refl

  write_event-unknown :
      (k actor : String) (e : Event) (r : AgentRegistry)
      → can_write k actor r ≡ true
      → lookup k r.engine.chains ≡ none
      → write_event k actor e r ≡ (err key_error, r)
  unfolding write_event
  write_event-unknown k actor e r allowed q = rw (allowed, q, write_event) refl

  write_event-refused :
      (k actor : String) (e : Event) (r : AgentRegistry)
      → can_write k actor r ≡ false
      → write_event k actor e r ≡ (err not_the_owner, r)
  unfolding write_event
  write_event-refused k actor e r refused = rw (refused, write_event) refl

  -- What a call returned: an exception that changed no chain, or an event appended to one.
  abbrev pub Appends : String → Event → AgentRegistry → Result Event × AgentRegistry → Type 0
  Appends k e r call = ((x : Error) × (call.0 ≡ err x) × Kept r call.1) ⊎ Grown k e r call.1

  refusal :
      (k : String) (e : Event) (r : AgentRegistry) (call : Result Event × AgentRegistry) (x : Error)
      → call ≡ (err x, r)
      → Appends k e r call
  refusal k e r call x eq = subst (Appends k e r) (sym eq) (inl (x, refl, λ j. refl))

  append_at-Appends :
      (k : String) (c : EventChain) (e : Event) (r : AgentRegistry)
      (call : Result Event × AgentRegistry)
      → call ≡ append_at k c e r
      → lookup k r.engine.chains ≡ some c
      → carries_confidence e.event_type ≡ false
      → Appends k e r call
  append_at-Appends k c e r call eq q plain =
      subst (Appends k e r) (sym eq) (elim (append_at_effect k c e r q plain) [
        | inl (raised, kept) ↦ inl (value_error, raised, kept)
        | inr (_, grown) ↦ inr grown
      ])

  -- A write that was refused, or one by the owner or an administrator.
  pub write_effect :
      (k actor : String) (e : Event) (r : AgentRegistry)
      → carries_confidence e.event_type ≡ false
      → Appends k e r (write_event k actor e r)
  write_effect k actor e r plain = elim (Bool-cases (can_write k actor r)) [
    | inr refused ↦
        refusal k e r (write_event k actor e r) not_the_owner
          (write_event-refused k actor e r refused)
    | inl allowed ↦ (elim (Option-cases (lookup k r.engine.chains)) [
      | inl q ↦
          refusal k e r (write_event k actor e r) key_error
            (write_event-unknown k actor e r allowed q)
      | inr (c, q) ↦
          append_at-Appends k c e r (write_event k actor e r)
            (write_event-allowed k actor e r c allowed q) q plain
    ])
  ]

  -- A registration that was refused, or one of a DID that had no chain.
  abbrev pub Registers :
      Stamp
      → AgentProfile
      → String
      → Option Fields
      → AgentRegistry
      → Result EventChain × AgentRegistry
      → Type 0
  Registers stamp profile signature proof r call =
      ((x : Error) × (call.0 ≡ err x) × Kept r call.1)
      ⊎ ((did : String) × Started did
            (agent_genesis stamp (record profile { did = did }) signature proof) r call.1)

  pub agent_genesis-carries :
      (stamp : Stamp) (profile : AgentProfile) (signature : String) (proof : Option Fields)
      → carries_confidence (agent_genesis stamp profile signature proof).event_type ≡ false
  unfolding agent_genesis new_event rehash carries_confidence
  agent_genesis-carries stamp profile signature proof = refl

  pub register_did-new :
      (stamp : Stamp) (profile : AgentProfile) (signature : String) (proof : Option Fields)
      (r : AgentRegistry)
      → lookup profile.did r.engine.chains ≡ none
      → (append (agent_genesis stamp profile signature proof) (empty_chain profile.did)).0 ≡ ok tt
      → (register_did stamp profile signature proof r).1.engine.chains
        ≡ insert profile.did
            (append (agent_genesis stamp profile signature proof) (empty_chain profile.did)).1
            r.engine.chains
  unfolding register_did
  register_did-new stamp profile signature proof r new returned =
      rw (new, returned, register_did) refl

  register_did_effect :
      (stamp : Stamp) (profile : AgentProfile) (signature : String) (proof : Option Fields)
      (r : AgentRegistry)
      → Registers stamp profile signature proof r (register_did stamp profile signature proof r)
  unfolding register_did empty_chain
  register_did_effect stamp profile signature proof r =
      let e = agent_genesis stamp profile signature proof in
      elim (Option-cases (lookup profile.did r.engine.chains)) [
        | inr (c, there) ↦
            inl (
              already_registered,
              rw (there, register_did) refl,
              λ j. rw (there, register_did) refl,
            )
        | inl new ↦
            (elim (append_total e (empty_chain profile.did)
              (agent_genesis-carries stamp profile signature proof)) [
                | inl (raised, _) ↦ inl (
                  value_error,
                  rw (new, raised, register_did) refl,
                  λ j. rw (new, raised, register_did) refl,
                )
                | inr (returned, es) ↦ inr (
                  profile.did,
                  (
                    (append e (empty_chain profile.did)).1,
                    new,
                    es,
                    λ j.
                        ap (lookup j)
                          (register_did-new stamp profile signature proof r new returned)
                        ∙ lookup-insert profile.did j (append e (empty_chain profile.did)).1
                            r.engine.chains,
                  ),
                )
              ])
      ]

  pub register_effect :
      (stamp : Stamp) (profile : AgentProfile) (public_key : Option (List ℕ)) (signature : String)
      (proof : Option Fields) (r : AgentRegistry)
      → Registers stamp profile signature proof r
          (register_agent stamp profile public_key signature proof r)
  unfolding register_agent
  register_effect stamp profile public_key signature proof r =
      elim (Option-cases (named_did profile public_key)) [
        | inl q ↦ inl (value_error, rw (q, register_agent) refl, λ j. rw (q, register_agent) refl)
        | inr (did, q) ↦
            let eq : register_agent stamp profile public_key signature proof r
                ≡ register_did stamp (record profile { did = did }) signature proof r =
              rw (q, register_agent) refl in
            subst (Registers stamp profile signature proof r) (sym eq)
              (register_did_effect stamp (record profile { did = did }) signature proof r)
      ]

module _ ⦃p : Platform⦄ ⦃k : Signatures⦄ (int_of_text : String → Option ℤ) where
  guard_of : String → String → String → Bool → EventChain → AgentRegistry → Option Error
  guard_of agent_did validator signature admin chain r =
      if admin
      then admin_guard chain validator signature r
      else peer_guard int_of_text chain agent_did validator r

  -- What lets an attestation pass: the signature of a registered administrator, where the registry
  -- takes such calls; or another agent that is active, when it completes the quorum.
  abbrev pub Authorised : String → String → String → Bool → EventChain → AgentRegistry → Type 0
  Authorised agent_did validator signature admin chain r =
      ((admin ≡ true)
        × (r.admin_calls_allowed ≡ true)
        × (verify_admin_signature chain validator signature r ≡ ok true))
      ⊎ ((admin ≡ false)
          × (str_eq validator agent_did ≡ false)
          × (is_active int_of_text validator r.engine ≡ true)
          × (effective_n_min int_of_text r.engine ≤ prospective validator (agent_validators chain)))

  admin_guard_passes :
      (chain : EventChain) (validator signature : String) (r : AgentRegistry)
      → admin_guard chain validator signature r ≡ none
      → (r.admin_calls_allowed ≡ true)
        × (verify_admin_signature chain validator signature r ≡ ok true)
  unfolding admin_guard
  admin_guard_passes chain validator signature r h = ground arith

  peer_guard_passes :
      (chain : EventChain) (agent_did validator : String) (r : AgentRegistry)
      → peer_guard int_of_text chain agent_did validator r ≡ none
      → (str_eq validator agent_did ≡ false)
        × (is_active int_of_text validator r.engine ≡ true)
        × (effective_n_min int_of_text r.engine ≤ prospective validator (agent_validators chain))
  unfolding peer_guard
  peer_guard_passes chain agent_did validator r h = ground arith

  guard_passes :
      (agent_did validator signature : String) (admin : Bool) (chain : EventChain)
      (r : AgentRegistry)
      → guard_of agent_did validator signature admin chain r ≡ none
      → Authorised agent_did validator signature admin chain r
  unfolding guard_of
  guard_passes agent_did validator signature true chain r h =
      let (allowed, verified) = admin_guard_passes chain validator signature r h in
      inl (refl, allowed, verified)
  guard_passes agent_did validator signature false chain r h =
      let (other, by_active, quorum) = peer_guard_passes chain agent_did validator r h in
      inr (refl, other, by_active, quorum)

  attestation-carries :
      (stamp : Stamp) (agent_did validator reason : String) (confidence : ℤ) (signature : String)
      (admin : Bool)
      → carries_confidence
          (attestation stamp agent_did validator reason confidence signature admin).event_type
        ≡ false
  unfolding attestation new_event rehash carries_confidence
  attestation-carries stamp agent_did validator reason confidence signature admin = refl

  -- A call of `validate_agent` either raises and changes no chain, or the attestation was
  -- authorised: then its event stands linked at the end of the agent's chain, and no other chain
  -- changes.
  pub validate_agent_outcome :
      (stamp : Stamp) (agent_did validator reason : String) (confidence : ℤ) (signature : String)
      (admin : Bool) (r : AgentRegistry)
      → let call =
          validate_agent int_of_text stamp agent_did validator reason confidence signature admin
            r in
        ((x : Error) × (call.0 ≡ err x) × Kept r call.1)
        ⊎ ((chain : EventChain) × (lookup agent_did r.engine.chains ≡ some chain)
            × Authorised agent_did validator signature admin chain r
            × Grown agent_did
                (attestation stamp agent_did validator reason confidence signature admin)
                r
                call.1)
  unfolding validate_agent guard_of
  validate_agent_outcome stamp agent_did validator reason confidence signature admin r =
      elim (Option-cases (lookup agent_did r.engine.chains)) [
        | inl q ↦ inl (unknown_agent, rw (q, validate_agent) refl, λ j. rw (q, validate_agent) refl)
        | inr (chain, q) ↦
            (elim (Option-cases (guard_of agent_did validator signature admin chain r)) [
              | inr (x, g) ↦
                  inl (x, rw (q, g, validate_agent) refl, λ j. rw (q, g, validate_agent) refl)
              | inl g ↦
                  (let e =
                      attestation stamp agent_did validator reason confidence signature admin in
                    let call =
                      validate_agent int_of_text stamp agent_did validator reason confidence
                        signature admin r in
                    let eq : call ≡ append_at agent_did chain e r =
                      rw (q, g, validate_agent) refl in
                    elim (append_at-Appends agent_did chain e r call eq q (
                      attestation-carries stamp agent_did validator reason confidence signature
                        admin)) [
                          | inl refused ↦ inl refused
                          | inr grown ↦ inr (
                            chain,
                            q,
                            guard_passes agent_did validator signature admin chain r g,
                            grown,
                          )
                        ])
            ])
      ]
