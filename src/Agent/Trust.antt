-- ===== src/Agent/Trust.antt =====
-- Where the status of an agent comes from (adl_lite/agents/identity.py).
use adl_lite.Prelude.{
  ◌≤◌, String, ◌≡◌, ◌≢◌, refl, sym, ap, ◌∙◌, Bool, true, false, Option, none, some, List, [], ◌∷◌,
  ◌++◌, append_assoc, ◌<◌, any, ltb, length, str_eq, eq_refl, last?, ◌⊎◌, inl, inr, Bool-cases,
  Option-cases, arith, if◌then◌else◌,
}
use adl_lite.Prelude.Int.{ℤ}
use adl_lite.Prelude.Dict.{lookup}
use adl_lite.Event.{Platform, Event}
use adl_lite.Chain.{EventChain, link_to}
use adl_lite.Chain.Status.{event_type-link_to}
use adl_lite.Did.Resolver.{Signatures}
use adl_lite.Consensus.{ConsensusEngine, Stamp, effective_n_min}
use adl_lite.Agent.{
  AgentRegistry, AgentStatus, pending, active, deprecated, is_agent_validate, is_agent_deprecate,
  is_admin_attestation, collect_validators, agent_validators, status_of_chain, agent_status,
}
use adl_lite.Agent.Validation.{is_active, Operation, run}
use adl_lite.Agent.Steps.{
  SignedByAdmin, Step-extends, Holds, Step, kept, grown, started, Step-Holds, run-Step, any-snoc,
}

-- No chain has an attestation of any kind.
abbrev IsBare : AgentRegistry → Type 0
IsBare r =
    (j : String) (c : EventChain)
    → lookup j r.engine.chains ≡ some c
    → any (λ e. is_agent_validate e.event_type) c.events ≡ false

collect_validators_of_none :
    (seen : List String) (es : List Event)
    → any (λ e. is_agent_validate e.event_type) es ≡ false
    → collect_validators seen es ≡ seen
unfolding collect_validators
collect_validators_of_none seen [] h = refl
collect_validators_of_none seen (e ∷ es) h = elim (Bool-cases (is_agent_validate e.event_type)) [
  | inl yes_eq ↦ cc (rw yes_eq at h)
  | inr no_eq ↦ rw no_eq (collect_validators_of_none seen es (rw no_eq at h))
]

no_attestation_of_none :
    (es : List Event)
    → any (λ e. is_agent_validate e.event_type) es ≡ false
    → any is_admin_attestation es ≡ false
unfolding is_admin_attestation
no_attestation_of_none [] h = refl
no_attestation_of_none (e ∷ es) h = ground (arith, no_attestation_of_none es)

is_active_status :
    (s : AgentStatus)
    → elim s as (λ _. Bool) [ active ↦ true | pending ↦ false | deprecated ↦ false ] ≡ true
    → s ≡ active
is_active_status active h = refl
is_active_status pending h = cc
is_active_status deprecated h = cc

pending_apart : pending ≢ deprecated
pending_apart h = cc

module _ ⦃p : Platform⦄ (int_of_text : String → Option ℤ) where
  effective_n_min_pos : (g : ConsensusEngine) → 1 ≤ effective_n_min int_of_text g
  unfolding effective_n_min
  effective_n_min_pos g = ground arith

  -- A chain without attestations has no active agent.
  bare_chain :
      (c : EventChain) (g : ConsensusEngine)
      → any (λ e. is_agent_validate e.event_type) c.events ≡ false
      → status_of_chain int_of_text c g ≢ active
  unfolding status_of_chain agent_validators
  bare_chain c g h at =
      let few : 0 < effective_n_min int_of_text g = effective_n_min_pos g in
      let none_yet : agent_validators c ≡ [] = collect_validators_of_none [] c.events h in
      let no_root = no_attestation_of_none c.events h in
      let short : ltb (length (agent_validators c)) (effective_n_min int_of_text g) ≡ true =
        rw none_yet (ground (arith, few)) in
      elim (Bool-cases (any (λ e. is_agent_deprecate e.event_type) c.events)) [
        | inl over ↦ cc (rw (over, status_of_chain) at at)
        | inr live ↦ cc (rw (live, no_root, short, status_of_chain) at at)
      ]

  bare_status :
      (did : String) (r : AgentRegistry) → IsBare r → agent_status int_of_text did r.engine ≢ active
  unfolding agent_status
  bare_status did r bare at = elim (Option-cases (lookup did r.engine.chains)) [
    | inl q ↦ cc (rw (q, agent_status) at at)
    | inr (c, q) ↦ bare_chain c r.engine (bare did c q) (rw (q, agent_status) at at)
  ]

  bare_active :
      (did : String) (r : AgentRegistry) → IsBare r → is_active int_of_text did r.engine ≢ true
  unfolding is_active
  bare_active did r bare h = elim (Option-cases (lookup did r.engine.chains)) [
    | inl q ↦ cc (rw (q, is_active) at h)
    | inr (c, q) ↦
        bare_status did r bare
          (is_active_status (agent_status int_of_text did r.engine) (rw (q, is_active) at h))
  ]

  IsBare-update :
      (k : String) (c' : EventChain) (r r' : AgentRegistry)
      → ((j : String)
          → lookup j r'.engine.chains ≡ (if str_eq k j then some c' else lookup j r.engine.chains))
      → any (λ e. is_agent_validate e.event_type) c'.events ≡ false
      → IsBare r
      → IsBare r'
  IsBare-update k c' r r' at new bare = λ j d q. elim (Bool-cases (str_eq k j)) [
    | inr other ↦ bare j d (sym (at j ∙ (rw other refl)) ∙ q)
    | inl same ↦
        (let eq : some c' ≡ some d = sym (at j ∙ (rw same refl)) ∙ q in
          ap (λ (x : EventChain). any (λ e. is_agent_validate e.event_type) x.events)
            (sym (some_injective eq))
          ∙ new)
  ]
    where
      some_injective : {x y : EventChain} → some x ≡ some y → x ≡ y
      some_injective e = cc

  deprecated_of_event :
      (did : String) (r : AgentRegistry)
      → Holds (λ e. is_agent_deprecate e.event_type) did r
      → agent_status int_of_text did r.engine ≡ deprecated
  unfolding agent_status status_of_chain
  deprecated_of_event did r (c, q, h) = rw (q, agent_status) (rw (h, status_of_chain) refl)

  live_status :
      (c : EventChain) (g : ConsensusEngine)
      → any (λ e. is_agent_deprecate e.event_type) c.events ≡ false
      → status_of_chain int_of_text c g ≢ deprecated
  unfolding status_of_chain
  live_status c g live = λ at. ground arith

  event_of_deprecated :
      (did : String) (r : AgentRegistry)
      → agent_status int_of_text did r.engine ≡ deprecated
      → Holds (λ e. is_agent_deprecate e.event_type) did r
  unfolding agent_status
  event_of_deprecated did r at = elim (Option-cases (lookup did r.engine.chains)) [
    | inl q ↦ absurd (pending_apart (rw (q, agent_status) at at))
    | inr (c, q) ↦ (elim (Bool-cases (any (λ e. is_agent_deprecate e.event_type) c.events)) [
      | inl over ↦ (c, q, over)
      | inr live ↦ absurd (live_status c r.engine live (rw (q, agent_status) at at))
    ])
  ]

module _ ⦃p : Platform⦄ ⦃k : Signatures⦄ (int_of_text : String → Option ℤ) where
  -- A step gave a chain an attestation that an administrator signed.
  abbrev FirstRoot : AgentRegistry → AgentRegistry → Type 0
  FirstRoot r r' =
      (j : String) × (e : Event) × (c c' : EventChain) × SignedByAdmin j e c r
      × (lookup j r'.engine.chains ≡ some c')
      × (c'.events ≡ c.events ++ link_to (last? c.events) e ∷ [])

  Step-IsBare :
      (r r' : AgentRegistry) → Step int_of_text r r' → IsBare r → IsBare r' ⊎ FirstRoot r r'
  Step-IsBare r r' (kept same) bare = inl (λ j c q. bare j c (sym (same j) ∙ q))
  Step-IsBare r r' (grown i e (inl plain) (c, c', there, es, at)) bare = inl (
      IsBare-update int_of_text i c' r r' at
        (ap (any (λ e. is_agent_validate e.event_type)) es
          ∙ any-snoc (λ e. is_agent_validate e.event_type) c.events (link_to (last? c.events) e)
          ∙ (rw (bare i c there, event_type-link_to (last? c.events) e, plain) refl))
        bare)
  Step-IsBare r r' (grown i e (inr (inl (d, signed))) (c, c', there, es, at)) bare = inr (
    i,
    e,
    d,
    c',
    signed,
    at i ∙ (rw (eq_refl i) refl),
    es
        ∙ ap (λ (x : EventChain). x.events ++ link_to (last? x.events) e ∷ [])
            (some_injective (sym there ∙ found signed)),
  )
    where
      some_injective : {x y : EventChain} → some x ≡ some y → x ≡ y
      some_injective e = cc

      found : SignedByAdmin i e d r → lookup i r.engine.chains ≡ some d
      found (_, _, _, q, _, _, _, _, _, _) = q
  Step-IsBare r r' (grown i e (inr (inr (validator, h))) g) bare =
      absurd (bare_active int_of_text validator r bare h)
  Step-IsBare r r' (started i e plain (c', absent, es, at)) bare = inl (
      IsBare-update int_of_text i c' r r' at
        (ap (any (λ e. is_agent_validate e.event_type)) es
          ∙ (rw (event_type-link_to none e, plain) refl))
        bare)

  -- The registries that a program reaches from one without agents by calls of its methods, while
  -- the mode, the ontology, the administrators and the admin switch change in any way.
  pub data Reachable : AgentRegistry → Type 0 where
    start : (r : AgentRegistry) → r.engine.chains ≡ [] → Reachable r
    called :
        {r : AgentRegistry} (stamp : Stamp) (op : Operation)
        → Reachable r
        → Reachable (run int_of_text stamp op r)
    configured :
        {r r' : AgentRegistry} → r'.engine.chains ≡ r.engine.chains → Reachable r → Reachable r'

  -- A reached registry accepted an attestation that an administrator signed, and its event still
  -- stands where it was appended in the chain of the agent.
  abbrev pub HasRoot : AgentRegistry → Type 0
  HasRoot r =
      (r0 : AgentRegistry) × Reachable r0
      × ((j : String) × (e : Event) × (c0 c : EventChain) × (rest : List Event) × SignedByAdmin j e
            c0 r0
          × (lookup j r.engine.chains ≡ some c)
          × (c.events ≡ c0.events ++ link_to (last? c0.events) e ∷ rest))

  HasRoot-Step : (r r' : AgentRegistry) → Step int_of_text r r' → HasRoot r → HasRoot r'
  HasRoot-Step r r' step (r0, reached, (j, e, c0, c, rest, signed, there, es)) =
      let (c', more, there', es') = Step-extends int_of_text j c r r' step there in
      (
        r0,
        reached,
        (
          j,
          e,
          c0,
          c',
          rest ++ more,
          signed,
          there',
          es'
              ∙ ap (λ l. l ++ more) es
              ∙ append_assoc c0.events (link_to (last? c0.events) e ∷ rest) more,
        ),
      )

  rooted-Step :
      (r r' : AgentRegistry)
      → Step int_of_text r r'
      → Reachable r
      → IsBare r ⊎ HasRoot r
      → IsBare r' ⊎ HasRoot r'
  rooted-Step r r' step reached (inr root) = inr (HasRoot-Step r r' step root)
  rooted-Step r r' step reached (inl bare) = elim (Step-IsBare r r' step bare) [
    | inl bare' ↦ inl bare'
    | inr (j, e, c0, c, signed, there, es) ↦ inr (r, reached, (j, e, c0, c, [], signed, there, es))
  ]

  rooted : {r : AgentRegistry} → Reachable r → IsBare r ⊎ HasRoot r
  unfolding lookup
  rooted (start r q) = inl (λ j c found. cc (ap (lookup j) q, found))
  rooted (called {r} stamp op reached) =
      rooted-Step r (run int_of_text stamp op r) (run-Step int_of_text stamp op r) reached
        (rooted reached)
  rooted (configured {r} {r'} same reached) =
      rooted-Step r r' (kept (λ j. ap (lookup j) same)) reached (rooted reached)

  -- Where an agent of a reached registry is active, some agent has been attested by an
  -- administrator, in development and in production mode: peers alone never make anybody active.
  -- Before that call the registry took calls by administrators and knew that one, and the signature
  -- of the event verified under the administrator's DID over the hash of the last event of the
  -- chain; the event still stands behind that one in the chain.
  pub active_needs_a_root :
      (did : String) (r : AgentRegistry)
      → Reachable r
      → agent_status int_of_text did r.engine ≡ active
      → HasRoot r
  active_needs_a_root did r reached at = elim (rooted reached) [
    | inl bare ↦ absurd (bare_status int_of_text did r bare at)
    | inr root ↦ root
  ]

  -- Deprecation is final: whatever call follows, also a new attestation, the agent stays
  -- deprecated.
  pub deprecation_is_final :
      (stamp : Stamp) (op : Operation) (did : String) (r : AgentRegistry)
      → agent_status int_of_text did r.engine ≡ deprecated
      → agent_status int_of_text did (run int_of_text stamp op r).engine ≡ deprecated
  deprecation_is_final stamp op did r h =
      deprecated_of_event int_of_text did (run int_of_text stamp op r) (
        Step-Holds int_of_text (λ e. is_agent_deprecate e.event_type) did r
          (run int_of_text stamp op r) (run-Step int_of_text stamp op r)
          (event_of_deprecated int_of_text did r h))
