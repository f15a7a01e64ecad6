-- ===== src/Agent/Steps.antt =====
-- The calls of `AgentRegistry` (adl_lite/agents/identity.py) as steps: what every call keeps.
use adl_lite.Prelude.{
  ℕ, String, ◌≡◌, refl, sym, ap, ◌∙◌, Bool, true, false, ◌||◌, Option, none, some, List, [], ◌∷◌,
  ◌++◌, any, any-append, append-nil, Option-cases, str_eq, eq_iff, last?, ◌⊎◌, inl, inr, Bool-cases,
  arith,
}
use adl_lite.Prelude.Int.{ℤ}
use adl_lite.Prelude.Dict.{lookup}
use adl_lite.Prelude.Result.{ok}
use adl_lite.Payload.{field, end, obj, get, truthy, has_truthy}
use adl_lite.Event.{agent_update, agent_deprecate, Platform, Event, rehash}
use adl_lite.Chain.{EventChain, carries_confidence, link_to}
use adl_lite.Did.Resolver.{Signatures, verify_did_signature}
use adl_lite.Consensus.{Stamp, new_event}
use adl_lite.Agent.{AgentRegistry, is_agent_validate, is_admin_attestation}
use adl_lite.Agent.Registry.{agent_genesis, attestation, update_agent, deprecate_agent}
use adl_lite.Agent.Validation.{
  verify_admin_signature, is_active, Operation, registering, validating, updating, deprecating, run,
}
use adl_lite.Agent.Effects.{
  Kept, Grown, Started, register_effect, write_effect, validate_agent_outcome,
}

-- A chain of the registry has an event that passes a test.
abbrev pub Holds : (Event → Bool) → String → AgentRegistry → Type 0
Holds test k r = (c : EventChain) × (lookup k r.engine.chains ≡ some c) × (any test c.events ≡ true)

pub any-snoc :
    (test : Event → Bool) (es : List Event) (e : Event)
    → any test (es ++ e ∷ []) ≡ (any test es || test e)
any-snoc test es e = any-append test es (e ∷ []) ∙ ground arith

-- An event attests an agent in the name of an administrator: the registry takes such calls and knows
-- the administrator who is the actor, and the event carries a signature by the administrator's key
-- over the hash of the last event of the agent's chain.
abbrev pub SignedByAdmin : ⦃k : Signatures⦄ → String → Event → EventChain → AgentRegistry → Type 0
SignedByAdmin ⦃k⦄ j e c r =
    (key : String) × (bytes : List ℕ) × (l : Event) × (lookup j r.engine.chains ≡ some c)
    × (is_admin_attestation e ≡ true)
    × (r.admin_calls_allowed ≡ true)
    × (lookup e.actor r.admin_public_keys ≡ some key)
    × (k.b64decode e.signature ≡ some bytes)
    × (last? c.events ≡ some l)
    × (verify_did_signature e.actor l.hash bytes ≡ ok true)

module _ ⦃p : Platform⦄ ⦃k : Signatures⦄ (int_of_text : String → Option ℤ) where
  -- The event of a step validates nobody, or is signed by an administrator, or comes after an active
  -- agent.
  abbrev pub Rightful : String → Event → AgentRegistry → Type 0
  Rightful j e r =
      (is_agent_validate e.event_type ≡ false)
      ⊎ (((c : EventChain) × SignedByAdmin j e c r)
          ⊎ ((validator : String) × (is_active int_of_text validator r.engine ≡ true)))

  pub data Step (r r' : AgentRegistry) : Type 0 where
    kept : Kept r r' → Step r r'
    grown : (j : String) (e : Event) → Rightful j e r → Grown j e r r' → Step r r'
    started :
        (j : String) (e : Event)
        → is_agent_validate e.event_type ≡ false
        → Started j e r r'
        → Step r r'

  -- A chain loses none of its events.
  pub Step-extends :
      (j : String) (c : EventChain) (r r' : AgentRegistry)
      → Step r r'
      → lookup j r.engine.chains ≡ some c
      → (c' : EventChain) × (rest : List Event) × (lookup j r'.engine.chains ≡ some c')
        × (c'.events ≡ c.events ++ rest)
  Step-extends j c r r' (kept same) q = (c, [], same j ∙ q, sym (append-nil c.events))
  Step-extends j c r r' (grown i e _ (d, d', there, es, at)) q = elim (Bool-cases (str_eq i j)) [
    | inr other ↦ (c, [], at j ∙ (rw other q), sym (append-nil c.events))
    | inl same ↦
        (let eq : some d ≡ some c =
            sym there ∙ ap (λ n. lookup n r.engine.chains) ((eq_iff i j).0 same) ∙ q in
          (
            d',
            link_to (last? d.events) e ∷ [],
            at j ∙ (rw same refl),
            es
                ∙ ap (λ (x : EventChain). x.events ++ link_to (last? d.events) e ∷ [])
                    (some_injective eq),
          ))
  ]
    where
      some_injective : {x y : EventChain} → some x ≡ some y → x ≡ y
      some_injective e = cc
  Step-extends j c r r' (started i e _ (d', absent, es, at)) q = elim (Bool-cases (str_eq i j)) [
    | inr other ↦ (c, [], at j ∙ (rw other q), sym (append-nil c.events))
    | inl same ↦
        (let eq : none ≡ some c =
            sym absent ∙ ap (λ n. lookup n r.engine.chains) ((eq_iff i j).0 same) ∙ q in
          cc)
  ]

  -- What a chain holds it keeps.
  pub Step-Holds :
      (test : Event → Bool) (j : String) (r r' : AgentRegistry)
      → Step r r'
      → Holds test j r
      → Holds test j r'
  Step-Holds test j r r' step (c, q, h) =
      let (c', rest, q', es) = Step-extends j c r r' step q in
      (c', q', ap (any test) es ∙ any-append test c.events rest ∙ (rw h refl))

module _ ⦃p : Platform⦄ ⦃k : Signatures⦄ (int_of_text : String → Option ℤ) where
  attestation_by_admin :
      (stamp : Stamp) (did validator reason : String) (confidence : ℤ) (signature : String)
      (admin : Bool)
      → admin ≡ true
      → is_admin_attestation (attestation stamp did validator reason confidence signature admin)
        ≡ true
  unfolding attestation new_event rehash is_agent_validate is_admin_attestation has_truthy get
      truthy
  attestation_by_admin stamp did validator reason confidence signature true h = refl
  attestation_by_admin stamp did validator reason confidence signature false h = cc

  -- A signature that verifies is one of a known administrator over the last hash.
  admin_signature_verified :
      (c : EventChain) (admin signature : String) (r : AgentRegistry)
      → verify_admin_signature c admin signature r ≡ ok true
      → (key : String) × (bytes : List ℕ) × (l : Event) × (lookup admin r.admin_public_keys
          ≡ some key)
        × (k.b64decode signature ≡ some bytes)
        × (last? c.events ≡ some l)
        × (verify_did_signature admin l.hash bytes ≡ ok true)
  unfolding verify_admin_signature
  admin_signature_verified c admin signature r h =
      elim (Option-cases (lookup admin r.admin_public_keys)) [
        | inl q ↦ cc (rw (q, verify_admin_signature) at h)
        | inr (key, q) ↦ (elim (Option-cases (k.b64decode signature)) [
          | inl d ↦ cc (rw (q, d, verify_admin_signature) at h)
          | inr (bytes, d) ↦ (elim (Option-cases (last? c.events)) [
            | inl none_there ↦ cc (rw (q, d, none_there, verify_admin_signature) at h)
            | inr (l, at) ↦ (key, bytes, l, q, d, at, rw (q, d, at, verify_admin_signature) at h)
          ])
        ])
      ]

  attestation-SignedByAdmin :
      (stamp : Stamp) (did validator reason : String) (confidence : ℤ) (signature : String)
      (admin : Bool) (c : EventChain) (r : AgentRegistry)
      → lookup did r.engine.chains ≡ some c
      → admin ≡ true
      → r.admin_calls_allowed ≡ true
      → verify_admin_signature c validator signature r ≡ ok true
      → SignedByAdmin did (attestation stamp did validator reason confidence signature admin) c r
  unfolding attestation new_event rehash
  attestation-SignedByAdmin stamp did validator reason confidence signature admin c r there by_admin
        allowed verified =
      let (key, bytes, l, known, decoded, last, signed) =
        admin_signature_verified c validator signature r verified in
      (
        key,
        bytes,
        l,
        there,
        attestation_by_admin stamp did validator reason confidence signature admin by_admin,
        allowed,
        known,
        decoded,
        last,
        signed,
      )

  -- Every call is a step.
  pub run-Step :
      (stamp : Stamp) (op : Operation) (r : AgentRegistry)
      → Step int_of_text r (run int_of_text stamp op r)
  unfolding run update_agent deprecate_agent new_event rehash agent_genesis attestation
      is_agent_validate carries_confidence is_admin_attestation has_truthy get truthy
  run-Step stamp (registering profile public_key signature proof) r =
      elim (register_effect stamp profile public_key signature proof r) [
        | inl (_, _, same) ↦ kept same
        | inr (did, s) ↦
            started did (agent_genesis stamp (record profile { did = did }) signature proof) refl s
      ]
  run-Step stamp (validating did validator reason confidence signature admin) r =
      let e = attestation stamp did validator reason confidence signature admin in
      elim (validate_agent_outcome int_of_text stamp did validator reason confidence signature admin
        r) [
          | inl (_, _, same) ↦ kept same
          | inr (c, there, by, g) ↦ (elim by [
            | inl (is_admin, allowed, verified) ↦
                grown did e
                  (inr (
                    inl (
                      c,
                      attestation-SignedByAdmin stamp did validator reason confidence signature
                          admin c r there is_admin allowed verified,
                    )))
                  g
            | inr (_, _, by_active, _) ↦ grown did e (inr (inr (validator, by_active))) g
          ])
        ]
  run-Step stamp (updating did actor fields) r =
      let e = new_event stamp did agent_update actor "" (field "fields" (obj fields) end) in
      elim (write_effect did actor e r refl) [
        | inl (_, _, same) ↦ kept same
        | inr g ↦ grown did e (inl refl) g
      ]
  run-Step stamp (deprecating did actor reason) r =
      let e = new_event stamp did agent_deprecate actor reason end in
      elim (write_effect did actor e r refl) [
        | inl (_, _, same) ↦ kept same
        | inr g ↦ grown did e (inl refl) g
      ]
