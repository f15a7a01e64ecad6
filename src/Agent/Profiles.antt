-- ===== src/Agent/Profiles.antt =====
-- `AgentProfile(**payload)`, `resolve_profile` and `get_agent` (adl_lite/agents/identity.py).
use adl_lite.Prelude.{
  ℕ, String, ◌≡◌, refl, sym, ap, ◌∙◌, Bool, true, false, Option, none, some, List, [], ◌∷◌, str_eq,
  eq_refl, Option-cases, inl, inr, if◌then◌else◌,
}
use adl_lite.Prelude.Dict.{lookup, lookup-insert}
use adl_lite.Prelude.Result.{
  Result, ok, err, ◌>>=◌, value_error, key_error, index_error, type_error,
}
use adl_lite.Payload.{Value, obj, arr, text, null, Items, nil, cons, Fields, get}
use adl_lite.Event.{Platform, rehash}
use adl_lite.Chain.{EventChain, empty_chain, append, link_to}
use adl_lite.Chain.Status.{append_total}
use adl_lite.Consensus.{Stamp, ConsensusEngine, new_event}
use adl_lite.Agent.{
  AgentRole, discoverer, reviewer, skeptic, merger, librarian, planner, role_text, AgentProfile,
  AgentRegistry, text_or_null, text_items, model_dump, agent_kind, chain_kind, kind_of,
}
use adl_lite.Agent.Registry.{agent_genesis, named_did, register_did, register_agent}
use adl_lite.Agent.Effects.{register_did-new, agent_genesis-carries}

-- `AgentRole(value)`
unfoldable pub role_of : String → Result AgentRole
role_of s =
    if str_eq s "discoverer"
    then ok discoverer
    else if str_eq s "reviewer"
    then ok reviewer
    else if str_eq s "skeptic"
    then ok skeptic
    else if str_eq s "merger"
    then ok merger
    else if str_eq s "librarian"
    then ok librarian
    else if str_eq s "planner"
    then ok planner
    else err value_error

-- A field of type `str`; what is no text fails the validation.
unfoldable pub text_of : Value → Result String
text_of (text s) = ok s
text_of _ = err value_error

-- A field of type `str | None`.
unfoldable pub optional_text : Value → Result (Option String)
optional_text null = ok none
optional_text (text s) = ok (some s)
optional_text _ = err value_error

unfoldable pub texts_of_items : Items → Result (List String)
texts_of_items nil = ok []
texts_of_items (cons (text s) xs) = do ss ← texts_of_items xs; ok (s ∷ ss)
texts_of_items (cons _ xs) = err value_error

-- A field of type `list[str]`.
unfoldable pub text_list : Value → Result (List String)
unfolding texts_of_items
text_list (arr xs) = texts_of_items xs
text_list _ = err value_error

-- A field that must be there, and one with a default.
abbrev pub required {ℓ} : {A : Type ℓ} → (Value → Result A) → String → Fields → Result A
required read key fs = elim (get key fs) [ none ↦ err value_error | some v ↦ read v ]

abbrev pub defaulted {ℓ} : {A : Type ℓ} → (Value → Result A) → A → String → Fields → Result A
defaulted read default key fs = elim (get key fs) [ none ↦ ok default | some v ↦ read v ]

-- `AgentProfile(**fields)`
unfoldable pub parse_profile : Fields → Result AgentProfile
unfolding role_of text_of optional_text text_list
parse_profile fs = do
  did ← required text_of "did" fs
  role_name ← required text_of "role" fs
  role ← role_of role_name
  name ← required text_of "name" fs
  model ← defaulted text_of "" "model" fs
  capabilities ← defaulted text_list [] "capabilities" fs
  mcp_endpoint ← defaulted optional_text none "mcp_endpoint" fs
  scope ← defaulted text_of "public" "scope" fs
  tenant ← defaulted optional_text none "tenant" fs
  org_id ← defaulted optional_text none "org_id" fs
  ok (record {
    did = did;
    role = role;
    name = name;
    model = model;
    capabilities = capabilities;
    mcp_endpoint = mcp_endpoint;
    scope = scope;
    tenant = tenant;
    org_id = org_id;
  })

unfoldable pub resolve_profile : EventChain → Result AgentProfile
unfolding parse_profile
resolve_profile c = elim c.events [
  | [] ↦ err index_error
  | genesis ∷ _ ↦ (elim (get "profile" genesis.payload) [
    | none ↦ err key_error
    | some v ↦ (elim v [ obj fs ↦ parse_profile fs | _ ↦ err type_error ])
  ])
]

unfoldable pub is_agent_chain : EventChain → Bool
is_agent_chain c = elim (chain_kind c) [ agent_kind ↦ true | _ ↦ false ]

unfoldable pub get_agent : String → ConsensusEngine → Result (Option AgentProfile)
unfolding resolve_profile is_agent_chain
get_agent agent_did g = elim (lookup agent_did g.chains) [
  | none ↦ ok none
  | some c ↦ if is_agent_chain c then (do q ← resolve_profile c; ok (some q)) else ok none
]

texts_of_items-text_items : (ss : List String) → texts_of_items (text_items ss) ≡ ok ss
unfolding texts_of_items text_items
texts_of_items-text_items [] = refl
texts_of_items-text_items (s ∷ ss) = rw (texts_of_items-text_items ss) refl

role_of-role_text : (role : AgentRole) → role_of (role_text role) ≡ ok role
unfolding role_of role_text
role_of-role_text discoverer = refl
role_of-role_text reviewer = refl
role_of-role_text skeptic = refl
role_of-role_text merger = refl
role_of-role_text librarian = refl
role_of-role_text planner = refl

optional_text-text_or_null : (o : Option String) → optional_text (text_or_null o) ≡ ok o
unfolding optional_text text_or_null
optional_text-text_or_null none = refl
optional_text-text_or_null (some s) = refl

parse_profile-model_dump : (q : AgentProfile) → parse_profile (model_dump q) ≡ ok q
unfolding parse_profile model_dump get text_of text_list
parse_profile-model_dump q =
    rw
      (
        role_of-role_text q.role,
        texts_of_items-text_items q.capabilities,
        optional_text-text_or_null q.mcp_endpoint,
        optional_text-text_or_null q.tenant,
        optional_text-text_or_null q.org_id,
      )
      refl

module _ ⦃p : Platform⦄ where
  resolved :
      (stamp : Stamp) (q : AgentProfile) (signature : String) (proof : Option Fields)
      (c : EventChain)
      → c.events ≡ link_to none (agent_genesis stamp q signature proof) ∷ []
      → (is_agent_chain c ≡ true) × (resolve_profile c ≡ ok q)
  unfolding resolve_profile is_agent_chain chain_kind kind_of link_to rehash agent_genesis new_event
      get
  resolved stamp q signature proof c es = (rw es refl, rw es (parse_profile-model_dump q))

  resolved_agent :
      (did : String) (q : AgentProfile) (g : ConsensusEngine) (c : EventChain)
      → lookup did g.chains ≡ some c
      → (is_agent_chain c ≡ true) × (resolve_profile c ≡ ok q)
      → get_agent did g ≡ ok (some q)
  unfolding get_agent
  resolved_agent did q g c found (kind, profile) = rw (found, kind, profile, get_agent) refl

  get_agent-register_did :
      (stamp : Stamp) (q : AgentProfile) (signature : String) (proof : Option Fields)
      (r : AgentRegistry) (chain : EventChain)
      → (register_did stamp q signature proof r).0 ≡ ok chain
      → get_agent q.did (register_did stamp q signature proof r).1.engine ≡ ok (some q)
  unfolding register_did empty_chain
  get_agent-register_did stamp q signature proof r chain h =
      elim (Option-cases (lookup q.did r.engine.chains)) [
        | inr (c, there) ↦ cc (rw (there, register_did) at h)
        | inl new ↦
            (let e = agent_genesis stamp q signature proof in
              let c = (append e (empty_chain q.did)).1 in
              elim (append_total e (empty_chain q.did)
                (agent_genesis-carries stamp q signature proof)) [
                  | inl (raised, _) ↦ cc (rw (new, raised, register_did) at h)
                  | inr (returned, es) ↦
                      (let found =
                          ap (lookup q.did)
                            (register_did-new stamp q signature proof r new returned)
                          ∙ lookup-insert q.did q.did c r.engine.chains
                          ∙ (rw (eq_refl q.did) refl) in
                        resolved_agent q.did q (register_did stamp q signature proof r).1.engine c
                          found (resolved stamp q signature proof c es))
                ])
      ]

  -- The profile that a successful registration was given is what `get_agent` finds under the DID,
  -- with that DID filled in.
  pub get_agent-register :
      (stamp : Stamp) (profile : AgentProfile) (public_key : Option (List ℕ))
      (did signature : String) (proof : Option Fields) (r : AgentRegistry) (chain : EventChain)
      → named_did profile public_key ≡ some did
      → (register_agent stamp profile public_key signature proof r).0 ≡ ok chain
      → get_agent did (register_agent stamp profile public_key signature proof r).1.engine
        ≡ ok (some (record profile { did = did }))
  unfolding register_agent
  get_agent-register stamp profile public_key did signature proof r chain q h =
      let eq : register_agent stamp profile public_key signature proof r
          ≡ register_did stamp (record profile { did = did }) signature proof r =
        rw (q, register_agent) refl in
      ap (λ (x : Result EventChain × AgentRegistry). get_agent did x.1.engine) eq
      ∙ get_agent-register_did stamp (record profile { did = did }) signature proof r chain
          (sym (ap (λ (x : Result EventChain × AgentRegistry). x.0) eq) ∙ h)
