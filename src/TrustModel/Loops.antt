-- ===== src/TrustModel/Loops.antt =====
-- The loops of `TrustValidator.validate_event_chain` over the validations and over the signed events
-- (adl_lite/trust_model.py).
use Prim.Native.String
use adl_lite.Prelude.{
  ℕ, String, Bool, true, false, ◌&&◌, Option, none, some, List, [], ◌∷◌, ◌++◌, str_eq,
  if◌then◌else◌,
}
use adl_lite.Prelude.Dict.{contains}
use adl_lite.Prelude.Text.{is_empty}
use adl_lite.Prelude.Result.{Result, ok, err, ◌>>=◌, unsupported_method}
use adl_lite.Event.{EventType, register, snapshot, Event}
use adl_lite.Chain.{is_validate}
use adl_lite.Did.Resolver.{Signatures, method, is_did, resolve_did_key, verify_did_signature}
use adl_lite.TrustModel.{
  TrustError, self_validation_loop, unresolved_identity, no_signature, binding_failed,
}

unfoldable pub names_discoverer : EventType → Bool
names_discoverer register = true
names_discoverer snapshot = true
names_discoverer _ = false

-- `_find_discoverer`
unfoldable pub find_discoverer : List Event → Option String
unfolding names_discoverer
find_discoverer [] = none
find_discoverer (e ∷ es) =
    let rest = find_discoverer es in if names_discoverer e.event_type then some e.actor else rest

unfoldable pub validate_events : List Event → List Event
validate_events [] = []
validate_events (e ∷ es) =
    let rest = validate_events es in if is_validate e.event_type then e ∷ rest else rest

unfoldable pub is_discoverer : String → Option String → Bool
is_discoverer actor none = false
is_discoverer actor (some d) = str_eq actor d

-- `set.add`
unfoldable pub add_key : String → List String → List String
add_key k ks = if contains k ks then ks else k ∷ ks

unfoldable pub has_pair : String × String → List (String × String) → Bool
has_pair k [] = false
has_pair k (j ∷ js) =
    let rest = has_pair k js in if str_eq k.0 j.0 && str_eq k.1 j.1 then true else rest

unfoldable pub add_pair : String × String → List (String × String) → List (String × String)
unfolding has_pair
add_pair k ks = if has_pair k ks then ks else k ∷ ks

-- What the loop over the validations has gathered.
pub record Gathered : Type 0 where
  pub identity_keys : List String
  pub diversity_keys : List (String × String)
  pub sybil_filtered : Bool
  pub errors : List TrustError

-- What `_identity_keys` comes to: an unsupported method ends the validation, any other exception is
-- an error of the actor.
pub data Identity : Type 0 where
  known : String → String × String → Identity
  unsupported unresolved : Identity

-- `b64encode` is base64 of key bytes.
module _ ⦃k : Signatures⦄ (b64encode : List ℕ → String) where
  -- `_identity_keys`
  unfoldable pub identity_keys : String → Identity
  unfolding is_did method resolve_did_key
  identity_keys actor =
      let as_actor = known (String.◌++◌ "actor:" actor) ("actor", actor) in
      let by_key = elim (resolve_did_key actor) as (λ _. Identity) [
        | err _ ↦ unresolved
        | ok doc ↦ (elim doc.verification_methods [
          | [] ↦ unresolved
          | vm ∷ _ ↦
              let ident = String.◌++◌ "key:" (b64encode vm.public_key_bytes) in
              known ident ("key", ident)
        ])
      ] in
      if is_did actor
      then (elim (method actor) [
        | err _ ↦ unresolved
        | ok name ↦
            if str_eq name "ethr"
            then unsupported
            else if str_eq name "key"
            then by_key
            else if str_eq name "web"
            then known (String.◌++◌ "web:" actor) ("web", actor)
            else as_actor
      ])
      else as_actor

  -- The loop over the validations (B3).
  unfoldable pub gather :
      Option (String → String × String) → Option String → List Event → Gathered → Result Gathered
  unfolding identity_keys is_discoverer add_key add_pair
  gather provider discoverer [] g = ok g
  gather provider discoverer (e ∷ es) g =
      let looped = gather provider discoverer es (record g {
        sybil_filtered = true;
        errors = g.errors ++ self_validation_loop e.actor ∷ [];
      }) in
      let lost =
        gather provider discoverer es
          (record g { errors = g.errors ++ unresolved_identity e.actor ∷ [] }) in
      if is_discoverer e.actor discoverer then looped else elim (identity_keys e.actor) [
        | unsupported ↦ err unsupported_method
        | unresolved ↦ lost
        | known ident diversity ↦ gather provider discoverer es (record g {
          identity_keys = add_key ident g.identity_keys;
          diversity_keys =
              add_pair (elim provider [ none ↦ diversity | some key ↦ key e.actor ])
                g.diversity_keys;
        })
      ]

module _ ⦃k : Signatures⦄ where
  -- `_verify_did_event`: whether the signature holds; other exceptions count as a failure.
  unfoldable pub verify_did_event : Event → Result Bool
  unfolding method verify_did_signature
  verify_did_event e = elim (method e.actor) [
    | err _ ↦ ok false
    | ok name ↦
        if str_eq name "ethr" then err unsupported_method else elim (k.b64decode e.signature) [
          | none ↦ ok false
          | some bytes ↦ (elim (verify_did_signature e.actor e.hash bytes) [
            | err _ ↦ ok false
            | ok b ↦ ok b
          ])
        ]
  ]

  -- The loop over the events signed by DIDs (B2): the errors, none of which means that all are bound.
  unfoldable pub binding_errors : List Event → Result (List TrustError)
  unfolding is_did verify_did_event
  binding_errors [] = ok []
  binding_errors (e ∷ es) =
      let rest = binding_errors es in
      if is_did e.actor
      then (if is_empty e.signature
          then (do later ← rest; ok (no_signature e.event_id ∷ later))
          else (do
            holds ← verify_did_event e
            later ← rest
            ok (if holds then later else binding_failed e.event_id ∷ later)))
      else rest
