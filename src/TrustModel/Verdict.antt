-- ===== src/TrustModel/Verdict.antt =====
-- `TrustValidator.validate_event_chain` (adl_lite/trust_model.py): the reputation floor and the
-- result.
use adl_lite.Prelude.{
  ℕ, String, Bool, true, false, ◌&&◌, Option, none, some, List, [], ◌∷◌, ◌++◌, ltb, leb, length,
  if◌then◌else◌,
}
use adl_lite.Prelude.Int.{ℤ, pos, leb_ℤ}
use adl_lite.Prelude.Dict.{contains}
use adl_lite.Prelude.Text.{str_lt}
use adl_lite.Prelude.Result.{Result, ok, ◌>>=◌}
use adl_lite.Event.{Event}
use adl_lite.Chain.{EventChain}
use adl_lite.Did.Resolver.{Signatures}
use adl_lite.TrustModel.{
  ConsensusConfig, ResolvedConfig, resolve, TrustError, chain_is_empty, insufficient_validators,
  diversity_missing, below_floor, ValidationResult,
}
use adl_lite.TrustModel.Loops.{find_discoverer, validate_events, Gathered, gather, binding_errors}

-- The actors whose reputation is below the floor.
unfoldable pub floor_errors : (String → ℤ) → ℤ → List String → List TrustError
floor_errors reputation floor [] = []
floor_errors reputation floor (v ∷ vs) =
    let rest = floor_errors reputation floor vs in
    if leb_ℤ floor (reputation v) then rest else below_floor v ∷ rest

unfoldable pub insert_text : String → List String → List String
insert_text s [] = s ∷ []
insert_text s (t ∷ ts) = let rest = insert_text s ts in if str_lt s t then s ∷ t ∷ ts else t ∷ rest

-- `sorted({e.actor for e in events})`
unfoldable pub sorted_actors : List Event → List String
unfolding insert_text
sorted_actors [] = []
sorted_actors (e ∷ es) =
    let rest = sorted_actors es in if contains e.actor rest then rest else insert_text e.actor rest

-- The reputation floor: it is off at 0, and without a store.
unfoldable pub reputation_errors :
    Option (String → ℤ) → ResolvedConfig → List Event → List TrustError
unfolding floor_errors sorted_actors
reputation_errors none config events = []
reputation_errors (some reputation) config events =
    if leb_ℤ config.min_validator_reputation (pos 0)
    then []
    else floor_errors reputation config.min_validator_reputation (sorted_actors events)

unfoldable pub is_clean : List TrustError → Bool
is_clean [] = true
is_clean (_ ∷ _) = false

-- The end of `validate_event_chain`, from what the loops have found.
unfoldable pub conclude :
    ResolvedConfig → Gathered → List TrustError → List TrustError → ValidationResult
unfolding is_clean
conclude config g reputation binding =
    let distinct = length g.identity_keys in
    let enough = leb config.min_distinct_validators distinct in
    let diverse =
      if config.enforce_validator_diversity && ltb 0 distinct
      then leb distinct (length g.diversity_keys)
      else true in
    let few : List TrustError = if enough then [] else insufficient_validators ∷ [] in
    let alike : List TrustError = if diverse then [] else diversity_missing ∷ [] in
    let errors = g.errors ++ (few ++ (reputation ++ (binding ++ alike))) in
    record {
      valid = is_clean errors && enough && is_clean binding && diverse;
      errors = errors;
      distinct_validators = distinct;
      did_bound = is_clean binding;
      sybil_filtered = g.sybil_filtered;
      diversity_satisfied = diverse;
    }

-- `TrustValidator(diversity_provider, reputation_store)`; `reputation` is `formula_v2` of the score.
pub record TrustValidator : Type 0 where
  pub diversity_provider : Option (String → String × String)
  pub reputation : Option (String → ℤ)

unfoldable pub effective_provider :
    ResolvedConfig → TrustValidator → Option (String → String × String)
effective_provider config v = elim config.diversity_provider [
  | none ↦ v.diversity_provider
  | some key ↦ some key
]

module _ ⦃k : Signatures⦄ (b64encode : List ℕ → String) where
  -- `validate_event_chain`
  unfoldable pub validate_event_chain :
      TrustValidator → EventChain → ConsensusConfig → Result ValidationResult
  unfolding resolve find_discoverer validate_events effective_provider gather binding_errors
      reputation_errors conclude
  validate_event_chain v c config =
      let resolved = resolve config in
      let checked = (do
        g ←
            gather b64encode (effective_provider resolved v) (find_discoverer c.events)
              (validate_events c.events)
              (record {
                identity_keys = [];
                diversity_keys = [];
                sybil_filtered = false;
                errors = [];
              })
        binding ← binding_errors c.events
        ok (
            conclude resolved g (reputation_errors v.reputation resolved (validate_events c.events))
              binding)) in
      elim c.events [
        | [] ↦ ok (record {
          valid = false;
          errors = chain_is_empty ∷ [];
          distinct_validators = 0;
          did_bound = true;
          sybil_filtered = false;
          diversity_satisfied = true;
        })
        | _ ∷ _ ↦ checked
      ]
