-- ===== src/TrustModel.antt =====
-- `ConsensusConfig` and `TrustValidator` (adl_lite/trust_model.py): the checks of a chain that the
-- trust layer adds. The messages of its errors are not modelled.
pub mod Loops
pub mod Verdict
pub mod Soundness
use Prim.Native.String
use adl_lite.Prelude.{
  ℕ, ◌+◌, String, Bool, true, false, ◌&&◌, Option, none, some, List, [], ◌∷◌, ◌++◌, str_eq, ltb,
  leb, ◌==◌, length, map, if◌then◌else◌,
}
use adl_lite.Prelude.Int.{ℤ, pos, leb_ℤ}
use adl_lite.Prelude.Dict.{contains}
use adl_lite.Prelude.Text.{is_empty, str_lt}
use adl_lite.Prelude.Result.{Result, ok, err, ◌>>=◌, index_error, value_error, unsupported_method}
use adl_lite.Event.{EventType, register, snapshot, Event}
use adl_lite.Chain.{EventChain, is_validate}
use adl_lite.Did.Resolver.{Signatures, method, is_did, resolve_did_key, verify_did_signature}

pub data Mode : Type 0 where
  dev prod : Mode

-- The diversity provider, where there is one, gives the key of an actor; the reputation floor is
-- counted in units of 10⁻⁹.
pub record ConsensusConfig : Type 0 where
  pub mode : Mode
  pub min_distinct_validators : Option ℕ
  pub require_did_binding : Bool
  pub enforce_validator_diversity : Bool
  pub min_validator_reputation : ℤ
  pub diversity_provider : Option (String → String × String)

pub record ResolvedConfig : Type 0 where
  pub mode : Mode
  pub min_distinct_validators : ℕ
  pub require_did_binding : Bool
  pub enforce_validator_diversity : Bool
  pub min_validator_reputation : ℤ
  pub diversity_provider : Option (String → String × String)

unfoldable pub default_minimum : Mode → ℕ
default_minimum prod = 2
default_minimum dev = 1

unfoldable pub binding_in : Mode → Bool → Bool
binding_in prod declared = true
binding_in dev declared = declared

-- `resolve`
unfoldable pub resolve : ConsensusConfig → ResolvedConfig
unfolding default_minimum binding_in
resolve config = record {
  mode = config.mode;
  min_distinct_validators = elim config.min_distinct_validators [
    | none ↦ default_minimum config.mode
    | some n ↦ n
  ];
  require_did_binding = binding_in config.mode config.require_did_binding;
  enforce_validator_diversity = config.enforce_validator_diversity;
  min_validator_reputation = config.min_validator_reputation;
  diversity_provider = config.diversity_provider;
}

-- The errors that are collected, by their kind.
pub data TrustError : Type 0 where
  chain_is_empty insufficient_validators diversity_missing : TrustError
  self_validation_loop unresolved_identity below_floor : String → TrustError
  no_signature binding_failed : String → TrustError

pub record ValidationResult : Type 0 where
  pub valid : Bool
  pub errors : List TrustError
  pub distinct_validators : ℕ
  pub did_bound : Bool
  pub sybil_filtered : Bool
  pub diversity_satisfied : Bool
