-- ===== src/Executor.antt =====
-- `ActionExecutor` (adl_lite/action_executor.py): its definitions of actions and why a block is not
-- carried out. The texts of log entries and of errors are not modelled.
pub mod Checks
pub mod Transition
pub mod Execution
pub mod Outcome
pub mod DryRun
use Prim.Native.Char.{code}
use Prim.Native.String
use adl_lite.Prelude.{
  ℕ, ◌+◌, String, Bool, true, false, ◌&&◌, Option, none, some, List, [], ◌∷◌, ◌++◌, str_eq, ltb,
  ◌==◌, length, not, is_some, map, if◌then◌else◌,
}
use adl_lite.Prelude.Int.{ℤ, pos}
use adl_lite.Prelude.Dict.{Dict, contains, lookup, insert}
use adl_lite.Prelude.Text.{is_empty, is_blank, strip}
use adl_lite.Prelude.Result.{Result, ok, err, ◌>>=◌}
use adl_lite.Payload.{Value, text, num, Fields, field, end, get}
use adl_lite.Event.{
  DiscoveryStatus, provisional, validated, deprecated, forked, archived, Platform, to_float, one,
}
use adl_lite.Chain.{EventChain, append, fromkeys}
use adl_lite.Ontology.{min_distinct_validators, status_text}
use adl_lite.Consensus.{Stamp, new_event, status_to_event_type}
use adl_lite.Did.Resolver.{put_first, strip_prefix}
use adl_lite.Document.{
  AdlFrontMatter, AdlDocument, ActionBlock, ExecutionEntry, ActionExecStatus, pending, executed,
  failed,
}
use adl_lite.Document.Build.{event_chain, refresh_snapshot}
use adl_lite.Precondition.{PreconditionRule, check}

pub record ActionDef : Type 0 where
  pub name : String
  pub description : String
  pub allowed_on : List String
  pub triggers_transition : Option String
  pub required_params : List String
  pub preconditions : List PreconditionRule
  pub side_effects : List String

-- The ontology and the definitions that were loaded from it.
pub record ActionExecutor : Type 0 where
  pub ontology : Fields
  pub action_defs : Dict ActionDef

-- Why a block is not carried out.
pub data Refusal : Type 0 where
  unknown_action missing_params : Refusal
  precondition_failed : PreconditionRule → Refusal
  too_few_distinct : Refusal

-- The name under which the log has it.
unfoldable pub refusal_entry : Refusal → ExecutionEntry
refusal_entry unknown_action = record { side_effect = "_validate"; success = false }
refusal_entry missing_params = record { side_effect = "_validate"; success = false }
refusal_entry (precondition_failed r) = record { side_effect = "_precondition"; success = false }
refusal_entry too_few_distinct = record { side_effect = "_collusion_resistance"; success = false }
