-- ===== src/Tests/Documents.antt =====
-- Tests of documents (adl_lite/models.py) and of `ActionExecutor` (adl_lite/action_executor.py).
use adl_lite.Prelude.{
  ℕ, str_eq, if◌then◌else◌, ◌≡◌, refl, true, false, ◌||◌, none, some, [], ◌∷◌, ◌⊎◌,
}
use adl_lite.Prelude.Int.{pos}
use adl_lite.Prelude.Dict.{contains, lookup}
use adl_lite.Prelude.Text.{is_blank, is_empty}
use adl_lite.Prelude.Result.{ok}
use adl_lite.Payload.{get, end, null, num, text}
use adl_lite.Event.{provisional, validated, type_to_status, order}
use adl_lite.Ontology.{min_distinct_validators}
use adl_lite.Chain.{EventChain, status, fromkeys}
use adl_lite.Consensus.{Stamp}
use adl_lite.Document.{
  AdlFrontMatter, AdlDocument, ActionBlock, discovery_type, pending, failed, action_event_type,
}
use adl_lite.Document.Build.{event_chain}
use adl_lite.Document.Status.{joined_actions, document_status}
use adl_lite.Precondition.{check, gte, eq}
use adl_lite.Executor.{ActionDef, ActionExecutor, Refusal, refusal_entry}
use adl_lite.Executor.Execution.{Plugins, execute_one}
use adl_lite.Executor.Checks.{validate_action, with_actor}
use adl_lite.Executor.Transition.{target_status}
use adl_lite.Executor.Outcome.{guard, CarriedOut, execute_one_outcome}
use adl_lite.Executor.DryRun.{
  lets_pass, no_errors, needs_one_validator, dry_run_agrees, first_validation_is_refused,
}
use adl_lite.Tests.Samples.{sample_platform, no_int_of_text, sample_ontology, stamp1, stamp2}

abbrev same_stamp : ℕ → Stamp
same_stamp n = stamp1

abbrev fresh_matter : AdlFrontMatter
fresh_matter = record {
  adl_type = discovery_type;
  adl_id = "cap";
  status = provisional;
  confidence = 800000000;
  novelty = 0;
  domain = "aml";
  mechanism = none;
  scope = "public";
  validators = [];
  provisional_names = record { zh = none; en = some "capability" };
  evidence_refs = [];
  created_at = none;
  updated_at = none;
  l2_template = null;
}

abbrev pending_validation : ActionBlock
pending_validation = record {
  action_block_id = "a1";
  action = "validate";
  actor = "ann";
  reasoning = "";
  params = end;
  exec_status = pending;
  execution_log = [];
}

abbrev fresh_document : AdlDocument
fresh_document = record {
  front_matter = fresh_matter;
  adl_blocks = [];
  action_blocks = pending_validation ∷ [];
}

-- The definition of `validate` in the core ontology.
abbrev validate_def : ActionDef
validate_def = record {
  name = "validate";
  description = "Validator agent approves a concept";
  allowed_on = "discovery" ∷ "concept" ∷ [];
  triggers_transition = some "provisional → validated";
  required_params = [];
  preconditions =
      record { field_name = "confidence"; comparator = gte; value = num (pos 500000000) }
      ∷ record { field_name = "status"; comparator = eq; value = text "provisional" }
      ∷ needs_one_validator
      ∷ [];
  side_effects = "notify" ∷ "page" ∷ [];
}

abbrev sample_executor : ActionExecutor
sample_executor = record {
  ontology = sample_ontology;
  action_defs = ("validate", validate_def) ∷ [];
}

-- A side effect that writes into the block and succeeds, and a calibrator that counts its updates.
-- The other declared side effect is not known.
abbrev counting : Plugins ℕ
counting = record {
  effect = λ name.
      if str_eq name "notify"
      then some (λ l. (ok true, record l { block = record l.block { reasoning = "told" } }))
      else none;
  update_accuracy = λ actor observed context alpha n. Prim.Native.Nat.suc n;
}

abbrev reviewed_document : AdlDocument
reviewed_document = record fresh_document {
  front_matter = record fresh_matter { validators = "ann" ∷ [] };
}

transition_target : target_status (some "provisional → validated") ≡ some validated
unfolding target_status
transition_target = refl

-- With the actor among the validators the block passes.
reviewed_passes :
    validate_action no_int_of_text sample_executor reviewed_document pending_validation ≡ []
unfolding validate_action lookup is_blank contains fromkeys is_empty min_distinct_validators get
reviewed_passes = refl

-- A validation that is still pending counts.
pending_counts : joined_actions provisional fresh_document.action_blocks ≡ validated
unfolding action_event_type lookup type_to_status order
pending_counts = refl

document_status_example :
    (c : EventChain) × (event_chain same_stamp fresh_document ≡ ok c)
    × (status c ≡ joined_actions provisional fresh_document.action_blocks)
document_status_example = document_status same_stamp fresh_document

execute_one_outcome_example :
    let call =
      execute_one no_int_of_text same_stamp stamp2 counting sample_executor reviewed_document
        pending_validation 0 in
    ((r : Refusal) × (guard no_int_of_text sample_executor reviewed_document pending_validation
        ≡ some r)
      × (call ≡ (
        ok (refusal_entry r ∷ []),
        record {
          document = reviewed_document;
          block = record pending_validation {
            exec_status = failed;
            execution_log = refusal_entry r ∷ [];
          };
          world = 0;
        },
      )))
    ⊎ ((def : ActionDef) × (guard no_int_of_text sample_executor reviewed_document
            pending_validation
          ≡ none)
        × (lookup "validate" sample_executor.action_defs ≡ some def)
        × CarriedOut same_stamp stamp2 counting def
            (record { document = reviewed_document; block = pending_validation; world = 0 })
            call)
execute_one_outcome_example =
    execute_one_outcome no_int_of_text same_stamp stamp2 counting sample_executor reviewed_document
      pending_validation 0

ann_reviewed : (is_blank "ann" || contains "ann" ("ann" ∷ [])) ≡ true
unfolding is_blank contains
ann_reviewed = refl

dry_run_agrees_example :
    no_errors (validate_action no_int_of_text sample_executor reviewed_document pending_validation)
    ≡ lets_pass (guard no_int_of_text sample_executor reviewed_document pending_validation)
dry_run_agrees_example =
    dry_run_agrees no_int_of_text sample_executor reviewed_document pending_validation ann_reviewed

validate_known : lookup "validate" sample_executor.action_defs ≡ some validate_def
unfolding lookup
validate_known = refl

ann_named : is_blank "ann" ≡ false
unfolding is_blank
ann_named = refl

first_validation_is_refused_example :
    let left =
      (execute_one no_int_of_text same_stamp stamp2 counting sample_executor fresh_document
        pending_validation 0).1 in
    (left.document ≡ fresh_document)
    × (left.world ≡ 0)
    × (left.block.exec_status ≡ failed)
    × (check needs_one_validator (with_actor "ann" fresh_matter) ≡ true)
first_validation_is_refused_example =
    first_validation_is_refused no_int_of_text same_stamp stamp2 counting sample_executor
      fresh_document pending_validation 0 validate_def
      (record { field_name = "confidence"; comparator = gte; value = num (pos 500000000) }
        ∷ record { field_name = "status"; comparator = eq; value = text "provisional" }
        ∷ [])
      [] validate_known refl refl ann_named
