-- ===== src/Executor/Checks.antt =====
-- The checks of `ActionExecutor._execute_one` and those of the dry run `validate_action`
-- (adl_lite/action_executor.py).
use adl_lite.Prelude.{
  ℕ, ◌+◌, String, Bool, ◌&&◌, Option, none, some, List, [], ◌∷◌, ◌++◌, str_eq, ltb, length, is_some,
  if◌then◌else◌,
}
use adl_lite.Prelude.Int.{ℤ}
use adl_lite.Prelude.Dict.{contains, lookup}
use adl_lite.Prelude.Text.{is_empty, is_blank}
use adl_lite.Payload.{Fields, get}
use adl_lite.Chain.{fromkeys}
use adl_lite.Ontology.{min_distinct_validators}
use adl_lite.Document.{AdlFrontMatter, AdlDocument, ActionBlock}
use adl_lite.Precondition.{PreconditionRule, check}
use adl_lite.Executor.{
  ActionDef, ActionExecutor, Refusal, unknown_action, missing_params, precondition_failed,
  too_few_distinct,
}

unfoldable pub missing : List String → Fields → List String
missing [] params = []
missing (k ∷ ks) params =
    let rest = missing ks params in if is_some (get k params) then rest else k ∷ rest

-- The first rule that does not hold.
unfoldable pub first_failed : List PreconditionRule → AdlFrontMatter → Option PreconditionRule
unfolding check
first_failed [] fm = none
first_failed (r ∷ rs) fm = let rest = first_failed rs fm in if check r fm then rest else some r

-- The rules that do not hold.
unfoldable pub all_failed : List PreconditionRule → AdlFrontMatter → List Refusal
unfolding check
all_failed [] fm = []
all_failed (r ∷ rs) fm =
    let rest = all_failed rs fm in if check r fm then rest else precondition_failed r ∷ rest

-- The distinct validators, with the actor if it is none of them.
unfoldable pub effective_count : String → List String → ℕ
effective_count actor validators =
    length (fromkeys [] validators)
    + (if is_empty actor then 0 else if contains actor validators then 0 else 1)

-- The front matter that the dry run checks the rules against.
unfoldable pub with_actor : String → AdlFrontMatter → AdlFrontMatter
with_actor actor fm =
    if is_blank actor
    then fm
    else if contains actor fm.validators
    then fm
    else record fm { validators = fm.validators ++ actor ∷ [] }

module _ (int_of_text : String → Option ℤ) where
  -- Whether a definition of the name `validate` lacks distinct validators.
  unfoldable pub lacks_validators : ActionExecutor → ActionDef → AdlFrontMatter → String → Bool
  unfolding effective_count
  lacks_validators x def fm actor =
      str_eq def.name "validate"
      && ltb (effective_count actor fm.validators) (min_distinct_validators int_of_text x.ontology)

  -- The checks of `_execute_one` after that of the name, in their order.
  unfoldable pub checks : ActionExecutor → ActionDef → AdlDocument → ActionBlock → Option Refusal
  unfolding missing first_failed lacks_validators
  checks x def doc action = elim (missing def.required_params action.params) [
    | _ ∷ _ ↦ some missing_params
    | [] ↦ (elim (first_failed def.preconditions doc.front_matter) [
      | some r ↦ some (precondition_failed r)
      | none ↦
          if lacks_validators x def doc.front_matter action.actor
          then some too_few_distinct
          else none
    ])
  ]

  -- `validate_action`
  unfoldable pub validate_action : ActionExecutor → AdlDocument → ActionBlock → List Refusal
  unfolding missing all_failed lacks_validators with_actor
  validate_action x doc action = elim (lookup action.action x.action_defs) [
    | none ↦ unknown_action ∷ []
    | some def ↦
        let lacking : List Refusal = elim (missing def.required_params action.params) [
          | [] ↦ []
          | _ ∷ _ ↦ missing_params ∷ []
        ] in
        let broken = all_failed def.preconditions (with_actor action.actor doc.front_matter) in
        let few : List Refusal =
          if lacks_validators x def doc.front_matter action.actor
          then too_few_distinct ∷ []
          else [] in
        lacking ++ (broken ++ few)
  ]
