-- ===== src/Executor/DryRun.antt =====
-- `ActionExecutor.validate_action` (adl_lite/action_executor.py) against what `_execute_one` checks.
use adl_lite.Prelude.{
  ℕ, String, ◌≡◌, refl, ap, ◌∙◌, Bool, true, false, ◌||◌, Option, none, some, List, [], ◌∷◌, ◌++◌,
  inl, inr, Bool-cases, Option-cases, if◌then◌else◌,
}
use adl_lite.Prelude.Int.{ℤ, pos}
use adl_lite.Prelude.Dict.{contains, lookup}
use adl_lite.Prelude.Text.{is_blank}
use adl_lite.Payload.{num}
use adl_lite.Event.{Platform, one}
use adl_lite.Consensus.{Stamp}
use adl_lite.Document.{AdlFrontMatter, AdlDocument, ActionBlock, failed}
use adl_lite.Precondition.{
  PreconditionRule, gte, attribute, order_of, order_of_numbers, holds, check,
}
use adl_lite.Executor.{
  ActionDef, ActionExecutor, Refusal, missing_params, precondition_failed, too_few_distinct,
}
use adl_lite.Executor.Checks.{
  missing, first_failed, all_failed, lacks_validators, checks, with_actor, validate_action,
}
use adl_lite.Executor.Execution.{Plugins, execute_one, refused}
use adl_lite.Executor.Outcome.{guard}

abbrev pub lets_pass : Option Refusal → Bool
lets_pass none = true
lets_pass (some _) = false

abbrev pub no_errors : List Refusal → Bool
no_errors [] = true
no_errors (_ ∷ _) = false

-- The rules and the distinct validators, one by one and all at once.
agree_on_rules :
    (rs : List PreconditionRule) (fm : AdlFrontMatter) (few : Bool)
    → no_errors (all_failed rs fm ++ (if few then too_few_distinct ∷ [] else []))
      ≡ lets_pass (elim (first_failed rs fm) [
        | some r ↦ some (precondition_failed r)
        | none ↦ if few then some too_few_distinct else none
      ])
unfolding all_failed first_failed
agree_on_rules [] fm true = refl
agree_on_rules [] fm false = refl
agree_on_rules (r ∷ rs) fm few = elim (Bool-cases (check r fm)) [
  | inl met ↦ rw (met, all_failed, first_failed) (agree_on_rules rs fm few)
  | inr unmet ↦ rw (unmet, all_failed, first_failed) refl
]

agree_on_checks :
    (ks : List String) (rs : List PreconditionRule) (fm : AdlFrontMatter) (few : Bool)
    → no_errors (
        (elim ks as (λ _. List Refusal) [ [] ↦ [] | _ ∷ _ ↦ missing_params ∷ [] ])
        ++ (all_failed rs fm ++ (if few then too_few_distinct ∷ [] else [])))
      ≡ lets_pass (elim ks [
        | _ ∷ _ ↦ some missing_params
        | [] ↦ (elim (first_failed rs fm) [
          | some r ↦ some (precondition_failed r)
          | none ↦ if few then some too_few_distinct else none
        ])
      ])
agree_on_checks [] rs fm few = agree_on_rules rs fm few
agree_on_checks (k ∷ ks) rs fm few = refl

with_actor_same :
    (actor : String) (fm : AdlFrontMatter)
    → (is_blank actor || contains actor fm.validators) ≡ true
    → with_actor actor fm ≡ fm
unfolding with_actor
with_actor_same actor fm h = elim (Bool-cases (is_blank actor)) [
  | inl blank ↦ rw blank refl
  | inr filled ↦ rw (filled, (rw filled at h)) refl
]

module _ (int_of_text : String → Option ℤ) where
  -- For a block whose actor is blank or is a validator already, the dry run finds no error just if
  -- the execution passes all its checks.
  pub dry_run_agrees :
      (x : ActionExecutor) (doc : AdlDocument) (action : ActionBlock)
      → (is_blank action.actor || contains action.actor doc.front_matter.validators) ≡ true
      → no_errors (validate_action int_of_text x doc action)
        ≡ lets_pass (guard int_of_text x doc action)
  unfolding validate_action checks
  dry_run_agrees x doc action known = elim (Option-cases (lookup action.action x.action_defs)) [
    | inl unknown ↦ rw (unknown, guard, validate_action) refl
    | inr (def, there) ↦
        rw
          (
            there,
            guard,
            validate_action,
            checks,
            with_actor_same action.actor doc.front_matter known,
          )
          (agree_on_checks (missing def.required_params action.params) def.preconditions
            doc.front_matter (lacks_validators int_of_text x def doc.front_matter action.actor))
  ]

abbrev pub needs_one_validator : PreconditionRule
needs_one_validator = record {
  field_name = "validator_count";
  comparator = gte;
  value = num (pos one);
}

needs_one-fails : (fm : AdlFrontMatter) → fm.validators ≡ [] → check needs_one_validator fm ≡ false
unfolding check attribute order_of order_of_numbers holds
needs_one-fails fm h = rw h refl

first_failed-some :
    (before : List PreconditionRule) (r : PreconditionRule) (after : List PreconditionRule)
    (fm : AdlFrontMatter)
    → check r fm ≡ false
    → (q : PreconditionRule) × (first_failed (before ++ r ∷ after) fm ≡ some q)
unfolding first_failed
first_failed-some [] r after fm fails = (r, rw fails refl)
first_failed-some (b ∷ before) r after fm fails = elim (Bool-cases (check b fm)) [
  | inl met ↦ rw (met, first_failed) (first_failed-some before r after fm fails)
  | inr unmet ↦ (b, rw (unmet, first_failed) refl)
]

needs_one-holds :
    (actor : String) (fm : AdlFrontMatter)
    → fm.validators ≡ []
    → is_blank actor ≡ false
    → check needs_one_validator (with_actor actor fm) ≡ true
unfolding with_actor contains check attribute order_of order_of_numbers holds
needs_one-holds actor fm alone named =
    ap (λ b. check needs_one_validator (if b then fm else extended)) named
    ∙ ap
        (λ vs.
          check needs_one_validator
            (if contains actor vs then fm else record fm { validators = vs ++ actor ∷ [] }))
        alone
  where
    extended : AdlFrontMatter
    extended =
        if contains actor fm.validators
        then fm
        else record fm { validators = fm.validators ++ actor ∷ [] }

-- A rule that fails stops the block, if nothing before does.
stop_at_rule :
    (ks : List String) (rs : List PreconditionRule) (fm : AdlFrontMatter) (few : Bool)
    (q : PreconditionRule)
    → first_failed rs fm ≡ some q
    → (r : Refusal) × ((elim ks as (λ _. Option Refusal) [
      | _ ∷ _ ↦ some missing_params
      | [] ↦ (elim (first_failed rs fm) [
        | some r ↦ some (precondition_failed r)
        | none ↦ if few then some too_few_distinct else none
      ])
    ])
        ≡ some r)
stop_at_rule [] rs fm few q fails = (precondition_failed q, rw fails refl)
stop_at_rule (k ∷ ks) rs fm few q fails = (missing_params, refl)

module _ ⦃p : Platform⦄ (int_of_text : String → Option ℤ) (stamps : ℕ → Stamp) (stamp : Stamp)
    {S : Type 0} (plugins : Plugins S) where
  -- An action with the rule `validator_count >= 1` is never carried out on a document without
  -- validators: the block is marked as failed and nothing else changes. The dry run, which counts
  -- the actor, takes the rule as met.
  pub first_validation_is_refused :
      (x : ActionExecutor) (doc : AdlDocument) (action : ActionBlock) (s : S) (def : ActionDef)
      (before after : List PreconditionRule)
      → lookup action.action x.action_defs ≡ some def
      → def.preconditions ≡ before ++ needs_one_validator ∷ after
      → doc.front_matter.validators ≡ []
      → is_blank action.actor ≡ false
      → let left = (execute_one int_of_text stamps stamp plugins x doc action s).1 in
        (left.document ≡ doc)
        × (left.world ≡ s)
        × (left.block.exec_status ≡ failed)
        × (check needs_one_validator (with_actor action.actor doc.front_matter) ≡ true)
  unfolding execute_one checks refused
  first_validation_is_refused x doc action s def before after known rules alone named =
      let (q, fails) =
        first_failed-some before needs_one_validator after doc.front_matter
          (needs_one-fails doc.front_matter alone) in
      let fails' : first_failed def.preconditions doc.front_matter ≡ some q =
        ap (λ rs. first_failed rs doc.front_matter) rules ∙ fails in
      let (r, stopped) =
        stop_at_rule (missing def.required_params action.params) def.preconditions doc.front_matter
          (lacks_validators int_of_text x def doc.front_matter action.actor) q fails' in
      (
        rw (known, stopped, execute_one) refl,
        rw (known, stopped, execute_one) refl,
        rw (known, stopped, execute_one) refl,
        needs_one-holds action.actor doc.front_matter alone named,
      )
