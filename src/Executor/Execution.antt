-- ===== src/Executor/Execution.antt =====
-- `ActionExecutor._execute_one` behind its checks, and `execute_pending`
-- (adl_lite/action_executor.py).
use adl_lite.Prelude.{
  ℕ, String, Bool, true, false, ◌&&◌, Option, none, some, List, [], ◌∷◌, ◌++◌, if◌then◌else◌,
}
use adl_lite.Prelude.Int.{ℤ, pos}
use adl_lite.Prelude.Dict.{Dict, lookup, insert}
use adl_lite.Prelude.Result.{Result, ok, err, ◌>>=◌}
use adl_lite.Payload.{Value, text, Fields, get}
use adl_lite.Event.{Platform, to_float}
use adl_lite.Consensus.{Stamp}
use adl_lite.Document.{
  AdlDocument, ActionBlock, ExecutionEntry, ActionExecStatus, pending, executed, failed,
}
use adl_lite.Executor.{ActionDef, ActionExecutor, Refusal, unknown_action, refusal_entry}
use adl_lite.Executor.Checks.{checks}
use adl_lite.Executor.Transition.{gives_feedback, or_else, apply_transition}

-- `float(params.get(key, default))`
unfoldable pub float_param : ⦃p : Platform⦄ → String → ℤ → Fields → Result ℤ
float_param key default params = elim (get key params) [ none ↦ ok default | some v ↦ to_float v ]

-- `params.get("context", "general")`
unfoldable pub context_of : Fields → Value
context_of params = elim (get "context" params) [ none ↦ text "general" | some v ↦ v ]

-- The document, the block and the world that an execution works on, and what it leaves of them.
pub record Left (S : Type 0) : Type 0 where
  pub document : AdlDocument
  pub block : ActionBlock
  pub world : S

-- The side effects by their names, and `update_accuracy_ewma` of the calibrator, which takes the
-- actor, the observed accuracy, the context (a text of the value) and alpha. A side effect gets the
-- document and the block themselves, so it may change both, acts on the world `S`, and may raise.
-- What it changes of the block stands in the document too, and it changes no other block of it.
pub record Plugins (S : Type 0) : Type 1 where
  pub effect : String → Option (Left S → Result Bool × Left S)
  pub update_accuracy : String → ℤ → Value → ℤ → S → S

module _ {S : Type 0} (plugins : Plugins S) where
  -- The loop over the declared side effects: the entries of the log.
  unfoldable pub run_effects : List String → Left S → Result (List ExecutionEntry) × Left S
  run_effects [] l = (ok [], l)
  run_effects (name ∷ names) l =
      let unknown = run_effects names l in
      elim (plugins.effect name) [
        | none ↦ (
          (do log ← unknown.0; ok (record { side_effect = name; success = false } ∷ log)),
          unknown.1,
        )
        | some run ↦
            (let (r, l') = run l in
              let rest = run_effects names l' in
              elim r [
                | err x ↦ (err x, l')
                | ok success ↦ (
                  (do log ← rest.0; ok (record { side_effect = name; success = success } ∷ log)),
                  rest.1,
                )
              ])
      ]

  -- The feedback to the calibrator (5b).
  unfoldable pub feedback : ⦃p : Platform⦄ → ActionBlock → ActionDef → S → Result (Unit {0}) × S
  unfolding float_param gives_feedback or_else context_of
  feedback action def s =
      let call : Result S =
        if gives_feedback def.triggers_transition
        then (do
          observed ← float_param "confidence" (pos 500000000) action.params
          alpha ← float_param "alpha" (pos 300000000) action.params
          ok (
              plugins.update_accuracy (or_else action.actor "system") observed
                (context_of action.params) alpha s))
        else ok s in
      elim call [ err x ↦ (err x, s) | ok s' ↦ (ok tt, s') ]

-- `all_ok`
unfoldable pub all_succeeded : List ExecutionEntry → Bool
all_succeeded [] = true
all_succeeded (e ∷ es) = e.success && all_succeeded es

-- The block with the log and the status that it ends with.
unfoldable pub finished : List ExecutionEntry → ActionBlock → ActionBlock
unfolding all_succeeded
finished log action = record action {
  exec_status = if all_succeeded log then executed else failed;
  execution_log = log;
}

unfoldable pub refused : Refusal → ActionBlock → ActionBlock
unfolding refusal_entry
refused r action = record action { exec_status = failed; execution_log = refusal_entry r ∷ [] }

unfoldable pub is_pending : ActionExecStatus → Bool
is_pending pending = true
is_pending _ = false

module _ ⦃p : Platform⦄ (stamps : ℕ → Stamp) (stamp : Stamp) {S : Type 0}
    (plugins : Plugins S) where
  -- The part of `_execute_one` behind the checks. Where a call raises, the block keeps the status
  -- and the log that the side effects left.
  unfoldable pub carry_out : ActionDef → Left S → Result (List ExecutionEntry) × Left S
  unfolding run_effects apply_transition feedback finished
  carry_out def l =
      let (r, m) = run_effects plugins def.side_effects l in
      elim r [
        | err x ↦ (err x, m)
        | ok log ↦ (elim (apply_transition stamps stamp m.block def m.document) [
          | err x ↦ (err x, m)
          | ok doc' ↦
              (let (f, s') = feedback plugins m.block def m.world in
                elim f [
                  | err x ↦ (err x, record { document = doc'; block = m.block; world = s' })
                  | ok _ ↦
                      (ok log, record { document = doc'; block = finished log m.block; world = s' })
                ])
        ])
      ]

module _ ⦃p : Platform⦄ (int_of_text : String → Option ℤ) (stamps : ℕ → Stamp) (stamp : Stamp)
    {S : Type 0} (plugins : Plugins S) where
  -- `_execute_one`
  unfoldable pub execute_one :
      ActionExecutor → AdlDocument → ActionBlock → S → Result (List ExecutionEntry) × Left S
  unfolding checks refused carry_out
  execute_one x doc action s = elim (lookup action.action x.action_defs) [
    | none ↦ (
      ok (refusal_entry unknown_action ∷ []),
      record { document = doc; block = refused unknown_action action; world = s },
    )
    | some def ↦
        (let passed =
            carry_out stamps stamp plugins def
              (record { document = doc; block = action; world = s }) in
          elim (checks int_of_text x def doc action) [
            | some r ↦ (
              ok (refusal_entry r ∷ []),
              record { document = doc; block = refused r action; world = s },
            )
            | none ↦ passed
          ])
  ]

  -- The loop of `execute_pending`, over the blocks of the document with those before. The pending
  -- ones are chosen beforehand, and a block changes its status only by its own execution.
  unfoldable pub execute_blocks :
      ActionExecutor
      → List ActionBlock
      → List ActionBlock
      → Dict (List ExecutionEntry)
      → AdlDocument
      → S
      → Result (Dict (List ExecutionEntry)) × AdlDocument × S
  unfolding execute_one is_pending
  execute_blocks x before [] results doc s = (ok results, doc, s)
  execute_blocks x before (a ∷ blocks) results doc s =
      let (r, left) = execute_one x doc a s in
      let doc' = record left.document { action_blocks = before ++ left.block ∷ blocks } in
      let skipped = execute_blocks x (before ++ a ∷ []) blocks results doc s in
      let log : List ExecutionEntry = elim r [ ok log ↦ log | err e ↦ [] ] in
      let run =
        execute_blocks x (before ++ left.block ∷ []) blocks (insert a.action_block_id log results)
          doc' left.world in
      if is_pending a.exec_status
      then (elim r [ err e ↦ (err e, doc', left.world) | ok _ ↦ run ])
      else skipped

  -- `execute_pending`
  unfoldable pub execute_pending :
      ActionExecutor → AdlDocument → S → Result (Dict (List ExecutionEntry)) × AdlDocument × S
  unfolding execute_blocks
  execute_pending x doc s = execute_blocks x [] doc.action_blocks [] doc s
