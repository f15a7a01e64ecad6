-- ===== src/Executor/Outcome.antt =====
-- What `ActionExecutor._execute_one` (adl_lite/action_executor.py) does on every path.
use adl_lite.Prelude.{
  ℕ, String, ◌≡◌, refl, ap, ◌∙◌, Bool, false, Option, none, some, List, [], ◌∷◌, ◌++◌, ◌⊎◌, inl,
  inr, Option-cases, if◌then◌else◌,
}
use adl_lite.Prelude.Int.{ℤ}
use adl_lite.Prelude.Dict.{lookup}
use adl_lite.Prelude.Result.{Error, Result, Result-cases, ok, err, ◌>>=◌}
use adl_lite.Event.{Platform}
use adl_lite.Consensus.{Stamp}
use adl_lite.Document.{AdlDocument, ActionBlock, ExecutionEntry, executed, failed}
use adl_lite.Executor.{ActionDef, ActionExecutor, Refusal, unknown_action, refusal_entry}
use adl_lite.Executor.Checks.{checks}
use adl_lite.Executor.Execution.{
  Plugins, Left, run_effects, feedback, all_succeeded, finished, refused, carry_out, execute_one,
}
use adl_lite.Executor.Transition.{apply_transition}

-- The checks of `_execute_one`, that of the name first.
abbrev pub guard : (String → Option ℤ) → ActionExecutor → AdlDocument → ActionBlock → Option Refusal
guard int_of_text x doc action = elim (lookup action.action x.action_defs) [
  | none ↦ some unknown_action
  | some def ↦ checks int_of_text x def doc action
]

module _ {S : Type 0} (plugins : Plugins S) where
  -- A run of side effects: each has one entry, in order. That of an unknown name says that it
  -- failed, that of a known one what the side effect returned.
  pub data Logged : List String → Left S → List ExecutionEntry → Left S → Type 0 where
    over : {l : Left S} → Logged [] l [] l
    not_there :
        {name : String} {names : List String} {log : List ExecutionEntry} {l m : Left S}
        → plugins.effect name ≡ none
        → Logged names l log m
        → Logged (name ∷ names) l (record { side_effect = name; success = false } ∷ log) m
    answered :
        {name : String} {names : List String} {log : List ExecutionEntry} {success : Bool}
        {effect : Left S → Result Bool × Left S} {l l' m : Left S}
        → plugins.effect name ≡ some effect
        → effect l ≡ (ok success, l')
        → Logged names l' log m
        → Logged (name ∷ names) l (record { side_effect = name; success = success } ∷ log) m

  -- A side effect raised after a run of those before it, and what it left is left.
  abbrev pub EffectRaised : List String → Left S → Error → Left S → Type 0
  EffectRaised names l x m =
      (before after : List String) × (name : String) × (log : List ExecutionEntry) × (between : Left
        S)
      × (effect : Left S → Result Bool × Left S) × (names ≡ before ++ name ∷ after)
      × Logged before l log between
      × (plugins.effect name ≡ some effect)
      × (effect between ≡ (err x, m))

  -- The run of `run_effects`.
  abbrev Run : List String → Left S → Result (List ExecutionEntry) × Left S → Type 0
  Run names l call =
      ((log : List ExecutionEntry) × (call.0 ≡ ok log) × Logged names l log call.1)
      ⊎ ((x : Error) × (call.0 ≡ err x) × EffectRaised names l x call.1)

  -- One more side effect was run before.
  effect_before :
      (name : String) (success : Bool) (names : List String) (l l' : Left S)
      (call : Result (List ExecutionEntry) × Left S)
      → ((ns : List String) (log : List ExecutionEntry) (m : Left S)
          → Logged ns l' log m
          → Logged (name ∷ ns) l (record { side_effect = name; success = success } ∷ log) m)
      → Run names l' call
      → Run
          (name ∷ names)
          l
          ((do log ← call.0; ok (record { side_effect = name; success = success } ∷ log)), call.1)
  effect_before name success names l l' call step (inl (log, returned, run)) = inl (
    record { side_effect = name; success = success } ∷ log,
    rw returned refl,
    step names log call.1 run,
  )
  effect_before name success names l l' call step
        (inr (x, raised, (before, after, bad, log, between, effect, split, run, at, raises))) =
      inr (
        x,
        rw raised refl,
        (
          name ∷ before,
          after,
          bad,
          record { side_effect = name; success = success } ∷ log,
          between,
          effect,
          ap (λ ns. name ∷ ns) split,
          step before log between run,
          at,
          raises,
        ),
      )

  run_effects-Run : (names : List String) (l : Left S) → Run names l (run_effects plugins names l)
  unfolding run_effects
  run_effects-Run [] l = inl ([], refl, over)
  run_effects-Run (name ∷ names) l = elim (Option-cases (plugins.effect name)) [
    | inl none_known ↦
        rw (none_known, run_effects)
          (effect_before name false names l l (run_effects plugins names l)
            (λ ns log m run. not_there none_known run) (run_effects-Run names l))
    | inr (effect, is_known) ↦ (elim (Result-cases (effect l).0) [
      | inl (x, raised) ↦
          rw (is_known, raised, run_effects)
            (inr (
              x,
              refl,
              (
                [],
                names,
                name,
                [],
                l,
                effect,
                refl,
                over,
                is_known,
                ap (λ r. (r, (effect l).1)) raised,
              ),
            ))
      | inr (success, ran) ↦
          rw (is_known, ran, run_effects)
            (effect_before name success names l (effect l).1
              (run_effects plugins names (effect l).1)
              (λ ns log m run. answered is_known (ap (λ r. (r, (effect l).1)) ran) run)
              (run_effects-Run names (effect l).1))
    ])
  ]

-- The path behind the checks.
module _ ⦃p : Platform⦄ (stamps : ℕ → Stamp) (stamp : Stamp) {S : Type 0}
    (plugins : Plugins S) where
  -- A call that returned.
  abbrev pub Finished : ActionDef → Left S → Result (List ExecutionEntry) → Left S → Type 0
  Finished def l answer after =
      (log : List ExecutionEntry) × (m : Left S) × (answer ≡ ok log)
      × Logged plugins def.side_effects l log m
      × (apply_transition stamps stamp m.block def m.document ≡ ok after.document)
      × (feedback plugins m.block def m.world ≡ (ok tt, after.world))
      × (after.block ≡ record m.block {
        exec_status = if all_succeeded log then executed else failed;
        execution_log = log;
      })

  -- A call that raised: in a side effect, in the transition, or in the feedback.
  abbrev pub Raised : ActionDef → Left S → Error → Left S → Type 0
  Raised def l x after =
      EffectRaised plugins def.side_effects l x after
      ⊎ ((log : List ExecutionEntry) × (m : Left S) × Logged plugins def.side_effects l log m
          × ((after ≡ m) × (apply_transition stamps stamp m.block def m.document ≡ err x)
              ⊎ ((apply_transition stamps stamp m.block def m.document ≡ ok after.document)
                  × (feedback plugins m.block def m.world ≡ (err x, after.world))
                  × (after.block ≡ m.block))))

  abbrev pub CarriedOut : ActionDef → Left S → Result (List ExecutionEntry) × Left S → Type 0
  CarriedOut def l call =
      Finished def l call.0 call.1 ⊎ ((x : Error) × (call.0 ≡ err x) × Raised def l x call.1)

  carry_out-CarriedOut :
      (def : ActionDef) (l : Left S) → CarriedOut def l (carry_out stamps stamp plugins def l)
  unfolding carry_out finished
  carry_out-CarriedOut def l =
      let (r, m) = run_effects plugins def.side_effects l in
      elim (run_effects-Run plugins def.side_effects l) [
        | inr (x, raised, why) ↦
            inr (x, rw (raised, carry_out) refl, inl (rw (raised, carry_out) why))
        | inl (log, ran, run) ↦
            (elim (Result-cases (apply_transition stamps stamp m.block def m.document)) [
              | inl (x, raised) ↦ inr (
                x,
                rw (ran, raised, carry_out) refl,
                inr (log, m, run, inl (rw (ran, raised, carry_out) refl, raised)),
              )
              | inr (doc', moved) ↦ (elim (Result-cases (feedback plugins m.block def m.world).0) [
                | inl (x, raised) ↦ inr (
                  x,
                  rw (ran, moved, raised, carry_out) refl,
                  inr (
                    log,
                    m,
                    run,
                    inr (
                      moved ∙ (rw (ran, moved, raised, carry_out) refl),
                      ap (λ f. (f, (feedback plugins m.block def m.world).1)) raised
                          ∙ (rw (ran, moved, raised, carry_out) refl),
                      rw (ran, moved, raised, carry_out) refl,
                    ),
                  ),
                )
                | inr (_, fed) ↦ inl (
                  log,
                  m,
                  rw (ran, moved, fed, carry_out) refl,
                  run,
                  moved ∙ (rw (ran, moved, fed, carry_out) refl),
                  ap (λ f. (f, (feedback plugins m.block def m.world).1)) fed
                      ∙ (rw (ran, moved, fed, carry_out) refl),
                  rw (ran, moved, fed, carry_out) refl,
                )
              ])
            ])
      ]

module _ ⦃p : Platform⦄ (int_of_text : String → Option ℤ) (stamps : ℕ → Stamp) (stamp : Stamp)
    {S : Type 0} (plugins : Plugins S) where
  -- A block that a check stops is marked as failed with that check as the only entry of its log, and
  -- nothing else changes. A block that passes the checks is carried out. If the call returns, the
  -- declared side effects were run in their order, each on what the one before left, and the log has
  -- one entry for each: failure for an unknown name, and else what the side effect returned. The
  -- declared transition has been applied to the document, also if some side effects failed, the
  -- calibrator has got its feedback, and the block is marked as executed just if all of them
  -- succeeded. If the call raises, a side effect, the transition or the feedback raised, what came
  -- before it is kept, and the block has the status and the log that the side effects left.
  pub execute_one_outcome :
      (x : ActionExecutor) (doc : AdlDocument) (action : ActionBlock) (s : S)
      → let call = execute_one int_of_text stamps stamp plugins x doc action s in
        ((r : Refusal) × (guard int_of_text x doc action ≡ some r)
          × (call ≡ (
            ok (refusal_entry r ∷ []),
            record {
              document = doc;
              block = record action { exec_status = failed; execution_log = refusal_entry r ∷ [] };
              world = s;
            },
          )))
        ⊎ ((def : ActionDef) × (guard int_of_text x doc action ≡ none)
            × (lookup action.action x.action_defs ≡ some def)
            × CarriedOut stamps stamp plugins def
                (record { document = doc; block = action; world = s })
                call)
  unfolding execute_one refused
  execute_one_outcome x doc action s = elim (Option-cases (lookup action.action x.action_defs)) [
    | inl unknown ↦ inl (unknown_action, rw (unknown, guard) refl, rw (unknown, execute_one) refl)
    | inr (def, known) ↦ (elim (Option-cases (checks int_of_text x def doc action)) [
      | inr (r, stopped) ↦ inl (r, rw (known, guard) stopped, rw (known, stopped, execute_one) refl)
      | inl passed ↦ inr (
        def,
        rw (known, guard) passed,
        known,
        rw (known, passed, execute_one)
            (carry_out-CarriedOut stamps stamp plugins def
              (record { document = doc; block = action; world = s })),
      )
    ])
  ]
