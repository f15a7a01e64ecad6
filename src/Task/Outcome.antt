-- ===== src/Task/Outcome.antt =====
-- What an operation of `TaskRegistry` (adl_lite/agents/task.py) leaves, on every branch.
use adl_lite.Prelude.{
  String, ◌≡◌, refl, sym, ap, ◌∙◌, true, false, none, some, [], ◌∷◌, ◌++◌, last?, str_eq, ◌⊎◌, inl,
  inr, Bool-cases, Option-cases, arith, if◌then◌else◌,
}
use adl_lite.Prelude.Dict.{Dict, lookup, insert, lookup-insert, lookup-insert_same}
use adl_lite.Prelude.Result.{Error, err, value_error}
use adl_lite.Event.{Platform}
use adl_lite.Chain.{EventChain, append, link_to}
use adl_lite.Chain.Status.{append_total}
use adl_lite.Consensus.{Stamp}
use adl_lite.Task.{TaskStatus, closed, allows, derive_task_status, guard_transition, Operation, run}
use adl_lite.Task.Lifecycle.{derive-append}
use adl_lite.Task.Operations.{target, drawn, appended, run-drawn, drawn-carries, drawn-target}

module _ ⦃p : Platform⦄ where
  -- An operation that was refused: every chain is as it was.
  abbrev pub Refused : Operation → Stamp → String → Dict EventChain → Type 0
  Refused op stamp task_id chains =
      (x : Error) × ((run op stamp task_id chains).0 ≡ err x)
      × ((j : String) → lookup j (run op stamp task_id chains).1 ≡ lookup j chains)

  -- An operation that was allowed by the table and took the task to its status with one event.
  abbrev pub Advanced : Operation → Stamp → String → Dict EventChain → Type 0
  Advanced op stamp task_id chains =
      (c c' : EventChain) × (lookup task_id chains ≡ some c)
      × (allows (derive_task_status c.events) (target op) ≡ true)
      × ((j : String)
          → lookup j (run op stamp task_id chains).1
            ≡ (if str_eq task_id j then some c' else lookup j chains))
      × (derive_task_status c'.events ≡ target op)
      × (c'.events ≡ c.events ++ link_to (last? c.events) (drawn op stamp task_id) ∷ [])

  guard_allows :
      (task_id : String) (to : TaskStatus) (chains : Dict EventChain)
      → guard_transition task_id to chains ≡ none
      → (c : EventChain) × (lookup task_id chains ≡ some c)
        × (allows (derive_task_status c.events) to ≡ true)
  unfolding guard_transition
  guard_allows task_id to chains h = elim (Option-cases (lookup task_id chains)) [
    | inl q ↦ cc (rw (q, guard_transition) at h)
    | inr (c, q) ↦ (elim (Bool-cases (allows (derive_task_status c.events) to)) [
      | inl yes_eq ↦ (c, q, yes_eq)
      | inr no_eq ↦ cc (rw (q, no_eq, guard_transition) at h)
    ])
  ]

  advance :
      (op : Operation) (stamp : Stamp) (task_id : String) (c : EventChain) (c' : EventChain)
      → c'.events ≡ c.events ++ link_to (last? c.events) (drawn op stamp task_id) ∷ []
      → derive_task_status c'.events ≡ target op
  advance op stamp task_id c c' q =
      ap derive_task_status q
      ∙ derive-append c.events (link_to (last? c.events) (drawn op stamp task_id))
      ∙ drawn-target op stamp task_id (last? c.events) (derive_task_status c.events)

  -- An operation on a task either raises and leaves every chain as it was, or the transition table
  -- allows its status after the derived one: then the event of the operation stands linked at the
  -- end of the task's chain, the derived status is the one asked for, and no other chain changes.
  pub operation_outcome :
      (op : Operation) (stamp : Stamp) (task_id : String) (chains : Dict EventChain)
      → Refused op stamp task_id chains ⊎ Advanced op stamp task_id chains
  operation_outcome op stamp task_id chains =
      rw (run-drawn op stamp task_id chains)
        (elim (Option-cases (guard_transition task_id (target op) chains)) [
          | inr (x, g) ↦ inl (x, rw g refl, λ j. rw g refl)
          | inl g ↦
              (let (c, q, allowed) = guard_allows task_id (target op) chains g in
                elim (append_total (drawn op stamp task_id) c (drawn-carries op stamp task_id)) [
                  | inl (r, kept) ↦ inl (
                    value_error,
                    rw (g, q, r, appended) refl,
                    λ j.
                        rw (g, q, r, appended)
                          (ap (λ d. lookup j (insert task_id d chains)) kept
                            ∙ lookup-insert_same task_id j c chains q),
                  )
                  | inr (r, es) ↦
                      (let c' = (append (drawn op stamp task_id) c).1 in
                        let status_eq = advance op stamp task_id c c' es in
                        inr (
                          c,
                          c',
                          q,
                          allowed,
                          λ j. rw (g, q, r, appended) (lookup-insert task_id j c' chains),
                          status_eq,
                          es,
                        ))
                ])
        ])

  allows_closed : (s : TaskStatus) → allows closed s ≡ false
  unfolding allows
  allows_closed s = ground arith

  -- A closed task stays as it is: every operation on it raises and leaves every chain as it was.
  pub closed_is_terminal :
      (op : Operation) (stamp : Stamp) (task_id : String) (chains : Dict EventChain)
      (c : EventChain)
      → lookup task_id chains ≡ some c
      → derive_task_status c.events ≡ closed
      → Refused op stamp task_id chains
  closed_is_terminal op stamp task_id chains c q at_end =
      elim (operation_outcome op stamp task_id chains) [
        | inl refused ↦ refused
        | inr (d, c', found, allowed, _, _, _) ↦
            (let same : d ≡ c = some_injective (sym found ∙ q) in
              let no : allows closed (target op) ≡ true =
                ap (λ s. allows s (target op))
                  (sym (ap (λ (x : EventChain). derive_task_status x.events) same ∙ at_end))
                ∙ allowed in
              let never = allows_closed (target op) in cc)
      ]
    where
      some_injective : {x y : EventChain} → some x ≡ some y → x ≡ y
      some_injective e = cc
