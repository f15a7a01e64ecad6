-- ===== src/Task/History.antt =====
-- The histories of tasks in a `TaskRegistry` (adl_lite/agents/task.py) that only its operations
-- have changed.
use adl_lite.Prelude.{
  String, ◌≡◌, refl, sym, ap, subst, ◌∙◌, true, false, none, some, List, [], ◌∷◌, ◌++◌, last?,
  str_eq, ◌⊎◌, inl, inr, Bool-cases, if◌then◌else◌,
}
use adl_lite.Prelude.Dict.{Dict, lookup, insert, lookup-insert}
use adl_lite.Payload.{Fields}
use adl_lite.Event.{task_create, Platform, Event, rehash}
use adl_lite.Chain.{EventChain, carries_confidence, empty_chain, append, link_to}
use adl_lite.Consensus.{Stamp, new_event}
use adl_lite.Task.{
  TaskStatus, opened, allows, event_to_status, status_step, fold_status, derive_task_status,
  create_task, Operation, run,
}
use adl_lite.Task.Operations.{drawn, drawn-target}
use adl_lite.Chain.Status.{append_total}
use adl_lite.Task.Outcome.{operation_outcome}

-- Every event takes the status along the transition table.
abbrev pub FollowsTable : TaskStatus → List Event → Type 0
FollowsTable s [] = Unit
FollowsTable s (e ∷ es) = (allows s (status_step s e) ≡ true) × FollowsTable (status_step s e) es

-- A creation, and then steps along the table.
abbrev pub IsTaskHistory : List Event → Type 0
IsTaskHistory [] = ⊥
IsTaskHistory (e ∷ es) =
    (event_to_status e.event_type e.payload ≡ some opened) × FollowsTable opened es

FollowsTable-append :
    (s : TaskStatus) (es : List Event) (e : Event)
    → FollowsTable s es
    → allows (fold_status s es) (status_step (fold_status s es) e) ≡ true
    → FollowsTable s (es ++ e ∷ [])
unfolding fold_status
FollowsTable-append s [] e h k = (k, tt)
FollowsTable-append s (d ∷ es) e h k = (h.0, FollowsTable-append (status_step s d) es e h.1 k)

status_step-some :
    (s t : TaskStatus) (e : Event)
    → event_to_status e.event_type e.payload ≡ some t
    → status_step s e ≡ t
unfolding status_step
status_step-some s t e h = ap (λ o. elim o [ none ↦ s | some u ↦ u ]) h

derive_created :
    (g : Event) (es : List Event)
    → event_to_status g.event_type g.payload ≡ some opened
    → derive_task_status (g ∷ es) ≡ fold_status opened es
unfolding derive_task_status fold_status
derive_created g es h = ap (λ s. fold_status s es) (status_step-some opened opened g h)

history-append :
    (es : List Event) (e : Event)
    → IsTaskHistory es
    → allows (derive_task_status es) (status_step (derive_task_status es) e) ≡ true
    → IsTaskHistory (es ++ e ∷ [])
history-append [] e h k = elim h [ ]
history-append (g ∷ es) e h k = (
  h.0,
  FollowsTable-append opened es e h.1
      (subst (λ s. allows s (status_step s e) ≡ true) (derive_created g es h.0) k),
)

-- Every chain of a registry is a task history.
record AllHistories (chains : Dict EventChain) : Type 0 where
  of_chain : (k : String) (c : EventChain) → lookup k chains ≡ some c → IsTaskHistory c.events

some_injective : {x y : EventChain} → some x ≡ some y → x ≡ y
some_injective e = cc

-- One chain is new, and the others are as before.
AllHistories-update :
    (chains chains' : Dict EventChain) (k : String) (c : EventChain)
    → ((j : String) → lookup j chains' ≡ (if str_eq k j then some c else lookup j chains))
    → IsTaskHistory c.events
    → AllHistories chains
    → AllHistories chains'
AllHistories-update chains chains' k c at_key new all = record {
  of_chain = λ j d q. elim (Bool-cases (str_eq k j)) [
    | inl same ↦
        (let eq : some c ≡ some d = sym (at_key j ∙ (rw same refl)) ∙ q in
          subst (λ (x : EventChain). IsTaskHistory x.events) (some_injective eq) new)
    | inr other ↦ all.of_chain j d (sym (at_key j ∙ (rw other refl)) ∙ q)
  ];
}

creation_carries : carries_confidence task_create ≡ false
unfolding carries_confidence
creation_carries = refl

module _ ⦃p : Platform⦄ where
  -- The registries that a program reaches by creating tasks and running operations on them.
  pub data Reachable : Dict EventChain → Type 0 where
    empty : Reachable []
    created :
        {chains : Dict EventChain} (stamp : Stamp) (task_id created_by : String) (payload : Fields)
        → Reachable chains
        → Reachable (create_task stamp task_id created_by payload chains).1
    ran :
        {chains : Dict EventChain} (op : Operation) (stamp : Stamp) (task_id : String)
        → Reachable chains
        → Reachable (run op stamp task_id chains).1

  created_at :
      (stamp : Stamp) (task_id created_by : String) (payload : Fields) (chains : Dict EventChain)
      → ((create_task stamp task_id created_by payload chains).1 ≡ chains)
        ⊎ ((c : EventChain) × ((create_task stamp task_id created_by payload chains).1
              ≡ insert task_id c chains)
            × IsTaskHistory c.events)
  unfolding event_to_status new_event rehash link_to empty_chain create_task
  created_at stamp task_id created_by payload chains =
      let e = new_event stamp task_id task_create created_by "" payload in
      elim (append_total e (empty_chain task_id) creation_carries) [
        | inl (raised, _) ↦ inl (rw (raised, create_task) refl)
        | inr (returned, es) ↦ inr (
          (append e (empty_chain task_id)).1,
          rw (returned, create_task) refl,
          subst IsTaskHistory (sym es) (refl, tt),
        )
      ]

  reached_all : {chains : Dict EventChain} → Reachable chains → AllHistories chains
  unfolding lookup
  reached_all empty = record { of_chain = λ k c q. cc }
  reached_all (created {chains} stamp task_id created_by payload before) =
      elim (created_at stamp task_id created_by payload chains) [
        | inl kept ↦ subst AllHistories (sym kept) (reached_all before)
        | inr (c, at, new) ↦
            AllHistories-update chains (create_task stamp task_id created_by payload chains).1
              task_id c (λ j. ap (lookup j) at ∙ lookup-insert task_id j c chains) new
              (reached_all before)
      ]
  reached_all (ran {chains} op stamp task_id before) =
      elim (operation_outcome op stamp task_id chains) [
        | inl (_, _, kept) ↦ record {
          of_chain = λ j d q. (reached_all before).of_chain j d (sym (kept j) ∙ q);
        }
        | inr (c, c', found, allowed, at_key, _, es) ↦
            (let step =
                drawn-target op stamp task_id (last? c.events) (derive_task_status c.events) in
              let linked = link_to (last? c.events) (drawn op stamp task_id) in
              let old = (reached_all before).of_chain task_id c found in
              AllHistories-update chains (run op stamp task_id chains).1 task_id c' at_key
                (subst IsTaskHistory (sym es) (
                  history-append c.events linked old
                    (ap (allows (derive_task_status c.events)) step ∙ allowed)))
                (reached_all before))
      ]

  -- The chain of every task that is reached by creating tasks and running operations begins with
  -- an event that opens the task, and each later event takes the status along an arrow of the
  -- transition table.
  pub reached-IsTaskHistory :
      {chains : Dict EventChain} (task_id : String) (c : EventChain)
      → Reachable chains
      → lookup task_id chains ≡ some c
      → IsTaskHistory c.events
  reached-IsTaskHistory task_id c reached found = (reached_all reached).of_chain task_id c found
