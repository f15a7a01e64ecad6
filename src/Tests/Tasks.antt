-- ===== src/Tests/Tasks.antt =====
-- Tests of `TaskRegistry` and `TaskQueue` (adl_lite/agents/task.py, adl_lite/agents/bus.py).
use adl_lite.Prelude.{◌<◌, ◌≤◌, ◌≡◌, refl, true, none, some, List, [], ◌∷◌, ◌⊎◌, arith}
use adl_lite.Prelude.Int.{pos}
use adl_lite.Prelude.Dict.{Dict, contains, lookup, insert}
use adl_lite.Prelude.Result.{ok}
use adl_lite.Payload.{Fields, end, field, text, arr, cons, nil, get}
use adl_lite.Event.{rehash, compute_hash, type_to_status}
use adl_lite.Chain.{
  EventChain, empty_chain, append, update_crdt_caches, update_confidence, update_status, link_to,
  carries_confidence,
}
use adl_lite.Consensus.{new_event}
use adl_lite.Task.{
  claiming, closing, run, closed, derive_task_status, create_task, guard_transition, guarded,
  append_event, close, allows, fold_status, status_step, event_to_status,
}
use adl_lite.Task.Outcome.{Refused, Advanced, operation_outcome, closed_is_terminal}
use adl_lite.TaskQueue.{
  TaskQueue, get_task, other_fields_valid, text_field, nullable_text, int_field, result_ref,
  capability_list, all_texts, mismatches, dequeue, requeue_expired,
}
use adl_lite.TaskQueue.Exclusion.{
  QueueOp, claiming as claiming_lease, renewing, releasing, reaping, enqueuing, perform_all,
  IsLeased, lease_is_exclusive,
}
use adl_lite.Task.History.{Reachable, IsTaskHistory, reached-IsTaskHistory}
use adl_lite.TaskQueue.Reaper.{is_queued, reaper_outcome}
use adl_lite.TaskQueue.Dispatch.{IsUnfit, mismatched_tasks_are_dropped}
use adl_lite.Tests.Samples.{sample_platform, stamp1, stamp2}

abbrev genesis_payload : Fields
genesis_payload = field "required_capabilities" (arr (cons (text "translate") nil)) end

abbrev one_task : Dict EventChain
one_task = (create_task stamp1 "task:1" "planner" genesis_payload []).1

operation_outcome_example :
    Refused (claiming "ann") stamp2 "task:1" one_task
    ⊎ Advanced (claiming "ann") stamp2 "task:1" one_task
operation_outcome_example = operation_outcome (claiming "ann") stamp2 "task:1" one_task

abbrev closed_task : Dict EventChain
closed_task = (run (closing "ann" "cancelled" "late") stamp2 "task:1" one_task).1

closed_chain :
    (c : EventChain) × (lookup "task:1" closed_task ≡ some c)
    × (derive_task_status c.events ≡ closed)
unfolding lookup insert run close guarded guard_transition append_event create_task new_event rehash
    compute_hash append empty_chain update_crdt_caches update_confidence update_status link_to
    carries_confidence type_to_status derive_task_status fold_status status_step event_to_status
    allows
closed_chain = (_, refl, refl)

closed_is_terminal_example : Refused (claiming "ann") stamp1 "task:1" closed_task
closed_is_terminal_example =
    closed_is_terminal (claiming "ann") stamp1 "task:1" closed_task closed_chain.0 closed_chain.1
      closed_chain.2

reached-IsTaskHistory_example : IsTaskHistory closed_chain.0.events
reached-IsTaskHistory_example =
    reached-IsTaskHistory {chains = closed_task} "task:1" closed_chain.0
      (Reachable.ran (closing "ann" "cancelled" "late") stamp2 "task:1"
        (Reachable.created stamp1 "task:1" "planner" genesis_payload Reachable.empty))
      closed_chain.1

abbrev leased_queue : TaskQueue
leased_queue = record {
  entries = (pos 0, "task:1") ∷ [];
  leases = ("task:1", ("ann", 30)) ∷ [];
  lease_ttl = 30;
}

abbrev foreign_calls : List QueueOp
foreign_calls =
    claiming_lease 5 "task:1" "bob" none
    ∷ renewing 6 "task:1" "bob"
    ∷ releasing "task:1" "bob"
    ∷ reaping 20
    ∷ enqueuing (pos 2) "task:1"
    ∷ []

leased : IsLeased "task:1" "ann" 30 leased_queue
unfolding lookup
leased = record { unique = (refl, tt); held = refl }

lease_is_exclusive_example : IsLeased "task:1" "ann" 30 (perform_all foreign_calls leased_queue)
lease_is_exclusive_example =
    lease_is_exclusive "task:1" "ann" 30 foreign_calls leased_queue
      ((omega arith, refl), ((omega arith, refl), (refl, (omega arith, (tt, tt))))) leased

unfit : IsUnfit ("paint" ∷ []) one_task (pos 0, "task:1")
unfolding get_task other_fields_valid text_field nullable_text int_field result_ref capability_list
    all_texts mismatches contains get lookup insert create_task new_event rehash compute_hash append
    empty_chain update_crdt_caches update_confidence update_status link_to carries_confidence
    type_to_status
unfit = (_, refl, refl)

mismatched_tasks_are_dropped_example :
    dequeue 40 "bob" ("paint" ∷ []) one_task leased_queue
    ≡ (ok none, record leased_queue { entries = [] })
mismatched_tasks_are_dropped_example =
    mismatched_tasks_are_dropped 40 "bob" ("paint" ∷ []) one_task leased_queue (unfit, tt)

reaper_outcome_example :
    let q' = (requeue_expired 40 leased_queue).1 in
    ((40 < 30) × (lookup "task:1" q'.leases ≡ some ("ann", 30)))
    ⊎ ((30 ≤ 40) × (lookup "task:1" q'.leases ≡ none) × (is_queued "task:1" q'.entries ≡ true))
reaper_outcome_example = reaper_outcome 40 leased_queue "task:1" "ann" 30 leased.unique leased.held
