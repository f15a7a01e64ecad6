-- ===== src/Task/Operations.antt =====
-- The operations of `TaskRegistry` (adl_lite/agents/task.py) on every branch.
use adl_lite.Prelude.{String, ◌≡◌, refl, true, false, Option, none, some, last?, if◌then◌else◌}
use adl_lite.Prelude.Dict.{Dict, lookup, insert}
use adl_lite.Prelude.Result.{Result, ok, err, key_error}
use adl_lite.Payload.{field, end, text, num, bool, get, has_truthy, truthy}
use adl_lite.Event.{
  task_assign, task_claim, task_submit, task_validate, task_close, Platform, Event, rehash,
}
use adl_lite.Chain.{EventChain, carries_confidence, append, link_to}
use adl_lite.Consensus.{Stamp, new_event}
use adl_lite.Task.{
  TaskStatus, assigned, in_progress, submitted, validated, rejected, closed, event_to_status,
  status_step, guard_transition, append_event, guarded, assign, claim, submit, validate_result,
  close, Operation, assigning, claiming, submitting, validating, closing, run,
}

module _ ⦃p : Platform⦄ where
  -- The status that an operation asks for, and the event that it draws.
  abbrev pub target : Operation → TaskStatus
  target (assigning _ _) = assigned
  target (claiming _) = in_progress
  target (submitting _ _ _ _) = submitted
  target (validating _ accepted _ _) = if accepted then validated else rejected
  target (closing _ _ _) = closed

  abbrev pub drawn : Operation → Stamp → String → Event
  drawn (assigning agent_did actor) stamp task_id =
      new_event stamp task_id task_assign actor "" (field "agent_did" (text agent_did) end)
  drawn (claiming agent_did) stamp task_id =
      new_event stamp task_id task_claim agent_did "" (field "agent_did" (text agent_did) end)
  drawn (submitting agent_did result_ref summary confidence) stamp task_id =
      new_event stamp task_id task_submit agent_did "" (
        field "result_ref" (text result_ref)
          (field "summary" (text summary) (field "confidence" (num confidence) end)))
  drawn (validating validator accepted confidence critique) stamp task_id =
      new_event stamp task_id task_validate validator "" (
        field "accepted" (bool accepted)
          (field "confidence" (num confidence) (field "critique" (text critique) end)))
  drawn (closing actor outcome reason) stamp task_id =
      new_event stamp task_id task_close actor ""
        (field "outcome" (text outcome) (field "reason" (text reason) end))

  -- What `_append` does with an event.
  abbrev pub appended : Event → String → Dict EventChain → Result Event × Dict EventChain
  appended event task_id chains = elim (lookup task_id chains) [
    | none ↦ (err key_error, chains)
    | some chain ↦
        (let (r, chain') = append event chain in
          elim r [
            | err x ↦ (err x, insert task_id chain' chains)
            | ok _ ↦ (ok (link_to (last? chain.events) event), insert task_id chain' chains)
          ])
  ]

  pub run-drawn :
      (op : Operation) (stamp : Stamp) (task_id : String) (chains : Dict EventChain)
      → run op stamp task_id chains ≡ (elim (guard_transition task_id (target op) chains) [
        | some x ↦ (err x, chains)
        | none ↦ appended (drawn op stamp task_id) task_id chains
      ])
  unfolding run assign claim submit validate_result close guarded append_event
  run-drawn (assigning _ _) stamp task_id chains = refl
  run-drawn (claiming _) stamp task_id chains = refl
  run-drawn (submitting _ _ _ _) stamp task_id chains = refl
  run-drawn (validating _ _ _ _) stamp task_id chains = refl
  run-drawn (closing _ _ _) stamp task_id chains = refl

  -- The event that an operation draws carries no confidence, and stands for the target.
  pub drawn-carries :
      (op : Operation) (stamp : Stamp) (task_id : String)
      → carries_confidence (drawn op stamp task_id).event_type ≡ false
  unfolding carries_confidence new_event rehash
  drawn-carries (assigning _ _) stamp task_id = refl
  drawn-carries (claiming _) stamp task_id = refl
  drawn-carries (submitting _ _ _ _) stamp task_id = refl
  drawn-carries (validating _ _ _ _) stamp task_id = refl
  drawn-carries (closing _ _ _) stamp task_id = refl

  pub drawn-target :
      (op : Operation) (stamp : Stamp) (task_id : String) (o : Option Event) (s : TaskStatus)
      → status_step s (link_to o (drawn op stamp task_id)) ≡ target op
  unfolding status_step event_to_status new_event rehash link_to get has_truthy truthy
  drawn-target op stamp task_id none s = at_first op
    where
      at_first :
          (op : Operation) → status_step s (link_to none (drawn op stamp task_id)) ≡ target op
      at_first (assigning _ _) = refl
      at_first (claiming _) = refl
      at_first (submitting _ _ _ _) = refl
      at_first (validating _ true _ _) = refl
      at_first (validating _ false _ _) = refl
      at_first (closing _ _ _) = refl
  drawn-target op stamp task_id (some prev) s = later op
    where
      later :
          (op : Operation)
          → status_step s (link_to (some prev) (drawn op stamp task_id)) ≡ target op
      later (assigning _ _) = refl
      later (claiming _) = refl
      later (submitting _ _ _ _) = refl
      later (validating _ true _ _) = refl
      later (validating _ false _ _) = refl
      later (closing _ _ _) = refl
