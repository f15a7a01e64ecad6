-- ===== src/Task.antt =====
-- The task lifecycle over event chains: `TaskRegistry` (adl_lite/agents/task.py). The registry's
-- state is the dictionary `engine.chains`.
pub mod Lifecycle
pub mod Operations
pub mod Outcome
pub mod History
use adl_lite.Prelude.{
  String, Bool, true, false, Option, none, some, List, [], ◌∷◌, last?, if◌then◌else◌,
}
use adl_lite.Prelude.Int.{ℤ}
use adl_lite.Prelude.Dict.{Dict, lookup, insert}
use adl_lite.Prelude.Result.{Error, Result, ok, err, key_error, unknown_task, invalid_transition}
use adl_lite.Payload.{Value, bool, num, text, Fields, end, field, has_truthy}
use adl_lite.Event.{
  EventType, task_create, task_assign, task_claim, task_submit, task_validate, task_close, Platform,
  Event,
}
use adl_lite.Chain.{EventChain, empty_chain, append, link_to}
use adl_lite.Consensus.{Stamp, new_event}

pub data TaskStatus : Type 0 where
  opened assigned in_progress submitted validated rejected closed : TaskStatus

-- `to in _TASK_TRANSITIONS[current]`
unfoldable pub allows : TaskStatus → TaskStatus → Bool
allows opened assigned = true
allows opened in_progress = true
allows opened closed = true
allows assigned in_progress = true
allows in_progress in_progress = true
allows in_progress submitted = true
allows submitted validated = true
allows submitted rejected = true
allows rejected in_progress = true
allows rejected closed = true
allows validated closed = true
allows _ _ = false

-- `_event_to_status`
unfoldable pub event_to_status : EventType → Fields → Option TaskStatus
event_to_status task_create _ = some opened
event_to_status task_assign _ = some assigned
event_to_status task_claim _ = some in_progress
event_to_status task_submit _ = some submitted
event_to_status task_validate fs = some (if has_truthy "accepted" fs then validated else rejected)
event_to_status task_close _ = some closed
event_to_status _ _ = none

-- One round of the loop of `derive_task_status`.
unfoldable pub status_step : TaskStatus → Event → TaskStatus
unfolding event_to_status
status_step s e = elim (event_to_status e.event_type e.payload) [ none ↦ s | some t ↦ t ]

-- The loop of `derive_task_status`, from a status.
unfoldable pub fold_status : TaskStatus → List Event → TaskStatus
fold_status s [] = s
fold_status s (e ∷ es) = fold_status (status_step s e) es

unfoldable pub derive_task_status : List Event → TaskStatus
derive_task_status es = fold_status opened es

-- `_guard_transition`: `none` lets the operation pass.
unfoldable pub guard_transition : String → TaskStatus → Dict EventChain → Option Error
guard_transition task_id to chains = elim (lookup task_id chains) [
  | none ↦ some unknown_task
  | some chain ↦
      if allows (derive_task_status chain.events) to then none else some invalid_transition
]

module _ ⦃p : Platform⦄ where
  -- `_append`. The event that it returns is the one in the chain, with its links set.
  unfoldable pub append_event :
      Stamp
      → String
      → EventType
      → String
      → Fields
      → Dict EventChain
      → Result Event × Dict EventChain
  append_event stamp task_id et actor payload chains =
      let event = new_event stamp task_id et actor "" payload in
      elim (lookup task_id chains) [
        | none ↦ (err key_error, chains)
        | some chain ↦
            (let (r, chain') = append event chain in
              elim r [
                | err x ↦ (err x, insert task_id chain' chains)
                | ok _ ↦ (ok (link_to (last? chain.events) event), insert task_id chain' chains)
              ])
      ]

  -- A guard and then the append, as each operation has them.
  unfoldable pub guarded :
      TaskStatus
      → Stamp
      → String
      → EventType
      → String
      → Fields
      → Dict EventChain
      → Result Event × Dict EventChain
  guarded to stamp task_id et actor payload chains = elim (guard_transition task_id to chains) [
    | some x ↦ (err x, chains)
    | none ↦ append_event stamp task_id et actor payload chains
  ]

  unfoldable pub assign :
      Stamp → String → String → String → Dict EventChain → Result Event × Dict EventChain
  unfolding guarded
  assign stamp task_id agent_did actor chains =
      guarded assigned stamp task_id task_assign actor (field "agent_did" (text agent_did) end)
        chains

  unfoldable pub claim : Stamp → String → String → Dict EventChain → Result Event × Dict EventChain
  unfolding guarded
  claim stamp task_id agent_did chains =
      guarded in_progress stamp task_id task_claim agent_did
        (field "agent_did" (text agent_did) end) chains

  unfoldable pub submit :
      Stamp
      → String
      → String
      → String
      → String
      → ℤ
      → Dict EventChain
      → Result Event × Dict EventChain
  unfolding guarded
  submit stamp task_id agent_did result_ref summary confidence chains =
      guarded submitted stamp task_id task_submit agent_did
        (field "result_ref" (text result_ref)
          (field "summary" (text summary) (field "confidence" (num confidence) end)))
        chains

  unfoldable pub validate_result :
      Stamp → String → String → Bool → ℤ → String → Dict EventChain → Result Event × Dict EventChain
  unfolding guarded
  validate_result stamp task_id validator accepted confidence critique chains =
      guarded (if accepted then validated else rejected) stamp task_id task_validate validator
        (field "accepted" (bool accepted)
          (field "confidence" (num confidence) (field "critique" (text critique) end)))
        chains

  -- `outcome` is "accepted", "rejected" or "cancelled".
  unfoldable pub close :
      Stamp → String → String → String → String → Dict EventChain → Result Event × Dict EventChain
  unfolding guarded
  close stamp task_id actor outcome reason chains =
      guarded closed stamp task_id task_close actor
        (field "outcome" (text outcome) (field "reason" (text reason) end)) chains

  -- `create_task`, with the id that it draws and its genesis payload.
  unfoldable pub create_task :
      Stamp → String → String → Fields → Dict EventChain → Result (Unit {0}) × Dict EventChain
  create_task stamp task_id created_by payload chains =
      let (r, chain) =
        append (new_event stamp task_id task_create created_by "" payload) (empty_chain task_id) in
      elim r [ err x ↦ (err x, chains) | ok _ ↦ (ok tt, insert task_id chain chains) ]

  -- The operations on a task that exists.
  pub data Operation : Type 0 where
    assigning : String → String → Operation
    claiming : String → Operation
    submitting : String → String → String → ℤ → Operation
    validating : String → Bool → ℤ → String → Operation
    closing : String → String → String → Operation

  unfoldable pub run : Operation → Stamp → String → Dict EventChain → Result Event × Dict EventChain
  unfolding assign claim submit validate_result close
  run (assigning agent_did actor) stamp task_id chains = assign stamp task_id agent_did actor chains
  run (claiming agent_did) stamp task_id chains = claim stamp task_id agent_did chains
  run (submitting agent_did result_ref summary confidence) stamp task_id chains =
      submit stamp task_id agent_did result_ref summary confidence chains
  run (validating validator accepted confidence critique) stamp task_id chains =
      validate_result stamp task_id validator accepted confidence critique chains
  run (closing actor outcome reason) stamp task_id chains =
      close stamp task_id actor outcome reason chains
