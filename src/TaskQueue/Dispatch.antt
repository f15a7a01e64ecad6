-- ===== src/TaskQueue/Dispatch.antt =====
-- What `TaskQueue.dequeue` (adl_lite/agents/bus.py) drops from the queue.
use adl_lite.Prelude.{ℕ, String, ◌≡◌, refl, true, none, List, [], ◌∷◌, All, inl, inr, Bool-cases}
use adl_lite.Prelude.Int.{ℤ}
use adl_lite.Prelude.Dict.{Dict}
use adl_lite.Prelude.Result.{ok}
use adl_lite.Chain.{EventChain}
use adl_lite.TaskQueue.{Task, TaskQueue, get_task, is_closed, mismatches, dequeue_from, dequeue}

-- The task of an entry can be read, and the capabilities do not cover it.
abbrev pub IsUnfit : List String → Dict EventChain → ℤ × String → Type 0
IsUnfit capabilities chains (_, task_id) =
    (task : Task) × (get_task task_id chains ≡ ok task)
    × (mismatches task.required_capabilities capabilities ≡ true)

dequeue_from_unfit :
    (now : ℕ) (agent : String) (capabilities : List String) (chains : Dict EventChain)
    (es : List (ℤ × String)) (q : TaskQueue)
    → All (IsUnfit capabilities chains) es
    → dequeue_from now agent capabilities chains es q ≡ (ok none, record q { entries = [] })
unfolding dequeue_from
dequeue_from_unfit now agent capabilities chains [] q h = refl
dequeue_from_unfit now agent capabilities chains ((n, k) ∷ es) q ((task, r, unfit), hs) =
    elim (Bool-cases (is_closed task.status)) [
      | inl over ↦
          rw (r, over, dequeue_from) (dequeue_from_unfit now agent capabilities chains es q hs)
      | inr going ↦
          rw (r, going, unfit, dequeue_from)
            (dequeue_from_unfit now agent capabilities chains es q hs)
    ]

-- A dequeue by an agent whose capabilities cover no queued task empties the queue: it returns no
-- task, the entries are gone, and the leases are as before.
pub mismatched_tasks_are_dropped :
    (now : ℕ) (agent : String) (capabilities : List String) (chains : Dict EventChain)
    (q : TaskQueue)
    → All (IsUnfit capabilities chains) q.entries
    → dequeue now agent capabilities chains q ≡ (ok none, record q { entries = [] })
unfolding dequeue
mismatched_tasks_are_dropped now agent capabilities chains q h =
    dequeue_from_unfit now agent capabilities chains q.entries q h
