-- ===== src/TaskQueue.antt =====
-- `TaskQueue` (adl_lite/agents/bus.py): the volatile queue of tasks and their leases, and the part of
-- `TaskRegistry.get_task` (adl_lite/agents/task.py) that it reads. Each method holds the lock, and is
-- one atomic step. Times are natural numbers of one fixed unit.
pub mod Leases
pub mod Exclusion
pub mod Reaper
pub mod Dispatch
use adl_lite.Prelude.{
  ℕ, zero, suc, ◌+◌, String, Bool, true, false, ◌&&◌, ◌%◌, Option, none, some, List, [], ◌∷◌, ◌++◌,
  all, str_eq, ltb, leb, ◌==◌, length, map, if◌then◌else◌,
}
use adl_lite.Prelude.Int.{ℤ, pos, negsuc, leb_ℤ}
use adl_lite.Prelude.Text.{str_lt}
use adl_lite.Prelude.Dict.{Dict, contains, lookup, insert, erase}
use adl_lite.Prelude.Result.{Result, ok, err, ◌>>=◌, key_error, index_error, value_error}
use adl_lite.Payload.{Value, Items, Fields, null, bool, num, text, arr, nil, cons, get}
use adl_lite.Event.{Event, task_submit, one}
use adl_lite.Chain.{EventChain}
use adl_lite.Task.{TaskStatus, closed, derive_task_status}

-- The fields of `Task` that the queue reads.
pub record Task : Type 0 where
  pub task_id : String
  pub required_capabilities : List String
  pub status : TaskStatus

unfoldable pub all_texts : Items → Result (List String)
all_texts nil = ok []
all_texts (cons (text s) xs) = do ss ← all_texts xs; ok (s ∷ ss)
all_texts (cons _ xs) = err value_error

-- `genesis.get("required_capabilities", [])`, as the model checks it.
unfoldable pub capability_list : Option Value → Result (List String)
capability_list none = ok []
capability_list (some (arr xs)) = all_texts xs
capability_list (some _) = err value_error

-- A field that pydantic wants as a text, or as a text or null.
unfoldable pub text_field : Option Value → Bool
text_field none = true
text_field (some (text _)) = true
text_field (some _) = false

unfoldable pub nullable_text : Option Value → Bool
unfolding text_field
nullable_text (some null) = true
nullable_text v = text_field v

-- A priority that pydantic reads as an `int`: a Boolean or a number without a fraction. A text counts
-- as refused, though pydantic takes one of digits.
unfoldable pub int_field : Option Value → Bool
int_field none = true
int_field (some (bool _)) = true
int_field (some (num (pos n))) = n % one == 0
int_field (some (num (negsuc n))) = (n + 1) % one == 0
int_field (some _) = false

-- `result_ref`: that of the last TASK_SUBMIT event.
unfoldable pub result_ref : Option Value → List Event → Option Value
result_ref ref [] = ref
result_ref ref (e ∷ es) =
    result_ref (elim e.event_type [ task_submit ↦ get "result_ref" e.payload | _ ↦ ref ]) es

-- The fields of `Task` that the queue does not read pass the checks of pydantic.
unfoldable pub other_fields_valid : Fields → List Event → Bool
unfolding text_field nullable_text int_field result_ref
other_fields_valid genesis events =
    text_field (get "objective" genesis)
    && nullable_text (get "parent_task_id" genesis)
    && nullable_text (get "tenant" genesis)
    && text_field (get "scope" genesis)
    && int_field (get "priority" genesis)
    && nullable_text (result_ref none events)

-- `get_task`
unfoldable pub get_task : String → Dict EventChain → Result Task
unfolding capability_list other_fields_valid
get_task task_id chains = elim (lookup task_id chains) [
  | none ↦ err key_error
  | some chain ↦ (elim chain.events [
    | [] ↦ err index_error
    | genesis ∷ _ ↦ (do
      required ← capability_list (get "required_capabilities" genesis.payload)
      (if other_fields_valid genesis.payload chain.events
          then ok (record {
            task_id = task_id;
            required_capabilities = required;
            status = derive_task_status chain.events;
          })
          else err value_error))
  ])
]

-- The entries of the `PriorityQueue`, the least first, and the leases: holder and end.
pub record TaskQueue : Type 0 where
  pub entries : List (ℤ × String)
  pub leases : Dict (String × ℕ)
  pub lease_ttl : ℕ

-- `a < b` on entries.
unfoldable pub entry_lt : ℤ × String → ℤ × String → Bool
entry_lt (m, s) (n, t) = if leb_ℤ m n then (if leb_ℤ n m then str_lt s t else true) else false

-- `put` of the `PriorityQueue`.
unfoldable pub put : ℤ × String → List (ℤ × String) → List (ℤ × String)
put e [] = e ∷ []
put e (f ∷ es) = if entry_lt e f then e ∷ f ∷ es else f ∷ put e es

unfoldable pub negate : ℤ → ℤ
negate (pos zero) = pos 0
negate (pos (suc n)) = negsuc n
negate (negsuc n) = pos (n + 1)

-- `enqueue`
unfoldable pub enqueue : ℤ → String → TaskQueue → TaskQueue
enqueue priority task_id q = record q { entries = put (negate priority, task_id) q.entries }

-- Whether a lease is there and has not ended.
unfoldable pub is_live : ℕ → Option (String × ℕ) → Bool
is_live now none = false
is_live now (some (holder, until)) = ltb now until

-- `lease_ttl or self._lease_ttl`
unfoldable pub ttl_or : Option ℕ → ℕ → ℕ
ttl_or none d = d
ttl_or (some n) d = if n == 0 then d else n

-- `claim`
unfoldable pub claim : ℕ → String → String → Option ℕ → TaskQueue → Bool × TaskQueue
claim now task_id agent_did ttl q = if is_live now (lookup task_id q.leases) then (false, q) else (
  true,
  record q { leases = insert task_id (agent_did, now + ttl_or ttl q.lease_ttl) q.leases },
)

-- `ent is not None and ent[0] == agent_did`
unfoldable pub is_holder : String → Option (String × ℕ) → Bool
is_holder agent_did none = false
is_holder agent_did (some (holder, until)) = str_eq holder agent_did

-- `renew_lease`
unfoldable pub renew_lease : ℕ → String → String → TaskQueue → Bool × TaskQueue
renew_lease now task_id agent_did q =
    if is_holder agent_did (lookup task_id q.leases)
    then (true, record q { leases = insert task_id (agent_did, now + q.lease_ttl) q.leases })
    else (false, q)

-- `release`
unfoldable pub release : String → String → TaskQueue → TaskQueue
release task_id agent_did q =
    if is_holder agent_did (lookup task_id q.leases)
    then record q { leases = erase task_id q.leases }
    else q

-- The ids of the leases that have ended.
unfoldable pub expired : ℕ → Dict (String × ℕ) → List String
expired now [] = []
expired now ((task_id, (_, until)) ∷ d) =
    let rest = expired now d in if leb until now then task_id ∷ rest else rest

unfoldable pub erase_all : List String → Dict (String × ℕ) → Dict (String × ℕ)
erase_all [] d = d
erase_all (k ∷ ks) d = erase_all ks (erase k d)

unfoldable pub put_all : List String → List (ℤ × String) → List (ℤ × String)
put_all [] es = es
put_all (k ∷ ks) es = put_all ks (put (pos 0, k) es)

-- `requeue_expired`
unfoldable pub requeue_expired : ℕ → TaskQueue → List String × TaskQueue
requeue_expired now q =
    let ended = expired now q.leases in
    (ended, record q { leases = erase_all ended q.leases; entries = put_all ended q.entries })

unfoldable pub is_closed : TaskStatus → Bool
is_closed closed = true
is_closed _ = false

-- `capabilities and not set(required) <= set(capabilities)`
unfoldable pub mismatches : List String → List String → Bool
mismatches required [] = false
mismatches required (c ∷ cs) = if all (λ r. contains r (c ∷ cs)) required then false else true

-- The loop of `dequeue` over the entries.
unfoldable pub dequeue_from :
    ℕ
    → String
    → List String
    → Dict EventChain
    → List (ℤ × String)
    → TaskQueue
    → Result (Option Task) × TaskQueue
dequeue_from now agent_did capabilities chains [] q = (ok none, record q { entries = [] })
dequeue_from now agent_did capabilities chains ((_, task_id) ∷ es) q =
    let rest = dequeue_from now agent_did capabilities chains es q in
    let (claimed, q') = claim now task_id agent_did none q in
    elim (get_task task_id chains) [
      | err x ↦ (err x, record q { entries = es })
      | ok task ↦
          if is_closed task.status
          then rest
          else if mismatches task.required_capabilities capabilities
          then rest
          else if claimed
          then (ok (some task), record q' { entries = es })
          else (ok none, record q { entries = put (pos 0, task_id) es })
    ]

-- `dequeue`
unfoldable pub dequeue :
    ℕ → String → List String → Dict EventChain → TaskQueue → Result (Option Task) × TaskQueue
unfolding dequeue_from
dequeue now agent_did capabilities chains q =
    dequeue_from now agent_did capabilities chains q.entries q

-- `queue_depth` and `pending_count`
unfoldable pub queue_depth : TaskQueue → ℕ
queue_depth q = length q.entries

unfoldable pub pending_count : TaskQueue → ℕ
pending_count q = length q.entries + length q.leases
