-- ===== src/TaskQueue/Exclusion.antt =====
-- At most one holder of a task (adl_lite/agents/bus.py): a lease outlives whatever other agents do
-- before it ends.
use adl_lite.Prelude.{
  ℕ, ◌+◌, ◌<◌, String, ◌≡◌, refl, sym, ap, ◌∙◌, true, false, Option, none, some, List, [], ◌∷◌, All,
  str_eq, eq_iff, eq_refl, lt→ltb, ltb→lt, ◌⊎◌, Bool-cases, inl, inr,
}
use adl_lite.Prelude.Int.{ℤ}
use adl_lite.Prelude.Dict.{Dict, lookup, lookup-insert, lookup-erase}
use adl_lite.Prelude.Result.{Result-cases}
use adl_lite.Chain.{EventChain}
use adl_lite.TaskQueue.{
  TaskQueue, enqueue, is_live, ttl_or, claim, is_holder, renew_lease, release, expired,
  requeue_expired, get_task, is_closed, mismatches, dequeue_from, dequeue,
}
use adl_lite.TaskQueue.Leases.{
  HasUniqueKeys, insert-HasUniqueKeys, erase-HasUniqueKeys, expired-live, lookup-erase_all,
  erase_all-HasUniqueKeys,
}

-- The calls that change the queue, each with the agent and the time of the call.
pub data QueueOp : Type 0 where
  enqueuing : ℤ → String → QueueOp
  claiming : ℕ → String → String → Option ℕ → QueueOp
  renewing : ℕ → String → String → QueueOp
  releasing : String → String → QueueOp
  reaping : ℕ → QueueOp
  dequeuing : ℕ → String → List String → Dict EventChain → QueueOp

abbrev pub perform : QueueOp → TaskQueue → TaskQueue
perform (enqueuing priority task_id) q = enqueue priority task_id q
perform (claiming now task_id agent ttl) q = (claim now task_id agent ttl q).1
perform (renewing now task_id agent) q = (renew_lease now task_id agent q).1
perform (releasing task_id agent) q = release task_id agent q
perform (reaping now) q = (requeue_expired now q).1
perform (dequeuing now agent capabilities chains) q = (dequeue now agent capabilities chains q).1

abbrev pub perform_all : List QueueOp → TaskQueue → TaskQueue
perform_all [] q = q
perform_all (op ∷ ops) q = perform_all ops (perform op q)

-- The call is made before `until`, and not by `a`.
abbrev pub IsForeign : String → ℕ → QueueOp → Type 0
IsForeign a until (enqueuing _ _) = Unit
IsForeign a until (claiming now _ agent _) = (now < until) × (str_eq a agent ≡ false)
IsForeign a until (renewing now _ agent) = (now < until) × (str_eq a agent ≡ false)
IsForeign a until (releasing _ agent) = str_eq a agent ≡ false
IsForeign a until (reaping now) = now < until
IsForeign a until (dequeuing now agent _ _) = (now < until) × (str_eq a agent ≡ false)

-- `a` holds the task until then.
pub record IsLeased (task_id a : String) (until : ℕ) (q : TaskQueue) : Type 0 where
  pub unique : HasUniqueKeys q.leases
  pub held : lookup task_id q.leases ≡ some (a, until)

module _ (task_id a : String) (until : ℕ) where
  claim_keeps :
      (now : ℕ) (k agent : String) (ttl : Option ℕ) (q : TaskQueue)
      → now < until
      → IsLeased task_id a until q
      → IsLeased task_id a until (claim now k agent ttl q).1
  unfolding claim is_live
  claim_keeps now k agent ttl q lt h = elim (Bool-cases (is_live now (lookup k q.leases))) [
    | inl live ↦ rw (live, claim) h
    | inr dead ↦
        rw (dead, claim)
          (record {
            unique = insert-HasUniqueKeys k _ q.leases h.unique;
            held = lookup-insert k task_id _ q.leases ∙ (elim (Bool-cases (str_eq k task_id)) [
              | inr other ↦ rw other h.held
              | inl same ↦
                  (let live : is_live now (lookup k q.leases) ≡ true =
                      ap (λ i. is_live now (lookup i q.leases)) ((eq_iff k task_id).0 same)
                      ∙ ap (is_live now) h.held
                      ∙ lt→ltb now until lt in
                    let clash : true ≡ false = sym live ∙ dead in cc)
            ]);
          })
  ]

  holder_differs :
      (k agent : String) (q : TaskQueue)
      → str_eq a agent ≡ false
      → IsLeased task_id a until q
      → is_holder agent (lookup k q.leases) ≡ true
      → str_eq k task_id ≡ false
  unfolding is_holder
  holder_differs k agent q ne h holds = elim (Bool-cases (str_eq k task_id)) [
    | inr other ↦ other
    | inl same ↦
        (let not_held : is_holder agent (lookup k q.leases) ≡ false =
            ap (λ i. is_holder agent (lookup i q.leases)) ((eq_iff k task_id).0 same)
            ∙ ap (is_holder agent) h.held
            ∙ ne in
          let clash : true ≡ false = sym holds ∙ not_held in cc)
  ]

  renew_keeps :
      (now : ℕ) (k agent : String) (q : TaskQueue)
      → str_eq a agent ≡ false
      → IsLeased task_id a until q
      → IsLeased task_id a until (renew_lease now k agent q).1
  unfolding renew_lease
  renew_keeps now k agent q ne h = elim (Bool-cases (is_holder agent (lookup k q.leases))) [
    | inr not_held ↦ rw (not_held, renew_lease) h
    | inl holds ↦
        rw (holds, renew_lease)
          (record {
            unique = insert-HasUniqueKeys k _ q.leases h.unique;
            held =
                lookup-insert k task_id _ q.leases
                ∙ (rw (holder_differs k agent q ne h holds) h.held);
          })
  ]

  release_keeps :
      (k agent : String) (q : TaskQueue)
      → str_eq a agent ≡ false
      → IsLeased task_id a until q
      → IsLeased task_id a until (release k agent q)
  unfolding release
  release_keeps k agent q ne h = elim (Bool-cases (is_holder agent (lookup k q.leases))) [
    | inr not_held ↦ rw (not_held, release) h
    | inl holds ↦
        rw (holds, release)
          (record {
            unique = erase-HasUniqueKeys k q.leases h.unique;
            held =
                lookup-erase k task_id q.leases ∙ (rw (holder_differs k agent q ne h holds) h.held);
          })
  ]

  reap_keeps :
      (now : ℕ) (q : TaskQueue)
      → now < until
      → IsLeased task_id a until q
      → IsLeased task_id a until (requeue_expired now q).1
  unfolding requeue_expired
  reap_keeps now q lt h = record {
    unique = erase_all-HasUniqueKeys (expired now q.leases) q.leases h.unique;
    held =
        lookup-erase_all (expired now q.leases) task_id q.leases
          (expired-live now task_id q.leases a until h.unique h.held lt)
        ∙ h.held;
  }

  dequeue_keeps :
      (now : ℕ) (agent : String) (capabilities : List String) (chains : Dict EventChain)
      (es : List (ℤ × String)) (q : TaskQueue)
      → now < until
      → IsLeased task_id a until q
      → IsLeased task_id a until (dequeue_from now agent capabilities chains es q).1
  unfolding dequeue_from
  dequeue_keeps now agent capabilities chains [] q lt h = record {
    unique = h.unique;
    held = h.held;
  }
  dequeue_keeps now agent capabilities chains ((n, k) ∷ es) q lt h =
      elim (Result-cases (get_task k chains)) [
        | inl (x, r) ↦ rw (r, dequeue_from) (record { unique = h.unique; held = h.held })
        | inr (task, r) ↦ (elim (Bool-cases (is_closed task.status)) [
          | inl over ↦
              rw (r, over, dequeue_from) (dequeue_keeps now agent capabilities chains es q lt h)
          | inr going ↦ (elim (Bool-cases (mismatches task.required_capabilities capabilities)) [
            | inl unfit ↦
                rw (r, going, unfit, dequeue_from)
                  (dequeue_keeps now agent capabilities chains es q lt h)
            | inr fit ↦
                (let kept = claim_keeps now k agent none q lt h in
                  elim (Bool-cases (claim now k agent none q).0) [
                    | inl won ↦
                        rw (r, going, fit, won, dequeue_from)
                          (record { unique = kept.unique; held = kept.held })
                    | inr lost ↦
                        rw (r, going, fit, lost, dequeue_from)
                          (record { unique = h.unique; held = h.held })
                  ])
          ])
        ])
      ]

  perform_keeps :
      (op : QueueOp) (q : TaskQueue)
      → IsForeign a until op
      → IsLeased task_id a until q
      → IsLeased task_id a until (perform op q)
  unfolding enqueue dequeue
  perform_keeps (enqueuing priority k) q f h = record { unique = h.unique; held = h.held }
  perform_keeps (claiming now k agent ttl) q f h = claim_keeps now k agent ttl q f.0 h
  perform_keeps (renewing now k agent) q f h = renew_keeps now k agent q f.1 h
  perform_keeps (releasing k agent) q f h = release_keeps k agent q f h
  perform_keeps (reaping now) q f h = reap_keeps now q f h
  perform_keeps (dequeuing now agent capabilities chains) q f h =
      dequeue_keeps now agent capabilities chains q.entries q f.0 h

  -- While an agent's lease on a task runs, no sequence of calls of other agents and of the reaper
  -- takes it away: the task stays leased to the agent until the same time.
  pub lease_is_exclusive :
      (ops : List QueueOp) (q : TaskQueue)
      → All (IsForeign a until) ops
      → IsLeased task_id a until q
      → IsLeased task_id a until (perform_all ops q)
  lease_is_exclusive [] q f h = h
  lease_is_exclusive (op ∷ ops) q f h =
      lease_is_exclusive ops (perform op q) f.1 (perform_keeps op q f.0 h)

-- A claim that returns true gives the agent a lease until the time of the call and its term, and one
-- that returns false finds a lease that has not ended and changes nothing.
pub claim_outcome :
    (now : ℕ) (k agent : String) (ttl : Option ℕ) (q : TaskQueue)
    → HasUniqueKeys q.leases
    → let r = claim now k agent ttl q in
      ((r.0 ≡ true) × IsLeased k agent (now + ttl_or ttl q.lease_ttl) r.1)
      ⊎ ((r ≡ (false, q))
          × ((holder : String) × (until : ℕ) × (lookup k q.leases ≡ some (holder, until))
              × (now < until)))
unfolding claim is_live
claim_outcome now k agent ttl q u = elim (Bool-cases (is_live now (lookup k q.leases))) [
  | inr dead ↦ inl (
    rw (dead, claim) refl,
    rw (dead, claim)
        (record {
          unique = insert-HasUniqueKeys k _ q.leases u;
          held = lookup-insert k k _ q.leases ∙ (rw (eq_refl k) refl);
        }),
  )
  | inl live ↦ inr (rw (live, claim) refl, lease_of (lookup k q.leases) live)
]
  where
    lease_of :
        (o : Option (String × ℕ))
        → is_live now o ≡ true
        → (holder : String) × (until : ℕ) × (o ≡ some (holder, until)) × (now < until)
    lease_of none h = cc
    lease_of (some (holder, until)) h = (holder, until, refl, ltb→lt now until h)
