-- ===== src/TaskQueue/Reaper.antt =====
-- The lease reaper of `TaskQueue` (adl_lite/agents/bus.py): no task of an ended lease is lost.
use adl_lite.Prelude.{
  ℕ, ◌<◌, ◌≤◌, String, ◌≡◌, refl, ◌∙◌, Bool, true, false, ◌||◌, none, some, List, [], ◌∷◌, str_eq,
  eq_iff, eq_refl, ltb, ltb→lt, arith, ◌⊎◌, inl, inr, Bool-cases,
}
use adl_lite.Prelude.Int.{ℤ, pos}
use adl_lite.Prelude.Dict.{Dict, contains, lookup, erase, lookup-erase}
use adl_lite.TaskQueue.{TaskQueue, put, expired, erase_all, put_all, requeue_expired}
use adl_lite.TaskQueue.Leases.{HasUniqueKeys, expired-live, lookup-erase_all}

-- Whether the task is in the queue.
abbrev pub is_queued : String → List (ℤ × String) → Bool
is_queued id [] = false
is_queued id (e ∷ es) = str_eq id e.1 || is_queued id es

is_queued-put :
    (id : String) (e : ℤ × String) (es : List (ℤ × String))
    → is_queued id (put e es) ≡ (str_eq id e.1 || is_queued id es)
unfolding put
is_queued-put id e [] = refl
is_queued-put id e (f ∷ es) = ground (arith, is_queued-put id e es)

is_queued-put_all :
    (id : String) (ks : List String) (es : List (ℤ × String))
    → is_queued id (put_all ks es) ≡ (contains id ks || is_queued id es)
unfolding put_all contains
is_queued-put_all id [] es = refl
is_queued-put_all id (k ∷ ks) es =
    ground (arith, is_queued-put_all id ks (put (pos 0, k) es), is_queued-put id (pos 0, k) es)

expired-ended :
    (now : ℕ) (k : String) (d : Dict (String × ℕ)) (a : String) (until : ℕ)
    → lookup k d ≡ some (a, until)
    → until ≤ now
    → contains k (expired now d) ≡ true
unfolding expired contains lookup
expired-ended now k [] a until h le = cc
expired-ended now k ((j, (b, v)) ∷ d) a until h le =
    ground (arith, eq_iff j k, eq_refl k, expired-ended now k d a until, h, le)

erased_all :
    (ks : List String) (k : String) (d : Dict (String × ℕ))
    → lookup k d ≡ none
    → lookup k (erase_all ks d) ≡ none
unfolding erase_all
erased_all [] k d h = h
erased_all (j ∷ ks) k d h = erased_all ks k (erase j d) (ground (arith, lookup-erase j k d, h))

erased_at :
    (ks : List String) (k : String) (d : Dict (String × ℕ))
    → contains k ks ≡ true
    → lookup k (erase_all ks d) ≡ none
unfolding erase_all contains
erased_at [] k d h = cc
erased_at (j ∷ ks) k d h = elim (Bool-cases (str_eq j k)) [
  | inl same ↦ erased_all ks k (erase j d) (ground (arith, lookup-erase j k d, same))
  | inr other ↦ erased_at ks k (erase j d) (ground (arith, eq_iff j k, eq_iff k j, h, other))
]

-- The reaper leaves a lease that has not ended; it releases one that has, and its task is in the
-- queue again.
pub reaper_outcome :
    (now : ℕ) (q : TaskQueue) (task_id holder : String) (until : ℕ)
    → HasUniqueKeys q.leases
    → lookup task_id q.leases ≡ some (holder, until)
    → let q' = (requeue_expired now q).1 in
      ((now < until) × (lookup task_id q'.leases ≡ some (holder, until)))
      ⊎ ((until ≤ now) × (lookup task_id q'.leases ≡ none) × (is_queued task_id q'.entries ≡ true))
unfolding requeue_expired
reaper_outcome now q task_id holder until unique held = elim (Bool-cases (ltb now until)) [
  | inl runs ↦
      (let lt = ltb→lt now until runs in
        inl (
          lt,
          lookup-erase_all (expired now q.leases) task_id q.leases
                (expired-live now task_id q.leases holder until unique held lt)
              ∙ held,
        ))
  | inr over ↦
      (let le : until ≤ now = ground (arith, over) in
        let named = expired-ended now task_id q.leases holder until held le in
        inr (
          le,
          erased_at (expired now q.leases) task_id q.leases named,
          is_queued-put_all task_id (expired now q.leases) q.entries ∙ (rw named refl),
        ))
]
