-- ===== src/Sync/Queue.antt =====
-- What `SideEffectQueue.drain` (adl_lite/sync_manager.py) executes, and what it leaves.
use Prim.Native.Nat.{suc}
use adl_lite.Prelude.{
  ℕ, ◌+◌, ◌≡◌, refl, sym, ap, ap₂, subst, ◌∙◌, Bool, true, false, List, [], ◌∷◌, ◌++◌, append-nil,
  append_assoc, length, ◌⊎◌, inl, inr, arith,
}
use adl_lite.Prelude.Result.{Error, Result, ok, err}
use adl_lite.Sync.{QueuedEffect, SideEffectQueue, pending, drain_loop, drain}

module _ {S : Type 0} (execute : QueuedEffect → S → Result Bool × S) where
  -- What a run over the effects leaves to be retried, in order, with the world at the end.
  pub data Ran (here : Bool) : List QueuedEffect → S → List QueuedEffect → S → Type 0 where
    over : {s : S} → Ran here [] s [] s
    done :
        {effect : QueuedEffect} {effects failed : List QueuedEffect} {s s' t : S}
        → here ≡ true
        → execute effect s ≡ (ok true, s')
        → Ran here effects s' failed t
        → Ran here (effect ∷ effects) s failed t
    refused :
        {effect : QueuedEffect} {effects failed : List QueuedEffect} {s s' t : S}
        → here ≡ true
        → execute effect s ≡ (ok false, s')
        → Ran here effects s' failed t
        → Ran here (effect ∷ effects) s (effect ∷ failed) t
    without :
        {effect : QueuedEffect} {effects failed : List QueuedEffect} {s t : S}
        → here ≡ false
        → Ran here effects s failed t
        → Ran here (effect ∷ effects) s (effect ∷ failed) t

  -- All effects were tried: the counts add up, and those that failed wait in their order.
  abbrev Completed :
      Bool
      → List QueuedEffect
      → ℕ
      → ℕ
      → List QueuedEffect
      → S
      → Result (ℕ × ℕ) × List QueuedEffect × S
      → Type 0
  Completed here effects success failed retry s call =
      (left : List QueuedEffect) × (n : ℕ) × (n + length left ≡ length effects)
      × Ran here effects s left call.2
      × (call.0 ≡ ok (success + n, failed + length left))
      × (call.1 ≡ retry ++ left)

  -- The executor raised at an effect, after a run over those before it; what is behind it waits.
  abbrev pub Raised : Bool → List QueuedEffect → S → Result (ℕ × ℕ) → List QueuedEffect → S → Type 0
  Raised here effects s answer waiting t =
      (x : Error) × (tried : List QueuedEffect) × (bad : QueuedEffect) × (failed : List
        QueuedEffect)
      × (s1 : S) × (here ≡ true)
      × (answer ≡ err x)
      × (effects ≡ tried ++ bad ∷ waiting)
      × Ran here tried s failed s1
      × (execute bad s1 ≡ (err x, t))

  -- One more effect has been run.
  count_done :
      (effect : QueuedEffect) (effects : List QueuedEffect) (success failed : ℕ)
      (retry : List QueuedEffect) (s s' : S) (call : Result (ℕ × ℕ) × List QueuedEffect × S)
      → execute effect s ≡ (ok true, s')
      → Completed true effects (suc success) failed retry s' call
      → Completed true (effect ∷ effects) success failed retry s call
  count_done effect effects success failed retry s s' call h (left, n, sum, ran, counts, kept) = (
    left,
    suc n,
    omega arith,
    done refl h ran,
    counts
        ∙ ap (λ k. ok (k, failed + length left))
            (let e : suc success + n ≡ success + suc n = omega arith in e),
    kept,
  )

  -- One more effect has failed, and `ran` says why.
  count_failed :
      (here : Bool) (effect : QueuedEffect) (effects : List QueuedEffect) (success failed : ℕ)
      (retry : List QueuedEffect) (s s' : S) (call : Result (ℕ × ℕ) × List QueuedEffect × S)
      → ((left : List QueuedEffect)
          → Ran here effects s' left call.2
          → Ran here (effect ∷ effects) s (effect ∷ left) call.2)
      → Completed here effects success (suc failed) (retry ++ effect ∷ []) s' call
      → Completed here (effect ∷ effects) success failed retry s call
  count_failed here effect effects success failed retry s s' call why
        (left, n, sum, ran, counts, kept) =
      (
        effect ∷ left,
        n,
        omega arith,
        why left ran,
        counts
            ∙ ap (λ k. ok (success + n, k))
                (let e : suc failed + length left ≡ failed + suc (length left) = omega arith in e),
        kept ∙ append_assoc retry (effect ∷ []) left,
      )

  -- The effect before has been run or put back, as `why` says.
  raise_later :
      (here : Bool) (effect : QueuedEffect) (effects : List QueuedEffect) (s s' : S)
      (call : Result (ℕ × ℕ) × List QueuedEffect × S)
      → ((tried failed : List QueuedEffect) (t : S)
          → Ran here tried s' failed t
          → (left : List QueuedEffect) × Ran here (effect ∷ tried) s left t)
      → Raised here effects s' call.0 call.1 call.2
      → Raised here (effect ∷ effects) s call.0 call.1 call.2
  raise_later here effect effects s s' call why
        (x, tried, bad, failed, s1, there, raised, split, ran, at) =
      let (left, ran') = why tried failed s1 ran in
      (x, effect ∷ tried, bad, left, s1, there, raised, ap (λ es. effect ∷ es) split, ran', at)

  abbrev Outcome :
      Bool
      → List QueuedEffect
      → ℕ
      → ℕ
      → List QueuedEffect
      → S
      → Result (ℕ × ℕ) × List QueuedEffect × S
      → Type 0
  Outcome here effects success failed retry s call =
      Completed here effects success failed retry s call
      ⊎ Raised here effects s call.0 call.1 call.2

  after_failure :
      (here : Bool) (effect : QueuedEffect) (effects : List QueuedEffect) (success failed : ℕ)
      (retry : List QueuedEffect) (s s' : S) (call : Result (ℕ × ℕ) × List QueuedEffect × S)
      → ((tried left : List QueuedEffect) (t : S)
          → Ran here tried s' left t
          → Ran here (effect ∷ tried) s (effect ∷ left) t)
      → Outcome here effects success (suc failed) (retry ++ effect ∷ []) s' call
      → Outcome here (effect ∷ effects) success failed retry s call
  after_failure here effect effects success failed retry s s' call why (inl all) = inl (
      count_failed here effect effects success failed retry s s' call
        (λ left ran. why effects left call.2 ran) all)
  after_failure here effect effects success failed retry s s' call why (inr raised) = inr (
      raise_later here effect effects s s' call
        (λ tried left t ran. (effect ∷ left, why tried left t ran)) raised)

  after_success :
      (effect : QueuedEffect) (effects : List QueuedEffect) (success failed : ℕ)
      (retry : List QueuedEffect) (s s' : S) (call : Result (ℕ × ℕ) × List QueuedEffect × S)
      → execute effect s ≡ (ok true, s')
      → Outcome true effects (suc success) failed retry s' call
      → Outcome true (effect ∷ effects) success failed retry s call
  after_success effect effects success failed retry s s' call h (inl all) =
      inl (count_done effect effects success failed retry s s' call h all)
  after_success effect effects success failed retry s s' call h (inr raised) = inr (
      raise_later true effect effects s s' call (λ tried left t ran. (left, done refl h ran))
        raised)

  drain_loop-Outcome :
      (here : Bool) (effects : List QueuedEffect) (success failed : ℕ) (retry : List QueuedEffect)
      (s : S)
      → Outcome here effects success failed retry s
          (drain_loop execute here effects success failed retry s)
  unfolding drain_loop
  drain_loop-Outcome here [] success failed retry s = inl (
    [],
    0,
    omega arith,
    over,
    ap₂ (λ a b. ok (a, b)) (let e : success ≡ success + 0 = omega arith in e)
        (let e : failed ≡ failed + 0 = omega arith in e),
    sym (append-nil retry),
  )
  drain_loop-Outcome false (effect ∷ effects) success failed retry s =
      after_failure false effect effects success failed retry s s
        (drain_loop execute false effects success (suc failed) (retry ++ effect ∷ []) s)
        (λ tried left t ran. without refl ran)
        (drain_loop-Outcome false effects success (suc failed) (retry ++ effect ∷ []) s)
  drain_loop-Outcome true (effect ∷ effects) success failed retry s =
      executed (execute effect s).0 refl
        (drain_loop-Outcome true effects (suc success) failed retry (execute effect s).1)
        (drain_loop-Outcome true effects success (suc failed) (retry ++ effect ∷ [])
          (execute effect s).1)
    where
      executed :
          (r : Result Bool)
          → (execute effect s).0 ≡ r
          → Outcome true effects
              (suc success)
              failed
              retry
              (execute effect s).1
              (drain_loop execute true effects (suc success) failed retry (execute effect s).1)
          → Outcome true effects success (suc failed) (retry ++ effect ∷ []) (execute effect s).1 (
              drain_loop execute true effects success
                (suc failed)
                (retry ++ effect ∷ [])
                (execute effect s).1)
          → Outcome true
              (effect ∷ effects)
              success
              failed
              retry
              s
              (drain_loop execute true (effect ∷ effects) success failed retry s)
      executed (err x) h run_on put_back =
          rw (h, drain_loop)
            (inr
              (x, [], effect, [], s, refl, refl, refl, over, ap (λ r. (r, (execute effect s).1)) h))
      executed (ok true) h run_on put_back =
          rw (h, drain_loop)
            (after_success effect effects success failed retry s (execute effect s).1
              (drain_loop execute true effects (suc success) failed retry (execute effect s).1)
              (ap (λ r. (r, (execute effect s).1)) h) run_on)
      executed (ok false) h run_on put_back =
          rw (h, drain_loop)
            (after_failure true effect effects success failed retry s (execute effect s).1
              (drain_loop execute true effects success (suc failed) (retry ++ effect ∷ [])
                (execute effect s).1)
              (λ tried left t ran. refused refl (ap (λ r. (r, (execute effect s).1)) h) ran)
              put_back)

  -- `drain` either tries every effect in order: it returns how many were executed and how many
  -- failed, which add up to the number that was pending, and exactly the failed ones wait, in their
  -- order (all of them, without an executor). Or there is an executor, and it raises at one effect
  -- after a run over those before it: then `drain` raises the same, and the queue keeps exactly what
  -- comes behind that effect, so neither that one nor those that failed before it.
  pub drain_outcome :
      (q : SideEffectQueue) (s : S)
      → let call = drain execute q s in
        ((n : ℕ) × Ran q.has_executor q.queued s call.1.queued call.2
          × (call.0 ≡ ok (n, pending call.1))
          × (n + pending call.1 ≡ pending q))
        ⊎ Raised q.has_executor q.queued s call.0 call.1.queued call.2
  unfolding drain pending
  drain_outcome q s = elim (drain_loop-Outcome q.has_executor q.queued 0 0 [] s) [
    | inr raised ↦ inr raised
    | inl (left, n, sum, ran, counts, kept) ↦
        (let loop = drain_loop execute q.has_executor q.queued 0 0 [] s in
          let left_eq : left ≡ loop.1 = sym kept in
          let n_eq : 0 + n ≡ n = omega arith in
          let count_eq : 0 + length left ≡ length loop.1 = omega (arith, ap length left_eq) in
          inl (
            n,
            subst (λ l. Ran q.has_executor q.queued s l loop.2) left_eq ran,
            counts ∙ ap₂ (λ a b. ok (a, b)) n_eq count_eq,
            (let e : n + length loop.1 ≡ length q.queued = omega (arith, ap length left_eq) in e),
          ))
  ]
