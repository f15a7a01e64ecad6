-- ===== src/Sync/Node.antt =====
-- `EdgeNode.record_event` (adl_lite/sync_manager.py): what becomes of the side effects that a
-- recorded event declares.
use Prim.Native.Nat.{suc}
use adl_lite.Prelude.{
  ℕ, String, ◌≡◌, refl, sym, ap, ◌∙◌, Bool, true, false, Option, none, some, List, [], ◌∷◌, ◌++◌,
  append-nil, append_assoc, ◌⊎◌, inl, inr, last?, Bool-cases, if◌then◌else◌,
}
use adl_lite.Prelude.Result.{Result-cases, ok, err, Error}
use adl_lite.Payload.{Fields}
use adl_lite.Event.{EventType, Platform, Event}
use adl_lite.Chain.{append, link_to}
use adl_lite.Prelude.Text.{is_empty}
use adl_lite.Sync.Aliasing.{appended_events}
use adl_lite.Consensus.{Stamp, new_event}
use adl_lite.Sync.{QueuedEffect, enqueue, enqueue_action}
use adl_lite.Sync.Edge.{EdgeNode, handle_effects, record_event}

-- The effects of one event, in the order in which it declares them, each with its own time.
unfoldable pub effects_of : (ℕ → String) → ℕ → String → Fields → List String → List QueuedEffect
effects_of clock k concept_id payload [] = []
effects_of clock k concept_id payload (name ∷ names) =
    record { effect_name = name; concept_id = concept_id; params = payload; created_at = clock k }
    ∷ effects_of clock (suc k) concept_id payload names

abbrev pub with_queued : EdgeNode → List QueuedEffect → EdgeNode
with_queued n effects = record n {
  queue = record { queued = effects; has_executor = n.queue.has_executor };
}

-- The node with more effects waiting behind those of its queue.
abbrev pub with_waiting : List QueuedEffect → EdgeNode → EdgeNode
with_waiting effects n = with_queued n (n.queue.queued ++ effects)

-- The node after one declared effect, for a node that is online or not.
abbrev declared : String → String → Fields → EdgeNode → Bool → EdgeNode
declared now name payload n b =
    if b then n else record n { queue = enqueue_action now name n.concept_id payload n.queue }

online_drops :
    (clock : ℕ → String) (k : ℕ) (names : List String) (payload : Fields) (n : EdgeNode)
    → n.online ≡ true
    → handle_effects clock k names payload n ≡ n
unfolding handle_effects
online_drops clock k [] payload n h = refl
online_drops clock k (name ∷ names) payload n h =
    ap (λ b. handle_effects clock (suc k) names payload (declared (clock k) name payload n b)) h
    ∙ online_drops clock (suc k) names payload n h

offline_queues :
    (clock : ℕ → String) (k : ℕ) (names : List String) (payload : Fields) (n : EdgeNode)
    → n.online ≡ false
    → handle_effects clock k names payload n
      ≡ with_waiting (effects_of clock k n.concept_id payload names) n
unfolding handle_effects enqueue_action enqueue effects_of
offline_queues clock k [] payload n h = ap (with_queued n) (sym (append-nil n.queue.queued))
offline_queues clock k (name ∷ names) payload n h =
    ap (λ b. handle_effects clock (suc k) names payload (declared (clock k) name payload n b)) h
    ∙ offline_queues clock (suc k) names payload (declared (clock k) name payload n false) h
    ∙ ap (with_queued n)
        (append_assoc n.queue.queued _ (effects_of clock (suc k) n.concept_id payload names))

-- Handling the effects concerns the queue only.
handled_queue :
    (clock : ℕ → String) (k : ℕ) (names : List String) (payload : Fields) (n : EdgeNode)
    → handle_effects clock k names payload n
      ≡ with_queued n (
          if n.online
          then n.queue.queued
          else n.queue.queued ++ effects_of clock k n.concept_id payload names)
handled_queue clock k names payload n = elim (Bool-cases n.online) [
  | inl h ↦
      online_drops clock k names payload n h
      ∙ ap
          (λ b. with_queued n (
            if b
            then n.queue.queued
            else n.queue.queued ++ effects_of clock k n.concept_id payload names))
          (sym h)
  | inr h ↦
      offline_queues clock k names payload n h
      ∙ ap
          (λ b. with_queued n (
            if b
            then n.queue.queued
            else n.queue.queued ++ effects_of clock k n.concept_id payload names))
          (sym h)
]

module _ ⦃p : Platform⦄ where
  -- A call of `record_event` either returns the event, which the chain of the node then has at its
  -- end, or raises and leaves the queue as it was. Where it returns, the declared effects wait in
  -- the queue behind the others, in their order, each with the time that it reads itself, if the
  -- node is offline; if the node is online the queue is what it was.
  pub record_event_outcome :
      (stamp : Stamp) (clock : ℕ → String) (et : EventType) (payload : Fields)
      (actor : Option String) (reasoning : String) (side_effects : List String) (n : EdgeNode)
      → let call = record_event stamp clock et payload actor reasoning side_effects n in
        let (answer, after) = call in
        ((e : Event) × (answer ≡ ok e)
          × (after.chain.events ≡ n.chain.events ++ e ∷ [])
          × (after.queue ≡ record {
            queued =
                if n.online
                then n.queue.queued
                else n.queue.queued ++ effects_of clock 0 n.concept_id payload side_effects;
            has_executor = n.queue.has_executor;
          }))
        ⊎ ((x : Error) × (answer ≡ err x) × (after.queue ≡ n.queue))
  unfolding record_event
  record_event_outcome stamp clock et payload actor reasoning side_effects n =
      let who : String = elim actor [
        | none ↦ n.node_id
        | some a ↦ if is_empty a then n.node_id else a
      ] in
      let event = new_event stamp n.concept_id et who reasoning payload in
      let n' = record n { chain = (append event n.chain).1 } in
      let handled = handled_queue clock 0 side_effects payload n' in
      elim (Result-cases (append event n.chain).0) [
        | inl (x, r) ↦ inr (x, rw (r, record_event) refl, rw (r, record_event) refl)
        | inr (_, r) ↦ inl (
          link_to (last? n.chain.events) event,
          rw (r, record_event) refl,
          rw (r, record_event)
              (ap (λ (m : EdgeNode). m.chain.events) handled ∙ appended_events event n.chain r),
          rw (r, record_event) (ap (λ (m : EdgeNode). m.queue) handled),
        )
      ]
