-- ===== src/Tests/Syncs.antt =====
-- Tests of the synchronisation of edge nodes (adl_lite/sync_manager.py).
use Prim.Native.Nat.{zero, suc}
use adl_lite.Prelude.{
  ℕ, ◌+◌, String, ◌≡◌, refl, Bool, true, false, ◌||◌, none, [], ◌∷◌, ◌++◌, any, ◌⊎◌, if◌then◌else◌,
}
use adl_lite.Prelude.Dict.{contains}
use adl_lite.Prelude.Text.{str_lt}
use adl_lite.Prelude.Result.{Result, Error, ok, err, type_error}
use adl_lite.Payload.{end, get}
use adl_lite.Event.{
  Event, validate, rehash, compute_hash, content, type_to_status, order, of_order, confidence_field,
  to_float, clamp,
}
use adl_lite.Chain.{
  EventChain, empty_chain, append, append_all, update_crdt_caches, update_confidence, update_status,
  link_to, carries_confidence,
}
use adl_lite.Merge.{rebuild}
use adl_lite.Merge.Ids.{has_id}
use adl_lite.Sync.{QueuedEffect, SideEffectQueue, pending, drain}
use adl_lite.Sync.Edge.{EdgeNode, new_node, go_offline, record_event}
use adl_lite.Sync.Manager.{merge, push, pull, diff, sorted, key_lt}
use adl_lite.Sync.Queue.{Raised, Ran, drain_outcome}
use adl_lite.Sync.Exchange.{push_completes}
use adl_lite.Sync.Aliasing.{center_after, names, pull_relinks_the_center}
use adl_lite.Sync.Node.{effects_of, record_event_outcome}
use adl_lite.Tests.Samples.{
  sample_platform, sample_chain, genesis, approval, draft, first_linked, second_linked, stamp1,
}

abbrev effect_named : String → QueuedEffect
effect_named name = record {
  effect_name = name;
  concept_id = "cap";
  params = end;
  created_at = "2024";
}

abbrev two_effects : SideEffectQueue
two_effects = record {
  queued = effect_named "mail" ∷ effect_named "page" ∷ [];
  has_executor = true;
}

-- An executor that refuses once and then accepts.
abbrev refuses_once : QueuedEffect → Bool → Result Bool × Bool
refuses_once effect asked = (ok asked, true)

abbrev raises_at_once : QueuedEffect → Bool → Result Bool × Bool
raises_at_once effect asked = (err type_error, asked)

drain_retries : (drain refuses_once two_effects false).0 ≡ ok (1, 1)
unfolding drain
drain_retries = refl

drain_raises : (drain raises_at_once two_effects false).1.queued ≡ effect_named "page" ∷ []
unfolding drain
drain_raises = refl

drain_outcome_example :
    let call = drain refuses_once two_effects false in
    ((n : ℕ) × Ran refuses_once true two_effects.queued false call.1.queued call.2
      × (call.0 ≡ ok (n, pending call.1))
      × (n + pending call.1 ≡ pending two_effects))
    ⊎ Raised refuses_once true two_effects.queued false call.0 call.1.queued call.2
drain_outcome_example = drain_outcome refuses_once two_effects false

-- Two replicas that share the first event.
abbrev center_approval : Event
center_approval =
    draft "e5e5e5e5e5e5e5e5e5e5e5e5e5e5e5e5e5e5e5e5e5e5e5e5e5e5e5e5e5e5e5e5" validate "cat" end

abbrev center_chain : EventChain
center_chain = (append_all (genesis ∷ center_approval ∷ []) (empty_chain "cap")).1

merged : (c : EventChain) × (merge "cap" (sample_chain ∷ center_chain ∷ []) none ≡ ok c)
unfolding append_all append empty_chain update_crdt_caches update_confidence update_status link_to
    rehash compute_hash content type_to_status order of_order carries_confidence confidence_field
    to_float get clamp str_lt rebuild contains key_lt merge
merged = (_, refl)

pushed : (c : EventChain) × (push sample_chain center_chain ≡ ok c)
unfolding append_all append empty_chain update_crdt_caches update_confidence update_status link_to
    rehash compute_hash content type_to_status order of_order carries_confidence confidence_field
    to_float get clamp str_lt rebuild contains push
pushed = (_, refl)

push_completes_example :
    ((id : String)
      → has_id id pushed.0.events
        ≡ (has_id id center_chain.events || has_id id sample_chain.events))
    × (diff pushed.0 sample_chain ≡ [])
push_completes_example = push_completes sample_chain center_chain pushed.0 pushed.1

pulled : (c : EventChain) × (pull sample_chain center_chain ≡ ok c)
unfolding append_all append empty_chain update_crdt_caches update_confidence update_status link_to
    rehash compute_hash content type_to_status order of_order carries_confidence confidence_field
    to_float get clamp str_lt rebuild contains pull
pulled = (_, refl)

edge_ends : sample_chain.events ≡ first_linked genesis ∷ [] ++ second_linked genesis approval ∷ []
unfolding append_all append empty_chain update_crdt_caches update_confidence update_status link_to
    rehash compute_hash content type_to_status order of_order carries_confidence confidence_field
    to_float get clamp str_lt
edge_ends = refl

news : sorted (diff sample_chain center_chain) ≡ second_linked genesis center_approval ∷ []
unfolding append_all append empty_chain update_crdt_caches update_confidence update_status link_to
    rehash compute_hash content type_to_status order of_order carries_confidence confidence_field
    to_float get clamp str_lt contains sorted diff
news = refl

unknown_to_center : has_id (second_linked genesis approval).event_id center_chain.events ≡ false
unfolding append_all append empty_chain update_crdt_caches update_confidence update_status link_to
    rehash compute_hash content type_to_status order of_order carries_confidence confidence_field
    to_float get clamp str_lt
unknown_to_center = refl

pull_relinks_the_center_example :
    (any
        (names (second_linked genesis approval).event_id)
        (center_after sample_chain center_chain pulled.0).events
      ≡ true)
    × (has_id
          (second_linked genesis approval).event_id
          (center_after sample_chain center_chain pulled.0).events
        ≡ false)
pull_relinks_the_center_example =
    pull_relinks_the_center sample_chain center_chain pulled.0 (first_linked genesis ∷ [])
      (second_linked genesis approval) (second_linked genesis center_approval) [] edge_ends
      unknown_to_center news pulled.1

-- What the two queued effects read from the clock.
abbrev readings : ℕ → String
readings k = if is_zero k then "2024-01-01T00:00:01" else "2024-01-01T00:00:02"
  where
    is_zero : ℕ → Bool
    is_zero zero = true
    is_zero (suc _) = false

abbrev offline_node : EdgeNode
offline_node = go_offline (new_node "cap" "edge-01")

record_event_outcome_example :
    let (answer, after) =
      record_event stamp1 readings validate end none "seen" ("mail" ∷ "page" ∷ []) offline_node in
    ((e : Event) × (answer ≡ ok e)
      × (after.chain.events ≡ offline_node.chain.events ++ e ∷ [])
      × (after.queue ≡ record {
        queued =
            if offline_node.online
            then offline_node.queue.queued
            else offline_node.queue.queued
              ++ effects_of readings 0 offline_node.concept_id end ("mail" ∷ "page" ∷ []);
        has_executor = offline_node.queue.has_executor;
      }))
    ⊎ ((x : Error) × (answer ≡ err x) × (after.queue ≡ offline_node.queue))
record_event_outcome_example =
    record_event_outcome stamp1 readings validate end none "seen" ("mail" ∷ "page" ∷ [])
      offline_node
