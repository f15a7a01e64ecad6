-- ===== src/Tests/Merges.antt =====
-- Tests of the merge of chains (adl_lite/crdt.py).
use adl_lite.Prelude.{◌≡◌, refl, ◌||◌}
use adl_lite.Prelude.Dict.{lookup, insert}
use adl_lite.Prelude.Text.{is_empty, str_lt}
use adl_lite.Prelude.Result.{ok}
use adl_lite.Payload.{get}
use adl_lite.Event.{
  dt_lt, parse_event_dt, rehash, compute_hash, content, type_to_status, order, of_order,
  confidence_field, to_float, clamp,
}
use adl_lite.Chain.{
  EventChain, empty_chain, append, append_all, update_crdt_caches, update_confidence, update_status,
  link_to, carries_confidence,
}
use adl_lite.Merge.{
  values, put_events, is_aware, comparable, insert_sorted, sort_onto, events_of, merge_events,
  sort_key, with_keys, sort_events, rebuild, merge_two_chains,
}
use adl_lite.Merge.Ids.{has_id}
use adl_lite.Merge.Union.{merge_has_union}
use adl_lite.Tests.Samples.{sample_platform, sample_chain, nameless_chain, nameless}

merged : (c : EventChain) × (merge_two_chains sample_chain nameless_chain ≡ ok c)
unfolding append_all append empty_chain update_crdt_caches update_confidence update_status link_to
    rehash compute_hash content type_to_status order of_order carries_confidence confidence_field
    to_float get clamp str_lt lookup insert is_empty dt_lt parse_event_dt values put_events is_aware
    comparable insert_sorted sort_onto events_of merge_events sort_key with_keys sort_events rebuild
    merge_two_chains
merged = (_, refl)

merge_has_union_example : has_id nameless.event_id merged.0.events ≡ (
    has_id nameless.event_id sample_chain.events || has_id nameless.event_id nameless_chain.events)
merge_has_union_example =
    merge_has_union sample_chain nameless_chain merged.0 nameless.event_id merged.1
