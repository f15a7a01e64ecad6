-- ===== src/Merge.antt =====
-- The merge of event chains (adl_lite/crdt.py): the last writer wins for one id, then a stable sort
-- by timestamp. The events are values here: that the source re-links the event objects that the
-- merged chains still hold is not modelled.
pub mod Ids
pub mod Union
use adl_lite.Prelude.{
  String, Bool, true, false, Option, none, some, List, [], ◌∷◌, all, map, str_eq, ltb,
  if◌then◌else◌,
}
use adl_lite.Prelude.Dict.{Dict, lookup, insert}
use adl_lite.Prelude.Text.{is_empty}
use adl_lite.Prelude.Result.{Result, ok, err, ◌>>=◌, value_error, type_error}
use adl_lite.Event.{DateTime, aware, naive, dt_lt, Platform, Event, parse_event_dt}
use adl_lite.Chain.{EventChain, empty_chain, append_all}

-- `event_map.values()`
unfoldable pub values : Dict Event → List Event
values [] = []
values ((_, e) ∷ d) = e ∷ values d

-- The loop over the events of the first chain.
unfoldable pub put_events : List Event → Dict Event → Dict Event
put_events [] d = d
put_events (e ∷ es) d = put_events es (insert e.event_id e d)

unfoldable pub is_aware : DateTime → Bool
is_aware (aware _) = true
is_aware (naive _) = false

-- Whether all keys can be compared with the first.
unfoldable pub comparable : List (DateTime × Event) → Bool
unfolding is_aware
comparable [] = true
comparable ((k, _) ∷ ks) =
    if is_aware k
    then all (λ (j : DateTime × Event). is_aware j.0) ks
    else all (λ (j : DateTime × Event). if is_aware j.0 then false else true) ks

-- A stable insertion: behind the keys that are not larger.
unfoldable pub insert_sorted : DateTime × Event → List (DateTime × Event) → List (DateTime × Event)
insert_sorted k [] = k ∷ []
insert_sorted k (j ∷ ks) =
    let rest = insert_sorted k ks in
    elim (dt_lt k.0 j.0) [ none ↦ j ∷ rest | some b ↦ if b then k ∷ j ∷ ks else j ∷ rest ]

-- Insertion from the front on keeps events with equal keys in their order.
unfoldable pub sort_onto :
    List (DateTime × Event) → List (DateTime × Event) → List (DateTime × Event)
unfolding insert_sorted
sort_onto acc [] = acc
sort_onto acc (k ∷ ks) = sort_onto (insert_sorted k acc) ks

unfoldable pub events_of : List (DateTime × Event) → List Event
events_of [] = []
events_of ((_, e) ∷ ks) = e ∷ events_of ks

module _ ⦃p : Platform⦄ where
  -- The loop over the events of the second chain.
  unfoldable pub merge_events : List Event → Dict Event → Result (Dict Event)
  merge_events [] d = ok d
  merge_events (e ∷ es) d = elim (lookup e.event_id d) [
    | none ↦ merge_events es (insert e.event_id e d)
    | some existing ↦
        (elim (dt_lt (parse_event_dt e.timestamp) (parse_event_dt existing.timestamp)) [
          | none ↦ err type_error
          | some older ↦ merge_events es (if older then d else insert e.event_id e d)
        ])
  ]

  -- The sort key of an event. `fromisoformat` may raise here.
  unfoldable pub sort_key : Event → Result DateTime
  sort_key e =
      if is_empty e.timestamp
      then ok (aware 0)
      else elim (p.fromisoformat e.timestamp) [ none ↦ err value_error | some dt ↦ ok dt ]

  unfoldable pub with_keys : List Event → Result (List (DateTime × Event))
  unfolding sort_key
  with_keys [] = ok []
  with_keys (e ∷ es) = do k ← sort_key e; ks ← with_keys es; ok ((k, e) ∷ ks)

  -- `sorted(event_map.values(), key=…)`
  unfoldable pub sort_events : List Event → Result (List Event)
  unfolding with_keys comparable sort_onto events_of
  sort_events es = do
    ks ← with_keys es
    if comparable ks then ok (events_of (sort_onto [] ks)) else err type_error

  -- `for event in …: merged.append(event)` on a new chain.
  unfoldable pub rebuild : String → List Event → Result EventChain
  rebuild cid es =
      let (r, c) = append_all es (empty_chain cid) in elim r [ err x ↦ err x | ok _ ↦ ok c ]

  -- `_merge_two_chains`
  unfoldable pub merge_two_chains : EventChain → EventChain → Result EventChain
  unfolding put_events merge_events values sort_events rebuild
  merge_two_chains a b =
      if str_eq a.concept_id b.concept_id
      then (do
        d ← merge_events b.events (put_events a.events [])
        es ← sort_events (values d)
        rebuild a.concept_id es)
      else err value_error

  -- `reduce(_merge_two_chains, chains)`
  unfoldable pub reduce_chains : EventChain → List EventChain → Result EventChain
  unfolding merge_two_chains
  reduce_chains c [] = ok c
  reduce_chains c (d ∷ ds) = do m ← merge_two_chains c d; reduce_chains m ds

  -- `merge_event_chains`
  unfoldable pub merge_event_chains : List EventChain → Result EventChain
  unfolding reduce_chains
  merge_event_chains [] = err value_error
  merge_event_chains (c ∷ []) = rebuild c.concept_id c.events
  merge_event_chains (c ∷ d ∷ ds) =
      if all (λ (x : EventChain). str_eq x.concept_id c.concept_id) (d ∷ ds)
      then reduce_chains c (d ∷ ds)
      else err value_error
