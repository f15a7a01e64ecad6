-- ===== src/Sync/Manager.antt =====
-- `SyncManager` (adl_lite/sync_manager.py): `merge`, `diff`, `push` and `pull`.
use adl_lite.Prelude.{
  String, Bool, ◌&&◌, ◌||◌, Option, none, some, List, [], ◌∷◌, ◌++◌, str_eq, if◌then◌else◌,
}
use adl_lite.Prelude.Dict.{contains}
use adl_lite.Prelude.Text.{str_lt}
use adl_lite.Prelude.Result.{Result}
use adl_lite.Event.{Platform, Event}
use adl_lite.Chain.{EventChain}
use adl_lite.Chain.Verify.{Verdict, verify_integrity}
use adl_lite.Merge.{rebuild}

unfoldable pub event_ids : List Event → List String
event_ids [] = []
event_ids (e ∷ es) = e.event_id ∷ event_ids es

-- The ids seen, and the events collected.
pub record Collected : Type 0 where
  pub seen : List String
  pub all_events : List Event

-- The loop over the events of one chain.
unfoldable pub collect : List Event → Collected → Collected
collect [] acc = acc
collect (e ∷ es) acc = collect es (
    if contains e.event_id acc.seen
    then acc
    else record { seen = e.event_id ∷ acc.seen; all_events = acc.all_events ++ e ∷ [] })

unfoldable pub collect_chains : List EventChain → Collected → Collected
unfolding collect
collect_chains [] acc = acc
collect_chains (c ∷ cs) acc = collect_chains cs (collect c.events acc)

-- `(e.timestamp, e.hash) < (f.timestamp, f.hash)`
unfoldable pub key_lt : Event → Event → Bool
key_lt e f =
    str_lt e.timestamp f.timestamp || (str_eq e.timestamp f.timestamp && str_lt e.hash f.hash)

-- A stable insertion: behind the events that are not larger.
unfoldable pub insert_by_key : Event → List Event → List Event
insert_by_key e [] = e ∷ []
insert_by_key e (f ∷ fs) =
    let rest = insert_by_key e fs in if key_lt e f then e ∷ f ∷ fs else f ∷ rest

unfoldable pub sort_by_key : List Event → List Event → List Event
unfolding insert_by_key
sort_by_key acc [] = acc
sort_by_key acc (e ∷ es) = sort_by_key (insert_by_key e acc) es

-- `sorted(events, key=lambda e: (e.timestamp, e.hash))`
unfoldable pub sorted : List Event → List Event
unfolding sort_by_key
sorted es = sort_by_key [] es

-- `diff`: the events of the edge chain that the center chain lacks.
unfoldable pub lacking : List String → List Event → List Event
lacking ids [] = []
lacking ids (e ∷ es) =
    let rest = lacking ids es in if contains e.event_id ids then rest else e ∷ rest

unfoldable pub diff : EventChain → EventChain → List Event
unfolding lacking event_ids
diff center edge = lacking (event_ids center.events) edge.events

module _ ⦃p : Platform⦄ where
  -- `SyncManager(concept_id).merge(*chains, base_chain=base)`
  unfoldable pub merge : String → List EventChain → Option EventChain → Result EventChain
  unfolding collect_chains sorted
  merge concept_id chains base =
      let none_yet : Collected = record { seen = []; all_events = [] } in
      let first : Collected = elim base [ none ↦ none_yet | some c ↦ collect c.events none_yet ] in
      rebuild concept_id (sorted (collect_chains chains first).all_events)

  -- `push(edge_chain, center_chain)`
  unfoldable pub push : EventChain → EventChain → Result EventChain
  unfolding sorted diff
  push edge center = rebuild center.concept_id (center.events ++ sorted (diff center edge))

  -- `pull(edge_chain, center_chain)`
  unfoldable pub pull : EventChain → EventChain → Result EventChain
  unfolding sorted diff
  pull edge center = rebuild edge.concept_id (edge.events ++ sorted (diff edge center))

  -- `verify_both`, with the caches that it leaves.
  unfoldable pub verify_both :
      EventChain → EventChain → (Verdict × EventChain) × (Verdict × EventChain)
  verify_both edge center = (verify_integrity edge, verify_integrity center)
