-- ===== src/Sync/Exchange.antt =====
-- `SyncManager.merge`, `diff` and `push` (adl_lite/sync_manager.py) as exchanges of events by id.
use adl_lite.Prelude.{
  String, ◌≡◌, refl, ap, ◌∙◌, true, false, ◌||◌, Option, none, some, List, [], ◌∷◌, ◌++◌, any,
  str_eq, eq_iff, eq_refl, arith, inl, inr, Bool-cases, if◌then◌else◌,
}
use adl_lite.Prelude.Dict.{contains}
use adl_lite.Prelude.Result.{ok}
use adl_lite.Event.{Platform, Event}
use adl_lite.Chain.{EventChain}
use adl_lite.Merge.Ids.{has_id}
use adl_lite.Merge.Union.{has_id-rebuild}
use adl_lite.Sync.Manager.{
  event_ids, Collected, collect, collect_chains, insert_by_key, sort_by_key, sorted, lacking, diff,
  merge, push,
}

pub contains-event_ids : (id : String) (es : List Event) → contains id (event_ids es) ≡ has_id id es
unfolding contains event_ids
contains-event_ids id [] = refl
contains-event_ids id (e ∷ es) = ap (λ b. str_eq id e.event_id || b) (contains-event_ids id es)

has_id-append_list :
    (id : String) (es fs : List Event) → has_id id (es ++ fs) ≡ (has_id id es || has_id id fs)
has_id-append_list id [] fs = refl
has_id-append_list id (e ∷ es) fs = ground (arith, has_id-append_list id es fs)

has_id-insert_by_key :
    (id : String) (e : Event) (es : List Event)
    → has_id id (insert_by_key e es) ≡ (str_eq id e.event_id || has_id id es)
unfolding insert_by_key
has_id-insert_by_key id e [] = refl
has_id-insert_by_key id e (f ∷ fs) = ground (arith, has_id-insert_by_key id e fs)

has_id-sort_by_key :
    (id : String) (acc es : List Event)
    → has_id id (sort_by_key acc es) ≡ (has_id id es || has_id id acc)
unfolding sort_by_key
has_id-sort_by_key id acc [] = refl
has_id-sort_by_key id acc (e ∷ es) =
    ground (arith, has_id-sort_by_key id (insert_by_key e acc) es, has_id-insert_by_key id e acc)

pub has_id-sorted : (id : String) (es : List Event) → has_id id (sorted es) ≡ has_id id es
unfolding sorted
has_id-sorted id es = ground (arith, has_id-sort_by_key id [] es)

-- What is lacked is there and was not there before.
pub has_id-lacking :
    (id : String) (ids : List String) (es : List Event)
    → has_id id (lacking ids es) ≡ (if contains id ids then false else has_id id es)
unfolding lacking
has_id-lacking id ids [] = ground arith
has_id-lacking id ids (e ∷ es) = ground (arith, has_id-lacking id ids es, eq_iff id e.event_id)

-- The events collected are those whose ids were seen.
abbrev IsTracked : Collected → Type 0
IsTracked acc = (id : String) → contains id acc.seen ≡ has_id id acc.all_events

IsTracked-add :
    (e : Event) (acc : Collected)
    → IsTracked acc
    → IsTracked (record { seen = e.event_id ∷ acc.seen; all_events = acc.all_events ++ e ∷ [] })
unfolding contains
IsTracked-add e acc h id = ground (arith, h id, has_id-append_list id acc.all_events (e ∷ []))

collect-IsTracked : (es : List Event) (acc : Collected) → IsTracked acc → IsTracked (collect es acc)
unfolding collect
collect-IsTracked [] acc h = h
collect-IsTracked (e ∷ es) acc h = elim (Bool-cases (contains e.event_id acc.seen)) [
  | inl old ↦ rw (old, collect) (collect-IsTracked es acc h)
  | inr new ↦
      rw (new, collect)
        (collect-IsTracked es
          (record { seen = e.event_id ∷ acc.seen; all_events = acc.all_events ++ e ∷ [] })
          (IsTracked-add e acc h))
]

has_id-collect :
    (id : String) (es : List Event) (acc : Collected)
    → IsTracked acc
    → has_id id (collect es acc).all_events ≡ (has_id id es || has_id id acc.all_events)
unfolding collect
has_id-collect id [] acc h = refl
has_id-collect id (e ∷ es) acc h = elim (Bool-cases (contains e.event_id acc.seen)) [
  | inl old ↦
      rw (old, collect)
        (has_id-collect id es acc h ∙ (ground (arith, eq_iff id e.event_id, h e.event_id)))
  | inr new ↦
      rw (new, collect)
        (has_id-collect id es
            (record { seen = e.event_id ∷ acc.seen; all_events = acc.all_events ++ e ∷ [] })
            (IsTracked-add e acc h)
          ∙ (ground (arith, has_id-append_list id acc.all_events (e ∷ []))))
]

has_id-collect_chains :
    (id : String) (cs : List EventChain) (acc : Collected)
    → IsTracked acc
    → has_id id (collect_chains cs acc).all_events
      ≡ (any (λ (c : EventChain). has_id id c.events) cs || has_id id acc.all_events)
unfolding collect_chains
has_id-collect_chains id [] acc h = refl
has_id-collect_chains id (c ∷ cs) acc h =
    has_id-collect_chains id cs (collect c.events acc) (collect-IsTracked c.events acc h)
    ∙ (ground (arith, has_id-collect id c.events acc h))

abbrev none_yet : Collected
none_yet = record { seen = []; all_events = [] }

none_yet-IsTracked : IsTracked none_yet
unfolding contains
none_yet-IsTracked id = refl

-- The events of the base chain, where there is one.
abbrev pub base_events : Option EventChain → List Event
base_events none = []
base_events (some c) = c.events

module _ ⦃p : Platform⦄ where
  -- A merge of edge chains that returns has the events of every chain and of the base, and no
  -- others, by their ids.
  pub sync_merge_has_union :
      (concept_id : String) (chains : List EventChain) (base : Option EventChain) (c : EventChain)
      (id : String)
      → merge concept_id chains base ≡ ok c
      → has_id id c.events
        ≡ (any (λ (d : EventChain). has_id id d.events) chains || has_id id (base_events base))
  unfolding merge
  sync_merge_has_union concept_id chains none c id h =
      has_id-rebuild id concept_id _ c h
      ∙ has_id-sorted id (collect_chains chains none_yet).all_events
      ∙ has_id-collect_chains id chains none_yet none_yet-IsTracked
  sync_merge_has_union concept_id chains (some base) c id h =
      has_id-rebuild id concept_id _ c h
      ∙ has_id-sorted id (collect_chains chains (collect base.events none_yet)).all_events
      ∙ has_id-collect_chains id chains (collect base.events none_yet)
          (collect-IsTracked base.events none_yet none_yet-IsTracked)
      ∙ ap (λ b. any (λ (d : EventChain). has_id id d.events) chains || b)
          (has_id-collect id base.events none_yet none_yet-IsTracked ∙ (ground arith))

  has_id-push :
      (edge center c : EventChain) (id : String)
      → push edge center ≡ ok c
      → has_id id c.events ≡ (has_id id center.events || has_id id edge.events)
  unfolding push diff
  has_id-push edge center c id h =
      has_id-rebuild id center.concept_id _ c h
      ∙ has_id-append_list id center.events (sorted (diff center edge))
      ∙ (ground (
        arith,
        has_id-sorted id (lacking (event_ids center.events) edge.events),
        has_id-lacking id (event_ids center.events) edge.events,
        contains-event_ids id center.events,
      ))

  lacking_nothing :
      (ids : List String) (es : List Event)
      → ((id : String) → has_id id es ≡ true → contains id ids ≡ true)
      → lacking ids es ≡ []
  unfolding lacking
  lacking_nothing ids [] h = refl
  lacking_nothing ids (e ∷ es) h =
      rw (h e.event_id (rw (eq_refl e.event_id) refl))
        (lacking_nothing ids es (λ id k. h id (ground (arith, k))))

  -- After a push the center has the events of both chains, by their ids, and the edge has nothing
  -- more to push.
  pub push_completes :
      (edge center c : EventChain)
      → push edge center ≡ ok c
      → ((id : String) → has_id id c.events ≡ (has_id id center.events || has_id id edge.events))
        × (diff c edge ≡ [])
  unfolding diff
  push_completes edge center c h = (
    λ id. has_id-push edge center c id h,
    lacking_nothing (event_ids c.events) edge.events (λ id k.
        contains-event_ids id c.events ∙ has_id-push edge center c id h ∙ (ground (arith, k))),
  )
