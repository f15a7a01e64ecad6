-- ===== src/Chain.antt =====
-- `EventChain` (adl_lite/models.py): the append-only list of linked events, its incremental caches
-- and the values derived from it. The locks are not modelled: each method is one atomic step.
pub mod Axioms
pub mod Verify
pub mod Status
pub mod Lattice
pub mod Confidence
pub mod Loop
pub mod Integrity
pub mod Restart
pub mod Incremental
pub mod Tamper
pub mod StaleCache
use adl_lite.Prelude.{
  ℕ, String, Bool, true, false, ◌||◌, Option, none, some, List, [], ◌∷◌, ◌++◌, str_eq, ltb, ◌==◌,
  last?, if◌then◌else◌,
}
use adl_lite.Prelude.Dict.{contains}
use adl_lite.Prelude.Text.{str_lt}
use adl_lite.Prelude.Result.{Result, ok, err, value_error, ◌>>=◌}
use adl_lite.Event.{
  EventType, DiscoveryStatus, DateTime, Platform, Event, validate, snapshot, provisional, order,
  of_order, type_to_status, rehash, confidence_field, clamp,
}

pub record EventChain : Type 0 where
  pub concept_id : String
  pub events : List Event
  pub cached_status : DiscoveryStatus
  pub cached_status_order : ℕ
  pub cached_confidence : ℕ
  -- `none` is -1
  pub verified_index : Option ℕ
  pub verified_hash : String
  pub verified_seen : List String
  pub verified_event_ids : List String
  pub verified_last_dt : Option DateTime

-- `EventChain(concept_id)`
unfoldable pub empty_chain : String → EventChain
empty_chain cid = record {
  concept_id = cid;
  events = [];
  cached_status = provisional;
  cached_status_order = 0;
  cached_confidence = 0;
  verified_index = none;
  verified_hash = "";
  verified_seen = [];
  verified_event_ids = [];
  verified_last_dt = none;
}

-- `event_type in (EventType.VALIDATE, EventType.SNAPSHOT)`
unfoldable pub carries_confidence : EventType → Bool
carries_confidence validate = true
carries_confidence snapshot = true
carries_confidence _ = false

unfoldable pub is_validate : EventType → Bool
is_validate validate = true
is_validate _ = false

-- One round of the status computation: the order after an event.
unfoldable pub raise_order : ℕ → EventType → ℕ
raise_order n et = elim (type_to_status et) [
  | none ↦ n
  | some s ↦ if ltb n (order s) then order s else n
]

-- The status part of `_update_crdt_caches`.
unfoldable pub update_status : EventType → EventChain → EventChain
update_status et c = elim (type_to_status et) [
  | none ↦ c
  | some s ↦
      if ltb c.cached_status_order (order s)
      then record c { cached_status = of_order (order s); cached_status_order = order s }
      else c
]

module _ ⦃p : Platform⦄ where
  -- The confidence part of `_update_crdt_caches`. `float` may raise.
  unfoldable pub update_confidence : Event → EventChain → Result (Unit {0}) × EventChain
  update_confidence e c =
      if carries_confidence e.event_type
      then (elim (confidence_field e.payload) [
        | err x ↦ (err x, c)
        | ok v ↦
            if ltb c.cached_confidence (clamp v)
            then (ok tt, record c { cached_confidence = clamp v })
            else (ok tt, c)
      ])
      else (ok tt, c)

  unfoldable pub update_crdt_caches : Event → EventChain → Result (Unit {0}) × EventChain
  update_crdt_caches e c = update_confidence e (update_status e.event_type c)

  -- The fields that `append` sets, by the tail of the chain.
  unfoldable pub link_to : Option Event → Event → Event
  link_to none e = rehash (record e { previous_event_id = none; prev_hash = "" })
  link_to (some prev) e = rehash (record e {
    previous_event_id = some prev.event_id;
    prev_hash = prev.hash;
    timestamp = if str_lt e.timestamp prev.timestamp then prev.timestamp else e.timestamp;
  })

  -- `append`. A raise by `float` comes after the event stands in the list.
  unfoldable pub append : Event → EventChain → Result (Unit {0}) × EventChain
  append e c =
      if str_eq e.concept_id c.concept_id
      then (let linked = link_to (last? c.events) e in
          update_crdt_caches linked (record c { events = c.events ++ linked ∷ [] }))
      else (err value_error, c)

  -- `for e in events: self.append(e)`
  unfoldable pub append_all : List Event → EventChain → Result (Unit {0}) × EventChain
  append_all [] c = (ok tt, c)
  append_all (e ∷ es) c =
      let (r, c') = append e c in
      let rest = append_all es c' in elim r [ ok _ ↦ rest | err x ↦ (err x, c') ]

  -- The loop of `_compute_confidence_from_events`.
  unfoldable pub max_confidence : ℕ → List Event → Result ℕ
  max_confidence n [] = ok n
  max_confidence n (e ∷ es) =
      if carries_confidence e.event_type
      then (do
        v ← confidence_field e.payload
        max_confidence (if ltb n (clamp v) then clamp v else n) es)
      else max_confidence n es

  unfoldable pub compute_confidence_from_events : List Event → Result ℕ
  compute_confidence_from_events es = max_confidence 0 es

  -- The property `confidence`. `bool(self._events)` needs no test: without events the loop gives 0.
  unfoldable pub confidence : EventChain → Result ℕ
  confidence c = elim c.events [
    | [] ↦ ok c.cached_confidence
    | _ ∷ _ ↦
        if c.cached_confidence == 0
        then compute_confidence_from_events c.events
        else ok c.cached_confidence
  ]

-- The loop of `_compute_status_from_events`.
unfoldable pub max_order : ℕ → List Event → ℕ
max_order n [] = n
max_order n (e ∷ es) = max_order (raise_order n e.event_type) es

unfoldable pub compute_status_from_events : List Event → DiscoveryStatus
compute_status_from_events es =
    if max_order 0 es == 0 then provisional else of_order (max_order 0 es)

-- The property `status`.
unfoldable pub status : EventChain → DiscoveryStatus
status c = elim c.events [
  | [] ↦ c.cached_status
  | _ ∷ _ ↦
      if c.cached_status_order == 0 then compute_status_from_events c.events else c.cached_status
]

-- `list(dict.fromkeys(…))`: each text once, where it comes first.
unfoldable pub fromkeys : List String → List String → List String
fromkeys seen [] = []
fromkeys seen (x ∷ xs) = elim (contains x seen) [
  | true ↦ fromkeys seen xs
  | false ↦ x ∷ fromkeys (x ∷ seen) xs
]

-- The actors of the VALIDATE events.
unfoldable pub validating_actors : List Event → List String
validating_actors [] = []
validating_actors (e ∷ es) =
    let rest = validating_actors es in if is_validate e.event_type then e.actor ∷ rest else rest

-- The property `validators`.
unfoldable pub validators : EventChain → List String
validators c = fromkeys [] (validating_actors c.events)
