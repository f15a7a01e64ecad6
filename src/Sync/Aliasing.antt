-- ===== src/Sync/Aliasing.antt =====
-- What `SyncManager.pull` (adl_lite/sync_manager.py) does to the center chain. It appends the event
-- objects of the center without a copy, and `EventChain.append` writes their links and hashes.
-- `center_after` finds the objects by their ids, so it describes the center where the events of each
-- chain have distinct ids, as axiom 5 asks, and where the two chains share no event object before
-- the pull (`push` and `merge` copy the events that they append; an earlier `pull` does not).
use adl_lite.Prelude.{
  String, ◌≡◌, refl, sym, ap, ◌∙◌, Bool, true, false, ◌||◌, Option, none, some, List, [], ◌∷◌, ◌++◌,
  any, last?, last?-append, append-nil, append_assoc, str_eq, eq_iff, eq_refl, arith, inl, inr,
  Bool-cases, Option-cases, if◌then◌else◌,
}
use adl_lite.Prelude.Dict.{contains}
use adl_lite.Prelude.Result.{ok, Result-cases, ok-injective}
use adl_lite.Event.{Platform, Event, rehash}
use adl_lite.Chain.{EventChain, empty_chain, append, append_all, link_to}
use adl_lite.Chain.Status.{events-append}
use adl_lite.Merge.{rebuild}
use adl_lite.Merge.Ids.{has_id, has_id-append_all, append_concept, event_id-link_to}
use adl_lite.Sync.Manager.{event_ids, sorted, lacking, diff, pull}
use adl_lite.Sync.Exchange.{contains-event_ids, has_id-lacking, has_id-sorted}

-- The object of an event after the pull: the one with its id in the pulled chain.
unfoldable pub find_event : String → List Event → Option Event
find_event id [] = none
find_event id (e ∷ es) = if str_eq id e.event_id then some e else find_event id es

-- The events of the center after the pull: those that the edge lacked were appended to its chain.
unfoldable pub rewritten : List String → List Event → List Event → List Event
unfolding find_event
rewritten edge_ids pulled [] = []
rewritten edge_ids pulled (e ∷ es) =
    (if contains e.event_id edge_ids
      then e
      else elim (find_event e.event_id pulled) [ none ↦ e | some f ↦ f ])
    ∷ rewritten edge_ids pulled es

-- The center chain after a pull that returned, for chains of distinct ids that share no objects.
unfoldable pub center_after : EventChain → EventChain → EventChain → EventChain
unfolding rewritten event_ids
center_after edge center pulled = record center {
  events = rewritten (event_ids edge.events) pulled.events center.events;
}

-- Whether an event names another as the one before it.
abbrev pub names : String → Event → Bool
names id e = elim e.previous_event_id [ none ↦ false | some j ↦ str_eq id j ]

event_id-find_event :
    (id : String) (es : List Event) (e : Event)
    → find_event id es ≡ some e
    → str_eq id e.event_id ≡ true
unfolding find_event
event_id-find_event id [] e h = cc
event_id-find_event id (f ∷ fs) e h = elim (Bool-cases (str_eq id f.event_id)) [
  | inl same ↦
      (let eq : f ≡ e = some_injective (rw same at h) in
        ap (λ (x : Event). str_eq id x.event_id) (sym eq) ∙ same)
  | inr other ↦ event_id-find_event id fs e (rw other at h)
]
  where
    some_injective : {x y : Event} → some x ≡ some y → x ≡ y
    some_injective e = cc

find_event-append :
    (id : String) (es fs : List Event) (f : Event)
    → has_id id es ≡ false
    → str_eq id f.event_id ≡ true
    → find_event id (es ++ f ∷ fs) ≡ some f
unfolding find_event
find_event-append id [] fs f h same = rw same refl
find_event-append id (e ∷ es) fs f h same = ground (arith, find_event-append id es fs f)

has_id-rewritten :
    (id : String) (ids : List String) (pulled es : List Event)
    → has_id id (rewritten ids pulled es) ≡ has_id id es
unfolding rewritten
has_id-rewritten id ids pulled [] = refl
has_id-rewritten id ids pulled (e ∷ es) = elim (Bool-cases (contains e.event_id ids)) [
  | inl old ↦ rw old (ap (λ b. str_eq id e.event_id || b) (has_id-rewritten id ids pulled es))
  | inr new ↦ (elim (Option-cases (find_event e.event_id pulled)) [
    | inl q ↦ rw (new, q) (ap (λ b. str_eq id e.event_id || b) (has_id-rewritten id ids pulled es))
    | inr (f, q) ↦
        (let same : e.event_id ≡ f.event_id =
            (eq_iff e.event_id f.event_id).0 (event_id-find_event e.event_id pulled f q) in
          rw (new, q)
            (ap (λ i. str_eq id i || has_id id (rewritten ids pulled es)) (sym same)
              ∙ ap (λ b. str_eq id e.event_id || b) (has_id-rewritten id ids pulled es)))
  ])
]

-- An event that the center had and the edge lacked is now the pulled one.
any-rewritten :
    (test : Event → Bool) (id : String) (f : Event) (ids : List String) (pulled es : List Event)
    → contains id ids ≡ false
    → find_event id pulled ≡ some f
    → test f ≡ true
    → has_id id es ≡ true
    → any test (rewritten ids pulled es) ≡ true
unfolding rewritten
any-rewritten test id f ids pulled [] new found passes there = cc
any-rewritten test id f ids pulled (e ∷ es) new found passes there =
    elim (Bool-cases (str_eq id e.event_id)) [
      | inl same ↦
          (let eq : id ≡ e.event_id = (eq_iff id e.event_id).0 same in
            let new' : contains e.event_id ids ≡ false = ap (λ i. contains i ids) (sym eq) ∙ new in
            let found' : find_event e.event_id pulled ≡ some f =
              ap (λ i. find_event i pulled) (sym eq) ∙ found in
            rw (new', found', passes) refl)
      | inr other ↦
          (let rest = any-rewritten test id f ids pulled es new found passes (rw other at there) in
            ground (arith, rest))
    ]

module _ ⦃p : Platform⦄ where
  pub appended_events :
      (e : Event) (c : EventChain)
      → (append e c).0 ≡ ok tt
      → (append e c).1.events ≡ c.events ++ link_to (last? c.events) e ∷ []
  appended_events e c q = events-append e c ∙ (rw (append_concept e c q) refl)

  -- What is appended later stands behind.
  append_all_prefix :
      (es : List Event) (c : EventChain)
      → (append_all es c).0 ≡ ok tt
      → (rest : List Event) × ((append_all es c).1.events ≡ c.events ++ rest)
  unfolding append_all
  append_all_prefix [] c q = ([], sym (append-nil c.events))
  append_all_prefix (e ∷ es) c q = elim (Result-cases (append e c).0) [
    | inl (x, r) ↦ cc (rw (r, append_all) at q)
    | inr (_, r) ↦
        (let (rest, eq) = append_all_prefix es (append e c).1 (rw (r, append_all) at q) in
          (
            link_to (last? c.events) e ∷ rest,
            rw (r, append_all)
                (eq
                  ∙ ap (λ l. l ++ rest) (appended_events e c r)
                  ∙ append_assoc c.events (link_to (last? c.events) e ∷ []) rest),
          ))
  ]

  -- The event after a list of others is linked to the last of them.
  append_all_middle :
      (es : List Event) (f : Event) (fs : List Event) (c : EventChain)
      → (append_all (es ++ f ∷ fs) c).0 ≡ ok tt
      → let d = (append_all es c).1 in
        ((append_all es c).0 ≡ ok tt)
        × ((rest : List Event) × ((append_all (es ++ f ∷ fs) c).1.events
              ≡ d.events ++ link_to (last? d.events) f ∷ rest))
  unfolding append_all
  append_all_middle [] f fs c q = elim (Result-cases (append f c).0) [
    | inl (x, r) ↦ cc (rw (r, append_all) at q)
    | inr (_, r) ↦
        (let (rest, eq) = append_all_prefix fs (append f c).1 (rw (r, append_all) at q) in
          (
            refl,
            (
              rest,
              rw (r, append_all)
                  (eq
                    ∙ ap (λ l. l ++ rest) (appended_events f c r)
                    ∙ append_assoc c.events (link_to (last? c.events) f ∷ []) rest),
            ),
          ))
  ]
  append_all_middle (e ∷ es) f fs c q = elim (Result-cases (append e c).0) [
    | inl (x, r) ↦ cc (rw (r, append_all) at q)
    | inr (_, r) ↦
        rw (r, append_all) (append_all_middle es f fs (append e c).1 (rw (r, append_all) at q))
  ]

  last_appended :
      (es : List Event) (m : Event) (c : EventChain)
      → (append_all (es ++ m ∷ []) c).0 ≡ ok tt
      → (l : Event) × (last? (append_all (es ++ m ∷ []) c).1.events ≡ some l)
        × (l.event_id ≡ m.event_id)
  unfolding append_all
  last_appended [] m c q = elim (Result-cases (append m c).0) [
    | inl (x, r) ↦ cc (rw (r, append_all) at q)
    | inr (_, r) ↦ (
      link_to (last? c.events) m,
      rw (r, append_all)
          (ap last? (appended_events m c r) ∙ last?-append c.events (link_to (last? c.events) m)),
      event_id-link_to (last? c.events) m,
    )
  ]
  last_appended (e ∷ es) m c q = elim (Result-cases (append e c).0) [
    | inl (x, r) ↦ cc (rw (r, append_all) at q)
    | inr (_, r) ↦ rw (r, append_all) (last_appended es m (append e c).1 (rw (r, append_all) at q))
  ]

  names-link_to :
      (l f : Event) (id : String) → l.event_id ≡ id → names id (link_to (some l) f) ≡ true
  unfolding link_to rehash
  names-link_to l f id h = rw h (eq_refl id)

  rebuilt :
      (cid : String) (es : List Event) (c : EventChain)
      → rebuild cid es ≡ ok c
      → ((append_all es (empty_chain cid)).0 ≡ ok tt) × ((append_all es (empty_chain cid)).1 ≡ c)
  unfolding rebuild
  rebuilt cid es c q = elim (Result-cases (append_all es (empty_chain cid)).0) [
    | inl (x, r) ↦ cc (rw (r, rebuild) at q)
    | inr (_, r) ↦ (r, ok-injective (rw (r, rebuild) at q))
  ]

  -- The first of the pulled events is not one of the edge, and is one of the center.
  first_pulled :
      (edge center : EventChain) (f : Event) (fs : List Event)
      → sorted (diff edge center) ≡ f ∷ fs
      → (contains f.event_id (event_ids edge.events) ≡ false)
        × (has_id f.event_id center.events ≡ true)
  unfolding diff
  first_pulled edge center f fs h =
      let there : has_id f.event_id (lacking (event_ids edge.events) center.events) ≡ true =
        sym (has_id-sorted f.event_id (lacking (event_ids edge.events) center.events))
        ∙ (rw h (ap (λ b. b || has_id f.event_id fs) (eq_refl f.event_id))) in
      ground (arith, there, has_id-lacking f.event_id (event_ids edge.events) center.events)

  -- What is found of the first pulled event in the pulled chain is linked to the last edge event.
  found_linked :
      (edge c : EventChain) (es : List Event) (m f : Event) (fs : List Event)
      → edge.events ≡ es ++ m ∷ []
      → contains f.event_id (event_ids edge.events) ≡ false
      → rebuild edge.concept_id (edge.events ++ f ∷ fs) ≡ ok c
      → (l : Event) × (l.event_id ≡ m.event_id)
        × (find_event f.event_id c.events ≡ some (link_to (some l) f))
  unfolding empty_chain
  found_linked edge c es m f fs split new q =
      let (all, eq) = rebuilt edge.concept_id (edge.events ++ f ∷ fs) c q in
      let base = empty_chain edge.concept_id in
      let d = (append_all edge.events base).1 in
      let (upto, (rest, tail)) = append_all_middle edge.events f fs base all in
      let (l, last, same) = last_appended es m base (rw split at upto) in
      let last' : last? d.events ≡ some l = rw split last in
      let fresh : has_id f.event_id d.events ≡ false =
        has_id-append_all f.event_id edge.events base upto
        ∙ sym (contains-event_ids f.event_id edge.events)
        ∙ new in
      let shape : c.events ≡ d.events ++ link_to (some l) f ∷ rest =
        ap (λ (x : EventChain). x.events) (sym eq) ∙ (rw last' at tail) in
      (
        l,
        same,
        ap (find_event f.event_id) shape
            ∙ find_event-append f.event_id d.events rest (link_to (some l) f) fresh
                (ap (str_eq f.event_id) (event_id-link_to (some l) f) ∙ eq_refl f.event_id),
      )

  -- For two chains whose events have distinct ids and that share no event objects: if the last event
  -- of the edge chain is unknown to the center, and a pull that returns brings at
  -- least one event of the center to the edge chain, then after it an event of the center names
  -- that last event as the one before, and the center still does not have it. The events of the
  -- center after the pull are those of `center_after`.
  pub pull_relinks_the_center :
      (edge center c : EventChain) (es : List Event) (m f : Event) (fs : List Event)
      → edge.events ≡ es ++ m ∷ []
      → has_id m.event_id center.events ≡ false
      → sorted (diff edge center) ≡ f ∷ fs
      → pull edge center ≡ ok c
      → (any (names m.event_id) (center_after edge center c).events ≡ true)
        × (has_id m.event_id (center_after edge center c).events ≡ false)
  unfolding pull center_after
  pull_relinks_the_center edge center c es m f fs split unknown news q =
      let (new, there) = first_pulled edge center f fs news in
      let (l, same, found) = found_linked edge c es m f fs split new (rw news at q) in
      (
        any-rewritten (names m.event_id) f.event_id (link_to (some l) f) (event_ids edge.events)
            c.events center.events new found (names-link_to l f m.event_id same) there,
        has_id-rewritten m.event_id (event_ids edge.events) c.events center.events ∙ unknown,
      )
