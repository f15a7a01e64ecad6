-- ===== src/Chain/Incremental.antt =====
-- `_verify_prefix` (adl_lite/models.py) as an optimisation: after an append to a verified chain it
-- checks the new event alone, and its verdict is that of a verification of the whole chain.
use Prim.Native.Nat.{suc}
use adl_lite.Prelude.{
  ℕ, ◌+◌, String, ◌≡◌, refl, ap, ap₂, sym, ◌∙◌, subst, Bool, true, false, ◌||◌, none, some, List,
  [], ◌∷◌, ◌++◌, map, length, length-append, last?, drop, get_elem?, any-append, str_eq, eq_refl,
  eq_iff, arith,
}
use adl_lite.Event.{Platform, Event}
use adl_lite.Chain.{
  EventChain, update_status, update_confidence, update_crdt_caches, link_to, append,
}
use adl_lite.Chain.Verify.{
  Verdict, valid, Progress, is_archive, has_archive, prefix_match, verify_from, keeps_prefix,
  start_index, event_before, initial_progress, finish, verify_prefix, verify_integrity,
}
use adl_lite.Chain.Loop.{
  position, behind, and_then, verify_from-append, valid_ids, valid_last_dt, stamp,
}
use adl_lite.Chain.Status.{events-append, event_type-link_to}
use adl_lite.Chain.Restart.{
  start, Restarts, full, pair_eq, finish_verdict, verify_integrity_nonempty, verify_prefix-Restarts,
  verify_integrity-Restarts,
}

abbrev ids_of : List Event → List String
ids_of = map (λ (e : Event). e.event_id)

prefix_match-ids_of : (es fs : List Event) → prefix_match (ids_of es) (es ++ fs) ≡ true
unfolding prefix_match
prefix_match-ids_of [] fs = refl
prefix_match-ids_of (e ∷ es) fs = rw (eq_refl, prefix_match-ids_of es fs) refl

length-ids_of : (es : List Event) → length (ids_of es) ≡ length es
length-ids_of [] = refl
length-ids_of (e ∷ es) = ap suc (length-ids_of es)

position-length : (i : ℕ) (es : List Event) → position i es ≡ i + length es
position-length i [] = omega arith
position-length i (e ∷ es) = omega (arith, position-length (suc i) es)

get_elem?-behind :
    (d : Event) (ds fs : List Event) → get_elem? (d ∷ ds ++ fs) (length ds) ≡ behind (some d) ds
get_elem?-behind d [] fs = refl
get_elem?-behind d (e ∷ ds) fs = get_elem?-behind e ds fs

drop-append : (es fs : List Event) → drop (length es) (es ++ fs) ≡ fs
drop-append [] fs = refl
drop-append (e ∷ es) fs = drop-append es fs

module _ (d : Event) (ds : List Event) (l : Event) where
  keeps_prefix-append : keeps_prefix (ids_of (d ∷ ds)) ((d ∷ ds) ++ l ∷ []) ≡ true
  unfolding keeps_prefix
  keeps_prefix-append =
      rw (prefix_match-ids_of (d ∷ ds) (l ∷ []))
        (grind (arith, length-ids_of ds, length-append ds (l ∷ [])))

  start_index-append : start_index (ids_of (d ∷ ds)) ((d ∷ ds) ++ l ∷ []) ≡ suc (length ds)
  unfolding start_index
  start_index-append = rw (keeps_prefix-append, start_index) (ap suc (length-ids_of ds))

  event_before-append : event_before (suc (length ds)) ((d ∷ ds) ++ l ∷ []) ≡ behind (some d) ds
  unfolding event_before
  event_before-append = get_elem?-behind d ds (l ∷ [])

behind-some : (d : Event) (ds : List Event) → (e : Event) × (behind (some d) ds ≡ some e)
behind-some d [] = (d, refl)
behind-some d (e ∷ ds) = behind-some e ds

module _ ⦃p : Platform⦄ (c : EventChain) (g : Progress) (d : Event) (ds : List Event)
    (l : Event) where
  -- The chain `c` holds one event more than the verification that left its cache.
  module _ (events : c.events ≡ (d ∷ ds) ++ l ∷ []) (ids : c.verified_event_ids ≡ ids_of (d ∷ ds))
      (seen : c.verified_seen ≡ g.seen) (g_ids : g.ids ≡ ids_of (d ∷ ds))
      (last : g.last_dt ≡ stamp (behind (some d) ds)) where
    keeps : keeps_prefix c.verified_event_ids c.events ≡ true
    keeps = ap₂ keeps_prefix ids events ∙ keeps_prefix-append d ds l

    index : start_index c.verified_event_ids c.events ≡ suc (length ds)
    index = ap₂ start_index ids events ∙ start_index-append d ds l

    before : event_before (suc (length ds)) c.events ≡ behind (some d) ds
    before = ap (event_before (suc (length ds))) events ∙ event_before-append d ds l

    new_part : drop (suc (length ds)) c.events ≡ l ∷ []
    new_part = ap (drop (suc (length ds))) events ∙ drop-append (d ∷ ds) (l ∷ [])

    initial_progress-append : initial_progress c ≡ g
    unfolding initial_progress
    initial_progress-append =
        let (e, q) = behind-some d ds in
        rw (keeps, index, before, q, initial_progress)
          (λ i. record {
            seen = seen i;
            ids = (ids ∙ sym g_ids) i;
            last_dt = (ap stamp (sym q) ∙ sym last) i;
          })

    verify_prefix-append :
        (verify_prefix c).0
        ≡ (verify_from
            (has_archive c.events)
            c.concept_id
            (suc (length ds))
            (behind (some d) ds)
            g
            (l ∷ [])).0
    unfolding verify_prefix
    verify_prefix-append =
        rw finish_verdict (rw (initial_progress-append, index, before, new_part) refl)

or_false : (b : Bool) → (b || (false || false)) ≡ b
or_false b = ground arith

-- The cache of a verification that ended well.
module _ ⦃p : Platform⦄ where
  finish_valid :
      (c : EventChain) (kept : Bool) (g : Progress)
      → ((finish c kept (valid, g)).1.verified_event_ids ≡ g.ids)
        × ((finish c kept (valid, g)).1.verified_seen ≡ g.seen)
        × ((finish c kept (valid, g)).1.events ≡ c.events)
        × ((finish c kept (valid, g)).1.concept_id ≡ c.concept_id)
  unfolding finish
  finish_valid c kept g = (refl, refl, refl, refl)

  pub append_keeps_cache :
      (e : Event) (c : EventChain)
      → ((append e c).1.verified_event_ids ≡ c.verified_event_ids)
        × ((append e c).1.verified_seen ≡ c.verified_seen)
        × ((append e c).1.concept_id ≡ c.concept_id)
  unfolding append update_crdt_caches update_confidence update_status
  append_keeps_cache e c = ground arith

  has_archive-append :
      (es : List Event) (l : Event)
      → is_archive l.event_type ≡ false
      → has_archive (es ++ l ∷ []) ≡ has_archive es
  unfolding has_archive
  has_archive-append es l h =
      any-append (λ e. is_archive e.event_type) es (l ∷ []) ∙ (rw h (or_false (has_archive es)))

  -- The full verification of a chain that has grown by one event.
  full-append :
      (c c' : EventChain) (g : Progress) (d : Event) (ds : List Event) (l : Event)
      → c.events ≡ d ∷ ds
      → c'.events ≡ (d ∷ ds) ++ l ∷ []
      → c'.concept_id ≡ c.concept_id
      → is_archive l.event_type ≡ false
      → full c ≡ (valid, g)
      → full c'
        ≡ verify_from
            (has_archive c'.events)
            c'.concept_id
            (suc (length ds))
            (behind (some d) ds)
            g
            (l ∷ [])
  full-append c c' g d ds l q q' cid no_archive run =
      let a = has_archive c'.events in
      let same_archive : a ≡ has_archive c.events =
        ap has_archive q' ∙ has_archive-append (d ∷ ds) l no_archive ∙ ap has_archive (sym q) in
      let old : verify_from a c'.concept_id 0 none start (d ∷ ds) ≡ (valid, g) =
        rw (same_archive, cid, ← q) run in
      ap (verify_from a c'.concept_id 0 none start) q'
      ∙ verify_from-append a c'.concept_id 0 none start (d ∷ ds) (l ∷ [])
      ∙ ap
          (λ r. and_then r (λ g'.
            verify_from a c'.concept_id (position 0 (d ∷ ds)) (behind none (d ∷ ds)) g' (l ∷ [])))
          old
      ∙ ap (λ i. verify_from a c'.concept_id i (behind (some d) ds) g (l ∷ []))
          (position-length 1 ds ∙ omega arith)

  grown_verdict :
      (c c' : EventChain) (g : Progress) (d : Event) (ds : List Event) (l : Event)
      → c.events ≡ d ∷ ds
      → c'.events ≡ (d ∷ ds) ++ l ∷ []
      → c'.concept_id ≡ c.concept_id
      → is_archive l.event_type ≡ false
      → full c ≡ (valid, g)
      → c'.verified_event_ids ≡ g.ids
      → c'.verified_seen ≡ g.seen
      → (verify_integrity c').0 ≡ (full c').0
  grown_verdict c c' g d ds l q q' cid no_archive run ids seen =
      let loop : verify_from (has_archive c.events) c.concept_id 0 none start (d ∷ ds)
          ≡ (valid, g) =
        ap (verify_from (has_archive c.events) c.concept_id 0 none start) (sym q) ∙ run in
      let g_ids = valid_ids (has_archive c.events) c.concept_id 0 none start g (d ∷ ds) loop in
      let last =
        valid_last_dt (has_archive c.events) c.concept_id 0 none start g (d ∷ ds) refl loop in
      ap (λ (r : Verdict × EventChain). r.0) (verify_integrity_nonempty c' d (ds ++ l ∷ []) q')
      ∙ verify_prefix-append c' g d ds l q' (ids ∙ g_ids) seen g_ids last
      ∙ ap (λ (r : Verdict × Progress). r.0)
          (sym (full-append c c' g d ds l q q' cid no_archive run))

  -- Let a chain with events be found valid by a verification that started at its first event (no
  -- prefix that an earlier verification recorded was relied on), and let an event of the concept of
  -- the chain that is no archive then be appended, whether the append raises after it has put the
  -- event at the end or not. Then the incremental verification of the grown chain and a
  -- verification of all its events give one verdict.
  pub incremental_equals_full :
      (c : EventChain) (d : Event) (ds : List Event) (e : Event)
      → c.events ≡ d ∷ ds
      → Restarts c
      → (verify_integrity c).0 ≡ valid
      → e.concept_id ≡ c.concept_id
      → is_archive e.event_type ≡ false
      → let grown = (append e (verify_integrity c).1).1 in
        (verify_integrity grown).0 ≡ (full grown).0
  incremental_equals_full c d ds e q restarts ok_eq concept no_archive =
      let g = (full c).1 in
      let kept = keeps_prefix c.verified_event_ids c.events in
      let run = pair_eq (full c) (sym (verify_integrity-Restarts c restarts) ∙ ok_eq) in
      let verified : verify_integrity c ≡ finish c kept (valid, g) =
        verify_integrity_nonempty c d ds q
        ∙ verify_prefix-Restarts c restarts
        ∙ ap (finish c kept) run in
      let c1 = (verify_integrity c).1 in
      let l = link_to (last? c1.events) e in
      let (ids, seen, events, cid) =
        subst
          (λ (r : Verdict × EventChain).
            (r.1.verified_event_ids ≡ g.ids)
            × (r.1.verified_seen ≡ g.seen)
            × (r.1.events ≡ c.events)
            × (r.1.concept_id ≡ c.concept_id))
          (sym verified) (finish_valid c kept g) in
      let (ids', seen', cid') = append_keeps_cache e c1 in
      let same : str_eq e.concept_id c1.concept_id ≡ true =
        (eq_iff e.concept_id c1.concept_id).1 (concept ∙ sym cid) in
      let grown_events : (append e c1).1.events ≡ c1.events ++ l ∷ [] =
        events-append e c1 ∙ (rw same refl) in
      grown_verdict c (append e c1).1 g d ds l q
        (grown_events ∙ ap (λ es. es ++ l ∷ []) (events ∙ q)) (cid' ∙ cid)
        (ap is_archive (event_type-link_to (last? c1.events) e) ∙ no_archive) run (ids' ∙ ids)
        (seen' ∙ seen)
