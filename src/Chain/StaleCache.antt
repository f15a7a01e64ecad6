-- ===== src/Chain/StaleCache.antt =====
-- The integrity cache of `EventChain` (adl_lite/models.py) after a verification that failed: the
-- rejected event is recorded, and a second verification does not look at it again.
use adl_lite.Prelude.{
  String, ◌≡◌, refl, ap₂, ◌∙◌, Bool, true, none, some, List, [], ◌∷◌, eq_refl, arith, inr,
}
use adl_lite.Prelude.Text.{is_blank}
use adl_lite.Event.{Platform, Event, parse_event_dt}
use adl_lite.Chain.{EventChain}
use adl_lite.Chain.Verify.{
  valid, invalid, has_archive, anchored, verify_from, keeps_prefix, start_index, prefix_match,
  event_before, initial_progress, finish, verify_prefix, verify_integrity,
}
use adl_lite.Chain.Loop.{record_event}
use adl_lite.Chain.Restart.{
  start, IsFresh, verify_prefix-Restarts, finish_verdict, verify_integrity_nonempty,
}

module _ ⦃p : Platform⦄ (c : EventChain) (e f : Event) (fs : List Event) where
  -- The chain after the failed verification.
  abbrev rejected : EventChain
  rejected = record c { verified_seen = e.event_id ∷ []; verified_event_ids = e.event_id ∷ [] }

  late_rejection :
      (a : Bool) (cid : String) (es : List Event)
      → anchored a cid 0 none [] e ≡ true
      → is_blank e.actor ≡ true
      → verify_from a cid 0 none start (e ∷ es)
        ≡ (invalid, record { seen = e.event_id ∷ []; ids = e.event_id ∷ []; last_dt = none })
  unfolding verify_from
  late_rejection a cid es anchor blank = rw (anchor, blank, verify_from) refl

  kept_at_first :
      c.events ≡ e ∷ f ∷ fs → IsFresh c → keeps_prefix c.verified_event_ids c.events ≡ true
  unfolding keeps_prefix prefix_match
  kept_at_first q fresh = rw (fresh.ids, q) (ground arith)

  finish-rejected :
      finish c true
        (invalid, record { seen = e.event_id ∷ []; ids = e.event_id ∷ []; last_dt = none })
      ≡ (invalid, rejected)
  unfolding finish
  finish-rejected = refl

  first_verification :
      c.events ≡ e ∷ f ∷ fs
      → IsFresh c
      → anchored (has_archive (e ∷ f ∷ fs)) c.concept_id 0 none [] e ≡ true
      → is_blank e.actor ≡ true
      → verify_integrity c ≡ (invalid, rejected)
  first_verification q fresh anchor blank =
      verify_integrity_nonempty c e (f ∷ fs) q
      ∙ verify_prefix-Restarts c (inr fresh)
      ∙ ap₂ (finish c) (kept_at_first q fresh)
          (rw q (late_rejection (has_archive (e ∷ f ∷ fs)) c.concept_id (f ∷ fs) anchor blank))
      ∙ finish-rejected

  second_start : c.events ≡ e ∷ f ∷ fs → keeps_prefix (e.event_id ∷ []) c.events ≡ true
  unfolding keeps_prefix prefix_match
  second_start q = rw q (ground (arith, eq_refl e.event_id))

  second_index : c.events ≡ e ∷ f ∷ fs → start_index (e.event_id ∷ []) c.events ≡ 1
  unfolding start_index
  second_index q = rw (second_start q, start_index) refl

  second_event : c.events ≡ e ∷ f ∷ fs → event_before 1 c.events ≡ some e
  unfolding event_before
  second_event q = rw q refl

  second_progress :
      c.events ≡ e ∷ f ∷ fs
      → initial_progress rejected ≡ record_event start e (parse_event_dt e.timestamp)
  unfolding initial_progress
  second_progress q = rw (second_start q, second_index q, second_event q, initial_progress) refl

  second_verification :
      c.events ≡ e ∷ f ∷ fs
      → (verify_integrity rejected).0
        ≡ (verify_from
            (has_archive (e ∷ f ∷ fs))
            c.concept_id
            1
            (some e)
            (record_event start e (parse_event_dt e.timestamp))
            (f ∷ fs)).0
  unfolding verify_integrity verify_prefix
  second_verification q =
      rw (q, verify_integrity)
        (rw (finish_verdict, ← q)
          (rw (second_index q, second_progress q, second_event q) (rw q refl)))

  -- A chain whose first event passes the checks up to its id and has a blank actor, and whose other
  -- events pass, is rejected by a first verification and accepted by a second one, with no change
  -- to the events in between.
  pub second_verification_passes :
      c.events ≡ e ∷ f ∷ fs
      → IsFresh c
      → anchored (has_archive (e ∷ f ∷ fs)) c.concept_id 0 none [] e ≡ true
      → is_blank e.actor ≡ true
      → (verify_from
          (has_archive (e ∷ f ∷ fs))
          c.concept_id
          1
          (some e)
          (record_event start e (parse_event_dt e.timestamp))
          (f ∷ fs)).0
        ≡ valid
      → ((verify_integrity c).0 ≡ invalid)
        × ((verify_integrity c).1.events ≡ c.events)
        × ((verify_integrity (verify_integrity c).1).0 ≡ valid)
  second_verification_passes q fresh anchor blank rest =
      let first = first_verification q fresh anchor blank in
      rw first (refl, refl, second_verification q ∙ rest)
