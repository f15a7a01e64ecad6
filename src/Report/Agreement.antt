-- ===== src/Report/Agreement.antt =====
-- `well_formedness_report` against `verify_integrity` (adl_lite/models.py).
use Prim.Native.Nat.{suc}
use adl_lite.Prelude.{
  ℕ, String, ◌≡◌, refl, sym, ◌∙◌, Bool, true, false, Option, none, some, List, [], ◌∷◌, arith,
}
use adl_lite.Prelude.Dict.{contains}
use adl_lite.Prelude.Text.{is_empty}
use adl_lite.Prelude.Result.{ok}
use adl_lite.Event.{Platform, Event}
use adl_lite.Chain.{EventChain}
use adl_lite.Chain.Axioms.{content_axioms, axioms_before_verdict, has_previous}
use adl_lite.Chain.Verify.{valid, Progress, has_archive, anchored, verify_from, verify_integrity}
use adl_lite.Chain.Loop.{Passes, valid-Passes, valid_rest}
use adl_lite.Chain.Restart.{start, Restarts, verify_integrity-Restarts, pair_eq}
use adl_lite.Report.{
  ids_where, repeated_ids, lacks_actor, lacks_action, has_short_hash, unlinked_ids,
  lacks_evidence_fields, lacks_proof, has_bad_verdict, WellFormednessReport, earlier_ids,
  well_formedness_report,
}

-- The report that names no event.
abbrev pub clean_report : WellFormednessReport
clean_report = record {
  distinct_event_ids = [];
  non_empty_actor = [];
  timestamp_monotonicity = [];
  action_preconditions = [];
  hash_algorithm = [];
  canonical_fields = [];
  evidence_schema = [];
  proof_presence = [];
  verdict_consistency = [];
}

module _ ⦃p : Platform⦄ where
  module _ (a : Bool) (cid : String) (i : ℕ) (prev : Option Event) (g : Progress) (e : Event)
      (h : Passes a cid i prev g e) where
    passes_actor : lacks_actor e ≡ false
    unfolding lacks_actor
    passes_actor = h.1

    passes_action : lacks_action e ≡ false
    unfolding lacks_action content_axioms axioms_before_verdict
    passes_action = ground (arith, h.3)

    passes_hash : has_short_hash e ≡ false
    unfolding has_short_hash content_axioms axioms_before_verdict
    passes_hash = ground (arith, h.3)

    passes_evidence : lacks_evidence_fields e ≡ false
    unfolding lacks_evidence_fields content_axioms axioms_before_verdict
    passes_evidence = ground (arith, h.3)

    passes_proof : lacks_proof e ≡ false
    unfolding lacks_proof content_axioms axioms_before_verdict
    passes_proof = ground (arith, h.3)

    passes_verdict : has_bad_verdict e ≡ false
    unfolding has_bad_verdict content_axioms axioms_before_verdict
    passes_verdict = ground (arith, h.3)

    passes_id : contains e.event_id g.seen ≡ false
    unfolding anchored
    passes_id = ground (arith, h.0)

    passes_link : (has_previous i e.previous_event_id ≡ true) × (is_empty e.hash ≡ false)
    unfolding content_axioms axioms_before_verdict
    passes_link = ground (arith, h.3)

  -- A test that no event which passes the loop fails names no event of a valid chain.
  ids_where-valid :
      (test : Event → Bool)
      → ((a : Bool) (cid : String) (i : ℕ) (prev : Option Event) (g : Progress) (e : Event)
          → Passes a cid i prev g e
          → test e ≡ false)
      → (a : Bool) (cid : String) (i : ℕ) (prev : Option Event) (g g' : Progress) (es : List Event)
      → verify_from a cid i prev g es ≡ (valid, g')
      → ids_where test es ≡ []
  unfolding ids_where
  ids_where-valid test passes a cid i prev g g' [] h = refl
  ids_where-valid test passes a cid i prev g g' (e ∷ es) h =
      rw (passes a cid i prev g e (valid-Passes a cid i prev g e es h)) (
        ids_where-valid test passes a cid (suc i) (some e) _ g' es
          (valid_rest a cid i prev g e es h))

  repeated_ids-valid :
      (a : Bool) (cid : String) (i : ℕ) (prev : Option Event) (g g' : Progress) (es : List Event)
      → verify_from a cid i prev g es ≡ (valid, g')
      → repeated_ids g.seen es ≡ []
  unfolding repeated_ids
  repeated_ids-valid a cid i prev g g' [] h = refl
  repeated_ids-valid a cid i prev g g' (e ∷ es) h =
      rw (passes_id a cid i prev g e (valid-Passes a cid i prev g e es h))
        (repeated_ids-valid a cid (suc i) (some e) _ g' es (valid_rest a cid i prev g e es h))

  unlinked_ids-valid :
      (a : Bool) (cid : String) (i : ℕ) (prev : Option Event) (g g' : Progress) (es : List Event)
      → verify_from a cid i prev g es ≡ (valid, g')
      → unlinked_ids i es ≡ []
  unfolding unlinked_ids
  unlinked_ids-valid a cid i prev g g' [] h = refl
  unlinked_ids-valid a cid i prev g g' (e ∷ es) h =
      let (linked, hashed) = passes_link a cid i prev g e (valid-Passes a cid i prev g e es h) in
      let rest =
        unlinked_ids-valid a cid (suc i) (some e) _ g' es (valid_rest a cid i prev g e es h) in
      ground (arith, linked, hashed, rest)

  earlier_ids-valid :
      (a : Bool) (cid : String) (i : ℕ) (prev : Option Event) (g g' : Progress) (es : List Event)
      → verify_from a cid i prev g es ≡ (valid, g')
      → earlier_ids g.last_dt es ≡ ok []
  unfolding earlier_ids
  earlier_ids-valid a cid i prev g g' [] h = refl
  earlier_ids-valid a cid i prev g g' (e ∷ es) h =
      let ordered = (valid-Passes a cid i prev g e es h).2 in
      rw (ordered, earlier_ids)
        (rw (earlier_ids-valid a cid (suc i) (some e) _ g' es (valid_rest a cid i prev g e es h))
          refl)

  report-valid :
      (c : EventChain) (a : Bool) (g' : Progress)
      → verify_from a c.concept_id 0 none start c.events ≡ (valid, g')
      → well_formedness_report c ≡ ok clean_report
  unfolding well_formedness_report
  report-valid c a g' h =
      rw
        (
          earlier_ids-valid a c.concept_id 0 none start g' c.events h,
          repeated_ids-valid a c.concept_id 0 none start g' c.events h,
          unlinked_ids-valid a c.concept_id 0 none start g' c.events h,
          ids_where-valid lacks_actor passes_actor a c.concept_id 0 none start g' c.events h,
          ids_where-valid lacks_action passes_action a c.concept_id 0 none start g' c.events h,
          ids_where-valid has_short_hash passes_hash a c.concept_id 0 none start g' c.events h,
          ids_where-valid lacks_evidence_fields passes_evidence a c.concept_id 0 none start g'
              c.events h,
          ids_where-valid lacks_proof passes_proof a c.concept_id 0 none start g' c.events h,
          ids_where-valid has_bad_verdict passes_verdict a c.concept_id 0 none start g' c.events h,
        )
        refl

  -- On a chain that passes a verification from its first event on, the report returns, and names
  -- no event for any axiom.
  pub report_of_valid_chain :
      (c : EventChain)
      → Restarts c
      → (verify_integrity c).0 ≡ valid
      → well_formedness_report c ≡ ok clean_report
  report_of_valid_chain c restarts ok_eq =
      let run = verify_from (has_archive c.events) c.concept_id 0 none start c.events in
      report-valid c (has_archive c.events) run.1
        (pair_eq run (sym (verify_integrity-Restarts c restarts) ∙ ok_eq))
