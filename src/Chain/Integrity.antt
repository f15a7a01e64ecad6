-- ===== src/Chain/Integrity.antt =====
-- `verify_integrity` (adl_lite/models.py) against a description of a well-formed chain.
use Prim.Native.Nat.{suc}
use adl_lite.Prelude.{
  ℕ, String, ◌≡◌, refl, ap, true, false, Option, none, some, List, [], ◌∷◌, All, str_eq, eq_iff,
  arith, Bool-cases, Option-cases, inl, inr,
}
use adl_lite.Prelude.Dict.{contains}
use adl_lite.Prelude.Text.{is_blank}
use adl_lite.Event.{Platform, Event, dt_lt, compute_hash, parse_event_dt}
use adl_lite.Chain.Verify.{
  valid, Progress, points_to, link_axioms, goes_back, anchored, verify_from,
}
use adl_lite.Chain.Loop.{Passes, valid-Passes, valid_rest}

-- Each event points to the event before it, and carries that event's hash.
abbrev pub IsChained : Event → List Event → Type 0
IsChained d [] = Unit
IsChained d (e ∷ es) =
    (e.previous_event_id ≡ some d.event_id) × (e.prev_hash ≡ d.hash) × IsChained e es

-- No two events have one id.
abbrev pub HasDistinctIds : List Event → Type 0
HasDistinctIds [] = Unit
HasDistinctIds (e ∷ es) = All (λ d. str_eq d.event_id e.event_id ≡ false) es × HasDistinctIds es

contains_tail :
    (id : String) (seen : List String) (es : List Event)
    → All (λ d. contains d.event_id (id ∷ seen) ≡ false) es
    → All (λ d. contains d.event_id seen ≡ false) es
unfolding contains
contains_tail id seen [] h = tt
contains_tail id seen (e ∷ es) h = (ground arith, contains_tail id seen es h.1)

contains_head :
    (id : String) (seen : List String) (es : List Event)
    → All (λ d. contains d.event_id (id ∷ seen) ≡ false) es
    → All (λ d. str_eq d.event_id id ≡ false) es
unfolding contains
contains_head id seen [] h = tt
contains_head id seen (e ∷ es) h = (ground arith, contains_head id seen es h.1)

module _ ⦃p : Platform⦄ where
  -- No timestamp lies before the one of the event in front of it.
  abbrev pub IsOrdered : Event → List Event → Type 0
  IsOrdered d [] = Unit
  IsOrdered d (e ∷ es) =
      (dt_lt (parse_event_dt e.timestamp) (parse_event_dt d.timestamp) ≡ some false)
      × IsOrdered e es

  -- What holds of an event by itself: its concept, its hash and its actor.
  abbrev pub IsSound : String → Event → Type 0
  IsSound cid e = (e.concept_id ≡ cid) × (e.hash ≡ compute_hash e) × (is_blank e.actor ≡ false)

  -- Axioms 1 to 7 of a chain with no archive.
  abbrev pub IsWellFormed : String → List Event → Type 0
  IsWellFormed cid [] = Unit
  IsWellFormed cid (e ∷ es) =
      (e.previous_event_id ≡ none)
      × IsChained e es
      × All (IsSound cid) (e ∷ es)
      × HasDistinctIds (e ∷ es)
      × IsOrdered e es

  points_to-eq : (o : Option String) (id : String) → points_to o id ≡ true → o ≡ some id
  unfolding points_to
  points_to-eq none id h = cc
  points_to-eq (some s) id h = ap some ((eq_iff s id).0 h)

  link_axioms_chained :
      (i : ℕ) (d e : Event)
      → link_axioms false i (some d) e ≡ true
      → (e.previous_event_id ≡ some d.event_id) × (e.prev_hash ≡ d.hash)
  unfolding link_axioms
  link_axioms_chained i d e h = elim (Bool-cases (points_to e.previous_event_id d.event_id)) [
    | inl q ↦ (
      points_to-eq e.previous_event_id d.event_id q,
      (eq_iff e.prev_hash d.hash).0 (rw (q, link_axioms) at h),
    )
    | inr q ↦ absurd (ground arith)
  ]

  module _ (cid : String) (i : ℕ) (prev : Option Event) (g : Progress) (e : Event)
      (h : Passes false cid i prev g e) where
    Passes-IsSound : IsSound cid e
    unfolding anchored
    Passes-IsSound = ground (arith, eq_iff e.concept_id cid, eq_iff e.hash (compute_hash e))

    Passes-link_axioms : link_axioms false i prev e ≡ true
    unfolding anchored
    Passes-link_axioms = ground arith

    Passes_fresh : contains e.event_id g.seen ≡ false
    unfolding anchored
    Passes_fresh = ground arith

    Passes_ordered : goes_back g.last_dt (parse_event_dt e.timestamp) ≡ some false
    Passes_ordered = h.2

  link_axioms_genesis : (e : Event) → link_axioms false 0 none e ≡ true → e.previous_event_id ≡ none
  unfolding link_axioms
  link_axioms_genesis e h = elim (Option-cases e.previous_event_id) [
    | inl q ↦ q
    | inr (s, q) ↦ cc (rw (q, link_axioms) at h)
  ]

  -- Later events have ids that are not among those seen before.
  valid_fresh :
      (cid : String) (i : ℕ) (prev : Option Event) (g g' : Progress) (es : List Event)
      → verify_from false cid i prev g es ≡ (valid, g')
      → All (λ d. contains d.event_id g.seen ≡ false) es
  valid_fresh cid i prev g g' [] h = tt
  valid_fresh cid i prev g g' (e ∷ es) h = (
    Passes_fresh cid i prev g e (valid-Passes false cid i prev g e es h),
    contains_tail e.event_id g.seen es
        (valid_fresh cid (suc i) (some e) _ g' es (valid_rest false cid i prev g e es h)),
  )

  valid_distinct :
      (cid : String) (i : ℕ) (prev : Option Event) (g g' : Progress) (es : List Event)
      → verify_from false cid i prev g es ≡ (valid, g')
      → HasDistinctIds es
  valid_distinct cid i prev g g' [] h = tt
  valid_distinct cid i prev g g' (e ∷ es) h =
      let rest = valid_rest false cid i prev g e es h in
      (
        contains_head e.event_id g.seen es (valid_fresh cid (suc i) (some e) _ g' es rest),
        valid_distinct cid (suc i) (some e) _ g' es rest,
      )

  valid-IsSound :
      (cid : String) (i : ℕ) (prev : Option Event) (g g' : Progress) (es : List Event)
      → verify_from false cid i prev g es ≡ (valid, g')
      → All (IsSound cid) es
  valid-IsSound cid i prev g g' [] h = tt
  valid-IsSound cid i prev g g' (e ∷ es) h = (
    Passes-IsSound cid i prev g e (valid-Passes false cid i prev g e es h),
    valid-IsSound cid (suc i) (some e) _ g' es (valid_rest false cid i prev g e es h),
  )

  valid-IsChained :
      (cid : String) (i : ℕ) (d : Event) (g g' : Progress) (es : List Event)
      → verify_from false cid i (some d) g es ≡ (valid, g')
      → IsChained d es
  valid-IsChained cid i d g g' [] h = tt
  valid-IsChained cid i d g g' (e ∷ es) h =
      let links =
        link_axioms_chained i d e
          (Passes-link_axioms cid i (some d) g e (valid-Passes false cid i (some d) g e es h)) in
      (
        links.0,
        links.1,
        valid-IsChained cid (suc i) e _ g' es (valid_rest false cid i (some d) g e es h),
      )

  valid-IsOrdered :
      (cid : String) (i : ℕ) (d : Event) (g g' : Progress) (es : List Event)
      → g.last_dt ≡ some (parse_event_dt d.timestamp)
      → verify_from false cid i (some d) g es ≡ (valid, g')
      → IsOrdered d es
  valid-IsOrdered cid i d g g' [] last h = tt
  valid-IsOrdered cid i d g g' (e ∷ es) last h = (
    (unfold goes_back in
        rw last at
          (Passes_ordered cid i (some d) g e (valid-Passes false cid i (some d) g e es h))),
    valid-IsOrdered cid (suc i) e _ g' es refl (valid_rest false cid i (some d) g e es h),
  )

  -- A loop over a whole chain with no archive that ends well proves the chain well-formed.
  pub valid-IsWellFormed :
      (cid : String) (g g' : Progress) (es : List Event)
      → verify_from false cid 0 none g es ≡ (valid, g')
      → IsWellFormed cid es
  valid-IsWellFormed cid g g' [] h = tt
  valid-IsWellFormed cid g g' (e ∷ es) h =
      let rest = valid_rest false cid 0 none g e es h in
      (
        link_axioms_genesis e
            (Passes-link_axioms cid 0 none g e (valid-Passes false cid 0 none g e es h)),
        valid-IsChained cid 1 e _ g' es rest,
        valid-IsSound cid 0 none g g' (e ∷ es) h,
        valid_distinct cid 0 none g g' (e ∷ es) h,
        valid-IsOrdered cid 1 e _ g' es refl rest,
      )
