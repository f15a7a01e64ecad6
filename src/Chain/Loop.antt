-- ===== src/Chain/Loop.antt =====
-- The verification loop of `EventChain` (adl_lite/models.py) over a list in two parts.
use Prim.Native.Nat.{suc}
use adl_lite.Prelude.{
  ℕ, String, ◌≡◌, refl, ap, sym, ◌∙◌, Bool, true, false, Option, none, some, List, [], ◌∷◌, ◌++◌,
  map, arith, append_assoc, append-nil,
}
use adl_lite.Prelude.Text.{is_blank}
use adl_lite.Event.{DateTime, Platform, Event, parse_event_dt}
use adl_lite.Chain.Axioms.{content_axioms}
use adl_lite.Chain.Verify.{
  Verdict, valid, invalid, raises, Progress, goes_back, anchored, verify_from,
}

-- The position and the event behind which the loop goes on after `es`.
abbrev pub position : ℕ → List Event → ℕ
position i [] = i
position i (e ∷ es) = position (suc i) es

abbrev pub behind : Option Event → List Event → Option Event
behind prev [] = prev
behind prev (e ∷ es) = behind (some e) es

abbrev pub and_then : Verdict × Progress → (Progress → Verdict × Progress) → Verdict × Progress
and_then (valid, g) f = f g
and_then (invalid, g) f = (invalid, g)
and_then (raises, g) f = (raises, g)

-- What the loop has recorded once an event has passed.
abbrev pub record_event : Progress → Event → DateTime → Progress
record_event g e ts = record {
  seen = e.event_id ∷ g.seen;
  ids = g.ids ++ e.event_id ∷ [];
  last_dt = some ts;
}

module _ ⦃p : Platform⦄ where
  -- Every check of the loop on one event.
  abbrev pub Passes : Bool → String → ℕ → Option Event → Progress → Event → Type 0
  Passes a cid i prev g e =
      (anchored a cid i prev g.seen e ≡ true)
      × (is_blank e.actor ≡ false)
      × (goes_back g.last_dt (parse_event_dt e.timestamp) ≡ some false)
      × (content_axioms i e ≡ true)

  pub verify_from-append :
      (a : Bool) (cid : String) (i : ℕ) (prev : Option Event) (g : Progress) (es fs : List Event)
      → verify_from a cid i prev g (es ++ fs)
        ≡ and_then
            (verify_from a cid i prev g es)
            (λ g'. verify_from a cid (position i es) (behind prev es) g' fs)
  unfolding verify_from
  verify_from-append a cid i prev g [] fs = refl
  verify_from-append a cid i prev g (e ∷ es) fs = ground (
    arith,
    verify_from-append a cid (suc i) (some e) (record_event g e (parse_event_dt e.timestamp)) es fs,
  )

  module _ (a : Bool) (cid : String) (i : ℕ) (prev : Option Event) (g : Progress) (e : Event)
      (es : List Event) where
    abbrev after_event : Verdict × Progress
    after_event =
        verify_from a cid (suc i) (some e) (record_event g e (parse_event_dt e.timestamp)) es

    -- A loop that ends well has passed its first event, and ends well from there.
    pub valid-Passes :
        {g' : Progress}
        → verify_from a cid i prev g (e ∷ es) ≡ (valid, g')
        → Passes a cid i prev g e
    unfolding verify_from
    valid-Passes h = ground arith

    pub valid_rest :
        {g' : Progress}
        → verify_from a cid i prev g (e ∷ es) ≡ (valid, g')
        → after_event ≡ (valid, g')
    unfolding verify_from
    valid_rest h = ground arith

    pub verify_from-Passes :
        Passes a cid i prev g e → verify_from a cid i prev g (e ∷ es) ≡ after_event
    unfolding verify_from
    verify_from-Passes h = ground arith

  verify_from-nil :
      (a : Bool) (cid : String) (i : ℕ) (prev : Option Event) (g : Progress)
      → verify_from a cid i prev g [] ≡ (valid, g)
  unfolding verify_from
  verify_from-nil a cid i prev g = refl

  valid_nil :
      (a : Bool) (cid : String) (i : ℕ) (prev : Option Event) (g g' : Progress)
      → verify_from a cid i prev g [] ≡ (valid, g')
      → g' ≡ g
  valid_nil a cid i prev g g' h =
      ap (λ (r : Verdict × Progress). r.1) (sym h ∙ verify_from-nil a cid i prev g)

  -- What a loop that ends well has recorded.
  pub valid_ids :
      (a : Bool) (cid : String) (i : ℕ) (prev : Option Event) (g g' : Progress) (es : List Event)
      → verify_from a cid i prev g es ≡ (valid, g')
      → g'.ids ≡ g.ids ++ map (λ (e : Event). e.event_id) es
  valid_ids a cid i prev g g' [] h =
      ap (λ (k : Progress). k.ids) (valid_nil a cid i prev g g' h) ∙ sym (append-nil g.ids)
  valid_ids a cid i prev g g' (e ∷ es) h =
      valid_ids a cid (suc i) (some e) _ g' es (valid_rest a cid i prev g e es h)
      ∙ append_assoc g.ids (e.event_id ∷ []) (map (λ (d : Event). d.event_id) es)

  -- The timestamp that axiom 7 compares with, behind an event.
  abbrev pub stamp : Option Event → Option DateTime
  stamp none = none
  stamp (some e) = some (parse_event_dt e.timestamp)

  pub valid_last_dt :
      (a : Bool) (cid : String) (i : ℕ) (prev : Option Event) (g g' : Progress) (es : List Event)
      → g.last_dt ≡ stamp prev
      → verify_from a cid i prev g es ≡ (valid, g')
      → g'.last_dt ≡ stamp (behind prev es)
  valid_last_dt a cid i prev g g' [] last h =
      ap (λ (k : Progress). k.last_dt) (valid_nil a cid i prev g g' h) ∙ last
  valid_last_dt a cid i prev g g' (e ∷ es) last h =
      valid_last_dt a cid (suc i) (some e) _ g' es refl (valid_rest a cid i prev g e es h)
