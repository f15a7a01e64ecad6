-- ===== src/Merge/Union.antt =====
-- The merge of two chains as a set of events (adl_lite/crdt.py).
use adl_lite.Prelude.{
  String, ◌≡◌, refl, sym, ap, ◌∙◌, false, some, ◌||◌, List, [], ◌∷◌, str_eq, arith, inl, inr,
}
use adl_lite.Prelude.Result.{ok, >>=-eq-ok, ok-injective, Result-cases}
use adl_lite.Event.{DateTime, aware, naive, dt_lt, Platform, Event}
use adl_lite.Chain.{EventChain, empty_chain, append_all}
use adl_lite.Merge.{
  values, put_events, merge_events, sort_key, with_keys, is_aware, comparable, insert_sorted,
  sort_onto, events_of, sort_events, rebuild, merge_two_chains,
}
use adl_lite.Merge.Ids.{
  has_id, put_events-HasOwnKeys, has_id-put_events, has_id-merge_events, has_id-sort_events,
  has_id-append_all, Bool-split,
}

module _ ⦃p : Platform⦄ where
  pub has_id-rebuild :
      (id cid : String) (es : List Event) (c : EventChain)
      → rebuild cid es ≡ ok c
      → has_id id c.events ≡ has_id id es
  unfolding rebuild empty_chain
  has_id-rebuild id cid es c q = elim (Result-cases (append_all es (empty_chain cid)).0) [
    | inl (x, r) ↦ cc (rw (r, rebuild) at q)
    | inr (_, r) ↦
        ap (λ (x : EventChain). has_id id x.events) (sym (ok-injective (rw (r, rebuild) at q)))
        ∙ has_id-append_all id es (empty_chain cid) r
  ]

  -- A merge of two chains that returns has the events of both and no others, by their ids.
  pub merge_has_union :
      (a b c : EventChain) (id : String)
      → merge_two_chains a b ≡ ok c
      → has_id id c.events ≡ (has_id id a.events || has_id id b.events)
  unfolding merge_two_chains
  merge_has_union a b c id q =
      let (_, chained) = Bool-split (str_eq a.concept_id b.concept_id) _ _ q in
      let (d, merged, r) = >>=-eq-ok (merge_events b.events (put_events a.events [])) _ chained in
      let (es, sorted, built) = >>=-eq-ok (sort_events (values d)) _ r in
      let first = has_id-put_events id a.events [] tt in
      let both =
        has_id-merge_events id b.events (put_events a.events []) d
          (put_events-HasOwnKeys a.events [] tt) merged in
      has_id-rebuild id a.concept_id es c built
      ∙ has_id-sort_events id (values d) es sorted
      ∙ (unfold values in ground (arith, both, first))

dt_lt_self : (k : DateTime) → dt_lt k k ≡ some false
unfolding dt_lt
dt_lt_self (aware n) = ground arith
dt_lt_self (naive n) = ground arith

module _ ⦃p : Platform⦄ where
  sort_tie :
      (k : DateTime) (e f : Event)
      → sort_key e ≡ ok k
      → sort_key f ≡ ok k
      → sort_events (e ∷ f ∷ []) ≡ ok (e ∷ f ∷ [])
  unfolding sort_events with_keys comparable is_aware sort_onto insert_sorted events_of
  sort_tie (aware n) e f he hf = rw (he, hf) (rw (dt_lt_self (aware n), events_of) refl)
  sort_tie (naive n) e f he hf = rw (he, hf) (rw (dt_lt_self (naive n), events_of) refl)

  -- Two events with one timestamp stay in the order in which the chains bring them, so that the
  -- order of the two in a merge depends on which chain comes first.
  pub ties_keep_their_order :
      (k : DateTime) (e f : Event)
      → sort_key e ≡ ok k
      → sort_key f ≡ ok k
      → (sort_events (e ∷ f ∷ []) ≡ ok (e ∷ f ∷ [])) × (sort_events (f ∷ e ∷ []) ≡ ok (f ∷ e ∷ []))
  ties_keep_their_order k e f he hf = (sort_tie k e f he hf, sort_tie k f e hf he)
