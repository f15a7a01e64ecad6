-- ===== src/Crdt/Update.antt =====
-- `CRDTState.apply_event` and `from_chain` (adl_lite/crdt.py): growth, the one raise by an
-- assertion, and the agreement with the status of `EventChain`.
use adl_lite.Prelude.{
  ℕ, ◌≤◌, ◌≡◌, refl, ap, sym, ◌∙◌, true, false, List, [], ◌∷◌, leb, le→leb, ◌==◌, arith, ◌⊎◌, inl,
  inr, Option-cases, if◌then◌else◌,
}
use adl_lite.Prelude.Int.{ℤ}
use adl_lite.Prelude.Result.{ok, err, assertion_error, >>=-eq-ok, if-eq-ok, ok-injective}
use adl_lite.Payload.{Fields}
use adl_lite.Event.{
  EventType, Platform, Event, deprecate, confidence_field, order, of_order, type_to_status,
}
use adl_lite.Chain.{raise_order, max_order, compute_status_from_events}
use adl_lite.Chain.Status.{order_bounds, status_at}
use adl_lite.Chain.Lattice.{max_order-le-five}
use adl_lite.Crdt.{
  StatusOrder, provisional, forked, validated, deprecated, archived, value, CrdtState, initial,
  next_status, updated, has_grown, apply_event, apply_events, from_chain,
}
use adl_lite.Crdt.Lattice.{IsBelow}

-- The status part of an update is the step of the chain's status, unless an archived capability
-- is deprecated.
next_status-raise_order :
    (s : StatusOrder) (et : EventType)
    → leb (value s) (value (next_status s et)) ≡ true
    → value (next_status s et) ≡ raise_order (value s) et
unfolding value next_status raise_order type_to_status order
next_status-raise_order provisional et h = ground arith
next_status-raise_order forked et h = ground arith
next_status-raise_order validated et h = ground arith
next_status-raise_order deprecated et h = ground arith
next_status-raise_order archived et h = ground arith

next_status_grows :
    (s : StatusOrder) (et : EventType)
    → ((s ≡ archived) × (et ≡ deprecate)) ⊎ (value s ≤ value (next_status s et))
unfolding value next_status
next_status_grows provisional et = inr (ground arith)
next_status_grows forked et = inr (ground arith)
next_status_grows validated et = inr (ground arith)
next_status_grows deprecated et = inr (ground arith)
next_status_grows archived deprecate = inl (refl, refl)
next_status_grows archived _ = inr (omega arith)

-- The order that the lattice gives to a chain without lifecycle events.
abbrev lift : ℕ → ℕ
lift n = if n == 0 then 1 else n

raise_order-lift : (n : ℕ) (et : EventType) → raise_order (lift n) et ≡ lift (raise_order n et)
unfolding raise_order
raise_order-lift n et = elim (Option-cases (type_to_status et)) [
  | inl q ↦ rw (q, raise_order) refl
  | inr (s, q) ↦ rw (q, raise_order) (ground (arith, order_bounds s))
]

max_order-lift : (n : ℕ) (es : List Event) → max_order (lift n) es ≡ lift (max_order n es)
unfolding max_order
max_order-lift n [] = refl
max_order-lift n (e ∷ es) =
    ap (λ m. max_order m es) (raise_order-lift n e.event_type)
    ∙ max_order-lift (raise_order n e.event_type) es

order-status_at : (n : ℕ) → n ≤ 5 → order (status_at n) ≡ lift n
unfolding of_order order
order-status_at n h = ground arith

order-compute : (es : List Event) → order (compute_status_from_events es) ≡ max_order 1 es
unfolding compute_status_from_events
order-compute es =
    order-status_at (max_order 0 es) (max_order-le-five es) ∙ sym (max_order-lift 0 es)

module _ (s : CrdtState) (et : EventType) (c : ℤ) where
  -- The assertions hold exactly where the status does not fall.
  has_grown-updated :
      has_grown s (updated s et c) ≡ leb (value s.status) (value (next_status s.status et))
  unfolding has_grown updated
  has_grown-updated = ground arith

  updated-IsBelow : value s.status ≤ value (next_status s.status et) → IsBelow s (updated s et c)
  unfolding updated
  updated-IsBelow h = record {
    status = h;
    confidence = ground arith;
    validator_count = omega arith;
    evidence_count = omega arith;
  }

  status-updated : (updated s et c).status ≡ next_status s.status et
  unfolding updated
  status-updated = refl

archived_falls : leb (value archived) (value (next_status archived deprecate)) ≡ false
unfolding value next_status
archived_falls = refl

module _ ⦃p : Platform⦄ where
  -- With a confidence that is a number, an update returns a state that lies above the old one; the
  -- only exception is the deprecation of an archived capability, which raises `AssertionError`.
  pub apply_event_outcome :
      (s : CrdtState) (et : EventType) (fs : Fields) (c : ℤ)
      → confidence_field fs ≡ ok c
      → ((s.status ≡ archived) × (et ≡ deprecate) × (apply_event s et fs ≡ err assertion_error))
        ⊎ ((t : CrdtState) × (apply_event s et fs ≡ ok t) × IsBelow s t)
  unfolding apply_event
  apply_event_outcome s et fs c q = elim (next_status_grows s.status et) [
    | inl (at_end, falls) ↦ inl (
      at_end,
      falls,
      rw q (rw (has_grown-updated s et c) (rw (at_end, falls, archived_falls) refl)),
    )
    | inr grows ↦ inr (
      updated s et c,
      rw q (rw (has_grown-updated s et c, le→leb _ _ grows) refl),
      updated-IsBelow s et c grows,
    )
  ]

  apply_event_status :
      (s : CrdtState) (et : EventType) (fs : Fields) (t : CrdtState)
      → apply_event s et fs ≡ ok t
      → value t.status ≡ raise_order (value s.status) et
  unfolding apply_event
  apply_event_status s et fs t h =
      let (c, _, r) = >>=-eq-ok (confidence_field fs) _ h in
      let (grown, same) = if-eq-ok (has_grown s (updated s et c)) (updated s et c) _ r in
      ap (λ (u : CrdtState). value u.status) (sym same)
      ∙ ap value (status-updated s et c)
      ∙ next_status-raise_order s.status et (sym (has_grown-updated s et c) ∙ grown)

  apply_events_status :
      (s t : CrdtState) (es : List Event)
      → apply_events s es ≡ ok t
      → value t.status ≡ max_order (value s.status) es
  unfolding apply_events max_order
  apply_events_status s t [] h = ap (λ (u : CrdtState). value u.status) (sym (ok-injective h))
  apply_events_status s t (e ∷ es) h =
      let (u, q, r) = >>=-eq-ok (apply_event s e.event_type e.payload) _ h in
      apply_events_status u t es r
      ∙ ap (λ n. max_order n es) (apply_event_status s e.event_type e.payload u q)

  -- Where `from_chain` returns, its status is the one that `EventChain` recomputes.
  pub from_chain_status :
      (es : List Event) (t : CrdtState)
      → from_chain es ≡ ok t
      → value t.status ≡ order (compute_status_from_events es)
  unfolding from_chain initial value
  from_chain_status es t h = apply_events_status initial t es h ∙ sym (order-compute es)
