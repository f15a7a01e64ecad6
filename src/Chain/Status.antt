-- ===== src/Chain/Status.antt =====
-- The incremental status cache of `EventChain` (adl_lite/models.py) against recomputation.
use adl_lite.Prelude.{
  ℕ, ◌≤◌, String, ◌≡◌, refl, ap, sym, ◌∙◌, Option, none, some, List, [], ◌∷◌, ◌++◌, str_eq, ◌==◌,
  last?, Bool-cases, Option-cases, inl, inr, ◌⊎◌, false, arith, if◌then◌else◌,
}
use adl_lite.Prelude.Result.{Result, ok, err, value_error}
use adl_lite.Event.{
  EventType, DiscoveryStatus, Platform, Event, provisional, validated, deprecated, forked, archived,
  order, of_order, type_to_status, rehash,
}
use adl_lite.Chain.{
  EventChain, empty_chain, raise_order, update_status, update_confidence, update_crdt_caches,
  link_to, append, append_all, max_order, compute_status_from_events, status, carries_confidence,
}

pub of_order-order : (s : DiscoveryStatus) → of_order (order s) ≡ s
unfolding of_order order
of_order-order provisional = refl
of_order-order forked = refl
of_order-order validated = refl
of_order-order deprecated = refl
of_order-order archived = refl

pub order_bounds : (s : DiscoveryStatus) → (1 ≤ order s) × (order s ≤ 5)
unfolding order
order_bounds provisional = omega arith
order_bounds forked = omega arith
order_bounds validated = omega arith
order_bounds deprecated = omega arith
order_bounds archived = omega arith

-- The status that an order of 0 to 5 stands for.
abbrev pub status_at : ℕ → DiscoveryStatus
status_at n = if n == 0 then provisional else of_order n

-- The caches are those of the events.
pub record IsCoherent (c : EventChain) : Type 0 where
  pub order_eq : c.cached_status_order ≡ max_order 0 c.events
  pub status_eq : c.cached_status ≡ status_at c.cached_status_order

pub raise_order-le : (n : ℕ) (et : EventType) → n ≤ raise_order n et
unfolding raise_order
raise_order-le n et = ground arith

pub max_order-le : (n : ℕ) (es : List Event) → n ≤ max_order n es
unfolding max_order
max_order-le n [] = omega arith
max_order-le n (e ∷ es) =
    omega (arith, raise_order-le n e.event_type, max_order-le (raise_order n e.event_type) es)

pub max_order-append :
    (n : ℕ) (es : List Event) (e : Event)
    → max_order n (es ++ e ∷ []) ≡ raise_order (max_order n es) e.event_type
unfolding max_order
max_order-append n [] e = refl
max_order-append n (d ∷ es) e = max_order-append (raise_order n d.event_type) es e

module _ (et : EventType) (c : EventChain) where
  update_status_order :
      (update_status et c).cached_status_order ≡ raise_order c.cached_status_order et
  unfolding update_status raise_order
  update_status_order = ground arith

  update_status_status :
      c.cached_status ≡ status_at c.cached_status_order
      → (update_status et c).cached_status ≡ status_at (update_status et c).cached_status_order
  unfolding update_status
  update_status_status h = elim (Option-cases (type_to_status et)) [
    | inl none_eq ↦ rw (none_eq, update_status) h
    | inr (s, e) ↦ rw (e, update_status) (ground (arith, h, order_bounds s, of_order-order s))
  ]

  pub update_status_events : (update_status et c).events ≡ c.events
  unfolding update_status
  update_status_events = ground arith

module _ ⦃p : Platform⦄ (e : Event) (c : EventChain) where
  pub update_confidence_keeps :
      ((update_confidence e c).1.events ≡ c.events)
      × ((update_confidence e c).1.cached_status ≡ c.cached_status)
      × ((update_confidence e c).1.cached_status_order ≡ c.cached_status_order)
  unfolding update_confidence
  update_confidence_keeps = ground arith

module _ ⦃p : Platform⦄ where
  update_crdt_caches-IsCoherent :
      (e : Event) (c : EventChain) (es : List Event)
      → c.events ≡ es ++ e ∷ []
      → c.cached_status_order ≡ max_order 0 es
      → c.cached_status ≡ status_at c.cached_status_order
      → IsCoherent (update_crdt_caches e c).1
  unfolding update_crdt_caches
  update_crdt_caches-IsCoherent e c es events_eq order_eq status_eq =
      let d = update_status e.event_type c in
      let (keeps_events, keeps_status, keeps_order) = update_confidence_keeps e d in
      record {
        order_eq =
            keeps_order
            ∙ update_status_order e.event_type c
            ∙ ap (λ n. raise_order n e.event_type) order_eq
            ∙ sym (max_order-append 0 es e)
            ∙ ap (max_order 0) (sym events_eq)
            ∙ ap (max_order 0) (sym (update_status_events e.event_type c))
            ∙ ap (max_order 0) (sym keeps_events);
        status_eq =
            keeps_status
            ∙ update_status_status e.event_type c status_eq
            ∙ ap status_at (sym keeps_order);
      }

  -- Appending keeps the caches coherent, also where `float` raises.
  pub append-IsCoherent : (e : Event) (c : EventChain) → IsCoherent c → IsCoherent (append e c).1
  unfolding append
  append-IsCoherent e c h = elim (Bool-cases (str_eq e.concept_id c.concept_id)) [
    | inr ne ↦ rw ne h
    | inl same ↦ rw same (
        update_crdt_caches-IsCoherent (link_to (last? c.events) e) _ c.events refl h.order_eq
          h.status_eq)
  ]

  pub empty_chain-IsCoherent : (cid : String) → IsCoherent (empty_chain cid)
  unfolding empty_chain max_order
  empty_chain-IsCoherent cid = record { order_eq = refl; status_eq = refl }

  pub append_all-IsCoherent :
      (es : List Event) (c : EventChain) → IsCoherent c → IsCoherent (append_all es c).1
  unfolding append_all
  append_all-IsCoherent [] c h = h
  append_all-IsCoherent (e ∷ es) c h =
      after (append e c).0 (append-IsCoherent e c h)
        (append_all-IsCoherent es (append e c).1 (append-IsCoherent e c h))
    where
      after :
          (r : Result (Unit {0}))
          → IsCoherent (append e c).1
          → IsCoherent (append_all es (append e c).1).1
          → IsCoherent
              (let rest = append_all es (append e c).1 in
                elim r as (λ _. Result (Unit {0}) × EventChain) [
                  | ok _ ↦ rest
                  | err x ↦ (err x, (append e c).1)
                ]).1
      after (ok _) k l = l
      after (err x) k l = k

-- The property reads the cache or recomputes; on coherent caches both give the recomputed status.
pub status_of_coherent :
    (c : EventChain) → IsCoherent c → status c ≡ compute_status_from_events c.events
unfolding status compute_status_from_events
status_of_coherent c h = ground (arith, h.order_eq, h.status_eq)

module _ ⦃p : Platform⦄ where
  -- The list of events after an append.
  pub events-append :
      (e : Event) (c : EventChain)
      → (append e c).1.events ≡ (
          if str_eq e.concept_id c.concept_id
          then c.events ++ link_to (last? c.events) e ∷ []
          else c.events)
  unfolding append update_crdt_caches
  events-append e c = elim (Bool-cases (str_eq e.concept_id c.concept_id)) [
    | inr ne ↦ rw ne refl
    | inl same ↦ rw same (
        let linked = link_to (last? c.events) e in
        let c' = record c { events = c.events ++ linked ∷ [] } in
        (update_confidence_keeps linked (update_status linked.event_type c')).0
        ∙ update_status_events linked.event_type c')
  ]

  pub event_type-link_to : (o : Option Event) (e : Event) → (link_to o e).event_type ≡ e.event_type
  unfolding link_to rehash
  event_type-link_to none e = refl
  event_type-link_to (some prev) e = refl

  -- What an append of an event without a confidence leaves.
  pub append_total :
      (e : Event) (c : EventChain)
      → carries_confidence e.event_type ≡ false
      → (((append e c).0 ≡ err value_error) × ((append e c).1 ≡ c))
        ⊎ (((append e c).0 ≡ ok tt)
            × ((append e c).1.events ≡ c.events ++ link_to (last? c.events) e ∷ []))
  unfolding append update_crdt_caches update_confidence
  append_total e c h = elim (Bool-cases (str_eq e.concept_id c.concept_id)) [
    | inr other ↦ inl (rw other refl, rw other refl)
    | inl same ↦ inr (
      rw (same, event_type-link_to (last? c.events) e, h) refl,
      events-append e c ∙ (rw same refl),
    )
  ]
