-- ===== src/Chain/Lattice.antt =====
-- The status of an `EventChain` (adl_lite/models.py) in the lattice of the lifecycle.
use adl_lite.Prelude.{
  ℕ, ◌≤◌, String, ◌≡◌, refl, ap, sym, ◌∙◌, subst, none, some, List, [], ◌∷◌, ◌++◌, ltb, str_eq,
  last?, All, Bool-cases, Option-cases, inl, inr, arith, ◌⊎◌, if◌then◌else◌,
}
use native.Mathlib.Nat.{le_refl, le_trans}
use adl_lite.Event.{
  EventType, DiscoveryStatus, Platform, Event, provisional, validated, deprecated, forked, archived,
  order, of_order, type_to_status,
}
use adl_lite.Chain.{
  EventChain, empty_chain, raise_order, link_to, append, append_all, max_order,
  compute_status_from_events, status,
}
use adl_lite.Chain.Status.{
  order_bounds, status_at, IsCoherent, max_order-le, max_order-append, append-IsCoherent,
  empty_chain-IsCoherent, append_all-IsCoherent, status_of_coherent, events-append,
  event_type-link_to,
}

-- An independent reading of the lattice: an upper bound of the lifecycle events' statuses that
-- one of them attains, or provisional where there is none.
abbrev pub type_order : EventType → ℕ
type_order et = elim (type_to_status et) [ none ↦ 0 | some s ↦ order s ]

abbrev pub AtMost : ℕ → Event → Type 0
AtMost n e = type_order e.event_type ≤ n

abbrev pub Attains : DiscoveryStatus → List Event → Type 0
Attains s [] = ⊥
Attains s (e ∷ es) = (type_to_status e.event_type ≡ some s) ⊎ Attains s es

raise_order_bound : (n : ℕ) (et : EventType) → type_order et ≤ raise_order n et
unfolding raise_order
raise_order_bound n et = ground arith

max_order-AtMost : (n : ℕ) (es : List Event) → All (AtMost (max_order n es)) es
unfolding max_order
max_order-AtMost n [] = tt
max_order-AtMost n (e ∷ es) = (
  le_trans (raise_order_bound n e.event_type) (max_order-le (raise_order n e.event_type) es),
  max_order-AtMost (raise_order n e.event_type) es,
)

raise_order_cases :
    (n : ℕ) (et : EventType)
    → (raise_order n et ≡ n)
      ⊎ ((s : DiscoveryStatus) × (type_to_status et ≡ some s) × (raise_order n et ≡ order s))
unfolding raise_order
raise_order_cases n et = elim (Option-cases (type_to_status et)) [
  | inl q ↦ inl (rw (q, raise_order) refl)
  | inr (s, q) ↦ (elim (Bool-cases (ltb n (order s))) [
    | inl less ↦ inr (s, q, rw (q, less, raise_order) refl)
    | inr more ↦ inl (rw (q, more, raise_order) refl)
  ])
]

max_order_attained :
    (n : ℕ) (es : List Event)
    → (max_order n es ≡ n) ⊎ ((s : DiscoveryStatus) × Attains s es × (max_order n es ≡ order s))
unfolding max_order
max_order_attained n [] = inl refl
max_order_attained n (e ∷ es) = elim (max_order_attained (raise_order n e.event_type) es) [
  | inr (s, later, q) ↦ inr (s, inr later, q)
  | inl q ↦ (elim (raise_order_cases n e.event_type) [
    | inl same ↦ inl (q ∙ same)
    | inr (s, here, r) ↦ inr (s, inl here, q ∙ r)
  ])
]

order-status_at : (n : ℕ) → n ≤ 5 → n ≤ order (status_at n)
unfolding of_order order
order-status_at n h = ground arith

pub max_order-le-five : (es : List Event) → max_order 0 es ≤ 5
max_order-le-five es = elim (max_order_attained 0 es) [
  | inl q ↦ rw q (omega arith)
  | inr (s, _, q) ↦ rw q ((order_bounds s).1)
]

status_at-order : (s : DiscoveryStatus) → status_at (order s) ≡ s
unfolding of_order order
status_at-order provisional = refl
status_at-order forked = refl
status_at-order validated = refl
status_at-order deprecated = refl
status_at-order archived = refl

All-mono : (m n : ℕ) (es : List Event) → m ≤ n → All (AtMost m) es → All (AtMost n) es
All-mono m n [] h a = tt
All-mono m n (e ∷ es) h a = (le_trans a.0 h, All-mono m n es h a.1)

-- The recomputed status is the least upper bound of the lifecycle events.
pub compute_status_lub :
    (es : List Event)
    → All (AtMost (order (compute_status_from_events es))) es
      × ((compute_status_from_events es ≡ provisional) ⊎ Attains (compute_status_from_events es) es)
unfolding compute_status_from_events
compute_status_lub es = (
  All-mono _ _ es (order-status_at (max_order 0 es) (max_order-le-five es)) (max_order-AtMost 0 es),
  elim (max_order_attained 0 es) [
    | inl q ↦ inl (rw q refl)
    | inr (s, found, q) ↦
        inr (subst (λ t. Attains t es) (sym (ap status_at q ∙ status_at-order s)) found)
  ],
)

-- The lattice join of a status with what an event stands for.
abbrev pub join : DiscoveryStatus → EventType → DiscoveryStatus
join s et = elim (type_to_status et) [
  | none ↦ s
  | some t ↦ if ltb (order s) (order t) then t else s
]

order-join : (s : DiscoveryStatus) (et : EventType) → order s ≤ order (join s et)
order-join s et = ground arith

status_at-step :
    (n : ℕ) (s : DiscoveryStatus)
    → n ≤ 5
    → status_at (if ltb n (order s) then order s else n)
      ≡ (if ltb (order (status_at n)) (order s) then s else status_at n)
unfolding order of_order
status_at-step n provisional h = ground arith
status_at-step n validated h = ground arith
status_at-step n deprecated h = ground arith
status_at-step n forked h = ground arith
status_at-step n archived h = ground arith

status_at-raise_order :
    (n : ℕ) (et : EventType) → n ≤ 5 → status_at (raise_order n et) ≡ join (status_at n) et
unfolding raise_order
status_at-raise_order n et h = elim (Option-cases (type_to_status et)) [
  | inl q ↦ rw (q, raise_order, join) refl
  | inr (s, q) ↦ rw (q, raise_order, join) (status_at-step n s h)
]

compute_status-append :
    (es : List Event) (e : Event)
    → compute_status_from_events (es ++ e ∷ []) ≡ join (compute_status_from_events es) e.event_type
unfolding compute_status_from_events
compute_status-append es e =
    ap status_at (max_order-append 0 es e)
    ∙ status_at-raise_order (max_order 0 es) e.event_type (max_order-le-five es)

module _ ⦃p : Platform⦄ where
  -- The status that an `EventChain` built by appends shows is the least upper bound of the
  -- lifecycle events in it: no event exceeds it, and it is provisional or one of them has it.
  pub status_is_lub :
      (cid : String) (es : List Event)
      → let c = (append_all es (empty_chain cid)).1 in
        All (AtMost (order (status c))) c.events
        × ((status c ≡ provisional) ⊎ Attains (status c) c.events)
  status_is_lub cid es =
      let c = (append_all es (empty_chain cid)).1 in
      let coherent = append_all-IsCoherent es (empty_chain cid) (empty_chain-IsCoherent cid) in
      subst (λ s. All (AtMost (order s)) c.events × ((s ≡ provisional) ⊎ Attains s c.events))
        (sym (status_of_coherent c coherent)) (compute_status_lub c.events)

  -- An append of an event of the chain's concept joins the status with that of the event, and any
  -- other append leaves it.
  pub status-append :
      (e : Event) (c : EventChain)
      → IsCoherent c
      → status (append e c).1
        ≡ (if str_eq e.concept_id c.concept_id then join (status c) e.event_type else status c)
  status-append e c h =
      status_of_coherent (append e c).1 (append-IsCoherent e c h)
      ∙ ap compute_status_from_events (events-append e c)
      ∙ (elim (Bool-cases (str_eq e.concept_id c.concept_id)) [
        | inr ne ↦ rw ne (sym (status_of_coherent c h))
        | inl same ↦ rw same (
            compute_status-append c.events (link_to (last? c.events) e)
            ∙ ap (join (compute_status_from_events c.events))
                (event_type-link_to (last? c.events) e)
            ∙ ap (λ s. join s e.event_type) (sym (status_of_coherent c h)))
      ])

  -- An append never lowers the status in the order of the lifecycle, whatever the event.
  pub status_never_regresses :
      (e : Event) (c : EventChain) → IsCoherent c → order (status c) ≤ order (status (append e c).1)
  status_never_regresses e c h =
      rw (status-append e c h) (elim (Bool-cases (str_eq e.concept_id c.concept_id)) [
        | inr ne ↦ rw ne (le_refl _)
        | inl same ↦ rw same (order-join (status c) e.event_type)
      ])
