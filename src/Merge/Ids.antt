-- ===== src/Merge/Ids.antt =====
-- The event ids of a merge (adl_lite/crdt.py).
use adl_lite.Prelude.{
  String, ◌≡◌, refl, sym, ap, ◌∙◌, Bool, true, false, ◌||◌, Option, none, some, List, [], ◌∷◌, ◌++◌,
  last?, str_eq, eq_iff, eq_refl, arith, Bool-cases, Option-cases, inl, inr, ◌⊎◌, if◌then◌else◌,
}
use adl_lite.Prelude.Dict.{Dict, lookup, insert}
use adl_lite.Prelude.Result.{
  Error, Result, ok, err, >>=-eq-ok, ok-injective, if-eq-ok, Result-cases,
}
use adl_lite.Event.{DateTime, dt_lt, Platform, Event, parse_event_dt, rehash}
use adl_lite.Chain.{EventChain, append, append_all, link_to}
use adl_lite.Chain.Status.{events-append}
use adl_lite.Merge.{
  values, put_events, comparable, insert_sorted, sort_onto, events_of, merge_events, sort_key,
  with_keys, sort_events,
}

-- Whether an event with the id is in the list.
abbrev pub has_id : String → List Event → Bool
has_id id [] = false
has_id id (e ∷ es) = str_eq id e.event_id || has_id id es

-- Every event stands under its own id.
abbrev pub HasOwnKeys : Dict Event → Type 0
HasOwnKeys [] = Unit
HasOwnKeys ((k, e) ∷ d) = (k ≡ e.event_id) × HasOwnKeys d

insert-HasOwnKeys : (e : Event) (d : Dict Event) → HasOwnKeys d → HasOwnKeys (insert e.event_id e d)
unfolding insert
insert-HasOwnKeys e [] h = (refl, tt)
insert-HasOwnKeys e ((j, w) ∷ d) h = elim (Bool-cases (str_eq j e.event_id)) [
  | inl same ↦ rw same (refl, h.1)
  | inr other ↦ rw other (h.0, insert-HasOwnKeys e d h.1)
]

has_id-insert :
    (id : String) (e : Event) (d : Dict Event)
    → HasOwnKeys d
    → has_id id (values (insert e.event_id e d)) ≡ (str_eq id e.event_id || has_id id (values d))
unfolding values insert
has_id-insert id e [] h = refl
has_id-insert id e ((j, w) ∷ d) h =
    ground (arith, eq_iff j e.event_id, h.0, has_id-insert id e d h.1)

lookup-has_id :
    (id : String) (d : Dict Event) (e : Event)
    → HasOwnKeys d
    → lookup id d ≡ some e
    → has_id id (values d) ≡ true
unfolding lookup values
lookup-has_id id [] e h q = cc
lookup-has_id id ((j, w) ∷ d) e h q =
    ground (arith, eq_iff j id, eq_refl id, h.0, q, lookup-has_id id d e h.1)

pub put_events-HasOwnKeys :
    (es : List Event) (d : Dict Event) → HasOwnKeys d → HasOwnKeys (put_events es d)
unfolding put_events
put_events-HasOwnKeys [] d h = h
put_events-HasOwnKeys (e ∷ es) d h =
    put_events-HasOwnKeys es (insert e.event_id e d) (insert-HasOwnKeys e d h)

pub has_id-put_events :
    (id : String) (es : List Event) (d : Dict Event)
    → HasOwnKeys d
    → has_id id (values (put_events es d)) ≡ (has_id id es || has_id id (values d))
unfolding put_events
has_id-put_events id [] d h = refl
has_id-put_events id (e ∷ es) d h = ground (
  arith,
  has_id-put_events id es (insert e.event_id e d) (insert-HasOwnKeys e d h),
  has_id-insert id e d h,
)

has_id-insert_sorted :
    (id : String) (k : DateTime × Event) (ks : List (DateTime × Event))
    → has_id id (events_of (insert_sorted k ks))
      ≡ (str_eq id k.1.event_id || has_id id (events_of ks))
unfolding insert_sorted events_of
has_id-insert_sorted id k [] = refl
has_id-insert_sorted id k (j ∷ ks) = ground (arith, has_id-insert_sorted id k ks)

has_id-sort_onto :
    (id : String) (acc ks : List (DateTime × Event))
    → has_id id (events_of (sort_onto acc ks))
      ≡ (has_id id (events_of ks) || has_id id (events_of acc))
unfolding sort_onto events_of
has_id-sort_onto id acc [] = refl
has_id-sort_onto id acc (k ∷ ks) =
    ground (arith, has_id-sort_onto id (insert_sorted k acc) ks, has_id-insert_sorted id k acc)

has_id-append :
    (id : String) (es : List Event) (e : Event)
    → has_id id (es ++ e ∷ []) ≡ (has_id id es || str_eq id e.event_id)
has_id-append id [] e = ground arith
has_id-append id (d ∷ es) e = ground (arith, has_id-append id es e)

pub or_false : (b : Bool) → (b || false) ≡ b
or_false b = ground arith

or_assoc : (a b c : Bool) → ((a || b) || c) ≡ (a || (b || c))
or_assoc a b c = ground arith

-- The branch of a test that returned, where the other raises.
pub Bool-split {ℓ} :
    {A : Type ℓ} (test : Bool) (call : Result A) (x : Error) {v : A}
    → (if test then call else err x) ≡ ok v
    → (test ≡ true) × (call ≡ ok v)
Bool-split true call x h = (refl, h)
Bool-split false call x h = cc

age_cases : (o : Option Bool) → (o ≡ none) ⊎ ((o ≡ some true) ⊎ (o ≡ some false))
age_cases none = inl refl
age_cases (some true) = inr (inl refl)
age_cases (some false) = inr (inr refl)

module _ ⦃p : Platform⦄ where
  pub has_id-merge_events :
      (id : String) (es : List Event) (d d' : Dict Event)
      → HasOwnKeys d
      → merge_events es d ≡ ok d'
      → has_id id (values d') ≡ (has_id id es || has_id id (values d))
  unfolding merge_events
  has_id-merge_events id [] d d' h q = ap (λ x. has_id id (values x)) (sym (ok-injective q))
  has_id-merge_events id (e ∷ es) d d' h q = elim (Option-cases (lookup e.event_id d)) [
    | inl absent ↦ ground (
      arith,
      has_id-merge_events id es (insert e.event_id e d) d' (insert-HasOwnKeys e d h)
          (rw (absent, merge_events) at q),
      has_id-insert id e d h,
    )
    | inr (old, found) ↦
        (elim (age_cases (dt_lt (parse_event_dt e.timestamp) (parse_event_dt old.timestamp))) [
          | inl age ↦ cc (rw (found, age, merge_events) at q)
          | inr (inl age) ↦ ground (
            arith,
            eq_iff id e.event_id,
            lookup-has_id e.event_id d old h found,
            has_id-merge_events id es d d' h (rw (found, age, merge_events) at q),
          )
          | inr (inr age) ↦ ground (
            arith,
            has_id-merge_events id es (insert e.event_id e d) d' (insert-HasOwnKeys e d h)
                (rw (found, age, merge_events) at q),
            has_id-insert id e d h,
          )
        ])
  ]

  events_of-with_keys :
      (es : List Event) (ks : List (DateTime × Event)) → with_keys es ≡ ok ks → events_of ks ≡ es
  unfolding with_keys events_of
  events_of-with_keys [] ks q = ap events_of (sym (ok-injective q))
  events_of-with_keys (e ∷ es) ks q =
      let (k, key_eq, r) = >>=-eq-ok (sort_key e) _ q in
      let (js, rest_eq, done) = >>=-eq-ok (with_keys es) (λ js. ok ((k, e) ∷ js)) r in
      ap events_of (sym (ok-injective done)) ∙ ap (λ t. e ∷ t) (events_of-with_keys es js rest_eq)

  pub has_id-sort_events :
      (id : String) (es fs : List Event) → sort_events es ≡ ok fs → has_id id fs ≡ has_id id es
  unfolding sort_events
  has_id-sort_events id es fs q =
      let (ks, keys_eq, r) = >>=-eq-ok (with_keys es) _ q in
      let (_, sorted) = if-eq-ok (comparable ks) (events_of (sort_onto [] ks)) _ r in
      let step = has_id-sort_onto id [] ks in
      let same = events_of-with_keys es ks keys_eq in
      ap (has_id id) (sym sorted) ∙ step ∙ or_false (has_id id (events_of ks)) ∙ ap (has_id id) same

  pub event_id-link_to : (o : Option Event) (e : Event) → (link_to o e).event_id ≡ e.event_id
  unfolding link_to rehash
  event_id-link_to none e = refl
  event_id-link_to (some prev) e = refl

  pub append_concept :
      (e : Event) (c : EventChain)
      → (append e c).0 ≡ ok tt
      → str_eq e.concept_id c.concept_id ≡ true
  unfolding append
  append_concept e c q = elim (Bool-cases (str_eq e.concept_id c.concept_id)) [
    | inl same ↦ same
    | inr other ↦ cc (rw (other, append) at q)
  ]

  has_id-appended :
      (id : String) (e : Event) (c : EventChain)
      → (append e c).0 ≡ ok tt
      → has_id id (append e c).1.events ≡ (has_id id c.events || str_eq id e.event_id)
  has_id-appended id e c q =
      ap (has_id id) (events-append e c ∙ (rw (append_concept e c q) refl))
      ∙ has_id-append id c.events (link_to (last? c.events) e)
      ∙ ap (λ i. has_id id c.events || str_eq id i) (event_id-link_to (last? c.events) e)

  pub has_id-append_all :
      (id : String) (es : List Event) (c : EventChain)
      → (append_all es c).0 ≡ ok tt
      → has_id id (append_all es c).1.events ≡ (has_id id c.events || has_id id es)
  unfolding append_all
  has_id-append_all id [] c q = ground arith
  has_id-append_all id (e ∷ es) c q = elim (Result-cases (append e c).0) [
    | inl (x, r) ↦ cc (rw (r, append_all) at q)
    | inr (_, r) ↦
        rw (r, append_all)
          (has_id-append_all id es (append e c).1 (rw (r, append_all) at q)
            ∙ ap (λ b. b || has_id id es) (has_id-appended id e c r)
            ∙ or_assoc (has_id id c.events) (str_eq id e.event_id) (has_id id es))
  ]
