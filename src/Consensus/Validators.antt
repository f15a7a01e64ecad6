-- ===== src/Consensus/Validators.antt =====
-- The distinct validators of an `EventChain` (adl_lite/models.py) under `append`.
use adl_lite.Prelude.{
  ◌+◌, String, ◌≡◌, refl, ap, ◌∙◌, true, ◌||◌, Option, none, some, List, [], ◌∷◌, ◌++◌, length,
  length-append, last?, str_eq, arith, Bool-cases, inl, inr, if◌then◌else◌, append-nil,
}
use adl_lite.Prelude.Dict.{contains}
use adl_lite.Event.{EventType, Platform, Event, rehash}
use adl_lite.Chain.{
  EventChain, is_validate, fromkeys, validating_actors, validators, link_to, append,
}
use adl_lite.Chain.Status.{events-append, event_type-link_to}

-- A list of distinct texts with one more text.
abbrev pub add_distinct : List String → String → List String
add_distinct xs a = if contains a xs then xs else xs ++ a ∷ []

fromkeys-append :
    (seen xs : List String) (a : String)
    → fromkeys seen (xs ++ a ∷ []) ≡ (
        if contains a seen || contains a (fromkeys seen xs)
        then fromkeys seen xs
        else fromkeys seen xs ++ a ∷ [])
unfolding fromkeys contains
fromkeys-append seen [] a = ground arith
fromkeys-append seen (x ∷ xs) a =
    ground (arith, fromkeys-append seen xs a, fromkeys-append (x ∷ seen) xs a)

validating_actors-append :
    (es : List Event) (e : Event)
    → validating_actors (es ++ e ∷ [])
      ≡ validating_actors es ++ (if is_validate e.event_type then e.actor ∷ [] else [])
unfolding validating_actors
validating_actors-append [] e = ground arith
validating_actors-append (d ∷ es) e = ground (arith, validating_actors-append es e)

distinct-append :
    (xs : List String) (a : String) → fromkeys [] (xs ++ a ∷ []) ≡ add_distinct (fromkeys [] xs) a
unfolding contains
distinct-append xs a = fromkeys-append [] xs a

add_actor :
    (xs : List String) (et et' : EventType) (a a' : String)
    → et ≡ et'
    → a ≡ a'
    → fromkeys [] (xs ++ (if is_validate et then a ∷ [] else []))
      ≡ (if is_validate et' then add_distinct (fromkeys [] xs) a' else fromkeys [] xs)
add_actor xs et et' a a' q r = elim (Bool-cases (is_validate et')) [
  | inl yes_eq ↦ rw (q, r, yes_eq) (distinct-append xs a')
  | inr no_eq ↦ rw (q, r, no_eq) (ap (fromkeys []) (append-nil xs))
]

pub length-add_distinct :
    (xs : List String) (a : String)
    → length (add_distinct xs a) ≡ length xs + (if contains a xs then 0 else 1)
length-add_distinct xs a = elim (Bool-cases (contains a xs)) [
  | inl q ↦ rw q (omega arith)
  | inr q ↦ rw q (length-append xs (a ∷ []))
]

module _ ⦃p : Platform⦄ where
  actor-link_to : (o : Option Event) (e : Event) → (link_to o e).actor ≡ e.actor
  unfolding link_to rehash
  actor-link_to none e = refl
  actor-link_to (some prev) e = refl

  -- An append adds the actor of a VALIDATE event to the validators, unless it is among them.
  pub validators-append :
      (e : Event) (c : EventChain)
      → str_eq e.concept_id c.concept_id ≡ true
      → validators (append e c).1
        ≡ (if is_validate e.event_type then add_distinct (validators c) e.actor else validators c)
  unfolding validators
  validators-append e c same =
      let l = link_to (last? c.events) e in
      ap (λ es. fromkeys [] (validating_actors es)) (events-append e c ∙ (rw same refl))
      ∙ ap (fromkeys []) (validating_actors-append c.events l)
      ∙ add_actor (validating_actors c.events) l.event_type e.event_type l.actor e.actor
          (event_type-link_to (last? c.events) e) (actor-link_to (last? c.events) e)
