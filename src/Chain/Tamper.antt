-- ===== src/Chain/Tamper.antt =====
-- Tamper evidence of the hash links of an `EventChain` (adl_lite/models.py).
use adl_lite.Prelude.{
  String, ◌≡◌, refl, ap, ap₂, sym, ◌∙◌, false, Option, none, some, List, [], ◌∷◌, ◌++◌, map, All,
  last?, append-nil,
}
use adl_lite.Event.{Platform, Event, Content, content, compute_hash}
use adl_lite.Chain.{EventChain}
use adl_lite.Chain.Verify.{valid, has_archive, verify_integrity}
use adl_lite.Chain.Integrity.{IsChained, IsSound, IsWellFormed}
use adl_lite.Chain.Restart.{Restarts, verified_chain-IsWellFormed}

-- `xs` reversed, in front of `acc`.
abbrev rev_onto {ℓ} : {A : Type ℓ} → List A → List A → List A
rev_onto acc [] = acc
rev_onto acc (x ∷ xs) = rev_onto (x ∷ acc) xs

rev_onto_twice {ℓ} :
    {A : Type ℓ} (xs ys acc : List A) → rev_onto ys (rev_onto acc xs) ≡ rev_onto (xs ++ ys) acc
rev_onto_twice [] ys acc = refl
rev_onto_twice (x ∷ xs) ys acc = rev_onto_twice xs ys (x ∷ acc)

map-rev_onto {ℓ κ} :
    {A : Type ℓ} {B : Type κ} (f : A → B) (acc xs : List A)
    → map f (rev_onto acc xs) ≡ rev_onto (map f acc) (map f xs)
map-rev_onto f acc [] = refl
map-rev_onto f acc (x ∷ xs) = map-rev_onto f (x ∷ acc) xs

rev_onto-injective {ℓ} : {A : Type ℓ} (xs ys : List A) → rev_onto [] xs ≡ rev_onto [] ys → xs ≡ ys
rev_onto-injective xs ys h =
    sym (append-nil xs)
    ∙ sym (rev_onto_twice xs [] [])
    ∙ ap (rev_onto []) h
    ∙ rev_onto_twice ys [] []
    ∙ append-nil ys

All-rev_onto {ℓ κ} :
    {A : Type ℓ} (P : A → Type κ) (acc xs : List A) → All P acc → All P xs → All P (rev_onto acc xs)
All-rev_onto P acc [] h k = h
All-rev_onto P acc (x ∷ xs) h k = All-rev_onto P (x ∷ acc) xs (k.0, h) k.1

All-map {ℓ κ ι} :
    {A : Type ℓ} (P : A → Type κ) (Q : A → Type ι) (xs : List A)
    → ((x : A) → P x → Q x)
    → All P xs
    → All Q xs
All-map P Q [] f h = tt
All-map P Q (x ∷ xs) f h = (f x h.0, All-map P Q xs f h.1)

-- The links of a chain that is read from its tail.
abbrev BackChained : List Event → Type 0
BackChained [] = Unit
BackChained (e ∷ []) = e.previous_event_id ≡ none
BackChained (e ∷ d ∷ es) =
    (e.previous_event_id ≡ some d.event_id) × (e.prev_hash ≡ d.hash) × BackChained (d ∷ es)

BackChained-rev_onto :
    (d : Event) (acc es : List Event)
    → IsChained d es
    → BackChained (d ∷ acc)
    → BackChained (rev_onto (d ∷ acc) es)
BackChained-rev_onto d acc [] h k = k
BackChained-rev_onto d acc (e ∷ es) h k = BackChained-rev_onto e (d ∷ acc) es h.2 (h.0, h.1, k)

abbrev first? : List Event → Option Event
first? [] = none
first? (e ∷ es) = some e

abbrev hash_of : Option Event → String
hash_of none = ""
hash_of (some e) = e.hash

first?-rev_onto :
    (d : Event) (acc es : List Event) → first? (rev_onto (d ∷ acc) es) ≡ last? (d ∷ es)
first?-rev_onto d acc [] = refl
first?-rev_onto d acc (e ∷ es) = first?-rev_onto e (d ∷ acc) es

first?-reversed : (es : List Event) → first? (rev_onto [] es) ≡ last? es
first?-reversed [] = refl
first?-reversed (e ∷ es) = first?-rev_onto e [] es

previous : (e f : Event) → content e ≡ content f → e.previous_event_id ≡ f.previous_event_id
unfolding content
previous e f h = ap (λ (c : Content). c.previous_event_id) h

prev_hash : (e f : Event) → content e ≡ content f → e.prev_hash ≡ f.prev_hash
unfolding content
prev_hash e f h = ap (λ (c : Content). c.prev_hash) h

module _ ⦃p : Platform⦄ where
  -- The digest tells the two contents apart, if they differ.
  abbrev pub Agree : Event → Event → Type 0
  Agree e f = p.digest (content e) ≡ p.digest (content f) → content e ≡ content f

  -- No event of one list collides with an event of the other.
  abbrev pub NoCollision : List Event → List Event → Type 0
  NoCollision xs ys = All (λ e. All (Agree e) ys) xs

  NoCollision-reversed :
      (xs ys : List Event) → NoCollision xs ys → NoCollision (rev_onto [] xs) (rev_onto [] ys)
  NoCollision-reversed xs ys n =
      All-rev_onto (λ e. All (Agree e) (rev_onto [] ys)) [] xs tt
        (All-map (λ e. All (Agree e) ys) (λ e. All (Agree e) (rev_onto [] ys)) xs
          (λ e h. All-rev_onto (Agree e) [] ys tt h) n)

  content_of_hash :
      (e f : Event)
      → e.hash ≡ compute_hash e
      → f.hash ≡ compute_hash f
      → e.hash ≡ f.hash
      → Agree e f
      → content e ≡ content f
  unfolding compute_hash
  content_of_hash e f he hf h agree = agree (sym he ∙ h ∙ hf)

  back_equal :
      (cid cid' : String) (e f : Event) (xs ys : List Event)
      → BackChained (e ∷ xs)
      → BackChained (f ∷ ys)
      → All (IsSound cid) (e ∷ xs)
      → All (IsSound cid') (f ∷ ys)
      → NoCollision (e ∷ xs) (f ∷ ys)
      → e.hash ≡ f.hash
      → map content (e ∷ xs) ≡ map content (f ∷ ys)
  back_equal cid cid' e f [] [] b b' s s' n h =
      ap (λ c. c ∷ []) (content_of_hash e f s.0.1 s'.0.1 h n.0.0)
  back_equal cid cid' e f [] (f' ∷ ys) b b' s s' n h =
      cc (previous e f (content_of_hash e f s.0.1 s'.0.1 h n.0.0))
  back_equal cid cid' e f (e' ∷ xs) [] b b' s s' n h =
      cc (previous e f (content_of_hash e f s.0.1 s'.0.1 h n.0.0))
  back_equal cid cid' e f (e' ∷ xs) (f' ∷ ys) b b' s s' n h =
      let same = content_of_hash e f s.0.1 s'.0.1 h n.0.0 in
      ap₂ ◌∷◌ same (
        back_equal cid cid' e' f' xs ys b.2 b'.2 s.1 s'.1
          (All-map (λ g. All (Agree g) (f ∷ f' ∷ ys)) (λ g. All (Agree g) (f' ∷ ys)) (e' ∷ xs)
            (λ g a. a.1) n.1)
          (sym b.1 ∙ prev_hash e f same ∙ b'.1))

  back_equal_lists :
      (cid cid' : String) (us vs : List Event) (e f : Event)
      → first? us ≡ some e
      → first? vs ≡ some f
      → BackChained us
      → BackChained vs
      → All (IsSound cid) us
      → All (IsSound cid') vs
      → NoCollision us vs
      → e.hash ≡ f.hash
      → map content us ≡ map content vs
  back_equal_lists cid cid' [] vs e f q r b b' s s' n h = cc
  back_equal_lists cid cid' (u ∷ us) [] e f q r b b' s s' n h = cc
  back_equal_lists cid cid' (u ∷ us) (v ∷ vs) e f q r b b' s s' n h =
      back_equal cid cid' u v us vs b b' s s' n (ap hash_of q ∙ h ∙ ap hash_of (sym r))

  BackChained-reversed :
      (cid : String) (es : List Event) → IsWellFormed cid es → BackChained (rev_onto [] es)
  BackChained-reversed cid [] w = tt
  BackChained-reversed cid (e ∷ es) w = BackChained-rev_onto e [] es w.1 w.0

  IsSound-reversed :
      (cid : String) (es : List Event) → IsWellFormed cid es → All (IsSound cid) (rev_onto [] es)
  IsSound-reversed cid [] w = tt
  IsSound-reversed cid (e ∷ es) w = All-rev_onto (IsSound cid) [] (e ∷ es) tt w.2

  -- Two chains with no archive that are verified from their first event, so that the verification
  -- relies on no prefix that an earlier one recorded, and are found valid hold the same history if
  -- their last events have one hash: event for event the hashed contents agree, provided the digest
  -- does not collide on their contents.
  pub tail_hash_binds_history :
      (c d : EventChain) (e f : Event)
      → Restarts c
      → Restarts d
      → has_archive c.events ≡ false
      → has_archive d.events ≡ false
      → (verify_integrity c).0 ≡ valid
      → (verify_integrity d).0 ≡ valid
      → NoCollision c.events d.events
      → last? c.events ≡ some e
      → last? d.events ≡ some f
      → e.hash ≡ f.hash
      → map content c.events ≡ map content d.events
  tail_hash_binds_history c d e f rc rd ac ad vc vd n lc ld h =
      let wc = verified_chain-IsWellFormed c rc ac vc in
      let wd = verified_chain-IsWellFormed d rd ad vd in
      let us = rev_onto [] c.events in
      let vs = rev_onto [] d.events in
      let reversed =
        back_equal_lists c.concept_id d.concept_id us vs e f (first?-reversed c.events ∙ lc)
          (first?-reversed d.events ∙ ld) (BackChained-reversed c.concept_id c.events wc)
          (BackChained-reversed d.concept_id d.events wd)
          (IsSound-reversed c.concept_id c.events wc) (IsSound-reversed d.concept_id d.events wd)
          (NoCollision-reversed c.events d.events n) h in
      rev_onto-injective (map content c.events) (map content d.events)
        (sym (map-rev_onto content [] c.events) ∙ reversed ∙ map-rev_onto content [] d.events)
