-- ===== src/Chain/Confidence.antt =====
-- The confidence of an `EventChain` (adl_lite/models.py): the incremental cache is the maximum over
-- the VALIDATE and SNAPSHOT events, within [0, 1], and it never falls.
use adl_lite.Prelude.{
  ℕ, ◌≤◌, String, ◌≡◌, refl, ap, sym, ◌∙◌, true, Option, none, some, List, [], ◌∷◌, ◌++◌, ltb,
  str_eq, last?, Bool-cases, inl, inr, arith, if◌then◌else◌,
}
use native.Mathlib.Nat.{le_refl}
use adl_lite.Prelude.Int.{ℤ, pos, negsuc}
use adl_lite.Prelude.Result.{Result, ok, err, Error, ◌>>=◌, Result-cases}
use adl_lite.Event.{Platform, Event, confidence_field, clamp, one, rehash}
use adl_lite.Chain.{
  EventChain, empty_chain, carries_confidence, update_status, update_confidence, update_crdt_caches,
  link_to, append, append_all, max_confidence, compute_confidence_from_events, confidence,
}
use adl_lite.Chain.Status.{
  events-append, event_type-link_to, update_confidence_keeps, update_status_events,
}

pub clamp-le-one : (v : ℤ) → clamp v ≤ one
unfolding clamp
clamp-le-one (pos n) = ground arith
clamp-le-one (negsuc n) = omega arith

bind_ok {ℓ} :
    {A : Type ℓ} (r : Result A) (f : A → ℕ) (g : ℕ → Result ℕ)
    → (r >>= λ a. g (f a)) ≡ ((r >>= λ a. ok (f a)) >>= g)
bind_ok (ok a) f g = refl
bind_ok (err x) f g = refl

bind_nil : (r : Result ℕ) → (r >>= λ m. ok m) ≡ r
bind_nil (ok a) = refl
bind_nil (err x) = refl

bind_each : (r : Result ℕ) (f g : ℕ → Result ℕ) → ((m : ℕ) → f m ≡ g m) → (r >>= f) ≡ (r >>= g)
bind_each (ok m) f g h = h m
bind_each (err x) f g h = refl

bind_assoc : (r : Result ℕ) (f g : ℕ → Result ℕ) → (r >>= f >>= g) ≡ (r >>= λ m. f m >>= g)
bind_assoc (ok m) f g = refl
bind_assoc (err x) f g = refl

module _ ⦃p : Platform⦄ where
  -- The cache is the recomputed confidence, and at most 1.0.
  pub record IsExact (c : EventChain) : Type 0 where
    pub recomputed : compute_confidence_from_events c.events ≡ ok c.cached_confidence
    pub bounded : c.cached_confidence ≤ one

  -- The maximum after one event more.
  pub raise_confidence : ℕ → Event → Result ℕ
  raise_confidence n e =
      if carries_confidence e.event_type
      then (do v ← confidence_field e.payload; ok (if ltb n (clamp v) then clamp v else n))
      else ok n

  max_confidence-cons :
      (n : ℕ) (d : Event) (es : List Event)
      → max_confidence n (d ∷ es) ≡ (raise_confidence n d >>= λ m. max_confidence m es)
  unfolding max_confidence raise_confidence
  max_confidence-cons n d es = elim (Bool-cases (carries_confidence d.event_type)) [
    | inr q ↦ rw q refl
    | inl q ↦ rw q (bind_ok (confidence_field d.payload) _ _)
  ]

  max_confidence-append :
      (n : ℕ) (es : List Event) (e : Event)
      → max_confidence n (es ++ e ∷ []) ≡ (max_confidence n es >>= λ m. raise_confidence m e)
  max_confidence-append n [] e =
      max_confidence-cons n e [] ∙ (unfold max_confidence in bind_nil (raise_confidence n e))
  max_confidence-append n (d ∷ es) e =
      max_confidence-cons n d (es ++ e ∷ [])
      ∙ bind_each (raise_confidence n d) _ _ (λ m. max_confidence-append m es e)
      ∙ sym (bind_assoc (raise_confidence n d) _ _)
      ∙ ap (λ r. r >>= λ m. raise_confidence m e) (sym (max_confidence-cons n d es))

  update_confidence-raise :
      (e : Event) (c : EventChain)
      → (update_confidence e c).0 ≡ ok tt
      → raise_confidence c.cached_confidence e ≡ ok (update_confidence e c).1.cached_confidence
  unfolding update_confidence raise_confidence
  update_confidence-raise e c h = ground arith

  update_status_confidence :
      (e : Event) (c : EventChain)
      → (update_status e.event_type c).cached_confidence ≡ c.cached_confidence
  unfolding update_status
  update_status_confidence e c = ground arith

  update_confidence_range :
      (e : Event) (c : EventChain)
      → c.cached_confidence ≤ one
      → (c.cached_confidence ≤ (update_confidence e c).1.cached_confidence)
        × ((update_confidence e c).1.cached_confidence ≤ one)
  unfolding update_confidence
  update_confidence_range e c h = elim (Result-cases (confidence_field e.payload)) [
    | inl (x, q) ↦ rw (q, update_confidence) (ground arith)
    | inr (v, q) ↦ rw (q, update_confidence) (ground (arith, clamp-le-one v))
  ]

  update_crdt_caches_range :
      (e : Event) (c : EventChain)
      → c.cached_confidence ≤ one
      → (c.cached_confidence ≤ (update_crdt_caches e c).1.cached_confidence)
        × ((update_crdt_caches e c).1.cached_confidence ≤ one)
  unfolding update_crdt_caches update_status
  update_crdt_caches_range e c h =
      let d = update_status e.event_type c in
      let same = update_status_confidence e c in
      let r = update_confidence_range e d (rw same h) in (rw same at r.0, r.1)

  update_crdt_caches-raise :
      (e : Event) (c : EventChain)
      → (update_crdt_caches e c).0 ≡ ok tt
      → raise_confidence c.cached_confidence e ≡ ok (update_crdt_caches e c).1.cached_confidence
  unfolding update_crdt_caches
  update_crdt_caches-raise e c done =
      ap (λ n. raise_confidence n e) (sym (update_status_confidence e c))
      ∙ update_confidence-raise e (update_status e.event_type c) done

  update_crdt_caches_events :
      (e : Event) (c : EventChain) → (update_crdt_caches e c).1.events ≡ c.events
  unfolding update_crdt_caches
  update_crdt_caches_events e c =
      (update_confidence_keeps e (update_status e.event_type c)).0
      ∙ update_status_events e.event_type c

  update_crdt_caches-IsExact :
      (e : Event) (c : EventChain) (es : List Event)
      → c.events ≡ es ++ e ∷ []
      → compute_confidence_from_events es ≡ ok c.cached_confidence
      → c.cached_confidence ≤ one
      → (update_crdt_caches e c).0 ≡ ok tt
      → IsExact (update_crdt_caches e c).1
  unfolding compute_confidence_from_events
  update_crdt_caches-IsExact e c es events_eq recomputed bounded done = record {
    recomputed =
        ap (max_confidence 0) (update_crdt_caches_events e c ∙ events_eq)
        ∙ max_confidence-append 0 es e
        ∙ ap (λ r. r >>= λ m. raise_confidence m e) recomputed
        ∙ update_crdt_caches-raise e c done;
    bounded = (update_crdt_caches_range e c bounded).1;
  }

  -- An append that returns keeps the cached confidence exact.
  pub append-IsExact :
      (e : Event) (c : EventChain) → IsExact c → (append e c).0 ≡ ok tt → IsExact (append e c).1
  unfolding append
  append-IsExact e c h done = elim (Bool-cases (str_eq e.concept_id c.concept_id)) [
    | inr ne ↦ rw ne h
    | inl same ↦ rw same (
        update_crdt_caches-IsExact (link_to (last? c.events) e) _ c.events refl h.recomputed
          h.bounded (rw same at done))
  ]

  -- On an exact cache the property `confidence` returns the cached value, without a raise.
  pub confidence_exact : (c : EventChain) → IsExact c → confidence c ≡ ok c.cached_confidence
  unfolding confidence
  confidence_exact c h = ground (arith, h.recomputed)

  empty_chain-IsExact : (cid : String) → IsExact (empty_chain cid)
  unfolding empty_chain compute_confidence_from_events max_confidence
  empty_chain-IsExact cid = record { recomputed = refl; bounded = omega arith }

  append_all-IsExact :
      (es : List Event) (c : EventChain)
      → IsExact c
      → (append_all es c).0 ≡ ok tt
      → IsExact (append_all es c).1
  unfolding append_all
  append_all-IsExact [] c h done = h
  append_all-IsExact (e ∷ es) c h done = elim (Result-cases (append e c).0) [
    | inl (x, q) ↦ cc (rw (q, append_all) at done)
    | inr (_, q) ↦
        rw (q, append_all)
          (append_all-IsExact es (append e c).1 (append-IsExact e c h q)
            (rw (q, append_all) at done))
  ]

  -- Where every append of a new chain returns, the property `confidence` returns a number within
  -- [0, 1], and it is the one recomputed from the events.
  pub confidence_is_max :
      (cid : String) (es : List Event)
      → (append_all es (empty_chain cid)).0 ≡ ok tt
      → let c = (append_all es (empty_chain cid)).1 in
        (n : ℕ) × (confidence c ≡ ok n)
        × (compute_confidence_from_events c.events ≡ ok n)
        × (n ≤ one)
  confidence_is_max cid es done =
      let c = (append_all es (empty_chain cid)).1 in
      let exact = append_all-IsExact es (empty_chain cid) (empty_chain-IsExact cid) done in
      (c.cached_confidence, confidence_exact c exact, exact.recomputed, exact.bounded)

  update_confidence_raises :
      (e : Event) (c : EventChain) (x : Error)
      → carries_confidence e.event_type ≡ true
      → confidence_field e.payload ≡ err x
      → (update_confidence e c).0 ≡ err x
  unfolding update_confidence
  update_confidence_raises e c x carries bad = rw (carries, bad, update_confidence) refl

  payload-link_to : (o : Option Event) (e : Event) → (link_to o e).payload ≡ e.payload
  unfolding link_to rehash
  payload-link_to none e = refl
  payload-link_to (some prev) e = refl

  append_raises :
      (e : Event) (c : EventChain) (x : Error)
      → str_eq e.concept_id c.concept_id ≡ true
      → carries_confidence e.event_type ≡ true
      → confidence_field e.payload ≡ err x
      → (append e c).0 ≡ err x
  unfolding append update_crdt_caches
  append_raises e c x same carries bad = rw same (
      update_confidence_raises (link_to (last? c.events) e) _ x
        (ap carries_confidence (event_type-link_to (last? c.events) e) ∙ carries)
        (ap confidence_field (payload-link_to (last? c.events) e) ∙ bad))

  -- A VALIDATE or SNAPSHOT event whose confidence is no number raises, and stands in the chain all
  -- the same.
  pub append_not_atomic :
      (e : Event) (c : EventChain) (x : Error)
      → str_eq e.concept_id c.concept_id ≡ true
      → carries_confidence e.event_type ≡ true
      → confidence_field e.payload ≡ err x
      → ((append e c).0 ≡ err x)
        × ((append e c).1.events ≡ c.events ++ link_to (last? c.events) e ∷ [])
  append_not_atomic e c x same carries bad =
      (append_raises e c x same carries bad, events-append e c ∙ (rw same refl))

  -- The cached field `cached_confidence`: if it is at most 1.0 before an append, the append does not
  -- lower it and leaves it at most 1.0, also where the append raises.
  pub confidence_never_falls :
      (e : Event) (c : EventChain)
      → c.cached_confidence ≤ one
      → (c.cached_confidence ≤ (append e c).1.cached_confidence)
        × ((append e c).1.cached_confidence ≤ one)
  unfolding append
  confidence_never_falls e c h = elim (Bool-cases (str_eq e.concept_id c.concept_id)) [
    | inr ne ↦ rw ne (le_refl _, h)
    | inl same ↦ rw same (update_crdt_caches_range (link_to (last? c.events) e) _ h)
  ]
