-- ===== src/Chain/Restart.antt =====
-- `verify_integrity` (adl_lite/models.py) where it starts at the genesis event: on a chain that was
-- never verified, that has no new event, or whose recorded prefix no longer matches.
use adl_lite.Prelude.{
  ◌≡◌, refl, ap, sym, ◌∙◌, Bool, false, none, List, [], ◌∷◌, ◌⊎◌, inl, inr, arith,
}
use adl_lite.Event.{Platform, Event}
use adl_lite.Chain.{EventChain}
use adl_lite.Chain.Verify.{
  Verdict, valid, invalid, raises, Progress, has_archive, verify_from, keeps_prefix, start_index,
  event_before, initial_progress, finish, verify_prefix, verify_integrity,
}
use adl_lite.Chain.Integrity.{IsWellFormed, valid-IsWellFormed}

abbrev pub start : Progress
start = record { seen = []; ids = []; last_dt = none }

-- The integrity cache as a new chain has it.
pub record IsFresh (c : EventChain) : Type 0 where
  pub ids : c.verified_event_ids ≡ []
  pub seen : c.verified_seen ≡ []
  pub last_dt : c.verified_last_dt ≡ none

-- The recorded prefix is not relied on.
abbrev pub Restarts : EventChain → Type 0
Restarts c = (keeps_prefix c.verified_event_ids c.events ≡ false) ⊎ IsFresh c

pub pair_eq : (r : Verdict × Progress) → r.0 ≡ valid → r ≡ (valid, r.1)
pair_eq (v, g) h = ap (λ (w : Verdict). (w, g)) h

module _ ⦃p : Platform⦄ where
  -- The verification of the whole chain, without a cache.
  abbrev pub full : EventChain → Verdict × Progress
  full c = verify_from (has_archive c.events) c.concept_id 0 none start c.events

  pub finish_verdict :
      (c : EventChain) (kept : Bool) (r : Verdict × Progress) → (finish c kept r).0 ≡ r.0
  unfolding finish
  finish_verdict c kept (valid, g) = refl
  finish_verdict c kept (invalid, g) = refl
  finish_verdict c kept (raises, g) = refl

  start_index-Restarts :
      (c : EventChain) → Restarts c → start_index c.verified_event_ids c.events ≡ 0
  unfolding start_index
  start_index-Restarts c (inl q) = rw (q, start_index) refl
  start_index-Restarts c (inr f) = rw (f.ids, start_index) (ground arith)

  initial_progress-Restarts : (c : EventChain) → Restarts c → initial_progress c ≡ start
  unfolding initial_progress event_before
  initial_progress-Restarts c (inl q) = rw (q, initial_progress) refl
  initial_progress-Restarts c (inr f) =
      ground (arith, start_index-Restarts c (inr f), f.ids, f.seen, f.last_dt)

  pub verify_prefix-Restarts :
      (c : EventChain)
      → Restarts c
      → verify_prefix c ≡ finish c (keeps_prefix c.verified_event_ids c.events) (full c)
  unfolding verify_prefix event_before
  verify_prefix-Restarts c h = rw (start_index-Restarts c h, initial_progress-Restarts c h) refl

  pub verify_integrity_nonempty :
      (c : EventChain) (e : Event) (es : List Event)
      → c.events ≡ e ∷ es
      → verify_integrity c ≡ verify_prefix c
  unfolding verify_integrity
  verify_integrity_nonempty c e es q = ground arith

  -- The verdict is then that of the loop over the whole chain.
  pub verify_integrity-Restarts :
      (c : EventChain) → Restarts c → (verify_integrity c).0 ≡ (full c).0
  verify_integrity-Restarts c h = by_events c.events refl
    where
      by_events : (es : List Event) → c.events ≡ es → (verify_integrity c).0 ≡ (full c).0
      by_events [] q = unfold verify_integrity verify_from in rw (q, verify_integrity) refl
      by_events (e ∷ es) q =
          ap (λ (r : Verdict × EventChain). r.0)
            (verify_integrity_nonempty c e es q ∙ verify_prefix-Restarts c h)
          ∙ finish_verdict c _ (full c)

  -- A verification that starts at the genesis event and finds a chain with no archive valid proves
  -- axioms 1 to 7: the links, the hashes, the concept, distinct ids, actors and the order of time.
  pub verified_chain-IsWellFormed :
      (c : EventChain)
      → Restarts c
      → has_archive c.events ≡ false
      → (verify_integrity c).0 ≡ valid
      → IsWellFormed c.concept_id c.events
  verified_chain-IsWellFormed c h no_archive ok_eq =
      let run = verify_from false c.concept_id 0 none start c.events in
      let at_start : run.0 ≡ valid =
        ap (λ (a : Bool). (verify_from a c.concept_id 0 none start c.events).0) (sym no_archive)
        ∙ sym (verify_integrity-Restarts c h)
        ∙ ok_eq in
      valid-IsWellFormed c.concept_id start run.1 c.events (pair_eq run at_start)
