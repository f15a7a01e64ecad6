-- ===== src/Chain/Verify.antt =====
-- `_verify_prefix` and `verify_integrity` (adl_lite/models.py), with `full=False` and no registry.
use Prim.Native.Nat.{zero, suc}
use adl_lite.Prelude.{
  ℕ, ◌-◌, String, Bool, true, false, ◌&&◌, not, Option, none, some, List, [], ◌∷◌, ◌++◌, str_eq,
  ltb, ◌==◌, any, drop, get_elem?, last?, length, is_some, if◌then◌else◌,
}
use adl_lite.Prelude.Dict.{contains}
use adl_lite.Prelude.Text.{is_blank}
use adl_lite.Event.{
  EventType, DateTime, Platform, Event, archive, dt_lt, compute_hash, parse_event_dt,
}
use adl_lite.Chain.{EventChain}
use adl_lite.Chain.Axioms.{content_axioms, axioms_before_verdict, verdict_raises}

-- What a verification returns; `raises` is the `TypeError` of comparing
-- datetimes, or of looking a list or a dict up in the set of the phases.
pub data Verdict : Type 0 where
  valid invalid raises : Verdict

-- The part of the integrity cache that the loop extends.
pub record Progress : Type 0 where
  pub seen : List String
  pub ids : List String
  pub last_dt : Option DateTime

unfoldable pub is_archive : EventType → Bool
is_archive archive = true
is_archive _ = false

-- `any(e.event_type == EventType.ARCHIVE for e in events)`
unfoldable pub has_archive : List Event → Bool
has_archive es = any (λ e. is_archive e.event_type) es

-- `event.previous_event_id == prev_event.event_id`
unfoldable pub points_to : Option String → String → Bool
points_to none id = false
points_to (some s) id = str_eq s id

-- Axioms 1 and 3 for the event at position `i`, behind `prev`.
unfoldable pub link_axioms : Bool → ℕ → Option Event → Event → Bool
unfolding points_to
link_axioms archived i none e = if is_some e.previous_event_id then archived else true
link_axioms archived i (some prev) e =
    if points_to e.previous_event_id prev.event_id
    then str_eq e.prev_hash prev.hash
    else i == 1 && archived

-- Axiom 7: `last_dt is not None and ts < last_dt`; `none` is a raise.
unfoldable pub goes_back : Option DateTime → DateTime → Option Bool
goes_back none ts = some false
goes_back (some last) ts = dt_lt ts last

-- `verified_ids[i] == events[i].event_id` as far as both lists go.
unfoldable pub prefix_match : List String → List Event → Bool
prefix_match [] es = true
prefix_match (id ∷ ids) [] = true
prefix_match (id ∷ ids) (e ∷ es) = str_eq id e.event_id && prefix_match ids es

-- The recorded prefix is trusted: it matches, and events stand behind it.
unfoldable pub keeps_prefix : List String → List Event → Bool
unfolding prefix_match
keeps_prefix ids es = prefix_match ids es && ltb (length ids) (length es)

-- `start`: where the loop begins.
unfoldable pub start_index : List String → List Event → ℕ
unfolding keeps_prefix
start_index ids es = if keeps_prefix ids es then length ids else 0

unfoldable pub event_before : ℕ → List Event → Option Event
event_before zero es = none
event_before (suc i) es = get_elem? es i

module _ ⦃p : Platform⦄ where
  -- Axioms 1 to 5: the checks before the event id is recorded.
  unfoldable pub anchored : Bool → String → ℕ → Option Event → List String → Event → Bool
  anchored archived cid i prev seen e =
      link_axioms archived i prev e
      && str_eq e.concept_id cid
      && str_eq e.hash (compute_hash e)
      && not (contains e.event_id seen)

  -- The loop over the events from position `i` on. A failure leaves what was recorded before it.
  unfoldable pub verify_from :
      Bool → String → ℕ → Option Event → Progress → List Event → Verdict × Progress
  verify_from archived cid i prev g [] = (valid, g)
  verify_from archived cid i prev g (e ∷ es) =
      let ts = parse_event_dt e.timestamp in
      let recorded = record g { seen = e.event_id ∷ g.seen; ids = g.ids ++ e.event_id ∷ [] } in
      let rest =
        verify_from archived cid (suc i) (some e) (record recorded { last_dt = some ts }) es in
      if anchored archived cid i prev g.seen e
      then (if is_blank e.actor then (invalid, recorded) else elim (goes_back g.last_dt ts) [
        | none ↦ (raises, recorded)
        | some true ↦ (invalid, recorded)
        | some false ↦
            if content_axioms i e
            then rest
            else if axioms_before_verdict i e && verdict_raises e.event_type e.payload
            then (raises, recorded)
            else (invalid, recorded)
      ])
      else (invalid, g)

  -- The cache that the loop starts from: kept behind a verified prefix, and reset if not.
  unfoldable pub initial_progress : EventChain → Progress
  initial_progress c =
      let start = start_index c.verified_event_ids c.events in
      if keeps_prefix c.verified_event_ids c.events
      then record {
        seen = c.verified_seen;
        ids = c.verified_event_ids;
        last_dt = elim (event_before start c.events) [
          | none ↦ c.verified_last_dt
          | some e ↦ some (parse_event_dt e.timestamp)
        ];
      }
      else record { seen = []; ids = []; last_dt = none }

  -- The cache after the loop. `_verified_index` and the rest are written only on success; a reset
  -- has put them back before the loop.
  unfoldable pub finish : EventChain → Bool → Verdict × Progress → Verdict × EventChain
  finish c kept (v, g) =
      let base = record c {
        verified_seen = g.seen;
        verified_event_ids = g.ids;
        verified_index = if kept then c.verified_index else none;
        verified_hash = if kept then c.verified_hash else "";
        verified_last_dt = if kept then c.verified_last_dt else none;
      } in
      elim v [
        | valid ↦ (
          valid,
          record base {
            verified_index = some (length c.events - 1);
            verified_hash = elim (last? c.events) [ none ↦ base.verified_hash | some e ↦ e.hash ];
            verified_last_dt = g.last_dt;
          },
        )
        | invalid ↦ (invalid, base)
        | raises ↦ (raises, base)
      ]

  unfoldable pub verify_prefix : EventChain → Verdict × EventChain
  verify_prefix c =
      let start = start_index c.verified_event_ids c.events in
      finish c (keeps_prefix c.verified_event_ids c.events) (
        verify_from (has_archive c.events) c.concept_id start (event_before start c.events)
          (initial_progress c) (drop start c.events))

  unfoldable pub verify_integrity : EventChain → Verdict × EventChain
  verify_integrity c = elim c.events [ [] ↦ (valid, c) | _ ∷ _ ↦ verify_prefix c ]
