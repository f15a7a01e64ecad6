-- ===== src/Document/Build.antt =====
-- `EventChain.from_parsed`, `ADLFrontMatter.from_chain` and `ADLDocument.refresh_snapshot`
-- (adl_lite/models.py).
use Prim.Native.Nat.{suc}
use Prim.Native.String
use adl_lite.Prelude.{ℕ, ◌+◌, String, true, none, some, List, [], ◌∷◌, ◌++◌, last?, length}
use adl_lite.Prelude.Int.{pos}
use adl_lite.Prelude.Result.{Result, ok, ◌>>=◌}
use adl_lite.Payload.{num, bool, null, field, end}
use adl_lite.Event.{relate, evidence, seal, snapshot, Platform, Event}
use adl_lite.Chain.{EventChain, confidence, status, validators}
use adl_lite.Consensus.{Stamp, new_event}
use adl_lite.Merge.{rebuild}
use adl_lite.Document.{
  AdlFrontMatter, Block, relation_block, evidence_block, seal_block, execution_block, ActionBlock,
  AdlDocument, action_event_type, restoring_type, exec_payload, snapshot_payload,
}

-- `stamps` are the ids and times that the events draw, one after the other.
module _ ⦃p : Platform⦄ (stamps : ℕ → Stamp) where
  unfoldable pub snapshot_event : String → AdlFrontMatter → Event
  unfolding snapshot_payload
  snapshot_event cid fm =
      new_event (stamps 0) cid snapshot "parser" "Document parsed — initial L1 snapshot (synthetic)"
        (snapshot_payload fm)

  -- The event that restores a status other than provisional.
  unfoldable pub status_events : String → AdlFrontMatter → List Event
  unfolding restoring_type
  status_events cid fm = elim (restoring_type fm.status) [
    | none ↦ []
    | some et ↦
        let actor : String = elim (last? fm.validators) [ none ↦ "unknown" | some v ↦ v ] in
        new_event (stamps 1) cid et actor "Status restored from parsed document (synthetic)"
          (field "confidence" (num (pos fm.confidence)) (field "synthetic" (bool true) end))
        ∷ []
  ]

  unfoldable pub block_events : ℕ → String → List Block → List Event
  block_events n cid [] = []
  block_events n cid (relation_block relation dump ∷ bs) =
      new_event (stamps n) cid relate "author" (String.◌++◌ "Relation asserted: " relation) dump
      ∷ block_events (suc n) cid bs
  block_events n cid (evidence_block dump ∷ bs) =
      new_event (stamps n) cid evidence "author" "" dump ∷ block_events (suc n) cid bs
  block_events n cid (seal_block dump ∷ bs) =
      new_event (stamps n) cid seal "author" "" dump ∷ block_events (suc n) cid bs
  block_events n cid (execution_block dump ∷ bs) = block_events n cid bs

  unfoldable pub action_event : ℕ → String → ActionBlock → Event
  unfolding action_event_type exec_payload
  action_event n cid ab =
      new_event (stamps n) cid (action_event_type ab.action) ab.actor ab.reasoning (exec_payload ab)

  unfoldable pub action_events : ℕ → String → List ActionBlock → List Event
  unfolding action_event
  action_events n cid [] = []
  action_events n cid (ab ∷ abs) = action_event n cid ab ∷ action_events (suc n) cid abs

  -- The events that `from_parsed` appends, in its order.
  unfoldable pub parsed_events : AdlDocument → List Event
  unfolding snapshot_event status_events block_events action_events
  parsed_events doc =
      let cid = doc.front_matter.adl_id in
      let restored = status_events cid doc.front_matter in
      let asserted = block_events 2 cid doc.adl_blocks in
      snapshot_event cid doc.front_matter
      ∷ (restored ++ (asserted ++ action_events (2 + length asserted) cid doc.action_blocks))

  -- The property `event_chain`: `EventChain.from_parsed` of the document.
  unfoldable pub event_chain : AdlDocument → Result EventChain
  unfolding parsed_events
  event_chain doc = rebuild doc.front_matter.adl_id (parsed_events doc)

  -- `ADLFrontMatter.from_chain`, with the identity of the front matter before. `now` is the text of
  -- the current time, for a chain without events.
  unfoldable pub front_matter_from_chain :
      String → EventChain → AdlFrontMatter → Result AdlFrontMatter
  front_matter_from_chain now c fm = do
    conf ← adl_lite.Chain.confidence c
    ok (record {
      adl_type = fm.adl_type;
      adl_id = c.concept_id;
      status = adl_lite.Chain.status c;
      confidence = conf;
      novelty = fm.novelty;
      domain = fm.domain;
      mechanism = fm.mechanism;
      scope = fm.scope;
      validators = adl_lite.Chain.validators c;
      provisional_names = fm.provisional_names;
      evidence_refs = fm.evidence_refs;
      created_at = some (elim c.events [ [] ↦ now | e ∷ _ ↦ e.timestamp ]);
      updated_at = some (elim (last? c.events) [ none ↦ now | some e ↦ e.timestamp ]);
      l2_template = null;
    })

  -- `refresh_snapshot(chain)`. A chain without events counts as none.
  unfoldable pub refresh_snapshot : String → EventChain → AdlDocument → Result AdlDocument
  unfolding front_matter_from_chain event_chain
  refresh_snapshot now given doc = do
    c ← elim given.events [ [] ↦ event_chain doc | _ ∷ _ ↦ ok given ]
    fm ← front_matter_from_chain now c doc.front_matter
    ok (record doc { front_matter = fm })
