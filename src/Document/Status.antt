-- ===== src/Document/Status.antt =====
-- The chain that `ADLDocument.event_chain` (adl_lite/models.py) builds: it never raises, and the
-- status that it shows.
use Prim.Native.Nat.{suc}
use adl_lite.Prelude.{
  ℕ, ◌+◌, String, ◌≡◌, refl, sym, ap, ◌∙◌, true, false, Option, none, some, List, [], ◌∷◌, ◌++◌,
  All, ◌⊎◌, inl, inr, str_eq, eq_refl, last?, length, subst, arith,
}
use adl_lite.Prelude.Int.{ℤ, pos}
use adl_lite.Prelude.Result.{ok}
use adl_lite.Payload.{get}
use adl_lite.Event.{
  DiscoveryStatus, provisional, validated, deprecated, forked, archived, Platform, Event,
  confidence_field, to_float, rehash, order, type_to_status,
}
use adl_lite.Chain.{
  EventChain, empty_chain, append, append_all, link_to, status, carries_confidence,
  update_crdt_caches, update_confidence,
}
use adl_lite.Chain.Status.{
  IsCoherent, append-IsCoherent, empty_chain-IsCoherent, event_type-link_to,
}
use adl_lite.Chain.Lattice.{join, status-append}
use adl_lite.Chain.Incremental.{append_keeps_cache}
use adl_lite.Merge.{rebuild}
use adl_lite.Consensus.{Stamp, new_event}
use adl_lite.Document.{
  AdlFrontMatter, AdlDocument, Block, relation_block, evidence_block, seal_block, execution_block,
  ActionBlock, action_event_type, snapshot_payload, restoring_type, exec_payload,
}
use adl_lite.Document.Build.{
  snapshot_event, status_events, block_events, action_event, action_events, parsed_events,
  event_chain,
}

-- The status after the events, joined to one before.
abbrev joined : DiscoveryStatus → List Event → DiscoveryStatus
joined s [] = s
joined s (e ∷ es) = joined (join s e.event_type) es

-- The status after the action blocks, whatever their execution status.
abbrev pub joined_actions : DiscoveryStatus → List ActionBlock → DiscoveryStatus
joined_actions s [] = s
joined_actions s (ab ∷ abs) = joined_actions (join s (action_event_type ab.action)) abs

joined-append :
    (s : DiscoveryStatus) (es fs : List Event) → joined s (es ++ fs) ≡ joined (joined s es) fs
joined-append s [] fs = refl
joined-append s (e ∷ es) fs = joined-append (join s e.event_type) es fs

All-append : (P : Event → Type 0) (es fs : List Event) → All P es → All P fs → All P (es ++ fs)
All-append P [] fs all more = more
All-append P (e ∷ es) fs all more = (all.0, All-append P es fs all.1 more)

module _ ⦃p : Platform⦄ where
  -- An event that an append to a chain of the concept takes.
  abbrev IsTaken : String → Event → Type 0
  IsTaken cid e =
      (str_eq e.concept_id cid ≡ true)
      × ((carries_confidence e.event_type ≡ false)
          ⊎ ((v : ℤ) × (confidence_field e.payload ≡ ok v)))

  payload-link_to : (o : Option Event) (e : Event) → (link_to o e).payload ≡ e.payload
  unfolding link_to rehash
  payload-link_to none e = refl
  payload-link_to (some prev) e = refl

  update_confidence_total :
      (e : Event) (c : EventChain)
      → ((carries_confidence e.event_type ≡ false)
          ⊎ ((v : ℤ) × (confidence_field e.payload ≡ ok v)))
      → (update_confidence e c).0 ≡ ok tt
  unfolding update_confidence
  update_confidence_total e c (inl no_carrier) = rw no_carrier refl
  update_confidence_total e c (inr (v, readable)) = ground (arith, readable)

  append_taken : (e : Event) (c : EventChain) → IsTaken c.concept_id e → (append e c).0 ≡ ok tt
  unfolding append update_crdt_caches
  append_taken e c (same, conf) =
      let linked = link_to (last? c.events) e in
      let conf' : (carries_confidence linked.event_type ≡ false)
          ⊎ ((v : ℤ) × (confidence_field linked.payload ≡ ok v)) =
        elim conf [
          | inl plain ↦ inl (ap carries_confidence (event_type-link_to (last? c.events) e) ∙ plain)
          | inr (v, readable) ↦
              inr (v, ap confidence_field (payload-link_to (last? c.events) e) ∙ readable)
        ] in
      rw same (update_confidence_total linked _ conf')

  append_all_taken :
      (es : List Event) (c : EventChain)
      → IsCoherent c
      → All (IsTaken c.concept_id) es
      → ((append_all es c).0 ≡ ok tt) × (status (append_all es c).1 ≡ joined (status c) es)
  unfolding append_all
  append_all_taken [] c coherent taken = (refl, refl)
  append_all_taken (e ∷ es) c coherent taken =
      let now = append_taken e c taken.0 in
      let (_, _, keeps) = append_keeps_cache e c in
      let (later, shown) =
        append_all_taken es (append e c).1 (append-IsCoherent e c coherent)
          (subst (λ k. All (IsTaken k) es) (sym keeps) taken.1) in
      let joins : status (append e c).1 ≡ join (status c) e.event_type =
        status-append e c coherent ∙ (rw (taken.0.0) refl) in
      rw (now, append_all) (later, shown ∙ ap (λ s. joined s es) joins)

module _ ⦃p : Platform⦄ (stamps : ℕ → Stamp) where
  snapshot_event-IsTaken :
      (cid : String) (fm : AdlFrontMatter) → IsTaken cid (snapshot_event stamps cid fm)
  unfolding snapshot_event snapshot_payload new_event rehash confidence_field to_float get
  snapshot_event-IsTaken cid fm = (eq_refl cid, inr (pos fm.confidence, refl))

  block_events-IsTaken :
      (n : ℕ) (cid : String) (bs : List Block) → All (IsTaken cid) (block_events stamps n cid bs)
  unfolding block_events new_event rehash carries_confidence
  block_events-IsTaken n cid [] = tt
  block_events-IsTaken n cid (relation_block r d ∷ bs) =
      ((eq_refl cid, inl refl), block_events-IsTaken (suc n) cid bs)
  block_events-IsTaken n cid (evidence_block d ∷ bs) =
      ((eq_refl cid, inl refl), block_events-IsTaken (suc n) cid bs)
  block_events-IsTaken n cid (seal_block d ∷ bs) =
      ((eq_refl cid, inl refl), block_events-IsTaken (suc n) cid bs)
  block_events-IsTaken n cid (execution_block d ∷ bs) = block_events-IsTaken n cid bs

  action_events-IsTaken :
      (n : ℕ) (cid : String) (abs : List ActionBlock)
      → All (IsTaken cid) (action_events stamps n cid abs)
  unfolding action_events action_event exec_payload new_event rehash confidence_field get
  action_events-IsTaken n cid [] = tt
  action_events-IsTaken n cid (ab ∷ abs) =
      ((eq_refl cid, inr (pos 0, refl)), action_events-IsTaken (suc n) cid abs)

  joined-action_events :
      (s : DiscoveryStatus) (n : ℕ) (cid : String) (abs : List ActionBlock)
      → joined s (action_events stamps n cid abs) ≡ joined_actions s abs
  unfolding action_events action_event new_event rehash
  joined-action_events s n cid [] = refl
  joined-action_events s n cid (ab ∷ abs) =
      joined-action_events (join s (action_event_type ab.action)) (suc n) cid abs

  joined-block_events :
      (s : DiscoveryStatus) (n : ℕ) (cid : String) (bs : List Block)
      → joined s (block_events stamps n cid bs) ≡ s
  unfolding block_events new_event rehash type_to_status
  joined-block_events s n cid [] = refl
  joined-block_events s n cid (relation_block r d ∷ bs) = joined-block_events s (suc n) cid bs
  joined-block_events s n cid (evidence_block d ∷ bs) = joined-block_events s (suc n) cid bs
  joined-block_events s n cid (seal_block d ∷ bs) = joined-block_events s (suc n) cid bs
  joined-block_events s n cid (execution_block d ∷ bs) = joined-block_events s n cid bs

  -- The event that restores a status is taken, and restores it.
  restored :
      (cid : String) (fm : AdlFrontMatter) (s : DiscoveryStatus)
      → fm.status ≡ s
      → All (IsTaken cid) (status_events stamps cid fm)
        × (joined provisional (status_events stamps cid fm) ≡ s)
  unfolding status_events restoring_type new_event rehash confidence_field to_float get
      type_to_status order carries_confidence
  restored cid fm provisional h = rw h (tt, refl)
  restored cid fm validated h = rw h (((eq_refl cid, inr (pos fm.confidence, refl)), tt), refl)
  restored cid fm deprecated h = rw h (((eq_refl cid, inl refl), tt), refl)
  restored cid fm forked h = rw h (((eq_refl cid, inl refl), tt), refl)
  restored cid fm archived h = rw h (((eq_refl cid, inl refl), tt), refl)

  -- The chain of a document is built without an exception. Its status is that of the front matter,
  -- joined with the status that the action of each block leads to, whatever the execution status
  -- of the block.
  pub document_status :
      (doc : AdlDocument)
      → (c : EventChain) × (event_chain stamps doc ≡ ok c)
        × (status c ≡ joined_actions doc.front_matter.status doc.action_blocks)
  unfolding event_chain rebuild parsed_events empty_chain status type_to_status new_event rehash
  document_status doc =
      let cid = doc.front_matter.adl_id in
      let first = snapshot_event stamps cid doc.front_matter in
      let (status_taken, restores) = restored cid doc.front_matter doc.front_matter.status refl in
      let asserted = block_events stamps 2 cid doc.adl_blocks in
      let n = 2 + length asserted in
      let acted = action_events stamps n cid doc.action_blocks in
      let events = status_events stamps cid doc.front_matter ++ (asserted ++ acted) in
      let taken : All (IsTaken cid) (first ∷ events) = (
        snapshot_event-IsTaken cid doc.front_matter,
        All-append (IsTaken cid) (status_events stamps cid doc.front_matter) (asserted ++ acted)
            status_taken
            (All-append (IsTaken cid) asserted acted (block_events-IsTaken 2 cid doc.adl_blocks)
              (action_events-IsTaken n cid doc.action_blocks)),
      ) in
      let (built, shown) =
        append_all_taken (first ∷ events) (empty_chain cid) (empty_chain-IsCoherent cid) taken in
      (
        (append_all (first ∷ events) (empty_chain cid)).1,
        rw (built, rebuild) refl,
        shown
            ∙ joined-append provisional (status_events stamps cid doc.front_matter)
                (asserted ++ acted)
            ∙ ap (λ s. joined s (asserted ++ acted)) restores
            ∙ joined-append doc.front_matter.status asserted acted
            ∙ ap (λ s. joined s acted)
                (joined-block_events doc.front_matter.status 2 cid doc.adl_blocks)
            ∙ joined-action_events doc.front_matter.status n cid doc.action_blocks,
      )
