-- ===== src/Sync/Edge.antt =====
-- `EdgeNode` (adl_lite/sync_manager.py).
use Prim.Native.Nat.{suc}
use adl_lite.Prelude.{
  ℕ, String, Bool, true, false, Option, none, some, List, [], ◌∷◌, length, last?, if◌then◌else◌,
}
use adl_lite.Prelude.Text.{is_empty}
use adl_lite.Prelude.Result.{Result, ok, err, ◌>>=◌, type_error}
use adl_lite.Payload.{Fields}
use adl_lite.Event.{EventType, Platform, Event}
use adl_lite.Chain.{EventChain, empty_chain, append, link_to}
use adl_lite.Chain.Verify.{Verdict, valid, invalid, raises, verify_integrity}
use adl_lite.Consensus.{Stamp, new_event}
use adl_lite.Sync.{QueuedEffect, SideEffectQueue, enqueue_action, drain}
use adl_lite.Sync.Manager.{pull}

pub record EdgeNode : Type 0 where
  pub concept_id : String
  pub node_id : String
  pub chain : EventChain
  pub queue : SideEffectQueue
  pub online : Bool

-- `EdgeNode(concept_id, node_id)`
unfoldable pub new_node : String → String → EdgeNode
new_node concept_id node_id = record {
  concept_id = concept_id;
  node_id = node_id;
  chain = empty_chain concept_id;
  queue = record { queued = []; has_executor = false };
  online = true;
}

-- `_try_effect`: no effect is built in.
unfoldable pub try_effect : String → String → Fields → Bool
try_effect effect_name concept_id params = false

-- The loop over the side effects of `record_event`; the answer of `_try_effect` is not used. The
-- queued effect of position `k` reads the clock itself, and `clock k` is the text of what it reads.
unfoldable pub handle_effects : (ℕ → String) → ℕ → List String → Fields → EdgeNode → EdgeNode
unfolding enqueue_action
handle_effects clock k [] payload n = n
handle_effects clock k (se ∷ ses) payload n = handle_effects clock (suc k) ses payload (
    if n.online
    then n
    else record n { queue = enqueue_action (clock k) se n.concept_id payload n.queue })

module _ ⦃p : Platform⦄ where
  -- `clock` is what the queued effects read, later than the time of the stamp.
  unfoldable pub record_event :
      Stamp
      → (ℕ → String)
      → EventType
      → Fields
      → Option String
      → String
      → List String
      → EdgeNode
      → Result Event × EdgeNode
  unfolding handle_effects
  record_event stamp clock et payload actor reasoning side_effects n =
      let who : String = elim actor [
        | none ↦ n.node_id
        | some a ↦ if is_empty a then n.node_id else a
      ] in
      let event = new_event stamp n.concept_id et who reasoning payload in
      let (r, chain') = append event n.chain in
      let n' = record n { chain = chain' } in
      elim r [
        | err x ↦ (err x, n')
        | ok _ ↦ (
          ok (link_to (last? n.chain.events) event),
          handle_effects clock 0 side_effects payload n',
        )
      ]

  -- The chain that `go_online` leaves: that of `pull`, verified, if the center has events. Where
  -- `pull` raises, the chain counts as kept.
  unfoldable pub synced : Option EventChain → EventChain → Result (Option Verdict) × EventChain
  unfolding pull
  synced none chain = (ok none, chain)
  synced (some center) chain =
      let pulled = pull chain center in
      elim center.events [
        | [] ↦ (ok none, chain)
        | _ ∷ _ ↦ (elim pulled [
          | err x ↦ (err x, chain)
          | ok c ↦ (let (v, c') = verify_integrity c in (ok (some v), c'))
        ])
      ]

unfoldable pub go_offline : EdgeNode → EdgeNode
go_offline n = record n { online = false }

-- The dictionary that `go_online` returns; `none` stands for a key that is not there.
pub record Summary : Type 0 where
  pub chains_synced : Bool
  pub integrity_ok : Option Bool
  pub chain_length : Option ℕ
  pub effects_drained : ℕ

module _ ⦃p : Platform⦄ {S : Type 0} (execute : QueuedEffect → S → Result Bool × S) where
  -- The end of `go_online`: the queued effects are drained.
  unfoldable pub drain_node :
      Bool → Option Bool → Option ℕ → EdgeNode → S → Result Summary × EdgeNode × S
  unfolding drain
  drain_node chains_synced integrity_ok chain_length n s =
      let (r, q, s') = drain execute n.queue s in
      (
        (do
          counts ← r
          ok (record {
            chains_synced = chains_synced;
            integrity_ok = integrity_ok;
            chain_length = chain_length;
            effects_drained = counts.0;
          })),
        record n { queue = q },
        s',
      )

  unfoldable pub go_online : Option EventChain → EdgeNode → S → Result Summary × EdgeNode × S
  unfolding drain_node synced
  go_online center n s =
      let (r, chain') = synced center n.chain in
      let n' = record n { online = true; chain = chain' } in
      elim r [
        | err x ↦ (err x, n', s)
        | ok none ↦ drain_node false none none n' s
        | ok (some raises) ↦ (err type_error, n', s)
        | ok (some valid) ↦ drain_node true (some true) (some (length chain'.events)) n' s
        | ok (some invalid) ↦ drain_node true (some false) (some (length chain'.events)) n' s
      ]
