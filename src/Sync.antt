-- ===== src/Sync.antt =====
-- `SideEffectQueue` (adl_lite/sync_manager.py). `SyncManager` is in Sync/Manager, where `merge` and
-- `push` copy the events that they append; what `pull` does to the events that it does not copy is
-- in Sync/Aliasing. `EdgeNode` is in Sync/Edge.
pub mod Manager
pub mod Edge
pub mod Queue
pub mod Exchange
pub mod Node
pub mod Aliasing
use Prim.Native.Nat.{suc}
use adl_lite.Prelude.{
  ℕ, ◌+◌, String, Bool, true, false, ◌&&◌, ◌||◌, not, Option, none, some, List, [], ◌∷◌, ◌++◌,
  str_eq, length, map, last?, if◌then◌else◌,
}
use adl_lite.Prelude.Dict.{contains}
use adl_lite.Prelude.Text.{str_lt, is_empty}
use adl_lite.Prelude.Result.{Result, ok, err, ◌>>=◌, type_error}
use adl_lite.Payload.{Fields}
use adl_lite.Event.{EventType, Platform, Event}
use adl_lite.Chain.{EventChain, empty_chain, append, link_to}
use adl_lite.Chain.Verify.{Verdict, valid, invalid, raises, verify_integrity}
use adl_lite.Consensus.{Stamp, new_event}
use adl_lite.Merge.{rebuild}

pub record QueuedEffect : Type 0 where
  pub effect_name : String
  pub concept_id : String
  pub params : Fields
  pub created_at : String

-- The registered executor is a parameter of `drain`; `has_executor` says whether there is one.
pub record SideEffectQueue : Type 0 where
  pub queued : List QueuedEffect
  pub has_executor : Bool

unfoldable pub enqueue : QueuedEffect → SideEffectQueue → SideEffectQueue
enqueue effect q = record q { queued = q.queued ++ effect ∷ [] }

-- `enqueue_action`; `now` is the text of the current time.
unfoldable pub enqueue_action :
    String → String → String → Fields → SideEffectQueue → SideEffectQueue
unfolding enqueue
enqueue_action now effect_name concept_id params q =
    enqueue
      (record {
        effect_name = effect_name;
        concept_id = concept_id;
        params = params;
        created_at = now;
      })
      q

unfoldable pub pending : SideEffectQueue → ℕ
pending q = length q.queued

unfoldable pub clear : SideEffectQueue → SideEffectQueue
clear q = record q { queued = [] }

-- The executor acts on the world `S` and may raise.
module _ {S : Type 0} (execute : QueuedEffect → S → Result Bool × S) where
  -- The loop of `drain`: the result with what is left of the queue, and the world.
  unfoldable pub drain_loop :
      Bool
      → List QueuedEffect
      → ℕ
      → ℕ
      → List QueuedEffect
      → S
      → Result (ℕ × ℕ) × List QueuedEffect × S
  drain_loop here [] success failed retry s = (ok (success, failed), retry, s)
  drain_loop here (effect ∷ effects) success failed retry s =
      let unrun = drain_loop here effects success (suc failed) (retry ++ effect ∷ []) s in
      if here
      then (let (r, s') = execute effect s in
          let done = drain_loop here effects (suc success) failed retry s' in
          let undone = drain_loop here effects success (suc failed) (retry ++ effect ∷ []) s' in
          elim r [ err x ↦ (err x, effects, s') | ok b ↦ if b then done else undone ])
      else unrun

  -- `drain`. Where the executor raises, the queue is what the loop had not reached.
  unfoldable pub drain : SideEffectQueue → S → Result (ℕ × ℕ) × SideEffectQueue × S
  unfolding drain_loop
  drain q s =
      let (r, left, s') = drain_loop q.has_executor q.queued 0 0 [] s in
      (r, record q { queued = left }, s')
