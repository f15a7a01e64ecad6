-- ===== src/Executor/Transition.antt =====
-- `ActionExecutor._apply_transition` (adl_lite/action_executor.py).
use Prim.Native.Char.{code}
use Prim.Native.String
use adl_lite.Prelude.{
  ℕ, String, Bool, true, false, Option, none, some, List, [], ◌∷◌, str_eq, ◌==◌, is_some,
  if◌then◌else◌,
}
use adl_lite.Prelude.Text.{is_empty, strip}
use adl_lite.Prelude.Result.{Result, ok, err, ◌>>=◌}
use adl_lite.Payload.{text, Fields, field, end, get}
use adl_lite.Event.{DiscoveryStatus, provisional, validated, deprecated, forked, archived, Platform}
use adl_lite.Chain.{EventChain, append}
use adl_lite.Ontology.{status_text}
use adl_lite.Consensus.{Stamp, new_event, status_to_event_type}
use adl_lite.Did.Resolver.{put_first, strip_prefix}
use adl_lite.Document.{AdlDocument, ActionBlock}
use adl_lite.Document.Build.{event_chain, refresh_snapshot}
use adl_lite.Executor.{ActionDef}

-- `transition.split("→")`
unfoldable pub split_arrow : String → List String
unfolding put_first
split_arrow String.[] = "" ∷ []
split_arrow (String.◌∷◌ c s) =
    let rest = split_arrow s in if code c == 0x2192 then "" ∷ rest else put_first c rest

-- `DiscoveryStatus(text)`; `none` is a `ValueError`.
unfoldable pub status_of : String → Option DiscoveryStatus
unfolding status_text
status_of s =
    if str_eq s (status_text provisional)
    then some provisional
    else if str_eq s (status_text validated)
    then some validated
    else if str_eq s (status_text deprecated)
    then some deprecated
    else if str_eq s (status_text forked)
    then some forked
    else if str_eq s (status_text archived)
    then some archived
    else none

-- The status that a declared transition leads to, if it leads to one.
unfoldable pub target_status : Option String → Option DiscoveryStatus
unfolding split_arrow status_of strip
target_status none = none
target_status (some transition) =
    if is_empty transition
    then none
    else elim (split_arrow transition) [ _ ∷ to_st ∷ [] ↦ status_of (strip to_st) | _ ↦ none ]

-- `"validated" in transition`
unfoldable pub names_validated : String → Bool
unfolding strip_prefix
names_validated String.[] = false
names_validated (String.◌∷◌ c s) =
    let rest = names_validated s in
    if is_some (strip_prefix "validated" (String.◌∷◌ c s)) then true else rest

unfoldable pub gives_feedback : Option String → Bool
unfolding names_validated
gives_feedback none = false
gives_feedback (some transition) = names_validated transition

unfoldable pub without : String → Fields → Fields
without k end = end
without k (field j v fs) = let rest = without k fs in if str_eq j k then rest else field j v rest

-- `{"new_status": status, **params}`: a parameter of the name takes the place of the status.
unfoldable pub transition_payload : DiscoveryStatus → Fields → Fields
unfolding status_text without
transition_payload s params =
    field "new_status" (elim (get "new_status" params) [ none ↦ text (status_text s) | some v ↦ v ])
      (without "new_status" params)

unfoldable pub or_else : String → String → String
or_else s other = if is_empty s then other else s

-- `"Action '…' triggered transition …"`
unfoldable pub transition_reason : ActionDef → String
transition_reason def = String.◌++◌ "Action '" (
    String.◌++◌ def.name (
      String.◌++◌ "' triggered transition "
        (elim def.triggers_transition [ none ↦ "" | some t ↦ t ])))

-- The chain after an append that did not raise.
unfoldable pub appended : Result (Unit {0}) × EventChain → Result EventChain
appended (err x, c) = err x
appended (ok _, c) = ok c

-- `stamps` are what the events of the built chain draw, and `stamp` what the new event draws, with
-- the current time.
module _ ⦃p : Platform⦄ (stamps : ℕ → Stamp) (stamp : Stamp) where
  unfoldable pub transition_chain :
      DiscoveryStatus → ActionBlock → ActionDef → AdlDocument → Result EventChain
  unfolding transition_payload or_else transition_reason event_chain appended
  transition_chain s action def doc = do
    c ← event_chain stamps doc
    appended (
        append
          (new_event stamp doc.front_matter.adl_id (status_to_event_type s)
            (or_else action.actor "action-executor")
            (or_else action.reasoning (transition_reason def)) (transition_payload s action.params))
          c)

  -- `_apply_transition`
  unfoldable pub apply_transition : ActionBlock → ActionDef → AdlDocument → Result AdlDocument
  unfolding target_status transition_chain refresh_snapshot
  apply_transition action def doc = elim (target_status def.triggers_transition) [
    | none ↦ ok doc
    | some s ↦ (do
      c ← transition_chain s action def doc
      refresh_snapshot stamps stamp.timestamp c doc)
  ]
