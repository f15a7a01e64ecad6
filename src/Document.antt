-- ===== src/Document.antt =====
-- `ADLFrontMatter`, `ADLDocument` and `EventChain.from_parsed` (adl_lite/models.py): the chain that
-- is built from a parsed document, and the front matter that is derived from a chain.
pub mod Build
pub mod Status
use Prim.Native.Nat.{suc}
use Prim.Native.String
use adl_lite.Prelude.{
  ℕ, ◌+◌, String, Bool, true, false, Option, none, some, List, [], ◌∷◌, ◌++◌, last?, length,
  if◌then◌else◌,
}
use adl_lite.Prelude.Int.{ℤ, pos}
use adl_lite.Prelude.Dict.{Dict, lookup}
use adl_lite.Prelude.Result.{Result, ok, err, ◌>>=◌}
use adl_lite.Payload.{Value, obj, text, num, bool, null, Fields, field, end}
use adl_lite.Event.{
  EventType, register, validate, deprecate, fork, archive, calibrate, relate, evidence, seal,
  revoke, announce, publish, sync_dashboard, listen, snapshot, execute, attest, exec_anchor,
  challenge, agent_register, agent_validate, agent_update, agent_deprecate, task_create,
  task_assign, task_claim, task_submit, task_validate, task_close, message, DiscoveryStatus,
  provisional, validated, deprecated, forked, archived, Platform, Event,
}
use adl_lite.Chain.{EventChain, confidence, status, validators}
use adl_lite.Consensus.{Stamp, new_event}
use adl_lite.Merge.{rebuild}

pub data AdlType : Type 0 where
  discovery_type concept_type relation_type evidence_type formal_seal_type : AdlType

unfoldable pub type_text : AdlType → String
type_text discovery_type = "discovery"
type_text concept_type = "concept"
type_text relation_type = "relation"
type_text evidence_type = "evidence"
type_text formal_seal_type = "formal_seal"

pub data MechanismType : Type 0 where
  isomorphic_mapping analogical_transfer compositional_blend : MechanismType
  abstract_generalisation emergent_pattern : MechanismType

unfoldable pub mechanism_text : MechanismType → String
mechanism_text isomorphic_mapping = "isomorphic_mapping"
mechanism_text analogical_transfer = "analogical_transfer"
mechanism_text compositional_blend = "compositional_blend"
mechanism_text abstract_generalisation = "abstract_generalisation"
mechanism_text emergent_pattern = "emergent_pattern"

pub record ProvisionalNames : Type 0 where
  pub zh : Option String
  pub en : Option String

-- A confidence and a novelty lie between 0 and 1, in units of 10⁻⁹. `l2_template` is a text, a
-- Boolean or `None`.
pub record AdlFrontMatter : Type 0 where
  pub adl_type : AdlType
  pub adl_id : String
  pub status : DiscoveryStatus
  pub confidence : ℕ
  pub novelty : ℕ
  pub domain : String
  pub mechanism : Option MechanismType
  pub scope : String
  pub validators : List String
  pub provisional_names : ProvisionalNames
  pub evidence_refs : List String
  pub created_at : Option String
  pub updated_at : Option String
  pub l2_template : Value

-- A block of the third level; `Fields` is its `model_dump()`.
pub data Block : Type 0 where
  relation_block : String → Fields → Block
  evidence_block : Fields → Block
  seal_block : Fields → Block
  execution_block : Fields → Block

pub data ActionExecStatus : Type 0 where
  pending executed failed reverted : ActionExecStatus

unfoldable pub exec_text : ActionExecStatus → String
exec_text pending = "pending"
exec_text executed = "executed"
exec_text failed = "failed"
exec_text reverted = "reverted"

-- The time and the detail of an entry are not modelled.
pub record ExecutionEntry : Type 0 where
  pub side_effect : String
  pub success : Bool

pub record ActionBlock : Type 0 where
  pub action_block_id : String
  pub action : String
  pub actor : String
  pub reasoning : String
  pub params : Fields
  pub exec_status : ActionExecStatus
  pub execution_log : List ExecutionEntry

pub record AdlDocument : Type 0 where
  pub front_matter : AdlFrontMatter
  pub adl_blocks : List Block
  pub action_blocks : List ActionBlock

-- `EventType._value2member_map_`
abbrev pub event_type_members : Dict EventType
event_type_members =
    ("register", register)
    ∷ ("validate", validate)
    ∷ ("deprecate", deprecate)
    ∷ ("fork", fork)
    ∷ ("archive", archive)
    ∷ ("calibrate", calibrate)
    ∷ ("relate", relate)
    ∷ ("evidence", evidence)
    ∷ ("seal", seal)
    ∷ ("revoke", revoke)
    ∷ ("announce", announce)
    ∷ ("publish", publish)
    ∷ ("sync_dashboard", sync_dashboard)
    ∷ ("listen", listen)
    ∷ ("snapshot", snapshot)
    ∷ ("execute", execute)
    ∷ ("attest", attest)
    ∷ ("exec_anchor", exec_anchor)
    ∷ ("challenge", challenge)
    ∷ ("agent_register", agent_register)
    ∷ ("agent_validate", agent_validate)
    ∷ ("agent_update", agent_update)
    ∷ ("agent_deprecate", agent_deprecate)
    ∷ ("task_create", task_create)
    ∷ ("task_assign", task_assign)
    ∷ ("task_claim", task_claim)
    ∷ ("task_submit", task_submit)
    ∷ ("task_validate", task_validate)
    ∷ ("task_close", task_close)
    ∷ ("message", message)
    ∷ []

-- The type of the event of an action block.
unfoldable pub action_event_type : String → EventType
action_event_type action = elim (lookup action event_type_members) [
  | none ↦ announce
  | some et ↦ et
]

unfoldable pub name_value : Option String → Value
name_value none = null
name_value (some s) = text s

-- The lifecycle event that restores a status.
unfoldable pub restoring_type : DiscoveryStatus → Option EventType
restoring_type provisional = none
restoring_type validated = some validate
restoring_type deprecated = some deprecate
restoring_type forked = some fork
restoring_type archived = some archive

unfoldable pub exec_payload : ActionBlock → Fields
unfolding exec_text
exec_payload ab =
    field "action" (text ab.action)
      (field "params" (obj ab.params) (field "exec_status" (text (exec_text ab.exec_status)) end))

unfoldable pub snapshot_payload : AdlFrontMatter → Fields
unfolding type_text name_value
snapshot_payload fm = field "adl_type" (text (type_text fm.adl_type)) (
    field "confidence" (num (pos fm.confidence)) (
      field "novelty" (num (pos fm.novelty)) (
        field "domain" (text fm.domain) (
          field "scope" (text fm.scope) (
            field "synthetic" (bool true) (
              field "provisional_names"
                (obj (
                  field "zh" (name_value fm.provisional_names.zh)
                    (field "en" (name_value fm.provisional_names.en) end)))
                end))))))
