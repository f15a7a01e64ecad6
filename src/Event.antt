-- ===== src/Event.antt =====
-- `EventType`, `DiscoveryStatus`, `StatusOrder` and `Event` (adl_lite/models.py, adl_lite/crdt.py).
use adl_lite.Prelude.{ℕ, String, Bool, true, false, Option, none, some, ltb, ◌==◌, if◌then◌else◌}
use adl_lite.Prelude.Int.{ℤ, pos, negsuc}
use adl_lite.Prelude.Result.{Result, ok, err, value_error, type_error}
use adl_lite.Payload.{Value, null, bool, num, text, arr, obj, Fields, get, round_fields}

pub data EventType : Type 0 where
  register validate deprecate fork archive : EventType
  calibrate : EventType
  relate evidence seal revoke : EventType
  announce publish sync_dashboard listen : EventType
  snapshot : EventType
  execute attest exec_anchor challenge : EventType
  agent_register agent_validate agent_update agent_deprecate : EventType
  task_create task_assign task_claim task_submit task_validate task_close : EventType
  message : EventType

pub data DiscoveryStatus : Type 0 where
  provisional validated deprecated forked archived : DiscoveryStatus

-- `StatusOrder[status.name].value`
unfoldable pub order : DiscoveryStatus → ℕ
order provisional = 1
order forked = 2
order validated = 3
order deprecated = 4
order archived = 5

-- `DiscoveryStatus[StatusOrder(order).name]`, for an order from 1 to 5.
unfoldable pub of_order : ℕ → DiscoveryStatus
of_order n =
    if n == 5
    then archived
    else if n == 4
    then deprecated
    else if n == 3
    then validated
    else if n == 2
    then forked
    else provisional

-- The table `type_to_status`.
unfoldable pub type_to_status : EventType → Option DiscoveryStatus
type_to_status register = some provisional
type_to_status validate = some validated
type_to_status deprecate = some deprecated
type_to_status fork = some forked
type_to_status archive = some archived
type_to_status _ = none

-- `datetime`: nanoseconds since `datetime.min`, with or without a time zone.
pub data DateTime : Type 0 where
  aware : ℕ → DateTime
  naive : ℕ → DateTime

-- `a < b` on datetimes; one with and one without a zone raise `TypeError`.
unfoldable pub dt_lt : DateTime → DateTime → Option Bool
dt_lt (aware a) (aware b) = some (ltb a b)
dt_lt (naive a) (naive b) = some (ltb a b)
dt_lt (aware a) (naive b) = none
dt_lt (naive a) (aware b) = none

-- What `Event._compute_hash` hashes.
pub record Content : Type 0 where
  pub event_id : String
  pub concept_id : String
  pub event_type : EventType
  pub actor : String
  pub timestamp : String
  pub payload : Fields
  pub previous_event_id : Option String
  pub prev_hash : String
  pub canon_version : String

-- What the program takes from outside: SHA-256 over the canonical JSON of a content, the parser
-- `datetime.fromisoformat`, and `float` of a text. `none` is a `ValueError`.
pub record Platform : Type 0 where
  pub digest : Content → String
  pub fromisoformat : String → Option DateTime
  pub float_of_text : String → Option ℤ

pub record Event : Type 0 where
  pub event_id : String
  pub concept_id : String
  pub event_type : EventType
  pub actor : String
  pub reasoning : String
  pub timestamp : String
  pub payload : Fields
  pub previous_event_id : Option String
  pub hash : String
  pub signature : String
  pub proof : Option Fields
  pub prev_hash : String

abbrev pub canon_version : String
canon_version = "1.0"

unfoldable pub content : Event → Content
content e = record {
  event_id = e.event_id;
  concept_id = e.concept_id;
  event_type = e.event_type;
  actor = e.actor;
  timestamp = e.timestamp;
  payload = round_fields e.payload;
  previous_event_id = e.previous_event_id;
  prev_hash = e.prev_hash;
  canon_version = canon_version;
}

-- A confidence of 1.0, in units of 10⁻⁹.
abbrev pub one : ℕ
one = 1000000000

module _ ⦃p : Platform⦄ where
  -- `Event._compute_hash`
  unfoldable pub compute_hash : Event → String
  compute_hash e = p.digest (content e)

  -- `event.hash = ""; event.model_post_init(None)`
  unfoldable pub rehash : Event → Event
  rehash e = record e { hash = compute_hash e }

  -- `EventChain._parse_event_dt`
  unfoldable pub parse_event_dt : String → DateTime
  parse_event_dt ts = elim (p.fromisoformat ts) [ none ↦ aware 0 | some dt ↦ dt ]

  -- `float(value)`, for numbers in the range of a float; of a larger `int` it raises.
  unfoldable pub to_float : Value → Result ℤ
  to_float null = err type_error
  to_float (bool true) = ok (pos one)
  to_float (bool false) = ok (pos 0)
  to_float (num n) = ok n
  to_float (text s) = elim (p.float_of_text s) [ none ↦ err value_error | some n ↦ ok n ]
  to_float (arr _) = err type_error
  to_float (obj _) = err type_error

  -- `float(payload.get("confidence", 0.0))`
  unfoldable pub confidence_field : Fields → Result ℤ
  unfolding to_float
  confidence_field fs = elim (get "confidence" fs) [ none ↦ ok (pos 0) | some v ↦ to_float v ]

-- `min(1.0, max(0.0, x))`
unfoldable pub clamp : ℤ → ℕ
clamp (pos n) = if ltb one n then one else n
clamp (negsuc n) = 0
