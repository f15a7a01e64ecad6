-- ===== src/Precondition.antt =====
-- `Comparator` and `PreconditionRule.check` (adl_lite/models.py).
use Prim.Native.Nat.{Ordering, compare}
use adl_lite.Prelude.{
  ◌*◌, ◌+◌, String, Bool, true, false, ◌&&◌, ◌||◌, not, Option, none, some, List, [], ◌∷◌, str_eq,
  length, if◌then◌else◌,
}
use adl_lite.Prelude.Int.{ℤ, pos, pos_part, neg_part}
use adl_lite.Prelude.Text.{str_lt}
use adl_lite.Payload.{Value, arr, text, num, bool, null, Items, cons, nil}
use adl_lite.Event.{DiscoveryStatus, provisional, validated, deprecated, forked, archived, one}
use adl_lite.Ontology.{status_text}
use adl_lite.Did.Resolver.{strip_prefix}
use adl_lite.Document.{AdlFrontMatter, type_text, mechanism_text}

pub data Comparator : Type 0 where
  eq neq gt gte lt lte is_in exists : Comparator

pub record PreconditionRule : Type 0 where
  pub field_name : String
  pub comparator : Comparator
  pub value : Value

-- A value of a front matter: a number in units of 10⁻⁹, or the names, which nothing is equal to or
-- ordered with.
pub data Actual : Type 0 where
  no_value : Actual
  a_text : String → Actual
  a_number : ℤ → Actual
  a_bool : Bool → Actual
  a_list : List String → Actual
  the_names : Actual

unfoldable pub text_or_missing : Option String → Actual
text_or_missing none = no_value
text_or_missing (some s) = a_text s

-- `l2_template`
unfoldable pub template_of : Value → Actual
template_of (text s) = a_text s
template_of (bool b) = a_bool b
template_of _ = no_value

unfoldable pub status_badge : DiscoveryStatus → String
status_badge provisional = "🟡"
status_badge validated = "🟢"
status_badge deprecated = "🔴"
status_badge forked = "🔵"
status_badge archived = "⚪"

-- `getattr(fm, name, None)`, for the fields and the properties `validator_count`, `status_badge`,
-- `is_public` and `is_private`; a method is not read.
unfoldable pub attribute : String → AdlFrontMatter → Actual
unfolding text_or_missing template_of status_badge status_text type_text mechanism_text strip_prefix
attribute name fm =
    if str_eq name "adl_type"
    then a_text (type_text fm.adl_type)
    else if str_eq name "adl_id"
    then a_text fm.adl_id
    else if str_eq name "status"
    then a_text (status_text fm.status)
    else if str_eq name "confidence"
    then a_number (pos fm.confidence)
    else if str_eq name "novelty"
    then a_number (pos fm.novelty)
    else if str_eq name "domain"
    then a_text fm.domain
    else if str_eq name "mechanism"
    then (elim fm.mechanism [ none ↦ no_value | some m ↦ a_text (mechanism_text m) ])
    else if str_eq name "scope"
    then a_text fm.scope
    else if str_eq name "validators"
    then a_list fm.validators
    else if str_eq name "provisional_names"
    then the_names
    else if str_eq name "evidence_refs"
    then a_list fm.evidence_refs
    else if str_eq name "created_at"
    then text_or_missing fm.created_at
    else if str_eq name "updated_at"
    then text_or_missing fm.updated_at
    else if str_eq name "l2_template"
    then template_of fm.l2_template
    else if str_eq name "validator_count"
    then a_number (pos (length fm.validators * one))
    else if str_eq name "status_badge"
    then a_text (status_badge fm.status)
    else if str_eq name "is_public"
    then a_bool (
        str_eq fm.scope "public"
        || (elim (strip_prefix "public/" fm.scope) [ none ↦ false | some _ ↦ true ]))
    else if str_eq name "is_private"
    then a_bool (elim (strip_prefix "private/" fm.scope) [ none ↦ false | some _ ↦ true ])
    else no_value

-- A Boolean as a number.
unfoldable pub number_of_bool : Bool → ℤ
number_of_bool true = pos one
number_of_bool false = pos 0

unfoldable pub order_of_numbers : ℤ → ℤ → Ordering
order_of_numbers a b = compare (pos_part a + neg_part b) (pos_part b + neg_part a)

unfoldable pub order_of_texts : String → String → Ordering
order_of_texts s t =
    if str_eq s t then Ordering.eq else if str_lt s t then Ordering.lt else Ordering.gt

-- A list of texts against a list of values: the first difference decides.
unfoldable pub order_of_lists : List String → Items → Option Ordering
unfolding order_of_texts
order_of_lists [] nil = some Ordering.eq
order_of_lists [] (cons _ _) = some Ordering.lt
order_of_lists (_ ∷ _) nil = some Ordering.gt
order_of_lists (s ∷ ss) (cons v vs) =
    let rest = order_of_lists ss vs in
    elim v [ text t ↦ if str_eq s t then rest else some (order_of_texts s t) | _ ↦ none ]

-- How `<`, `<=`, `>` and `>=` see two values; `none` is a `TypeError`.
unfoldable pub order_of : Actual → Value → Option Ordering
unfolding number_of_bool order_of_numbers order_of_texts order_of_lists
order_of (a_text s) (text t) = some (order_of_texts s t)
order_of (a_number a) (num b) = some (order_of_numbers a b)
order_of (a_number a) (bool b) = some (order_of_numbers a (number_of_bool b))
order_of (a_bool a) (num b) = some (order_of_numbers (number_of_bool a) b)
order_of (a_bool a) (bool b) = some (order_of_numbers (number_of_bool a) (number_of_bool b))
order_of (a_list ss) (arr vs) = order_of_lists ss vs
order_of _ _ = none

unfoldable pub is_eq : Option Ordering → Bool
is_eq (some Ordering.eq) = true
is_eq _ = false

-- `a == v`
unfoldable pub equals : Actual → Value → Bool
unfolding order_of is_eq
equals no_value null = true
equals a v = is_eq (order_of a v)

unfoldable pub any_equal : Actual → Items → Bool
unfolding equals
any_equal a nil = false
any_equal a (cons v vs) = equals a v || any_equal a vs

-- `actual in target_list`
unfoldable pub in_target : Actual → Value → Bool
unfolding any_equal equals
in_target a (arr vs) = any_equal a vs
in_target a v = equals a v

-- What EQ and NEQ are tried on.
unfoldable pub is_scalar : Actual → Bool
is_scalar no_value = false
is_scalar (a_list _) = false
is_scalar _ = true

unfoldable pub is_there : Actual → Bool
is_there no_value = false
is_there _ = true

-- Whether an ordered comparison of the kind holds.
unfoldable pub holds : Comparator → Option Ordering → Bool
holds gt (some Ordering.gt) = true
holds gte (some Ordering.gt) = true
holds gte (some Ordering.eq) = true
holds lt (some Ordering.lt) = true
holds lte (some Ordering.lt) = true
holds lte (some Ordering.eq) = true
holds _ _ = false

-- `check`
unfoldable pub check : PreconditionRule → AdlFrontMatter → Bool
unfolding attribute order_of equals in_target is_scalar is_there holds
check rule fm =
    let actual = attribute rule.field_name fm in
    elim rule.comparator [
      | exists ↦ is_there actual
      | is_in ↦ in_target actual rule.value
      | eq ↦ is_scalar actual && equals actual rule.value
      | neq ↦ is_scalar actual && not (equals actual rule.value)
      | gt ↦ holds gt (order_of actual rule.value)
      | gte ↦ holds gte (order_of actual rule.value)
      | lt ↦ holds lt (order_of actual rule.value)
      | lte ↦ holds lte (order_of actual rule.value)
    ]
