-- ===== src/Ontology.antt =====
-- `OntologyManager` (adl_lite/ontology.py) over the mapping that the YAML file holds. A section of
-- the file that is no mapping counts as empty.
use adl_lite.Prelude.{
  ℕ, ◌/◌, ◌≤◌, String, Bool, Option, none, some, List, [], ◌∷◌, ltb, arith, if◌then◌else◌,
}
use adl_lite.Prelude.Int.{ℤ, pos, negsuc}
use adl_lite.Prelude.Dict.{contains}
use adl_lite.Prelude.Result.{ok, err}
use adl_lite.Payload.{list_of, num, text, obj, Items, nil, cons, Fields, end, get, has_truthy}
use adl_lite.Event.{DiscoveryStatus, provisional, validated, deprecated, forked, archived, one}

-- `data.get(key, {})`
unfoldable pub section_of : String → Fields → Fields
section_of k fields = elim (get k fields) [
  | none ↦ end
  | some v ↦ (elim v [ obj fs ↦ fs | _ ↦ end ])
]

-- The texts of a list of values: what a text can be equal to.
unfoldable pub texts : Items → List String
texts nil = []
texts (cons (text s) xs) = s ∷ texts xs
texts (cons _ xs) = texts xs

-- The texts of `list(graph.get(status, []))`. A value that `list` refuses (null, a number or a
-- Boolean) counts as no targets; the code then raises `TypeError`.
unfoldable pub allowed_transitions : Fields → String → List String
unfolding section_of texts list_of
allowed_transitions ontology status = elim (get status (section_of "status_transitions" ontology)) [
  | none ↦ []
  | some v ↦ (elim (list_of v) [ ok xs ↦ texts xs | err _ ↦ [] ])
]

unfoldable pub is_valid_transition : Fields → String → String → Bool
unfolding allowed_transitions
is_valid_transition ontology from_status to_status =
    contains to_status (allowed_transitions ontology from_status)

-- `max(1, int(value))` for a number in units of 10⁻⁹; `int` cuts off towards zero.
unfoldable pub at_least_one : ℤ → ℕ
at_least_one (pos n) = if ltb 1 (n / one) then n / one else 1
at_least_one (negsuc n) = 1

-- `min_distinct_validators`. `int_of_text` is `int` of a text.
unfoldable pub min_distinct_validators : (String → Option ℤ) → Fields → ℕ
unfolding section_of at_least_one
min_distinct_validators int_of_text ontology =
    elim (get "min_distinct_validators" (section_of "collusion_resistance" ontology)) [
      | none ↦ 1
      | some v ↦ (elim v [
        | num n ↦ at_least_one n
        | text s ↦ (elim (int_of_text s) [ none ↦ 1 | some n ↦ at_least_one n ])
        | _ ↦ 1
      ])
    ]

unfoldable pub require_execution_spec_on_register : Fields → Bool
unfolding section_of
require_execution_spec_on_register ontology =
    has_truthy "require_execution_spec_on_register" (section_of "attestation" ontology)

-- `DiscoveryStatus.value`
unfoldable pub status_text : DiscoveryStatus → String
status_text provisional = "provisional"
status_text validated = "validated"
status_text deprecated = "deprecated"
status_text forked = "forked"
status_text archived = "archived"

-- The threshold is at least one, whatever the file says.
pub min_distinct_validators_pos :
    (int_of_text : String → Option ℤ) (ontology : Fields)
    → 1 ≤ min_distinct_validators int_of_text ontology
unfolding min_distinct_validators
min_distinct_validators_pos int_of_text ontology = ground arith
