-- ===== src/Quota.antt =====
-- Quotas of tenants (adl_lite/quota.py). The usage that the metering store has for a tenant in the
-- current window of a period is a parameter.
pub mod Enforcement
use adl_lite.Prelude.{
  ℕ, String, Bool, true, false, ◌&&◌, not, Option, none, some, List, [], str_eq, is_some,
  if◌then◌else◌,
}
use adl_lite.Prelude.Int.{ℤ, pos, leb_ℤ}
use adl_lite.Prelude.Dict.{Dict, lookup, insert}

pub data Period : Type 0 where
  daily monthly : Period

-- `QuotaPolicy`; a limit of `none` is unlimited.
pub record QuotaPolicy : Type 0 where
  pub max_api_calls : Option ℤ
  pub max_entities : Option ℤ
  pub period : Period

-- `QuotaPolicy()`
unfoldable pub unlimited : QuotaPolicy
unlimited = record { max_api_calls = none; max_entities = none; period = monthly }

-- `QuotaConfig`: the field `_policies`.
abbrev pub QuotaConfig : Type 0
QuotaConfig = Dict QuotaPolicy

-- `get_policy`
unfoldable pub get_policy : String → QuotaConfig → QuotaPolicy
unfolding unlimited
get_policy tenant_id policies = elim (lookup tenant_id policies) [
  | some policy ↦ policy
  | none ↦ (elim (lookup "*" policies) [ some policy ↦ policy | none ↦ unlimited ])
]

-- `set_global`, `set_tenant` and `reset`
unfoldable pub set_global : QuotaPolicy → QuotaConfig → QuotaConfig
set_global policy policies = insert "*" policy policies

unfoldable pub set_tenant : String → QuotaPolicy → QuotaConfig → QuotaConfig
set_tenant tenant_id policy policies = insert tenant_id policy policies

unfoldable pub reset : QuotaConfig → QuotaConfig
reset policies = []

-- `configure_quota`
unfoldable pub configure_quota : String → Option ℤ → Option ℤ → Period → QuotaConfig → QuotaConfig
unfolding set_global set_tenant
configure_quota tenant_id max_api_calls max_entities period policies =
    let policy : QuotaPolicy = record {
      max_api_calls = max_api_calls;
      max_entities = max_entities;
      period = period;
    } in
    if str_eq tenant_id "*"
    then set_global policy policies
    else set_tenant tenant_id policy policies

-- The counters of a `MeteringRecord`.
pub record Usage : Type 0 where
  pub api_calls : ℕ
  pub registered_entities : ℕ

pub data Dimension : Type 0 where
  api_calls_dimension entities_dimension : Dimension

-- What the 429 response of `_quota_exceeded` says.
pub record QuotaExceeded : Type 0 where
  pub which : Dimension
  pub max_value : Option ℤ
  pub current : ℕ
  pub policy : QuotaPolicy

unfoldable pub quota_exceeded : Dimension → QuotaPolicy → Usage → QuotaExceeded
quota_exceeded api_calls_dimension policy usage = record {
  which = api_calls_dimension;
  max_value = policy.max_api_calls;
  current = usage.api_calls;
  policy = policy;
}
quota_exceeded entities_dimension policy usage = record {
  which = entities_dimension;
  max_value = policy.max_entities;
  current = usage.registered_entities;
  policy = policy;
}

-- `max is not None and current >= max`
unfoldable pub is_reached : Option ℤ → ℕ → Bool
is_reached none current = false
is_reached (some limit) current = leb_ℤ limit (pos current)

-- The tests of `check_quota` on a policy and a usage: `none` lets the request pass.
unfoldable pub check_policy : QuotaPolicy → Usage → Option QuotaExceeded
unfolding is_reached quota_exceeded
check_policy policy usage =
    if not (is_some policy.max_api_calls) && not (is_some policy.max_entities)
    then none
    else if is_reached policy.max_api_calls usage.api_calls
    then some (quota_exceeded api_calls_dimension policy usage)
    else if is_reached policy.max_entities usage.registered_entities
    then some (quota_exceeded entities_dimension policy usage)
    else none

-- `check_quota`
unfoldable pub check_quota : (String → Period → Usage) → String → QuotaConfig → Option QuotaExceeded
check_quota usage_of tenant_id policies =
    let policy = get_policy tenant_id policies in
    check_policy policy (usage_of tenant_id policy.period)
