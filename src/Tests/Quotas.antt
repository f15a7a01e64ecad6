-- ===== src/Tests/Quotas.antt =====
-- Tests of the quotas (adl_lite/quota.py).
use adl_lite.Prelude.{String, ◌≡◌, ◌↔◌, none, some, [], ◌∷◌}
use adl_lite.Prelude.Int.{pos}
use adl_lite.Quota.{Period, daily, QuotaConfig, get_policy, Usage, check_quota}
use adl_lite.Quota.Enforcement.{IsBelow, check_quota_passes}

abbrev some_usage : String → Period → Usage
some_usage tenant_id period = record { api_calls = 12; registered_entities = 3 }

abbrev ten_calls : QuotaConfig
ten_calls =
    ("acme", record { max_api_calls = some (pos 10); max_entities = none; period = daily }) ∷ []

check_quota_passes_example :
    let policy = get_policy "acme" ten_calls in
    let usage = some_usage "acme" policy.period in
    (check_quota some_usage "acme" ten_calls ≡ none) ↔ (
      IsBelow usage.api_calls policy.max_api_calls
      × IsBelow usage.registered_entities policy.max_entities)
check_quota_passes_example = check_quota_passes some_usage "acme" ten_calls
