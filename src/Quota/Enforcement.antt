-- ===== src/Quota/Enforcement.antt =====
-- What `check_quota` and `configure_quota` (adl_lite/quota.py) enforce.
use adl_lite.Prelude.{
  ℕ, ◌<◌, String, ◌≡◌, ◌↔◌, refl, sym, ap, false, Option, none, some, str_eq, eq_iff, is_some,
  arith, inl, inr, Bool-cases, if◌then◌else◌,
}
use adl_lite.Prelude.Int.{ℤ, pos, negsuc}
use adl_lite.Prelude.Dict.{lookup, insert, lookup-insert}
use adl_lite.Quota.{
  Period, QuotaPolicy, QuotaConfig, get_policy, set_global, set_tenant, configure_quota, Usage,
  is_reached, check_policy, check_quota,
}

-- A counter is below a limit, if there is one.
abbrev pub IsBelow : ℕ → Option ℤ → Type 0
IsBelow current none = Unit
IsBelow current (some (pos n)) = current < n
IsBelow current (some (negsuc n)) = ⊥

is_reached-IsBelow : (o : Option ℤ) (n : ℕ) → is_reached o n ≡ false → IsBelow n o
unfolding is_reached
is_reached-IsBelow none n h = tt
is_reached-IsBelow (some (pos m)) n h = ground (arith, h)
is_reached-IsBelow (some (negsuc m)) n h = ground (arith, h)

reached_of_below : (o : Option ℤ) (n : ℕ) → IsBelow n o → is_reached o n ≡ false
unfolding is_reached
reached_of_below none n h = refl
reached_of_below (some (pos m)) n h = ground (arith, h)
reached_of_below (some (negsuc m)) n h = elim h [ ]

reached_of_unlimited : (o : Option ℤ) (n : ℕ) → is_some o ≡ false → is_reached o n ≡ false
unfolding is_reached
reached_of_unlimited none n h = refl
reached_of_unlimited (some m) n h = cc

module _ (policy : QuotaPolicy) (usage : Usage) where
  policy_passes :
      check_policy policy usage ≡ none
      → (is_reached policy.max_api_calls usage.api_calls ≡ false)
        × (is_reached policy.max_entities usage.registered_entities ≡ false)
  unfolding check_policy
  policy_passes h = elim (Bool-cases (is_some policy.max_api_calls)) [
    | inr free ↦ (elim (Bool-cases (is_some policy.max_entities)) [
      | inr free' ↦ (
        reached_of_unlimited policy.max_api_calls _ free,
        reached_of_unlimited policy.max_entities _ free',
      )
      | inl set' ↦
          ground
            (arith, h, free, set', reached_of_unlimited policy.max_api_calls usage.api_calls free)
    ])
    | inl set_ ↦ ground (arith, h, set_)
  ]

  policy_lets_pass :
      is_reached policy.max_api_calls usage.api_calls ≡ false
      → is_reached policy.max_entities usage.registered_entities ≡ false
      → check_policy policy usage ≡ none
  unfolding check_policy
  policy_lets_pass h k = ground (arith, h, k)

-- A request passes the quota exactly when both counters of the tenant, in the period of its
-- effective policy, lie strictly below the limits that are set.
pub check_quota_passes :
    (usage_of : String → Period → Usage) (tenant_id : String) (policies : QuotaConfig)
    → let policy = get_policy tenant_id policies in
      let usage = usage_of tenant_id policy.period in
      (check_quota usage_of tenant_id policies ≡ none) ↔ (
        IsBelow usage.api_calls policy.max_api_calls
        × IsBelow usage.registered_entities policy.max_entities)
unfolding check_quota
check_quota_passes usage_of tenant_id policies =
    let policy = get_policy tenant_id policies in
    let usage = usage_of tenant_id policy.period in
    (
      λ h.
          (let (calls, entities) = policy_passes policy usage h in
            (
              is_reached-IsBelow policy.max_api_calls usage.api_calls calls,
              is_reached-IsBelow policy.max_entities usage.registered_entities entities,
            )),
      λ (calls, entities).
          policy_lets_pass policy usage
            (reached_of_below policy.max_api_calls usage.api_calls calls)
            (reached_of_below policy.max_entities usage.registered_entities entities),
    )

configure_quota_lem :
    (tenant_id : String) (calls entities : Option ℤ) (period : Period) (policies : QuotaConfig)
    → configure_quota tenant_id calls entities period policies
      ≡ insert tenant_id
          (record { max_api_calls = calls; max_entities = entities; period = period })
          policies
unfolding configure_quota set_global set_tenant
configure_quota_lem tenant_id calls entities period policies =
    elim (Bool-cases (str_eq tenant_id "*")) [
      | inl same ↦ rw same (
          ap
            (λ t.
              insert t (record { max_api_calls = calls; max_entities = entities; period = period })
                policies)
            (sym ((eq_iff tenant_id "*").0 same)))
      | inr other ↦ rw other refl
    ]

-- After a configuration for an id, that id has the new policy; another tenant with a policy of its
-- own keeps it, and one without has the new policy if the id is "*", and the one it had if not.
pub get_policy-configure_quota :
    (tenant_id other : String) (calls entities : Option ℤ) (period : Period)
    (policies : QuotaConfig)
    → get_policy other (configure_quota tenant_id calls entities period policies) ≡ (
        if str_eq tenant_id other
        then record { max_api_calls = calls; max_entities = entities; period = period }
        else if is_some (lookup other policies)
        then get_policy other policies
        else if str_eq tenant_id "*"
        then record { max_api_calls = calls; max_entities = entities; period = period }
        else get_policy other policies)
unfolding get_policy
get_policy-configure_quota tenant_id other calls entities period policies =
    let policy : QuotaPolicy = record {
      max_api_calls = calls;
      max_entities = entities;
      period = period;
    } in
    ground (
      arith,
      configure_quota_lem tenant_id calls entities period policies,
      lookup-insert tenant_id other policy policies,
      lookup-insert tenant_id "*" policy policies,
    )
