-- ===== src/Checkpoint/PolicyTrip.antt =====
-- The policy sections of a bundle, read back from what was made of them.
use sakamoto_snort.Common.{ℕ, ◌^◌, ◌<◌, ◌≡◌, refl, ◌⊎◌, inl, inr, true, false, arith, ltb}
use sakamoto_snort.Domain.Rules.{RuleType, domain, wildcard, regex}
use sakamoto_snort.Domain.Policy.{Color}
use sakamoto_snort.Checkpoint.Bundle.{
  DeviceConfig, AppConfig, DomainRule, DomainRules, PolicyScope, AppPolicy, DomainPolicy,
  DomainList,
}
use sakamoto_snort.Checkpoint.Ranges.{
  IsScope, IsConfig, IsDeviceConfig, IsAppConfig, IsDomainRules, IsAppPolicy, IsDomainPolicy,
  IsDomainList,
}
use sakamoto_snort.Checkpoint.Json.{JsonLib, JsonLaws, ok}
use sakamoto_snort.Checkpoint.Masks.{
  is_valid_app_block_mask, is_valid_blocking_list_mask, parse_rule_type, rule_type_string, accept,
  parse_list_kind, list_kind_string,
}
use sakamoto_snort.Checkpoint.Policy.{
  policy_scope_members, policy_scope_keys, parse_policy_scope, make_policy_scope,
  device_config_members, device_config_keys, parse_device_config, make_device_config,
  app_config_members, app_config_keys, parse_app_config, make_app_config, domain_rule_members,
  domain_rule_keys, parse_domain_rule, make_domain_rule, domain_rules_members, domain_rules_keys,
  parse_domain_rules, make_domain_rules, app_policy_members, app_policy_keys, parse_app_policy,
  make_app_policy, domain_policy_members, domain_policy_keys, parse_domain_policy,
  make_domain_policy, domain_list_members, domain_list_keys, parse_domain_list, make_domain_list,
  check_config,
}
use sakamoto_snort.Checkpoint.Fields.{
  known_keys, strings_of, u32s_of, bool_of, u32_of, string_of, member_of, array_of,
}

valid_mask-lt : (mask : ℕ) → is_valid_app_block_mask mask ≡ true → mask < 256
unfolding is_valid_app_block_mask
valid_mask-lt mask h = ground arith

valid_list_mask-lt : (mask : ℕ) → is_valid_blocking_list_mask mask ≡ true → mask < 256
unfolding is_valid_blocking_list_mask
valid_list_mask-lt mask h = ground arith

type_of-rule_type_string : (t : RuleType) → accept (parse_rule_type (rule_type_string t)) ≡ ok t
type_of-rule_type_string domain = refl
type_of-rule_type_string wildcard = refl
type_of-rule_type_string regex = refl

kind_of-list_kind_string :
    (c : Color)
    → (c ≡ Color.black) ⊎ (c ≡ Color.white)
    → accept (parse_list_kind (list_kind_string c)) ≡ ok c
kind_of-list_kind_string c (inl e) = rw e refl
kind_of-list_kind_string c (inr e) = rw e refl

module _ (lib : JsonLib) (laws : JsonLaws lib) where
  check_config-ok : (mask iface : ℕ) → IsConfig mask iface → check_config lib mask iface ≡ ok tt
  unfolding check_config
  check_config-ok mask iface (valid, small) =
      let low = valid_mask-lt mask valid in
      let mask_fits : ltb 255 mask ≡ false = ground arith in
      let iface_fits : ltb 255 iface ≡ false = ground arith in
      rw (check_config, mask_fits, valid, iface_fits) refl

  pub parse_policy_scope-make :
      (s : PolicyScope) → IsScope s → parse_policy_scope lib (make_policy_scope lib s) ≡ ok s
  unfolding parse_policy_scope make_policy_scope
  parse_policy_scope-make s (a, b) =
      let ms = policy_scope_members lib s in
      rw
        (
          parse_policy_scope,
          make_policy_scope,
          known_keys lib laws ms policy_scope_keys refl refl,
          strings_of lib laws ms "allowDomains" s.allow_domains refl,
          strings_of lib laws ms "blockDomains" s.block_domains refl,
          u32s_of lib laws ms "allowRuleIds" s.allow_rule_ids a refl,
          u32s_of lib laws ms "blockRuleIds" s.block_rule_ids b refl,
        )
        refl

  pub parse_device_config-make :
      (c : DeviceConfig)
      → IsDeviceConfig c
      → parse_device_config lib (make_device_config lib c) ≡ ok c
  unfolding parse_device_config make_device_config
  parse_device_config-make c (valid, small) =
      let ms = device_config_members lib c in
      let low = valid_mask-lt c.block_mask valid in
      rw
        (
          parse_device_config,
          make_device_config,
          known_keys lib laws ms device_config_keys refl refl,
          bool_of lib laws ms "blockEnabled" c.block_enabled refl,
          u32_of lib laws ms "blockMask" c.block_mask (omega arith) refl,
          u32_of lib laws ms "blockIface" c.block_iface (omega arith) refl,
          bool_of lib laws ms "reverseDns" c.reverse_dns refl,
          bool_of lib laws ms "ipRulesEnabled" c.ip_rules_enabled refl,
          check_config-ok c.block_mask c.block_iface (valid, small),
        )
        refl

  pub parse_app_config-make :
      (c : AppConfig) → IsAppConfig c → parse_app_config lib (make_app_config lib c) ≡ ok c
  unfolding parse_app_config make_app_config
  parse_app_config-make c (uid, (valid, small)) =
      let ms = app_config_members lib c in
      let low = valid_mask-lt c.block_mask valid in
      rw
        (
          parse_app_config,
          make_app_config,
          known_keys lib laws ms app_config_keys refl refl,
          u32_of lib laws ms "uid" c.uid uid refl,
          u32_of lib laws ms "blockMask" c.block_mask (omega arith) refl,
          u32_of lib laws ms "blockIface" c.block_iface (omega arith) refl,
          bool_of lib laws ms "useCustomList" c.use_custom_list refl,
          check_config-ok c.block_mask c.block_iface (valid, small),
        )
        refl

  pub parse_domain_rule-make :
      (r : DomainRule) → r.rule_id < 2 ^ 32 → parse_domain_rule lib (make_domain_rule lib r) ≡ ok r
  unfolding parse_domain_rule make_domain_rule
  parse_domain_rule-make r small =
      let ms = domain_rule_members lib r in
      rw
        (
          parse_domain_rule,
          make_domain_rule,
          known_keys lib laws ms domain_rule_keys refl refl,
          u32_of lib laws ms "ruleId" r.rule_id small refl,
          string_of lib laws ms "type" (rule_type_string r.type) refl,
          type_of-rule_type_string r.type,
          string_of lib laws ms "pattern" r.pattern refl,
        )
        refl

  pub parse_domain_rules-make :
      (r : DomainRules) → IsDomainRules r → parse_domain_rules lib (make_domain_rules lib r) ≡ ok r
  unfolding parse_domain_rules make_domain_rules
  parse_domain_rules-make r (next, all) =
      let ms = domain_rules_members lib r in
      rw
        (
          parse_domain_rules,
          make_domain_rules,
          known_keys lib laws ms domain_rules_keys refl refl,
          u32_of lib laws ms "nextRuleId" r.next_rule_id next refl,
          array_of lib laws ms (λ d. d.rule_id < 2 ^ 32) "rules" (parse_domain_rule lib)
              (make_domain_rule lib) r.rules parse_domain_rule-make all refl,
        )
        refl

  parse_app_policy-make :
      (p : AppPolicy) → IsAppPolicy p → parse_app_policy lib (make_app_policy lib p) ≡ ok p
  unfolding parse_app_policy make_app_policy
  parse_app_policy-make p (uid, scope) =
      let ms = app_policy_members lib p in
      rw
        (
          parse_app_policy,
          make_app_policy,
          known_keys lib laws ms app_policy_keys refl refl,
          u32_of lib laws ms "uid" p.uid uid refl,
          member_of lib laws ms "policy" (make_policy_scope lib p.policy) refl,
          parse_policy_scope-make p.policy scope,
        )
        refl

  pub parse_domain_policy-make :
      (p : DomainPolicy)
      → IsDomainPolicy p
      → parse_domain_policy lib (make_domain_policy lib p) ≡ ok p
  unfolding parse_domain_policy make_domain_policy
  parse_domain_policy-make p (scope, all) =
      let ms = domain_policy_members lib p in
      rw
        (
          parse_domain_policy,
          make_domain_policy,
          known_keys lib laws ms domain_policy_keys refl refl,
          member_of lib laws ms "device" (make_policy_scope lib p.device) refl,
          parse_policy_scope-make p.device scope,
          array_of lib laws ms IsAppPolicy "apps" (parse_app_policy lib) (make_app_policy lib)
              p.apps parse_app_policy-make all refl,
        )
        refl

  pub parse_domain_list-make :
      (l : DomainList) → IsDomainList l → parse_domain_list lib (make_domain_list lib l) ≡ ok l
  unfolding parse_domain_list make_domain_list
  parse_domain_list-make l (kind, valid, small) =
      let ms = domain_list_members lib l in
      let low = valid_list_mask-lt l.mask valid in
      let fits : ltb 255 l.mask ≡ false = ground arith in
      rw
        (
          parse_domain_list,
          make_domain_list,
          known_keys lib laws ms domain_list_keys refl refl,
          string_of lib laws ms "listId" l.list_id refl,
          string_of lib laws ms "listKind" (list_kind_string l.color) refl,
          kind_of-list_kind_string l.color kind,
          u32_of lib laws ms "mask" l.mask (omega arith) refl,
          bool_of lib laws ms "enabled" l.enabled refl,
          string_of lib laws ms "url" l.url refl,
          string_of lib laws ms "name" l.name refl,
          string_of lib laws ms "updatedAt" l.updated_at refl,
          string_of lib laws ms "etag" l.etag refl,
          bool_of lib laws ms "outdated" l.outdated refl,
          u32_of lib laws ms "domainsCount" l.domains_count small refl,
          strings_of lib laws ms "domains" l.domains refl,
          fits,
          valid,
        )
        refl
