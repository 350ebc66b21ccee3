-- ===== src/Checkpoint/Policy.antt =====
-- The sections of a bundle for the device, the apps and the domain policy: the `make` and `parse`
-- functions of src/PolicyCheckpoint.cpp, and the masks of src/Settings.hpp.
use Prim.Native.String.{String}
use sakamoto_snort.Common.{ℕ, not, ◌||◌, List, [], ◌∷◌, map, ltb}
use sakamoto_snort.Checkpoint.Bundle.{
  DeviceConfig, AppConfig, DomainRule, DomainRules, PolicyScope, AppPolicy, DomainPolicy,
  DomainList,
}
use sakamoto_snort.Checkpoint.Masks.{
  is_valid_app_block_mask, is_valid_blocking_list_mask, parse_rule_type, rule_type_string,
  parse_list_kind, list_kind_string, accept,
}
use sakamoto_snort.Checkpoint.Json.{
  JsonLib, Result, ok, invalid_argument, ◌>>=◌, ◌>>◌, check, reject_unknown_or_duplicate,
  require_member, require_bool, require_u32, require_string, as_string, as_uint, parse_array,
  make_string_array, make_u32_array,
}

abbrev pub policy_scope_keys : List String
policy_scope_keys = "allowDomains" ∷ "blockDomains" ∷ "allowRuleIds" ∷ "blockRuleIds" ∷ []

abbrev pub device_config_keys : List String
device_config_keys =
    "blockEnabled" ∷ "blockMask" ∷ "blockIface" ∷ "reverseDns" ∷ "ipRulesEnabled" ∷ []

abbrev pub app_config_keys : List String
app_config_keys = "uid" ∷ "blockMask" ∷ "blockIface" ∷ "useCustomList" ∷ []

abbrev pub domain_rule_keys : List String
domain_rule_keys = "ruleId" ∷ "type" ∷ "pattern" ∷ []

abbrev pub domain_rules_keys : List String
domain_rules_keys = "nextRuleId" ∷ "rules" ∷ []

abbrev pub app_policy_keys : List String
app_policy_keys = "uid" ∷ "policy" ∷ []

abbrev pub domain_policy_keys : List String
domain_policy_keys = "device" ∷ "apps" ∷ []

abbrev pub domain_list_keys : List String
domain_list_keys =
    "listId" ∷ "listKind" ∷ "mask" ∷ "enabled" ∷ "url" ∷ "name" ∷ "updatedAt" ∷ "etag" ∷ "outdated"
    ∷ "domainsCount" ∷ "domains" ∷ []

module _ (lib : JsonLib) where
  unfoldable pub parse_policy_scope : lib.Value → Result PolicyScope
  parse_policy_scope v = do
    reject_unknown_or_duplicate lib policy_scope_keys v
    allow_domains ← parse_array lib "allowDomains" (as_string lib) v
    block_domains ← parse_array lib "blockDomains" (as_string lib) v
    allow_rule_ids ← parse_array lib "allowRuleIds" (as_uint lib 32) v
    block_rule_ids ← parse_array lib "blockRuleIds" (as_uint lib 32) v
    ok (record {
      allow_domains = allow_domains;
      block_domains = block_domains;
      allow_rule_ids = allow_rule_ids;
      block_rule_ids = block_rule_ids;
    })

  abbrev pub policy_scope_members : PolicyScope → List (String × lib.Value)
  policy_scope_members s =
      ("allowDomains", make_string_array lib s.allow_domains)
      ∷ ("blockDomains", make_string_array lib s.block_domains)
      ∷ ("allowRuleIds", make_u32_array lib s.allow_rule_ids)
      ∷ ("blockRuleIds", make_u32_array lib s.block_rule_ids)
      ∷ []

  unfoldable pub make_policy_scope : PolicyScope → lib.Value
  make_policy_scope s = lib.of_object (policy_scope_members s)

  -- The tests that the configurations of the device and of an app share.
  unfoldable pub check_config : ℕ → ℕ → Result (Unit {0})
  check_config mask iface = do
    check (not (ltb 255 mask || not (is_valid_app_block_mask mask))) invalid_argument
    check (not (ltb 255 iface)) invalid_argument

  unfoldable pub parse_device_config : lib.Value → Result DeviceConfig
  parse_device_config v = do
    reject_unknown_or_duplicate lib device_config_keys v
    block_enabled ← require_bool lib "blockEnabled" v
    mask ← require_u32 lib "blockMask" v
    iface ← require_u32 lib "blockIface" v
    reverse_dns ← require_bool lib "reverseDns" v
    ip_rules_enabled ← require_bool lib "ipRulesEnabled" v
    check_config mask iface
    ok (record {
      block_enabled = block_enabled;
      block_mask = mask;
      block_iface = iface;
      reverse_dns = reverse_dns;
      ip_rules_enabled = ip_rules_enabled;
    })

  abbrev pub device_config_members : DeviceConfig → List (String × lib.Value)
  device_config_members c =
      ("blockEnabled", lib.of_bool c.block_enabled)
      ∷ ("blockMask", lib.of_uint c.block_mask)
      ∷ ("blockIface", lib.of_uint c.block_iface)
      ∷ ("reverseDns", lib.of_bool c.reverse_dns)
      ∷ ("ipRulesEnabled", lib.of_bool c.ip_rules_enabled)
      ∷ []

  unfoldable pub make_device_config : DeviceConfig → lib.Value
  make_device_config c = lib.of_object (device_config_members c)

  unfoldable pub parse_app_config : lib.Value → Result AppConfig
  parse_app_config v = do
    reject_unknown_or_duplicate lib app_config_keys v
    uid ← require_u32 lib "uid" v
    mask ← require_u32 lib "blockMask" v
    iface ← require_u32 lib "blockIface" v
    use_custom_list ← require_bool lib "useCustomList" v
    check_config mask iface
    ok (record {
      uid = uid;
      block_mask = mask;
      block_iface = iface;
      use_custom_list = use_custom_list;
    })

  abbrev pub app_config_members : AppConfig → List (String × lib.Value)
  app_config_members c =
      ("uid", lib.of_uint c.uid)
      ∷ ("blockMask", lib.of_uint c.block_mask)
      ∷ ("blockIface", lib.of_uint c.block_iface)
      ∷ ("useCustomList", lib.of_bool c.use_custom_list)
      ∷ []

  unfoldable pub make_app_config : AppConfig → lib.Value
  make_app_config c = lib.of_object (app_config_members c)

  unfoldable pub parse_domain_rule : lib.Value → Result DomainRule
  parse_domain_rule v = do
    reject_unknown_or_duplicate lib domain_rule_keys v
    rule_id ← require_u32 lib "ruleId" v
    word ← require_string lib "type" v
    type ← accept (parse_rule_type word)
    pattern ← require_string lib "pattern" v
    ok (record { rule_id = rule_id; type = type; pattern = pattern })

  abbrev pub domain_rule_members : DomainRule → List (String × lib.Value)
  domain_rule_members r =
      ("ruleId", lib.of_uint r.rule_id)
      ∷ ("type", lib.of_string (rule_type_string r.type))
      ∷ ("pattern", lib.of_string r.pattern)
      ∷ []

  unfoldable pub make_domain_rule : DomainRule → lib.Value
  make_domain_rule r = lib.of_object (domain_rule_members r)

  unfoldable pub parse_domain_rules : lib.Value → Result DomainRules
  parse_domain_rules v = do
    reject_unknown_or_duplicate lib domain_rules_keys v
    next_rule_id ← require_u32 lib "nextRuleId" v
    rules ← parse_array lib "rules" parse_domain_rule v
    ok (record { next_rule_id = next_rule_id; rules = rules })

  abbrev pub domain_rules_members : DomainRules → List (String × lib.Value)
  domain_rules_members r =
      ("nextRuleId", lib.of_uint r.next_rule_id)
      ∷ ("rules", lib.of_array (map make_domain_rule r.rules))
      ∷ []

  unfoldable pub make_domain_rules : DomainRules → lib.Value
  make_domain_rules r = lib.of_object (domain_rules_members r)

  unfoldable pub parse_app_policy : lib.Value → Result AppPolicy
  parse_app_policy v = do
    reject_unknown_or_duplicate lib app_policy_keys v
    uid ← require_u32 lib "uid" v
    w ← require_member lib "policy" v
    policy ← parse_policy_scope w
    ok (record { uid = uid; policy = policy })

  abbrev pub app_policy_members : AppPolicy → List (String × lib.Value)
  app_policy_members p = ("uid", lib.of_uint p.uid) ∷ ("policy", make_policy_scope p.policy) ∷ []

  unfoldable pub make_app_policy : AppPolicy → lib.Value
  make_app_policy p = lib.of_object (app_policy_members p)

  unfoldable pub parse_domain_policy : lib.Value → Result DomainPolicy
  parse_domain_policy v = do
    reject_unknown_or_duplicate lib domain_policy_keys v
    w ← require_member lib "device" v
    device ← parse_policy_scope w
    apps ← parse_array lib "apps" parse_app_policy v
    ok (record { device = device; apps = apps })

  abbrev pub domain_policy_members : DomainPolicy → List (String × lib.Value)
  domain_policy_members p =
      ("device", make_policy_scope p.device)
      ∷ ("apps", lib.of_array (map make_app_policy p.apps))
      ∷ []

  unfoldable pub make_domain_policy : DomainPolicy → lib.Value
  make_domain_policy p = lib.of_object (domain_policy_members p)

  unfoldable pub parse_domain_list : lib.Value → Result DomainList
  parse_domain_list v = do
    reject_unknown_or_duplicate lib domain_list_keys v
    list_id ← require_string lib "listId" v
    kind ← require_string lib "listKind" v
    color ← accept (parse_list_kind kind)
    mask ← require_u32 lib "mask" v
    enabled ← require_bool lib "enabled" v
    url ← require_string lib "url" v
    name ← require_string lib "name" v
    updated_at ← require_string lib "updatedAt" v
    etag ← require_string lib "etag" v
    outdated ← require_bool lib "outdated" v
    domains_count ← require_u32 lib "domainsCount" v
    domains ← parse_array lib "domains" (as_string lib) v
    check (not (ltb 255 mask || not (is_valid_blocking_list_mask mask))) invalid_argument
    ok (record {
      list_id = list_id;
      color = color;
      mask = mask;
      enabled = enabled;
      url = url;
      name = name;
      updated_at = updated_at;
      etag = etag;
      outdated = outdated;
      domains_count = domains_count;
      domains = domains;
    })

  abbrev pub domain_list_members : DomainList → List (String × lib.Value)
  domain_list_members l =
      ("listId", lib.of_string l.list_id)
      ∷ ("listKind", lib.of_string (list_kind_string l.color))
      ∷ ("mask", lib.of_uint l.mask)
      ∷ ("enabled", lib.of_bool l.enabled)
      ∷ ("url", lib.of_string l.url)
      ∷ ("name", lib.of_string l.name)
      ∷ ("updatedAt", lib.of_string l.updated_at)
      ∷ ("etag", lib.of_string l.etag)
      ∷ ("outdated", lib.of_bool l.outdated)
      ∷ ("domainsCount", lib.of_uint l.domains_count)
      ∷ ("domains", make_string_array lib l.domains)
      ∷ []

  unfoldable pub make_domain_list : DomainList → lib.Value
  make_domain_list l = lib.of_object (domain_list_members l)
