-- ===== src/Checkpoint/Codec.antt =====
-- `encodeBundle`, `decodeBundle` and `parseBundleDocument` of src/PolicyCheckpoint.cpp, with
-- `parseStrictJsonObject` of src/ControlVNextCodec.cpp.
use Prim.Native.String.{String}
use sakamoto_snort.Common.{ℕ, ◌*◌, not, List, [], ◌∷◌, map, none, some, ltb, ◌==◌}
use sakamoto_snort.Checkpoint.Json.{
  JsonLib, object, Result, ok, err, invalid_argument, capacity_exceeded, ◌>>=◌, ◌>>◌, check, codes,
  reject_unknown_or_duplicate, require_member, require_u32, require_u64, require_string,
  parse_array,
}
use sakamoto_snort.Checkpoint.Bundle.{Bundle}
use sakamoto_snort.Checkpoint.Masks.{same_bytes}
use sakamoto_snort.Checkpoint.Policy.{
  make_device_config, parse_device_config, make_app_config, parse_app_config, make_domain_rules,
  parse_domain_rules, make_domain_policy, parse_domain_policy, make_domain_list, parse_domain_list,
}
use sakamoto_snort.Checkpoint.IpRules.{make_ip_rules, parse_ip_rules}
use sakamoto_snort.Checkpoint.Valid.{Platform, validate_bundle}

-- 64 MiB
abbrev pub max_slot_bytes : ℕ
max_slot_bytes = 64 * 1024 * 1024

abbrev pub magic : List ℕ
magic = codes "sucre-snort-policy-checkpoint"

abbrev pub bundle_keys : List String
bundle_keys = "magic" ∷ "formatVersion" ∷ "createdAt" ∷ "sections" ∷ []

abbrev pub sections_keys : List String
sections_keys =
    "deviceConfig" ∷ "appConfigs" ∷ "domainRules" ∷ "domainPolicy" ∷ "domainLists" ∷ "ipRules" ∷ []

module _ (lib : JsonLib) where
  abbrev pub sections_members : Bundle → List (String × lib.Value)
  sections_members b =
      ("deviceConfig", make_device_config lib b.device_config)
      ∷ ("appConfigs", lib.of_array (map (make_app_config lib) b.app_configs))
      ∷ ("domainRules", make_domain_rules lib b.domain_rules)
      ∷ ("domainPolicy", make_domain_policy lib b.domain_policy)
      ∷ ("domainLists", lib.of_array (map (make_domain_list lib) b.domain_lists))
      ∷ ("ipRules", make_ip_rules lib b.ip_rules)
      ∷ []

  abbrev pub bundle_members : Bundle → List (String × lib.Value)
  bundle_members b =
      ("magic", lib.of_string magic)
      ∷ ("formatVersion", lib.of_uint b.format_version)
      ∷ ("createdAt", lib.of_uint b.created_at)
      ∷ ("sections", lib.of_object (sections_members b))
      ∷ []

  -- The document of `encodeBundle`.
  unfoldable pub make_bundle : Bundle → lib.Value
  make_bundle b = lib.of_object (bundle_members b)

  unfoldable pub parse_bundle : lib.Value → Result Bundle
  parse_bundle doc = do
    reject_unknown_or_duplicate lib bundle_keys doc
    word ← require_string lib "magic" doc
    check (same_bytes word magic) invalid_argument
    format_version ← require_u32 lib "formatVersion" doc
    check (format_version == 1) invalid_argument
    created_at ← require_u64 lib "createdAt" doc
    sections ← require_member lib "sections" doc
    reject_unknown_or_duplicate lib sections_keys sections
    device_value ← require_member lib "deviceConfig" sections
    rules_value ← require_member lib "domainRules" sections
    policy_value ← require_member lib "domainPolicy" sections
    ip_value ← require_member lib "ipRules" sections
    device_config ← parse_device_config lib device_value
    app_configs ← parse_array lib "appConfigs" (parse_app_config lib) sections
    domain_rules ← parse_domain_rules lib rules_value
    domain_policy ← parse_domain_policy lib policy_value
    domain_lists ← parse_array lib "domainLists" (parse_domain_list lib) sections
    ip_rules ← parse_ip_rules lib ip_value
    ok (record {
      format_version = format_version;
      created_at = created_at;
      device_config = device_config;
      app_configs = app_configs;
      domain_rules = domain_rules;
      domain_policy = domain_policy;
      domain_lists = domain_lists;
      ip_rules = ip_rules;
    })

  -- Parsed without an error, and an object.
  unfoldable pub parse_strict_json_object : lib.Text → Result lib.Value
  parse_strict_json_object input = elim (lib.parse input) [
    | none ↦ err invalid_argument
    | some doc ↦ elim (lib.view doc) [ object ms ↦ ok doc | _ ↦ err invalid_argument ]
  ]

  module _ (p : Platform) where
    unfoldable pub encode_bundle : Bundle → Result lib.Text
    encode_bundle b = do
      validate_bundle p b
      check (not (ltb max_slot_bytes (lib.size (lib.write (make_bundle b))))) capacity_exceeded
      ok (lib.write (make_bundle b))

    unfoldable pub decode_bundle : lib.Text → Result Bundle
    decode_bundle input = do
      check (not (ltb max_slot_bytes (lib.size input))) capacity_exceeded
      doc ← parse_strict_json_object input
      b ← parse_bundle doc
      validate_bundle p b
      ok b
