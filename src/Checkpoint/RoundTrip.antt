-- ===== src/Checkpoint/RoundTrip.antt =====
-- An encoded bundle decodes to itself.
use sakamoto_snort.Common.{◌≤◌, ◌≡◌, refl, true, false, ltb, ◌==◌, ==_iff, arith}
use sakamoto_snort.Checkpoint.Json.{JsonLib, JsonLaws, ok}
use sakamoto_snort.Checkpoint.Bundle.{Bundle}
use sakamoto_snort.Checkpoint.Ranges.{IsBundle, IsAppConfig, IsDomainList}
use sakamoto_snort.Checkpoint.Policy.{
  make_device_config, make_app_config, parse_app_config, make_domain_rules, make_domain_policy,
  make_domain_list, parse_domain_list,
}
use sakamoto_snort.Checkpoint.IpRules.{make_ip_rules}
use sakamoto_snort.Checkpoint.PolicyTrip.{
  parse_device_config-make, parse_app_config-make, parse_domain_rules-make,
  parse_domain_policy-make, parse_domain_list-make,
}
use sakamoto_snort.Checkpoint.IpTrip.{parse_ip_rules-make}
use sakamoto_snort.Checkpoint.Fields.{
  check-inv, known_keys, u32_of, u64_of, string_of, member_of, array_of,
}
use sakamoto_snort.Checkpoint.Valid.{Platform, validate_bundle}
use sakamoto_snort.Checkpoint.Codec.{
  max_slot_bytes, magic, bundle_keys, sections_keys, sections_members, bundle_members, make_bundle,
  parse_bundle, parse_strict_json_object, encode_bundle, decode_bundle,
}

module _ (lib : JsonLib) (laws : JsonLaws lib) where
  parse_bundle-make :
      (b : Bundle) → IsBundle b → b.format_version ≡ 1 → parse_bundle lib (make_bundle lib b) ≡ ok b
  unfolding parse_bundle make_bundle
  parse_bundle-make b (created, device, apps, rules, policy, lists, ip) version =
      let ms = bundle_members lib b in
      let ss = sections_members lib b in
      let is_version : (b.format_version == 1) ≡ true = (==_iff b.format_version 1).1 version in
      rw
        (
          parse_bundle,
          make_bundle,
          known_keys lib laws ms bundle_keys refl refl,
          string_of lib laws ms "magic" magic refl,
          u32_of lib laws ms "formatVersion" b.format_version (omega arith) refl,
          is_version,
          u64_of lib laws ms "createdAt" b.created_at created refl,
          member_of lib laws ms "sections" (lib.of_object ss) refl,
          known_keys lib laws ss sections_keys refl refl,
          member_of lib laws ss "deviceConfig" (make_device_config lib b.device_config) refl,
          member_of lib laws ss "domainRules" (make_domain_rules lib b.domain_rules) refl,
          member_of lib laws ss "domainPolicy" (make_domain_policy lib b.domain_policy) refl,
          member_of lib laws ss "ipRules" (make_ip_rules lib b.ip_rules) refl,
          parse_device_config-make lib laws b.device_config device,
          array_of lib laws ss IsAppConfig "appConfigs" (parse_app_config lib) (make_app_config lib)
              b.app_configs (parse_app_config-make lib laws) apps refl,
          parse_domain_rules-make lib laws b.domain_rules rules,
          parse_domain_policy-make lib laws b.domain_policy policy,
          array_of lib laws ss IsDomainList "domainLists" (parse_domain_list lib)
              (make_domain_list lib) b.domain_lists (parse_domain_list-make lib laws) lists refl,
          parse_ip_rules-make lib laws b.ip_rules ip,
        )
        refl

  valid_version :
      (p : Platform) (b : Bundle) → validate_bundle p b ≡ ok tt → (b.format_version == 1) ≡ true
  unfolding validate_bundle
  valid_version p b h = (check-inv (b.format_version == 1) _ _ _ h).0

  -- A valid bundle whose numbers fit, and whose text is within 64 MiB, is encoded, and decoding the
  -- text gives the bundle back.
  pub decode_bundle-encode_bundle :
      (p : Platform) (b : Bundle)
      → IsBundle b
      → validate_bundle p b ≡ ok tt
      → lib.size (lib.write (make_bundle lib b)) ≤ max_slot_bytes
      → (t : lib.Text) × (encode_bundle lib p b ≡ ok t) × (decode_bundle lib p t ≡ ok b)
  unfolding encode_bundle decode_bundle parse_strict_json_object make_bundle
  decode_bundle-encode_bundle p b fits valid small =
      let t = lib.write (make_bundle lib b) in
      let room : ltb max_slot_bytes (lib.size t) ≡ false = ground arith in
      let version = (==_iff b.format_version 1).0 (valid_version p b valid) in
      (
        t,
        rw (encode_bundle, valid, room) refl,
        rw
            (
              decode_bundle,
              room,
              parse_strict_json_object,
              laws.parse-write (make_bundle lib b),
              laws.of_object-view (bundle_members lib b),
              parse_bundle-make b fits version,
              valid,
            )
            refl,
      )
