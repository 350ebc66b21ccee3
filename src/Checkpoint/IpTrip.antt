-- ===== src/Checkpoint/IpTrip.antt =====
-- The section of the IP rules, read back from what was made of it.
use Prim.Native.String.{String}
use sakamoto_snort.Common.{
  ℕ, ◌%◌, ◌^◌, ◌≤◌, ◌<◌, ◌≡◌, refl, ◌∙◌, true, false, List, [], ◌∷◌, Option, some, All, arith, ltb,
  map, length, ap, ◌==◌,
}
use sakamoto_snort.IpRules.Rule.{
  Family, Action, Direction, IfaceKind, Proto, CtState, CtDirection, PortKind, PortPredicate, Cidr,
  RuleDef, dir_code, iface_code, proto_code, ct_state_code, ct_dir_code,
}
use sakamoto_snort.IpRules.Engine.{PolicySnapshot}
use sakamoto_snort.Checkpoint.Json.{JsonLib, JsonLaws, ok, find_member, require_u32, make_u32_array}
use sakamoto_snort.Checkpoint.Ranges.{IsPort, IsCidrV4, IsCidrV6, IsIpRule, IsIpRules}
use sakamoto_snort.Checkpoint.Enums.{
  named, family_code, action_code, port_kind_code, family_of, action_of, direction_of, iface_of,
  proto_of, ct_state_of, ct_direction_of, port_kind_of,
}
use sakamoto_snort.Checkpoint.IpRules.{
  as_byte, as_address, require_enum, port_predicate_members, port_predicate_keys,
  parse_port_predicate, make_port_predicate, cidr_v4_members, cidr_v4_keys, parse_cidr_v4,
  make_cidr_v4, cidr_v6_members, cidr_v6_keys, parse_cidr_v6, make_cidr_v6, ip_rule_members,
  ip_rule_keys, parse_ip_rule, make_ip_rule, ip_rules_members, ip_rules_keys, parse_ip_rules,
  make_ip_rules,
}
use sakamoto_snort.Checkpoint.Fields.{
  bind-ok, known_keys, bool_of, u32_of, i32_of, string_of, member_of, array_of, as_uint-of_uint,
  parse_items-map,
}

kind_of-code : (k : PortKind) → (port_kind_of (port_kind_code k) ≡ k) × (port_kind_code k ≤ 2)
kind_of-code PortKind.any = (refl, omega arith)
kind_of-code PortKind.exact = (refl, omega arith)
kind_of-code PortKind.range = (refl, omega arith)

-- A code is a byte, and the cast of it gives the enumerator back.
abbrev Names : {A : Type 0} → (A → ℕ) → (ℕ → Option A) → Type 0
Names {A} code value = (a : A) → (code a < 2 ^ 8) × (value (code a % 2 ^ 8) ≡ some a)

family-Names : Names family_code family_of
family-Names Family.ipv4 = (omega arith, refl)
family-Names Family.ipv6 = (omega arith, refl)

action-Names : Names action_code action_of
action-Names Action.allow = (omega arith, refl)
action-Names Action.block = (omega arith, refl)

direction-Names : Names dir_code direction_of
direction-Names Direction.any = (omega arith, refl)
direction-Names Direction.inbound = (omega arith, refl)
direction-Names Direction.outbound = (omega arith, refl)

iface-Names : Names iface_code iface_of
iface-Names IfaceKind.any = (omega arith, refl)
iface-Names IfaceKind.wifi = (omega arith, refl)
iface-Names IfaceKind.mobile_data = (omega arith, refl)
iface-Names IfaceKind.vpn = (omega arith, refl)
iface-Names IfaceKind.unmanaged = (omega arith, refl)

proto-Names : Names proto_code proto_of
proto-Names Proto.any = (omega arith, refl)
proto-Names Proto.tcp = (omega arith, refl)
proto-Names Proto.udp = (omega arith, refl)
proto-Names Proto.icmp = (omega arith, refl)
proto-Names Proto.other = (omega arith, refl)
proto-Names Proto.unknown = (omega arith, refl)

ct_state-Names : Names ct_state_code ct_state_of
ct_state-Names CtState.any = (omega arith, refl)
ct_state-Names CtState.new = (omega arith, refl)
ct_state-Names CtState.established = (omega arith, refl)
ct_state-Names CtState.invalid = (omega arith, refl)

ct_direction-Names : Names ct_dir_code ct_direction_of
ct_direction-Names CtDirection.any = (omega arith, refl)
ct_direction-Names CtDirection.orig = (omega arith, refl)
ct_direction-Names CtDirection.reply = (omega arith, refl)

length-map : {A B : Type 0} (f : A → B) (xs : List A) → length (map f xs) ≡ length xs
length-map f [] = refl
length-map f (x ∷ xs) = omega (arith, length-map f xs)

module _ (lib : JsonLib) (laws : JsonLaws lib) where
  parse_port_predicate-make :
      (p : PortPredicate) → IsPort p → parse_port_predicate lib (make_port_predicate lib p) ≡ ok p
  unfolding parse_port_predicate make_port_predicate
  parse_port_predicate-make p (lo, hi) =
      let ms = port_predicate_members lib p in
      let (kind, low) = kind_of-code p.kind in
      let kind_fits : ltb 2 (port_kind_code p.kind) ≡ false = ground arith in
      let lo_fits : ltb 65535 p.lo ≡ false = ground arith in
      let hi_fits : ltb 65535 p.hi ≡ false = ground arith in
      rw
        (
          parse_port_predicate,
          make_port_predicate,
          known_keys lib laws ms port_predicate_keys refl refl,
          u32_of lib laws ms "kind" (port_kind_code p.kind) (omega arith) refl,
          u32_of lib laws ms "lo" p.lo (omega arith) refl,
          u32_of lib laws ms "hi" p.hi (omega arith) refl,
          kind_fits,
          lo_fits,
          hi_fits,
          kind,
        )
        refl

  parse_cidr_v4-make : (c : Cidr ℕ) → IsCidrV4 c → parse_cidr_v4 lib (make_cidr_v4 lib c) ≡ ok c
  unfolding parse_cidr_v4 make_cidr_v4
  parse_cidr_v4-make c (addr, prefix) =
      let ms = cidr_v4_members lib c in
      let fits : ltb 32 c.prefix ≡ false = ground arith in
      rw
        (
          parse_cidr_v4,
          make_cidr_v4,
          known_keys lib laws ms cidr_v4_keys refl refl,
          bool_of lib laws ms "any" c.any refl,
          u32_of lib laws ms "addr" c.addr addr refl,
          u32_of lib laws ms "prefix" c.prefix (omega arith) refl,
          fits,
        )
        refl

  as_byte-of_uint : (n : ℕ) → n < 2 ^ 8 → as_byte lib (lib.of_uint n) ≡ ok n
  unfolding as_byte
  as_byte-of_uint n h =
      let fits : ltb 255 n ≡ false = ground arith in
      rw (as_byte, as_uint-of_uint lib laws 32 n (omega arith) (omega arith), fits) refl

  as_address-make :
      (xs : List ℕ)
      → length xs ≡ 16
      → All (λ n. n < 2 ^ 8) xs
      → as_address lib (make_u32_array lib xs) ≡ ok xs
  unfolding as_address
  as_address-make xs size all =
      let items = map lib.of_uint xs in
      let sized : length items ≡ 16 = length-map lib.of_uint xs ∙ size in
      let fits : (length items == 16) ≡ true = ground arith in
      rw
        (
          as_address,
          laws.of_array-view items,
          fits,
          parse_items-map lib laws (λ n. n < 2 ^ 8) (as_byte lib) lib.of_uint as_byte-of_uint xs
              all,
        )
        refl

  parse_cidr_v6-make :
      (c : Cidr (List ℕ)) → IsCidrV6 c → parse_cidr_v6 lib (make_cidr_v6 lib c) ≡ ok c
  unfolding parse_cidr_v6 make_cidr_v6
  parse_cidr_v6-make c (size, bytes, prefix) =
      let ms = cidr_v6_members lib c in
      let fits : ltb 128 c.prefix ≡ false = ground arith in
      rw
        (
          parse_cidr_v6,
          make_cidr_v6,
          known_keys lib laws ms cidr_v6_keys refl refl,
          bool_of lib laws ms "any" c.any refl,
          u32_of lib laws ms "prefix" c.prefix (omega arith) refl,
          fits,
          member_of lib laws ms "addr" (make_u32_array lib c.addr) refl,
          as_address-make c.addr size bytes,
        )
        refl

  enum_of :
      {A : Type 0} (code : A → ℕ) (value : ℕ → Option A)
      → Names code value
      → (ms : List (String × lib.Value)) (key : String) (a : A)
      → find_member key ms ≡ some (lib.of_uint (code a))
      → require_enum lib value key (lib.of_object ms) ≡ ok a
  unfolding require_enum
  enum_of code value names ms key a h =
      let (small, back) = names a in
      bind-ok (require_u32 lib key (lib.of_object ms)) _ (code a) _
        (u32_of lib laws ms key (code a) (omega arith) h) (ap named back)

  pub parse_ip_rule-make :
      (r : RuleDef) → IsIpRule r → parse_ip_rule lib (make_ip_rule lib r) ≡ ok r
  unfolding parse_ip_rule make_ip_rule
  parse_ip_rule-make r (id, uid, priority, ifindex, src, dst, src6, dst6, sport, dport) =
      let ms = ip_rule_members lib r in
      rw
        (
          parse_ip_rule,
          make_ip_rule,
          known_keys lib laws ms ip_rule_keys refl refl,
          u32_of lib laws ms "ruleId" r.rule_id id refl,
          u32_of lib laws ms "uid" r.uid uid refl,
          string_of lib laws ms "clientRuleId" r.client_rule_id refl,
          enum_of family_code family_of family-Names ms "family" r.family refl,
          enum_of action_code action_of action-Names ms "action" r.action refl,
          i32_of lib laws ms "priority" r.priority priority refl,
          bool_of lib laws ms "enabled" r.enabled refl,
          bool_of lib laws ms "enforce" r.enforce refl,
          bool_of lib laws ms "log" r.log refl,
          enum_of dir_code direction_of direction-Names ms "dir" r.dir refl,
          enum_of iface_code iface_of iface-Names ms "iface" r.iface refl,
          u32_of lib laws ms "ifindex" r.ifindex ifindex refl,
          enum_of proto_code proto_of proto-Names ms "proto" r.proto refl,
          member_of lib laws ms "src" (make_cidr_v4 lib r.src) refl,
          member_of lib laws ms "dst" (make_cidr_v4 lib r.dst) refl,
          member_of lib laws ms "src6" (make_cidr_v6 lib r.src6) refl,
          member_of lib laws ms "dst6" (make_cidr_v6 lib r.dst6) refl,
          member_of lib laws ms "sport" (make_port_predicate lib r.sport) refl,
          member_of lib laws ms "dport" (make_port_predicate lib r.dport) refl,
          parse_cidr_v4-make r.src src,
          parse_cidr_v4-make r.dst dst,
          parse_cidr_v6-make r.src6 src6,
          parse_cidr_v6-make r.dst6 dst6,
          parse_port_predicate-make r.sport sport,
          parse_port_predicate-make r.dport dport,
          enum_of ct_state_code ct_state_of ct_state-Names ms "ctState" r.ct_state refl,
          enum_of ct_dir_code ct_direction_of ct_direction-Names ms "ctDir" r.ct_dir refl,
        )
        refl

  pub parse_ip_rules-make :
      (p : PolicySnapshot) → IsIpRules p → parse_ip_rules lib (make_ip_rules lib p) ≡ ok p
  unfolding parse_ip_rules make_ip_rules
  parse_ip_rules-make p (next, all) =
      let ms = ip_rules_members lib p in
      rw
        (
          parse_ip_rules,
          make_ip_rules,
          known_keys lib laws ms ip_rules_keys refl refl,
          u32_of lib laws ms "nextRuleId" p.next_rule_id next refl,
          array_of lib laws ms IsIpRule "rules" (parse_ip_rule lib) (make_ip_rule lib) p.rules
              parse_ip_rule-make all refl,
        )
        refl
