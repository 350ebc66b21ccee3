-- ===== src/Tests/Rules.antt =====
-- A rule that blocks HTTPS for an app, one that would block a range of ports, and a packet.
use sakamoto_snort.Common.{
  ℕ, ◌≡◌, refl, true, false, List, [], ◌∷◌, none, some, arith, ◌+◌, pos, ◌↔◌, inl,
}
use sakamoto_snort.IpRules.Rule.{
  Family, Action, Direction, IfaceKind, Proto, CtState, CtDirection, PortKind, PortPredicate, Cidr,
  RuleDef, PacketKey, matches, port_matches,
}
use sakamoto_snort.IpRules.Family.{
  cidr_v4_matches, mask_from_prefix, cidr_v6_matches, mask_ip_v6, bytes_eq,
}
use sakamoto_snort.IpRules.Family.Masks.{ip_v4, ip_v6, cidr_v6_matches-mask_ip_v6}
use sakamoto_snort.IpRules.Table.{Lane, evaluate, rule_matches, lookup_best, no_priority}
use sakamoto_snort.IpRules.Sentinel.{lookup_best-sentinel}
use sakamoto_snort.IpRules.Correct.Best.{Covers}
use sakamoto_snort.IpRules.Correct.Found.{lookup_best-Covers}
use sakamoto_snort.IpRules.Compile.{RulesMap, compile_views, rule_ref}
use sakamoto_snort.IpRules.Correct.Verdict.{Decides, evaluate-Decides}
use sakamoto_snort.IpRules.Report.{PreflightSummary, is_ok, report_of}
use sakamoto_snort.IpRules.Limits.{IsWithin, report_of-is_ok}
use sakamoto_snort.IpRules.Engine.{
  Engine, PolicySnapshot, initial, reset_all, wrap, remove_rule, enable_rule,
  restore_policy_snapshot,
}
use sakamoto_snort.IpRules.Published.{
  IsPublished, IsAtomic, initial-IsPublished, reset_all-IsPublished, remove_rule-IsPublished,
  enable_rule-IsPublished, restore_policy_snapshot-IsPublished,
}
use sakamoto_snort.IpRules.Replace.{ApplyRule, replace_rules_for_uid}
use sakamoto_snort.IpRules.Replaced.{IsReplacement, replace_rules_for_uid-IsReplacement}
use sakamoto_snort.Ipv6.Walker.{Parsed, parse_ipv6_l4}
use sakamoto_snort.Ipv6.Sound.{IsSound, parse_ipv6_l4-IsSound}

abbrev any_port : PortPredicate
any_port = record { kind = PortKind.any; lo = 0; hi = 0 }

abbrev any_v4 : Cidr ℕ
any_v4 = record { any = true; addr = 0; prefix = 0 }

abbrev zeros : List ℕ
zeros = 0 ∷ 0 ∷ 0 ∷ 0 ∷ 0 ∷ 0 ∷ 0 ∷ 0 ∷ 0 ∷ 0 ∷ 0 ∷ 0 ∷ 0 ∷ 0 ∷ 0 ∷ 0 ∷ []

abbrev any_v6 : Cidr (List ℕ)
any_v6 = record { any = true; addr = zeros; prefix = 0 }

abbrev pub block_https : RuleDef
block_https = record {
  rule_id = 3;
  uid = 10001;
  client_rule_id = 104 ∷ [];
  family = Family.ipv4;
  action = Action.block;
  priority = pos 100;
  enabled = true;
  enforce = true;
  log = true;
  dir = Direction.outbound;
  iface = IfaceKind.any;
  ifindex = 0;
  proto = Proto.tcp;
  src = any_v4;
  dst = record { any = false; addr = 0x0A000000; prefix = 8 };
  src6 = any_v6;
  dst6 = any_v6;
  sport = any_port;
  dport = record { kind = PortKind.exact; lo = 443; hi = 443 };
  ct_state = CtState.any;
  ct_dir = CtDirection.any;
}

abbrev would_block_high : RuleDef
would_block_high = record block_https {
  rule_id = 5;
  enforce = false;
  priority = pos 7;
  dport = record { kind = PortKind.range; lo = 400; hi = 500 };
}

abbrev pub two_rules : RulesMap
two_rules =
    (3, record { def = block_https; stats = 1 })
    ∷ (5, record { def = would_block_high; stats = 2 })
    ∷ []

abbrev pub https_packet : PacketKey ℕ
https_packet = record {
  uid = 10001;
  dir = 1;
  iface_kind = 1;
  proto = 6;
  ifindex = 4;
  src_ip = 0xC0A80002;
  dst_ip = 0x0A010203;
  src_port = 50000;
  dst_port = 443;
  ports_available = 1;
  ct_state = 0;
  ct_dir = 0;
}

evaluate-Decides_example :
    Decides ip_v4 two_rules https_packet
      (evaluate ⦃ip = ip_v4⦄ (compile_views ⦃ip = ip_v4⦄ two_rules) https_packet)
evaluate-Decides_example =
    evaluate-Decides ⦃ip = ip_v4⦄ two_rules https_packet
      (
        (
          record {
            src_prefix = omega arith;
            dst_prefix = omega arith;
            src_addr = refl;
            dst_addr = refl;
          },
          omega arith,
        ),
        (
          (
            record {
              src_prefix = omega arith;
              dst_prefix = omega arith;
              src_addr = refl;
              dst_addr = refl;
            },
            omega arith,
          ),
          tt,
        ),
      )
      (record { src_addr = refl; dst_addr = refl })

abbrev doc_prefix : Cidr (List ℕ)
doc_prefix = record {
  any = false;
  addr = 0x20 ∷ 0x01 ∷ 0x0D ∷ 0xB8 ∷ 0 ∷ 0 ∷ 0 ∷ 0 ∷ 0 ∷ 0 ∷ 0 ∷ 0 ∷ 0 ∷ 0 ∷ 0 ∷ 0 ∷ [];
  prefix = 33;
}

cidr_v6_matches-mask_ip_v6_example :
    cidr_v6_matches doc_prefix zeros
    ≡ bytes_eq (mask_ip_v6 33 zeros) (mask_ip_v6 33 doc_prefix.addr)
cidr_v6_matches-mask_ip_v6_example =
    cidr_v6_matches-mask_ip_v6 doc_prefix zeros refl (omega arith) refl refl

abbrev two_defs : PolicySnapshot
two_defs = record { next_rule_id = 6; rules = block_https ∷ would_block_high ∷ [] }

abbrev loaded : Engine
loaded = (restore_policy_snapshot two_defs initial).0

restore_policy_snapshot-IsPublished_example :
    IsPublished (restore_policy_snapshot two_defs initial).0
    × IsAtomic initial (restore_policy_snapshot two_defs initial)
restore_policy_snapshot-IsPublished_example =
    restore_policy_snapshot-IsPublished two_defs initial initial-IsPublished

remove_rule-IsPublished_example :
    IsPublished (remove_rule 3 loaded).0 × IsAtomic loaded (remove_rule 3 loaded)
remove_rule-IsPublished_example =
    remove_rule-IsPublished 3 loaded
      (restore_policy_snapshot-IsPublished two_defs initial initial-IsPublished).0

enable_rule-IsPublished_example :
    IsPublished (enable_rule 3 false loaded).0 × IsAtomic loaded (enable_rule 3 false loaded)
enable_rule-IsPublished_example =
    enable_rule-IsPublished 3 false loaded
      (restore_policy_snapshot-IsPublished two_defs initial initial-IsPublished).0

reset_all-IsPublished_example :
    IsPublished (reset_all loaded).0
    × ((reset_all loaded).1.ok ≡ true)
    × ((reset_all loaded).0.rules ≡ [])
    × ((reset_all loaded).0.next_rule_id ≡ 0)
    × ((reset_all loaded).0.rules_epoch ≡ wrap 64 (loaded.rules_epoch + 1))
reset_all-IsPublished_example = reset_all-IsPublished loaded

abbrev counts : ℕ → PreflightSummary
counts n = record {
  rules_total = n;
  range_rules_total = 1;
  ct_rules_total = 0;
  ct_uids_total = 0;
  subtables_total = 2;
  max_subtables_per_uid = 2;
  max_range_rules_per_bucket = 1;
}

report_of-is_ok_example :
    (is_ok (report_of (counts 5001) (counts 5000) (counts 1)) ≡ true)
    ↔ (IsWithin (counts 5001) × IsWithin (counts 5000) × IsWithin (counts 1))
report_of-is_ok_example = report_of-is_ok (counts 5001) (counts 5000) (counts 1)

-- A destination-options header, and a UDP header after it.
abbrev options_and_udp : List ℕ
options_and_udp = 17 ∷ 0 ∷ 1 ∷ 4 ∷ 0 ∷ 0 ∷ 0 ∷ 0 ∷ 0xC3 ∷ 0x50 ∷ 0 ∷ 53 ∷ 0 ∷ 8 ∷ 0 ∷ 0 ∷ []

parse_ipv6_l4-IsSound_example :
    (p : Parsed) × (parse_ipv6_l4 60 options_and_udp ≡ some p) × IsSound 16 p
parse_ipv6_l4-IsSound_example = parse_ipv6_l4-IsSound 60 options_and_udp

abbrev least_rule : RuleDef
least_rule = record block_https { priority = no_priority }

abbrev least_rules : RulesMap
least_rules =
    (3, record { def = least_rule; stats = 1 })
    ∷ (5, record { def = would_block_high; stats = 2 })
    ∷ []

least_rule_matches :
    rule_matches ⦃ip = ip_v4⦄
      (rule_ref ⦃ip = ip_v4⦄ (record { def = least_rule; stats = 1 }))
      https_packet
    ≡ true
unfolding rule_ref matches port_matches cidr_v4_matches mask_from_prefix
least_rule_matches = refl

lookup_best-sentinel_example :
    lookup_best ⦃ip = ip_v4⦄ Lane.enforcing (compile_views ⦃ip = ip_v4⦄ least_rules) https_packet
    ≡ none
lookup_best-sentinel_example =
    lookup_best-sentinel ⦃ip = ip_v4⦄ Lane.enforcing least_rules https_packet
      (λ e. refl, (λ e. cc, tt))

https_matches :
    rule_matches ⦃ip = ip_v4⦄
      (rule_ref ⦃ip = ip_v4⦄ (record { def = block_https; stats = 1 }))
      https_packet
    ≡ true
unfolding rule_ref matches port_matches cidr_v4_matches mask_from_prefix
https_matches = refl

lookup_best-Covers_example :
    Covers ⦃ip = ip_v4⦄ https_packet
      (rule_ref ⦃ip = ip_v4⦄ (record { def = block_https; stats = 1 }))
      (lookup_best ⦃ip = ip_v4⦄ Lane.enforcing (compile_views ⦃ip = ip_v4⦄ two_rules) https_packet)
lookup_best-Covers_example =
    lookup_best-Covers ⦃ip = ip_v4⦄ two_rules https_packet
      (
        record {
          src_prefix = omega arith;
          dst_prefix = omega arith;
          src_addr = refl;
          dst_addr = refl;
        },
        (
          record {
            src_prefix = omega arith;
            dst_prefix = omega arith;
            src_addr = refl;
            dst_addr = refl;
          },
          tt,
        ),
      )
      (record { src_addr = refl; dst_addr = refl }) 3 (record { def = block_https; stats = 1 })
      (inl refl) (refl, refl) https_matches (omega arith)

-- The rule of the first set under the client id `h`, and a new one under `i`.
abbrev https_rule : ApplyRule
https_rule = record {
  client_rule_id = 104 ∷ [];
  family = Family.ipv4;
  action = Action.block;
  priority = pos 100;
  enabled = true;
  enforce = true;
  log = true;
  dir = Direction.outbound;
  iface = IfaceKind.any;
  ifindex = 0;
  proto = Proto.tcp;
  src = any_v4;
  dst = any_v4;
  src6 = any_v6;
  dst6 = any_v6;
  sport = any_port;
  dport = any_port;
  ct_state = CtState.any;
  ct_dir = CtDirection.any;
}

abbrev new_rules : List ApplyRule
new_rules = https_rule ∷ record https_rule { client_rule_id = 105 ∷ [] } ∷ []

replace_rules_for_uid-IsReplacement_example :
    IsReplacement 10001 loaded (replace_rules_for_uid 10001 new_rules loaded)
replace_rules_for_uid-IsReplacement_example =
    replace_rules_for_uid-IsReplacement 10001 new_rules loaded
      (restore_policy_snapshot-IsPublished two_defs initial initial-IsPublished).0
