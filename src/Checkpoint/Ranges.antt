-- ===== src/Checkpoint/Ranges.antt =====
-- The bundles whose numbers fit the machine integers and the limits of src/PolicyCheckpoint.hpp, as those
-- of a running daemon do.
use sakamoto_snort.Common.{ℕ, ◌^◌, ◌≤◌, ◌<◌, ◌≡◌, ◌⊎◌, true, List, All, length}
use sakamoto_snort.IpRules.Rule.{PortPredicate, Cidr, RuleDef}
use sakamoto_snort.IpRules.Engine.{PolicySnapshot}
use sakamoto_snort.Domain.Policy.{Color}
use sakamoto_snort.Checkpoint.Json.{is_i32}
use sakamoto_snort.Checkpoint.Bundle.{
  DeviceConfig, AppConfig, DomainRules, PolicyScope, AppPolicy, DomainPolicy, DomainList, Bundle,
}
use sakamoto_snort.Checkpoint.Masks.{is_valid_app_block_mask, is_valid_blocking_list_mask}

abbrev pub IsScope : PolicyScope → Type 0
IsScope s = All (λ n. n < 2 ^ 32) s.allow_rule_ids × All (λ n. n < 2 ^ 32) s.block_rule_ids

-- A valid mask and a byte of interfaces.
abbrev pub IsConfig : ℕ → ℕ → Type 0
IsConfig mask iface = (is_valid_app_block_mask mask ≡ true) × (iface < 2 ^ 8)

abbrev pub IsDeviceConfig : DeviceConfig → Type 0
IsDeviceConfig c = IsConfig c.block_mask c.block_iface

abbrev pub IsAppConfig : AppConfig → Type 0
IsAppConfig c = (c.uid < 2 ^ 32) × IsConfig c.block_mask c.block_iface

abbrev pub IsDomainRules : DomainRules → Type 0
IsDomainRules r = (r.next_rule_id < 2 ^ 32) × All (λ d. d.rule_id < 2 ^ 32) r.rules

abbrev pub IsAppPolicy : AppPolicy → Type 0
IsAppPolicy p = (p.uid < 2 ^ 32) × IsScope p.policy

abbrev pub IsDomainPolicy : DomainPolicy → Type 0
IsDomainPolicy p = IsScope p.device × All IsAppPolicy p.apps

-- The lists of the manager block or allow.
abbrev pub IsDomainList : DomainList → Type 0
IsDomainList l =
    ((l.color ≡ Color.black) ⊎ (l.color ≡ Color.white))
    × (is_valid_blocking_list_mask l.mask ≡ true)
    × (l.domains_count < 2 ^ 32)

abbrev pub IsPort : PortPredicate → Type 0
IsPort p = (p.lo < 2 ^ 16) × (p.hi < 2 ^ 16)

abbrev pub IsCidrV4 : Cidr ℕ → Type 0
IsCidrV4 c = (c.addr < 2 ^ 32) × (c.prefix ≤ 32)

abbrev pub IsCidrV6 : Cidr (List ℕ) → Type 0
IsCidrV6 c = (length c.addr ≡ 16) × All (λ n. n < 2 ^ 8) c.addr × (c.prefix ≤ 128)

abbrev pub IsIpRule : RuleDef → Type 0
IsIpRule r =
    (r.rule_id < 2 ^ 32)
    × (r.uid < 2 ^ 32)
    × (is_i32 r.priority ≡ true)
    × (r.ifindex < 2 ^ 32)
    × IsCidrV4 r.src
    × IsCidrV4 r.dst
    × IsCidrV6 r.src6
    × IsCidrV6 r.dst6
    × IsPort r.sport
    × IsPort r.dport

abbrev pub IsIpRules : PolicySnapshot → Type 0
IsIpRules p = (p.next_rule_id < 2 ^ 32) × All IsIpRule p.rules

abbrev pub IsBundle : Bundle → Type 0
IsBundle b =
    (b.created_at < 2 ^ 64)
    × IsDeviceConfig b.device_config
    × All IsAppConfig b.app_configs
    × IsDomainRules b.domain_rules
    × IsDomainPolicy b.domain_policy
    × All IsDomainList b.domain_lists
    × IsIpRules b.ip_rules
