-- ===== src/Checkpoint/Bundle.antt =====
-- The records of src/PolicyCheckpoint.hpp.
use sakamoto_snort.Common.{ℕ, Bool, List}
use sakamoto_snort.Domain.Rules.{RuleType}
use sakamoto_snort.Domain.Policy.{Color}
use sakamoto_snort.IpRules.Engine.{PolicySnapshot}

pub record DeviceConfig : Type 0 where
  pub block_enabled : Bool
  pub block_mask : ℕ
  pub block_iface : ℕ
  pub reverse_dns : Bool
  pub ip_rules_enabled : Bool

pub record AppConfig : Type 0 where
  pub uid : ℕ
  pub block_mask : ℕ
  pub block_iface : ℕ
  pub use_custom_list : Bool

pub record DomainRule : Type 0 where
  pub rule_id : ℕ
  pub type : RuleType
  pub pattern : List ℕ

pub record DomainRules : Type 0 where
  pub next_rule_id : ℕ
  pub rules : List DomainRule

pub record PolicyScope : Type 0 where
  pub allow_domains : List (List ℕ)
  pub block_domains : List (List ℕ)
  pub allow_rule_ids : List ℕ
  pub block_rule_ids : List ℕ

pub record AppPolicy : Type 0 where
  pub uid : ℕ
  pub policy : PolicyScope

pub record DomainPolicy : Type 0 where
  pub device : PolicyScope
  pub apps : List AppPolicy

pub record DomainList : Type 0 where
  pub list_id : List ℕ
  pub color : Color
  pub mask : ℕ
  pub enabled : Bool
  pub url : List ℕ
  pub name : List ℕ
  pub updated_at : List ℕ
  pub etag : List ℕ
  pub outdated : Bool
  pub domains_count : ℕ
  pub domains : List (List ℕ)

pub record Bundle : Type 0 where
  pub format_version : ℕ
  pub created_at : ℕ
  pub device_config : DeviceConfig
  pub app_configs : List AppConfig
  pub domain_rules : DomainRules
  pub domain_policy : DomainPolicy
  pub domain_lists : List DomainList
  pub ip_rules : PolicySnapshot
