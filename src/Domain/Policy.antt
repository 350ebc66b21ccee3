-- ===== src/Domain/Policy.antt =====
-- The decision on a domain: `CustomList` (src/CustomList.cpp), the device-wide tests of
-- src/DomainManager.cpp, and `blocked`, `blockedWithSource` and `blockedWithSourceAndRuleId` of
-- src/App.cpp. A domain is one object of the manager, known by a number; a null pointer is `none`.
use sakamoto_snort.Common.{
  ℕ, Bool, true, false, not, ◌&&◌, ◌||◌, List, [], ◌∷◌, Option, none, some, bit_and, ◌==◌,
  if◌then◌else◌,
}
use sakamoto_snort.Domain.Rules.{RegexLib, CustomRules, match_name, match_first_rule_id}
use sakamoto_snort.Telemetry.Records.{
  DomainPolicySource, custom_whitelist, custom_blacklist, custom_rule_white, custom_rule_black,
  domain_device_wide_authorized, domain_device_wide_blocked, mask_fallback,
}

pub data Color : Type 0 where
  allc black white grey : Color

pub record Domain : Type 0 where
  pub key : ℕ
  pub name : List ℕ
  pub color : Color
  pub block_mask : ℕ

-- `CustomList`: a set of domains.
unfoldable pub exists : List ℕ → Domain → Bool
exists [] d = false
exists (k ∷ ks) d = let rest = exists ks d in (k == d.key) || rest

abbrev without : ℕ → List ℕ → List ℕ
without k [] = []
without k (j ∷ js) = let rest = without k js in if j == k then rest else j ∷ rest

unfoldable pub add_domain : Domain → List ℕ → List ℕ
unfolding exists
add_domain d ks = if exists ks d then ks else d.key ∷ ks

unfoldable pub remove_domain : Domain → List ℕ → List ℕ
remove_domain d ks = without d.key ks

module _ (lib : RegexLib) where
  -- The lists and rules of an app, or of the whole device.
  pub record Lists : Type 0 where
    pub custom_white : List ℕ
    pub custom_black : List ℕ
    pub white_rules : CustomRules lib
    pub black_rules : CustomRules lib

  pub record App : Type 0 where
    pub use_custom_list : Bool
    pub app_mask : ℕ
    pub own : Lists

  -- `DomainManager::blocked` and `DomainManager::authorized`
  unfoldable pub device_blocked : Lists → Domain → Bool
  device_blocked m d =
      exists m.custom_black d
      || (match_name lib m.black_rules d.name && not (match_name lib m.white_rules d.name))

  unfoldable pub device_authorized : Lists → Domain → Bool
  device_authorized m d = exists m.custom_white d || match_name lib m.white_rules d.name

  unfoldable pub authorized_rule_id : Lists → Domain → Option ℕ
  authorized_rule_id m d =
      if exists m.custom_white d then none else match_first_rule_id lib m.white_rules d.name

  unfoldable pub blocked_rule_id : Lists → Domain → Option ℕ
  blocked_rule_id m d =
      if exists m.custom_black d
      then none
      else if not (match_name lib m.black_rules d.name) || match_name lib m.white_rules d.name
      then none
      else match_first_rule_id lib m.black_rules d.name

  pub record Decision : Type 0 where
    pub blocked : Bool
    pub color : Color
    pub source : DomainPolicySource
    pub rule_id : Option ℕ

  abbrev pub by_mask : App → Domain → Bool
  by_mask a d = not (bit_and a.app_mask d.block_mask == 0)

  -- `App::blocked`; the first Boolean is `settings.blockEnabled()`.
  unfoldable pub app_blocked : Bool → Lists → App → Option Domain → Bool × Color
  app_blocked enabled m a none = (false, grey)
  app_blocked enabled m a (some d) =
      if not enabled
      then (false, grey)
      else if not a.use_custom_list
      then (by_mask a d, d.color)
      else if exists a.own.custom_white d
      then (false, d.color)
      else if exists a.own.custom_black d
      then (true, d.color)
      else if match_name lib a.own.white_rules d.name
      then (false, d.color)
      else if match_name lib a.own.black_rules d.name
      then (true, d.color)
      else if device_authorized m d
      then (false, d.color)
      else if device_blocked m d
      then (true, d.color)
      else (by_mask a d, d.color)

  unfoldable pub blocked_with_source :
      Bool → Lists → App → Option Domain → Bool × Color × DomainPolicySource
  blocked_with_source enabled m a none = (false, grey, mask_fallback)
  blocked_with_source enabled m a (some d) =
      if not enabled
      then (false, grey, mask_fallback)
      else if not a.use_custom_list
      then (by_mask a d, d.color, mask_fallback)
      else if exists a.own.custom_white d
      then (false, d.color, custom_whitelist)
      else if exists a.own.custom_black d
      then (true, d.color, custom_blacklist)
      else if match_name lib a.own.white_rules d.name
      then (false, d.color, custom_rule_white)
      else if match_name lib a.own.black_rules d.name
      then (true, d.color, custom_rule_black)
      else if device_authorized m d
      then (false, d.color, domain_device_wide_authorized)
      else if device_blocked m d
      then (true, d.color, domain_device_wide_blocked)
      else (by_mask a d, d.color, mask_fallback)

  abbrev pub decided : Bool → Color → DomainPolicySource → Option ℕ → Decision
  decided blocked color source id = record {
    blocked = blocked;
    color = color;
    source = source;
    rule_id = id;
  }

  unfoldable pub blocked_with_source_and_rule_id : Bool → Lists → App → Option Domain → Decision
  blocked_with_source_and_rule_id enabled m a none = decided false grey mask_fallback none
  blocked_with_source_and_rule_id enabled m a (some d) =
      if not enabled
      then decided false grey mask_fallback none
      else if not a.use_custom_list
      then decided (by_mask a d) d.color mask_fallback none
      else if exists a.own.custom_white d
      then decided false d.color custom_whitelist none
      else if exists a.own.custom_black d
      then decided true d.color custom_blacklist none
      else if match_name lib a.own.white_rules d.name
      then decided false d.color custom_rule_white
          (match_first_rule_id lib a.own.white_rules d.name)
      else if match_name lib a.own.black_rules d.name
      then decided true d.color custom_rule_black (match_first_rule_id lib a.own.black_rules d.name)
      else if device_authorized m d
      then decided false d.color domain_device_wide_authorized (authorized_rule_id m d)
      else if device_blocked m d
      then decided true d.color domain_device_wide_blocked (blocked_rule_id m d)
      else decided (by_mask a d) d.color mask_fallback none
