-- ===== src/Checkpoint/Valid.antt =====
-- `validateBundle` of src/PolicyCheckpoint.cpp. Every failure has the code `INVALID_ARGUMENT`, so a loop is
-- the conjunction of its tests. Of the platform it uses `HOST_NAME_MAX` and `std::get_time` with the
-- format of `updatedAt`, of the daemon the engine of the IP rules, and `std::regex` for the domain rules.
use sakamoto_snort.Common.{
  ℕ, ◌+◌, Bool, true, false, not, ◌&&◌, ◌||◌, List, [], ◌∷◌, map, ltb, leb, ◌==◌, if◌then◌else◌,
  length,
}
use sakamoto_snort.Domain.Rules.{RegexLib, create}
use sakamoto_snort.IpRules.Engine.{Engine}
use sakamoto_snort.IpRules.Validate.{validate_policy_snapshot}
use sakamoto_snort.Checkpoint.Json.{Result, invalid_argument, ◌>>◌, check}
use sakamoto_snort.Checkpoint.Bundle.{
  DomainRule, PolicyScope, DomainList, Bundle, AppConfig, AppPolicy,
}
use sakamoto_snort.Checkpoint.Masks.{
  is_valid_app_block_mask, is_valid_blocking_list_mask, same_bytes,
}

pub record Platform : Type 1 where
  pub host_name_max : ℕ
  pub is_time : List ℕ → Bool
  pub regexes : RegexLib
  pub engine : Engine

-- `isxdigit` of the C locale.
abbrev pub is_xdigit : ℕ → Bool
is_xdigit c = (leb 48 c && leb c 57) || (leb 65 c && leb c 70) || (leb 97 c && leb c 102)

-- The loop of `isValidGuid36` from the index `i` on; the hyphen is 45.
unfoldable pub guid_chars : ℕ → List ℕ → Bool
guid_chars i [] = true
guid_chars i (c ∷ cs) =
    let rest = guid_chars (i + 1) cs in
    if (i == 8) || (i == 13) || (i == 18) || (i == 23)
    then (if not (c == 45) then false else rest)
    else if not (is_xdigit c)
    then false
    else rest

unfoldable pub is_valid_guid36 : List ℕ → Bool
unfolding guid_chars
is_valid_guid36 guid = if not (length guid == 36) then false else guid_chars 0 guid

unfoldable pub printable : List ℕ → Bool
printable [] = true
printable (c ∷ cs) =
    let rest = printable cs in if (c == 0) || ltb c 32 || (c == 32) then false else rest

abbrev pub is_empty : {A : Type 0} → List A → Bool
is_empty [] = true
is_empty (x ∷ xs) = false

abbrev pub elem : {A : Type 0} → (A → A → Bool) → A → List A → Bool
elem eq x [] = false
elem eq x (y ∷ ys) = let rest = elem eq x ys in eq x y || rest

-- A loop that inserts the key of each item into the set `seen`, fails where it is in it, and tests
-- the item.
unfoldable pub all_fresh :
    {A K : Type 0} → (K → K → Bool) → (A → K) → (A → Bool) → List K → List A → Bool
all_fresh eq key test seen [] = true
all_fresh eq key test seen (x ∷ xs) =
    let rest = all_fresh eq key test (key x ∷ seen) xs in
    if elem eq (key x) seen then false else if not (test x) then false else rest

-- `maxDomainRuleId`
unfoldable pub max_domain_rule_id : List DomainRule → ℕ
max_domain_rule_id [] = 0
max_domain_rule_id (r ∷ rs) =
    let rest = max_domain_rule_id rs in if ltb rest r.rule_id then r.rule_id else rest

module _ (p : Platform) where
  unfoldable pub is_valid_domain_string : List ℕ → Bool
  unfolding printable
  is_valid_domain_string domain =
      if is_empty domain || ltb p.host_name_max (length domain) then false else printable domain

  unfoldable pub is_valid_updated_at : List ℕ → Bool
  is_valid_updated_at updated_at = if is_empty updated_at then true else p.is_time updated_at

  abbrev pub check_domains : List (List ℕ) → Bool
  check_domains domains = all_fresh same_bytes (λ d. d) is_valid_domain_string [] domains

  abbrev pub check_rule_ids : List ℕ → List ℕ → Bool
  check_rule_ids rule_ids ids = all_fresh ◌==◌ (λ i. i) (λ i. elem ◌==◌ i rule_ids) [] ids

  unfoldable pub validate_policy_scope : List ℕ → PolicyScope → Bool
  unfolding all_fresh is_valid_domain_string
  validate_policy_scope rule_ids s =
      if not (check_domains s.allow_domains) || not (check_domains s.block_domains)
      then false
      else if not (check_rule_ids rule_ids s.allow_rule_ids)
          || not (check_rule_ids rule_ids s.block_rule_ids)
      then false
      else true

  unfoldable pub validate_domain_rule : DomainRule → Bool
  validate_domain_rule r = (create p.regexes r.type 0 r.pattern).valid

  -- The tests of a list but for its id's being new.
  unfoldable pub validate_domain_list : DomainList → Bool
  unfolding is_valid_guid36 is_valid_updated_at is_valid_blocking_list_mask all_fresh
      is_valid_domain_string
  validate_domain_list l =
      if not (is_valid_guid36 l.list_id)
      then false
      else if not (is_valid_blocking_list_mask l.mask)
      then false
      else if not (is_valid_updated_at l.updated_at)
      then false
      else if not (l.domains_count == length l.domains)
      then false
      else check_domains l.domains

  unfoldable pub validate_bundle : Bundle → Result (Unit {0})
  validate_bundle b = do
    check (b.format_version == 1) invalid_argument
    check (is_valid_app_block_mask b.device_config.block_mask) invalid_argument
    check
        (all_fresh ◌==◌ AppConfig.uid (λ c. is_valid_app_block_mask c.block_mask) [] b.app_configs)
        invalid_argument
    check (all_fresh ◌==◌ DomainRule.rule_id validate_domain_rule [] b.domain_rules.rules)
        invalid_argument
    check
        (not (
          not (is_empty b.domain_rules.rules)
          && leb b.domain_rules.next_rule_id (max_domain_rule_id b.domain_rules.rules)))
        invalid_argument
    check
        (validate_policy_scope (map DomainRule.rule_id b.domain_rules.rules) b.domain_policy.device)
        invalid_argument
    check
        (all_fresh ◌==◌ AppPolicy.uid
          (λ a. validate_policy_scope (map DomainRule.rule_id b.domain_rules.rules) a.policy) []
          b.domain_policy.apps)
        invalid_argument
    check (all_fresh same_bytes DomainList.list_id validate_domain_list [] b.domain_lists)
        invalid_argument
    check (validate_policy_snapshot b.ip_rules p.engine).ok invalid_argument
