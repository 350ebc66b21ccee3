-- ===== src/Checkpoint/Sound.antt =====
-- What the validation of a bundle ensures.
use sakamoto_snort.Common.{
  ℕ, ◌<◌, ◌≡◌, refl, ap, subst, true, not, ◌&&◌, List, [], ◌∷◌, map, In, All, All-mono, ◌==◌,
  ==_iff, leb, length, arith,
}
use sakamoto_snort.IpRules.Validate.{validate_policy_snapshot}
use sakamoto_snort.Checkpoint.Json.{ok}
use sakamoto_snort.Checkpoint.Bundle.{
  AppConfig, DomainRule, PolicyScope, AppPolicy, DomainList, Bundle,
}
use sakamoto_snort.Checkpoint.Masks.{
  is_valid_app_block_mask, is_valid_blocking_list_mask, same_bytes,
}
use sakamoto_snort.Checkpoint.Valid.{
  Platform, elem, all_fresh, is_empty, max_domain_rule_id, is_valid_domain_string, is_valid_guid36,
  validate_policy_scope, validate_domain_rule, validate_domain_list, validate_bundle,
  is_valid_updated_at,
}
use sakamoto_snort.Checkpoint.Fields.{check-inv, check-last}
use sakamoto_snort.Checkpoint.Distinct.{Distinct, same_bytes-IsEquality, elem-In, all_fresh-lem}

map_id : {A : Type 0} (xs : List A) → map (λ x. x) xs ≡ xs
map_id [] = refl
map_id (x ∷ xs) = ap (λ ys. x ∷ ys) (map_id xs)

max_id-bounds :
    (rs : List DomainRule) (n : ℕ) → max_domain_rule_id rs < n → All (λ r. r.rule_id < n) rs
unfolding max_domain_rule_id
max_id-bounds [] n h = tt
max_id-bounds (r ∷ rs) n h = (ground arith, max_id-bounds rs n (ground arith))

next_id-bounds :
    (rs : List DomainRule) (n : ℕ)
    → not (not (is_empty rs) && leb n (max_domain_rule_id rs)) ≡ true
    → All (λ r. r.rule_id < n) rs
next_id-bounds [] n h = tt
next_id-bounds (r ∷ rs) n h = max_id-bounds (r ∷ rs) n (ground arith)

module _ (p : Platform) where
  -- Names that are valid, none twice.
  abbrev pub AreDomains : List (List ℕ) → Type 0
  AreDomains ds = Distinct ds × All (λ d. is_valid_domain_string p d ≡ true) ds

  -- Ids of rules that exist, none twice.
  abbrev pub AreRuleIds : List ℕ → List ℕ → Type 0
  AreRuleIds rule_ids ids = Distinct ids × All (λ i. In i rule_ids) ids

  abbrev pub IsValidScope : List ℕ → PolicyScope → Type 0
  IsValidScope rule_ids s =
      AreDomains s.allow_domains
      × AreDomains s.block_domains
      × AreRuleIds rule_ids s.allow_rule_ids
      × AreRuleIds rule_ids s.block_rule_ids

  abbrev pub IsValidList : DomainList → Type 0
  IsValidList l =
      (is_valid_guid36 l.list_id ≡ true)
      × (is_valid_blocking_list_mask l.mask ≡ true)
      × (is_valid_updated_at p l.updated_at ≡ true)
      × (l.domains_count ≡ length l.domains)
      × AreDomains l.domains

  abbrev rule_ids_of : Bundle → List ℕ
  rule_ids_of b = map DomainRule.rule_id b.domain_rules.rules

  pub record IsValidBundle (b : Bundle) : Type 0 where
    pub version : b.format_version ≡ 1
    pub device_mask : is_valid_app_block_mask b.device_config.block_mask ≡ true
    pub apps :
        Distinct (map AppConfig.uid b.app_configs)
        × All (λ c. is_valid_app_block_mask c.block_mask ≡ true) b.app_configs
    pub rules :
        Distinct (rule_ids_of b) × All (λ r. validate_domain_rule p r ≡ true) b.domain_rules.rules
    pub next_rule : All (λ r. r.rule_id < b.domain_rules.next_rule_id) b.domain_rules.rules
    pub device_policy : IsValidScope (rule_ids_of b) b.domain_policy.device
    pub app_policies :
        Distinct (map AppPolicy.uid b.domain_policy.apps)
        × All (λ a. IsValidScope (rule_ids_of b) a.policy) b.domain_policy.apps
    pub lists : Distinct (map DomainList.list_id b.domain_lists) × All IsValidList b.domain_lists
    pub ip_rules : (validate_policy_snapshot b.ip_rules p.engine).ok ≡ true

  domains-lem :
      (ds : List (List ℕ))
      → all_fresh same_bytes (λ d. d) (is_valid_domain_string p) [] ds ≡ true
      → AreDomains ds
  domains-lem ds h =
      let (distinct, valid) =
        all_fresh-lem same_bytes same_bytes-IsEquality (λ d. d) (is_valid_domain_string p) ds h in
      (subst Distinct (map_id ds) distinct, valid)

  rule_ids-lem :
      (rule_ids ids : List ℕ)
      → all_fresh ◌==◌ (λ i. i) (λ i. elem ◌==◌ i rule_ids) [] ids ≡ true
      → AreRuleIds rule_ids ids
  rule_ids-lem rule_ids ids h =
      let (distinct, known) =
        all_fresh-lem ◌==◌ ==_iff (λ i. i) (λ i. elem ◌==◌ i rule_ids) ids h in
      (
        subst Distinct (map_id ids) distinct,
        All-mono (λ i. elem ◌==◌ i rule_ids ≡ true) (λ i. In i rule_ids)
            (λ i e. elem-In ◌==◌ ==_iff i rule_ids e) ids known,
      )

  scope-lem :
      (rule_ids : List ℕ) (s : PolicyScope)
      → validate_policy_scope p rule_ids s ≡ true
      → IsValidScope rule_ids s
  unfolding validate_policy_scope
  scope-lem rule_ids s h = (
    domains-lem s.allow_domains (ground arith),
    domains-lem s.block_domains (ground arith),
    rule_ids-lem rule_ids s.allow_rule_ids (ground arith),
    rule_ids-lem rule_ids s.block_rule_ids (ground arith),
  )

  list-lem : (l : DomainList) → validate_domain_list p l ≡ true → IsValidList l
  unfolding validate_domain_list
  list-lem l h =
      (ground arith, ground arith, ground arith, ground arith, domains-lem l.domains (ground arith))

  pub validate_bundle-IsValidBundle : (b : Bundle) → validate_bundle p b ≡ ok tt → IsValidBundle b
  unfolding validate_bundle
  validate_bundle-IsValidBundle b h =
      let ids = rule_ids_of b in
      let (version, h1) = check-inv _ _ _ _ h in
      let (mask, h2) = check-inv _ _ _ _ h1 in
      let (apps, h3) = check-inv _ _ _ _ h2 in
      let (rules, h4) = check-inv _ _ _ _ h3 in
      let (next, h5) = check-inv _ _ _ _ h4 in
      let (device, h6) = check-inv _ _ _ _ h5 in
      let (policies, h7) = check-inv _ _ _ _ h6 in
      let (lists, h8) = check-inv _ _ _ _ h7 in
      let (uids, scopes) =
        all_fresh-lem ◌==◌ ==_iff AppPolicy.uid (λ a. validate_policy_scope p ids a.policy)
          b.domain_policy.apps policies in
      let (list_ids, contents) =
        all_fresh-lem same_bytes same_bytes-IsEquality DomainList.list_id (validate_domain_list p)
          b.domain_lists lists in
      record {
        version = (==_iff b.format_version 1).0 version;
        device_mask = mask;
        apps =
            all_fresh-lem ◌==◌ ==_iff AppConfig.uid (λ c. is_valid_app_block_mask c.block_mask)
              b.app_configs apps;
        rules =
            all_fresh-lem ◌==◌ ==_iff DomainRule.rule_id (validate_domain_rule p)
              b.domain_rules.rules rules;
        next_rule = next_id-bounds b.domain_rules.rules b.domain_rules.next_rule_id next;
        device_policy = scope-lem ids b.domain_policy.device device;
        app_policies = (
          uids,
          All-mono (λ a. validate_policy_scope p ids a.policy ≡ true)
              (λ a. IsValidScope ids a.policy) (λ a e. scope-lem ids a.policy e)
              b.domain_policy.apps scopes,
        );
        lists = (
          list_ids,
          All-mono (λ l. validate_domain_list p l ≡ true) IsValidList list-lem b.domain_lists
              contents,
        );
        ip_rules = check-last _ _ h8;
      }
