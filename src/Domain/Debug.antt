-- ===== src/Domain/Debug.antt =====
-- `evaluateDomainPolicyDebug` of src/App.cpp, with the candidate snapshots of src/CustomRules.cpp and
-- their cap in src/ControlVNextStreamExplain.hpp. A rule's snapshot is its id and a list entry's the
-- domain's key; the names and texts that a stage shows, and the outcome, which follows from
-- `matched`, are left out. `known` is `rulesManager.findThreadSafe(id) != nullptr`.
use sakamoto_snort.Common.{
  ℕ, ◌-◌, Bool, true, false, not, ◌&&◌, ◌||◌, List, [], ◌∷◌, ◌++◌, Option, none, some, bit_and, ltb,
  leb, ◌==◌, if◌then◌else◌, length, take, drop, sort,
}
use sakamoto_snort.Domain.Rules.{RegexLib, CustomRules}
use sakamoto_snort.Domain.Policy.{Color, grey, Domain, exists, Lists, App, Decision, decided}
use sakamoto_snort.Telemetry.Records.{
  DomainPolicySource, custom_whitelist, custom_blacklist, custom_rule_white, custom_rule_black,
  domain_device_wide_authorized, domain_device_wide_blocked, mask_fallback,
}

abbrev pub max_candidates : ℕ
max_candidates = 64

-- `capCandidateSnapshots` without a winning rule, as every caller of the DNS stages has it: the first
-- 63 are kept, and the list is filled up to 64 from where it stands.
unfoldable pub cap_candidates : List ℕ → List ℕ × Bool × Option ℕ
cap_candidates ids = if leb (length ids) max_candidates then (ids, false, none) else (
  take (max_candidates - 1) ids ++ take 1 (drop (max_candidates - 1) ids),
  true,
  some (length ids - max_candidates),
)

unfoldable pub matching_entries : List ℕ → Option Domain → List ℕ
unfolding exists
matching_entries ks none = []
matching_entries ks (some d) = if exists ks d then d.key ∷ [] else []

pub record Stage : Type 0 where
  pub enabled : Bool
  pub evaluated : Bool
  pub matched : Bool
  pub winner : Bool
  pub short_circuited : Bool
  pub entries : List ℕ
  pub rule_ids : List ℕ

-- The result so far, `shortCircuited` and the stages.
pub record Debug : Type 0 where
  pub blocked : Bool
  pub source : DomainPolicySource
  pub rule_id : Option ℕ
  pub stopped : Bool
  pub stages : List Stage

abbrev unseen : Bool → Bool → Stage
unseen enabled stopped = record {
  enabled = enabled;
  evaluated = false;
  matched = false;
  winner = false;
  short_circuited = enabled && stopped;
  entries = [];
  rule_ids = [];
}

abbrev pub first_id : List ℕ → Option ℕ
first_id [] = none
first_id (i ∷ is) = some i

abbrev pub is_empty : List ℕ → Bool
is_empty [] = true
is_empty (i ∷ is) = false

-- `makeListStage`, `makeRuleStage`, the device-wide stages and `appendStage` after each: a stage
-- that is enabled and not short-circuited looks for entries and rules; when it finds one, it wins.
unfoldable pub run_stage : Bool → List ℕ → List ℕ → DomainPolicySource → Bool → Debug → Debug
run_stage enabled entries rules source blocks s =
    let matched = not (is_empty entries) || not (is_empty rules) in
    if not enabled || s.stopped
    then record s { stages = s.stages ++ (unseen enabled s.stopped ∷ []) }
    else record {
      blocked = if matched then blocks else s.blocked;
      source = if matched then source else s.source;
      rule_id = if matched then (if is_empty entries then first_id rules else none) else s.rule_id;
      stopped = matched;
      stages =
          s.stages
          ++ (record {
            enabled = true;
            evaluated = true;
            matched = matched;
            winner = matched;
            short_circuited = false;
            entries = entries;
            rule_ids = rules;
          }
              ∷ []);
    }

-- The stage of the masks, which always wins.
unfoldable pub run_mask_stage : Bool → ℕ → ℕ → Debug → Debug
run_mask_stage enabled app_mask dom_mask s =
    if not enabled || s.stopped
    then record s { stages = s.stages ++ (unseen enabled s.stopped ∷ []) }
    else record {
      blocked = not (bit_and app_mask dom_mask == 0);
      source = mask_fallback;
      rule_id = none;
      stopped = true;
      stages =
          s.stages
          ++ (record {
            enabled = true;
            evaluated = true;
            matched = true;
            winner = true;
            short_circuited = false;
            entries = [];
            rule_ids = [];
          }
              ∷ []);
    }

abbrev pub start : Debug
start = record {
  blocked = false;
  source = mask_fallback;
  rule_id = none;
  stopped = false;
  stages = [];
}

abbrev pub dom_mask : Option Domain → ℕ
dom_mask none = 0
dom_mask (some d) = d.block_mask

-- `result.color` and the decision's fields; `getips` follows from them.
abbrev pub color_of : Bool → Option Domain → Color
color_of enabled none = grey
color_of enabled (some d) = if enabled then d.color else grey

module _ (lib : RegexLib) (known : ℕ → Bool) where
  -- The loop of `matchingExplainSnapshots`.
  unfoldable pub candidates : List ℕ → List (ℕ × lib.Compiled) → List ℕ
  candidates name [] = []
  candidates name (e ∷ es) =
      let rest = candidates name es in
      if not (lib.regex_match name e.1) then rest else if not (known e.0) then rest else e.0 ∷ rest

  unfoldable pub matching_rules : CustomRules lib → Option Domain → List ℕ × Bool × Option ℕ
  unfolding candidates cap_candidates
  matching_rules c none = ([], false, none)
  matching_rules c (some d) = cap_candidates (sort ltb (candidates d.name c.attrib_snap))

  abbrev pub rules_of : CustomRules lib → Option Domain → List ℕ
  rules_of c d = (matching_rules c d).0

  -- The seven stages in a row.
  unfoldable pub run_stages : Bool → Lists lib → App lib → Option Domain → Debug
  run_stages enabled m a d =
      let custom = enabled && a.use_custom_list in
      let s1 =
        run_stage custom (matching_entries a.own.custom_white d) [] custom_whitelist false start in
      let s2 =
        run_stage custom (matching_entries a.own.custom_black d) [] custom_blacklist true s1 in
      let s3 = run_stage custom [] (rules_of a.own.white_rules d) custom_rule_white false s2 in
      let s4 = run_stage custom [] (rules_of a.own.black_rules d) custom_rule_black true s3 in
      let s5 =
        run_stage custom (matching_entries m.custom_white d) (rules_of m.white_rules d)
          domain_device_wide_authorized false s4 in
      let s6 =
        run_stage custom (matching_entries m.custom_black d) (rules_of m.black_rules d)
          domain_device_wide_blocked true s5 in
      run_mask_stage enabled a.app_mask (dom_mask d) s6

  unfoldable pub evaluate_debug : Bool → Lists lib → App lib → Option Domain → Decision lib
  evaluate_debug enabled m a d =
      let s = run_stages enabled m a d in
      decided lib s.blocked (color_of enabled d) s.source s.rule_id

unfoldable pub get_ips : {lib : RegexLib} → Bool → Decision lib → Bool
get_ips get_black_ips r = not r.blocked || get_black_ips
