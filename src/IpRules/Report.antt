-- ===== src/IpRules/Report.antt =====
-- The preflight report of `IpRulesEngine::compile` (src/IpRulesEngine.cpp): its limits, the counts
-- of the enabled rules and of the tables, and the issues. The running maximum of a bucket's range
-- rules is that of the final buckets, since buckets only grow; an issue's message is left out.
use sakamoto_snort.Common.{
  ℕ, ◌+◌, Bool, true, false, ◌&&◌, List, [], ◌∷◌, ◌++◌, ltb, if◌then◌else◌, length,
}
use sakamoto_snort.IpRules.Rule.{Family, RuleDef, has_range_ports}
use sakamoto_snort.IpRules.Family.{Ip}
use sakamoto_snort.IpRules.Family.Masks.{ip_v4, ip_v6}
use sakamoto_snort.IpRules.Signature.{MaskSig, MaskedKey}
use sakamoto_snort.IpRules.Table.{Bucket, Subtable}
use sakamoto_snort.IpRules.Compile.{
  RulesMap, family_eq, Tables, ct_consumer, contains_uid, uids_using_ct, add_rules,
}

pub record PreflightSummary : Type 0 where
  pub rules_total : ℕ
  pub range_rules_total : ℕ
  pub ct_rules_total : ℕ
  pub ct_uids_total : ℕ
  pub subtables_total : ℕ
  pub max_subtables_per_uid : ℕ
  pub max_range_rules_per_bucket : ℕ

pub record LimitSet : Type 0 where
  pub max_rules_total : ℕ
  pub max_subtables_per_uid : ℕ
  pub max_range_rules_per_bucket : ℕ

pub data Scope : Type 0 where
  all_families ipv4_only ipv6_only : Scope

pub data Metric : Type 0 where
  rules_total max_subtables_per_uid max_range_rules_per_bucket : Metric

pub record PreflightIssue : Type 0 where
  pub scope : Scope
  pub metric : Metric
  pub value : ℕ
  pub limit : ℕ

pub record PreflightReport : Type 0 where
  pub summary : PreflightSummary
  pub ipv4 : PreflightSummary
  pub ipv6 : PreflightSummary
  pub warnings : List PreflightIssue
  pub violations : List PreflightIssue

abbrev pub recommended : LimitSet
recommended = record {
  max_rules_total = 1000;
  max_subtables_per_uid = 32;
  max_range_rules_per_bucket = 16;
}

abbrev pub hard : LimitSet
hard = record {
  max_rules_total = 5000;
  max_subtables_per_uid = 64;
  max_range_rules_per_bucket = 64;
}

unfoldable pub is_ok : PreflightReport → Bool
is_ok r = elim r.violations [ [] ↦ true | v ∷ vs ↦ false ]

abbrev pub max_ℕ : ℕ → ℕ → ℕ
max_ℕ a b = if ltb a b then b else a

-- The enabled rules that pass a test.
unfoldable pub count_rules : (RuleDef → Bool) → RulesMap → ℕ
count_rules test [] = 0
count_rules test ((i, st) ∷ rules) =
    let rest = count_rules test rules in if st.def.enabled && test st.def then 1 + rest else rest

unfoldable pub distinct : List ℕ → List ℕ
unfolding contains_uid
distinct [] = []
distinct (u ∷ us) = let rest = distinct us in if contains_uid u us then rest else u ∷ rest

module _ {A : Type 0} where
  unfoldable pub subtables_total_of : Tables A → ℕ
  subtables_total_of [] = 0
  subtables_total_of ((u, subs) ∷ tables) = length subs + subtables_total_of tables

  unfoldable pub max_subtables_of : Tables A → ℕ
  max_subtables_of [] = 0
  max_subtables_of ((u, subs) ∷ tables) = max_ℕ (length subs) (max_subtables_of tables)

  unfoldable pub max_range_of_buckets : List (MaskedKey A × Bucket A) → ℕ
  max_range_of_buckets [] = 0
  max_range_of_buckets ((mk, b) ∷ buckets) =
      max_ℕ (length b.range_enforce + length b.range_would) (max_range_of_buckets buckets)

  unfoldable pub max_range_of_subtables : List (MaskSig × Subtable A) → ℕ
  unfolding max_range_of_buckets
  max_range_of_subtables [] = 0
  max_range_of_subtables ((s, t) ∷ subs) =
      max_ℕ (max_range_of_buckets t.buckets) (max_range_of_subtables subs)

  unfoldable pub max_range_of_tables : Tables A → ℕ
  unfolding max_range_of_subtables
  max_range_of_tables [] = 0
  max_range_of_tables ((u, subs) ∷ tables) =
      max_ℕ (max_range_of_subtables subs) (max_range_of_tables tables)

-- The counts of one family.
unfoldable pub family_summary : {A : Type 0} → Ip A → RulesMap → PreflightSummary
unfolding count_rules distinct uids_using_ct subtables_total_of max_subtables_of max_range_of_tables
    add_rules
family_summary ip rules =
    let tables = add_rules ⦃ip = ip⦄ [] rules in
    let mine : RuleDef → Bool = λ d. family_eq d.family ip.family in
    record {
      rules_total = count_rules mine rules;
      range_rules_total = count_rules (λ d. mine d && has_range_ports d) rules;
      ct_rules_total = count_rules (λ d. mine d && ct_consumer d) rules;
      ct_uids_total = length (distinct (uids_using_ct ip.family rules));
      subtables_total = subtables_total_of tables;
      max_subtables_per_uid = max_subtables_of tables;
      max_range_rules_per_bucket = max_range_of_tables tables;
    }

unfoldable pub total_summary : RulesMap → PreflightSummary → PreflightSummary → PreflightSummary
unfolding count_rules distinct uids_using_ct
total_summary rules v4 v6 = record {
  rules_total = count_rules (λ d. true) rules;
  range_rules_total = count_rules has_range_ports rules;
  ct_rules_total = count_rules ct_consumer rules;
  ct_uids_total =
      length (distinct (uids_using_ct Family.ipv4 rules ++ uids_using_ct Family.ipv6 rules));
  subtables_total = v4.subtables_total + v6.subtables_total;
  max_subtables_per_uid = max_ℕ v4.max_subtables_per_uid v6.max_subtables_per_uid;
  max_range_rules_per_bucket = max_ℕ v4.max_range_rules_per_bucket v6.max_range_rules_per_bucket;
}

-- One `if (value > hard) ... else if (value > recommended) ...`: the warnings and the violations.
unfoldable pub check_limit :
    Scope
    → Metric
    → ℕ
    → ℕ
    → ℕ
    → List PreflightIssue × List PreflightIssue
    → List PreflightIssue × List PreflightIssue
check_limit scope metric value hard_limit recommended_limit (warnings, violations) =
    if ltb hard_limit value
    then (
      warnings,
      violations
          ++ record { scope = scope; metric = metric; value = value; limit = hard_limit } ∷ [],
    )
    else if ltb recommended_limit value
    then (
      warnings
          ++ record { scope = scope; metric = metric; value = value; limit = recommended_limit }
            ∷ [],
      violations,
    )
    else (warnings, violations)

unfoldable pub check_metric :
    Metric
    → ℕ
    → ℕ
    → ℕ
    → ℕ
    → ℕ
    → List PreflightIssue × List PreflightIssue
    → List PreflightIssue × List PreflightIssue
unfolding check_limit
check_metric metric all v4 v6 h r issues =
    check_limit ipv6_only metric v6 h r
      (check_limit ipv4_only metric v4 h r (check_limit all_families metric all h r issues))

unfoldable pub report_of : PreflightSummary → PreflightSummary → PreflightSummary → PreflightReport
unfolding check_metric
report_of all v4 v6 =
    let i₁ =
      check_metric Metric.rules_total all.rules_total v4.rules_total v6.rules_total
        hard.max_rules_total recommended.max_rules_total ([], []) in
    let i₂ =
      check_metric Metric.max_subtables_per_uid all.max_subtables_per_uid v4.max_subtables_per_uid
        v6.max_subtables_per_uid hard.max_subtables_per_uid recommended.max_subtables_per_uid i₁ in
    let i₃ =
      check_metric Metric.max_range_rules_per_bucket all.max_range_rules_per_bucket
        v4.max_range_rules_per_bucket v6.max_range_rules_per_bucket hard.max_range_rules_per_bucket
        recommended.max_range_rules_per_bucket i₂ in
    record { summary = all; ipv4 = v4; ipv6 = v6; warnings = i₃.0; violations = i₃.1 }

unfoldable pub preflight_report : RulesMap → PreflightReport
unfolding family_summary total_summary report_of
preflight_report rules =
    let v4 = family_summary ip_v4 rules in
    let v6 = family_summary ip_v6 rules in report_of (total_summary rules v4 v6) v4 v6
