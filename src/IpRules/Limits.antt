-- ===== src/IpRules/Limits.antt =====
-- When a preflight report has no violations.
use sakamoto_snort.Common.{
  ℕ, ◌≤◌, ◌≡◌, refl, inl, inr, ◌↔◌, true, List, [], ◌∷◌, ◌++◌, arith, ltb, Bool-cases,
}
use sakamoto_snort.IpRules.Report.{
  PreflightSummary, PreflightIssue, PreflightReport, Scope, Metric, is_ok, check_limit,
  check_metric, count_rules, distinct, subtables_total_of, max_subtables_of, max_range_of_tables,
  report_of, preflight_report, family_summary, total_summary,
}
use sakamoto_snort.IpRules.Compile.{add_rules, uids_using_ct}

append_one : {A : Type 0} (x : A) (xs : List A) → ¬ (xs ++ x ∷ [] ≡ [])
append_one x [] h = cc
append_one x (y ∷ xs) h = cc

check_limit_iff :
    (scope : Scope) (metric : Metric) (v h r : ℕ) (w vs : List PreflightIssue)
    → ((check_limit scope metric v h r (w, vs)).1 ≡ []) ↔ ((vs ≡ []) × (v ≤ h))
unfolding check_limit
check_limit_iff scope metric v h r w vs = elim (Bool-cases (ltb h v)) [
  | inl over ↦ rw over ((λ e. absurd (append_one _ vs e)), (λ p. absurd (ground arith)))
  | inr under ↦ elim (Bool-cases (ltb r v)) [
    | inl warn ↦ rw (under, warn) ((λ e. (e, ground arith)), (λ p. p.0))
    | inr fine ↦ rw (under, fine) ((λ e. (e, ground arith)), (λ p. p.0))
  ]
]

abbrev pub IsWithin : PreflightSummary → Type 0
IsWithin s =
    (s.rules_total ≤ 5000) × (s.max_subtables_per_uid ≤ 64) × (s.max_range_rules_per_bucket ≤ 64)

check_metric_iff :
    (metric : Metric) (all v4 v6 h r : ℕ) (issues : List PreflightIssue × List PreflightIssue)
    → ((check_metric metric all v4 v6 h r issues).1 ≡ [])
      ↔ ((issues.1 ≡ []) × (all ≤ h) × (v4 ≤ h) × (v6 ≤ h))
unfolding check_metric
check_metric_iff metric all v4 v6 h r issues =
    let a : List PreflightIssue × List PreflightIssue =
      check_limit Scope.all_families metric all h r issues in
    let b : List PreflightIssue × List PreflightIssue =
      check_limit Scope.ipv4_only metric v4 h r a in
    let (f1, g1) = check_limit_iff Scope.all_families metric all h r issues.0 issues.1 in
    let (f2, g2) = check_limit_iff Scope.ipv4_only metric v4 h r a.0 a.1 in
    let (f3, g3) = check_limit_iff Scope.ipv6_only metric v6 h r b.0 b.1 in
    (
      (λ e.
          let (e2, l3) = f3 e in let (e1, l2) = f2 e2 in let (e0, l1) = f1 e1 in (e0, l1, l2, l3)),
      (λ p. let (e0, l1, l2, l3) = p in g3 (g2 (g1 (e0, l1), l2), l3)),
    )

is_ok_iff : (r : PreflightReport) → (is_ok r ≡ true) ↔ (r.violations ≡ [])
unfolding is_ok
is_ok_iff r = ground arith

-- A report is accepted exactly if the summary of all rules and that of each family are within the
-- hard limits; the recommended limits never reject.
pub report_of-is_ok :
    (all v4 v6 : PreflightSummary)
    → (is_ok (report_of all v4 v6) ≡ true) ↔ (IsWithin all × IsWithin v4 × IsWithin v6)
unfolding report_of
report_of-is_ok all v4 v6 =
    let i₁ : List PreflightIssue × List PreflightIssue =
      check_metric Metric.rules_total all.rules_total v4.rules_total v6.rules_total 5000 1000
        ([], []) in
    let i₂ : List PreflightIssue × List PreflightIssue =
      check_metric Metric.max_subtables_per_uid all.max_subtables_per_uid v4.max_subtables_per_uid
        v6.max_subtables_per_uid 64 32 i₁ in
    let (f1, g1) =
      check_metric_iff Metric.rules_total all.rules_total v4.rules_total v6.rules_total 5000 1000
        ([], []) in
    let (f2, g2) =
      check_metric_iff Metric.max_subtables_per_uid all.max_subtables_per_uid
        v4.max_subtables_per_uid v6.max_subtables_per_uid 64 32 i₁ in
    let (f3, g3) =
      check_metric_iff Metric.max_range_rules_per_bucket all.max_range_rules_per_bucket
        v4.max_range_rules_per_bucket v6.max_range_rules_per_bucket 64 16 i₂ in
    let (f, g) = is_ok_iff (report_of all v4 v6) in
    (
      (λ e.
          let (e2, a3, b3, c3) = f3 (f e) in
          let (e1, a2, b2, c2) = f2 e2 in
          let (e0, a1, b1, c1) = f1 e1 in ((a1, a2, a3), (b1, b2, b3), (c1, c2, c3))),
      (λ p.
          let ((a1, a2, a3), (b1, b2, b3), (c1, c2, c3)) = p in
          g (g3 (g2 (g1 (refl, a1, b1, c1), a2, b2, c2), a3, b3, c3))),
    )

pub empty-is_ok : is_ok (preflight_report []) ≡ true
unfolding is_ok preflight_report family_summary total_summary report_of check_metric check_limit
    count_rules distinct subtables_total_of max_subtables_of max_range_of_tables add_rules
    uids_using_ct
empty-is_ok = refl
