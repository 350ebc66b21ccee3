-- ===== src/IpRules/Validate.antt =====
-- `validatePolicySnapshot` of src/IpRulesEngine.cpp, the dry run of `restorePolicySnapshot`: the rules
-- staged, the counter and the preflight report, with nothing published.
use sakamoto_snort.Common.{
  ℕ, ◌≡◌, refl, true, not, ◌&&◌, [], Option, none, some, leb, if◌then◌else◌, Option-cases,
  Bool-cases, inl, inr,
}
use sakamoto_snort.IpRules.Compile.{RulesMap}
use sakamoto_snort.IpRules.Report.{is_ok, preflight_report}
use sakamoto_snort.IpRules.Engine.{
  EngineError, next_rule_id_too_small, Engine, ApplyResult, nok_result, refused, PolicySnapshot,
  stage, max_rule_id, is_empty, restore_staged, restore_policy_snapshot,
}

unfoldable pub validate_staged : PolicySnapshot → RulesMap → ApplyResult
unfolding preflight_report is_ok max_rule_id
validate_staged p staged =
    let report = preflight_report staged in
    if not (is_empty p.rules) && leb p.next_rule_id (max_rule_id p.rules)
    then nok_result next_rule_id_too_small
    else if not (is_ok report)
    then refused report
    else record { ok = true; rule_id = none; error = none; preflight = some report }

unfoldable pub validate_policy_snapshot : PolicySnapshot → Engine → ApplyResult
unfolding stage validate_staged
validate_policy_snapshot p s =
    let staging = stage p.rules [] s.fresh in
    elim staging.0 [ some e ↦ nok_result e | none ↦ validate_staged p staging.1 ]

restore_staged-validate_staged :
    (p : PolicySnapshot) (staged : RulesMap) (s : Engine)
    → (restore_staged p staged s).1 ≡ validate_staged p staged
unfolding restore_staged validate_staged
restore_staged-validate_staged p staged s =
    elim (Bool-cases (not (is_empty p.rules) && leb p.next_rule_id (max_rule_id p.rules))) [
      | inl small ↦ rw small refl
      | inr large ↦ elim (Bool-cases (is_ok (preflight_report staged))) [
        | inr bad ↦ rw (large, bad) refl
        | inl good ↦ rw (large, good) refl
      ]
    ]

-- Restoring a snapshot gives the result that validating it announces.
pub restore_policy_snapshot-validate :
    (p : PolicySnapshot) (s : Engine)
    → (restore_policy_snapshot p s).1 ≡ validate_policy_snapshot p s
unfolding restore_policy_snapshot validate_policy_snapshot
restore_policy_snapshot-validate p s =
    let staging : Option EngineError × RulesMap × ℕ = stage p.rules [] s.fresh in
    elim (Option-cases staging.0) [
      | inr (e, bad) ↦ rw (bad, restore_policy_snapshot, validate_policy_snapshot) refl
      | inl good ↦
          rw (good, restore_policy_snapshot, validate_policy_snapshot)
            (restore_staged-validate_staged p staging.1 (record s { fresh = staging.2 }))
    ]
