-- ===== src/IpRules/Replaced.antt =====
-- `replaceRulesForUid` publishes valid rules, or nothing, and leaves the rules of other apps alone.
use sakamoto_snort.Common.{
  ℕ, ◌≡◌, refl, ◌∙◌, inl, inr, true, List, [], ◌∷◌, Option, none, some, arith, ltb, ◌==◌, ==_refl,
  Bool-cases, Option-cases, All,
}
use sakamoto_snort.IpRules.Rule.{RuleDef}
use sakamoto_snort.IpRules.Compile.{RuleState, RulesMap}
use sakamoto_snort.IpRules.Report.{is_ok, preflight_report}
use sakamoto_snort.IpRules.Engine.{
  EngineError, Engine, ApplyResult, validate_rule_def, emplace, apply_new_rules,
}
use sakamoto_snort.IpRules.Published.{
  IsValidEntry, IsPublished, IsAtomic, All-emplace, same_fields, apply_new_rules-IsPublished,
  apply_new_rules-IsAtomic,
}
use sakamoto_snort.IpRules.Replace.{
  ApplyRule, Staged, def_of, remove_uid, prev_by_client_id, assign_id, assign_stats, stage_rule,
  stage_rules, stage_start, finish_replace, check_client_ids, replace_rules_for_uid,
}

All-remove_uid :
    (P : ℕ × RuleState → Type 0) (uid : ℕ) (rules : RulesMap)
    → All P rules
    → All P (remove_uid uid rules)
unfolding remove_uid
All-remove_uid P uid [] a = tt
All-remove_uid P uid ((i, st) ∷ rules) a = elim (Bool-cases (st.def.uid == uid)) [
  | inl e ↦ rw e (All-remove_uid P uid rules a.1)
  | inr e ↦ rw e (a.0, All-remove_uid P uid rules a.1)
]

remove_uid-twice :
    (uid : ℕ) (rules : RulesMap) → remove_uid uid (remove_uid uid rules) ≡ remove_uid uid rules
unfolding remove_uid
remove_uid-twice uid [] = refl
remove_uid-twice uid ((i, st) ∷ rules) = ground (arith, remove_uid-twice uid rules)

remove_uid-emplace :
    (uid i : ℕ) (st : RuleState) (rules rules' : RulesMap)
    → (st.def.uid == uid) ≡ true
    → emplace i st rules ≡ some rules'
    → remove_uid uid rules' ≡ remove_uid uid rules
unfolding emplace remove_uid
remove_uid-emplace uid i st [] rules' own h =
    let is : (i, st) ∷ [] ≡ rules' = cc in rw (← is, own) refl
remove_uid-emplace uid i st ((j, st') ∷ rules) rules' own h = elim (Bool-cases (i == j)) [
  | inl e ↦ let clash : ◌≡◌ {A = Option RulesMap} none (some rules') = rw e at h in absurd cc
  | inr e ↦ elim (Bool-cases (ltb i j)) [
    | inl lt ↦
        let is' : some ((i, st) ∷ (j, st') ∷ rules) ≡ some rules' = rw (e, lt) at h in
        let is : (i, st) ∷ (j, st') ∷ rules ≡ rules' = cc in rw (← is, own) refl
    | inr ge ↦ elim (Option-cases (emplace i st rules)) [
      | inl nil ↦
          let clash : ◌≡◌ {A = Option RulesMap} none (some rules') = rw (e, ge, nil) at h in
          absurd cc
      | inr (rs, found) ↦
          let is' : some ((j, st') ∷ rs) ≡ some rules' = rw (e, ge, found) at h in
          let is : (j, st') ∷ rs ≡ rules' = cc in
          rw (← is, remove_uid-emplace uid i st rules rs own found) refl
    ]
  ]
]

pub assign_id-rules : (prev : Option RuleState) (g : Staged) → (assign_id prev g).1.rules ≡ g.rules
unfolding assign_id
assign_id-rules (some prev) g = refl
assign_id-rules none g = refl

-- What holds of the staged map throughout: valid entries, and the other apps' rules as they were.
abbrev IsStaged : ℕ → RulesMap → RulesMap → Type 0
IsStaged uid base rules = All IsValidEntry rules × (remove_uid uid rules ≡ base)

module _ (uid : ℕ) (base old : RulesMap) where
  stage_rule-IsStaged :
      (r : ApplyRule) (g : Staged)
      → IsStaged uid base g.rules
      → IsStaged uid base (stage_rule uid old r g).1.rules
  unfolding stage_rule
  stage_rule-IsStaged r g ok =
      let prev : Option RuleState = prev_by_client_id uid r.client_rule_id old in
      let id : ℕ = (assign_id prev g).0 in
      let g' : Staged = (assign_id prev g).1 in
      let d : RuleDef = def_of id uid r in
      let same : g'.rules ≡ g.rules = assign_id-rules prev g in
      let ok' : IsStaged uid base g'.rules = rw same ok in
      elim (Option-cases (validate_rule_def d)) [
        | inr (e, bad) ↦ rw (bad, stage_rule) ok'
        | inl good ↦
            let st : RuleState = record { def = d; stats = (assign_stats prev d g'.fresh).0 } in
            elim (Option-cases (emplace id st g'.rules)) [
              | inl taken ↦ rw (good, stage_rule, taken) ok'
              | inr (rules, placed) ↦
                  rw (good, stage_rule, placed)
                    (
                      All-emplace IsValidEntry id st g'.rules rules (refl, good) ok'.0 placed,
                      remove_uid-emplace uid id st g'.rules rules (==_refl uid) placed ∙ ok'.1,
                    )
            ]
      ]

  stage_rules-IsStaged :
      (rs : List ApplyRule) (g : Staged)
      → IsStaged uid base g.rules
      → IsStaged uid base (stage_rules uid old rs g).1.rules
  unfolding stage_rules
  stage_rules-IsStaged [] g ok = ok
  stage_rules-IsStaged (r ∷ rs) g ok = elim (Option-cases (stage_rule uid old r g).0) [
    | inr (e, bad) ↦ rw (bad, stage_rules) (stage_rule-IsStaged r g ok)
    | inl good ↦
        rw (good, stage_rules)
          (stage_rules-IsStaged rs (stage_rule uid old r g).1 (stage_rule-IsStaged r g ok))
  ]

apply_new_rules-others :
    (uid : ℕ) (new_rules : RulesMap) (i : Option ℕ) (s : Engine)
    → remove_uid uid new_rules ≡ remove_uid uid s.rules
    → remove_uid uid (apply_new_rules new_rules i s).0.rules ≡ remove_uid uid s.rules
unfolding apply_new_rules
apply_new_rules-others uid new_rules i s h =
    elim (Bool-cases (is_ok (preflight_report new_rules))) [
      | inr bad ↦ rw bad refl
      | inl good ↦ rw good h
    ]

abbrev pub IsReplacement : ℕ → Engine → Engine × ApplyResult → Type 0
IsReplacement uid s r =
    IsPublished r.0 × IsAtomic s r × (remove_uid uid r.0.rules ≡ remove_uid uid s.rules)

finish_replace-IsReplacement :
    (uid : ℕ) (s : Engine) (o : Option EngineError) (g : Staged)
    → IsPublished s
    → IsStaged uid (remove_uid uid s.rules) g.rules
    → IsReplacement uid s (finish_replace s (o, g))
unfolding finish_replace
finish_replace-IsReplacement uid s (some e) g p ok =
    (same_fields s g.fresh p, inr (refl, refl, refl, refl, refl), refl)
finish_replace-IsReplacement uid s none g p ok =
    let s' : Engine = record s { fresh = g.fresh } in
    (
      apply_new_rules-IsPublished g.rules g.max_allocated s' ok.0 (same_fields s g.fresh p),
      apply_new_rules-IsAtomic g.rules g.max_allocated s',
      apply_new_rules-others uid g.rules g.max_allocated s' ok.1,
    )

-- Replacing the rules of an app by any list of rules keeps the engine published, changes nothing
-- that is published where it fails, and in either case leaves the rules of all other apps, their ids and
-- their counters, as they were.
pub replace_rules_for_uid-IsReplacement :
    (uid : ℕ) (rs : List ApplyRule) (s : Engine)
    → IsPublished s
    → IsReplacement uid s (replace_rules_for_uid uid rs s)
unfolding replace_rules_for_uid stage_start
replace_rules_for_uid-IsReplacement uid rs s p = elim (Option-cases (check_client_ids rs [])) [
  | inr (e, bad) ↦ rw (bad, replace_rules_for_uid) (p, inr (refl, refl, refl, refl, refl), refl)
  | inl good ↦
      let end : Option EngineError × Staged = stage_rules uid s.rules rs (stage_start uid s) in
      rw (good, replace_rules_for_uid)
        (finish_replace-IsReplacement uid s end.0 end.1 p (
          stage_rules-IsStaged uid (remove_uid uid s.rules) s.rules rs (stage_start uid s)
            (All-remove_uid IsValidEntry uid s.rules p.valid, remove_uid-twice uid s.rules)))
]
