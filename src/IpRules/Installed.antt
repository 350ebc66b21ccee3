-- ===== src/IpRules/Installed.antt =====
-- Which rules an app has once `replaceRulesForUid` has succeeded: those of the request, each once.
use sakamoto_snort.Common.{
  ℕ, ◌≡◌, ◌≢◌, refl, sym, ap, ◌∙◌, subst, inl, inr, true, false, List, [], ◌∷◌, ◌++◌, Option, none,
  some, arith, ltb, ◌==◌, ==_refl, Bool-cases, Option-cases,
}
use mathlib.Core.List.{Perm, perm_middle, append-nil}
use mathlib.Core.List.Perm
use sakamoto_snort.IpRules.Rule.{RuleDef}
use sakamoto_snort.IpRules.Compile.{RuleState, RulesMap}
use sakamoto_snort.IpRules.Report.{is_ok, preflight_report}
use sakamoto_snort.IpRules.Engine.{
  EngineError, internal_duplicate_rule_id, Engine, validate_rule_def, emplace, apply_new_rules,
}
use sakamoto_snort.IpRules.Listing.{rules_of}
use sakamoto_snort.IpRules.Replace.{
  ApplyRule, Staged, def_of, remove_uid, prev_by_client_id, assign_id, assign_stats, stage_rule,
  stage_rules, stage_start, finish_replace, check_client_ids, replace_rules_for_uid,
}
use sakamoto_snort.IpRules.Replaced.{assign_id-rules}

-- The rule of a request, under the id that the app's rule with its client id had before, if there was one.
abbrev pub IsRuleOf : ℕ → RulesMap → ApplyRule → RuleDef → Type 0
IsRuleOf uid old r d =
    (d ≡ def_of d.rule_id uid r)
    × ((st : RuleState)
        → prev_by_client_id uid r.client_rule_id old ≡ some st
        → d.rule_id ≡ st.def.rule_id)

-- One rule for each of the request, in its order.
abbrev pub AreRulesOf : ℕ → RulesMap → List ApplyRule → List RuleDef → Type 0
AreRulesOf uid old [] [] = Unit
AreRulesOf uid old [] (d ∷ ds) = ⊥
AreRulesOf uid old (r ∷ rs) [] = ⊥
AreRulesOf uid old (r ∷ rs) (d ∷ ds) = IsRuleOf uid old r d × AreRulesOf uid old rs ds

rules_of-remove_uid : (uid : ℕ) (rules : RulesMap) → rules_of uid (remove_uid uid rules) ≡ []
unfolding rules_of remove_uid
rules_of-remove_uid uid [] = refl
rules_of-remove_uid uid ((i, st) ∷ rules) = ground (arith, rules_of-remove_uid uid rules)

rules_of-emplace :
    (uid i : ℕ) (st : RuleState) (rules rules' : RulesMap)
    → (st.def.uid == uid) ≡ true
    → emplace i st rules ≡ some rules'
    → Perm (rules_of uid rules') (st.def ∷ rules_of uid rules)
unfolding emplace rules_of
rules_of-emplace uid i st [] rules' own h =
    let is : (i, st) ∷ [] ≡ rules' = cc in rw (← is, own) Perm.rfl
rules_of-emplace uid i st ((j, st') ∷ rules) rules' own h = elim (Bool-cases (i == j)) [
  | inl e ↦ let clash : ◌≡◌ {A = Option RulesMap} none (some rules') = rw e at h in absurd cc
  | inr e ↦ elim (Bool-cases (ltb i j)) [
    | inl lt ↦
        let is' : some ((i, st) ∷ (j, st') ∷ rules) ≡ some rules' = rw (e, lt) at h in
        let is : (i, st) ∷ (j, st') ∷ rules ≡ rules' = cc in rw (← is, own) Perm.rfl
    | inr ge ↦ elim (Option-cases (emplace i st rules)) [
      | inl nil ↦
          let clash : ◌≡◌ {A = Option RulesMap} none (some rules') = rw (e, ge, nil) at h in
          absurd cc
      | inr (rs, found) ↦
          let is' : some ((j, st') ∷ rs) ≡ some rules' = rw (e, ge, found) at h in
          let is : (j, st') ∷ rs ≡ rules' = cc in
          let rest = rules_of-emplace uid i st rules rs own found in
          elim (Bool-cases (st'.def.uid == uid)) [
            | inl mine ↦
                rw (← is, mine)
                  (Perm.trans (Perm.cons st'.def rest)
                    (Perm.swap st.def st'.def (rules_of uid rules)))
            | inr other ↦ rw (← is, other) rest
          ]
    ]
  ]
]

assign_id-kept :
    (prev : Option RuleState) (g : Staged) (st : RuleState)
    → prev ≡ some st
    → (assign_id prev g).0 ≡ st.def.rule_id
unfolding assign_id
assign_id-kept none g st e = cc
assign_id-kept (some prev) g st e =
    let same : prev ≡ st = cc in ap (λ (p : RuleState). p.def.rule_id) same

module _ (uid : ℕ) (old : RulesMap) where
  stage_rule-installs :
      (r : ApplyRule) (g : Staged)
      → (stage_rule uid old r g).0 ≡ none
      → (d : RuleDef) × IsRuleOf uid old r d
        × Perm (rules_of uid (stage_rule uid old r g).1.rules) (d ∷ rules_of uid g.rules)
  unfolding stage_rule
  stage_rule-installs r g h =
      let prev : Option RuleState = prev_by_client_id uid r.client_rule_id old in
      let id : ℕ = (assign_id prev g).0 in
      let g' : Staged = (assign_id prev g).1 in
      let d : RuleDef = def_of id uid r in
      let same : g'.rules ≡ g.rules = assign_id-rules prev g in
      elim (Option-cases (validate_rule_def d)) [
        | inr (e, bad) ↦
            let clash : ◌≡◌ {A = Option EngineError} (some e) none = rw (bad, stage_rule) at h in
            absurd cc
        | inl good ↦
            let st : RuleState = record { def = d; stats = (assign_stats prev d g'.fresh).0 } in
            elim (Option-cases (emplace id st g'.rules)) [
              | inl taken ↦
                  let clash : ◌≡◌ {A = Option EngineError} (some internal_duplicate_rule_id) none =
                    rw (good, stage_rule, taken) at h in
                  absurd cc
              | inr (rules, placed) ↦ (
                d,
                (refl, λ st e. assign_id-kept prev g st e),
                rw (good, stage_rule, placed)
                    (subst (λ rs. Perm (rules_of uid rules) (d ∷ rules_of uid rs)) same
                      (rules_of-emplace uid id st g'.rules rules (==_refl uid) placed)),
              )
            ]
      ]

  failed :
      (rs : List ApplyRule) (r : ApplyRule) (g : Staged) (e : EngineError)
      → (stage_rule uid old r g).0 ≡ some e
      → (stage_rules uid old (r ∷ rs) g).0 ≢ none
  unfolding stage_rules
  failed rs r g e bad h =
      let same : (stage_rule uid old r g).0 ≡ none = rw (bad, stage_rules) at h in
      cc (sym bad ∙ same)

  stage_rules-installs :
      (rs : List ApplyRule) (g : Staged)
      → (stage_rules uid old rs g).0 ≡ none
      → (ds : List RuleDef) × AreRulesOf uid old rs ds
        × Perm (rules_of uid (stage_rules uid old rs g).1.rules) (ds ++ rules_of uid g.rules)
  unfolding stage_rules
  stage_rules-installs [] g h = ([], tt, Perm.rfl)
  stage_rules-installs (r ∷ rs) g h = elim (Option-cases (stage_rule uid old r g).0) [
    | inr (e, bad) ↦ absurd (failed rs r g e bad h)
    | inl good ↦
        let (d, is_rule, here) = stage_rule-installs r g good in
        let h' : (stage_rules uid old rs (stage_rule uid old r g).1).0 ≡ none =
          rw (good, stage_rules) at h in
        let (ds, are, rest) = stage_rules-installs rs (stage_rule uid old r g).1 h' in
        (
          d ∷ ds,
          (is_rule, are),
          rw (good, stage_rules)
              (Perm.trans rest
                (Perm.trans (Perm.append_left ds here) (perm_middle ds (rules_of uid g.rules)))),
        )
  ]

finish_replace-rules :
    (s : Engine) (o : Option EngineError) (g : Staged)
    → (finish_replace s (o, g)).1.ok ≡ true
    → (o ≡ none) × ((finish_replace s (o, g)).0.rules ≡ g.rules)
unfolding finish_replace apply_new_rules
finish_replace-rules s (some e) g h = absurd (cc h)
finish_replace-rules s none g h = elim (Bool-cases (is_ok (preflight_report g.rules))) [
  | inl good ↦ (refl, rw good refl)
  | inr bad ↦ let clash : false ≡ true = rw bad at h in absurd cc
]

-- Where the replacement succeeds, the app's rules are those of the request, one for each and no
-- others, and a rule whose client id the app had before keeps its id.
pub replace_rules_for_uid-AreRulesOf :
    (uid : ℕ) (rs : List ApplyRule) (s : Engine)
    → (replace_rules_for_uid uid rs s).1.ok ≡ true
    → (ds : List RuleDef) × AreRulesOf uid s.rules rs ds
      × Perm (rules_of uid (replace_rules_for_uid uid rs s).0.rules) ds
unfolding replace_rules_for_uid stage_start
replace_rules_for_uid-AreRulesOf uid rs s h = elim (Option-cases (check_client_ids rs [])) [
  | inr (e, bad) ↦ let clash : false ≡ true = rw (bad, replace_rules_for_uid) at h in absurd cc
  | inl good ↦
      let end : Option EngineError × Staged = stage_rules uid s.rules rs (stage_start uid s) in
      let h' : (finish_replace s end).1.ok ≡ true = rw (good, replace_rules_for_uid) at h in
      let (staged, same) = finish_replace-rules s end.0 end.1 h' in
      let (ds, are, perm) = stage_rules-installs uid s.rules rs (stage_start uid s) staged in
      (
        ds,
        are,
        rw (good, replace_rules_for_uid, same)
            (Perm.trans perm (
              subst (λ xs. Perm (ds ++ xs) ds) (sym (rules_of-remove_uid uid s.rules))
                (subst (λ xs. Perm xs ds) (sym (append-nil ds)) Perm.rfl))),
      )
]
