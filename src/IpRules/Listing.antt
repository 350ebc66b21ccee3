-- ===== src/IpRules/Listing.antt =====
-- `IpRulesEngine::listRules` of an app (src/IpRulesEngine.cpp): its rules, in the order of their ids.
use sakamoto_snort.Common.{ℕ, Bool, not, List, [], ◌∷◌, ltb, ◌==◌, if◌then◌else◌, sort}
use sakamoto_snort.IpRules.Rule.{RuleDef}
use sakamoto_snort.IpRules.Compile.{RulesMap}

abbrev pub by_rule_id : RuleDef → RuleDef → Bool
by_rule_id a b = ltb a.rule_id b.rule_id

unfoldable pub rules_of : ℕ → RulesMap → List RuleDef
rules_of uid [] = []
rules_of uid ((i, st) ∷ rules) =
    let rest = rules_of uid rules in if not (st.def.uid == uid) then rest else st.def ∷ rest

unfoldable pub list_rules : ℕ → RulesMap → List RuleDef
list_rules uid rules = sort by_rule_id (rules_of uid rules)
