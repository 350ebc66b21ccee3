-- ===== src/IpRules/Published.antt =====
-- What the engine publishes: rules that are valid, and the report and snapshot of those rules.
use sakamoto_snort.Common.{
  ℕ, ◌+◌, ◌≡◌, refl, ◌⊎◌, inl, inr, Bool, true, not, ◌&&◌, List, [], ◌∷◌, Option, none, some, ltb,
  leb, ◌==◌, if◌then◌else◌, find, Bool-cases, Option-cases, All,
}
use sakamoto_snort.IpRules.Rule.{RuleDef}
use sakamoto_snort.IpRules.Compile.{RuleState, RulesMap}
use sakamoto_snort.IpRules.Report.{is_ok, preflight_report}
use sakamoto_snort.IpRules.Limits.{empty-is_ok}
use sakamoto_snort.IpRules.Engine.{
  EngineError, Engine, initial, ApplyResult, PolicySnapshot, validate_rule_def, compile,
  apply_new_rules, erase, change, emplace, remove_rule, enable_rule, switch, same_bool, ok_result,
  is_empty, max_rule_id, wrap, reset_all, stage, restore_staged, restore_policy_snapshot,
}

-- A rule stands under its own id and is valid.
abbrev pub IsValidEntry : ℕ × RuleState → Type 0
IsValidEntry e = (e.1.def.rule_id ≡ e.0) × (validate_rule_def e.1.def ≡ none)

pub record IsPublished (s : Engine) : Type 0 where
  pub valid : All IsValidEntry s.rules
  pub report : s.last_preflight ≡ preflight_report s.rules
  pub accepted : is_ok (preflight_report s.rules) ≡ true
  pub compiled : s.snapshot ≡ compile s.rules s.rules_epoch

-- An operation that fails has changed nothing that is published.
abbrev pub IsAtomic : Engine → Engine × ApplyResult → Type 0
IsAtomic s r =
    (r.1.ok ≡ true)
    ⊎ ((r.0.rules ≡ s.rules)
        × (r.0.next_rule_id ≡ s.next_rule_id)
        × (r.0.rules_epoch ≡ s.rules_epoch)
        × (r.0.last_preflight ≡ s.last_preflight)
        × (r.0.snapshot ≡ s.snapshot))

module _ (new_rules : RulesMap) (i : Option ℕ) (s : Engine) where
  pub apply_new_rules-IsPublished :
      All IsValidEntry new_rules → IsPublished s → IsPublished (apply_new_rules new_rules i s).0
  unfolding apply_new_rules
  apply_new_rules-IsPublished ok p = elim (Bool-cases (is_ok (preflight_report new_rules))) [
    | inr bad ↦ rw bad p
    | inl good ↦ rw good (record { valid = ok; report = refl; accepted = good; compiled = refl })
  ]

  pub apply_new_rules-IsAtomic : IsAtomic s (apply_new_rules new_rules i s)
  unfolding apply_new_rules
  apply_new_rules-IsAtomic = elim (Bool-cases (is_ok (preflight_report new_rules))) [
    | inr bad ↦ rw bad (inr (refl, refl, refl, refl, refl))
    | inl good ↦ rw good (inl refl)
  ]

All-erase :
    (P : ℕ × RuleState → Type 0) (i : ℕ) (rules : RulesMap) → All P rules → All P (erase i rules)
unfolding erase
All-erase P i [] a = tt
All-erase P i ((j, st) ∷ rules) a = elim (Bool-cases (i == j)) [
  | inl e ↦ rw e a.1
  | inr e ↦ rw e (a.0, All-erase P i rules a.1)
]

All-change :
    (P : ℕ × RuleState → Type 0) (i : ℕ) (f : RuleState → RuleState) (rules : RulesMap)
    → ((j : ℕ) (st : RuleState) → P (j, st) → P (j, f st))
    → All P rules
    → All P (change i f rules)
unfolding change
All-change P i f [] step a = tt
All-change P i f ((j, st) ∷ rules) step a = elim (Bool-cases (i == j)) [
  | inl e ↦ rw e (step j st a.0, a.1)
  | inr e ↦ rw e (a.0, All-change P i f rules step a.1)
]

pub All-emplace :
    (P : ℕ × RuleState → Type 0) (i : ℕ) (st : RuleState) (rules rules' : RulesMap)
    → P (i, st)
    → All P rules
    → emplace i st rules ≡ some rules'
    → All P rules'
unfolding emplace
All-emplace P i st [] rules' p a h = let is : (i, st) ∷ [] ≡ rules' = cc in rw (← is) (p, tt)
All-emplace P i st ((j, st') ∷ rules) rules' p a h = elim (Bool-cases (i == j)) [
  | inl e ↦ let clash : ◌≡◌ {A = Option RulesMap} none (some rules') = rw e at h in absurd cc
  | inr e ↦ elim (Bool-cases (ltb i j)) [
    | inl lt ↦
        let is' : some ((i, st) ∷ (j, st') ∷ rules) ≡ some rules' = rw (e, lt) at h in
        let is : (i, st) ∷ (j, st') ∷ rules ≡ rules' = cc in rw (← is) (p, a)
    | inr ge ↦ elim (Option-cases (emplace i st rules)) [
      | inl nil ↦
          let clash : ◌≡◌ {A = Option RulesMap} none (some rules') = rw (e, ge, nil) at h in
          absurd cc
      | inr (rs, found) ↦
          let is' : some ((j, st') ∷ rs) ≡ some rules' = rw (e, ge, found) at h in
          let is : (j, st') ∷ rs ≡ rules' = cc in
          rw (← is) (a.0, All-emplace P i st rules rs p a.1 found)
    ]
  ]
]

-- Switching a rule does not touch what the validation reads.
switch-IsValidEntry :
    (enabled : Bool) (stats j : ℕ) (st : RuleState)
    → IsValidEntry (j, st)
    → IsValidEntry (j, switch enabled stats st)
unfolding validate_rule_def
switch-IsValidEntry enabled stats j st h = h

-- Removing a rule keeps the engine published, and changes nothing where it fails.
pub remove_rule-IsPublished :
    (i : ℕ) (s : Engine)
    → IsPublished s
    → IsPublished (remove_rule i s).0 × IsAtomic s (remove_rule i s)
unfolding remove_rule
remove_rule-IsPublished i s p = elim (Option-cases (find ◌==◌ i s.rules)) [
  | inl e ↦ rw (e, remove_rule) (p, inr (refl, refl, refl, refl, refl))
  | inr (st, e) ↦
      rw (e, remove_rule)
        (
          apply_new_rules-IsPublished (erase i s.rules) none s
              (All-erase IsValidEntry i s.rules p.valid) p,
          apply_new_rules-IsAtomic (erase i s.rules) none s,
        )
]

pub same_fields : (s : Engine) (n : ℕ) → IsPublished s → IsPublished (record s { fresh = n })
same_fields s n p = record {
  valid = p.valid;
  report = p.report;
  accepted = p.accepted;
  compiled = p.compiled;
}

switched : (i : ℕ) (enabled : Bool) (s : Engine) → Engine × ApplyResult
switched i enabled s =
    apply_new_rules (change i (switch enabled s.fresh) s.rules) none
      (record s { fresh = s.fresh + 1 })

switched-IsPublished :
    (i : ℕ) (enabled : Bool) (s : Engine)
    → IsPublished s
    → IsPublished (switched i enabled s).0 × IsAtomic s (switched i enabled s)
unfolding switched
switched-IsPublished i enabled s p =
    let s' : Engine = record s { fresh = s.fresh + 1 } in
    let new_rules : RulesMap = change i (switch enabled s.fresh) s.rules in
    (
      apply_new_rules-IsPublished new_rules none s'
          (All-change IsValidEntry i (switch enabled s.fresh) s.rules
            (λ j st. switch-IsValidEntry enabled s.fresh j st) p.valid)
          (same_fields s (s.fresh + 1) p),
      apply_new_rules-IsAtomic new_rules none s',
    )

-- Switching a rule on or off keeps the engine published, and changes nothing where it fails.
pub enable_rule-IsPublished :
    (i : ℕ) (enabled : Bool) (s : Engine)
    → IsPublished s
    → IsPublished (enable_rule i enabled s).0 × IsAtomic s (enable_rule i enabled s)
unfolding enable_rule switched
enable_rule-IsPublished i enabled s p = elim (Option-cases (find ◌==◌ i s.rules)) [
  | inl e ↦ rw (e, enable_rule) (p, inr (refl, refl, refl, refl, refl))
  | inr (st, e) ↦ rw (e, enable_rule) (either st)
]
  where
    either :
        (st : RuleState)
        → IsPublished
            (if same_bool st.def.enabled enabled then (s, ok_result) else switched i enabled s).0
          × IsAtomic s
              (if same_bool st.def.enabled enabled then (s, ok_result) else switched i enabled s)
    either st = elim (Bool-cases (same_bool st.def.enabled enabled)) [
      | inl same ↦ rw same (p, inl refl)
      | inr other ↦ rw other (switched-IsPublished i enabled s p)
    ]

stage-IsValidEntry :
    (ds : List RuleDef) (staged : RulesMap) (fresh : ℕ)
    → All IsValidEntry staged
    → All IsValidEntry (stage ds staged fresh).1
unfolding stage
stage-IsValidEntry [] staged fresh a = a
stage-IsValidEntry (d ∷ ds) staged fresh a = elim (Option-cases (validate_rule_def d)) [
  | inr (e, bad) ↦ rw (bad, stage) a
  | inl good ↦ elim (Option-cases (emplace d.rule_id (record { def = d; stats = fresh }) staged)) [
    | inl taken ↦ rw (good, stage, taken) a
    | inr (staged', placed) ↦
        rw (good, stage, placed)
          (stage-IsValidEntry ds staged' (fresh + 1) (
            All-emplace IsValidEntry d.rule_id (record { def = d; stats = fresh }) staged staged'
              (refl, good) a placed))
  ]
]

restore_staged-IsPublished :
    (p : PolicySnapshot) (staged : RulesMap) (s : Engine)
    → All IsValidEntry staged
    → IsPublished s
    → IsPublished (restore_staged p staged s).0 × IsAtomic s (restore_staged p staged s)
unfolding restore_staged
restore_staged-IsPublished p staged s ok h =
    elim (Bool-cases (not (is_empty p.rules) && leb p.next_rule_id (max_rule_id p.rules))) [
      | inl small ↦ rw small (h, inr (refl, refl, refl, refl, refl))
      | inr large ↦ elim (Bool-cases (is_ok (preflight_report staged))) [
        | inr bad ↦ rw (large, bad) (h, inr (refl, refl, refl, refl, refl))
        | inl good ↦
            rw (large, good)
              (record { valid = ok; report = refl; accepted = good; compiled = refl }, inl refl)
      ]
    ]

-- Restoring a snapshot of any rules, checked or not, keeps the engine published, and changes nothing
-- where it fails: invalid rules, ids given twice or a counter that is too small are refused.
pub restore_policy_snapshot-IsPublished :
    (p : PolicySnapshot) (s : Engine)
    → IsPublished s
    → IsPublished (restore_policy_snapshot p s).0 × IsAtomic s (restore_policy_snapshot p s)
unfolding restore_policy_snapshot
restore_policy_snapshot-IsPublished p s h =
    let staging : Option EngineError × RulesMap × ℕ = stage p.rules [] s.fresh in
    let s' : Engine = record s { fresh = staging.2 } in
    elim (Option-cases staging.0) [
      | inr (e, bad) ↦
          rw (bad, restore_policy_snapshot)
            (same_fields s staging.2 h, inr (refl, refl, refl, refl, refl))
      | inl good ↦
          rw (good, restore_policy_snapshot)
            (restore_staged-IsPublished p staging.1 s' (stage-IsValidEntry p.rules [] s.fresh tt)
              (same_fields s staging.2 h))
    ]

pub initial-IsPublished : IsPublished initial
unfolding initial
initial-IsPublished = record { valid = tt; report = refl; accepted = empty-is_ok; compiled = refl }

-- Resetting always succeeds: it leaves no rules, the first id is given out next, and the engine is
-- published again, in the next epoch, from whatever state it was in.
pub reset_all-IsPublished :
    (s : Engine)
    → IsPublished (reset_all s).0
      × ((reset_all s).1.ok ≡ true)
      × ((reset_all s).0.rules ≡ [])
      × ((reset_all s).0.next_rule_id ≡ 0)
      × ((reset_all s).0.rules_epoch ≡ wrap 64 (s.rules_epoch + 1))
unfolding reset_all apply_new_rules
reset_all-IsPublished s = rw (empty-is_ok) (
  record { valid = tt; report = refl; accepted = empty-is_ok; compiled = refl },
  refl,
  refl,
  refl,
  refl,
)
