-- ===== src/IpRules/Engine.antt =====
-- The control operations of `IpRulesEngine` (src/IpRulesEngine.cpp): each stages a new map of rules,
-- compiles it and, if the preflight report has no violations, publishes map, report, epoch and
-- snapshot together. Each runs under the engine's lock, so as one step. `fresh` is the address that the
-- next `make_shared<RuleStats>()` returns; the file of the saver is left out.
use sakamoto_snort.Common.{
  ℕ, ◌+◌, ◌%◌, ◌^◌, Bool, true, false, not, ◌&&◌, ◌||◌, List, [], ◌∷◌, Option, none, some, ltb, leb,
  ◌==◌, if◌then◌else◌, find,
}
use sakamoto_snort.IpRules.Rule.{
  Family, Action, RuleDef, is_any, proto_code, ct_state_code, ct_dir_code,
}
use sakamoto_snort.IpRules.Family.Masks.{ip_v4, ip_v6}
use sakamoto_snort.IpRules.Table.{UidView}
use sakamoto_snort.IpRules.Compile.{RuleState, RulesMap, compile_views}
use sakamoto_snort.IpRules.Report.{PreflightReport, is_ok, preflight_report}

pub data EngineError : Type 0 where
  invalid_ct_direction invalid_proto unsupported_enforce ports_not_any v6_fields_not_any :
      EngineError
  v4_fields_not_any invalid_src_prefix invalid_dst_prefix : EngineError
  rule_not_found duplicate_rule_id next_rule_id_too_small preflight_violations : EngineError
  invalid_client_rule_id duplicate_client_rule_id internal_duplicate_rule_id : EngineError

abbrev pub is_block : Action → Bool
is_block Action.allow = false
is_block Action.block = true

abbrev pub is_v4 : Family → Bool
is_v4 Family.ipv4 = true
is_v4 Family.ipv6 = false

-- `none` is valid. The tests of `def.family`, `ctState` and `ctDir` for values outside their
-- enumerations never fire here.
unfoldable pub validate_rule_def : RuleDef → Option EngineError
validate_rule_def d =
    if (ct_state_code d.ct_state == 3) && not (ct_dir_code d.ct_dir == 0)
    then some invalid_ct_direction
    else if proto_code d.proto == 254
    then some invalid_proto
    else if not d.enforce && not (is_block d.action && d.log)
    then some unsupported_enforce
    else if ((proto_code d.proto == 1) || (proto_code d.proto == 255))
        && (not (is_any d.sport) || not (is_any d.dport))
    then some ports_not_any
    else if is_v4 d.family
    then (if not d.src6.any || not d.dst6.any then some v6_fields_not_any else none)
    else if not d.src.any || not d.dst.any
    then some v4_fields_not_any
    else if not d.src6.any && ltb 128 d.src6.prefix
    then some invalid_src_prefix
    else if not d.dst6.any && ltb 128 d.dst6.prefix
    then some invalid_dst_prefix
    else none

-- `Snapshot`: the views of both families and the epoch.
pub record Snapshot : Type 0 where
  pub by_uid : List (ℕ × UidView ℕ)
  pub by_uid6 : List (ℕ × UidView (List ℕ))
  pub rules_epoch : ℕ

pub record Engine : Type 0 where
  pub rules : RulesMap
  pub next_rule_id : ℕ
  pub rules_epoch : ℕ
  pub last_preflight : PreflightReport
  pub snapshot : Snapshot
  pub fresh : ℕ

pub record ApplyResult : Type 0 where
  pub ok : Bool
  pub rule_id : Option ℕ
  pub error : Option EngineError
  pub preflight : Option PreflightReport

abbrev pub nok_result : EngineError → ApplyResult
nok_result e = record { ok = false; rule_id = none; error = some e; preflight = none }

abbrev pub ok_result : ApplyResult
ok_result = record { ok = true; rule_id = none; error = none; preflight = none }

abbrev pub refused : PreflightReport → ApplyResult
refused r = record {
  ok = false;
  rule_id = none;
  error = some preflight_violations;
  preflight = some r;
}

unfoldable pub compile : RulesMap → ℕ → Snapshot
unfolding compile_views
compile rules epoch = record {
  by_uid = compile_views ⦃ip = ip_v4⦄ rules;
  by_uid6 = compile_views ⦃ip = ip_v6⦄ rules;
  rules_epoch = epoch;
}

abbrev pub wrap : ℕ → ℕ → ℕ
wrap bits n = n % 2 ^ bits

-- `_nextRuleId = *newRuleId + 1`, where there is one.
abbrev pub next_id : Option ℕ → ℕ → ℕ
next_id none n = n
next_id (some i) n = wrap 32 (i + 1)

unfoldable pub apply_new_rules : RulesMap → Option ℕ → Engine → Engine × ApplyResult
unfolding compile preflight_report is_ok
apply_new_rules new_rules new_rule_id s =
    let epoch = wrap 64 (s.rules_epoch + 1) in
    let report = preflight_report new_rules in
    if not (is_ok report) then (s, refused report) else (
      record s {
        rules = new_rules;
        next_rule_id = next_id new_rule_id s.next_rule_id;
        rules_epoch = epoch;
        last_preflight = report;
        snapshot = compile new_rules epoch;
      },
      record { ok = true; rule_id = new_rule_id; error = none; preflight = some report },
    )

-- The constructor: it publishes the empty snapshot.
unfoldable pub initial : Engine
unfolding compile preflight_report
initial = record {
  rules = [];
  next_rule_id = 0;
  rules_epoch = 1;
  last_preflight = preflight_report [];
  snapshot = compile [] 1;
  fresh = 0;
}

unfoldable pub erase : ℕ → RulesMap → RulesMap
erase i [] = []
erase i ((j, st) ∷ rules) = if i == j then rules else (j, st) ∷ erase i rules

-- The rule with the id, changed.
unfoldable pub change : ℕ → (RuleState → RuleState) → RulesMap → RulesMap
change i f [] = []
change i f ((j, st) ∷ rules) = if i == j then (j, f st) ∷ rules else (j, st) ∷ change i f rules

-- `emplace`: `none` where the id is taken, and in the order of the ids otherwise.
unfoldable pub emplace : ℕ → RuleState → RulesMap → Option RulesMap
emplace i st [] = some ((i, st) ∷ [])
emplace i st ((j, st') ∷ rules) =
    let rest = emplace i st rules in
    if i == j
    then none
    else if ltb i j
    then some ((i, st) ∷ (j, st') ∷ rules)
    else elim rest [ none ↦ none | some rs ↦ some ((j, st') ∷ rs) ]

unfoldable pub get_rule : ℕ → Engine → Option RuleDef
get_rule i s = elim (find ◌==◌ i s.rules) [ none ↦ none | some st ↦ some st.def ]

unfoldable pub remove_rule : ℕ → Engine → Engine × ApplyResult
unfolding apply_new_rules erase
remove_rule i s = elim (find ◌==◌ i s.rules) [
  | none ↦ (s, nok_result rule_not_found)
  | some st ↦ apply_new_rules (erase i s.rules) none s
]

-- The rule switched, with fresh counters when it is switched on.
abbrev pub switch : Bool → ℕ → RuleState → RuleState
switch enabled stats st = record {
  def = record st.def { enabled = enabled };
  stats = if not st.def.enabled && enabled then stats else st.stats;
}

abbrev pub same_bool : Bool → Bool → Bool
same_bool true b = b
same_bool false b = not b

unfoldable pub enable_rule : ℕ → Bool → Engine → Engine × ApplyResult
unfolding apply_new_rules change
enable_rule i enabled s = elim (find ◌==◌ i s.rules) [
  | none ↦ (s, nok_result rule_not_found)
  | some st ↦
      if same_bool st.def.enabled enabled
      then (s, ok_result)
      else apply_new_rules (change i (switch enabled s.fresh) s.rules) none
          (record s { fresh = s.fresh + 1 })
]

unfoldable pub reset_all : Engine → Engine × ApplyResult
unfolding apply_new_rules
reset_all s = apply_new_rules [] none (record s { next_rule_id = 0 })

pub record PolicySnapshot : Type 0 where
  pub next_rule_id : ℕ
  pub rules : List RuleDef

-- The loop that stages a snapshot's rules: the map and the counter, or the first error.
unfoldable pub stage : List RuleDef → RulesMap → ℕ → Option EngineError × RulesMap × ℕ
unfolding validate_rule_def emplace
stage [] staged fresh = (none, staged, fresh)
stage (d ∷ ds) staged fresh = elim (validate_rule_def d) [
  | some e ↦ (some e, staged, fresh)
  | none ↦ elim (emplace d.rule_id (record { def = d; stats = fresh }) staged) [
    | none ↦ (some duplicate_rule_id, staged, fresh + 1)
    | some staged' ↦ stage ds staged' (fresh + 1)
  ]
]

unfoldable pub max_rule_id : List RuleDef → ℕ
max_rule_id [] = 0
max_rule_id (d ∷ ds) = let rest = max_rule_id ds in if ltb rest d.rule_id then d.rule_id else rest

abbrev pub is_empty : List RuleDef → Bool
is_empty [] = true
is_empty (d ∷ ds) = false

unfoldable pub restore_staged : PolicySnapshot → RulesMap → Engine → Engine × ApplyResult
unfolding compile preflight_report is_ok max_rule_id
restore_staged p staged s =
    let epoch = wrap 64 (s.rules_epoch + 1) in
    let report = preflight_report staged in
    if not (is_empty p.rules) && leb p.next_rule_id (max_rule_id p.rules)
    then (s, nok_result next_rule_id_too_small)
    else if not (is_ok report)
    then (s, refused report)
    else (
      record s {
        rules = staged;
        next_rule_id = p.next_rule_id;
        rules_epoch = epoch;
        last_preflight = report;
        snapshot = compile staged epoch;
      },
      record { ok = true; rule_id = none; error = none; preflight = some report },
    )

unfoldable pub restore_policy_snapshot : PolicySnapshot → Engine → Engine × ApplyResult
unfolding stage restore_staged
restore_policy_snapshot p s =
    let staging = stage p.rules [] s.fresh in
    let s' = record s { fresh = staging.2 } in
    elim staging.0 [ some e ↦ (s', nok_result e) | none ↦ restore_staged p staging.1 s' ]
