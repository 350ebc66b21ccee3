-- ===== src/IpRules/Replace.antt =====
-- `IpRulesEngine::replaceRulesForUid` (src/IpRulesEngine.cpp): all rules of an app replaced at once,
-- where a rule whose client id was there before keeps its id, and its counters if nothing else changed.
-- A client id is the list of its bytes; `isalnum` is that of the C locale.
use sakamoto_snort.Common.{
  ℕ, ◌+◌, Bool, true, false, not, ◌&&◌, ◌||◌, List, [], ◌∷◌, Option, none, some, ltb, leb, ◌==◌,
  if◌then◌else◌, length, ℤ, eqb_ℤ,
}
use sakamoto_snort.IpRules.Rule.{
  Family, Action, Direction, IfaceKind, Proto, CtState, CtDirection, PortKind, PortPredicate, Cidr,
  RuleDef, dir_code, iface_code, proto_code, ct_state_code, ct_dir_code,
}
use sakamoto_snort.IpRules.Family.{bytes_eq}
use sakamoto_snort.IpRules.Compile.{RuleState, RulesMap, family_eq}
use sakamoto_snort.IpRules.Engine.{
  EngineError, invalid_client_rule_id, duplicate_client_rule_id, internal_duplicate_rule_id, Engine,
  ApplyResult, nok_result, validate_rule_def, emplace, apply_new_rules, wrap, same_bool, is_block,
}

pub record ApplyRule : Type 0 where
  pub client_rule_id : List ℕ
  pub family : Family
  pub action : Action
  pub priority : ℤ
  pub enabled : Bool
  pub enforce : Bool
  pub log : Bool
  pub dir : Direction
  pub iface : IfaceKind
  pub ifindex : ℕ
  pub proto : Proto
  pub src : Cidr ℕ
  pub dst : Cidr ℕ
  pub src6 : Cidr (List ℕ)
  pub dst6 : Cidr (List ℕ)
  pub sport : PortPredicate
  pub dport : PortPredicate
  pub ct_state : CtState
  pub ct_dir : CtDirection

abbrev between : ℕ → ℕ → ℕ → Bool
between lo hi c = leb lo c && leb c hi

-- A letter, a digit, or one of `.`, `_`, `:` and `-`.
abbrev is_id_char : ℕ → Bool
is_id_char c =
    (between 48 57 c || (between 65 90 c || between 97 122 c))
    || ((c == 46) || ((c == 95) || ((c == 58) || (c == 45))))

abbrev all_id_chars : List ℕ → Bool
all_id_chars [] = true
all_id_chars (c ∷ cs) = is_id_char c && all_id_chars cs

unfoldable pub is_valid_client_rule_id : List ℕ → Bool
is_valid_client_rule_id id =
    if (length id == 0) || ltb 64 (length id) then false else all_id_chars id

unfoldable pub seen : List ℕ → List (List ℕ) → Bool
seen id [] = false
seen id (other ∷ ids) = bytes_eq id other || seen id ids

-- The first loop: the error that it returns with, if it does.
unfoldable pub check_client_ids : List ApplyRule → List (List ℕ) → Option EngineError
unfolding is_valid_client_rule_id seen
check_client_ids [] ids = none
check_client_ids (r ∷ rs) ids =
    let rest = check_client_ids rs (r.client_rule_id ∷ ids) in
    if not (is_valid_client_rule_id r.client_rule_id)
    then some invalid_client_rule_id
    else if seen r.client_rule_id ids
    then some duplicate_client_rule_id
    else rest

-- `prevByClientId`: the first of the app's rules with the client id.
unfoldable pub prev_by_client_id : ℕ → List ℕ → RulesMap → Option RuleState
prev_by_client_id uid id [] = none
prev_by_client_id uid id ((i, st) ∷ rules) =
    let rest = prev_by_client_id uid id rules in
    if (st.def.uid == uid)
      && (not (length st.def.client_rule_id == 0) && bytes_eq st.def.client_rule_id id)
    then some st
    else rest

abbrev same_cidr : Cidr ℕ → Cidr ℕ → Bool
same_cidr a b = same_bool a.any b.any && ((a.addr == b.addr) && (a.prefix == b.prefix))

abbrev same_cidr_v6 : Cidr (List ℕ) → Cidr (List ℕ) → Bool
same_cidr_v6 a b = same_bool a.any b.any && (bytes_eq a.addr b.addr && (a.prefix == b.prefix))

abbrev port_kind_code : PortKind → ℕ
port_kind_code PortKind.any = 0
port_kind_code PortKind.exact = 1
port_kind_code PortKind.range = 2

abbrev same_port : PortPredicate → PortPredicate → Bool
same_port a b =
    (port_kind_code a.kind == port_kind_code b.kind) && ((a.lo == b.lo) && (a.hi == b.hi))

unfoldable pub same_match : RuleDef → RuleDef → Bool
same_match a b =
    family_eq a.family b.family
    && ((dir_code a.dir == dir_code b.dir)
        && ((iface_code a.iface == iface_code b.iface)
            && ((a.ifindex == b.ifindex)
                && ((proto_code a.proto == proto_code b.proto)
                    && ((ct_state_code a.ct_state == ct_state_code b.ct_state)
                        && ((ct_dir_code a.ct_dir == ct_dir_code b.ct_dir)
                            && (same_cidr a.src b.src
                                && (same_cidr a.dst b.dst
                                    && (same_cidr_v6 a.src6 b.src6
                                        && (same_cidr_v6 a.dst6 b.dst6
                                            && (same_port a.sport b.sport
                                                && same_port a.dport b.dport)))))))))))

unfoldable pub same_behavior : RuleDef → RuleDef → Bool
same_behavior a b =
    same_bool (is_block a.action) (is_block b.action)
    && (eqb_ℤ a.priority b.priority
        && (same_bool a.enabled b.enabled
            && (same_bool a.enforce b.enforce && same_bool a.log b.log)))

-- The map without the app's rules.
unfoldable pub remove_uid : ℕ → RulesMap → RulesMap
remove_uid uid [] = []
remove_uid uid ((i, st) ∷ rules) =
    let rest = remove_uid uid rules in if st.def.uid == uid then rest else (i, st) ∷ rest

abbrev pub def_of : ℕ → ℕ → ApplyRule → RuleDef
def_of id uid r = record {
  rule_id = id;
  uid = uid;
  client_rule_id = r.client_rule_id;
  family = r.family;
  action = r.action;
  priority = r.priority;
  enabled = r.enabled;
  enforce = r.enforce;
  log = r.log;
  dir = r.dir;
  iface = r.iface;
  ifindex = r.ifindex;
  proto = r.proto;
  src = r.src;
  dst = r.dst;
  src6 = r.src6;
  dst6 = r.dst6;
  sport = r.sport;
  dport = r.dport;
  ct_state = r.ct_state;
  ct_dir = r.ct_dir;
}

-- The variables of the second loop: `newRules`, `nextRuleId`, `maxAllocatedRuleId`, and the next address.
pub record Staged : Type 0 where
  pub rules : RulesMap
  pub next_rule_id : ℕ
  pub max_allocated : Option ℕ
  pub fresh : ℕ

-- The rule's id, and the loop's variables once it is assigned.
unfoldable pub assign_id : Option RuleState → Staged → ℕ × Staged
assign_id (some prev) g = (prev.def.rule_id, g)
assign_id none g = (
  g.next_rule_id,
  record g { next_rule_id = wrap 32 (g.next_rule_id + 1); max_allocated = some g.next_rule_id },
)

-- The counters of the rule, and the next address.
unfoldable pub assign_stats : Option RuleState → RuleDef → ℕ → ℕ × ℕ
unfolding same_match same_behavior
assign_stats none d fresh = (fresh, fresh + 1)
assign_stats (some prev) d fresh =
    if same_match prev.def d && same_behavior prev.def d
    then (prev.stats, fresh)
    else (fresh, fresh + 1)

-- A round of the second loop: its error, or the variables after it.
unfoldable pub stage_rule : ℕ → RulesMap → ApplyRule → Staged → Option EngineError × Staged
unfolding prev_by_client_id assign_id assign_stats validate_rule_def emplace
stage_rule uid old r g =
    let prev = prev_by_client_id uid r.client_rule_id old in
    let (id, g') = assign_id prev g in
    let d = def_of id uid r in
    let (stats, fresh) = assign_stats prev d g'.fresh in
    elim (validate_rule_def d) [
      | some e ↦ (some e, g')
      | none ↦ elim (emplace id (record { def = d; stats = stats }) g'.rules) [
        | none ↦ (some internal_duplicate_rule_id, record g' { fresh = fresh })
        | some rules ↦ (none, record g' { rules = rules; fresh = fresh })
      ]
    ]

unfoldable pub stage_rules : ℕ → RulesMap → List ApplyRule → Staged → Option EngineError × Staged
unfolding stage_rule
stage_rules uid old [] g = (none, g)
stage_rules uid old (r ∷ rs) g =
    let round = stage_rule uid old r g in
    elim round.0 [ some e ↦ round | none ↦ stage_rules uid old rs round.1 ]

unfoldable pub stage_start : ℕ → Engine → Staged
unfolding remove_uid
stage_start uid s = record {
  rules = remove_uid uid s.rules;
  next_rule_id = s.next_rule_id;
  max_allocated = none;
  fresh = s.fresh;
}

-- What follows the second loop.
unfoldable pub finish_replace : Engine → Option EngineError × Staged → Engine × ApplyResult
unfolding apply_new_rules
finish_replace s (some e, g) = (record s { fresh = g.fresh }, nok_result e)
finish_replace s (none, g) = apply_new_rules g.rules g.max_allocated (record s { fresh = g.fresh })

unfoldable pub replace_rules_for_uid : ℕ → List ApplyRule → Engine → Engine × ApplyResult
unfolding check_client_ids stage_rules stage_start finish_replace
replace_rules_for_uid uid rs s = elim (check_client_ids rs []) [
  | some e ↦ (s, nok_result e)
  | none ↦ finish_replace s (stage_rules uid s.rules rs (stage_start uid s))
]
