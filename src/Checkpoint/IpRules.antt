-- ===== src/Checkpoint/IpRules.antt =====
-- The section of a bundle for the IP rules: the `make` and `parse` functions of
-- src/PolicyCheckpoint.cpp. The casts are those of Enums.antt.
use Prim.Native.String.{String}
use sakamoto_snort.Common.{
  ℕ, ◌%◌, ◌^◌, not, ◌||◌, List, [], ◌∷◌, map, Option, ltb, ◌==◌, if◌then◌else◌, length,
}
use sakamoto_snort.IpRules.Rule.{
  PortPredicate, Cidr, RuleDef, dir_code, iface_code, proto_code, ct_state_code, ct_dir_code,
}
use sakamoto_snort.IpRules.Engine.{PolicySnapshot}
use sakamoto_snort.Checkpoint.Enums.{
  named, family_code, action_code, port_kind_code, family_of, action_of, direction_of, iface_of,
  proto_of, ct_state_of, ct_direction_of, port_kind_of,
}
use sakamoto_snort.Checkpoint.Json.{
  JsonLib, array, Result, ok, err, invalid_argument, ◌>>=◌, ◌>>◌, check,
  reject_unknown_or_duplicate, require_member, require_bool, require_u32, require_i32,
  require_string, as_uint, parse_array, parse_items, make_u32_array,
}

abbrev pub port_predicate_keys : List String
port_predicate_keys = "kind" ∷ "lo" ∷ "hi" ∷ []

abbrev pub cidr_v4_keys : List String
cidr_v4_keys = "any" ∷ "addr" ∷ "prefix" ∷ []

abbrev pub cidr_v6_keys : List String
cidr_v6_keys = "any" ∷ "addr" ∷ "prefix" ∷ []

abbrev pub ip_rule_keys : List String
ip_rule_keys =
    "ruleId" ∷ "uid" ∷ "clientRuleId" ∷ "family" ∷ "action" ∷ "priority" ∷ "enabled" ∷ "enforce"
    ∷ "log" ∷ "dir" ∷ "iface" ∷ "ifindex" ∷ "proto" ∷ "src" ∷ "dst" ∷ "src6" ∷ "dst6" ∷ "sport"
    ∷ "dport" ∷ "ctState" ∷ "ctDir" ∷ []

abbrev pub ip_rules_keys : List String
ip_rules_keys = "nextRuleId" ∷ "rules" ∷ []

module _ (lib : JsonLib) where
  unfoldable pub parse_port_predicate : lib.Value → Result PortPredicate
  parse_port_predicate v = do
    reject_unknown_or_duplicate lib port_predicate_keys v
    kind ← require_u32 lib "kind" v
    lo ← require_u32 lib "lo" v
    hi ← require_u32 lib "hi" v
    check (not (ltb 2 kind || ltb 65535 lo || ltb 65535 hi)) invalid_argument
    ok (record { kind = port_kind_of kind; lo = lo; hi = hi })

  abbrev pub port_predicate_members : PortPredicate → List (String × lib.Value)
  port_predicate_members p =
      ("kind", lib.of_uint (port_kind_code p.kind))
      ∷ ("lo", lib.of_uint p.lo)
      ∷ ("hi", lib.of_uint p.hi)
      ∷ []

  unfoldable pub make_port_predicate : PortPredicate → lib.Value
  make_port_predicate p = lib.of_object (port_predicate_members p)

  unfoldable pub parse_cidr_v4 : lib.Value → Result (Cidr ℕ)
  parse_cidr_v4 v = do
    reject_unknown_or_duplicate lib cidr_v4_keys v
    any ← require_bool lib "any" v
    addr ← require_u32 lib "addr" v
    prefix ← require_u32 lib "prefix" v
    check (not (ltb 32 prefix)) invalid_argument
    ok (record { any = any; addr = addr; prefix = prefix })

  abbrev pub cidr_v4_members : Cidr ℕ → List (String × lib.Value)
  cidr_v4_members c =
      ("any", lib.of_bool c.any)
      ∷ ("addr", lib.of_uint c.addr)
      ∷ ("prefix", lib.of_uint c.prefix)
      ∷ []

  unfoldable pub make_cidr_v4 : Cidr ℕ → lib.Value
  make_cidr_v4 c = lib.of_object (cidr_v4_members c)

  -- One item of the address.
  unfoldable pub as_byte : lib.Value → Result ℕ
  unfolding as_uint
  as_byte v = do n ← as_uint lib 32 v; check (not (ltb 255 n)) invalid_argument; ok n

  -- `IsArray`, `Size` and the loop over the items.
  unfoldable pub as_address : lib.Value → Result (List ℕ)
  unfolding as_byte parse_items
  as_address v = elim (lib.view v) [
    | array vs ↦ if not (length vs == 16) then err invalid_argument else parse_items lib as_byte vs
    | _ ↦ err invalid_argument
  ]

  unfoldable pub parse_cidr_v6 : lib.Value → Result (Cidr (List ℕ))
  parse_cidr_v6 v = do
    reject_unknown_or_duplicate lib cidr_v6_keys v
    any ← require_bool lib "any" v
    prefix ← require_u32 lib "prefix" v
    check (not (ltb 128 prefix)) invalid_argument
    w ← require_member lib "addr" v
    addr ← as_address w
    ok (record { any = any; addr = addr; prefix = prefix })

  abbrev pub cidr_v6_members : Cidr (List ℕ) → List (String × lib.Value)
  cidr_v6_members c =
      ("any", lib.of_bool c.any)
      ∷ ("addr", make_u32_array lib c.addr)
      ∷ ("prefix", lib.of_uint c.prefix)
      ∷ []

  unfoldable pub make_cidr_v6 : Cidr (List ℕ) → lib.Value
  make_cidr_v6 c = lib.of_object (cidr_v6_members c)

  -- A cast of a member to an enumeration of bytes.
  unfoldable pub require_enum : {A : Type 0} → (ℕ → Option A) → String → lib.Value → Result A
  unfolding require_u32
  require_enum value key v = do n ← require_u32 lib key v; named (value (n % 2 ^ 8))

  unfoldable pub parse_ip_rule : lib.Value → Result RuleDef
  parse_ip_rule v = do
    reject_unknown_or_duplicate lib ip_rule_keys v
    rule_id ← require_u32 lib "ruleId" v
    uid ← require_u32 lib "uid" v
    client_rule_id ← require_string lib "clientRuleId" v
    family ← require_enum family_of "family" v
    action ← require_enum action_of "action" v
    priority ← require_i32 lib "priority" v
    enabled ← require_bool lib "enabled" v
    enforce ← require_bool lib "enforce" v
    log ← require_bool lib "log" v
    dir ← require_enum direction_of "dir" v
    iface ← require_enum iface_of "iface" v
    ifindex ← require_u32 lib "ifindex" v
    proto ← require_enum proto_of "proto" v
    src_value ← require_member lib "src" v
    dst_value ← require_member lib "dst" v
    src6_value ← require_member lib "src6" v
    dst6_value ← require_member lib "dst6" v
    sport_value ← require_member lib "sport" v
    dport_value ← require_member lib "dport" v
    src ← parse_cidr_v4 src_value
    dst ← parse_cidr_v4 dst_value
    src6 ← parse_cidr_v6 src6_value
    dst6 ← parse_cidr_v6 dst6_value
    sport ← parse_port_predicate sport_value
    dport ← parse_port_predicate dport_value
    ct_state ← require_enum ct_state_of "ctState" v
    ct_dir ← require_enum ct_direction_of "ctDir" v
    ok (record {
      rule_id = rule_id;
      uid = uid;
      client_rule_id = client_rule_id;
      family = family;
      action = action;
      priority = priority;
      enabled = enabled;
      enforce = enforce;
      log = log;
      dir = dir;
      iface = iface;
      ifindex = ifindex;
      proto = proto;
      src = src;
      dst = dst;
      src6 = src6;
      dst6 = dst6;
      sport = sport;
      dport = dport;
      ct_state = ct_state;
      ct_dir = ct_dir;
    })

  abbrev pub ip_rule_members : RuleDef → List (String × lib.Value)
  ip_rule_members r =
      ("ruleId", lib.of_uint r.rule_id)
      ∷ ("uid", lib.of_uint r.uid)
      ∷ ("clientRuleId", lib.of_string r.client_rule_id)
      ∷ ("family", lib.of_uint (family_code r.family))
      ∷ ("action", lib.of_uint (action_code r.action))
      ∷ ("priority", lib.of_int r.priority)
      ∷ ("enabled", lib.of_bool r.enabled)
      ∷ ("enforce", lib.of_bool r.enforce)
      ∷ ("log", lib.of_bool r.log)
      ∷ ("dir", lib.of_uint (dir_code r.dir))
      ∷ ("iface", lib.of_uint (iface_code r.iface))
      ∷ ("ifindex", lib.of_uint r.ifindex)
      ∷ ("proto", lib.of_uint (proto_code r.proto))
      ∷ ("src", make_cidr_v4 r.src)
      ∷ ("dst", make_cidr_v4 r.dst)
      ∷ ("src6", make_cidr_v6 r.src6)
      ∷ ("dst6", make_cidr_v6 r.dst6)
      ∷ ("sport", make_port_predicate r.sport)
      ∷ ("dport", make_port_predicate r.dport)
      ∷ ("ctState", lib.of_uint (ct_state_code r.ct_state))
      ∷ ("ctDir", lib.of_uint (ct_dir_code r.ct_dir))
      ∷ []

  unfoldable pub make_ip_rule : RuleDef → lib.Value
  make_ip_rule r = lib.of_object (ip_rule_members r)

  unfoldable pub parse_ip_rules : lib.Value → Result PolicySnapshot
  parse_ip_rules v = do
    reject_unknown_or_duplicate lib ip_rules_keys v
    next_rule_id ← require_u32 lib "nextRuleId" v
    rules ← parse_array lib "rules" parse_ip_rule v
    ok (record { next_rule_id = next_rule_id; rules = rules })

  abbrev pub ip_rules_members : PolicySnapshot → List (String × lib.Value)
  ip_rules_members p =
      ("nextRuleId", lib.of_uint p.next_rule_id)
      ∷ ("rules", lib.of_array (map make_ip_rule p.rules))
      ∷ []

  unfoldable pub make_ip_rules : PolicySnapshot → lib.Value
  make_ip_rules p = lib.of_object (ip_rules_members p)
