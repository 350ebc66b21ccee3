-- ===== src/Control/Rule.antt =====
-- The rules of `IPRULES.APPLY` as src/ControlVNextSessionCommandsIpRules.cpp reads them from the JSON of a
-- request: a round of the handler's loop over `args.rules`. An error is its code.
use Prim.Native.String.{String}
use sakamoto_snort.Common.{
  ℕ, Bool, not, ◌&&◌, ◌||◌, List, [], ◌∷◌, Option, none, some, is_some, ltb, ◌==◌, if◌then◌else◌,
}
use sakamoto_snort.IpRules.Rule.{Family, Cidr, is_any, proto_code}
use sakamoto_snort.IpRules.Replace.{ApplyRule, is_valid_client_rule_id}
use sakamoto_snort.Checkpoint.Json.{
  JsonLib, object, array, Result, ok, err, invalid_argument, missing_argument, syntax_error, ◌>>=◌,
  ◌>>◌, check, keys_of, has_unknown_key, member, as_uint, as_i32, as_string,
}
use sakamoto_snort.Checkpoint.Masks.{same_bytes, accept}
use sakamoto_snort.Checkpoint.Valid.{elem}
use sakamoto_snort.Control.Words.{
  Inet, any_v4, any_v6, parse_cidr_text_v4, parse_cidr_text_v6, parse_port_text,
}
use sakamoto_snort.Control.Enums.{
  parse_action, parse_family, parse_direction, parse_iface, parse_proto, parse_ct_state,
  parse_ct_direction,
}

abbrev pub rule_keys : List String
rule_keys =
    "clientRuleId" ∷ "action" ∷ "priority" ∷ "enabled" ∷ "enforce" ∷ "log" ∷ "family" ∷ "dir"
    ∷ "iface" ∷ "ifindex" ∷ "proto" ∷ "ct" ∷ "src" ∷ "dst" ∷ "sport" ∷ "dport" ∷ []

module _ (lib : JsonLib) where
  -- A failing `findUnknownKey` is a `SYNTAX_ERROR`; it passes what is not an object.
  unfoldable pub known_only : List String → lib.Value → Result (Unit {0})
  known_only allowed v = elim (lib.view v) [
    | object ms ↦ if has_unknown_key allowed (keys_of ms) then err syntax_error else ok tt
    | _ ↦ ok tt
  ]

  unfoldable pub require_object : lib.Value → Result (Unit {0})
  require_object v = elim (lib.view v) [ object ms ↦ ok tt | _ ↦ err invalid_argument ]

  unfoldable pub as_array : lib.Value → Result (List lib.Value)
  as_array v = elim (lib.view v) [ array vs ↦ ok vs | _ ↦ err invalid_argument ]

  -- `FindMember`, where a missing member is a `MISSING_ARGUMENT`.
  unfoldable pub field : String → lib.Value → Result lib.Value
  unfolding member
  field key v = elim (member lib key v) [ none ↦ err missing_argument | some w ↦ ok w ]

  unfoldable pub has_member : String → lib.Value → Bool
  unfolding member
  has_member key v = is_some (member lib key v)

  -- `isValidToggleValue`
  unfoldable pub as_toggle : lib.Value → Result Bool
  unfolding as_uint
  as_toggle v = do n ← as_uint lib 32 v; check (not (ltb 1 n)) invalid_argument; ok (n == 1)

  -- A string member that a `parse` function accepts.
  unfoldable pub word : {A : Type 0} → (List ℕ → Option A) → String → lib.Value → Result A
  unfolding field as_string
  word parse key v = do w ← field key v; s ← as_string lib w; accept (parse s)

  -- `src` or `dst`: the CIDR of the rule's family, the other one `any`.
  unfoldable pub cidrs : Inet → Family → String → lib.Value → Result (Cidr ℕ × Cidr (List ℕ))
  unfolding field as_string parse_cidr_text_v4 parse_cidr_text_v6
  cidrs net Family.ipv4 key v = do
    w ← field key v
    s ← as_string lib w
    c ← accept (parse_cidr_text_v4 net s)
    ok (c, any_v6)
  cidrs net Family.ipv6 key v = do
    w ← field key v
    s ← as_string lib w
    c ← accept (parse_cidr_text_v6 net s)
    ok (any_v4, c)

  -- One rule, with the client ids `seen` before it.
  unfoldable pub parse_rule : Inet → List (List ℕ) → lib.Value → Result ApplyRule
  parse_rule net seen v = do
    require_object v
    check (not (has_member "ruleId" v)) invalid_argument
    check (not (has_member "matchKey" v)) invalid_argument
    check (not (has_member "stats" v)) invalid_argument
    known_only rule_keys v
    id_value ← field "clientRuleId" v
    client_rule_id ← as_string lib id_value
    check (is_valid_client_rule_id client_rule_id) invalid_argument
    check (not (elem same_bytes client_rule_id seen)) invalid_argument
    action ← word parse_action "action" v
    priority_value ← field "priority" v
    priority ← as_i32 lib priority_value
    enabled_value ← field "enabled" v
    enabled ← as_toggle enabled_value
    enforce_value ← field "enforce" v
    enforce ← as_toggle enforce_value
    log_value ← field "log" v
    log ← as_toggle log_value
    family ← word parse_family "family" v
    dir ← word parse_direction "dir" v
    iface ← word parse_iface "iface" v
    ifindex_value ← field "ifindex" v
    ifindex ← as_uint lib 32 ifindex_value
    proto ← word parse_proto "proto" v
    ct ← field "ct" v
    require_object ct
    known_only ("state" ∷ "direction" ∷ []) ct
    ct_state ← word parse_ct_state "state" ct
    ct_dir ← word parse_ct_direction "direction" ct
    src ← cidrs net family "src" v
    dst ← cidrs net family "dst" v
    sport ← word parse_port_text "sport" v
    dport ← word parse_port_text "dport" v
    check
        (not (
          ((proto_code proto == 1) || (proto_code proto == 255))
          && (not (is_any sport) || not (is_any dport))))
        invalid_argument
    ok (record {
      client_rule_id = client_rule_id;
      family = family;
      action = action;
      priority = priority;
      enabled = enabled;
      enforce = enforce;
      log = log;
      dir = dir;
      iface = iface;
      ifindex = ifindex;
      proto = proto;
      src = src.0;
      dst = dst.0;
      src6 = src.1;
      dst6 = dst.1;
      sport = sport;
      dport = dport;
      ct_state = ct_state;
      ct_dir = ct_dir;
    })

  -- The loop over `args.rules`.
  unfoldable pub parse_rules : Inet → List (List ℕ) → List lib.Value → Result (List ApplyRule)
  unfolding parse_rule
  parse_rules net seen [] = ok []
  parse_rules net seen (v ∷ vs) = do
    r ← parse_rule net seen v
    rs ← parse_rules net (r.client_rule_id ∷ seen) vs
    ok (r ∷ rs)
