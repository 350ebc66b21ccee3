-- ===== src/IpRules/Compile.antt =====
-- `IpRulesEngine::compile` of src/IpRulesEngine.cpp, without its report (that is `Report`): the loop
-- that files every enabled rule of one address family under its uid, signature and masked key, and
-- the loop that sorts what it filed into views. The source runs the two families side by side.
use sakamoto_snort.Common.{
  ℕ, zero, suc, Bool, true, false, not, ◌&&◌, ◌||◌, List, [], ◌∷◌, ◌++◌, map, ltb, ◌==◌,
  if◌then◌else◌, max_ℤ, length, get_or, upsert, sort,
}
use sakamoto_snort.IpRules.Rule.{
  Family, RuleDef, RuleRef, has_range_ports, ct_state_code, ct_dir_code,
}
use sakamoto_snort.IpRules.Family.{Ip}
use sakamoto_snort.IpRules.Signature.{
  MaskSig, sig_eq, sig_less, key_eq, mask_sig_for_rule, masked_key_from_rule,
}
use sakamoto_snort.IpRules.Table.{
  Lane, enforcing, would, Bucket, Subtable, UidView, no_priority, sort_all, order_less,
}

-- `stats` is the address of the rule's counters.
pub record RuleState : Type 0 where
  pub def : RuleDef
  pub stats : ℕ

-- `std::map<RuleId, RuleState>`, by ascending id.
abbrev pub RulesMap : Type 0
RulesMap = List (ℕ × RuleState)

abbrev pub family_eq : Family → Family → Bool
family_eq Family.ipv4 Family.ipv4 = true
family_eq Family.ipv4 Family.ipv6 = false
family_eq Family.ipv6 Family.ipv4 = false
family_eq Family.ipv6 Family.ipv6 = true

abbrev pub lane_of : RuleDef → Lane
lane_of d = if d.enforce then enforcing else would

abbrev pub empty_bucket : {A : Type 0} → Bucket A
empty_bucket = record { exact_enforce = []; range_enforce = []; exact_would = []; range_would = [] }

abbrev pub empty_subtable : {A : Type 0} → Subtable A
empty_subtable = record {
  sig = record {
    dir = false;
    iface = false;
    ifindex = false;
    proto = false;
    ct_state = false;
    ct_dir = false;
    src_prefix = 255;
    dst_prefix = 255;
    sport_exact = false;
    dport_exact = false;
  };
  max_enforce_priority = no_priority;
  max_would_priority = no_priority;
  buckets = [];
}

abbrev pub Tables : Type 0 → Type 0
Tables A = List (ℕ × List (MaskSig × Subtable A))

-- `push_back` on the vector that the rule belongs to.
unfoldable pub push : {A : Type 0} → Lane → Bool → RuleRef A → Bucket A → Bucket A
push enforcing true r b = record b { range_enforce = b.range_enforce ++ r ∷ [] }
push enforcing false r b = record b { exact_enforce = b.exact_enforce ++ r ∷ [] }
push would true r b = record b { range_would = b.range_would ++ r ∷ [] }
push would false r b = record b { exact_would = b.exact_would ++ r ∷ [] }

abbrev pub ct_consumer : RuleDef → Bool
ct_consumer d = not (ct_state_code d.ct_state == 0) || not (ct_dir_code d.ct_dir == 0)

unfoldable pub contains_uid : ℕ → List ℕ → Bool
contains_uid u [] = false
contains_uid u (v ∷ vs) = (u == v) || contains_uid u vs

abbrev pub upto : ℕ → ℕ → List ℕ
upto i zero = []
upto i (suc n) = i ∷ upto (suc i) n

-- `uidUsesCt4` and `uidUsesCt6`
unfoldable pub uids_using_ct : Family → RulesMap → List ℕ
uids_using_ct family [] = []
uids_using_ct family ((i, st) ∷ rules) =
    if st.def.enabled && (family_eq st.def.family family && ct_consumer st.def)
    then st.def.uid ∷ uids_using_ct family rules
    else uids_using_ct family rules

module _ {A : Type 0} where
  unfoldable pub sort_subtable : Subtable A → Subtable A
  sort_subtable t = record t { buckets = map (λ e. (e.0, sort_all e.1)) t.buckets }

  abbrev pub subtable_at : List (Subtable A) → ℕ → Subtable A
  subtable_at sts i = get_or sts i empty_subtable

  unfoldable pub sorted_order : Lane → List (Subtable A) → List ℕ
  unfolding order_less
  sorted_order lane sts =
      sort (λ a b. order_less lane (subtable_at sts a) (subtable_at sts b)) (upto 0 (length sts))

  unfoldable pub uid_view : Bool → List (MaskSig × Subtable A) → UidView A
  unfolding sort_subtable sorted_order
  uid_view uses_ct subtables_map =
      let sts = map (λ e. sort_subtable e.1) subtables_map in
      record {
        subtables = sts;
        enforce_order = sorted_order enforcing sts;
        would_order = sorted_order would sts;
        uses_ct = uses_ct;
      }

module _ {A : Type 0} ⦃ip : Ip A⦄ where
  unfoldable pub rule_ref : RuleState → RuleRef A
  rule_ref st = record {
    rule_id = st.def.rule_id;
    uid = st.def.uid;
    client_rule_id = st.def.client_rule_id;
    action = st.def.action;
    priority = st.def.priority;
    enforce = st.def.enforce;
    log = st.def.log;
    dir = st.def.dir;
    iface = st.def.iface;
    ifindex = st.def.ifindex;
    proto = st.def.proto;
    ct_state = st.def.ct_state;
    ct_dir = st.def.ct_dir;
    src = ip.src_of st.def;
    dst = ip.dst_of st.def;
    sport = st.def.sport;
    dport = st.def.dport;
    stats = st.stats;
  }

  -- What the loop's body does to the subtable of the rule's signature.
  unfoldable pub file_rule : RuleState → Subtable A → Subtable A
  unfolding push
  file_rule st t =
      let d = st.def in
      let s = mask_sig_for_rule ip d in
      record {
        sig = s;
        max_enforce_priority =
            if d.enforce then max_ℤ t.max_enforce_priority d.priority else t.max_enforce_priority;
        max_would_priority =
            if d.enforce then t.max_would_priority else max_ℤ t.max_would_priority d.priority;
        buckets =
            upsert key_eq (λ a b. false) empty_bucket
              (push (lane_of d) (has_range_ports d) (rule_ref st)) (masked_key_from_rule s d)
              t.buckets;
      }

  -- `uidTables4[def.uid][sig]`, and what the round does there.
  unfoldable pub file_at : Tables A → RuleState → Tables A
  unfolding file_rule
  file_at tables st =
      upsert ◌==◌ ltb []
        (upsert sig_eq sig_less empty_subtable (file_rule st) (mask_sig_for_rule ip st.def))
        st.def.uid tables

  -- A round of the loop over the rules, for one family.
  unfoldable pub add_rule : Tables A → RuleState → Tables A
  unfolding file_at
  add_rule tables st =
      if not st.def.enabled
      then tables
      else if not (family_eq st.def.family ip.family)
      then tables
      else file_at tables st

  unfoldable pub add_rules : Tables A → RulesMap → Tables A
  unfolding add_rule
  add_rules tables [] = tables
  add_rules tables ((i, st) ∷ rules) = add_rules (add_rule tables st) rules

  -- `Snapshot::byUid` and `Snapshot::byUid6`
  unfoldable pub compile_views : RulesMap → List (ℕ × UidView A)
  unfolding add_rules uid_view contains_uid uids_using_ct
  compile_views rules =
      map (λ e. (e.0, uid_view (contains_uid e.0 (uids_using_ct ip.family rules)) e.1))
        (add_rules [] rules)
