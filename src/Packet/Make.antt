-- ===== src/Packet/Make.antt =====
-- `PacketManager::make` of src/PacketManager.hpp and src/PacketReasons.hpp: what it returns, in what
-- order it asks the interface mask, the IP rules and the domain policy, and what it tells the other
-- components, as a list of effects. The conntrack is a parameter (its own functions are those of
-- Conntrack.antt), as are the IP rules' snapshot and the domain policy's answer for the packet's
-- host. The stages of the explanation and the event streams, which read the same values and change
-- no verdict, are left out.
use sakamoto_snort.Common.{
  ℕ, ◌+◌, ◌*◌, ◌/◌, ◌%◌, ◌^◌, Bool, true, false, not, ◌&&◌, ◌||◌, List, [], ◌∷◌, ◌++◌, Option, none,
  some, bit_and, ◌==◌, if◌then◌else◌,
}
use sakamoto_snort.IpRules.Rule.{PacketKey}
use sakamoto_snort.IpRules.Table.{DecisionKind, DecisionData}
use sakamoto_snort.Conntrack.Update.{CtResult, invalid_result}
use sakamoto_snort.Ipv6.Walker.{
  L4Status, known_l4, other_terminal, fragment, invalid_or_unavailable_l4,
}
use sakamoto_snort.Domain.Policy.{Color, grey}

pub data PacketReasonId : Type 0 where
  iface_block ip_leak_block allow_default ip_rule_allow ip_rule_block : PacketReasonId

-- The arguments and what is read of the app, the host and the settings. `has_ct_packet` says that the
-- conntrack packet of the family is not null.
pub record Request (A : Type 0) : Type 0 where
  pub app_uid : ℕ
  pub is_ipv6 : Bool
  pub src_ip : A
  pub dst_ip : A
  pub input : Bool
  pub iface : ℕ
  pub len : ℕ
  pub iface_kind_bit : ℕ
  pub app_iface_mask : ℕ
  pub l4_status : L4Status
  pub proto : ℕ
  pub src_port : ℕ
  pub dst_port : ℕ
  pub ports_available : ℕ
  pub has_ct_packet : Bool
  pub tracked : Bool
  pub telemetry_active : Bool
  pub ip_rules_enabled : Bool
  pub block_ip_leaks : Bool
  -- `host->domain()` and its `validIP()`, and `app->blocked(domain)` with that domain and without one.
  pub has_valid_ip : Bool
  pub blocked_domain : Bool × Color
  pub blocked_null : Bool × Color

-- The tracker, as this client uses it.
pub record Tracker : Type 1 where
  pub State : Type 0
  pub View : Type 0
  pub inspect : State → View × State
  pub result : View → CtResult
  -- The view's state and direction as numbers.
  pub state_code : View → ℕ
  pub direction_code : View → ℕ
  pub commit : View → State → State
  -- `observeFlowTelemetry`, which enters, sweeps and re-times flows, of dropped packets too.
  pub observe : Bool → PacketReasonId → Option ℕ → CtResult → State → State

pub record Rules (A : Type 0) : Type 0 where
  pub epoch : ℕ
  pub uid_uses_ct : Bool → ℕ → Bool
  pub evaluate : PacketKey A → DecisionData

pub data Counter : Type 0 where
  packets bytes : Counter

pub data Effect : Type 0 where
  observe_reason : PacketReasonId → ℕ → Effect
  observe_traffic : Bool → Bool → ℕ → Effect
  update_stats : Bool → Bool → Color → Bool → Counter → ℕ → Effect
  enforce_hit : DecisionData → ℕ → Effect
  would_hit : DecisionData → ℕ → Effect
  telemetry : Bool → PacketReasonId → Option ℕ → CtResult → Effect

-- `l4AllowsCt`
abbrev pub l4_allows_ct : L4Status → Bool
l4_allows_ct known_l4 = true
l4_allows_ct other_terminal = true
l4_allows_ct fragment = false
l4_allows_ct invalid_or_unavailable_l4 = false

abbrev is_invalid : L4Status → Bool
is_invalid known_l4 = false
is_invalid other_terminal = false
is_invalid fragment = false
is_invalid invalid_or_unavailable_l4 = true

-- `ipRulesProtoTok`: TCP is 6, UDP 17, ICMP 1 and ICMPv6 58.
unfoldable pub proto_token : ℕ → L4Status → ℕ
proto_token p status =
    if p == 6
    then 6
    else if p == 17
    then 17
    else if (p == 1) || (p == 58)
    then 1
    else if is_invalid status
    then 254
    else 255

-- `IpRulesCapsCache` of src/IpRulesCapsCache.hpp: an epoch of 56 bits and a mask of 8 in one word.
unfoldable pub uses_ct_mask_if_fresh : ℕ → ℕ → Option ℕ
uses_ct_mask_if_fresh packed epoch = if packed / 256 == epoch then some (packed % 256) else none

unfoldable pub packed_mask : ℕ → ℕ → ℕ
packed_mask epoch mask = epoch * 256 % 2 ^ 64 + mask

abbrev pub family_bit : Bool → ℕ
family_bit is_ipv6 = if is_ipv6 then 2 else 1

abbrev pub caps_mask : Bool → Bool → ℕ
caps_mask v4 v6 = (if v4 then 1 else 0) + (if v6 then 2 else 0)

-- The test of the app's mask, with the cache it leaves; the first Boolean is for IPv6.
unfoldable pub uses_ct : Bool → (Bool → Bool) → ℕ → ℕ → Bool × ℕ
uses_ct is_ipv6 uid_uses_ct epoch packed =
    let fresh = caps_mask (uid_uses_ct false) (uid_uses_ct true) in
    if epoch == 0 then (false, packed) else elim (uses_ct_mask_if_fresh packed epoch) [
      | some mask ↦ (not (bit_and mask (family_bit is_ipv6) == 0), packed)
      | none ↦ (not (bit_and fresh (family_bit is_ipv6) == 0), packed_mask epoch fresh)
    ]

module _ {A : Type 0} where
  -- `observeTelemetryFlow`, as a call.
  unfoldable pub telemetry_effects :
      Request A → Bool → PacketReasonId → Option ℕ → CtResult → List Effect
  telemetry_effects q verdict reason id ct =
      if not q.telemetry_active
      then []
      else if not q.has_ct_packet
      then []
      else telemetry verdict reason id ct ∷ []

  unfoldable pub stats_effects : Request A → Bool → Bool → Color → List Effect
  stats_effects q has_domain blocked color =
      if q.tracked
      then update_stats has_domain blocked color q.input packets 1
        ∷ update_stats has_domain blocked color q.input bytes q.len
        ∷ []
      else []

  abbrev pub counted : Request A → Bool → PacketReasonId → List Effect
  counted q verdict reason =
      observe_reason reason q.len ∷ observe_traffic q.input verdict q.len ∷ []

module _ (tracker : Tracker) where
  -- The conntrack and the app's cache.
  pub record World : Type 0 where
    pub ct : tracker.State
    pub packed : ℕ

  pub record Outcome : Type 0 where
    pub verdict : Bool
    pub reason : PacketReasonId
    pub rule_id : Option ℕ
    pub would_rule_id : Option ℕ
    pub effects : List Effect
    pub world : World

  -- `currentCtResult`
  abbrev pub current_result : Option tracker.View → CtResult
  current_result none = invalid_result
  current_result (some v) = tracker.result v

  module _ {A : Type 0} where
    -- `ensureCtPolicyView`: the view and the conntrack after it.
    unfoldable pub ensure_view :
        Request A → Option tracker.View → tracker.State → Option tracker.View × tracker.State
    ensure_view q (some v) s = (some v, s)
    ensure_view q none s =
        if not (l4_allows_ct q.l4_status)
        then (none, s)
        else if not q.has_ct_packet
        then (none, s)
        else (let (v, s') = tracker.inspect s in (some v, s'))

    -- `commitAccepted` under its guards.
    unfoldable pub commit_view :
        Request A → Bool → Option tracker.View → tracker.State → tracker.State
    commit_view q verdict none s = s
    commit_view q verdict (some v) s = if verdict && q.has_ct_packet then tracker.commit v s else s

    -- `observeTelemetryFlow`, in the conntrack.
    unfoldable pub observe_flow :
        Request A → Bool → PacketReasonId → Option ℕ → CtResult → tracker.State → tracker.State
    observe_flow q verdict reason id ct s =
        if not q.telemetry_active
        then s
        else if not q.has_ct_packet
        then s
        else tracker.observe verdict reason id ct s

    unfoldable pub iface_outcome : Request A → World → Outcome
    iface_outcome q w =
        let (view, s) = if q.telemetry_active then ensure_view q none w.ct else (none, w.ct) in
        record {
          verdict = false;
          reason = iface_block;
          rule_id = none;
          would_rule_id = none;
          effects =
              counted q false iface_block
              ++ stats_effects q false true grey
              ++ telemetry_effects q false iface_block none (current_result view);
          world = record w { ct = observe_flow q false iface_block none (current_result view) s };
        }

    -- The key, with the conntrack's answer when a rule or the telemetry asks for it.
    unfoldable pub packet_key : Request A → Bool → Option tracker.View → PacketKey A
    packet_key q asks view = record {
      uid = q.app_uid;
      dir = if q.input then 0 else 1;
      iface_kind = q.iface_kind_bit;
      proto = proto_token q.proto q.l4_status;
      ifindex = q.iface;
      src_ip = q.src_ip;
      dst_ip = q.dst_ip;
      src_port = q.src_port;
      dst_port = q.dst_port;
      ports_available = q.ports_available;
      ct_state = if not asks then 0 else elim view [ none ↦ 3 | some v ↦ tracker.state_code v ];
      ct_dir = if not asks then 0 else elim view [ none ↦ 0 | some v ↦ tracker.direction_code v ];
    }

    -- The IP rules: the decision, the view and the world after them.
    unfoldable pub ask_rules :
        Request A → Rules A → World → DecisionData × Option tracker.View × World
    ask_rules q rules w =
        let (asked, packed) =
          uses_ct q.is_ipv6 (λ v6. rules.uid_uses_ct v6 q.app_uid) rules.epoch w.packed in
        let asks = asked || q.telemetry_active in
        let (view, s) = if asks then ensure_view q none w.ct else (none, w.ct) in
        (rules.evaluate (packet_key q asks view), view, record { ct = s; packed = packed })

    unfoldable pub enforce_outcome :
        Request A → Bool → DecisionData → Option tracker.View → World → Outcome
    enforce_outcome q verdict d view w =
        let reason = if verdict then ip_rule_allow else ip_rule_block in
        record {
          verdict = verdict;
          reason = reason;
          rule_id = some d.rule_id;
          would_rule_id = none;
          effects =
              (enforce_hit d q.len ∷ [])
              ++ counted q verdict reason
              ++ stats_effects q false (not verdict) grey
              ++ telemetry_effects q verdict reason (some d.rule_id) (current_result view);
          world = record w {
            ct =
                observe_flow q verdict reason (some d.rule_id) (current_result view)
                  (commit_view q verdict view w.ct);
          };
        }

    -- The domain path, with the would-block decision of the rules.
    unfoldable pub domain_outcome :
        Request A → Option DecisionData → Option tracker.View → World → Outcome
    domain_outcome q would view w =
        let (blocked, color) = if q.has_valid_ip then q.blocked_domain else q.blocked_null in
        let leak = q.block_ip_leaks && blocked && q.has_valid_ip in
        let verdict = not leak in
        let reason = if leak then ip_leak_block else allow_default in
        let (view', s) = if q.telemetry_active then ensure_view q view w.ct else (view, w.ct) in
        let would_seen = elim would as (λ _. List Effect) [
          | none ↦ []
          | some d ↦ if verdict then would_hit d q.len ∷ [] else []
        ] in
        record {
          verdict = verdict;
          reason = reason;
          rule_id = none;
          would_rule_id = elim would [
            | none ↦ none
            | some d ↦ if verdict then some d.rule_id else none
          ];
          effects =
              telemetry_effects q verdict reason none (current_result view')
              ++ would_seen
              ++ counted q verdict reason
              ++ stats_effects q q.has_valid_ip (not verdict) color;
          world = record w {
            ct =
                observe_flow q verdict reason none (current_result view')
                  (commit_view q verdict view' s);
          };
        }

    -- What follows the rules' decision.
    unfoldable pub after_rules : Request A → DecisionData → Option tracker.View → World → Outcome
    after_rules q d view w = elim d.kind [
      | DecisionKind.allow ↦ enforce_outcome q true d view w
      | DecisionKind.block ↦ enforce_outcome q false d view w
      | DecisionKind.would_block ↦ domain_outcome q (some d) view w
      | DecisionKind.nomatch ↦ domain_outcome q none view w
    ]

    -- `make`; no snapshot is one that is not valid.
    unfoldable pub make : Request A → Option (Rules A) → World → Outcome
    make q rules w =
        if not (bit_and q.app_iface_mask q.iface_kind_bit == 0)
        then iface_outcome q w
        else if not q.ip_rules_enabled
        then domain_outcome q none none w
        else elim rules [
          | none ↦ domain_outcome q none none w
          | some r ↦ (let (d, view, w') = ask_rules q r w in after_rules q d view w')
        ]
