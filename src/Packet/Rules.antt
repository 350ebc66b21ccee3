-- ===== src/Packet/Rules.antt =====
-- `make` with the compiled rules: the decision that the list of rules asks for is the verdict.
use sakamoto_snort.Common.{
  ℕ, ◌≡◌, refl, sym, ap, ◌∙◌, subst, Bool, true, false, not, Option, none, some, bit_and, ◌==◌,
  if◌then◌else◌, All, ◌&&◌, ◌||◌, inl, inr, Bool-cases, Option-cases,
}
use sakamoto_snort.IpRules.Rule.{PacketKey}
use sakamoto_snort.IpRules.Family.{Ip}
use sakamoto_snort.IpRules.Table.{DecisionKind, DecisionData, evaluate}
use sakamoto_snort.IpRules.Compile.{RulesMap, compile_views}
use sakamoto_snort.IpRules.Correct.Match.{IsPacket}
use sakamoto_snort.IpRules.Correct.Verdict.{IsUsable, Decides, evaluate-Decides}
use sakamoto_snort.Packet.Make.{
  ip_rule_allow, ip_rule_block, Request, Tracker, Rules, World, Outcome, proto_token, packet_key,
  l4_allows_ct, family_bit, caps_mask, uses_ct_mask_if_fresh, uses_ct, ensure_view, ask_rules,
  enforce_outcome, domain_outcome, after_rules, make,
}

-- The snapshot that the engine publishes for a list of rules.
abbrev pub compiled_rules : {A : Type 0} ⦃ip : Ip A⦄ → ℕ → (Bool → ℕ → Bool) → RulesMap → Rules A
compiled_rules epoch uses rules = record {
  epoch = epoch;
  uid_uses_ct = uses;
  evaluate = evaluate (compile_views rules);
}

-- Whether the rules of the packet's app and family ask for the conntrack, or the telemetry does.
abbrev pub asks_ct : {A : Type 0} → Request A → ℕ → (Bool → ℕ → Bool) → Bool
asks_ct q epoch uses = (not (epoch == 0) && uses q.is_ipv6 q.app_uid) || q.telemetry_active

-- The app's cached mask, when it is of the epoch, is that of its rules.
abbrev pub IsCacheOf : {A : Type 0} → Request A → ℕ → (Bool → ℕ → Bool) → ℕ → Type 0
IsCacheOf q epoch uses packed =
    (mask : ℕ)
    → uses_ct_mask_if_fresh packed epoch ≡ some mask
    → mask ≡ caps_mask (uses false q.app_uid) (uses true q.app_uid)

-- The state and the direction that a rule is matched with: of the lookup, or invalid (3) where there
-- can be none; zeros when nothing asks.
abbrev pub ct_codes : (tracker : Tracker) {A : Type 0} → Request A → Bool → tracker.State → ℕ × ℕ
ct_codes tracker q asks s =
    let v = (tracker.inspect s).0 in
    if not asks
    then (0, 0)
    else if l4_allows_ct q.l4_status && q.has_ct_packet
    then (tracker.state_code v, tracker.direction_code v)
    else (3, 0)

-- The key describes the packet, and the flow that the conntrack knows it of.
abbrev pub IsKeyOf :
    (tracker : Tracker) {A : Type 0} → Request A → Bool → tracker.State → PacketKey A → Type 0
IsKeyOf tracker q asks s k =
    (k.uid ≡ q.app_uid)
    × (k.dir ≡ (if q.input then 0 else 1))
    × (k.iface_kind ≡ q.iface_kind_bit)
    × (k.ifindex ≡ q.iface)
    × (k.src_ip ≡ q.src_ip)
    × (k.dst_ip ≡ q.dst_ip)
    × (k.src_port ≡ q.src_port)
    × (k.dst_port ≡ q.dst_port)
    × (k.ports_available ≡ q.ports_available)
    × (k.proto ≡ proto_token q.proto q.l4_status)
    × (k.ct_state ≡ (ct_codes tracker q asks s).0)
    × (k.ct_dir ≡ (ct_codes tracker q asks s).1)

mask_bit :
    (b v4 v6 : Bool)
    → (not (bit_and (caps_mask v4 v6) (family_bit b) == 0)) ≡ (if b then v6 else v4)
mask_bit false false false = refl
mask_bit false false true = refl
mask_bit false true false = refl
mask_bit false true true = refl
mask_bit true false false = refl
mask_bit true false true = refl
mask_bit true true false = refl
mask_bit true true true = refl

by_family : (b : Bool) (f : Bool → Bool) → (if b then f true else f false) ≡ f b
by_family true f = refl
by_family false f = refl

-- The cached mask answers as the rules do.
uses_ct-asks :
    (b : Bool) (f : Bool → Bool) (epoch packed : ℕ)
    → ((mask : ℕ)
        → uses_ct_mask_if_fresh packed epoch ≡ some mask
        → mask ≡ caps_mask (f false) (f true))
    → (uses_ct b f epoch packed).0 ≡ (not (epoch == 0) && f b)
unfolding uses_ct
uses_ct-asks b f epoch packed good = elim (Bool-cases (epoch == 0)) [
  | inl none_yet ↦ rw none_yet refl
  | inr some_epoch ↦ elim (Option-cases (uses_ct_mask_if_fresh packed epoch)) [
    | inl stale ↦ rw (some_epoch, stale) (mask_bit b (f false) (f true) ∙ by_family b f)
    | inr (mask, fresh) ↦
        let same : mask ≡ caps_mask (f false) (f true) = good mask fresh in
        rw (some_epoch, fresh, same) (mask_bit b (f false) (f true) ∙ by_family b f)
  ]
]

module _ (tracker : Tracker) where
  -- An enforced decision is the verdict, with its reason and rule; another names no rule, and its
  -- would-block rule only when the packet is accepted.
  abbrev pub Follows : DecisionKind → ℕ → Outcome tracker → Type 0
  Follows DecisionKind.allow id o =
      (o.verdict ≡ true) × (o.reason ≡ ip_rule_allow) × (o.rule_id ≡ some id)
  Follows DecisionKind.block id o =
      (o.verdict ≡ false) × (o.reason ≡ ip_rule_block) × (o.rule_id ≡ some id)
  Follows DecisionKind.would_block id o =
      (o.rule_id ≡ none) × (o.would_rule_id ≡ (if o.verdict then some id else none))
  Follows DecisionKind.nomatch id o = (o.rule_id ≡ none) × (o.would_rule_id ≡ none)

  kind_Follows :
      (k : DecisionKind) (id : ℕ) (a b c d : Outcome tracker)
      → Follows DecisionKind.allow id a
      → Follows DecisionKind.block id b
      → Follows DecisionKind.would_block id c
      → Follows DecisionKind.nomatch id d
      → Follows k id (elim k as (λ _. Outcome tracker) [
        | DecisionKind.allow ↦ a
        | DecisionKind.block ↦ b
        | DecisionKind.would_block ↦ c
        | DecisionKind.nomatch ↦ d
      ])
  kind_Follows DecisionKind.allow id a b c d p q r s = p
  kind_Follows DecisionKind.block id a b c d p q r s = q
  kind_Follows DecisionKind.would_block id a b c d p q r s = r
  kind_Follows DecisionKind.nomatch id a b c d p q r s = s

  module _ {A : Type 0} (q : Request A) where
    after_rules-Follows :
        (d : DecisionData) (view : Option tracker.View) (w : World tracker)
        → Follows d.kind d.rule_id (after_rules tracker q d view w)
    unfolding after_rules enforce_outcome domain_outcome
    after_rules-Follows d view w =
        kind_Follows d.kind d.rule_id _ _ _ _ (refl, refl, refl) (refl, refl, refl) (refl, refl)
          (refl, refl)

    -- The view's codes are those of the lookup.
    view_codes :
        (asks : Bool) (s : tracker.State)
        → let view = (if asks then ensure_view tracker q none s else (none, s)).0 in
          ((packet_key tracker q asks view).ct_state ≡ (ct_codes tracker q asks s).0)
          × ((packet_key tracker q asks view).ct_dir ≡ (ct_codes tracker q asks s).1)
    unfolding ensure_view packet_key
    view_codes false s = (refl, refl)
    view_codes true s = elim (Bool-cases (l4_allows_ct q.l4_status)) [
      | inr closed ↦ rw closed (refl, refl)
      | inl allowed ↦ elim (Bool-cases q.has_ct_packet) [
        | inr missing ↦ rw (allowed, missing) (refl, refl)
        | inl there ↦ rw (allowed, there) (refl, refl)
      ]
    ]

    ask_rules-key :
        (r : Rules A) (w : World tracker)
        → IsCacheOf q r.epoch r.uid_uses_ct w.packed
        → (k : PacketKey A) × IsKeyOf tracker q (asks_ct q r.epoch r.uid_uses_ct) w.ct k
          × ((ask_rules tracker q r w).0 ≡ r.evaluate k)
    unfolding ask_rules packet_key
    ask_rules-key r w good =
        let f : Bool → Bool = λ v6. r.uid_uses_ct v6 q.app_uid in
        let asks : Bool = (uses_ct q.is_ipv6 f r.epoch w.packed).0 || q.telemetry_active in
        let same : asks ≡ asks_ct q r.epoch r.uid_uses_ct =
          ap (λ b. b || q.telemetry_active) (uses_ct-asks q.is_ipv6 f r.epoch w.packed good) in
        let (state, dir) = view_codes asks w.ct in
        (
          _,
          (
            refl,
            refl,
            refl,
            refl,
            refl,
            refl,
            refl,
            refl,
            refl,
            refl,
            state ∙ ap (λ a. (ct_codes tracker q a w.ct).0) same,
            dir ∙ ap (λ a. (ct_codes tracker q a w.ct).1) same,
          ),
          refl,
        )

    asked :
        (blocked enabled : Bool) (r : Rules A) (x y : Outcome tracker)
        (f : Rules A → Outcome tracker)
        → blocked ≡ false
        → enabled ≡ true
        → (if blocked then x else if not enabled then y else f r) ≡ f r
    asked blocked enabled r x y f e h = rw (e, h) refl

    make-after_rules :
        (r : Rules A) (w : World tracker)
        → (not (bit_and q.app_iface_mask q.iface_kind_bit == 0)) ≡ false
        → q.ip_rules_enabled ≡ true
        → make tracker q (some r) w
          ≡ (let (d, view, w') = ask_rules tracker q r w in after_rules tracker q d view w')
    unfolding make
    make-after_rules r w clear on =
        asked (not (bit_and q.app_iface_mask q.iface_kind_bit == 0)) q.ip_rules_enabled r _ _
          (λ r'. let (d, view, w') = ask_rules tracker q r' w in after_rules tracker q d view w')
          clear on

-- When the interface is not blocked, the IP rules are enabled and their snapshot is compiled from
-- usable rules, and a mask of the epoch in the app's cache is that of its rules, the decision that the
-- list of rules asks for on the key of the packet, conntrack state included, is the outcome: an enforcing rule's action is the verdict, and a would-block rule is named only
-- when the packet is accepted otherwise.
pub make-Decides :
    (tracker : Tracker) {A : Type 0} ⦃ip : Ip A⦄ (q : Request A) (epoch : ℕ)
    (uses : Bool → ℕ → Bool) (rules : RulesMap) (w : World tracker)
    → All (IsUsable ip) rules
    → ip.is_addr q.src_ip ≡ true
    → ip.is_addr q.dst_ip ≡ true
    → (not (bit_and q.app_iface_mask q.iface_kind_bit == 0)) ≡ false
    → q.ip_rules_enabled ≡ true
    → IsCacheOf q epoch uses w.packed
    → (k : PacketKey A) × (d : DecisionData) × IsKeyOf tracker q (asks_ct q epoch uses) w.ct k
      × Decides ip rules k d
      × Follows tracker d.kind d.rule_id (make tracker q (some (compiled_rules epoch uses rules)) w)
make-Decides tracker ⦃ip⦄ q epoch uses rules w usable src dst clear on good =
    let r = compiled_rules epoch uses rules in
    let (k, is_key, asks) = ask_rules-key tracker q r w good in
    let (d, view, w') = ask_rules tracker q r w in
    let packet : IsPacket ip k = record {
      src_addr = ap ip.is_addr is_key.4 ∙ src;
      dst_addr = ap ip.is_addr is_key.5 ∙ dst;
    } in
    (
      k,
      d,
      is_key,
      subst (Decides ip rules k) (sym asks) (evaluate-Decides rules k usable packet),
      subst (Follows tracker d.kind d.rule_id) (sym (make-after_rules tracker q r w clear on))
          (after_rules-Follows tracker q d view w'),
    )
