-- ===== src/IpRules/Table.antt =====
-- The compiled snapshot of src/IpRulesEngine.cpp: `Bucket`, `Subtable`, `UidView`, the lookups and
-- `Snapshot::evaluate`. The source writes each lookup twice, for the enforcing rules and for the
-- rules that would block (`Lane`), and again for IPv6; a vector of pointers is a list of values.
use sakamoto_snort.Common.{
  ℕ, Bool, not, ◌&&◌, List, [], ◌∷◌, Option, none, some, ltb, if◌then◌else◌, ◌==◌, ◌||◌, is_some, ℤ,
  negsuc, ltb_ℤ, eqb_ℤ, get_elem?, find, sort,
}
use sakamoto_snort.IpRules.Rule.{RuleRef, PacketKey, matches, Action}
use sakamoto_snort.IpRules.Family.{Ip}
use sakamoto_snort.IpRules.Signature.{MaskSig, MaskedKey, sig_less, key_eq, masked_key_from_packet}

pub data Lane : Type 0 where
  enforcing would : Lane

pub record Bucket (A : Type 0) : Type 0 where
  pub exact_enforce : List (RuleRef A)
  pub range_enforce : List (RuleRef A)
  pub exact_would : List (RuleRef A)
  pub range_would : List (RuleRef A)

pub record Subtable (A : Type 0) : Type 0 where
  pub sig : MaskSig
  pub max_enforce_priority : ℤ
  pub max_would_priority : ℤ
  pub buckets : List (MaskedKey A × Bucket A)

pub record UidView (A : Type 0) : Type 0 where
  pub subtables : List (Subtable A)
  pub enforce_order : List ℕ
  pub would_order : List ℕ
  pub uses_ct : Bool

-- `numeric_limits<int32_t>::min()`
abbrev pub no_priority : ℤ
no_priority = negsuc 0x7FFFFFFF

module _ {A : Type 0} where
  abbrev pub exact_of : Lane → Bucket A → List (RuleRef A)
  exact_of enforcing b = b.exact_enforce
  exact_of would b = b.exact_would

  abbrev pub range_of : Lane → Bucket A → List (RuleRef A)
  range_of enforcing b = b.range_enforce
  range_of would b = b.range_would

  abbrev pub max_of : Lane → Subtable A → ℤ
  max_of enforcing st = st.max_enforce_priority
  max_of would st = st.max_would_priority

  abbrev pub order_of : Lane → UidView A → List ℕ
  order_of enforcing v = v.enforce_order
  order_of would v = v.would_order

  unfoldable pub rule_less : RuleRef A → RuleRef A → Bool
  rule_less a b =
      if not (eqb_ℤ a.priority b.priority)
      then ltb_ℤ b.priority a.priority
      else ltb a.rule_id b.rule_id

  unfoldable pub sort_all : Bucket A → Bucket A
  sort_all b = record {
    exact_enforce = sort rule_less b.exact_enforce;
    range_enforce = sort rule_less b.range_enforce;
    exact_would = sort rule_less b.exact_would;
    range_would = sort rule_less b.range_would;
  }

  unfoldable pub order_less : Lane → Subtable A → Subtable A → Bool
  order_less lane sa sb =
      if not (eqb_ℤ (max_of lane sa) (max_of lane sb))
      then ltb_ℤ (max_of lane sb) (max_of lane sa)
      else sig_less sa.sig sb.sig

  -- `if (cand && (!best || cand->priority > bestPriority))` and what it guards.
  unfoldable pub improve : Option (RuleRef A) → Option (RuleRef A) × ℤ → Option (RuleRef A) × ℤ
  improve none s = s
  improve (some c) (b, p) =
      if not (is_some b) || ltb_ℤ p c.priority then (some c, c.priority) else (b, p)

module _ {A : Type 0} ⦃ip : Ip A⦄ where
  abbrev pub rule_matches : RuleRef A → PacketKey A → Bool
  rule_matches = matches ip.cidr_matches

  -- The first exact rule, if it matches: `exact` in the source.
  unfoldable pub exact_candidate : List (RuleRef A) → PacketKey A → Option (RuleRef A)
  exact_candidate [] k = none
  exact_candidate (r ∷ rs) k = if rule_matches r k then some r else none

  -- The loop over the range rules, up to a priority.
  unfoldable pub range_above : ℤ → List (RuleRef A) → PacketKey A → Option (RuleRef A)
  range_above p [] k = none
  range_above p (c ∷ cs) k =
      if not (ltb_ℤ p c.priority)
      then none
      else if rule_matches c k
      then some c
      else range_above p cs k

  unfoldable pub range_first : List (RuleRef A) → PacketKey A → Option (RuleRef A)
  range_first [] k = none
  range_first (c ∷ cs) k = if rule_matches c k then some c else range_first cs k

  -- `Bucket::bestEnforce` and `Bucket::bestWould`, by the lane.
  unfoldable pub best : Lane → Bucket A → PacketKey A → Option (RuleRef A)
  unfolding exact_candidate range_above range_first
  best lane b k = elim (exact_candidate (exact_of lane b) k) [
    | none ↦ range_first (range_of lane b) k
    | some e ↦ elim (range_above e.priority (range_of lane b) k) [ none ↦ some e | some c ↦ some c ]
  ]

  -- The candidate that a subtable holds for the packet.
  unfoldable pub candidate : Lane → Subtable A → PacketKey A → Option (RuleRef A)
  candidate lane st k = elim (find key_eq (masked_key_from_packet st.sig k) st.buckets) [
    | none ↦ none
    | some b ↦ best lane b k
  ]

  -- The loop of `lookupBestEnforce` and `lookupBestWould` over the order; an index out of range,
  -- which `compile` never makes, ends it.
  unfoldable pub lookup_loop :
      Lane → List (Subtable A) → List ℕ → PacketKey A → Option (RuleRef A) × ℤ → Option (RuleRef A)
  unfolding improve
  lookup_loop lane sts [] k s = s.0
  lookup_loop lane sts (i ∷ is) k s = elim (get_elem? sts i) [
    | none ↦ s.0
    | some st ↦
        if eqb_ℤ (max_of lane st) no_priority
        then s.0
        else if is_some s.0 && ltb_ℤ (max_of lane st) s.1
        then s.0
        else lookup_loop lane sts is k (improve (candidate lane st k) s)
  ]

  unfoldable pub lookup_best : Lane → List (ℕ × UidView A) → PacketKey A → Option (RuleRef A)
  unfolding lookup_loop
  lookup_best lane by_uid k = elim (find ◌==◌ k.uid by_uid) [
    | none ↦ none
    | some view ↦ lookup_loop lane view.subtables (order_of lane view) k (none, no_priority)
  ]

pub data DecisionKind : Type 0 where
  nomatch allow block would_block : DecisionKind

pub record DecisionData : Type 0 where
  pub kind : DecisionKind
  pub rule_id : ℕ
  pub stats : ℕ

abbrev pub enforce_kind : Action → DecisionKind
enforce_kind Action.allow = DecisionKind.allow
enforce_kind Action.block = DecisionKind.block

-- `Snapshot::evaluate`
unfoldable pub evaluate :
    {A : Type 0} ⦃ip : Ip A⦄ → List (ℕ × UidView A) → PacketKey A → DecisionData
evaluate by_uid k = elim (lookup_best enforcing by_uid k) [
  | some r ↦ record { kind = enforce_kind r.action; rule_id = r.rule_id; stats = r.stats }
  | none ↦ elim (lookup_best would by_uid k) [
    | some r ↦ record { kind = would_block; rule_id = r.rule_id; stats = r.stats }
    | none ↦ record { kind = nomatch; rule_id = 0; stats = 0 }
  ]
]
