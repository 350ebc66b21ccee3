-- ===== src/IpRules/V6.antt =====
-- The IPv6 copies that src/IpRulesEngine.cpp has of the snapshot's code: the generic definitions
-- at addresses of 16 bytes.
use sakamoto_snort.Common.{ℕ, Bool, List, Option}
use sakamoto_snort.IpRules.Rule.{RuleDef, PacketKey, RuleRef}
use sakamoto_snort.IpRules.Family.Masks.{ip_v6}
use sakamoto_snort.IpRules.Signature.{
  MaskSig, MaskedKey, mask_sig_for_rule, masked_key_from_packet, masked_key_from_rule,
}
use sakamoto_snort.IpRules.Table.{
  Lane, Bucket, Subtable, UidView, DecisionData, rule_matches, best, lookup_best, evaluate,
}
use sakamoto_snort.IpRules.Compile.{RuleState, RulesMap, file_rule, compile_views}

-- `maskSigForRuleV6`
abbrev pub mask_sig_for_rule_v6 : RuleDef → MaskSig
mask_sig_for_rule_v6 = mask_sig_for_rule ip_v6

-- `maskedKeyFromPacketV6`
abbrev pub masked_key_from_packet_v6 : MaskSig → PacketKey (List ℕ) → MaskedKey (List ℕ)
masked_key_from_packet_v6 = masked_key_from_packet ⦃ip = ip_v6⦄

-- `maskedKeyFromRuleV6`
abbrev pub masked_key_from_rule_v6 : MaskSig → RuleDef → MaskedKey (List ℕ)
masked_key_from_rule_v6 = masked_key_from_rule ⦃ip = ip_v6⦄

-- `RuleRefV6::matches`
abbrev pub matches_v6 : RuleRef (List ℕ) → PacketKey (List ℕ) → Bool
matches_v6 = rule_matches ⦃ip = ip_v6⦄

-- `BucketV6::bestEnforce` and `bestWould`
abbrev pub best_v6 : Lane → Bucket (List ℕ) → PacketKey (List ℕ) → Option (RuleRef (List ℕ))
best_v6 = best ⦃ip = ip_v6⦄

-- The overloads of `lookupBestEnforce` and `lookupBestWould`.
abbrev pub lookup_best_v6 :
    Lane → List (ℕ × UidView (List ℕ)) → PacketKey (List ℕ) → Option (RuleRef (List ℕ))
lookup_best_v6 = lookup_best ⦃ip = ip_v6⦄

-- The overload of `Snapshot::evaluate`.
abbrev pub evaluate_v6 : List (ℕ × UidView (List ℕ)) → PacketKey (List ℕ) → DecisionData
evaluate_v6 = evaluate ⦃ip = ip_v6⦄

-- The second branch of the loop of `compile`.
abbrev pub file_rule_v6 : RuleState → Subtable (List ℕ) → Subtable (List ℕ)
file_rule_v6 = file_rule ⦃ip = ip_v6⦄

-- The loop that publishes `byUid6`.
abbrev pub compile_views_v6 : RulesMap → List (ℕ × UidView (List ℕ))
compile_views_v6 = compile_views ⦃ip = ip_v6⦄
