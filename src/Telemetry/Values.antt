-- ===== src/Telemetry/Values.antt =====
-- The numbers of the enumerations and the bytes of an integer, turned back into what they stand for.
use sakamoto_snort.Common.{
  ℕ, ◌+◌, ◌*◌, ◌/◌, ◌%◌, ◌^◌, ◌<◌, ◌≡◌, refl, Option, none, some, is_some, arith,
}
use sakamoto_snort.Telemetry.Records.{
  FlowRecordKind, kind_code, FlowObservationKind, observation_code, FlowPacketDirection,
  direction_code, FlowVerdict, verdict_code, FlowEndReason, end_reason_code, DomainPolicySource,
  source_code, value_or_zero,
}
use sakamoto_snort.Telemetry.Consumer.{
  kind_of, observation_of, direction_of, verdict_of, end_reason_of, source_of, rule_of,
}

pub kind_of-kind_code : (k : FlowRecordKind) → kind_of (kind_code k) ≡ k
kind_of-kind_code FlowRecordKind.begin = refl
kind_of-kind_code FlowRecordKind.update = refl
kind_of-kind_code FlowRecordKind.end = refl

pub observation_of-code : (k : FlowObservationKind) → observation_of (observation_code k) ≡ k
observation_of-code FlowObservationKind.normal = refl
observation_of-code FlowObservationKind.l3_observation = refl

pub direction_of-code : (k : FlowPacketDirection) → direction_of (direction_code k) ≡ k
direction_of-code FlowPacketDirection.unknown_dir = refl
direction_of-code FlowPacketDirection.in_dir = refl
direction_of-code FlowPacketDirection.out_dir = refl

pub verdict_of-code : (k : FlowVerdict) → verdict_of (verdict_code k) ≡ k
verdict_of-code FlowVerdict.unknown_verdict = refl
verdict_of-code FlowVerdict.allow = refl
verdict_of-code FlowVerdict.block = refl

pub end_reason_of-code : (k : FlowEndReason) → end_reason_of (end_reason_code k) ≡ k
end_reason_of-code FlowEndReason.no_end = refl
end_reason_of-code FlowEndReason.idle_timeout = refl
end_reason_of-code FlowEndReason.tcp_end_detected = refl
end_reason_of-code FlowEndReason.resource_evicted = refl
end_reason_of-code FlowEndReason.telemetry_disabled = refl

-- What a consumer makes of the bytes of a number.
abbrev pub join16 : ℕ → ℕ
join16 v = v % 256 + v / 256 % 256 * 256

abbrev pub join32 : ℕ → ℕ
join32 v = v % 256 + v / 256 % 256 * 256 + v / 65536 % 256 * 65536 + v / 16777216 % 256 * 16777216

abbrev pub join64 : ℕ → ℕ
join64 v = join32 (v % 2 ^ 32) + join32 (v / 2 ^ 32 % 2 ^ 32) * 2 ^ 32

pub join16_id : (v : ℕ) → v < 2 ^ 16 → join16 v ≡ v
join16_id v h = omega arith

pub join32_id : (v : ℕ) → v < 2 ^ 32 → join32 v ≡ v
join32_id v h = omega arith

pub join64_id : (v : ℕ) → v < 2 ^ 64 → join64 v ≡ v
join64_id v h =
    let lo = join32_id (v % 2 ^ 32) (omega arith) in
    let hi = join32_id (v / 2 ^ 32 % 2 ^ 32) (omega arith) in omega arith

pub rule_of-value : (r : Option ℕ) → rule_of (is_some r) (value_or_zero r) ≡ r
rule_of-value none = refl
rule_of-value (some n) = refl

pub source_of-code : (k : DomainPolicySource) → source_of (source_code k) ≡ k
source_of-code DomainPolicySource.custom_whitelist = refl
source_of-code DomainPolicySource.custom_blacklist = refl
source_of-code DomainPolicySource.custom_rule_white = refl
source_of-code DomainPolicySource.custom_rule_black = refl
source_of-code DomainPolicySource.domain_device_wide_authorized = refl
source_of-code DomainPolicySource.domain_device_wide_blocked = refl
source_of-code DomainPolicySource.mask_fallback = refl
