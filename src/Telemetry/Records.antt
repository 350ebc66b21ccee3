-- ===== src/Telemetry/Records.antt =====
-- src/FlowTelemetryRecords.hpp and .cpp: the two payloads and their encoders. `none` is a fault: an
-- access past the payload. An offset or a flag's bit is the value of the source's constant.
use sakamoto_snort.Common.{
  ℕ, ◌+◌, Bool, true, false, not, ◌||◌, List, Option, none, some, is_some, bit_or, ltb, leb, ◌==◌,
  if◌then◌else◌, length, take,
}
use sakamoto_snort.Telemetry.Abi.{
  Buffer, Writer, ◌>>◌, write8, write_u16_le, write_u32_le, write_u64_le, write_bytes,
  max_payload_bytes,
}

pub data FlowRecordKind : Type 0 where
  begin update end : FlowRecordKind

pub data FlowObservationKind : Type 0 where
  normal l3_observation : FlowObservationKind

pub data FlowPacketDirection : Type 0 where
  unknown_dir in_dir out_dir : FlowPacketDirection

pub data FlowVerdict : Type 0 where
  unknown_verdict allow block : FlowVerdict

pub data FlowEndReason : Type 0 where
  no_end idle_timeout tcp_end_detected resource_evicted telemetry_disabled : FlowEndReason

abbrev pub kind_code : FlowRecordKind → ℕ
kind_code begin = 1
kind_code update = 2
kind_code end = 3

abbrev pub observation_code : FlowObservationKind → ℕ
observation_code normal = 0
observation_code l3_observation = 1

abbrev pub direction_code : FlowPacketDirection → ℕ
direction_code unknown_dir = 0
direction_code in_dir = 1
direction_code out_dir = 2

abbrev pub verdict_code : FlowVerdict → ℕ
verdict_code unknown_verdict = 0
verdict_code allow = 1
verdict_code block = 2

abbrev pub end_reason_code : FlowEndReason → ℕ
end_reason_code no_end = 0
end_reason_code idle_timeout = 1
end_reason_code tcp_end_detected = 2
end_reason_code resource_evicted = 3
end_reason_code telemetry_disabled = 4

pub record EncodedPayload : Type 0 where
  pub bytes : Buffer
  pub size : ℕ

abbrev pub empty_payload : EncodedPayload
empty_payload = record { bytes = record { size = max_payload_bytes; at = λ i. 0 }; size = 0 }

pub record FlowV1Fields : Type 0 where
  pub kind : FlowRecordKind
  pub observation_kind : FlowObservationKind
  pub ct_state : ℕ
  pub ct_dir : ℕ
  pub packet_dir : FlowPacketDirection
  pub flow_origin_dir : FlowPacketDirection
  pub verdict : FlowVerdict
  pub reason_id : ℕ
  pub iface_kind_bit : ℕ
  pub l4_status : ℕ
  pub end_reason : FlowEndReason
  pub proto : ℕ
  pub is_ipv6 : Bool
  pub picked_up_mid_stream : Bool
  pub uid_known : Bool
  pub ifindex_known : Bool
  pub ports_available : Bool
  pub src_port : ℕ
  pub dst_port : ℕ
  pub icmp_type : ℕ
  pub icmp_code : ℕ
  pub icmp_id : ℕ
  pub timestamp_ns : ℕ
  pub first_seen_ns : ℕ
  pub last_seen_ns : ℕ
  pub flow_instance_id : ℕ
  pub record_seq : ℕ
  pub uid : ℕ
  pub user_id : ℕ
  pub ifindex : ℕ
  pub src_addr : List ℕ
  pub dst_addr : List ℕ
  pub total_packets : ℕ
  pub total_bytes : ℕ
  pub in_packets : ℕ
  pub in_bytes : ℕ
  pub out_packets : ℕ
  pub out_bytes : ℕ
  pub rule_id : Option ℕ

-- `std::fill` of the first `n` bytes with zeros.
unfoldable pub fill_zero : ℕ → Writer
fill_zero n b =
    if leb n b.size
    then some (record { size = b.size; at = λ i. if ltb i n then 0 else b.at i })
    else none

-- `if (test) { flags |= bit; }`
abbrev pub set_flag : Bool → ℕ → ℕ → ℕ
set_flag test bit flags = if test then bit_or flags bit else flags

abbrev pub value_or_zero : Option ℕ → ℕ
value_or_zero none = 0
value_or_zero (some n) = n

abbrev pub address_bytes : Bool → ℕ
address_bytes is_ipv6 = if is_ipv6 then 16 else 4

unfoldable pub flow_flags : Bool → Bool → Bool → Bool → Bool → Bool → ℕ
flow_flags is_ipv6 has_rule mid_stream uid ifindex ports = set_flag ports 32 (
    set_flag ifindex 16
      (set_flag uid 8 (set_flag mid_stream 4 (set_flag has_rule 1 (set_flag is_ipv6 2 0)))))

-- The bytes of the record's kind and packet facts.
unfoldable pub write_facts : FlowV1Fields → Writer
unfolding write8 write_u16_le flow_flags
write_facts f = do
  write8 0 1
  write8 1 (kind_code f.kind)
  write8 2 (observation_code f.observation_kind)
  write8 3 f.ct_state
  write8 4 f.ct_dir
  write8 5 (direction_code f.packet_dir)
  write8 6 (direction_code f.flow_origin_dir)
  write8 7 (verdict_code f.verdict)
  write8 8 f.reason_id
  write8 9 f.iface_kind_bit
  write8 10 f.l4_status
  write8 12 (end_reason_code f.end_reason)
  write8 13 f.proto
  write_u16_le 14 (if f.ports_available then f.src_port else 0)
  write_u16_le 16 (if f.ports_available then f.dst_port else 0)
  write8 18 f.icmp_type
  write8 19 f.icmp_code
  write_u16_le 20 f.icmp_id
  write8 11 (
      flow_flags f.is_ipv6 (is_some f.rule_id) f.picked_up_mid_stream f.uid_known f.ifindex_known
        f.ports_available)

-- Its times, identities, addresses, counters and rule.
unfoldable pub write_numbers : FlowV1Fields → Writer
unfolding write_u32_le write_u64_le write_bytes
write_numbers f = do
  write_u64_le 24 f.timestamp_ns
  write_u64_le 32 f.first_seen_ns
  write_u64_le 40 f.last_seen_ns
  write_u64_le 48 f.flow_instance_id
  write_u64_le 56 f.record_seq
  write_u32_le 64 f.uid
  write_u32_le 68 f.user_id
  write_u32_le 72 f.ifindex
  write_bytes 76 f.src_addr
  write_bytes 92 f.dst_addr
  write_u64_le 108 f.total_packets
  write_u64_le 116 f.total_bytes
  write_u64_le 124 f.in_packets
  write_u64_le 132 f.in_bytes
  write_u64_le 140 f.out_packets
  write_u64_le 148 f.out_bytes
  write_u32_le 156 (value_or_zero f.rule_id)

-- `encodeFlowV1`: its result and what it leaves in `out`.
unfoldable pub encode_flow_v1 : FlowV1Fields → Option (Bool × EncodedPayload)
unfolding fill_zero write_facts write_numbers
encode_flow_v1 f =
    let want = address_bytes f.is_ipv6 in
    if not (length f.src_addr == want) || not (length f.dst_addr == want)
    then some (false, empty_payload)
    else elim ((do fill_zero 160; write_facts f; write_numbers f) empty_payload.bytes) [
      | none ↦ none
      | some bytes ↦ some (true, record { bytes = bytes; size = 160 })
    ]

pub data DomainPolicySource : Type 0 where
  custom_whitelist custom_blacklist custom_rule_white custom_rule_black : DomainPolicySource
  domain_device_wide_authorized domain_device_wide_blocked mask_fallback : DomainPolicySource

abbrev pub source_code : DomainPolicySource → ℕ
source_code custom_whitelist = 0
source_code custom_blacklist = 1
source_code custom_rule_white = 2
source_code custom_rule_black = 3
source_code domain_device_wide_authorized = 4
source_code domain_device_wide_blocked = 5
source_code mask_fallback = 6

abbrev pub max_query_name_bytes : ℕ
max_query_name_bytes = 255

abbrev pub capped_len : ℕ → ℕ
capped_len want = if ltb max_query_name_bytes want then max_query_name_bytes else want

unfoldable pub dns_flags : Bool → ℕ → ℕ
dns_flags has_rule want = set_flag (ltb (capped_len want) want) 2 (set_flag has_rule 1 0)

pub record DnsDecision : Type 0 where
  pub timestamp_ns : ℕ
  pub uid : ℕ
  pub user_id : ℕ
  pub policy_source : DomainPolicySource
  pub rule_id : Option ℕ
  pub query_name : List ℕ

-- The fixed bytes of the payload, after the zeros.
unfoldable pub write_dns_fixed : DnsDecision → ℕ → Writer
unfolding write8 write_u16_le write_u32_le write_u64_le dns_flags
write_dns_fixed d capped = do
  write8 0 1
  write8 1 (dns_flags (is_some d.rule_id) (length d.query_name))
  write8 2 (source_code d.policy_source)
  write_u16_le 4 capped
  write_u64_le 8 d.timestamp_ns
  write_u32_le 16 d.uid
  write_u32_le 20 d.user_id
  write_u32_le 24 (value_or_zero d.rule_id)

unfoldable pub write_dns : DnsDecision → ℕ → Writer
unfolding fill_zero write_dns_fixed write_bytes
write_dns d capped = do
  fill_zero (32 + capped)
  write_dns_fixed d capped
  write_bytes 32 (take capped d.query_name)

-- `encodeDnsDecisionV1`: the record holds its arguments.
unfoldable pub encode_dns_decision_v1 : DnsDecision → Option (Bool × EncodedPayload)
unfolding write_dns
encode_dns_decision_v1 d =
    let capped = capped_len (length d.query_name) in
    if ltb max_payload_bytes (32 + capped)
    then some (false, empty_payload)
    else elim (write_dns d capped empty_payload.bytes) [
      | none ↦ none
      | some bytes ↦ some (true, record { bytes = bytes; size = 32 + capped })
    ]
