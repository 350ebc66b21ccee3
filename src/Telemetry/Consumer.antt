-- ===== src/Telemetry/Consumer.antt =====
-- The flow and DNS records as a consumer of the ring reads them, by the offsets of
-- src/FlowTelemetryRecords.hpp and the readers of src/FlowTelemetryAbi.hpp. The repository has no such
-- function outside its tests: it is the specification of the encoders.
use sakamoto_snort.Common.{ℕ, Bool, Option, none, some, ◌==◌, if◌then◌else◌}
use sakamoto_snort.Telemetry.Abi.{
  Reader, ◌>>=◌, pure, read8, read_u16_le, read_u32_le, read_u64_le, read_bytes,
}
use sakamoto_snort.Telemetry.Flags.{FlagBits, read_flags, has_bit}
use sakamoto_snort.Telemetry.Records.{
  FlowRecordKind, begin, update, end, FlowObservationKind, normal, l3_observation,
  FlowPacketDirection, unknown_dir, in_dir, out_dir, FlowVerdict, unknown_verdict, allow, block,
  FlowEndReason, no_end, idle_timeout, tcp_end_detected, resource_evicted, telemetry_disabled,
  FlowV1Fields, DomainPolicySource, custom_whitelist, custom_blacklist, custom_rule_white,
  custom_rule_black, domain_device_wide_authorized, domain_device_wide_blocked, mask_fallback,
  DnsDecision, address_bytes,
}

-- A byte that the encoder never writes reads as the last of the values.
abbrev pub kind_of : ℕ → FlowRecordKind
kind_of n = if n == 1 then begin else if n == 2 then update else end

abbrev pub observation_of : ℕ → FlowObservationKind
observation_of n = if n == 0 then normal else l3_observation

abbrev pub direction_of : ℕ → FlowPacketDirection
direction_of n = if n == 0 then unknown_dir else if n == 1 then in_dir else out_dir

abbrev pub verdict_of : ℕ → FlowVerdict
verdict_of n = if n == 0 then unknown_verdict else if n == 1 then allow else block

abbrev pub end_reason_of : ℕ → FlowEndReason
end_reason_of n =
    if n == 0
    then no_end
    else if n == 1
    then idle_timeout
    else if n == 2
    then tcp_end_detected
    else if n == 3
    then resource_evicted
    else telemetry_disabled

abbrev pub source_of : ℕ → DomainPolicySource
source_of n =
    if n == 0
    then custom_whitelist
    else if n == 1
    then custom_blacklist
    else if n == 2
    then custom_rule_white
    else if n == 3
    then custom_rule_black
    else if n == 4
    then domain_device_wide_authorized
    else if n == 5
    then domain_device_wide_blocked
    else mask_fallback

abbrev pub rule_of : Bool → ℕ → Option ℕ
rule_of has_rule id = if has_rule then some id else none

-- With the flags known.
unfoldable pub read_fields : FlagBits → Reader FlowV1Fields
unfolding read8 read_u16_le read_u32_le read_u64_le read_bytes
read_fields flags = do
  kind ← read8 1
  observation ← read8 2
  ct_state ← read8 3
  ct_dir ← read8 4
  packet_dir ← read8 5
  origin_dir ← read8 6
  verdict ← read8 7
  reason_id ← read8 8
  iface_kind_bit ← read8 9
  l4_status ← read8 10
  end_reason ← read8 12
  proto ← read8 13
  src_port ← read_u16_le 14
  dst_port ← read_u16_le 16
  icmp_type ← read8 18
  icmp_code ← read8 19
  icmp_id ← read_u16_le 20
  timestamp_ns ← read_u64_le 24
  first_seen_ns ← read_u64_le 32
  last_seen_ns ← read_u64_le 40
  flow_instance_id ← read_u64_le 48
  record_seq ← read_u64_le 56
  uid ← read_u32_le 64
  user_id ← read_u32_le 68
  ifindex ← read_u32_le 72
  src_addr ← read_bytes 76 (address_bytes flags.ipv6)
  dst_addr ← read_bytes 92 (address_bytes flags.ipv6)
  total_packets ← read_u64_le 108
  total_bytes ← read_u64_le 116
  in_packets ← read_u64_le 124
  in_bytes ← read_u64_le 132
  out_packets ← read_u64_le 140
  out_bytes ← read_u64_le 148
  rule ← read_u32_le 156
  pure (record {
    kind = kind_of kind;
    observation_kind = observation_of observation;
    ct_state = ct_state;
    ct_dir = ct_dir;
    packet_dir = direction_of packet_dir;
    flow_origin_dir = direction_of origin_dir;
    verdict = verdict_of verdict;
    reason_id = reason_id;
    iface_kind_bit = iface_kind_bit;
    l4_status = l4_status;
    end_reason = end_reason_of end_reason;
    proto = proto;
    is_ipv6 = flags.ipv6;
    picked_up_mid_stream = flags.mid_stream;
    uid_known = flags.uid;
    ifindex_known = flags.ifindex;
    ports_available = flags.ports;
    src_port = src_port;
    dst_port = dst_port;
    icmp_type = icmp_type;
    icmp_code = icmp_code;
    icmp_id = icmp_id;
    timestamp_ns = timestamp_ns;
    first_seen_ns = first_seen_ns;
    last_seen_ns = last_seen_ns;
    flow_instance_id = flow_instance_id;
    record_seq = record_seq;
    uid = uid;
    user_id = user_id;
    ifindex = ifindex;
    src_addr = src_addr;
    dst_addr = dst_addr;
    total_packets = total_packets;
    total_bytes = total_bytes;
    in_packets = in_packets;
    in_bytes = in_bytes;
    out_packets = out_packets;
    out_bytes = out_bytes;
    rule_id = rule_of flags.has_rule rule;
  })

unfoldable pub read_flow_v1 : Reader FlowV1Fields
unfolding read8 read_fields
read_flow_v1 = do flags ← read8 11; read_fields (read_flags flags)

-- The flags, the name's length and the fields.
unfoldable pub read_dns_decision_v1 : Reader (Bool × DnsDecision)
unfolding read8 read_u16_le read_u32_le read_u64_le read_bytes
read_dns_decision_v1 = do
  flags ← read8 1
  source ← read8 2
  len ← read_u16_le 4
  timestamp_ns ← read_u64_le 8
  uid ← read_u32_le 16
  user_id ← read_u32_le 20
  rule ← read_u32_le 24
  name ← read_bytes 32 len
  pure (
    has_bit flags 2,
    record {
      timestamp_ns = timestamp_ns;
      uid = uid;
      user_id = user_id;
      policy_source = source_of source;
      rule_id = rule_of (has_bit flags 1) rule;
      query_name = name;
    },
  )
