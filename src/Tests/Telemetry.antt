-- ===== src/Tests/Telemetry.antt =====
-- A flow, a DNS decision and a ring of two small slots.
use sakamoto_snort.Common.{
  ℕ, ◌+◌, ◌*◌, ◌≤◌, ◌<◌, ◌≡◌, refl, ◌⊎◌, inl, true, false, [], ◌∷◌, some, ltb, ◌==◌, if◌then◌else◌,
  length, take, arith,
}
use sakamoto_snort.Telemetry.Abi.{Buffer, flow, dns_decision, read_u32_le, max_payload_bytes}
use sakamoto_snort.Telemetry.Records.{
  FlowV1Fields, begin, normal, in_dir, out_dir, allow, no_end, EncodedPayload, encode_flow_v1,
  DnsDecision, custom_blacklist, encode_dns_decision_v1,
}
use sakamoto_snort.Telemetry.Consumer.{read_flow_v1, read_dns_decision_v1}
use sakamoto_snort.Telemetry.RoundTrip.{shown, read_flow_v1-encode_flow_v1}
use sakamoto_snort.Telemetry.Dns.{encode_dns_decision_v1-fits, read_dns_decision_v1-encode}
use sakamoto_snort.Telemetry.Ring.{Ring, WriteResult, take_ticket, slot_for_ticket, init, try_write}
use sakamoto_snort.Telemetry.Ring.Filled.{IsPublished}
use sakamoto_snort.Telemetry.Ring.Started.{init-starts}
use sakamoto_snort.Telemetry.Ring.Written.{IsRing, written, try_write-publishes}
use sakamoto_snort.Telemetry.Ring.Attempts.{IsAttempt, try_write-IsAttempt}

-- 10.0.0.2:443, with a rule and ports.
abbrev flow_fields : FlowV1Fields
flow_fields = record {
  kind = begin;
  observation_kind = normal;
  ct_state = 1;
  ct_dir = 1;
  packet_dir = in_dir;
  flow_origin_dir = out_dir;
  verdict = allow;
  reason_id = 3;
  iface_kind_bit = 1;
  l4_status = 0;
  end_reason = no_end;
  proto = 6;
  is_ipv6 = false;
  picked_up_mid_stream = false;
  uid_known = true;
  ifindex_known = true;
  ports_available = true;
  src_port = 443;
  dst_port = 51000;
  icmp_type = 0;
  icmp_code = 0;
  icmp_id = 0;
  timestamp_ns = 5000000000;
  first_seen_ns = 1000000000;
  last_seen_ns = 5000000000;
  flow_instance_id = 77;
  record_seq = 1;
  uid = 10001;
  user_id = 0;
  ifindex = 3;
  src_addr = 10 ∷ 0 ∷ 0 ∷ 2 ∷ [];
  dst_addr = 192 ∷ 168 ∷ 1 ∷ 7 ∷ [];
  total_packets = 9;
  total_bytes = 70000;
  in_packets = 5;
  in_bytes = 60000;
  out_packets = 4;
  out_bytes = 10000;
  rule_id = some 12;
}

read_flow_v1-encode_flow_v1_example :
    (p : EncodedPayload) × (encode_flow_v1 flow_fields ≡ some (true, p))
    × (p.size ≡ 160)
    × (read_flow_v1 p.bytes ≡ some (shown flow_fields))
read_flow_v1-encode_flow_v1_example =
    read_flow_v1-encode_flow_v1 flow_fields
      (
        omega arith,
        omega arith,
        omega arith,
        omega arith,
        omega arith,
        omega arith,
        omega arith,
        omega arith,
        omega arith,
        omega arith,
        omega arith,
        omega arith,
        omega arith,
        omega arith,
        omega arith,
        omega arith,
        omega arith,
        omega arith,
      )
      refl refl

-- `ads.x` is blocked by rule 4.
abbrev decision : DnsDecision
decision = record {
  timestamp_ns = 8000000000;
  uid = 10001;
  user_id = 0;
  policy_source = custom_blacklist;
  rule_id = some 4;
  query_name = 97 ∷ 100 ∷ 115 ∷ 46 ∷ 120 ∷ [];
}

encode_dns_decision_v1-fits_example :
    (p : EncodedPayload) × (encode_dns_decision_v1 decision ≡ some (true, p))
    × (p.size ≡ 32 + length (take 255 decision.query_name))
    × (p.size ≤ 287)
    × (287 ≤ max_payload_bytes)
encode_dns_decision_v1-fits_example = encode_dns_decision_v1-fits decision

read_dns_decision_v1-encode_example :
    (p : EncodedPayload) × (encode_dns_decision_v1 decision ≡ some (true, p))
    × (read_dns_decision_v1 p.bytes
        ≡ some (
          ltb 255 (length decision.query_name),
          record decision { query_name = take 255 decision.query_name },
        ))
read_dns_decision_v1-encode_example =
    read_dns_decision_v1-encode decision (omega arith, omega arith, omega arith, omega arith)

abbrev ring : Ring
ring = record {
  cfg = record { slot_bytes = 32; slot_count = 2 };
  storage = record { size = 64; at = λ i. 0 };
  write_ticket = 3;
  inited = true;
}

-- A storage with one byte more than two slots need, and no byte of which is zero.
abbrev used_storage : Buffer
used_storage = record { size = 65; at = λ i. i + 1 }

init-starts_example :
    (b : Buffer) × (init used_storage ring.cfg ring
      ≡ some (true, record { cfg = ring.cfg; storage = b; write_ticket = 0; inited = true }))
    × IsRing (record { cfg = ring.cfg; storage = b; write_ticket = 0; inited = true })
    × ((k : ℕ) → k < 2 → read_u32_le (k * 32 + 0) b ≡ some 0)
init-starts_example =
    init-starts ring ring.cfg used_storage (omega arith, omega arith, omega arith) (omega arith)

try_write-publishes_example :
    (b : Buffer) × (try_write flow (5 ∷ 6 ∷ []) ring
      ≡ some (written 3, record (take_ticket ring) { storage = b }))
    × IsPublished (slot_for_ticket ring.cfg 3) flow (5 ∷ 6 ∷ []) 3 b
    × ((i : ℕ)
        → (i < slot_for_ticket ring.cfg 3) ⊎ (slot_for_ticket ring.cfg 3 + 32 ≤ i)
        → b.at i ≡ 0)
    × IsRing (record (take_ticket ring) { storage = b })
unfolding slot_for_ticket read_u32_le
try_write-publishes_example =
    try_write-publishes flow (5 ∷ 6 ∷ []) ring 0
      (refl, (omega arith, omega arith, omega arith), refl, omega arith) (omega arith) refl
      (inl refl)

-- Slot 1 is being written.
abbrev busy_ring : Ring
busy_ring = record ring { storage = record { size = 64; at = λ i. if i == 32 then 1 else 0 } }

try_write-IsAttempt_example :
    (o : WriteResult × Ring) × (try_write dns_decision (5 ∷ []) busy_ring ≡ some o)
    × IsAttempt dns_decision (5 ∷ []) busy_ring o
try_write-IsAttempt_example =
    try_write-IsAttempt dns_decision (5 ∷ []) busy_ring
      (refl, (omega arith, omega arith, omega arith), refl, omega arith)
