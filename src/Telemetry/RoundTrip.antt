-- ===== src/Telemetry/RoundTrip.antt =====
-- What the encoders write, a consumer reads back.
use sakamoto_snort.Common.{
  ℕ, zero, suc, ◌^◌, ◌<◌, ◌≡◌, refl, Bool, true, false, Option, some, is_some, List, [], ◌∷◌,
  if◌then◌else◌, length, get_or, ap, ◌∙◌, arith,
}
use sakamoto_snort.Telemetry.Records.{
  FlowV1Fields, kind_code, observation_code, direction_code, verdict_code, end_reason_code,
  value_or_zero, EncodedPayload, encode_flow_v1, address_bytes,
}
use sakamoto_snort.Telemetry.Abi.{max_payload_bytes, Buffer}
use sakamoto_snort.Telemetry.Flags.{FlagBits, read_flags-flow_flags, read_flags}
use sakamoto_snort.Telemetry.Consumer.{
  kind_of, observation_of, direction_of, verdict_of, end_reason_of, rule_of, read_fields,
  read_flow_v1,
}
use sakamoto_snort.Telemetry.Values.{
  kind_of-kind_code, observation_of-code, direction_of-code, verdict_of-code, end_reason_of-code,
  join16, join32, join64, join16_id, join32_id, join64_id, rule_of-value,
}

-- The fields hold numbers of their types.
abbrev pub IsFlow : FlowV1Fields → Type 0
IsFlow f =
    (f.src_port < 2 ^ 16)
    × (f.dst_port < 2 ^ 16)
    × (f.icmp_id < 2 ^ 16)
    × (f.timestamp_ns < 2 ^ 64)
    × (f.first_seen_ns < 2 ^ 64)
    × (f.last_seen_ns < 2 ^ 64)
    × (f.flow_instance_id < 2 ^ 64)
    × (f.record_seq < 2 ^ 64)
    × (f.uid < 2 ^ 32)
    × (f.user_id < 2 ^ 32)
    × (f.ifindex < 2 ^ 32)
    × (f.total_packets < 2 ^ 64)
    × (f.total_bytes < 2 ^ 64)
    × (f.in_packets < 2 ^ 64)
    × (f.in_bytes < 2 ^ 64)
    × (f.out_packets < 2 ^ 64)
    × (f.out_bytes < 2 ^ 64)
    × (value_or_zero f.rule_id < 2 ^ 32)

-- What a record shows of the fields: the ports only when they are available.
abbrev pub shown : FlowV1Fields → FlowV1Fields
shown f = record f {
  src_port = if f.ports_available then f.src_port else 0;
  dst_port = if f.ports_available then f.dst_port else 0;
}

abbrev if_small : (b : Bool) (n : ℕ) → n < 2 ^ 16 → (if b then n else 0) < 2 ^ 16
if_small true n h = h
if_small false n h = omega arith

abbrev rejoined : FlowV1Fields → FlowV1Fields
rejoined f = record f {
  kind = kind_of (kind_code f.kind);
  observation_kind = observation_of (observation_code f.observation_kind);
  packet_dir = direction_of (direction_code f.packet_dir);
  flow_origin_dir = direction_of (direction_code f.flow_origin_dir);
  verdict = verdict_of (verdict_code f.verdict);
  end_reason = end_reason_of (end_reason_code f.end_reason);
  src_port = join16 (if f.ports_available then f.src_port else 0);
  dst_port = join16 (if f.ports_available then f.dst_port else 0);
  icmp_id = join16 f.icmp_id;
  timestamp_ns = join64 f.timestamp_ns;
  first_seen_ns = join64 f.first_seen_ns;
  last_seen_ns = join64 f.last_seen_ns;
  flow_instance_id = join64 f.flow_instance_id;
  record_seq = join64 f.record_seq;
  total_packets = join64 f.total_packets;
  total_bytes = join64 f.total_bytes;
  in_packets = join64 f.in_packets;
  in_bytes = join64 f.in_bytes;
  out_packets = join64 f.out_packets;
  out_bytes = join64 f.out_bytes;
  uid = join32 f.uid;
  user_id = join32 f.user_id;
  ifindex = join32 f.ifindex;
  rule_id = rule_of (is_some f.rule_id) (join32 (value_or_zero f.rule_id));
}

rejoined-shown : (f : FlowV1Fields) → IsFlow f → rejoined f ≡ shown f
rejoined-shown f h =
    let (sp, dp, ic, t1, t2, t3, t4, t5, u, us, ix, c1, c2, c3, c4, c5, c6, ru) = h in
    rw
      (
        kind_of-kind_code f.kind,
        observation_of-code f.observation_kind,
        direction_of-code f.packet_dir,
        direction_of-code f.flow_origin_dir,
        verdict_of-code f.verdict,
        end_reason_of-code f.end_reason,
        join16_id (if f.ports_available then f.src_port else 0) (if_small f.ports_available _ sp),
        join16_id (if f.ports_available then f.dst_port else 0) (if_small f.ports_available _ dp),
        join16_id f.icmp_id ic,
        join64_id f.timestamp_ns t1,
        join64_id f.first_seen_ns t2,
        join64_id f.last_seen_ns t3,
        join64_id f.flow_instance_id t4,
        join64_id f.record_seq t5,
        join64_id f.total_packets c1,
        join64_id f.total_bytes c2,
        join64_id f.in_packets c3,
        join64_id f.in_bytes c4,
        join64_id f.out_packets c5,
        join64_id f.out_bytes c6,
        join32_id f.uid u,
        join32_id f.user_id us,
        join32_id f.ifindex ix,
        join32_id (value_or_zero f.rule_id) ru,
        rule_of-value f.rule_id,
      )
      refl

-- The encoding succeeds with a payload of 160 bytes, which reads as `g`.
abbrev Shows : FlowV1Fields → FlowV1Fields → Type 0
Shows f g =
    (p : EncodedPayload) × (encode_flow_v1 f ≡ some (true, p))
    × (p.size ≡ 160)
    × (read_flow_v1 p.bytes ≡ some g)

abbrev payload_of : (ℕ → ℕ) → Buffer
payload_of at = record { size = max_payload_bytes; at = at }

by_flags :
    (at : ℕ → ℕ) (bits : FlagBits) (r : Option FlowV1Fields)
    → read_flags (at 11) ≡ bits
    → read_fields bits (payload_of at) ≡ r
    → read_flow_v1 (payload_of at) ≡ r
unfolding read_flow_v1
by_flags at bits r e h = ap (λ x. read_fields x (payload_of at)) e ∙ h

abbrev listed : ℕ → (ℕ → ℕ) → List ℕ
listed zero g = []
listed (suc n) g = g 0 ∷ listed n (λ i. g (suc i))

as_listed : (n : ℕ) (xs : List ℕ) → length xs ≡ n → xs ≡ listed n (λ i. get_or xs i 0)
as_listed zero [] h = refl
as_listed zero (x ∷ xs) h = absurd (omega arith)
as_listed (suc n) [] h = absurd (omega arith)
as_listed (suc n) (x ∷ xs) h = ap (λ ys. x ∷ ys) (as_listed n xs (omega arith))

module _ (f : FlowV1Fields) (g g' : ℕ → ℕ) where
  abbrev with_address : Bool → FlowV1Fields
  with_address v6 = record f {
    is_ipv6 = v6;
    src_addr = listed (address_bytes v6) g;
    dst_addr = listed (address_bytes v6) g';
  }

  read_address : (v6 : Bool) → Shows (with_address v6) (rejoined (with_address v6))
  unfolding encode_flow_v1 read_fields
  read_address false = (_, refl, refl, by_flags _ _ _ (read_flags-flow_flags false _ _ _ _ _) refl)
  read_address true = (_, refl, refl, by_flags _ _ _ (read_flags-flow_flags true _ _ _ _ _) refl)

-- Over the addresses a span of the caller's may be.
read_spans :
    (f : FlowV1Fields) (v6 : Bool) (s d : List ℕ)
    → IsFlow f
    → length s ≡ address_bytes v6
    → length d ≡ address_bytes v6
    → Shows
        (record f { is_ipv6 = v6; src_addr = s; dst_addr = d })
        (shown (record f { is_ipv6 = v6; src_addr = s; dst_addr = d }))
read_spans f v6 s d h hs hd =
    rw (as_listed _ s hs, as_listed _ d hd)
      let (p, e, size, r) = read_address f (λ i. get_or s i 0) (λ i. get_or d i 0) v6 in
        (p, e, size, r ∙ ap some (rejoined-shown _ h))

-- When the numbers of the fields are of their types and both addresses have the length of the
-- family, the encoding succeeds with a payload of 160 bytes, and a consumer reads back from it every
-- field, the ports as zero when they are not available.
pub read_flow_v1-encode_flow_v1 :
    (f : FlowV1Fields)
    → IsFlow f
    → length f.src_addr ≡ address_bytes f.is_ipv6
    → length f.dst_addr ≡ address_bytes f.is_ipv6
    → (p : EncodedPayload) × (encode_flow_v1 f ≡ some (true, p))
      × (p.size ≡ 160)
      × (read_flow_v1 p.bytes ≡ some (shown f))
read_flow_v1-encode_flow_v1 f h hs hd = read_spans f f.is_ipv6 f.src_addr f.dst_addr h hs hd
