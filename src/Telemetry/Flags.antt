-- ===== src/Telemetry/Flags.antt =====
-- The flag bytes of the two payloads: each flag is read back from its bit.
use sakamoto_snort.Common.{ℕ, ◌≡◌, Bool, not, bit_and, ltb, ◌==◌, arith}
use sakamoto_snort.Telemetry.Records.{flow_flags, dns_flags}

abbrev pub has_bit : ℕ → ℕ → Bool
has_bit flags bit = not (bit_and flags bit == 0)

pub record FlagBits : Type 0 where
  pub has_rule : Bool
  pub ipv6 : Bool
  pub mid_stream : Bool
  pub uid : Bool
  pub ifindex : Bool
  pub ports : Bool

abbrev pub read_flags : ℕ → FlagBits
read_flags n = record {
  has_rule = has_bit n 1;
  ipv6 = has_bit n 2;
  mid_stream = has_bit n 4;
  uid = has_bit n 8;
  ifindex = has_bit n 16;
  ports = has_bit n 32;
}

pub read_flags-flow_flags :
    (a b c d e f : Bool)
    → read_flags (flow_flags a b c d e f)
      ≡ record { has_rule = b; ipv6 = a; mid_stream = c; uid = d; ifindex = e; ports = f }
unfolding flow_flags
read_flags-flow_flags a b c d e f = ground arith

pub read_flags-dns_flags :
    (has_rule : Bool) (want : ℕ)
    → (has_bit (dns_flags has_rule want) 1 ≡ has_rule)
      × (has_bit (dns_flags has_rule want) 2 ≡ ltb 255 want)
unfolding dns_flags
read_flags-dns_flags has_rule want = ground arith
