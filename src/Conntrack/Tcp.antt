-- ===== src/Conntrack/Tcp.antt =====
-- The TCP and ICMP checks of `ImplV4`, its timeouts and `Conntrack::computeTcpPayloadLen`
-- (src/Conntrack.cpp). `Config` holds the timeouts and what the build's <netinet/tcp.h> decides: whether it
-- defines `TH_ECE` (0x40) and `TH_CWR` (0x80).
use sakamoto_snort.Common.{
  ℕ, ◌+◌, ◌-◌, ◌*◌, Bool, true, false, not, ◌&&◌, ◌||◌, Option, none, some, is_some, bit_and, ltb,
  leb, ◌==◌, if◌then◌else◌,
}
use sakamoto_snort.Conntrack.Flow.{PacketV4}

-- `TimeoutPolicySec`, in seconds.
pub record TimeoutPolicySec : Type 0 where
  pub tcp_syn_sent : ℕ
  pub tcp_syn_recv : ℕ
  pub tcp_established : ℕ
  pub tcp_fin_wait : ℕ
  pub tcp_time_wait : ℕ
  pub tcp_close : ℕ
  pub udp_first : ℕ
  pub udp_single : ℕ
  pub udp_multiple : ℕ
  pub icmp_first : ℕ
  pub icmp_reply : ℕ

pub record Config : Type 0 where
  pub tp : TimeoutPolicySec
  pub th_ece : Bool
  pub th_cwr : Bool

abbrev pub has_flag : ℕ → ℕ → Bool
has_flag flags bit = not (bit_and flags bit == 0)

abbrev pub fin : ℕ
fin = 0x01

abbrev pub syn : ℕ
syn = 0x02

abbrev pub rst : ℕ
rst = 0x04

abbrev pub push : ℕ
push = 0x08

abbrev pub ack : ℕ
ack = 0x10

abbrev pub urg : ℕ
urg = 0x20

unfoldable pub tcp_invalid_flags : Config → ℕ → Bool
tcp_invalid_flags c raw =
    let no_ece = if c.th_ece then bit_and raw 0xBF else raw in
    let flags = if c.th_cwr then bit_and no_ece 0x7F else no_ece in
    if has_flag flags syn && has_flag flags (rst + fin)
    then true
    else if not (has_flag flags syn) && (not (has_flag flags ack) && not (has_flag flags rst))
    then true
    else if not (has_flag flags ack) && has_flag flags (fin + (push + urg))
    then true
    else false

-- `none` where the source returns false. The header length is below 2^16, as the field is 8 bits.
unfoldable pub compute_tcp_payload_len : PacketV4 → Option ℕ
compute_tcp_payload_len pkt =
    let hdr_len = pkt.tcp.data_offset_words * 4 in
    if not pkt.has_tcp
    then none
    else if ltb pkt.tcp.data_offset_words 5
    then none
    else if ltb pkt.ip_payload_len hdr_len
    then none
    else some (pkt.ip_payload_len - hdr_len)

unfoldable pub tcp_valid_new : Config → PacketV4 → Bool
unfolding compute_tcp_payload_len tcp_invalid_flags
tcp_valid_new c pkt =
    if not pkt.has_tcp
    then false
    else if not (is_some (compute_tcp_payload_len pkt))
    then false
    else if tcp_invalid_flags c pkt.tcp.flags
    then false
    else if has_flag pkt.tcp.flags syn && has_flag pkt.tcp.flags ack
    then false
    else true

unfoldable pub tcp_valid_update : Config → PacketV4 → Bool
unfolding compute_tcp_payload_len tcp_invalid_flags
tcp_valid_update c pkt =
    if not pkt.has_tcp
    then false
    else if not (is_some (compute_tcp_payload_len pkt))
    then false
    else not (tcp_invalid_flags c pkt.tcp.flags)

unfoldable pub icmp4_valid_new : PacketV4 → Bool
icmp4_valid_new pkt =
    if not pkt.has_icmp
    then false
    else if not (pkt.icmp.code == 0)
    then false
    else (pkt.icmp.type == 8) || ((pkt.icmp.type == 13) || (pkt.icmp.type == 15))

-- Nanoseconds, up to the largest 64-bit value.
abbrev pub max_ns : ℕ
max_ns = 0xFFFFFFFFFFFFFFFF

unfoldable pub add_timeout_ns : ℕ → ℕ → ℕ
add_timeout_ns now sec =
    let d = sec * 1000000000 in if ltb (max_ns - d) now then max_ns else now + d

-- `TcpPeerState`
abbrev pub closed : ℕ
closed = 0

abbrev pub syn_sent : ℕ
syn_sent = 1

abbrev pub established : ℕ
established = 2

abbrev pub closing : ℕ
closing = 3

abbrev pub fin_wait_2 : ℕ
fin_wait_2 = 4

abbrev pub time_wait : ℕ
time_wait = 5

unfoldable pub timeout_for_tcp_peers : TimeoutPolicySec → ℕ → ℕ → ℕ
timeout_for_tcp_peers tp a b =
    if leb fin_wait_2 a && leb fin_wait_2 b
    then tp.tcp_close
    else if leb closing a && leb closing b
    then tp.tcp_fin_wait
    else if ltb a established || ltb b established
    then tp.tcp_syn_recv
    else if leb closing a || leb closing b
    then tp.tcp_time_wait
    else tp.tcp_established

-- `OtherState` is `FIRST` (0), `MULTIPLE` (1) or `BIDIR` (2).
unfoldable pub timeout_for_other_state : TimeoutPolicySec → ℕ → ℕ
timeout_for_other_state tp s =
    if s == 0
    then tp.udp_first
    else if s == 1
    then tp.udp_multiple
    else if s == 2
    then tp.udp_single
    else tp.udp_first

-- `IcmpState` is `FIRST` (0) or `REPLY` (1).
unfoldable pub timeout_for_icmp_state : TimeoutPolicySec → ℕ → ℕ
timeout_for_icmp_state tp s =
    if s == 0 then tp.icmp_first else if s == 1 then tp.icmp_reply else tp.icmp_first
