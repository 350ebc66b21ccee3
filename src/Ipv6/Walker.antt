-- ===== src/Ipv6/Walker.antt =====
-- `parseIpv6L4` of src/Ipv6L4Walker.hpp and `L4ParseResult`. The payload is a list of bytes, `cur` an
-- offset into it, and a read past its end is a fault: `none`, as is running out of fuel. The sizes
-- and layouts of the headers, and the protocol numbers, are those of <netinet/*.h>.
use sakamoto_snort.Common.{
  ℕ, zero, suc, ◌+◌, ◌-◌, ◌*◌, ◌/◌, Bool, not, ◌&&◌, ◌||◌, List, Option, none, some, ltb, leb, ◌==◌,
  if◌then◌else◌, length, get_elem?,
}

pub data L4Status : Type 0 where
  known_l4 other_terminal fragment invalid_or_unavailable_l4 : L4Status

-- The result, `*l4pOut` (an offset, `none` for `nullptr`) and `*l4PayloadLenOut`.
pub record Parsed : Type 0 where
  pub status : L4Status
  pub proto : ℕ
  pub src_port : ℕ
  pub dst_port : ℕ
  pub ports_available : ℕ
  pub l4p : Option ℕ
  pub l4_len : ℕ

-- The local variables of the loop.
pub record Walk : Type 0 where
  pub cur : ℕ
  pub rem : ℕ
  pub next : ℕ
  pub hdrs : ℕ
  pub walked : ℕ

pub data Round : Type 0 where
  returns : Parsed → Round
  continues : Walk → Round

-- `static_cast<uint16_t>(std::min<size_t>(rem, 0xFFFF))`
abbrev pub clamp_len : ℕ → ℕ
clamp_len rem = if leb rem 0xFFFF then rem else 0xFFFF

abbrev pub invalid_at : ℕ → Parsed
invalid_at proto = record {
  status = invalid_or_unavailable_l4;
  proto = proto;
  src_port = 0;
  dst_port = 0;
  ports_available = 0;
  l4p = none;
  l4_len = 0;
}

-- A status without ports, with the offset and length of what follows.
abbrev pub portless : L4Status → ℕ → Option ℕ → ℕ → Parsed
portless status proto l4p rem = record {
  status = status;
  proto = proto;
  src_port = 0;
  dst_port = 0;
  ports_available = 0;
  l4p = l4p;
  l4_len = clamp_len rem;
}

abbrev pub with_ports : ℕ → ℕ → ℕ → Walk → Parsed
with_ports proto src dst w = record {
  status = known_l4;
  proto = proto;
  src_port = src;
  dst_port = dst;
  ports_available = 1;
  l4p = some w.cur;
  l4_len = clamp_len w.rem;
}

abbrev pub read : {B : Type 0} → List ℕ → ℕ → (ℕ → Option B) → Option B
read bytes i f = elim (get_elem? bytes i) [ some b ↦ f b | none ↦ none ]

-- `ntohs` of the two bytes at an offset.
abbrev pub read16 : {B : Type 0} → List ℕ → ℕ → (ℕ → Option B) → Option B
read16 bytes i f = read bytes i (λ hi. read bytes (i + 1) (λ lo. f (hi * 256 + lo)))

unfoldable pub tcp_round : List ℕ → Walk → Option Round
tcp_round bytes w =
    if ltb w.rem 20
    then some (returns (invalid_at 6))
    else read bytes (w.cur + 12) (λ b12.
      let doff = b12 / 16 in
      if ltb doff 5 || ltb w.rem (doff * 4)
      then some (returns (invalid_at 6))
      else read16 bytes w.cur
          (λ src. read16 bytes (w.cur + 2) (λ dst. some (returns (with_ports 6 src dst w)))))

unfoldable pub udp_round : List ℕ → Walk → Option Round
udp_round bytes w =
    if ltb w.rem 8
    then some (returns (invalid_at 17))
    else read16 bytes w.cur
        (λ src. read16 bytes (w.cur + 2) (λ dst. some (returns (with_ports 17 src dst w))))

unfoldable pub icmpv6_round : Walk → Option Round
icmpv6_round w =
    if ltb w.rem 8
    then some (returns (invalid_at 58))
    else some (returns (portless known_l4 58 (some w.cur) w.rem))

unfoldable pub fragment_round : List ℕ → Walk → Option Round
fragment_round bytes w =
    if ltb w.rem 8
    then some (returns (invalid_at 44))
    else read bytes w.cur (λ nxt. some (returns (portless fragment nxt (some w.cur) w.rem)))

-- An extension header whose length is `(ip6e_len + extra) * unit`.
unfoldable pub skip_round : ℕ → ℕ → List ℕ → Walk → Option Round
skip_round extra unit bytes w =
    if ltb w.rem 2
    then some (returns (invalid_at w.next))
    else read bytes w.cur (λ nxt. read bytes (w.cur + 1) (λ len.
      let hdr_len = (len + extra) * unit in
      if ltb w.rem hdr_len
      then some (returns (invalid_at nxt))
      else some (
          continues (record {
            cur = w.cur + hdr_len;
            rem = w.rem - hdr_len;
            next = nxt;
            hdrs = suc w.hdrs;
            walked = w.walked + hdr_len;
          }))))

abbrev pub budget_ok : Walk → Bool
budget_ok w = leb w.hdrs 8 && leb w.walked 256

-- The body of the loop.
unfoldable pub round : List ℕ → Walk → Option Round
unfolding tcp_round udp_round icmpv6_round fragment_round skip_round
round bytes w =
    if not (budget_ok w)
    then some (returns (invalid_at w.next))
    else if w.next == 6
    then tcp_round bytes w
    else if w.next == 17
    then udp_round bytes w
    else if w.next == 58
    then icmpv6_round w
    else if w.next == 59
    then some (returns (portless other_terminal 59 none w.rem))
    else if w.next == 44
    then fragment_round bytes w
    else if (w.next == 0) || ((w.next == 43) || (w.next == 60))
    then skip_round 1 8 bytes w
    else if w.next == 51
    then skip_round 2 4 bytes w
    else some (returns (portless other_terminal w.next (some w.cur) w.rem))

unfoldable pub walk : ℕ → List ℕ → Walk → Option Parsed
unfolding round
walk zero bytes w = none
walk (suc fuel) bytes w = elim (round bytes w) [
  | none ↦ none
  | some (returns p) ↦ some p
  | some (continues w') ↦ walk fuel bytes w'
]

abbrev pub walk_start : ℕ → List ℕ → Walk
walk_start initial_next payload = record {
  cur = 0;
  rem = length payload;
  next = initial_next;
  hdrs = 0;
  walked = 0;
}

-- With fuel for the nine headers after which the budget is spent, and one round more.
unfoldable pub parse_ipv6_l4 : ℕ → List ℕ → Option Parsed
unfolding walk
parse_ipv6_l4 initial_next payload = walk 10 payload (walk_start initial_next payload)
