-- ===== src/Conntrack/Keys.antt =====
-- The key of a flow and of its replies.
use sakamoto_snort.Common.{ℕ, ◌≡◌, true, false, some, arith, ◌==◌}
use sakamoto_snort.Conntrack.Flow.{
  PacketV4, KeyV4, key_eq, reverse_key, reverse_icmp_type, make_key,
}

pub key_eq_iff : (a b : KeyV4) → key_eq a b ≡ true → a ≡ b
unfolding key_eq
key_eq_iff a b h = ground arith

pub key_eq_refl : (a : KeyV4) → key_eq a a ≡ true
unfolding key_eq
key_eq_refl a = ground arith

-- What the other end sends back: addresses and ports swapped, and the answering ICMP type.
unfoldable pub IsReply : PacketV4 → PacketV4 → Type 0
IsReply p r =
    (r.uid ≡ p.uid)
    × (r.proto ≡ p.proto)
    × (r.src_ip ≡ p.dst_ip)
    × (r.dst_ip ≡ p.src_ip)
    × (r.src_port ≡ p.dst_port)
    × (r.dst_port ≡ p.src_port)
    × (r.has_tcp ≡ p.has_tcp)
    × (r.has_icmp ≡ p.has_icmp)
    × (r.icmp.type ≡ reverse_icmp_type p.icmp.type)
    × (r.icmp.code ≡ p.icmp.code)
    × (r.icmp.id ≡ p.icmp.id)

-- For the request and reply types, the reverse type has the type as its own reverse.
reverse_icmp_type_twice :
    (t : ℕ) → (reverse_icmp_type t == 0xFF) ≡ false → reverse_icmp_type (reverse_icmp_type t) ≡ t
unfolding reverse_icmp_type
reverse_icmp_type_twice t h = ground arith

reverse_icmp_type_known :
    (t : ℕ)
    → (reverse_icmp_type t == 0xFF) ≡ false
    → (reverse_icmp_type (reverse_icmp_type t) == 0xFF) ≡ false
unfolding reverse_icmp_type
reverse_icmp_type_known t h = ground arith

-- If a packet has a key, its reply has the reversed key.
pub make_key-reply :
    (p r : PacketV4) (k : KeyV4)
    → IsReply p r
    → make_key p ≡ some k
    → make_key r ≡ some (reverse_key k)
unfolding make_key reverse_key IsReply
make_key-reply p r k h e =
    ground (arith, reverse_icmp_type_twice p.icmp.type, reverse_icmp_type_known p.icmp.type)
