-- ===== src/Conntrack/Flow.antt =====
-- `PacketV4` of src/Conntrack.hpp, and the keys and entries of `ImplV4` in src/Conntrack.cpp.
-- Numbers stand for the machine integers; an entry's telemetry is left out, since nothing here
-- reads or writes it. Protocol numbers are those of <netinet/in.h>.
use sakamoto_snort.Common.{ℕ, Bool, not, ◌&&◌, ◌||◌, Option, none, some, ◌==◌, if◌then◌else◌}

pub record TcpMeta : Type 0 where
  pub flags : ℕ
  pub data_offset_words : ℕ

pub record IcmpMeta : Type 0 where
  pub type : ℕ
  pub code : ℕ
  pub id : ℕ

pub record PacketV4 : Type 0 where
  pub ts_ns : ℕ
  pub uid : ℕ
  pub src_ip : ℕ
  pub dst_ip : ℕ
  pub proto : ℕ
  pub is_fragment : Bool
  pub ip_payload_len : ℕ
  pub src_port : ℕ
  pub dst_port : ℕ
  pub has_tcp : Bool
  pub tcp : TcpMeta
  pub has_icmp : Bool
  pub icmp : IcmpMeta

pub record Endpoint : Type 0 where
  pub ip : ℕ
  pub port : ℕ
  pub icmp_type : ℕ
  pub icmp_code : ℕ
  pub icmp_id : ℕ

pub record KeyV4 : Type 0 where
  pub uid : ℕ
  pub proto : ℕ
  pub src : Endpoint
  pub dst : Endpoint

unfoldable pub key_eq : KeyV4 → KeyV4 → Bool
key_eq a b =
    (a.uid == b.uid)
    && ((a.proto == b.proto)
        && ((a.src.ip == b.src.ip)
            && ((a.dst.ip == b.dst.ip)
                && ((a.src.port == b.src.port)
                    && ((a.dst.port == b.dst.port)
                        && ((a.src.icmp_type == b.src.icmp_type)
                            && ((a.dst.icmp_type == b.dst.icmp_type)
                                && ((a.src.icmp_code == b.src.icmp_code)
                                    && ((a.dst.icmp_code == b.dst.icmp_code)
                                        && ((a.src.icmp_id == b.src.icmp_id)
                                            && (a.dst.icmp_id == b.dst.icmp_id)))))))))))

unfoldable pub reverse_key : KeyV4 → KeyV4
reverse_key k = record k { src = k.dst; dst = k.src }

unfoldable pub reverse_icmp_type : ℕ → ℕ
reverse_icmp_type type =
    if type == 8
    then 0
    else if type == 0
    then 8
    else if type == 13
    then 14
    else if type == 14
    then 13
    else if type == 15
    then 16
    else if type == 16
    then 15
    else 0xFF

abbrev pub endpoint : ℕ → ℕ → Endpoint
endpoint ip port = record { ip = ip; port = port; icmp_type = 0; icmp_code = 0; icmp_id = 0 }

abbrev icmp_endpoint : ℕ → ℕ → IcmpMeta → Endpoint
icmp_endpoint ip type icmp = record {
  ip = ip;
  port = 0;
  icmp_type = type;
  icmp_code = icmp.code;
  icmp_id = icmp.id;
}

abbrev key_of : PacketV4 → Endpoint → Endpoint → Option KeyV4
key_of pkt src dst = some (record { uid = pkt.uid; proto = pkt.proto; src = src; dst = dst })

abbrev ports_key : PacketV4 → Option KeyV4
ports_key pkt =
    if (pkt.src_port == 0) || (pkt.dst_port == 0)
    then none
    else key_of pkt (endpoint pkt.src_ip pkt.src_port) (endpoint pkt.dst_ip pkt.dst_port)

-- `makeKey`: `none` where it returns false.
unfoldable pub make_key : PacketV4 → Option KeyV4
unfolding reverse_icmp_type
make_key pkt =
    if pkt.proto == 6
    then (if not pkt.has_tcp then none else ports_key pkt)
    else if pkt.proto == 17
    then ports_key pkt
    else if pkt.proto == 1
    then (let rtype = reverse_icmp_type pkt.icmp.type in
        if not pkt.has_icmp
        then none
        else if rtype == 0xFF
        then none
        else if not (pkt.icmp.code == 0)
        then none
        else key_of pkt (icmp_endpoint pkt.src_ip pkt.icmp.type pkt.icmp)
            (icmp_endpoint pkt.dst_ip rtype pkt.icmp))
    else key_of pkt (endpoint pkt.src_ip 0) (endpoint pkt.dst_ip 0)

-- `state0` and `state1` hold the value of a `TcpPeerState`, `IcmpState` or `OtherState`.
pub record Entry : Type 0 where
  pub key : KeyV4
  pub rev_key : KeyV4
  pub state0 : ℕ
  pub state1 : ℕ
  pub expiration_ns : ℕ
