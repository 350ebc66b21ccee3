-- ===== src/Tests/Flows.antt =====
-- A UDP flow and its reply, an ICMP echo, and the segments of a TCP handshake.
use sakamoto_snort.Common.{
  ℕ, ◌≤◌, ◌<◌, ◌≡◌, ◌==◌, refl, Bool, true, false, List, [], ◌∷◌, some, arith, ◌⊎◌,
}
use sakamoto_snort.Conntrack.Flow.{
  PacketV4, KeyV4, Entry, endpoint, make_key, reverse_key, reverse_icmp_type,
}
use sakamoto_snort.Conntrack.Tcp.{
  Config, add_timeout_ns, timeout_for_tcp_peers, tcp_valid_update, syn_sent, closed, established,
  time_wait,
}
use sakamoto_snort.Conntrack.Update.{
  inspect_chain, new_entry, update_existing, expired, tcp_states, reply, established_state, invalid,
}
use sakamoto_snort.Conntrack.Keys.{IsReply, make_key-reply}
use sakamoto_snort.Conntrack.Peers.{
  run_tcp, run_tcp-grows, run_tcp-half_open, handshake, update_existing-tcp,
}
use sakamoto_snort.Conntrack.Others.{run_other, has_reply, run_other-reply, inspect_chain-new_entry}

abbrev config : Config
config = record {
  tp = record {
    tcp_syn_sent = 30;
    tcp_syn_recv = 30;
    tcp_established = 86400;
    tcp_fin_wait = 900;
    tcp_time_wait = 45;
    tcp_close = 30;
    udp_first = 60;
    udp_single = 60;
    udp_multiple = 30;
    icmp_first = 60;
    icmp_reply = 30;
  };
  th_ece = true;
  th_cwr = true;
}

abbrev query : PacketV4
query = record {
  ts_ns = 1000;
  uid = 10001;
  src_ip = 0x0A000002;
  dst_ip = 0x08080808;
  proto = 17;
  is_fragment = false;
  ip_payload_len = 40;
  src_port = 40000;
  dst_port = 53;
  has_tcp = false;
  tcp = record { flags = 0; data_offset_words = 0 };
  has_icmp = false;
  icmp = record { type = 0; code = 0; id = 0 };
}

abbrev answer : PacketV4
answer = record query {
  ts_ns = 5000;
  src_ip = 0x08080808;
  dst_ip = 0x0A000002;
  src_port = 53;
  dst_port = 40000;
}

abbrev query_key : KeyV4
query_key = record {
  uid = 10001;
  proto = 17;
  src = endpoint 0x0A000002 40000;
  dst = endpoint 0x08080808 53;
}

abbrev ping : PacketV4
ping = record query {
  proto = 1;
  src_port = 0;
  dst_port = 0;
  has_icmp = true;
  icmp = record { type = 8; code = 0; id = 77 };
}

abbrev pong : PacketV4
pong = record ping {
  src_ip = 0x08080808;
  dst_ip = 0x0A000002;
  icmp = record { type = 0; code = 0; id = 77 };
}

abbrev ping_key : KeyV4
ping_key = record {
  uid = 10001;
  proto = 1;
  src = record { ip = 0x0A000002; port = 0; icmp_type = 8; icmp_code = 0; icmp_id = 77 };
  dst = record { ip = 0x08080808; port = 0; icmp_type = 0; icmp_code = 0; icmp_id = 77 };
}

pong-IsReply : IsReply ping pong
unfolding IsReply reverse_icmp_type
pong-IsReply = (refl, refl, refl, refl, refl, refl, refl, refl, refl, refl, refl)

ping-make_key : make_key ping ≡ some ping_key
unfolding make_key
ping-make_key = refl

make_key-reply_example : make_key pong ≡ some (reverse_key ping_key)
make_key-reply_example = make_key-reply ping pong ping_key pong-IsReply ping-make_key

answer-in_time : 5000 < add_timeout_ns 1000 60
unfolding add_timeout_ns
answer-in_time = ground arith

inspect_chain-new_entry_example :
    (after : List Entry) × (inspect_chain config answer
        (reverse_key query_key)
        (new_entry config query query_key ∷ [])
      ≡ some (after, record { state = established_state; direction = reply }))
inspect_chain-new_entry_example =
    inspect_chain-new_entry config query answer query_key [] refl refl refl answer-in_time

run_other-reply_example :
    (run_other (false ∷ true ∷ false ∷ []) 0 == 2) ≡ has_reply (false ∷ true ∷ false ∷ [])
run_other-reply_example = run_other-reply (false ∷ true ∷ false ∷ []) 0 (omega arith)

abbrev segments : List (ℕ × Bool)
segments = (0x12, true) ∷ (0x10, false) ∷ (0x11, false) ∷ []

run_tcp-grows_example :
    (1 ≤ (run_tcp segments (1, 0)).0)
    × (0 ≤ (run_tcp segments (1, 0)).1)
    × ((run_tcp segments (1, 0)).0 ≤ time_wait)
    × ((run_tcp segments (1, 0)).1 ≤ time_wait)
run_tcp-grows_example = run_tcp-grows segments (1, 0) (omega arith) (omega arith)

abbrev acks : List (ℕ × Bool)
acks = (0x10, true) ∷ (0x18, false) ∷ []

run_tcp-half_open_example :
    ((run_tcp acks (1, 0)).1 ≡ closed)
    × (timeout_for_tcp_peers config.tp (run_tcp acks (1, 0)).0 (run_tcp acks (1, 0)).1 ≡ 30)
run_tcp-half_open_example =
    run_tcp-half_open config acks (1, 0) (refl, refl, refl, (refl, refl, refl, tt)) (omega arith)
      refl

handshake_example :
    (run_tcp ((0x12, true) ∷ (0x10, false) ∷ []) (syn_sent, closed) ≡ (established, established))
    × (timeout_for_tcp_peers config.tp
          (run_tcp ((0x12, true) ∷ (0x10, false) ∷ []) (syn_sent, closed)).0
          (run_tcp ((0x12, true) ∷ (0x10, false) ∷ []) (syn_sent, closed)).1
        ≡ 86400)
handshake_example = handshake config 0x12 0x10 refl refl refl refl refl refl refl

abbrev syn_ack : PacketV4
syn_ack = record query {
  proto = 6;
  has_tcp = true;
  tcp = record { flags = 0x12; data_offset_words = 5 };
}

abbrev opening : Entry
opening = record {
  key = query_key;
  rev_key = query_key;
  state0 = 1;
  state1 = 0;
  expiration_ns = 2000;
}

positive : (a b : ℕ) → 0 < timeout_for_tcp_peers config.tp a b
unfolding timeout_for_tcp_peers
positive a b = ground arith

update_existing-tcp_example :
    ((tcp_valid_update config syn_ack ≡ false)
      × (update_existing config syn_ack opening true ≡ (opening, invalid)))
    ⊎ ((tcp_valid_update config syn_ack ≡ true)
        × ((update_existing config syn_ack opening true).1 ≡ established_state)
        × (expired (update_existing config syn_ack opening true).0 1000 ≡ false)
        × ((
          (update_existing config syn_ack opening true).0.state0,
          (update_existing config syn_ack opening true).0.state1,
        )
            ≡ tcp_states 0x12 true (1, 0)))
update_existing-tcp_example =
    update_existing-tcp config syn_ack opening true refl (omega arith) positive
