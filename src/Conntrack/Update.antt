-- ===== src/Conntrack/Update.antt =====
-- `Conntrack::inspectForPolicy` on a bucket's chain, and the entry that `Conntrack::commitAccepted`
-- makes, for IPv4 (src/Conntrack.cpp). The compare-and-exchange loops are run by one thread.
use sakamoto_snort.Common.{
  ℕ, Bool, not, ◌&&◌, ◌||◌, List, [], ◌∷◌, Option, none, some, ltb, leb, ◌==◌, if◌then◌else◌,
}
use sakamoto_snort.Conntrack.Flow.{PacketV4, KeyV4, key_eq, reverse_key, Entry}
use sakamoto_snort.Conntrack.Tcp.{
  Config, has_flag, fin, syn, rst, ack, tcp_valid_update, add_timeout_ns, syn_sent, established,
  closing, fin_wait_2, time_wait, closed, timeout_for_tcp_peers, timeout_for_other_state,
  timeout_for_icmp_state,
}

pub data CtState : Type 0 where
  any new established_state invalid : CtState

pub data CtDirection : Type 0 where
  any orig reply : CtDirection

pub record CtResult : Type 0 where
  pub state : CtState
  pub direction : CtDirection

abbrev pub invalid_result : CtResult
invalid_result = record { state = invalid; direction = CtDirection.any }

unfoldable pub expired : Entry → ℕ → Bool
expired e now = not (e.expiration_ns == 0) && leb e.expiration_ns now

abbrev pub bump_at_least : ℕ → ℕ → ℕ
bump_at_least cur want = if ltb cur want then want else cur

-- The states of the sender and of the receiver after a TCP segment without `RST`.
unfoldable pub peer_states : ℕ → ℕ × ℕ → ℕ × ℕ
peer_states flags (src, dst) =
    let src₁ = if has_flag flags syn then bump_at_least src syn_sent else src in
    let src₂ = if has_flag flags fin then bump_at_least src₁ closing else src₁ in
    let dst₁ =
      if has_flag flags ack
      then (if dst == syn_sent
          then bump_at_least dst established
          else if dst == closing
          then bump_at_least dst fin_wait_2
          else dst)
      else dst in
    (src₂, dst₁)

-- `state0` and `state1` after a TCP segment.
unfoldable pub tcp_states : ℕ → Bool → ℕ × ℕ → ℕ × ℕ
unfolding peer_states
tcp_states flags is_reply (s0, s1) =
    if has_flag flags rst
    then (time_wait, time_wait)
    else if is_reply
    then (let (src, dst) = peer_states flags (s1, s0) in (dst, src))
    else peer_states flags (s0, s1)

abbrev icmp_state : Bool → ℕ → ℕ
icmp_state is_reply st = if is_reply && (st == 0) then 1 else st

unfoldable pub other_state : Bool → ℕ → ℕ
other_state is_reply st =
    if is_reply && not (st == 2) then 2 else if not is_reply && (st == 0) then 1 else st

-- `updateExisting`
unfoldable pub update_existing : Config → PacketV4 → Entry → Bool → Entry × CtState
unfolding tcp_states other_state
update_existing c pkt e is_reply =
    if pkt.proto == 6
    then (let (s0, s1) = tcp_states pkt.tcp.flags is_reply (e.state0, e.state1) in
        if not (tcp_valid_update c pkt) then (e, invalid) else (
          record e {
            state0 = s0;
            state1 = s1;
            expiration_ns = add_timeout_ns pkt.ts_ns (timeout_for_tcp_peers c.tp s0 s1);
          },
          established_state,
        ))
    else if pkt.proto == 1
    then (let st = icmp_state is_reply e.state0 in
        (
          record e {
            state0 = st;
            expiration_ns = add_timeout_ns pkt.ts_ns (timeout_for_icmp_state c.tp st);
          },
          if st == 1 then established_state else new,
        ))
    else (let st = other_state is_reply e.state0 in
        (
          record e {
            state0 = st;
            expiration_ns = add_timeout_ns pkt.ts_ns (timeout_for_other_state c.tp st);
          },
          if st == 2 then established_state else new,
        ))

abbrev pub result_of : Bool → CtState → CtResult
result_of is_reply invalid = invalid_result
result_of is_reply st = record {
  state = st;
  direction = if is_reply then CtDirection.reply else CtDirection.orig;
}

-- The traversal of the bucket's chain: `none` is a miss, as when the first entry of the key
-- has expired.
unfoldable pub inspect_chain :
    Config → PacketV4 → KeyV4 → List Entry → Option (List Entry × CtResult)
unfolding update_existing expired
inspect_chain c pkt key [] = none
inspect_chain c pkt key (e ∷ es) =
    let rest = inspect_chain c pkt key es in
    if key_eq e.key key || key_eq e.rev_key key
    then (if expired e pkt.ts_ns
        then none
        else (let is_reply = key_eq e.rev_key key in
            let (e', st) = update_existing c pkt e is_reply in
            some (e' ∷ es, result_of is_reply st)))
    else elim rest [ none ↦ none | some (es', r) ↦ some (e ∷ es', r) ]

-- The entry that a new flow starts with.
unfoldable pub new_entry : Config → PacketV4 → KeyV4 → Entry
new_entry c pkt key =
    if pkt.proto == 6
    then record {
      key = key;
      rev_key = reverse_key key;
      state0 = syn_sent;
      state1 = closed;
      expiration_ns = add_timeout_ns pkt.ts_ns c.tp.tcp_syn_sent;
    }
    else if pkt.proto == 1
    then record {
      key = key;
      rev_key = reverse_key key;
      state0 = 0;
      state1 = 0;
      expiration_ns = add_timeout_ns pkt.ts_ns c.tp.icmp_first;
    }
    else record {
      key = key;
      rev_key = reverse_key key;
      state0 = 0;
      state1 = 0;
      expiration_ns = add_timeout_ns pkt.ts_ns c.tp.udp_first;
    }
