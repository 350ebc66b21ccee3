-- ===== src/Conntrack/Peers.antt =====
-- The TCP state machine of `updateExisting`.
use sakamoto_snort.Common.{
  ℕ, ◌≤◌, ◌<◌, ◌≡◌, refl, ◌⊎◌, inl, inr, Bool, true, false, List, [], ◌∷◌, arith, Bool-cases,
}
use sakamoto_snort.Conntrack.Flow.{PacketV4, Entry}
use sakamoto_snort.Conntrack.Tcp.{
  Config, has_flag, fin, syn, rst, ack, tcp_valid_update, add_timeout_ns, max_ns, established,
  time_wait, timeout_for_tcp_peers, syn_sent, closed,
}
use sakamoto_snort.Conntrack.Update.{
  established_state, invalid, tcp_states, peer_states, update_existing, expired,
}

-- The segments of a connection, each with its flags and whether it is a reply.
unfoldable pub run_tcp : List (ℕ × Bool) → ℕ × ℕ → ℕ × ℕ
unfolding tcp_states
run_tcp [] s = s
run_tcp ((flags, is_reply) ∷ segments) s = run_tcp segments (tcp_states flags is_reply s)

tcp_states-grow :
    (flags : ℕ) (is_reply : Bool) (s : ℕ × ℕ)
    → s.0 ≤ time_wait
    → s.1 ≤ time_wait
    → (s.0 ≤ (tcp_states flags is_reply s).0)
      × (s.1 ≤ (tcp_states flags is_reply s).1)
      × ((tcp_states flags is_reply s).0 ≤ time_wait)
      × ((tcp_states flags is_reply s).1 ≤ time_wait)
unfolding tcp_states peer_states
tcp_states-grow flags is_reply (a, b) ha hb = ground arith

-- Whatever segments follow, neither peer's state ever goes back, and both stay below or at
-- `TIME_WAIT`, if they start there.
pub run_tcp-grows :
    (segments : List (ℕ × Bool)) (s : ℕ × ℕ)
    → s.0 ≤ time_wait
    → s.1 ≤ time_wait
    → (s.0 ≤ (run_tcp segments s).0)
      × (s.1 ≤ (run_tcp segments s).1)
      × ((run_tcp segments s).0 ≤ time_wait)
      × ((run_tcp segments s).1 ≤ time_wait)
unfolding run_tcp
run_tcp-grows [] s ha hb = (omega arith, omega arith, ha, hb)
run_tcp-grows ((flags, is_reply) ∷ segments) s ha hb =
    let (l0, l1, b0, b1) = tcp_states-grow flags is_reply s ha hb in
    let (m0, m1, c0, c1) = run_tcp-grows segments (tcp_states flags is_reply s) b0 b1 in
    (omega arith, omega arith, c0, c1)

-- No segment has `SYN`, `FIN` or `RST`.
abbrev pub IsPlain : List (ℕ × Bool) → Type 0
IsPlain [] = Unit
IsPlain ((flags, is_reply) ∷ segments) =
    (has_flag flags syn ≡ false)
    × (has_flag flags fin ≡ false)
    × (has_flag flags rst ≡ false)
    × IsPlain segments

tcp_states-half_open :
    (flags : ℕ) (is_reply : Bool) (s : ℕ × ℕ)
    → has_flag flags syn ≡ false
    → has_flag flags fin ≡ false
    → has_flag flags rst ≡ false
    → s.0 ≤ established
    → s.1 ≡ closed
    → ((tcp_states flags is_reply s).0 ≤ established) × ((tcp_states flags is_reply s).1 ≡ closed)
unfolding tcp_states peer_states
tcp_states-half_open flags is_reply (a, b) hs hf hr ha hb = ground arith

-- If the second peer is `CLOSED`, the first at most `ESTABLISHED`, and no segment has `SYN`, `FIN` or
-- `RST`, then the second stays `CLOSED` and the timeout stays the one for opening connections.
pub run_tcp-half_open :
    (tp : Config) (segments : List (ℕ × Bool)) (s : ℕ × ℕ)
    → IsPlain segments
    → s.0 ≤ established
    → s.1 ≡ closed
    → ((run_tcp segments s).1 ≡ closed)
      × (timeout_for_tcp_peers tp.tp (run_tcp segments s).0 (run_tcp segments s).1
          ≡ tp.tp.tcp_syn_recv)
unfolding run_tcp timeout_for_tcp_peers
run_tcp-half_open c [] s p ha hb = (hb, ground arith)
run_tcp-half_open c ((flags, is_reply) ∷ segments) s p ha hb =
    let (hs, hf, hr, rest) = p in
    let (ha', hb') = tcp_states-half_open flags is_reply s hs hf hr ha hb in
    run_tcp-half_open c segments (tcp_states flags is_reply s) rest ha' hb'

-- The handshake: after a reply with `SYN` and `ACK`, then a segment of the opener with `ACK`, and neither
-- with `FIN` or `RST`, a fresh connection is established on both sides and has the long timeout.
pub handshake :
    (c : Config) (f g : ℕ)
    → has_flag f syn ≡ true
    → has_flag f ack ≡ true
    → has_flag f fin ≡ false
    → has_flag f rst ≡ false
    → has_flag g ack ≡ true
    → has_flag g fin ≡ false
    → has_flag g rst ≡ false
    → (run_tcp ((f, true) ∷ (g, false) ∷ []) (syn_sent, closed) ≡ (established, established))
      × (timeout_for_tcp_peers c.tp
            (run_tcp ((f, true) ∷ (g, false) ∷ []) (syn_sent, closed)).0
            (run_tcp ((f, true) ∷ (g, false) ∷ []) (syn_sent, closed)).1
          ≡ c.tp.tcp_established)
unfolding run_tcp tcp_states peer_states timeout_for_tcp_peers
handshake c f g fs fa ff fr ga gf gr = elim (Bool-cases (has_flag g syn)) [
  | inl gs ↦ rw (fs, fa, ff, fr, ga, gf, gr, gs) (refl, refl)
  | inr gs ↦ rw (fs, fa, ff, fr, ga, gf, gr, gs) (refl, refl)
]

pub add_timeout_ns-after : (now sec : ℕ) → now < max_ns → 0 < sec → now < add_timeout_ns now sec
unfolding add_timeout_ns
add_timeout_ns-after now sec h p = ground arith

-- For a packet of TCP that is not rejected, an entry is established and lives on: it is not expired
-- at the packet's time, if all timeouts are positive and the time is below the largest value; and a
-- rejected one leaves the entry as it was.
pub update_existing-tcp :
    (c : Config) (pkt : PacketV4) (e : Entry) (is_reply : Bool)
    → pkt.proto ≡ 6
    → pkt.ts_ns < max_ns
    → ((a b : ℕ) → 0 < timeout_for_tcp_peers c.tp a b)
    → ((tcp_valid_update c pkt ≡ false) × (update_existing c pkt e is_reply ≡ (e, invalid)))
      ⊎ ((tcp_valid_update c pkt ≡ true)
          × ((update_existing c pkt e is_reply).1 ≡ established_state)
          × (expired (update_existing c pkt e is_reply).0 pkt.ts_ns ≡ false)
          × ((
            (update_existing c pkt e is_reply).0.state0,
            (update_existing c pkt e is_reply).0.state1,
          )
              ≡ tcp_states pkt.tcp.flags is_reply (e.state0, e.state1)))
unfolding update_existing expired
update_existing-tcp c pkt e is_reply is_tcp low pos = elim (Bool-cases (tcp_valid_update c pkt)) [
  | inr bad ↦ inl (bad, ground arith)
  | inl good ↦
      let s : ℕ × ℕ = tcp_states pkt.tcp.flags is_reply (e.state0, e.state1) in
      let after : pkt.ts_ns < add_timeout_ns pkt.ts_ns (timeout_for_tcp_peers c.tp s.0 s.1) =
        add_timeout_ns-after pkt.ts_ns (timeout_for_tcp_peers c.tp s.0 s.1) low (pos s.0 s.1) in
      inr (good, ground arith, ground arith, ground arith)
]
