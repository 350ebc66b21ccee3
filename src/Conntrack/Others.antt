-- ===== src/Conntrack/Others.antt =====
-- The flows without connections (UDP among them), and the path of a new flow to its replies.
use sakamoto_snort.Common.{
  ℕ, ◌≤◌, ◌<◌, ◌≡◌, refl, inl, inr, Bool, true, false, ◌||◌, List, [], ◌∷◌, arith, ◌==◌, Bool-cases,
  some,
}
use sakamoto_snort.Conntrack.Flow.{PacketV4, Entry, KeyV4, key_eq, reverse_key}
use sakamoto_snort.Conntrack.Tcp.{Config, add_timeout_ns}
use sakamoto_snort.Conntrack.Update.{
  reply, established_state, other_state, update_existing, expired, inspect_chain, new_entry,
}
use sakamoto_snort.Conntrack.Keys.{key_eq_refl}

unfoldable pub run_other : List Bool → ℕ → ℕ
unfolding other_state
run_other [] s = s
run_other (is_reply ∷ directions) s = run_other directions (other_state is_reply s)

unfoldable pub has_reply : List Bool → Bool
has_reply [] = false
has_reply (is_reply ∷ directions) = is_reply || has_reply directions

run_other-bidir : (directions : List Bool) → run_other directions 2 ≡ 2
unfolding run_other other_state
run_other-bidir [] = refl
run_other-bidir (true ∷ directions) = run_other-bidir directions
run_other-bidir (false ∷ directions) = run_other-bidir directions

-- A flow that has had no reply becomes `BIDIR`, the state that counts as established, exactly when
-- one of its packets is a reply, in whatever order they come.
pub run_other-reply :
    (directions : List Bool) (s : ℕ) → s ≤ 1 → (run_other directions s == 2) ≡ has_reply directions
unfolding run_other other_state has_reply
run_other-reply [] s h = ground arith
run_other-reply (true ∷ directions) s h =
    let clear : (s == 2) ≡ false = ground arith in rw (clear, run_other-bidir directions) refl
run_other-reply (false ∷ directions) s h = elim (Bool-cases (s == 0)) [
  | inl e ↦ rw e (run_other-reply directions 1 (omega arith))
  | inr e ↦ rw e (run_other-reply directions s h)
]

-- A reply to an entry that is new, of a protocol other than TCP and ICMP, is established.
new_entry-fields :
    (c : Config) (pkt : PacketV4) (k : KeyV4)
    → ((new_entry c pkt k).key ≡ k) × ((new_entry c pkt k).rev_key ≡ reverse_key k)
unfolding new_entry
new_entry-fields c pkt k = ground arith

new_entry-other :
    (c : Config) (pkt : PacketV4) (k : KeyV4)
    → (pkt.proto == 6) ≡ false
    → (pkt.proto == 1) ≡ false
    → ((new_entry c pkt k).state0 ≡ 0)
      × ((new_entry c pkt k).expiration_ns ≡ add_timeout_ns pkt.ts_ns c.tp.udp_first)
unfolding new_entry
new_entry-other c pkt k h g = ground arith

updated-other :
    (c : Config) (r : PacketV4) (e : Entry)
    → (r.proto == 6) ≡ false
    → (r.proto == 1) ≡ false
    → e.state0 ≡ 0
    → (update_existing c r e true).1 ≡ established_state
unfolding update_existing other_state
updated-other c r e h g z = rw (h, g, z) refl

inspect_chain-reply :
    (c : Config) (r : PacketV4) (k : KeyV4) (e : Entry) (es : List Entry)
    → e.rev_key ≡ k
    → expired e r.ts_ns ≡ false
    → (update_existing c r e true).1 ≡ established_state
    → (after : List Entry) × (inspect_chain c r k (e ∷ es)
        ≡ some (after, record { state = established_state; direction = reply }))
unfolding inspect_chain
inspect_chain-reply c r k e es is_key live st =
    let hit : key_eq e.rev_key k ≡ true = rw is_key (key_eq_refl k) in
    let here : (key_eq e.key k || key_eq e.rev_key k) ≡ true = ground arith in
    ((update_existing c r e true).0 ∷ es, rw (here, live, hit, st) refl)

-- When a packet of a protocol other than TCP and ICMP has made an entry, the first packet that
-- comes back before the entry expires is found in the chain as an established reply.
pub inspect_chain-new_entry :
    (c : Config) (pkt r : PacketV4) (k : KeyV4) (es : List Entry)
    → (r.proto == 6) ≡ false
    → (r.proto == 1) ≡ false
    → r.proto ≡ pkt.proto
    → r.ts_ns < add_timeout_ns pkt.ts_ns c.tp.udp_first
    → (after : List Entry) × (inspect_chain c r (reverse_key k) (new_entry c pkt k ∷ es)
        ≡ some (after, record { state = established_state; direction = reply }))
unfolding expired
inspect_chain-new_entry c pkt r k es h g same live =
    let (_, rev) = new_entry-fields c pkt k in
    let (z, exp) = new_entry-other c pkt k (rw (← same) h) (rw (← same) g) in
    inspect_chain-reply c r (reverse_key k) (new_entry c pkt k) es rev (rw exp (ground arith))
      (updated-other c r (new_entry c pkt k) h g z)
