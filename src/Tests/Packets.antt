-- ===== src/Tests/Packets.antt =====
-- A packet of the app of Tests/Rules.antt, through the cache of decisions and through `make`, with a
-- conntrack that counts its commits and its observations.
use sakamoto_snort.Common.{ℕ, ◌*◌, ◌≡◌, refl, suc, Bool, true, false, some, ◌==◌, ==_iff, arith}
use sakamoto_snort.IpRules.Rule.{PacketKey}
use sakamoto_snort.IpRules.Table.{evaluate}
use sakamoto_snort.IpRules.Compile.{compile_views}
use sakamoto_snort.IpRules.Family.Masks.{ip_v4}
use sakamoto_snort.IpRules.Correct.Verdict.{Decides}
use sakamoto_snort.IpRules.Cache.{
  HotSnapshot, Cache, no_decision, hot_evaluate, IsFaithful, hot_evaluate-decide,
}
use sakamoto_snort.Conntrack.Update.{invalid_result}
use sakamoto_snort.Ipv6.Walker.{known_l4}
use sakamoto_snort.Domain.Policy.{grey}
use sakamoto_snort.Packet.Make.{
  uses_ct_mask_if_fresh, Request, Tracker, Rules, World, iface_outcome, make,
}
use sakamoto_snort.Packet.Verdict.{IsCoherent, make-IsCoherent}
use sakamoto_snort.Packet.Dropped.{make-keeps}
use sakamoto_snort.Packet.Rules.{asks_ct, IsCacheOf, IsKeyOf, Follows, compiled_rules, make-Decides}
use sakamoto_snort.IpRules.Table.{DecisionData}
use sakamoto_snort.Tests.Rules.{two_rules, https_packet}

abbrev snapshot : HotSnapshot ℕ
snapshot = record {
  rules_epoch = 7;
  decide = evaluate ⦃ip = ip_v4⦄ (compile_views ⦃ip = ip_v4⦄ two_rules);
}

abbrev empty_cache : Cache ℕ
empty_cache = record {
  owner_instance_id = 1;
  entries = λ i. record { epoch = 0; key = https_packet; found = no_decision };
}

abbrev same_address : ℕ → ℕ → Bool
same_address a b = a == b

abbrev by_port : PacketKey ℕ → ℕ
by_port k = k.src_port

hot_evaluate-decide_example :
    ((hot_evaluate same_address by_port 1024 1 (some snapshot) https_packet empty_cache).0
      ≡ snapshot.decide https_packet)
    × IsFaithful same_address by_port 1024 1 snapshot
        (hot_evaluate same_address by_port 1024 1 (some snapshot) https_packet empty_cache).1
hot_evaluate-decide_example =
    hot_evaluate-decide same_address by_port 1024 (λ a b. (==_iff a b).0) 1 snapshot https_packet
      empty_cache (λ e. absurd (omega arith)) (λ owned i e. absurd (omega arith))

abbrev counter : Tracker
counter = record {
  State = ℕ × ℕ;
  View = Bool;
  inspect = λ s. (true, s);
  result = λ v. invalid_result;
  state_code = λ v. 3;
  direction_code = λ v. 0;
  commit = λ v s. (suc s.0, s.1);
  observe = λ v r i c s. (s.0, suc s.1);
}

abbrev request : Request ℕ
request = record {
  app_uid = 10001;
  is_ipv6 = false;
  src_ip = 0xC0A80002;
  dst_ip = 0x0A010203;
  input = false;
  iface = 4;
  len = 60;
  iface_kind_bit = 1;
  app_iface_mask = 2;
  l4_status = known_l4;
  proto = 6;
  src_port = 50000;
  dst_port = 443;
  ports_available = 1;
  has_ct_packet = true;
  tracked = true;
  telemetry_active = true;
  ip_rules_enabled = true;
  block_ip_leaks = true;
  has_valid_ip = false;
  blocked_domain = (false, grey);
  blocked_null = (false, grey);
}

abbrev world : World counter
world = record { ct = (0, 0); packed = 7 * 256 }

abbrev rules : Rules ℕ
rules = compiled_rules ⦃ip = ip_v4⦄ 7 (λ v6 uid. false) two_rules

cached : IsCacheOf request 7 (λ v6 uid. false) (7 * 256)
unfolding uses_ct_mask_if_fresh
cached mask fresh = let e : some 0 ≡ some mask = fresh in cc

make-Decides_example :
    (k : PacketKey ℕ) × (d : DecisionData) × IsKeyOf counter request
      (asks_ct request 7 (λ v6 uid. false))
      (0, 0)
      k
    × Decides ip_v4 two_rules k d
    × Follows counter d.kind d.rule_id (make counter request (some rules) world)
make-Decides_example =
    make-Decides counter ⦃ip = ip_v4⦄ request 7 (λ v6 uid. false) two_rules world
      (
        (
          record {
            src_prefix = omega arith;
            dst_prefix = omega arith;
            src_addr = refl;
            dst_addr = refl;
          },
          omega arith,
        ),
        (
          (
            record {
              src_prefix = omega arith;
              dst_prefix = omega arith;
              src_addr = refl;
              dst_addr = refl;
            },
            omega arith,
          ),
          tt,
        ),
      )
      refl refl refl refl cached

make-IsCoherent_example : IsCoherent counter (make counter request (some rules) world)
make-IsCoherent_example = make-IsCoherent counter request (some rules) world

-- The same packet on a blocked interface.
abbrev on_blocked : Request ℕ
on_blocked = record request { app_iface_mask = 1 }

make-keeps_example : (make counter on_blocked (some rules) world).world.ct.0 ≡ 0
unfolding make iface_outcome
make-keeps_example =
    make-keeps counter on_blocked (λ s. s.0 ≡ 0) (λ s p. p) (λ r i c s on p. p) (some rules) world
      refl refl
