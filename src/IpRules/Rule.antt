-- ===== src/IpRules/Rule.antt =====
-- The rule, packet key and predicates of src/IpRulesEngine.hpp. Numbers stand for the machine
-- integers of the source (their ranges are hypotheses where they matter), an address of IPv4 is a
-- number in host order and one of IPv6 the list of its 16 bytes. `matches` is the test that
-- `RuleRef::matches` and `RuleRefV6::matches` both make, with the address test passed in.
use sakamoto_snort.Common.{ℕ, Bool, true, false, not, ◌&&◌, ◌||◌, List}
use sakamoto_snort.Common.{leb, ◌==◌, ℤ}

pub data Family : Type 0 where
  ipv4 ipv6 : Family

pub data Action : Type 0 where
  allow block : Action

pub data Direction : Type 0 where
  any inbound outbound : Direction

pub data IfaceKind : Type 0 where
  any wifi mobile_data vpn unmanaged : IfaceKind

pub data Proto : Type 0 where
  any tcp udp icmp other unknown : Proto

pub data CtState : Type 0 where
  any new established invalid : CtState

pub data CtDirection : Type 0 where
  any orig reply : CtDirection

pub data PortKind : Type 0 where
  any exact range : PortKind

-- The values of the enumerations, as `static_cast<uint8_t>` reads them. 0 is `ANY` in each.
abbrev pub dir_code : Direction → ℕ
dir_code Direction.any = 0
dir_code Direction.inbound = 1
dir_code Direction.outbound = 2

abbrev pub iface_code : IfaceKind → ℕ
iface_code IfaceKind.any = 0
iface_code IfaceKind.wifi = 1
iface_code IfaceKind.mobile_data = 2
iface_code IfaceKind.vpn = 4
iface_code IfaceKind.unmanaged = 128

abbrev pub proto_code : Proto → ℕ
proto_code Proto.any = 0
proto_code Proto.tcp = 6
proto_code Proto.udp = 17
proto_code Proto.icmp = 1
proto_code Proto.other = 255
proto_code Proto.unknown = 254

abbrev pub ct_state_code : CtState → ℕ
ct_state_code CtState.any = 0
ct_state_code CtState.new = 1
ct_state_code CtState.established = 2
ct_state_code CtState.invalid = 3

abbrev pub ct_dir_code : CtDirection → ℕ
ct_dir_code CtDirection.any = 0
ct_dir_code CtDirection.orig = 1
ct_dir_code CtDirection.reply = 2

pub record PortPredicate : Type 0 where
  pub kind : PortKind
  pub lo : ℕ
  pub hi : ℕ

abbrev pub is_any_kind : PortKind → Bool
is_any_kind PortKind.any = true
is_any_kind PortKind.exact = false
is_any_kind PortKind.range = false

abbrev pub is_exact_kind : PortKind → Bool
is_exact_kind PortKind.any = false
is_exact_kind PortKind.exact = true
is_exact_kind PortKind.range = false

abbrev pub is_range_kind : PortKind → Bool
is_range_kind PortKind.any = false
is_range_kind PortKind.exact = false
is_range_kind PortKind.range = true

abbrev pub is_any : PortPredicate → Bool
is_any p = is_any_kind p.kind

abbrev pub is_exact : PortPredicate → Bool
is_exact p = is_exact_kind p.kind

abbrev pub is_range : PortPredicate → Bool
is_range p = is_range_kind p.kind

port_matches_kind : PortKind → ℕ → ℕ → ℕ → Bool
port_matches_kind PortKind.any lo hi port = true
port_matches_kind PortKind.exact lo hi port = port == lo
port_matches_kind PortKind.range lo hi port = leb lo port && leb port hi

unfoldable pub port_matches : PortPredicate → ℕ → Bool
unfolding port_matches_kind
port_matches p port = port_matches_kind p.kind p.lo p.hi port

pub record Cidr (A : Type 0) : Type 0 where
  pub any : Bool
  pub addr : A
  pub prefix : ℕ

pub record RuleDef : Type 0 where
  pub rule_id : ℕ
  pub uid : ℕ
  pub client_rule_id : List ℕ
  pub family : Family
  pub action : Action
  pub priority : ℤ
  pub enabled : Bool
  pub enforce : Bool
  pub log : Bool
  pub dir : Direction
  pub iface : IfaceKind
  pub ifindex : ℕ
  pub proto : Proto
  pub src : Cidr ℕ
  pub dst : Cidr ℕ
  pub src6 : Cidr (List ℕ)
  pub dst6 : Cidr (List ℕ)
  pub sport : PortPredicate
  pub dport : PortPredicate
  pub ct_state : CtState
  pub ct_dir : CtDirection

abbrev pub has_range_ports : RuleDef → Bool
has_range_ports d = is_range d.sport || is_range d.dport

-- `PacketKeyV4` at `A = ℕ`, `PacketKeyV6` at `A = List ℕ`.
pub record PacketKey (A : Type 0) : Type 0 where
  pub uid : ℕ
  pub dir : ℕ
  pub iface_kind : ℕ
  pub proto : ℕ
  pub ifindex : ℕ
  pub src_ip : A
  pub dst_ip : A
  pub src_port : ℕ
  pub dst_port : ℕ
  pub ports_available : ℕ
  pub ct_state : ℕ
  pub ct_dir : ℕ

-- `RuleRef` and `RuleRefV6`; `stats` is the address of the rule's counters.
pub record RuleRef (A : Type 0) : Type 0 where
  pub rule_id : ℕ
  pub uid : ℕ
  pub client_rule_id : List ℕ
  pub action : Action
  pub priority : ℤ
  pub enforce : Bool
  pub log : Bool
  pub dir : Direction
  pub iface : IfaceKind
  pub ifindex : ℕ
  pub proto : Proto
  pub ct_state : CtState
  pub ct_dir : CtDirection
  pub src : Cidr A
  pub dst : Cidr A
  pub sport : PortPredicate
  pub dport : PortPredicate
  pub stats : ℕ

-- Each guard of the source, `if (g) return false`, is a conjunct `not g`.
unfoldable pub matches : {A : Type 0} → (Cidr A → A → Bool) → RuleRef A → PacketKey A → Bool
matches cidr_matches r k =
    (r.uid == k.uid)
    && (not ((k.ports_available == 0) && (not (is_any r.sport) || not (is_any r.dport)))
        && (not ((dir_code r.dir == 1) && not (k.dir == 0))
            && (not ((dir_code r.dir == 2) && not (k.dir == 1))
                && (not (not (iface_code r.iface == 0) && not (k.iface_kind == iface_code r.iface))
                    && (not (not (r.ifindex == 0) && not (k.ifindex == r.ifindex))
                        && (not
                              (not (proto_code r.proto == 0) && not (k.proto == proto_code r.proto))
                            && (not (
                                  not (ct_state_code r.ct_state == 0)
                                  && not (k.ct_state == ct_state_code r.ct_state))
                                && (not (
                                      not (ct_dir_code r.ct_dir == 0)
                                      && not (k.ct_dir == ct_dir_code r.ct_dir))
                                    && (cidr_matches r.src k.src_ip
                                        && (cidr_matches r.dst k.dst_ip
                                            && (port_matches r.sport k.src_port
                                                && port_matches r.dport k.dst_port)))))))))))
