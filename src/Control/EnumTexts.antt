-- ===== src/Control/EnumTexts.antt =====
-- The words of the enumerations: none has a `|`, and each is told by its text.
use sakamoto_snort.Common.{ℕ, ◌≡◌, refl, List, Option, some, if◌then◌else◌}
use sakamoto_snort.IpRules.Rule.{Family, Direction, IfaceKind, Proto, CtState, CtDirection}
use sakamoto_snort.Checkpoint.Json.{codes}
use sakamoto_snort.Checkpoint.Masks.{same_bytes}
use sakamoto_snort.Control.Words.{split_at}
use sakamoto_snort.Control.Enums.{
  parse_family, family_str, parse_direction, direction_str, parse_iface, iface_str, parse_proto,
  proto_str, parse_ct_state, ct_state_str, parse_ct_direction, ct_dir_str,
}
use sakamoto_snort.Control.Texts.{NoBar}

pub family_str-NoBar : (f : Family) → NoBar (family_str f)
unfolding split_at
family_str-NoBar Family.ipv4 = refl
family_str-NoBar Family.ipv6 = refl

pub direction_str-NoBar : (d : Direction) → NoBar (direction_str d)
unfolding split_at
direction_str-NoBar Direction.any = refl
direction_str-NoBar Direction.inbound = refl
direction_str-NoBar Direction.outbound = refl

pub iface_str-NoBar : (i : IfaceKind) → NoBar (iface_str i)
unfolding split_at
iface_str-NoBar IfaceKind.any = refl
iface_str-NoBar IfaceKind.wifi = refl
iface_str-NoBar IfaceKind.mobile_data = refl
iface_str-NoBar IfaceKind.vpn = refl
iface_str-NoBar IfaceKind.unmanaged = refl

pub proto_str-NoBar : (p : Proto) → NoBar (proto_str p)
unfolding split_at
proto_str-NoBar Proto.any = refl
proto_str-NoBar Proto.tcp = refl
proto_str-NoBar Proto.udp = refl
proto_str-NoBar Proto.icmp = refl
proto_str-NoBar Proto.other = refl
proto_str-NoBar Proto.unknown = refl

pub ct_state_str-NoBar : (s : CtState) → NoBar (ct_state_str s)
unfolding split_at
ct_state_str-NoBar CtState.any = refl
ct_state_str-NoBar CtState.new = refl
ct_state_str-NoBar CtState.established = refl
ct_state_str-NoBar CtState.invalid = refl

pub ct_dir_str-NoBar : (d : CtDirection) → NoBar (ct_dir_str d)
unfolding split_at
ct_dir_str-NoBar CtDirection.any = refl
ct_dir_str-NoBar CtDirection.orig = refl
ct_dir_str-NoBar CtDirection.reply = refl

pub parse_family-str : (f : Family) → parse_family (family_str f) ≡ some f
parse_family-str Family.ipv4 = refl
parse_family-str Family.ipv6 = refl

pub parse_direction-str : (d : Direction) → parse_direction (direction_str d) ≡ some d
parse_direction-str Direction.any = refl
parse_direction-str Direction.inbound = refl
parse_direction-str Direction.outbound = refl

pub parse_iface-str : (i : IfaceKind) → parse_iface (iface_str i) ≡ some i
parse_iface-str IfaceKind.any = refl
parse_iface-str IfaceKind.wifi = refl
parse_iface-str IfaceKind.mobile_data = refl
parse_iface-str IfaceKind.vpn = refl
parse_iface-str IfaceKind.unmanaged = refl

-- `parse_proto`, which does not read `unknown`, and that.
unfoldable pub read_proto : List ℕ → Option Proto
read_proto s = if same_bytes s (codes "unknown") then some Proto.unknown else parse_proto s

pub read_proto-str : (p : Proto) → read_proto (proto_str p) ≡ some p
unfolding read_proto
read_proto-str Proto.any = refl
read_proto-str Proto.tcp = refl
read_proto-str Proto.udp = refl
read_proto-str Proto.icmp = refl
read_proto-str Proto.other = refl
read_proto-str Proto.unknown = refl

pub parse_ct_state-str : (s : CtState) → parse_ct_state (ct_state_str s) ≡ some s
parse_ct_state-str CtState.any = refl
parse_ct_state-str CtState.new = refl
parse_ct_state-str CtState.established = refl
parse_ct_state-str CtState.invalid = refl

pub parse_ct_direction-str : (d : CtDirection) → parse_ct_direction (ct_dir_str d) ≡ some d
parse_ct_direction-str CtDirection.any = refl
parse_ct_direction-str CtDirection.orig = refl
parse_ct_direction-str CtDirection.reply = refl
