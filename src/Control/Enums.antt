-- ===== src/Control/Enums.antt =====
-- The words of the enumerations in the rule commands, src/ControlVNextSessionCommandsIpRules.cpp.
use sakamoto_snort.Common.{List, Option, none, some, if◌then◌else◌, ℕ}
use sakamoto_snort.IpRules.Rule.{Family, Action, Direction, IfaceKind, Proto, CtState, CtDirection}
use sakamoto_snort.Checkpoint.Json.{codes}
use sakamoto_snort.Checkpoint.Masks.{same_bytes}

abbrev pub parse_action : List ℕ → Option Action
parse_action s =
    if same_bytes s (codes "allow")
    then some Action.allow
    else if same_bytes s (codes "block")
    then some Action.block
    else none

abbrev pub parse_family : List ℕ → Option Family
parse_family s =
    if same_bytes s (codes "ipv4")
    then some Family.ipv4
    else if same_bytes s (codes "ipv6")
    then some Family.ipv6
    else none

abbrev pub family_str : Family → List ℕ
family_str Family.ipv4 = codes "ipv4"
family_str Family.ipv6 = codes "ipv6"

abbrev pub parse_direction : List ℕ → Option Direction
parse_direction s =
    if same_bytes s (codes "any")
    then some Direction.any
    else if same_bytes s (codes "in")
    then some Direction.inbound
    else if same_bytes s (codes "out")
    then some Direction.outbound
    else none

abbrev pub direction_str : Direction → List ℕ
direction_str Direction.any = codes "any"
direction_str Direction.inbound = codes "in"
direction_str Direction.outbound = codes "out"

abbrev pub parse_iface : List ℕ → Option IfaceKind
parse_iface s =
    if same_bytes s (codes "any")
    then some IfaceKind.any
    else if same_bytes s (codes "wifi")
    then some IfaceKind.wifi
    else if same_bytes s (codes "data")
    then some IfaceKind.mobile_data
    else if same_bytes s (codes "vpn")
    then some IfaceKind.vpn
    else if same_bytes s (codes "unmanaged")
    then some IfaceKind.unmanaged
    else none

abbrev pub iface_str : IfaceKind → List ℕ
iface_str IfaceKind.any = codes "any"
iface_str IfaceKind.wifi = codes "wifi"
iface_str IfaceKind.mobile_data = codes "data"
iface_str IfaceKind.vpn = codes "vpn"
iface_str IfaceKind.unmanaged = codes "unmanaged"

abbrev pub parse_proto : List ℕ → Option Proto
parse_proto s =
    if same_bytes s (codes "any")
    then some Proto.any
    else if same_bytes s (codes "tcp")
    then some Proto.tcp
    else if same_bytes s (codes "udp")
    then some Proto.udp
    else if same_bytes s (codes "icmp")
    then some Proto.icmp
    else if same_bytes s (codes "other")
    then some Proto.other
    else none

abbrev pub proto_str : Proto → List ℕ
proto_str Proto.any = codes "any"
proto_str Proto.tcp = codes "tcp"
proto_str Proto.udp = codes "udp"
proto_str Proto.icmp = codes "icmp"
proto_str Proto.other = codes "other"
proto_str Proto.unknown = codes "unknown"

abbrev pub parse_ct_state : List ℕ → Option CtState
parse_ct_state s =
    if same_bytes s (codes "any")
    then some CtState.any
    else if same_bytes s (codes "new")
    then some CtState.new
    else if same_bytes s (codes "established")
    then some CtState.established
    else if same_bytes s (codes "invalid")
    then some CtState.invalid
    else none

abbrev pub ct_state_str : CtState → List ℕ
ct_state_str CtState.any = codes "any"
ct_state_str CtState.new = codes "new"
ct_state_str CtState.established = codes "established"
ct_state_str CtState.invalid = codes "invalid"

abbrev pub parse_ct_direction : List ℕ → Option CtDirection
parse_ct_direction s =
    if same_bytes s (codes "any")
    then some CtDirection.any
    else if same_bytes s (codes "orig")
    then some CtDirection.orig
    else if same_bytes s (codes "reply")
    then some CtDirection.reply
    else none

abbrev pub ct_dir_str : CtDirection → List ℕ
ct_dir_str CtDirection.any = codes "any"
ct_dir_str CtDirection.orig = codes "orig"
ct_dir_str CtDirection.reply = codes "reply"
