-- ===== src/Checkpoint/Enums.antt =====
-- The casts between the enumerations of src/IpRulesEngine.hpp and the numbers of a bundle, as
-- src/PolicyCheckpoint.cpp makes them: any 32-bit number is cast to `uint8_t`, and `outside` is where the
-- enumeration has no such value (the source keeps the number).
use sakamoto_snort.Common.{ℕ, Option, none, some, ◌==◌, if◌then◌else◌}
use sakamoto_snort.IpRules.Rule.{
  Family, Action, Direction, IfaceKind, Proto, CtState, CtDirection, PortKind,
}
use sakamoto_snort.Checkpoint.Json.{Result, ok, outside}

abbrev pub named : {A : Type 0} → Option A → Result A
named none = outside
named (some a) = ok a

abbrev pub family_code : Family → ℕ
family_code Family.ipv4 = 4
family_code Family.ipv6 = 6

abbrev pub action_code : Action → ℕ
action_code Action.allow = 0
action_code Action.block = 1

abbrev pub port_kind_code : PortKind → ℕ
port_kind_code PortKind.any = 0
port_kind_code PortKind.exact = 1
port_kind_code PortKind.range = 2

-- The casts, of a byte.
abbrev pub family_of : ℕ → Option Family
family_of n = if n == 4 then some Family.ipv4 else if n == 6 then some Family.ipv6 else none

abbrev pub action_of : ℕ → Option Action
action_of n = if n == 0 then some Action.allow else if n == 1 then some Action.block else none

abbrev pub direction_of : ℕ → Option Direction
direction_of n =
    if n == 0
    then some Direction.any
    else if n == 1
    then some Direction.inbound
    else if n == 2
    then some Direction.outbound
    else none

abbrev pub iface_of : ℕ → Option IfaceKind
iface_of n =
    if n == 0
    then some IfaceKind.any
    else if n == 1
    then some IfaceKind.wifi
    else if n == 2
    then some IfaceKind.mobile_data
    else if n == 4
    then some IfaceKind.vpn
    else if n == 128
    then some IfaceKind.unmanaged
    else none

abbrev pub proto_of : ℕ → Option Proto
proto_of n =
    if n == 0
    then some Proto.any
    else if n == 6
    then some Proto.tcp
    else if n == 17
    then some Proto.udp
    else if n == 1
    then some Proto.icmp
    else if n == 255
    then some Proto.other
    else if n == 254
    then some Proto.unknown
    else none

abbrev pub ct_state_of : ℕ → Option CtState
ct_state_of n =
    if n == 0
    then some CtState.any
    else if n == 1
    then some CtState.new
    else if n == 2
    then some CtState.established
    else if n == 3
    then some CtState.invalid
    else none

abbrev pub ct_direction_of : ℕ → Option CtDirection
ct_direction_of n =
    if n == 0
    then some CtDirection.any
    else if n == 1
    then some CtDirection.orig
    else if n == 2
    then some CtDirection.reply
    else none

abbrev pub port_kind_of : ℕ → PortKind
port_kind_of n = if n == 0 then PortKind.any else if n == 1 then PortKind.exact else PortKind.range
