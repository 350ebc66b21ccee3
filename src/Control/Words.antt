-- ===== src/Control/Words.antt =====
-- The words of the rule commands, src/ControlVNextSessionCommandsIpRules.cpp: what its `parse` functions read and
-- its `format` and `Str` functions write. A text is the list of its bytes. `inet_pton` and `inet_ntop`
-- are parameters, on addresses in the order of the rule.
use sakamoto_snort.Common.{
  ℕ, ◌+◌, ◌/◌, ◌%◌, ◌^◌, Bool, true, false, not, ◌||◌, List, [], ◌∷◌, ◌++◌, Option, none, some, ltb,
  ◌==◌, if◌then◌else◌, bit_and,
}
use sakamoto_snort.IpRules.Rule.{PortKind, PortPredicate, Cidr}
use sakamoto_snort.IpRules.Family.{mask_from_prefix, byte_mask, zero_from, and_at}
use sakamoto_snort.Netstring.Codec.{all_digits, decimal_value, to_decimal}
use sakamoto_snort.Checkpoint.Json.{codes}
use sakamoto_snort.Checkpoint.Masks.{same_bytes}

pub record Inet : Type 0 where
  pub pton4 : List ℕ → Option ℕ
  pub ntop4 : ℕ → Option (List ℕ)
  pub pton6 : List ℕ → Option (List ℕ)
  pub ntop6 : List ℕ → Option (List ℕ)

abbrev pub is_empty_text : List ℕ → Bool
is_empty_text [] = true
is_empty_text (c ∷ cs) = false

-- `parseDec` of src/IpRulesContract.hpp for a `uint32_t`: `std::from_chars` over the whole text.
unfoldable pub parse_dec : List ℕ → Option ℕ
unfolding decimal_value
parse_dec s =
    if is_empty_text s || not (all_digits s)
    then none
    else if ltb (decimal_value 0 s) (2 ^ 32)
    then some (decimal_value 0 s)
    else none

-- What stands before and after the first `c`.
unfoldable pub split_at : ℕ → List ℕ → Option (List ℕ × List ℕ)
split_at c [] = none
split_at c (d ∷ ds) =
    let rest = split_at c ds in
    if d == c
    then some ([], ds)
    else elim rest [ none ↦ none | some (before, after) ↦ some (d ∷ before, after) ]

abbrev pub any_v4 : Cidr ℕ
any_v4 = record { any = true; addr = 0; prefix = 0 }

abbrev pub any_v6 : Cidr (List ℕ)
any_v6 = record {
  any = true;
  addr = 0 ∷ 0 ∷ 0 ∷ 0 ∷ 0 ∷ 0 ∷ 0 ∷ 0 ∷ 0 ∷ 0 ∷ 0 ∷ 0 ∷ 0 ∷ 0 ∷ 0 ∷ 0 ∷ [];
  prefix = 0;
}

-- The host bits of an IPv6 address cleared.
unfoldable pub clear_host_bits : ℕ → List ℕ → List ℕ
unfolding zero_from and_at
clear_host_bits prefix bytes =
    let full = prefix / 8 in
    let rem_bits = prefix % 8 in
    if ltb prefix 128
    then (if not (rem_bits == 0)
        then zero_from (full + 1) (and_at full (byte_mask rem_bits) bytes)
        else zero_from full bytes)
    else bytes

-- The address and the prefix of a CIDR, whose `/` is 47.
abbrev pub split_cidr : {A : Type 0} → ℕ → (List ℕ → Option A) → List ℕ → Option (A × ℕ)
split_cidr bits pton v = elim (split_at 47 v) [
  | none ↦ none
  | some (ip, len) ↦ if is_empty_text ip || is_empty_text len then none else elim (parse_dec len) [
    | none ↦ none
    | some prefix ↦
        if ltb bits prefix then none else elim (pton ip) [ none ↦ none | some a ↦ some (a, prefix) ]
  ]
]

unfoldable pub number_text : ℕ → List ℕ
number_text n = to_decimal (n + 1) n

abbrev format_port_kind : PortKind → ℕ → ℕ → List ℕ
format_port_kind PortKind.any lo hi = codes "any"
format_port_kind PortKind.exact lo hi = number_text lo
format_port_kind PortKind.range lo hi = number_text lo ++ (45 ∷ number_text hi)

unfoldable pub format_port_predicate : PortPredicate → List ℕ
format_port_predicate p = format_port_kind p.kind p.lo p.hi

module _ (net : Inet) where
  unfoldable pub parse_cidr_text_v4 : List ℕ → Option (Cidr ℕ)
  parse_cidr_text_v4 v =
      if same_bytes v (codes "any") then some any_v4 else elim (split_cidr 32 net.pton4 v) [
        | none ↦ none
        | some (a, prefix) ↦
            some
              (record { any = false; addr = bit_and a (mask_from_prefix prefix); prefix = prefix })
      ]

  unfoldable pub parse_cidr_text_v6 : List ℕ → Option (Cidr (List ℕ))
  parse_cidr_text_v6 v =
      if same_bytes v (codes "any") then some any_v6 else elim (split_cidr 128 net.pton6 v) [
        | none ↦ none
        | some (a, prefix) ↦
            some (record { any = false; addr = clear_host_bits prefix a; prefix = prefix })
      ]

  unfoldable pub format_cidr_v4 : Cidr ℕ → List ℕ
  format_cidr_v4 c = if c.any then codes "any" else elim (net.ntop4 c.addr) [
    | none ↦ codes "any"
    | some t ↦ t ++ (47 ∷ number_text c.prefix)
  ]

  unfoldable pub format_cidr_v6 : Cidr (List ℕ) → List ℕ
  format_cidr_v6 c = if c.any then codes "any" else elim (net.ntop6 c.addr) [
    | none ↦ codes "any"
    | some t ↦ t ++ (47 ∷ number_text c.prefix)
  ]

-- A range, whose `-` is 45, or one port.
unfoldable pub parse_port_text : List ℕ → Option PortPredicate
parse_port_text v =
    if same_bytes v (codes "any")
    then some (record { kind = PortKind.any; lo = 0; hi = 0 })
    else elim (split_at 45 v) [
      | some (before, after) ↦
          if is_empty_text before || is_empty_text after then none else elim (parse_dec before) [
            | none ↦ none
            | some lo ↦ elim (parse_dec after) [
              | none ↦ none
              | some hi ↦
                  if ltb 65535 lo || ltb 65535 hi || ltb hi lo
                  then none
                  else some (record { kind = PortKind.range; lo = lo; hi = hi })
            ]
          ]
      | none ↦ elim (parse_dec v) [
        | none ↦ none
        | some n ↦
            if ltb 65535 n then none else some (record { kind = PortKind.exact; lo = n; hi = n })
      ]
    ]
